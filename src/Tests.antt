-- ===== src/Tests.antt =====
-- The development's definitions at concrete inputs: a small world of addresses and prefixes, and
-- the theorems applied in it.
mod World
mod Witnesses
mod Lookups
mod Files
mod Transfers
mod Sources
