-- ===== src/Net.antt =====
-- Addresses, and what the source takes of the crates `ipnet` and `prefix_trie`.
pub mod Address
pub mod Networks
