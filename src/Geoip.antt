-- ===== src/Geoip.antt =====
-- src/geoip: the geo half: acquiring the databases, and looking addresses up in them.
pub mod Download
pub mod Fetch
pub mod Private
pub mod Record
pub mod Extra
pub mod Reading
pub mod Engine
pub mod Refresh
pub mod Opening
pub mod Sources
pub mod Provision
