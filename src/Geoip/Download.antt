-- ===== src/Geoip/Download.antt =====
-- src/geoip/download: acquiring a file.
pub mod Error
pub mod Cooldown
pub mod Guard
pub mod Settings
