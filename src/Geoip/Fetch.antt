-- ===== src/Geoip/Fetch.antt =====
-- src/geoip/download/fetch.rs: one transfer. A path is known by the file it names; what the HTTP
-- client answers, what the decoders read out of a file and which system calls fail are parameters.
pub mod Redact
pub mod Writer
pub mod Transfer
pub mod Stream
pub mod Materialise
pub mod Run
