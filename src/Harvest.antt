-- ===== src/Harvest.antt =====
-- src/harvest.rs: message timestamps and the URLs of a message.
pub mod Timestamp
pub mod Urls
