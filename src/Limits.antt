-- ===== src/Limits.antt =====
-- src/limits.rs: the expiring cache, the discard counters and the cleaning of logged text.
pub mod Cache
pub mod Counters
pub mod LogText
