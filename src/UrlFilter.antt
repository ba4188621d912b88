-- ===== src/UrlFilter.antt =====
-- src/url_filter.rs: which URLs may be stored.
pub mod Address
pub mod Names
pub mod Filter
