-- ===== src/Search.antt =====
-- The search field and the message list's filters.
pub mod Query
pub mod Fts
pub mod Dates
pub mod ListFilter
mod Tests
