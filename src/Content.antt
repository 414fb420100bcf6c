-- ===== src/Content.antt =====
-- Calendars and contact cards: their content lines and times.
pub mod Lines
pub mod Times
mod Tests
