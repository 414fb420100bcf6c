-- ===== src/Background.antt =====
-- What the app does in the background: crates/mailcore/src/sync/background and the quiet hours of
-- an account.
pub mod QuietHours
pub mod Schedule
pub mod Times
mod Tests
