-- ===== src/Sync.antt =====
-- What every frontend's jobs share: crates/mailcore/src/sync.
pub mod Pool
pub mod Accounts
mod Tests
