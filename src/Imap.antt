-- ===== src/Imap.antt =====
-- The IMAP side: crates/mailcore/src/sync/imap.
pub mod Paths
pub mod Utf16
pub mod Base64
pub mod Utf7
pub mod Sequences
pub mod Cache
pub mod Server
pub mod Action
pub mod Search
pub mod Mailbox
pub mod Sync
pub mod Older
pub mod Toggles
mod Tests
