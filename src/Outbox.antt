-- ===== src/Outbox.antt =====
-- The outbox: crates/mailcore/src/store/queue.rs (the `send_queue` table) and the submit and flush
-- of crates/mailcore/src/sync/sender/client.rs.
pub mod Page
pub mod Row
pub mod Keys
pub mod Store
pub mod Schedule
pub mod DateHeader
pub mod Flush
mod Tests
