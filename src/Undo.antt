-- ===== src/Undo.antt =====
-- Undoable delete, archive and move: crates/mailcore/src/undo.rs and crates/mailcore/src/undo.
pub mod Moves
pub mod Grace
mod Tests
pub mod Queue
