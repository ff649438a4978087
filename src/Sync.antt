-- ===== src/Sync.antt =====
-- The syncer between the mount and the server: internal/mount/syncer.
pub mod Writeback
pub mod Names
pub mod Kept
pub mod Reconcile
pub mod Poll
pub mod Watch
pub mod Download
pub mod First
