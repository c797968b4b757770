-- ===== src/Watch.antt =====
-- src/watch.rs: from file system events to scans and to the event checkpoint.
pub mod Filter
pub mod Fold
pub mod Event
pub mod Counts
pub mod PathMap
pub mod Pending
pub mod Inbox
pub mod Process
pub mod Checkpoint
pub mod Worker
