-- ===== src/Database.antt =====
-- src/db.rs: the texts and the sets of ids with which the table of files is asked.
pub mod Prefix
pub mod Like
pub mod Seen
