-- ===== src/Server.antt =====
-- src/server.rs: requests over HTTP, their slots, the index that answers them, and what is answered.
pub mod Outcome
pub mod Percent
pub mod Json
pub mod Backend
pub mod State
pub mod Request
pub mod Status
pub mod Handle
pub mod Slots
