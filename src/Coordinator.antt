-- ===== src/Coordinator.antt =====
-- The governed path of one synthetic action.
pub mod Native
pub mod Ruling
pub mod Payload
pub mod Inputs
pub mod Action
pub mod Report
pub mod Clearance
pub mod Effects
pub mod Freshness
pub mod Recorded
