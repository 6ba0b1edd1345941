-- ===== src/Examples.antt =====
-- Tests and examples on concrete inputs.
pub mod Data
mod Workflow
mod Policy
mod Integration
pub mod Sandbox
pub mod Coordinator
mod Audit
pub mod Approvals
mod Founder
mod Adapters
mod Agent
mod Tasks
