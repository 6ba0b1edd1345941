-- ===== src/Approvals.antt =====
-- Founder resolution of a sandbox request, and its resumption:
-- app/services/company_os_sandbox_approval_service.py.
pub mod Binding
pub mod Resolve
pub mod Resume
pub mod Outcome
pub mod Authority
pub mod Effects
pub mod Once
pub mod Settled
pub mod Recorded
pub mod Refusal
