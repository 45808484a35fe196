-- ===== src/Canonical/ReadBack.antt =====
-- Each type's encoding determines the value.
pub mod Members
pub mod Authority
pub mod Policy
pub mod Request
pub mod Evidence
pub mod Decision
pub mod Approval
pub mod Execution
