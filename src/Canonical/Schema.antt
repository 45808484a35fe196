-- ===== src/Canonical/Schema.antt =====
-- `_encode_domain` of canonical.py: one encoder for each type that is modelled.
pub mod Authority
pub mod Policy
pub mod Request
pub mod Evidence
pub mod Decision
pub mod Approval
pub mod Execution
pub mod Attestation
