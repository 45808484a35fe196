-- ===== src/Canonical/Schema/Approval.antt =====
-- The schemas of `_encode_domain` in canonical.py for receipts and pending approvals.
use nest_authz.Prelude.{[], ◌∷◌, Result}
use nest_authz.Domain.Status.{
  ApproverAuthorizationStatus, ApprovalRequirementStatus, ApprovalStatus,
}
use nest_authz.Canonical.Values.{
  approver_authorization_status_value, approval_requirement_status_value, approval_status_value,
}
use nest_authz.Domain.Receipt.{DecisionReceipt}
use nest_authz.Domain.Approval.{
  ApproverAuthorizationResult, ApprovalRequirementState, PendingApproval,
}
use nest_authz.Canonical.Bytes.{Bytes}
use nest_authz.Canonical.Encode.{
  encode_string, encode_integer, encode_optional, encode_sequence, encode_record,
}
use nest_authz.Canonical.Schema.Authority.{
  encode_approver_subject_principal_binding, encode_sha256_digest, encode_subject,
}
use nest_authz.Canonical.Schema.Policy.{encode_approval_requirement}
use nest_authz.Canonical.Schema.Decision.{encode_outcome}

unfoldable pub encode_approver_authorization_status : ApproverAuthorizationStatus → Result Bytes
encode_approver_authorization_status value =
    encode_record "nest-authz/approver-authorization-status@1"
      (("value", encode_string (approver_authorization_status_value value)) ∷ [])

unfoldable pub encode_approver_authorization_result : ApproverAuthorizationResult → Result Bytes
encode_approver_authorization_result value =
    encode_record "nest-authz/approver-authorization-result@1" (
      ("status", encode_approver_authorization_status value.status)
      ∷ ("actor", encode_subject value.actor)
      ∷ ("binding", encode_approver_subject_principal_binding value.binding)
      ∷ ("required_requirement", encode_approval_requirement value.required_requirement)
      ∷ ("attempted_requirement", encode_approval_requirement value.attempted_requirement)
      ∷ [])

unfoldable pub encode_approval_requirement_status : ApprovalRequirementStatus → Result Bytes
encode_approval_requirement_status value =
    encode_record "nest-authz/approval-requirement-status@1"
      (("value", encode_string (approval_requirement_status_value value)) ∷ [])

unfoldable pub encode_approval_status : ApprovalStatus → Result Bytes
encode_approval_status value =
    encode_record "nest-authz/approval-status@1"
      (("value", encode_string (approval_status_value value)) ∷ [])

unfoldable pub encode_approval_requirement_state : ApprovalRequirementState → Result Bytes
encode_approval_requirement_state value = encode_record "nest-authz/approval-requirement-state@2" (
    ("requirement", encode_approval_requirement value.requirement)
    ∷ ("status", encode_approval_requirement_status value.status)
    ∷ ("authorization", encode_optional encode_approver_authorization_result value.authorization)
    ∷ ("logical_time", encode_integer value.logical_time)
    ∷ [])

unfoldable pub encode_decision_receipt : DecisionReceipt → Result Bytes
encode_decision_receipt value = encode_record "nest-authz/decision-receipt@2" (
    ("request_digest", encode_sha256_digest value.request_digest)
    ∷ ("policy_bundle_digest", encode_sha256_digest value.policy_bundle_digest)
    ∷ (
      "validated_authority_digest",
      encode_optional encode_sha256_digest value.validated_authority_digest,
    )
    ∷ (
      "delegation_chain_digest",
      encode_optional encode_sha256_digest value.delegation_chain_digest,
    )
    ∷ (
      "authorization_state_digest",
      encode_optional encode_sha256_digest value.authorization_state_digest,
    )
    ∷ (
      "subject_principal_binding_evidence_digest",
      encode_optional encode_sha256_digest value.subject_principal_binding_evidence_digest,
    )
    ∷ (
      "authority_applicability_evidence_digest",
      encode_optional encode_sha256_digest value.authority_applicability_evidence_digest,
    )
    ∷ ("decision_digest", encode_sha256_digest value.decision_digest)
    ∷ ("outcome", encode_outcome value.outcome)
    ∷ (
      "approval_requirements",
      encode_sequence encode_approval_requirement value.approval_requirements,
    )
    ∷ [])

unfoldable pub encode_pending_approval : PendingApproval → Result Bytes
encode_pending_approval value = encode_record "nest-authz/pending-approval@2" (
    ("receipt", encode_decision_receipt value.receipt)
    ∷ ("receipt_digest", encode_sha256_digest value.receipt_digest)
    ∷ (
      "requirement_states",
      encode_sequence encode_approval_requirement_state value.requirement_states,
    )
    ∷ ("logical_time", encode_integer value.logical_time)
    ∷ ("consumed_at", encode_optional encode_integer value.consumed_at)
    ∷ (
      "execution_permit_digest",
      encode_optional encode_sha256_digest value.execution_permit_digest,
    )
    ∷ ("status", encode_approval_status value.status)
    ∷ [])
