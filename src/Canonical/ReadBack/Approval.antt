-- ===== src/Canonical/ReadBack/Approval.antt =====
-- Values with the same encoding are equal: receipts and approvals.
use nest_authz.Prelude.{All, refl, string_eq}
use nest_authz.Canonical.Join.{IsEncoder, same_values}
use nest_authz.Canonical.Records.{record-IsEncoder, encode_record-not_null}
use nest_authz.Canonical.Primitives.{IsPresent, integer-IsEncoder}
use nest_authz.Canonical.Containers.{
  Every, optional_integer-IsEncoder, sequence-IsEncoder, optional-IsEncoder,
}
use nest_authz.Domain.Hex.{IsDigest}
use nest_authz.Domain.Receipt.{DecisionReceipt}
use nest_authz.Domain.Approval.{
  ApproverAuthorizationResult, ApprovalRequirementState, PendingApproval,
}
use nest_authz.Canonical.ReadBack.Members.{
  outcome-IsEncoder, approver_authorization_status-IsEncoder, approval_requirement_status-IsEncoder,
  approval_status-IsEncoder,
}
use nest_authz.Canonical.Schema.Authority.{encode_sha256_digest}
use nest_authz.Canonical.ReadBack.Authority.{
  subject-IsEncoder, sha256_digest-IsEncoder, sha256_digest-IsPresent,
  approver_subject_principal_binding-IsEncoder,
}
use nest_authz.Canonical.Schema.Policy.{encode_approval_requirement}
use nest_authz.Canonical.ReadBack.Policy.{
  approval_requirement-IsEncoder, IsCanonicalApprovalRequirement,
}
use nest_authz.Canonical.Schema.Approval.{
  encode_approver_authorization_result, encode_approval_requirement_state, encode_decision_receipt,
  encode_pending_approval,
}

-- What the constructors of domain.py assure: digests of 32 bytes and sorted maps.
pub record IsCanonicalApproverAuthorizationResult (value : ApproverAuthorizationResult)
    : Type 0 where
  pub required_requirement : IsCanonicalApprovalRequirement value.required_requirement
  pub attempted_requirement : IsCanonicalApprovalRequirement value.attempted_requirement

pub approver_authorization_result-IsEncoder :
    IsEncoder IsCanonicalApproverAuthorizationResult encode_approver_authorization_result
unfolding encode_approver_authorization_result
approver_authorization_result-IsEncoder =
    record-IsEncoder "nest-authz/approver-authorization-result@1" _ (λ a b. refl)
      (λ a. (
        approver_authorization_status-IsEncoder.frames a.status,
        (
          subject-IsEncoder.frames a.actor,
          (
            approver_subject_principal_binding-IsEncoder.frames a.binding,
            (
              approval_requirement-IsEncoder.frames a.required_requirement,
              (approval_requirement-IsEncoder.frames a.attempted_requirement, tt),
            ),
          ),
        ),
      ))
      (λ a b v w e i. record {
        status = same_values approver_authorization_status-IsEncoder tt tt e.0 i;
        actor = same_values subject-IsEncoder tt tt e.1.0 i;
        binding = same_values approver_subject_principal_binding-IsEncoder tt tt e.1.1.0 i;
        required_requirement =
            same_values approval_requirement-IsEncoder v.required_requirement w.required_requirement
              e.1.1.1.0 i;
        attempted_requirement =
            same_values approval_requirement-IsEncoder v.attempted_requirement
              w.attempted_requirement e.1.1.1.1.0 i;
      })

pub approver_authorization_result-IsPresent : IsPresent encode_approver_authorization_result
unfolding encode_approver_authorization_result
approver_authorization_result-IsPresent a b h k = encode_record-not_null _ _ b h k

-- What the constructors of domain.py assure: digests of 32 bytes and sorted maps.
pub record IsCanonicalApprovalRequirementState (value : ApprovalRequirementState) : Type 0 where
  pub requirement : IsCanonicalApprovalRequirement value.requirement
  pub authorization : Every IsCanonicalApproverAuthorizationResult value.authorization

pub approval_requirement_state-IsEncoder :
    IsEncoder IsCanonicalApprovalRequirementState encode_approval_requirement_state
unfolding encode_approval_requirement_state
approval_requirement_state-IsEncoder =
    record-IsEncoder "nest-authz/approval-requirement-state@2" _ (λ a b. refl)
      (λ a. (
        approval_requirement-IsEncoder.frames a.requirement,
        (
          approval_requirement_status-IsEncoder.frames a.status,
          (
            (optional-IsEncoder IsCanonicalApproverAuthorizationResult
                  encode_approver_authorization_result approver_authorization_result-IsEncoder
                  approver_authorization_result-IsPresent).frames
                a.authorization,
            (integer-IsEncoder.frames a.logical_time, tt),
          ),
        ),
      ))
      (λ a b v w e i. record {
        requirement = same_values approval_requirement-IsEncoder v.requirement w.requirement e.0 i;
        status = same_values approval_requirement_status-IsEncoder tt tt e.1.0 i;
        authorization =
            same_values
              (optional-IsEncoder IsCanonicalApproverAuthorizationResult
                encode_approver_authorization_result approver_authorization_result-IsEncoder
                approver_authorization_result-IsPresent)
              v.authorization w.authorization e.1.1.0 i;
        logical_time = same_values integer-IsEncoder tt tt e.1.1.1.0 i;
      })

-- What the constructors of domain.py assure: digests of 32 bytes and sorted maps.
pub record IsCanonicalDecisionReceipt (value : DecisionReceipt) : Type 0 where
  pub request_digest : IsDigest value.request_digest
  pub policy_bundle_digest : IsDigest value.policy_bundle_digest
  pub validated_authority_digest : Every IsDigest value.validated_authority_digest
  pub delegation_chain_digest : Every IsDigest value.delegation_chain_digest
  pub authorization_state_digest : Every IsDigest value.authorization_state_digest
  pub subject_principal_binding_evidence_digest :
      Every IsDigest value.subject_principal_binding_evidence_digest
  pub authority_applicability_evidence_digest :
      Every IsDigest value.authority_applicability_evidence_digest
  pub decision_digest : IsDigest value.decision_digest
  pub approval_requirements : All IsCanonicalApprovalRequirement value.approval_requirements

pub decision_receipt-IsEncoder : IsEncoder IsCanonicalDecisionReceipt encode_decision_receipt
unfolding encode_decision_receipt
decision_receipt-IsEncoder =
    record-IsEncoder "nest-authz/decision-receipt@2" _ (λ a b. refl)
      (λ a. (
        sha256_digest-IsEncoder.frames a.request_digest,
        (
          sha256_digest-IsEncoder.frames a.policy_bundle_digest,
          (
            (optional-IsEncoder IsDigest encode_sha256_digest sha256_digest-IsEncoder
                  sha256_digest-IsPresent).frames
                a.validated_authority_digest,
            (
              (optional-IsEncoder IsDigest encode_sha256_digest sha256_digest-IsEncoder
                    sha256_digest-IsPresent).frames
                  a.delegation_chain_digest,
              (
                (optional-IsEncoder IsDigest encode_sha256_digest sha256_digest-IsEncoder
                      sha256_digest-IsPresent).frames
                    a.authorization_state_digest,
                (
                  (optional-IsEncoder IsDigest encode_sha256_digest sha256_digest-IsEncoder
                        sha256_digest-IsPresent).frames
                      a.subject_principal_binding_evidence_digest,
                  (
                    (optional-IsEncoder IsDigest encode_sha256_digest sha256_digest-IsEncoder
                          sha256_digest-IsPresent).frames
                        a.authority_applicability_evidence_digest,
                    (
                      sha256_digest-IsEncoder.frames a.decision_digest,
                      (
                        outcome-IsEncoder.frames a.outcome,
                        (
                          (sequence-IsEncoder IsCanonicalApprovalRequirement
                                encode_approval_requirement approval_requirement-IsEncoder).frames
                              a.approval_requirements,
                          tt,
                        ),
                      ),
                    ),
                  ),
                ),
              ),
            ),
          ),
        ),
      ))
      (λ a b v w e i. record {
        request_digest =
            same_values sha256_digest-IsEncoder v.request_digest w.request_digest e.0 i;
        policy_bundle_digest =
            same_values sha256_digest-IsEncoder v.policy_bundle_digest w.policy_bundle_digest e.1.0
              i;
        validated_authority_digest =
            same_values
              (optional-IsEncoder IsDigest encode_sha256_digest sha256_digest-IsEncoder
                sha256_digest-IsPresent)
              v.validated_authority_digest w.validated_authority_digest e.1.1.0 i;
        delegation_chain_digest =
            same_values
              (optional-IsEncoder IsDigest encode_sha256_digest sha256_digest-IsEncoder
                sha256_digest-IsPresent)
              v.delegation_chain_digest w.delegation_chain_digest e.1.1.1.0 i;
        authorization_state_digest =
            same_values
              (optional-IsEncoder IsDigest encode_sha256_digest sha256_digest-IsEncoder
                sha256_digest-IsPresent)
              v.authorization_state_digest w.authorization_state_digest e.1.1.1.1.0 i;
        subject_principal_binding_evidence_digest =
            same_values
              (optional-IsEncoder IsDigest encode_sha256_digest sha256_digest-IsEncoder
                sha256_digest-IsPresent)
              v.subject_principal_binding_evidence_digest
              w.subject_principal_binding_evidence_digest e.1.1.1.1.1.0 i;
        authority_applicability_evidence_digest =
            same_values
              (optional-IsEncoder IsDigest encode_sha256_digest sha256_digest-IsEncoder
                sha256_digest-IsPresent)
              v.authority_applicability_evidence_digest w.authority_applicability_evidence_digest
              e.1.1.1.1.1.1.0 i;
        decision_digest =
            same_values sha256_digest-IsEncoder v.decision_digest w.decision_digest
              e.1.1.1.1.1.1.1.0 i;
        outcome = same_values outcome-IsEncoder tt tt e.1.1.1.1.1.1.1.1.0 i;
        approval_requirements =
            same_values
              (sequence-IsEncoder IsCanonicalApprovalRequirement encode_approval_requirement
                approval_requirement-IsEncoder)
              v.approval_requirements w.approval_requirements e.1.1.1.1.1.1.1.1.1.0 i;
      })

-- What the constructors of domain.py assure: digests of 32 bytes and sorted maps.
pub record IsCanonicalPendingApproval (value : PendingApproval) : Type 0 where
  pub receipt : IsCanonicalDecisionReceipt value.receipt
  pub receipt_digest : IsDigest value.receipt_digest
  pub requirement_states : All IsCanonicalApprovalRequirementState value.requirement_states
  pub execution_permit_digest : Every IsDigest value.execution_permit_digest

pub pending_approval-IsEncoder : IsEncoder IsCanonicalPendingApproval encode_pending_approval
unfolding encode_pending_approval
pending_approval-IsEncoder =
    record-IsEncoder "nest-authz/pending-approval@2" _ (λ a b. refl)
      (λ a. (
        decision_receipt-IsEncoder.frames a.receipt,
        (
          sha256_digest-IsEncoder.frames a.receipt_digest,
          (
            (sequence-IsEncoder IsCanonicalApprovalRequirementState
                  encode_approval_requirement_state approval_requirement_state-IsEncoder).frames
                a.requirement_states,
            (
              integer-IsEncoder.frames a.logical_time,
              (
                optional_integer-IsEncoder.frames a.consumed_at,
                (
                  (optional-IsEncoder IsDigest encode_sha256_digest sha256_digest-IsEncoder
                        sha256_digest-IsPresent).frames
                      a.execution_permit_digest,
                  (approval_status-IsEncoder.frames a.status, tt),
                ),
              ),
            ),
          ),
        ),
      ))
      (λ a b v w e i. record {
        receipt = same_values decision_receipt-IsEncoder v.receipt w.receipt e.0 i;
        receipt_digest =
            same_values sha256_digest-IsEncoder v.receipt_digest w.receipt_digest e.1.0 i;
        requirement_states =
            same_values
              (sequence-IsEncoder IsCanonicalApprovalRequirementState
                encode_approval_requirement_state approval_requirement_state-IsEncoder)
              v.requirement_states w.requirement_states e.1.1.0 i;
        logical_time = same_values integer-IsEncoder tt tt e.1.1.1.0 i;
        consumed_at = same_values optional_integer-IsEncoder tt tt e.1.1.1.1.0 i;
        execution_permit_digest =
            same_values
              (optional-IsEncoder IsDigest encode_sha256_digest sha256_digest-IsEncoder
                sha256_digest-IsPresent)
              v.execution_permit_digest w.execution_permit_digest e.1.1.1.1.1.0 i;
        status = same_values approval_status-IsEncoder tt tt e.1.1.1.1.1.1.0 i;
      })
