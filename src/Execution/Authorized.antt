-- ===== src/Execution/Authorized.antt =====
-- What an AUTHORIZED revalidation has checked.
use nest_authz.Prelude.{◌≡◌, ◌↔◌, false, some, ◌==◌, arith, option_eq, list_eq}
use nest_authz.Domain.Status.{
  ApprovalStatus, approval_status_eq, authority_applicability_status_eq, AuthorityValidationStatus,
  authority_validation_status_eq, ExecutionAuthorizationStatus, execution_authorization_status_eq,
  Outcome, outcome_eq, subject_authority_binding_status_eq,
}
use nest_authz.Domain.Value.{sha256_digest_eq}
use nest_authz.Domain.Policy.{approval_requirement_eq}
use nest_authz.Domain.Receipt.{DecisionReceipt, decision_receipt_eq}
use nest_authz.Domain.Approval.{PendingApproval, approval_requirements}
use nest_authz.Execution.{Current, not_bound, not_applicable, revalidation_status}

-- Everything that must hold for the intent to be executed.
pub record StillAuthorized (receipt : DecisionReceipt) (approved : PendingApproval) (c : Current)
    : Type 0 where
  pub is_approved : approved.status ≡ ApprovalStatus.approved
  pub same_receipt : approved.receipt ≡ receipt
  pub same_receipt_digest : approved.receipt_digest ≡ c.original_receipt_digest
  pub same_request : c.request_digest ≡ receipt.request_digest
  pub same_chain : receipt.delegation_chain_digest ≡ some c.chain_digest
  pub chain_valid : c.validation.status ≡ AuthorityValidationStatus.valid
  pub bound : not_bound c.decision.evidence.subject_authority_binding ≡ false
  pub applicable : not_applicable c.decision.evidence.authority_applicability ≡ false
  pub needs_approval : c.decision.outcome ≡ Outcome.approval_required
  pub same_requirements : c.decision.approval_requirements ≡ receipt.approval_requirements
  pub approved_requirements : c.decision.approval_requirements ≡ approval_requirements approved
  pub same_bundle : c.policy_bundle_digest ≡ receipt.policy_bundle_digest

outcome_rest :
    (o : Outcome)
    → (o == Outcome.deny) ≡ false
    → (o == Outcome.permit) ≡ false
    → o ≡ Outcome.approval_required
outcome_rest o h k = ground arith

-- The status is AUTHORIZED exactly if nothing that the approval rests on has changed.
pub revalidation_status_iff :
    (receipt : DecisionReceipt) (approved : PendingApproval) (c : Current)
    → (revalidation_status receipt approved c ≡ ExecutionAuthorizationStatus.authorized)
      ↔ StillAuthorized receipt approved c
unfolding revalidation_status
revalidation_status_iff receipt approved c = (
  λ h. record {
    is_approved = ground arith;
    same_receipt = ground arith;
    same_receipt_digest = ground arith;
    same_request = ground arith;
    same_chain = ground arith;
    chain_valid = ground arith;
    bound = ground arith;
    applicable = ground arith;
    needs_approval = outcome_rest c.decision.outcome (ground arith) (ground arith);
    same_requirements = ground arith;
    approved_requirements = ground arith;
    same_bundle = ground arith;
  },
  λ h. ground (arith, h.is_approved, h.same_receipt, h.same_chain),
)
