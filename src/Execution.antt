-- ===== src/Execution.antt =====
-- execution.py: revalidation of an approved intent against the current state.
pub mod Authorized
pub mod Revalidated
use nest_authz.Prelude.{
  Bool, true, false, Option, none, some, List, ◌==◌, ◌!=◌, ◌||◌, option_eq, list_eq, if◌then◌else◌,
  Result, ok, err, ◌>>=◌, runtime_error,
}
use nest_authz.Domain.Status.{
  ApprovalStatus, approval_status_eq, AuthorityApplicabilityStatus,
  authority_applicability_status_eq, AuthorityValidationStatus, authority_validation_status_eq,
  ExecutionAuthorizationStatus, execution_authorization_status_eq, Outcome, outcome_eq,
  SubjectAuthorityBindingStatus, subject_authority_binding_status_eq,
}
use nest_authz.Domain.Value.{Sha256Digest, sha256_digest_eq}
use nest_authz.Domain.Identity.{SubjectPrincipalBinding}
use nest_authz.Domain.Authority.{
  DelegationChain, AuthorizationState, VerifiedAuthority, AuthorityValidationResult,
}
use nest_authz.Domain.Policy.{ApprovalRequirement, approval_requirement_eq, PolicyBundle}
use nest_authz.Domain.Request.{AuthorizationRequest}
use nest_authz.Domain.Evidence.{SubjectAuthorityBindingResult, AuthorityApplicabilityResult}
use nest_authz.Domain.Decision.{Decision}
use nest_authz.Domain.Receipt.{DecisionReceipt, decision_receipt_eq}
use nest_authz.Domain.Approval.{PendingApproval, approval_requirements}
use nest_authz.Domain.Execution.{
  ExecutionPermit, execution_permit_from_revalidation, ExecutionAuthorizationResult,
  execution_authorization_result_from_revalidation,
}
use nest_authz.Digests.{Digests}
use nest_authz.Delegation.{validate_authority}
use nest_authz.Evaluator.Decide.{evaluate}

-- `x is None or x.status is not BOUND`, and the same test of the applicability.
abbrev pub not_bound : Option SubjectAuthorityBindingResult → Bool
not_bound none = true
not_bound (some b) = b.status != SubjectAuthorityBindingStatus.bound

abbrev pub not_applicable : Option AuthorityApplicabilityResult → Bool
not_applicable none = true
not_applicable (some a) = a.status != AuthorityApplicabilityStatus.applicable

-- What `revalidate_for_execution` compares.
pub record Current : Type 0 where
  pub request_digest : Sha256Digest
  pub policy_bundle_digest : Sha256Digest
  pub chain_digest : Sha256Digest
  pub original_receipt_digest : Sha256Digest
  pub validation : AuthorityValidationResult
  pub decision : Decision

unfoldable pub revalidation_status :
    DecisionReceipt → PendingApproval → Current → ExecutionAuthorizationStatus
revalidation_status original_receipt approved_state c =
    if approved_state.status != ApprovalStatus.approved
    then ExecutionAuthorizationStatus.approval_not_approved
    else if approved_state.receipt != original_receipt
        || approved_state.receipt_digest != c.original_receipt_digest
    then ExecutionAuthorizationStatus.receipt_mismatch
    else if c.request_digest != original_receipt.request_digest
    then ExecutionAuthorizationStatus.request_mismatch
    else if some c.chain_digest != original_receipt.delegation_chain_digest
    then ExecutionAuthorizationStatus.delegation_chain_mismatch
    else if c.validation.status != AuthorityValidationStatus.valid
    then ExecutionAuthorizationStatus.authority_invalid
    else if not_bound c.decision.evidence.subject_authority_binding
    then ExecutionAuthorizationStatus.holder_binding_failed
    else if not_applicable c.decision.evidence.authority_applicability
    then ExecutionAuthorizationStatus.authority_not_applicable
    else if c.decision.outcome == Outcome.deny
    then ExecutionAuthorizationStatus.policy_denied
    else if c.decision.outcome == Outcome.permit
    then ExecutionAuthorizationStatus.policy_reauthorization_required
    else if c.decision.approval_requirements != original_receipt.approval_requirements
        || c.decision.approval_requirements != approval_requirements approved_state
    then ExecutionAuthorizationStatus.approval_requirements_changed
    else if c.policy_bundle_digest != original_receipt.policy_bundle_digest
    then ExecutionAuthorizationStatus.policy_bundle_mismatch
    else ExecutionAuthorizationStatus.authorized

-- The permit, where the status is AUTHORIZED.
unfoldable pub permit_for :
    Digests
    → ExecutionAuthorizationResult
    → Option VerifiedAuthority
    → Option SubjectAuthorityBindingResult
    → Option AuthorityApplicabilityResult
    → Result (Option ExecutionPermit)
permit_for digests r (some authority) (some holder) (some applicability) = do
  permit ← execution_permit_from_revalidation (record {
    original_receipt_digest = r.original_receipt_digest;
    approved_state_digest = r.approved_state_digest;
    current_request_digest = r.current_request_digest;
    current_policy_bundle_digest = r.current_policy_bundle_digest;
    current_delegation_chain_digest = r.current_delegation_chain_digest;
    current_authorization_state_digest = r.current_authorization_state_digest;
    current_validated_authority_digest = digests.authority_digest authority;
    subject_authority_binding = holder;
    authority_applicability = applicability;
    decision = r.decision;
  })
  ok (some permit)
permit_for digests r none _ _ =
    err (runtime_error "authorized execution requires complete authority evidence")
permit_for digests r (some _) none _ =
    err (runtime_error "authorized execution requires complete authority evidence")
permit_for digests r (some _) (some _) none =
    err (runtime_error "authorized execution requires complete authority evidence")

-- The result without its permit, and then with it.
unfoldable pub finish_revalidation :
    Digests
    → ExecutionAuthorizationResult
    → Option VerifiedAuthority
    → Result ExecutionAuthorizationResult
finish_revalidation digests r authority = do
  permit ←
      (if r.status == ExecutionAuthorizationStatus.authorized
        then permit_for digests r authority r.subject_authority_binding r.authority_applicability
        else ok none)
  execution_authorization_result_from_revalidation (record r { execution_permit = permit })

module _ (digests : Digests) (original_receipt : DecisionReceipt) (approved_state : PendingApproval)
    (request : AuthorizationRequest) (bundle : PolicyBundle) (chain : DelegationChain)
    (state : AuthorizationState) where
  abbrev pub current : AuthorityValidationResult → Decision → Current
  current validation decision = record {
    request_digest = digests.request_digest request;
    policy_bundle_digest = digests.bundle_digest bundle;
    chain_digest = digests.chain_digest chain;
    original_receipt_digest = digests.receipt_digest original_receipt;
    validation = validation;
    decision = decision;
  }

  abbrev pub result_without_permit :
      AuthorityValidationResult → Decision → ExecutionAuthorizationResult
  result_without_permit validation decision = record {
    status = revalidation_status original_receipt approved_state (current validation decision);
    original_receipt_digest = digests.receipt_digest original_receipt;
    approved_state_digest = digests.approval_digest approved_state;
    current_request_digest = digests.request_digest request;
    current_policy_bundle_digest = digests.bundle_digest bundle;
    current_delegation_chain_digest = digests.chain_digest chain;
    current_authorization_state_digest = digests.state_digest state;
    authority_validation = validation;
    subject_authority_binding = decision.evidence.subject_authority_binding;
    authority_applicability = decision.evidence.authority_applicability;
    decision = decision;
    execution_permit = none;
  }

  unfoldable pub revalidate_for_execution :
      SubjectPrincipalBinding → Result ExecutionAuthorizationResult
  revalidate_for_execution subject_binding = do
    validation ← validate_authority digests chain state
    decision ← evaluate digests request bundle validation.verified_authority (some subject_binding)
    finish_revalidation digests (result_without_permit validation decision)
        validation.verified_authority
