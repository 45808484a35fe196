-- ===== src/Domain/Execution.antt =====
-- Execution permits, identities and records of domain.py, and the result of revalidation.
use nest_authz.Prelude.{
  String, Bool, false, not, Option, none, some, Eq, ◌==◌, ◌!=◌, ◌||◌, differ, option_eq, Result, ok,
  err, ◌>>◌, raise_if, value_error,
}
use nest_authz.Domain.Status.{
  SubjectAuthorityBindingStatus, subject_authority_binding_status_eq, AuthorityApplicabilityStatus,
  authority_applicability_status_eq, Outcome, outcome_eq, ExecutionStatus, execution_status_eq,
  ExecutionReservationStatus, ExecutionAuthorizationStatus, execution_authorization_status_eq,
}
use nest_authz.Domain.Value.{Sha256Digest, sha256_digest_eq, non_blank}
use nest_authz.Domain.Authority.{AuthorityValidationResult}
use nest_authz.Domain.Evidence.{
  SubjectAuthorityBindingResult, AuthorityApplicabilityResult, subject_authority_binding_result_eq,
  authority_applicability_result_eq,
}
use nest_authz.Domain.Decision.{Decision, decision_eq}
use nest_authz.Domain.Receipt.{is_none}

pub record ExecutionPermit : Type 0 where
  pub original_receipt_digest : Sha256Digest
  pub approved_state_digest : Sha256Digest
  pub current_request_digest : Sha256Digest
  pub current_policy_bundle_digest : Sha256Digest
  pub current_delegation_chain_digest : Sha256Digest
  pub current_authorization_state_digest : Sha256Digest
  pub current_validated_authority_digest : Sha256Digest
  pub subject_authority_binding : SubjectAuthorityBindingResult
  pub authority_applicability : AuthorityApplicabilityResult
  pub decision : Decision

-- `ExecutionPermit._from_revalidation`.
unfoldable pub execution_permit_from_revalidation : ExecutionPermit → Result ExecutionPermit
execution_permit_from_revalidation p = do
  raise_if (p.subject_authority_binding.status != SubjectAuthorityBindingStatus.bound)
      (value_error "execution permit requires bound holder evidence")
  raise_if (p.authority_applicability.status != AuthorityApplicabilityStatus.applicable)
      (value_error "execution permit requires applicable authority evidence")
  raise_if (p.decision.outcome != Outcome.approval_required)
      (value_error "execution permit requires a fresh APPROVAL_REQUIRED decision")
  raise_if (p.decision.evidence.request_digest != p.current_request_digest)
      (value_error "decision must bind the current request")
  raise_if (p.decision.evidence.policy_bundle_digest != p.current_policy_bundle_digest)
      (value_error "decision must bind the current policy bundle")
  raise_if (p.decision.evidence.subject_authority_binding != some p.subject_authority_binding)
      (value_error "decision must contain the exact holder evidence")
  raise_if (p.decision.evidence.authority_applicability != some p.authority_applicability)
      (value_error "decision must contain the exact applicability evidence")
  raise_if (p.authority_applicability.request_digest != p.current_request_digest)
      (value_error "applicability must bind the current request")
  raise_if (p.authority_applicability.authority_digest != p.current_validated_authority_digest)
      (value_error "applicability must bind the current authority")
  raise_if (p.authority_applicability.chain_digest != p.current_delegation_chain_digest)
      (value_error "applicability must bind the current chain")
  raise_if (p.authority_applicability.state_digest != p.current_authorization_state_digest)
      (value_error "applicability must bind the current authorization state")
  ok p

pub record ExecutionId : Type 0 where
  pub permit_digest : Sha256Digest

instance unfoldable pub execution_id_eq : Eq ExecutionId
unfolding sha256_digest_eq
execution_id_eq = record { dec = hlevel sha256_digest_eq.dec }

pub record ExecutionRecord : Type 0 where
  pub execution_id : ExecutionId
  pub execution_permit_digest : Sha256Digest
  pub status : ExecutionStatus
  pub result_reference : Option String
  pub failure_reference : Option String

unfoldable pub check_reference : Option String → String → Result String
check_reference none field_name = ok ""
check_reference (some r) field_name = non_blank r field_name

-- The references that each status carries.
unfoldable pub check_references :
    ExecutionStatus → Option String → Option String → Result (Unit {0})
check_references ExecutionStatus.reserved none none = ok tt
check_references ExecutionStatus.reserved _ _ =
    err (value_error "RESERVED execution cannot carry a terminal reference")
check_references ExecutionStatus.succeeded (some _) none = ok tt
check_references ExecutionStatus.succeeded _ _ =
    err (value_error "SUCCEEDED execution requires only a result reference")
check_references ExecutionStatus.failed none (some _) = ok tt
check_references ExecutionStatus.failed _ _ =
    err (value_error "FAILED execution requires only a failure reference")

unfoldable pub execution_record_post_init : ExecutionRecord → Result ExecutionRecord
unfolding check_reference check_references non_blank
execution_record_post_init r = do
  raise_if (r.execution_id.permit_digest != r.execution_permit_digest)
      (value_error "execution identity must equal the execution-permit digest")
  check_reference r.result_reference "execution result reference"
  check_reference r.failure_reference "execution failure reference"
  check_references r.status r.result_reference r.failure_reference
  ok r

pub record ExecutionReservationResult : Type 0 where
  pub status : ExecutionReservationStatus
  pub record_ : ExecutionRecord

abbrev pub expected_execution_status : ExecutionReservationStatus → ExecutionStatus
expected_execution_status ExecutionReservationStatus.new_reservation = ExecutionStatus.reserved
expected_execution_status ExecutionReservationStatus.existing_reserved = ExecutionStatus.reserved
expected_execution_status ExecutionReservationStatus.already_succeeded = ExecutionStatus.succeeded
expected_execution_status ExecutionReservationStatus.failed_existing = ExecutionStatus.failed

unfoldable pub execution_reservation_result_post_init :
    ExecutionReservationResult → Result ExecutionReservationResult
execution_reservation_result_post_init r = do
  raise_if (r.record_.status != expected_execution_status r.status)
      (value_error "reservation status does not match the execution record")
  ok r

pub record ExecutionAuthorizationResult : Type 0 where
  pub status : ExecutionAuthorizationStatus
  pub original_receipt_digest : Sha256Digest
  pub approved_state_digest : Sha256Digest
  pub current_request_digest : Sha256Digest
  pub current_policy_bundle_digest : Sha256Digest
  pub current_delegation_chain_digest : Sha256Digest
  pub current_authorization_state_digest : Sha256Digest
  pub authority_validation : AuthorityValidationResult
  pub subject_authority_binding : Option SubjectAuthorityBindingResult
  pub authority_applicability : Option AuthorityApplicabilityResult
  pub decision : Decision
  pub execution_permit : Option ExecutionPermit

-- The test that a permit binds exactly this result.
abbrev permit_differs : Option ExecutionPermit → ExecutionAuthorizationResult → Bool
permit_differs none r = false
permit_differs (some p) r =
    p.original_receipt_digest != r.original_receipt_digest
    || p.approved_state_digest != r.approved_state_digest
    || p.current_request_digest != r.current_request_digest
    || p.current_policy_bundle_digest != r.current_policy_bundle_digest
    || p.current_delegation_chain_digest != r.current_delegation_chain_digest
    || p.current_authorization_state_digest != r.current_authorization_state_digest
    || p.decision != r.decision

-- `ExecutionAuthorizationResult._from_revalidation`.
unfoldable pub execution_authorization_result_from_revalidation :
    ExecutionAuthorizationResult → Result ExecutionAuthorizationResult
execution_authorization_result_from_revalidation r = do
  raise_if (r.authority_validation.chain_digest != r.current_delegation_chain_digest)
      (value_error "validation must bind the current chain")
  raise_if (r.authority_validation.state_digest != r.current_authorization_state_digest)
      (value_error "validation must bind the current state")
  raise_if (r.decision.evidence.request_digest != r.current_request_digest)
      (value_error "decision must bind the current request")
  raise_if (r.decision.evidence.policy_bundle_digest != r.current_policy_bundle_digest)
      (value_error "decision must bind the current policy bundle")
  raise_if (r.decision.evidence.subject_authority_binding != r.subject_authority_binding)
      (value_error "result must preserve exact holder evidence")
  raise_if (r.decision.evidence.authority_applicability != r.authority_applicability)
      (value_error "result must preserve exact applicability evidence")
  raise_if
      (differ (r.status == ExecutionAuthorizationStatus.authorized)
        (not (is_none r.execution_permit)))
      (value_error "execution_permit must be present exactly for AUTHORIZED")
  raise_if (permit_differs r.execution_permit r)
      (value_error "execution permit must bind the exact revalidation result")
  ok r
