-- ===== src/Domain/Approval.antt =====
-- Approver evidence and the approval lifecycle's state in domain.py.
use nest_authz.Prelude.{
  ℤ, Bool, true, false, not, Option, none, some, List, [], ◌∷◌, map, ◌==◌, ◌!=◌, ◌||◌, contains,
  any, all, ltb_ℤ, sort_by, list_eq, int_eq, if◌then◌else◌, Result, ok, err, ◌>>=◌, ◌>>◌, raise_if,
  value_error, type_error,
}
use nest_authz.Domain.Status.{
  ApproverAuthorizationStatus, approver_authorization_status_eq, ApprovalRequirementStatus,
  approval_requirement_status_eq, ApprovalStatus, Outcome, outcome_eq,
}
use nest_authz.Domain.Value.{Sha256Digest, repeats}
use nest_authz.Domain.Identity.{Subject, ApproverSubjectPrincipalBinding, subject_eq, principal_eq}
use nest_authz.Domain.Policy.{ApprovalRequirement, approval_requirement_eq}
use nest_authz.Domain.Policy.Canonical.{is_nonempty, requirement_lt}
use nest_authz.Domain.Receipt.{DecisionReceipt}

pub record ApproverAuthorizationResult : Type 0 where
  pub status : ApproverAuthorizationStatus
  pub actor : Subject
  pub binding : ApproverSubjectPrincipalBinding
  pub required_requirement : ApprovalRequirement
  pub attempted_requirement : ApprovalRequirement

pub record ApprovalRequirementState : Type 0 where
  pub requirement : ApprovalRequirement
  pub status : ApprovalRequirementStatus
  pub authorization : Option ApproverAuthorizationResult
  pub logical_time : ℤ

pub record PendingApproval : Type 0 where
  pub receipt : DecisionReceipt
  pub receipt_digest : Sha256Digest
  pub requirement_states : List ApprovalRequirementState
  pub logical_time : ℤ
  pub consumed_at : Option ℤ
  pub execution_permit_digest : Option Sha256Digest
  pub status : ApprovalStatus

unfoldable pub expected_approver_status : ApproverAuthorizationResult → ApproverAuthorizationStatus
expected_approver_status r =
    if r.required_requirement != r.attempted_requirement
    then ApproverAuthorizationStatus.requirement_mismatch
    else if r.actor != r.binding.subject
    then ApproverAuthorizationStatus.subject_mismatch
    else if contains r.binding.principal r.required_requirement.allowed_principals
    then ApproverAuthorizationStatus.authorized
    else ApproverAuthorizationStatus.principal_not_allowed

unfoldable pub approver_authorization_result_post_init :
    ApproverAuthorizationResult → Result ApproverAuthorizationResult
approver_authorization_result_post_init r = do
  raise_if (r.status != expected_approver_status r)
      (value_error "approver authorization status does not match its evidence")
  ok r

-- `status in (APPROVED, REJECTED)`
abbrev pub requires_authorization : ApprovalRequirementStatus → Bool
requires_authorization ApprovalRequirementStatus.approved = true
requires_authorization ApprovalRequirementStatus.rejected = true
requires_authorization _ = false

-- The tests on the presence and the content of the authorization.
unfoldable pub check_authorization :
    Bool → ApprovalRequirement → Option ApproverAuthorizationResult → Result (Unit {0})
check_authorization true requirement none =
    err (value_error "authorization must be present exactly for approved or rejected requirements")
check_authorization false requirement none = ok tt
check_authorization false requirement (some a) =
    err (value_error "authorization must be present exactly for approved or rejected requirements")
check_authorization true requirement (some a) = do
  raise_if (a.status != ApproverAuthorizationStatus.authorized)
      (value_error "requirement state authorization must be AUTHORIZED")
  raise_if (a.required_requirement != requirement || a.attempted_requirement != requirement)
      (value_error "requirement state authorization must bind the exact requirement")

unfoldable pub approval_requirement_state_post_init :
    ApprovalRequirementState → Result ApprovalRequirementState
approval_requirement_state_post_init s = do
  check_authorization (requires_authorization s.status) s.requirement s.authorization
  ok s

abbrev pub requirements_of : List ApprovalRequirementState → List ApprovalRequirement
requirements_of = map (λ s. s.requirement)

-- The property `PendingApproval.approval_requirements`.
abbrev pub approval_requirements : PendingApproval → List ApprovalRequirement
approval_requirements p = requirements_of p.requirement_states

unfoldable pub canonical_approval_requirement_states :
    List ApprovalRequirementState → Result (List ApprovalRequirementState)
canonical_approval_requirement_states states = do
  raise_if (not (is_nonempty states))
      (value_error "requirement_states must contain at least one state")
  raise_if (repeats [] (requirements_of states))
      (value_error "requirement_states must not contain duplicate requirements")
  ok (sort_by (λ a b. requirement_lt a.requirement b.requirement) states)

-- `max(state.logical_time for state in states)`, from the first state's time on.
abbrev pub latest : ℤ → List ApprovalRequirementState → ℤ
latest t [] = t
latest t (s ∷ ss) = latest (if ltb_ℤ t s.logical_time then s.logical_time else t) ss

abbrev pub latest_time : List ApprovalRequirementState → Option ℤ
latest_time [] = none
latest_time (s ∷ ss) = some (latest s.logical_time ss)

abbrev pub has_status : ApprovalRequirementStatus → ApprovalRequirementState → Bool
has_status status s = s.status == status

-- The aggregate of an approval that is not consumed.
unfoldable pub derived_status : List ApprovalRequirementState → ApprovalStatus
derived_status states =
    if any (has_status ApprovalRequirementStatus.rejected) states
    then ApprovalStatus.rejected
    else if any (has_status ApprovalRequirementStatus.expired) states
    then ApprovalStatus.expired
    else if all (has_status ApprovalRequirementStatus.approved) states
    then ApprovalStatus.approved
    else ApprovalStatus.pending

abbrev is_latest : ℤ → Option ℤ → Bool
is_latest t none = false
is_latest t (some u) = u == t

-- The two branches on `consumed_at`, each with the status that it derives.
unfoldable pub lifecycle_status :
    Option ℤ → Option Sha256Digest → ℤ → List ApprovalRequirementState → Result ApprovalStatus
lifecycle_status (some at) permit time states = do
  raise_if (at != time) (value_error "consumed_at must equal the approval logical time")
  raise_if (not (all (has_status ApprovalRequirementStatus.approved) states))
      (value_error "only fully approved requirements can be consumed")
  consumed_with permit
  where
    consumed_with : Option Sha256Digest → Result ApprovalStatus
    consumed_with none = err (type_error "consumed approval requires an execution permit digest")
    consumed_with (some _) = ok ApprovalStatus.consumed
lifecycle_status none (some _) time states =
    err (value_error "unconsumed approval cannot carry an execution permit digest")
lifecycle_status none none time states = do
  raise_if (not (is_latest time (latest_time states)))
      (value_error "approval logical time must equal its latest state time")
  ok (derived_status states)

-- What a transition gives to `PendingApproval._from_transition`: all fields but the status.
pub record Transition : Type 0 where
  pub receipt : DecisionReceipt
  pub receipt_digest : Sha256Digest
  pub requirement_states : List ApprovalRequirementState
  pub logical_time : ℤ
  pub consumed_at : Option ℤ
  pub execution_permit_digest : Option Sha256Digest

unfoldable pub pending_approval_from_transition : Transition → Result PendingApproval
pending_approval_from_transition t = do
  raise_if (t.receipt.outcome != Outcome.approval_required)
      (value_error "pending approval requires an APPROVAL_REQUIRED receipt")
  states ← canonical_approval_requirement_states t.requirement_states
  raise_if (requirements_of states != t.receipt.approval_requirements)
      (value_error "requirement states must exactly match receipt requirements")
  raise_if (any (λ s. ltb_ℤ t.logical_time s.logical_time) states)
      (value_error "requirement state time cannot exceed approval logical time")
  status ← lifecycle_status t.consumed_at t.execution_permit_digest t.logical_time states
  ok (record {
    receipt = t.receipt;
    receipt_digest = t.receipt_digest;
    requirement_states = states;
    logical_time = t.logical_time;
    consumed_at = t.consumed_at;
    execution_permit_digest = t.execution_permit_digest;
    status = status;
  })
