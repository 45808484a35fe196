-- ===== src/Approval/Makes.antt =====
-- What a transition that returns has checked, and the approval that it makes.
use nest_authz.Prelude.{
  ◌≡◌, refl, false, List, [], ◌!=◌, Result, ok, err, sort_by, arith, bind_returns, raise_if, ◌>>=◌,
  ◌>>◌, raise_if-passed, eq_of_not_ne, sym, ap, ◌∙◌, list_eq, value_error, any, ltb_ℤ,
}
use nest_authz.Domain.Status.{approval_requirement_status_eq, ApprovalStatus, approval_status_eq}
use nest_authz.Domain.Value.{repeats, sha256_digest_eq}
use nest_authz.Domain.Policy.{approval_requirement_eq}
use nest_authz.Domain.Policy.Canonical.{requirement_lt}
use nest_authz.Domain.Approval.{
  ApprovalRequirementState, PendingApproval, Transition, lifecycle_status,
  pending_approval_from_transition, canonical_approval_requirement_states, requirements_of,
}

abbrev pub canonical_states : List ApprovalRequirementState → List ApprovalRequirementState
canonical_states = sort_by (λ a b. requirement_lt a.requirement b.requirement)

-- The approval that a transition makes.
pub record Makes (t : Transition) (p : PendingApproval) : Type 0 where
  pub same_receipt : p.receipt ≡ t.receipt
  pub same_digest : p.receipt_digest ≡ t.receipt_digest
  pub same_time : p.logical_time ≡ t.logical_time
  pub sorted : p.requirement_states ≡ canonical_states t.requirement_states
  pub distinct : repeats [] (requirements_of t.requirement_states) ≡ false
  pub covers : requirements_of p.requirement_states ≡ t.receipt.approval_requirements
  pub status_follows :
      lifecycle_status t.consumed_at t.execution_permit_digest t.logical_time
        (canonical_states t.requirement_states)
      ≡ ok p.status

abbrev made : Transition → List ApprovalRequirementState → ApprovalStatus → PendingApproval
made t states status = record {
  receipt = t.receipt;
  receipt_digest = t.receipt_digest;
  requirement_states = states;
  logical_time = t.logical_time;
  consumed_at = t.consumed_at;
  execution_permit_digest = t.execution_permit_digest;
  status = status;
}

canonical-ok :
    (states : List ApprovalRequirementState) {sorted : List ApprovalRequirementState}
    → canonical_approval_requirement_states states ≡ ok sorted
    → (sorted ≡ canonical_states states) × (repeats [] (requirements_of states) ≡ false)
unfolding canonical_approval_requirement_states
canonical-ok states h = ground arith

made_with :
    (t : Transition) (p : PendingApproval) (states : List ApprovalRequirementState)
    → (states ≡ canonical_states t.requirement_states)
      × (repeats [] (requirements_of t.requirement_states) ≡ false)
    → requirements_of states ≡ t.receipt.approval_requirements
    → (status : Result ApprovalStatus)
    → lifecycle_status t.consumed_at t.execution_permit_digest t.logical_time states ≡ status
    → (do s ← status; ok (made t states s)) ≡ ok p
    → Makes t p
made_with t p states same covers (err e) follows h = cc
made_with t p states same covers (ok status) follows h =
    let made_p : made t states status ≡ p = ground arith in
    record {
      same_receipt = ap (λ p. p.receipt) (sym made_p);
      same_digest = ap (λ p. p.receipt_digest) (sym made_p);
      same_time = ap (λ p. p.logical_time) (sym made_p);
      sorted = ap (λ p. p.requirement_states) (sym made_p) ∙ same.0;
      distinct = same.1;
      covers = ap (λ p. requirements_of p.requirement_states) (sym made_p) ∙ covers;
      status_follows =
          ap (lifecycle_status t.consumed_at t.execution_permit_digest t.logical_time) (sym same.0)
          ∙ follows
          ∙ ap (λ p. ok p.status) made_p;
    }

made_from :
    (t : Transition) (p : PendingApproval) (states : List ApprovalRequirementState)
    → (states ≡ canonical_states t.requirement_states)
      × (repeats [] (requirements_of t.requirement_states) ≡ false)
    → (do
      raise_if
          (requirements_of states != t.receipt.approval_requirements)
          (value_error "requirement states must exactly match receipt requirements")
      raise_if
          (any (λ s. ltb_ℤ t.logical_time s.logical_time) states)
          (value_error "requirement state time cannot exceed approval logical time")
      status ← lifecycle_status t.consumed_at t.execution_permit_digest t.logical_time states
      ok (made t states status))
      ≡ ok p
    → Makes t p
made_from t p states same h =
    let (covers, h1) = raise_if-passed _ _ _ h in
    let (_, h2) = raise_if-passed _ _ _ h1 in
    made_with t p states same (eq_of_not_ne _ _ covers)
      (lifecycle_status t.consumed_at t.execution_permit_digest t.logical_time states) refl h2

pub from_transition-ok :
    (t : Transition) (p : PendingApproval) → pending_approval_from_transition t ≡ ok p → Makes t p
unfolding pending_approval_from_transition
from_transition-ok t p h =
    let (_, h1) = raise_if-passed _ _ _ h in
    let (states, sorts, h2) = bind_returns _ _ h1 in
    made_from t p states (canonical-ok t.requirement_states sorts) h2
