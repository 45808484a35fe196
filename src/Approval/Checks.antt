-- ===== src/Approval/Checks.antt =====
-- What each transition that returns has checked.
use mathlib.Core.Logic.{◌≢◌}
use nest_authz.Prelude.{
  ℤ, ◌≤ℤ◌, ◌≡◌, refl, Bool, true, false, Option, none, some, List, ok, arith, ltb_ℤ,
  raise_if-passed, then_returns, bind_returns, eq_of_not_ne, ne_of_test, raise_if-eq-ok, subst,
}
use nest_authz.Domain.Status.{
  ApproverAuthorizationStatus, approver_authorization_status_eq, ApprovalRequirementStatus,
  approval_requirement_status_eq, ApprovalStatus, approval_status_eq,
}
use nest_authz.Domain.Value.{sha256_digest_eq}
use nest_authz.Domain.Policy.{ApprovalRequirement, approval_requirement_eq}
use nest_authz.Domain.Approval.{
  ApproverAuthorizationResult, ApprovalRequirementState, PendingApproval, Transition,
  requires_authorization, approval_requirement_state_post_init,
}
use nest_authz.Domain.Execution.{ExecutionPermit}
use nest_authz.Digests.{Digests}
use nest_authz.Approval.{
  validate_logical_time, select_state, check_selected, check_approver_evidence, replace_state,
  transition_requirement, consume_approval,
}
use nest_authz.Approval.Makes.{Makes, from_transition-ok}

-- AUTHORIZED evidence that binds exactly the requirement.
abbrev pub Authorizes : ApprovalRequirement → Option ApproverAuthorizationResult → Type 0
Authorizes requirement none = ⊥
Authorizes requirement (some a) =
    (a.status ≡ ApproverAuthorizationStatus.authorized)
    × (a.required_requirement ≡ requirement)
    × (a.attempted_requirement ≡ requirement)

abbrev pub replacement :
    ApprovalRequirement
    → ApprovalRequirementStatus
    → Option ApproverAuthorizationResult
    → ℤ
    → ApprovalRequirementState
replacement requirement status authorization time = record {
  requirement = requirement;
  status = status;
  authorization = authorization;
  logical_time = time;
}

abbrev pub next_states : PendingApproval → ℤ → List ApprovalRequirementState → Transition
next_states approval time states = record {
  receipt = approval.receipt;
  receipt_digest = approval.receipt_digest;
  requirement_states = states;
  logical_time = time;
  consumed_at = none;
  execution_permit_digest = none;
}

pub record Transitions (approval : PendingApproval) (requirement : ApprovalRequirement)
    (status : ApprovalRequirementStatus) (authorization : Option ApproverAuthorizationResult)
    (time : ℤ) (q : PendingApproval) : Type 0 where
  pub in_order : approval.logical_time ≤ℤ time
  pub not_consumed : approval.status ≢ ApprovalStatus.consumed
  pub selected :
      (s : ApprovalRequirementState) × (select_state requirement approval.requirement_states
        ≡ some s)
      × (s.status ≡ ApprovalRequirementStatus.pending)
  pub authorized : requires_authorization status ≡ true → Authorizes requirement authorization
  pub makes :
      Makes
        (next_states approval time (
          replace_state requirement
            (replacement requirement status authorization time)
            approval.requirement_states))
        q

selected-ok :
    (o : Option ApprovalRequirementState) {u : Unit {0}}
    → check_selected o ≡ ok u
    → (s : ApprovalRequirementState) × (o ≡ some s) × (s.status ≡ ApprovalRequirementStatus.pending)
unfolding check_selected
selected-ok none h = cc
selected-ok (some s) h = (s, refl, eq_of_not_ne _ _ (raise_if-eq-ok _ _ h))

evidence-ok :
    (b : Bool) (requirement : ApprovalRequirement) (o : Option ApproverAuthorizationResult)
    {u : Unit {0}}
    → check_approver_evidence b requirement o ≡ ok u
    → b ≡ true
    → Authorizes requirement o
unfolding check_approver_evidence
evidence-ok false requirement o h t = cc
evidence-ok true requirement none h t = cc
evidence-ok true requirement (some a) h t = ground arith

post_init-ok :
    (s : ApprovalRequirementState) {r : ApprovalRequirementState}
    → approval_requirement_state_post_init s ≡ ok r
    → r ≡ s
unfolding approval_requirement_state_post_init
post_init-ok s h = ground arith

time-ok : (a b : ℤ) → ltb_ℤ b a ≡ false → a ≤ℤ b
time-ok a b h = ground arith

-- A transition that returns has passed its checks.
pub transition_requirement-ok :
    (approval : PendingApproval) (requirement : ApprovalRequirement)
    (status : ApprovalRequirementStatus) (authorization : Option ApproverAuthorizationResult)
    (time : ℤ) (q : PendingApproval)
    → transition_requirement approval requirement status authorization time ≡ ok q
    → Transitions approval requirement status authorization time q
unfolding transition_requirement validate_logical_time
transition_requirement-ok approval requirement status authorization time q h =
    let (ordered, h1) = raise_if-passed _ _ _ h in
    let (unconsumed, h2) = raise_if-passed _ _ _ h1 in
    let ((u, selects), h3) = then_returns _ _ h2 in
    let ((v, evidence), h4) = then_returns _ _ h3 in
    let (r, builds, h5) = bind_returns _ _ h4 in
    record {
      in_order = time-ok approval.logical_time time ordered;
      not_consumed = ne_of_test _ _ unconsumed;
      selected = selected-ok _ selects;
      authorized = evidence-ok _ requirement authorization evidence;
      makes =
          subst
            (λ x.
              Makes
                (next_states approval time
                  (replace_state requirement x approval.requirement_states))
                q)
            (post_init-ok _ builds) (from_transition-ok _ q h5);
    }

pub record Consumes (digests : Digests) (approval : PendingApproval) (permit : ExecutionPermit)
    (time : ℤ) (q : PendingApproval) : Type 0 where
  pub in_order : approval.logical_time ≤ℤ time
  pub not_consumed : approval.status ≢ ApprovalStatus.consumed
  pub binds_receipt : approval.receipt_digest ≡ permit.original_receipt_digest
  pub binds_state : digests.approval_digest approval ≡ permit.approved_state_digest
  pub approved : approval.status ≡ ApprovalStatus.approved
  pub makes :
      Makes
        (record (next_states approval time approval.requirement_states) {
          consumed_at = some time;
          execution_permit_digest = some (digests.permit_digest permit);
        })
        q

-- A consumption that returns has passed its checks.
pub consume_approval-ok :
    (digests : Digests) (approval : PendingApproval) (permit : ExecutionPermit) (time : ℤ)
    (q : PendingApproval)
    → consume_approval digests approval permit time ≡ ok q
    → Consumes digests approval permit time q
unfolding consume_approval validate_logical_time
consume_approval-ok digests approval permit time q h =
    let (ordered, h1) = raise_if-passed _ _ _ h in
    let (unconsumed, h2) = raise_if-passed _ _ _ h1 in
    let (receipt, h3) = raise_if-passed _ _ _ h2 in
    let (state, h4) = raise_if-passed _ _ _ h3 in
    let (status, h5) = raise_if-passed _ _ _ h4 in
    record {
      in_order = time-ok approval.logical_time time ordered;
      not_consumed = ne_of_test _ _ unconsumed;
      binds_receipt = eq_of_not_ne _ _ receipt;
      binds_state = eq_of_not_ne _ _ state;
      approved = eq_of_not_ne _ _ status;
      makes = from_transition-ok _ q h5;
    }
