-- ===== src/Approval.antt =====
-- approval.py: the transitions of an approval that is bound to a decision receipt.
pub mod Makes
pub mod Checks
pub mod States
pub mod Reach
use nest_authz.Prelude.{
  ℤ, Bool, true, false, Option, none, some, List, [], ◌∷◌, ◌==◌, ◌!=◌, ◌||◌, ltb_ℤ, if◌then◌else◌,
  Result, ok, err, ◌>>=◌, ◌>>◌, raise_if, transition_error,
}
use nest_authz.Domain.Status.{
  ApproverAuthorizationStatus, approver_authorization_status_eq, ApprovalRequirementStatus,
  approval_requirement_status_eq, ApprovalStatus, approval_status_eq,
}
use nest_authz.Domain.Value.{sha256_digest_eq}
use nest_authz.Domain.Policy.{ApprovalRequirement, approval_requirement_eq}
use nest_authz.Domain.Receipt.{DecisionReceipt}
use nest_authz.Domain.Approval.{
  ApproverAuthorizationResult, ApprovalRequirementState, PendingApproval, Transition,
  requires_authorization, approval_requirement_state_post_init, pending_approval_from_transition,
}
use nest_authz.Domain.Execution.{ExecutionPermit}
use nest_authz.Digests.{Digests}

unfoldable pub validate_logical_time : PendingApproval → ℤ → Result (Unit {0})
validate_logical_time approval logical_time =
    raise_if (ltb_ℤ logical_time approval.logical_time)
      (transition_error "logical time cannot precede the current approval state")

-- The loop that stops at the first state of the requirement.
unfoldable pub select_state :
    ApprovalRequirement → List ApprovalRequirementState → Option ApprovalRequirementState
select_state requirement [] = none
select_state requirement (state ∷ states) =
    if state.requirement == requirement then some state else select_state requirement states

unfoldable pub check_selected : Option ApprovalRequirementState → Result (Unit {0})
check_selected none = err (transition_error "requirement is not part of the receipt approval set")
check_selected (some state) =
    raise_if (state.status != ApprovalRequirementStatus.pending)
      (transition_error "only a pending requirement can transition")

unfoldable pub check_approver_evidence :
    Bool → ApprovalRequirement → Option ApproverAuthorizationResult → Result (Unit {0})
check_approver_evidence false requirement authorization = ok tt
check_approver_evidence true requirement none =
    err (transition_error "approval transition requires AUTHORIZED approver evidence")
check_approver_evidence true requirement (some a) = do
  raise_if (a.status != ApproverAuthorizationStatus.authorized)
      (transition_error "approval transition requires AUTHORIZED approver evidence")
  raise_if (a.required_requirement != requirement || a.attempted_requirement != requirement)
      (transition_error "approver evidence does not bind the exact requirement")

unfoldable pub replace_state :
    ApprovalRequirement
    → ApprovalRequirementState
    → List ApprovalRequirementState
    → List ApprovalRequirementState
replace_state requirement replacement [] = []
replace_state requirement replacement (state ∷ states) =
    (if state.requirement == requirement then replacement else state)
    ∷ replace_state requirement replacement states

unfoldable pub transition_requirement :
    PendingApproval
    → ApprovalRequirement
    → ApprovalRequirementStatus
    → Option ApproverAuthorizationResult
    → ℤ
    → Result PendingApproval
transition_requirement approval requirement status authorization logical_time = do
  validate_logical_time approval logical_time
  raise_if (approval.status == ApprovalStatus.consumed)
      (transition_error "consumed approval cannot transition")
  check_selected (select_state requirement approval.requirement_states)
  check_approver_evidence (requires_authorization status) requirement authorization
  replacement ← approval_requirement_state_post_init (record {
    requirement = requirement;
    status = status;
    authorization = authorization;
    logical_time = logical_time;
  })
  pending_approval_from_transition (record {
    receipt = approval.receipt;
    receipt_digest = approval.receipt_digest;
    requirement_states = replace_state requirement replacement approval.requirement_states;
    logical_time = logical_time;
    consumed_at = none;
    execution_permit_digest = none;
  })

unfoldable pub pending_states :
    List ApprovalRequirement → ℤ → Result (List ApprovalRequirementState)
pending_states [] logical_time = ok []
pending_states (requirement ∷ requirements) logical_time = do
  state ← approval_requirement_state_post_init (record {
    requirement = requirement;
    status = ApprovalRequirementStatus.pending;
    authorization = none;
    logical_time = logical_time;
  })
  rest ← pending_states requirements logical_time
  ok (state ∷ rest)

unfoldable pub create_pending_approval : Digests → DecisionReceipt → ℤ → Result PendingApproval
create_pending_approval digests receipt logical_time = do
  states ← pending_states receipt.approval_requirements logical_time
  pending_approval_from_transition (record {
    receipt = receipt;
    receipt_digest = digests.receipt_digest receipt;
    requirement_states = states;
    logical_time = logical_time;
    consumed_at = none;
    execution_permit_digest = none;
  })

unfoldable pub approve_requirement :
    PendingApproval → ApprovalRequirement → ApproverAuthorizationResult → ℤ → Result PendingApproval
approve_requirement approval requirement authorization logical_time =
    transition_requirement approval requirement ApprovalRequirementStatus.approved
      (some authorization) logical_time

unfoldable pub reject_requirement :
    PendingApproval → ApprovalRequirement → ApproverAuthorizationResult → ℤ → Result PendingApproval
reject_requirement approval requirement authorization logical_time =
    transition_requirement approval requirement ApprovalRequirementStatus.rejected
      (some authorization) logical_time

unfoldable pub expire_requirement :
    PendingApproval → ApprovalRequirement → ℤ → Result PendingApproval
expire_requirement approval requirement logical_time =
    transition_requirement approval requirement ApprovalRequirementStatus.expired none logical_time

unfoldable pub consume_approval :
    Digests → PendingApproval → ExecutionPermit → ℤ → Result PendingApproval
consume_approval digests approval permit logical_time = do
  validate_logical_time approval logical_time
  raise_if (approval.status == ApprovalStatus.consumed)
      (transition_error "consumed approval cannot transition")
  raise_if (approval.receipt_digest != permit.original_receipt_digest)
      (transition_error "execution permit does not bind the approval receipt")
  raise_if (digests.approval_digest approval != permit.approved_state_digest)
      (transition_error "execution permit does not bind the exact approved state")
  raise_if (approval.status != ApprovalStatus.approved)
      (transition_error "only an approved approval state can be consumed")
  pending_approval_from_transition (record {
    receipt = approval.receipt;
    receipt_digest = approval.receipt_digest;
    requirement_states = approval.requirement_states;
    logical_time = logical_time;
    consumed_at = some logical_time;
    execution_permit_digest = some (digests.permit_digest permit);
  })
