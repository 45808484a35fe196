-- ===== src/Tests.antt =====
-- The theorems at the concrete world of Examples.antt.
mod Store
mod Canonical
mod Attestation
use nest_authz.Prelude.{
  contains, ◌≡◌, refl, ok, some, pos, true, String, Option, List, [], ◌∷◌, All, ◌↔◌, if◌then◌else◌,
}
use nest_authz.Domain.Status.{
  ApproverAuthorizationStatus, AuthorityApplicabilityStatus, ExecutionAuthorizationStatus, Outcome,
}
use nest_authz.Domain.Authority.{AuthorityValidationResult}
use nest_authz.Domain.Evidence.{SubjectAuthorityBindingResult, AuthorityApplicabilityResult}
use nest_authz.Domain.Decision.{Decision}
use nest_authz.Delegation.{validate_authority, reference_cycle, is_attenuation, leaf_of}
use nest_authz.Delegation.Spec.{Attenuates}
use nest_authz.Delegation.Cycles.{reference_cycle-ok}
use nest_authz.Delegation.Checks.{is_attenuation_iff}
use nest_authz.Delegation.Decides.{Decided, validate_authority_decides}
use nest_authz.Delegation.Attenuation.{Narrows, validate_authority_never_amplifies}
use nest_authz.Applicability.{check_authority_applicability}
use nest_authz.Applicability.Laws.{
  WithinScope, applicability_result, check_authority_applicability-ok,
}
use nest_authz.Applicability.Scope.{check_authority_applicability_decides}
use nest_authz.Applicability.Provenance.{applicable_within_every_grant}
use nest_authz.Evaluator.Decide.{Evaluated, applicability_of, holder_binding_of, evaluate}
use nest_authz.Evaluator.Rules.{rules_in, EvaluatesEach}
use nest_authz.Evaluator.Combining.{gates_pass, outcome_at, strongest, evaluate-outcome}
use nest_authz.Evaluator.Gates.{evaluate-within_authority}
use nest_authz.Approval.Reach.{
  Step, Run, WellFormed, Keeps, Run-Keeps, consumed_is_terminal, reachable-WellFormed,
}
use nest_authz.Execution.{current}
use nest_authz.Execution.Authorized.{StillAuthorized}
use nest_authz.Execution.Revalidated.{PermitIffAuthorized, revalidate_for_execution-authorized}
use nest_authz.Approver.{check_approver_authorization}
use nest_authz.Approver.Decides.{check_approver_authorization_decides}
use nest_authz.Domain.Identity.{principal_eq}
use nest_authz.Domain.Approval.{ApproverAuthorizationResult, requirements_of}
use nest_authz.Receipt.Binds.{Binds, create_decision_receipt-Binds}
use nest_authz.Examples.Runs.{runs}
use nest_authz.Examples.{
  digests, root_grant, leaf_grant, chain, state, validation, request, bundle, authority,
  subject_binding, decision, receipt, pending, approved, approver_evidence, requirement,
  revalidated, consumed,
}

validate_authority_decides_example :
    Decided digests state root_grant (leaf_grant ∷ []) (validate_authority digests chain state)
validate_authority_decides_example =
    validate_authority_decides digests state root_grant (leaf_grant ∷ []) runs.named

validate_authority_never_amplifies_example :
    (authority.principal ≡ leaf_grant.grantee)
    × (authority.scope ≡ leaf_grant.scope)
    × All (Narrows authority.scope) (root_grant ∷ leaf_grant ∷ [])
unfolding leaf_of
validate_authority_never_amplifies_example =
    validate_authority_never_amplifies digests state root_grant (leaf_grant ∷ []) validation
      authority runs.named runs.validation_returns refl

evaluate-within_authority_example :
    WithinScope request authority.scope
    × (request.subject ≡ subject_binding.subject)
    × (subject_binding.principal ≡ authority.principal)
evaluate-within_authority_example =
    evaluate-within_authority digests request authority subject_binding bundle decision
      runs.authority_named runs.named_bounds runs.decision_returns runs.needs_approval

evaluate-outcome_example :
    (es : List Evaluated) × (applicability : Option AuthorityApplicabilityResult) × (holder : Option
      SubjectAuthorityBindingResult)
    × EvaluatesEach request (rules_in bundle.policies) es
    × (applicability_of digests request (some authority) ≡ ok applicability)
    × (holder_binding_of digests request (some authority) (some subject_binding) ≡ ok holder)
    × (decision.outcome
        ≡ (if gates_pass applicability holder then outcome_at (strongest es) else Outcome.deny))
evaluate-outcome_example =
    evaluate-outcome digests request bundle (some authority) (some subject_binding) decision
      runs.decision_returns

applicable_within_every_grant_example :
    All (λ g. WithinScope request g.scope) (root_grant ∷ leaf_grant ∷ [])
applicable_within_every_grant_example =
    applicable_within_every_grant digests state root_grant (leaf_grant ∷ []) request validation
      authority (applicability_result digests request authority) runs.named runs.validation_returns
      refl runs.authority_named runs.named_bounds
      (check_authority_applicability-ok digests request authority runs.authority_named
        runs.named_bounds)
      runs.applicable

check_authority_applicability_decides_example :
    (r : AuthorityApplicabilityResult) × (check_authority_applicability digests request authority
      ≡ ok r)
    × ((r.status ≡ AuthorityApplicabilityStatus.applicable) ↔ WithinScope request authority.scope)
check_authority_applicability_decides_example =
    check_authority_applicability_decides digests request authority runs.authority_named
      runs.named_bounds

reference_cycle-ok_example :
    (c : Option String) × (reference_cycle (leaf_grant ∷ leaf_grant ∷ []) ≡ ok c)
reference_cycle-ok_example = reference_cycle-ok (leaf_grant ∷ leaf_grant ∷ [])

is_attenuation_iff_example :
    (is_attenuation leaf_grant.scope root_grant.scope ≡ true)
    ↔ Attenuates leaf_grant.scope root_grant.scope
is_attenuation_iff_example = is_attenuation_iff leaf_grant.scope root_grant.scope

approves : Step digests pending approved
approves = Step.approve requirement approver_evidence (pos 6) runs.approved_returns

approves_then_stops : Run digests pending approved
approves_then_stops = Run.then_ approves Run.stop

reachable-WellFormed_example :
    WellFormed approved
    × (requirements_of approved.requirement_states ≡ receipt.approval_requirements)
    × (approved.receipt ≡ receipt)
    × (approved.receipt_digest ≡ digests.receipt_digest receipt)
reachable-WellFormed_example =
    reachable-WellFormed digests receipt (pos 5) pending approved runs.pending_returns
      approves_then_stops

pending-WellFormed : WellFormed pending
pending-WellFormed =
    (reachable-WellFormed digests receipt (pos 5) pending pending runs.pending_returns Run.stop).0

Run-Keeps_example : WellFormed approved × Keeps pending approved
Run-Keeps_example = Run-Keeps digests pending approved pending-WellFormed approves_then_stops

consumed_is_terminal_example : ¬ Step digests consumed approved
consumed_is_terminal_example = consumed_is_terminal digests consumed approved runs.is_consumed

revalidate_for_execution-authorized_example :
    (v : AuthorityValidationResult) × (d : Decision) × (validate_authority digests chain state
      ≡ ok v)
    × (evaluate digests request bundle v.verified_authority (some subject_binding) ≡ ok d)
    × ((revalidated.status ≡ ExecutionAuthorizationStatus.authorized)
        ↔ StillAuthorized receipt approved
            (current digests receipt approved request bundle chain state v d))
    × PermitIffAuthorized revalidated
revalidate_for_execution-authorized_example =
    revalidate_for_execution-authorized digests receipt approved request bundle chain state
      subject_binding revalidated runs.revalidated_returns

check_approver_authorization_decides_example :
    (r : ApproverAuthorizationResult) × (check_approver_authorization approver_evidence.actor
        approver_evidence.binding requirement requirement
      ≡ ok r)
    × (r.binding ≡ approver_evidence.binding)
    × (r.required_requirement ≡ requirement)
    × (r.attempted_requirement ≡ requirement)
    × ((r.status ≡ ApproverAuthorizationStatus.authorized)
        ↔ (requirement ≡ requirement)
          × (approver_evidence.actor ≡ approver_evidence.binding.subject)
          × (contains approver_evidence.binding.principal requirement.allowed_principals ≡ true))
check_approver_authorization_decides_example =
    check_approver_authorization_decides approver_evidence.actor approver_evidence.binding
      requirement requirement

create_decision_receipt-Binds_example :
    (a : AuthorityApplicabilityResult) × (b : SubjectAuthorityBindingResult) × Binds digests
      decision receipt a b
create_decision_receipt-Binds_example =
    create_decision_receipt-Binds digests decision receipt runs.receipt_returns runs.needs_approval
