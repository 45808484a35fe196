-- ===== src/Examples/Runs.antt =====
-- What the operations return in the world of Examples.antt, each by running it.
use mathlib.Core.Logic.{◌≢◌}
use nest_authz.Prelude.{
  contains, ◌≡◌, refl, ok, some, pos, true, false, String, Option, List, [], ◌∷◌, All, ◌↔◌,
  if◌then◌else◌,
}
use nest_authz.Domain.Status.{
  ApproverAuthorizationStatus, ApprovalRequirementStatus, ApprovalStatus,
  AuthorityApplicabilityStatus, ExecutionAuthorizationStatus, Outcome,
  SubjectAuthorityBindingStatus,
}
use nest_authz.Domain.Value.{is_blank}
use nest_authz.Domain.Authority.{AuthorityValidationResult}
use nest_authz.Domain.Evidence.{SubjectAuthorityBindingResult, AuthorityApplicabilityResult}
use nest_authz.Domain.Decision.{Decision}
use nest_authz.Delegation.{validate_authority, reference_cycle, is_attenuation, leaf_of}
use nest_authz.Delegation.Decides.{NonBlankIds}
use nest_authz.Applicability.{check_authority_applicability}
use nest_authz.Applicability.Laws.{HasNamedBounds, applicability_result}
use nest_authz.Binding.{binding_status}
use nest_authz.Evaluator.Decide.{
  Evaluated, evaluate_policies, applicability_of, holder_binding_of, evaluate,
}
use nest_authz.Approval.{create_pending_approval, approve_requirement, consume_approval}
use nest_authz.Execution.{current, revalidate_for_execution}
use nest_authz.Approver.{check_approver_authorization}
use nest_authz.Domain.Identity.{principal_eq}
use nest_authz.Domain.Approval.{ApproverAuthorizationResult}
use nest_authz.Receipt.{create_decision_receipt}
use nest_authz.Examples.{
  digests, root_grant, leaf_grant, chain, state, validation, request, bundle, authority,
  subject_binding, decision, receipt, pending, approved, approver_evidence, requirement,
  revalidated, permit, consumed,
}

pub record Runs : Type 0 where
  pub validation_returns : validate_authority digests chain state ≡ ok validation
  pub decision_returns :
      evaluate digests request bundle (some authority) (some subject_binding) ≡ ok decision
  pub pending_returns : create_pending_approval digests receipt (pos 5) ≡ ok pending
  pub approved_returns :
      approve_requirement pending requirement approver_evidence (pos 6) ≡ ok approved
  pub revalidated_returns :
      revalidate_for_execution digests receipt approved request bundle chain state subject_binding
      ≡ ok revalidated
  pub named : NonBlankIds (root_grant ∷ leaf_grant ∷ [])
  pub named_bounds : HasNamedBounds authority.scope
  pub authority_named : is_blank authority.grant_id ≡ false
  pub needs_approval : decision.outcome ≢ Outcome.deny
  pub applicable :
      (applicability_result digests request authority).status
      ≡ AuthorityApplicabilityStatus.applicable
  pub consumed_returns : consume_approval digests approved permit (pos 7) ≡ ok consumed
  pub is_consumed : consumed.status ≡ ApprovalStatus.consumed
  pub revalidated_is_authorized : revalidated.status ≡ ExecutionAuthorizationStatus.authorized
  pub approver_returns :
      check_approver_authorization approver_evidence.actor approver_evidence.binding requirement
        requirement
      ≡ ok approver_evidence
  pub receipt_returns : create_decision_receipt digests decision ≡ ok receipt

pub runs : Runs
unfolding nest_authz.Prelude.string_discrete nest_authz.Prelude.string_eq nest_authz.Prelude.nat_eq
    nest_authz.Prelude.option_discrete nest_authz.Prelude.option_eq nest_authz.Prelude.list_discrete
    nest_authz.Prelude.list_eq nest_authz.Prelude.sort_by nest_authz.Prelude.ℤ_discrete
    nest_authz.Prelude.int_eq native.Mathlib.Decide.ℕ_discrete
    nest_authz.Domain.Status.condition_status_eq nest_authz.Domain.Status.field_namespace_eq
    nest_authz.Domain.Status.condition_operator_eq nest_authz.Domain.Status.rule_effect_eq
    nest_authz.Domain.Status.rule_evaluation_status_eq
    nest_authz.Domain.Status.authority_validation_status_eq
    nest_authz.Domain.Status.authority_applicability_status_eq
    nest_authz.Domain.Status.subject_authority_binding_status_eq
    nest_authz.Domain.Status.approval_requirement_status_eq
    nest_authz.Domain.Status.approval_status_eq
    nest_authz.Domain.Status.approver_authorization_status_eq
    nest_authz.Domain.Status.execution_authorization_status_eq
    nest_authz.Domain.Status.execution_status_eq
    nest_authz.Domain.Status.execution_reservation_status_eq nest_authz.Domain.Status.outcome_eq
    nest_authz.Domain.Value.scalar_eq nest_authz.Domain.Value.sha256_digest_eq
    nest_authz.Domain.Value.is_blank nest_authz.Domain.Value.non_blank
    nest_authz.Domain.Value.text_lt nest_authz.Domain.Value.repeats
    nest_authz.Domain.Value.check_entries nest_authz.Domain.Value.canonical_entries
    nest_authz.Domain.Value.canonical_fields nest_authz.Domain.Value.canonical_integer_bounds
    nest_authz.Domain.Identity.subject_post_init nest_authz.Domain.Identity.action_post_init
    nest_authz.Domain.Identity.resource_post_init nest_authz.Domain.Identity.principal_post_init
    nest_authz.Domain.Identity.subject_eq nest_authz.Domain.Identity.action_eq
    nest_authz.Domain.Identity.resource_eq nest_authz.Domain.Identity.principal_eq
    nest_authz.Domain.Authority.authority_scope_post_init
    nest_authz.Domain.Authority.authority_grant_post_init
    nest_authz.Domain.Authority.delegation_chain_post_init
    nest_authz.Domain.Authority.verified_authority_from_validation
    nest_authz.Domain.Authority.authority_validation_result_post_init
    nest_authz.Delegation.find_grant nest_authz.Delegation.duplicate_from
    nest_authz.Delegation.duplicate_grant_id nest_authz.Delegation.walk
    nest_authz.Delegation.reference_cycle_from nest_authz.Delegation.reference_cycle
    nest_authz.Delegation.principal_cycle_from nest_authz.Delegation.principal_cycle
    nest_authz.Delegation.find_bound nest_authz.Delegation.bound nest_authz.Delegation.covers
    nest_authz.Delegation.is_attenuation nest_authz.Delegation.broken_link
    nest_authz.Delegation.broadened nest_authz.Delegation.first_failing
    nest_authz.Delegation.chain_failure nest_authz.Delegation.checked_from_root
    nest_authz.Delegation.first_failure nest_authz.Delegation.leaf_of nest_authz.Delegation.conclude
    nest_authz.Delegation.validate_authority nest_authz.Domain.Policy.condition_structure_eq
    nest_authz.Domain.Policy.obligation_eq nest_authz.Domain.Policy.approval_requirement_eq
    nest_authz.Domain.Policy.field_reference_post_init nest_authz.Domain.Policy.check_operand
    nest_authz.Domain.Policy.condition_post_init
    nest_authz.Domain.Policy.Canonical.condition_structure
    nest_authz.Domain.Policy.Canonical.check_conditions
    nest_authz.Domain.Policy.Canonical.canonical_conditions
    nest_authz.Domain.Policy.Canonical.obligation_post_init
    nest_authz.Domain.Policy.Canonical.approval_requirement_post_init
    nest_authz.Domain.Policy.Canonical.requirement_lt
    nest_authz.Domain.Policy.Canonical.canonical_approval_requirements
    nest_authz.Domain.Policy.Canonical.rule_post_init
    nest_authz.Domain.Policy.Canonical.policy_post_init
    nest_authz.Domain.Policy.Canonical.policy_bundle_post_init
    nest_authz.Domain.Evidence.expected_binding_status
    nest_authz.Domain.Evidence.subject_authority_binding_result_post_init
    nest_authz.Domain.Evidence.expected_bound_status
    nest_authz.Domain.Evidence.authority_bound_evaluation_post_init
    nest_authz.Domain.Evidence.canonical_bound_evaluations
    nest_authz.Domain.Evidence.aggregate_status
    nest_authz.Domain.Evidence.authority_applicability_result_post_init
    nest_authz.Domain.Evidence.subject_authority_binding_result_eq
    nest_authz.Domain.Evidence.authority_applicability_result_eq
    nest_authz.Domain.Decision.expected_rule_status
    nest_authz.Domain.Decision.rule_evaluation_post_init
    nest_authz.Domain.Decision.rule_identifier_eq nest_authz.Domain.Decision.rule_evaluation_lt
    nest_authz.Domain.Decision.canonical_rule_evaluations
    nest_authz.Domain.Decision.check_authority_evidence
    nest_authz.Domain.Decision.decision_evidence_post_init
    nest_authz.Domain.Decision.reason_post_init nest_authz.Domain.Decision.matched_rule_ids
    nest_authz.Domain.Decision.check_non_deny nest_authz.Domain.Decision.decision_post_init
    nest_authz.Domain.Decision.decision_eq nest_authz.Applicability.direct_attribute
    nest_authz.Applicability.context_value nest_authz.Applicability.bound_status
    nest_authz.Applicability.evaluate_bound nest_authz.Applicability.evaluate_bounds
    nest_authz.Applicability.applicability_status
    nest_authz.Applicability.check_authority_applicability nest_authz.Binding.binding_status
    nest_authz.Binding.check_subject_authority_binding nest_authz.Evaluator.resolve_in
    nest_authz.Evaluator.resolve_field nest_authz.Evaluator.apply_operator
    nest_authz.Evaluator.status_of nest_authz.Evaluator.evaluate_condition
    nest_authz.Evaluator.rule_status nest_authz.Evaluator.condition_results
    nest_authz.Evaluator.evaluate_rule nest_authz.Evaluator.Decide.evaluate_rules
    nest_authz.Evaluator.Decide.evaluate_policies nest_authz.Evaluator.Decide.extend_unique
    nest_authz.Evaluator.Decide.obligations_from nest_authz.Evaluator.Decide.extend_requirements
    nest_authz.Evaluator.Decide.requirements_from nest_authz.Evaluator.Decide.decision_with
    nest_authz.Evaluator.Decide.decide_policy nest_authz.Evaluator.Decide.decide
    nest_authz.Evaluator.Decide.applicability_of nest_authz.Evaluator.Decide.holder_binding_of
    nest_authz.Evaluator.Decide.evaluate nest_authz.Domain.Receipt.decision_receipt_eq
    nest_authz.Domain.Receipt.check_digests
    nest_authz.Domain.Receipt.decision_receipt_from_evaluation
    nest_authz.Domain.Approval.expected_approver_status
    nest_authz.Domain.Approval.approver_authorization_result_post_init
    nest_authz.Domain.Approval.check_authorization
    nest_authz.Domain.Approval.approval_requirement_state_post_init
    nest_authz.Domain.Approval.canonical_approval_requirement_states
    nest_authz.Domain.Approval.derived_status nest_authz.Domain.Approval.lifecycle_status
    nest_authz.Domain.Approval.pending_approval_from_transition
    nest_authz.Approval.validate_logical_time nest_authz.Approval.select_state
    nest_authz.Approval.check_selected nest_authz.Approval.check_approver_evidence
    nest_authz.Approval.replace_state nest_authz.Approval.transition_requirement
    nest_authz.Approval.pending_states nest_authz.Approval.create_pending_approval
    nest_authz.Approval.approve_requirement nest_authz.Approval.reject_requirement
    nest_authz.Approval.expire_requirement nest_authz.Approval.consume_approval
    nest_authz.Domain.Execution.execution_permit_from_revalidation
    nest_authz.Domain.Execution.execution_id_eq nest_authz.Domain.Execution.check_references
    nest_authz.Domain.Execution.execution_record_post_init
    nest_authz.Domain.Execution.execution_reservation_result_post_init
    nest_authz.Domain.Execution.execution_authorization_result_from_revalidation
    nest_authz.Execution.revalidation_status nest_authz.Execution.permit_for
    nest_authz.Execution.finish_revalidation nest_authz.Execution.revalidate_for_execution
    nest_authz.Approver.approver_status nest_authz.Approver.check_approver_authorization
    nest_authz.Receipt.validated_authority_digest nest_authz.Receipt.create_decision_receipt
runs = record {
  validation_returns = refl;
  decision_returns = refl;
  pending_returns = refl;
  approved_returns = refl;
  revalidated_returns = refl;
  named = (refl, (refl, tt));
  named_bounds = record { named = (refl, tt); distinct = refl };
  authority_named = refl;
  needs_approval = λ h. cc h;
  applicable = refl;
  consumed_returns = refl;
  is_consumed = refl;
  revalidated_is_authorized = refl;
  approver_returns = refl;
  receipt_returns = refl;
}
