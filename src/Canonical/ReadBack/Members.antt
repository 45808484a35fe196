-- ===== src/Canonical/ReadBack/Members.antt =====
-- Values with the same encoding are equal: members of enumerations.
use nest_authz.Prelude.{
  String, Option, some, [], ◌∷◌, find, ◌≡◌, refl, ◌==◌, string_eq, string_discrete,
}
use nest_authz.Canonical.Join.{IsEncoder}
use nest_authz.Canonical.Primitives.{Any}
use nest_authz.Canonical.Containers.{member-IsEncoder}
use nest_authz.Domain.Status.{
  AuthorityValidationStatus, FieldNamespace, ConditionOperator, RuleEffect,
  AuthorityApplicabilityStatus, SubjectAuthorityBindingStatus, Outcome, ConditionStatus,
  RuleEvaluationStatus, ApproverAuthorizationStatus, ApprovalRequirementStatus, ApprovalStatus,
  ExecutionAuthorizationStatus, ExecutionStatus, ExecutionReservationStatus,
}
use nest_authz.Canonical.Values.{
  authority_validation_status_value, field_namespace_value, condition_operator_value,
  rule_effect_value, outcome_value, condition_status_value, rule_evaluation_status_value,
  approver_authorization_status_value, approval_requirement_status_value, approval_status_value,
  execution_authorization_status_value, execution_reservation_status_value,
}
use nest_authz.Evaluator.Decide.{applicability_value, binding_value}
use nest_authz.ExecutionStore.{status_value}
use nest_authz.Canonical.Schema.Authority.{encode_authority_validation_status}
use nest_authz.Canonical.Schema.Policy.{
  encode_field_namespace, encode_condition_operator, encode_rule_effect,
}
use nest_authz.Canonical.Schema.Evidence.{
  encode_authority_applicability_status, encode_subject_authority_binding_status,
}
use nest_authz.Canonical.Schema.Decision.{
  encode_outcome, encode_condition_status, encode_rule_evaluation_status,
}
use nest_authz.Canonical.Schema.Approval.{
  encode_approver_authorization_status, encode_approval_requirement_status, encode_approval_status,
}
use nest_authz.Canonical.Schema.Execution.{
  encode_execution_authorization_status, encode_execution_status,
  encode_execution_reservation_status,
}

abbrev read_authority_validation_status : String → Option AuthorityValidationStatus
read_authority_validation_status text =
    find (λ member. authority_validation_status_value member == text)
      (AuthorityValidationStatus.valid ∷ AuthorityValidationStatus.revoked
        ∷ AuthorityValidationStatus.not_yet_valid ∷ AuthorityValidationStatus.expired
        ∷ AuthorityValidationStatus.broadened_authority
        ∷ AuthorityValidationStatus.broken_provenance ∷ AuthorityValidationStatus.cycle
        ∷ AuthorityValidationStatus.invalid_chain ∷ [])

read_authority_validation_status_lem :
    (member : AuthorityValidationStatus)
    → read_authority_validation_status (authority_validation_status_value member) ≡ some member
unfolding string_eq string_discrete
read_authority_validation_status_lem AuthorityValidationStatus.valid = refl
read_authority_validation_status_lem AuthorityValidationStatus.revoked = refl
read_authority_validation_status_lem AuthorityValidationStatus.not_yet_valid = refl
read_authority_validation_status_lem AuthorityValidationStatus.expired = refl
read_authority_validation_status_lem AuthorityValidationStatus.broadened_authority = refl
read_authority_validation_status_lem AuthorityValidationStatus.broken_provenance = refl
read_authority_validation_status_lem AuthorityValidationStatus.cycle = refl
read_authority_validation_status_lem AuthorityValidationStatus.invalid_chain = refl

pub authority_validation_status-IsEncoder : IsEncoder Any encode_authority_validation_status
unfolding encode_authority_validation_status
authority_validation_status-IsEncoder =
    member-IsEncoder "nest-authz/authority-validation-status@1" authority_validation_status_value
      read_authority_validation_status read_authority_validation_status_lem

abbrev read_field_namespace : String → Option FieldNamespace
read_field_namespace text =
    find (λ member. field_namespace_value member == text)
      (FieldNamespace.subject ∷ FieldNamespace.action ∷ FieldNamespace.resource
        ∷ FieldNamespace.context ∷ FieldNamespace.authority ∷ [])

read_field_namespace_lem :
    (member : FieldNamespace) → read_field_namespace (field_namespace_value member) ≡ some member
unfolding string_eq string_discrete
read_field_namespace_lem FieldNamespace.subject = refl
read_field_namespace_lem FieldNamespace.action = refl
read_field_namespace_lem FieldNamespace.resource = refl
read_field_namespace_lem FieldNamespace.context = refl
read_field_namespace_lem FieldNamespace.authority = refl

pub field_namespace-IsEncoder : IsEncoder Any encode_field_namespace
unfolding encode_field_namespace
field_namespace-IsEncoder =
    member-IsEncoder "nest-authz/field-namespace@1" field_namespace_value read_field_namespace
      read_field_namespace_lem

abbrev read_condition_operator : String → Option ConditionOperator
read_condition_operator text =
    find (λ member. condition_operator_value member == text)
      (ConditionOperator.equals ∷ ConditionOperator.not_equals ∷ ConditionOperator.exists
        ∷ ConditionOperator.integer_less_than ∷ ConditionOperator.integer_less_than_or_equal
        ∷ ConditionOperator.integer_greater_than ∷ ConditionOperator.integer_greater_than_or_equal
        ∷ [])

read_condition_operator_lem :
    (member : ConditionOperator)
    → read_condition_operator (condition_operator_value member) ≡ some member
unfolding string_eq string_discrete
read_condition_operator_lem ConditionOperator.equals = refl
read_condition_operator_lem ConditionOperator.not_equals = refl
read_condition_operator_lem ConditionOperator.exists = refl
read_condition_operator_lem ConditionOperator.integer_less_than = refl
read_condition_operator_lem ConditionOperator.integer_less_than_or_equal = refl
read_condition_operator_lem ConditionOperator.integer_greater_than = refl
read_condition_operator_lem ConditionOperator.integer_greater_than_or_equal = refl

pub condition_operator-IsEncoder : IsEncoder Any encode_condition_operator
unfolding encode_condition_operator
condition_operator-IsEncoder =
    member-IsEncoder "nest-authz/condition-operator@1" condition_operator_value
      read_condition_operator read_condition_operator_lem

abbrev read_rule_effect : String → Option RuleEffect
read_rule_effect text =
    find (λ member. rule_effect_value member == text)
      (RuleEffect.permit ∷ RuleEffect.deny ∷ RuleEffect.approval_required ∷ [])

read_rule_effect_lem :
    (member : RuleEffect) → read_rule_effect (rule_effect_value member) ≡ some member
unfolding string_eq string_discrete
read_rule_effect_lem RuleEffect.permit = refl
read_rule_effect_lem RuleEffect.deny = refl
read_rule_effect_lem RuleEffect.approval_required = refl

pub rule_effect-IsEncoder : IsEncoder Any encode_rule_effect
unfolding encode_rule_effect
rule_effect-IsEncoder =
    member-IsEncoder "nest-authz/rule-effect@1" rule_effect_value read_rule_effect
      read_rule_effect_lem

abbrev read_authority_applicability_status : String → Option AuthorityApplicabilityStatus
read_authority_applicability_status text =
    find (λ member. applicability_value member == text)
      (AuthorityApplicabilityStatus.applicable ∷ AuthorityApplicabilityStatus.action_mismatch
        ∷ AuthorityApplicabilityStatus.resource_mismatch
        ∷ AuthorityApplicabilityStatus.missing_context ∷ AuthorityApplicabilityStatus.bound_exceeded
        ∷ AuthorityApplicabilityStatus.type_error ∷ [])

read_authority_applicability_status_lem :
    (member : AuthorityApplicabilityStatus)
    → read_authority_applicability_status (applicability_value member) ≡ some member
unfolding string_eq string_discrete
read_authority_applicability_status_lem AuthorityApplicabilityStatus.applicable = refl
read_authority_applicability_status_lem AuthorityApplicabilityStatus.action_mismatch = refl
read_authority_applicability_status_lem AuthorityApplicabilityStatus.resource_mismatch = refl
read_authority_applicability_status_lem AuthorityApplicabilityStatus.missing_context = refl
read_authority_applicability_status_lem AuthorityApplicabilityStatus.bound_exceeded = refl
read_authority_applicability_status_lem AuthorityApplicabilityStatus.type_error = refl

pub authority_applicability_status-IsEncoder : IsEncoder Any encode_authority_applicability_status
unfolding encode_authority_applicability_status
authority_applicability_status-IsEncoder =
    member-IsEncoder "nest-authz/authority-applicability-status@1" applicability_value
      read_authority_applicability_status read_authority_applicability_status_lem

abbrev read_subject_authority_binding_status : String → Option SubjectAuthorityBindingStatus
read_subject_authority_binding_status text =
    find (λ member. binding_value member == text)
      (SubjectAuthorityBindingStatus.bound ∷ SubjectAuthorityBindingStatus.subject_mismatch
        ∷ SubjectAuthorityBindingStatus.principal_mismatch ∷ [])

read_subject_authority_binding_status_lem :
    (member : SubjectAuthorityBindingStatus)
    → read_subject_authority_binding_status (binding_value member) ≡ some member
unfolding string_eq string_discrete
read_subject_authority_binding_status_lem SubjectAuthorityBindingStatus.bound = refl
read_subject_authority_binding_status_lem SubjectAuthorityBindingStatus.subject_mismatch = refl
read_subject_authority_binding_status_lem SubjectAuthorityBindingStatus.principal_mismatch = refl

pub subject_authority_binding_status-IsEncoder :
    IsEncoder Any encode_subject_authority_binding_status
unfolding encode_subject_authority_binding_status
subject_authority_binding_status-IsEncoder =
    member-IsEncoder "nest-authz/subject-authority-binding-status@1" binding_value
      read_subject_authority_binding_status read_subject_authority_binding_status_lem

abbrev read_outcome : String → Option Outcome
read_outcome text =
    find (λ member. outcome_value member == text)
      (Outcome.permit ∷ Outcome.deny ∷ Outcome.approval_required ∷ [])

read_outcome_lem : (member : Outcome) → read_outcome (outcome_value member) ≡ some member
unfolding string_eq string_discrete
read_outcome_lem Outcome.permit = refl
read_outcome_lem Outcome.deny = refl
read_outcome_lem Outcome.approval_required = refl

pub outcome-IsEncoder : IsEncoder Any encode_outcome
unfolding encode_outcome
outcome-IsEncoder =
    member-IsEncoder "nest-authz/outcome@1" outcome_value read_outcome read_outcome_lem

abbrev read_condition_status : String → Option ConditionStatus
read_condition_status text =
    find (λ member. condition_status_value member == text)
      (ConditionStatus.satisfied ∷ ConditionStatus.unsatisfied ∷ ConditionStatus.not_evaluated
        ∷ ConditionStatus.missing_input ∷ ConditionStatus.error ∷ [])

read_condition_status_lem :
    (member : ConditionStatus) → read_condition_status (condition_status_value member) ≡ some member
unfolding string_eq string_discrete
read_condition_status_lem ConditionStatus.satisfied = refl
read_condition_status_lem ConditionStatus.unsatisfied = refl
read_condition_status_lem ConditionStatus.not_evaluated = refl
read_condition_status_lem ConditionStatus.missing_input = refl
read_condition_status_lem ConditionStatus.error = refl

pub condition_status-IsEncoder : IsEncoder Any encode_condition_status
unfolding encode_condition_status
condition_status-IsEncoder =
    member-IsEncoder "nest-authz/condition-status@1" condition_status_value read_condition_status
      read_condition_status_lem

abbrev read_rule_evaluation_status : String → Option RuleEvaluationStatus
read_rule_evaluation_status text =
    find (λ member. rule_evaluation_status_value member == text)
      (RuleEvaluationStatus.matched ∷ RuleEvaluationStatus.not_matched
        ∷ RuleEvaluationStatus.indeterminate ∷ [])

read_rule_evaluation_status_lem :
    (member : RuleEvaluationStatus)
    → read_rule_evaluation_status (rule_evaluation_status_value member) ≡ some member
unfolding string_eq string_discrete
read_rule_evaluation_status_lem RuleEvaluationStatus.matched = refl
read_rule_evaluation_status_lem RuleEvaluationStatus.not_matched = refl
read_rule_evaluation_status_lem RuleEvaluationStatus.indeterminate = refl

pub rule_evaluation_status-IsEncoder : IsEncoder Any encode_rule_evaluation_status
unfolding encode_rule_evaluation_status
rule_evaluation_status-IsEncoder =
    member-IsEncoder "nest-authz/rule-evaluation-status@1" rule_evaluation_status_value
      read_rule_evaluation_status read_rule_evaluation_status_lem

abbrev read_approver_authorization_status : String → Option ApproverAuthorizationStatus
read_approver_authorization_status text =
    find (λ member. approver_authorization_status_value member == text)
      (ApproverAuthorizationStatus.authorized ∷ ApproverAuthorizationStatus.subject_mismatch
        ∷ ApproverAuthorizationStatus.principal_not_allowed
        ∷ ApproverAuthorizationStatus.requirement_mismatch ∷ [])

read_approver_authorization_status_lem :
    (member : ApproverAuthorizationStatus)
    → read_approver_authorization_status (approver_authorization_status_value member) ≡ some member
unfolding string_eq string_discrete
read_approver_authorization_status_lem ApproverAuthorizationStatus.authorized = refl
read_approver_authorization_status_lem ApproverAuthorizationStatus.subject_mismatch = refl
read_approver_authorization_status_lem ApproverAuthorizationStatus.principal_not_allowed = refl
read_approver_authorization_status_lem ApproverAuthorizationStatus.requirement_mismatch = refl

pub approver_authorization_status-IsEncoder : IsEncoder Any encode_approver_authorization_status
unfolding encode_approver_authorization_status
approver_authorization_status-IsEncoder =
    member-IsEncoder "nest-authz/approver-authorization-status@1"
      approver_authorization_status_value read_approver_authorization_status
      read_approver_authorization_status_lem

abbrev read_approval_requirement_status : String → Option ApprovalRequirementStatus
read_approval_requirement_status text =
    find (λ member. approval_requirement_status_value member == text)
      (ApprovalRequirementStatus.pending ∷ ApprovalRequirementStatus.approved
        ∷ ApprovalRequirementStatus.rejected ∷ ApprovalRequirementStatus.expired ∷ [])

read_approval_requirement_status_lem :
    (member : ApprovalRequirementStatus)
    → read_approval_requirement_status (approval_requirement_status_value member) ≡ some member
unfolding string_eq string_discrete
read_approval_requirement_status_lem ApprovalRequirementStatus.pending = refl
read_approval_requirement_status_lem ApprovalRequirementStatus.approved = refl
read_approval_requirement_status_lem ApprovalRequirementStatus.rejected = refl
read_approval_requirement_status_lem ApprovalRequirementStatus.expired = refl

pub approval_requirement_status-IsEncoder : IsEncoder Any encode_approval_requirement_status
unfolding encode_approval_requirement_status
approval_requirement_status-IsEncoder =
    member-IsEncoder "nest-authz/approval-requirement-status@1" approval_requirement_status_value
      read_approval_requirement_status read_approval_requirement_status_lem

abbrev read_approval_status : String → Option ApprovalStatus
read_approval_status text =
    find (λ member. approval_status_value member == text)
      (ApprovalStatus.pending ∷ ApprovalStatus.approved ∷ ApprovalStatus.rejected
        ∷ ApprovalStatus.expired ∷ ApprovalStatus.consumed ∷ [])

read_approval_status_lem :
    (member : ApprovalStatus) → read_approval_status (approval_status_value member) ≡ some member
unfolding string_eq string_discrete
read_approval_status_lem ApprovalStatus.pending = refl
read_approval_status_lem ApprovalStatus.approved = refl
read_approval_status_lem ApprovalStatus.rejected = refl
read_approval_status_lem ApprovalStatus.expired = refl
read_approval_status_lem ApprovalStatus.consumed = refl

pub approval_status-IsEncoder : IsEncoder Any encode_approval_status
unfolding encode_approval_status
approval_status-IsEncoder =
    member-IsEncoder "nest-authz/approval-status@1" approval_status_value read_approval_status
      read_approval_status_lem

abbrev read_execution_authorization_status : String → Option ExecutionAuthorizationStatus
read_execution_authorization_status text =
    find (λ member. execution_authorization_status_value member == text)
      (ExecutionAuthorizationStatus.authorized ∷ ExecutionAuthorizationStatus.approval_not_approved
        ∷ ExecutionAuthorizationStatus.receipt_mismatch
        ∷ ExecutionAuthorizationStatus.request_mismatch
        ∷ ExecutionAuthorizationStatus.delegation_chain_mismatch
        ∷ ExecutionAuthorizationStatus.authority_invalid
        ∷ ExecutionAuthorizationStatus.holder_binding_failed
        ∷ ExecutionAuthorizationStatus.authority_not_applicable
        ∷ ExecutionAuthorizationStatus.policy_denied
        ∷ ExecutionAuthorizationStatus.policy_reauthorization_required
        ∷ ExecutionAuthorizationStatus.approval_requirements_changed
        ∷ ExecutionAuthorizationStatus.policy_bundle_mismatch ∷ [])

read_execution_authorization_status_lem :
    (member : ExecutionAuthorizationStatus)
    → read_execution_authorization_status (execution_authorization_status_value member)
      ≡ some member
unfolding string_eq string_discrete
read_execution_authorization_status_lem ExecutionAuthorizationStatus.authorized = refl
read_execution_authorization_status_lem ExecutionAuthorizationStatus.approval_not_approved = refl
read_execution_authorization_status_lem ExecutionAuthorizationStatus.receipt_mismatch = refl
read_execution_authorization_status_lem ExecutionAuthorizationStatus.request_mismatch = refl
read_execution_authorization_status_lem ExecutionAuthorizationStatus.delegation_chain_mismatch =
    refl
read_execution_authorization_status_lem ExecutionAuthorizationStatus.authority_invalid = refl
read_execution_authorization_status_lem ExecutionAuthorizationStatus.holder_binding_failed = refl
read_execution_authorization_status_lem ExecutionAuthorizationStatus.authority_not_applicable = refl
read_execution_authorization_status_lem ExecutionAuthorizationStatus.policy_denied = refl
read_execution_authorization_status_lem
      ExecutionAuthorizationStatus.policy_reauthorization_required =
    refl
read_execution_authorization_status_lem ExecutionAuthorizationStatus.approval_requirements_changed =
    refl
read_execution_authorization_status_lem ExecutionAuthorizationStatus.policy_bundle_mismatch = refl

pub execution_authorization_status-IsEncoder : IsEncoder Any encode_execution_authorization_status
unfolding encode_execution_authorization_status
execution_authorization_status-IsEncoder =
    member-IsEncoder "nest-authz/execution-authorization-status@1"
      execution_authorization_status_value read_execution_authorization_status
      read_execution_authorization_status_lem

abbrev read_execution_status : String → Option ExecutionStatus
read_execution_status text =
    find (λ member. status_value member == text)
      (ExecutionStatus.reserved ∷ ExecutionStatus.succeeded ∷ ExecutionStatus.failed ∷ [])

read_execution_status_lem :
    (member : ExecutionStatus) → read_execution_status (status_value member) ≡ some member
unfolding string_eq string_discrete
read_execution_status_lem ExecutionStatus.reserved = refl
read_execution_status_lem ExecutionStatus.succeeded = refl
read_execution_status_lem ExecutionStatus.failed = refl

pub execution_status-IsEncoder : IsEncoder Any encode_execution_status
unfolding encode_execution_status
execution_status-IsEncoder =
    member-IsEncoder "nest-authz/execution-status@1" status_value read_execution_status
      read_execution_status_lem

abbrev read_execution_reservation_status : String → Option ExecutionReservationStatus
read_execution_reservation_status text =
    find (λ member. execution_reservation_status_value member == text)
      (ExecutionReservationStatus.new_reservation ∷ ExecutionReservationStatus.existing_reserved
        ∷ ExecutionReservationStatus.already_succeeded ∷ ExecutionReservationStatus.failed_existing
        ∷ [])

read_execution_reservation_status_lem :
    (member : ExecutionReservationStatus)
    → read_execution_reservation_status (execution_reservation_status_value member) ≡ some member
unfolding string_eq string_discrete
read_execution_reservation_status_lem ExecutionReservationStatus.new_reservation = refl
read_execution_reservation_status_lem ExecutionReservationStatus.existing_reserved = refl
read_execution_reservation_status_lem ExecutionReservationStatus.already_succeeded = refl
read_execution_reservation_status_lem ExecutionReservationStatus.failed_existing = refl

pub execution_reservation_status-IsEncoder : IsEncoder Any encode_execution_reservation_status
unfolding encode_execution_reservation_status
execution_reservation_status-IsEncoder =
    member-IsEncoder "nest-authz/execution-reservation-status@1" execution_reservation_status_value
      read_execution_reservation_status read_execution_reservation_status_lem
