-- ===== src/Domain/Status.antt =====
-- The enumerations of domain.py, with the members' names in lower case.
use nest_authz.Prelude.{Eq}

pub data ConditionStatus : Type 0 where
  satisfied unsatisfied not_evaluated missing_input error : ConditionStatus

pub data FieldNamespace : Type 0 where
  subject action resource context authority : FieldNamespace

pub data ConditionOperator : Type 0 where
  equals not_equals exists : ConditionOperator
  integer_less_than integer_less_than_or_equal : ConditionOperator
  integer_greater_than integer_greater_than_or_equal : ConditionOperator

pub data RuleEffect : Type 0 where
  permit deny approval_required : RuleEffect

pub data RuleEvaluationStatus : Type 0 where
  matched not_matched indeterminate : RuleEvaluationStatus

pub data AuthorityValidationStatus : Type 0 where
  valid revoked not_yet_valid expired : AuthorityValidationStatus
  broadened_authority broken_provenance cycle invalid_chain : AuthorityValidationStatus

pub data AuthorityApplicabilityStatus : Type 0 where
  applicable action_mismatch resource_mismatch : AuthorityApplicabilityStatus
  missing_context bound_exceeded type_error : AuthorityApplicabilityStatus

pub data SubjectAuthorityBindingStatus : Type 0 where
  bound subject_mismatch principal_mismatch : SubjectAuthorityBindingStatus

pub data ApprovalRequirementStatus : Type 0 where
  pending approved rejected expired : ApprovalRequirementStatus

pub data ApprovalStatus : Type 0 where
  pending approved rejected expired consumed : ApprovalStatus

pub data ApproverAuthorizationStatus : Type 0 where
  authorized subject_mismatch principal_not_allowed : ApproverAuthorizationStatus
  requirement_mismatch : ApproverAuthorizationStatus

pub data ExecutionAuthorizationStatus : Type 0 where
  authorized approval_not_approved receipt_mismatch : ExecutionAuthorizationStatus
  request_mismatch delegation_chain_mismatch : ExecutionAuthorizationStatus
  authority_invalid holder_binding_failed : ExecutionAuthorizationStatus
  authority_not_applicable policy_denied : ExecutionAuthorizationStatus
  policy_reauthorization_required : ExecutionAuthorizationStatus
  approval_requirements_changed policy_bundle_mismatch : ExecutionAuthorizationStatus

pub data ExecutionStatus : Type 0 where
  reserved succeeded failed : ExecutionStatus

pub data ExecutionReservationStatus : Type 0 where
  new_reservation existing_reserved already_succeeded : ExecutionReservationStatus
  failed_existing : ExecutionReservationStatus

pub data Outcome : Type 0 where
  permit deny approval_required : Outcome

instance unfoldable pub condition_status_eq : Eq ConditionStatus
condition_status_eq = record { dec = hlevel }

instance unfoldable pub field_namespace_eq : Eq FieldNamespace
field_namespace_eq = record { dec = hlevel }

instance unfoldable pub condition_operator_eq : Eq ConditionOperator
condition_operator_eq = record { dec = hlevel }

instance unfoldable pub rule_effect_eq : Eq RuleEffect
rule_effect_eq = record { dec = hlevel }

instance unfoldable pub rule_evaluation_status_eq : Eq RuleEvaluationStatus
rule_evaluation_status_eq = record { dec = hlevel }

instance unfoldable pub authority_validation_status_eq : Eq AuthorityValidationStatus
authority_validation_status_eq = record { dec = hlevel }

instance unfoldable pub authority_applicability_status_eq : Eq AuthorityApplicabilityStatus
authority_applicability_status_eq = record { dec = hlevel }

instance unfoldable pub subject_authority_binding_status_eq : Eq SubjectAuthorityBindingStatus
subject_authority_binding_status_eq = record { dec = hlevel }

instance unfoldable pub approval_requirement_status_eq : Eq ApprovalRequirementStatus
approval_requirement_status_eq = record { dec = hlevel }

instance unfoldable pub approval_status_eq : Eq ApprovalStatus
approval_status_eq = record { dec = hlevel }

instance unfoldable pub approver_authorization_status_eq : Eq ApproverAuthorizationStatus
approver_authorization_status_eq = record { dec = hlevel }

instance unfoldable pub execution_authorization_status_eq : Eq ExecutionAuthorizationStatus
execution_authorization_status_eq = record { dec = hlevel }

instance unfoldable pub execution_status_eq : Eq ExecutionStatus
execution_status_eq = record { dec = hlevel }

instance unfoldable pub execution_reservation_status_eq : Eq ExecutionReservationStatus
execution_reservation_status_eq = record { dec = hlevel }

instance unfoldable pub outcome_eq : Eq Outcome
outcome_eq = record { dec = hlevel }
