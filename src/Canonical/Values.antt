-- ===== src/Canonical/Values.antt =====
-- The values of the enumerations of domain.py, as canonical.py encodes them.
use nest_authz.Prelude.{String}
use nest_authz.Domain.Status.{
  AuthorityValidationStatus, FieldNamespace, ConditionOperator, Outcome, ConditionStatus,
  ApproverAuthorizationStatus, ApprovalRequirementStatus, ApprovalStatus, RuleEffect,
  RuleEvaluationStatus, ExecutionAuthorizationStatus, ExecutionReservationStatus,
}

abbrev pub authority_validation_status_value : AuthorityValidationStatus → String
authority_validation_status_value AuthorityValidationStatus.valid = "VALID"
authority_validation_status_value AuthorityValidationStatus.revoked = "REVOKED"
authority_validation_status_value AuthorityValidationStatus.not_yet_valid = "NOT_YET_VALID"
authority_validation_status_value AuthorityValidationStatus.expired = "EXPIRED"
authority_validation_status_value AuthorityValidationStatus.broadened_authority =
    "BROADENED_AUTHORITY"
authority_validation_status_value AuthorityValidationStatus.broken_provenance = "BROKEN_PROVENANCE"
authority_validation_status_value AuthorityValidationStatus.cycle = "CYCLE"
authority_validation_status_value AuthorityValidationStatus.invalid_chain = "INVALID_CHAIN"

abbrev pub field_namespace_value : FieldNamespace → String
field_namespace_value FieldNamespace.subject = "SUBJECT"
field_namespace_value FieldNamespace.action = "ACTION"
field_namespace_value FieldNamespace.resource = "RESOURCE"
field_namespace_value FieldNamespace.context = "CONTEXT"
field_namespace_value FieldNamespace.authority = "AUTHORITY"

abbrev pub condition_operator_value : ConditionOperator → String
condition_operator_value ConditionOperator.equals = "EQUALS"
condition_operator_value ConditionOperator.not_equals = "NOT_EQUALS"
condition_operator_value ConditionOperator.exists = "EXISTS"
condition_operator_value ConditionOperator.integer_less_than = "INTEGER_LESS_THAN"
condition_operator_value ConditionOperator.integer_less_than_or_equal = "INTEGER_LESS_THAN_OR_EQUAL"
condition_operator_value ConditionOperator.integer_greater_than = "INTEGER_GREATER_THAN"
condition_operator_value ConditionOperator.integer_greater_than_or_equal =
    "INTEGER_GREATER_THAN_OR_EQUAL"

abbrev pub outcome_value : Outcome → String
outcome_value Outcome.permit = "PERMIT"
outcome_value Outcome.deny = "DENY"
outcome_value Outcome.approval_required = "APPROVAL_REQUIRED"

abbrev pub condition_status_value : ConditionStatus → String
condition_status_value ConditionStatus.satisfied = "SATISFIED"
condition_status_value ConditionStatus.unsatisfied = "UNSATISFIED"
condition_status_value ConditionStatus.not_evaluated = "NOT_EVALUATED"
condition_status_value ConditionStatus.missing_input = "MISSING_INPUT"
condition_status_value ConditionStatus.error = "ERROR"

abbrev pub approver_authorization_status_value : ApproverAuthorizationStatus → String
approver_authorization_status_value ApproverAuthorizationStatus.authorized = "AUTHORIZED"
approver_authorization_status_value ApproverAuthorizationStatus.subject_mismatch =
    "SUBJECT_MISMATCH"
approver_authorization_status_value ApproverAuthorizationStatus.principal_not_allowed =
    "PRINCIPAL_NOT_ALLOWED"
approver_authorization_status_value ApproverAuthorizationStatus.requirement_mismatch =
    "REQUIREMENT_MISMATCH"

abbrev pub approval_requirement_status_value : ApprovalRequirementStatus → String
approval_requirement_status_value ApprovalRequirementStatus.pending = "PENDING"
approval_requirement_status_value ApprovalRequirementStatus.approved = "APPROVED"
approval_requirement_status_value ApprovalRequirementStatus.rejected = "REJECTED"
approval_requirement_status_value ApprovalRequirementStatus.expired = "EXPIRED"

abbrev pub approval_status_value : ApprovalStatus → String
approval_status_value ApprovalStatus.pending = "PENDING"
approval_status_value ApprovalStatus.approved = "APPROVED"
approval_status_value ApprovalStatus.rejected = "REJECTED"
approval_status_value ApprovalStatus.expired = "EXPIRED"
approval_status_value ApprovalStatus.consumed = "CONSUMED"

abbrev pub rule_effect_value : RuleEffect → String
rule_effect_value RuleEffect.permit = "PERMIT"
rule_effect_value RuleEffect.deny = "DENY"
rule_effect_value RuleEffect.approval_required = "APPROVAL_REQUIRED"

abbrev pub rule_evaluation_status_value : RuleEvaluationStatus → String
rule_evaluation_status_value RuleEvaluationStatus.matched = "MATCHED"
rule_evaluation_status_value RuleEvaluationStatus.not_matched = "NOT_MATCHED"
rule_evaluation_status_value RuleEvaluationStatus.indeterminate = "INDETERMINATE"

abbrev pub execution_authorization_status_value : ExecutionAuthorizationStatus → String
execution_authorization_status_value ExecutionAuthorizationStatus.authorized = "AUTHORIZED"
execution_authorization_status_value ExecutionAuthorizationStatus.approval_not_approved =
    "APPROVAL_NOT_APPROVED"
execution_authorization_status_value ExecutionAuthorizationStatus.receipt_mismatch =
    "RECEIPT_MISMATCH"
execution_authorization_status_value ExecutionAuthorizationStatus.request_mismatch =
    "REQUEST_MISMATCH"
execution_authorization_status_value ExecutionAuthorizationStatus.delegation_chain_mismatch =
    "DELEGATION_CHAIN_MISMATCH"
execution_authorization_status_value ExecutionAuthorizationStatus.authority_invalid =
    "AUTHORITY_INVALID"
execution_authorization_status_value ExecutionAuthorizationStatus.holder_binding_failed =
    "HOLDER_BINDING_FAILED"
execution_authorization_status_value ExecutionAuthorizationStatus.authority_not_applicable =
    "AUTHORITY_NOT_APPLICABLE"
execution_authorization_status_value ExecutionAuthorizationStatus.policy_denied = "POLICY_DENIED"
execution_authorization_status_value ExecutionAuthorizationStatus.policy_reauthorization_required =
    "POLICY_REAUTHORIZATION_REQUIRED"
execution_authorization_status_value ExecutionAuthorizationStatus.approval_requirements_changed =
    "APPROVAL_REQUIREMENTS_CHANGED"
execution_authorization_status_value ExecutionAuthorizationStatus.policy_bundle_mismatch =
    "POLICY_BUNDLE_MISMATCH"

abbrev pub execution_reservation_status_value : ExecutionReservationStatus → String
execution_reservation_status_value ExecutionReservationStatus.new_reservation = "NEW_RESERVATION"
execution_reservation_status_value ExecutionReservationStatus.existing_reserved =
    "EXISTING_RESERVED"
execution_reservation_status_value ExecutionReservationStatus.already_succeeded =
    "ALREADY_SUCCEEDED"
execution_reservation_status_value ExecutionReservationStatus.failed_existing = "FAILED_EXISTING"
