-- ===== src/Canonical/Schema/Policy.antt =====
-- The schemas of `_encode_domain` in canonical.py for policies, rules, conditions, obligations and approval requirements.
use nest_authz.Prelude.{[], ◌∷◌, Result}
use nest_authz.Domain.Status.{FieldNamespace, ConditionOperator, RuleEffect}
use nest_authz.Canonical.Values.{field_namespace_value, condition_operator_value, rule_effect_value}
use nest_authz.Domain.Policy.{
  FieldReference, Condition, Obligation, ApprovalRequirement, Rule, Policy, PolicyBundle,
}
use nest_authz.Canonical.Bytes.{Bytes}
use nest_authz.Canonical.Encode.{
  encode_string, encode_scalar, encode_sequence, encode_scalar_map, encode_record,
}
use nest_authz.Canonical.Schema.Authority.{encode_principal}

unfoldable pub encode_field_namespace : FieldNamespace → Result Bytes
encode_field_namespace value =
    encode_record "nest-authz/field-namespace@1"
      (("value", encode_string (field_namespace_value value)) ∷ [])

unfoldable pub encode_field_reference : FieldReference → Result Bytes
encode_field_reference value = encode_record "nest-authz/field-reference@1" (
    ("namespace", encode_field_namespace value.namespace) ∷ ("name", encode_string value.name) ∷ [])

unfoldable pub encode_condition_operator : ConditionOperator → Result Bytes
encode_condition_operator value =
    encode_record "nest-authz/condition-operator@1"
      (("value", encode_string (condition_operator_value value)) ∷ [])

unfoldable pub encode_condition : Condition → Result Bytes
encode_condition value = encode_record "nest-authz/condition@2" (
    ("identifier", encode_string value.identifier)
    ∷ ("field", encode_field_reference value.field)
    ∷ ("operator", encode_condition_operator value.operator)
    ∷ ("value", encode_scalar value.value)
    ∷ [])

unfoldable pub encode_obligation : Obligation → Result Bytes
encode_obligation value =
    encode_record "nest-authz/obligation@1"
      (("code", encode_string value.code) ∷ ("parameters", encode_scalar_map value.parameters) ∷ [])

unfoldable pub encode_approval_requirement : ApprovalRequirement → Result Bytes
encode_approval_requirement value = encode_record "nest-authz/approval-requirement@2" (
    ("code", encode_string value.code)
    ∷ ("allowed_principals", encode_sequence encode_principal value.allowed_principals)
    ∷ ("parameters", encode_scalar_map value.parameters)
    ∷ [])

unfoldable pub encode_rule_effect : RuleEffect → Result Bytes
encode_rule_effect value =
    encode_record "nest-authz/rule-effect@1"
      (("value", encode_string (rule_effect_value value)) ∷ [])

unfoldable pub encode_rule : Rule → Result Bytes
encode_rule value = encode_record "nest-authz/rule@3" (
    ("identifier", encode_string value.identifier)
    ∷ ("effect", encode_rule_effect value.effect)
    ∷ ("conditions", encode_sequence encode_condition value.conditions)
    ∷ ("obligations", encode_sequence encode_obligation value.obligations)
    ∷ (
      "approval_requirements",
      encode_sequence encode_approval_requirement value.approval_requirements,
    )
    ∷ [])

unfoldable pub encode_policy : Policy → Result Bytes
encode_policy value = encode_record "nest-authz/policy@3" (
    ("identifier", encode_string value.identifier)
    ∷ ("rules", encode_sequence encode_rule value.rules)
    ∷ [])

unfoldable pub encode_policy_bundle : PolicyBundle → Result Bytes
encode_policy_bundle value = encode_record "nest-authz/policy-bundle@3" (
    ("combining_algorithm", encode_string "DENY_OVERRIDES")
    ∷ ("policies", encode_sequence encode_policy value.policies)
    ∷ [])
