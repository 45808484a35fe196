-- ===== src/Domain/Policy.antt =====
-- The policy model of domain.py: conditions, rules, policies and bundles, with the checks and
-- the orders of their constructors.
pub mod Canonical
use Prim.Native.Nat.{Ordering}
use Prim.Native.String.{compare as compare_text, ◌++◌ as ◌<>◌}
use nest_authz.Prelude.{
  ℤ, String, ◌≡◌, Bool, true, false, ◌&&◌, ◌||◌, not, Option, none, some, List, [], ◌∷◌, map, Eq,
  ◌==◌, ◌!=◌, contains, ltb_ℤ, sort_by, if◌then◌else◌, Result, ok, err, ◌>>=◌, ◌>>◌, raise_if,
  type_error, value_error, string_discrete, ℤ_discrete, string_eq,
}
use nest_authz.Domain.Status.{FieldNamespace, ConditionOperator, RuleEffect, rule_effect_eq}
use nest_authz.Domain.Value.{Scalar, Fields, non_blank, text_lt, repeats, canonical_fields}
use nest_authz.Domain.Identity.{Principal}

pub record FieldReference : Type 0 where
  pub namespace : FieldNamespace
  pub name : String

-- `value` is compared with its type, as `_typed_value` is.
pub record Condition : Type 0 where
  pub identifier : String
  pub field : FieldReference
  pub operator : ConditionOperator
  pub value : Scalar

pub record Obligation : Type 0 where
  pub code : String
  pub parameters : Fields

pub record ApprovalRequirement : Type 0 where
  pub code : String
  pub allowed_principals : List Principal
  pub parameters : Fields

pub record Rule : Type 0 where
  pub identifier : String
  pub effect : RuleEffect
  pub conditions : List Condition
  pub obligations : List Obligation
  pub approval_requirements : List ApprovalRequirement

pub record Policy : Type 0 where
  pub identifier : String
  pub rules : List Rule

pub record PolicyBundle : Type 0 where
  pub policies : List Policy

-- `_condition_structure`: a condition without its identifier.
pub record ConditionStructure : Type 0 where
  pub field : FieldReference
  pub operator : ConditionOperator
  pub value : Scalar

instance unfoldable pub condition_structure_eq : Eq ConditionStructure
unfolding string_discrete ℤ_discrete
condition_structure_eq = record { dec = hlevel (string_discrete, ℤ_discrete) }

instance unfoldable pub obligation_eq : Eq Obligation
unfolding string_discrete ℤ_discrete
obligation_eq = record { dec = hlevel (string_discrete, ℤ_discrete) }

instance unfoldable pub approval_requirement_eq : Eq ApprovalRequirement
unfolding string_discrete ℤ_discrete
approval_requirement_eq = record { dec = hlevel (string_discrete, ℤ_discrete) }

unfoldable pub field_reference_post_init : FieldReference → Result FieldReference
unfolding non_blank
field_reference_post_init r = do non_blank r.name "field reference name"; ok r

abbrev operator_value : ConditionOperator → String
operator_value ConditionOperator.equals = "EQUALS"
operator_value ConditionOperator.not_equals = "NOT_EQUALS"
operator_value ConditionOperator.exists = "EXISTS"
operator_value ConditionOperator.integer_less_than = "INTEGER_LESS_THAN"
operator_value ConditionOperator.integer_less_than_or_equal = "INTEGER_LESS_THAN_OR_EQUAL"
operator_value ConditionOperator.integer_greater_than = "INTEGER_GREATER_THAN"
operator_value ConditionOperator.integer_greater_than_or_equal = "INTEGER_GREATER_THAN_OR_EQUAL"

-- The tests of a condition's operator against its literal.
unfoldable pub check_operand : ConditionOperator → Scalar → Result (Unit {0})
check_operand ConditionOperator.exists Scalar.null = ok tt
check_operand ConditionOperator.exists _ = err (value_error "EXISTS must not have a value")
check_operand ConditionOperator.equals Scalar.null = err (value_error "EQUALS requires a value")
check_operand ConditionOperator.equals _ = ok tt
check_operand ConditionOperator.not_equals Scalar.null =
    err (value_error "NOT_EQUALS requires a value")
check_operand ConditionOperator.not_equals _ = ok tt
check_operand operator Scalar.null =
    err (value_error (operator_value operator <> " requires a value"))
check_operand operator (Scalar.int _) = ok tt
check_operand operator _ = err (type_error "integer comparison operators require an int value")

unfoldable pub condition_post_init : Condition → Result Condition
unfolding non_blank check_operand
condition_post_init c = do
  non_blank c.identifier "condition identifier"
  check_operand c.operator c.value
  ok c
