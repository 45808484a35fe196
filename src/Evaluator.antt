-- ===== src/Evaluator.antt =====
-- evaluator.py: one request against a policy bundle, behind the two authority gates.
pub mod Decide
pub mod Rules
pub mod Combining
pub mod Gates
use Prim.Native.String.{◌++◌ as ◌<>◌}
use nest_authz.Prelude.{
  ℤ, String, Bool, true, false, not, ◌||◌, Option, none, some, List, [], ◌∷◌, ◌++◌, map, ◌==◌, ◌!=◌,
  contains, any, all, select, if◌then◌else◌, ltb_ℤ, leb_ℤ, Result, ok, err, ◌>>=◌, evaluation_error,
  string_eq,
}
use nest_authz.Domain.Status.{
  ConditionStatus, condition_status_eq, FieldNamespace, ConditionOperator, RuleEffect,
  rule_effect_eq, RuleEvaluationStatus, rule_evaluation_status_eq, AuthorityApplicabilityStatus,
  authority_applicability_status_eq, SubjectAuthorityBindingStatus,
  subject_authority_binding_status_eq, Outcome,
}
use nest_authz.Domain.Value.{Scalar, scalar_eq}
use nest_authz.Domain.Identity.{SubjectPrincipalBinding}
use nest_authz.Domain.Authority.{VerifiedAuthority}
use nest_authz.Domain.Policy.{
  FieldReference, Condition, Obligation, obligation_eq, ApprovalRequirement,
  approval_requirement_eq, Rule, Policy, PolicyBundle,
}
use nest_authz.Domain.Policy.Canonical.{is_nonempty}
use nest_authz.Domain.Request.{AuthorizationRequest, AuthorityContext}
use nest_authz.Domain.Evidence.{SubjectAuthorityBindingResult, AuthorityApplicabilityResult}
use nest_authz.Domain.Decision.{
  ConditionResults, result_statuses, RuleEvaluation, DecisionEvidence, Reason, Decision,
  rule_evaluation_post_init, decision_evidence_post_init, reason_post_init, decision_post_init,
}
use nest_authz.Digests.{Digests}
use nest_authz.Applicability.{direct_attribute, check_authority_applicability}
use nest_authz.Binding.{check_subject_authority_binding}

-- Whether the field is present, its value, and a status that is already decided.
pub record Resolution : Type 0 where
  pub present : Bool
  pub actual : Scalar
  pub decided : Option ConditionStatus

abbrev pub undecided : Bool × Scalar → Resolution
undecided (present, value) = record { present = present; actual = value; decided = none }

abbrev pub decided_as : ConditionStatus → Resolution
decided_as s = record { present = false; actual = Scalar.null; decided = some s }

-- A namespace with one field of the given name.
abbrev pub sole_field : String → String → String → Resolution
sole_field name expected value =
    if name != expected
    then decided_as ConditionStatus.error
    else undecided (true, Scalar.str value)

abbrev pub resolve_authority : Option AuthorityContext → String → Resolution
resolve_authority none name = decided_as ConditionStatus.missing_input
resolve_authority (some c) name =
    if name == "identifier"
    then undecided (true, Scalar.str c.identifier)
    else undecided (direct_attribute c.attributes name)

unfoldable pub resolve_in : FieldNamespace → AuthorizationRequest → String → Resolution
resolve_in FieldNamespace.subject request name =
    sole_field name "identifier" request.subject.identifier
resolve_in FieldNamespace.action request name = sole_field name "name" request.action.name
resolve_in FieldNamespace.resource request name =
    sole_field name "identifier" request.resource.identifier
resolve_in FieldNamespace.context request name =
    undecided (direct_attribute request.context.attributes name)
resolve_in FieldNamespace.authority request name = resolve_authority request.authority_context name

unfoldable pub resolve_field : AuthorizationRequest → FieldReference → Resolution
unfolding resolve_in
resolve_field request reference = resolve_in reference.namespace request reference.name

abbrev pub satisfied_if : Bool → ConditionStatus
satisfied_if b = if b then ConditionStatus.satisfied else ConditionStatus.unsatisfied

-- `type(a) is type(b)`
abbrev pub same_type : Scalar → Scalar → Bool
same_type (Scalar.str _) (Scalar.str _) = true
same_type (Scalar.int _) (Scalar.int _) = true
same_type (Scalar.bool _) (Scalar.bool _) = true
same_type Scalar.null Scalar.null = true
same_type _ _ = false

-- The four integer comparisons, on exact integers only.
abbrev pub compare_integers : (ℤ → ℤ → Bool) → Scalar → Scalar → Result ConditionStatus
compare_integers test (Scalar.int actual) (Scalar.int expected) =
    ok (satisfied_if (test actual expected))
compare_integers test (Scalar.int actual) _ =
    err (evaluation_error "integer operator has a non-integer operand")
compare_integers test _ _ = ok ConditionStatus.error

abbrev pub compare_values : (Bool → Bool) → Scalar → Scalar → Result ConditionStatus
compare_values test actual expected =
    if same_type actual expected
    then ok (satisfied_if (test (actual == expected)))
    else ok ConditionStatus.error

-- The operators on a field that is present.
unfoldable pub apply_operator : ConditionOperator → Scalar → Scalar → Result ConditionStatus
apply_operator ConditionOperator.exists actual expected = ok ConditionStatus.satisfied
apply_operator ConditionOperator.equals actual expected =
    compare_values (λ equal. equal) actual expected
apply_operator ConditionOperator.not_equals actual expected = compare_values not actual expected
apply_operator ConditionOperator.integer_less_than actual expected =
    compare_integers (λ a b. ltb_ℤ a b) actual expected
apply_operator ConditionOperator.integer_less_than_or_equal actual expected =
    compare_integers (λ a b. leb_ℤ a b) actual expected
apply_operator ConditionOperator.integer_greater_than actual expected =
    compare_integers (λ a b. ltb_ℤ b a) actual expected
apply_operator ConditionOperator.integer_greater_than_or_equal actual expected =
    compare_integers (λ a b. leb_ℤ b a) actual expected

abbrev pub is_exists : ConditionOperator → Bool
is_exists ConditionOperator.exists = true
is_exists _ = false

unfoldable pub status_of : Resolution → ConditionOperator → Scalar → Result ConditionStatus
unfolding apply_operator
status_of r operator expected = elim r.decided [
  | some s ↦ ok s
  | none ↦
      if is_exists operator
      then ok (satisfied_if r.present)
      else if not r.present
      then ok ConditionStatus.missing_input
      else apply_operator operator r.actual expected
]

unfoldable pub evaluate_condition : AuthorizationRequest → Condition → Result ConditionStatus
unfolding resolve_field status_of
evaluate_condition request condition =
    status_of (resolve_field request condition.field) condition.operator condition.value

unfoldable pub rule_status : List ConditionStatus → Result RuleEvaluationStatus
rule_status statuses =
    if contains ConditionStatus.unsatisfied statuses
    then ok RuleEvaluationStatus.not_matched
    else if contains ConditionStatus.missing_input statuses
        || contains ConditionStatus.error statuses
    then ok RuleEvaluationStatus.indeterminate
    else if all (λ s. s == ConditionStatus.satisfied) statuses
    then ok RuleEvaluationStatus.matched
    else err (evaluation_error "unsupported condition status during rule aggregation")

unfoldable pub condition_results : AuthorizationRequest → List Condition → Result ConditionResults
condition_results request [] = ok []
condition_results request (c ∷ cs) = do
  status ← evaluate_condition request c
  rest ← condition_results request cs
  ok ((c.identifier, status) ∷ rest)

unfoldable pub evaluate_rule : AuthorizationRequest → String → Rule → Result RuleEvaluation
evaluate_rule request policy_id rule = do
  results ← condition_results request rule.conditions
  status ← rule_status (result_statuses results)
  rule_evaluation_post_init (record {
    policy_id = policy_id;
    rule_id = rule.identifier;
    effect = rule.effect;
    status = status;
    condition_results = results;
  })
