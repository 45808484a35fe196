-- ===== src/Evaluator/Rules.antt =====
-- That the loops of `evaluate` in evaluator.py evaluate every rule, and what a rule's status says.
use nest_authz.Prelude.{
  String, ◌≡◌, refl, subst, ◌↔◌, ◌⊎◌, inl, inr, true, List, [], ◌∷◌, ◌++◌, map, ◌==◌, all, contains,
  All, In, arith, Bool-cases, eq_of_test, ne_of_test, ok, bind_returns, then_returns, ok-injective,
  Result, err, not, any, ◌!=◌, raise_if, value_error, ◌>>=◌, ◌>>◌,
}
use nest_authz.Domain.Status.{
  ConditionStatus, condition_status_eq, RuleEvaluationStatus, rule_evaluation_status_eq,
}
use nest_authz.Domain.Value.{non_blank, canonical_entries}
use nest_authz.Domain.Policy.Canonical.{is_nonempty}
use nest_authz.Domain.Policy.{Condition, Rule, Policy}
use nest_authz.Domain.Request.{AuthorizationRequest}
use nest_authz.Domain.Decision.{
  ConditionResults, result_statuses, RuleEvaluation, expected_rule_status,
  rule_evaluation_post_init,
}
use nest_authz.Evaluator.{evaluate_condition, rule_status, condition_results, evaluate_rule}
use nest_authz.Evaluator.Decide.{Evaluated, evaluate_rules, evaluate_policies}

-- The rules of all policies, in order, each with the identifier of its policy.
abbrev pub rules_in : List Policy → List (String × Rule)
rules_in [] = []
rules_in (policy ∷ policies) =
    map (λ rule. (policy.identifier, rule)) policy.rules ++ rules_in policies

-- What `_evaluate_condition` returns for each of the conditions, in order.
abbrev pub HasStatuses : AuthorizationRequest → List Condition → List ConditionStatus → Type 0
HasStatuses request [] [] = Unit
HasStatuses request [] (s ∷ ss) = ⊥
HasStatuses request (c ∷ cs) [] = ⊥
HasStatuses request (c ∷ cs) (s ∷ ss) =
    (evaluate_condition request c ≡ ok s) × HasStatuses request cs ss

-- What a rule's status says of the statuses of its conditions.
abbrev pub Aggregates : List ConditionStatus → RuleEvaluationStatus → Type 0
Aggregates ss RuleEvaluationStatus.matched = All (λ s. s ≡ ConditionStatus.satisfied) ss
Aggregates ss RuleEvaluationStatus.not_matched = In ConditionStatus.unsatisfied ss
Aggregates ss RuleEvaluationStatus.indeterminate =
    ¬ In ConditionStatus.unsatisfied ss
    × (In ConditionStatus.missing_input ss ⊎ In ConditionStatus.error ss)

abbrev pub Judges : AuthorizationRequest → List Condition → RuleEvaluationStatus → Type 0
Judges request conditions status =
    (ss : List ConditionStatus) × HasStatuses request conditions ss × Aggregates ss status

In-contains : (s : ConditionStatus) (ss : List ConditionStatus) → (contains s ss ≡ true) ↔ In s ss
In-contains s [] = (λ h. cc, λ h. elim h [ ])
In-contains s (t ∷ ss) =
    let ih = In-contains s ss in
    elim (Bool-cases (s == t)) [
      | inl e ↦ (λ h. inl (eq_of_test s t e), λ h. rw e refl)
      | inr e ↦ (
        λ h. inr (ih.0 (rw e at h)),
        λ h. elim h [ inl x ↦ absurd (ne_of_test s t e x) | inr x ↦ rw e (ih.1 x) ],
      )
    ]

all_satisfied :
    (ss : List ConditionStatus)
    → all (λ s. s == ConditionStatus.satisfied) ss ≡ true
    → All (λ s. s ≡ ConditionStatus.satisfied) ss
all_satisfied [] h = tt
all_satisfied (s ∷ ss) h = ground (arith, all_satisfied ss)

rule_status-Aggregates :
    (ss : List ConditionStatus) (status : RuleEvaluationStatus)
    → rule_status ss ≡ ok status
    → Aggregates ss status
unfolding rule_status
rule_status-Aggregates ss RuleEvaluationStatus.matched h = all_satisfied ss (ground arith)
rule_status-Aggregates ss RuleEvaluationStatus.not_matched h =
    (In-contains ConditionStatus.unsatisfied ss).0 (ground arith)
rule_status-Aggregates ss RuleEvaluationStatus.indeterminate h = (
  λ i. ground (arith, (In-contains ConditionStatus.unsatisfied ss).1 i),
  elim (Bool-cases (contains ConditionStatus.missing_input ss)) [
    | inl e ↦ inl ((In-contains ConditionStatus.missing_input ss).0 e)
    | inr e ↦ inr ((In-contains ConditionStatus.error ss).0 (ground arith))
  ],
)

condition_results-HasStatuses :
    (request : AuthorizationRequest) (conditions : List Condition) (results : ConditionResults)
    → condition_results request conditions ≡ ok results
    → HasStatuses request conditions (result_statuses results)
unfolding condition_results
condition_results-HasStatuses request [] results h =
    subst (λ x. HasStatuses request [] (result_statuses x)) (ok-injective h) tt
condition_results-HasStatuses request (c ∷ cs) results h =
    let (s, e, h1) = bind_returns (evaluate_condition request c) _ h in
    let (rest, f, h2) = bind_returns (condition_results request cs) _ h1 in
    subst (λ x. HasStatuses request (c ∷ cs) (result_statuses x)) (ok-injective h2)
      (e, condition_results-HasStatuses request cs rest f)

checked-same_status :
    (o : Result ConditionResults) (r e : RuleEvaluation)
    → (do
      results ← o
      raise_if
          (not (is_nonempty results))
          (value_error "a rule evaluation must contain condition results")
      raise_if
          (any (λ s. s == ConditionStatus.not_evaluated) (result_statuses results))
          (value_error "NOT_EVALUATED is not valid in a version-1 rule evaluation")
      raise_if
          (r.status != expected_rule_status (result_statuses results))
          (value_error "rule evaluation status does not match its condition results")
      ok (record r { condition_results = results }))
      ≡ ok e
    → r.status ≡ e.status
checked-same_status (err x) r e h = cc
checked-same_status (ok results) r e h = ground arith

post_init-same_status :
    (r e : RuleEvaluation) → rule_evaluation_post_init r ≡ ok e → r.status ≡ e.status
unfolding rule_evaluation_post_init
post_init-same_status r e h =
    let (_, h1) = then_returns (non_blank r.policy_id "policy identifier") _ h in
    let (_, h2) = then_returns (non_blank r.rule_id "rule identifier") _ h1 in
    checked-same_status
      (canonical_entries "condition name" "condition_results contains a duplicate name"
        r.condition_results)
      r e h2

-- The status that `_evaluate_rule` gives a rule follows from its conditions.
evaluate_rule-Judges :
    (request : AuthorizationRequest) (policy_id : String) (rule : Rule) (e : RuleEvaluation)
    → evaluate_rule request policy_id rule ≡ ok e
    → Judges request rule.conditions e.status
unfolding evaluate_rule
evaluate_rule-Judges request policy_id rule e h =
    let (results, f, h1) = bind_returns (condition_results request rule.conditions) _ h in
    let (status, g, h2) = bind_returns (rule_status (result_statuses results)) _ h1 in
    (
      result_statuses results,
      condition_results-HasStatuses request rule.conditions results f,
      subst (Aggregates (result_statuses results)) (post_init-same_status _ e h2)
          (rule_status-Aggregates (result_statuses results) status g),
    )

-- One evaluation for each of the rules, in order: what `_evaluate_rule` returns for it, with the
-- status that follows from its conditions.
abbrev pub EvaluatesEach : AuthorizationRequest → List (String × Rule) → List Evaluated → Type 0
EvaluatesEach request [] [] = Unit
EvaluatesEach request [] (e ∷ es) = ⊥
EvaluatesEach request (x ∷ xs) [] = ⊥
EvaluatesEach request (x ∷ xs) (e ∷ es) =
    (e.rule ≡ x.1)
    × (evaluate_rule request x.0 x.1 ≡ ok e.evaluation)
    × Judges request x.1.conditions e.evaluation.status
    × EvaluatesEach request xs es

EvaluatesEach-append :
    (request : AuthorizationRequest) (xs ys : List (String × Rule)) (es fs : List Evaluated)
    → EvaluatesEach request xs es
    → EvaluatesEach request ys fs
    → EvaluatesEach request (xs ++ ys) (es ++ fs)
EvaluatesEach-append request [] ys [] fs h k = k
EvaluatesEach-append request [] ys (e ∷ es) fs h k = elim h [ ]
EvaluatesEach-append request (x ∷ xs) ys [] fs h k = elim h [ ]
EvaluatesEach-append request (x ∷ xs) ys (e ∷ es) fs h k =
    (h.0, h.1, h.2, EvaluatesEach-append request xs ys es fs h.3 k)

evaluate_rules-EvaluatesEach :
    (request : AuthorizationRequest) (policy_id : String) (rules : List Rule) (es : List Evaluated)
    → evaluate_rules request policy_id rules ≡ ok es
    → EvaluatesEach request (map (λ rule. (policy_id, rule)) rules) es
unfolding evaluate_rules
evaluate_rules-EvaluatesEach request policy_id [] es h =
    subst (EvaluatesEach request []) (ok-injective h) tt
evaluate_rules-EvaluatesEach request policy_id (rule ∷ rules) es h =
    let (evaluation, e, h1) = bind_returns (evaluate_rule request policy_id rule) _ h in
    let (rest, f, h2) = bind_returns (evaluate_rules request policy_id rules) _ h1 in
    subst (EvaluatesEach request (map (λ r. (policy_id, r)) (rule ∷ rules))) (ok-injective h2) (
      refl,
      e,
      evaluate_rule-Judges request policy_id rule evaluation e,
      evaluate_rules-EvaluatesEach request policy_id rules rest f,
    )

-- The loops evaluate every rule of every policy.
pub evaluate_policies-EvaluatesEach :
    (request : AuthorizationRequest) (policies : List Policy) (es : List Evaluated)
    → evaluate_policies request policies ≡ ok es
    → EvaluatesEach request (rules_in policies) es
unfolding evaluate_policies
evaluate_policies-EvaluatesEach request [] es h =
    subst (EvaluatesEach request []) (ok-injective h) tt
evaluate_policies-EvaluatesEach request (policy ∷ policies) es h =
    let (evaluated, e, h1) =
      bind_returns (evaluate_rules request policy.identifier policy.rules) _ h in
    let (rest, f, h2) = bind_returns (evaluate_policies request policies) _ h1 in
    subst (EvaluatesEach request (rules_in (policy ∷ policies))) (ok-injective h2) (
      EvaluatesEach-append request (map (λ r. (policy.identifier, r)) policy.rules)
        (rules_in policies) evaluated rest
        (evaluate_rules-EvaluatesEach request policy.identifier policy.rules evaluated e)
        (evaluate_policies-EvaluatesEach request policies rest f))
