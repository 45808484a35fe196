-- ===== src/Evaluator/Combining.antt =====
-- How the function `evaluate` of evaluator.py combines the effects of the rules.
use Prim.Native.String.{◌++◌ as ◌<>◌}
use nest_authz.Prelude.{
  ℕ, zero, suc, String, ◌≡◌, refl, Bool, true, false, ◌&&◌, ◌||◌, Option, none, some, List, [], ◌∷◌,
  arith, any, select, ◌==◌, Bool-cases, inl, inr, if◌then◌else◌, ltb, Result, ok, err, ◌>>=◌,
  bind_returns,
}
use nest_authz.Domain.Status.{
  RuleEffect, rule_effect_eq, RuleEvaluationStatus, rule_evaluation_status_eq, Outcome,
  SubjectAuthorityBindingStatus, subject_authority_binding_status_eq, AuthorityApplicabilityStatus,
  authority_applicability_status_eq,
}
use nest_authz.Domain.Identity.{SubjectPrincipalBinding}
use nest_authz.Domain.Authority.{VerifiedAuthority}
use nest_authz.Domain.Policy.{Obligation, ApprovalRequirement, PolicyBundle}
use nest_authz.Domain.Policy.Canonical.{is_nonempty}
use nest_authz.Domain.Request.{AuthorizationRequest}
use nest_authz.Domain.Evidence.{SubjectAuthorityBindingResult, AuthorityApplicabilityResult}
use nest_authz.Domain.Decision.{DecisionEvidence, Decision, reason_post_init, decision_post_init}
use nest_authz.Digests.{Digests}
use nest_authz.Evaluator.Rules.{rules_in, EvaluatesEach, evaluate_policies-EvaluatesEach}
use nest_authz.Evaluator.Decide.{
  binding_value, applicability_value, Evaluated, evaluations, matched_rules, has_effect,
  is_indeterminate, decision_with, decide_policy, decide, applicability_of, holder_binding_of,
  evaluate,
}

-- How strongly an evaluated rule pulls: a matched DENY and an indeterminate rule most, then
-- APPROVAL_REQUIRED, then PERMIT; a rule that does not match, not at all.
abbrev pub strength_of : RuleEvaluationStatus → RuleEffect → ℕ
strength_of RuleEvaluationStatus.not_matched effect = 0
strength_of RuleEvaluationStatus.indeterminate effect = 3
strength_of RuleEvaluationStatus.matched RuleEffect.permit = 1
strength_of RuleEvaluationStatus.matched RuleEffect.approval_required = 2
strength_of RuleEvaluationStatus.matched RuleEffect.deny = 3

abbrev pub stronger : ℕ → ℕ → ℕ
stronger a b = if ltb a b then b else a

abbrev pub strongest : List Evaluated → ℕ
strongest [] = 0
strongest (e ∷ es) = stronger (strength_of e.evaluation.status e.rule.effect) (strongest es)

-- No pull at all is DENY: the default.
abbrev pub outcome_at : ℕ → Outcome
outcome_at zero = Outcome.deny
outcome_at (suc zero) = Outcome.permit
outcome_at (suc (suc zero)) = Outcome.approval_required
outcome_at (suc (suc (suc n))) = Outcome.deny

-- The level that the tests of `evaluate` arrive at.
abbrev level : Bool → Bool → Bool → Bool → ℕ
level indeterminate denied approval permitted =
    if indeterminate
    then 3
    else if denied
    then 3
    else if approval
    then 2
    else if permitted
    then 1
    else 0

is_nonempty-select {ℓ} :
    {A : Type ℓ} (p : A → Bool) (xs : List A) → is_nonempty (select p xs) ≡ any p xs
is_nonempty-select p [] = refl
is_nonempty-select p (x ∷ xs) = ground (arith, is_nonempty-select p xs)

step :
    (status : RuleEvaluationStatus) (effect : RuleEffect) (i d a p : Bool)
    → stronger (strength_of status effect) (level i d a p)
      ≡ level
          (status == RuleEvaluationStatus.indeterminate || i)
          ((status == RuleEvaluationStatus.matched && effect == RuleEffect.deny) || d)
          ((status == RuleEvaluationStatus.matched && effect == RuleEffect.approval_required) || a)
          ((status == RuleEvaluationStatus.matched && effect == RuleEffect.permit) || p)
step RuleEvaluationStatus.not_matched effect i d a p = ground arith
step RuleEvaluationStatus.indeterminate effect i d a p = ground arith
step RuleEvaluationStatus.matched RuleEffect.permit i d a p = ground arith
step RuleEvaluationStatus.matched RuleEffect.approval_required i d a p = ground arith
step RuleEvaluationStatus.matched RuleEffect.deny i d a p = ground arith

any-matched :
    (effect : RuleEffect) (e : Evaluated) (es : List Evaluated)
    → any (has_effect effect) (matched_rules (e ∷ es))
      ≡ (e.evaluation.status == RuleEvaluationStatus.matched && e.rule.effect == effect)
        || any (has_effect effect) (matched_rules es)
any-matched effect e es = elim (Bool-cases (e.evaluation.status == RuleEvaluationStatus.matched)) [
  | inl h ↦ rw h refl
  | inr h ↦ rw h refl
]

strongest-level :
    (es : List Evaluated)
    → strongest es
      ≡ level
          (any is_indeterminate (evaluations es))
          (any (has_effect RuleEffect.deny) (matched_rules es))
          (any (has_effect RuleEffect.approval_required) (matched_rules es))
          (any (has_effect RuleEffect.permit) (matched_rules es))
strongest-level [] = refl
strongest-level (e ∷ es) =
    rw
      (
        strongest-level es,
        any-matched RuleEffect.deny e es,
        any-matched RuleEffect.approval_required e es,
        any-matched RuleEffect.permit e es,
      )
      (step e.evaluation.status e.rule.effect (any is_indeterminate (evaluations es))
        (any (has_effect RuleEffect.deny) (matched_rules es))
        (any (has_effect RuleEffect.approval_required) (matched_rules es))
        (any (has_effect RuleEffect.permit) (matched_rules es)))

-- The outcome and the evidence of a decision it returns.
abbrev Yields : DecisionEvidence → Outcome → Result Decision → Type 0
Yields evidence outcome r =
    (d : Decision) → r ≡ ok d → (d.outcome ≡ outcome) × (d.evidence ≡ evidence)

decision_with-outcome :
    (evidence : DecisionEvidence) (outcome : Outcome) (code : String)
    (obligations : List Obligation) (requirements : List ApprovalRequirement)
    → Yields evidence outcome (decision_with evidence outcome code obligations requirements)
unfolding decision_with decision_post_init reason_post_init
decision_with-outcome evidence outcome code obligations requirements d h = ground arith

abbrev pub gates_pass :
    Option AuthorityApplicabilityResult → Option SubjectAuthorityBindingResult → Bool
gates_pass (some applicability) (some holder) =
    applicability.status == AuthorityApplicabilityStatus.applicable
    && holder.status == SubjectAuthorityBindingStatus.bound
gates_pass none _ = false
gates_pass (some applicability) none = false

by_level :
    (i d a p : Bool) (evidence : DecisionEvidence) (u v w x y : Result Decision)
    → Yields evidence Outcome.deny u
    → Yields evidence Outcome.deny v
    → Yields evidence Outcome.approval_required w
    → Yields evidence Outcome.permit x
    → Yields evidence Outcome.deny y
    → Yields evidence
        (outcome_at (level i d a p))
        (if i then u else if d then v else if a then w else if p then x else y)
by_level true d a p _ _ _ _ _ _ hu hv hw hx hy = hu
by_level false true a p _ _ _ _ _ _ hu hv hw hx hy = hv
by_level false false true p _ _ _ _ _ _ hu hv hw hx hy = hw
by_level false false false true _ _ _ _ _ _ hu hv hw hx hy = hx
by_level false false false false _ _ _ _ _ _ hu hv hw hx hy = hy

decide_policy-outcome :
    (evidence : DecisionEvidence) (es : List Evaluated)
    → Yields evidence
        (outcome_at (strongest es))
        (decide_policy evidence (any is_indeterminate (evaluations es)) (matched_rules es))
unfolding decide_policy
decide_policy-outcome evidence es =
    let matched = matched_rules es in
    rw
      (
        strongest-level es,
        ← is_nonempty-select (has_effect RuleEffect.approval_required) matched,
        ← is_nonempty-select (has_effect RuleEffect.permit) matched,
      )
      (by_level (any is_indeterminate (evaluations es)) (any (has_effect RuleEffect.deny) matched)
        (is_nonempty (select (has_effect RuleEffect.approval_required) matched))
        (is_nonempty (select (has_effect RuleEffect.permit) matched)) _ _ _ _ _ _
        (decision_with-outcome _ _ _ _ _) (decision_with-outcome _ _ _ _ _)
        (decision_with-outcome _ _ _ _ _) (decision_with-outcome _ _ _ _ _)
        (decision_with-outcome _ _ _ _ _))

decide-outcome :
    (evidence : DecisionEvidence) (applicability : Option AuthorityApplicabilityResult)
    (holder : Option SubjectAuthorityBindingResult) (es : List Evaluated)
    → Yields evidence
        (if gates_pass applicability holder then outcome_at (strongest es) else Outcome.deny)
        (decide evidence applicability holder
          (any is_indeterminate (evaluations es))
          (matched_rules es))
unfolding decide
decide-outcome evidence none holder es d h = decision_with-outcome _ _ _ _ _ d h
decide-outcome evidence (some a) none es d h = decision_with-outcome _ _ _ _ _ d h
decide-outcome evidence (some a) (some b) es d h = ground (
  arith,
  decision_with-outcome evidence Outcome.deny ("HOLDER_" <> binding_value b.status) [] [] d,
  decision_with-outcome evidence Outcome.deny ("AUTHORITY_" <> applicability_value a.status) [] []
      d,
  decide_policy-outcome evidence es d,
)

decided-outcome :
    (evidence : Result DecisionEvidence) (applicability : Option AuthorityApplicabilityResult)
    (holder : Option SubjectAuthorityBindingResult) (es : List Evaluated) (d : Decision)
    → (do
      ev ← evidence
      decide ev applicability holder (any is_indeterminate (evaluations es)) (matched_rules es))
      ≡ ok d
    → d.outcome
      ≡ (if gates_pass applicability holder then outcome_at (strongest es) else Outcome.deny)
decided-outcome (ok evidence) applicability holder es d h =
    (decide-outcome evidence applicability holder es d h).0
decided-outcome (err e) applicability holder es d h = cc

-- If `evaluate` returns a decision, then both authority checks returned, and so did the evaluation of
-- every rule of every policy of the bundle, in order: a rule is MATCHED only with all its conditions
-- SATISFIED, NOT_MATCHED only with one UNSATISFIED, and INDETERMINATE only with none UNSATISFIED and one
-- with MISSING_INPUT or ERROR. The outcome is that of the strongest of these rules if both an APPLICABLE and a BOUND result were
-- there, and DENY otherwise: a matched DENY or an indeterminate rule is strongest and gives DENY,
-- then APPROVAL_REQUIRED, then PERMIT; no matched rule gives DENY.
pub evaluate-outcome :
    (digests : Digests) (request : AuthorizationRequest) (bundle : PolicyBundle)
    (authority : Option VerifiedAuthority) (binding : Option SubjectPrincipalBinding) (d : Decision)
    → evaluate digests request bundle authority binding ≡ ok d
    → (es : List Evaluated) × (applicability : Option AuthorityApplicabilityResult)
      × (holder : Option SubjectAuthorityBindingResult) × EvaluatesEach request
          (rules_in bundle.policies)
          es
      × (applicability_of digests request authority ≡ ok applicability)
      × (holder_binding_of digests request authority binding ≡ ok holder)
      × (d.outcome
          ≡ (if gates_pass applicability holder then outcome_at (strongest es) else Outcome.deny))
unfolding evaluate
evaluate-outcome digests request bundle authority binding d h =
    let (applicability, e, h1) = bind_returns _ _ h in
    let (holder, f, h2) = bind_returns _ _ h1 in
    let (es, g, h3) = bind_returns _ _ h2 in
    let each = evaluate_policies-EvaluatesEach request bundle.policies es g in
    (es, applicability, holder, each, e, f, decided-outcome _ applicability holder es d h3)
