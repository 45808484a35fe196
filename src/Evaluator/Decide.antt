-- ===== src/Evaluator/Decide.antt =====
-- The function `evaluate` of evaluator.py.
use Prim.Native.String.{◌++◌ as ◌<>◌}
use nest_authz.Prelude.{
  String, Bool, Option, none, some, List, [], ◌∷◌, ◌++◌, ◌==◌, ◌!=◌, ◌||◌, contains, any, select,
  if◌then◌else◌, Result, ok, ◌>>=◌,
}
use nest_authz.Domain.Status.{
  RuleEffect, rule_effect_eq, RuleEvaluationStatus, rule_evaluation_status_eq,
  AuthorityApplicabilityStatus, authority_applicability_status_eq, SubjectAuthorityBindingStatus,
  subject_authority_binding_status_eq, Outcome,
}
use nest_authz.Domain.Identity.{SubjectPrincipalBinding}
use nest_authz.Domain.Authority.{VerifiedAuthority}
use nest_authz.Domain.Policy.{
  Obligation, obligation_eq, ApprovalRequirement, approval_requirement_eq, Rule, Policy,
  PolicyBundle,
}
use nest_authz.Domain.Policy.Canonical.{is_nonempty}
use nest_authz.Domain.Request.{AuthorizationRequest}
use nest_authz.Domain.Evidence.{SubjectAuthorityBindingResult, AuthorityApplicabilityResult}
use nest_authz.Domain.Decision.{
  RuleEvaluation, DecisionEvidence, Decision, decision_evidence_post_init, reason_post_init,
  decision_post_init,
}
use nest_authz.Digests.{Digests}
use nest_authz.Applicability.{check_authority_applicability}
use nest_authz.Binding.{check_subject_authority_binding}
use nest_authz.Evaluator.{evaluate_rule}

-- A rule with its evaluation. The loops build the list of evaluations and that of the matched
-- rules; both are read off the list of these pairs.
pub record Evaluated : Type 0 where
  pub rule : Rule
  pub evaluation : RuleEvaluation

unfoldable pub evaluate_rules : AuthorizationRequest → String → List Rule → Result (List Evaluated)
evaluate_rules request policy_id [] = ok []
evaluate_rules request policy_id (rule ∷ rules) = do
  evaluation ← evaluate_rule request policy_id rule
  rest ← evaluate_rules request policy_id rules
  ok (record { rule = rule; evaluation = evaluation } ∷ rest)

unfoldable pub evaluate_policies : AuthorizationRequest → List Policy → Result (List Evaluated)
evaluate_policies request [] = ok []
evaluate_policies request (policy ∷ policies) = do
  evaluated ← evaluate_rules request policy.identifier policy.rules
  rest ← evaluate_policies request policies
  ok (evaluated ++ rest)

abbrev pub evaluations : List Evaluated → List RuleEvaluation
evaluations [] = []
evaluations (e ∷ es) = e.evaluation ∷ evaluations es

-- The list `matched_rules`.
abbrev pub matched_rules : List Evaluated → List Rule
matched_rules [] = []
matched_rules (e ∷ es) =
    if e.evaluation.status == RuleEvaluationStatus.matched
    then e.rule ∷ matched_rules es
    else matched_rules es

abbrev pub has_effect : RuleEffect → Rule → Bool
has_effect effect rule = rule.effect == effect

abbrev pub is_indeterminate : RuleEvaluation → Bool
is_indeterminate e = e.status == RuleEvaluationStatus.indeterminate

-- `_extend_unique`: the values that the target lacks are appended in order.
unfoldable pub extend_unique : List Obligation → List Obligation → List Obligation
extend_unique target [] = target
extend_unique target (v ∷ vs) =
    extend_unique (if contains v target then target else target ++ (v ∷ [])) vs

-- The loop on obligations, over the rules with an effect that is permitted to oblige.
unfoldable pub obligations_from : List Obligation → List Rule → List Obligation
obligations_from target [] = target
obligations_from target (rule ∷ rules) =
    obligations_from (extend_unique target rule.obligations) rules

unfoldable pub extend_requirements :
    List ApprovalRequirement → List ApprovalRequirement → List ApprovalRequirement
extend_requirements target [] = target
extend_requirements target (v ∷ vs) =
    extend_requirements (if contains v target then target else target ++ (v ∷ [])) vs

unfoldable pub requirements_from : List ApprovalRequirement → List Rule → List ApprovalRequirement
requirements_from target [] = target
requirements_from target (rule ∷ rules) =
    requirements_from (extend_requirements target rule.approval_requirements) rules

abbrev pub binding_value : SubjectAuthorityBindingStatus → String
binding_value SubjectAuthorityBindingStatus.bound = "BOUND"
binding_value SubjectAuthorityBindingStatus.subject_mismatch = "SUBJECT_MISMATCH"
binding_value SubjectAuthorityBindingStatus.principal_mismatch = "PRINCIPAL_MISMATCH"

abbrev pub applicability_value : AuthorityApplicabilityStatus → String
applicability_value AuthorityApplicabilityStatus.applicable = "APPLICABLE"
applicability_value AuthorityApplicabilityStatus.action_mismatch = "ACTION_MISMATCH"
applicability_value AuthorityApplicabilityStatus.resource_mismatch = "RESOURCE_MISMATCH"
applicability_value AuthorityApplicabilityStatus.missing_context = "MISSING_CONTEXT"
applicability_value AuthorityApplicabilityStatus.bound_exceeded = "BOUND_EXCEEDED"
applicability_value AuthorityApplicabilityStatus.type_error = "TYPE_ERROR"

-- `Decision(outcome, (Reason(code),), evidence, obligations, requirements)`
unfoldable pub decision_with :
    DecisionEvidence
    → Outcome
    → String
    → List Obligation
    → List ApprovalRequirement
    → Result Decision
decision_with evidence outcome code obligations requirements = do
  reason ← reason_post_init (record { code = code; message = "" })
  decision_post_init (record {
    outcome = outcome;
    reasons = reason ∷ [];
    evidence = evidence;
    obligations = obligations;
    approval_requirements = requirements;
  })

abbrev pub deny : DecisionEvidence → String → Result Decision
deny evidence code = decision_with evidence Outcome.deny code [] []

-- The branches on the matched rules, once both gates are passed.
unfoldable pub decide_policy : DecisionEvidence → Bool → List Rule → Result Decision
decide_policy evidence has_indeterminate matched =
    let approval_rules = select (has_effect RuleEffect.approval_required) matched in
    let permit_rules = select (has_effect RuleEffect.permit) matched in
    if has_indeterminate
    then deny evidence "INDETERMINATE_RULE"
    else if any (has_effect RuleEffect.deny) matched
    then deny evidence "DENY_RULE_MATCHED"
    else if is_nonempty approval_rules
    then decision_with evidence Outcome.approval_required "APPROVAL_REQUIRED"
        (obligations_from [] (
          select (λ r. has_effect RuleEffect.permit r || has_effect RuleEffect.approval_required r)
            matched))
        (requirements_from [] approval_rules)
    else if is_nonempty permit_rules
    then decision_with evidence Outcome.permit "PERMIT_RULE_MATCHED"
        (obligations_from [] permit_rules) []
    else deny evidence "NO_MATCHING_RULE"

-- The gates, then the policy.
unfoldable pub decide :
    DecisionEvidence
    → Option AuthorityApplicabilityResult
    → Option SubjectAuthorityBindingResult
    → Bool
    → List Rule
    → Result Decision
decide evidence none holder has_indeterminate matched = deny evidence "VALIDATED_AUTHORITY_REQUIRED"
decide evidence (some applicability) none has_indeterminate matched =
    deny evidence "SUBJECT_PRINCIPAL_BINDING_REQUIRED"
decide evidence (some applicability) (some holder) has_indeterminate matched =
    if holder.status != SubjectAuthorityBindingStatus.bound
    then deny evidence ("HOLDER_" <> binding_value holder.status)
    else if applicability.status != AuthorityApplicabilityStatus.applicable
    then deny evidence ("AUTHORITY_" <> applicability_value applicability.status)
    else decide_policy evidence has_indeterminate matched

module _ (digests : Digests) (request : AuthorizationRequest) where
  unfoldable pub applicability_of :
      Option VerifiedAuthority → Result (Option AuthorityApplicabilityResult)
  applicability_of none = ok none
  applicability_of (some authority) = do
    result ← check_authority_applicability digests request authority
    ok (some result)

  unfoldable pub holder_binding_of :
      Option VerifiedAuthority
      → Option SubjectPrincipalBinding
      → Result (Option SubjectAuthorityBindingResult)
  holder_binding_of (some authority) (some binding) = do
    result ← check_subject_authority_binding digests request binding authority
    ok (some result)
  holder_binding_of none _ = ok none
  holder_binding_of (some authority) none = ok none

  unfoldable pub evaluate :
      PolicyBundle → Option VerifiedAuthority → Option SubjectPrincipalBinding → Result Decision
  evaluate bundle authority binding = do
    applicability ← applicability_of authority
    holder_binding ← holder_binding_of authority binding
    evaluated ← evaluate_policies request bundle.policies
    evidence ← decision_evidence_post_init (record {
      policy_bundle_digest = digests.bundle_digest bundle;
      request_digest = digests.request_digest request;
      rule_evaluations = evaluations evaluated;
      authority_applicability = applicability;
      subject_authority_binding = holder_binding;
    })
    decide evidence applicability holder_binding (any is_indeterminate (evaluations evaluated))
        (matched_rules evaluated)
