-- ===== src/Domain/Decision.antt =====
-- Policy evidence and decisions of domain.py.
use Prim.Native.Nat.{Ordering}
use Prim.Native.String.{compare as compare_text}
use nest_authz.Prelude.{
  String, Bool, true, false, not, Option, none, some, List, [], map, Eq, ◌==◌, ◌!=◌, ◌||◌, contains,
  differ, any, select, sort_by, if◌then◌else◌, Result, ok, ◌>>=◌, ◌>>◌, raise_if, value_error,
  string_discrete, ℤ_discrete, string_eq,
}
use nest_authz.Domain.Status.{
  ConditionStatus, condition_status_eq, RuleEffect, RuleEvaluationStatus, rule_evaluation_status_eq,
  SubjectAuthorityBindingStatus, subject_authority_binding_status_eq, AuthorityApplicabilityStatus,
  authority_applicability_status_eq, Outcome, outcome_eq,
}
use nest_authz.Domain.Value.{Sha256Digest, sha256_digest_eq, non_blank, repeats, canonical_entries}
use nest_authz.Domain.Policy.{Obligation, ApprovalRequirement}
use nest_authz.Domain.Policy.Canonical.{is_nonempty, then_by, canonical_approval_requirements}
use nest_authz.Domain.Evidence.{SubjectAuthorityBindingResult, AuthorityApplicabilityResult}

abbrev pub ConditionResults : Type 0
ConditionResults = List (String × ConditionStatus)

pub record RuleEvaluation : Type 0 where
  pub policy_id : String
  pub rule_id : String
  pub effect : RuleEffect
  pub status : RuleEvaluationStatus
  pub condition_results : ConditionResults

pub record DecisionEvidence : Type 0 where
  pub policy_bundle_digest : Sha256Digest
  pub request_digest : Sha256Digest
  pub rule_evaluations : List RuleEvaluation
  pub authority_applicability : Option AuthorityApplicabilityResult
  pub subject_authority_binding : Option SubjectAuthorityBindingResult

pub record Reason : Type 0 where
  pub code : String
  pub message : String

pub record Decision : Type 0 where
  pub outcome : Outcome
  pub reasons : List Reason
  pub evidence : DecisionEvidence
  pub obligations : List Obligation
  pub approval_requirements : List ApprovalRequirement

-- The status that the constructor recomputes from the condition results.
unfoldable pub expected_rule_status : List ConditionStatus → RuleEvaluationStatus
expected_rule_status results =
    if contains ConditionStatus.unsatisfied results
    then RuleEvaluationStatus.not_matched
    else if contains ConditionStatus.missing_input results || contains ConditionStatus.error results
    then RuleEvaluationStatus.indeterminate
    else RuleEvaluationStatus.matched

abbrev pub result_statuses : ConditionResults → List ConditionStatus
result_statuses = map (λ r. r.1)

unfoldable pub rule_evaluation_post_init : RuleEvaluation → Result RuleEvaluation
unfolding non_blank
rule_evaluation_post_init r = do
  non_blank r.policy_id "policy identifier"
  non_blank r.rule_id "rule identifier"
  results ←
      canonical_entries "condition name" "condition_results contains a duplicate name"
        r.condition_results
  raise_if (not (is_nonempty results))
      (value_error "a rule evaluation must contain condition results")
  raise_if (any (λ s. s == ConditionStatus.not_evaluated) (result_statuses results))
      (value_error "NOT_EVALUATED is not valid in a version-1 rule evaluation")
  raise_if (r.status != expected_rule_status (result_statuses results))
      (value_error "rule evaluation status does not match its condition results")
  ok (record r { condition_results = results })

-- A policy's and a rule's identifier.
pub record RuleIdentifier : Type 0 where
  pub policy_id : String
  pub rule_id : String

instance unfoldable pub rule_identifier_eq : Eq RuleIdentifier
unfolding string_discrete
rule_identifier_eq = record { dec = hlevel string_discrete }

abbrev pub rule_identifier : RuleEvaluation → RuleIdentifier
rule_identifier e = record { policy_id = e.policy_id; rule_id = e.rule_id }

unfoldable pub rule_evaluation_lt : RuleEvaluation → RuleEvaluation → Bool
rule_evaluation_lt a b =
    elim (then_by (compare_text a.policy_id b.policy_id) (compare_text a.rule_id b.rule_id)) [
      | Ordering.lt ↦ true
      | _ ↦ false
    ]

unfoldable pub canonical_rule_evaluations : List RuleEvaluation → Result (List RuleEvaluation)
canonical_rule_evaluations es = do
  raise_if (repeats [] (map rule_identifier es))
      (value_error "rule_evaluations must not contain duplicate rule identifiers")
  ok (sort_by rule_evaluation_lt es)

-- The tests on the two pieces of authority evidence against the request's digest.
unfoldable pub check_authority_evidence :
    Sha256Digest
    → Option AuthorityApplicabilityResult
    → Option SubjectAuthorityBindingResult
    → Result (Unit {0})
check_authority_evidence request none none = ok tt
check_authority_evidence request (some a) none =
    raise_if (a.request_digest != request)
      (value_error "authority applicability must bind the evidence request digest")
check_authority_evidence request none (some b) =
    raise_if (b.request_digest != request)
      (value_error "subject-authority binding must bind the evidence request digest")
check_authority_evidence request (some a) (some b) = do
  raise_if (a.request_digest != request)
      (value_error "authority applicability must bind the evidence request digest")
  raise_if (b.request_digest != request)
      (value_error "subject-authority binding must bind the evidence request digest")
  raise_if (b.authority_digest != a.authority_digest)
      (value_error "binding and applicability must identify the same authority")
  raise_if (b.effective_grant_id != a.effective_grant_id)
      (value_error "binding and applicability must identify the same grant")

unfoldable pub decision_evidence_post_init : DecisionEvidence → Result DecisionEvidence
decision_evidence_post_init e = do
  check_authority_evidence e.request_digest e.authority_applicability e.subject_authority_binding
  evaluations ← canonical_rule_evaluations e.rule_evaluations
  ok (record e { rule_evaluations = evaluations })

unfoldable pub reason_post_init : Reason → Result Reason
unfolding non_blank
reason_post_init r = do non_blank r.code "reason code"; ok r

abbrev pub is_matched : RuleEvaluation → Bool
is_matched e = e.status == RuleEvaluationStatus.matched

unfoldable pub matched_rule_ids : DecisionEvidence → List RuleIdentifier
matched_rule_ids e = map rule_identifier (select is_matched e.rule_evaluations)

abbrev pub is_bound : Option SubjectAuthorityBindingResult → Bool
is_bound none = false
is_bound (some b) = b.status == SubjectAuthorityBindingStatus.bound

abbrev pub is_applicable : Option AuthorityApplicabilityResult → Bool
is_applicable none = false
is_applicable (some a) = a.status == AuthorityApplicabilityStatus.applicable

-- The tests on a decision that is not DENY.
unfoldable pub check_non_deny : DecisionEvidence → Result (Unit {0})
check_non_deny e = do
  raise_if (not (is_nonempty (matched_rule_ids e)))
      (value_error "non-deny decisions require a matched rule")
  raise_if (not (is_bound e.subject_authority_binding))
      (value_error "non-deny decisions require successful subject-authority binding")
  raise_if (not (is_applicable e.authority_applicability))
      (value_error "non-deny decisions require applicable validated authority")

unfoldable pub decision_post_init : Decision → Result Decision
decision_post_init d = do
  raise_if (not (is_nonempty d.reasons)) (value_error "a decision must contain at least one reason")
  requirements ← canonical_approval_requirements d.approval_requirements
  raise_if (differ (d.outcome == Outcome.approval_required) (is_nonempty requirements))
      (value_error "approval_requirements must be present exactly when approval is required")
  (if d.outcome != Outcome.deny then check_non_deny d.evidence else ok tt)
  ok (record d { approval_requirements = requirements })

instance unfoldable pub decision_eq : Eq Decision
unfolding string_discrete ℤ_discrete sha256_digest_eq
decision_eq = record { dec = hlevel (string_discrete, ℤ_discrete, sha256_digest_eq.dec) }
