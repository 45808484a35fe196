-- ===== src/Canonical/Schema/Decision.antt =====
-- The schemas of `_encode_domain` in canonical.py for decisions and their evidence.
use nest_authz.Prelude.{[], ◌∷◌, Result}
use nest_authz.Domain.Status.{Outcome, ConditionStatus, RuleEvaluationStatus}
use nest_authz.Canonical.Values.{
  outcome_value, condition_status_value, rule_evaluation_status_value,
}
use nest_authz.Domain.Decision.{Reason, RuleEvaluation, DecisionEvidence, Decision}
use nest_authz.Canonical.Bytes.{Bytes}
use nest_authz.Canonical.Encode.{
  encode_string, encode_optional, encode_sequence, encode_map, entries_of, encode_record,
}
use nest_authz.Canonical.Schema.Authority.{encode_sha256_digest}
use nest_authz.Canonical.Schema.Policy.{
  encode_approval_requirement, encode_obligation, encode_rule_effect,
}
use nest_authz.Canonical.Schema.Evidence.{
  encode_authority_applicability_result, encode_subject_authority_binding_result,
}

unfoldable pub encode_outcome : Outcome → Result Bytes
encode_outcome value =
    encode_record "nest-authz/outcome@1" (("value", encode_string (outcome_value value)) ∷ [])

unfoldable pub encode_condition_status : ConditionStatus → Result Bytes
encode_condition_status value =
    encode_record "nest-authz/condition-status@1"
      (("value", encode_string (condition_status_value value)) ∷ [])

unfoldable pub encode_reason : Reason → Result Bytes
encode_reason value =
    encode_record "nest-authz/reason@1"
      (("code", encode_string value.code) ∷ ("message", encode_string value.message) ∷ [])

unfoldable pub encode_rule_evaluation_status : RuleEvaluationStatus → Result Bytes
encode_rule_evaluation_status value =
    encode_record "nest-authz/rule-evaluation-status@1"
      (("value", encode_string (rule_evaluation_status_value value)) ∷ [])

unfoldable pub encode_rule_evaluation : RuleEvaluation → Result Bytes
encode_rule_evaluation value = encode_record "nest-authz/rule-evaluation@1" (
    ("policy_id", encode_string value.policy_id)
    ∷ ("rule_id", encode_string value.rule_id)
    ∷ ("effect", encode_rule_effect value.effect)
    ∷ ("status", encode_rule_evaluation_status value.status)
    ∷ ("condition_results", encode_map (entries_of encode_condition_status value.condition_results))
    ∷ [])

unfoldable pub encode_decision_evidence : DecisionEvidence → Result Bytes
encode_decision_evidence value = encode_record "nest-authz/decision-evidence@5" (
    ("policy_bundle_digest", encode_sha256_digest value.policy_bundle_digest)
    ∷ ("request_digest", encode_sha256_digest value.request_digest)
    ∷ ("rule_evaluations", encode_sequence encode_rule_evaluation value.rule_evaluations)
    ∷ (
      "authority_applicability",
      encode_optional encode_authority_applicability_result value.authority_applicability,
    )
    ∷ (
      "subject_authority_binding",
      encode_optional encode_subject_authority_binding_result value.subject_authority_binding,
    )
    ∷ [])

unfoldable pub encode_decision : Decision → Result Bytes
encode_decision value = encode_record "nest-authz/decision@5" (
    ("outcome", encode_outcome value.outcome)
    ∷ ("reasons", encode_sequence encode_reason value.reasons)
    ∷ ("evidence", encode_decision_evidence value.evidence)
    ∷ ("obligations", encode_sequence encode_obligation value.obligations)
    ∷ (
      "approval_requirements",
      encode_sequence encode_approval_requirement value.approval_requirements,
    )
    ∷ [])
