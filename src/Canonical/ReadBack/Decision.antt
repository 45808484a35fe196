-- ===== src/Canonical/ReadBack/Decision.antt =====
-- Values with the same encoding are equal: decisions.
use nest_authz.Prelude.{All, refl, string_eq}
use nest_authz.Canonical.Join.{IsEncoder, same_values}
use nest_authz.Canonical.Records.{record-IsEncoder}
use nest_authz.Canonical.Primitives.{Any, string-IsEncoder}
use nest_authz.Canonical.Containers.{
  Every, IsSortedMap, sequence-IsEncoder, optional-IsEncoder, map-IsEncoder, any_sequence-IsEncoder,
}
use nest_authz.Domain.Hex.{IsDigest}
use nest_authz.Domain.Decision.{RuleEvaluation, DecisionEvidence, Decision}
use nest_authz.Canonical.ReadBack.Members.{
  rule_effect-IsEncoder, outcome-IsEncoder, condition_status-IsEncoder,
  rule_evaluation_status-IsEncoder,
}
use nest_authz.Canonical.ReadBack.Authority.{sha256_digest-IsEncoder}
use nest_authz.Canonical.Schema.Policy.{encode_obligation, encode_approval_requirement}
use nest_authz.Canonical.ReadBack.Policy.{
  obligation-IsEncoder, IsCanonicalObligation, approval_requirement-IsEncoder,
  IsCanonicalApprovalRequirement,
}
use nest_authz.Canonical.Schema.Evidence.{
  encode_authority_applicability_result, encode_subject_authority_binding_result,
}
use nest_authz.Canonical.ReadBack.Evidence.{
  authority_applicability_result-IsEncoder, authority_applicability_result-IsPresent,
  IsCanonicalAuthorityApplicabilityResult, subject_authority_binding_result-IsEncoder,
  subject_authority_binding_result-IsPresent, IsCanonicalSubjectAuthorityBindingResult,
}
use nest_authz.Canonical.Schema.Decision.{
  encode_condition_status, encode_reason, encode_rule_evaluation, encode_decision_evidence,
  encode_decision,
}

pub reason-IsEncoder : IsEncoder Any encode_reason
unfolding encode_reason
reason-IsEncoder =
    record-IsEncoder "nest-authz/reason@1" _ (λ a b. refl)
      (λ a. (string-IsEncoder.frames a.code, (string-IsEncoder.frames a.message, tt)))
      (λ a b v w e i. record {
        code = same_values string-IsEncoder tt tt e.0 i;
        message = same_values string-IsEncoder tt tt e.1.0 i;
      })

-- What the constructors of domain.py assure: digests of 32 bytes and sorted maps.
pub record IsCanonicalRuleEvaluation (value : RuleEvaluation) : Type 0 where
  pub condition_results : IsSortedMap Any value.condition_results

pub rule_evaluation-IsEncoder : IsEncoder IsCanonicalRuleEvaluation encode_rule_evaluation
unfolding encode_rule_evaluation
rule_evaluation-IsEncoder =
    record-IsEncoder "nest-authz/rule-evaluation@1" _ (λ a b. refl)
      (λ a. (
        string-IsEncoder.frames a.policy_id,
        (
          string-IsEncoder.frames a.rule_id,
          (
            rule_effect-IsEncoder.frames a.effect,
            (
              rule_evaluation_status-IsEncoder.frames a.status,
              (
                (map-IsEncoder Any encode_condition_status condition_status-IsEncoder).frames
                    a.condition_results,
                tt,
              ),
            ),
          ),
        ),
      ))
      (λ a b v w e i. record {
        policy_id = same_values string-IsEncoder tt tt e.0 i;
        rule_id = same_values string-IsEncoder tt tt e.1.0 i;
        effect = same_values rule_effect-IsEncoder tt tt e.1.1.0 i;
        status = same_values rule_evaluation_status-IsEncoder tt tt e.1.1.1.0 i;
        condition_results =
            same_values (map-IsEncoder Any encode_condition_status condition_status-IsEncoder)
              v.condition_results w.condition_results e.1.1.1.1.0 i;
      })

-- What the constructors of domain.py assure: digests of 32 bytes and sorted maps.
pub record IsCanonicalDecisionEvidence (value : DecisionEvidence) : Type 0 where
  pub policy_bundle_digest : IsDigest value.policy_bundle_digest
  pub request_digest : IsDigest value.request_digest
  pub rule_evaluations : All IsCanonicalRuleEvaluation value.rule_evaluations
  pub authority_applicability :
      Every IsCanonicalAuthorityApplicabilityResult value.authority_applicability
  pub subject_authority_binding :
      Every IsCanonicalSubjectAuthorityBindingResult value.subject_authority_binding

pub decision_evidence-IsEncoder : IsEncoder IsCanonicalDecisionEvidence encode_decision_evidence
unfolding encode_decision_evidence
decision_evidence-IsEncoder =
    record-IsEncoder "nest-authz/decision-evidence@5" _ (λ a b. refl)
      (λ a. (
        sha256_digest-IsEncoder.frames a.policy_bundle_digest,
        (
          sha256_digest-IsEncoder.frames a.request_digest,
          (
            (sequence-IsEncoder IsCanonicalRuleEvaluation encode_rule_evaluation
                  rule_evaluation-IsEncoder).frames
                a.rule_evaluations,
            (
              (optional-IsEncoder IsCanonicalAuthorityApplicabilityResult
                    encode_authority_applicability_result authority_applicability_result-IsEncoder
                    authority_applicability_result-IsPresent).frames
                  a.authority_applicability,
              (
                (optional-IsEncoder IsCanonicalSubjectAuthorityBindingResult
                      encode_subject_authority_binding_result
                      subject_authority_binding_result-IsEncoder
                      subject_authority_binding_result-IsPresent).frames
                    a.subject_authority_binding,
                tt,
              ),
            ),
          ),
        ),
      ))
      (λ a b v w e i. record {
        policy_bundle_digest =
            same_values sha256_digest-IsEncoder v.policy_bundle_digest w.policy_bundle_digest e.0 i;
        request_digest =
            same_values sha256_digest-IsEncoder v.request_digest w.request_digest e.1.0 i;
        rule_evaluations =
            same_values
              (sequence-IsEncoder IsCanonicalRuleEvaluation encode_rule_evaluation
                rule_evaluation-IsEncoder)
              v.rule_evaluations w.rule_evaluations e.1.1.0 i;
        authority_applicability =
            same_values
              (optional-IsEncoder IsCanonicalAuthorityApplicabilityResult
                encode_authority_applicability_result authority_applicability_result-IsEncoder
                authority_applicability_result-IsPresent)
              v.authority_applicability w.authority_applicability e.1.1.1.0 i;
        subject_authority_binding =
            same_values
              (optional-IsEncoder IsCanonicalSubjectAuthorityBindingResult
                encode_subject_authority_binding_result subject_authority_binding_result-IsEncoder
                subject_authority_binding_result-IsPresent)
              v.subject_authority_binding w.subject_authority_binding e.1.1.1.1.0 i;
      })

-- What the constructors of domain.py assure: digests of 32 bytes and sorted maps.
pub record IsCanonicalDecision (value : Decision) : Type 0 where
  pub evidence : IsCanonicalDecisionEvidence value.evidence
  pub obligations : All IsCanonicalObligation value.obligations
  pub approval_requirements : All IsCanonicalApprovalRequirement value.approval_requirements

pub decision-IsEncoder : IsEncoder IsCanonicalDecision encode_decision
unfolding encode_decision
decision-IsEncoder =
    record-IsEncoder "nest-authz/decision@5" _ (λ a b. refl)
      (λ a. (
        outcome-IsEncoder.frames a.outcome,
        (
          (any_sequence-IsEncoder encode_reason reason-IsEncoder).frames a.reasons,
          (
            decision_evidence-IsEncoder.frames a.evidence,
            (
              (sequence-IsEncoder IsCanonicalObligation encode_obligation
                    obligation-IsEncoder).frames
                  a.obligations,
              (
                (sequence-IsEncoder IsCanonicalApprovalRequirement encode_approval_requirement
                      approval_requirement-IsEncoder).frames
                    a.approval_requirements,
                tt,
              ),
            ),
          ),
        ),
      ))
      (λ a b v w e i. record {
        outcome = same_values outcome-IsEncoder tt tt e.0 i;
        reasons = same_values (any_sequence-IsEncoder encode_reason reason-IsEncoder) tt tt e.1.0 i;
        evidence = same_values decision_evidence-IsEncoder v.evidence w.evidence e.1.1.0 i;
        obligations =
            same_values
              (sequence-IsEncoder IsCanonicalObligation encode_obligation obligation-IsEncoder)
              v.obligations w.obligations e.1.1.1.0 i;
        approval_requirements =
            same_values
              (sequence-IsEncoder IsCanonicalApprovalRequirement encode_approval_requirement
                approval_requirement-IsEncoder)
              v.approval_requirements w.approval_requirements e.1.1.1.1.0 i;
      })
