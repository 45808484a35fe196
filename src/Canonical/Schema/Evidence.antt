-- ===== src/Canonical/Schema/Evidence.antt =====
-- The schemas of `_encode_domain` in canonical.py for the evidence of the authority checks.
use nest_authz.Prelude.{[], ◌∷◌, Result}
use nest_authz.Domain.Status.{AuthorityApplicabilityStatus, SubjectAuthorityBindingStatus}
use nest_authz.Evaluator.Decide.{applicability_value, binding_value}
use nest_authz.Domain.Evidence.{
  AuthorityBoundEvaluation, AuthorityApplicabilityResult, SubjectAuthorityBindingResult,
}
use nest_authz.Canonical.Bytes.{Bytes}
use nest_authz.Canonical.Encode.{
  encode_string, encode_integer, encode_boolean, encode_scalar, encode_sequence, encode_record,
}
use nest_authz.Canonical.Schema.Authority.{
  encode_action, encode_principal, encode_resource, encode_sha256_digest, encode_subject,
  encode_subject_principal_binding,
}

unfoldable pub encode_authority_applicability_status : AuthorityApplicabilityStatus → Result Bytes
encode_authority_applicability_status value =
    encode_record "nest-authz/authority-applicability-status@1"
      (("value", encode_string (applicability_value value)) ∷ [])

unfoldable pub encode_authority_bound_evaluation : AuthorityBoundEvaluation → Result Bytes
encode_authority_bound_evaluation value = encode_record "nest-authz/authority-bound-evaluation@1" (
    ("name", encode_string value.name)
    ∷ ("upper_bound", encode_integer value.upper_bound)
    ∷ ("present", encode_boolean value.present)
    ∷ ("supplied_value", encode_scalar value.supplied_value)
    ∷ ("status", encode_authority_applicability_status value.status)
    ∷ [])

unfoldable pub encode_authority_applicability_result : AuthorityApplicabilityResult → Result Bytes
encode_authority_applicability_result value =
    encode_record "nest-authz/authority-applicability-result@1" (
      ("status", encode_authority_applicability_status value.status)
      ∷ ("request_digest", encode_sha256_digest value.request_digest)
      ∷ ("authority_digest", encode_sha256_digest value.authority_digest)
      ∷ ("chain_digest", encode_sha256_digest value.chain_digest)
      ∷ ("state_digest", encode_sha256_digest value.state_digest)
      ∷ ("effective_grant_id", encode_string value.effective_grant_id)
      ∷ ("expected_action", encode_action value.expected_action)
      ∷ ("request_action", encode_action value.request_action)
      ∷ ("action_matches", encode_boolean value.action_matches)
      ∷ ("expected_resource", encode_resource value.expected_resource)
      ∷ ("request_resource", encode_resource value.request_resource)
      ∷ ("resource_matches", encode_boolean value.resource_matches)
      ∷ (
        "bound_evaluations",
        encode_sequence encode_authority_bound_evaluation value.bound_evaluations,
      )
      ∷ [])

unfoldable pub encode_subject_authority_binding_status :
    SubjectAuthorityBindingStatus → Result Bytes
encode_subject_authority_binding_status value =
    encode_record "nest-authz/subject-authority-binding-status@1"
      (("value", encode_string (binding_value value)) ∷ [])

unfoldable pub encode_subject_authority_binding_result :
    SubjectAuthorityBindingResult → Result Bytes
encode_subject_authority_binding_result value =
    encode_record "nest-authz/subject-authority-binding-result@1" (
      ("status", encode_subject_authority_binding_status value.status)
      ∷ ("request_digest", encode_sha256_digest value.request_digest)
      ∷ ("authority_digest", encode_sha256_digest value.authority_digest)
      ∷ ("request_subject", encode_subject value.request_subject)
      ∷ ("binding", encode_subject_principal_binding value.binding)
      ∷ ("authority_principal", encode_principal value.authority_principal)
      ∷ ("effective_grant_id", encode_string value.effective_grant_id)
      ∷ [])
