-- ===== src/Canonical/ReadBack/Evidence.antt =====
-- Values with the same encoding are equal: the evidence of the authority checks.
use nest_authz.Prelude.{refl, string_eq}
use nest_authz.Canonical.Join.{IsEncoder, same_values}
use nest_authz.Canonical.Records.{record-IsEncoder, encode_record-not_null}
use nest_authz.Canonical.Primitives.{
  Any, IsPresent, string-IsEncoder, integer-IsEncoder, boolean-IsEncoder, scalar-IsEncoder,
}
use nest_authz.Canonical.Containers.{any_sequence-IsEncoder}
use nest_authz.Domain.Hex.{IsDigest}
use nest_authz.Domain.Evidence.{AuthorityApplicabilityResult, SubjectAuthorityBindingResult}
use nest_authz.Canonical.ReadBack.Members.{
  authority_applicability_status-IsEncoder, subject_authority_binding_status-IsEncoder,
}
use nest_authz.Canonical.ReadBack.Authority.{
  subject-IsEncoder, action-IsEncoder, resource-IsEncoder, sha256_digest-IsEncoder,
  principal-IsEncoder, subject_principal_binding-IsEncoder,
}
use nest_authz.Canonical.Schema.Evidence.{
  encode_authority_bound_evaluation, encode_authority_applicability_result,
  encode_subject_authority_binding_result,
}

pub authority_bound_evaluation-IsEncoder : IsEncoder Any encode_authority_bound_evaluation
unfolding encode_authority_bound_evaluation
authority_bound_evaluation-IsEncoder =
    record-IsEncoder "nest-authz/authority-bound-evaluation@1" _ (λ a b. refl)
      (λ a. (
        string-IsEncoder.frames a.name,
        (
          integer-IsEncoder.frames a.upper_bound,
          (
            boolean-IsEncoder.frames a.present,
            (
              scalar-IsEncoder.frames a.supplied_value,
              (authority_applicability_status-IsEncoder.frames a.status, tt),
            ),
          ),
        ),
      ))
      (λ a b v w e i. record {
        name = same_values string-IsEncoder tt tt e.0 i;
        upper_bound = same_values integer-IsEncoder tt tt e.1.0 i;
        present = same_values boolean-IsEncoder tt tt e.1.1.0 i;
        supplied_value = same_values scalar-IsEncoder tt tt e.1.1.1.0 i;
        status = same_values authority_applicability_status-IsEncoder tt tt e.1.1.1.1.0 i;
      })

-- What the constructors of domain.py assure: digests of 32 bytes and sorted maps.
pub record IsCanonicalAuthorityApplicabilityResult (value : AuthorityApplicabilityResult)
    : Type 0 where
  pub request_digest : IsDigest value.request_digest
  pub authority_digest : IsDigest value.authority_digest
  pub chain_digest : IsDigest value.chain_digest
  pub state_digest : IsDigest value.state_digest

pub authority_applicability_result-IsEncoder :
    IsEncoder IsCanonicalAuthorityApplicabilityResult encode_authority_applicability_result
unfolding encode_authority_applicability_result
authority_applicability_result-IsEncoder =
    record-IsEncoder "nest-authz/authority-applicability-result@1" _ (λ a b. refl)
      (λ a. (
        authority_applicability_status-IsEncoder.frames a.status,
        (
          sha256_digest-IsEncoder.frames a.request_digest,
          (
            sha256_digest-IsEncoder.frames a.authority_digest,
            (
              sha256_digest-IsEncoder.frames a.chain_digest,
              (
                sha256_digest-IsEncoder.frames a.state_digest,
                (
                  string-IsEncoder.frames a.effective_grant_id,
                  (
                    action-IsEncoder.frames a.expected_action,
                    (
                      action-IsEncoder.frames a.request_action,
                      (
                        boolean-IsEncoder.frames a.action_matches,
                        (
                          resource-IsEncoder.frames a.expected_resource,
                          (
                            resource-IsEncoder.frames a.request_resource,
                            (
                              boolean-IsEncoder.frames a.resource_matches,
                              (
                                (any_sequence-IsEncoder encode_authority_bound_evaluation
                                      authority_bound_evaluation-IsEncoder).frames
                                    a.bound_evaluations,
                                tt,
                              ),
                            ),
                          ),
                        ),
                      ),
                    ),
                  ),
                ),
              ),
            ),
          ),
        ),
      ))
      (λ a b v w e i. record {
        status = same_values authority_applicability_status-IsEncoder tt tt e.0 i;
        request_digest =
            same_values sha256_digest-IsEncoder v.request_digest w.request_digest e.1.0 i;
        authority_digest =
            same_values sha256_digest-IsEncoder v.authority_digest w.authority_digest e.1.1.0 i;
        chain_digest =
            same_values sha256_digest-IsEncoder v.chain_digest w.chain_digest e.1.1.1.0 i;
        state_digest =
            same_values sha256_digest-IsEncoder v.state_digest w.state_digest e.1.1.1.1.0 i;
        effective_grant_id = same_values string-IsEncoder tt tt e.1.1.1.1.1.0 i;
        expected_action = same_values action-IsEncoder tt tt e.1.1.1.1.1.1.0 i;
        request_action = same_values action-IsEncoder tt tt e.1.1.1.1.1.1.1.0 i;
        action_matches = same_values boolean-IsEncoder tt tt e.1.1.1.1.1.1.1.1.0 i;
        expected_resource = same_values resource-IsEncoder tt tt e.1.1.1.1.1.1.1.1.1.0 i;
        request_resource = same_values resource-IsEncoder tt tt e.1.1.1.1.1.1.1.1.1.1.0 i;
        resource_matches = same_values boolean-IsEncoder tt tt e.1.1.1.1.1.1.1.1.1.1.1.0 i;
        bound_evaluations =
            same_values
              (any_sequence-IsEncoder encode_authority_bound_evaluation
                authority_bound_evaluation-IsEncoder)
              tt tt e.1.1.1.1.1.1.1.1.1.1.1.1.0 i;
      })

pub authority_applicability_result-IsPresent : IsPresent encode_authority_applicability_result
unfolding encode_authority_applicability_result
authority_applicability_result-IsPresent a b h k = encode_record-not_null _ _ b h k

-- What the constructors of domain.py assure: digests of 32 bytes and sorted maps.
pub record IsCanonicalSubjectAuthorityBindingResult (value : SubjectAuthorityBindingResult)
    : Type 0 where
  pub request_digest : IsDigest value.request_digest
  pub authority_digest : IsDigest value.authority_digest

pub subject_authority_binding_result-IsEncoder :
    IsEncoder IsCanonicalSubjectAuthorityBindingResult encode_subject_authority_binding_result
unfolding encode_subject_authority_binding_result
subject_authority_binding_result-IsEncoder =
    record-IsEncoder "nest-authz/subject-authority-binding-result@1" _ (λ a b. refl)
      (λ a. (
        subject_authority_binding_status-IsEncoder.frames a.status,
        (
          sha256_digest-IsEncoder.frames a.request_digest,
          (
            sha256_digest-IsEncoder.frames a.authority_digest,
            (
              subject-IsEncoder.frames a.request_subject,
              (
                subject_principal_binding-IsEncoder.frames a.binding,
                (
                  principal-IsEncoder.frames a.authority_principal,
                  (string-IsEncoder.frames a.effective_grant_id, tt),
                ),
              ),
            ),
          ),
        ),
      ))
      (λ a b v w e i. record {
        status = same_values subject_authority_binding_status-IsEncoder tt tt e.0 i;
        request_digest =
            same_values sha256_digest-IsEncoder v.request_digest w.request_digest e.1.0 i;
        authority_digest =
            same_values sha256_digest-IsEncoder v.authority_digest w.authority_digest e.1.1.0 i;
        request_subject = same_values subject-IsEncoder tt tt e.1.1.1.0 i;
        binding = same_values subject_principal_binding-IsEncoder tt tt e.1.1.1.1.0 i;
        authority_principal = same_values principal-IsEncoder tt tt e.1.1.1.1.1.0 i;
        effective_grant_id = same_values string-IsEncoder tt tt e.1.1.1.1.1.1.0 i;
      })

pub subject_authority_binding_result-IsPresent : IsPresent encode_subject_authority_binding_result
unfolding encode_subject_authority_binding_result
subject_authority_binding_result-IsPresent a b h k = encode_record-not_null _ _ b h k
