-- ===== src/Canonical/ReadBack/Execution.antt =====
-- Values with the same encoding are equal: execution permits and records.
use nest_authz.Prelude.{refl, string_eq}
use nest_authz.Canonical.Join.{IsEncoder, same_values}
use nest_authz.Canonical.Records.{record-IsEncoder, encode_record-not_null}
use nest_authz.Canonical.Primitives.{IsPresent}
use nest_authz.Canonical.Containers.{Every, optional_string-IsEncoder, optional-IsEncoder}
use nest_authz.Domain.Hex.{IsDigest}
use nest_authz.Domain.Execution.{
  ExecutionPermit, ExecutionAuthorizationResult, ExecutionId, ExecutionRecord,
  ExecutionReservationResult,
}
use nest_authz.Canonical.ReadBack.Members.{
  execution_authorization_status-IsEncoder, execution_status-IsEncoder,
  execution_reservation_status-IsEncoder,
}
use nest_authz.Canonical.ReadBack.Authority.{
  sha256_digest-IsEncoder, authority_validation_result-IsEncoder,
  IsCanonicalAuthorityValidationResult,
}
use nest_authz.Canonical.Schema.Evidence.{
  encode_authority_applicability_result, encode_subject_authority_binding_result,
}
use nest_authz.Canonical.ReadBack.Evidence.{
  authority_applicability_result-IsEncoder, authority_applicability_result-IsPresent,
  IsCanonicalAuthorityApplicabilityResult, subject_authority_binding_result-IsEncoder,
  subject_authority_binding_result-IsPresent, IsCanonicalSubjectAuthorityBindingResult,
}
use nest_authz.Canonical.ReadBack.Decision.{decision-IsEncoder, IsCanonicalDecision}
use nest_authz.Canonical.Schema.Execution.{
  encode_execution_permit, encode_execution_authorization_result, encode_execution_id,
  encode_execution_record, encode_execution_reservation_result,
}

-- What the constructors of domain.py assure: digests of 32 bytes and sorted maps.
pub record IsCanonicalExecutionPermit (value : ExecutionPermit) : Type 0 where
  pub original_receipt_digest : IsDigest value.original_receipt_digest
  pub approved_state_digest : IsDigest value.approved_state_digest
  pub current_request_digest : IsDigest value.current_request_digest
  pub current_policy_bundle_digest : IsDigest value.current_policy_bundle_digest
  pub current_delegation_chain_digest : IsDigest value.current_delegation_chain_digest
  pub current_authorization_state_digest : IsDigest value.current_authorization_state_digest
  pub current_validated_authority_digest : IsDigest value.current_validated_authority_digest
  pub subject_authority_binding :
      IsCanonicalSubjectAuthorityBindingResult value.subject_authority_binding
  pub authority_applicability :
      IsCanonicalAuthorityApplicabilityResult value.authority_applicability
  pub decision : IsCanonicalDecision value.decision

pub execution_permit-IsEncoder : IsEncoder IsCanonicalExecutionPermit encode_execution_permit
unfolding encode_execution_permit
execution_permit-IsEncoder =
    record-IsEncoder "nest-authz/execution-permit@1" _ (λ a b. refl)
      (λ a. (
        sha256_digest-IsEncoder.frames a.original_receipt_digest,
        (
          sha256_digest-IsEncoder.frames a.approved_state_digest,
          (
            sha256_digest-IsEncoder.frames a.current_request_digest,
            (
              sha256_digest-IsEncoder.frames a.current_policy_bundle_digest,
              (
                sha256_digest-IsEncoder.frames a.current_delegation_chain_digest,
                (
                  sha256_digest-IsEncoder.frames a.current_authorization_state_digest,
                  (
                    sha256_digest-IsEncoder.frames a.current_validated_authority_digest,
                    (
                      subject_authority_binding_result-IsEncoder.frames a.subject_authority_binding,
                      (
                        authority_applicability_result-IsEncoder.frames a.authority_applicability,
                        (decision-IsEncoder.frames a.decision, tt),
                      ),
                    ),
                  ),
                ),
              ),
            ),
          ),
        ),
      ))
      (λ a b v w e i. record {
        original_receipt_digest =
            same_values sha256_digest-IsEncoder v.original_receipt_digest w.original_receipt_digest
              e.0 i;
        approved_state_digest =
            same_values sha256_digest-IsEncoder v.approved_state_digest w.approved_state_digest
              e.1.0 i;
        current_request_digest =
            same_values sha256_digest-IsEncoder v.current_request_digest w.current_request_digest
              e.1.1.0 i;
        current_policy_bundle_digest =
            same_values sha256_digest-IsEncoder v.current_policy_bundle_digest
              w.current_policy_bundle_digest e.1.1.1.0 i;
        current_delegation_chain_digest =
            same_values sha256_digest-IsEncoder v.current_delegation_chain_digest
              w.current_delegation_chain_digest e.1.1.1.1.0 i;
        current_authorization_state_digest =
            same_values sha256_digest-IsEncoder v.current_authorization_state_digest
              w.current_authorization_state_digest e.1.1.1.1.1.0 i;
        current_validated_authority_digest =
            same_values sha256_digest-IsEncoder v.current_validated_authority_digest
              w.current_validated_authority_digest e.1.1.1.1.1.1.0 i;
        subject_authority_binding =
            same_values subject_authority_binding_result-IsEncoder v.subject_authority_binding
              w.subject_authority_binding e.1.1.1.1.1.1.1.0 i;
        authority_applicability =
            same_values authority_applicability_result-IsEncoder v.authority_applicability
              w.authority_applicability e.1.1.1.1.1.1.1.1.0 i;
        decision = same_values decision-IsEncoder v.decision w.decision e.1.1.1.1.1.1.1.1.1.0 i;
      })

pub execution_permit-IsPresent : IsPresent encode_execution_permit
unfolding encode_execution_permit
execution_permit-IsPresent a b h k = encode_record-not_null _ _ b h k

-- What the constructors of domain.py assure: digests of 32 bytes and sorted maps.
pub record IsCanonicalExecutionAuthorizationResult (value : ExecutionAuthorizationResult)
    : Type 0 where
  pub original_receipt_digest : IsDigest value.original_receipt_digest
  pub approved_state_digest : IsDigest value.approved_state_digest
  pub current_request_digest : IsDigest value.current_request_digest
  pub current_policy_bundle_digest : IsDigest value.current_policy_bundle_digest
  pub current_delegation_chain_digest : IsDigest value.current_delegation_chain_digest
  pub current_authorization_state_digest : IsDigest value.current_authorization_state_digest
  pub authority_validation : IsCanonicalAuthorityValidationResult value.authority_validation
  pub subject_authority_binding :
      Every IsCanonicalSubjectAuthorityBindingResult value.subject_authority_binding
  pub authority_applicability :
      Every IsCanonicalAuthorityApplicabilityResult value.authority_applicability
  pub decision : IsCanonicalDecision value.decision
  pub execution_permit : Every IsCanonicalExecutionPermit value.execution_permit

pub execution_authorization_result-IsEncoder :
    IsEncoder IsCanonicalExecutionAuthorizationResult encode_execution_authorization_result
unfolding encode_execution_authorization_result
execution_authorization_result-IsEncoder =
    record-IsEncoder "nest-authz/execution-authorization-result@1" _ (λ a b. refl)
      (λ a. (
        execution_authorization_status-IsEncoder.frames a.status,
        (
          sha256_digest-IsEncoder.frames a.original_receipt_digest,
          (
            sha256_digest-IsEncoder.frames a.approved_state_digest,
            (
              sha256_digest-IsEncoder.frames a.current_request_digest,
              (
                sha256_digest-IsEncoder.frames a.current_policy_bundle_digest,
                (
                  sha256_digest-IsEncoder.frames a.current_delegation_chain_digest,
                  (
                    sha256_digest-IsEncoder.frames a.current_authorization_state_digest,
                    (
                      authority_validation_result-IsEncoder.frames a.authority_validation,
                      (
                        (optional-IsEncoder IsCanonicalSubjectAuthorityBindingResult
                              encode_subject_authority_binding_result
                              subject_authority_binding_result-IsEncoder
                              subject_authority_binding_result-IsPresent).frames
                            a.subject_authority_binding,
                        (
                          (optional-IsEncoder IsCanonicalAuthorityApplicabilityResult
                                encode_authority_applicability_result
                                authority_applicability_result-IsEncoder
                                authority_applicability_result-IsPresent).frames
                              a.authority_applicability,
                          (
                            decision-IsEncoder.frames a.decision,
                            (
                              (optional-IsEncoder IsCanonicalExecutionPermit encode_execution_permit
                                    execution_permit-IsEncoder execution_permit-IsPresent).frames
                                  a.execution_permit,
                              tt,
                            ),
                          ),
                        ),
                      ),
                    ),
                  ),
                ),
              ),
            ),
          ),
        ),
      ))
      (λ a b v w e i. record {
        status = same_values execution_authorization_status-IsEncoder tt tt e.0 i;
        original_receipt_digest =
            same_values sha256_digest-IsEncoder v.original_receipt_digest w.original_receipt_digest
              e.1.0 i;
        approved_state_digest =
            same_values sha256_digest-IsEncoder v.approved_state_digest w.approved_state_digest
              e.1.1.0 i;
        current_request_digest =
            same_values sha256_digest-IsEncoder v.current_request_digest w.current_request_digest
              e.1.1.1.0 i;
        current_policy_bundle_digest =
            same_values sha256_digest-IsEncoder v.current_policy_bundle_digest
              w.current_policy_bundle_digest e.1.1.1.1.0 i;
        current_delegation_chain_digest =
            same_values sha256_digest-IsEncoder v.current_delegation_chain_digest
              w.current_delegation_chain_digest e.1.1.1.1.1.0 i;
        current_authorization_state_digest =
            same_values sha256_digest-IsEncoder v.current_authorization_state_digest
              w.current_authorization_state_digest e.1.1.1.1.1.1.0 i;
        authority_validation =
            same_values authority_validation_result-IsEncoder v.authority_validation
              w.authority_validation e.1.1.1.1.1.1.1.0 i;
        subject_authority_binding =
            same_values
              (optional-IsEncoder IsCanonicalSubjectAuthorityBindingResult
                encode_subject_authority_binding_result subject_authority_binding_result-IsEncoder
                subject_authority_binding_result-IsPresent)
              v.subject_authority_binding w.subject_authority_binding e.1.1.1.1.1.1.1.1.0 i;
        authority_applicability =
            same_values
              (optional-IsEncoder IsCanonicalAuthorityApplicabilityResult
                encode_authority_applicability_result authority_applicability_result-IsEncoder
                authority_applicability_result-IsPresent)
              v.authority_applicability w.authority_applicability e.1.1.1.1.1.1.1.1.1.0 i;
        decision = same_values decision-IsEncoder v.decision w.decision e.1.1.1.1.1.1.1.1.1.1.0 i;
        execution_permit =
            same_values
              (optional-IsEncoder IsCanonicalExecutionPermit encode_execution_permit
                execution_permit-IsEncoder execution_permit-IsPresent)
              v.execution_permit w.execution_permit e.1.1.1.1.1.1.1.1.1.1.1.0 i;
      })

-- What the constructors of domain.py assure: digests of 32 bytes and sorted maps.
pub record IsCanonicalExecutionId (value : ExecutionId) : Type 0 where
  pub permit_digest : IsDigest value.permit_digest

pub execution_id-IsEncoder : IsEncoder IsCanonicalExecutionId encode_execution_id
unfolding encode_execution_id
execution_id-IsEncoder =
    record-IsEncoder "nest-authz/execution-id@1" _ (λ a b. refl)
      (λ a. (sha256_digest-IsEncoder.frames a.permit_digest, tt))
      (λ a b v w e i. record {
        permit_digest = same_values sha256_digest-IsEncoder v.permit_digest w.permit_digest e.0 i;
      })

-- What the constructors of domain.py assure: digests of 32 bytes and sorted maps.
pub record IsCanonicalExecutionRecord (value : ExecutionRecord) : Type 0 where
  pub execution_id : IsCanonicalExecutionId value.execution_id
  pub execution_permit_digest : IsDigest value.execution_permit_digest

pub execution_record-IsEncoder : IsEncoder IsCanonicalExecutionRecord encode_execution_record
unfolding encode_execution_record
execution_record-IsEncoder =
    record-IsEncoder "nest-authz/execution-record@1" _ (λ a b. refl)
      (λ a. (
        execution_id-IsEncoder.frames a.execution_id,
        (
          sha256_digest-IsEncoder.frames a.execution_permit_digest,
          (
            execution_status-IsEncoder.frames a.status,
            (
              optional_string-IsEncoder.frames a.result_reference,
              (optional_string-IsEncoder.frames a.failure_reference, tt),
            ),
          ),
        ),
      ))
      (λ a b v w e i. record {
        execution_id = same_values execution_id-IsEncoder v.execution_id w.execution_id e.0 i;
        execution_permit_digest =
            same_values sha256_digest-IsEncoder v.execution_permit_digest w.execution_permit_digest
              e.1.0 i;
        status = same_values execution_status-IsEncoder tt tt e.1.1.0 i;
        result_reference = same_values optional_string-IsEncoder tt tt e.1.1.1.0 i;
        failure_reference = same_values optional_string-IsEncoder tt tt e.1.1.1.1.0 i;
      })

-- What the constructors of domain.py assure: digests of 32 bytes and sorted maps.
pub record IsCanonicalExecutionReservationResult (value : ExecutionReservationResult) : Type 0 where
  pub record_ : IsCanonicalExecutionRecord value.record_

pub execution_reservation_result-IsEncoder :
    IsEncoder IsCanonicalExecutionReservationResult encode_execution_reservation_result
unfolding encode_execution_reservation_result
execution_reservation_result-IsEncoder =
    record-IsEncoder "nest-authz/execution-reservation-result@1" _ (λ a b. refl)
      (λ a. (
        execution_reservation_status-IsEncoder.frames a.status,
        (execution_record-IsEncoder.frames a.record_, tt),
      ))
      (λ a b v w e i. record {
        status = same_values execution_reservation_status-IsEncoder tt tt e.0 i;
        record_ = same_values execution_record-IsEncoder v.record_ w.record_ e.1.0 i;
      })
