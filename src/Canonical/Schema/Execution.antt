-- ===== src/Canonical/Schema/Execution.antt =====
-- The schemas of `_encode_domain` in canonical.py for execution permits, results and records.
use nest_authz.Prelude.{[], ◌∷◌, Result}
use nest_authz.Domain.Status.{
  ExecutionAuthorizationStatus, ExecutionStatus, ExecutionReservationStatus,
}
use nest_authz.Canonical.Values.{
  execution_authorization_status_value, execution_reservation_status_value,
}
use nest_authz.ExecutionStore.{status_value}
use nest_authz.Domain.Execution.{
  ExecutionPermit, ExecutionAuthorizationResult, ExecutionId, ExecutionRecord,
  ExecutionReservationResult,
}
use nest_authz.Canonical.Bytes.{Bytes}
use nest_authz.Canonical.Encode.{encode_string, encode_optional, encode_record}
use nest_authz.Canonical.Schema.Authority.{encode_authority_validation_result, encode_sha256_digest}
use nest_authz.Canonical.Schema.Evidence.{
  encode_authority_applicability_result, encode_subject_authority_binding_result,
}
use nest_authz.Canonical.Schema.Decision.{encode_decision}

unfoldable pub encode_execution_authorization_status : ExecutionAuthorizationStatus → Result Bytes
encode_execution_authorization_status value =
    encode_record "nest-authz/execution-authorization-status@1"
      (("value", encode_string (execution_authorization_status_value value)) ∷ [])

unfoldable pub encode_execution_permit : ExecutionPermit → Result Bytes
encode_execution_permit value = encode_record "nest-authz/execution-permit@1" (
    ("original_receipt_digest", encode_sha256_digest value.original_receipt_digest)
    ∷ ("approved_state_digest", encode_sha256_digest value.approved_state_digest)
    ∷ ("current_request_digest", encode_sha256_digest value.current_request_digest)
    ∷ ("current_policy_bundle_digest", encode_sha256_digest value.current_policy_bundle_digest)
    ∷ (
      "current_delegation_chain_digest",
      encode_sha256_digest value.current_delegation_chain_digest,
    )
    ∷ (
      "current_authorization_state_digest",
      encode_sha256_digest value.current_authorization_state_digest,
    )
    ∷ (
      "current_validated_authority_digest",
      encode_sha256_digest value.current_validated_authority_digest,
    )
    ∷ (
      "subject_authority_binding",
      encode_subject_authority_binding_result value.subject_authority_binding,
    )
    ∷ (
      "authority_applicability",
      encode_authority_applicability_result value.authority_applicability,
    )
    ∷ ("decision", encode_decision value.decision)
    ∷ [])

unfoldable pub encode_execution_authorization_result : ExecutionAuthorizationResult → Result Bytes
encode_execution_authorization_result value =
    encode_record "nest-authz/execution-authorization-result@1" (
      ("status", encode_execution_authorization_status value.status)
      ∷ ("original_receipt_digest", encode_sha256_digest value.original_receipt_digest)
      ∷ ("approved_state_digest", encode_sha256_digest value.approved_state_digest)
      ∷ ("current_request_digest", encode_sha256_digest value.current_request_digest)
      ∷ ("current_policy_bundle_digest", encode_sha256_digest value.current_policy_bundle_digest)
      ∷ (
        "current_delegation_chain_digest",
        encode_sha256_digest value.current_delegation_chain_digest,
      )
      ∷ (
        "current_authorization_state_digest",
        encode_sha256_digest value.current_authorization_state_digest,
      )
      ∷ ("authority_validation", encode_authority_validation_result value.authority_validation)
      ∷ (
        "subject_authority_binding",
        encode_optional encode_subject_authority_binding_result value.subject_authority_binding,
      )
      ∷ (
        "authority_applicability",
        encode_optional encode_authority_applicability_result value.authority_applicability,
      )
      ∷ ("decision", encode_decision value.decision)
      ∷ ("execution_permit", encode_optional encode_execution_permit value.execution_permit)
      ∷ [])

unfoldable pub encode_execution_id : ExecutionId → Result Bytes
encode_execution_id value =
    encode_record "nest-authz/execution-id@1"
      (("permit_digest", encode_sha256_digest value.permit_digest) ∷ [])

unfoldable pub encode_execution_status : ExecutionStatus → Result Bytes
encode_execution_status value =
    encode_record "nest-authz/execution-status@1"
      (("value", encode_string (status_value value)) ∷ [])

unfoldable pub encode_execution_record : ExecutionRecord → Result Bytes
encode_execution_record value = encode_record "nest-authz/execution-record@1" (
    ("execution_id", encode_execution_id value.execution_id)
    ∷ ("execution_permit_digest", encode_sha256_digest value.execution_permit_digest)
    ∷ ("status", encode_execution_status value.status)
    ∷ ("result_reference", encode_optional encode_string value.result_reference)
    ∷ ("failure_reference", encode_optional encode_string value.failure_reference)
    ∷ [])

unfoldable pub encode_execution_reservation_status : ExecutionReservationStatus → Result Bytes
encode_execution_reservation_status value =
    encode_record "nest-authz/execution-reservation-status@1"
      (("value", encode_string (execution_reservation_status_value value)) ∷ [])

unfoldable pub encode_execution_reservation_result : ExecutionReservationResult → Result Bytes
encode_execution_reservation_result value =
    encode_record "nest-authz/execution-reservation-result@1" (
      ("status", encode_execution_reservation_status value.status)
      ∷ ("record", encode_execution_record value.record_)
      ∷ [])
