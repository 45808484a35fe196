-- ===== src/Tests/Attestation.antt =====
-- The theorems on attestations, with a toy signature scheme.
use Prim.Native.Nat.{◌%◌}
use native.Mathlib.Decide.{ℕ_discrete}
use nest_authz.Prelude.{
  true, ◌≡◌, ◌↔◌, refl, some, ok, [], ◌∷◌, ◌++◌, length, contains, arith, ◌==◌, list_eq, string_eq,
  nat_eq, sort_by, string_discrete,
}
use nest_authz.Domain.Hex.{sha256_digest_post_init, hex, hex_value}
use nest_authz.Domain.Value.{Sha256Digest}
use nest_authz.Domain.Attestation.{
  SignatureScheme, ArtifactPurpose, ArtifactKind, ArtifactVerificationStatus, SigningKeyId,
  TrustedKey, TrustStore, ArtifactAttestation, ArtifactVerificationResult, artifact_purpose_eq,
  signing_key_id_eq, artifact_signature_post_init,
}
use nest_authz.Canonical.Bytes.{Bytes, big_endian, bits, bit_length, utf8_char, utf8}
use nest_authz.Canonical.Encode.{
  frame, encode_null, encode_boolean, magnitude_bytes, encode_integer, encode_string, join_all,
  encode_sequence, bytes_lt, canonical_entries, join_entries, encode_map, evaluated, encode_record,
  encode_scalar, encode_scalar_map, encode_integer_map, encode_string_sequence, encode_optional,
}
use nest_authz.Canonical.Digest.{preamble, canonical_bytes, sha256_digest}
use nest_authz.Canonical.Schema.Authority.{
  encode_subject, encode_action, encode_resource, encode_sha256_digest, encode_principal,
  encode_subject_principal_binding, encode_approver_subject_principal_binding,
  encode_authority_scope, encode_authority_grant, encode_delegation_chain, encode_revocation_set,
  encode_authorization_state, encode_authority_validation_status, encode_verified_authority,
  encode_authority_validation_result,
}
use nest_authz.Canonical.Schema.Policy.{
  encode_field_namespace, encode_field_reference, encode_condition_operator, encode_condition,
  encode_obligation, encode_approval_requirement, encode_rule_effect, encode_rule, encode_policy,
  encode_policy_bundle,
}
use nest_authz.Canonical.Schema.Request.{
  encode_request_context, encode_authority_context, encode_authorization_request,
}
use nest_authz.Canonical.Schema.Evidence.{
  encode_authority_applicability_status, encode_authority_bound_evaluation,
  encode_authority_applicability_result, encode_subject_authority_binding_status,
  encode_subject_authority_binding_result,
}
use nest_authz.Canonical.Schema.Decision.{
  encode_outcome, encode_condition_status, encode_reason, encode_rule_evaluation_status,
  encode_rule_evaluation, encode_decision_evidence, encode_decision,
}
use nest_authz.Canonical.Schema.Approval.{
  encode_approver_authorization_status, encode_approver_authorization_result,
  encode_approval_requirement_status, encode_approval_status, encode_approval_requirement_state,
  encode_decision_receipt, encode_pending_approval,
}
use nest_authz.Canonical.Schema.Execution.{
  encode_execution_authorization_status, encode_execution_permit,
  encode_execution_authorization_result, encode_execution_id, encode_execution_status,
  encode_execution_record, encode_execution_reservation_status, encode_execution_reservation_result,
}
use nest_authz.Attestation.{
  policy_bundle, Ed25519, attestation_preamble, message_field, attestation_signing_message,
  artifact_kind_and_purpose, artifact_digest_of, trusted_key_in, trusted_key, sign_artifact,
  verify_artifact,
}
use nest_authz.Attestation.Verified.{
  IsVerified, verified_result, verify_artifact-verified_iff, sign_artifact-verify_artifact,
}
use nest_authz.Attestation.Messages.{attestation_signing_message-injective}
use nest_authz.Examples.{ok_or, zeros, checksum, bundle}

abbrev toy_signature : Bytes → Bytes
toy_signature message = (length message % 256) ∷ (zeros ++ (0 ∷ zeros))

abbrev toy : Ed25519
toy = record {
  PrivateKey = Bytes;
  sign = λ k message. toy_signature message;
  verify = λ k signature message. signature == toy_signature message;
}

abbrev key_id : SigningKeyId
key_id = record { identifier = "policy_key" }

abbrev key : TrustedKey
key = record {
  key_id = key_id;
  public_key = record { value = 0 ∷ zeros };
  allowed_purposes = ArtifactPurpose.policy_bundle ∷ [];
}

abbrev store : TrustStore
store = record { trusted_keys = key ∷ [] }

abbrev unsigned : ArtifactAttestation
unsigned = record {
  scheme = SignatureScheme.ed25519;
  key_id = key_id;
  purpose = ArtifactPurpose.policy_bundle;
  artifact_kind = ArtifactKind.policy_bundle;
  artifact_digest = record { value = 0 ∷ zeros };
  signature = record { value = [] };
}

abbrev attestation : ArtifactAttestation
attestation =
    ok_or unsigned
      (sign_artifact toy checksum (policy_bundle bundle) [] key_id ArtifactPurpose.policy_bundle)

sign_returns :
    sign_artifact toy checksum (policy_bundle bundle) [] key_id ArtifactPurpose.policy_bundle
    ≡ ok attestation
unfolding sign_artifact artifact_kind_and_purpose artifact_purpose_eq artifact_digest_of
    attestation_signing_message attestation_preamble message_field artifact_signature_post_init
    big_endian bits bit_length utf8_char utf8 frame encode_null encode_boolean magnitude_bytes
    encode_integer encode_string join_all encode_sequence bytes_lt canonical_entries join_entries
    encode_map evaluated encode_record encode_scalar encode_scalar_map encode_integer_map
    encode_string_sequence encode_optional preamble canonical_bytes sha256_digest encode_subject
    encode_action encode_resource encode_sha256_digest encode_principal
    encode_subject_principal_binding encode_approver_subject_principal_binding
    encode_authority_scope encode_authority_grant encode_delegation_chain encode_revocation_set
    encode_authorization_state encode_authority_validation_status encode_verified_authority
    encode_authority_validation_result encode_field_namespace encode_field_reference
    encode_condition_operator encode_condition encode_obligation encode_approval_requirement
    encode_rule_effect encode_rule encode_policy encode_policy_bundle encode_request_context
    encode_authority_context encode_authorization_request encode_authority_applicability_status
    encode_authority_bound_evaluation encode_authority_applicability_result
    encode_subject_authority_binding_status encode_subject_authority_binding_result encode_outcome
    encode_condition_status encode_reason encode_rule_evaluation_status encode_rule_evaluation
    encode_decision_evidence encode_decision encode_approver_authorization_status
    encode_approver_authorization_result encode_approval_requirement_status encode_approval_status
    encode_approval_requirement_state encode_decision_receipt encode_pending_approval
    encode_execution_authorization_status encode_execution_permit
    encode_execution_authorization_result encode_execution_id encode_execution_status
    encode_execution_record encode_execution_reservation_status encode_execution_reservation_result
    sha256_digest_post_init hex hex_value string_eq nat_eq sort_by string_discrete ℕ_discrete
sign_returns = refl

key_is_found : trusted_key store key_id ≡ some key
unfolding trusted_key_in signing_key_id_eq string_discrete
key_is_found = refl

purpose_is_allowed : contains ArtifactPurpose.policy_bundle key.allowed_purposes ≡ true
purpose_is_allowed = ground arith

key_verifies : (m : Bytes) → toy.verify key.public_key.value (toy.sign [] m) m ≡ true
key_verifies m = ground arith

sign_artifact-verify_artifact_example :
    verify_artifact toy checksum
      (policy_bundle bundle)
      attestation
      store
      ArtifactPurpose.policy_bundle
    ≡ ok (
        verified_result toy checksum
          (policy_bundle bundle)
          attestation
          store
          ArtifactPurpose.policy_bundle)
sign_artifact-verify_artifact_example =
    sign_artifact-verify_artifact toy checksum (policy_bundle bundle) [] key_id
      ArtifactPurpose.policy_bundle store key attestation sign_returns key_is_found key_verifies
      purpose_is_allowed

verify_artifact-verified_iff_example :
    ((r : ArtifactVerificationResult) × (verify_artifact toy checksum
          (policy_bundle bundle)
          attestation
          store
          ArtifactPurpose.policy_bundle
        ≡ ok r)
      × (r.status ≡ ArtifactVerificationStatus.verified))
    ↔ IsVerified toy checksum (policy_bundle bundle) attestation store ArtifactPurpose.policy_bundle
verify_artifact-verified_iff_example =
    verify_artifact-verified_iff toy checksum (policy_bundle bundle) attestation store
      ArtifactPurpose.policy_bundle

abbrev signed_digest : Sha256Digest
signed_digest = record { value = 7 ∷ zeros }

abbrev message : Bytes
message = ok_or [] (
    attestation_signing_message SignatureScheme.ed25519 ArtifactPurpose.policy_bundle
      ArtifactKind.policy_bundle signed_digest)

message_is_made :
    attestation_signing_message SignatureScheme.ed25519 ArtifactPurpose.policy_bundle
      ArtifactKind.policy_bundle signed_digest
    ≡ ok message
unfolding attestation_signing_message attestation_preamble message_field utf8 utf8_char big_endian
    nat_eq ℕ_discrete
message_is_made = refl

attestation_signing_message-injective_example :
    (ArtifactPurpose.policy_bundle ≡ ArtifactPurpose.policy_bundle)
    × (ArtifactKind.policy_bundle ≡ ArtifactKind.policy_bundle)
    × (signed_digest ≡ signed_digest)
attestation_signing_message-injective_example =
    attestation_signing_message-injective SignatureScheme.ed25519 SignatureScheme.ed25519
      ArtifactPurpose.policy_bundle ArtifactPurpose.policy_bundle ArtifactKind.policy_bundle
      ArtifactKind.policy_bundle signed_digest signed_digest message message_is_made message_is_made
