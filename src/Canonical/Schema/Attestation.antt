-- ===== src/Canonical/Schema/Attestation.antt =====
-- The schemas of `_encode_domain` in canonical.py for keys, signatures and attestations.
use nest_authz.Prelude.{[], ◌∷◌, Result}
use nest_authz.Domain.Hex.{hex}
use nest_authz.Domain.Attestation.{
  SignatureScheme, ArtifactPurpose, ArtifactKind, ArtifactVerificationStatus, scheme_value,
  purpose_value, kind_value, verification_value, SigningKeyId, Ed25519PublicKey, ArtifactSignature,
  TrustedKey, TrustStore, ArtifactAttestation, ArtifactVerificationResult, TrustedPolicyBundle,
}
use nest_authz.Canonical.Bytes.{Bytes}
use nest_authz.Canonical.Encode.{encode_string, encode_sequence, encode_record}
use nest_authz.Canonical.Schema.Authority.{encode_sha256_digest}
use nest_authz.Canonical.Schema.Policy.{encode_policy_bundle}

unfoldable pub encode_signing_key_id : SigningKeyId → Result Bytes
encode_signing_key_id value =
    encode_record "nest-authz/signing-key-id@1"
      (("identifier", encode_string value.identifier) ∷ [])

unfoldable pub encode_ed25519_public_key : Ed25519PublicKey → Result Bytes
encode_ed25519_public_key value =
    encode_record "nest-authz/ed25519-public-key@1"
      (("value", encode_string (hex value.value)) ∷ [])

unfoldable pub encode_artifact_signature : ArtifactSignature → Result Bytes
encode_artifact_signature value =
    encode_record "nest-authz/artifact-signature@1"
      (("value", encode_string (hex value.value)) ∷ [])

unfoldable pub encode_signature_scheme : SignatureScheme → Result Bytes
encode_signature_scheme value =
    encode_record "nest-authz/signature-scheme@1"
      (("value", encode_string (scheme_value value)) ∷ [])

unfoldable pub encode_artifact_purpose : ArtifactPurpose → Result Bytes
encode_artifact_purpose value =
    encode_record "nest-authz/artifact-purpose@1"
      (("value", encode_string (purpose_value value)) ∷ [])

unfoldable pub encode_artifact_kind : ArtifactKind → Result Bytes
encode_artifact_kind value =
    encode_record "nest-authz/artifact-kind@1" (("value", encode_string (kind_value value)) ∷ [])

unfoldable pub encode_trusted_key : TrustedKey → Result Bytes
encode_trusted_key value = encode_record "nest-authz/trusted-key@1" (
    ("key_id", encode_signing_key_id value.key_id)
    ∷ ("public_key", encode_ed25519_public_key value.public_key)
    ∷ ("allowed_purposes", encode_sequence encode_artifact_purpose value.allowed_purposes)
    ∷ [])

unfoldable pub encode_trust_store : TrustStore → Result Bytes
encode_trust_store value =
    encode_record "nest-authz/trust-store@1"
      (("trusted_keys", encode_sequence encode_trusted_key value.trusted_keys) ∷ [])

unfoldable pub encode_artifact_attestation : ArtifactAttestation → Result Bytes
encode_artifact_attestation value = encode_record "nest-authz/artifact-attestation@1" (
    ("scheme", encode_signature_scheme value.scheme)
    ∷ ("key_id", encode_signing_key_id value.key_id)
    ∷ ("purpose", encode_artifact_purpose value.purpose)
    ∷ ("artifact_kind", encode_artifact_kind value.artifact_kind)
    ∷ ("artifact_digest", encode_sha256_digest value.artifact_digest)
    ∷ ("signature", encode_artifact_signature value.signature)
    ∷ [])

unfoldable pub encode_artifact_verification_status : ArtifactVerificationStatus → Result Bytes
encode_artifact_verification_status value =
    encode_record "nest-authz/artifact-verification-status@1"
      (("value", encode_string (verification_value value)) ∷ [])

unfoldable pub encode_artifact_verification_result : ArtifactVerificationResult → Result Bytes
encode_artifact_verification_result value =
    encode_record "nest-authz/artifact-verification-result@1" (
      ("status", encode_artifact_verification_status value.status)
      ∷ ("artifact_digest", encode_sha256_digest value.artifact_digest)
      ∷ ("attestation", encode_artifact_attestation value.attestation)
      ∷ ("expected_purpose", encode_artifact_purpose value.expected_purpose)
      ∷ ("expected_artifact_kind", encode_artifact_kind value.expected_artifact_kind)
      ∷ [])

unfoldable pub encode_trusted_policy_bundle : TrustedPolicyBundle → Result Bytes
encode_trusted_policy_bundle value = encode_record "nest-authz/trusted-policy-bundle@1" (
    ("bundle", encode_policy_bundle value.bundle)
    ∷ ("attestation", encode_artifact_attestation value.attestation)
    ∷ ("verification", encode_artifact_verification_result value.verification)
    ∷ [])
