-- ===== src/Attestation.antt =====
-- attestation.py: signing and verification of artifacts. Ed25519 is a parameter.
pub mod Verified
pub mod Messages
use nest_authz.Prelude.{
  ℕ, String, Bool, true, false, Option, none, some, List, [], ◌∷◌, ◌++◌, length, contains, ltb,
  ◌==◌, ◌!=◌, if◌then◌else◌, Result, ok, err, ◌>>=◌, ◌>>◌, raise_if, value_error, runtime_error,
  nat_eq,
}
use Prim.Native.String.{◌++◌ as ◌<>◌}
use nest_authz.Domain.Value.{Sha256Digest, sha256_digest_eq}
use nest_authz.Domain.Authority.{AuthorityGrant}
use nest_authz.Domain.Policy.{PolicyBundle}
use nest_authz.Domain.Receipt.{DecisionReceipt}
use nest_authz.Domain.Execution.{ExecutionPermit}
use nest_authz.Domain.Attestation.{
  SignatureScheme, signature_scheme_eq, ArtifactPurpose, artifact_purpose_eq, ArtifactKind,
  artifact_kind_eq, ArtifactVerificationStatus, artifact_verification_status_eq, scheme_value,
  purpose_value, kind_value, verification_value, SigningKeyId, signing_key_id_eq, ArtifactSignature,
  artifact_signature_post_init, TrustedKey, TrustStore, ArtifactAttestation,
  ArtifactVerificationResult, artifact_verification_result_from_verification, TrustedPolicyBundle,
  trusted_policy_bundle_from_verification,
}
use nest_authz.Canonical.Bytes.{Bytes, big_endian, utf8}
use nest_authz.Canonical.Digest.{sha256_digest}
use nest_authz.Canonical.Schema.Authority.{encode_authority_grant}
use nest_authz.Canonical.Schema.Policy.{encode_policy_bundle}
use nest_authz.Canonical.Schema.Approval.{encode_decision_receipt}
use nest_authz.Canonical.Schema.Execution.{encode_execution_permit}

-- `_ATTESTATION_PREAMBLE` and `_MAX_FIELD_LENGTH`
unfoldable pub attestation_preamble : Bytes
attestation_preamble = utf8 "NEST-AUTHZ-ATTESTATION" ++ (0 ∷ 1 ∷ [])

abbrev pub max_field_length : ℕ
max_field_length = 4294967295

unfoldable pub message_field : Bytes → Bytes → Result Bytes
message_field tag value = do
  raise_if (length tag != 1) (value_error "attestation field tags must contain one byte")
  raise_if (ltb max_field_length (length value))
      (value_error "attestation message field is too large")
  ok (tag ++ (big_endian 4 (length value) ++ value))

unfoldable pub attestation_signing_message :
    SignatureScheme → ArtifactPurpose → ArtifactKind → Sha256Digest → Result Bytes
attestation_signing_message scheme purpose artifact_kind artifact_digest = do
  s ← message_field (83 ∷ []) (utf8 (scheme_value scheme))
  p ← message_field (80 ∷ []) (utf8 (purpose_value purpose))
  k ← message_field (75 ∷ []) (utf8 (kind_value artifact_kind))
  d ← message_field (68 ∷ []) artifact_digest.value
  ok (attestation_preamble ++ (s ++ (p ++ (k ++ d))))

-- The types that can be attested.
pub data Artifact : Type 0 where
  policy_bundle : PolicyBundle → Artifact
  authority_grant : AuthorityGrant → Artifact
  decision_receipt : DecisionReceipt → Artifact
  execution_permit : ExecutionPermit → Artifact

unfoldable pub artifact_kind_and_purpose : Artifact → ArtifactKind × ArtifactPurpose
artifact_kind_and_purpose (policy_bundle _) =
    (ArtifactKind.policy_bundle, ArtifactPurpose.policy_bundle)
artifact_kind_and_purpose (authority_grant _) =
    (ArtifactKind.authority_grant, ArtifactPurpose.authority_grant)
artifact_kind_and_purpose (decision_receipt _) =
    (ArtifactKind.decision_receipt, ArtifactPurpose.decision_receipt)
artifact_kind_and_purpose (execution_permit _) =
    (ArtifactKind.execution_permit, ArtifactPurpose.execution_permit)

-- `_trusted_key`
unfoldable pub trusted_key_in : List TrustedKey → SigningKeyId → Option TrustedKey
trusted_key_in [] key_id = none
trusted_key_in (k ∷ ks) key_id = if k.key_id == key_id then some k else trusted_key_in ks key_id

abbrev pub trusted_key : TrustStore → SigningKeyId → Option TrustedKey
trusted_key trust_store key_id = trusted_key_in trust_store.trusted_keys key_id

-- What attestation.py uses of `cryptography`: `verify` is whether no InvalidSignature or ValueError is
-- raised, of the bytes of a public key, a signature and a message.
pub record Ed25519 : Type 1 where
  pub PrivateKey : Type 0
  pub sign : PrivateKey → Bytes → Bytes
  pub verify : Bytes → Bytes → Bytes → Bool

module _ (sha256 : Bytes → Bytes) where
  -- `sha256_digest(artifact)`
  unfoldable pub artifact_digest_of : Artifact → Result Sha256Digest
  artifact_digest_of (policy_bundle b) = sha256_digest sha256 encode_policy_bundle b
  artifact_digest_of (authority_grant g) = sha256_digest sha256 encode_authority_grant g
  artifact_digest_of (decision_receipt r) = sha256_digest sha256 encode_decision_receipt r
  artifact_digest_of (execution_permit p) = sha256_digest sha256 encode_execution_permit p

  unfoldable pub artifact_signing_message : Artifact → ArtifactPurpose → Result Bytes
  artifact_signing_message artifact purpose = do
    let (artifact_kind, required_purpose) = artifact_kind_and_purpose artifact
    raise_if (purpose != required_purpose)
        (value_error "purpose does not match the artifact kind's version-1 purpose")
    digest ← artifact_digest_of artifact
    attestation_signing_message SignatureScheme.ed25519 purpose artifact_kind digest

module _ (E : Ed25519) (sha256 : Bytes → Bytes) where
  unfoldable pub sign_artifact :
      Artifact → E.PrivateKey → SigningKeyId → ArtifactPurpose → Result ArtifactAttestation
  sign_artifact artifact private_key key_id purpose = do
    let (artifact_kind, required_purpose) = artifact_kind_and_purpose artifact
    raise_if (purpose != required_purpose)
        (value_error "purpose does not match the artifact kind's version-1 purpose")
    artifact_digest ← artifact_digest_of sha256 artifact
    message ←
        attestation_signing_message SignatureScheme.ed25519 purpose artifact_kind artifact_digest
    signature ← artifact_signature_post_init (record { value = E.sign private_key message })
    ok (record {
      scheme = SignatureScheme.ed25519;
      key_id = key_id;
      purpose = purpose;
      artifact_kind = artifact_kind;
      artifact_digest = artifact_digest;
      signature = signature;
    })

  -- The status for a key of the store.
  unfoldable pub key_status :
      ArtifactAttestation → ArtifactPurpose → Option TrustedKey → Result ArtifactVerificationStatus
  key_status a expected_purpose none = ok ArtifactVerificationStatus.unknown_key
  key_status a expected_purpose (some k) = do
    message ← attestation_signing_message a.scheme a.purpose a.artifact_kind a.artifact_digest
    ok (
        if E.verify k.public_key.value a.signature.value message
        then if contains expected_purpose k.allowed_purposes
          then ArtifactVerificationStatus.verified
          else ArtifactVerificationStatus.key_not_trusted_for_purpose
        else ArtifactVerificationStatus.signature_invalid)

  unfoldable pub verification_status :
      ArtifactAttestation
      → TrustStore
      → ArtifactPurpose
      → ArtifactKind
      → Sha256Digest
      → Result ArtifactVerificationStatus
  verification_status a trust_store expected_purpose expected_kind artifact_digest =
      if a.artifact_kind != expected_kind
      then ok ArtifactVerificationStatus.artifact_kind_mismatch
      else if a.purpose != expected_purpose
      then ok ArtifactVerificationStatus.purpose_mismatch
      else if a.scheme != SignatureScheme.ed25519
      then ok ArtifactVerificationStatus.scheme_unsupported
      else if a.artifact_digest != artifact_digest
      then ok ArtifactVerificationStatus.digest_mismatch
      else key_status a expected_purpose (trusted_key trust_store a.key_id)

  unfoldable pub verify_artifact :
      Artifact
      → ArtifactAttestation
      → TrustStore
      → ArtifactPurpose
      → Result ArtifactVerificationResult
  verify_artifact artifact attestation trust_store expected_purpose = do
    let (expected_kind, required_purpose) = artifact_kind_and_purpose artifact
    raise_if (expected_purpose != required_purpose)
        (value_error "expected_purpose does not match the artifact's version-1 purpose")
    artifact_digest ← artifact_digest_of sha256 artifact
    status ←
        verification_status attestation trust_store expected_purpose expected_kind artifact_digest
    artifact_verification_result_from_verification (record {
      status = status;
      artifact_digest = artifact_digest;
      attestation = attestation;
      expected_purpose = expected_purpose;
      expected_artifact_kind = expected_kind;
    })

  unfoldable pub verify_policy_bundle :
      PolicyBundle → ArtifactAttestation → TrustStore → Result TrustedPolicyBundle
  verify_policy_bundle bundle attestation trust_store = do
    verification ←
        verify_artifact (policy_bundle bundle) attestation trust_store ArtifactPurpose.policy_bundle
    raise_if (verification.status != ArtifactVerificationStatus.verified)
        (runtime_error ("artifact verification failed: " <> verification_value verification.status))
    trusted_policy_bundle_from_verification
        (record { bundle = bundle; attestation = attestation; verification = verification })
