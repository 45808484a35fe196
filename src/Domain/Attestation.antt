-- ===== src/Domain/Attestation.antt =====
-- Keys, signatures and attestations of domain.py.
use nest_authz.Prelude.{
  ℕ, String, List, [], length, map, sort_by, Eq, ◌==◌, ◌!=◌, Result, ok, ◌>>=◌, ◌>>◌, raise_if,
  value_error, string_discrete, string_eq, nat_eq,
}
use nest_authz.Domain.Value.{Sha256Digest, sha256_digest_eq, non_blank, text_lt, repeats}
use nest_authz.Domain.Policy.{PolicyBundle}

pub data SignatureScheme : Type 0 where
  ed25519 : SignatureScheme

pub data ArtifactPurpose : Type 0 where
  policy_bundle authority_grant decision_receipt execution_permit : ArtifactPurpose

pub data ArtifactKind : Type 0 where
  policy_bundle authority_grant decision_receipt execution_permit : ArtifactKind

pub data ArtifactVerificationStatus : Type 0 where
  verified digest_mismatch signature_invalid unknown_key : ArtifactVerificationStatus
  key_not_trusted_for_purpose artifact_kind_mismatch : ArtifactVerificationStatus
  purpose_mismatch scheme_unsupported : ArtifactVerificationStatus

instance unfoldable pub signature_scheme_eq : Eq SignatureScheme
signature_scheme_eq = record { dec = hlevel }

instance unfoldable pub artifact_purpose_eq : Eq ArtifactPurpose
artifact_purpose_eq = record { dec = hlevel }

instance unfoldable pub artifact_kind_eq : Eq ArtifactKind
artifact_kind_eq = record { dec = hlevel }

instance unfoldable pub artifact_verification_status_eq : Eq ArtifactVerificationStatus
artifact_verification_status_eq = record { dec = hlevel }

-- `purpose.value` and `kind.value`
abbrev pub scheme_value : SignatureScheme → String
scheme_value SignatureScheme.ed25519 = "ED25519"

abbrev pub purpose_value : ArtifactPurpose → String
purpose_value ArtifactPurpose.policy_bundle = "POLICY_BUNDLE"
purpose_value ArtifactPurpose.authority_grant = "AUTHORITY_GRANT"
purpose_value ArtifactPurpose.decision_receipt = "DECISION_RECEIPT"
purpose_value ArtifactPurpose.execution_permit = "EXECUTION_PERMIT"

abbrev pub kind_value : ArtifactKind → String
kind_value ArtifactKind.policy_bundle = "POLICY_BUNDLE"
kind_value ArtifactKind.authority_grant = "AUTHORITY_GRANT"
kind_value ArtifactKind.decision_receipt = "DECISION_RECEIPT"
kind_value ArtifactKind.execution_permit = "EXECUTION_PERMIT"

abbrev pub verification_value : ArtifactVerificationStatus → String
verification_value ArtifactVerificationStatus.verified = "VERIFIED"
verification_value ArtifactVerificationStatus.digest_mismatch = "DIGEST_MISMATCH"
verification_value ArtifactVerificationStatus.signature_invalid = "SIGNATURE_INVALID"
verification_value ArtifactVerificationStatus.unknown_key = "UNKNOWN_KEY"
verification_value ArtifactVerificationStatus.key_not_trusted_for_purpose =
    "KEY_NOT_TRUSTED_FOR_PURPOSE"
verification_value ArtifactVerificationStatus.artifact_kind_mismatch = "ARTIFACT_KIND_MISMATCH"
verification_value ArtifactVerificationStatus.purpose_mismatch = "PURPOSE_MISMATCH"
verification_value ArtifactVerificationStatus.scheme_unsupported = "SCHEME_UNSUPPORTED"

pub record SigningKeyId : Type 0 where
  pub identifier : String

pub record Ed25519PublicKey : Type 0 where
  pub value : List ℕ

pub record ArtifactSignature : Type 0 where
  pub value : List ℕ

instance unfoldable pub signing_key_id_eq : Eq SigningKeyId
unfolding string_discrete
signing_key_id_eq = record { dec = hlevel string_discrete }

instance unfoldable pub artifact_signature_eq : Eq ArtifactSignature
unfolding nat_eq
artifact_signature_eq = record { dec = hlevel nat_eq.dec }

unfoldable pub signing_key_id_post_init : SigningKeyId → Result SigningKeyId
unfolding non_blank
signing_key_id_post_init k = do non_blank k.identifier "signing key identifier"; ok k

unfoldable pub ed25519_public_key_post_init : Ed25519PublicKey → Result Ed25519PublicKey
ed25519_public_key_post_init k = do
  raise_if (length k.value != 32) (value_error "Ed25519 public key must contain exactly 32 bytes")
  ok k

unfoldable pub artifact_signature_post_init : ArtifactSignature → Result ArtifactSignature
artifact_signature_post_init s = do
  raise_if (length s.value != 64) (value_error "Ed25519 signature must contain exactly 64 bytes")
  ok s

unfoldable pub canonical_artifact_purposes : List ArtifactPurpose → Result (List ArtifactPurpose)
unfolding text_lt
canonical_artifact_purposes purposes = do
  raise_if (length purposes == 0) (value_error "trusted keys must allow at least one purpose")
  raise_if (repeats [] purposes) (value_error "allowed_purposes must not contain duplicates")
  ok (sort_by (λ a b. text_lt (purpose_value a) (purpose_value b)) purposes)

pub record TrustedKey : Type 0 where
  pub key_id : SigningKeyId
  pub public_key : Ed25519PublicKey
  pub allowed_purposes : List ArtifactPurpose

unfoldable pub trusted_key_post_init : TrustedKey → Result TrustedKey
unfolding canonical_artifact_purposes
trusted_key_post_init k = do
  purposes ← canonical_artifact_purposes k.allowed_purposes
  ok (record k { allowed_purposes = purposes })

pub record TrustStore : Type 0 where
  pub trusted_keys : List TrustedKey

unfoldable pub trust_store_post_init : TrustStore → Result TrustStore
unfolding text_lt
trust_store_post_init s = do
  raise_if (repeats [] (map (λ k. k.key_id.identifier) s.trusted_keys))
      (value_error "trusted_keys must not contain duplicate key identifiers")
  ok (record {
    trusted_keys = sort_by (λ a b. text_lt a.key_id.identifier b.key_id.identifier) s.trusted_keys;
  })

pub record ArtifactAttestation : Type 0 where
  pub scheme : SignatureScheme
  pub key_id : SigningKeyId
  pub purpose : ArtifactPurpose
  pub artifact_kind : ArtifactKind
  pub artifact_digest : Sha256Digest
  pub signature : ArtifactSignature

instance unfoldable pub artifact_attestation_eq : Eq ArtifactAttestation
unfolding signature_scheme_eq signing_key_id_eq artifact_purpose_eq artifact_kind_eq
    sha256_digest_eq artifact_signature_eq
artifact_attestation_eq = record {
  dec = hlevel (
    signature_scheme_eq.dec, signing_key_id_eq.dec, artifact_purpose_eq.dec, artifact_kind_eq.dec,
    sha256_digest_eq.dec, artifact_signature_eq.dec,
  );
}

pub record ArtifactVerificationResult : Type 0 where
  pub status : ArtifactVerificationStatus
  pub artifact_digest : Sha256Digest
  pub attestation : ArtifactAttestation
  pub expected_purpose : ArtifactPurpose
  pub expected_artifact_kind : ArtifactKind

-- The tests on the status.
unfoldable pub check_verification :
    ArtifactVerificationStatus → ArtifactVerificationResult → Result (Unit {0})
check_verification ArtifactVerificationStatus.verified r = do
  raise_if (r.artifact_digest != r.attestation.artifact_digest)
      (value_error "VERIFIED evidence requires the exact digest")
  raise_if (r.expected_purpose != r.attestation.purpose)
      (value_error "VERIFIED evidence requires the exact purpose")
  raise_if (r.expected_artifact_kind != r.attestation.artifact_kind)
      (value_error "VERIFIED evidence requires the exact kind")
  raise_if (r.attestation.scheme != SignatureScheme.ed25519)
      (value_error "VERIFIED evidence requires Ed25519")
check_verification ArtifactVerificationStatus.digest_mismatch r =
    raise_if (r.artifact_digest == r.attestation.artifact_digest)
      (value_error "DIGEST_MISMATCH requires different digests")
check_verification ArtifactVerificationStatus.purpose_mismatch r =
    raise_if (r.expected_purpose == r.attestation.purpose)
      (value_error "PURPOSE_MISMATCH requires different purposes")
check_verification ArtifactVerificationStatus.artifact_kind_mismatch r =
    raise_if (r.expected_artifact_kind == r.attestation.artifact_kind)
      (value_error "ARTIFACT_KIND_MISMATCH requires different kinds")
check_verification _ r = ok tt

unfoldable pub artifact_verification_result_from_verification :
    ArtifactVerificationResult → Result ArtifactVerificationResult
unfolding check_verification
artifact_verification_result_from_verification r = do check_verification r.status r; ok r

pub record TrustedPolicyBundle : Type 0 where
  pub bundle : PolicyBundle
  pub attestation : ArtifactAttestation
  pub verification : ArtifactVerificationResult

unfoldable pub trusted_policy_bundle_from_verification :
    TrustedPolicyBundle → Result TrustedPolicyBundle
trusted_policy_bundle_from_verification t = do
  raise_if (t.verification.status != ArtifactVerificationStatus.verified)
      (value_error "trusted policy requires VERIFIED evidence")
  raise_if (t.verification.attestation != t.attestation)
      (value_error "trusted policy must contain the exact verified attestation")
  raise_if (t.verification.expected_purpose != ArtifactPurpose.policy_bundle)
      (value_error "trusted policy requires POLICY_BUNDLE purpose")
  raise_if (t.verification.expected_artifact_kind != ArtifactKind.policy_bundle)
      (value_error "trusted policy requires POLICY_BUNDLE kind")
  ok t
