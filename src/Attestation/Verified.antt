-- ===== src/Attestation/Verified.antt =====
-- When an attestation is VERIFIED.
use nest_authz.Prelude.{
  true, ◌≡◌, refl, sym, ap, ◌∙◌, subst, ◌↔◌, arith, Option, none, some, contains, ◌!=◌, ok,
  bind_returns, raise_if-passed, then_returns, ok-injective, eq_of_not_ne, List, [], ◌∷◌, ◌==◌, ◌≢◌,
  ◌⊎◌, inl, inr, Bool-cases, eq_of_test, ne_of_test,
}
use nest_authz.Domain.Value.{Sha256Digest, sha256_digest_eq}
use nest_authz.Domain.Attestation.{
  SignatureScheme, signature_scheme_eq, ArtifactPurpose, artifact_purpose_eq, ArtifactKind,
  artifact_kind_eq, ArtifactVerificationStatus, SigningKeyId, signing_key_id_eq, TrustedKey,
  TrustStore, ArtifactAttestation, ArtifactSignature, ArtifactVerificationResult,
  check_verification, artifact_verification_result_from_verification, artifact_signature_post_init,
}
use nest_authz.Canonical.Bytes.{Bytes}
use nest_authz.Attestation.{
  Artifact, Ed25519, attestation_signing_message, artifact_kind_and_purpose, artifact_digest_of,
  trusted_key_in, trusted_key, key_status, verification_status, verify_artifact, sign_artifact,
}

-- The key is the first of the list with that identifier.
abbrev pub HasKey : List TrustedKey → SigningKeyId → TrustedKey → Type 0
HasKey [] key_id key = ⊥
HasKey (k ∷ ks) key_id key =
    (k.key_id ≡ key_id) × (k ≡ key) ⊎ (k.key_id ≢ key_id) × HasKey ks key_id key

-- The search finds a key exactly if it is the first with the identifier.
trusted_key_in_iff :
    (keys : List TrustedKey) (key_id : SigningKeyId) (key : TrustedKey)
    → (trusted_key_in keys key_id ≡ some key) ↔ HasKey keys key_id key
unfolding trusted_key_in
trusted_key_in_iff [] key_id key = (λ h. cc, λ h. elim h [ ])
trusted_key_in_iff (k ∷ ks) key_id key =
    let ih = trusted_key_in_iff ks key_id key in
    elim (Bool-cases (k.key_id == key_id)) [
      | inl e ↦
          let same = eq_of_test k.key_id key_id e in
          (
            λ h. inl (same, ground arith),
            λ h. elim h [ inl x ↦ rw e (ap some x.1) | inr x ↦ absurd (x.0 same) ],
          )
      | inr e ↦
          let differ = ne_of_test k.key_id key_id e in
          (
            λ h. inr (differ, ih.0 (rw e at h)),
            λ h. elim h [ inl x ↦ absurd (differ x.0) | inr x ↦ rw e (ih.1 x.1) ],
          )
    ]

module _ (E : Ed25519) (sha256 : Bytes → Bytes) (artifact : Artifact) (a : ArtifactAttestation)
    (store : TrustStore) (purpose : ArtifactPurpose) where
  -- The signature is of the message for the artifact's own kind, purpose and digest, by the key of the store
  -- that has the attestation's key identifier, which is trusted for the purpose.
  pub record IsVerified : Type 0 where
    pub required : purpose ≡ (artifact_kind_and_purpose artifact).1
    pub same_kind : a.artifact_kind ≡ (artifact_kind_and_purpose artifact).0
    pub same_purpose : a.purpose ≡ purpose
    pub same_digest : artifact_digest_of sha256 artifact ≡ ok a.artifact_digest
    pub key : TrustedKey
    pub trusted : HasKey store.trusted_keys a.key_id key
    pub message : Bytes
    pub signing :
        attestation_signing_message a.scheme a.purpose a.artifact_kind a.artifact_digest
        ≡ ok message
    pub signed : E.verify key.public_key.value a.signature.value message ≡ true
    pub allowed : contains purpose key.allowed_purposes ≡ true

  abbrev pub verified_result : ArtifactVerificationResult
  verified_result = record {
    status = ArtifactVerificationStatus.verified;
    artifact_digest = a.artifact_digest;
    attestation = a;
    expected_purpose = purpose;
    expected_artifact_kind = (artifact_kind_and_purpose artifact).0;
  }

  only_scheme : (s : SignatureScheme) → s ≡ SignatureScheme.ed25519
  only_scheme SignatureScheme.ed25519 = refl

  IsVerified-verify_artifact :
      IsVerified → verify_artifact E sha256 artifact a store purpose ≡ ok verified_result
  unfolding verify_artifact verification_status key_status
      artifact_verification_result_from_verification check_verification
  IsVerified-verify_artifact v = ground (
    arith,
    v.required,
    v.same_kind,
    v.same_purpose,
    v.same_digest,
    (trusted_key_in_iff store.trusted_keys a.key_id v.key).1 v.trusted,
    v.signing,
    v.signed,
    v.allowed,
    only_scheme a.scheme,
  )

  key_status-verified :
      (o : Option TrustedKey)
      → key_status E sha256 a purpose o ≡ ok ArtifactVerificationStatus.verified
      → (k : TrustedKey) × (m : Bytes) × (o ≡ some k)
        × (attestation_signing_message a.scheme a.purpose a.artifact_kind a.artifact_digest ≡ ok m)
        × (E.verify k.public_key.value a.signature.value m ≡ true)
        × (contains purpose k.allowed_purposes ≡ true)
  unfolding key_status
  key_status-verified none h = absurd (ground (arith, h))
  key_status-verified (some k) h =
      let (m, signing, h1) =
        bind_returns
          (attestation_signing_message a.scheme a.purpose a.artifact_kind a.artifact_digest) _ h in
      (k, m, refl, signing, ground (arith, h1), ground (arith, h1))

  verification_status-verified :
      (kind : ArtifactKind) (d : Sha256Digest)
      → verification_status E sha256 a store purpose kind d ≡ ok ArtifactVerificationStatus.verified
      → (a.artifact_kind ≡ kind)
        × (a.purpose ≡ purpose)
        × (a.artifact_digest ≡ d)
        × (key_status E sha256 a purpose (trusted_key store a.key_id)
            ≡ ok ArtifactVerificationStatus.verified)
  unfolding verification_status
  verification_status-verified kind d h = ground (arith, h)

  verify_artifact-IsVerified :
      (r : ArtifactVerificationResult)
      → verify_artifact E sha256 artifact a store purpose ≡ ok r
      → r.status ≡ ArtifactVerificationStatus.verified
      → IsVerified
  unfolding verify_artifact artifact_verification_result_from_verification
  verify_artifact-IsVerified r h is =
      let kind = (artifact_kind_and_purpose artifact).0 in
      let (required, h1) =
        raise_if-passed (purpose != (artifact_kind_and_purpose artifact).1) _ _ h in
      let (d, digest, h2) = bind_returns (artifact_digest_of sha256 artifact) _ h1 in
      let (s, status, h3) =
        bind_returns (verification_status E sha256 a store purpose kind d) _ h2 in
      let (_, h4) = then_returns (check_verification s _) _ h3 in
      let (kinds, purposes, digests, keyed) =
        verification_status-verified kind d
          (status ∙ ap ok (ap (λ x. x.status) (ok-injective h4) ∙ is)) in
      let (k, m, found, signing, signed, allowed) =
        key_status-verified (trusted_key store a.key_id) keyed in
      record {
        required = eq_of_not_ne purpose _ required;
        same_kind = kinds;
        same_purpose = purposes;
        same_digest = digest ∙ ap ok (sym digests);
        key = k;
        trusted = (trusted_key_in_iff store.trusted_keys a.key_id k).0 found;
        message = m;
        signing = signing;
        signed = signed;
        allowed = allowed;
      }

  -- `verify_artifact` returns VERIFIED evidence exactly if the purpose is the artifact's, the attestation
  -- names the artifact's kind, purpose and digest, and the first key of the store that has the
  -- attestation's key identifier is trusted for the purpose and verifies the signature of the message.
  pub verify_artifact-verified_iff :
      ((r : ArtifactVerificationResult) × (verify_artifact E sha256 artifact a store purpose ≡ ok r)
        × (r.status ≡ ArtifactVerificationStatus.verified))
      ↔ IsVerified
  verify_artifact-verified_iff = (
    λ x. verify_artifact-IsVerified x.0 x.1 x.2,
    λ v. (verified_result, IsVerified-verify_artifact v, refl),
  )

module _ (E : Ed25519) (sha256 : Bytes → Bytes) (artifact : Artifact) (private_key : E.PrivateKey)
    (key_id : SigningKeyId) (purpose : ArtifactPurpose) (store : TrustStore)
    (key : TrustedKey) where
  -- What `sign_artifact` signs, a store whose key verifies the private key's signatures and is trusted for
  -- the purpose verifies.
  pub sign_artifact-verify_artifact :
      (a : ArtifactAttestation)
      → sign_artifact E sha256 artifact private_key key_id purpose ≡ ok a
      → trusted_key store key_id ≡ some key
      → ((m : Bytes) → E.verify key.public_key.value (E.sign private_key m) m ≡ true)
      → contains purpose key.allowed_purposes ≡ true
      → verify_artifact E sha256 artifact a store purpose
        ≡ ok (verified_result E sha256 artifact a store purpose)
  unfolding sign_artifact artifact_signature_post_init
  sign_artifact-verify_artifact a h found verifies allowed =
      let kind = (artifact_kind_and_purpose artifact).0 in
      let (required, h1) =
        raise_if-passed (purpose != (artifact_kind_and_purpose artifact).1) _ _ h in
      let (d, digest, h2) = bind_returns (artifact_digest_of sha256 artifact) _ h1 in
      let (m, message, h3) =
        bind_returns (attestation_signing_message SignatureScheme.ed25519 purpose kind d) _ h2 in
      let (s, signature, h4) =
        bind_returns (artifact_signature_post_init (record { value = E.sign private_key m })) _
          h3 in
      let (_, h5) = raise_if-passed _ _ _ signature in
      let made = ok-injective h4 in
      let value : ArtifactSignature.value s ≡ E.sign private_key m =
        ap (λ x. x.value) (sym (ok-injective h5)) in
      IsVerified-verify_artifact E sha256 artifact a store purpose (
        subst (λ x. IsVerified E sha256 artifact x store purpose) made
          (record {
            required = eq_of_not_ne purpose _ required;
            same_kind = refl;
            same_purpose = refl;
            same_digest = digest;
            key = key;
            trusted = (trusted_key_in_iff store.trusted_keys key_id key).0 found;
            message = m;
            signing = message;
            signed = ap (λ x. E.verify key.public_key.value x m) value ∙ verifies m;
            allowed = allowed;
          }))
