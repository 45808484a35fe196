-- ===== src/Canonical/Binding.antt =====
-- What a digest binds: values with one digest are equal, or they show a collision of SHA-256.
use mathlib.Core.Logic.{◌≢◌}
use nest_authz.Prelude.{
  ◌≡◌, ◌⊎◌, inl, inr, refl, sym, ap, ◌∙◌, Result, ok, bind_returns, ok-injective, list_eq, nat_eq,
  Bool-cases, ◌==◌, eq_of_test, ne_of_test, length, ◌!=◌, raise_if-passed,
}
use nest_authz.Domain.Value.{Sha256Digest}
use nest_authz.Domain.Hex.{sha256_digest_post_init}
use nest_authz.Domain.Authority.{DelegationChain}
use nest_authz.Domain.Policy.{PolicyBundle}
use nest_authz.Domain.Request.{AuthorizationRequest}
use nest_authz.Domain.Execution.{ExecutionPermit}
use nest_authz.Digests.{Digests}
use nest_authz.ExecutionStore.{execution_id_for}
use nest_authz.Canonical.Bytes.{Bytes, append-injective}
use nest_authz.Canonical.Digest.{preamble, canonical_bytes, sha256_digest}
use nest_authz.Canonical.Join.{IsEncoder}
use nest_authz.Canonical.Schema.Authority.{encode_delegation_chain}
use nest_authz.Canonical.Schema.Policy.{encode_policy_bundle}
use nest_authz.Canonical.Schema.Request.{encode_authorization_request}
use nest_authz.Canonical.Schema.Execution.{encode_execution_permit}
use nest_authz.Canonical.ReadBack.Authority.{IsCanonicalDelegationChain, delegation_chain-IsEncoder}
use nest_authz.Canonical.ReadBack.Policy.{IsCanonicalPolicyBundle, policy_bundle-IsEncoder}
use nest_authz.Canonical.ReadBack.Request.{
  IsCanonicalAuthorizationRequest, authorization_request-IsEncoder,
}
use nest_authz.Canonical.ReadBack.Execution.{IsCanonicalExecutionPermit, execution_permit-IsEncoder}

module _ {A : Type 0} (Valid : A → Type 0) (encode : A → Result Bytes)
    (e : IsEncoder Valid encode) where
  canonical_bytes-injective :
      (a a' : A) (b : Bytes)
      → Valid a
      → Valid a'
      → canonical_bytes encode a ≡ ok b
      → canonical_bytes encode a' ≡ ok b
      → a ≡ a'
  unfolding canonical_bytes
  canonical_bytes-injective a a' b v w h k =
      let (c, one, h1) = bind_returns (encode a) _ h in
      let (d, two, k1) = bind_returns (encode a') _ k in
      let (_, same) = append-injective preamble preamble c d refl (ok-injective (h1 ∙ sym k1)) in
      e.injects a a' d v w (one ∙ ap ok same) two

-- Two byte strings with one hash.
pub record Collision (sha256 : Bytes → Bytes) : Type 0 where
  pub left : Bytes
  pub right : Bytes
  pub differ : left ≢ right
  pub same_hash : sha256 left ≡ sha256 right

module _ (sha256 : Bytes → Bytes) where
  digest_hash :
      {A : Type 0} (encode : A → Result Bytes) (a : A) (d : Sha256Digest)
      → sha256_digest sha256 encode a ≡ ok d
      → (b : Bytes) × (canonical_bytes encode a ≡ ok b) × (sha256 b ≡ d.value)
  unfolding sha256_digest sha256_digest_post_init
  digest_hash encode a d h =
      let (b, bytes, h1) = bind_returns (canonical_bytes encode a) _ h in
      let (_, h2) = raise_if-passed (length (sha256 b) != 32) _ _ h1 in
      (b, bytes, ap (λ x. x.value) (ok-injective h2))

  digest_binds :
      {A : Type 0} (Valid : A → Type 0) (encode : A → Result Bytes) (e : IsEncoder Valid encode)
      (a a' : A) (d : Sha256Digest)
      → Valid a
      → Valid a'
      → sha256_digest sha256 encode a ≡ ok d
      → sha256_digest sha256 encode a' ≡ ok d
      → (a ≡ a') ⊎ Collision sha256
  digest_binds Valid encode e a a' d v w h k =
      let (b, bytes, hash) = digest_hash encode a d h in
      let (c, others, hash') = digest_hash encode a' d k in
      elim (Bool-cases (b == c)) [
        | inl same ↦
            let one = eq_of_test b c same in
            inl (canonical_bytes-injective Valid encode e a a' c v w (bytes ∙ ap ok one) others)
        | inr other ↦ inr (record {
          left = b;
          right = c;
          differ = ne_of_test b c other;
          same_hash = hash ∙ sym hash';
        })
      ]

  -- Two canonical delegation chains (the upper bounds of every grant are sorted by the UTF-8 bytes of
  -- their names) with one digest are equal, or there is a collision of SHA-256.
  pub chain_digest_binds :
      (chain chain' : DelegationChain) (d : Sha256Digest)
      → IsCanonicalDelegationChain chain
      → IsCanonicalDelegationChain chain'
      → sha256_digest sha256 encode_delegation_chain chain ≡ ok d
      → sha256_digest sha256 encode_delegation_chain chain' ≡ ok d
      → (chain ≡ chain') ⊎ Collision sha256
  chain_digest_binds =
      digest_binds IsCanonicalDelegationChain encode_delegation_chain delegation_chain-IsEncoder

  -- Two canonical requests with one digest are equal, or there is a collision of SHA-256.
  pub request_digest_binds :
      (request request' : AuthorizationRequest) (d : Sha256Digest)
      → IsCanonicalAuthorizationRequest request
      → IsCanonicalAuthorizationRequest request'
      → sha256_digest sha256 encode_authorization_request request ≡ ok d
      → sha256_digest sha256 encode_authorization_request request' ≡ ok d
      → (request ≡ request') ⊎ Collision sha256
  request_digest_binds =
      digest_binds IsCanonicalAuthorizationRequest encode_authorization_request
        authorization_request-IsEncoder

  -- Two canonical policy bundles with one digest are equal, or there is a collision of SHA-256.
  pub bundle_digest_binds :
      (bundle bundle' : PolicyBundle) (d : Sha256Digest)
      → IsCanonicalPolicyBundle bundle
      → IsCanonicalPolicyBundle bundle'
      → sha256_digest sha256 encode_policy_bundle bundle ≡ ok d
      → sha256_digest sha256 encode_policy_bundle bundle' ≡ ok d
      → (bundle ≡ bundle') ⊎ Collision sha256
  bundle_digest_binds =
      digest_binds IsCanonicalPolicyBundle encode_policy_bundle policy_bundle-IsEncoder

  -- Where the permit digests are SHA-256 digests of the permits' canonical bytes, two canonical
  -- permits with one execution identity are equal, or there is a collision of SHA-256.
  pub execution_id_binds :
      (digests : Digests) (permit permit' : ExecutionPermit)
      → IsCanonicalExecutionPermit permit
      → IsCanonicalExecutionPermit permit'
      → sha256_digest sha256 encode_execution_permit permit ≡ ok (digests.permit_digest permit)
      → sha256_digest sha256 encode_execution_permit permit' ≡ ok (digests.permit_digest permit')
      → execution_id_for digests permit ≡ execution_id_for digests permit'
      → (permit ≡ permit') ⊎ Collision sha256
  unfolding execution_id_for
  execution_id_binds digests permit permit' v w h k same =
      digest_binds IsCanonicalExecutionPermit encode_execution_permit execution_permit-IsEncoder
        permit permit' (digests.permit_digest permit') v w (h ∙ ap (λ x. ok x.permit_digest) same) k
