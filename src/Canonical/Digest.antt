-- ===== src/Canonical/Digest.antt =====
-- `canonical_bytes` and `sha256_digest` of canonical.py, at each type that has an encoder. SHA-256 is a
-- parameter.
use nest_authz.Prelude.{◌++◌, [], ◌∷◌, Result, ok, ◌>>=◌}
use nest_authz.Domain.Value.{Sha256Digest}
use nest_authz.Domain.Hex.{sha256_digest_post_init}
use nest_authz.Canonical.Bytes.{Bytes, utf8}

-- `_PREAMBLE`
unfoldable pub preamble : Bytes
preamble = utf8 "NEST-AUTHZ-CANONICAL" ++ (0 ∷ 1 ∷ [])

unfoldable pub canonical_bytes {ℓ} : {A : Type ℓ} → (A → Result Bytes) → A → Result Bytes
canonical_bytes encode value = do bytes ← encode value; ok (preamble ++ bytes)

module _ (sha256 : Bytes → Bytes) where
  unfoldable pub sha256_digest {ℓ} : {A : Type ℓ} → (A → Result Bytes) → A → Result Sha256Digest
  sha256_digest encode value = do
    bytes ← canonical_bytes encode value
    sha256_digest_post_init (record { value = sha256 bytes })
