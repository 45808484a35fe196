-- ===== src/Canonical/Bounds.antt =====
-- The bounds of frames, and the keys that a map may have.
use nest_authz.Prelude.{
  String, true, false, ◌≡◌, refl, inl, inr, arith, List, [], ◌∷◌, contains, Result-cases, Error, ok,
  err, bind_returns, raise_if-passed, string_eq, nat_eq,
}
use nest_authz.Domain.Value.{repeats}
use nest_authz.Canonical.Bytes.{Bytes}
use nest_authz.Canonical.Encode.{encode_string, canonical_entries, encode_map, Entry}
use nest_authz.Canonical.Maps.{Encoded}
use nest_authz.Canonical.Records.{names}

entries-distinct :
    (seen : List String) (fs : Encoded) (es : List Entry)
    → canonical_entries seen fs ≡ ok es
    → repeats seen (names fs) ≡ false
unfolding canonical_entries repeats
entries-distinct seen [] es h = refl
entries-distinct seen ((k, m) ∷ fs) es h =
    let (v, value, h1) = bind_returns m _ h in
    let (fresh, h2) = raise_if-passed (contains k seen) _ _ h1 in
    let (c, key, h3) = bind_returns (encode_string k) _ h2 in
    let (rest, others, h4) = bind_returns (canonical_entries (k ∷ seen) fs) _ h3 in
    ground (arith, fresh, entries-distinct (k ∷ seen) fs rest others)

-- A map with a key twice is not encoded: the encoder raises.
pub encode_map_rejects_repeats :
    (fs : Encoded) → repeats [] (names fs) ≡ true → (e : Error) × (encode_map fs ≡ err e)
unfolding encode_map
encode_map_rejects_repeats fs h = elim (Result-cases (encode_map fs)) [
  | inl raised ↦ raised
  | inr (b, returns) ↦
      let (es, entries, _) = bind_returns (canonical_entries [] fs) _ returns in
      absurd (ground (arith, h, entries-distinct [] fs es entries))
]
