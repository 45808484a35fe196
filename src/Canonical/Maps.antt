-- ===== src/Canonical/Maps.antt =====
-- Maps are encoded in the order of their keys, and are read back up to that order.
use nest_authz.Prelude.{
  String, Bool, ◌≡◌, refl, sym, ◌∙◌, subst, inl, inr, arith, List, [], ◌∷◌, ok, Result, contains,
  string_eq, bind_returns, raise_if-passed, ok-injective, All, Bool-cases, insert_by, sort_by,
  All-sort_by,
}
use nest_authz.Canonical.Bytes.{Bytes, utf8}
use nest_authz.Canonical.Encode.{encode_string, tag, Entry, bytes_lt, canonical_entries, encode_map}
use nest_authz.Canonical.Frames.{IsFrame, frame-IsFrame, same_frame}
use nest_authz.Canonical.Join.{IsEntry, join_entries-injective}

abbrev pub Encoded : Type 0
Encoded = List (String × Result Bytes)

abbrev pub entry_lt : Entry → Entry → Bool
entry_lt a b = bytes_lt a.key_bytes b.key_bytes

abbrev pub key_lt : {A : Type 0} → String × A → String × A → Bool
key_lt a b = bytes_lt (utf8 a.0) (utf8 b.0)

-- The entry of an encoded field.
pub record EncodesField (field : String × Result Bytes) (e : Entry) : Type 0 where
  pub key_bytes : e.key_bytes ≡ utf8 field.0
  pub key : encode_string field.0 ≡ ok e.encoded_key
  pub value : field.1 ≡ ok e.encoded_value

abbrev pub Encodes : Encoded → List Entry → Type 0
Encodes [] [] = Unit
Encodes [] (e ∷ es) = ⊥
Encodes (f ∷ fs) [] = ⊥
Encodes (f ∷ fs) (e ∷ es) = EncodesField f e × Encodes fs es

pub canonical_entries-Encodes :
    (seen : List String) (fs : Encoded) (es : List Entry)
    → canonical_entries seen fs ≡ ok es
    → Encodes fs es
unfolding canonical_entries
canonical_entries-Encodes seen [] [] h = tt
canonical_entries-Encodes seen [] (e ∷ es) h = cc
canonical_entries-Encodes seen ((k, m) ∷ fs) es h =
    let (v, value, h1) = bind_returns m _ h in
    let (fresh, h2) = raise_if-passed (contains k seen) _ _ h1 in
    let (c, key, h3) = bind_returns (encode_string k) _ h2 in
    let (rest, others, h4) = bind_returns (canonical_entries (k ∷ seen) fs) _ h3 in
    subst (Encodes ((k, m) ∷ fs)) (ok-injective h4) (
      record { key_bytes = refl; key = key; value = value },
      canonical_entries-Encodes (k ∷ seen) fs rest others,
    )

Encodes-insert_by :
    (f : String × Result Bytes) (e : Entry) (fs : Encoded) (es : List Entry)
    → EncodesField f e
    → Encodes fs es
    → Encodes (insert_by key_lt f fs) (insert_by entry_lt e es)
Encodes-insert_by f e [] [] h k = (h, tt)
Encodes-insert_by f e [] (d ∷ ds) h k = absurd k
Encodes-insert_by f e (g ∷ gs) [] h k = absurd k
Encodes-insert_by f e (g ∷ gs) (d ∷ ds) h k =
    let same : entry_lt d e ≡ key_lt g f = ground (arith, k.0.key_bytes, h.key_bytes) in
    elim (Bool-cases (key_lt g f)) [
      | inl lt ↦ rw (lt, same ∙ lt) (k.0, Encodes-insert_by f e gs ds h k.1)
      | inr ge ↦ rw (ge, same ∙ ge) (h, k)
    ]

pub Encodes-sort_by :
    (fs : Encoded) (es : List Entry)
    → Encodes fs es
    → Encodes (sort_by key_lt fs) (sort_by entry_lt es)
unfolding sort_by
Encodes-sort_by [] [] h = tt
Encodes-sort_by [] (e ∷ es) h = absurd h
Encodes-sort_by (f ∷ fs) [] h = absurd h
Encodes-sort_by (f ∷ fs) (e ∷ es) h = Encodes-insert_by f e _ _ h.0 (Encodes-sort_by fs es h.1)

abbrev pub FramedFields : Encoded → Type 0
FramedFields fs = All (λ f. (b : Bytes) → f.1 ≡ ok b → IsFrame b) fs

entries-IsEntry :
    (fs : Encoded) (es : List Entry) → FramedFields fs → Encodes fs es → All IsEntry es
unfolding encode_string
entries-IsEntry [] [] v h = tt
entries-IsEntry [] (e ∷ es) v h = absurd h
entries-IsEntry (f ∷ fs) [] v h = absurd h
entries-IsEntry (f ∷ fs) (e ∷ es) v h =
    let (key, _, payload) = frame-IsFrame (tag 83) (utf8 f.0) e.encoded_key h.0.key in
    (
      record {
        key = key;
        key_payload = payload ∙ sym h.0.key_bytes;
        value = v.0 e.encoded_value h.0.value;
      },
      entries-IsEntry fs es v.1 h.1,
    )

-- Two maps with the same encoding have the same sorted entries.
pub record SameEntries (fs gs : Encoded) : Type 0 where
  pub left : List Entry
  pub right : List Entry
  pub encodes_left : Encodes fs left
  pub encodes_right : Encodes gs right
  pub sorted : sort_by entry_lt left ≡ sort_by entry_lt right

pub encode_map-SameEntries :
    (fs gs : Encoded) (b : Bytes)
    → FramedFields fs
    → FramedFields gs
    → encode_map fs ≡ ok b
    → encode_map gs ≡ ok b
    → SameEntries fs gs
unfolding encode_map
encode_map-SameEntries fs gs b v w h k =
    let (es, entries, h1) = bind_returns (canonical_entries [] fs) _ h in
    let (ds, more, k1) = bind_returns (canonical_entries [] gs) _ k in
    let encodes = canonical_entries-Encodes [] fs es entries in
    let encodes' = canonical_entries-Encodes [] gs ds more in
    let (_, payload) = same_frame (tag 77) (tag 77) _ _ b h1 k1 in
    record {
      left = es;
      right = ds;
      encodes_left = encodes;
      encodes_right = encodes';
      sorted =
          join_entries-injective _ _
            (All-sort_by IsEntry entry_lt es (entries-IsEntry fs es v encodes))
            (All-sort_by IsEntry entry_lt ds (entries-IsEntry gs ds w encodes')) payload;
    }
