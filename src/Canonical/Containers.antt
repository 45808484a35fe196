-- ===== src/Canonical/Containers.antt =====
-- The encoders of options, sequences and maps can be read back.
use nest_authz.Prelude.{
  String, ◌≡◌, refl, sym, ap, ◌∙◌, subst, inl, inr, Option, none, some, List, [], ◌∷◌, ok, Result,
  bind_returns, All, Bool-cases, insert_by, sort_by,
}
use nest_authz.Canonical.Bytes.{Bytes, utf8, utf8-injective}
use nest_authz.Canonical.Encode.{
  tag, bytes_lt, encode_null, encode_optional, join_all, encode_sequence, encode_string,
  encode_integer, encode_scalar, encode_string_sequence, encode_integer_map, encode_scalar_map,
  canonical_entries, entries_of, encode_map, encode_record, Entry,
}
use nest_authz.Canonical.Frames.{IsFrame, frame-IsFrame, same_frame}
use nest_authz.Canonical.Join.{IsEncoder, same_values, join_all-injective}
use nest_authz.Canonical.Maps.{
  key_lt, entry_lt, Encodes, Encodes-sort_by, FramedFields, encode_map-SameEntries,
}
use nest_authz.Canonical.Records.{record-IsEncoder}
use nest_authz.Canonical.Primitives.{
  string-IsPresent, integer-IsPresent, Any, IsPresent, string-IsEncoder, integer-IsEncoder,
  scalar-IsEncoder,
}

-- A statement of the value, if there is one.
abbrev pub Every : {A : Type 0} → (A → Type 0) → Option A → Type 0
Every P none = Unit
Every P (some a) = P a

module _ {A : Type 0} (Valid : A → Type 0) where
  -- The entries of a map in the order of the UTF-8 bytes of the keys, with valid values.
  pub record IsSortedMap (xs : List (String × A)) : Type 0 where
    pub is_sorted : sort_by key_lt xs ≡ xs
    pub values : All (λ x. Valid x.1) xs

module _ {A : Type 0} (Valid : A → Type 0) (encode : A → Result Bytes)
    (e : IsEncoder Valid encode) where
  pub sequence-IsEncoder : IsEncoder (All Valid) (encode_sequence encode)
  unfolding encode_sequence
  sequence-IsEncoder = record {
    frames = λ a b h.
        let (p, _, h1) = bind_returns (join_all encode a) _ h in (frame-IsFrame (tag 76) p b h1).0;
    injects = λ a a' b v w h k.
        let (p, joins, h1) = bind_returns (join_all encode a) _ h in
        let (q, joins', k1) = bind_returns (join_all encode a') _ k in
        join_all-injective Valid encode e a a' q v w
          (joins ∙ ap ok (same_frame (tag 76) (tag 76) p q b h1 k1).1) joins';
  }

  optional_frames : (a : Option A) (b : Bytes) → encode_optional encode a ≡ ok b → IsFrame b
  unfolding encode_optional encode_null
  optional_frames none b h = (frame-IsFrame (tag 78) [] b h).0
  optional_frames (some a) b h = e.frames a b h

  optional_same :
      IsPresent encode
      → (a a' : Option A) (b : Bytes) → Every Valid a
      → Every Valid a'
      → encode_optional encode a ≡ ok b
      → encode_optional encode a' ≡ ok b
      → a ≡ a'
  unfolding encode_optional
  optional_same present none none b v w h k = refl
  optional_same present none (some a') b v w h k = absurd (present a' b k h)
  optional_same present (some a) none b v w h k = absurd (present a b h k)
  optional_same present (some a) (some a') b v w h k = ap some (e.injects a a' b v w h k)

  pub optional-IsEncoder : IsPresent encode → IsEncoder (Every Valid) (encode_optional encode)
  optional-IsEncoder present = record { frames = optional_frames; injects = optional_same present }

  insert_by-entries_of :
      (x : String × A) (xs : List (String × A))
      → insert_by key_lt (x.0, encode x.1) (entries_of encode xs)
        ≡ entries_of encode (insert_by key_lt x xs)
  insert_by-entries_of x [] = refl
  insert_by-entries_of x (y ∷ ys) = elim (Bool-cases (bytes_lt (utf8 y.0) (utf8 x.0))) [
    | inl lt ↦ rw lt (λ i. (y.0, encode y.1) ∷ insert_by-entries_of x ys i)
    | inr ge ↦ rw ge refl
  ]

  sort_by-entries_of :
      (xs : List (String × A))
      → sort_by key_lt (entries_of encode xs) ≡ entries_of encode (sort_by key_lt xs)
  unfolding sort_by
  sort_by-entries_of [] = refl
  sort_by-entries_of (x ∷ xs) =
      ap (insert_by key_lt (x.0, encode x.1)) (sort_by-entries_of xs)
      ∙ insert_by-entries_of x (sort_by key_lt xs)

  entries_of-FramedFields : (xs : List (String × A)) → FramedFields (entries_of encode xs)
  entries_of-FramedFields [] = tt
  entries_of-FramedFields (x ∷ xs) = (e.frames x.1, entries_of-FramedFields xs)

  entries_of-injective :
      (xs ys : List (String × A)) (es : List Entry)
      → All (λ x. Valid x.1) xs
      → All (λ y. Valid y.1) ys
      → Encodes (entries_of encode xs) es
      → Encodes (entries_of encode ys) es
      → xs ≡ ys
  entries_of-injective [] [] es v w h k = refl
  entries_of-injective [] (y ∷ ys) [] v w h k = absurd k
  entries_of-injective [] (y ∷ ys) (d ∷ ds) v w h k = absurd h
  entries_of-injective (x ∷ xs) [] [] v w h k = absurd h
  entries_of-injective (x ∷ xs) [] (d ∷ ds) v w h k = absurd k
  entries_of-injective (x ∷ xs) (y ∷ ys) [] v w h k = absurd h
  entries_of-injective (x ∷ xs) (y ∷ ys) (d ∷ ds) v w h k =
      let key = utf8-injective x.0 y.0 (sym h.0.key_bytes ∙ k.0.key_bytes) in
      let value = e.injects x.1 y.1 d.encoded_value v.0 w.0 h.0.value k.0.value in
      let tail = entries_of-injective xs ys ds v.1 w.1 h.1 k.1 in λ i. (key i, value i) ∷ tail i

  sorted_entries :
      (xs : List (String × A)) (es : List Entry)
      → IsSortedMap Valid xs
      → Encodes (entries_of encode xs) es
      → Encodes (entries_of encode xs) (sort_by entry_lt es)
  sorted_entries xs es v h =
      subst (λ f. Encodes f (sort_by entry_lt es))
        (sort_by-entries_of xs ∙ ap (entries_of encode) v.is_sorted)
        (Encodes-sort_by (entries_of encode xs) es h)

  pub map-IsEncoder : IsEncoder (IsSortedMap Valid) (λ xs. encode_map (entries_of encode xs))
  unfolding encode_map
  map-IsEncoder = record {
    frames = λ a b h.
        let (es, _, h1) = bind_returns (canonical_entries [] (entries_of encode a)) _ h in
        (frame-IsFrame (tag 77) _ b h1).0;
    injects = λ a a' b v w h k.
        let s =
          encode_map-SameEntries (entries_of encode a) (entries_of encode a') b
            (entries_of-FramedFields a) (entries_of-FramedFields a') h k in
        entries_of-injective a a' (sort_by entry_lt s.right) v.values w.values
          (subst (Encodes (entries_of encode a)) s.sorted
            (sorted_entries a s.left v s.encodes_left))
          (sorted_entries a' s.right w s.encodes_right);
  }

-- Where every value is valid.
weakened :
    {A : Type 0} (Valid : A → Type 0) (encode : A → Result Bytes)
    → ((a : A) → Valid a)
    → IsEncoder Valid encode
    → IsEncoder Any encode
weakened Valid encode valid e = record {
  frames = e.frames;
  injects = λ a a' b v w h k. e.injects a a' b (valid a) (valid a') h k;
}

module _ {A : Type 0} (encode : A → Result Bytes) (e : IsEncoder Any encode) where
  every_any : (a : Option A) → Every Any a
  every_any none = tt
  every_any (some a) = tt

  all_any : (xs : List A) → All Any xs
  all_any [] = tt
  all_any (x ∷ xs) = (tt, all_any xs)

  pub any_optional-IsEncoder : IsPresent encode → IsEncoder Any (encode_optional encode)
  any_optional-IsEncoder present =
      weakened (Every Any) (encode_optional encode) every_any
        (optional-IsEncoder Any encode e present)

  pub any_sequence-IsEncoder : IsEncoder Any (encode_sequence encode)
  any_sequence-IsEncoder =
      weakened (All Any) (encode_sequence encode) all_any (sequence-IsEncoder Any encode e)

pub optional_string-IsEncoder : IsEncoder Any (encode_optional encode_string)
optional_string-IsEncoder = any_optional-IsEncoder encode_string string-IsEncoder string-IsPresent

pub optional_integer-IsEncoder : IsEncoder Any (encode_optional encode_integer)
optional_integer-IsEncoder =
    any_optional-IsEncoder encode_integer integer-IsEncoder integer-IsPresent

pub string_sequence-IsEncoder : IsEncoder Any encode_string_sequence
unfolding encode_string_sequence
string_sequence-IsEncoder = any_sequence-IsEncoder encode_string string-IsEncoder

pub integer_map-IsEncoder : IsEncoder (IsSortedMap Any) encode_integer_map
unfolding encode_integer_map
integer_map-IsEncoder = map-IsEncoder Any encode_integer integer-IsEncoder

pub scalar_map-IsEncoder : IsEncoder (IsSortedMap Any) encode_scalar_map
unfolding encode_scalar_map
scalar_map-IsEncoder = map-IsEncoder Any encode_scalar scalar-IsEncoder

-- The members of an enumeration, by their values.
pub member-IsEncoder :
    {E : Type 0} (wire_type : String) (value : E → String) (read : String → Option E)
    → ((e : E) → read (value e) ≡ some e)
    → IsEncoder Any (λ e. encode_record wire_type (("value", encode_string (value e)) ∷ []))
member-IsEncoder wire_type value read reads =
    record-IsEncoder wire_type (λ e. ("value", encode_string (value e)) ∷ []) (λ a b. refl)
      (λ a. (string-IsEncoder.frames (value a), tt))
      (λ a b v w e.
        let same = same_values string-IsEncoder tt tt e.0 in
        let found = sym (reads a) ∙ ap read same ∙ reads b in cc)
