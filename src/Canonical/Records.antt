-- ===== src/Canonical/Records.antt =====
-- Records are read back field by field.
use nest_authz.Prelude.{
  String, ◌≡◌, refl, sym, ap, ◌∙◌, subst, inl, inr, arith, List, [], ◌∷◌, ◌++◌, map, ok, string_eq,
  bind_returns, ok-injective, Bool-cases, insert_by, sort_by, if◌then◌else◌,
}
use nest_authz.Canonical.Bytes.{Bytes, utf8, utf8-injective}
use nest_authz.Canonical.Encode.{
  frame, encode_null, encode_string, tag, Entry, bytes_lt, encode_map, evaluated, encode_record,
}
use nest_authz.Canonical.Frames.{IsFrame, frame-IsFrame, same_frame, same_tag, read_frame}
use nest_authz.Canonical.Join.{Both, IsEncoder}
use nest_authz.Canonical.Maps.{
  Encoded, entry_lt, Encodes, FramedFields, SameEntries, encode_map-SameEntries,
}

abbrev pub names : Encoded → List String
names [] = []
names (f ∷ fs) = f.0 ∷ names fs

abbrev keys : List Entry → List Bytes
keys [] = []
keys (e ∷ es) = e.key_bytes ∷ keys es

abbrev insert_key : Bytes → List Bytes → List Bytes
insert_key k [] = k ∷ []
insert_key k (j ∷ js) = if bytes_lt j k then j ∷ insert_key k js else k ∷ j ∷ js

abbrev sort_keys : List Bytes → List Bytes
sort_keys [] = []
sort_keys (k ∷ ks) = insert_key k (sort_keys ks)

keys-insert_by :
    (e : Entry) (es : List Entry)
    → keys (insert_by entry_lt e es) ≡ insert_key e.key_bytes (keys es)
keys-insert_by e [] = refl
keys-insert_by e (d ∷ ds) = ground (arith, keys-insert_by e ds)

keys-sort_by : (es : List Entry) → keys (sort_by entry_lt es) ≡ sort_keys (keys es)
unfolding sort_by
keys-sort_by [] = refl
keys-sort_by (e ∷ es) =
    keys-insert_by e (sort_by entry_lt es) ∙ ap (insert_key e.key_bytes) (keys-sort_by es)

-- An insertion of entries with one key into lists with the same keys can be undone.
insert_by-injective :
    (d e : Entry) (ds es : List Entry)
    → d.key_bytes ≡ e.key_bytes
    → keys ds ≡ keys es
    → insert_by entry_lt d ds ≡ insert_by entry_lt e es
    → (d ≡ e) × (ds ≡ es)
insert_by-injective d e [] [] k ks h = (cc, refl)
insert_by-injective d e [] (b ∷ bs) k ks h = absurd (cc)
insert_by-injective d e (a ∷ xs) [] k ks h = absurd (cc)
insert_by-injective d e (a ∷ xs) (b ∷ bs) k ks h =
    let first : a.key_bytes ≡ b.key_bytes = cc in
    let rest : keys xs ≡ keys bs = cc in
    let same : entry_lt a d ≡ entry_lt b e =
      ap (λ x. bytes_lt x d.key_bytes) first ∙ ap (bytes_lt b.key_bytes) k in
    elim (Bool-cases (entry_lt b e)) [
      | inl lt ↦
          let h1 : a ∷ insert_by entry_lt d xs ≡ b ∷ insert_by entry_lt e bs =
            rw (lt, same ∙ lt) at h in
          let (x, tail) = insert_by-injective d e xs bs k rest (cc) in (x, cc)
      | inr ge ↦ let h1 : d ∷ a ∷ xs ≡ e ∷ b ∷ bs = rw (ge, same ∙ ge) at h in (cc, cc)
    ]

sort_by-injective :
    (ds es : List Entry) → keys ds ≡ keys es → sort_by entry_lt ds ≡ sort_by entry_lt es → ds ≡ es
unfolding sort_by
sort_by-injective [] [] k h = refl
sort_by-injective [] (e ∷ es) k h = absurd (cc)
sort_by-injective (d ∷ ds) [] k h = absurd (cc)
sort_by-injective (d ∷ ds) (e ∷ es) k h =
    let first : d.key_bytes ≡ e.key_bytes = cc in
    let rest : keys ds ≡ keys es = cc in
    let (same, sorted) =
      insert_by-injective d e (sort_by entry_lt ds) (sort_by entry_lt es) first
        (keys-sort_by ds ∙ ap sort_keys rest ∙ sym (keys-sort_by es)) h in
    let tail = sort_by-injective ds es rest sorted in λ i. same i ∷ tail i

-- Fields by fields, the same bytes.
abbrev pub Agree : Encoded → Encoded → Type 0
Agree [] [] = Unit
Agree [] (g ∷ gs) = Unit
Agree (f ∷ fs) [] = Unit
Agree (f ∷ fs) (g ∷ gs) = Both f.1 g.1 × Agree fs gs

keys-names : (fs : Encoded) (es : List Entry) → Encodes fs es → keys es ≡ map utf8 (names fs)
keys-names [] [] h = refl
keys-names [] (e ∷ es) h = absurd h
keys-names (f ∷ fs) [] h = absurd h
keys-names (f ∷ fs) (e ∷ es) h = λ i. h.0.key_bytes i ∷ keys-names fs es h.1 i

Encodes-Agree : (fs gs : Encoded) (es : List Entry) → Encodes fs es → Encodes gs es → Agree fs gs
Encodes-Agree [] [] es h k = tt
Encodes-Agree [] (g ∷ gs) es h k = tt
Encodes-Agree (f ∷ fs) [] es h k = tt
Encodes-Agree (f ∷ fs) (g ∷ gs) [] h k = absurd h
Encodes-Agree (f ∷ fs) (g ∷ gs) (e ∷ es) h k =
    ((e.encoded_value, h.0.value, k.0.value), Encodes-Agree fs gs es h.1 k.1)

map-Agree : (fs gs : Encoded) → names fs ≡ names gs → SameEntries fs gs → Agree fs gs
map-Agree fs gs n s =
    let same =
      sort_by-injective s.left s.right
        (keys-names fs s.left s.encodes_left
          ∙ ap (map utf8) n
          ∙ sym (keys-names gs s.right s.encodes_right))
        s.sorted in
    Encodes-Agree fs gs s.right (subst (Encodes fs) same s.encodes_left) s.encodes_right

evaluated-eq : (fs es : Encoded) → evaluated fs ≡ ok es → fs ≡ es
unfolding evaluated
evaluated-eq [] es h = ok-injective h
evaluated-eq ((k, m) ∷ fs) es h =
    let (v, value, h1) = bind_returns m _ h in
    let (rest, others, h2) = bind_returns (evaluated fs) _ h1 in
    let tail = evaluated-eq fs rest others in (λ i. (k, value i) ∷ tail i) ∙ ok-injective h2

-- What a record's encoding is made of.
pub record IsRecord (wire_type : String) (fs : Encoded) (b : Bytes) : Type 0 where
  pub name : Bytes
  pub body : Bytes
  pub encodes_name : encode_string wire_type ≡ ok name
  pub encodes_body : encode_map fs ≡ ok body
  pub framed : frame (tag 82) (name ++ body) ≡ ok b

pub encode_record-IsRecord :
    (wire_type : String) (fs : Encoded) (b : Bytes)
    → encode_record wire_type fs ≡ ok b
    → IsRecord wire_type fs b
unfolding encode_record
encode_record-IsRecord wire_type fs b h =
    let (es, values, h1) = bind_returns (evaluated fs) _ h in
    let (name, names_type, h2) = bind_returns (encode_string wire_type) _ h1 in
    let (body, maps, h3) = bind_returns (encode_map es) _ h2 in
    record {
      name = name;
      body = body;
      encodes_name = names_type;
      encodes_body = ap encode_map (evaluated-eq fs es values) ∙ maps;
      framed = h3;
    }

pub encode_record-IsFrame :
    (wire_type : String) (fs : Encoded) (b : Bytes) → encode_record wire_type fs ≡ ok b → IsFrame b
encode_record-IsFrame wire_type fs b h =
    let r = encode_record-IsRecord wire_type fs b h in
    (frame-IsFrame (tag 82) (r.name ++ r.body) b r.framed).0

-- A record's encoding is not that of None.
pub encode_record-not_null :
    (wire_type : String) (fs : Encoded) (b : Bytes)
    → encode_record wire_type fs ≡ ok b
    → ¬ (encode_null ≡ ok b)
unfolding encode_null
encode_record-not_null wire_type fs b h k =
    let r = encode_record-IsRecord wire_type fs b h in
    absurd (omega (arith, same_tag 82 78 _ _ b r.framed k))

-- Equal encodings are of records of one type.
pub encode_record-same_type :
    (s t : String) (fs gs : Encoded) (b : Bytes)
    → encode_record s fs ≡ ok b
    → encode_record t gs ≡ ok b
    → (s ≡ t) × ((body : Bytes) × (encode_map fs ≡ ok body) × (encode_map gs ≡ ok body))
unfolding encode_string
encode_record-same_type s t fs gs b h k =
    let r = encode_record-IsRecord s fs b h in
    let q = encode_record-IsRecord t gs b k in
    let (_, payload) = same_frame (tag 82) (tag 82) _ _ b r.framed q.framed in
    let (f, _, pf) = frame-IsFrame (tag 83) (utf8 s) r.name r.encodes_name in
    let (g, _, pg) = frame-IsFrame (tag 83) (utf8 t) q.name q.encodes_name in
    let (_, texts, _, bodies) = read_frame r.name q.name r.body q.body f g payload in
    (
      utf8-injective s t (sym pf ∙ texts ∙ pg),
      (q.body, r.encodes_body ∙ ap ok bodies, q.encodes_body),
    )

pub encode_record-Agree :
    (t : String) (fs gs : Encoded) (b : Bytes)
    → names fs ≡ names gs
    → FramedFields fs
    → FramedFields gs
    → encode_record t fs ≡ ok b
    → encode_record t gs ≡ ok b
    → Agree fs gs
encode_record-Agree t fs gs b n v w h k =
    let (_, (body, left, right)) = encode_record-same_type t t fs gs b h k in
    map-Agree fs gs n (encode_map-SameEntries fs gs body v w left right)

-- An encoder of records whose fields are encoded can be read back, if the fields give the value.
pub record-IsEncoder :
    {A : Type 0} {Valid : A → Type 0} (wire_type : String) (fields : A → Encoded)
    → ((a a' : A) → names (fields a) ≡ names (fields a'))
    → ((a : A) → FramedFields (fields a))
    → ((a a' : A) → Valid a → Valid a' → Agree (fields a) (fields a') → a ≡ a')
    → IsEncoder Valid (λ a. encode_record wire_type (fields a))
record-IsEncoder wire_type fields same_names framed agree = record {
  frames = λ a b h. encode_record-IsFrame wire_type (fields a) b h;
  injects = λ a a' b v w h k. agree a a' v w (
      encode_record-Agree wire_type (fields a) (fields a') b (same_names a a') (framed a)
        (framed a') h k);
}
