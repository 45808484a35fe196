-- ===== src/Canonical/Frames.antt =====
-- Every encoding is a frame, and a frame is read back from the front of any bytes.
use mathlib.Core.List.{append_assoc}
use nest_authz.Prelude.{
  ℕ, ◌≤◌, ◌≡◌, refl, sym, ap, ◌∙◌, ltb, arith, [], ◌∷◌, ◌++◌, length, ◌!=◌, nat_eq, ok,
  raise_if-passed, eq_of_not_ne, ok-injective,
}
use nest_authz.Canonical.Bytes.{
  Bytes, big_endian, big_endian-injective, length-big_endian, append-injective,
}
use nest_authz.Canonical.Encode.{frame, max_payload_length, tag}

-- These bytes are a tag, the length of a payload in eight bytes, and the payload.
pub record IsFrame (b : Bytes) : Type 0 where
  pub tag_bytes : Bytes
  pub payload : Bytes
  pub one_byte : length tag_bytes ≡ 1
  pub small : length payload ≤ max_payload_length
  pub shape : b ≡ tag_bytes ++ (big_endian 8 (length payload) ++ payload)

pub frame-IsFrame :
    (t p b : Bytes) → frame t p ≡ ok b → (f : IsFrame b) × (f.tag_bytes ≡ t) × (f.payload ≡ p)
unfolding frame
frame-IsFrame t p b h =
    let (one, h1) = raise_if-passed (length t != 1) _ _ h in
    let (small, h2) = raise_if-passed (ltb max_payload_length (length p)) _ _ h1 in
    (
      record {
        tag_bytes = t;
        payload = p;
        one_byte = eq_of_not_ne (length t) 1 one;
        small = ground arith;
        shape = sym (ok-injective h2);
      },
      refl,
      refl,
    )

-- Frames at the front of the same bytes are the same frame.
pub read_frame :
    (b c s t : Bytes) (f : IsFrame b) (g : IsFrame c)
    → b ++ s ≡ c ++ t
    → (f.tag_bytes ≡ g.tag_bytes) × (f.payload ≡ g.payload) × (b ≡ c) × (s ≡ t)
read_frame b c s t f g h =
    let (tags, h1) =
      append-injective f.tag_bytes g.tag_bytes _ _ (f.one_byte ∙ sym g.one_byte)
        (opened f s ∙ h ∙ sym (opened g t)) in
    let (sizes, h2) =
      append-injective (big_endian 8 (length f.payload)) (big_endian 8 (length g.payload)) _ _
        (length-big_endian 8 (length f.payload) ∙ sym (length-big_endian 8 (length g.payload)))
        h1 in
    let same =
      big_endian-injective 8 (length f.payload) (length g.payload) (omega (arith, f.small))
        (omega (arith, g.small)) sizes in
    let (payloads, rest) = append-injective f.payload g.payload s t same h2 in
    (
      tags,
      payloads,
      f.shape
          ∙ ap (λ x. x ++ (big_endian 8 (length f.payload) ++ f.payload)) tags
          ∙ ap (λ x. g.tag_bytes ++ (big_endian 8 (length x) ++ x)) payloads
          ∙ sym g.shape,
      rest,
    )
  where
    opened :
        {b : Bytes} (f : IsFrame b) (s : Bytes)
        → f.tag_bytes ++ (big_endian 8 (length f.payload) ++ (f.payload ++ s)) ≡ b ++ s
    opened f s =
        ap (λ x. f.tag_bytes ++ x)
          (sym (append_assoc (big_endian 8 (length f.payload)) f.payload s))
        ∙ sym (append_assoc f.tag_bytes (big_endian 8 (length f.payload) ++ f.payload) s)
        ∙ ap (λ x. x ++ s) (sym f.shape)

-- Bytes have one tag and one payload.
pub same_frame : (t u p q b : Bytes) → frame t p ≡ ok b → frame u q ≡ ok b → (t ≡ u) × (p ≡ q)
same_frame t u p q b h k =
    let (f, tf, pf) = frame-IsFrame t p b h in
    let (g, tg, pg) = frame-IsFrame u q b k in
    let (tags, payloads, _, _) = read_frame b b [] [] f g refl in
    (sym tf ∙ tags ∙ tg, sym pf ∙ payloads ∙ pg)

abbrev pub first_byte : Bytes → ℕ
first_byte [] = 0
first_byte (b ∷ bs) = b

pub same_tag : (m n : ℕ) (p q b : Bytes) → frame (tag m) p ≡ ok b → frame (tag n) q ≡ ok b → m ≡ n
same_tag m n p q b h k = ap first_byte (same_frame (tag m) (tag n) p q b h k).0
