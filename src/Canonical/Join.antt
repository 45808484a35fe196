-- ===== src/Canonical/Join.antt =====
-- Joined encodings are read back in one way.
use mathlib.Core.List.{append_assoc}
use nest_authz.Prelude.{
  ◌≡◌, refl, sym, ap, ◌∙◌, arith, List, [], ◌∷◌, ◌++◌, length, ok, Result, string_eq, bind_returns,
  ok-injective, All,
}
use nest_authz.Canonical.Bytes.{Bytes}
use nest_authz.Canonical.Encode.{Entry, join_entries, join_all}
use nest_authz.Canonical.Frames.{IsFrame, read_frame}

-- What an encoder gives is a frame, and values that are `Valid` and have the same encoding are equal.
pub record IsEncoder {A : Type 0} (Valid : A → Type 0) (encode : A → Result Bytes) : Type 0 where
  pub frames : (a : A) (b : Bytes) → encode a ≡ ok b → IsFrame b
  pub injects :
      (a a' : A) (b : Bytes) → Valid a → Valid a' → encode a ≡ ok b → encode a' ≡ ok b → a ≡ a'

-- Two calls that return the same bytes.
abbrev pub Both : Result Bytes → Result Bytes → Type 0
Both m m' = (b : Bytes) × (m ≡ ok b) × (m' ≡ ok b)

pub same_values :
    {A : Type 0} {Valid : A → Type 0} {encode : A → Result Bytes}
    → IsEncoder Valid encode
    → {a a' : A} → Valid a
    → Valid a'
    → Both (encode a) (encode a')
    → a ≡ a'
same_values e {a} {a'} v w both = e.injects a a' both.0 v w both.1 both.2

frame-nonempty : (b : Bytes) (s : Bytes) → IsFrame b → ¬ (b ++ s ≡ [])
frame-nonempty b s f h = nonempty f.tag_bytes _ f.one_byte (ap (λ x. x ++ s) (sym f.shape) ∙ h)
  where
    nonempty : (t r : Bytes) → length t ≡ 1 → ¬ ((t ++ r) ++ s ≡ [])
    nonempty [] r e h = omega (arith, e)
    nonempty (x ∷ xs) r e h = cc

module _ {A : Type 0} (Valid : A → Type 0) (encode : A → Result Bytes)
    (e : IsEncoder Valid encode) where
  pub join_all-injective :
      (xs ys : List A) (b : Bytes)
      → All Valid xs
      → All Valid ys
      → join_all encode xs ≡ ok b
      → join_all encode ys ≡ ok b
      → xs ≡ ys
  unfolding join_all
  join_all-injective [] [] b v w h k = refl
  join_all-injective [] (y ∷ ys) b v w h k =
      let (c, one, k1) = bind_returns (encode y) _ k in
      let (s, rest, k2) = bind_returns (join_all encode ys) _ k1 in
      absurd (frame-nonempty c s (e.frames y c one) (ok-injective (k2 ∙ sym h)))
  join_all-injective (x ∷ xs) [] b v w h k =
      let (c, one, h1) = bind_returns (encode x) _ h in
      let (s, rest, h2) = bind_returns (join_all encode xs) _ h1 in
      absurd (frame-nonempty c s (e.frames x c one) (ok-injective (h2 ∙ sym k)))
  join_all-injective (x ∷ xs) (y ∷ ys) b v w h k =
      let (c, one, h1) = bind_returns (encode x) _ h in
      let (s, rest, h2) = bind_returns (join_all encode xs) _ h1 in
      let (d, two, k1) = bind_returns (encode y) _ k in
      let (t, more, k2) = bind_returns (join_all encode ys) _ k1 in
      let (_, _, same, tails) =
        read_frame c d s t (e.frames x c one) (e.frames y d two) (ok-injective (h2 ∙ sym k2)) in
      let head = e.injects x y d v.0 w.0 (one ∙ ap ok same) two in
      let tail = join_all-injective xs ys t v.1 w.1 (rest ∙ ap ok tails) more in
      λ i. head i ∷ tail i

-- An entry of a map, encoded.
pub record IsEntry (e : Entry) : Type 0 where
  pub key : IsFrame e.encoded_key
  pub key_payload : key.payload ≡ e.key_bytes
  pub value : IsFrame e.encoded_value

pub join_entries-injective :
    (xs ys : List Entry)
    → All IsEntry xs
    → All IsEntry ys
    → join_entries xs ≡ join_entries ys
    → xs ≡ ys
unfolding join_entries
join_entries-injective [] [] v w h = refl
join_entries-injective [] (y ∷ ys) v w h = absurd (
    frame-nonempty y.encoded_key (y.encoded_value ++ join_entries ys) w.0.key
      (sym (append_assoc y.encoded_key y.encoded_value (join_entries ys)) ∙ sym h))
join_entries-injective (x ∷ xs) [] v w h = absurd (
    frame-nonempty x.encoded_key (x.encoded_value ++ join_entries xs) v.0.key
      (sym (append_assoc x.encoded_key x.encoded_value (join_entries xs)) ∙ h))
join_entries-injective (x ∷ xs) (y ∷ ys) v w h =
    let (_, payloads, keys, h1) = read_frame x.encoded_key y.encoded_key _ _ v.0.key w.0.key (
      sym (append_assoc x.encoded_key x.encoded_value (join_entries xs))
      ∙ h
      ∙ append_assoc y.encoded_key y.encoded_value (join_entries ys)) in
    let (_, _, values, h2) =
      read_frame x.encoded_value y.encoded_value _ _ v.0.value w.0.value h1 in
    let tail = join_entries-injective xs ys v.1 w.1 h2 in
    let texts = sym v.0.key_payload ∙ payloads ∙ w.0.key_payload in
    λ i. record { key_bytes = texts i; encoded_key = keys i; encoded_value = values i } ∷ tail i
