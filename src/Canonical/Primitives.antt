-- ===== src/Canonical/Primitives.antt =====
-- The encoders of texts, numbers, options, sequences and maps can be read back.
use Prim.Native.Nat.{◌^◌}
use native.Mathlib.Decide.{ℕ_discrete}
use nest_authz.Prelude.{
  ◌<◌, ℕ, ℤ, pos, negsuc, zero, suc, Bool, true, false, ◌≡◌, refl, sym, ap, ◌∙◌, subst, arith, [],
  ◌∷◌, length, ok, Result, nat_eq,
}
use nest_authz.Domain.Value.{Scalar, str, int, bool, null}
use nest_authz.Canonical.Bytes.{
  Bytes, utf8, utf8-injective, big_endian, big_endian-injective, length-big_endian, bits,
  bit_length, byte_count, fits_byte_count,
}
use nest_authz.Canonical.Encode.{
  frame, tag, encode_null, boolean_byte, encode_boolean, encode_integer, magnitude_bytes,
  encode_string, encode_scalar,
}
use nest_authz.Canonical.Frames.{frame-IsFrame, same_frame, same_tag, first_byte}
use nest_authz.Canonical.Join.{IsEncoder}

abbrev pub Any : {A : Type 0} → A → Type 0
Any a = Unit

-- An encoder that does not give the encoding of None.
abbrev pub IsPresent : {A : Type 0} → (A → Result Bytes) → Type 0
IsPresent {A} encode = (a : A) (b : Bytes) → encode a ≡ ok b → ¬ (encode_null ≡ ok b)

pub string-IsEncoder : IsEncoder Any encode_string
unfolding encode_string
string-IsEncoder = record {
  frames = λ a b h. (frame-IsFrame (tag 83) (utf8 a) b h).0;
  injects = λ a a' b v w h k.
      utf8-injective a a' (same_frame (tag 83) (tag 83) (utf8 a) (utf8 a') b h k).1;
}

pub string-IsPresent : IsPresent encode_string
unfolding encode_string encode_null
string-IsPresent a b h k = absurd (omega (arith, same_tag 83 78 _ _ b h k))

magnitude_bytes_lem : (n : ℕ) → magnitude_bytes n ≡ big_endian (byte_count n) n
unfolding magnitude_bytes bit_length bits big_endian nat_eq ℕ_discrete
magnitude_bytes_lem zero = refl
magnitude_bytes_lem (suc n) = ground arith

-- Magnitudes with the same bytes are equal.
magnitude_bytes-injective : (n m : ℕ) → magnitude_bytes n ≡ magnitude_bytes m → n ≡ m
magnitude_bytes-injective n m h =
    let same : big_endian (byte_count n) n ≡ big_endian (byte_count m) m =
      sym (magnitude_bytes_lem n) ∙ h ∙ magnitude_bytes_lem m in
    let sizes : byte_count n ≡ byte_count m =
      sym (length-big_endian (byte_count n) n)
      ∙ ap length same
      ∙ length-big_endian (byte_count m) m in
    big_endian-injective (byte_count m) n m (subst (λ k. n < 256 ^ k) sizes (fits_byte_count n))
      (fits_byte_count m) (ap (λ k. big_endian k n) (sym sizes) ∙ same)

tail_of : Bytes → Bytes
tail_of [] = []
tail_of (b ∷ bs) = bs

integer_same : (n m : ℤ) (b : Bytes) → encode_integer n ≡ ok b → encode_integer m ≡ ok b → n ≡ m
unfolding encode_integer tail_of
integer_same (pos n) (pos m) b h k =
    ap pos (magnitude_bytes-injective n m (ap tail_of (same_frame (tag 73) (tag 73) _ _ b h k).1))
integer_same (negsuc n) (negsuc m) b h k =
    let same =
      magnitude_bytes-injective (suc n) (suc m)
        (ap tail_of (same_frame (tag 73) (tag 73) _ _ b h k).1) in
    ap negsuc (omega (arith, same))
integer_same (pos n) (negsuc m) b h k =
    let signs : 0 ≡ 1 = ap first_byte (same_frame (tag 73) (tag 73) _ _ b h k).1 in
    absurd (omega (arith, signs))
integer_same (negsuc n) (pos m) b h k =
    let signs : 1 ≡ 0 = ap first_byte (same_frame (tag 73) (tag 73) _ _ b h k).1 in
    absurd (omega (arith, signs))

integer_frame :
    (n : ℤ) (b : Bytes) → encode_integer n ≡ ok b → (p : Bytes) × (frame (tag 73) p ≡ ok b)
unfolding encode_integer
integer_frame (pos n) b h = (_, h)
integer_frame (negsuc n) b h = (_, h)

pub integer-IsEncoder : IsEncoder Any encode_integer
integer-IsEncoder = record {
  frames = λ a b h. let (p, e) = integer_frame a b h in (frame-IsFrame (tag 73) p b e).0;
  injects = λ a a' b v w h k. integer_same a a' b h k;
}

pub integer-IsPresent : IsPresent encode_integer
unfolding encode_null
integer-IsPresent a b h k =
    let (p, e) = integer_frame a b h in absurd (omega (arith, same_tag 73 78 p _ b e k))

boolean_same : (a a' : Bool) → boolean_byte a ≡ boolean_byte a' → a ≡ a'
boolean_same true true h = refl
boolean_same true false h = absurd (omega (arith, h))
boolean_same false true h = absurd (omega (arith, h))
boolean_same false false h = refl

pub boolean-IsEncoder : IsEncoder Any encode_boolean
unfolding encode_boolean
boolean-IsEncoder = record {
  frames = λ a b h. (frame-IsFrame (tag 66) _ b h).0;
  injects = λ a a' b v w h k.
      boolean_same a a' (ap first_byte (same_frame (tag 66) (tag 66) _ _ b h k).1);
}

scalar_tag : Scalar → ℕ
scalar_tag null = 78
scalar_tag (bool b) = 66
scalar_tag (int n) = 73
scalar_tag (str s) = 83

scalar_frame :
    (a : Scalar) (b : Bytes)
    → encode_scalar a ≡ ok b
    → (p : Bytes) × (frame (tag (scalar_tag a)) p ≡ ok b)
unfolding encode_scalar encode_null encode_boolean encode_string scalar_tag
scalar_frame null b h = (_, h)
scalar_frame (bool x) b h = (_, h)
scalar_frame (int n) b h = integer_frame n b h
scalar_frame (str s) b h = (_, h)

scalar_same :
    (a a' : Scalar) (b : Bytes)
    → scalar_tag a ≡ scalar_tag a'
    → encode_scalar a ≡ ok b
    → encode_scalar a' ≡ ok b
    → a ≡ a'
unfolding scalar_tag encode_scalar
scalar_same null null b t h k = refl
scalar_same (bool x) (bool y) b t h k = ap bool (boolean-IsEncoder.injects x y b tt tt h k)
scalar_same (int n) (int m) b t h k = ap int (integer_same n m b h k)
scalar_same (str u) (str v) b t h k = ap str (string-IsEncoder.injects u v b tt tt h k)
scalar_same null (bool y) b t h k = absurd (omega (arith, t))
scalar_same null (int m) b t h k = absurd (omega (arith, t))
scalar_same null (str v) b t h k = absurd (omega (arith, t))
scalar_same (bool x) null b t h k = absurd (omega (arith, t))
scalar_same (bool x) (int m) b t h k = absurd (omega (arith, t))
scalar_same (bool x) (str v) b t h k = absurd (omega (arith, t))
scalar_same (int n) null b t h k = absurd (omega (arith, t))
scalar_same (int n) (bool y) b t h k = absurd (omega (arith, t))
scalar_same (int n) (str v) b t h k = absurd (omega (arith, t))
scalar_same (str u) null b t h k = absurd (omega (arith, t))
scalar_same (str u) (bool y) b t h k = absurd (omega (arith, t))
scalar_same (str u) (int m) b t h k = absurd (omega (arith, t))

pub scalar-IsEncoder : IsEncoder Any encode_scalar
scalar-IsEncoder = record {
  frames = λ a b h. let (p, e) = scalar_frame a b h in (frame-IsFrame (tag (scalar_tag a)) p b e).0;
  injects = λ a a' b v w h k.
      let (p, e) = scalar_frame a b h in
      let (q, d) = scalar_frame a' b k in
      scalar_same a a' b (same_tag (scalar_tag a) (scalar_tag a') p q b e d) h k;
}
