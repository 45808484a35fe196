-- ===== src/Canonical/Bytes.antt =====
-- Bytes of texts and integers: what canonical.py uses of `str.encode` and `int.to_bytes`.
use Prim.Native.Nat.{◌*◌, ◌/◌, ◌%◌, ◌^◌}
use Prim.Native.Char.{code}
use text.Mathlib.TextEquality.{Char-path}
use native.Mathlib.Omega.{pow_step}
use nest_authz.Prelude.{
  ℕ, zero, suc, ◌+◌, ◌<◌, ◌≤◌, ◌≡◌, refl, sym, subst, ap, String, List, [], ◌∷◌, ◌++◌, length,
  arith, ltb, leb, if◌then◌else◌, Bool-cases, inl, inr,
}

abbrev pub Bytes : Type 0
Bytes = List ℕ

-- `n.to_bytes(size, byteorder="big")`, where the size is enough.
unfoldable pub big_endian : ℕ → ℕ → Bytes
big_endian zero n = []
big_endian (suc size) n = big_endian size (n / 256) ++ (n % 256 ∷ [])

-- `n.bit_length()`, with n as the fuel.
unfoldable pub bits : ℕ → ℕ → ℕ
bits fuel zero = 0
bits zero (suc n) = 0
bits (suc fuel) (suc n) = suc (bits fuel (suc n / 2))

unfoldable pub bit_length : ℕ → ℕ
bit_length n = bits n n

-- One character of UTF-8.
unfoldable pub utf8_char : ℕ → Bytes
utf8_char c =
    if ltb c 0x80
    then c ∷ []
    else if ltb c 0x800
    then (192 + c / 64) ∷ (128 + c % 64) ∷ []
    else if ltb c 0x10000
    then (224 + c / 4096) ∷ (128 + c / 64 % 64) ∷ (128 + c % 64) ∷ []
    else (240 + c / 262144) ∷ (128 + c / 4096 % 64) ∷ (128 + c / 64 % 64) ∷ (128 + c % 64) ∷ []

unfoldable pub utf8 : String → Bytes
utf8 String.[] = []
utf8 (String.◌∷◌ c s) = utf8_char (code c) ++ utf8 s

-- Each character can be read back from the front of its text.
utf8_char-injective :
    (c d : ℕ) (s t : Bytes) → utf8_char c ++ s ≡ utf8_char d ++ t → (c ≡ d) × (s ≡ t)
unfolding utf8_char
utf8_char-injective c d s t h = ground (arith, h)

utf8_char-nonempty : (c : ℕ) (s : Bytes) → ¬ (utf8_char c ++ s ≡ [])
unfolding utf8_char
utf8_char-nonempty c s h = ground arith

-- Texts with the same UTF-8 bytes are equal.
pub utf8-injective : (s t : String) → utf8 s ≡ utf8 t → s ≡ t
unfolding utf8
utf8-injective String.[] String.[] h = refl
utf8-injective String.[] (String.◌∷◌ d t) h = absurd (utf8_char-nonempty (code d) (utf8 t) (sym h))
utf8-injective (String.◌∷◌ c s) String.[] h = absurd (utf8_char-nonempty (code c) (utf8 s) h)
utf8-injective (String.◌∷◌ c s) (String.◌∷◌ d t) h =
    let (same, rest) = utf8_char-injective (code c) (code d) (utf8 s) (utf8 t) h in
    λ i. String.◌∷◌ (Char-path c d same i) (utf8-injective s t rest i)

-- Lists that continue two lists of one length.
pub append-injective {ℓ} :
    {A : Type ℓ} (xs ys s t : List A)
    → length xs ≡ length ys
    → xs ++ s ≡ ys ++ t
    → (xs ≡ ys) × (s ≡ t)
append-injective [] [] s t e h = (refl, h)
append-injective [] (y ∷ ys) s t e h = absurd (omega (arith, e))
append-injective (x ∷ xs) [] s t e h = absurd (omega (arith, e))
append-injective (x ∷ xs) (y ∷ ys) s t e h =
    let (front, rest) = append-injective xs ys s t (omega (arith, e)) (cc) in (cc, rest)

last-injective {ℓ} :
    {A : Type ℓ} (xs ys : List A) (a b : A) → xs ++ (a ∷ []) ≡ ys ++ (b ∷ []) → (xs ≡ ys) × (a ≡ b)
last-injective [] [] a b h = (refl, cc)
last-injective [] (y ∷ []) a b h = absurd (cc)
last-injective [] (y ∷ z ∷ ys) a b h = absurd (cc)
last-injective (x ∷ []) [] a b h = absurd (cc)
last-injective (x ∷ z ∷ xs) [] a b h = absurd (cc)
last-injective (x ∷ xs) (y ∷ ys) a b h =
    let (front, last) = last-injective xs ys a b (cc) in (cc, last)

pub length_append {ℓ} : {A : Type ℓ} (xs ys : List A) → length (xs ++ ys) ≡ length xs + length ys
length_append [] ys = omega arith
length_append (x ∷ xs) ys = ground (arith, length_append xs ys)

pub length-big_endian : (size n : ℕ) → length (big_endian size n) ≡ size
unfolding big_endian
length-big_endian zero n = refl
length-big_endian (suc size) n = ground (
  arith,
  length_append (big_endian size (n / 256)) (n % 256 ∷ []),
  length-big_endian size (n / 256),
)

-- Numbers that fit in the size and have the same bytes are equal.
pub big_endian-injective :
    (size n m : ℕ) → n < 256 ^ size → m < 256 ^ size → big_endian size n ≡ big_endian size m → n ≡ m
unfolding big_endian
big_endian-injective zero n m p q h = omega arith
big_endian-injective (suc size) n m p q h =
    let (front, last) =
      last-injective (big_endian size (n / 256)) (big_endian size (m / 256)) _ _ h in
    let same =
      big_endian-injective size (n / 256) (m / 256) (quotient_fits size n p)
        (quotient_fits size m q) front in
    omega (arith, same, last)
  where
    quotient_fits : (size n : ℕ) → n < 256 ^ suc size → n / 256 < 256 ^ size
    quotient_fits size n p = omega (arith, p, pow_step 256 size)

bits_bound : (fuel n : ℕ) → n ≤ fuel → n < 2 ^ bits fuel n
unfolding bits
bits_bound fuel zero h = omega arith
bits_bound zero (suc n) h = absurd (omega (arith, h))
bits_bound (suc fuel) (suc n) h =
    let half = bits_bound fuel (suc n / 2) (omega (arith, h)) in
    omega (arith, half, pow_step 2 (bits fuel (suc n / 2)))

one_octet : (a : ℕ) → 2 ^ (suc (suc (suc (suc (suc (suc (suc (suc a)))))))) ≡ 256 * 2 ^ a
one_octet a = omega (
  arith,
  pow_step 2 a,
  pow_step 2 (suc a),
  pow_step 2 (suc (suc a)),
  pow_step 2 (suc (suc (suc a))),
  pow_step 2 (suc (suc (suc (suc a)))),
  pow_step 2 (suc (suc (suc (suc (suc a))))),
  pow_step 2 (suc (suc (suc (suc (suc (suc a)))))),
  pow_step 2 (suc (suc (suc (suc (suc (suc (suc a))))))),
)

octets : (k : ℕ) → 2 ^ (8 * k) ≡ 256 ^ k
octets zero = refl
octets (suc k) =
    let grown : 2 ^ (8 * suc k) ≡ 2 ^ (suc (suc (suc (suc (suc (suc (suc (suc (8 * k))))))))) =
      ap (λ x. 2 ^ x) (omega arith) in
    omega (arith, grown, one_octet (8 * k), octets k, pow_step 256 k)

powers_grow : (a b : ℕ) → a ≤ b → 2 ^ a ≤ 2 ^ b
powers_grow a zero h = let e : a ≡ 0 = omega arith in subst (λ x. 2 ^ a ≤ 2 ^ x) e (omega arith)
powers_grow a (suc b) h = elim (Bool-cases (leb a b)) [
  | inl e ↦ omega (arith, powers_grow a b (ground arith), pow_step 2 b)
  | inr e ↦ let same : a ≡ suc b = ground arith in subst (λ x. 2 ^ a ≤ 2 ^ x) same (omega arith)
]

-- `(n.bit_length() + 7) // 8`
abbrev pub byte_count : ℕ → ℕ
byte_count n = (bit_length n + 7) / 8

-- The bytes that canonical.py takes for a magnitude are enough.
pub fits_byte_count : (n : ℕ) → n < 256 ^ byte_count n
unfolding bit_length
fits_byte_count n =
    let b = bit_length n in
    let k = byte_count n in
    let within = powers_grow b (8 * k) (omega arith) in
    omega (arith, bits_bound n n (omega arith), within, octets k)
