-- ===== src/Canonical/Order.antt =====
-- The order of texts by code points, in which domain.py sorts, is the order of their UTF-8 bytes, in
-- which canonical.py sorts.
use Prim.Native.Nat.{◌/◌, ◌%◌, ◌≤◌, Ordering, compare as compare_ℕ}
use Prim.Native.Char.{Char, code}
use Prim.Native.String.{compare, then as then_by}
use Prim.Native.String.compare as Compare
use nest_authz.Prelude.{
  ℕ, ◌<◌, ◌+◌, String, Bool, true, false, ◌≡◌, ◌⊎◌, refl, sym, ap, ◌∙◌, inl, inr, arith, [], ◌∷◌,
  ◌++◌, ltb, nat_eq, if◌then◌else◌, Bool-cases,
}
use nest_authz.Domain.Value.{text_lt}
use nest_authz.Canonical.Bytes.{Bytes, utf8_char, utf8}
use nest_authz.Canonical.Encode.{bytes_lt}

-- Bytes in order, or equal with the rest in order.
step_before : (p q : ℕ) (x y : Bytes) → p < q → bytes_lt (p ∷ x) (q ∷ y) ≡ true
unfolding bytes_lt
step_before p q x y h = ground (arith, h)

step_same : (p q : ℕ) (x y : Bytes) → p ≡ q → bytes_lt (p ∷ x) (q ∷ y) ≡ bytes_lt x y
unfolding bytes_lt
step_same p q x y h = ground (arith, h)

not_below : (m n : ℕ) → ltb m n ≡ false → n ≤ m
not_below m n h = ground (arith, h)

-- The tails of an encoded character: its low digits to the base 64.
last_before :
    (c d : ℕ) (s t : Bytes)
    → c / 64 ≡ d / 64
    → c < d
    → bytes_lt ((128 + c % 64) ∷ s) ((128 + d % 64) ∷ t) ≡ true
last_before c d s t e h = step_before _ _ s t (omega (arith, e, h))

two_before :
    (c d : ℕ) (s t : Bytes)
    → c / 4096 ≡ d / 4096
    → c < d
    → bytes_lt ((128 + c / 64 % 64) ∷ (128 + c % 64) ∷ s) ((128 + d / 64 % 64) ∷ (128 + d % 64) ∷ t)
      ≡ true
two_before c d s t e h = elim (Bool-cases (ltb (c / 64) (d / 64))) [
  | inl lt ↦
      let below : c / 64 < d / 64 = ground (arith, lt) in
      step_before _ _ _ _ (omega (arith, e, below))
  | inr ge ↦
      let same : c / 64 ≡ d / 64 = omega (arith, h, not_below (c / 64) (d / 64) ge) in
      step_same _ _ _ _ (ap (λ x. 128 + x % 64) same) ∙ last_before c d s t same h
]

three_before :
    (c d : ℕ) (s t : Bytes)
    → c / 262144 ≡ d / 262144
    → c < d
    → bytes_lt
        ((128 + c / 4096 % 64) ∷ (128 + c / 64 % 64) ∷ (128 + c % 64) ∷ s)
        ((128 + d / 4096 % 64) ∷ (128 + d / 64 % 64) ∷ (128 + d % 64) ∷ t)
      ≡ true
three_before c d s t e h = elim (Bool-cases (ltb (c / 4096) (d / 4096))) [
  | inl lt ↦
      let below : c / 4096 < d / 4096 = ground (arith, lt) in
      step_before _ _ _ _ (omega (arith, e, below))
  | inr ge ↦
      let same : c / 4096 ≡ d / 4096 = omega (arith, h, not_below (c / 4096) (d / 4096) ge) in
      step_same _ _ _ _ (ap (λ x. 128 + x % 64) same) ∙ two_before c d s t same h
]

abbrev lead : ℕ → ℕ
lead c =
    if ltb c 0x80
    then c
    else if ltb c 0x800
    then 192 + c / 64
    else if ltb c 0x10000
    then 224 + c / 4096
    else 240 + c / 262144

abbrev trail : ℕ → Bytes
trail c =
    if ltb c 0x80
    then []
    else if ltb c 0x800
    then (128 + c % 64) ∷ []
    else if ltb c 0x10000
    then (128 + c / 64 % 64) ∷ (128 + c % 64) ∷ []
    else (128 + c / 4096 % 64) ∷ (128 + c / 64 % 64) ∷ (128 + c % 64) ∷ []

utf8_char_lem : (c : ℕ) → utf8_char c ≡ lead c ∷ trail c
unfolding utf8_char
utf8_char_lem c = ground arith

same_lead : (c d : ℕ) → c < d → lead d ≤ lead c → lead c ≡ lead d
same_lead c d h l = ground (arith, h, l)

trail_before :
    (c d : ℕ) (s t : Bytes)
    → c < d
    → lead c ≡ lead d
    → bytes_lt (trail c ++ s) (trail d ++ t) ≡ true
trail_before c d s t h l =
    ground (arith, h, l, last_before c d s t, two_before c d s t, three_before c d s t)

utf8_char-before :
    (c d : ℕ) (s t : Bytes) → c < d → bytes_lt (utf8_char c ++ s) (utf8_char d ++ t) ≡ true
utf8_char-before c d s t h =
    rw (utf8_char_lem c, utf8_char_lem d)
      (elim (Bool-cases (ltb (lead c) (lead d))) [
        | inl lt ↦ step_before (lead c) (lead d) _ _ (ground (arith, lt))
        | inr ge ↦
            let same = same_lead c d h (not_below (lead c) (lead d) ge) in
            step_same (lead c) (lead d) _ _ same ∙ trail_before c d s t h same
      ])

pub bytes_lt-asym : (x y : Bytes) → bytes_lt x y ≡ true → bytes_lt y x ≡ false
unfolding bytes_lt
bytes_lt-asym [] [] h = refl
bytes_lt-asym [] (d ∷ ds) h = refl
bytes_lt-asym (c ∷ cs) [] h = absurd (cc)
bytes_lt-asym (c ∷ cs) (d ∷ ds) h = ground (arith, h, bytes_lt-asym cs ds)

utf8_char-after :
    (c d : ℕ) (s t : Bytes) → d < c → bytes_lt (utf8_char c ++ s) (utf8_char d ++ t) ≡ false
utf8_char-after c d s t h = bytes_lt-asym _ _ (utf8_char-before d c t s h)

utf8_char-same :
    (c : ℕ) (s t : Bytes) → bytes_lt (utf8_char c ++ s) (utf8_char c ++ t) ≡ bytes_lt s t
unfolding utf8_char bytes_lt
utf8_char-same c s t = ground arith

utf8_char-first : (c : ℕ) (s : Bytes) → bytes_lt [] (utf8_char c ++ s) ≡ true
unfolding utf8_char bytes_lt
utf8_char-first c s = ground arith

utf8_char-not_last : (c : ℕ) (s : Bytes) → bytes_lt (utf8_char c ++ s) [] ≡ false
unfolding utf8_char bytes_lt
utf8_char-not_last c s = ground arith

compare_cases :
    (m n : ℕ)
    → ((compare_ℕ m n ≡ Ordering.lt) × (m < n))
      ⊎ ((compare_ℕ m n ≡ Ordering.eq) × (m ≡ n))
      ⊎ ((compare_ℕ m n ≡ Ordering.gt) × (n < m))
compare_cases m n = elim (Bool-cases (ltb m n)) [
  | inl lt ↦ inl (ground (arith, lt))
  | inr ge ↦ inr (elim (Bool-cases (ltb n m)) [
    | inl gt ↦ inr (ground (arith, gt))
    | inr le ↦ inl (ground (arith, ge, le))
  ])
]

same_char :
    (c d : ℕ) (s t : Bytes) → c ≡ d → bytes_lt (utf8_char c ++ s) (utf8_char d ++ t) ≡ bytes_lt s t
same_char c d s t e =
    ap (λ x. bytes_lt (utf8_char c ++ s) (utf8_char x ++ t)) (sym e) ∙ utf8_char-same c s t

abbrev is_lt : Ordering → Bool
is_lt o = elim o [ Ordering.lt ↦ true | _ ↦ false ]

text_lt_cons :
    (c d : Char) (s t : String) (o : Ordering)
    → compare_ℕ (code c) (code d) ≡ o
    → text_lt (String.◌∷◌ c s) (String.◌∷◌ d t) ≡ is_lt (then_by o (compare s t))
unfolding text_lt
text_lt_cons c d s t o e =
    ap is_lt ((λ i. Compare.cons-cons c d s t i) ∙ ap (λ x. then_by x (compare s t)) e)

-- Of two texts, the one that is less by code points, as domain.py sorts, is the one whose UTF-8 bytes are
-- less, as canonical.py sorts.
pub bytes_lt-utf8 : (s t : String) → bytes_lt (utf8 s) (utf8 t) ≡ text_lt s t
unfolding text_lt utf8
bytes_lt-utf8 String.[] String.[] = unfold bytes_lt in refl
bytes_lt-utf8 String.[] (String.◌∷◌ d t) =
    utf8_char-first (code d) (utf8 t) ∙ sym (ap is_lt (λ i. Compare.nil-cons d t i))
bytes_lt-utf8 (String.◌∷◌ c s) String.[] =
    utf8_char-not_last (code c) (utf8 s) ∙ sym (ap is_lt (λ i. Compare.cons-nil c s i))
bytes_lt-utf8 (String.◌∷◌ c s) (String.◌∷◌ d t) = elim (compare_cases (code c) (code d)) [
  | inl (lt, h) ↦
      utf8_char-before (code c) (code d) (utf8 s) (utf8 t) h
      ∙ sym (text_lt_cons c d s t Ordering.lt lt)
  | inr (inl (equal, h)) ↦
      same_char (code c) (code d) (utf8 s) (utf8 t) h
      ∙ bytes_lt-utf8 s t
      ∙ sym (text_lt_cons c d s t Ordering.eq equal)
  | inr (inr (gt, h)) ↦
      utf8_char-after (code c) (code d) (utf8 s) (utf8 t) h
      ∙ sym (text_lt_cons c d s t Ordering.gt gt)
]
