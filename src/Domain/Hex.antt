-- ===== src/Domain/Hex.antt =====
-- The hexadecimal texts of digests: the property `hex_value`, `from_hex` and `__str__` of
-- Sha256Digest and ExecutionId in domain.py.
use Prim.Native.Nat.{◌*◌, ◌/◌, ◌%◌}
use Prim.Native.Char.{Char, code}
use Prim.Native.String.{◌++◌ as ◌<>◌}
use text.Mathlib.TextLemmas.{nil-append, cons-append}
use native.Mathlib.Decide.{ℕ_discrete}
use nest_authz.Prelude.{
  ℕ, zero, suc, ◌+◌, ◌-◌, ◌<◌, ◌≡◌, refl, sym, ap, ◌∙◌, ok-injective, String, Bool, true, ◌&&◌,
  ◌||◌, Option, none, some, List, [], ◌∷◌, length, All, arith, ◌==◌, ◌!=◌, leb, not, inl, inr,
  Bool-cases, if◌then◌else◌, Result, ok, ◌>>◌, raise_if, value_error, nat_eq,
}
use nest_authz.Domain.Value.{Sha256Digest}
use nest_authz.Domain.Execution.{ExecutionId}

unfoldable pub sha256_digest_post_init : Sha256Digest → Result Sha256Digest
sha256_digest_post_init d = do
  raise_if (length d.value != 32) (value_error "SHA-256 digest value must contain exactly 32 bytes")
  ok d

abbrev hex_digits : List Char
hex_digits =
    "0" ∷ "1" ∷ "2" ∷ "3" ∷ "4" ∷ "5" ∷ "6" ∷ "7" ∷ "8" ∷ "9" ∷ "a" ∷ "b" ∷ "c" ∷ "d" ∷ "e" ∷ "f"
    ∷ []

digit_at : ℕ → List Char → Char
digit_at n [] = "0"
digit_at zero (c ∷ cs) = c
digit_at (suc n) (c ∷ cs) = digit_at n cs

-- `bytes.hex`
unfoldable pub hex : List ℕ → String
unfolding digit_at
hex [] = ""
hex (b ∷ bs) =
    String.◌∷◌ (digit_at (b / 16) hex_digits) (String.◌∷◌ (digit_at (b % 16) hex_digits) (hex bs))

unfoldable pub hex_value : Sha256Digest → String
hex_value d = hex d.value

-- `f"{self.algorithm}:{self.hex_value}"`
unfoldable pub digest_str : Sha256Digest → String
digest_str d = "sha256:" <> hex_value d

unfoldable pub execution_id_str : ExecutionId → String
execution_id_str i = "execution:" <> digest_str i.permit_digest

abbrev pub text_length : String → ℕ
text_length String.[] = 0
text_length (String.◌∷◌ c s) = suc (text_length s)

-- `character in "0123456789abcdef"`
abbrev is_hex : ℕ → Bool
is_hex c = (leb 48 c && leb c 57) || (leb 97 c && leb c 102)

abbrev hex_number : ℕ → ℕ
hex_number c = if leb 97 c then c - 87 else c - 48

abbrev pub all_hex : String → Bool
all_hex String.[] = true
all_hex (String.◌∷◌ c s) = is_hex (code c) && all_hex s

-- `bytes.fromhex`, on an even number of hexadecimal digits.
unfoldable pub bytes_from_hex : String → List ℕ
bytes_from_hex String.[] = []
bytes_from_hex (String.◌∷◌ c String.[]) = []
bytes_from_hex (String.◌∷◌ c (String.◌∷◌ d s)) =
    (16 * hex_number (code c) + hex_number (code d)) ∷ bytes_from_hex s

unfoldable pub from_hex : String → Result Sha256Digest
unfolding sha256_digest_post_init
from_hex text = do
  raise_if (text_length text != 64 || not (all_hex text)) (
      value_error
        "SHA-256 hexadecimal value must contain exactly 64 lowercase hexadecimal characters")
  sha256_digest_post_init (record { value = bytes_from_hex text })

-- `value.removeprefix(prefix)`, where the text starts with the prefix.
unfoldable pub strip_prefix : String → String → Option String
strip_prefix String.[] s = some s
strip_prefix (String.◌∷◌ c p) String.[] = none
strip_prefix (String.◌∷◌ c p) (String.◌∷◌ d s) = if code c == code d then strip_prefix p s else none

-- What the constructor accepts: 32 numbers, each a byte.
pub record IsDigest (d : Sha256Digest) : Type 0 where
  pub bytes : All (λ b. b < 256) d.value
  pub size : length d.value ≡ 32

abbrev below : (ℕ → Bool) → ℕ → Bool
below p zero = true
below p (suc k) = p k && below p k

below-holds : (p : ℕ → Bool) (k n : ℕ) → below p k ≡ true → n < k → p n ≡ true
below-holds p zero n h lt = absurd (omega arith)
below-holds p (suc k) n h lt = elim (Bool-cases (n == k)) [
  | inl e ↦ ground arith
  | inr e ↦ ground (arith, below-holds p k n)
]

abbrev reads_back : ℕ → Bool
reads_back n =
    is_hex (code (digit_at n hex_digits)) && hex_number (code (digit_at n hex_digits)) == n

digit-reads_back : (n : ℕ) → n < 16 → reads_back n ≡ true
digit-reads_back n lt = below-holds reads_back 16 n (unfold digit_at nat_eq ℕ_discrete in refl) lt

pub hex-reads_back :
    (bs : List ℕ)
    → All (λ b. b < 256) bs
    → (bytes_from_hex (hex bs) ≡ bs)
      × (all_hex (hex bs) ≡ true)
      × (text_length (hex bs) ≡ 2 * length bs)
unfolding hex bytes_from_hex
hex-reads_back [] h = (refl, refl, refl)
hex-reads_back (b ∷ bs) h = ground (
  arith,
  digit-reads_back (b / 16) (omega (arith, h.0)),
  digit-reads_back (b % 16) (omega arith),
  hex-reads_back bs h.1,
)

-- Reading back the hexadecimal text of a digest of 32 bytes gives the digest.
pub from_hex-hex_value : (d : Sha256Digest) → IsDigest d → from_hex (hex_value d) ≡ ok d
unfolding from_hex hex_value
from_hex-hex_value d v =
    let (read, hexadecimal, size) = hex-reads_back d.value v.bytes in ground (arith, v.size)

pub strip_prefix-append : (p s : String) → strip_prefix p (p <> s) ≡ some s
unfolding strip_prefix
strip_prefix-append String.[] s = rw nil-append refl
strip_prefix-append (String.◌∷◌ c p) s = rw cons-append (ground (arith, strip_prefix-append p s))

-- Digests of 32 bytes with the same hexadecimal text are equal.
pub hex_value-injective :
    (c d : Sha256Digest) → IsDigest c → IsDigest d → hex_value c ≡ hex_value d → c ≡ d
hex_value-injective c d v w h =
    ok-injective (sym (from_hex-hex_value c v) ∙ ap from_hex h ∙ from_hex-hex_value d w)
