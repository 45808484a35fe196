-- ===== src/Domain/Value.antt =====
-- The values of domain.py that have no class of their own: scalars, fields, digests, and the
-- helpers that check and sort them.
use Prim.Native.Char.{code}
use Prim.Native.String.{compare as compare_text, ◌++◌ as ◌<>◌}
use Prim.Native.Nat.{Ordering}
use nest_authz.Prelude.{
  ℕ, ℤ, String, Bool, true, false, ◌&&◌, ◌||◌, List, [], ◌∷◌, Eq, ◌==◌, contains, leb,
  if◌then◌else◌, sort_by, Result, ok, err, ◌>>◌, raise_if, value_error, string_discrete, ℤ_discrete,
  nat_eq, string_eq,
}

-- `str | int | bool | None`. Python's typed copies, such as `_typed_value`, tell the
-- types apart in comparisons, as the constructors do here.
pub data Scalar : Type 0 where
  str : String → Scalar
  int : ℤ → Scalar
  bool : Bool → Scalar
  null : Scalar

instance unfoldable pub scalar_eq : Eq Scalar
unfolding string_discrete ℤ_discrete
scalar_eq = record { dec = hlevel (string_discrete, ℤ_discrete) }

abbrev pub Fields : Type 0
Fields = List (String × Scalar)

abbrev pub IntegerBounds : Type 0
IntegerBounds = List (String × ℤ)

-- The digest's bytes; the field `algorithm` is always "sha256".
pub record Sha256Digest : Type 0 where
  pub value : List ℕ

instance unfoldable pub sha256_digest_eq : Eq Sha256Digest
unfolding nat_eq
sha256_digest_eq = record { dec = hlevel nat_eq.dec }

-- `str.isspace` of one character.
is_space : ℕ → Bool
is_space c =
    leb 9 c && leb c 13
    || leb 28 c && leb c 32
    || c == 0x85
    || c == 0xa0
    || c == 0x1680
    || leb 0x2000 c && leb c 0x200a
    || c == 0x2028
    || c == 0x2029
    || c == 0x202f
    || c == 0x205f
    || c == 0x3000

-- `not value.strip()`
unfoldable pub is_blank : String → Bool
unfolding is_space nat_eq
is_blank String.[] = true
is_blank (String.◌∷◌ c s) = is_space (code c) && is_blank s

unfoldable pub non_blank : String → String → Result String
non_blank value field_name =
    if is_blank value then err (value_error (field_name <> " must not be blank")) else ok value

-- The order of texts by code points, which is that of their UTF-8 bytes.
unfoldable pub text_lt : String → String → Bool
text_lt s t = elim (compare_text s t) [ Ordering.lt ↦ true | _ ↦ false ]

-- The loop that fills `seen`: an identifier stands in `seen`, or twice in the rest.
module _ {ℓ} {A : Type ℓ} ⦃e : Eq A⦄ where
  unfoldable pub repeats : List A → List A → Bool
  repeats seen [] = false
  repeats seen (x ∷ xs) = contains x seen || repeats (x ∷ seen) xs

module _ {ℓ} {V : Type ℓ} where
  -- The loop of `_canonical_fields` and `_canonical_integer_bounds`.
  unfoldable pub check_entries :
      String → String → List String → List (String × V) → Result (Unit {0})
  unfolding non_blank
  check_entries key_name duplicate seen [] = ok tt
  check_entries key_name duplicate seen ((k, v) ∷ rest) = do
    non_blank k key_name
    raise_if (contains k seen) (value_error duplicate)
    check_entries key_name duplicate (k ∷ seen) rest

  unfoldable pub canonical_entries :
      String → String → List (String × V) → Result (List (String × V))
  unfolding check_entries text_lt
  canonical_entries key_name duplicate entries = do
    check_entries key_name duplicate [] entries
    ok (sort_by (λ a b. text_lt a.0 b.0) entries)

unfoldable pub canonical_fields : Fields → String → Result Fields
unfolding canonical_entries
canonical_fields value field_name =
    canonical_entries (field_name <> " key") (field_name <> " contains a duplicate key") value

unfoldable pub canonical_integer_bounds : IntegerBounds → String → Result IntegerBounds
unfolding canonical_entries
canonical_integer_bounds value field_name =
    canonical_entries (field_name <> " name") (field_name <> " contains a duplicate name") value
