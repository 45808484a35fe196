-- ===== src/Canonical/Encode.antt =====
-- The encoders of canonical.py that every schema is made of. An encoder's argument that is an encoded
-- value is a Result, for its evaluation may raise.
use nest_authz.Prelude.{
  ℕ, ℤ, pos, negsuc, suc, String, Bool, true, false, Option, none, some, List, [], ◌∷◌, ◌++◌,
  length, contains, ltb, ◌!=◌, ◌||◌, ◌&&◌, ◌==◌, if◌then◌else◌, sort_by, Result, ok, ◌>>=◌, ◌>>◌,
  raise_if, value_error, string_eq, nat_eq,
}
use nest_authz.Domain.Value.{Scalar, str, int, bool, null}
use nest_authz.Canonical.Bytes.{Bytes, big_endian, byte_count, utf8}

-- `_MAX_PAYLOAD_LENGTH`
abbrev pub max_payload_length : ℕ
max_payload_length = 18446744073709551615

unfoldable pub frame : Bytes → Bytes → Result Bytes
frame tag payload = do
  raise_if (length tag != 1) (value_error "canonical tags must contain exactly one byte")
  raise_if (ltb max_payload_length (length payload)) (value_error "canonical payload is too large")
  ok (tag ++ (big_endian 8 (length payload) ++ payload))

abbrev pub tag : ℕ → Bytes
tag b = b ∷ []

unfoldable pub encode_null : Result Bytes
encode_null = frame (tag 78) []

-- `b"\x01" if value else b"\x00"`
abbrev pub boolean_byte : Bool → ℕ
boolean_byte true = 1
boolean_byte false = 0

unfoldable pub encode_boolean : Bool → Result Bytes
encode_boolean value = frame (tag 66) (boolean_byte value ∷ [])

unfoldable pub magnitude_bytes : ℕ → Bytes
magnitude_bytes magnitude =
    if magnitude == 0 then [] else big_endian (byte_count magnitude) magnitude

unfoldable pub encode_integer : ℤ → Result Bytes
encode_integer (pos n) = frame (tag 73) (0 ∷ magnitude_bytes n)
encode_integer (negsuc n) = frame (tag 73) (1 ∷ magnitude_bytes (suc n))

unfoldable pub encode_string : String → Result Bytes
encode_string value = frame (tag 83) (utf8 value)

-- `b"".join(encode(value) for value in values)`
unfoldable pub join_all {ℓ} : {A : Type ℓ} → (A → Result Bytes) → List A → Result Bytes
join_all encode [] = ok []
join_all encode (value ∷ values) = do
  first ← encode value
  rest ← join_all encode values
  ok (first ++ rest)

unfoldable pub encode_sequence {ℓ} : {A : Type ℓ} → (A → Result Bytes) → List A → Result Bytes
encode_sequence encode values = do payload ← join_all encode values; frame (tag 76) payload

-- A tuple of `canonical_entries`.
pub record Entry : Type 0 where
  pub key_bytes : Bytes
  pub encoded_key : Bytes
  pub encoded_value : Bytes

-- The order of bytes objects.
unfoldable pub bytes_lt : Bytes → Bytes → Bool
bytes_lt [] [] = false
bytes_lt [] (d ∷ ds) = true
bytes_lt (c ∷ cs) [] = false
bytes_lt (c ∷ cs) (d ∷ ds) = ltb c d || c == d && bytes_lt cs ds

-- The loop over `entries`.
unfoldable pub canonical_entries : List String → List (String × Result Bytes) → Result (List Entry)
canonical_entries seen [] = ok []
canonical_entries seen ((key, encoded) ∷ entries) = do
  encoded_value ← encoded
  raise_if (contains key seen) (value_error "canonical maps must not contain duplicate keys")
  encoded_key ← encode_string key
  rest ← canonical_entries (key ∷ seen) entries
  ok (
      record { key_bytes = utf8 key; encoded_key = encoded_key; encoded_value = encoded_value }
      ∷ rest)

-- `b"".join(…)` over the sorted entries.
unfoldable pub join_entries : List Entry → Bytes
join_entries [] = []
join_entries (e ∷ es) = (e.encoded_key ++ e.encoded_value) ++ join_entries es

unfoldable pub encode_map : List (String × Result Bytes) → Result Bytes
encode_map entries = do
  canonical ← canonical_entries [] entries
  frame (tag 77) (join_entries (sort_by (λ a b. bytes_lt a.key_bytes b.key_bytes) canonical))

-- The values of a tuple of fields, which Python evaluates before the call.
unfoldable pub evaluated : List (String × Result Bytes) → Result (List (String × Result Bytes))
evaluated [] = ok []
evaluated ((key, encoded) ∷ fields) = do
  value ← encoded
  rest ← evaluated fields
  ok ((key, ok value) ∷ rest)

unfoldable pub encode_record : String → List (String × Result Bytes) → Result Bytes
encode_record wire_type fields = do
  entries ← evaluated fields
  name ← encode_string wire_type
  body ← encode_map entries
  frame (tag 82) (name ++ body)

unfoldable pub encode_scalar : Scalar → Result Bytes
encode_scalar null = encode_null
encode_scalar (bool b) = encode_boolean b
encode_scalar (int n) = encode_integer n
encode_scalar (str s) = encode_string s

-- A generator of encoded entries.
abbrev pub entries_of {ℓ} :
    {A : Type ℓ} → (A → Result Bytes) → List (String × A) → List (String × Result Bytes)
entries_of encode [] = []
entries_of encode ((key, value) ∷ rest) = (key, encode value) ∷ entries_of encode rest

unfoldable pub encode_scalar_map : List (String × Scalar) → Result Bytes
encode_scalar_map values = encode_map (entries_of encode_scalar values)

unfoldable pub encode_integer_map : List (String × ℤ) → Result Bytes
encode_integer_map values = encode_map (entries_of encode_integer values)

unfoldable pub encode_string_sequence : List String → Result Bytes
encode_string_sequence values = encode_sequence encode_string values

-- `_encode_optional_domain`, and `_encode_scalar` of a string or an integer that may be None.
unfoldable pub encode_optional {ℓ} : {A : Type ℓ} → (A → Result Bytes) → Option A → Result Bytes
encode_optional encode none = encode_null
encode_optional encode (some value) = encode value
