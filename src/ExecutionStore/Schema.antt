-- ===== src/ExecutionStore/Schema.antt =====
-- The constraints of the table execution_records, `_SCHEMA` of sqlite_execution_store.py, and the rows
-- of the store that meet them. The function `length` of SQL is the database's.
use Prim.Native.String.{◌++◌ as ◌<>◌}
use text.Mathlib.TextLemmas.{nil-append, cons-append, append_assoc}
use nest_authz.Prelude.{
  ◌+◌, String, ◌≡◌, refl, sym, ◌∙◌, ◌⊎◌, ◌≢◌, inl, inr, true, Option, none, some, ◌&&◌, nat_eq,
  arith,
}
use nest_authz.Domain.Status.{ExecutionStatus}
use nest_authz.Domain.Value.{Sha256Digest}
use nest_authz.Domain.Hex.{
  hex_value, hex, digest_str, execution_id_str, IsDigest, text_length, all_hex, hex-reads_back,
}
use nest_authz.ExecutionStore.Sqlite.{Row, change_row, Database, IsLawful, no_nul}
use nest_authz.ExecutionStore.{reserved_row}
use nest_authz.ExecutionStore.Terminal.{terminal_columns}

module _ (D : Database) where
  -- The CHECK on the status and the two references.
  abbrev pub ReferencesFit : String → Option String → Option String → Type 0
  ReferencesFit status result failure =
      (status ≡ "RESERVED") × (result ≡ none) × (failure ≡ none)
      ⊎ (status ≡ "SUCCEEDED")
        × ((v : String) × (result ≡ some v) × (D.length v ≢ 0))
        × (failure ≡ none)
      ⊎ (status ≡ "FAILED")
        × (result ≡ none)
        × ((v : String) × (failure ≡ some v) × (D.length v ≢ 0))

  -- The row meets every CHECK.
  pub record Fits (row : Row) : Type 0 where
    pub id_length : D.length row.execution_id ≡ 81
    pub id_prefix : (s : String) × (row.execution_id ≡ "execution:sha256:" <> s)
    pub digest_length : D.length row.execution_permit_digest ≡ 71
    pub digest_prefix : (s : String) × (row.execution_permit_digest ≡ "sha256:" <> s)
    pub references : ReferencesFit row.status row.result_reference row.failure_reference

  -- UNIQUE: no row has the digest.
  abbrev pub DigestFree : D.World → String → Type 0
  DigestFree w digest =
      (key : String) (r : Row) → D.contents w key ≡ some r → r.execution_permit_digest ≢ digest

text_length-append : (s t : String) → text_length (s <> t) ≡ text_length s + text_length t
text_length-append String.[] t = rw nil-append (omega arith)
text_length-append (String.◌∷◌ c s) t = rw cons-append (ground (arith, text_length-append s t))

no_nul-append : (s t : String) → no_nul (s <> t) ≡ (no_nul s && no_nul t)
no_nul-append String.[] t = rw nil-append refl
no_nul-append (String.◌∷◌ c s) t = rw cons-append (ground (arith, no_nul-append s t))

all_hex-no_nul : (s : String) → all_hex s ≡ true → no_nul s ≡ true
all_hex-no_nul String.[] h = refl
all_hex-no_nul (String.◌∷◌ c s) h = ground (arith, all_hex-no_nul s)

-- A text of a prefix without NUL and a digest's 64 digits.
prefixed :
    (p : String) (d : Sha256Digest)
    → IsDigest d
    → no_nul p ≡ true
    → (no_nul (p <> hex_value d) ≡ true) × (text_length (p <> hex_value d) ≡ text_length p + 64)
unfolding hex_value
prefixed p d v h =
    let (_, hexadecimal, size) = hex-reads_back d.value v.bytes in
    (
      no_nul-append p (hex d.value) ∙ ground (arith, all_hex-no_nul (hex d.value) hexadecimal, h),
      text_length-append p (hex d.value) ∙ ground (arith, size, v.size),
    )

sha256_no_nul : no_nul "sha256:" ≡ true
unfolding nat_eq
sha256_no_nul = refl

execution_no_nul : no_nul "execution:sha256:" ≡ true
unfolding nat_eq
execution_no_nul = refl

execution_id_str-prefix :
    (d : Sha256Digest)
    → execution_id_str (record { permit_digest = d }) ≡ "execution:sha256:" <> hex_value d
unfolding execution_id_str digest_str
execution_id_str-prefix d = sym (append_assoc "execution:" "sha256:" (hex_value d))

module _ (D : Database) (lawful : IsLawful D) (d : Sha256Digest) (v : IsDigest d) where
  id_fits : D.length (execution_id_str (record { permit_digest = d })) ≡ 81
  id_fits =
      let (clean, size) = prefixed "execution:sha256:" d v execution_no_nul in
      rw (execution_id_str-prefix d)
        (lawful.length-no_nul ("execution:sha256:" <> hex_value d) clean ∙ size)

  digest_fits : D.length (digest_str d) ≡ 71
  unfolding digest_str
  digest_fits =
      let (clean, size) = prefixed "sha256:" d v sha256_no_nul in
      lawful.length-no_nul ("sha256:" <> hex_value d) clean ∙ size

  -- The row that a reservation inserts meets the schema.
  pub reserved_row-Fits : Fits D (reserved_row (record { permit_digest = d }) d)
  unfolding digest_str
  reserved_row-Fits = record {
    id_length = id_fits;
    id_prefix = (hex_value d, execution_id_str-prefix d);
    digest_length = digest_fits;
    digest_prefix = (hex_value d, refl);
    references = inl (refl, refl, refl);
  }

  terminal_columns-ReferencesFit :
      (status : ExecutionStatus) (value : String)
      → status ≢ ExecutionStatus.reserved
      → D.length value ≢ 0
      → let change = terminal_columns status value in
        ReferencesFit D change.status change.result_reference change.failure_reference
  terminal_columns-ReferencesFit ExecutionStatus.reserved value ne text = absurd (ne refl)
  terminal_columns-ReferencesFit ExecutionStatus.succeeded value ne text =
      inr (inl (refl, (value, ground arith, text), ground arith))
  terminal_columns-ReferencesFit ExecutionStatus.failed value ne text =
      inr (inr (refl, ground arith, (value, ground arith, text)))

  -- So does its change to a terminal status, with a reference that SQL counts as not empty.
  pub terminal_row-Fits :
      (status : ExecutionStatus) (value : String)
      → status ≢ ExecutionStatus.reserved
      → D.length value ≢ 0
      → Fits D (
          change_row
            (reserved_row (record { permit_digest = d }) d)
            (terminal_columns status value))
  unfolding change_row digest_str
  terminal_row-Fits status value ne text = record {
    id_length = id_fits;
    id_prefix = (hex_value d, execution_id_str-prefix d);
    digest_length = digest_fits;
    digest_prefix = (hex_value d, refl);
    references = terminal_columns-ReferencesFit status value ne text;
  }
