-- ===== src/Examples/Memory.antt =====
-- A database in memory, which refuses the statements that break the schema and no others; the same
-- with outages, in which transactions fail to begin for a while; and a world without rows.
use Prim.Native.Char.{code}
use nest_authz.Prelude.{
  ℕ, suc, String, ◌≡◌, refl, sym, ap, ◌⊎◌, Option, none, some, inl, inr, ◌==◌, ◌!=◌, ◌&&◌, ◌||◌,
  not, Bool, true, false, string_eq, nat_eq, if◌then◌else◌, arith, Bool-cases, List, [], ◌∷◌,
}
use nest_authz.Domain.Hex.{IsDigest, strip_prefix, strip_prefix-append, text_length}
use nest_authz.Digests.{Digests}
use nest_authz.ExecutionStore.Sqlite.{
  Row, Change, change_row, Database, IsLawful, Same, Sets, Matches, no_nul,
}
use nest_authz.ExecutionStore.Schema.{ReferencesFit, Fits, DigestFree}
use nest_authz.ExecutionStore.Available.{IsAvailable}
use nest_authz.Examples.{digests}

abbrev sql_length : String → ℕ
sql_length String.[] = 0
sql_length (String.◌∷◌ c s) = let rest = sql_length s in if code c == 0 then 0 else suc rest

sql_length-no_nul : (s : String) → no_nul s ≡ true → sql_length s ≡ text_length s
sql_length-no_nul String.[] h = refl
sql_length-no_nul (String.◌∷◌ c s) h = ground (arith, sql_length-no_nul s)

abbrev absent : Option String → Bool
absent none = true
absent (some v) = false

abbrev filled : Option String → Bool
filled none = false
filled (some v) = sql_length v != 0

abbrev references_fit : String → Option String → Option String → Bool
references_fit status result failure =
    (status == "RESERVED" && absent result && absent failure)
    || (status == "SUCCEEDED" && filled result && absent failure)
    || (status == "FAILED" && absent result && filled failure)

abbrev is_found : Option String → Bool
is_found none = false
is_found (some s) = true

abbrev fits : Row → Bool
fits row =
    sql_length row.execution_id == 81
    && is_found (strip_prefix "execution:sha256:" row.execution_id)
    && sql_length row.execution_permit_digest == 71
    && is_found (strip_prefix "sha256:" row.execution_permit_digest)
    && references_fit row.status row.result_reference row.failure_reference

-- The rows by their identity, and the identities that were inserted.
pub record Table : Type 0 where
  pub row_at : String → Option Row
  pub keys : List String

abbrev with_row : (String → Option Row) → String → Row → String → Option Row
with_row t key row j = if j == key then some row else t j

abbrev has_digest : String → Option Row → Bool
has_digest digest none = false
has_digest digest (some r) = r.execution_permit_digest == digest

abbrev is_used : (String → Option Row) → String → List String → Bool
is_used t digest [] = false
is_used t digest (key ∷ keys) = has_digest digest (t key) || is_used t digest keys

abbrev add : Table → Row → Table
add t row = record {
  row_at = with_row t.row_at row.execution_id row;
  keys = row.execution_id ∷ t.keys;
}

abbrev replace : Table → String → Row → Table
replace t key row = record { row_at = with_row t.row_at key row; keys = t.keys }

abbrev inserted : Table → Row → Option Row → Option (ℕ × Table)
inserted t row (some there) = some (0, t)
inserted t row none =
    if fits row && not (is_used t.row_at row.execution_permit_digest t.keys)
    then some (1, add t row)
    else none

abbrev updated : Table → String → String → Change → Option Row → Option (ℕ × Table)
updated t key digest change none = some (0, t)
updated t key digest change (some row) =
    if row.execution_permit_digest == digest && row.status == "RESERVED"
    then if fits (change_row row change)
      then some (1, replace t key (change_row row change))
      else none
    else some (0, t)

abbrev pub memory : Database
memory = record {
  World = Table;
  contents = λ t. t.row_at;
  connect_error = λ t. none;
  begin = λ t. some t;
  commit = λ t. some t;
  after_failure = λ t. t;
  length = sql_length;
  select = λ t key. some (t.row_at key);
  insert = λ t row. inserted t row (t.row_at row.execution_id);
  update = λ t key digest change. updated t key digest change (t.row_at key);
}

some-injective {ℓ} : {A : Type ℓ} {a b : A} → some a ≡ some b → a ≡ b
some-injective h = cc

pair-eq : {x y : ℕ × Table} → some x ≡ some y → (x.0 ≡ y.0) × (x.1 ≡ y.1)
pair-eq h = (ap (λ x. x.0) (some-injective h), ap (λ x. x.1) (some-injective h))

insert_lem :
    (t : Table) (row : Row) (o : Option Row) (n : ℕ) (t' : Table)
    → t.row_at row.execution_id ≡ o
    → inserted t row o ≡ some (n, t')
    → (t.row_at row.execution_id ≡ none) × (n ≡ 1) × Sets memory t t' row.execution_id row
      ⊎ ((r : Row) × (t.row_at row.execution_id ≡ some r)) × (n ≡ 0) × Same memory t t'
insert_lem t row none n t' e h =
    elim (Bool-cases (fits row && not (is_used t.row_at row.execution_permit_digest t.keys))) [
      | inl c ↦
          let (one, same) = pair-eq (rw c at h) in
          inl (e, sym one, λ j. ap (λ x. x.row_at j) (sym same))
      | inr c ↦ cc (rw c at h)
    ]
insert_lem t row (some r) n t' e h =
    let (none_inserted, same) = pair-eq h in
    inr ((r, e), sym none_inserted, λ j. ap (λ x. x.row_at j) (sym same))

update_lem :
    (t : Table) (key digest : String) (change : Change) (o : Option Row) (n : ℕ) (t' : Table)
    → t.row_at key ≡ o
    → updated t key digest change o ≡ some (n, t')
    → ((r : Row) × Matches memory t key digest r
        × (n ≡ 1)
        × Sets memory t t' key (change_row r change))
      ⊎ (n ≡ 0) × Same memory t t' × ((r : Row) → ¬ Matches memory t key digest r)
update_lem t key digest change none n t' e h =
    let (zero_rows, same) = pair-eq h in
    inr (sym zero_rows, (λ j. ap (λ x. x.row_at j) (sym same)), λ r m. ground (arith, m.0, e))
update_lem t key digest change (some row) n t' e h =
    elim (Bool-cases (row.execution_permit_digest == digest && row.status == "RESERVED")) [
      | inl c ↦ elim (Bool-cases (fits (change_row row change))) [
        | inl f ↦
            let (one, same) = pair-eq (rw (c, f) at h) in
            inl (
              row,
              (e, ground (arith, c), ground (arith, c)),
              sym one,
              λ j. ap (λ x. x.row_at j) (sym same),
            )
        | inr f ↦ cc (rw (c, f) at h)
      ]
      | inr c ↦
          let (zero_rows, same) = pair-eq (rw c at h) in
          inr
            (sym zero_rows, (λ j. ap (λ x. x.row_at j) (sym same)), λ r m. ground (arith, m, e, c))
    ]

pub memory-IsLawful : IsLawful memory
memory-IsLawful = record {
  begin-Same = λ w w' h j. ap (λ x. x.row_at j) (sym (some-injective h));
  commit-Same = λ w w' h j. ap (λ x. x.row_at j) (sym (some-injective h));
  after_failure-Same = λ w j. refl;
  length-no_nul = sql_length-no_nul;
  select-contents = λ w key o h. ground arith;
  insert-effect = λ w row n w' h. insert_lem w row (w.row_at row.execution_id) n w' refl h;
  update-effect =
      λ w key digest change n w' h. update_lem w key digest change (w.row_at key) n w' refl h;
}

references_fit_lem :
    (status : String) (result failure : Option String)
    → ReferencesFit memory status result failure
    → references_fit status result failure ≡ true
references_fit_lem status result failure (inl (s, r, f)) = ground (arith, s, r, f)
references_fit_lem status result failure (inr (inl (s, (v, r, n), f))) = ground (arith, s, r, f, n)
references_fit_lem status result failure (inr (inr (s, r, (v, f, n)))) = ground (arith, s, r, f, n)

fits_lem : (row : Row) → Fits memory row → fits row ≡ true
fits_lem row f =
    let (s, id) = f.id_prefix in
    let (d, digest) = f.digest_prefix in
    let id_found : is_found (strip_prefix "execution:sha256:" row.execution_id) ≡ true =
      rw (id, strip_prefix-append "execution:sha256:" s) refl in
    let digest_found : is_found (strip_prefix "sha256:" row.execution_permit_digest) ≡ true =
      rw (digest, strip_prefix-append "sha256:" d) refl in
    ground (
      arith,
      f.id_length,
      id_found,
      f.digest_length,
      digest_found,
      references_fit_lem row.status row.result_reference row.failure_reference f.references,
    )

has_digest_lem :
    (digest : String) (o : Option Row)
    → has_digest digest o ≡ true
    → (r : Row) × (o ≡ some r) × (r.execution_permit_digest ≡ digest)
has_digest_lem digest none h = cc
has_digest_lem digest (some r) h = (r, refl, ground arith)

unused :
    (t : Table) (digest : String) (keys : List String)
    → DigestFree memory t digest
    → is_used t.row_at digest keys ≡ false
unused t digest [] free = refl
unused t digest (key ∷ keys) free = elim (Bool-cases (has_digest digest (t.row_at key))) [
  | inl e ↦
      let (r, there, same) = has_digest_lem digest (t.row_at key) e in
      absurd (free key r there same)
  | inr e ↦ rw e (unused t digest keys free)
]

insert_available :
    (t : Table) (row : Row) (o : Option Row)
    → Fits memory row
    → DigestFree memory t row.execution_permit_digest
    → (n : ℕ) × (t' : Table) × (inserted t row o ≡ some (n, t'))
insert_available t row (some r) f free = (0, t, refl)
insert_available t row none f free =
    (1, add t row, rw (fits_lem row f, unused t row.execution_permit_digest t.keys free) refl)

update_available :
    (t : Table) (key digest : String) (change : Change) (o : Option Row)
    → ((r : Row) → o ≡ some r → Fits memory (change_row r change))
    → (n : ℕ) × (t' : Table) × (updated t key digest change o ≡ some (n, t'))
update_available t key digest change none f = (0, t, refl)
update_available t key digest change (some r) f =
    elim (Bool-cases (r.execution_permit_digest == digest && r.status == "RESERVED")) [
      | inl c ↦ (
        1,
        replace t key (change_row r change),
        rw (c, fits_lem (change_row r change) (f r refl)) refl,
      )
      | inr c ↦ (0, t, rw c refl)
    ]

pub memory-IsAvailable : IsAvailable memory
memory-IsAvailable = record {
  connects = λ w. refl;
  begins = λ w. (w, refl);
  commits = λ w. (w, refl);
  selects = λ w key. (w.row_at key, refl);
  inserts = λ w row f free. insert_available w row (w.row_at row.execution_id) f free;
  updates = λ w key digest change f. update_available w key digest change (w.row_at key) f;
}

abbrev pub no_rows : Table
no_rows = record { row_at = λ key. none; keys = [] }

-- The digests of Examples.antt, but for permits a digest of 32 bytes.
abbrev permit_bytes : List ℕ
permit_bytes =
    1 ∷ 2 ∷ 3 ∷ 4 ∷ 5 ∷ 6 ∷ 7 ∷ 8 ∷ 9 ∷ 10 ∷ 11 ∷ 12 ∷ 13 ∷ 14 ∷ 15 ∷ 16 ∷ 171 ∷ 172 ∷ 173 ∷ 174
    ∷ 175 ∷ 176 ∷ 177 ∷ 178 ∷ 179 ∷ 180 ∷ 181 ∷ 182 ∷ 252 ∷ 253 ∷ 254 ∷ 255 ∷ []

abbrev pub store_digests : Digests
store_digests = record digests { permit_digest = λ permit. record { value = permit_bytes } }

pub permit_digest-IsDigest : IsDigest (record { value = permit_bytes })
permit_digest-IsDigest = record { bytes = ground arith; size = refl }
