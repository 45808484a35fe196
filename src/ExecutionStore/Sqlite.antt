-- ===== src/ExecutionStore/Sqlite.antt =====
-- What sqlite_execution_store.py uses of SQLite: its statements on the table execution_records, each
-- of which may raise a DatabaseError, and their documented effect.
use Prim.Native.Char.{code}
use nest_authz.Domain.Hex.{text_length}
use nest_authz.Prelude.{
  Bool, true, ◌&&◌, ◌!=◌, nat_eq, ℕ, String, ◌≡◌, ◌⊎◌, Option, none, some, ◌==◌, if◌then◌else◌,
  string_eq,
}

-- A row of the table.
pub record Row : Type 0 where
  pub execution_id : String
  pub execution_permit_digest : String
  pub status : String
  pub result_reference : Option String
  pub failure_reference : Option String

-- The columns that the UPDATE statement sets.
pub record Change : Type 0 where
  pub status : String
  pub result_reference : Option String
  pub failure_reference : Option String

unfoldable pub change_row : Row → Change → Row
change_row row change = record row {
  status = change.status;
  result_reference = change.result_reference;
  failure_reference = change.failure_reference;
}

-- A world is the database with all that decides whether a statement fails. The number that `insert`
-- and `update` return is the cursor's row count; `connect_error` is the message of the DatabaseError
-- that connecting raises, if it does. `after_failure` is what follows a world at which connecting
-- raised, or a transaction began that was rolled back: its rows are those at the start, and what
-- decides whether a later statement fails may have changed, so that a retry may succeed.
-- `length` is the function of SQL.
pub record Database : Type 1 where
  pub World : Type 0
  pub contents : World → String → Option Row
  pub connect_error : World → Option String
  pub begin : World → Option World
  pub commit : World → Option World
  pub after_failure : World → World
  pub length : String → ℕ
  pub select : World → String → Option (Option Row)
  pub insert : World → Row → Option (ℕ × World)
  pub update : World → String → String → Change → Option (ℕ × World)

-- No character is U+0000.
abbrev pub no_nul : String → Bool
no_nul String.[] = true
no_nul (String.◌∷◌ c s) = code c != 0 && no_nul s

module _ (D : Database) where
  -- Both worlds have the same rows.
  abbrev pub Same : D.World → D.World → Type 0
  Same w w' = (key : String) → D.contents w' key ≡ D.contents w key

  -- The second world has the row under its identity, and else what the first has.
  abbrev pub Sets : D.World → D.World → String → Row → Type 0
  Sets w w' key row =
      (j : String) → D.contents w' j ≡ (if j == key then some row else D.contents w j)

  -- The WHERE clause of the UPDATE statement.
  abbrev pub Matches : D.World → String → String → Row → Type 0
  Matches w key digest row =
      (D.contents w key ≡ some row)
      × (row.execution_permit_digest ≡ digest)
      × (row.status ≡ "RESERVED")

  pub record IsLawful : Type 0 where
    pub begin-Same : (w w' : D.World) → D.begin w ≡ some w' → Same w w'
    pub commit-Same : (w w' : D.World) → D.commit w ≡ some w' → Same w w'
    -- length(X) of SQL counts the characters before the first U+0000.
    pub length-no_nul : (s : String) → no_nul s ≡ true → D.length s ≡ text_length s
    pub after_failure-Same : (w : D.World) → Same w (D.after_failure w)
    pub select-contents :
        (w : D.World) (key : String) (o : Option Row)
        → D.select w key ≡ some o
        → o ≡ D.contents w key
    -- ON CONFLICT(execution_id) DO NOTHING
    pub insert-effect :
        (w : D.World) (row : Row) (n : ℕ) (w' : D.World)
        → D.insert w row ≡ some (n, w')
        → (D.contents w row.execution_id ≡ none) × (n ≡ 1) × Sets w w' row.execution_id row
          ⊎ ((r : Row) × (D.contents w row.execution_id ≡ some r)) × (n ≡ 0) × Same w w'
    pub update-effect :
        (w : D.World) (key digest : String) (change : Change) (n : ℕ) (w' : D.World)
        → D.update w key digest change ≡ some (n, w')
        → ((r : Row) × Matches w key digest r × (n ≡ 1) × Sets w w' key (change_row r change))
          ⊎ (n ≡ 0) × Same w w' × ((r : Row) → ¬ Matches w key digest r)
