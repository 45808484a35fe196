-- ===== src/ExecutionStore/Available.antt =====
-- A database in which statements that meet the schema succeed, and the records that the store then makes.
use mathlib.Core.Logic.{◌≢◌}
use nest_authz.Prelude.{
  ◌≡◌, refl, ap, ◌∙◌, Option, none, some, Result, ok, arith, String, string_eq, nat_eq, false, ℕ,
}
use nest_authz.Domain.Status.{ExecutionStatus, execution_status_eq}
use nest_authz.Domain.Value.{sha256_digest_eq, is_blank, non_blank}
use nest_authz.Domain.Execution.{
  ExecutionPermit, execution_id_eq, ExecutionRecord, execution_record_post_init, check_reference,
  check_references,
}
use nest_authz.Digests.{Digests}
use nest_authz.ExecutionStore.Sqlite.{Row, Change, change_row, Database, IsLawful, Same}
use nest_authz.ExecutionStore.{
  execution_id_for, reference, end_transaction, write_transaction, terminal_change,
  terminal_references,
}
use nest_authz.ExecutionStore.Schema.{Fits, DigestFree}
use nest_authz.ExecutionStore.Terminal.{terminal_columns}

-- Connecting, starting, reading and committing succeed; so do an insert of a row that meets the schema,
-- with a digest that no row has, and an update to a row that meets it.
pub record IsAvailable (D : Database) : Type 0 where
  pub connects : (w : D.World) → D.connect_error w ≡ none
  pub begins : (w : D.World) → (w' : D.World) × (D.begin w ≡ some w')
  pub commits : (w : D.World) → (w' : D.World) × (D.commit w ≡ some w')
  pub selects : (w : D.World) (key : String) → (o : Option Row) × (D.select w key ≡ some o)
  pub inserts :
      (w : D.World) (row : Row)
      → Fits D row
      → DigestFree D w row.execution_permit_digest
      → (n : ℕ) × (w' : D.World) × (D.insert w row ≡ some (n, w'))
  pub updates :
      (w : D.World) (key digest : String) (change : Change)
      → ((r : Row) → D.contents w key ≡ some r → Fits D (change_row r change))
      → (n : ℕ) × (w' : D.World) × (D.update w key digest change ≡ some (n, w'))

module _ (D : Database) (lawful : IsLawful D) (available : IsAvailable D) where
  -- A transaction returns what its body returns.
  pub transaction-ok {ℓ} :
      {A : Type ℓ} (w : D.World) (body : D.World → Result (A × D.World)) (a : A)
      → ((w1 : D.World) → Same D w w1 → (w2 : D.World) × (body w1 ≡ ok (a, w2)))
      → (w' : D.World) × (write_transaction D w body ≡ (ok a, w'))
  unfolding write_transaction
  transaction-ok w body a runs =
      let (w1, begins) = available.begins w in
      let (w2, returns) = runs w1 (lawful.begin-Same w w1 begins) in
      let (w', commits) = available.commits w2 in
      (
        w',
        rw (available.connects w, write_transaction, begins, returns, commits, end_transaction)
            refl,
      )

  pub selected : (w : D.World) (key : String) → D.select w key ≡ some (D.contents w key)
  selected w key =
      let (o, e) = available.selects w key in e ∙ ap some (lawful.select-contents w key o e)

module _ (digests : Digests) (permit : ExecutionPermit) where
  -- The record of a permit that is reserved.
  abbrev pub reserved_record : ExecutionRecord
  reserved_record = record {
    execution_id = execution_id_for digests permit;
    execution_permit_digest = digests.permit_digest permit;
    status = ExecutionStatus.reserved;
    result_reference = none;
    failure_reference = none;
  }

  pub reserved_accepted : execution_record_post_init reserved_record ≡ ok reserved_record
  unfolding execution_record_post_init check_references execution_id_for
  reserved_accepted = ground arith

  -- What follows, for a terminal status and a reference that is not blank.
  abbrev pub terminal_record : ExecutionStatus → String → ExecutionRecord
  terminal_record status value = record {
    execution_id = execution_id_for digests permit;
    execution_permit_digest = digests.permit_digest permit;
    status = status;
    result_reference = (terminal_columns status value).result_reference;
    failure_reference = (terminal_columns status value).failure_reference;
  }

  pub terminal_change_returns :
      (status : ExecutionStatus) (value : String)
      → status ≢ ExecutionStatus.reserved
      → is_blank value ≡ false
      → terminal_change digests (execution_id_for digests permit) permit status value
        ≡ ok (terminal_columns status value)
  unfolding terminal_change terminal_references reference
  terminal_change_returns ExecutionStatus.reserved value ne named = absurd (ne refl)
  terminal_change_returns ExecutionStatus.succeeded value ne named = ground (arith, named)
  terminal_change_returns ExecutionStatus.failed value ne named = ground (arith, named)

  pub terminal_accepted :
      (status : ExecutionStatus) (value : String)
      → status ≢ ExecutionStatus.reserved
      → is_blank value ≡ false
      → execution_record_post_init (terminal_record status value)
        ≡ ok (terminal_record status value)
  unfolding execution_record_post_init check_references execution_id_for check_reference non_blank
  terminal_accepted ExecutionStatus.reserved value ne named = absurd (ne refl)
  terminal_accepted ExecutionStatus.succeeded value ne named = ground (arith, named)
  terminal_accepted ExecutionStatus.failed value ne named = ground (arith, named)
