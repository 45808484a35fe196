-- ===== src/ExecutionStore.antt =====
-- execution_enforcement.py and sqlite_execution_store.py: durable execution records, of which each
-- permit has at most one. Sqlite has what the store uses of SQLite.
pub mod Sqlite
pub mod Preserves
pub mod Reserve
pub mod Terminal
pub mod SingleUse
pub mod RoundTrip
pub mod Available
pub mod Schema
pub mod Liveness
use Prim.Native.String.{◌++◌ as ◌<>◌}
use nest_authz.Prelude.{
  String, Bool, true, false, Option, none, some, ◌==◌, ◌!=◌, if◌then◌else◌, string_eq, nat_eq,
  Result, ok, err, ◌>>=◌, ◌>>◌, raise_if, Error, value_error, store_error, not_found_error,
  permit_mismatch_error, execution_transition_error, database_error,
}
use nest_authz.Domain.Status.{ExecutionStatus, execution_status_eq, ExecutionReservationStatus}
use nest_authz.Domain.Value.{Sha256Digest, sha256_digest_eq, is_blank}
use nest_authz.Domain.Hex.{digest_str, execution_id_str, from_hex, strip_prefix}
use nest_authz.Domain.Execution.{
  ExecutionPermit, ExecutionId, execution_id_eq, ExecutionRecord, ExecutionReservationResult,
  execution_record_post_init, execution_reservation_result_post_init,
}
use nest_authz.Digests.{Digests}
use nest_authz.ExecutionStore.Sqlite.{Row, Change, Database}

-- execution_enforcement.py
unfoldable pub execution_id_for : Digests → ExecutionPermit → ExecutionId
execution_id_for digests permit = record { permit_digest = digests.permit_digest permit }

-- `status.value`, and the enumeration's lookup by value.
abbrev pub status_value : ExecutionStatus → String
status_value ExecutionStatus.reserved = "RESERVED"
status_value ExecutionStatus.succeeded = "SUCCEEDED"
status_value ExecutionStatus.failed = "FAILED"

unfoldable pub status_from_value : String → Option ExecutionStatus
status_from_value value =
    if value == "RESERVED"
    then some ExecutionStatus.reserved
    else if value == "SUCCEEDED"
    then some ExecutionStatus.succeeded
    else if value == "FAILED"
    then some ExecutionStatus.failed
    else none

unfoldable pub reference : String → String → Result String
reference value field_name = do
  raise_if (is_blank value) (value_error (field_name <> " must not be blank"))
  ok value

-- `except …: raise ExecutionStoreError(message)`
abbrev pub wrapped {ℓ} : {A : Type ℓ} → String → Result A → Result A
wrapped message (ok a) = ok a
wrapped message (err e) = err (store_error message)

abbrev pub digest_after_prefix : Option String → Result Sha256Digest
digest_after_prefix none = err (store_error "stored execution-permit digest is malformed")
digest_after_prefix (some text) =
    wrapped "stored execution-permit digest is malformed" (from_hex text)

unfoldable pub digest_from_text : String → Result Sha256Digest
digest_from_text value = digest_after_prefix (strip_prefix "sha256:" value)

abbrev pub known_status : Option ExecutionStatus → Result ExecutionStatus
known_status none = err (store_error "stored execution record violates domain invariants")
known_status (some s) = ok s

unfoldable pub record_from_row : Row → ExecutionId → Result ExecutionRecord
record_from_row row execution_id = do
  raise_if (row.execution_id != execution_id_str execution_id)
      (store_error "stored execution identity does not match its lookup key")
  status ← known_status (status_from_value row.status)
  digest ← digest_from_text row.execution_permit_digest
  wrapped "stored execution record violates domain invariants" (
      execution_record_post_init (record {
        execution_id = execution_id;
        execution_permit_digest = digest;
        status = status;
        result_reference = row.result_reference;
        failure_reference = row.failure_reference;
      }))

unfoldable pub reservation_status : ExecutionRecord → Bool → Result ExecutionReservationStatus
reservation_status r true = do
  raise_if (r.status != ExecutionStatus.reserved)
      (store_error "new reservation did not produce RESERVED state")
  ok ExecutionReservationStatus.new_reservation
reservation_status r false =
    if r.status == ExecutionStatus.reserved
    then ok ExecutionReservationStatus.existing_reserved
    else if r.status == ExecutionStatus.succeeded
    then ok ExecutionReservationStatus.already_succeeded
    else ok ExecutionReservationStatus.failed_existing

abbrev pub transaction_failed : Error
transaction_failed = store_error "SQLite execution-store transaction failed"

-- A statement in a transaction: `none` is a DatabaseError.
abbrev pub statement {ℓ} : {A : Type ℓ} → Option A → Result A
statement none = err transaction_failed
statement (some a) = ok a

abbrev pub found : Error → Option Row → Result Row
found e none = err e
found e (some row) = ok row

abbrev pub reservation_result : Result (Bool × ExecutionRecord) → Result ExecutionReservationResult
reservation_result (err e) = err e
reservation_result (ok (inserted, r)) = do
  status ← reservation_status r inserted
  execution_reservation_result_post_init (record { status = status; record_ = r })

-- The two references of a terminal status, or the error for a status that is not terminal.
unfoldable pub terminal_references :
    ExecutionStatus → String → Result (Option String × Option String)
terminal_references ExecutionStatus.succeeded value = do
  checked ← reference value "result_reference"
  ok (some checked, none)
terminal_references ExecutionStatus.failed value = do
  checked ← reference value "failure_reference"
  ok (none, some checked)
terminal_references ExecutionStatus.reserved value =
    err (value_error "terminal status must be SUCCEEDED or FAILED")

-- The checks before the transaction.
unfoldable pub terminal_change :
    Digests → ExecutionId → ExecutionPermit → ExecutionStatus → String → Result Change
terminal_change digests execution_id permit status value = do
  (result_reference, failure_reference) ← terminal_references status value
  raise_if (execution_id != execution_id_for digests permit)
      (permit_mismatch_error "execution permit does not match the execution identity")
  ok (record {
    status = status_value status;
    result_reference = result_reference;
    failure_reference = failure_reference;
  })

-- The row that a reservation inserts.
abbrev pub reserved_row : ExecutionId → Sha256Digest → Row
reserved_row execution_id permit_digest = record {
  execution_id = execution_id_str execution_id;
  execution_permit_digest = digest_str permit_digest;
  status = "RESERVED";
  result_reference = none;
  failure_reference = none;
}

module _ (D : Database) where
  -- The end of a transaction: an exception rolls it back, to the rows at its start.
  abbrev pub end_transaction {ℓ} :
      {A : Type ℓ} → D.World → Result (A × D.World) → Result A × D.World
  end_transaction w (err e) = (err e, D.after_failure w)
  end_transaction w (ok (a, w')) = elim (D.commit w') [
    | none ↦ (err transaction_failed, D.after_failure w)
    | some w'' ↦ (ok a, w'')
  ]

  -- `with self._write_transaction() as connection`
  unfoldable pub write_transaction {ℓ} :
      {A : Type ℓ} → D.World → (D.World → Result (A × D.World)) → Result A × D.World
  write_transaction w body = elim (D.connect_error w) [
    | some message ↦ (err (database_error message), D.after_failure w)
    | none ↦ end_transaction w (do w' ← statement (D.begin w); body w')
  ]

  unfoldable pub mark_terminal_body :
      ExecutionId → Sha256Digest → Change → D.World → Result (ExecutionRecord × D.World)
  mark_terminal_body execution_id permit_digest change w = do
    let key = execution_id_str execution_id
    selected ← statement (D.select w key)
    row ← found (not_found_error "execution record does not exist") selected
    current ← record_from_row row execution_id
    raise_if (current.execution_permit_digest != permit_digest)
        (permit_mismatch_error "execution permit does not own the execution record")
    raise_if (current.status != ExecutionStatus.reserved)
        (execution_transition_error (status_value current.status <> " execution is terminal"))
    (count, w') ← statement (D.update w key (digest_str permit_digest) change)
    raise_if (count != 1)
        (execution_transition_error "execution state changed before terminal transition")
    reselected ← statement (D.select w' key)
    updated ← found (store_error "terminal transition lost its execution record") reselected
    r ← record_from_row updated execution_id
    ok (r, w')

  abbrev pub apply_change :
      ExecutionId → Sha256Digest → D.World → Result Change → Result ExecutionRecord × D.World
  apply_change execution_id permit_digest w (err e) = (err e, w)
  apply_change execution_id permit_digest w (ok change) =
      write_transaction w (mark_terminal_body execution_id permit_digest change)

module _ (D : Database) (digests : Digests) where
  unfoldable pub reserve_body :
      ExecutionPermit → D.World → Result ((Bool × ExecutionRecord) × D.World)
  reserve_body permit w = do
    let execution_id = execution_id_for digests permit
    (count, w') ← statement (D.insert w (reserved_row execution_id (digests.permit_digest permit)))
    selected ← statement (D.select w' (execution_id_str execution_id))
    row ← found (store_error "reservation transaction did not produce a record") selected
    r ← record_from_row row execution_id
    ok ((count == 1, r), w')

  unfoldable pub reserve : D.World → ExecutionPermit → Result ExecutionReservationResult × D.World
  reserve w permit =
      let (result, w') = write_transaction D w (reserve_body permit) in
      (reservation_result result, w')

  unfoldable pub get : D.World → ExecutionId → Result (Option ExecutionRecord)
  get w execution_id = elim (D.connect_error w) [
    | some message ↦ err (database_error message)
    | none ↦ read (D.select w (execution_id_str execution_id))
  ]
    where
      read : Option (Option Row) → Result (Option ExecutionRecord)
      read none = err (store_error "failed to read the SQLite execution store")
      read (some none) = ok none
      read (some (some row)) = do r ← record_from_row row execution_id; ok (some r)

  unfoldable pub mark_terminal :
      D.World
      → ExecutionId
      → ExecutionPermit
      → ExecutionStatus
      → String
      → Result ExecutionRecord × D.World
  mark_terminal w execution_id permit status value =
      apply_change D execution_id (digests.permit_digest permit) w
        (terminal_change digests execution_id permit status value)

  unfoldable pub mark_succeeded :
      D.World → ExecutionId → ExecutionPermit → String → Result ExecutionRecord × D.World
  mark_succeeded w execution_id permit result_reference =
      mark_terminal w execution_id permit ExecutionStatus.succeeded result_reference

  unfoldable pub mark_failed :
      D.World → ExecutionId → ExecutionPermit → String → Result ExecutionRecord × D.World
  mark_failed w execution_id permit failure_reference =
      mark_terminal w execution_id permit ExecutionStatus.failed failure_reference
