-- ===== src/ExecutionStore/Terminal.antt =====
-- The effect of `_mark_terminal` on the table.
use mathlib.Core.Logic.{◌≢◌}
use Prim.Native.String.{◌++◌ as ◌<>◌}
use nest_authz.Prelude.{
  not_found_error, permit_mismatch_error, execution_transition_error, store_error, ℕ, String, ◌≡◌,
  refl, sym, ◌∙◌, ap, subst, ◌⊎◌, Option, none, some, inl, inr, false, ◌==◌, ◌!=◌, string_eq,
  nat_eq, Result, Error, ok, err, arith, bind_returns, raise_if-passed, ok-injective, eq_of_not_ne,
  if◌then◌else◌,
}
use nest_authz.Domain.Status.{ExecutionStatus, execution_status_eq}
use nest_authz.Domain.Value.{Sha256Digest, sha256_digest_eq}
use nest_authz.Domain.Hex.{digest_str, execution_id_str}
use nest_authz.Domain.Execution.{ExecutionPermit, ExecutionId, execution_id_eq, ExecutionRecord}
use nest_authz.Digests.{Digests}
use nest_authz.ExecutionStore.Sqlite.{Row, Change, change_row, Database, IsLawful, Same, Sets}
use nest_authz.ExecutionStore.{
  execution_id_for, status_value, status_from_value, statement, found, record_from_row,
  write_transaction, reference, terminal_references, terminal_change, mark_terminal_body,
  apply_change, mark_terminal,
}
use nest_authz.ExecutionStore.Preserves.{statement-ok, write_transaction-ok, write_transaction-err}
use nest_authz.ExecutionStore.Reserve.{Reads, record_from_row-Reads, selected_row}

module _ (D : Database) (id : ExecutionId) (digest : Sha256Digest) where
  abbrev key : String
  key = execution_id_str id

  -- The RESERVED row of the permit is given its terminal columns, and nothing else changes.
  pub record Completes (change : Change) (w w' : D.World) (r : ExecutionRecord) : Type 0 where
    pub row : Row
    pub there : D.contents w key ≡ some row
    pub was_reserved : row.status ≡ "RESERVED"
    pub owned : row.execution_permit_digest ≡ digest_str digest
    pub sets : Sets D w w' key (change_row row change)
    pub reads : Reads (change_row row change) id r

  abbrev Applied : Change → D.World → Result ExecutionRecord → D.World → Type 0
  Applied change w m w' =
      ((r : ExecutionRecord) × (m ≡ ok r) × Completes change w w' r)
      ⊎ ((e : Error) × (m ≡ err e)) × Same D w w'

  Completes-Same :
      (change : Change) (u v w w' : D.World) (r : ExecutionRecord)
      → Same D u v
      → Completes change v w r
      → Same D w w'
      → Completes change u w' r
  Completes-Same change u v w w' r before h after = record {
    row = h.row;
    there = sym (before key) ∙ h.there;
    was_reserved = h.was_reserved;
    owned = h.owned;
    sets = λ j. ground (arith, before j, after j, h.sets j);
    reads = h.reads;
  }

module _ (D : Database) (lawful : IsLawful D) (id : ExecutionId) (digest : Sha256Digest) where
  completed :
      (change : Change) (w v : D.World) (n : ℕ) (row updated : Row) (q : ExecutionRecord)
      → D.update w (key D id digest) (digest_str digest) change ≡ some (n, v)
      → (n != 1) ≡ false
      → D.contents v (key D id digest) ≡ some updated
      → record_from_row updated id ≡ ok q
      → Completes D id digest change w v q
  completed change w v n row updated q updates one stored reads =
      elim (lawful.update-effect w (key D id digest) (digest_str digest) change n v updates) [
        | inl (r, (there, owned, was_reserved), _, sets) ↦
            let same : updated ≡ change_row r change = ground (arith, sets (key D id digest)) in
            record {
              row = r;
              there = there;
              was_reserved = was_reserved;
              owned = owned;
              sets = sets;
              reads = subst (λ x. Reads x id q) same (record_from_row-Reads updated id q reads);
            }
        | inr (zero_rows, _, _) ↦ ground arith
      ]

  mark_terminal_body-ok :
      (change : Change) (w w' : D.World) (r : ExecutionRecord)
      → mark_terminal_body D id digest change w ≡ ok (r, w')
      → Completes D id digest change w w' r
  unfolding mark_terminal_body
  mark_terminal_body-ok change w w' r h =
      let (selected, selects, h1) = bind_returns (statement (D.select w (key D id digest))) _ h in
      let (row, there, h2) =
        bind_returns (found (not_found_error "execution record does not exist") selected) _ h1 in
      let (current, reads, h3) = bind_returns (record_from_row row id) _ h2 in
      let (_, h4) =
        raise_if-passed (current.execution_permit_digest != digest)
          (permit_mismatch_error "execution permit does not own the execution record") _ h3 in
      let (_, h5) =
        raise_if-passed (current.status != ExecutionStatus.reserved)
          (execution_transition_error (status_value current.status <> " execution is terminal")) _
          h4 in
      let ((n, v), updates, h6) =
        bind_returns (statement (D.update w (key D id digest) (digest_str digest) change)) _ h5 in
      let (one, h7) =
        raise_if-passed (n != 1)
          (execution_transition_error "execution state changed before terminal transition") _ h6 in
      let (reselected, reselects, h8) =
        bind_returns (statement (D.select v (key D id digest))) _ h7 in
      let (updated, again, h9) =
        bind_returns
          (found (store_error "terminal transition lost its execution record") reselected) _ h8 in
      let (q, rereads, h10) = bind_returns (record_from_row updated id) _ h9 in
      subst (λ x. Completes D id digest change w x.1 x.0) (ok-injective h10)
        (completed change w v n row updated q (statement-ok _ (n, v) updates) one
          (selected_row D lawful v (key D id digest) _ reselected updated reselects again) rereads)

  applied :
      (change : Change) (w : D.World) (m : Result ExecutionRecord) (w' : D.World)
      → write_transaction D w (mark_terminal_body D id digest change) ≡ (m, w')
      → Applied D id digest change w m w'
  applied change w (err e) w' h = inr (
    (e, refl),
    subst (Same D w) (sym (write_transaction-err D w _ e w' h)) (lawful.after_failure-Same w),
  )
  applied change w (ok r) w' h =
      let (w1, w2, before, runs, after) = write_transaction-ok D lawful w _ r w' h in
      inl (
        r,
        refl,
        Completes-Same D id digest change w w1 w2 w' r before
            (mark_terminal_body-ok change w1 w2 r runs) after,
      )

-- The columns of a terminal record with this status and reference.
abbrev pub terminal_columns : ExecutionStatus → String → Change
terminal_columns status value = record {
  status = status_value status;
  result_reference = if status == ExecutionStatus.succeeded then some value else none;
  failure_reference = if status == ExecutionStatus.failed then some value else none;
}

abbrev change_of : ExecutionStatus → Option String × Option String → Change
change_of status x = record {
  status = status_value status;
  result_reference = x.0;
  failure_reference = x.1;
}

terminal_references-ok :
    (status : ExecutionStatus) (value : String) (rs : Option String × Option String)
    → terminal_references status value ≡ ok rs
    → (status ≢ ExecutionStatus.reserved)
      × (rs ≡ (
        (terminal_columns status value).result_reference,
        (terminal_columns status value).failure_reference,
      ))
unfolding terminal_references reference
terminal_references-ok ExecutionStatus.reserved value rs h = cc
terminal_references-ok ExecutionStatus.succeeded value rs h = (λ e. cc, ground arith)
terminal_references-ok ExecutionStatus.failed value rs h = (λ e. cc, ground arith)

pub status_from_value-status_value :
    (s : ExecutionStatus) → status_from_value (status_value s) ≡ some s
unfolding status_from_value string_eq
status_from_value-status_value ExecutionStatus.reserved = ground arith
status_from_value-status_value ExecutionStatus.succeeded = ground arith
status_from_value-status_value ExecutionStatus.failed = ground arith

module _ (digests : Digests) (id : ExecutionId) (permit : ExecutionPermit)
    (status : ExecutionStatus) (value : String) where
  terminal_change-ok :
      (change : Change)
      → terminal_change digests id permit status value ≡ ok change
      → (status ≢ ExecutionStatus.reserved)
        × (id ≡ execution_id_for digests permit)
        × (change ≡ terminal_columns status value)
  unfolding terminal_change
  terminal_change-ok change h =
      let (rs, e, h1) = bind_returns (terminal_references status value) _ h in
      let (same, h2) = raise_if-passed (id != execution_id_for digests permit) _ _ h1 in
      let (ne, columns) = terminal_references-ok status value rs e in
      (ne, eq_of_not_ne id _ same, sym (ok-injective h2) ∙ ap (change_of status) columns)

module _ (D : Database) (digests : Digests) (id : ExecutionId) (permit : ExecutionPermit)
    (status : ExecutionStatus) (value : String) where
  abbrev columns : Change
  columns = terminal_columns status value

  -- What a transition that returns has checked and done.
  pub record Transition (w w' : D.World) (r : ExecutionRecord) : Type 0 where
    pub is_terminal : status ≢ ExecutionStatus.reserved
    pub identified : id ≡ execution_id_for digests permit
    pub has_status : r.status ≡ status
    pub completes : Completes D id (digests.permit_digest permit) columns w w' r

  abbrev pub TerminalEffect : D.World → Result ExecutionRecord → D.World → Type 0
  TerminalEffect w m w' =
      ((r : ExecutionRecord) × (m ≡ ok r) × Transition w w' r)
      ⊎ ((e : Error) × (m ≡ err e)) × Same D w w'

module _ (D : Database) (lawful : IsLawful D) (digests : Digests) (id : ExecutionId)
    (permit : ExecutionPermit) (status : ExecutionStatus) (value : String) where
  transition :
      (w w' : D.World) (change : Change) (r : ExecutionRecord)
      → terminal_change digests id permit status value ≡ ok change
      → Completes D id (digests.permit_digest permit) change w w' r
      → Transition D digests id permit status value w w' r
  unfolding change_row
  transition w w' change r h completes =
      let (ne, same, e) = terminal_change-ok digests id permit status value change h in
      let done = subst (λ x. Completes D id (digests.permit_digest permit) x w w' r) e completes in
      record {
        is_terminal = ne;
        identified = same;
        has_status = ground (arith, sym done.reads.status ∙ status_from_value-status_value status);
        completes = done;
      }

  outcome :
      (w : D.World) (c : Result Change)
      → terminal_change digests id permit status value ≡ c
      → let (m, w') = apply_change D id (digests.permit_digest permit) w c in
        TerminalEffect D digests id permit status value w m w'
  outcome w (err e) h = inr ((e, refl), λ j. refl)
  outcome w (ok change) h =
      let x =
        write_transaction D w (mark_terminal_body D id (digests.permit_digest permit) change) in
      elim (applied D lawful id (digests.permit_digest permit) change w x.0 x.1 refl) [
        | inl (r, e, completes) ↦ inl (r, e, transition w x.1 change r h completes)
        | inr failed ↦ inr failed
      ]

  -- On every world, a transition to a terminal status either returns the record that the table then
  -- shows: the identity is the permit's, the row was RESERVED with the digest of the permit, and it
  -- alone changes, to the status and its one reference; or it raises and leaves the table as it was.
  pub mark_terminal_effect :
      (w : D.World)
      → let (m, w') = mark_terminal D digests w id permit status value in
        TerminalEffect D digests id permit status value w m w'
  unfolding mark_terminal
  mark_terminal_effect w = outcome w (terminal_change digests id permit status value) refl
