-- ===== src/ExecutionStore/Reserve.antt =====
-- The effect of `reserve` on the table.
use mathlib.Core.Logic.{◌≢◌}
use nest_authz.Prelude.{
  String, ◌≡◌, refl, sym, ◌∙◌, ap, subst, ◌⊎◌, Option, none, some, inl, inr, Bool, true, false,
  string_eq, nat_eq, Result, Error, ok, err, arith, bind_returns, raise_if-passed, ok-injective,
}
use nest_authz.Domain.Status.{ExecutionStatus, execution_status_eq, ExecutionReservationStatus}
use nest_authz.Domain.Hex.{execution_id_str}
use nest_authz.Domain.Execution.{
  ExecutionPermit, ExecutionId, ExecutionRecord, ExecutionReservationResult,
  execution_record_post_init, execution_reservation_result_post_init,
}
use nest_authz.Digests.{Digests}
use nest_authz.ExecutionStore.Sqlite.{Row, Database, IsLawful, Same, Sets}
use nest_authz.ExecutionStore.{
  execution_id_for, status_from_value, known_status, digest_from_text, wrapped, record_from_row,
  reservation_status, statement, found, write_transaction, reserved_row, reserve_body,
  reservation_result, reserve,
}
use nest_authz.ExecutionStore.Preserves.{statement-ok, write_transaction-ok, write_transaction-err}

known_status-ok :
    (o : Option ExecutionStatus) (s : ExecutionStatus) → known_status o ≡ ok s → o ≡ some s
known_status-ok none s h = cc
known_status-ok (some t) s h = ground arith

pub found-ok : (e : Error) (o : Option Row) (row : Row) → found e o ≡ ok row → o ≡ some row
found-ok e none row h = cc
found-ok e (some r) row h = ground arith

wrapped-ok {ℓ} :
    {A : Type ℓ} (message : String) (m : Result A) (a : A) → wrapped message m ≡ ok a → m ≡ ok a
wrapped-ok message (ok b) a h = h
wrapped-ok message (err e) a h = cc

record_ok : (r s : ExecutionRecord) → execution_record_post_init r ≡ ok s → r ≡ s
unfolding execution_record_post_init
record_ok r s h = ground arith

-- What a row that is read as a record says.
pub record Reads (row : Row) (execution_id : ExecutionId) (r : ExecutionRecord) : Type 0 where
  pub same_id : r.execution_id ≡ execution_id
  pub status : status_from_value row.status ≡ some r.status
  pub digest : digest_from_text row.execution_permit_digest ≡ ok r.execution_permit_digest
  pub result : r.result_reference ≡ row.result_reference
  pub failure : r.failure_reference ≡ row.failure_reference

pub record_from_row-Reads :
    (row : Row) (execution_id : ExecutionId) (r : ExecutionRecord)
    → record_from_row row execution_id ≡ ok r
    → Reads row execution_id r
unfolding record_from_row
record_from_row-Reads row execution_id r h =
    let (_, h1) = raise_if-passed _ _ _ h in
    let (status, known, h2) = bind_returns (known_status (status_from_value row.status)) _ h1 in
    let (digest, text, h3) = bind_returns (digest_from_text row.execution_permit_digest) _ h2 in
    let same = record_ok _ r (wrapped-ok _ _ r h3) in
    record {
      same_id = ap (λ x. x.execution_id) (sym same);
      status = known_status-ok _ status known ∙ ap (λ x. some x.status) same;
      digest = text ∙ ap (λ x. ok x.execution_permit_digest) same;
      result = ap (λ x. x.result_reference) (sym same);
      failure = ap (λ x. x.failure_reference) (sym same);
    }

abbrev pub new_result : ExecutionRecord → ExecutionReservationResult
new_result r = record { status = ExecutionReservationStatus.new_reservation; record_ = r }

-- A record that was inserted is RESERVED, and its reservation is NEW.
pub new_reservation :
    (r : ExecutionRecord)
    → r.status ≡ ExecutionStatus.reserved
    → reservation_result (ok (true, r)) ≡ ok (new_result r)
unfolding reservation_status execution_reservation_result_post_init
new_reservation r e = ground (arith, e)

old_status :
    (r : ExecutionRecord) (s : ExecutionReservationStatus)
    → reservation_status r false ≡ ok s
    → s ≢ ExecutionReservationStatus.new_reservation
unfolding reservation_status
old_status r s h = ground arith

post_init-ok :
    (x q : ExecutionReservationResult) → execution_reservation_result_post_init x ≡ ok q → x ≡ q
unfolding execution_reservation_result_post_init
post_init-ok x q h = ground arith

-- A record that was there before is no NEW reservation.
old_reservation :
    (r : ExecutionRecord) (q : ExecutionReservationResult)
    → reservation_result (ok (false, r)) ≡ ok q
    → (q.status ≢ ExecutionReservationStatus.new_reservation) × (q.record_ ≡ r)
old_reservation r q h =
    let (s, e, f) = bind_returns (reservation_status r false) _ h in
    let same = post_init-ok _ q f in
    (
      subst (λ x. x.status ≢ ExecutionReservationStatus.new_reservation) same (old_status r s e),
      ap (λ x. x.record_) (sym same),
    )

reserved_value :
    (s : ExecutionStatus) → status_from_value "RESERVED" ≡ some s → s ≡ ExecutionStatus.reserved
unfolding status_from_value string_eq
reserved_value s h = ground arith

module _ (D : Database) (lawful : IsLawful D) where
  pub selected_row :
      (v : D.World) (key : String) (e : Error) (o : Option Row) (row : Row)
      → statement (D.select v key) ≡ ok o
      → found e o ≡ ok row
      → D.contents v key ≡ some row
  selected_row v key e o row selects there =
      sym (lawful.select-contents v key o (statement-ok _ o selects)) ∙ found-ok e o row there

module _ (D : Database) (digests : Digests) (permit : ExecutionPermit) where
  abbrev pub id_of : ExecutionId
  id_of = execution_id_for digests permit

  abbrev pub key_of : String
  key_of = execution_id_str id_of

  abbrev pub row_of : Row
  row_of = reserved_row id_of (digests.permit_digest permit)

  -- The table gains the RESERVED row of a permit that it lacked.
  pub record Inserts (w w' : D.World) (r : ExecutionRecord) : Type 0 where
    pub free : D.contents w key_of ≡ none
    pub sets : Sets D w w' key_of row_of
    pub reads : Reads row_of id_of r
    pub is_reserved : r.status ≡ ExecutionStatus.reserved

  -- The table has a row of the permit, and stays.
  pub record Finds (w w' : D.World) (r : ExecutionRecord) : Type 0 where
    pub row : Row
    pub there : D.contents w key_of ≡ some row
    pub same : Same D w w'
    pub reads : Reads row id_of r

  abbrev Body : D.World → D.World → Bool → ExecutionRecord → Type 0
  Body w w' inserted r = (inserted ≡ true) × Inserts w w' r ⊎ (inserted ≡ false) × Finds w w' r

  -- What the transaction says decides what `reserve` does.
  abbrev pub Effect : D.World → Result ExecutionReservationResult → D.World → Type 0
  Effect w m w' =
      ((r : ExecutionRecord) × (m ≡ ok (new_result r)) × Inserts w w' r)
      ⊎ Same D w w'
        × ((q : ExecutionReservationResult)
            → m ≡ ok q
            → (q.status ≢ ExecutionReservationStatus.new_reservation) × Finds w w' q.record_)

  Inserts-Same :
      (u v w w' : D.World) (r : ExecutionRecord)
      → Same D u v
      → Inserts v w r
      → Same D w w'
      → Inserts u w' r
  Inserts-Same u v w w' r before h after = record {
    free = sym (before key_of) ∙ h.free;
    sets = λ j. ground (arith, before j, after j, h.sets j);
    reads = h.reads;
    is_reserved = h.is_reserved;
  }

  Finds-Same :
      (u v w w' : D.World) (r : ExecutionRecord)
      → Same D u v
      → Finds v w r
      → Same D w w'
      → Finds u w' r
  Finds-Same u v w w' r before h after = record {
    row = h.row;
    there = sym (before key_of) ∙ h.there;
    same = λ j. after j ∙ h.same j ∙ before j;
    reads = h.reads;
  }

module _ (D : Database) (lawful : IsLawful D) (digests : Digests) (permit : ExecutionPermit) where
  inserted :
      (w v : D.World) (row : Row) (q : ExecutionRecord)
      → D.contents w (key_of D digests permit) ≡ none
      → Sets D w v (key_of D digests permit) (row_of D digests permit)
      → D.contents v (key_of D digests permit) ≡ some row
      → record_from_row row (id_of D digests permit) ≡ ok q
      → Inserts D digests permit w v q
  inserted w v row q free sets stored reads =
      let same : row ≡ (row_of D digests permit) = ground (arith, sets (key_of D digests permit)) in
      let reads_of : Reads (row_of D digests permit) (id_of D digests permit) q =
        subst (λ x. Reads x (id_of D digests permit) q) same
          (record_from_row-Reads row (id_of D digests permit) q reads) in
      record {
        free = free;
        sets = sets;
        reads = reads_of;
        is_reserved = reserved_value q.status reads_of.status;
      }

  reserve_body-ok :
      (w w' : D.World) (b : Bool) (r : ExecutionRecord)
      → reserve_body D digests permit w ≡ ok ((b, r), w')
      → Body D digests permit w w' b r
  unfolding reserve_body
  reserve_body-ok w w' b r h =
      let ((n, v), inserts, h1) =
        bind_returns (statement (D.insert w (row_of D digests permit))) _ h in
      let (selected, selects, h2) =
        bind_returns (statement (D.select v (key_of D digests permit))) _ h1 in
      let (row, there, h3) = bind_returns (found _ selected) _ h2 in
      let (q, reads, h4) = bind_returns (record_from_row row (id_of D digests permit)) _ h3 in
      let stored = selected_row D lawful v (key_of D digests permit) _ selected row selects there in
      subst (λ x. Body D digests permit w x.1 x.0.0 x.0.1) (ok-injective h4)
        (elim (lawful.insert-effect w (row_of D digests permit) n v
          (statement-ok _ (n, v) inserts)) [
            | inl (free, one, sets) ↦ inl (ground arith, inserted w v row q free sets stored reads)
            | inr (there, none_inserted, same) ↦ inr (
              ground arith,
              record {
                row = row;
                there = sym (same (key_of D digests permit)) ∙ stored;
                same = same;
                reads = record_from_row-Reads row (id_of D digests permit) q reads;
              },
            )
          ])

  abbrev transacted : D.World → Result (Bool × ExecutionRecord) × D.World
  transacted w = write_transaction D w (reserve_body D digests permit)

  after_transaction :
      (w : D.World) (m : Result (Bool × ExecutionRecord)) (w' : D.World)
      → write_transaction D w (reserve_body D digests permit) ≡ (m, w')
      → Effect D digests permit w (reservation_result m) w'
  after_transaction w (err e) w' h = inr (
    subst (Same D w) (sym (write_transaction-err D w _ e w' h)) (lawful.after_failure-Same w),
    λ q x. cc,
  )
  after_transaction w (ok (b, r)) w' h =
      let (w1, w2, before, runs, after) = write_transaction-ok D lawful w _ (b, r) w' h in
      elim (reserve_body-ok w1 w2 b r runs) [
        | inl (e, inserts) ↦ inl (
          r,
          ap (λ x. reservation_result (ok (x, r))) e ∙ new_reservation r inserts.is_reserved,
          Inserts-Same D digests permit w w1 w2 w' r before inserts after,
        )
        | inr (e, finds) ↦
            let whole = Finds-Same D digests permit w w1 w2 w' r before finds after in
            inr (
              whole.same,
              λ q x.
                  let (ne, same) =
                    old_reservation r q (ap (λ y. reservation_result (ok (y, r))) (sym e) ∙ x) in
                  (ne, subst (Finds D digests permit w w') (sym same) whole),
            )
      ]

  -- On every world, `reserve` either returns NEW_RESERVATION, the table lacked the permit's row, and
  -- it gains exactly that row, RESERVED; or the table stays as it was, and if `reserve` returns, the
  -- table has a row of the permit, which the result shows, and the result is not NEW_RESERVATION.
  -- An exception so leaves the table as it was.
  pub reserve-Effect :
      (w : D.World) → let (m, w') = reserve D digests w permit in Effect D digests permit w m w'
  unfolding reserve
  reserve-Effect w = let x = transacted w in after_transaction w x.0 x.1 refl
