-- ===== src/ExecutionStore/Liveness.antt =====
-- Where no statement fails but for the schema, a permit without a row is reserved, and its execution
-- then completes.
use mathlib.Core.Logic.{◌≢◌}
use nest_authz.Prelude.{
  ◌≡◌, refl, sym, ap, subst, ◌∙◌, none, some, ok, arith, String, string_eq, nat_eq, true, false,
  inl, inr,
}
use nest_authz.Domain.Status.{ExecutionStatus, execution_status_eq}
use nest_authz.Domain.Value.{sha256_digest_eq, is_blank}
use nest_authz.Domain.Hex.{execution_id_str, digest_str, IsDigest}
use nest_authz.Domain.Execution.{
  ExecutionPermit, ExecutionId, execution_id_eq, ExecutionRecord, execution_record_post_init,
}
use nest_authz.Digests.{Digests}
use nest_authz.ExecutionStore.Sqlite.{Row, change_row, Database, IsLawful}
use nest_authz.ExecutionStore.{
  execution_id_for, get, reserved_row, reserve_body, reserve, mark_terminal, mark_terminal_body,
}
use nest_authz.ExecutionStore.Reserve.{new_result, new_reservation, reserve-Effect}
use nest_authz.ExecutionStore.Schema.{Fits, DigestFree, reserved_row-Fits, terminal_row-Fits}
use nest_authz.ExecutionStore.Terminal.{terminal_columns, mark_terminal_effect}
use nest_authz.ExecutionStore.RoundTrip.{row_for, record_from_row-row_for}
use nest_authz.ExecutionStore.Available.{
  IsAvailable, transaction-ok, selected, reserved_record, reserved_accepted, terminal_record,
  terminal_change_returns, terminal_accepted,
}

some-injective : {r s : Row} → some r ≡ some s → r ≡ s
some-injective h = cc

module _ (D : Database) (lawful : IsLawful D) (available : IsAvailable D) (digests : Digests)
    (permit : ExecutionPermit) where
  reserve_body_returns :
      (w : D.World)
      → IsDigest (digests.permit_digest permit)
      → D.contents w (execution_id_str (execution_id_for digests permit)) ≡ none
      → DigestFree D w (digest_str (digests.permit_digest permit))
      → (w' : D.World) × (reserve_body D digests permit w
          ≡ ok ((true, (reserved_record digests permit)), w'))
  unfolding reserve_body execution_id_for
  reserve_body_returns w v free unowned =
      let id = execution_id_for digests permit in
      let (n, w', inserts) =
        available.inserts w (reserved_row id (digests.permit_digest permit))
          (reserved_row-Fits D lawful (digests.permit_digest permit) v) unowned in
      elim (lawful.insert-effect w _ n w' inserts) [
        | inl (_, one, sets) ↦ (
          w',
          rw
              (
                inserts,
                selected D lawful available w' (execution_id_str id),
                sets (execution_id_str id),
              )
              (ground (
                arith,
                record_from_row-row_for (reserved_record digests permit) v
                    (reserved_accepted digests permit),
              )),
        )
        | inr ((r, there), _, _) ↦ absurd (ground (arith, there, free))
      ]

  mark_terminal_body_returns :
      (status : ExecutionStatus) (value : String) (w : D.World)
      → IsDigest (digests.permit_digest permit)
      → status ≢ ExecutionStatus.reserved
      → is_blank value ≡ false
      → D.length value ≢ 0
      → D.contents w (execution_id_str (execution_id_for digests permit))
        ≡ some (row_for (reserved_record digests permit))
      → (w' : D.World) × (mark_terminal_body D
            (execution_id_for digests permit)
            (digests.permit_digest permit)
            (terminal_columns status value)
            w
          ≡ ok (terminal_record digests permit status value, w'))
  unfolding mark_terminal_body change_row execution_id_for
  mark_terminal_body_returns status value w v ne named text there =
      let id = execution_id_for digests permit in
      let digest = digests.permit_digest permit in
      let (n, w', updates) =
        available.updates w (execution_id_str id) (digest_str digest)
          (terminal_columns status value)
          (λ r found.
            subst (λ x. Fits D (change_row x (terminal_columns status value)))
              (some-injective (sym there ∙ found))
              (terminal_row-Fits D lawful digest v status value ne text)) in
      elim (lawful.update-effect w _ _ _ n w' updates) [
        | inl (r, (found, _, _), one, sets) ↦
            let same : change_row r (terminal_columns status value)
                ≡ row_for (terminal_record digests permit status value) =
              ground (arith, found, there) in
            (
              w',
              rw
                  (
                    selected D lawful available w (execution_id_str id),
                    there,
                    record_from_row-row_for (reserved_record digests permit) v
                        (reserved_accepted digests permit),
                    updates,
                    selected D lawful available w' (execution_id_str id),
                    sets (execution_id_str id),
                  )
                  (ground (
                    arith,
                    one,
                    same,
                    record_from_row-row_for (terminal_record digests permit status value) v
                        (terminal_accepted digests permit status value ne named),
                  )),
            )
        | inr (none_updated, same, unmatched) ↦
            absurd (unmatched (row_for (reserved_record digests permit)) (there, refl, refl))
      ]

  -- `reserve` on a permit without a row returns NEW_RESERVATION.
  reserve_returns :
      (w : D.World)
      → IsDigest (digests.permit_digest permit)
      → D.contents w (execution_id_str (execution_id_for digests permit)) ≡ none
      → DigestFree D w (digest_str (digests.permit_digest permit))
      → (w' : D.World) × (reserve D digests w permit
          ≡ (ok (new_result (reserved_record digests permit)), w'))
  unfolding reserve
  reserve_returns w v free unowned =
      let (w', returns) =
        transaction-ok D lawful available w (reserve_body D digests permit)
          (true, (reserved_record digests permit))
          (λ w1 same.
            reserve_body_returns w1 v (same _ ∙ free)
              (λ key r e. unowned key r (sym (same key) ∙ e))) in
      (w', rw (returns, new_reservation (reserved_record digests permit) refl) refl)

  mark_terminal_returns :
      (status : ExecutionStatus) (value : String) (w : D.World)
      → IsDigest (digests.permit_digest permit)
      → status ≢ ExecutionStatus.reserved
      → is_blank value ≡ false
      → D.length value ≢ 0
      → D.contents w (execution_id_str (execution_id_for digests permit))
        ≡ some (row_for (reserved_record digests permit))
      → (w' : D.World) × (mark_terminal D digests w
            (execution_id_for digests permit)
            permit
            status
            value
          ≡ (ok (terminal_record digests permit status value), w'))
  unfolding mark_terminal
  mark_terminal_returns status value w v ne named text there =
      let (w', returns) =
        transaction-ok D lawful available w _ (terminal_record digests permit status value)
          (λ w1 same.
            mark_terminal_body_returns status value w1 v ne named text (same _ ∙ there)) in
      (w', rw (terminal_change_returns digests permit status value ne named) returns)

  abbrev execution : ExecutionId
  execution = execution_id_for digests permit

  reserved_there :
      (w w' : D.World)
      → reserve D digests w permit ≡ (ok (new_result (reserved_record digests permit)), w')
      → D.contents w' (execution_id_str execution) ≡ some (row_for (reserved_record digests permit))
  reserved_there w w' h = elim (reserve-Effect D lawful digests permit w) [
    | inl (r, e, inserts) ↦
        ground (arith, inserts.sets (execution_id_str execution), ap (λ x. x.1) h)
    | inr (same, found) ↦
        absurd ((found (new_result (reserved_record digests permit)) (ap (λ x. x.0) h)).0 refl)
  ]

  -- The store shows the record of a row.
  get_returns :
      (w : D.World) (r : ExecutionRecord)
      → IsDigest r.execution_permit_digest
      → execution_record_post_init r ≡ ok r
      → D.contents w (execution_id_str r.execution_id) ≡ some (row_for r)
      → get D digests w r.execution_id ≡ ok (some r)
  unfolding get
  get_returns w r v accepted there =
      rw
        (
          available.connects w,
          get,
          selected D lawful available w (execution_id_str r.execution_id),
          there,
          record_from_row-row_for r v accepted,
        )
        refl

  terminal_there :
      (w w' : D.World) (status : ExecutionStatus) (value : String)
      → D.contents w (execution_id_str execution) ≡ some (row_for (reserved_record digests permit))
      → mark_terminal D digests w execution permit status value
        ≡ (ok (terminal_record digests permit status value), w')
      → D.contents w' (execution_id_str execution)
        ≡ some (row_for (terminal_record digests permit status value))
  unfolding change_row
  terminal_there w w' status value there h =
      elim (mark_terminal_effect D lawful digests execution permit status value w) [
        | inl (r, _, t) ↦
            let same : t.completes.row ≡ row_for (reserved_record digests permit) =
              ground (arith, t.completes.there, there) in
            ground (
              arith,
              t.completes.sets (execution_id_str execution),
              ap (λ x. x.1) h,
              ap (λ x. change_row x (terminal_columns status value)) same,
            )
        | inr ((e, raised), _) ↦ absurd (ground (arith, raised, ap (λ x. x.0) h))
      ]

  -- Where the database fails no statement that meets the schema, the permit's digest has 32 bytes, and
  -- the table has no row of the permit's identity or digest, `reserve` returns NEW_RESERVATION with the
  -- RESERVED record of the permit; a transition that follows, to a terminal status with a reference that
  -- is neither blank nor empty for SQL, returns the record with that status and reference; and `get` then
  -- returns this record.
  pub reserve_then_complete :
      (w : D.World) (status : ExecutionStatus) (value : String)
      → IsDigest (digests.permit_digest permit)
      → D.contents w (execution_id_str execution) ≡ none
      → DigestFree D w (digest_str (digests.permit_digest permit))
      → status ≢ ExecutionStatus.reserved
      → is_blank value ≡ false
      → D.length value ≢ 0
      → let (m, w1) = reserve D digests w permit in
        let (m', w2) = mark_terminal D digests w1 execution permit status value in
        (m ≡ ok (new_result (reserved_record digests permit)))
        × (m' ≡ ok (terminal_record digests permit status value))
        × (get D digests w2 execution ≡ ok (some (terminal_record digests permit status value)))
  reserve_then_complete w status value v free unowned ne named text =
      let (w1, reserves) = reserve_returns w v free unowned in
      let there = reserved_there w w1 reserves in
      let (w2, completes) = mark_terminal_returns status value w1 v ne named text there in
      let reads =
        get_returns w2 (terminal_record digests permit status value) v
          (terminal_accepted digests permit status value ne named)
          (terminal_there w1 w2 status value there completes) in
      let from_w1 = sym (ap (λ x. x.1) reserves) in
      (
        ap (λ x. x.0) reserves,
        subst
            (λ x.
              (mark_terminal D digests x execution permit status value).0
              ≡ ok (terminal_record digests permit status value))
            from_w1 (ap (λ x. x.0) completes),
        subst
            (λ x.
              get D digests (mark_terminal D digests x execution permit status value).1 execution
              ≡ ok (some (terminal_record digests permit status value)))
            from_w1
            (subst
              (λ x.
                get D digests x execution ≡ ok (some (terminal_record digests permit status value)))
              (sym (ap (λ x. x.1) completes)) reads),
      )
