-- ===== src/ExecutionStore/SingleUse.antt =====
-- Sequences of calls of the store, and what no sequence can do: reserve a permit twice, lose a row or
-- change one that is terminal.
use nest_authz.Prelude.{
  ℕ, ◌+◌, ◌≤◌, String, ◌≡◌, refl, sym, ◌∙◌, ap, subst, none, some, inl, inr, Bool, true, false,
  ◌==◌, string_eq, Result, List, [], ◌∷◌, ok, err, arith, Bool-cases, eq_of_test, if◌then◌else◌,
}
use nest_authz.Domain.Status.{ExecutionStatus, ExecutionReservationStatus}
use nest_authz.Domain.Hex.{execution_id_str}
use nest_authz.Domain.Execution.{ExecutionPermit, ExecutionId, ExecutionReservationResult}
use nest_authz.Digests.{Digests}
use nest_authz.ExecutionStore.Sqlite.{Row, change_row, Database, IsLawful}
use nest_authz.ExecutionStore.{execution_id_for, reserve, mark_terminal}
use nest_authz.ExecutionStore.Preserves.{Preserves, Preserves-Same, Preserves-trans, Preserves-Sets}
use nest_authz.ExecutionStore.Reserve.{key_of, row_of, reserve-Effect}
use nest_authz.ExecutionStore.Terminal.{mark_terminal_effect}

-- A call that may change the table.
pub data Call : Type 0 where
  reserving : ExecutionPermit → Call
  marking : ExecutionId → ExecutionPermit → ExecutionStatus → String → Call

abbrev new_status : ExecutionReservationStatus → Bool
new_status ExecutionReservationStatus.new_reservation = true
new_status ExecutionReservationStatus.existing_reserved = false
new_status ExecutionReservationStatus.already_succeeded = false
new_status ExecutionReservationStatus.failed_existing = false

abbrev pub is_new : Result ExecutionReservationResult → Bool
is_new (err e) = false
is_new (ok q) = new_status q.status

new_status-eq :
    (s : ExecutionReservationStatus)
    → new_status s ≡ true
    → s ≡ ExecutionReservationStatus.new_reservation
new_status-eq ExecutionReservationStatus.new_reservation h = refl
new_status-eq ExecutionReservationStatus.existing_reserved h = cc
new_status-eq ExecutionReservationStatus.already_succeeded h = cc
new_status-eq ExecutionReservationStatus.failed_existing h = cc

is_new-ok :
    (m : Result ExecutionReservationResult)
    → is_new m ≡ true
    → (q : ExecutionReservationResult) × (m ≡ ok q)
      × (q.status ≡ ExecutionReservationStatus.new_reservation)
is_new-ok (err e) h = cc
is_new-ok (ok q) h = (q, refl, new_status-eq q.status h)

module _ (D : Database) (digests : Digests) where
  abbrev pub after : D.World → Call → D.World
  after w (reserving permit) = (reserve D digests w permit).1
  after w (marking id permit status value) = (mark_terminal D digests w id permit status value).1

  abbrev pub after_all : D.World → List Call → D.World
  after_all w [] = w
  after_all w (c ∷ cs) = after_all (after w c) cs

  -- Whether a call returns NEW_RESERVATION for this execution.
  abbrev pub grants : String → D.World → Call → Bool
  grants key w (reserving permit) =
      if execution_id_str (execution_id_for digests permit) == key
      then is_new (reserve D digests w permit).0
      else false
  grants key w (marking id permit status value) = false

  -- How many calls return NEW_RESERVATION for this execution.
  abbrev pub grant_count : String → D.World → List Call → ℕ
  grant_count key w [] = 0
  grant_count key w (c ∷ cs) = (if grants key w c then 1 else 0) + grant_count key (after w c) cs

module _ (D : Database) (lawful : IsLawful D) (digests : Digests) where
  reserve-Preserves :
      (w : D.World) (permit : ExecutionPermit)
      → Preserves D w (after D digests w (reserving permit))
  reserve-Preserves w permit = elim (reserve-Effect D lawful digests permit w) [
    | inl (r, e, inserts) ↦
        Preserves-Sets D w _ (key_of D digests permit) (row_of D digests permit) inserts.sets
          (λ row there. absurd (ground (arith, there, inserts.free)))
    | inr (same, e) ↦ Preserves-Same D w _ same
  ]

  mark_terminal-Preserves :
      (w : D.World) (id : ExecutionId) (permit : ExecutionPermit) (status : ExecutionStatus)
      (value : String)
      → Preserves D w (after D digests w (marking id permit status value))
  unfolding change_row
  mark_terminal-Preserves w id permit status value =
      elim (mark_terminal_effect D lawful digests id permit status value w) [
        | inl (r, e, t) ↦
            Preserves-Sets D w _ (execution_id_str id) _ t.completes.sets (λ row there.
              let same : t.completes.row ≡ row = ground (arith, t.completes.there) in
              (
                subst (λ x. x.status ≡ "RESERVED") same t.completes.was_reserved,
                ap (λ x. x.execution_permit_digest) same,
              ))
        | inr (e, same) ↦ Preserves-Same D w _ same
      ]

  -- A call that is granted the execution finds no row of it and leaves one.
  grants-row :
      (key : String) (w : D.World) (c : Call)
      → grants D digests key w c ≡ true
      → (D.contents w key ≡ none)
        × ((row : Row) × (D.contents (after D digests w c) key ≡ some row))
  grants-row key w (marking id permit status value) h = cc
  grants-row key w (reserving permit) h = elim (Bool-cases (key_of D digests permit == key)) [
    | inl e ↦ elim (reserve-Effect D lawful digests permit w) [
      | inl (r, _, inserts) ↦
          let same = eq_of_test (key_of D digests permit) key e in
          (
            ap (D.contents w) (sym same) ∙ inserts.free,
            (row_of D digests permit, ground (arith, inserts.sets key, same)),
          )
      | inr (_, found) ↦
          let (q, returns, is) = is_new-ok (reserve D digests w permit).0 (ground (arith, h)) in
          absurd ((found q returns).0 is)
    ]
    | inr e ↦ absurd (ground (arith, h))
  ]

  after-Preserves : (w : D.World) (c : Call) → Preserves D w (after D digests w c)
  after-Preserves w (reserving permit) = reserve-Preserves w permit
  after-Preserves w (marking id permit status value) =
      mark_terminal-Preserves w id permit status value

  -- No calls lose a row or change its permit digest, and none change a row that is not RESERVED.
  pub calls-Preserves : (w : D.World) (cs : List Call) → Preserves D w (after_all D digests w cs)
  calls-Preserves w [] = Preserves-Same D w w (λ j. refl)
  calls-Preserves w (c ∷ cs) =
      Preserves-trans D w _ _ (after-Preserves w c) (calls-Preserves (after D digests w c) cs)

  no_grant :
      (key : String) (w : D.World) (row : Row) (cs : List Call)
      → D.contents w key ≡ some row
      → grant_count D digests key w cs ≡ 0
  no_grant key w row [] there = refl
  no_grant key w row (c ∷ cs) there =
      let (row', there', _) = (after-Preserves w c).owned key row there in
      let rest = no_grant key (after D digests w c) row' cs there' in
      elim (Bool-cases (grants D digests key w c)) [
        | inl h ↦ absurd (ground (arith, (grants-row key w c h).0, there))
        | inr h ↦ ground (arith, h, rest)
      ]

  -- Over any calls, where any of them may fail and be tried again, at most one reservation of an
  -- execution is NEW_RESERVATION.
  pub grant_count_at_most_one :
      (key : String) (w : D.World) (cs : List Call) → grant_count D digests key w cs ≤ 1
  grant_count_at_most_one key w [] = omega arith
  grant_count_at_most_one key w (c ∷ cs) = elim (Bool-cases (grants D digests key w c)) [
    | inl h ↦
        let (row, there) = (grants-row key w c h).1 in
        let rest = no_grant key (after D digests w c) row cs there in ground (arith, h, rest)
    | inr h ↦
        let rest = grant_count_at_most_one key (after D digests w c) cs in ground (arith, h, rest)
  ]
