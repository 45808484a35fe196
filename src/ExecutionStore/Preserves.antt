-- ===== src/ExecutionStore/Preserves.antt =====
-- What every operation of the store keeps of the table.
use mathlib.Core.Logic.{◌≢◌}
use nest_authz.Prelude.{
  String, ◌≡◌, refl, sym, ◌∙◌, ap, Option, none, some, inl, inr, Bool-cases, ◌==◌, string_eq,
  Result, ok, err, ◌>>=◌, arith, bind_returns, Option-cases, Error, database_error,
}
use nest_authz.ExecutionStore.Sqlite.{Row, Database, IsLawful, Same, Sets}
use nest_authz.ExecutionStore.{statement, transaction_failed, end_transaction, write_transaction}

pub statement-ok {ℓ} : {A : Type ℓ} (o : Option A) (a : A) → statement o ≡ ok a → o ≡ some a
statement-ok none a h = cc
statement-ok (some b) a h = ground arith

module _ (D : Database) where
  -- No row is lost, none changes its permit digest, and a row that is not RESERVED does not change.
  pub record Preserves (w w' : D.World) : Type 0 where
    pub owned :
        (key : String) (r : Row)
        → D.contents w key ≡ some r
        → (r' : Row) × (D.contents w' key ≡ some r')
          × (r'.execution_permit_digest ≡ r.execution_permit_digest)
    pub terminal :
        (key : String) (r : Row)
        → D.contents w key ≡ some r
        → r.status ≢ "RESERVED"
        → D.contents w' key ≡ some r

  pub Preserves-Same : (w w' : D.World) → Same D w w' → Preserves w w'
  Preserves-Same w w' same = record {
    owned = λ key r e. (r, same key ∙ e, refl);
    terminal = λ key r e ne. same key ∙ e;
  }

  pub Preserves-trans : (u v w : D.World) → Preserves u v → Preserves v w → Preserves u w
  Preserves-trans u v w h k = record {
    owned = λ key r e.
        let (r', e', same) = h.owned key r e in
        let (r'', e'', same') = k.owned key r' e' in (r'', e'', same' ∙ same);
    terminal = λ key r e ne. k.terminal key r (h.terminal key r e ne) ne;
  }

  -- A row that is set under a free key, or changed while RESERVED with its digest kept.
  pub Preserves-Sets :
      (w w' : D.World) (key : String) (row : Row)
      → Sets D w w' key row
      → ((r : Row)
          → D.contents w key ≡ some r
          → (r.status ≡ "RESERVED") × (row.execution_permit_digest ≡ r.execution_permit_digest))
      → Preserves w w'
  Preserves-Sets w w' key row sets only = record {
    owned = λ j r e. elim (Bool-cases (j == key)) [
      | inl here ↦ (row, ground (arith, sets j), (only r (ground (arith, sets j, e))).1)
      | inr away ↦ (r, ground (arith, sets j), refl)
    ];
    terminal = λ j r e ne. elim (Bool-cases (j == key)) [
      | inl here ↦ absurd (ne (only r (ground (arith, sets j, e))).0)
      | inr away ↦ ground (arith, sets j)
    ];
  }

  end_transaction-ok {ℓ} :
      {A : Type ℓ} (w : D.World) (m : Result (A × D.World)) (a : A) (w' : D.World)
      → end_transaction D w m ≡ (ok a, w')
      → (w2 : D.World) × (m ≡ ok (a, w2)) × (D.commit w2 ≡ some w')
  end_transaction-ok w (err e) a w' h = cc (ap (λ x. x.0) h)
  end_transaction-ok w (ok (b, v)) a w' h = elim (Option-cases (D.commit v)) [
    | inl e ↦
        let h1 : (err transaction_failed, D.after_failure w) ≡ (ok a, w') =
          rw (e, end_transaction) at h in
        cc (ap (λ x. x.0) h1)
    | inr (v', e) ↦
        let h1 : (ok b, v') ≡ (ok a, w') = rw (e, end_transaction) at h in
        (v, ground (arith, ap (λ x. x.0) h1), e ∙ ap (λ x. some x.1) h1)
  ]

  -- A transaction that returns has run its body, between a start and a commit that keep the rows.
  pub write_transaction-ok {ℓ} :
      {A : Type ℓ} (lawful : IsLawful D) (w : D.World) (body : D.World → Result (A × D.World))
      (a : A) (w' : D.World)
      → write_transaction D w body ≡ (ok a, w')
      → (w1 : D.World) × (w2 : D.World) × Same D w w1 × (body w1 ≡ ok (a, w2)) × Same D w2 w'
  unfolding write_transaction
  write_transaction-ok lawful w body a w' h = elim (Option-cases (D.connect_error w)) [
    | inl e ↦
        let (w2, runs, commits) =
          end_transaction-ok w (statement (D.begin w) >>= body) a w'
            (rw (e, write_transaction) at h) in
        let (w1, begins, rest) = bind_returns (statement (D.begin w)) body runs in
        (
          w1,
          w2,
          lawful.begin-Same w w1 (statement-ok _ _ begins),
          rest,
          lawful.commit-Same w2 w' commits,
        )
    | inr (message, e) ↦
        let h1 : (err (database_error message), D.after_failure w) ≡ (ok a, w') =
          rw (e, write_transaction) at h in
        cc (ap (λ x. x.0) h1)
  ]

  end_transaction-err {ℓ} :
      {A : Type ℓ} (w : D.World) (m : Result (A × D.World)) (e : Error) (w' : D.World)
      → end_transaction D w m ≡ (err e, w')
      → w' ≡ D.after_failure w
  end_transaction-err w (err x) e w' h = sym (ap (λ x. x.1) h)
  end_transaction-err w (ok (b, v)) e w' h = elim (Option-cases (D.commit v)) [
    | inl c ↦
        let h1 : (err transaction_failed, D.after_failure w) ≡ (err e, w') =
          rw (c, end_transaction) at h in
        sym (ap (λ x. x.1) h1)
    | inr (v', c) ↦
        let h1 : (ok b, v') ≡ (err e, w') = rw (c, end_transaction) at h in cc (ap (λ x. x.0) h1)
  ]

  -- A transaction that raises is rolled back.
  pub write_transaction-err {ℓ} :
      {A : Type ℓ} (w : D.World) (body : D.World → Result (A × D.World)) (e : Error) (w' : D.World)
      → write_transaction D w body ≡ (err e, w')
      → w' ≡ D.after_failure w
  unfolding write_transaction
  write_transaction-err w body e w' h = elim (Option-cases (D.connect_error w)) [
    | inl c ↦
        end_transaction-err w (statement (D.begin w) >>= body) e w' (rw (c, write_transaction) at h)
    | inr (message, c) ↦
        let h1 : (err (database_error message), D.after_failure w) ≡ (err e, w') =
          rw (c, write_transaction) at h in
        sym (ap (λ x. x.1) h1)
  ]
