-- ===== src/Examples/Outages.antt =====
-- A database with outages: some transactions fail to begin, and those after them begin again.
use nest_authz.Prelude.{
  ℕ, ◌-◌, ◌≡◌, Option, none, some, ◌==◌, nat_eq, if◌then◌else◌, inl, inr, Bool-cases,
}
use nest_authz.ExecutionStore.Sqlite.{Database, IsLawful}

module _ {W : Type 0} where
  abbrev keep : ℕ → Option W → Option (W × ℕ)
  keep n none = none
  keep n (some t) = some (t, n)

  abbrev keep_count : ℕ → Option (ℕ × W) → Option (ℕ × (W × ℕ))
  keep_count n none = none
  keep_count n (some (k, t)) = some (k, (t, n))

  keep-some : (n : ℕ) (o : Option W) (w : W × ℕ) → keep n o ≡ some w → o ≡ some w.0
  keep-some n none w h = cc
  keep-some n (some t) w h = cc

  keep_count-some :
      (n : ℕ) (o : Option (ℕ × W)) (k : ℕ) (w : W × ℕ)
      → keep_count n o ≡ some (k, w)
      → o ≡ some (k, w.0)
  keep_count-some n none k w h = cc
  keep_count-some n (some (j, t)) k w h = cc

-- The number counts the failures that are left.
abbrev pub with_outages : Database → Database
with_outages D = record {
  World = D.World × ℕ;
  contents = λ w. D.contents w.0;
  connect_error = λ w. D.connect_error w.0;
  begin = λ w. if w.1 == 0 then keep 0 (D.begin w.0) else none;
  commit = λ w. keep w.1 (D.commit w.0);
  after_failure = λ w. (D.after_failure w.0, w.1 - 1);
  length = D.length;
  select = λ w key. D.select w.0 key;
  insert = λ w row. keep_count w.1 (D.insert w.0 row);
  update = λ w key digest change. keep_count w.1 (D.update w.0 key digest change);
}

module _ (D : Database) (lawful : IsLawful D) where
  begins : (w w' : D.World × ℕ) → (with_outages D).begin w ≡ some w' → D.begin w.0 ≡ some w'.0
  begins w w' h = elim (Bool-cases (w.1 == 0)) [
    | inl e ↦ keep-some 0 (D.begin w.0) w' (rw e at h)
    | inr e ↦ cc (rw e at h)
  ]

  pub with_outages-IsLawful : IsLawful (with_outages D)
  with_outages-IsLawful = record {
    begin-Same = λ w w' h. lawful.begin-Same w.0 w'.0 (begins w w' h);
    commit-Same = λ w w' h. lawful.commit-Same w.0 w'.0 (keep-some w.1 (D.commit w.0) w' h);
    after_failure-Same = λ w. lawful.after_failure-Same w.0;
    length-no_nul = lawful.length-no_nul;
    select-contents = λ w. lawful.select-contents w.0;
    insert-effect = λ w row n w' h.
        lawful.insert-effect w.0 row n w'.0 (keep_count-some w.1 (D.insert w.0 row) n w' h);
    update-effect = λ w key digest change n w' h.
        lawful.update-effect w.0 key digest change n w'.0
          (keep_count-some w.1 (D.update w.0 key digest change) n w' h);
  }
