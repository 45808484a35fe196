-- ===== src/Delegation/Offenders.antt =====
-- Whatever holds of every identifier of a chain holds of the one that a failed check names, and
-- no failed check has the status VALID.
use nest_authz.Prelude.{
  ℕ, zero, suc, String, ◌≡◌, ◌≢◌, refl, Bool, Option, none, some, List, [], ◌∷◌, contains, ◌==◌,
  runtime_error, length, All, inl, inr, Bool-cases, Option-cases, Result, ok, err, string_eq,
  option_eq, ◌!=◌,
}
use nest_authz.Domain.Status.{AuthorityValidationStatus}
use nest_authz.Domain.Identity.{Principal, principal_eq}
use nest_authz.Domain.Authority.{AuthorityGrant, AuthorizationState}
use nest_authz.Delegation.Cycles.{reference_cycle-ok}
use nest_authz.Delegation.{
  find_grant, duplicate_from, duplicate_grant_id, Walk, walk, reference_cycle_from, reference_cycle,
  principal_cycle_from, is_attenuation, is_revoked, is_not_yet_valid, is_expired, or_fail,
  principal_cycle, broken_link, broadened, first_failing, Failure, chain_failure, root_parent,
  checked_from_root, first_failure,
}

module _ (P : String → Type 0) where
  abbrev pub Named : List AuthorityGrant → Type 0
  Named = All (λ g. P g.identifier)

  abbrev Names : Option String → Type 0
  Names none = Unit
  Names (some i) = P i

  duplicate_from-Names :
      (seen : List String) (gs : List AuthorityGrant) → Named gs → Names (duplicate_from seen gs)
  unfolding duplicate_from
  duplicate_from-Names seen [] h = tt
  duplicate_from-Names seen (g ∷ gs) h = elim (Bool-cases (contains g.identifier seen)) [
    | inl e ↦ rw e h.0
    | inr e ↦ rw e (duplicate_from-Names (g.identifier ∷ seen) gs h.1)
  ]

  abbrev NamedOption : Option AuthorityGrant → Type 0
  NamedOption none = Unit
  NamedOption (some g) = P g.identifier

  find_grant-Named :
      (gs : List AuthorityGrant) (i : String) → Named gs → NamedOption (find_grant gs i)
  unfolding find_grant
  find_grant-Named [] i h = tt
  find_grant-Named (g ∷ gs) i h = elim (Bool-cases (g.identifier == i)) [
    | inl e ↦ rw e h.0
    | inr e ↦ rw e (find_grant-Named gs i h.1)
  ]

  abbrev NamesWalk : Walk → Type 0
  NamesWalk (Walk.cyclic i) = P i
  NamesWalk _ = Unit

  walk-Names :
      (fuel : ℕ) (grants : List AuthorityGrant) (path : List String)
      (current : Option AuthorityGrant)
      → Named grants
      → NamedOption current
      → NamesWalk (walk fuel grants path current)
  unfolding walk
  walk-Names zero grants path none h c = tt
  walk-Names (suc fuel) grants path none h c = tt
  walk-Names zero grants path (some g) h c = tt
  walk-Names (suc fuel) grants path (some g) h c = elim (Bool-cases (contains g.identifier path)) [
    | inl e ↦ rw (e, walk) c
    | inr e ↦ elim (Option-cases g.parent_grant_id) [
      | inl n ↦ rw (e, n, walk) tt
      | inr (parent, p) ↦
          rw (e, p, walk)
            (walk-Names fuel grants (g.identifier ∷ path) (find_grant grants parent) h
              (find_grant-Named grants parent h))
    ]
  ]

  abbrev NamesResult : Result (Option String) → Type 0
  NamesResult (ok o) = Names o
  NamesResult (err e) = Unit

  reference_cycle_from-Names :
      (grants starts : List AuthorityGrant)
      → Named grants
      → Named starts
      → NamesResult (reference_cycle_from grants starts)
  unfolding reference_cycle_from
  reference_cycle_from-Names grants [] h s = tt
  reference_cycle_from-Names grants (g ∷ starts) h s =
      by_walk (walk (suc (length grants)) grants [] (some g))
        (walk-Names (suc (length grants)) grants [] (some g) h s.0)
        (reference_cycle_from-Names grants starts h s.1)
    where
      by_walk :
          (w : Walk)
          → NamesWalk w
          → NamesResult (reference_cycle_from grants starts)
          → NamesResult (elim w [
            | Walk.out_of_fuel ↦ err (runtime_error "out of fuel")
            | Walk.cyclic i ↦ ok (some i)
            | Walk.finished ↦ reference_cycle_from grants starts
          ])
      by_walk Walk.out_of_fuel n later = tt
      by_walk (Walk.cyclic i) n later = n
      by_walk Walk.finished n later = later

  duplicate_grant_id-Names : (gs : List AuthorityGrant) → Named gs → Names (duplicate_grant_id gs)
  unfolding duplicate_grant_id
  duplicate_grant_id-Names gs h = duplicate_from-Names [] gs h

  reference_cycle-Names : (gs : List AuthorityGrant) → Named gs → NamesResult (reference_cycle gs)
  unfolding reference_cycle
  reference_cycle-Names gs h = reference_cycle_from-Names gs gs h h

  principal_cycle_from-Names :
      (path : List Principal) (gs : List AuthorityGrant)
      → Named gs
      → Names (principal_cycle_from path gs)
  unfolding principal_cycle_from
  principal_cycle_from-Names path [] h = tt
  principal_cycle_from-Names path (g ∷ gs) h = elim (Bool-cases (contains g.grantee path)) [
    | inl e ↦ rw e h.0
    | inr e ↦ rw e (principal_cycle_from-Names (g.grantee ∷ path) gs h.1)
  ]

  broken_link-Names :
      (parent : AuthorityGrant) (rest : List AuthorityGrant)
      → Named rest
      → Names (broken_link parent rest)
  unfolding broken_link
  broken_link-Names parent [] h = tt
  broken_link-Names parent (child ∷ rest) h =
      elim (Bool-cases (child.parent_grant_id != some parent.identifier)) [
        | inl e ↦ rw e h.0
        | inr e ↦ rw e (elim (Bool-cases (parent.grantee != child.grantor)) [
          | inl d ↦ rw d h.0
          | inr d ↦ rw d (broken_link-Names child rest h.1)
        ])
      ]

  broadened-Names :
      (parent : AuthorityGrant) (rest : List AuthorityGrant)
      → Named rest
      → Names (broadened parent rest)
  unfolding broadened
  broadened-Names parent [] h = tt
  broadened-Names parent (child ∷ rest) h =
      elim (Bool-cases (is_attenuation child.scope parent.scope)) [
        | inl e ↦ rw e (broadened-Names child rest h.1)
        | inr e ↦ rw e h.0
      ]

  first_failing-Names :
      (fails : AuthorityGrant → Bool) (gs : List AuthorityGrant)
      → Named gs
      → Names (first_failing fails gs)
  unfolding first_failing
  first_failing-Names fails [] h = tt
  first_failing-Names fails (g ∷ gs) h = elim (Bool-cases (fails g)) [
    | inl e ↦ rw e h.0
    | inr e ↦ rw e (first_failing-Names fails gs h.1)
  ]

  abbrev pub NamesFailure : Option Failure → Type 0
  NamesFailure none = Unit
  NamesFailure (some f) = P f.grant_id × (f.status ≢ AuthorityValidationStatus.valid)

  or_fail-Names :
      (status : AuthorityValidationStatus) (o : Option String) (rest : Option Failure)
      → status ≢ AuthorityValidationStatus.valid
      → Names o
      → NamesFailure rest
      → NamesFailure (or_fail status o rest)
  or_fail-Names status none rest ne n r = r
  or_fail-Names status (some i) rest ne n r = (n, ne)

  root_parent-Names : (root : AuthorityGrant) → P root.identifier → Names (root_parent root)
  root_parent-Names root h = elim (Option-cases root.parent_grant_id) [
    | inl e ↦ rw (e, root_parent) tt
    | inr (p, e) ↦ rw (e, root_parent) h
  ]

  chain_failure-Names :
      (state : AuthorizationState) (root : AuthorityGrant) (rest : List AuthorityGrant)
      → Named (root ∷ rest)
      → NamesFailure (chain_failure state root rest)
  unfolding chain_failure principal_cycle
  chain_failure-Names state root rest h =
      or_fail-Names _ _ _ (λ p. cc) (root_parent-Names root h.0)
        (or_fail-Names _ _ _ (λ p. cc) (broken_link-Names root rest h.1)
          (or_fail-Names _ _ _ (λ p. cc)
            (principal_cycle_from-Names (root.grantor ∷ []) (root ∷ rest) h)
            (or_fail-Names _ _ _ (λ p. cc) (broadened-Names root rest h.1)
              (or_fail-Names _ _ _ (λ p. cc)
                (first_failing-Names (is_revoked state) (root ∷ rest) h)
                (or_fail-Names _ _ _ (λ p. cc)
                  (first_failing-Names (is_not_yet_valid state) (root ∷ rest) h)
                  (or_fail-Names _ _ none (λ p. cc)
                    (first_failing-Names (is_expired state) (root ∷ rest) h) tt))))))

  -- On a chain with grants the checks return, and a failure names one of its grants.
  pub first_failure-ok :
      (state : AuthorizationState) (root : AuthorityGrant) (rest : List AuthorityGrant)
      → Named (root ∷ rest)
      → (f : Option Failure) × (first_failure state (root ∷ rest) ≡ ok f) × NamesFailure f
  unfolding first_failure checked_from_root
  first_failure-ok state root rest h = elim (Option-cases (duplicate_grant_id (root ∷ rest))) [
    | inr (i, e) ↦ (
      some (record { status = AuthorityValidationStatus.invalid_chain; grant_id = i }),
      rw (e, first_failure),
      (rw e at (duplicate_grant_id-Names (root ∷ rest) h), λ p. cc),
    )
    | inl e ↦
        let (c, returns) = reference_cycle-ok (root ∷ rest) in
        (
          after_cycle c,
          rw (e, first_failure) (rw returns (branch c)),
          after_cycle-Names c (rw returns at (reference_cycle-Names (root ∷ rest) h)),
        )
  ]
    where
      after_cycle : Option String → Option Failure
      after_cycle none = chain_failure state root rest
      after_cycle (some i) =
          some (record { status = AuthorityValidationStatus.cycle; grant_id = i })

      branch :
          (c : Option String)
          → (elim c [
            | some i ↦ ok (some (record { status = AuthorityValidationStatus.cycle; grant_id = i }))
            | none ↦ checked_from_root state (root ∷ rest)
          ])
            ≡ ok (after_cycle c)
      branch none = refl
      branch (some i) = refl

      after_cycle-Names : (c : Option String) → Names c → NamesFailure (after_cycle c)
      after_cycle-Names none n = chain_failure-Names state root rest h
      after_cycle-Names (some i) n = (n, λ p. cc)
