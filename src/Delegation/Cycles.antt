-- ===== src/Delegation/Cycles.antt =====
-- The walk along parent references ends within its fuel, and meets no cycle on a linked chain.
use nest_authz.Prelude.{
  ℕ, zero, suc, ◌+◌, ◌<◌, String, ◌≡◌, refl, ◌≢◌, true, false, Option, none, some, List, [], ◌∷◌,
  contains, arith, length, All, NoDup, Subset, Fresh, Fresh-nil, Fresh-cons, length-le_of_Subset,
  string_eq, inl, inr, Bool-cases, Option-cases, contains-cons_self, ok, err, runtime_error,
}
use nest_authz.Domain.Authority.{AuthorityGrant}
use nest_authz.Delegation.{find_grant, Walk, walk, reference_cycle_from, reference_cycle}
use nest_authz.Delegation.Spec.{Linked, identifiers}

find_grant-mem :
    (gs : List AuthorityGrant) (i : String) {g : AuthorityGrant}
    → find_grant gs i ≡ some g
    → contains g.identifier (identifiers gs) ≡ true
unfolding find_grant
find_grant-mem [] i h = cc
find_grant-mem (x ∷ gs) i {g} h = ground (arith, find_grant-mem gs i {g = g})

length-identifiers : (gs : List AuthorityGrant) → length (identifiers gs) ≡ length gs
length-identifiers [] = refl
length-identifiers (g ∷ gs) = omega (arith, length-identifiers gs)

-- The current grant, if any, is one of the chain's.
abbrev OfChain : List AuthorityGrant → Option AuthorityGrant → Type 0
OfChain grants none = Unit
OfChain grants (some g) = contains g.identifier (identifiers grants) ≡ true

find_grant-OfChain : (gs : List AuthorityGrant) (i : String) → OfChain gs (find_grant gs i)
find_grant-OfChain gs i = elim (Option-cases (find_grant gs i)) [
  | inl e ↦ rw e tt
  | inr (g, e) ↦ rw e (find_grant-mem gs i e)
]

-- A path of distinct identifiers of the chain leaves too few rounds to use up the fuel.
walk-ne-out_of_fuel :
    (fuel : ℕ) (grants : List AuthorityGrant) (path : List String) (current : Option AuthorityGrant)
    → NoDup path
    → Subset path (identifiers grants)
    → OfChain grants current
    → length grants < fuel + length path
    → walk fuel grants path current ≢ Walk.out_of_fuel
unfolding walk
walk-ne-out_of_fuel zero grants path none nodup sub of room h = cc
walk-ne-out_of_fuel (suc fuel) grants path none nodup sub of room h = cc
walk-ne-out_of_fuel zero grants path (some g) nodup sub of room h =
    omega
      (arith, length-le_of_Subset path (identifiers grants) nodup sub, length-identifiers grants)
walk-ne-out_of_fuel (suc fuel) grants path (some g) nodup sub of room h =
    elim (Bool-cases (contains g.identifier path)) [
      | inl e ↦ ground arith
      | inr e ↦ elim (Option-cases g.parent_grant_id) [
        | inl n ↦ ground arith
        | inr (parent, p) ↦ ground (
          arith,
          walk-ne-out_of_fuel fuel grants (g.identifier ∷ path) (find_grant grants parent)
              (e, nodup) (λ z h. ground (arith, sub z, of)) (find_grant-OfChain grants parent)
              (omega arith),
        )
      ]
    ]

-- Each start's walk ends, so the search for a reference cycle always returns.
reference_cycle_from-ok :
    (grants starts : List AuthorityGrant)
    → All (λ g. contains g.identifier (identifiers grants) ≡ true) starts
    → (c : Option String) × (reference_cycle_from grants starts ≡ ok c)
unfolding reference_cycle_from
reference_cycle_from-ok grants [] h = (none, refl)
reference_cycle_from-ok grants (g ∷ starts) h =
    let (c, e) = reference_cycle_from-ok grants starts h.1 in
    ends (walk (suc (length grants)) grants [] (some g)) c e (
      walk-ne-out_of_fuel (suc (length grants)) grants [] (some g) tt (λ z m. cc) h.0 (omega arith))
  where
    ends :
        (w : Walk) (c : Option String)
        → reference_cycle_from grants starts ≡ ok c
        → w ≢ Walk.out_of_fuel
        → (c' : Option String) × ((elim w [
          | Walk.out_of_fuel ↦ err (runtime_error "out of fuel")
          | Walk.cyclic i ↦ ok (some i)
          | Walk.finished ↦ reference_cycle_from grants starts
        ])
            ≡ ok c')
    ends Walk.out_of_fuel c e ne = absurd (ne refl)
    ends (Walk.cyclic i) c e ne = (some i, refl)
    ends Walk.finished c e ne = (c, e)

pub mem-identifiers :
    (gs : List AuthorityGrant) → All (λ g. contains g.identifier (identifiers gs) ≡ true) gs
mem-identifiers [] = tt
mem-identifiers (g ∷ gs) =
    (contains-cons_self g.identifier (identifiers gs), weaken gs (mem-identifiers gs))
  where
    weaken :
        (hs : List AuthorityGrant)
        → All (λ h. contains h.identifier (identifiers gs) ≡ true) hs
        → All (λ h. contains h.identifier (identifiers (g ∷ gs)) ≡ true) hs
    weaken [] m = tt
    weaken (h ∷ hs) m = (ground arith, weaken hs m.1)

-- The search for a reference cycle returns on every list of grants.
pub reference_cycle-ok :
    (grants : List AuthorityGrant) → (c : Option String) × (reference_cycle grants ≡ ok c)
unfolding reference_cycle
reference_cycle-ok grants = reference_cycle_from-ok grants grants (mem-identifiers grants)

-- Grants from one back to the root, each with the next one as its parent.
abbrev Backward : AuthorityGrant → List AuthorityGrant → Type 0
Backward g [] = g.parent_grant_id ≡ none
Backward g (p ∷ more) = (g.parent_grant_id ≡ some p.identifier) × Backward p more

-- The grant is the first one of its identifier.
abbrev Found : List AuthorityGrant → AuthorityGrant → Type 0
Found grants g = find_grant grants g.identifier ≡ some g

-- A walk that starts on such a list of distinct grants reaches the root.
walk-ne-cyclic :
    (fuel : ℕ) (grants : List AuthorityGrant) (path : List String) (g : AuthorityGrant)
    (before : List AuthorityGrant) (i : String)
    → Backward g before
    → All (Found grants) before
    → NoDup (identifiers (g ∷ before))
    → Fresh path (identifiers (g ∷ before))
    → walk fuel grants path (some g) ≢ Walk.cyclic i
unfolding walk
walk-ne-cyclic zero grants path g before i back found nodup fresh = cc
walk-ne-cyclic (suc zero) grants path g [] i back found nodup fresh = ground arith
walk-ne-cyclic (suc (suc fuel)) grants path g [] i back found nodup fresh = ground arith
walk-ne-cyclic (suc fuel) grants path g (p ∷ more) i back found nodup fresh = ground (
  arith,
  walk-ne-cyclic fuel grants (g.identifier ∷ path) p more i back.1 found.1 nodup.1
      ((Fresh-cons g.identifier path (identifiers (p ∷ more))).1 (nodup.0, fresh.1)),
)

walk_finishes :
    (w : Walk) → w ≢ Walk.out_of_fuel → ((i : String) → w ≢ Walk.cyclic i) → w ≡ Walk.finished
walk_finishes Walk.out_of_fuel fuelled acyclic = absurd (fuelled refl)
walk_finishes Walk.finished fuelled acyclic = refl
walk_finishes (Walk.cyclic i) fuelled acyclic = absurd (acyclic i refl)

finishes :
    (grants : List AuthorityGrant) (g : AuthorityGrant) (before : List AuthorityGrant)
    → Backward g before
    → All (Found grants) (g ∷ before)
    → NoDup (identifiers (g ∷ before))
    → walk (suc (length grants)) grants [] (some g) ≡ Walk.finished
finishes grants g before back found nodup =
    walk_finishes (walk (suc (length grants)) grants [] (some g))
      (walk-ne-out_of_fuel (suc (length grants)) grants [] (some g) tt (λ z m. cc)
        (find_grant-mem grants g.identifier found.0) (omega arith))
      (λ i.
        walk-ne-cyclic (suc (length grants)) grants [] g before i back found.1 nodup
          (Fresh-nil (identifiers (g ∷ before))))

reference_cycle_from-none :
    (grants : List AuthorityGrant) (g : AuthorityGrant) (before after : List AuthorityGrant)
    → Backward g before
    → Linked g after
    → All (Found grants) (g ∷ before)
    → All (Found grants) after
    → NoDup (identifiers (g ∷ before))
    → NoDup (identifiers after)
    → Fresh (identifiers (g ∷ before)) (identifiers after)
    → reference_cycle_from grants (g ∷ after) ≡ ok none
unfolding reference_cycle_from walk
reference_cycle_from-none grants g before [] back linked found found' nodup nodup' fresh =
    rw (finishes grants g before back found nodup)
reference_cycle_from-none grants g before (h ∷ after) back linked found found' nodup nodup' fresh =
    rw (finishes grants g before back found nodup) (
      reference_cycle_from-none grants h (g ∷ before) after (linked.0, back) linked.2
        (found'.0, found) found'.1 (fresh.0, nodup) nodup'.1
        ((Fresh-cons h.identifier (identifiers (g ∷ before)) (identifiers after)).1
          (nodup'.0, fresh.1)))

Found-self : (gs : List AuthorityGrant) → NoDup (identifiers gs) → All (Found gs) gs
unfolding find_grant
Found-self [] nodup = tt
Found-self (g ∷ gs) nodup = (ground arith, weaken gs nodup.0 (Found-self gs nodup.1))
  where
    weaken :
        (hs : List AuthorityGrant)
        → contains g.identifier (identifiers hs) ≡ false
        → All (Found gs) hs
        → All (Found (g ∷ gs)) hs
    weaken [] fresh m = tt
    weaken (h ∷ hs) fresh m = (ground arith, weaken hs (ground arith) m.1)

-- A linked chain of distinct grants has no reference cycle.
pub reference_cycle-none :
    (root : AuthorityGrant) (rest : List AuthorityGrant)
    → NoDup (identifiers (root ∷ rest))
    → root.parent_grant_id ≡ none
    → Linked root rest
    → reference_cycle (root ∷ rest) ≡ ok none
unfolding reference_cycle
reference_cycle-none root rest nodup no_parent linked =
    let found = Found-self (root ∷ rest) nodup in
    reference_cycle_from-none (root ∷ rest) root [] rest no_parent linked (found.0, tt) found.1
      (refl, tt) nodup.1
      ((Fresh-cons root.identifier [] (identifiers rest)).1 (nodup.0, Fresh-nil (identifiers rest)))
