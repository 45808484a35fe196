-- ===== src/Delegation/Checks.antt =====
-- Each loop of delegation.py decides the part of a valid chain that it is about.
use nest_authz.Prelude.{
  ℤ, String, ◌≡◌, refl, ◌↔◌, Bool, true, false, Option, none, some, List, [], ◌∷◌, arith, All,
  NoDup, Fresh, Fresh-nil, Fresh-cons, ◌≤ℤ◌, leb→le, le→leb, string_eq, inl, inr, Bool-cases,
  eq_of_test, ne_of_test, ◌==◌,
}
use nest_authz.Domain.Value.{IntegerBounds}
use nest_authz.Domain.Identity.{Principal, principal_eq}
use nest_authz.Domain.Authority.{AuthorityScope, AuthorityGrant}
use nest_authz.Delegation.{
  duplicate_from, duplicate_grant_id, principal_cycle_from, principal_cycle, find_bound, bound,
  is_within, covers, is_attenuation, broken_link, broadened, first_failing,
}
use nest_authz.Delegation.Spec.{
  HasBound, CoversAll, Attenuates, Linked, Narrowing, identifiers, grantees,
}

duplicate_from_iff :
    (seen : List String) (gs : List AuthorityGrant)
    → (duplicate_from seen gs ≡ none) ↔ (Fresh seen (identifiers gs) × NoDup (identifiers gs))
unfolding duplicate_from
duplicate_from_iff seen [] = (λ h. (tt, tt), λ h. refl)
duplicate_from_iff seen (g ∷ gs) =
    let ih = duplicate_from_iff (g.identifier ∷ seen) gs in
    let step = Fresh-cons g.identifier seen (identifiers gs) in
    (λ h. ground (arith, ih.0, step.0), λ h. ground (arith, ih.1, step.1))

-- No duplicate is found exactly when the identifiers are distinct.
pub duplicate_grant_id_iff :
    (gs : List AuthorityGrant) → (duplicate_grant_id gs ≡ none) ↔ NoDup (identifiers gs)
unfolding duplicate_grant_id
duplicate_grant_id_iff gs = (
  λ h. ((duplicate_from_iff [] gs).0 h).1,
  λ h. (duplicate_from_iff [] gs).1 (Fresh-nil (identifiers gs), h),
)

principal_cycle_from_iff :
    (path : List Principal) (gs : List AuthorityGrant)
    → (principal_cycle_from path gs ≡ none) ↔ (Fresh path (grantees gs) × NoDup (grantees gs))
unfolding principal_cycle_from
principal_cycle_from_iff path [] = (λ h. (tt, tt), λ h. refl)
principal_cycle_from_iff path (g ∷ gs) =
    let ih = principal_cycle_from_iff (g.grantee ∷ path) gs in
    let step = Fresh-cons g.grantee path (grantees gs) in
    (λ h. ground (arith, ih.0, step.0), λ h. ground (arith, ih.1, step.1))

-- No principal cycle is found exactly when the root's grantor and all grantees are distinct.
pub principal_cycle_iff :
    (root : AuthorityGrant) (rest : List AuthorityGrant)
    → (principal_cycle root rest ≡ none) ↔ NoDup (root.grantor ∷ grantees (root ∷ rest))
unfolding principal_cycle
principal_cycle_iff root rest =
    let base = principal_cycle_from_iff (root.grantor ∷ []) (root ∷ rest) in
    let step = Fresh-cons root.grantor [] (grantees (root ∷ rest)) in
    (
      λ h. ((step.0 (base.0 h).0).0, (base.0 h).1),
      λ h. base.1 (step.1 (h.0, Fresh-nil (grantees (root ∷ rest))), h.1),
    )

-- The loop finds a bound exactly if it is the first of its name.
pub find_bound_iff :
    (bounds : IntegerBounds) (name : String) (v : ℤ)
    → (find_bound bounds name ≡ some v) ↔ HasBound bounds name v
unfolding find_bound
find_bound_iff [] name v = (λ h. cc, λ h. elim h [ ])
find_bound_iff ((candidate, value) ∷ bounds) name v =
    let ih = find_bound_iff bounds name v in
    elim (Bool-cases (candidate == name)) [
      | inl e ↦
          let same = eq_of_test candidate name e in
          (
            λ h. inl (same, ground arith),
            λ h. elim h [ inl x ↦ ground (arith, x.1) | inr x ↦ absurd (x.0 same) ],
          )
      | inr e ↦
          let differ = ne_of_test candidate name e in
          (
            λ h. inr (differ, ih.0 (ground arith)),
            λ h. elim h [ inl x ↦ absurd (differ x.0) | inr x ↦ rw e (ih.1 x.1) ],
          )
    ]

is_within_iff :
    (o : Option ℤ) (limit : ℤ)
    → (is_within o limit ≡ true) ↔ ((v : ℤ) × (o ≡ some v) × (v ≤ℤ limit))
is_within_iff none limit = (λ h. cc, λ h. cc (h.1))
is_within_iff (some v) limit =
    (λ h. (v, refl, leb→le v limit h), λ h. ground (arith, h.1, le→leb v limit))

covers_iff :
    (child : AuthorityScope) (bounds : IntegerBounds)
    → (covers child bounds ≡ true) ↔ CoversAll child bounds
unfolding covers bound
covers_iff child [] = (λ h. tt, λ h. refl)
covers_iff child ((name, limit) ∷ bounds) =
    let ih = covers_iff child bounds in
    let here = is_within_iff (bound child name) limit in
    let finds = find_bound_iff child.context_upper_bounds name in
    elim (Bool-cases (is_within (bound child name) limit)) [
      | inl e ↦
          let (v, found, le) = here.0 e in
          (λ h. ((v, (finds v).0 found, le), ih.0 (rw e at h)), λ h. rw e (ih.1 h.1))
      | inr e ↦ (
        λ h. absurd (cc (rw e at h)),
        λ h. let (v, has, le) = h.0 in cc (here.1 (v, (finds v).1 has, le)),
      )
    ]

-- `_is_attenuation` holds exactly if the child's scope has the parent's action and resource and,
-- for each of the parent's bounds, a bound of that name that is no greater.
pub is_attenuation_iff :
    (child parent : AuthorityScope) → (is_attenuation child parent ≡ true) ↔ Attenuates child parent
unfolding is_attenuation
is_attenuation_iff child parent =
    let ih = covers_iff child parent.context_upper_bounds in
    (
      λ h. record {
        same_action = ground arith;
        same_resource = ground arith;
        within = ih.0 (ground arith);
      },
      λ h. ground (arith, ih.1 h.within, h.same_action, h.same_resource),
    )

-- No broken link is found exactly on a linked chain.
pub broken_link_iff :
    (parent : AuthorityGrant) (rest : List AuthorityGrant)
    → (broken_link parent rest ≡ none) ↔ Linked parent rest
unfolding broken_link
broken_link_iff parent [] = (λ h. tt, λ h. refl)
broken_link_iff parent (child ∷ rest) =
    let ih = broken_link_iff child rest in (λ h. ground (arith, ih.0), λ h. ground (arith, ih.1))

-- No broadened scope is found exactly on a narrowing chain.
pub broadened_iff :
    (parent : AuthorityGrant) (rest : List AuthorityGrant)
    → (broadened parent rest ≡ none) ↔ Narrowing parent rest
unfolding broadened
broadened_iff parent [] = (λ h. tt, λ h. refl)
broadened_iff parent (child ∷ rest) =
    let ih = broadened_iff child rest in
    let here = is_attenuation_iff child.scope parent.scope in
    elim (Bool-cases (is_attenuation child.scope parent.scope)) [
      | inl e ↦ (λ h. (here.0 e, ih.0 (rw e at h)), λ h. rw e (ih.1 h.1))
      | inr e ↦ (λ h. cc (rw e at h), λ h. cc (here.1 h.0))
    ]

-- No grant fails a test exactly when every grant passes it.
pub first_failing_iff :
    (fails : AuthorityGrant → Bool) (gs : List AuthorityGrant)
    → (first_failing fails gs ≡ none) ↔ All (λ g. fails g ≡ false) gs
unfolding first_failing
first_failing_iff fails [] = (λ h. tt, λ h. refl)
first_failing_iff fails (g ∷ gs) =
    let ih = first_failing_iff fails gs in (λ h. ground (arith, ih.0), λ h. ground (arith, ih.1))
