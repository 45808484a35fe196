-- ===== src/Delegation/Spec.antt =====
-- What a valid delegation chain is, stated without the loops of delegation.py.
use nest_authz.Prelude.{
  ℤ, String, ◌≡◌, ◌≢◌, ◌⊎◌, false, none, some, List, [], ◌∷◌, map, contains, All, NoDup, ◌≤ℤ◌,
  ltb_ℤ, leb_ℤ, string_eq,
}
use nest_authz.Domain.Value.{IntegerBounds}
use nest_authz.Domain.Identity.{Principal, principal_eq}
use nest_authz.Domain.Authority.{AuthorityScope, AuthorityGrant, AuthorizationState}

-- The first bound of that name has the value.
abbrev pub HasBound : IntegerBounds → String → ℤ → Type 0
HasBound [] name v = ⊥
HasBound ((candidate, value) ∷ bounds) name v =
    (candidate ≡ name) × (value ≡ v) ⊎ (candidate ≢ name) × HasBound bounds name v

-- The scope has a bound of that name, of at most the given value.
abbrev pub BoundWithin : AuthorityScope → String → ℤ → Type 0
BoundWithin scope name limit = (v : ℤ) × HasBound scope.context_upper_bounds name v × (v ≤ℤ limit)

abbrev pub CoversAll : AuthorityScope → IntegerBounds → Type 0
CoversAll child [] = Unit
CoversAll child ((name, limit) ∷ bounds) = BoundWithin child name limit × CoversAll child bounds

-- The child's scope is the parent's or narrower.
pub record Attenuates (child parent : AuthorityScope) : Type 0 where
  pub same_action : child.action ≡ parent.action
  pub same_resource : child.resource ≡ parent.resource
  pub within : CoversAll child parent.context_upper_bounds

-- Each grant is made by the grantee of the one before, and names it as its parent.
abbrev pub Linked : AuthorityGrant → List AuthorityGrant → Type 0
Linked parent [] = Unit
Linked parent (child ∷ rest) =
    (child.parent_grant_id ≡ some parent.identifier)
    × (parent.grantee ≡ child.grantor)
    × Linked child rest

-- Each scope narrows the one before.
abbrev pub Narrowing : AuthorityGrant → List AuthorityGrant → Type 0
Narrowing parent [] = Unit
Narrowing parent (child ∷ rest) = Attenuates child.scope parent.scope × Narrowing child rest

abbrev pub identifiers : List AuthorityGrant → List String
identifiers = map (λ g. g.identifier)

abbrev pub grantees : List AuthorityGrant → List Principal
grantees = map (λ g. g.grantee)

-- The grant is not revoked, and the time lies in its half-open interval.
pub record IsCurrent (state : AuthorizationState) (g : AuthorityGrant) : Type 0 where
  pub not_revoked : contains g.identifier state.revocations.grant_ids ≡ false
  pub started : ltb_ℤ state.logical_time g.valid_from ≡ false
  pub not_ended : leb_ℤ g.valid_until state.logical_time ≡ false

pub record IsValidChain (state : AuthorizationState) (root : AuthorityGrant)
    (rest : List AuthorityGrant) : Type 0 where
  pub distinct_ids : NoDup (identifiers (root ∷ rest))
  pub no_parent : root.parent_grant_id ≡ none
  pub linked : Linked root rest
  pub distinct_principals : NoDup (root.grantor ∷ grantees (root ∷ rest))
  pub narrowing : Narrowing root rest
  pub current : All (IsCurrent state) (root ∷ rest)
