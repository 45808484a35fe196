-- ===== src/Delegation/Attenuation.antt =====
-- Authority never widens along a valid chain.
use nest_authz.Prelude.{
  ℤ, String, ◌≡◌, refl, sym, subst, ◌∙◌, ◌⊎◌, some, List, [], ◌∷◌, All, inl, inr, ok, string_eq,
  ≤ℤ_trans,
}
use nest_authz.Domain.Value.{IntegerBounds}
use nest_authz.Domain.Authority.{
  AuthorityScope, AuthorityGrant, AuthorizationState, AuthorityValidationResult, VerifiedAuthority,
}
use nest_authz.Digests.{Digests}
use nest_authz.Delegation.{leaf_of, validate_authority}
use nest_authz.Delegation.Spec.{HasBound, BoundWithin, CoversAll, Attenuates, Narrowing}
use nest_authz.Delegation.Decides.{NonBlankIds, chain_of, Decided, validate_authority_decides}

BoundWithin-of_has :
    (child : AuthorityScope) (bounds : IntegerBounds) (name : String) (v : ℤ)
    → CoversAll child bounds
    → HasBound bounds name v
    → BoundWithin child name v
BoundWithin-of_has child [] name v c h = elim h [ ]
BoundWithin-of_has child ((candidate, value) ∷ bounds) name v c (inl (same, value_is)) =
    rw (← same) (rw (← value_is) c.0)
BoundWithin-of_has child ((candidate, value) ∷ bounds) name v c (inr (differ, later)) =
    BoundWithin-of_has child bounds name v c.1 later

-- A bound that the parent keeps within a limit, the child of an attenuation keeps within it too.
pub BoundWithin-trans :
    (child parent : AuthorityScope) (name : String) (limit : ℤ)
    → CoversAll child parent.context_upper_bounds
    → BoundWithin parent name limit
    → BoundWithin child name limit
BoundWithin-trans child parent name limit c (v, has, le) =
    let (u, kept, le') = BoundWithin-of_has child parent.context_upper_bounds name v c has in
    (u, kept, ≤ℤ_trans u v limit le' le)

CoversAll-trans :
    (child parent : AuthorityScope) (bounds : IntegerBounds)
    → CoversAll child parent.context_upper_bounds
    → CoversAll parent bounds
    → CoversAll child bounds
CoversAll-trans child parent [] c p = tt
CoversAll-trans child parent ((name, limit) ∷ bounds) c p =
    (BoundWithin-trans child parent name limit c p.0, CoversAll-trans child parent bounds c p.1)

pub Attenuates-trans : {a b c : AuthorityScope} → Attenuates a b → Attenuates b c → Attenuates a c
Attenuates-trans {a} {b} {c} ab bc = record {
  same_action = ab.same_action ∙ bc.same_action;
  same_resource = ab.same_resource ∙ bc.same_resource;
  within = CoversAll-trans a b c.context_upper_bounds ab.within bc.within;
}

-- The scope is the grant's own or narrower.
abbrev pub Narrows : AuthorityScope → AuthorityGrant → Type 0
Narrows scope g = (scope ≡ g.scope) ⊎ Attenuates scope g.scope

Narrows-step :
    (scope : AuthorityScope) (g h : AuthorityGrant)
    → Narrows scope h
    → Attenuates h.scope g.scope
    → Narrows scope g
Narrows-step scope g h (inl same) a = inr (rw same a)
Narrows-step scope g h (inr n) a = inr (Attenuates-trans n a)

leaf_of-Narrows :
    (g : AuthorityGrant) (rest : List AuthorityGrant)
    → Narrowing g rest
    → All (Narrows (leaf_of g rest).scope) (g ∷ rest)
unfolding leaf_of
leaf_of-Narrows g [] n = (inl refl, tt)
leaf_of-Narrows g (h ∷ rest) n =
    let ih = leaf_of-Narrows h rest n.1 in (Narrows-step (leaf_of h rest).scope g h ih.0 n.0, ih)

module _ (digests : Digests) (state : AuthorizationState) (root : AuthorityGrant)
    (rest : List AuthorityGrant) where
  -- Where grant identifiers are not blank, the authority of an accepted chain carries the scope of
  -- the leaf, held by its grantee, and
  -- that scope is the scope of every grant of the chain or narrower: the same action and resource,
  -- and for each of the grant's bounds one of the same name that is no greater.
  pub validate_authority_never_amplifies :
      (r : AuthorityValidationResult) (a : VerifiedAuthority)
      → NonBlankIds (root ∷ rest)
      → validate_authority digests (chain_of digests state root rest) state ≡ ok r
      → r.verified_authority ≡ some a
      → (a.principal ≡ (leaf_of root rest).grantee)
        × (a.scope ≡ (leaf_of root rest).scope)
        × All (Narrows a.scope) (root ∷ rest)
  validate_authority_never_amplifies r a named returns carries =
      by_decision (validate_authority_decides digests state root rest named)
    where
      by_decision :
          Decided digests state root rest
            (validate_authority digests (chain_of digests state root rest) state)
          → (a.principal ≡ (leaf_of root rest).grantee)
            × (a.scope ≡ (leaf_of root rest).scope)
            × All (Narrows a.scope) (root ∷ rest)
      by_decision (inl (v, e)) =
          let same : a.scope ≡ (leaf_of root rest).scope = cc in
          (
            cc,
            same,
            subst (λ x. All (Narrows x) (root ∷ rest)) (sym same)
                (leaf_of-Narrows root rest v.narrowing),
          )
      by_decision (inr (nv, (f, e, m, k))) = cc
