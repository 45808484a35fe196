-- ===== src/Applicability/Provenance.antt =====
-- A request within the effective scope is within the scope of every grant behind it.
use nest_authz.Prelude.{
  ℤ, String, ◌≡◌, sym, ap, subst, ◌∙◌, ◌↔◌, false, some, List, [], ◌∷◌, All, ≤ℤ_trans, inl, inr, ok,
  string_eq,
}
use nest_authz.Domain.Status.{AuthorityApplicabilityStatus}
use nest_authz.Domain.Value.{IntegerBounds, is_blank}
use nest_authz.Domain.Authority.{
  AuthorityScope, AuthorityGrant, AuthorizationState, AuthorityValidationResult, VerifiedAuthority,
}
use nest_authz.Domain.Request.{AuthorizationRequest}
use nest_authz.Domain.Evidence.{AuthorityApplicabilityResult}
use nest_authz.Digests.{Digests}
use nest_authz.Delegation.{validate_authority}
use nest_authz.Delegation.Spec.{HasBound, CoversAll}
use nest_authz.Delegation.Decides.{NonBlankIds, chain_of}
use nest_authz.Delegation.Attenuation.{Narrows, validate_authority_never_amplifies}
use nest_authz.Applicability.{check_authority_applicability}
use nest_authz.Applicability.Laws.{ContextWithin, AllWithin, WithinScope, HasNamedBounds}
use nest_authz.Applicability.Scope.{check_authority_applicability_decides}

ContextWithin-of_has :
    (request : AuthorizationRequest) (bounds : IntegerBounds) (name : String) (v : ℤ)
    → AllWithin request bounds
    → HasBound bounds name v
    → ContextWithin request name v
ContextWithin-of_has request [] name v w h = elim h [ ]
ContextWithin-of_has request ((candidate, value) ∷ bounds) name v w (inl (same, value_is)) =
    rw (← same) (rw (← value_is) w.0)
ContextWithin-of_has request ((candidate, value) ∷ bounds) name v w (inr (differ, later)) =
    ContextWithin-of_has request bounds name v w.1 later

AllWithin-covered :
    (request : AuthorizationRequest) (child : AuthorityScope) (bounds : IntegerBounds)
    → AllWithin request child.context_upper_bounds
    → CoversAll child bounds
    → AllWithin request bounds
AllWithin-covered request child [] w c = tt
AllWithin-covered request child ((name, limit) ∷ bounds) w ((v, has, le), c) =
    let (u, supplied, le') = ContextWithin-of_has request child.context_upper_bounds name v w has in
    ((u, supplied, ≤ℤ_trans u v limit le' le), AllWithin-covered request child bounds w c)

WithinScope-narrowed :
    (request : AuthorizationRequest) (scope : AuthorityScope) (g : AuthorityGrant)
    → Narrows scope g
    → WithinScope request scope
    → WithinScope request g.scope
WithinScope-narrowed request scope g (inl same) w = subst (WithinScope request) same w
WithinScope-narrowed request scope g (inr n) w = record {
  same_action = sym n.same_action ∙ w.same_action;
  same_resource = sym n.same_resource ∙ w.same_resource;
  bounded = AllWithin-covered request scope g.scope.context_upper_bounds w.bounded n.within;
}

WithinScope-all :
    (request : AuthorizationRequest) (scope : AuthorityScope) (gs : List AuthorityGrant)
    → All (Narrows scope) gs
    → WithinScope request scope
    → All (λ g. WithinScope request g.scope) gs
WithinScope-all request scope [] n w = tt
WithinScope-all request scope (g ∷ gs) n w =
    (WithinScope-narrowed request scope g n.0 w, WithinScope-all request scope gs n.1 w)

-- If a chain validates and the request is APPLICABLE to the authority that it gives, then the
-- request is within the scope of every grant of the chain: no delegation step adds a permission.
-- The grants' identifiers and the authority's are not blank, and the authority's bounds have
-- distinct, non-blank names.
pub applicable_within_every_grant :
    (digests : Digests) (state : AuthorizationState) (root : AuthorityGrant)
    (rest : List AuthorityGrant) (request : AuthorizationRequest) (r : AuthorityValidationResult)
    (a : VerifiedAuthority) (s : AuthorityApplicabilityResult)
    → NonBlankIds (root ∷ rest)
    → validate_authority digests (chain_of digests state root rest) state ≡ ok r
    → r.verified_authority ≡ some a
    → is_blank a.grant_id ≡ false
    → HasNamedBounds a.scope
    → check_authority_applicability digests request a ≡ ok s
    → s.status ≡ AuthorityApplicabilityStatus.applicable
    → All (λ g. WithinScope request g.scope) (root ∷ rest)
applicable_within_every_grant digests state root rest request r a s ids returns carries named bounds
      applied applicable =
    WithinScope-all request a.scope (root ∷ rest)
      (validate_authority_never_amplifies digests state root rest r a ids returns carries).2
      (within (check_authority_applicability_decides digests request a named bounds))
  where
    within :
        (s' : AuthorityApplicabilityResult) × (check_authority_applicability digests request a
            ≡ ok s')
          × ((s'.status ≡ AuthorityApplicabilityStatus.applicable) ↔ WithinScope request a.scope)
        → WithinScope request a.scope
    within (s', e, iff) = let same : s' ≡ s = cc in iff.0 (ap (λ x. x.status) same ∙ applicable)
