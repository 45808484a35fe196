-- ===== src/Applicability/Scope.antt =====
-- APPLICABLE means within the scope, and within the scope of every grant behind it.
use nest_authz.Prelude.{
  ℤ, ◌≡◌, refl, ◌↔◌, Bool, true, false, List, [], ◌∷◌, map, contains, arith, ◌==◌, ◌≤ℤ◌, ok,
  string_eq,
}
use nest_authz.Domain.Status.{AuthorityApplicabilityStatus, authority_applicability_status_eq}
use nest_authz.Domain.Value.{Scalar, IntegerBounds, is_blank}
use nest_authz.Domain.Identity.{action_eq, resource_eq}
use nest_authz.Domain.Authority.{VerifiedAuthority}
use nest_authz.Domain.Request.{AuthorizationRequest}
use nest_authz.Domain.Evidence.{AuthorityApplicabilityResult, bound_statuses}
use nest_authz.Digests.{Digests}
use nest_authz.Applicability.{
  context_value, bound_status, applicability_status, check_authority_applicability,
}
use nest_authz.Applicability.Laws.{
  AllWithin, WithinScope, HasNamedBounds, evaluation, scope_evaluations, applicability_result,
  check_authority_applicability-ok,
}

bound_status_iff :
    (p : Bool × Scalar) (limit : ℤ)
    → (bound_status p.0 p.1 limit ≡ AuthorityApplicabilityStatus.applicable)
      ↔ ((v : ℤ) × (p ≡ (true, Scalar.int v)) × (v ≤ℤ limit))
unfolding bound_status
bound_status_iff (false, v) limit = (λ h. cc, λ h. cc (h.1))
bound_status_iff (true, Scalar.int v) limit =
    (λ h. (v, refl, ground arith), λ h. ground (arith, h.1, h.2))
bound_status_iff (true, Scalar.str v) limit = (λ h. cc, λ h. cc (h.1))
bound_status_iff (true, Scalar.bool v) limit = (λ h. cc, λ h. cc (h.1))
bound_status_iff (true, Scalar.null) limit = (λ h. cc, λ h. cc (h.1))

-- None of the three failures stands among the statuses.
abbrev NoFailure : List AuthorityApplicabilityStatus → Type 0
NoFailure statuses =
    (contains AuthorityApplicabilityStatus.missing_context statuses ≡ false)
    × (contains AuthorityApplicabilityStatus.type_error statuses ≡ false)
    × (contains AuthorityApplicabilityStatus.bound_exceeded statuses ≡ false)

applicability_status_iff :
    (a r : Bool) (statuses : List AuthorityApplicabilityStatus)
    → (applicability_status a r statuses ≡ AuthorityApplicabilityStatus.applicable)
      ↔ (a ≡ true) × (r ≡ true) × NoFailure statuses
unfolding applicability_status
applicability_status_iff a r statuses = (λ h. ground arith, λ h. ground arith)

-- The statuses that one bound can have.
bound_status_cases :
    (p : Bool × Scalar) (limit : ℤ)
    → NoFailure (bound_status p.0 p.1 limit ∷ [])
    → bound_status p.0 p.1 limit ≡ AuthorityApplicabilityStatus.applicable
unfolding bound_status
bound_status_cases (present, value) limit h = ground arith

NoFailure-cons :
    (s : AuthorityApplicabilityStatus) (ss : List AuthorityApplicabilityStatus)
    → NoFailure (s ∷ ss) ↔ NoFailure (s ∷ []) × NoFailure ss
NoFailure-cons s ss = (λ h. ground arith, λ h. ground arith)

-- No bound fails exactly when the context is within all of them.
NoFailure-iff :
    (request : AuthorizationRequest) (bounds : IntegerBounds)
    → NoFailure (bound_statuses (map (evaluation request) bounds)) ↔ AllWithin request bounds
NoFailure-iff request [] = (λ h. tt, λ h. (refl, refl, refl))
NoFailure-iff request ((name, limit) ∷ bounds) =
    let ih = NoFailure-iff request bounds in
    let here = bound_status_iff (context_value request name) limit in
    let split =
      NoFailure-cons (evaluation request (name, limit)).status
        (bound_statuses (map (evaluation request) bounds)) in
    (
      λ h. (
        here.0 (bound_status_cases (context_value request name) limit (split.0 h).0),
        ih.0 (split.0 h).1,
      ),
      λ h. split.1 (rw (here.1 h.0) (ground arith), ih.1 h.1),
    )

module _ (digests : Digests) (request : AuthorizationRequest) (authority : VerifiedAuthority) where
  applicability_result_iff :
      ((applicability_result digests request authority).status
        ≡ AuthorityApplicabilityStatus.applicable)
      ↔ WithinScope request authority.scope
  applicability_result_iff =
      let parts =
        applicability_status_iff (authority.scope.action == request.action)
          (authority.scope.resource == request.resource)
          (bound_statuses (scope_evaluations digests request authority)) in
      let bounds = NoFailure-iff request authority.scope.context_upper_bounds in
      (
        λ h. record {
          same_action = ground (arith, (parts.0 h).0);
          same_resource = ground (arith, (parts.0 h).1);
          bounded = bounds.0 (parts.0 h).2;
        },
        λ w.
            parts.1
              (ground (arith, w.same_action), ground (arith, w.same_resource), bounds.1 w.bounded),
      )

  -- For an authority whose grant identifier is not blank and whose bounds have distinct, non-blank
  -- names, the check returns, and the result is APPLICABLE exactly when the request is for the
  -- scope's action and resource and gives, for each bound, an integer of that name that does not
  -- exceed it.
  pub check_authority_applicability_decides :
      is_blank authority.grant_id ≡ false
      → HasNamedBounds authority.scope
      → (r : AuthorityApplicabilityResult) × (check_authority_applicability digests request
            authority
          ≡ ok r)
        × ((r.status ≡ AuthorityApplicabilityStatus.applicable)
            ↔ WithinScope request authority.scope)
  check_authority_applicability_decides named bounds = (
    applicability_result digests request authority,
    check_authority_applicability-ok digests request authority named bounds,
    applicability_result_iff,
  )
