-- ===== src/Applicability/Laws.antt =====
-- The gate on the scope returns, and passes exactly the requests within the scope.
use nest_authz.Prelude.{
  ℤ, String, ◌≡◌, refl, sym, ◌∙◌, Bool, true, false, List, [], ◌∷◌, map, arith, All, ◌==◌, ◌≤ℤ◌,
  sort_by, contains-sort_by, ok, string_eq,
}
use nest_authz.Domain.Status.{AuthorityApplicabilityStatus, authority_applicability_status_eq}
use nest_authz.Domain.Value.{Scalar, Fields, IntegerBounds, is_blank, text_lt, repeats}
use nest_authz.Domain.Identity.{action_eq, resource_eq}
use nest_authz.Domain.Authority.{AuthorityScope, VerifiedAuthority}
use nest_authz.Domain.Request.{AuthorizationRequest}
use nest_authz.Domain.Evidence.{
  AuthorityBoundEvaluation, AuthorityApplicabilityResult, bound_statuses, expected_bound_status,
  aggregate_status, authority_bound_evaluation_post_init, authority_applicability_result_post_init,
}
use nest_authz.Digests.{Digests}
use nest_authz.Applicability.{
  direct_attribute, context_value, bound_status, evaluate_bound, evaluate_bounds,
  applicability_status, check_authority_applicability,
}

-- The request's context has an integer of that name, of at most the limit.
abbrev pub ContextWithin : AuthorizationRequest → String → ℤ → Type 0
ContextWithin request name limit =
    (v : ℤ) × (context_value request name ≡ (true, Scalar.int v)) × (v ≤ℤ limit)

abbrev pub AllWithin : AuthorizationRequest → IntegerBounds → Type 0
AllWithin request [] = Unit
AllWithin request ((name, limit) ∷ bounds) =
    ContextWithin request name limit × AllWithin request bounds

-- The request asks for the scope's action on its resource, within every bound.
pub record WithinScope (request : AuthorizationRequest) (scope : AuthorityScope) : Type 0 where
  pub same_action : scope.action ≡ request.action
  pub same_resource : scope.resource ≡ request.resource
  pub bounded : AllWithin request scope.context_upper_bounds

direct_attribute-absent :
    (fields : Fields) (name : String)
    → (direct_attribute fields name).0 ≡ false
    → (direct_attribute fields name).1 ≡ Scalar.null
unfolding direct_attribute
direct_attribute-absent [] name h = refl
direct_attribute-absent ((key, value) ∷ fields) name h =
    ground (arith, direct_attribute-absent fields name)

bound_status-expected :
    (present : Bool) (value : Scalar) (limit : ℤ)
    → bound_status present value limit ≡ expected_bound_status present value limit
unfolding bound_status expected_bound_status
bound_status-expected present value limit = ground arith

applicability_status-aggregate :
    (a r : Bool) (statuses : List AuthorityApplicabilityStatus)
    → applicability_status a r statuses ≡ aggregate_status a r statuses
unfolding applicability_status aggregate_status
applicability_status-aggregate a r statuses = ground arith

module _ (request : AuthorizationRequest) where
  -- The evidence for one bound.
  abbrev pub evaluation : String × ℤ → AuthorityBoundEvaluation
  evaluation (name, limit) = record {
    name = name;
    upper_bound = limit;
    present = (context_value request name).0;
    supplied_value = (context_value request name).1;
    status = bound_status (context_value request name).0 (context_value request name).1 limit;
  }

  evaluate_bound-ok :
      (name : String) (limit : ℤ)
      → is_blank name ≡ false
      → evaluate_bound request name limit ≡ ok (evaluation (name, limit))
  unfolding evaluate_bound expected_bound_status authority_bound_evaluation_post_init context_value
  evaluate_bound-ok name limit named = ground (
    arith,
    direct_attribute-absent request.context.attributes name,
    bound_status-expected (direct_attribute request.context.attributes name).0
        (direct_attribute request.context.attributes name).1 limit,
  )

  evaluate_bounds-ok :
      (bounds : IntegerBounds)
      → All (λ b. is_blank b.0 ≡ false) bounds
      → evaluate_bounds request bounds ≡ ok (map evaluation bounds)
  unfolding evaluate_bounds
  evaluate_bounds-ok [] named = refl
  evaluate_bounds-ok ((name, limit) ∷ bounds) named =
      rw (evaluate_bound-ok name limit named.0) (rw (evaluate_bounds-ok bounds named.1))

  evaluation_names :
      (bounds : IntegerBounds)
      → map (λ (e : AuthorityBoundEvaluation). e.name) (map evaluation bounds)
        ≡ map (λ b. b.0) bounds
  evaluation_names [] = refl
  evaluation_names ((name, limit) ∷ bounds) = rw (evaluation_names bounds)

-- What the constructor of a scope has checked of its bounds.
pub record HasNamedBounds (scope : AuthorityScope) : Type 0 where
  pub named : All (λ b. is_blank b.0 ≡ false) scope.context_upper_bounds
  pub distinct : repeats [] (map (λ b. b.0) scope.context_upper_bounds) ≡ false

-- The constructor sorts and accepts evidence that is consistent.
applicability_accepts :
    (r : AuthorityApplicabilityResult)
    → is_blank r.effective_grant_id ≡ false
    → r.action_matches ≡ (r.expected_action == r.request_action)
    → r.resource_matches ≡ (r.expected_resource == r.request_resource)
    → repeats [] (map (λ (b : AuthorityBoundEvaluation). b.name) r.bound_evaluations) ≡ false
    → r.status
      ≡ aggregate_status r.action_matches r.resource_matches
          (bound_statuses (sort_by (λ a b. text_lt a.name b.name) r.bound_evaluations))
    → authority_applicability_result_post_init r
      ≡ ok (record r {
        bound_evaluations = sort_by (λ a b. text_lt a.name b.name) r.bound_evaluations;
      })
unfolding authority_applicability_result_post_init
applicability_accepts r named actions resources distinct status = ground arith

module _ (digests : Digests) (request : AuthorizationRequest) (authority : VerifiedAuthority) where
  abbrev pub scope_evaluations : List AuthorityBoundEvaluation
  scope_evaluations = map (evaluation request) authority.scope.context_upper_bounds

  -- The result that the check builds.
  abbrev pub applicability_result : AuthorityApplicabilityResult
  applicability_result = record {
    status =
        applicability_status (authority.scope.action == request.action)
          (authority.scope.resource == request.resource) (bound_statuses scope_evaluations);
    request_digest = digests.request_digest request;
    authority_digest = digests.authority_digest authority;
    chain_digest = authority.chain_digest;
    state_digest = authority.state_digest;
    effective_grant_id = authority.grant_id;
    expected_action = authority.scope.action;
    request_action = request.action;
    action_matches = authority.scope.action == request.action;
    expected_resource = authority.scope.resource;
    request_resource = request.resource;
    resource_matches = authority.scope.resource == request.resource;
    bound_evaluations = sort_by (λ a b. text_lt a.name b.name) scope_evaluations;
  }

  aggregate-sort :
      (a r : Bool)
      → aggregate_status a r
          (bound_statuses (sort_by (λ a b. text_lt a.name b.name) scope_evaluations))
        ≡ aggregate_status a r (bound_statuses scope_evaluations)
  unfolding aggregate_status
  aggregate-sort a r =
      simp (
        contains-sort_by (λ (e : AuthorityBoundEvaluation). e.status)
          (λ a b. text_lt a.name b.name))

  -- The constructor accepts the evidence, which it sorts by name.
  pub check_authority_applicability-ok :
      is_blank authority.grant_id ≡ false
      → HasNamedBounds authority.scope
      → check_authority_applicability digests request authority ≡ ok applicability_result
  unfolding check_authority_applicability
  check_authority_applicability-ok named bounds =
      rw (evaluate_bounds-ok request authority.scope.context_upper_bounds bounds.named) (
        applicability_accepts
          (record applicability_result { bound_evaluations = scope_evaluations }) named refl refl
          (rw (evaluation_names request authority.scope.context_upper_bounds) bounds.distinct)
          (applicability_status-aggregate (authority.scope.action == request.action)
              (authority.scope.resource == request.resource) (bound_statuses scope_evaluations)
            ∙ sym (
                aggregate-sort (authority.scope.action == request.action)
                  (authority.scope.resource == request.resource))))
