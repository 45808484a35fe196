-- ===== src/Applicability.antt =====
-- applicability.py: whether validated authority contains one exact request.
pub mod Laws
pub mod Scope
pub mod Provenance
use nest_authz.Prelude.{
  ℤ, String, Bool, true, false, List, [], ◌∷◌, ◌==◌, contains, if◌then◌else◌, ltb_ℤ, Result, ok,
  err, ◌>>=◌, string_eq,
}
use nest_authz.Domain.Status.{AuthorityApplicabilityStatus, authority_applicability_status_eq}
use nest_authz.Domain.Value.{Scalar, Fields, IntegerBounds}
use nest_authz.Domain.Identity.{action_eq, resource_eq}
use nest_authz.Domain.Authority.{VerifiedAuthority}
use nest_authz.Domain.Request.{AuthorizationRequest}
use nest_authz.Domain.Evidence.{
  AuthorityBoundEvaluation, AuthorityApplicabilityResult, bound_statuses,
  authority_bound_evaluation_post_init, authority_applicability_result_post_init,
}
use nest_authz.Digests.{Digests}

-- `(True, value)` of the first attribute of that name, or `(False, None)`.
unfoldable pub direct_attribute : Fields → String → Bool × Scalar
direct_attribute [] name = (false, Scalar.null)
direct_attribute ((key, value) ∷ attributes) name =
    if key == name then (true, value) else direct_attribute attributes name

unfoldable pub context_value : AuthorizationRequest → String → Bool × Scalar
unfolding direct_attribute
context_value request = direct_attribute request.context.attributes

-- The status of one bound, by the type of the supplied value.
unfoldable pub bound_status : Bool → Scalar → ℤ → AuthorityApplicabilityStatus
bound_status false supplied_value upper_bound = AuthorityApplicabilityStatus.missing_context
bound_status true (Scalar.int supplied_value) upper_bound =
    if ltb_ℤ upper_bound supplied_value
    then AuthorityApplicabilityStatus.bound_exceeded
    else AuthorityApplicabilityStatus.applicable
bound_status true _ upper_bound = AuthorityApplicabilityStatus.type_error

unfoldable pub evaluate_bound : AuthorizationRequest → String → ℤ → Result AuthorityBoundEvaluation
evaluate_bound request name upper_bound =
    let (present, supplied_value) = context_value request name in
    authority_bound_evaluation_post_init (record {
      name = name;
      upper_bound = upper_bound;
      present = present;
      supplied_value = supplied_value;
      status = bound_status present supplied_value upper_bound;
    })

unfoldable pub evaluate_bounds :
    AuthorizationRequest → IntegerBounds → Result (List AuthorityBoundEvaluation)
evaluate_bounds request [] = ok []
evaluate_bounds request ((name, upper_bound) ∷ bounds) = do
  evaluation ← evaluate_bound request name upper_bound
  rest ← evaluate_bounds request bounds
  ok (evaluation ∷ rest)

unfoldable pub applicability_status :
    Bool → Bool → List AuthorityApplicabilityStatus → AuthorityApplicabilityStatus
applicability_status action_matches resource_matches statuses =
    if action_matches
    then (if resource_matches
        then (if contains AuthorityApplicabilityStatus.missing_context statuses
            then AuthorityApplicabilityStatus.missing_context
            else if contains AuthorityApplicabilityStatus.type_error statuses
            then AuthorityApplicabilityStatus.type_error
            else if contains AuthorityApplicabilityStatus.bound_exceeded statuses
            then AuthorityApplicabilityStatus.bound_exceeded
            else AuthorityApplicabilityStatus.applicable)
        else AuthorityApplicabilityStatus.resource_mismatch)
    else AuthorityApplicabilityStatus.action_mismatch

unfoldable pub check_authority_applicability :
    Digests → AuthorizationRequest → VerifiedAuthority → Result AuthorityApplicabilityResult
check_authority_applicability digests request authority = do
  let action_matches = authority.scope.action == request.action
  let resource_matches = authority.scope.resource == request.resource
  bound_evaluations ← evaluate_bounds request authority.scope.context_upper_bounds
  authority_applicability_result_post_init (record {
    status =
        applicability_status action_matches resource_matches (bound_statuses bound_evaluations);
    request_digest = digests.request_digest request;
    authority_digest = digests.authority_digest authority;
    chain_digest = authority.chain_digest;
    state_digest = authority.state_digest;
    effective_grant_id = authority.grant_id;
    expected_action = authority.scope.action;
    request_action = request.action;
    action_matches = action_matches;
    expected_resource = authority.scope.resource;
    request_resource = request.resource;
    resource_matches = resource_matches;
    bound_evaluations = bound_evaluations;
  })
