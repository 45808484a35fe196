-- ===== src/Domain/Evidence.antt =====
-- The evidence of the two authority gates in domain.py: subject binding and applicability.
use nest_authz.Prelude.{
  ℤ, String, Bool, true, false, not, List, [], map, Eq, ◌==◌, ◌!=◌, contains, differ, ltb_ℤ,
  sort_by, if◌then◌else◌, Result, ok, ◌>>=◌, ◌>>◌, raise_if, value_error, string_eq,
  string_discrete, ℤ_discrete,
}
use nest_authz.Domain.Status.{
  SubjectAuthorityBindingStatus, subject_authority_binding_status_eq, AuthorityApplicabilityStatus,
  authority_applicability_status_eq,
}
use nest_authz.Domain.Value.{Scalar, Sha256Digest, sha256_digest_eq, non_blank, text_lt, repeats}
use nest_authz.Domain.Identity.{
  Subject, Action, Resource, Principal, SubjectPrincipalBinding, subject_eq, action_eq, resource_eq,
  principal_eq,
}

pub record SubjectAuthorityBindingResult : Type 0 where
  pub status : SubjectAuthorityBindingStatus
  pub request_digest : Sha256Digest
  pub authority_digest : Sha256Digest
  pub request_subject : Subject
  pub binding : SubjectPrincipalBinding
  pub authority_principal : Principal
  pub effective_grant_id : String

-- `supplied_value` is compared with its type, as `_typed_supplied_value` is.
pub record AuthorityBoundEvaluation : Type 0 where
  pub name : String
  pub upper_bound : ℤ
  pub present : Bool
  pub supplied_value : Scalar
  pub status : AuthorityApplicabilityStatus

pub record AuthorityApplicabilityResult : Type 0 where
  pub status : AuthorityApplicabilityStatus
  pub request_digest : Sha256Digest
  pub authority_digest : Sha256Digest
  pub chain_digest : Sha256Digest
  pub state_digest : Sha256Digest
  pub effective_grant_id : String
  pub expected_action : Action
  pub request_action : Action
  pub action_matches : Bool
  pub expected_resource : Resource
  pub request_resource : Resource
  pub resource_matches : Bool
  pub bound_evaluations : List AuthorityBoundEvaluation

-- The status that the constructor recomputes from the compared values.
unfoldable pub expected_binding_status :
    SubjectAuthorityBindingResult → SubjectAuthorityBindingStatus
expected_binding_status r =
    if r.request_subject != r.binding.subject
    then SubjectAuthorityBindingStatus.subject_mismatch
    else if r.binding.principal != r.authority_principal
    then SubjectAuthorityBindingStatus.principal_mismatch
    else SubjectAuthorityBindingStatus.bound

unfoldable pub subject_authority_binding_result_post_init :
    SubjectAuthorityBindingResult → Result SubjectAuthorityBindingResult
unfolding non_blank
subject_authority_binding_result_post_init r = do
  non_blank r.effective_grant_id "effective grant identifier"
  raise_if (r.status != expected_binding_status r)
      (value_error "binding status does not match the compared Subject and Principal")
  ok r

-- The status of one bound, from its presence and its value.
unfoldable pub expected_bound_status : Bool → Scalar → ℤ → AuthorityApplicabilityStatus
expected_bound_status false _ upper = AuthorityApplicabilityStatus.missing_context
expected_bound_status true (Scalar.int value) upper =
    if ltb_ℤ upper value
    then AuthorityApplicabilityStatus.bound_exceeded
    else AuthorityApplicabilityStatus.applicable
expected_bound_status true _ upper = AuthorityApplicabilityStatus.type_error

abbrev is_null : Scalar → Bool
is_null Scalar.null = true
is_null _ = false

unfoldable pub authority_bound_evaluation_post_init :
    AuthorityBoundEvaluation → Result AuthorityBoundEvaluation
unfolding non_blank
authority_bound_evaluation_post_init b = do
  non_blank b.name "authority bound name"
  raise_if (if b.present then false else not (is_null b.supplied_value))
      (value_error "a missing authority bound cannot have a value")
  raise_if (b.status != expected_bound_status b.present b.supplied_value b.upper_bound)
      (value_error "bound status does not match the supplied value")
  ok b

unfoldable pub canonical_bound_evaluations :
    List AuthorityBoundEvaluation → Result (List AuthorityBoundEvaluation)
canonical_bound_evaluations bs = do
  raise_if (repeats [] (map (λ (b : AuthorityBoundEvaluation). b.name) bs))
      (value_error "bound_evaluations must not contain duplicate names")
  ok (sort_by (λ a b. text_lt a.name b.name) bs)

-- The aggregate status: the first failure in a fixed order.
unfoldable pub aggregate_status :
    Bool → Bool → List AuthorityApplicabilityStatus → AuthorityApplicabilityStatus
aggregate_status action_matches resource_matches statuses =
    if not action_matches
    then AuthorityApplicabilityStatus.action_mismatch
    else if not resource_matches
    then AuthorityApplicabilityStatus.resource_mismatch
    else if contains AuthorityApplicabilityStatus.missing_context statuses
    then AuthorityApplicabilityStatus.missing_context
    else if contains AuthorityApplicabilityStatus.type_error statuses
    then AuthorityApplicabilityStatus.type_error
    else if contains AuthorityApplicabilityStatus.bound_exceeded statuses
    then AuthorityApplicabilityStatus.bound_exceeded
    else AuthorityApplicabilityStatus.applicable

abbrev pub bound_statuses : List AuthorityBoundEvaluation → List AuthorityApplicabilityStatus
bound_statuses = map (λ b. b.status)

unfoldable pub authority_applicability_result_post_init :
    AuthorityApplicabilityResult → Result AuthorityApplicabilityResult
unfolding non_blank canonical_bound_evaluations
authority_applicability_result_post_init r = do
  non_blank r.effective_grant_id "effective grant identifier"
  raise_if (differ r.action_matches (r.expected_action == r.request_action))
      (value_error "action_matches does not match the compared Actions")
  raise_if (differ r.resource_matches (r.expected_resource == r.request_resource))
      (value_error "resource_matches does not match the compared Resources")
  evaluations ← canonical_bound_evaluations r.bound_evaluations
  raise_if
      (r.status
        != aggregate_status r.action_matches r.resource_matches (bound_statuses evaluations))
      (value_error "applicability status does not match comparison evidence")
  ok (record r { bound_evaluations = evaluations })

instance unfoldable pub subject_authority_binding_result_eq : Eq SubjectAuthorityBindingResult
unfolding string_discrete ℤ_discrete sha256_digest_eq
subject_authority_binding_result_eq = record {
  dec = hlevel (string_discrete, ℤ_discrete, sha256_digest_eq.dec);
}

instance unfoldable pub authority_applicability_result_eq : Eq AuthorityApplicabilityResult
unfolding string_discrete ℤ_discrete sha256_digest_eq
authority_applicability_result_eq = record {
  dec = hlevel (string_discrete, ℤ_discrete, sha256_digest_eq.dec);
}
