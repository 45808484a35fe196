-- ===== src/Binding/Laws.antt =====
-- The gate on the holder returns, and passes exactly the bound subject and principal.
use nest_authz.Prelude.{◌≡◌, refl, ◌↔◌, false, arith, ok}
use nest_authz.Domain.Status.{SubjectAuthorityBindingStatus}
use nest_authz.Domain.Value.{is_blank}
use nest_authz.Domain.Identity.{SubjectPrincipalBinding}
use nest_authz.Domain.Authority.{VerifiedAuthority}
use nest_authz.Domain.Request.{AuthorizationRequest}
use nest_authz.Domain.Evidence.{
  SubjectAuthorityBindingResult, expected_binding_status,
  subject_authority_binding_result_post_init,
}
use nest_authz.Digests.{Digests}
use nest_authz.Binding.{binding_status, check_subject_authority_binding}

module _ (digests : Digests) (request : AuthorizationRequest) (binding : SubjectPrincipalBinding)
    (authority : VerifiedAuthority) where
  -- The result that the check builds.
  abbrev pub binding_result : SubjectAuthorityBindingResult
  binding_result = record {
    status = binding_status request binding authority;
    request_digest = digests.request_digest request;
    authority_digest = digests.authority_digest authority;
    request_subject = request.subject;
    binding = binding;
    authority_principal = authority.principal;
    effective_grant_id = authority.grant_id;
  }

  binding_status-expected :
      binding_status request binding authority ≡ expected_binding_status binding_result
  unfolding binding_status expected_binding_status
  binding_status-expected = refl

  -- The constructor accepts the result.
  pub check_subject_authority_binding-ok :
      is_blank authority.grant_id ≡ false
      → check_subject_authority_binding digests request binding authority ≡ ok binding_result
  unfolding check_subject_authority_binding subject_authority_binding_result_post_init
  check_subject_authority_binding-ok named = ground (arith, binding_status-expected)

  -- The status is BOUND exactly for the binding of the request's subject to the holder.
  pub binding_status_iff :
      (binding_status request binding authority ≡ SubjectAuthorityBindingStatus.bound)
      ↔ (request.subject ≡ binding.subject) × (binding.principal ≡ authority.principal)
  unfolding binding_status
  binding_status_iff = (λ h. ground arith, λ h. ground arith)
