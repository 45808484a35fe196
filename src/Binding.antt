-- ===== src/Binding.antt =====
-- binding.py: whether the subject of a request is bound to the holder of an authority.
pub mod Laws
use nest_authz.Prelude.{◌!=◌, if◌then◌else◌, Result}
use nest_authz.Domain.Status.{SubjectAuthorityBindingStatus}
use nest_authz.Domain.Identity.{SubjectPrincipalBinding, subject_eq, principal_eq}
use nest_authz.Domain.Authority.{VerifiedAuthority}
use nest_authz.Domain.Request.{AuthorizationRequest}
use nest_authz.Domain.Evidence.{
  SubjectAuthorityBindingResult, subject_authority_binding_result_post_init,
}
use nest_authz.Digests.{Digests}

unfoldable pub binding_status :
    AuthorizationRequest
    → SubjectPrincipalBinding
    → VerifiedAuthority
    → SubjectAuthorityBindingStatus
binding_status request binding authority =
    if request.subject != binding.subject
    then SubjectAuthorityBindingStatus.subject_mismatch
    else if binding.principal != authority.principal
    then SubjectAuthorityBindingStatus.principal_mismatch
    else SubjectAuthorityBindingStatus.bound

unfoldable pub check_subject_authority_binding :
    Digests
    → AuthorizationRequest
    → SubjectPrincipalBinding
    → VerifiedAuthority
    → Result SubjectAuthorityBindingResult
check_subject_authority_binding digests request binding authority =
    subject_authority_binding_result_post_init (record {
      status = binding_status request binding authority;
      request_digest = digests.request_digest request;
      authority_digest = digests.authority_digest authority;
      request_subject = request.subject;
      binding = binding;
      authority_principal = authority.principal;
      effective_grant_id = authority.grant_id;
    })
