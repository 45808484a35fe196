-- ===== src/Canonical/ReadBack/Request.antt =====
-- Values with the same encoding are equal: requests.
use nest_authz.Prelude.{refl, string_eq}
use nest_authz.Canonical.Join.{IsEncoder, same_values}
use nest_authz.Canonical.Records.{record-IsEncoder, encode_record-not_null}
use nest_authz.Canonical.Primitives.{Any, IsPresent, string-IsEncoder}
use nest_authz.Canonical.Containers.{Every, IsSortedMap, optional-IsEncoder, scalar_map-IsEncoder}
use nest_authz.Domain.Request.{RequestContext, AuthorityContext, AuthorizationRequest}
use nest_authz.Canonical.ReadBack.Authority.{
  subject-IsEncoder, action-IsEncoder, resource-IsEncoder,
}
use nest_authz.Canonical.Schema.Request.{
  encode_request_context, encode_authority_context, encode_authorization_request,
}

-- What the constructors of domain.py assure: digests of 32 bytes and sorted maps.
pub record IsCanonicalRequestContext (value : RequestContext) : Type 0 where
  pub attributes : IsSortedMap Any value.attributes

pub request_context-IsEncoder : IsEncoder IsCanonicalRequestContext encode_request_context
unfolding encode_request_context
request_context-IsEncoder =
    record-IsEncoder "nest-authz/request-context@1" _ (λ a b. refl)
      (λ a. (scalar_map-IsEncoder.frames a.attributes, tt))
      (λ a b v w e i. record {
        attributes = same_values scalar_map-IsEncoder v.attributes w.attributes e.0 i;
      })

-- What the constructors of domain.py assure: digests of 32 bytes and sorted maps.
pub record IsCanonicalAuthorityContext (value : AuthorityContext) : Type 0 where
  pub attributes : IsSortedMap Any value.attributes

pub authority_context-IsEncoder : IsEncoder IsCanonicalAuthorityContext encode_authority_context
unfolding encode_authority_context
authority_context-IsEncoder =
    record-IsEncoder "nest-authz/authority-context@1" _ (λ a b. refl)
      (λ a. (string-IsEncoder.frames a.identifier, (scalar_map-IsEncoder.frames a.attributes, tt)))
      (λ a b v w e i. record {
        identifier = same_values string-IsEncoder tt tt e.0 i;
        attributes = same_values scalar_map-IsEncoder v.attributes w.attributes e.1.0 i;
      })

pub authority_context-IsPresent : IsPresent encode_authority_context
unfolding encode_authority_context
authority_context-IsPresent a b h k = encode_record-not_null _ _ b h k

-- What the constructors of domain.py assure: digests of 32 bytes and sorted maps.
pub record IsCanonicalAuthorizationRequest (value : AuthorizationRequest) : Type 0 where
  pub context : IsCanonicalRequestContext value.context
  pub authority_context : Every IsCanonicalAuthorityContext value.authority_context

pub authorization_request-IsEncoder :
    IsEncoder IsCanonicalAuthorizationRequest encode_authorization_request
unfolding encode_authorization_request
authorization_request-IsEncoder =
    record-IsEncoder "nest-authz/authorization-request@2" _ (λ a b. refl)
      (λ a. (
        subject-IsEncoder.frames a.subject,
        (
          action-IsEncoder.frames a.action,
          (
            resource-IsEncoder.frames a.resource,
            (
              request_context-IsEncoder.frames a.context,
              (
                (optional-IsEncoder IsCanonicalAuthorityContext encode_authority_context
                      authority_context-IsEncoder authority_context-IsPresent).frames
                    a.authority_context,
                tt,
              ),
            ),
          ),
        ),
      ))
      (λ a b v w e i. record {
        subject = same_values subject-IsEncoder tt tt e.0 i;
        action = same_values action-IsEncoder tt tt e.1.0 i;
        resource = same_values resource-IsEncoder tt tt e.1.1.0 i;
        context = same_values request_context-IsEncoder v.context w.context e.1.1.1.0 i;
        authority_context =
            same_values
              (optional-IsEncoder IsCanonicalAuthorityContext encode_authority_context
                authority_context-IsEncoder authority_context-IsPresent)
              v.authority_context w.authority_context e.1.1.1.1.0 i;
      })
