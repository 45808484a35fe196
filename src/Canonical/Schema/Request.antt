-- ===== src/Canonical/Schema/Request.antt =====
-- The schemas of `_encode_domain` in canonical.py for requests and their contexts.
use nest_authz.Prelude.{[], ◌∷◌, Result}
use nest_authz.Domain.Request.{RequestContext, AuthorityContext, AuthorizationRequest}
use nest_authz.Canonical.Bytes.{Bytes}
use nest_authz.Canonical.Encode.{encode_string, encode_optional, encode_scalar_map, encode_record}
use nest_authz.Canonical.Schema.Authority.{encode_action, encode_resource, encode_subject}

unfoldable pub encode_request_context : RequestContext → Result Bytes
encode_request_context value =
    encode_record "nest-authz/request-context@1"
      (("attributes", encode_scalar_map value.attributes) ∷ [])

unfoldable pub encode_authority_context : AuthorityContext → Result Bytes
encode_authority_context value = encode_record "nest-authz/authority-context@1" (
    ("identifier", encode_string value.identifier)
    ∷ ("attributes", encode_scalar_map value.attributes)
    ∷ [])

unfoldable pub encode_authorization_request : AuthorizationRequest → Result Bytes
encode_authorization_request value = encode_record "nest-authz/authorization-request@2" (
    ("subject", encode_subject value.subject)
    ∷ ("action", encode_action value.action)
    ∷ ("resource", encode_resource value.resource)
    ∷ ("context", encode_request_context value.context)
    ∷ ("authority_context", encode_optional encode_authority_context value.authority_context)
    ∷ [])
