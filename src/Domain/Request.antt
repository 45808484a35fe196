-- ===== src/Domain/Request.antt =====
-- The authorization request of domain.py.
use nest_authz.Prelude.{String, Option, Result, ok, ◌>>=◌, ◌>>◌}
use nest_authz.Domain.Value.{Fields, non_blank, canonical_fields}
use nest_authz.Domain.Identity.{Subject, Action, Resource}

pub record RequestContext : Type 0 where
  pub attributes : Fields

pub record AuthorityContext : Type 0 where
  pub identifier : String
  pub attributes : Fields

pub record AuthorizationRequest : Type 0 where
  pub subject : Subject
  pub action : Action
  pub resource : Resource
  pub context : RequestContext
  pub authority_context : Option AuthorityContext

unfoldable pub request_context_post_init : RequestContext → Result RequestContext
unfolding canonical_fields
request_context_post_init c = do
  attributes ← canonical_fields c.attributes "context attributes"
  ok (record c { attributes = attributes })

unfoldable pub authority_context_post_init : AuthorityContext → Result AuthorityContext
unfolding non_blank canonical_fields
authority_context_post_init c = do
  non_blank c.identifier "authority-context identifier"
  attributes ← canonical_fields c.attributes "authority-context attributes"
  ok (record c { attributes = attributes })
