-- ===== src/Domain/Authority.antt =====
-- Delegated authority of domain.py: scopes, grants, chains, revocations, and the result of
-- validation.
use nest_authz.Prelude.{
  ℤ, String, Bool, true, false, Option, none, some, List, [], ◌∷◌, ◌==◌, ◌!=◌, leb_ℤ, Result, ok,
  err, ◌>>=◌, ◌>>◌, raise_if, value_error,
}
use nest_authz.Domain.Status.{AuthorityValidationStatus, authority_validation_status_eq}
use nest_authz.Domain.Value.{
  IntegerBounds, Sha256Digest, sha256_digest_eq, non_blank, canonical_integer_bounds,
}
use nest_authz.Domain.Identity.{Action, Resource, Principal}

pub record AuthorityScope : Type 0 where
  pub action : Action
  pub resource : Resource
  pub context_upper_bounds : IntegerBounds

pub record AuthorityGrant : Type 0 where
  pub identifier : String
  pub grantor : Principal
  pub grantee : Principal
  pub scope : AuthorityScope
  pub parent_grant_id : Option String
  pub valid_from : ℤ
  pub valid_until : ℤ

-- Grants from the root to the leaf.
pub record DelegationChain : Type 0 where
  pub grants : List AuthorityGrant

pub record RevocationSet : Type 0 where
  pub grant_ids : List String

pub record AuthorizationState : Type 0 where
  pub logical_time : ℤ
  pub revocations : RevocationSet

pub record VerifiedAuthority : Type 0 where
  pub grant_id : String
  pub principal : Principal
  pub scope : AuthorityScope
  pub validated_at : ℤ
  pub chain_digest : Sha256Digest
  pub state_digest : Sha256Digest

pub record AuthorityValidationResult : Type 0 where
  pub status : AuthorityValidationStatus
  pub chain_digest : Sha256Digest
  pub state_digest : Sha256Digest
  pub offending_grant_id : Option String
  pub verified_authority : Option VerifiedAuthority

unfoldable pub authority_scope_post_init : AuthorityScope → Result AuthorityScope
unfolding canonical_integer_bounds
authority_scope_post_init s = do
  bounds ← canonical_integer_bounds s.context_upper_bounds "context_upper_bounds"
  ok (record s { context_upper_bounds = bounds })

unfoldable pub authority_grant_post_init : AuthorityGrant → Result AuthorityGrant
unfolding non_blank
authority_grant_post_init g = do
  non_blank g.identifier "grant identifier"
  check_parent g.parent_grant_id
  raise_if (leb_ℤ g.valid_until g.valid_from)
      (value_error "valid_from must be less than valid_until")
  ok g
  where
    check_parent : Option String → Result String
    check_parent none = ok ""
    check_parent (some parent) = non_blank parent "parent grant identifier"

unfoldable pub delegation_chain_post_init : DelegationChain → Result DelegationChain
delegation_chain_post_init c = elim c.grants [
  | [] ↦ err (value_error "a delegation chain must contain at least one grant")
  | _ ∷ _ ↦ ok c
]

-- `VerifiedAuthority._from_validation`.
unfoldable pub verified_authority_from_validation : VerifiedAuthority → Result VerifiedAuthority
unfolding non_blank
verified_authority_from_validation a = do non_blank a.grant_id "verified grant identifier"; ok a

-- The branches of the last test, on the fields that they read.
check_validation :
    Bool
    → Option String
    → Option VerifiedAuthority
    → Sha256Digest
    → Sha256Digest
    → Result (Unit {0})
check_validation true (some _) _ chain state =
    err (value_error "VALID results must not identify an offending grant")
check_validation true none none chain state =
    err (value_error "VALID results require verified authority")
check_validation true none (some a) chain state = do
  raise_if (a.chain_digest != chain)
      (value_error "verified authority chain digest must match result")
  raise_if (a.state_digest != state)
      (value_error "verified authority state digest must match result")
check_validation false none _ chain state =
    err (value_error "invalid authority results require an offending grant")
check_validation false (some _) none chain state = ok tt
check_validation false (some _) (some _) chain state =
    err (value_error "invalid authority results cannot carry verified authority")

check_offending : Option String → Result String
check_offending none = ok ""
check_offending (some i) = non_blank i "offending grant identifier"

unfoldable pub authority_validation_result_post_init :
    AuthorityValidationResult → Result AuthorityValidationResult
unfolding check_validation check_offending non_blank
authority_validation_result_post_init r = do
  check_offending r.offending_grant_id
  check_validation (r.status == AuthorityValidationStatus.valid) r.offending_grant_id
      r.verified_authority r.chain_digest r.state_digest
  ok r
