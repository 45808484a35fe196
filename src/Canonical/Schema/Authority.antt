-- ===== src/Canonical/Schema/Authority.antt =====
-- The schemas of `_encode_domain` in canonical.py for domain.py's principals, scopes, grants, chains, states and verified authority.
use nest_authz.Prelude.{[], ◌∷◌, Result}
use nest_authz.Domain.Status.{AuthorityValidationStatus}
use nest_authz.Canonical.Values.{authority_validation_status_value}
use nest_authz.Domain.Hex.{hex_value}
use nest_authz.Domain.Value.{Sha256Digest}
use nest_authz.Domain.Identity.{
  Subject, Action, Resource, Principal, SubjectPrincipalBinding, ApproverSubjectPrincipalBinding,
}
use nest_authz.Domain.Authority.{
  AuthorityScope, AuthorityGrant, DelegationChain, RevocationSet, AuthorizationState,
  VerifiedAuthority, AuthorityValidationResult,
}
use nest_authz.Canonical.Bytes.{Bytes}
use nest_authz.Canonical.Encode.{
  encode_string, encode_integer, encode_optional, encode_sequence, encode_integer_map,
  encode_string_sequence, encode_record,
}

unfoldable pub encode_subject : Subject → Result Bytes
encode_subject value =
    encode_record "nest-authz/subject@1" (("identifier", encode_string value.identifier) ∷ [])

unfoldable pub encode_action : Action → Result Bytes
encode_action value = encode_record "nest-authz/action@1" (("name", encode_string value.name) ∷ [])

unfoldable pub encode_resource : Resource → Result Bytes
encode_resource value =
    encode_record "nest-authz/resource@1" (("identifier", encode_string value.identifier) ∷ [])

unfoldable pub encode_sha256_digest : Sha256Digest → Result Bytes
encode_sha256_digest value =
    encode_record "nest-authz/sha256-digest@1"
      (("algorithm", encode_string "sha256") ∷ ("value", encode_string (hex_value value)) ∷ [])

unfoldable pub encode_principal : Principal → Result Bytes
encode_principal value =
    encode_record "nest-authz/principal@1" (("identifier", encode_string value.identifier) ∷ [])

unfoldable pub encode_subject_principal_binding : SubjectPrincipalBinding → Result Bytes
encode_subject_principal_binding value = encode_record "nest-authz/subject-principal-binding@1" (
    ("subject", encode_subject value.subject)
    ∷ ("principal", encode_principal value.principal)
    ∷ [])

unfoldable pub encode_approver_subject_principal_binding :
    ApproverSubjectPrincipalBinding → Result Bytes
encode_approver_subject_principal_binding value =
    encode_record "nest-authz/approver-subject-principal-binding@1" (
      ("subject", encode_subject value.subject)
      ∷ ("principal", encode_principal value.principal)
      ∷ [])

unfoldable pub encode_authority_scope : AuthorityScope → Result Bytes
encode_authority_scope value = encode_record "nest-authz/authority-scope@1" (
    ("action", encode_action value.action)
    ∷ ("resource", encode_resource value.resource)
    ∷ ("context_upper_bounds", encode_integer_map value.context_upper_bounds)
    ∷ [])

unfoldable pub encode_authority_grant : AuthorityGrant → Result Bytes
encode_authority_grant value = encode_record "nest-authz/authority-grant@1" (
    ("identifier", encode_string value.identifier)
    ∷ ("grantor", encode_principal value.grantor)
    ∷ ("grantee", encode_principal value.grantee)
    ∷ ("scope", encode_authority_scope value.scope)
    ∷ ("parent_grant_id", encode_optional encode_string value.parent_grant_id)
    ∷ ("valid_from", encode_integer value.valid_from)
    ∷ ("valid_until", encode_integer value.valid_until)
    ∷ [])

unfoldable pub encode_delegation_chain : DelegationChain → Result Bytes
encode_delegation_chain value =
    encode_record "nest-authz/delegation-chain@1"
      (("grants", encode_sequence encode_authority_grant value.grants) ∷ [])

unfoldable pub encode_revocation_set : RevocationSet → Result Bytes
encode_revocation_set value =
    encode_record "nest-authz/revocation-set@1"
      (("grant_ids", encode_string_sequence value.grant_ids) ∷ [])

unfoldable pub encode_authorization_state : AuthorizationState → Result Bytes
encode_authorization_state value = encode_record "nest-authz/authorization-state@1" (
    ("logical_time", encode_integer value.logical_time)
    ∷ ("revocations", encode_revocation_set value.revocations)
    ∷ [])

unfoldable pub encode_authority_validation_status : AuthorityValidationStatus → Result Bytes
encode_authority_validation_status value =
    encode_record "nest-authz/authority-validation-status@1"
      (("value", encode_string (authority_validation_status_value value)) ∷ [])

unfoldable pub encode_verified_authority : VerifiedAuthority → Result Bytes
encode_verified_authority value = encode_record "nest-authz/verified-authority@1" (
    ("grant_id", encode_string value.grant_id)
    ∷ ("principal", encode_principal value.principal)
    ∷ ("scope", encode_authority_scope value.scope)
    ∷ ("validated_at", encode_integer value.validated_at)
    ∷ ("chain_digest", encode_sha256_digest value.chain_digest)
    ∷ ("state_digest", encode_sha256_digest value.state_digest)
    ∷ [])

unfoldable pub encode_authority_validation_result : AuthorityValidationResult → Result Bytes
encode_authority_validation_result value =
    encode_record "nest-authz/authority-validation-result@1" (
      ("status", encode_authority_validation_status value.status)
      ∷ ("chain_digest", encode_sha256_digest value.chain_digest)
      ∷ ("state_digest", encode_sha256_digest value.state_digest)
      ∷ ("offending_grant_id", encode_optional encode_string value.offending_grant_id)
      ∷ ("verified_authority", encode_optional encode_verified_authority value.verified_authority)
      ∷ [])
