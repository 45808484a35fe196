-- ===== src/Canonical/ReadBack/Authority.antt =====
-- Values with the same encoding are equal: identities, grants and authority.
use nest_authz.Prelude.{All, refl, string_eq}
use nest_authz.Canonical.Join.{IsEncoder, same_values}
use nest_authz.Canonical.Records.{record-IsEncoder, encode_record-not_null}
use nest_authz.Canonical.Primitives.{Any, IsPresent, string-IsEncoder, integer-IsEncoder}
use nest_authz.Canonical.Containers.{
  Every, IsSortedMap, optional_string-IsEncoder, sequence-IsEncoder, optional-IsEncoder,
  string_sequence-IsEncoder, integer_map-IsEncoder,
}
use nest_authz.Domain.Hex.{hex_value, IsDigest, hex_value-injective}
use nest_authz.Domain.Authority.{
  AuthorityScope, AuthorityGrant, DelegationChain, VerifiedAuthority, AuthorityValidationResult,
}
use nest_authz.Canonical.ReadBack.Members.{authority_validation_status-IsEncoder}
use nest_authz.Canonical.Schema.Authority.{
  encode_subject, encode_action, encode_resource, encode_sha256_digest, encode_principal,
  encode_subject_principal_binding, encode_approver_subject_principal_binding,
  encode_authority_scope, encode_authority_grant, encode_delegation_chain, encode_revocation_set,
  encode_authorization_state, encode_verified_authority, encode_authority_validation_result,
}

pub subject-IsEncoder : IsEncoder Any encode_subject
unfolding encode_subject
subject-IsEncoder =
    record-IsEncoder "nest-authz/subject@1" _ (λ a b. refl)
      (λ a. (string-IsEncoder.frames a.identifier, tt))
      (λ a b v w e i. record { identifier = same_values string-IsEncoder tt tt e.0 i })

pub action-IsEncoder : IsEncoder Any encode_action
unfolding encode_action
action-IsEncoder =
    record-IsEncoder "nest-authz/action@1" _ (λ a b. refl)
      (λ a. (string-IsEncoder.frames a.name, tt))
      (λ a b v w e i. record { name = same_values string-IsEncoder tt tt e.0 i })

pub resource-IsEncoder : IsEncoder Any encode_resource
unfolding encode_resource
resource-IsEncoder =
    record-IsEncoder "nest-authz/resource@1" _ (λ a b. refl)
      (λ a. (string-IsEncoder.frames a.identifier, tt))
      (λ a b v w e i. record { identifier = same_values string-IsEncoder tt tt e.0 i })

pub sha256_digest-IsEncoder : IsEncoder IsDigest encode_sha256_digest
unfolding encode_sha256_digest
sha256_digest-IsEncoder =
    record-IsEncoder "nest-authz/sha256-digest@1" _ (λ a b. refl)
      (λ a. (string-IsEncoder.frames "sha256", (string-IsEncoder.frames (hex_value a), tt)))
      (λ a b v w e. hex_value-injective a b v w (same_values string-IsEncoder tt tt e.1.0))

pub sha256_digest-IsPresent : IsPresent encode_sha256_digest
unfolding encode_sha256_digest
sha256_digest-IsPresent a b h k = encode_record-not_null _ _ b h k

pub principal-IsEncoder : IsEncoder Any encode_principal
unfolding encode_principal
principal-IsEncoder =
    record-IsEncoder "nest-authz/principal@1" _ (λ a b. refl)
      (λ a. (string-IsEncoder.frames a.identifier, tt))
      (λ a b v w e i. record { identifier = same_values string-IsEncoder tt tt e.0 i })

pub subject_principal_binding-IsEncoder : IsEncoder Any encode_subject_principal_binding
unfolding encode_subject_principal_binding
subject_principal_binding-IsEncoder =
    record-IsEncoder "nest-authz/subject-principal-binding@1" _ (λ a b. refl)
      (λ a. (subject-IsEncoder.frames a.subject, (principal-IsEncoder.frames a.principal, tt)))
      (λ a b v w e i. record {
        subject = same_values subject-IsEncoder tt tt e.0 i;
        principal = same_values principal-IsEncoder tt tt e.1.0 i;
      })

pub approver_subject_principal_binding-IsEncoder :
    IsEncoder Any encode_approver_subject_principal_binding
unfolding encode_approver_subject_principal_binding
approver_subject_principal_binding-IsEncoder =
    record-IsEncoder "nest-authz/approver-subject-principal-binding@1" _ (λ a b. refl)
      (λ a. (subject-IsEncoder.frames a.subject, (principal-IsEncoder.frames a.principal, tt)))
      (λ a b v w e i. record {
        subject = same_values subject-IsEncoder tt tt e.0 i;
        principal = same_values principal-IsEncoder tt tt e.1.0 i;
      })

-- What the constructors of domain.py assure: digests of 32 bytes and sorted maps.
pub record IsCanonicalAuthorityScope (value : AuthorityScope) : Type 0 where
  pub context_upper_bounds : IsSortedMap Any value.context_upper_bounds

pub authority_scope-IsEncoder : IsEncoder IsCanonicalAuthorityScope encode_authority_scope
unfolding encode_authority_scope
authority_scope-IsEncoder =
    record-IsEncoder "nest-authz/authority-scope@1" _ (λ a b. refl)
      (λ a. (
        action-IsEncoder.frames a.action,
        (
          resource-IsEncoder.frames a.resource,
          (integer_map-IsEncoder.frames a.context_upper_bounds, tt),
        ),
      ))
      (λ a b v w e i. record {
        action = same_values action-IsEncoder tt tt e.0 i;
        resource = same_values resource-IsEncoder tt tt e.1.0 i;
        context_upper_bounds =
            same_values integer_map-IsEncoder v.context_upper_bounds w.context_upper_bounds e.1.1.0
              i;
      })

-- What the constructors of domain.py assure: digests of 32 bytes and sorted maps.
pub record IsCanonicalAuthorityGrant (value : AuthorityGrant) : Type 0 where
  pub scope : IsCanonicalAuthorityScope value.scope

pub authority_grant-IsEncoder : IsEncoder IsCanonicalAuthorityGrant encode_authority_grant
unfolding encode_authority_grant
authority_grant-IsEncoder =
    record-IsEncoder "nest-authz/authority-grant@1" _ (λ a b. refl)
      (λ a. (
        string-IsEncoder.frames a.identifier,
        (
          principal-IsEncoder.frames a.grantor,
          (
            principal-IsEncoder.frames a.grantee,
            (
              authority_scope-IsEncoder.frames a.scope,
              (
                optional_string-IsEncoder.frames a.parent_grant_id,
                (
                  integer-IsEncoder.frames a.valid_from,
                  (integer-IsEncoder.frames a.valid_until, tt),
                ),
              ),
            ),
          ),
        ),
      ))
      (λ a b v w e i. record {
        identifier = same_values string-IsEncoder tt tt e.0 i;
        grantor = same_values principal-IsEncoder tt tt e.1.0 i;
        grantee = same_values principal-IsEncoder tt tt e.1.1.0 i;
        scope = same_values authority_scope-IsEncoder v.scope w.scope e.1.1.1.0 i;
        parent_grant_id = same_values optional_string-IsEncoder tt tt e.1.1.1.1.0 i;
        valid_from = same_values integer-IsEncoder tt tt e.1.1.1.1.1.0 i;
        valid_until = same_values integer-IsEncoder tt tt e.1.1.1.1.1.1.0 i;
      })

-- What the constructors of domain.py assure: digests of 32 bytes and sorted maps.
pub record IsCanonicalDelegationChain (value : DelegationChain) : Type 0 where
  pub grants : All IsCanonicalAuthorityGrant value.grants

pub delegation_chain-IsEncoder : IsEncoder IsCanonicalDelegationChain encode_delegation_chain
unfolding encode_delegation_chain
delegation_chain-IsEncoder =
    record-IsEncoder "nest-authz/delegation-chain@1" _ (λ a b. refl)
      (λ a. (
        (sequence-IsEncoder IsCanonicalAuthorityGrant encode_authority_grant
              authority_grant-IsEncoder).frames
            a.grants,
        tt,
      ))
      (λ a b v w e i. record {
        grants =
            same_values
              (sequence-IsEncoder IsCanonicalAuthorityGrant encode_authority_grant
                authority_grant-IsEncoder)
              v.grants w.grants e.0 i;
      })

pub revocation_set-IsEncoder : IsEncoder Any encode_revocation_set
unfolding encode_revocation_set
revocation_set-IsEncoder =
    record-IsEncoder "nest-authz/revocation-set@1" _ (λ a b. refl)
      (λ a. (string_sequence-IsEncoder.frames a.grant_ids, tt))
      (λ a b v w e i. record { grant_ids = same_values string_sequence-IsEncoder tt tt e.0 i })

pub authorization_state-IsEncoder : IsEncoder Any encode_authorization_state
unfolding encode_authorization_state
authorization_state-IsEncoder =
    record-IsEncoder "nest-authz/authorization-state@1" _ (λ a b. refl)
      (λ a. (
        integer-IsEncoder.frames a.logical_time,
        (revocation_set-IsEncoder.frames a.revocations, tt),
      ))
      (λ a b v w e i. record {
        logical_time = same_values integer-IsEncoder tt tt e.0 i;
        revocations = same_values revocation_set-IsEncoder tt tt e.1.0 i;
      })

-- What the constructors of domain.py assure: digests of 32 bytes and sorted maps.
pub record IsCanonicalVerifiedAuthority (value : VerifiedAuthority) : Type 0 where
  pub scope : IsCanonicalAuthorityScope value.scope
  pub chain_digest : IsDigest value.chain_digest
  pub state_digest : IsDigest value.state_digest

pub verified_authority-IsEncoder : IsEncoder IsCanonicalVerifiedAuthority encode_verified_authority
unfolding encode_verified_authority
verified_authority-IsEncoder =
    record-IsEncoder "nest-authz/verified-authority@1" _ (λ a b. refl)
      (λ a. (
        string-IsEncoder.frames a.grant_id,
        (
          principal-IsEncoder.frames a.principal,
          (
            authority_scope-IsEncoder.frames a.scope,
            (
              integer-IsEncoder.frames a.validated_at,
              (
                sha256_digest-IsEncoder.frames a.chain_digest,
                (sha256_digest-IsEncoder.frames a.state_digest, tt),
              ),
            ),
          ),
        ),
      ))
      (λ a b v w e i. record {
        grant_id = same_values string-IsEncoder tt tt e.0 i;
        principal = same_values principal-IsEncoder tt tt e.1.0 i;
        scope = same_values authority_scope-IsEncoder v.scope w.scope e.1.1.0 i;
        validated_at = same_values integer-IsEncoder tt tt e.1.1.1.0 i;
        chain_digest =
            same_values sha256_digest-IsEncoder v.chain_digest w.chain_digest e.1.1.1.1.0 i;
        state_digest =
            same_values sha256_digest-IsEncoder v.state_digest w.state_digest e.1.1.1.1.1.0 i;
      })

pub verified_authority-IsPresent : IsPresent encode_verified_authority
unfolding encode_verified_authority
verified_authority-IsPresent a b h k = encode_record-not_null _ _ b h k

-- What the constructors of domain.py assure: digests of 32 bytes and sorted maps.
pub record IsCanonicalAuthorityValidationResult (value : AuthorityValidationResult) : Type 0 where
  pub chain_digest : IsDigest value.chain_digest
  pub state_digest : IsDigest value.state_digest
  pub verified_authority : Every IsCanonicalVerifiedAuthority value.verified_authority

pub authority_validation_result-IsEncoder :
    IsEncoder IsCanonicalAuthorityValidationResult encode_authority_validation_result
unfolding encode_authority_validation_result
authority_validation_result-IsEncoder =
    record-IsEncoder "nest-authz/authority-validation-result@1" _ (λ a b. refl)
      (λ a. (
        authority_validation_status-IsEncoder.frames a.status,
        (
          sha256_digest-IsEncoder.frames a.chain_digest,
          (
            sha256_digest-IsEncoder.frames a.state_digest,
            (
              optional_string-IsEncoder.frames a.offending_grant_id,
              (
                (optional-IsEncoder IsCanonicalVerifiedAuthority encode_verified_authority
                      verified_authority-IsEncoder verified_authority-IsPresent).frames
                    a.verified_authority,
                tt,
              ),
            ),
          ),
        ),
      ))
      (λ a b v w e i. record {
        status = same_values authority_validation_status-IsEncoder tt tt e.0 i;
        chain_digest = same_values sha256_digest-IsEncoder v.chain_digest w.chain_digest e.1.0 i;
        state_digest = same_values sha256_digest-IsEncoder v.state_digest w.state_digest e.1.1.0 i;
        offending_grant_id = same_values optional_string-IsEncoder tt tt e.1.1.1.0 i;
        verified_authority =
            same_values
              (optional-IsEncoder IsCanonicalVerifiedAuthority encode_verified_authority
                verified_authority-IsEncoder verified_authority-IsPresent)
              v.verified_authority w.verified_authority e.1.1.1.1.0 i;
      })
