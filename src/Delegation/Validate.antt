-- ===== src/Delegation/Validate.antt =====
-- The checks of `validate_authority` as a whole, and the results that it builds from them.
use nest_authz.Prelude.{
  String, ◌≡◌, ◌≢◌, refl, ◌↔◌, false, Option, none, some, List, [], ◌∷◌, arith, All, NoDup, ok,
  string_eq,
}
use nest_authz.Domain.Status.{AuthorityValidationStatus}
use nest_authz.Domain.Value.{is_blank}
use nest_authz.Domain.Authority.{
  AuthorityGrant, AuthorizationState, DelegationChain, AuthorityValidationResult, VerifiedAuthority,
}
use nest_authz.Digests.{Digests}
use nest_authz.Delegation.{
  is_revoked, is_not_yet_valid, is_expired, Failure, or_fail, chain_failure, checked_from_root,
  first_failure, conclude, leaf_of,
}
use nest_authz.Delegation.Spec.{IsCurrent, IsValidChain, identifiers}
use nest_authz.Delegation.Cycles.{reference_cycle-none}
use nest_authz.Delegation.Checks.{
  duplicate_grant_id_iff, principal_cycle_iff, broken_link_iff, broadened_iff, first_failing_iff,
}

or_fail_iff :
    (status : AuthorityValidationStatus) (o : Option String) (rest : Option Failure)
    → (or_fail status o rest ≡ none) ↔ (o ≡ none) × (rest ≡ none)
or_fail_iff status none rest = (λ h. (refl, h), λ h. h.1)
or_fail_iff status (some i) rest = (λ h. cc, λ h. cc (h.0))

module _ (state : AuthorizationState) where
  IsCurrent-all :
      (gs : List AuthorityGrant)
      → All (λ g. is_revoked state g ≡ false) gs
      → All (λ g. is_not_yet_valid state g ≡ false) gs
      → All (λ g. is_expired state g ≡ false) gs
      → All (IsCurrent state) gs
  IsCurrent-all [] r n e = tt
  IsCurrent-all (g ∷ gs) r n e =
      (record { not_revoked = r.0; started = n.0; not_ended = e.0 }, IsCurrent-all gs r.1 n.1 e.1)

  all_not_revoked :
      (gs : List AuthorityGrant)
      → All (IsCurrent state) gs
      → All (λ g. is_revoked state g ≡ false) gs
  all_not_revoked [] h = tt
  all_not_revoked (g ∷ gs) h = (h.0.not_revoked, all_not_revoked gs h.1)

  all_started :
      (gs : List AuthorityGrant)
      → All (IsCurrent state) gs
      → All (λ g. is_not_yet_valid state g ≡ false) gs
  all_started [] h = tt
  all_started (g ∷ gs) h = (h.0.started, all_started gs h.1)

  all_not_ended :
      (gs : List AuthorityGrant)
      → All (IsCurrent state) gs
      → All (λ g. is_expired state g ≡ false) gs
  all_not_ended [] h = tt
  all_not_ended (g ∷ gs) h = (h.0.not_ended, all_not_ended gs h.1)

  module _ (root : AuthorityGrant) (rest : List AuthorityGrant) where
    -- The checks from the root on pass exactly on a valid chain, if the identifiers are distinct.
    chain_failure_sound :
        NoDup (identifiers (root ∷ rest))
        → chain_failure state root rest ≡ none
        → IsValidChain state root rest
    unfolding chain_failure
    chain_failure_sound nodup h0 =
        let (p, h1) = (or_fail_iff _ _ _).0 h0 in
        let (l, h2) = (or_fail_iff _ _ _).0 h1 in
        let (c, h3) = (or_fail_iff _ _ _).0 h2 in
        let (b, h4) = (or_fail_iff _ _ _).0 h3 in
        let (r, h5) = (or_fail_iff _ _ _).0 h4 in
        let (n, h6) = (or_fail_iff _ _ _).0 h5 in
        let (e, h7) = (or_fail_iff _ _ _).0 h6 in
        record {
          distinct_ids = nodup;
          no_parent = ground arith;
          linked = (broken_link_iff root rest).0 l;
          distinct_principals = (principal_cycle_iff root rest).0 c;
          narrowing = (broadened_iff root rest).0 b;
          current =
              IsCurrent-all (root ∷ rest) ((first_failing_iff _ (root ∷ rest)).0 r)
                ((first_failing_iff _ (root ∷ rest)).0 n) ((first_failing_iff _ (root ∷ rest)).0 e);
        }

    chain_failure_complete : IsValidChain state root rest → chain_failure state root rest ≡ none
    unfolding chain_failure
    chain_failure_complete v = (or_fail_iff _ _ _).1 (
      ground (arith, v.no_parent),
      (or_fail_iff _ _ _).1 (
        (broken_link_iff root rest).1 v.linked,
        (or_fail_iff _ _ _).1 (
          (principal_cycle_iff root rest).1 v.distinct_principals,
          (or_fail_iff _ _ _).1 (
            (broadened_iff root rest).1 v.narrowing,
            (or_fail_iff _ _ _).1 (
              (first_failing_iff _ (root ∷ rest)).1 (all_not_revoked (root ∷ rest) v.current),
              (or_fail_iff _ _ _).1 (
                (first_failing_iff _ (root ∷ rest)).1 (all_started (root ∷ rest) v.current),
                (or_fail_iff _ _ none).1 (
                  (first_failing_iff _ (root ∷ rest)).1 (all_not_ended (root ∷ rest) v.current),
                  refl,
                ),
              ),
            ),
          ),
        ),
      ),
    )

    -- No check fails exactly on a valid chain.
    pub first_failure_iff :
        (first_failure state (root ∷ rest) ≡ ok none) ↔ IsValidChain state root rest
    unfolding first_failure checked_from_root
    first_failure_iff = (
      λ h.
          chain_failure_sound ((duplicate_grant_id_iff (root ∷ rest)).0 (ground arith))
            (ground arith),
      λ v. ground (
        arith,
        (duplicate_grant_id_iff (root ∷ rest)).1 v.distinct_ids,
        reference_cycle-none root rest v.distinct_ids v.no_parent v.linked,
        chain_failure_complete v,
      ),
    )

module _ (digests : Digests) (chain : DelegationChain) (state : AuthorizationState) where
  -- The result of a failed check.
  abbrev pub failed : Failure → AuthorityValidationResult
  failed f = record {
    status = f.status;
    chain_digest = digests.chain_digest chain;
    state_digest = digests.state_digest state;
    offending_grant_id = some f.grant_id;
    verified_authority = none;
  }

  -- The authority of a leaf.
  abbrev pub verified : AuthorityGrant → VerifiedAuthority
  verified g = record {
    grant_id = g.identifier;
    principal = g.grantee;
    scope = g.scope;
    validated_at = state.logical_time;
    chain_digest = digests.chain_digest chain;
    state_digest = digests.state_digest state;
  }

  abbrev pub succeeded : AuthorityGrant → AuthorityValidationResult
  succeeded g = record {
    status = AuthorityValidationStatus.valid;
    chain_digest = digests.chain_digest chain;
    state_digest = digests.state_digest state;
    offending_grant_id = none;
    verified_authority = some (verified g);
  }

  pub conclude-failed :
      (f : Failure)
      → is_blank f.grant_id ≡ false
      → f.status ≢ AuthorityValidationStatus.valid
      → conclude digests chain state (some f) ≡ ok (failed f)
  unfolding conclude
  conclude-failed f named invalid = ground arith

  pub conclude-succeeded :
      (root : AuthorityGrant) (rest : List AuthorityGrant)
      → chain.grants ≡ root ∷ rest
      → is_blank (leaf_of root rest).identifier ≡ false
      → conclude digests chain state none ≡ ok (succeeded (leaf_of root rest))
  unfolding conclude
  conclude-succeeded root rest e named = ground arith
