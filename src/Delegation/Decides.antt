-- ===== src/Delegation/Decides.antt =====
-- `validate_authority` decides whether a chain is valid, and returns the authority of its leaf.
use nest_authz.Prelude.{
  String, ◌≡◌, ◌≢◌, refl, ◌⊎◌, true, false, Option, none, some, List, [], ◌∷◌, contains, inl, inr,
  Result, ok, string_eq,
}
use nest_authz.Domain.Status.{AuthorityValidationStatus}
use nest_authz.Domain.Value.{is_blank}
use nest_authz.Domain.Authority.{
  AuthorityGrant, AuthorizationState, DelegationChain, AuthorityValidationResult,
}
use nest_authz.Digests.{Digests}
use nest_authz.Delegation.{Failure, first_failure, leaf_of, validate_authority}
use nest_authz.Delegation.Spec.{IsValidChain, identifiers}
use nest_authz.Delegation.Cycles.{mem-identifiers}
use nest_authz.Delegation.Offenders.{Named, NamesFailure, first_failure-ok}
use nest_authz.Delegation.Validate.{
  first_failure_iff, failed, succeeded, conclude-failed, conclude-succeeded,
}

-- The identifiers have been accepted by the grants' constructors.
abbrev pub NonBlankIds : List AuthorityGrant → Type 0
NonBlankIds = Named (λ i. is_blank i ≡ false)

leaf_of-Named :
    (P : String → Type 0) (g : AuthorityGrant) (rest : List AuthorityGrant)
    → Named P (g ∷ rest)
    → P (leaf_of g rest).identifier
unfolding leaf_of
leaf_of-Named P g [] h = h.0
leaf_of-Named P g (x ∷ rest) h = leaf_of-Named P x rest h.1

both-Named :
    (ids : List String) (gs : List AuthorityGrant)
    → NonBlankIds gs
    → Named (λ i. contains i ids ≡ true) gs
    → Named (λ i. (is_blank i ≡ false) × (contains i ids ≡ true)) gs
both-Named ids [] a b = tt
both-Named ids (g ∷ gs) a b = ((a.0, b.0), both-Named ids gs a.1 b.1)

module _ (digests : Digests) (state : AuthorizationState) (root : AuthorityGrant)
    (rest : List AuthorityGrant) where
  abbrev pub chain_of : DelegationChain
  chain_of = record { grants = root ∷ rest }

  -- What `validate_authority` does with the chain: it accepts the leaf of a valid chain, and else
  -- names a grant of the chain under a status other than VALID.
  abbrev pub Decided : Result AuthorityValidationResult → Type 0
  Decided r =
      IsValidChain state root rest × (r ≡ ok (succeeded digests chain_of state (leaf_of root rest)))
      ⊎ (¬ IsValidChain state root rest)
        × ((f : Failure) × (r ≡ ok (failed digests chain_of state f))
            × (f.status ≢ AuthorityValidationStatus.valid)
            × (contains f.grant_id (identifiers (root ∷ rest)) ≡ true))

  -- On every nonempty chain of grants with non-blank identifiers `validate_authority` returns. If
  -- the chain is valid it returns VALID with the authority of the leaf grant; otherwise it returns
  -- another status with the identifier of a grant of the chain and no authority.
  pub validate_authority_decides :
      NonBlankIds (root ∷ rest) → Decided (validate_authority digests chain_of state)
  unfolding validate_authority
  validate_authority_decides named = by_failure (
      first_failure-ok (λ i. (is_blank i ≡ false) × (contains i (identifiers (root ∷ rest)) ≡ true))
        state root rest
        (both-Named (identifiers (root ∷ rest)) (root ∷ rest) named
          (mem-identifiers (root ∷ rest))))
    where
      by_failure :
          (f : Option Failure) × (first_failure state (root ∷ rest) ≡ ok f)
            × NamesFailure
                (λ i. (is_blank i ≡ false) × (contains i (identifiers (root ∷ rest)) ≡ true))
                f
          → Decided (validate_authority digests chain_of state)
      by_failure (none, e, n) = inl (
        (first_failure_iff state root rest).0 e,
        rw e (
            conclude-succeeded digests chain_of state root rest refl
              (leaf_of-Named (λ i. is_blank i ≡ false) root rest named)),
      )
      by_failure (some f, e, n) = inr (
        λ v. cc (e, (first_failure_iff state root rest).1 v),
        (f, rw e (conclude-failed digests chain_of state f n.0.0 n.1), n.1, n.0.1),
      )
