-- ===== src/Delegation.antt =====
-- delegation.py: the validation of a delegation chain against a logical time and revocations.
pub mod Spec
pub mod Cycles
pub mod Checks
pub mod Offenders
pub mod Validate
pub mod Decides
pub mod Attenuation
use nest_authz.Prelude.{
  ℕ, zero, suc, ℤ, String, Bool, true, false, ◌||◌, Option, none, some, List, [], ◌∷◌, ◌==◌, ◌!=◌,
  contains, length, leb_ℤ, ltb_ℤ, if◌then◌else◌, Result, ok, err, ◌>>=◌, index_error, runtime_error,
  string_eq, option_eq,
}
use nest_authz.Domain.Status.{AuthorityValidationStatus}
use nest_authz.Domain.Value.{IntegerBounds}
use nest_authz.Domain.Identity.{Principal, action_eq, resource_eq, principal_eq}
use nest_authz.Domain.Authority.{
  AuthorityScope, AuthorityGrant, DelegationChain, AuthorizationState, AuthorityValidationResult,
  verified_authority_from_validation, authority_validation_result_post_init,
}
use nest_authz.Digests.{Digests}

unfoldable pub find_grant : List AuthorityGrant → String → Option AuthorityGrant
find_grant [] identifier = none
find_grant (g ∷ gs) identifier =
    if g.identifier == identifier then some g else find_grant gs identifier

unfoldable pub duplicate_from : List String → List AuthorityGrant → Option String
duplicate_from seen [] = none
duplicate_from seen (g ∷ gs) =
    if contains g.identifier seen
    then some g.identifier
    else duplicate_from (g.identifier ∷ seen) gs

unfoldable pub duplicate_grant_id : List AuthorityGrant → Option String
unfolding duplicate_from
duplicate_grant_id = duplicate_from []

-- How the walk along parent references ends; `out_of_fuel` is no outcome of the source.
pub data Walk : Type 0 where
  out_of_fuel finished : Walk
  cyclic : String → Walk

-- `while current is not None`, on fuel: the path grows by a new identifier in each round.
unfoldable pub walk : ℕ → List AuthorityGrant → List String → Option AuthorityGrant → Walk
walk fuel grants path none = Walk.finished
walk zero grants path (some g) = Walk.out_of_fuel
walk (suc fuel) grants path (some g) = elim (contains g.identifier path) [
  | true ↦ Walk.cyclic g.identifier
  | false ↦ elim g.parent_grant_id [
    | none ↦ Walk.finished
    | some parent ↦ walk fuel grants (g.identifier ∷ path) (find_grant grants parent)
  ]
]

-- The loop over the grants to start from; each walk has fuel for every grant and one more.
unfoldable pub reference_cycle_from :
    List AuthorityGrant → List AuthorityGrant → Result (Option String)
reference_cycle_from grants [] = ok none
reference_cycle_from grants (start ∷ rest) =
    let later = reference_cycle_from grants rest in
    elim (walk (suc (length grants)) grants [] (some start)) [
      | Walk.out_of_fuel ↦ err (runtime_error "out of fuel")
      | Walk.cyclic i ↦ ok (some i)
      | Walk.finished ↦ later
    ]

unfoldable pub reference_cycle : List AuthorityGrant → Result (Option String)
unfolding reference_cycle_from
reference_cycle grants = reference_cycle_from grants grants

unfoldable pub principal_cycle_from : List Principal → List AuthorityGrant → Option String
principal_cycle_from path [] = none
principal_cycle_from path (g ∷ gs) =
    if contains g.grantee path
    then some g.identifier
    else principal_cycle_from (g.grantee ∷ path) gs

unfoldable pub principal_cycle : AuthorityGrant → List AuthorityGrant → Option String
unfolding principal_cycle_from
principal_cycle root rest = principal_cycle_from (root.grantor ∷ []) (root ∷ rest)

unfoldable pub find_bound : IntegerBounds → String → Option ℤ
find_bound [] name = none
find_bound ((candidate, value) ∷ bounds) name =
    if candidate == name then some value else find_bound bounds name

unfoldable pub bound : AuthorityScope → String → Option ℤ
unfolding find_bound
bound scope = find_bound scope.context_upper_bounds

abbrev pub is_within : Option ℤ → ℤ → Bool
is_within none parent_bound = false
is_within (some child_bound) parent_bound = leb_ℤ child_bound parent_bound

-- The loop over the parent's bounds.
unfoldable pub covers : AuthorityScope → IntegerBounds → Bool
unfolding bound
covers child [] = true
covers child ((name, parent_bound) ∷ bounds) =
    if is_within (bound child name) parent_bound then covers child bounds else false

unfoldable pub is_attenuation : AuthorityScope → AuthorityScope → Bool
unfolding covers
is_attenuation child parent =
    if child.action != parent.action || child.resource != parent.resource
    then false
    else covers child parent.context_upper_bounds

-- The loop on parent identifiers and on grantees that grant on.
unfoldable pub broken_link : AuthorityGrant → List AuthorityGrant → Option String
broken_link parent [] = none
broken_link parent (child ∷ rest) =
    if child.parent_grant_id != some parent.identifier
    then some child.identifier
    else if parent.grantee != child.grantor
    then some child.identifier
    else broken_link child rest

unfoldable pub broadened : AuthorityGrant → List AuthorityGrant → Option String
unfolding is_attenuation
broadened parent [] = none
broadened parent (child ∷ rest) =
    if is_attenuation child.scope parent.scope then broadened child rest else some child.identifier

-- The three loops on single grants: the first grant that fails a test.
unfoldable pub first_failing : (AuthorityGrant → Bool) → List AuthorityGrant → Option String
first_failing fails [] = none
first_failing fails (g ∷ gs) = if fails g then some g.identifier else first_failing fails gs

abbrev pub is_revoked : AuthorizationState → AuthorityGrant → Bool
is_revoked state g = contains g.identifier state.revocations.grant_ids

abbrev pub is_not_yet_valid : AuthorizationState → AuthorityGrant → Bool
is_not_yet_valid state g = ltb_ℤ state.logical_time g.valid_from

abbrev pub is_expired : AuthorizationState → AuthorityGrant → Bool
is_expired state g = leb_ℤ g.valid_until state.logical_time

-- The arguments of the local function `failure`.
pub record Failure : Type 0 where
  pub status : AuthorityValidationStatus
  pub grant_id : String

-- `if found is not None: return failure(status, found)`, and else the code that follows.
abbrev pub or_fail : AuthorityValidationStatus → Option String → Option Failure → Option Failure
or_fail status (some i) rest = some (record { status = status; grant_id = i })
or_fail status none rest = rest

abbrev pub root_parent : AuthorityGrant → Option String
root_parent root = elim root.parent_grant_id [ none ↦ none | some _ ↦ some root.identifier ]

-- The checks from the root's parent reference on.
unfoldable pub chain_failure :
    AuthorizationState → AuthorityGrant → List AuthorityGrant → Option Failure
chain_failure state root rest =
    or_fail AuthorityValidationStatus.broken_provenance (root_parent root) (
      or_fail AuthorityValidationStatus.broken_provenance (broken_link root rest) (
        or_fail AuthorityValidationStatus.cycle (principal_cycle root rest) (
          or_fail AuthorityValidationStatus.broadened_authority (broadened root rest) (
            or_fail AuthorityValidationStatus.revoked
              (first_failing (is_revoked state) (root ∷ rest))
              (or_fail AuthorityValidationStatus.not_yet_valid
                (first_failing (is_not_yet_valid state) (root ∷ rest))
                (or_fail AuthorityValidationStatus.expired
                  (first_failing (is_expired state) (root ∷ rest)) none))))))

-- The checks after those for duplicates and cycles; `grants[0]` raises on no grants.
unfoldable pub checked_from_root :
    AuthorizationState → List AuthorityGrant → Result (Option Failure)
checked_from_root state [] = err (index_error "tuple index out of range")
checked_from_root state (root ∷ rest) = ok (chain_failure state root rest)

unfoldable pub first_failure : AuthorizationState → List AuthorityGrant → Result (Option Failure)
first_failure state grants = elim (duplicate_grant_id grants) [
  | some i ↦ ok (some (record { status = AuthorityValidationStatus.invalid_chain; grant_id = i }))
  | none ↦ (do
    cycle ← reference_cycle grants
    elim cycle [
      | some i ↦ ok (some (record { status = AuthorityValidationStatus.cycle; grant_id = i }))
      | none ↦ checked_from_root state grants
    ])
]

-- `grants[-1]`.
unfoldable pub leaf_of : AuthorityGrant → List AuthorityGrant → AuthorityGrant
leaf_of g [] = g
leaf_of g (h ∷ rest) = leaf_of h rest

abbrev pub leaf : List AuthorityGrant → Result AuthorityGrant
leaf [] = err (index_error "tuple index out of range")
leaf (g ∷ rest) = ok (leaf_of g rest)

module _ (digests : Digests) where
  unfoldable pub conclude :
      DelegationChain → AuthorizationState → Option Failure → Result AuthorityValidationResult
  unfolding leaf_of verified_authority_from_validation authority_validation_result_post_init
  conclude chain state (some f) = authority_validation_result_post_init (record {
    status = f.status;
    chain_digest = digests.chain_digest chain;
    state_digest = digests.state_digest state;
    offending_grant_id = some f.grant_id;
    verified_authority = none;
  })
  conclude chain state none = do
    g ← leaf chain.grants
    verified ← verified_authority_from_validation (record {
      grant_id = g.identifier;
      principal = g.grantee;
      scope = g.scope;
      validated_at = state.logical_time;
      chain_digest = digests.chain_digest chain;
      state_digest = digests.state_digest state;
    })
    authority_validation_result_post_init (record {
      status = AuthorityValidationStatus.valid;
      chain_digest = digests.chain_digest chain;
      state_digest = digests.state_digest state;
      offending_grant_id = none;
      verified_authority = some verified;
    })

  unfoldable pub validate_authority :
      DelegationChain → AuthorizationState → Result AuthorityValidationResult
  validate_authority chain state = do
    failure ← first_failure state chain.grants
    conclude chain state failure
