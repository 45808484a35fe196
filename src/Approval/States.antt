-- ===== src/Approval/States.antt =====
-- The list of requirement states under a transition: who stays, and what holds of each.
use mathlib.Core.Logic.{◌≢◌}
use nest_authz.Prelude.{
  ◌≡◌, refl, inl, inr, Bool, true, false, Option, none, some, List, [], ◌∷◌, ◌==◌, contains, All,
  In, NoDup, Fresh, Fresh-cons, Bool-cases, arith, Eq, ℤ, all, not, ok, raise_if-passed,
}
use nest_authz.Domain.Status.{
  ApprovalStatus, approval_requirement_status_eq, ApprovalRequirementStatus,
}
use nest_authz.Domain.Value.{Sha256Digest, repeats}
use nest_authz.Domain.Policy.{ApprovalRequirement, approval_requirement_eq}
use nest_authz.Domain.Approval.{
  ApprovalRequirementState, requirements_of, requires_authorization, has_status, derived_status,
  lifecycle_status,
}
use nest_authz.Approval.{select_state, replace_state}
use nest_authz.Approval.Checks.{Authorizes}

-- A decided state carries AUTHORIZED evidence for its own requirement.
abbrev pub Evidenced : ApprovalRequirementState → Type 0
Evidenced s = requires_authorization s.status ≡ true → Authorizes s.requirement s.authorization

module _ {ℓ} {A : Type ℓ} ⦃e : Eq A⦄ where
  NoDup-repeats_from : (seen xs : List A) → repeats seen xs ≡ false → Fresh seen xs × NoDup xs
  unfolding repeats
  NoDup-repeats_from seen [] h = (tt, tt)
  NoDup-repeats_from seen (x ∷ xs) h =
      ground (arith, NoDup-repeats_from (x ∷ seen) xs, (Fresh-cons x seen xs).0)

  pub NoDup-repeats : (xs : List A) → repeats [] xs ≡ false → NoDup xs
  NoDup-repeats xs h = (NoDup-repeats_from [] xs h).1

pub All-replace :
    (P : ApprovalRequirementState → Type 0) (r : ApprovalRequirement) (x : ApprovalRequirementState)
    (states : List ApprovalRequirementState)
    → P x
    → All P states
    → All P (replace_state r x states)
unfolding replace_state
All-replace P r x [] p h = tt
All-replace P r x (s ∷ states) p h = elim (Bool-cases (s.requirement == r)) [
  | inl e ↦ rw e (p, All-replace P r x states p h.1)
  | inr e ↦ rw e (h.0, All-replace P r x states p h.1)
]

-- Every state but those of the requirement stays.
pub In-replace_ne :
    (r : ApprovalRequirement) (x s : ApprovalRequirementState)
    (states : List ApprovalRequirementState)
    → s.requirement ≢ r
    → In s states
    → In s (replace_state r x states)
unfolding replace_state
In-replace_ne r x s [] ne h = h
In-replace_ne r x s (t ∷ states) ne (inl same) = inl (ground arith)
In-replace_ne r x s (t ∷ states) ne (inr h) = inr (In-replace_ne r x s states ne h)

contains-requirement :
    (s : ApprovalRequirementState) (states : List ApprovalRequirementState)
    → In s states
    → contains s.requirement (requirements_of states) ≡ true
contains-requirement s [] i = elim i [ ]
contains-requirement s (t ∷ states) (inl same) = ground arith
contains-requirement s (t ∷ states) (inr h) = ground (arith, contains-requirement s states h)

-- Where no requirement stands twice, the loop selects the state of a requirement.
pub selected_unique :
    (r : ApprovalRequirement) (s t : ApprovalRequirementState)
    (states : List ApprovalRequirementState)
    → NoDup (requirements_of states)
    → In s states
    → s.requirement ≡ r
    → select_state r states ≡ some t
    → s ≡ t
unfolding select_state
selected_unique r s t [] nodup i e h = elim i [ ]
selected_unique r s t (u ∷ states) nodup (inl same) e h = ground arith
selected_unique r s t (u ∷ states) nodup (inr later) e h =
    ground
      (arith, contains-requirement s states later, selected_unique r s t states nodup.1 later e)

abbrev pub IsApproved : ApprovalRequirementState → Type 0
IsApproved s = s.status ≡ ApprovalRequirementStatus.approved

all-IsApproved :
    (states : List ApprovalRequirementState)
    → all (has_status ApprovalRequirementStatus.approved) states ≡ true
    → All IsApproved states
all-IsApproved [] h = tt
all-IsApproved (s ∷ states) h = ground (arith, all-IsApproved states)

derived_status-ne :
    (states : List ApprovalRequirementState) → derived_status states ≢ ApprovalStatus.consumed
unfolding derived_status
derived_status-ne states h = ground arith

true_of_not : (b : Bool) → not b ≡ false → b ≡ true
true_of_not true h = refl
true_of_not false h = cc

ok-injective : {a b : ApprovalStatus} → ok a ≡ ok b → a ≡ b
ok-injective h = cc

-- Only fully approved states make an approval CONSUMED.
pub lifecycle-consumed :
    (consumed_at : Option ℤ) (permit : Option Sha256Digest) (time : ℤ)
    (states : List ApprovalRequirementState)
    → lifecycle_status consumed_at permit time states ≡ ok ApprovalStatus.consumed
    → All IsApproved states
unfolding lifecycle_status
lifecycle-consumed (some at) permit time states h =
    let (_, h1) = raise_if-passed _ _ _ h in
    let (approved, _) = raise_if-passed _ _ _ h1 in all-IsApproved states (true_of_not _ approved)
lifecycle-consumed none (some d) time states h = cc
lifecycle-consumed none none time states h =
    let (_, h1) = raise_if-passed _ _ _ h in
    let same : derived_status states ≡ ApprovalStatus.consumed = ok-injective h1 in
    elim (derived_status-ne states same) [ ]
