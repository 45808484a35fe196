-- ===== src/Domain/Policy/Canonical.antt =====
-- The constructors of the policy model that sort their members: `_canonical_conditions`,
-- `_canonical_approval_requirements`, `_canonical_identified_records` and the classes on them.
use Prim.Native.Nat.{Ordering}
use Prim.Native.String.{compare as compare_text}
use nest_authz.Prelude.{
  ℤ, String, Bool, true, false, not, List, [], ◌∷◌, map, ◌==◌, contains, ltb_ℤ, sort_by, differ,
  if◌then◌else◌, Result, ok, err, ◌>>=◌, ◌>>◌, raise_if, value_error, string_eq,
}
use nest_authz.Domain.Status.{RuleEffect, rule_effect_eq}
use nest_authz.Domain.Value.{Scalar, non_blank, text_lt, repeats, canonical_fields}
use nest_authz.Domain.Identity.{Principal}
use nest_authz.Domain.Policy.{
  Condition, ConditionStructure, condition_structure_eq, Obligation, ApprovalRequirement,
  approval_requirement_eq, Rule, Policy, PolicyBundle,
}

-- `bool(xs)`
abbrev pub is_nonempty {ℓ} : {A : Type ℓ} → List A → Bool
is_nonempty [] = false
is_nonempty (_ ∷ _) = true

unfoldable pub condition_structure : Condition → ConditionStructure
condition_structure c = record { field = c.field; operator = c.operator; value = c.value }

-- The loop of `_canonical_conditions`, over the identifiers and the structures seen.
unfoldable pub check_conditions :
    List String → List ConditionStructure → List Condition → Result (Unit {0})
unfolding condition_structure
check_conditions ids structures [] = ok tt
check_conditions ids structures (c ∷ rest) = do
  raise_if (contains c.identifier ids)
      (value_error "conditions must not contain duplicate identifiers")
  raise_if (contains (condition_structure c) structures)
      (value_error "conditions must not contain duplicate predicates")
  check_conditions (c.identifier ∷ ids) (condition_structure c ∷ structures) rest

unfoldable pub canonical_conditions : List Condition → Result (List Condition)
canonical_conditions [] = err (value_error "a rule must contain at least one condition")
canonical_conditions (c ∷ rest) = do
  check_conditions [] [] (c ∷ rest)
  ok (sort_by (λ a b. text_lt a.identifier b.identifier) (c ∷ rest))

unfoldable pub obligation_post_init : Obligation → Result Obligation
unfolding non_blank canonical_fields
obligation_post_init o = do
  non_blank o.code "obligation code"
  parameters ← canonical_fields o.parameters "obligation parameters"
  ok (record o { parameters = parameters })

unfoldable pub approval_requirement_post_init : ApprovalRequirement → Result ApprovalRequirement
approval_requirement_post_init r = do
  non_blank r.code "approval requirement code"
  let principals = r.allowed_principals
  raise_if (not (is_nonempty principals))
      (value_error "approval requirements must allow at least one Principal")
  raise_if (repeats [] (map (λ (p : Principal). p.identifier) principals))
      (value_error "allowed_principals must not contain duplicates")
  parameters ← canonical_fields r.parameters "approval requirement parameters"
  ok (record r {
    allowed_principals = sort_by (λ a b. text_lt a.identifier b.identifier) principals;
    parameters = parameters;
  })

-- Python compares tuples by their first differing members.
abbrev pub then_by : Ordering → Ordering → Ordering
then_by Ordering.eq o = o
then_by o _ = o

compare_ℤ : ℤ → ℤ → Ordering
compare_ℤ a b = if ltb_ℤ a b then Ordering.lt else if ltb_ℤ b a then Ordering.gt else Ordering.eq

compare_list {ℓ} : {A : Type ℓ} → (A → A → Ordering) → List A → List A → Ordering
compare_list cmp [] [] = Ordering.eq
compare_list cmp [] (_ ∷ _) = Ordering.lt
compare_list cmp (_ ∷ _) [] = Ordering.gt
compare_list cmp (x ∷ xs) (y ∷ ys) = then_by (cmp x y) (compare_list cmp xs ys)

-- Typed values: by the name of the type ("boolean", "integer", "null", "string"), then by value.
compare_scalar : Scalar → Scalar → Ordering
unfolding compare_ℤ
compare_scalar (Scalar.bool a) (Scalar.bool b) =
    if a then (if b then Ordering.eq else Ordering.gt) else if b then Ordering.lt else Ordering.eq
compare_scalar (Scalar.bool _) _ = Ordering.lt
compare_scalar (Scalar.int _) (Scalar.bool _) = Ordering.gt
compare_scalar (Scalar.int a) (Scalar.int b) = compare_ℤ a b
compare_scalar (Scalar.int _) _ = Ordering.lt
compare_scalar Scalar.null Scalar.null = Ordering.eq
compare_scalar Scalar.null (Scalar.str _) = Ordering.lt
compare_scalar Scalar.null _ = Ordering.gt
compare_scalar (Scalar.str a) (Scalar.str b) = compare_text a b
compare_scalar (Scalar.str _) _ = Ordering.gt

-- `_approval_requirement_sort_key`, as the order of the keys.
unfoldable pub requirement_lt : ApprovalRequirement → ApprovalRequirement → Bool
unfolding compare_list compare_scalar
requirement_lt a b =
    elim (then_by (compare_text a.code b.code) (
      then_by
        (compare_list (λ (p q : Principal). compare_text p.identifier q.identifier)
          a.allowed_principals b.allowed_principals)
        (compare_list
          (λ (p q : String × Scalar). then_by (compare_text p.0 q.0) (compare_scalar p.1 q.1))
          a.parameters b.parameters))) [ Ordering.lt ↦ true | _ ↦ false ]

unfoldable pub canonical_approval_requirements :
    List ApprovalRequirement → Result (List ApprovalRequirement)
canonical_approval_requirements rs = do
  raise_if (repeats [] rs) (value_error "approval_requirements must not contain duplicates")
  ok (sort_by requirement_lt rs)

unfoldable pub rule_post_init : Rule → Result Rule
rule_post_init r = do
  non_blank r.identifier "rule identifier"
  conditions ← canonical_conditions r.conditions
  requirements ← canonical_approval_requirements r.approval_requirements
  raise_if (differ (r.effect == RuleEffect.approval_required) (is_nonempty requirements))
      (value_error "approval_requirements must be present exactly for APPROVAL_REQUIRED rules")
  ok (record r { conditions = conditions; approval_requirements = requirements })

unfoldable pub policy_post_init : Policy → Result Policy
policy_post_init p = do
  non_blank p.identifier "policy identifier"
  raise_if (repeats [] (map (λ (r : Rule). r.identifier) p.rules))
      (value_error "rules must not contain duplicate identifiers")
  raise_if (not (is_nonempty p.rules)) (value_error "a policy must contain at least one rule")
  ok (record p { rules = sort_by (λ a b. text_lt a.identifier b.identifier) p.rules })

unfoldable pub policy_bundle_post_init : PolicyBundle → Result PolicyBundle
policy_bundle_post_init b = do
  raise_if (repeats [] (map (λ (p : Policy). p.identifier) b.policies))
      (value_error "policies must not contain duplicate identifiers")
  ok (record b { policies = sort_by (λ a b. text_lt a.identifier b.identifier) b.policies })
