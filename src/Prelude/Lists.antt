-- ===== src/Prelude/Lists.antt =====
-- Lists: measures over the native numbers, quantifiers, duplicates and sorting.
use Prim.Native.Nat.{ℕ, suc}
use mathlib.Core.Path.{◌≡◌}
use mathlib.Core.Logic.{◌⊎◌, inl, inr}
use mathlib.Core.Bool.{Bool, true, false, ◌&&◌, ◌||◌}
use mathlib.Core.Option.{Option, none, some}
use mathlib.Core.List.{List, [], ◌∷◌}
use native.Mathlib.Omega.{arith}
use nest_authz.Prelude.Equality.{if◌then◌else◌, Bool-cases}

module _ {ℓ} {A : Type ℓ} where
  abbrev pub length : List A → ℕ
  length [] = 0
  length (x ∷ xs) = suc (length xs)

  -- `any(p(x) for x in xs)` and `all(p(x) for x in xs)`
  abbrev pub any : (A → Bool) → List A → Bool
  any p [] = false
  any p (x ∷ xs) = p x || any p xs

  abbrev pub all : (A → Bool) → List A → Bool
  all p [] = true
  all p (x ∷ xs) = p x && all p xs

  -- `next((x for x in xs if p(x)), None)`
  abbrev pub find : (A → Bool) → List A → Option A
  find p [] = none
  find p (x ∷ xs) = if p x then some x else find p xs

  -- `tuple(x for x in xs if p(x))`
  abbrev pub select : (A → Bool) → List A → List A
  select p [] = []
  select p (x ∷ xs) = if p x then x ∷ select p xs else select p xs

  -- A statement of every element.
  abbrev pub All {κ} : (A → Type κ) → List A → Type κ
  All P [] = Unit
  All P (x ∷ xs) = P x × All P xs

  abbrev pub insert_by : (A → A → Bool) → A → List A → List A
  insert_by lt x [] = x ∷ []
  insert_by lt x (y ∷ ys) = if lt y x then y ∷ insert_by lt x ys else x ∷ y ∷ ys

  -- `sorted(xs, key=…)`, for the strict order of the keys: a stable sort.
  unfoldable pub sort_by : (A → A → Bool) → List A → List A
  sort_by lt [] = []
  sort_by lt (x ∷ xs) = insert_by lt x (sort_by lt xs)

  All-insert_by {κ} :
      (P : A → Type κ) (lt : A → A → Bool) (x : A) (xs : List A)
      → P x
      → All P xs
      → All P (insert_by lt x xs)
  All-insert_by P lt x [] p h = (p, tt)
  All-insert_by P lt x (y ∷ ys) p h = elim (Bool-cases (lt y x)) [
    | inl e ↦ rw e (h.0, All-insert_by P lt x ys p h.1)
    | inr e ↦ rw e (p, h)
  ]

  pub All-sort_by {κ} :
      (P : A → Type κ) (lt : A → A → Bool) (xs : List A) → All P xs → All P (sort_by lt xs)
  unfolding sort_by
  All-sort_by P lt [] h = tt
  All-sort_by P lt (x ∷ xs) h = All-insert_by P lt x (sort_by lt xs) h.0 (All-sort_by P lt xs h.1)

module _ {A : Type 0} where
  -- An element stands in a list.
  abbrev pub In : A → List A → Type 0
  In a [] = ⊥
  In a (x ∷ xs) = (a ≡ x) ⊎ In a xs

  In-insert_by :
      (lt : A → A → Bool) (a x : A) (xs : List A) → In a (x ∷ xs) → In a (insert_by lt x xs)
  In-insert_by lt a x [] h = h
  In-insert_by lt a x (y ∷ ys) h = ground (arith, In-insert_by lt a x ys)

  pub In-sort_by : (lt : A → A → Bool) (a : A) (xs : List A) → In a xs → In a (sort_by lt xs)
  unfolding sort_by
  In-sort_by lt a [] h = h
  In-sort_by lt a (x ∷ xs) (inl e) = In-insert_by lt a x (sort_by lt xs) (inl e)
  In-sort_by lt a (x ∷ xs) (inr h) =
      In-insert_by lt a x (sort_by lt xs) (inr (In-sort_by lt a xs h))
