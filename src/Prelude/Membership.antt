-- ===== src/Prelude/Membership.antt =====
-- Laws of `in`, of lists without duplicates, and the pigeonhole principle.
use Prim.Native.Nat.{suc, ◌≤◌}
use mathlib.Core.Path.{◌≡◌, refl, ◌∙◌}
use mathlib.Core.Logic.{◌≢◌, ◌↔◌}
use mathlib.Core.Bool.{Bool, true, false}
use mathlib.Core.List.{List, [], ◌∷◌, map}
use native.Mathlib.Omega.{arith}
use nest_authz.Prelude.Equality.{Eq, ◌==◌, contains, if◌then◌else◌}
use nest_authz.Prelude.Lists.{length, insert_by, sort_by}

module _ {ℓ} {A : Type ℓ} ⦃e : Eq A⦄ where
  -- No element stands twice.
  abbrev pub NoDup : List A → Type 0
  NoDup [] = Unit
  NoDup (x ∷ xs) = (contains x xs ≡ false) × NoDup xs

  -- Every element of the first list stands in the second.
  abbrev pub Subset : List A → List A → Type ℓ
  Subset xs ys = (z : A) → contains z xs ≡ true → contains z ys ≡ true

  -- No element of the second list stands in the first.
  abbrev pub Fresh : List A → List A → Type 0
  Fresh seen [] = Unit
  Fresh seen (x ∷ xs) = (contains x seen ≡ false) × Fresh seen xs

  pub contains-cons_self : (x : A) (xs : List A) → contains x (x ∷ xs) ≡ true
  contains-cons_self x xs = ground arith

  remove : A → List A → List A
  remove a [] = []
  remove a (x ∷ xs) = if a == x then xs else x ∷ remove a xs

  length-remove :
      (a : A) (xs : List A) → contains a xs ≡ true → length xs ≡ suc (length (remove a xs))
  unfolding remove
  length-remove a [] h = cc
  length-remove a (x ∷ xs) h = ground (arith, length-remove a xs)

  contains-remove_ne :
      (a z : A) (xs : List A) → z ≢ a → contains z xs ≡ true → contains z (remove a xs) ≡ true
  unfolding remove
  contains-remove_ne a z [] ne h = cc
  contains-remove_ne a z (x ∷ xs) ne h = ground (arith, contains-remove_ne a z xs ne)

  -- A list without duplicates is no longer than a list that holds all its elements.
  pub length-le_of_Subset : (xs ys : List A) → NoDup xs → Subset xs ys → length xs ≤ length ys
  length-le_of_Subset [] ys nodup sub = omega arith
  length-le_of_Subset (x ∷ xs) ys nodup sub = omega (
    arith,
    length-remove x ys (sub x (contains-cons_self x xs)),
    length-le_of_Subset xs (remove x ys) nodup.1 inner,
  )
    where
      inner : (z : A) → contains z xs ≡ true → contains z (remove x ys) ≡ true
      inner z h = contains-remove_ne x z ys (λ p. ground (arith, nodup.0)) (sub z (ground arith))

  pub Fresh-nil : (xs : List A) → Fresh [] xs
  Fresh-nil [] = tt
  Fresh-nil (x ∷ xs) = (refl, Fresh-nil xs)

  -- What is fresh for one more element is fresh, and lacks that element.
  pub Fresh-cons :
      (a : A) (seen xs : List A) → Fresh (a ∷ seen) xs ↔ (contains a xs ≡ false) × Fresh seen xs
  Fresh-cons a seen [] = (λ h. (refl, tt), λ h. tt)
  Fresh-cons a seen (x ∷ xs) =
      (λ h. ground (arith, (Fresh-cons a seen xs).0), λ h. ground (arith, (Fresh-cons a seen xs).1))

-- Sorting keeps what stands in a list, and in its images.
module _ {ℓ κ} {A : Type ℓ} {B : Type κ} ⦃e : Eq B⦄ (f : A → B) (lt : A → A → Bool) (b : B) where
  contains-insert_by :
      (x : A) (xs : List A) → contains b (map f (insert_by lt x xs)) ≡ contains b (f x ∷ map f xs)
  contains-insert_by x [] = refl
  contains-insert_by x (y ∷ ys) = ground (arith, contains-insert_by x ys)

  pub contains-sort_by : (xs : List A) → contains b (map f (sort_by lt xs)) ≡ contains b (map f xs)
  unfolding sort_by
  contains-sort_by [] = refl
  contains-sort_by (x ∷ xs) =
      ground (arith, contains-insert_by x (sort_by lt xs), contains-sort_by xs)

module _ {ℓ κ} {A : Type ℓ} {B : Type κ} ⦃e : Eq B⦄ (f : A → B) (lt : A → A → Bool) where
  NoDup-insert_by :
      (x : A) (xs : List A)
      → contains (f x) (map f xs) ≡ false
      → NoDup (map f xs)
      → NoDup (map f (insert_by lt x xs))
  NoDup-insert_by x [] fresh h = (refl, tt)
  NoDup-insert_by x (y ∷ ys) fresh h =
      ground (arith, NoDup-insert_by x ys, contains-insert_by f lt (f y) x ys)

  pub NoDup-sort_by : (xs : List A) → NoDup (map f xs) → NoDup (map f (sort_by lt xs))
  unfolding sort_by
  NoDup-sort_by [] h = tt
  NoDup-sort_by (x ∷ xs) h =
      NoDup-insert_by x (sort_by lt xs) (contains-sort_by f lt (f x) xs ∙ h.0)
        (NoDup-sort_by xs h.1)
