-- ===== src/Canonical/Sorted.antt =====
-- The maps that domain.py makes have their entries in the order of the canonical encoding.
use nest_authz.Prelude.{
  String, Bool, true, false, ◌≡◌, refl, sym, ap, ◌∙◌, subst, inl, inr, List, [], ◌∷◌, All,
  Bool-cases, insert_by, sort_by, ok, then_returns, ok-injective,
}
use nest_authz.Domain.Value.{Fields, text_lt, check_entries, canonical_entries, canonical_fields}
use nest_authz.Canonical.Bytes.{utf8}
use nest_authz.Canonical.Maps.{key_lt}
use nest_authz.Canonical.Order.{bytes_lt-asym, bytes_lt-utf8}
use nest_authz.Canonical.Primitives.{Any}
use nest_authz.Canonical.Containers.{IsSortedMap}

module _ {A : Type 0} (lt : A → A → Bool) (asym : (x y : A) → lt x y ≡ true → lt y x ≡ false) where
  -- No entry before a lesser one.
  abbrev InOrder : List A → Type 0
  InOrder [] = Unit
  InOrder (x ∷ []) = Unit
  InOrder (x ∷ y ∷ ys) = (lt y x ≡ false) × InOrder (y ∷ ys)

  insert_after :
      (z x : A) (xs : List A)
      → lt x z ≡ false
      → InOrder (z ∷ xs)
      → InOrder (insert_by lt x xs)
      → InOrder (z ∷ insert_by lt x xs)
  insert_after z x [] h k o = (h, tt)
  insert_after z x (y ∷ ys) h k o = elim (Bool-cases (lt y x)) [
    | inl less ↦ rw less (k.0, rw less at o)
    | inr not ↦ rw not (h, rw not at o)
  ]

  insert_by-InOrder : (x : A) (xs : List A) → InOrder xs → InOrder (insert_by lt x xs)
  insert_by-InOrder x [] h = tt
  insert_by-InOrder x (y ∷ []) h = elim (Bool-cases (lt y x)) [
    | inl less ↦ rw less (asym y x less, tt)
    | inr not ↦ rw not (not, tt)
  ]
  insert_by-InOrder x (y ∷ z ∷ zs) h = elim (Bool-cases (lt y x)) [
    | inl less ↦
        rw less (insert_after y x (z ∷ zs) (asym y x less) h (insert_by-InOrder x (z ∷ zs) h.1))
    | inr not ↦ rw not (not, h)
  ]

  sort_by-InOrder : (xs : List A) → InOrder (sort_by lt xs)
  unfolding sort_by
  sort_by-InOrder [] = tt
  sort_by-InOrder (x ∷ xs) = insert_by-InOrder x (sort_by lt xs) (sort_by-InOrder xs)

  sort_by_keeps : (xs : List A) → InOrder xs → sort_by lt xs ≡ xs
  unfolding sort_by
  sort_by_keeps [] h = refl
  sort_by_keeps (x ∷ []) h = refl
  sort_by_keeps (x ∷ y ∷ ys) h = ap (insert_by lt x) (sort_by_keeps (y ∷ ys) h.1) ∙ rw h.0 refl

  sort_by_twice : (xs : List A) → sort_by lt (sort_by lt xs) ≡ sort_by lt xs
  sort_by_twice xs = sort_by_keeps (sort_by lt xs) (sort_by-InOrder xs)

any_values : {V : Type 0} (xs : List (String × V)) → All (λ x. Any x.1) xs
any_values [] = tt
any_values (x ∷ xs) = (tt, any_values xs)

entries_are_sorted :
    {V : Type 0} (key_name duplicate : String) (entries sorted : List (String × V))
    → canonical_entries key_name duplicate entries ≡ ok sorted
    → IsSortedMap Any sorted
unfolding canonical_entries
entries_are_sorted {V} key_name duplicate entries sorted h =
    let (_, h1) = then_returns (check_entries key_name duplicate [] entries) _ h in
    let order : (λ (a b : String × V). text_lt a.0 b.0) ≡ key_lt =
      sym (λ i a b. bytes_lt-utf8 a.0 b.0 i) in
    let by_bytes : sort_by key_lt entries ≡ sorted =
      ap (λ lt. sort_by lt entries) (sym order) ∙ ok-injective h1 in
    record {
      is_sorted =
          subst (λ x. sort_by key_lt x ≡ x) by_bytes
            (sort_by_twice key_lt (λ x y. bytes_lt-asym (utf8 x.0) (utf8 y.0)) entries);
      values = any_values sorted;
    }

-- The attributes and parameters that a constructor of domain.py keeps are sorted by the UTF-8 bytes of
-- their keys, as canonical.py sorts a map.
pub canonical_fields-IsSortedMap :
    (value sorted : Fields) (field_name : String)
    → canonical_fields value field_name ≡ ok sorted
    → IsSortedMap Any sorted
unfolding canonical_fields
canonical_fields-IsSortedMap value sorted field_name h = entries_are_sorted _ _ value sorted h
