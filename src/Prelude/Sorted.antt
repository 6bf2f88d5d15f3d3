-- ===== src/Prelude/Sorted.antt =====
-- Sorting and filtering: they commute when the order is total and transitive.
use Prim.Native.Nat.{◌+◌}
use mathlib.Core.Path.{◌≡◌, refl, ◌∙◌}
use mathlib.Core.Bool.{Bool, true, false, not}
use mathlib.Core.Logic.{inl, inr}
use mathlib.Core.List.{List, [], ◌∷◌, ◌++◌}
use native.Mathlib.Omega.{arith}
use misa_cybernetic_evolutio.Prelude.Tests.{if◌then◌else◌, Bool-cases}
use misa_cybernetic_evolutio.Prelude.Preds.{All}
use misa_cybernetic_evolutio.Prelude.Lists.{filter, length}
use misa_cybernetic_evolutio.Prelude.Sort.{insert, sort, IsSorted, sort-IsSorted}

module _ {ℓ κ} {A : Type ℓ} (P : A → Type κ) (p : A → Bool) where
  pub All-filter : (xs : List A) → All P xs → All P (filter p xs)
  All-filter [] h = tt
  All-filter (x ∷ xs) h = elim (Bool-cases (p x)) [
    | inl e ↦ rw e (h.0, All-filter xs h.1)
    | inr e ↦ rw e (All-filter xs h.1)
  ]

module _ {ℓ} {A : Type ℓ} (p : A → Bool) where
  pub filter-append : (xs ys : List A) → filter p (xs ++ ys) ≡ filter p xs ++ filter p ys
  filter-append [] ys = refl
  filter-append (x ∷ xs) ys = ground (arith, filter-append xs ys)

  pub filter-All : (xs : List A) → All (λ x. p x ≡ true) xs → filter p xs ≡ xs
  filter-All [] h = refl
  filter-All (x ∷ xs) h = rw (h.0, filter-All xs h.1) refl

  pub filter_none : (xs : List A) → All (λ x. p x ≡ false) xs → filter p xs ≡ []
  filter_none [] h = refl
  filter_none (x ∷ xs) h = rw (h.0, filter_none xs h.1) refl

  -- A test and its negation share out the list.
  pub length-filter-not :
      (xs : List A) → length (filter p xs) + length (filter (λ x. not (p x)) xs) ≡ length xs
  length-filter-not [] = omega arith
  length-filter-not (x ∷ xs) = ground (arith, length-filter-not xs)

module _ {ℓ} {A : Type ℓ} (before : A → A → Bool) where
  insert_first :
      (x : A) (xs : List A) → All (λ y. before x y ≡ true) xs → insert before x xs ≡ x ∷ xs
  unfolding insert
  insert_first x [] h = refl
  insert_first x (y ∷ ys) h = rw h.0 refl

  pub sort_sorted : (xs : List A) → IsSorted before xs → sort before xs ≡ xs
  unfolding sort
  sort_sorted [] h = refl
  sort_sorted (x ∷ xs) h = rw (sort_sorted xs h.1) (insert_first x xs h.0)

  module _ (total : (a b : A) → before a b ≡ false → before b a ≡ true)
      (trans : (a b c : A) → before a b ≡ true → before b c ≡ true → before a c ≡ true)
      (p : A → Bool) where
    All-before :
        (x y : A) (ys : List A)
        → before x y ≡ true
        → All (λ z. before y z ≡ true) ys
        → All (λ z. before x z ≡ true) ys
    All-before x y [] e h = tt
    All-before x y (z ∷ zs) e h = (trans x y z e h.0, All-before x y zs e h.1)

    filter-insert :
        (x : A) (xs : List A)
        → IsSorted before xs
        → filter p (insert before x xs)
          ≡ (if p x then insert before x (filter p xs) else filter p xs)
    unfolding insert
    filter-insert x [] h = elim (Bool-cases (p x)) [ inl e ↦ rw e refl | inr e ↦ rw e refl ]
    filter-insert x (y ∷ ys) h = elim (Bool-cases (before x y)) [
      | inl e ↦ elim (Bool-cases (p x)) [
        | inl ex ↦
            let k = All-filter (λ z. before x z ≡ true) p (y ∷ ys) (e, All-before x y ys e h.0) in
            rw (e, ex, insert_first x (filter p (y ∷ ys)) k) refl
        | inr ex ↦ rw (e, ex) refl
      ]
      | inr e ↦ ground (arith, e, filter-insert x ys h.1)
    ]

    pub filter-sort : (xs : List A) → filter p (sort before xs) ≡ sort before (filter p xs)
    unfolding sort
    filter-sort [] = refl
    filter-sort (x ∷ xs) =
        filter-insert x (sort before xs) (sort-IsSorted before total trans xs)
        ∙ (elim (Bool-cases (p x)) [
          | inl e ↦ rw (e, filter-sort xs) refl
          | inr e ↦ rw (e, filter-sort xs) refl
        ])

module _ {ℓ} {A : Type ℓ} (before : A → A → Bool) where
  length-insert : (x : A) (xs : List A) → length (insert before x xs) ≡ length xs + 1
  unfolding insert
  length-insert x [] = omega arith
  length-insert x (y ∷ ys) = ground (arith, length-insert x ys)

  pub length-sort : (xs : List A) → length (sort before xs) ≡ length xs
  unfolding sort
  length-sort [] = refl
  length-sort (x ∷ xs) = omega (arith, length-insert x (sort before xs), length-sort xs)
