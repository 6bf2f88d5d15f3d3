-- ===== src/Prelude/Sort.antt =====
-- `Array.prototype.sort` with a comparator: a stable sort, here by insertion from the right.
-- `before a b` is "the comparator does not put `b` in front of `a`" (a result of at most 0).
use mathlib.Core.Path.{◌≡◌, refl, ap, ◌∙◌}
use mathlib.Core.Bool.{Bool, true, false, ◌||◌}
use mathlib.Core.Logic.{inl, inr}
use mathlib.Core.List.{List, [], ◌∷◌, Perm}
use mathlib.Core.List.Perm
use native.Mathlib.Omega.{arith}
use misa_cybernetic_evolutio.Prelude.Tests.{if◌then◌else◌, Bool-cases}
use misa_cybernetic_evolutio.Prelude.Preds.{All}
use misa_cybernetic_evolutio.Prelude.Lists.{any}

module _ {ℓ} {A : Type ℓ} (before : A → A → Bool) where
  unfoldable pub insert : A → List A → List A
  insert x [] = x ∷ []
  insert x (y ∷ ys) = if before x y then x ∷ y ∷ ys else y ∷ insert x ys

  unfoldable pub sort : List A → List A
  unfolding insert
  sort [] = []
  sort (x ∷ xs) = insert x (sort xs)

  -- Every element comes before all that follow it.
  abbrev pub IsSorted : List A → Type 0
  IsSorted [] = Unit
  IsSorted (x ∷ xs) = All (λ y. before x y ≡ true) xs × IsSorted xs

  insert-perm : (x : A) (xs : List A) → Perm (insert x xs) (x ∷ xs)
  unfolding insert
  insert-perm x [] = Perm.refl (x ∷ [])
  insert-perm x (y ∷ ys) = elim (Bool-cases (before x y)) [
    | inl e ↦ rw e (Perm.refl (x ∷ y ∷ ys))
    | inr e ↦ rw e (Perm.trans (Perm.cons y (insert-perm x ys)) (Perm.swap x y ys))
  ]

  pub sort-perm : (xs : List A) → Perm (sort xs) xs
  unfolding sort
  sort-perm [] = Perm.refl []
  sort-perm (x ∷ xs) = Perm.trans (insert-perm x (sort xs)) (Perm.cons x (sort-perm xs))

  module _ (total : (a b : A) → before a b ≡ false → before b a ≡ true)
      (trans : (a b c : A) → before a b ≡ true → before b c ≡ true → before a c ≡ true) where
    All-before :
        (x y : A) (ys : List A)
        → before x y ≡ true
        → All (λ z. before y z ≡ true) ys
        → All (λ z. before x z ≡ true) ys
    All-before x y [] h k = tt
    All-before x y (z ∷ zs) h k = (trans x y z h k.0, All-before x y zs h k.1)

    All-insert :
        (y x : A) (xs : List A)
        → before y x ≡ true
        → All (λ z. before y z ≡ true) xs
        → All (λ z. before y z ≡ true) (insert x xs)
    unfolding insert
    All-insert y x [] h k = (h, tt)
    All-insert y x (z ∷ zs) h k = elim (Bool-cases (before x z)) [
      | inl e ↦ rw e (h, (k.0, k.1))
      | inr e ↦ rw e (k.0, All-insert y x zs h k.1)
    ]

    insert-IsSorted : (x : A) (xs : List A) → IsSorted xs → IsSorted (insert x xs)
    unfolding insert
    insert-IsSorted x [] s = (tt, tt)
    insert-IsSorted x (y ∷ ys) s = elim (Bool-cases (before x y)) [
      | inl e ↦ rw e ((e, All-before x y ys e s.0), s)
      | inr e ↦ rw e (All-insert y x ys (total x y e) s.0, insert-IsSorted x ys s.1)
    ]

    pub sort-IsSorted : (xs : List A) → IsSorted (sort xs)
    unfolding sort
    sort-IsSorted [] = tt
    sort-IsSorted (x ∷ xs) = insert-IsSorted x (sort xs) (sort-IsSorted xs)

-- Sorting keeps what holds of every element, and the length.
module _ {ℓ κ} {A : Type ℓ} (before : A → A → Bool) (P : A → Type κ) where
  All-insert_keeps : (x : A) (xs : List A) → P x → All P xs → All P (insert before x xs)
  unfolding insert
  All-insert_keeps x [] p h = (p, tt)
  All-insert_keeps x (y ∷ ys) p h = elim (Bool-cases (before x y)) [
    | inl e ↦ rw e (p, h)
    | inr e ↦ rw e (h.0, All-insert_keeps x ys p h.1)
  ]

  pub All-sort : (xs : List A) → All P xs → All P (sort before xs)
  unfolding sort
  All-sort [] h = tt
  All-sort (x ∷ xs) h = All-insert_keeps x (sort before xs) h.0 (All-sort xs h.1)

module _ {ℓ} {A : Type ℓ} (before : A → A → Bool) (p : A → Bool) where
  pub any-insert : (x : A) (xs : List A) → any p (insert before x xs) ≡ (p x || any p xs)
  unfolding insert
  any-insert x [] = refl
  any-insert x (y ∷ ys) = ground (arith, any-insert x ys)

  pub any-sort : (xs : List A) → any p (sort before xs) ≡ any p xs
  unfolding sort
  any-sort [] = refl
  any-sort (x ∷ xs) = any-insert x (sort before xs) ∙ ap (λ (b : Bool). p x || b) (any-sort xs)
