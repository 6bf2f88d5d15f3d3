-- ===== src/Prelude/Lists.antt =====
-- Lists with Boolean tests, as `Array.prototype` has them, and lengths in native numbers.
use Prim.Native.Nat.{ℕ, suc, ◌+◌, ◌≤◌}
use mathlib.Core.Path.{◌≡◌, refl}
use mathlib.Core.Bool.{Bool, true, false, ◌&&◌, ◌||◌}
use mathlib.Core.List.{List, [], ◌∷◌, ◌++◌}
use mathlib.Core.Option.{Option, none, some}
use native.Mathlib.Omega.{arith}
use misa_cybernetic_evolutio.Prelude.Tests.{if◌then◌else◌}

module _ {ℓ} {A : Type ℓ} where
  abbrev pub length : List A → ℕ
  length [] = 0
  length (x ∷ xs) = suc (length xs)

  abbrev pub any : (A → Bool) → List A → Bool
  any p [] = false
  any p (x ∷ xs) = p x || any p xs

  abbrev pub all : (A → Bool) → List A → Bool
  all p [] = true
  all p (x ∷ xs) = p x && all p xs

  abbrev pub filter : (A → Bool) → List A → List A
  filter p [] = []
  filter p (x ∷ xs) = let rest = filter p xs in if p x then x ∷ rest else rest

  abbrev pub find? : (A → Bool) → List A → Option A
  find? p [] = none
  find? p (x ∷ xs) = if p x then some x else find? p xs

  -- `[...xs].reverse().find(p)`: the last element that passes.
  abbrev pub find_last? : (A → Bool) → List A → Option A
  find_last? p [] = none
  find_last? p (x ∷ xs) = elim (find_last? p xs) [
    | some y ↦ some y
    | none ↦ if p x then some x else none
  ]

  -- `xs.at(-1)`
  abbrev pub get_last? : List A → Option A
  get_last? [] = none
  get_last? (x ∷ xs) = elim (get_last? xs) [ some y ↦ some y | none ↦ some x ]

  abbrev pub head? : List A → Option A
  head? [] = none
  head? (x ∷ xs) = some x

  pub length-append : (xs ys : List A) → length (xs ++ ys) ≡ length xs + length ys
  length-append [] ys = omega arith
  length-append (x ∷ xs) ys = omega (arith, length-append xs ys)

  pub any-append : (p : A → Bool) (xs ys : List A) → any p (xs ++ ys) ≡ (any p xs || any p ys)
  any-append p [] ys = refl
  any-append p (x ∷ xs) ys = ground (arith, any-append p xs ys)

  pub all-append : (p : A → Bool) (xs ys : List A) → all p (xs ++ ys) ≡ (all p xs && all p ys)
  all-append p [] ys = refl
  all-append p (x ∷ xs) ys = ground (arith, all-append p xs ys)

  pub length-filter-le : (p : A → Bool) (xs : List A) → length (filter p xs) ≤ length xs
  length-filter-le p [] = omega arith
  length-filter-le p (x ∷ xs) = ground (arith, length-filter-le p xs)

  pub find_last?-append_one :
      (p : A → Bool) (xs : List A) (y : A)
      → find_last? p (xs ++ y ∷ []) ≡ (if p y then some y else find_last? p xs)
  find_last?-append_one p [] y = ground arith
  find_last?-append_one p (x ∷ xs) y = ground (arith, find_last?-append_one p xs y)

  pub find_last?-none : (p : A → Bool) (xs : List A) → find_last? p xs ≡ none → any p xs ≡ false
  find_last?-none p [] h = refl
  find_last?-none p (x ∷ xs) h = ground (arith, find_last?-none p xs)
