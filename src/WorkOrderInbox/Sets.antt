-- ===== src/WorkOrderInbox/Sets.antt =====
-- The sets of texts of scripts/lib/work-order-inbox.mjs: membership and repetition.
use misa_cybernetic_evolutio.Prelude.{
  String, Bool, true, false, ◌||◌, ◌≡◌, refl, inl, inr, List, [], ◌∷◌, ◌++◌, includes, str_eq,
  eq_iff, arith, Bool-cases, any-append, all,
}
use misa_cybernetic_evolutio.WorkOrderInbox.Keys.{set_add, set_add_all}

abbrev pub IsUnique : List String → Type 0
IsUnique [] = Unit
IsUnique (x ∷ xs) = (includes xs x ≡ false) × IsUnique xs

abbrev pub contains_all : List String → List String → Bool
contains_all xs ys = all (includes xs) ys

pub includes-append :
    (xs ys : List String) (k : String) → includes (xs ++ ys) k ≡ (includes xs k || includes ys k)
includes-append xs ys k = any-append (λ x. str_eq x k) xs ys

pub includes-set_add :
    (x : String) (xs : List String) (k : String)
    → includes (set_add x xs) k ≡ (includes xs k || str_eq x k)
unfolding set_add
includes-set_add x xs k = elim (Bool-cases (includes xs x)) [
  | inl e ↦ rw e (ground (arith, e, eq_iff x k))
  | inr e ↦ rw e (ground (arith, includes-append xs (x ∷ []) k))
]

pub includes-set_add_all :
    (xs ys : List String) (k : String)
    → includes (set_add_all xs ys) k ≡ (includes xs k || includes ys k)
unfolding set_add_all
includes-set_add_all xs [] k = ground arith
includes-set_add_all xs (y ∷ ys) k =
    ground (arith, includes-set_add_all (set_add y xs) ys k, includes-set_add y xs k)

append-IsUnique :
    (xs : List String) (x : String) → includes xs x ≡ false → IsUnique xs → IsUnique (xs ++ x ∷ [])
append-IsUnique [] x h u = (refl, tt)
append-IsUnique (y ∷ ys) x h u = (
  ground (arith, h, u.0, includes-append ys (x ∷ []) y, eq_iff x y, eq_iff y x),
  append-IsUnique ys x (ground (arith, h)) u.1,
)

set_add-IsUnique : (x : String) (xs : List String) → IsUnique xs → IsUnique (set_add x xs)
unfolding set_add
set_add-IsUnique x xs u = elim (Bool-cases (includes xs x)) [
  | inl e ↦ rw e u
  | inr e ↦ rw e (append-IsUnique xs x e u)
]

pub set_add_all-IsUnique : (xs ys : List String) → IsUnique xs → IsUnique (set_add_all xs ys)
unfolding set_add_all
set_add_all-IsUnique xs [] u = u
set_add_all-IsUnique xs (y ∷ ys) u =
    set_add_all-IsUnique (set_add y xs) ys (set_add-IsUnique y xs u)

pub all-impl :
    (p q : String → Bool) (xs : List String)
    → ((x : String) → p x ≡ true → q x ≡ true)
    → all p xs ≡ true
    → all q xs ≡ true
all-impl p q [] f h = refl
all-impl p q (x ∷ xs) f h = ground (arith, h, f x, all-impl p q xs f)

pub contains_all_member :
    (xs ys : List String) (k : String)
    → contains_all xs ys ≡ true
    → includes ys k ≡ true
    → includes xs k ≡ true
contains_all_member xs [] k h m = ground (arith, m)
contains_all_member xs (y ∷ ys) k h m =
    ground (arith, h, m, contains_all_member xs ys k, eq_iff y k)

pub contains_all_from :
    (xs ys : List String)
    → ((k : String) → includes ys k ≡ true → includes xs k ≡ true)
    → contains_all xs ys ≡ true
contains_all_from xs [] f = refl
contains_all_from xs (y ∷ ys) f =
    ground (arith, f y, eq_iff y y, contains_all_from xs ys (λ k m. f k (ground (arith, m))))
