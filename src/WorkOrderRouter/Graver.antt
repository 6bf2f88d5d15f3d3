-- ===== src/WorkOrderRouter/Graver.antt =====
-- What it is for one work order to come before another in a routing, said of the severities
-- themselves, without the ranks and the comparator of scripts/lib/work-order-router.mjs.
use misa_cybernetic_evolutio.Prelude.{
  String, Bool, true, false, ◌≡◌, refl, ◌⊎◌, inl, inr, List, [], ◌∷◌, All, IsSorted, ltb, ◌==◌,
  Bool-cases, arith,
}
use misa_cybernetic_evolutio.WorkOrderRouter.Types.{Severity, p0, p1, p2, p3, unlisted, WorkOrder}
use misa_cybernetic_evolutio.WorkOrderRouter.Orders.{severity_rank}
use misa_cybernetic_evolutio.WorkOrderRouter.Routing.{before_order}

-- P0 is graver than P1, P1 than P2, P2 than P3; a severity that is not listed is like P3.
abbrev pub graver : Severity → Severity → Bool
graver p0 p0 = false
graver p0 _ = true
graver p1 p2 = true
graver p1 p3 = true
graver p1 unlisted = true
graver p2 p3 = true
graver p2 unlisted = true
graver _ _ = false

abbrev pub as_grave : Severity → Severity → Bool
as_grave p0 p0 = true
as_grave p1 p1 = true
as_grave p2 p2 = true
as_grave p3 p3 = true
as_grave p3 unlisted = true
as_grave unlisted p3 = true
as_grave unlisted unlisted = true
as_grave _ _ = false

-- The first order is graver, or as grave with an id that is not after the second's.
abbrev pub ComesBefore : (String → String → Bool) → WorkOrder → WorkOrder → Type 0
ComesBefore locale_le a b =
    (graver a.severity b.severity ≡ true)
    ⊎ ((as_grave a.severity b.severity ≡ true) × (locale_le a.work_order_id b.work_order_id ≡ true))

-- Every order comes before each one that stands after it.
abbrev pub InOrder : (String → String → Bool) → List WorkOrder → Type 0
InOrder locale_le [] = Unit
InOrder locale_le (o ∷ os) = All (ComesBefore locale_le o) os × InOrder locale_le os

rank-Graver :
    (s t : Severity)
    → (ltb (severity_rank s) (severity_rank t) ≡ graver s t)
      × ((severity_rank s == severity_rank t) ≡ as_grave s t)
unfolding severity_rank
rank-Graver p0 p0 = (refl, refl)
rank-Graver p0 p1 = (refl, refl)
rank-Graver p0 p2 = (refl, refl)
rank-Graver p0 p3 = (refl, refl)
rank-Graver p0 unlisted = (refl, refl)
rank-Graver p1 p0 = (refl, refl)
rank-Graver p1 p1 = (refl, refl)
rank-Graver p1 p2 = (refl, refl)
rank-Graver p1 p3 = (refl, refl)
rank-Graver p1 unlisted = (refl, refl)
rank-Graver p2 p0 = (refl, refl)
rank-Graver p2 p1 = (refl, refl)
rank-Graver p2 p2 = (refl, refl)
rank-Graver p2 p3 = (refl, refl)
rank-Graver p2 unlisted = (refl, refl)
rank-Graver p3 p0 = (refl, refl)
rank-Graver p3 p1 = (refl, refl)
rank-Graver p3 p2 = (refl, refl)
rank-Graver p3 p3 = (refl, refl)
rank-Graver p3 unlisted = (refl, refl)
rank-Graver unlisted p0 = (refl, refl)
rank-Graver unlisted p1 = (refl, refl)
rank-Graver unlisted p2 = (refl, refl)
rank-Graver unlisted p3 = (refl, refl)
rank-Graver unlisted unlisted = (refl, refl)

module _ (locale_le : String → String → Bool) (slug : String → String) where
  before-ComesBefore :
      (a b : WorkOrder) → before_order locale_le slug a b ≡ true → ComesBefore locale_le a b
  unfolding before_order
  before-ComesBefore a b h =
      let (less, same) = rank-Graver a.severity b.severity in
      elim (Bool-cases (graver a.severity b.severity)) [
        | inl e ↦ inl e
        | inr e ↦ inr (ground (arith, h, e, less, same), ground (arith, h, e, less, same))
      ]

  All-ComesBefore :
      (a : WorkOrder) (orders : List WorkOrder)
      → All (λ b. before_order locale_le slug a b ≡ true) orders
      → All (ComesBefore locale_le a) orders
  All-ComesBefore a [] h = tt
  All-ComesBefore a (b ∷ bs) h = (before-ComesBefore a b h.0, All-ComesBefore a bs h.1)

  pub sorted-InOrder :
      (orders : List WorkOrder)
      → IsSorted (before_order locale_le slug) orders
      → InOrder locale_le orders
  sorted-InOrder [] h = tt
  sorted-InOrder (o ∷ os) h = (All-ComesBefore o os h.0, sorted-InOrder os h.1)
