-- ===== src/WorkOrderRouter/Routed.antt =====
-- What `buildWorkOrderRouting` of scripts/lib/work-order-router.mjs gives as a whole.
use misa_cybernetic_evolutio.Prelude.{
  ◌+◌, String, Bool, true, false, not, ◌≡◌, refl, ◌∙◌, List, [], ◌∷◌, map, length, arith,
  Bool-cases, inl, inr, All, All-append, All-sort, IsSorted, suc, ℕ,
}
use misa_cybernetic_evolutio.WorkOrderRouter.Types.{
  RepairTicket, QualityReport, GivenPolicy, WorkOrder,
}
use misa_cybernetic_evolutio.WorkOrderRouter.Orders.{
  work_order_from_repair_ticket, work_order_from_operational_quality_report,
}
use misa_cybernetic_evolutio.WorkOrderRouter.Policy.{apply_routing_policy}
use misa_cybernetic_evolutio.WorkOrderRouter.Routing.{
  before_order, sort_work_orders, keeps_report, report_orders, candidate_orders, count_if,
  repair_orders,
}

-- What every new order satisfies.
abbrev pub IsNew : WorkOrder → Type 0
IsNew order =
    (order.execution_policy.owner_report_required ≡ true)
    × (order.execution_policy.requires_user_confirmation ≡ true)
    × (order.execution_policy.durable_or_public_effect_allowed ≡ false)

module _ (locale_le : String → String → Bool) (slug : String → String) where
  repair-IsNew :
      (index : ℕ) (ticket : RepairTicket) → IsNew (work_order_from_repair_ticket slug index ticket)
  unfolding work_order_from_repair_ticket
  repair-IsNew index ticket = (refl, refl, refl)

  quality-IsNew :
      (report : QualityReport) → IsNew (work_order_from_operational_quality_report slug report)
  unfolding work_order_from_operational_quality_report
  quality-IsNew report = (refl, refl, refl)

  repair_orders-IsNew :
      (index : ℕ) (tickets : List RepairTicket)
      → All IsNew (repair_orders locale_le slug index tickets)
  unfolding repair_orders
  repair_orders-IsNew index [] = tt
  repair_orders-IsNew index (t ∷ ts) = (repair-IsNew index t, repair_orders-IsNew (suc index) ts)

  reports-IsNew : (reports : List QualityReport) → All IsNew (report_orders locale_le slug reports)
  unfolding report_orders
  reports-IsNew [] = tt
  reports-IsNew (r ∷ rs) =
      elim (Bool-cases
        (keeps_report locale_le slug r (work_order_from_operational_quality_report slug r))) [
          | inl e ↦ rw e (quality-IsNew r, reports-IsNew rs)
          | inr e ↦ rw e (reports-IsNew rs)
        ]

  pub sorted-IsNew :
      (tickets : List RepairTicket) (reports : List QualityReport)
      → All IsNew
          (sort_work_orders locale_le slug (candidate_orders locale_le slug tickets reports))
  unfolding sort_work_orders candidate_orders
  sorted-IsNew tickets reports = All-sort (before_order locale_le slug) IsNew _ (
      All-append IsNew (repair_orders locale_le slug 0 tickets)
        (report_orders locale_le slug reports) (repair_orders-IsNew 0 tickets)
        (reports-IsNew reports))

-- Two complementary tests count a list.
pub count_complement :
    (p q : WorkOrder → Bool) (f : WorkOrder → WorkOrder) (orders : List WorkOrder)
    → ((o : WorkOrder) → IsNew o → q (f o) ≡ not (p (f o)))
    → All IsNew orders
    → count_if p (map f orders) + count_if q (map f orders) ≡ length (map f orders)
unfolding count_if
count_complement p q f [] h k = omega arith
count_complement p q f (o ∷ os) h k = ground (arith, h o k.0, count_complement p q f os h k.1)

pub All-map_keeps :
    (P Q : WorkOrder → Type 0) (f : WorkOrder → WorkOrder) (orders : List WorkOrder)
    → ((o : WorkOrder) → P o → Q (f o))
    → All P orders
    → All Q (map f orders)
All-map_keeps P Q f [] h k = tt
All-map_keeps P Q f (o ∷ os) h k = (h o k.0, All-map_keeps P Q f os h k.1)

module _ (locale_le : String → String → Bool) (slug : String → String) where
  abbrev pub in_order : WorkOrder → WorkOrder → Bool
  in_order = before_order locale_le slug

  apply-before_order :
      (a b : WorkOrder) (given : GivenPolicy)
      → in_order (apply_routing_policy a given) (apply_routing_policy b given) ≡ in_order a b
  unfolding before_order apply_routing_policy
  apply-before_order a b given = refl

  All-before_map :
      (a : WorkOrder) (orders : List WorkOrder) (given : GivenPolicy)
      → All (λ b. in_order a b ≡ true) orders
      → All
          (λ b. in_order (apply_routing_policy a given) b ≡ true)
          (map (λ o. apply_routing_policy o given) orders)
  All-before_map a [] given h = tt
  All-before_map a (b ∷ orders) given h =
      (apply-before_order a b given ∙ h.0, All-before_map a orders given h.1)

  pub map-IsSorted :
      (orders : List WorkOrder) (given : GivenPolicy)
      → IsSorted in_order orders
      → IsSorted in_order (map (λ o. apply_routing_policy o given) orders)
  map-IsSorted [] given h = tt
  map-IsSorted (o ∷ os) given h = (All-before_map o os given h.0, map-IsSorted os given h.1)

  module _ (total : (a b : String) → locale_le a b ≡ false → locale_le b a ≡ true)
      (trans : (a b c : String)
        → locale_le a b ≡ true
        → locale_le b c ≡ true
        → locale_le a c ≡ true) where
    pub before_order-total : (a b : WorkOrder) → in_order a b ≡ false → in_order b a ≡ true
    unfolding before_order
    before_order-total a b h = ground (arith, total a.work_order_id b.work_order_id)

    pub before_order_trans :
        (a b c : WorkOrder) → in_order a b ≡ true → in_order b c ≡ true → in_order a c ≡ true
    unfolding before_order
    before_order_trans a b c h k =
        ground (arith, trans a.work_order_id b.work_order_id c.work_order_id)
