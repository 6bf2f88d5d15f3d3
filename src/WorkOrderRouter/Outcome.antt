-- ===== src/WorkOrderRouter/Outcome.antt =====
-- The guarantees of `buildWorkOrderRouting` of scripts/lib/work-order-router.mjs.
use misa_cybernetic_evolutio.WorkOrderRouter.Graver.{InOrder, sorted-InOrder}
use mathlib.Core.List.{Perm}
use mathlib.Core.List.Perm
use misa_cybernetic_evolutio.Prelude.{
  ◌+◌, String, Bool, true, false, ◌≡◌, List, map, All, sort-IsSorted, sort-perm, some, ap,
}
use misa_cybernetic_evolutio.WorkOrderRouter.Types.{
  RepairTicket, QualityReport, GivenPolicy, WorkOrder, report_only,
}
use misa_cybernetic_evolutio.WorkOrderRouter.Policy.{
  normalize_routing_policy, as_given, apply_routing_policy,
}
use misa_cybernetic_evolutio.WorkOrderRouter.Routing.{
  before_order, sort_work_orders, candidate_orders, build_work_order_routing,
}
use misa_cybernetic_evolutio.WorkOrderRouter.Lanes.{
  auto_or_report, report_only_waits, report_only_mode,
}
use misa_cybernetic_evolutio.WorkOrderRouter.Routed.{
  IsNew, sorted-IsNew, count_complement, All-map_keeps, map-IsSorted, before_order-total,
  before_order_trans,
}

module _ (locale_le : String → String → Bool) (slug : String → String) (tickets : List RepairTicket)
    (reports : List QualityReport) (given : GivenPolicy) where
  abbrev orders : List WorkOrder
  orders = (build_work_order_routing locale_le slug tickets reports given).work_orders

  abbrev policy : GivenPolicy
  policy = as_given (normalize_routing_policy given)

  -- Every order of a routing is either counted as executed automatically or as reported to the
  -- owner, never as both: the two counts of the summary add up to the number of orders. And no
  -- order allows durable or public effects.
  pub routing_accounts :
      let routing = build_work_order_routing locale_le slug tickets reports given in
      (routing.summary.auto_executable_count + routing.summary.owner_report_required_count
        ≡ routing.summary.work_order_count)
      × All (λ o. o.execution_policy.durable_or_public_effect_allowed ≡ false) routing.work_orders
  unfolding build_work_order_routing
  routing_accounts =
      let new = sorted-IsNew locale_le slug tickets reports in
      (
        count_complement (λ o. o.execution_policy.auto_execute_allowed)
            (λ o. o.execution_policy.owner_report_required) (λ o. apply_routing_policy o policy)
            (sort_work_orders locale_le slug (candidate_orders locale_le slug tickets reports))
            (λ o h. (auto_or_report o policy h.0 h.1).0) new,
        All-map_keeps IsNew (λ o. o.execution_policy.durable_or_public_effect_allowed ≡ false)
            (λ o. apply_routing_policy o policy) _ (λ o h. unfold apply_routing_policy in h.2) new,
      )

  -- A routing under `report_only` executes nothing: every order waits for the user.
  pub routing_report_only :
      given.mode ≡ some report_only
      → All
          (λ o.
            (o.execution_policy.auto_execute_allowed ≡ false)
            × (o.execution_policy.requires_user_confirmation ≡ true))
          (build_work_order_routing locale_le slug tickets reports given).work_orders
  unfolding build_work_order_routing
  routing_report_only h =
      All-map_keeps IsNew _ (λ o. apply_routing_policy o policy) _
        (λ o new.
          let waits = report_only_waits o policy (ap some (report_only_mode given h)) in
          (waits.2, waits.1))
        (sorted-IsNew locale_le slug tickets reports)

  -- The orders of a routing are those made of the tickets and of the reports that matter, each
  -- once and with the policy applied. Each comes before every later one: it is graver (P0 before
  -- P1, P1 before P2, P2 before the rest), or as grave with an id that `localeCompare`, of which
  -- only totality and transitivity are used, does not put after the later one's.
  pub routing_sorts :
      ((a b : String) → locale_le a b ≡ false → locale_le b a ≡ true)
      → ((a b c : String) → locale_le a b ≡ true → locale_le b c ≡ true → locale_le a c ≡ true)
      → let routing = build_work_order_routing locale_le slug tickets reports given in
        InOrder locale_le routing.work_orders
        × Perm routing.work_orders (
            map
              (λ o. apply_routing_policy o policy)
              (candidate_orders locale_le slug tickets reports))
  unfolding build_work_order_routing sort_work_orders
  routing_sorts total trans = (
    sorted-InOrder locale_le slug _ (
        map-IsSorted locale_le slug _ policy (
          sort-IsSorted (before_order locale_le slug)
            (before_order-total locale_le slug total trans)
            (before_order_trans locale_le slug total trans) _)),
    Perm.map (λ o. apply_routing_policy o policy) (sort-perm (before_order locale_le slug) _),
  )
