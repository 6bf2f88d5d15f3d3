-- ===== src/WorkOrderRouter/Handoff.antt =====
-- From the work orders (scripts/lib/work-order-router.mjs) over the human escalations
-- (scripts/lib/human-escalation.mjs) to the runtime thread (scripts/lib/runtime-thread.mjs).
use misa_cybernetic_evolutio.Prelude.{
  String, Bool, true, false, ◌||◌, ◌≡◌, refl, ap, ◌∙◌, Option, none, List, [], ◌∷◌, map, any,
  any-append, any-sort, arith, truthy, Bool-cases, inl, inr, suc, ℕ,
}
use misa_cybernetic_evolutio.WorkOrderRouter.Types.{
  RepairTicket, QualityReport, GivenPolicy, WorkOrder,
}
use misa_cybernetic_evolutio.WorkOrderRouter.Orders.{is_p0, work_order_from_repair_ticket}
use misa_cybernetic_evolutio.WorkOrderRouter.Policy.{
  normalize_routing_policy, as_given, apply_routing_policy,
}
use misa_cybernetic_evolutio.WorkOrderRouter.Routing.{
  before_order, is_human_owner, needs_human, report_orders, build_work_order_routing,
  human_escalations_from_work_order_routing, sort_work_orders, candidate_orders, repair_orders,
}
use misa_cybernetic_evolutio.RuntimeThread.{
  CandidateContext, CandidateReducer, build_runtime_thread_from_packets, build-pauses,
  pause_for_human, paused,
}

abbrev is_owners : WorkOrder → Bool
is_owners order = is_human_owner order.suggested_executor

owners_of_p0 :
    (locale_le : String → String → Bool) (slug : String → String) (index : ℕ)
    (tickets : List RepairTicket)
    → any (λ t. is_p0 t.severity) tickets ≡ true
    → any is_owners (repair_orders locale_le slug index tickets) ≡ true
unfolding work_order_from_repair_ticket repair_orders
owners_of_p0 locale_le slug index [] h = cc
owners_of_p0 locale_le slug index (t ∷ ts) h = elim (Bool-cases (is_p0 t.severity)) [
  | inl e ↦ rw e
  | inr e ↦ ground (arith, owners_of_p0 locale_le slug (suc index) ts (rw e at h))
]

any-map_apply :
    (orders : List WorkOrder) (given : GivenPolicy)
    → any is_owners (map (λ o. apply_routing_policy o given) orders) ≡ any is_owners orders
unfolding apply_routing_policy
any-map_apply [] given = refl
any-map_apply (o ∷ os) given = ap (λ (b : Bool). is_owners o || b) (any-map_apply os given)

-- An order that is the human owner's makes an escalation.
escalates :
    (escalation_slug : String → String) (orders : List WorkOrder)
    → ((s : String) → truthy (escalation_slug s) ≡ true)
    → any is_owners orders ≡ true
    → any truthy (human_escalations_from_work_order_routing escalation_slug orders) ≡ true
unfolding human_escalations_from_work_order_routing
escalates escalation_slug [] named h = cc
escalates escalation_slug (o ∷ os) named h = elim (Bool-cases (needs_human o)) [
  | inl e ↦ rw (e, named o.work_order_id)
  | inr e ↦ rw e (escalates escalation_slug os named (ground (arith, h, e)))
]

module _ (locale_le : String → String → Bool) (slug escalation_slug : String → String)
    (tickets : List RepairTicket) (reports : List QualityReport) (given : GivenPolicy) where
  abbrev pub escalations : List String
  escalations =
      human_escalations_from_work_order_routing escalation_slug
        (build_work_order_routing locale_le slug tickets reports given).work_orders

  owned :
      any (λ t. is_p0 t.severity) tickets ≡ true
      → any is_owners (build_work_order_routing locale_le slug tickets reports given).work_orders
        ≡ true
  unfolding build_work_order_routing sort_work_orders candidate_orders
  owned h =
      any-map_apply _ (as_given (normalize_routing_policy given))
      ∙ any-sort (before_order locale_le slug) is_owners _
      ∙ any-append is_owners (repair_orders locale_le slug 0 tickets)
          (report_orders locale_le slug reports)
      ∙ (rw (owners_of_p0 locale_le slug 0 tickets h))

  -- With a repair ticket of severity P0 among the tickets, and escalation ids that are never
  -- empty, the thread that is built of the routing's escalations, with no decision, no gate and no
  -- error, pauses for a human, under every routing policy.
  pub p0_pauses :
      (id : String) (context : Option CandidateContext) (reducer : Option CandidateReducer)
      (now : String)
      → ((s : String) → truthy (escalation_slug s) ≡ true)
      → any (λ t. is_p0 t.severity) tickets ≡ true
      → let built =
          build_runtime_thread_from_packets id context reducer escalations none false false now in
        (built.1.step_type ≡ pause_for_human) × (built.0.status ≡ paused)
  p0_pauses id context reducer now named h =
      build-pauses id context reducer escalations now (escalates escalation_slug _ named (owned h))
