-- ===== src/WorkOrderRouter/Lanes.antt =====
-- What the routing policy of scripts/lib/work-order-router.mjs does to an order, lane by lane.
use misa_cybernetic_evolutio.Prelude.{
  String, Bool, true, false, not, ◌||◌, ◌≡◌, ◌≢◌, ◌⊎◌, inl, inr, ◌≤◌, refl, some, arith, Bool-cases,
  if◌then◌else◌, ℕ,
}
use misa_cybernetic_evolutio.WorkOrderRouter.Types.{
  p0, observe_only, Mode, report_only, ask_before_execution, full_agent, RepairTicket, GivenPolicy,
  RoutingPolicy, WorkOrder, report_only_wait_for_user, notify_then_execute_within_scope,
  deliver_to_agent_for_review, report_to_user_before_execution, report_only_wait,
  risk_graded_default, agent_autonomous_low_risk, agent_autonomous_within_scope,
}
use misa_cybernetic_evolutio.WorkOrderRouter.Orders.{severity_rank, work_order_from_repair_ticket}
use misa_cybernetic_evolutio.WorkOrderRouter.Policy.{
  normalize_routing_policy, as_given, apply_routing_policy, auto_candidate, agent_review_only,
  is_full_agent, is_report_only, asks_first, mode_allows_autonomous_execution,
  category_allowed_for_auto,
}

-- Normalising a policy that was normalised changes nothing, though the code does it twice.
pub normalize-normalize :
    (given : GivenPolicy)
    → normalize_routing_policy (as_given (normalize_routing_policy given))
      ≡ normalize_routing_policy given
unfolding normalize_routing_policy
normalize-normalize given = ground arith

-- The modes that ask first never execute by themselves, whatever the caller's other keys say.
asks_first-no_auto :
    (given : GivenPolicy) (order : WorkOrder)
    → asks_first (normalize_routing_policy given).mode ≡ true
    → auto_candidate order (normalize_routing_policy given) ≡ false
unfolding normalize_routing_policy auto_candidate
asks_first-no_auto given order h = ground arith

auto-mode :
    (mode : Mode)
    → mode_allows_autonomous_execution mode ≡ true
    → (mode ≡ risk_graded_default)
      ⊎ (mode ≡ agent_autonomous_low_risk)
      ⊎ (mode ≡ agent_autonomous_within_scope)
      ⊎ (mode ≡ full_agent)
unfolding mode_allows_autonomous_execution
auto-mode risk_graded_default h = inl refl
auto-mode agent_autonomous_low_risk h = inr (inl refl)
auto-mode agent_autonomous_within_scope h = inr (inr (inl refl))
auto-mode full_agent h = inr (inr (inr refl))
auto-mode report_only h = cc
auto-mode ask_before_execution h = cc
auto-mode Mode.unlisted h = cc

full_agent_of : (mode : Mode) → is_full_agent mode ≡ true → mode ≡ full_agent
full_agent_of full_agent h = refl
full_agent_of _ h = cc

-- What an order and a policy satisfy when the order is executed automatically.
auto_candidate_facts :
    (order : WorkOrder) (policy : RoutingPolicy)
    → auto_candidate order policy ≡ true
    → (order.execution_policy.self_evolution_allowed ≡ true)
      × (order.execution_policy.durable_or_public_effect_allowed ≡ false)
      × (policy.auto_execute_allowed ≡ true)
      × ((policy.mode ≡ risk_graded_default)
          ⊎ (policy.mode ≡ agent_autonomous_low_risk)
          ⊎ (policy.mode ≡ agent_autonomous_within_scope)
          ⊎ (policy.mode ≡ full_agent))
      × ((policy.mode ≡ full_agent)
          ⊎ ((severity_rank policy.max_auto_severity ≤ severity_rank order.severity)
              × (category_allowed_for_auto order.category policy.auto_execute_categories ≡ true)))
unfolding auto_candidate
auto_candidate_facts order policy h = (
  ground arith,
  ground arith,
  ground arith,
  auto-mode policy.mode (ground arith),
  elim (Bool-cases (is_full_agent policy.mode)) [
    | inl e ↦ inl (full_agent_of policy.mode e)
    | inr e ↦ inr (ground (arith, h), ground (arith, h, e))
  ],
)

self_evolution_facts :
    (slug : String → String) (index : ℕ) (ticket : RepairTicket)
    → (work_order_from_repair_ticket slug index ticket).execution_policy.self_evolution_allowed
      ≡ true
    → (ticket.severity ≢ p0) × (ticket.status ≢ observe_only)
unfolding work_order_from_repair_ticket
self_evolution_facts slug index ticket h = (λ e. ground (arith, h, e), λ e. ground (arith, h, e))

-- A repair ticket that some policy executes automatically has not severity P0 and is not only
-- observed; the policy allows it, its mode is one of the four autonomous ones, the effects are
-- neither durable nor public, and either the mode is `full_agent` or the ticket is no graver than
-- the policy's bound and the policy allows the order's category.
pub repair_auto_safe :
    (slug : String → String) (index : ℕ) (ticket : RepairTicket) (given : GivenPolicy)
    → (apply_routing_policy
        (work_order_from_repair_ticket slug index ticket)
        given).execution_policy.auto_execute_allowed
      ≡ true
    → let order = apply_routing_policy (work_order_from_repair_ticket slug index ticket) given in
      let policy = normalize_routing_policy given in
      (ticket.severity ≢ p0)
      × (ticket.status ≢ observe_only)
      × (policy.auto_execute_allowed ≡ true)
      × ((policy.mode ≡ risk_graded_default)
          ⊎ (policy.mode ≡ agent_autonomous_low_risk)
          ⊎ (policy.mode ≡ agent_autonomous_within_scope)
          ⊎ (policy.mode ≡ full_agent))
      × (order.execution_policy.durable_or_public_effect_allowed ≡ false)
      × ((policy.mode ≡ full_agent)
          ⊎ ((severity_rank policy.max_auto_severity ≤ severity_rank ticket.severity)
              × (category_allowed_for_auto order.category policy.auto_execute_categories ≡ true)))
unfolding apply_routing_policy
repair_auto_safe slug index ticket given h =
    let (evolves, effects, allowed, mode, bound) =
      auto_candidate_facts (work_order_from_repair_ticket slug index ticket)
        (normalize_routing_policy given) h in
    let (severity, status) = self_evolution_facts slug index ticket evolves in
    (severity, status, allowed, mode, effects, unfold work_order_from_repair_ticket in bound)

pub report_only_mode :
    (given : GivenPolicy)
    → given.mode ≡ some report_only
    → (normalize_routing_policy given).mode ≡ report_only
unfolding normalize_routing_policy
report_only_mode given h = ground (arith, h)

asks_first_of : (mode : Mode) → is_report_only mode ≡ true → asks_first mode ≡ true
asks_first_of report_only h = refl
asks_first_of _ h = cc

-- Under `report_only` every order waits for the user: it is only reported, it asks for
-- confirmation, nothing is executed or resolved by the agent, and the owner has a report.
pub report_only_waits :
    (order : WorkOrder) (given : GivenPolicy)
    → given.mode ≡ some report_only
    → let routed = apply_routing_policy order given in
      (routed.delivery_policy ≡ report_only_wait_for_user)
      × (routed.execution_policy.requires_user_confirmation ≡ true)
      × (routed.execution_policy.auto_execute_allowed ≡ false)
      × (routed.execution_policy.agent_may_self_resolve ≡ false)
      × (routed.execution_policy.owner_report_required ≡ true)
      × (routed.execution_policy.default_next_step ≡ report_only_wait)
unfolding apply_routing_policy
report_only_waits order given h =
    let mode : (normalize_routing_policy given).mode ≡ report_only = report_only_mode given h in
    let idle : auto_candidate order (normalize_routing_policy given) ≡ false =
      asks_first-no_auto given order (rw mode) in
    (
      ground (arith, mode, idle),
      ground (arith, mode, idle),
      idle,
      idle,
      ground (arith, mode, idle),
      ground (arith, mode, idle),
    )

-- The report is due exactly where the order is not executed automatically.
auto_or_report_flag :
    (order : WorkOrder) (policy : RoutingPolicy)
    → (asks_first policy.mode ≡ true → auto_candidate order policy ≡ false)
    → order.execution_policy.owner_report_required ≡ true
    → (if is_report_only policy.mode
        then true
        else if auto_candidate order policy
        then false
        else if agent_review_only order policy
        then true
        else order.execution_policy.owner_report_required)
      ≡ not (auto_candidate order policy)
auto_or_report_flag order policy no_auto h = elim (Bool-cases (is_report_only policy.mode)) [
  | inl e ↦ rw (e, no_auto (asks_first_of policy.mode e))
  | inr e ↦ rw (e, h) (ground arith)
]

ask_or_review :
    (waits auto review : Bool) (order : WorkOrder)
    → order.execution_policy.requires_user_confirmation ≡ true
    → (auto ≡ true)
      ⊎ ((if waits
            then true
            else if auto || review
            then false
            else order.execution_policy.requires_user_confirmation)
          ≡ true)
      ⊎ ((if waits
            then report_only_wait_for_user
            else if auto
            then notify_then_execute_within_scope
            else if review
            then deliver_to_agent_for_review
            else report_to_user_before_execution)
          ≡ deliver_to_agent_for_review)
ask_or_review true auto review order k = inr (inl refl)
ask_or_review false true review order k = inl refl
ask_or_review false false true order k = inr (inr refl)
ask_or_review false false false order k = inr (inl k)

-- An order that would ask and report, as every new order does, is either executed automatically,
-- then without a report, or it is reported to the owner; it asks the user too unless the agent
-- reviews it first.
pub auto_or_report :
    (order : WorkOrder) (given : GivenPolicy)
    → order.execution_policy.owner_report_required ≡ true
    → order.execution_policy.requires_user_confirmation ≡ true
    → let routed = apply_routing_policy order given in
      (routed.execution_policy.owner_report_required
        ≡ not routed.execution_policy.auto_execute_allowed)
      × ((routed.execution_policy.auto_execute_allowed ≡ true)
          ⊎ (routed.execution_policy.requires_user_confirmation ≡ true)
          ⊎ (routed.delivery_policy ≡ deliver_to_agent_for_review))
unfolding apply_routing_policy agent_review_only
auto_or_report order given h k =
    let no_auto : asks_first (normalize_routing_policy given).mode ≡ true
        → auto_candidate order (normalize_routing_policy given) ≡ false =
      asks_first-no_auto given order in
    (
      auto_or_report_flag order (normalize_routing_policy given) no_auto h,
      ask_or_review (is_report_only (normalize_routing_policy given).mode)
          (auto_candidate order (normalize_routing_policy given))
          (agent_review_only order (normalize_routing_policy given)) order k,
    )
