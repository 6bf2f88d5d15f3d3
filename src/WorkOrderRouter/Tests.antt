-- ===== src/WorkOrderRouter/Tests.antt =====
-- Runs of the work order router of scripts/lib/work-order-router.mjs, and its theorems at concrete
-- tickets and reports.
use misa_cybernetic_evolutio.WorkOrderRouter.Ids.{decimal}
use misa_cybernetic_evolutio.WorkOrderRouter.Graver.{InOrder}
use Prim.Native.String.{len}
use mathlib.Core.List.{Perm}
use misa_cybernetic_evolutio.Prelude.{
  ◌+◌, ◌≤◌, String, Bool, true, false, not, ◌≡◌, ◌≢◌, ◌⊎◌, refl, none, some, List, [], ◌∷◌, map,
  leb, All, arith,
}
use misa_cybernetic_evolutio.WorkOrderRouter.Types.{
  p0, p2, must_fix, observe_only, report_only, risk_graded_default, full_agent, RepairTicket,
  QualityReport, tighten, GivenPolicy, deliver_to_agent_for_review, agent_autonomous_low_risk,
  agent_autonomous_within_scope,
}
use misa_cybernetic_evolutio.WorkOrderRouter.Orders.{
  severity_rank, severity_risk, task_gate_for_repair_ticket, work_order_from_repair_ticket,
  work_order_from_operational_quality_report, verdict_from_operator_quality,
}
use misa_cybernetic_evolutio.WorkOrderRouter.Policy.{
  no_policy, mode_defaults, normalize_routing_policy, severity_allowed_for_auto,
  category_allowed_for_auto, mode_allows_autonomous_execution, auto_candidate, apply_routing_policy,
  as_given,
}
use misa_cybernetic_evolutio.WorkOrderRouter.Routing.{
  candidate_orders, build_work_order_routing, human_escalations_from_work_order_routing,
}
use misa_cybernetic_evolutio.WorkOrderRouter.Lanes.{repair_auto_safe, auto_or_report}
use misa_cybernetic_evolutio.WorkOrderRouter.Outcome.{routing_accounts, routing_sorts}
use misa_cybernetic_evolutio.WorkOrderRouter.Handoff.{p0_pauses}
use misa_cybernetic_evolutio.RuntimeThread.{
  build_runtime_thread_from_packets, pause_for_human, paused,
}

-- Ids in the order of their lengths, and a slug that changes nothing.
abbrev shorter : String → String → Bool
shorter a b = leb (len a) (len b)

abbrev as_is : String → String
as_is s = s

abbrev escalation_id : String → String
escalation_id s = "human-escalation"

abbrev small_ticket : RepairTicket
small_ticket = record {
  ticket_id = "fix-1";
  severity = p2;
  status = must_fix;
  reproduction_commands = "npm test" ∷ [];
  acceptance_criteria = "tests pass" ∷ [];
  may_edit = "scripts" ∷ [];
  must_not_edit = "secrets" ∷ [];
}

abbrev grave_ticket : RepairTicket
grave_ticket = record small_ticket { ticket_id = "fix-22"; severity = p0 }

abbrev tickets : List RepairTicket
tickets = small_ticket ∷ grave_ticket ∷ []

abbrev reports : List QualityReport
reports =
    (record {
      report_date = "2026-01-01";
      verdict = some tighten;
      quality_recommendations = none;
      recommendations = none;
    })
    ∷ []

abbrev graded : GivenPolicy
graded = record no_policy { mode = some risk_graded_default; max_auto_severity = some p2 }

abbrev reporting : GivenPolicy
reporting = record no_policy { mode = some report_only; auto_execute_allowed = some true }

shorter-total : (a b : String) → shorter a b ≡ false → shorter b a ≡ true
shorter-total a b h = ground (arith, h)

shorter_trans : (a b c : String) → shorter a b ≡ true → shorter b c ≡ true → shorter a c ≡ true
shorter_trans a b c h k = ground (arith, h, k)

small-auto :
    (apply_routing_policy
      (work_order_from_repair_ticket as_is 0 small_ticket)
      graded).execution_policy.auto_execute_allowed
    ≡ true
unfolding apply_routing_policy auto_candidate normalize_routing_policy mode_defaults
    work_order_from_repair_ticket task_gate_for_repair_ticket severity_risk severity_rank
    severity_allowed_for_auto category_allowed_for_auto mode_allows_autonomous_execution
small-auto = refl

repair_auto_safe_example :
    let order = apply_routing_policy (work_order_from_repair_ticket as_is 0 small_ticket) graded in
    let policy = normalize_routing_policy graded in
    (small_ticket.severity ≢ p0)
    × (small_ticket.status ≢ observe_only)
    × (policy.auto_execute_allowed ≡ true)
    × ((policy.mode ≡ risk_graded_default)
        ⊎ (policy.mode ≡ agent_autonomous_low_risk)
        ⊎ (policy.mode ≡ agent_autonomous_within_scope)
        ⊎ (policy.mode ≡ full_agent))
    × (order.execution_policy.durable_or_public_effect_allowed ≡ false)
    × ((policy.mode ≡ full_agent)
        ⊎ ((severity_rank policy.max_auto_severity ≤ severity_rank small_ticket.severity)
            × (category_allowed_for_auto order.category policy.auto_execute_categories ≡ true)))
repair_auto_safe_example = repair_auto_safe as_is 0 small_ticket graded small-auto

auto_or_report_example :
    let routed = apply_routing_policy (work_order_from_repair_ticket as_is 0 small_ticket) graded in
    (routed.execution_policy.owner_report_required
      ≡ not routed.execution_policy.auto_execute_allowed)
    × ((routed.execution_policy.auto_execute_allowed ≡ true)
        ⊎ (routed.execution_policy.requires_user_confirmation ≡ true)
        ⊎ (routed.delivery_policy ≡ deliver_to_agent_for_review))
unfolding work_order_from_repair_ticket
auto_or_report_example =
    auto_or_report (work_order_from_repair_ticket as_is 0 small_ticket) graded refl refl

routing_accounts_example :
    let routing = build_work_order_routing shorter as_is tickets reports graded in
    (routing.summary.auto_executable_count + routing.summary.owner_report_required_count
      ≡ routing.summary.work_order_count)
    × All (λ o. o.execution_policy.durable_or_public_effect_allowed ≡ false) routing.work_orders
routing_accounts_example = routing_accounts shorter as_is tickets reports graded

routing_sorts_example :
    let routing = build_work_order_routing shorter as_is tickets reports graded in
    InOrder shorter routing.work_orders
    × Perm routing.work_orders (
        map
          (λ o. apply_routing_policy o (as_given (normalize_routing_policy graded)))
          (candidate_orders shorter as_is tickets reports))
routing_sorts_example =
    routing_sorts shorter as_is tickets reports graded shorter-total shorter_trans

p0_pauses_example :
    let built =
      build_runtime_thread_from_packets "t" none none
        (human_escalations_from_work_order_routing escalation_id
          (build_work_order_routing shorter as_is tickets reports graded).work_orders)
        none
        false
        false
        "now" in
    (built.1.step_type ≡ pause_for_human) × (built.0.status ≡ paused)
p0_pauses_example =
    p0_pauses shorter as_is escalation_id tickets reports graded "t" none none "now" (λ s. refl)
      refl

-- A ticket without an id is named by its index, the first one by the default.
order_ids :
    map
      (λ o. o.work_order_id)
      (candidate_orders shorter as_is
        (record small_ticket { ticket_id = "" }
          ∷ record small_ticket { ticket_id = "" }
          ∷ small_ticket
          ∷ [])
        reports)
    ≡ "wo-work-order" ∷ "wo-1" ∷ "wo-fix-1" ∷ "wo-operator-quality-2026-01-01" ∷ []
unfolding candidate_orders work_order_from_repair_ticket work_order_from_operational_quality_report
    verdict_from_operator_quality
order_ids = refl

hundred_twenty : decimal 120 ≡ "120"
unfolding decimal
hundred_twenty = refl
