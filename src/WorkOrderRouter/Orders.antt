-- ===== src/WorkOrderRouter/Orders.antt =====
-- How scripts/lib/work-order-router.mjs makes work orders of repair tickets and quality reports.
use misa_cybernetic_evolutio.WorkOrderRouter.Ids.{repair_ticket_order_id, quality_report_order_id}
use misa_cybernetic_evolutio.Prelude.{
  ℕ, String, Bool, true, false, not, ◌&&◌, ◌||◌, none, List, [], ◌∷◌, length, ltb, leb,
  if◌then◌else◌, or_else, get_or,
}
use misa_cybernetic_evolutio.WorkOrderRouter.Types.{
  Severity, p0, p1, p2, p3, unlisted, Risk, critical, TicketStatus, observe_only, ExecutorType,
  primary_agent, persona_operator_agent, specialized_engineering_agent, stronger_model, human_owner,
  Cost, Verdict, ask_user_then_delegate, human_owner_review_before_delegate, hold_or_observe,
  report_to_user_before_execution, ask_user_to_choose_executor, explain_and_hold,
  pending_user_choice, RepairTicket, tighten, watch, settled, QualityReport, TaskGate, Escalation,
  WorkOrder,
}

unfoldable pub severity_rank : Severity → ℕ
severity_rank p0 = 0
severity_rank p1 = 1
severity_rank p2 = 2
severity_rank p3 = 3
severity_rank unlisted = 3

-- `SEVERITY_RISK[severity] ?? "low"`
unfoldable pub severity_risk : Severity → Risk
severity_risk p0 = critical
severity_risk p1 = Risk.high
severity_risk p2 = Risk.medium
severity_risk p3 = Risk.low
severity_risk unlisted = Risk.low

abbrev pub is_p0 : Severity → Bool
is_p0 p0 = true
is_p0 _ = false

abbrev pub is_p3 : Severity → Bool
is_p3 p3 = true
is_p3 _ = false

abbrev pub is_observe_only : TicketStatus → Bool
is_observe_only observe_only = true
is_observe_only _ = false

abbrev pub is_hold : Verdict → Bool
is_hold hold_or_observe = true
is_hold _ = false

abbrev pub is_some_list : List String → Bool
is_some_list xs = ltb 0 (length xs)

unfoldable pub task_gate_for_repair_ticket : RepairTicket → TaskGate
task_gate_for_repair_ticket ticket =
    let high_risk = is_p0 ticket.severity in
    let valuable = not (is_observe_only ticket.status) in
    let doable =
      is_some_list ticket.reproduction_commands
      && is_some_list ticket.acceptance_criteria
      && is_some_list ticket.may_edit in
    record {
      complex_enough =
          not (is_p3 ticket.severity)
          || ltb 1 (length ticket.may_edit)
          || ltb 1 (length ticket.reproduction_commands);
      valuable_enough = valuable;
      doable_enough = doable;
      error_discovery_cost = if high_risk then Cost.high else Cost.medium;
      verdict =
          if high_risk
          then human_owner_review_before_delegate
          else if valuable && doable
          then ask_user_then_delegate
          else hold_or_observe;
    }

unfoldable pub executor_for_repair_ticket : RepairTicket → ExecutorType
executor_for_repair_ticket ticket =
    if is_p0 ticket.severity
    then human_owner
    else if is_observe_only ticket.status
    then primary_agent
    else specialized_engineering_agent

unfoldable pub escalation_for_repair_ticket : RepairTicket → Escalation
unfolding severity_rank
escalation_for_repair_ticket ticket = record {
  allowed = not (is_observe_only ticket.status);
  stronger_model_slots =
      if leb (severity_rank ticket.severity) 1
      then stronger_model ∷ specialized_engineering_agent ∷ []
      else stronger_model ∷ [];
}

-- `slug` is the text replacement of `stableSlug`; a repair ticket is given with its index.
module _ (slug : String → String) where
  unfoldable pub work_order_from_repair_ticket : ℕ → RepairTicket → WorkOrder
  unfolding task_gate_for_repair_ticket executor_for_repair_ticket escalation_for_repair_ticket
      severity_risk repair_ticket_order_id
  work_order_from_repair_ticket index ticket =
      let gate = task_gate_for_repair_ticket ticket in
      record {
        work_order_id = repair_ticket_order_id slug ticket.ticket_id index;
        category = "engineering_repair";
        severity = ticket.severity;
        risk_level = severity_risk ticket.severity;
        status = pending_user_choice;
        delivery_policy = report_to_user_before_execution;
        suggested_executor = executor_for_repair_ticket ticket;
        task_gate = gate;
        traceability = record {
          reproduction_commands = ticket.reproduction_commands;
          acceptance_criteria = ticket.acceptance_criteria;
          editable_scope = ticket.may_edit;
          forbidden_scope = ticket.must_not_edit;
          rollback_required = is_p0 ticket.severity;
        };
        execution_policy = record {
          requires_user_confirmation = true;
          auto_execute_allowed = false;
          self_evolution_allowed =
              not (is_observe_only ticket.status) && not (is_p0 ticket.severity);
          agent_self_review_allowed = not (is_observe_only ticket.status);
          agent_may_self_resolve = false;
          owner_report_required = true;
          durable_or_public_effect_allowed = false;
          captures_experience = not (is_observe_only ticket.status);
          default_next_step =
              if is_hold gate.verdict then explain_and_hold else ask_user_to_choose_executor;
        };
        escalation = escalation_for_repair_ticket ticket;
        model_handoff = none;
      }

  -- The severity and the risk of `verdictFromOperatorQuality`; no verdict counts as `watch`.
  unfoldable pub verdict_from_operator_quality : QualityReport → Severity × Risk
  verdict_from_operator_quality report = elim (get_or report.verdict watch) [
    | tighten ↦ (p1, Risk.high)
    | watch ↦ (p2, Risk.medium)
    | settled ↦ (p3, Risk.low)
  ]

  abbrev pub is_high : Risk → Bool
  is_high Risk.high = true
  is_high _ = false

  unfoldable pub work_order_from_operational_quality_report : QualityReport → WorkOrder
  unfolding verdict_from_operator_quality quality_report_order_id
  work_order_from_operational_quality_report report =
      let (severity, risk) = verdict_from_operator_quality report in
      let recommendations =
        get_or (or_else report.quality_recommendations report.recommendations) [] in
      record {
        work_order_id = quality_report_order_id slug report.report_date;
        category = "operator_quality";
        severity = severity;
        risk_level = risk;
        status = pending_user_choice;
        delivery_policy = report_to_user_before_execution;
        suggested_executor = persona_operator_agent;
        task_gate = record {
          complex_enough = not (is_p3 severity);
          valuable_enough = not (is_p3 severity);
          doable_enough = is_some_list recommendations;
          error_discovery_cost = if is_high risk then Cost.medium else Cost.low;
          verdict = if is_p3 severity then hold_or_observe else ask_user_then_delegate;
        };
        traceability = record {
          reproduction_commands = [];
          acceptance_criteria =
              "the agent reports the work order to the user before execution"
              ∷ "the persona/operator agent proposes changes before durable mutation"
              ∷ "high-risk public or memory effects require owner approval" ∷ [];
          editable_scope =
              "operator prompt or policy candidates" ∷ "content strategy candidates" ∷ [];
          forbidden_scope =
              "live publisher" ∷ "credentials" ∷ "private memory" ∷ "production services" ∷ [];
          rollback_required = false;
        };
        execution_policy = record {
          requires_user_confirmation = true;
          auto_execute_allowed = false;
          self_evolution_allowed = true;
          agent_self_review_allowed = true;
          agent_may_self_resolve = false;
          owner_report_required = true;
          durable_or_public_effect_allowed = false;
          captures_experience = true;
          default_next_step =
              if is_p3 severity then explain_and_hold else ask_user_to_choose_executor;
        };
        escalation = record { allowed = true; stronger_model_slots = stronger_model ∷ [] };
        model_handoff = none;
      }
