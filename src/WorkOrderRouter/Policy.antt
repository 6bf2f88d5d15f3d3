-- ===== src/WorkOrderRouter/Policy.antt =====
-- The routing policy of scripts/lib/work-order-router.mjs: its defaults, and what it does to an order.
use misa_cybernetic_evolutio.Prelude.{
  String, Bool, true, false, not, ◌&&◌, ◌||◌, none, some, List, [], ◌∷◌, length, leb, if◌then◌else◌,
  or_else, get_or, includes,
}
use misa_cybernetic_evolutio.WorkOrderRouter.Types.{
  Severity, p3, Risk, Mode, report_only, ask_before_execution, risk_graded_default,
  agent_autonomous_low_risk, agent_autonomous_within_scope, full_agent, Cost, GivenPolicy,
  RoutingPolicy, WorkOrder, ModelHandoff, report_only_wait_for_user,
  notify_then_execute_within_scope, deliver_to_agent_for_review, report_to_user_before_execution,
  execute_within_scope, report_only_wait, agent_self_review_then_report_owner,
  agent_review_then_hold, pending_agent_review, agent_ready_to_execute,
}
use misa_cybernetic_evolutio.WorkOrderRouter.Orders.{severity_rank, is_hold}

abbrev pub no_policy : GivenPolicy
no_policy = record {
  mode = none;
  auto_execute_allowed = none;
  max_auto_severity = none;
  auto_execute_categories = none;
  primary_agent_report_first = none;
}

-- `ROUTING_POLICY_MODE_DEFAULTS[mode] ?? {}`
unfoldable pub mode_defaults : Mode → GivenPolicy
mode_defaults report_only = record no_policy {
  auto_execute_allowed = some false;
  auto_execute_categories = some [];
  primary_agent_report_first = some true;
}
mode_defaults ask_before_execution = record no_policy {
  auto_execute_allowed = some false;
  auto_execute_categories = some [];
  primary_agent_report_first = some true;
}
mode_defaults risk_graded_default = record no_policy {
  auto_execute_allowed = some true;
  auto_execute_categories = some ("*" ∷ []);
  primary_agent_report_first = some false;
}
mode_defaults agent_autonomous_low_risk = record no_policy {
  auto_execute_allowed = some false;
  auto_execute_categories = some [];
  primary_agent_report_first = some false;
}
mode_defaults agent_autonomous_within_scope = record no_policy {
  auto_execute_allowed = some false;
  auto_execute_categories = some [];
  primary_agent_report_first = some false;
}
mode_defaults full_agent = record no_policy {
  auto_execute_allowed = some false;
  auto_execute_categories = some ("*" ∷ []);
  primary_agent_report_first = some false;
}
mode_defaults Mode.unlisted = no_policy

abbrev pub asks_first : Mode → Bool
asks_first report_only = true
asks_first ask_before_execution = true
asks_first _ = false

-- The later of the spread objects wins: the caller's key, the mode's, the default's.
unfoldable pub normalize_routing_policy : GivenPolicy → RoutingPolicy
unfolding mode_defaults
normalize_routing_policy given =
    let mode = get_or given.mode risk_graded_default in
    let of_mode = mode_defaults mode in
    let policy : RoutingPolicy = record {
      mode = mode;
      auto_execute_allowed =
          get_or (or_else given.auto_execute_allowed of_mode.auto_execute_allowed) true;
      max_auto_severity = get_or (or_else given.max_auto_severity of_mode.max_auto_severity) p3;
      auto_execute_categories =
          get_or (or_else given.auto_execute_categories of_mode.auto_execute_categories) ("*" ∷ []);
      primary_agent_report_first =
          get_or (or_else given.primary_agent_report_first of_mode.primary_agent_report_first)
            false;
    } in
    if asks_first mode
    then record policy {
      auto_execute_allowed = false;
      auto_execute_categories = [];
      primary_agent_report_first = true;
    }
    else policy

-- A policy as the caller of the second normalisation gives it: every key is present.
abbrev pub as_given : RoutingPolicy → GivenPolicy
as_given p = record {
  mode = some p.mode;
  auto_execute_allowed = some p.auto_execute_allowed;
  max_auto_severity = some p.max_auto_severity;
  auto_execute_categories = some p.auto_execute_categories;
  primary_agent_report_first = some p.primary_agent_report_first;
}

unfoldable pub severity_allowed_for_auto : Severity → Severity → Bool
unfolding severity_rank
severity_allowed_for_auto severity most = leb (severity_rank most) (severity_rank severity)

unfoldable pub category_allowed_for_auto : String → List String → Bool
category_allowed_for_auto category categories =
    includes categories "*" || includes categories category

unfoldable pub mode_allows_autonomous_execution : Mode → Bool
mode_allows_autonomous_execution risk_graded_default = true
mode_allows_autonomous_execution agent_autonomous_low_risk = true
mode_allows_autonomous_execution agent_autonomous_within_scope = true
mode_allows_autonomous_execution full_agent = true
mode_allows_autonomous_execution _ = false

unfoldable pub mode_prefers_agent_review_first : Mode → Bool
mode_prefers_agent_review_first risk_graded_default = true
mode_prefers_agent_review_first agent_autonomous_low_risk = true
mode_prefers_agent_review_first agent_autonomous_within_scope = true
mode_prefers_agent_review_first full_agent = true
mode_prefers_agent_review_first _ = false

abbrev pub is_full_agent : Mode → Bool
is_full_agent full_agent = true
is_full_agent _ = false

abbrev pub is_report_only : Mode → Bool
is_report_only report_only = true
is_report_only _ = false

abbrev pub is_high_risk : Risk → Bool
is_high_risk Risk.critical = true
is_high_risk Risk.high = true
is_high_risk _ = false

abbrev pub is_low_cost : Cost → Bool
is_low_cost Cost.low = true
is_low_cost _ = false

-- The policy is read only for the texts.
unfoldable pub model_handoff_for_order : WorkOrder → ModelHandoff
model_handoff_for_order order =
    let high_risk = is_high_risk order.risk_level in
    let broad_edit = leb 4 (length order.traceability.editable_scope) in
    let complex_gate =
      order.task_gate.complex_enough && not (is_low_cost order.task_gate.error_discovery_cost) in
    let recommended = high_risk || broad_edit || complex_gate in
    record {
      fits_first_pass = not recommended;
      stronger_model_recommended = recommended;
      stronger_model_slots = order.escalation.stronger_model_slots;
    }

unfoldable pub auto_candidate : WorkOrder → RoutingPolicy → Bool
unfolding severity_allowed_for_auto category_allowed_for_auto mode_allows_autonomous_execution
auto_candidate order policy =
    policy.auto_execute_allowed
    && mode_allows_autonomous_execution policy.mode
    && order.execution_policy.self_evolution_allowed
    && not order.execution_policy.durable_or_public_effect_allowed
    && (is_full_agent policy.mode
        || (severity_allowed_for_auto order.severity policy.max_auto_severity
            && category_allowed_for_auto order.category policy.auto_execute_categories))

unfoldable pub agent_review_only : WorkOrder → RoutingPolicy → Bool
unfolding auto_candidate mode_prefers_agent_review_first
agent_review_only order policy =
    not (auto_candidate order policy)
    && mode_prefers_agent_review_first policy.mode
    && order.execution_policy.agent_self_review_allowed

unfoldable pub apply_routing_policy : WorkOrder → GivenPolicy → WorkOrder
apply_routing_policy order given =
    let policy = normalize_routing_policy given in
    let auto = auto_candidate order policy in
    let review = agent_review_only order policy in
    let waits = is_report_only policy.mode in
    record order {
      status =
          if auto
          then agent_ready_to_execute
          else if review
          then pending_agent_review
          else order.status;
      delivery_policy =
          if waits
          then report_only_wait_for_user
          else if auto
          then notify_then_execute_within_scope
          else if review
          then deliver_to_agent_for_review
          else report_to_user_before_execution;
      execution_policy = record order.execution_policy {
        requires_user_confirmation =
            if waits
            then true
            else if auto || review
            then false
            else order.execution_policy.requires_user_confirmation;
        auto_execute_allowed = auto;
        agent_may_self_resolve = auto;
        owner_report_required =
            if waits
            then true
            else if auto
            then false
            else if review
            then true
            else order.execution_policy.owner_report_required;
        default_next_step =
            if waits
            then report_only_wait
            else if auto
            then execute_within_scope
            else if review
            then (if is_hold order.task_gate.verdict
                then agent_review_then_hold
                else agent_self_review_then_report_owner)
            else order.execution_policy.default_next_step;
      };
      model_handoff = some (model_handoff_for_order order);
    }
