-- ===== src/WorkOrderRouter/Routing.antt =====
-- `buildWorkOrderRouting` of scripts/lib/work-order-router.mjs, and
-- `humanEscalationsFromWorkOrderRouting` of scripts/lib/human-escalation.mjs.
use misa_cybernetic_evolutio.Prelude.{
  ℕ, String, Bool, true, false, not, ◌&&◌, ◌||◌, Option, none, some, List, [], ◌∷◌, ◌++◌, map,
  length, filter, ltb, ◌==◌, if◌then◌else◌, get_or, sort, suc,
}
use misa_cybernetic_evolutio.WorkOrderRouter.Types.{
  ExecutorType, human_owner, RepairTicket, QualityReport, GivenPolicy, RoutingPolicy, WorkOrder,
  ModelHandoff,
}
use misa_cybernetic_evolutio.WorkOrderRouter.Orders.{
  severity_rank, is_p3, is_some_list, work_order_from_repair_ticket,
  work_order_from_operational_quality_report,
}
use misa_cybernetic_evolutio.WorkOrderRouter.Policy.{
  normalize_routing_policy, as_given, apply_routing_policy, is_high_risk,
  mode_prefers_agent_review_first,
}

pub record Summary : Type 0 where
  pub work_order_count : ℕ
  pub requires_user_confirmation_count : ℕ
  pub auto_executable_count : ℕ
  pub agent_self_review_count : ℕ
  pub owner_report_required_count : ℕ
  pub escalation_available_count : ℕ
  pub stronger_model_recommended_count : ℕ

pub record Safety : Type 0 where
  pub auto_execute_allowed : Bool
  pub durable_or_public_effect_allowed : Bool
  pub primary_agent_must_report_first : Bool
  pub agent_self_review_default : Bool

pub record Routing : Type 0 where
  pub routing_policy : RoutingPolicy
  pub summary : Summary
  pub work_orders : List WorkOrder
  pub safety : Safety

abbrev pub recommends_stronger : Option ModelHandoff → Bool
recommends_stronger none = false
recommends_stronger (some h) = h.stronger_model_recommended

-- The list's members that pass, counted: `orders.filter(p).length`.
unfoldable pub count_if {ℓ} : {A : Type ℓ} → (A → Bool) → List A → ℕ
count_if p xs = length (filter p xs)

-- `locale_le a b` is `a.localeCompare(b) <= 0`, and `slug` the text replacement of `stableSlug`.
module _ (locale_le : String → String → Bool) (slug : String → String) where
  -- The comparator of `sortWorkOrders`, at most 0.
  unfoldable pub before_order : WorkOrder → WorkOrder → Bool
  unfolding severity_rank
  before_order a b =
      ltb (severity_rank a.severity) (severity_rank b.severity)
      || (severity_rank a.severity == severity_rank b.severity
          && locale_le a.work_order_id b.work_order_id)

  unfoldable pub sort_work_orders : List WorkOrder → List WorkOrder
  unfolding before_order
  sort_work_orders orders = sort before_order orders

  -- A quality report of severity P3 makes an order only if it recommends something.
  abbrev pub keeps_report : QualityReport → WorkOrder → Bool
  keeps_report report order =
      not (is_p3 order.severity) || is_some_list (get_or report.quality_recommendations [])

  unfoldable pub report_orders : List QualityReport → List WorkOrder
  report_orders [] = []
  report_orders (report ∷ reports) =
      let rest = report_orders reports in
      let order = work_order_from_operational_quality_report slug report in
      if keeps_report report order then order ∷ rest else rest

  unfoldable pub repair_orders : ℕ → List RepairTicket → List WorkOrder
  repair_orders index [] = []
  repair_orders index (ticket ∷ tickets) =
      work_order_from_repair_ticket slug index ticket ∷ repair_orders (suc index) tickets

  unfoldable pub candidate_orders : List RepairTicket → List QualityReport → List WorkOrder
  unfolding report_orders repair_orders
  candidate_orders tickets reports = repair_orders 0 tickets ++ report_orders reports

  unfoldable pub build_work_order_routing :
      List RepairTicket → List QualityReport → GivenPolicy → Routing
  unfolding sort_work_orders candidate_orders count_if
  build_work_order_routing tickets reports given =
      let policy = normalize_routing_policy given in
      let orders =
        map (λ order. apply_routing_policy order (as_given policy))
          (sort_work_orders (candidate_orders tickets reports)) in
      record {
        routing_policy = policy;
        summary = record {
          work_order_count = length orders;
          requires_user_confirmation_count =
              count_if (λ o. o.execution_policy.requires_user_confirmation) orders;
          auto_executable_count = count_if (λ o. o.execution_policy.auto_execute_allowed) orders;
          agent_self_review_count =
              count_if (λ o. o.execution_policy.agent_self_review_allowed) orders;
          owner_report_required_count =
              count_if (λ o. o.execution_policy.owner_report_required) orders;
          escalation_available_count = count_if (λ o. o.escalation.allowed) orders;
          stronger_model_recommended_count =
              count_if (λ o. recommends_stronger o.model_handoff) orders;
        };
        work_orders = orders;
        safety = record {
          auto_execute_allowed = policy.auto_execute_allowed;
          durable_or_public_effect_allowed = false;
          primary_agent_must_report_first = policy.primary_agent_report_first;
          agent_self_review_default = mode_prefers_agent_review_first policy.mode;
        };
      }

abbrev pub is_human_owner : ExecutorType → Bool
is_human_owner human_owner = true
is_human_owner _ = false

unfoldable pub needs_human : WorkOrder → Bool
needs_human order =
    is_human_owner order.suggested_executor
    || order.execution_policy.requires_user_confirmation
    || is_high_risk order.risk_level
    || recommends_stronger order.model_handoff

-- The ids of the escalations: `human-escalation-${stableSlug(work_order_id)}`.
unfoldable pub human_escalations_from_work_order_routing :
    (String → String) → List WorkOrder → List String
unfolding needs_human
human_escalations_from_work_order_routing escalation_slug orders =
    map (λ order. escalation_slug order.work_order_id) (filter needs_human orders)
