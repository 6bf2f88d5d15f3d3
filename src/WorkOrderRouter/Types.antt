-- ===== src/WorkOrderRouter/Types.antt =====
-- The data of scripts/lib/work-order-router.mjs: repair tickets, quality reports, routing
-- policies and work orders. Titles, summaries, reasons and prompts are texts for a reader and
-- are left out.
use misa_cybernetic_evolutio.Prelude.{String, Bool, Option, List}

-- `unlisted` is any text outside P0 to P3.
pub data Severity : Type 0 where
  p0 p1 p2 p3 unlisted : Severity

pub data Risk : Type 0 where
  critical high medium low : Risk

pub data TicketStatus : Type 0 where
  must_fix repair_candidate observe_only : TicketStatus

-- `unlisted` is any text without an entry in `ROUTING_POLICY_MODE_DEFAULTS`.
pub data Mode : Type 0 where
  report_only ask_before_execution risk_graded_default agent_autonomous_low_risk : Mode
  agent_autonomous_within_scope full_agent unlisted : Mode

pub data ExecutorType : Type 0 where
  primary_agent persona_operator_agent specialized_engineering_agent stronger_model human_owner :
      ExecutorType

pub data Cost : Type 0 where
  low medium high : Cost

pub data Verdict : Type 0 where
  ask_user_then_delegate human_owner_review_before_delegate hold_or_observe : Verdict

pub data DeliveryPolicy : Type 0 where
  report_to_user_before_execution report_only_wait_for_user : DeliveryPolicy
  notify_then_execute_within_scope deliver_to_agent_for_review : DeliveryPolicy

pub data NextStep : Type 0 where
  ask_user_to_choose_executor explain_and_hold execute_within_scope report_only_wait : NextStep
  agent_self_review_then_report_owner agent_review_then_hold : NextStep

pub data OrderStatus : Type 0 where
  pending_user_choice pending_agent_review agent_ready_to_execute : OrderStatus

pub record RepairTicket : Type 0 where
  pub ticket_id : String  -- empty where it is missing
  pub severity : Severity
  pub status : TicketStatus
  pub reproduction_commands : List String
  pub acceptance_criteria : List String
  pub may_edit : List String  -- codex_scope.may_edit
  pub must_not_edit : List String  -- codex_scope.must_not_edit

pub data QualityVerdict : Type 0 where
  tighten watch settled : QualityVerdict

-- `report_date` is the report's date, or the day of `now` where it has none.
pub record QualityReport : Type 0 where
  pub report_date : String
  pub verdict : Option QualityVerdict  -- operator_quality.verdict
  pub quality_recommendations : Option (List String)  -- operator_quality.recommendations
  pub recommendations : Option (List String)

-- What a caller gives, each key present or not.
pub record GivenPolicy : Type 0 where
  pub mode : Option Mode
  pub auto_execute_allowed : Option Bool
  pub max_auto_severity : Option Severity
  pub auto_execute_categories : Option (List String)
  pub primary_agent_report_first : Option Bool

pub record RoutingPolicy : Type 0 where
  pub mode : Mode
  pub auto_execute_allowed : Bool
  pub max_auto_severity : Severity
  pub auto_execute_categories : List String
  pub primary_agent_report_first : Bool

pub record TaskGate : Type 0 where
  pub complex_enough : Bool
  pub valuable_enough : Bool
  pub doable_enough : Bool
  pub error_discovery_cost : Cost
  pub verdict : Verdict

pub record Traceability : Type 0 where
  pub reproduction_commands : List String
  pub acceptance_criteria : List String
  pub editable_scope : List String
  pub forbidden_scope : List String
  pub rollback_required : Bool

pub record ExecutionPolicy : Type 0 where
  pub requires_user_confirmation : Bool
  pub auto_execute_allowed : Bool
  pub self_evolution_allowed : Bool
  pub agent_self_review_allowed : Bool
  pub agent_may_self_resolve : Bool
  pub owner_report_required : Bool
  pub durable_or_public_effect_allowed : Bool
  pub captures_experience : Bool  -- experience_capture_mode is candidate_log_only, not none
  pub default_next_step : NextStep

pub record Escalation : Type 0 where
  pub allowed : Bool
  pub stronger_model_slots : List ExecutorType

pub record ModelHandoff : Type 0 where
  pub fits_first_pass : Bool  -- current_model_fit is suitable_for_first_pass
  pub stronger_model_recommended : Bool
  pub stronger_model_slots : List ExecutorType

-- `model_handoff` is added by the routing policy.
pub record WorkOrder : Type 0 where
  pub work_order_id : String
  pub category : String
  pub severity : Severity
  pub risk_level : Risk
  pub status : OrderStatus
  pub delivery_policy : DeliveryPolicy
  pub suggested_executor : ExecutorType
  pub task_gate : TaskGate
  pub traceability : Traceability
  pub execution_policy : ExecutionPolicy
  pub escalation : Escalation
  pub model_handoff : Option ModelHandoff
