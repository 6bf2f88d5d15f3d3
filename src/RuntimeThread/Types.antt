-- ===== src/RuntimeThread/Types.antt =====
-- The data of scripts/lib/runtime-thread.mjs: events, the business state, next steps, the thread.
use misa_cybernetic_evolutio.Prelude.{ℕ, String, Bool, Option, none, List, []}

pub data EventType : Type 0 where
  thread_launched candidate_context_ready candidate_reducer_ready : EventType
  human_escalation_requested human_decision_recorded next_step_determined : EventType
  local_gate_passed thread_completed thread_held runtime_error_compacted : EventType

pub data Actor : Type 0 where
  system deterministic_runtime human_owner agent : Actor

-- `unlisted` is any other text that is not empty.
pub data Decision : Type 0 where
  approve reject modify choose_executor release_safe_mode hold : Decision
  unlisted : String → Decision

pub data StepType : Type 0 where
  prepare_context draft_candidate pause_for_human resume_after_human : StepType
  run_local_gate complete hold error : StepType

pub data Status : Type 0 where
  running paused completed held failed : Status

pub data Phase : Type 0 where
  launched context_ready waiting_for_human resumed local_gate completed held failed : Phase

pub record CandidateRef : Type 0 where
  pub candidate_id : String
  pub output_surface : String
  pub execution_allowed : Option Bool
  pub publication_allowed : Option Bool

pub record ReducerPolicy : Type 0 where
  pub same_input_same_seed_same_output : Option Bool
  pub runtime_fetch_allowed : Option Bool
  pub llm_tool_calls_allowed : Option Bool
  pub route_or_winner_authority : Option Bool

-- `given` is an id that the caller chose, `numbered id n` is `${id}-${n padded to 4}`.
pub data EventId : Type 0 where
  given : String → EventId
  numbered : String → ℕ → EventId

-- `next-step-${thread_id}-${event_count padded to 4}`
pub record StepId : Type 0 where
  pub of_thread : String
  pub at_count : ℕ

-- The fields of an event's `refs` and `payload` that the module writes and reads back.
pub record Refs : Type 0 where
  pub source_id : Option String
  pub human_escalation_id : Option String
  pub step_id : Option StepId

pub record Payload : Type 0 where
  pub source_type : Option String
  pub decision : Option Decision
  pub human_escalation_id : Option String
  pub step_type : Option StepType
  pub candidate_count : Option ℕ
  pub candidate_result_refs : Option (List CandidateRef)
  pub reducer_policy : Option ReducerPolicy
  pub failed_checks : List String

-- What a caller of `appendThreadEvent` gives, and what the log holds.
pub record Draft : Type 0 where
  pub event_id : Option EventId
  pub event_type : EventType
  pub created_at : Option String
  pub actor : Option Actor
  pub refs : Option Refs
  pub payload : Option Payload

pub record Event : Type 0 where
  pub event_id : EventId
  pub event_type : EventType
  pub created_at : String
  pub actor : Actor
  pub refs : Refs
  pub payload : Payload

pub record BusinessState : Type 0 where
  pub source_type : String
  pub source_id : Option String
  pub phase : Phase
  pub pending : List String  -- pending_human_escalation_ids
  pub approved_decision_count : ℕ
  pub completed_step_count : ℕ
  pub last_human_decision : Option Decision

pub data InputRef : Type 0 where
  text : String → InputRef
  event : EventId → InputRef

pub record NextStep : Type 0 where
  pub created_at : String
  pub step_id : StepId
  pub step_type : StepType
  pub status : Status  -- thread_ref.status
  pub event_count : ℕ  -- thread_ref.event_count
  pub input_refs : List InputRef
  pub human_escalation_id : Option String
  pub resume_requires_human_event : Bool
  pub accepted_decisions : List Decision
  pub rebuild_context_after_resume : Bool

pub record StepSnapshot : Type 0 where
  pub step_id : StepId
  pub step_type : StepType
  pub human_escalation_id : Option String

-- `safety` is the object's entries in order.
pub record Thread : Type 0 where
  pub thread_id : String
  pub created_at : String
  pub updated_at : String
  pub status : Status
  pub business_state : BusinessState
  pub event_log : List Event
  pub latest_next_step : StepSnapshot
  pub safety : List (String × Bool)

abbrev pub no_refs : Refs
no_refs = record { source_id = none; human_escalation_id = none; step_id = none }

abbrev pub no_payload : Payload
no_payload = record {
  source_type = none;
  decision = none;
  human_escalation_id = none;
  step_type = none;
  candidate_count = none;
  candidate_result_refs = none;
  reducer_policy = none;
  failed_checks = [];
}
