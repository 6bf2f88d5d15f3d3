-- ===== src/RuntimeThread/Gate.antt =====
-- The local gate, the error signal and the packets of scripts/lib/runtime-thread.mjs.
use misa_cybernetic_evolutio.Prelude.{
  ℕ, String, Bool, not, ◌&&◌, ◌==◌, Option, none, some, List, [], ◌∷◌, all, filter, map, find_last?,
  length, if◌then◌else◌, or_else, get_or, str_eq, is_true, is_false, is_none,
}
use misa_cybernetic_evolutio.RuntimeThread.Types.{
  candidate_context_ready, candidate_reducer_ready, human_decision_recorded, local_gate_passed,
  runtime_error_compacted, deterministic_runtime, StepType, Status, CandidateRef, ReducerPolicy,
  Event, NextStep, Thread, Draft, no_refs, no_payload,
}
use misa_cybernetic_evolutio.RuntimeThread.Log.{
  has_event, is_type, unresolved_escalation_id, append_thread_event,
}
use misa_cybernetic_evolutio.RuntimeThread.Steps.{
  determine_next_step, replay_runtime_thread, record_next_step, status_for_step, is_local_gate,
  truthy_id,
}

pub record ContextPolicy : Type 0 where
  pub input_locked : Option Bool
  pub runtime_fetch_allowed : Option Bool
  pub llm_tool_calls_allowed : Option Bool
  pub route_authority : Option Bool
  pub winner_authority : Option Bool

-- `source_id` is `source?.source_id`; the rest is as in the packet.
pub record CandidateContext : Type 0 where
  pub source_id : Option String
  pub mode : Option String
  pub work_order_count : ℕ
  pub context_policy : Option ContextPolicy

pub record CandidateReducer : Type 0 where
  pub candidate_results : List CandidateRef
  pub candidate_count : Option ℕ
  pub reducer_policy : Option ReducerPolicy

abbrev no_context_policy : ContextPolicy
no_context_policy = record {
  input_locked = none;
  runtime_fetch_allowed = none;
  llm_tool_calls_allowed = none;
  route_authority = none;
  winner_authority = none;
}

abbrev no_reducer_policy : ReducerPolicy
no_reducer_policy = record {
  same_input_same_seed_same_output = none;
  runtime_fetch_allowed = none;
  llm_tool_calls_allowed = none;
  route_or_winner_authority = none;
}

abbrev pub context_policy_of : Option CandidateContext → ContextPolicy
context_policy_of none = no_context_policy
context_policy_of (some c) = get_or c.context_policy no_context_policy

abbrev pub payload_refs : Option Event → List CandidateRef
payload_refs none = []
payload_refs (some e) = get_or e.payload.candidate_result_refs []

abbrev payload_policy : Option Event → Option ReducerPolicy
payload_policy none = none
payload_policy (some e) = e.payload.reducer_policy

abbrev payload_count : Option Event → Option ℕ
payload_count none = none
payload_count (some e) = e.payload.candidate_count

unfoldable pub candidate_result_refs : Option CandidateReducer → List CandidateRef
candidate_result_refs none = []
candidate_result_refs (some r) = r.candidate_results

abbrev given_policy : Option CandidateReducer → Option ReducerPolicy
given_policy none = none
given_policy (some r) = r.reducer_policy

abbrev given_count : Option CandidateReducer → Option ℕ
given_count none = none
given_count (some r) = r.candidate_count

unfoldable pub reducer_event : List Event → Option Event
reducer_event log = find_last? (is_type candidate_reducer_ready) log

-- `reducerRefs.length ? reducerRefs : eventReducerRefs`
unfoldable pub candidate_refs : Option CandidateReducer → List Event → List CandidateRef
unfolding candidate_result_refs reducer_event
candidate_refs reducer log =
    if length (candidate_result_refs reducer) == 0
    then payload_refs (reducer_event log)
    else candidate_result_refs reducer

unfoldable pub candidate_count : Option CandidateReducer → List Event → ℕ
unfolding reducer_event
candidate_count reducer log =
    get_or (or_else (given_count reducer) (payload_count (reducer_event log))) 0

unfoldable pub reducer_policy_of : Option CandidateReducer → List Event → ReducerPolicy
unfolding reducer_event
reducer_policy_of reducer log =
    get_or (or_else (given_policy reducer) (payload_policy (reducer_event log))) no_reducer_policy

abbrev pub is_draft_only : CandidateRef → Bool
is_draft_only c =
    str_eq c.output_surface "draft_candidate_only"
    && is_false c.execution_allowed
    && is_false c.publication_allowed

-- Statuses and step types are compared by their place in the list of them.
abbrev pub step_rank : StepType → ℕ
step_rank StepType.prepare_context = 0
step_rank StepType.draft_candidate = 1
step_rank StepType.pause_for_human = 2
step_rank StepType.resume_after_human = 3
step_rank StepType.run_local_gate = 4
step_rank StepType.complete = 5
step_rank StepType.hold = 6
step_rank StepType.error = 7

abbrev pub status_rank : Status → ℕ
status_rank Status.running = 0
status_rank Status.paused = 1
status_rank Status.completed = 2
status_rank Status.held = 3
status_rank Status.failed = 4

pub record Checks : Type 0 where
  pub event_log_has_candidate_context : Bool
  pub event_log_has_candidate_reducer : Bool
  pub candidate_layer_connected : Bool
  pub candidate_context_locked : Bool
  pub reducer_deterministic : Bool
  pub reducer_no_runtime_fetch : Bool
  pub reducer_no_llm_tool_calls : Bool
  pub reducer_no_route_or_winner_authority : Bool
  pub candidate_results_draft_only : Bool
  pub resumed_before_local_gate : Bool
  pub replay_matches_current_next_step : Bool
  pub no_live_authority : Bool

-- `Object.entries(checks)`
abbrev pub entries : Checks → List (String × Bool)
entries c =
    ("event_log_has_candidate_context", c.event_log_has_candidate_context)
    ∷ ("event_log_has_candidate_reducer", c.event_log_has_candidate_reducer)
    ∷ ("candidate_layer_connected", c.candidate_layer_connected)
    ∷ ("candidate_context_locked", c.candidate_context_locked)
    ∷ ("reducer_deterministic", c.reducer_deterministic)
    ∷ ("reducer_no_runtime_fetch", c.reducer_no_runtime_fetch)
    ∷ ("reducer_no_llm_tool_calls", c.reducer_no_llm_tool_calls)
    ∷ ("reducer_no_route_or_winner_authority", c.reducer_no_route_or_winner_authority)
    ∷ ("candidate_results_draft_only", c.candidate_results_draft_only)
    ∷ ("resumed_before_local_gate", c.resumed_before_local_gate)
    ∷ ("replay_matches_current_next_step", c.replay_matches_current_next_step)
    ∷ ("no_live_authority", c.no_live_authority)
    ∷ []

abbrev pub passed : String × Bool → Bool
passed (name, value) = value

unfoldable pub gate_checks :
    Thread → Option CandidateContext → Option CandidateReducer → String → Checks
gate_checks thread context reducer now =
    let log = thread.event_log in
    let policy = context_policy_of context in
    let rules = reducer_policy_of reducer log in
    let refs = candidate_refs reducer log in
    let next = determine_next_step thread now 0 in
    let (replayed, replayed_next) = replay_runtime_thread thread now in
    record {
      event_log_has_candidate_context = has_event candidate_context_ready log;
      event_log_has_candidate_reducer = has_event candidate_reducer_ready log;
      candidate_layer_connected =
          not (is_none (reducer_event log)) && length refs == candidate_count reducer log;
      candidate_context_locked =
          is_true policy.input_locked
          && is_false policy.runtime_fetch_allowed
          && is_false policy.llm_tool_calls_allowed
          && is_false policy.route_authority
          && is_false policy.winner_authority;
      reducer_deterministic = is_true rules.same_input_same_seed_same_output;
      reducer_no_runtime_fetch = is_false rules.runtime_fetch_allowed;
      reducer_no_llm_tool_calls = is_false rules.llm_tool_calls_allowed;
      reducer_no_route_or_winner_authority = is_false rules.route_or_winner_authority;
      candidate_results_draft_only = all is_draft_only refs;
      resumed_before_local_gate =
          has_event human_decision_recorded log
          && is_none (truthy_id (unresolved_escalation_id thread.business_state.pending log))
          && is_local_gate next.step_type;
      replay_matches_current_next_step =
          step_rank replayed_next.step_type == step_rank next.step_type
          && status_rank replayed.status == status_rank (status_for_step next.step_type);
      no_live_authority = all (λ entry. not (passed entry)) thread.safety;
    }

unfoldable pub gate_ok : Checks → Bool
gate_ok checks = all passed (entries checks)

abbrev pub error_draft : List String → Draft
error_draft failed_checks = record {
  event_id = none;
  event_type = runtime_error_compacted;
  created_at = none;
  actor = some deterministic_runtime;
  refs = some no_refs;
  payload = some (record no_payload { failed_checks = failed_checks });
}

-- `recordRuntimeErrorSignal`; the error's texts and extra fields are left out but for the checks
-- that failed. The result is the thread and its next step.
unfoldable pub record_runtime_error_signal : Thread → List String → String → Thread × NextStep
record_runtime_error_signal thread failed_checks now =
    let with_error = append_thread_event thread (error_draft failed_checks) now in
    let step = determine_next_step with_error now 1 in (record_next_step with_error step now, step)

abbrev name_of : String × Bool → String
name_of (name, value) = name

abbrev pub gate_draft : Draft
gate_draft = record {
  event_id = none;
  event_type = local_gate_passed;
  created_at = none;
  actor = some deterministic_runtime;
  refs = some no_refs;
  payload = some no_payload;
}

unfoldable pub record_runtime_local_gate :
    Thread → Option CandidateContext → Option CandidateReducer → String → Thread × NextStep
record_runtime_local_gate thread context reducer now =
    let checks = gate_checks thread context reducer now in
    if gate_ok checks
    then (let with_gate = append_thread_event thread gate_draft now in
        let step = determine_next_step with_gate now 1 in
        (record_next_step with_gate step now, step))
    else record_runtime_error_signal thread
        (map name_of (filter (λ entry. not (passed entry)) (entries checks))) now
