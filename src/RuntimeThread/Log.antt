-- ===== src/RuntimeThread/Log.antt =====
-- The event log of scripts/lib/runtime-thread.mjs: searches, the business state, appending.
use misa_cybernetic_evolutio.Prelude.{
  ℕ, ◌+◌, String, Bool, true, false, not, ◌&&◌, Option, none, some, List, [], ◌∷◌, ◌++◌, any,
  filter, find?, find_last?, length, ◌==◌, str_eq, if◌then◌else◌, or_else, get_or, truthy, includes,
}
use misa_cybernetic_evolutio.RuntimeThread.Types.{
  EventType, thread_launched, candidate_context_ready, candidate_reducer_ready,
  human_escalation_requested, human_decision_recorded, next_step_determined, local_gate_passed,
  thread_completed, thread_held, runtime_error_compacted, system, deterministic_runtime, Decision,
  approve, reject, choose_executor, release_safe_mode, prepare_context, running, Phase, launched,
  context_ready, waiting_for_human, resumed, numbered, Refs, Payload, Draft, Event, BusinessState,
  Thread, no_refs, no_payload,
}

-- Event types are compared by their place in the list of them.
abbrev pub rank : EventType → ℕ
rank thread_launched = 0
rank candidate_context_ready = 1
rank candidate_reducer_ready = 2
rank human_escalation_requested = 3
rank human_decision_recorded = 4
rank next_step_determined = 5
rank local_gate_passed = 6
rank thread_completed = 7
rank thread_held = 8
rank runtime_error_compacted = 9

abbrev pub is_type : EventType → Event → Bool
is_type wanted e = rank e.event_type == rank wanted

unfoldable pub has_event : EventType → List Event → Bool
has_event wanted log = any (is_type wanted) log

unfoldable pub latest_decision_event : List Event → Option Event
latest_decision_event log = find_last? (is_type human_decision_recorded) log

-- `.map(payload?.human_escalation_id).filter(Boolean)` over the decision events
unfoldable pub decided_escalation_ids : List Event → List String
decided_escalation_ids [] = []
decided_escalation_ids (e ∷ log) =
    let rest = decided_escalation_ids log in
    if is_type human_decision_recorded e
    then elim e.payload.human_escalation_id [
      | none ↦ rest
      | some id ↦ if truthy id then id ∷ rest else rest
    ]
    else rest

unfoldable pub unresolved_escalation_id : List String → List Event → Option String
unresolved_escalation_id pending log =
    find? (λ id. not (includes (decided_escalation_ids log) id)) pending

-- Effects of one event on the business state, shared by the live update and by replay.
abbrev pub counts_as_approval : Option Decision → Bool
counts_as_approval (some approve) = true
counts_as_approval (some choose_executor) = true
counts_as_approval (some release_safe_mode) = true
counts_as_approval _ = false

abbrev pub keeps_held : Option Decision → Bool
keeps_held (some Decision.hold) = true
keeps_held (some reject) = true
keeps_held _ = false

abbrev pub add_pending : Option String → List String → List String
add_pending none ids = ids
add_pending (some id) ids = if truthy id && not (includes ids id) then ids ++ id ∷ [] else ids

abbrev pub drop_pending : Option String → List String → List String
drop_pending none ids = ids
drop_pending (some id) ids = filter (λ other. not (str_eq other id)) ids

unfoldable pub request_escalation : Refs → Payload → BusinessState → BusinessState
request_escalation refs payload s = record s {
  pending = add_pending (or_else refs.human_escalation_id payload.human_escalation_id) s.pending;
  phase = waiting_for_human;
}

unfoldable pub record_decision : Refs → Payload → BusinessState → BusinessState
record_decision refs payload s = record s {
  last_human_decision = payload.decision;
  approved_decision_count =
      s.approved_decision_count + (if counts_as_approval payload.decision then 1 else 0);
  pending = drop_pending (or_else payload.human_escalation_id refs.human_escalation_id) s.pending;
  phase = if keeps_held payload.decision then Phase.held else resumed;
}

-- `applyBusinessStateEvent`, the replay's reading of an event
unfoldable pub apply_business_state_event :
    EventType → Refs → Payload → BusinessState → BusinessState
unfolding request_escalation record_decision
apply_business_state_event candidate_context_ready refs payload s = record s {
  phase = context_ready;
}
apply_business_state_event human_escalation_requested refs payload s =
    request_escalation refs payload s
apply_business_state_event human_decision_recorded refs payload s = record_decision refs payload s
apply_business_state_event local_gate_passed refs payload s = record s {
  completed_step_count = s.completed_step_count + 1;
  phase = Phase.completed;
}
apply_business_state_event thread_completed refs payload s = record s { phase = Phase.completed }
apply_business_state_event thread_held refs payload s = record s { phase = Phase.held }
apply_business_state_event runtime_error_compacted refs payload s = record s {
  phase = Phase.failed;
}
apply_business_state_event _ refs payload s = s

-- The update inside `appendThreadEvent`: it has no case for `thread_completed` and `thread_held`.
unfoldable pub live_update : EventType → Refs → Payload → BusinessState → BusinessState
unfolding request_escalation record_decision
live_update candidate_context_ready refs payload s = record s { phase = context_ready }
live_update human_escalation_requested refs payload s = request_escalation refs payload s
live_update human_decision_recorded refs payload s = record_decision refs payload s
live_update local_gate_passed refs payload s = record s {
  completed_step_count = s.completed_step_count + 1;
  phase = Phase.completed;
}
live_update runtime_error_compacted refs payload s = record s { phase = Phase.failed }
live_update _ refs payload s = s

unfoldable pub initial_business_state : Thread → BusinessState
initial_business_state thread =
    let launch = find? (is_type thread_launched) thread.event_log in
    record {
      source_type = elim launch [
        | none ↦ thread.business_state.source_type
        | some e ↦ get_or e.payload.source_type thread.business_state.source_type
      ];
      source_id = elim launch [
        | none ↦ thread.business_state.source_id
        | some e ↦ or_else e.refs.source_id thread.business_state.source_id
      ];
      phase = launched;
      pending = [];
      approved_decision_count = 0;
      completed_step_count = 0;
      last_human_decision = none;
    }

unfoldable pub replay_events : List Event → BusinessState → BusinessState
unfolding apply_business_state_event
replay_events [] s = s
replay_events (e ∷ log) s =
    replay_events log (apply_business_state_event e.event_type e.refs e.payload s)

unfoldable pub business_state_from_events : Thread → BusinessState
unfolding replay_events initial_business_state
business_state_from_events thread = replay_events thread.event_log (initial_business_state thread)

-- The object that `appendThreadEvent` pushes.
unfoldable pub full_event : Thread → Draft → String → Event
full_event thread e now = record {
  event_id = get_or e.event_id (numbered thread.thread_id (length thread.event_log + 1));
  event_type = e.event_type;
  created_at = get_or e.created_at now;
  actor = get_or e.actor deterministic_runtime;
  refs = get_or e.refs no_refs;
  payload = get_or e.payload no_payload;
}

unfoldable pub append_thread_event : Thread → Draft → String → Thread
unfolding full_event live_update
append_thread_event thread e now =
    let full = full_event thread e now in
    record thread {
      event_log = thread.event_log ++ full ∷ [];
      updated_at = full.created_at;
      business_state = live_update full.event_type full.refs full.payload thread.business_state;
    }

-- The entries of `SAFETY`.
abbrev pub thread_safety : List (String × Bool)
thread_safety =
    ("production_authority", false)
    ∷ ("executes_work_orders", false)
    ∷ ("writes_persistent_memory", false)
    ∷ ("installs_skills", false)
    ∷ ("calls_model_providers", false)
    ∷ ("calls_external_api", false)
    ∷ ("touches_vps", false)
    ∷ ("starts_services", false)
    ∷ ("changes_route", false)
    ∷ ("changes_winner_authority", false)
    ∷ []

abbrev pub launch_state : String → Option String → BusinessState
launch_state source_type source_id = record {
  source_type = source_type;
  source_id = source_id;
  phase = launched;
  pending = [];
  approved_decision_count = 0;
  completed_step_count = 0;
  last_human_decision = none;
}

-- The object that `createAgentThread` builds before it appends the launch.
abbrev pub launching : String → String → Option String → String → Thread
launching id source_type source_id now = record {
  thread_id = id;
  created_at = now;
  updated_at = now;
  status = running;
  business_state = launch_state source_type source_id;
  event_log = [];
  latest_next_step = record {
    step_id = record { of_thread = id; at_count = 0 };
    step_type = prepare_context;
    human_escalation_id = none;
  };
  safety = thread_safety;
}

abbrev pub launch_draft : String → Option String → Draft
launch_draft source_type source_id = record {
  event_id = none;
  event_type = thread_launched;
  created_at = none;
  actor = some system;
  refs = some (record no_refs { source_id = source_id });
  payload = some (record no_payload { source_type = some source_type });
}

-- `id` is the caller's `threadId`; the default, a slug of the source, is not modelled.
unfoldable pub create_agent_thread : String → String → Option String → String → Thread
unfolding append_thread_event
create_agent_thread id source_type source_id now =
    append_thread_event (launching id source_type source_id now)
      (launch_draft source_type source_id) now
