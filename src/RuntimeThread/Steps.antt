-- ===== src/RuntimeThread/Steps.antt =====
-- The next-step reducer of scripts/lib/runtime-thread.mjs, the recording of a step, and replay.
use misa_cybernetic_evolutio.Prelude.{
  ℕ, ◌+◌, String, Bool, true, false, not, ◌&&◌, ◌||◌, Option, none, some, List, [], ◌∷◌, get_last?,
  length, if◌then◌else◌, truthy, is_none,
}
use misa_cybernetic_evolutio.RuntimeThread.Types.{
  candidate_context_ready, candidate_reducer_ready, next_step_determined, local_gate_passed,
  runtime_error_compacted, deterministic_runtime, Decision, approve, reject, choose_executor,
  release_safe_mode, modify, StepType, prepare_context, draft_candidate, pause_for_human,
  resume_after_human, run_local_gate, complete, error, Status, running, paused, Phase, launched,
  context_ready, waiting_for_human, resumed, EventId, given, numbered, Event, InputRef, NextStep,
  StepSnapshot, Thread, no_refs, no_payload, Draft,
}
use misa_cybernetic_evolutio.RuntimeThread.Log.{
  has_event, latest_decision_event, unresolved_escalation_id, keeps_held,
  business_state_from_events, append_thread_event,
}

unfoldable pub status_for_step : StepType → Status
status_for_step pause_for_human = paused
status_for_step complete = Status.completed
status_for_step StepType.hold = Status.held
status_for_step error = Status.failed
status_for_step _ = running

unfoldable pub phase_for_step : StepType → Phase
phase_for_step prepare_context = launched
phase_for_step draft_candidate = context_ready
phase_for_step pause_for_human = waiting_for_human
phase_for_step resume_after_human = resumed
phase_for_step run_local_gate = Phase.local_gate
phase_for_step complete = Phase.completed
phase_for_step StepType.hold = Phase.held
phase_for_step error = Phase.failed

abbrev pub accepted_human_decisions : List Decision
accepted_human_decisions =
    approve ∷ reject ∷ modify ∷ choose_executor ∷ release_safe_mode ∷ Decision.hold ∷ []

abbrev pub is_pause : StepType → Bool
is_pause pause_for_human = true
is_pause _ = false

abbrev pub is_local_gate : StepType → Bool
is_local_gate run_local_gate = true
is_local_gate _ = false

unfoldable pub build_step :
    Thread → StepType → List InputRef → Option String → String → ℕ → NextStep
unfolding status_for_step
build_step thread step_type input_refs escalation now offset =
    let event_count = length thread.event_log + offset in
    record {
      created_at = now;
      step_id = record { of_thread = thread.thread_id; at_count = event_count };
      step_type = step_type;
      status = status_for_step step_type;
      event_count = event_count;
      input_refs = input_refs;
      human_escalation_id = escalation;
      resume_requires_human_event = is_pause step_type;
      accepted_decisions = if is_pause step_type then accepted_human_decisions else [];
      rebuild_context_after_resume = is_pause step_type || is_local_gate step_type;
    }

abbrev pub is_failed : Status → Bool
is_failed Status.failed = true
is_failed _ = false

-- `if (unresolved)`: an empty text counts as none.
abbrev pub truthy_id : Option String → Option String
truthy_id none = none
truthy_id (some id) = if truthy id then some id else none

-- `[event_id].filter(Boolean)`
abbrev pub listed_id : EventId → List InputRef
listed_id (given s) = if truthy s then InputRef.event (given s) ∷ [] else []
listed_id (numbered s n) = InputRef.event (numbered s n) ∷ []

abbrev pub decision_of : Option Event → Option Decision
decision_of none = none
decision_of (some e) = e.payload.decision

abbrev pub decision_refs : Option Event → List InputRef
decision_refs none = []
decision_refs (some e) = listed_id e.event_id

-- `[latestDecision.event_id]`, reached only where there is one
abbrev pub decision_ref : Option Event → List InputRef
decision_ref none = []
decision_ref (some e) = InputRef.event e.event_id ∷ []

-- The cases of `determineNextStep` after the pending escalations.
unfoldable pub settled_step : Thread → String → ℕ → NextStep
unfolding build_step has_event latest_decision_event
settled_step thread now offset =
    let log = thread.event_log in
    let latest = latest_decision_event log in
    if keeps_held (decision_of latest)
    then build_step thread StepType.hold (decision_refs latest) none now offset
    else if not (is_none latest) && not (has_event local_gate_passed log)
    then build_step thread run_local_gate (decision_ref latest) none now offset
    else if not (has_event candidate_context_ready log)
    then build_step thread prepare_context [] none now offset
    else if not (has_event candidate_reducer_ready log)
    then build_step thread draft_candidate
        (InputRef.text "misa.candidate_generation_context.v1" ∷ []) none now offset
    else build_step thread complete (InputRef.text "misa.factor_candidate_reducer.v1" ∷ []) none now
        offset

unfoldable pub determine_next_step : Thread → String → ℕ → NextStep
unfolding settled_step unresolved_escalation_id
determine_next_step thread now offset =
    let log = thread.event_log in
    if has_event runtime_error_compacted log || is_failed thread.status
    then build_step thread error (InputRef.text "runtime_error_compacted" ∷ []) none now offset
    else elim (truthy_id (unresolved_escalation_id thread.business_state.pending log)) [
      | some id ↦ build_step thread pause_for_human (InputRef.text id ∷ []) (some id) now offset
      | none ↦ settled_step thread now offset
    ]

unfoldable pub next_step_snapshot : NextStep → StepSnapshot
next_step_snapshot step = record {
  step_id = step.step_id;
  step_type = step.step_type;
  human_escalation_id = step.human_escalation_id;
}

abbrev pub step_draft : NextStep → Draft
step_draft step = record {
  event_id = none;
  event_type = next_step_determined;
  created_at = none;
  actor = some deterministic_runtime;
  refs = some (record no_refs { step_id = some step.step_id });
  payload = some (record no_payload {
    step_type = some step.step_type;
    human_escalation_id = step.human_escalation_id;
  });
}

unfoldable pub record_next_step : Thread → NextStep → String → Thread
unfolding append_thread_event next_step_snapshot
record_next_step thread step now =
    let with_event = append_thread_event thread (step_draft step) now in
    record with_event {
      status = status_for_step step.step_type;
      business_state = record with_event.business_state { phase = phase_for_step step.step_type };
      latest_next_step = next_step_snapshot step;
    }

-- The thread from which `replayRuntimeThread` determines the next step.
unfoldable pub replayed_base : Thread → Thread
unfolding business_state_from_events
replayed_base thread = record thread {
  status = running;
  business_state = business_state_from_events thread;
}

unfoldable pub replay_runtime_thread : Thread → String → Thread × NextStep
unfolding next_step_snapshot
replay_runtime_thread thread now =
    let base = replayed_base thread in
    let step = determine_next_step base now 0 in
    (
      record base {
        status = status_for_step step.step_type;
        updated_at = elim (get_last? base.event_log) [
          | none ↦ base.updated_at
          | some e ↦ e.created_at
        ];
        business_state = record base.business_state { phase = phase_for_step step.step_type };
        latest_next_step = next_step_snapshot step;
      },
      step,
    )
