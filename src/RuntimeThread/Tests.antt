-- ===== src/RuntimeThread/Tests.antt =====
-- Runs of the runtime thread of scripts/lib/runtime-thread.mjs, and its theorems at concrete threads.
use misa_cybernetic_evolutio.RuntimeThread.Later.{Later, same, error-absorbs}
use misa_cybernetic_evolutio.RuntimeThread.Escalations.{
  IsDecided, goes_on-IsDecided, request-pauses, request-decided,
}
use misa_cybernetic_evolutio.RuntimeThread.Lifecycle.{replay-build}
use misa_cybernetic_evolutio.RuntimeThread.Checkpoint.{replay-record, replay-live}
use misa_cybernetic_evolutio.RuntimeThread.Passing.{
  IsDraftOnly, record_runtime_local_gate-completes, record_runtime_local_gate-fails,
}
use misa_cybernetic_evolutio.RuntimeThread.Replay.{Reach, append, core}
use misa_cybernetic_evolutio.RuntimeThread.Decisions.{has_stopped, awaited}
use misa_cybernetic_evolutio.Prelude.{
  true, false, ◌≡◌, refl, Option, none, some, [], ◌∷◌, includes, All, is_none,
}
use misa_cybernetic_evolutio.RuntimeThread.Types.{
  CandidateRef, Thread, approve, complete, error, pause_for_human, Status, NextStep, run_local_gate,
  runtime_error_compacted,
}
use misa_cybernetic_evolutio.RuntimeThread.Log.{
  has_event, latest_decision_event, decided_escalation_ids, unresolved_escalation_id,
  business_state_from_events, initial_business_state, replay_events, apply_business_state_event,
  full_event, append_thread_event, live_update, create_agent_thread, request_escalation,
  record_decision, keeps_held,
}
use misa_cybernetic_evolutio.RuntimeThread.Steps.{
  determine_next_step, settled_step, build_step, status_for_step, record_next_step,
  replay_runtime_thread, replayed_base, decision_of,
}
use misa_cybernetic_evolutio.RuntimeThread.Gate.{
  CandidateContext, CandidateReducer, candidate_result_refs, reducer_event, candidate_refs,
  candidate_count, reducer_policy_of, gate_checks, gate_ok, record_runtime_local_gate, error_draft,
}
use misa_cybernetic_evolutio.RuntimeThread.Packets.{
  escalation_draft, decision_draft, prepared_thread, build_runtime_thread_from_packets,
  prepared-Reach,
}

abbrev a_context : Option CandidateContext
a_context = some (record {
  source_id = some "src-1";
  mode = none;
  work_order_count = 1;
  context_policy = some (record {
    input_locked = some true;
    runtime_fetch_allowed = some false;
    llm_tool_calls_allowed = some false;
    route_authority = some false;
    winner_authority = some false;
  });
})

abbrev a_ref : CandidateRef
a_ref = record {
  candidate_id = "c1";
  output_surface = "draft_candidate_only";
  execution_allowed = some false;
  publication_allowed = some false;
}

abbrev a_reducer : Option CandidateReducer
a_reducer = some (record {
  candidate_results = a_ref ∷ [];
  candidate_count = some 1;
  reducer_policy = some (record {
    same_input_same_seed_same_output = some true;
    runtime_fetch_allowed = some false;
    llm_tool_calls_allowed = some false;
    route_or_winner_authority = some false;
  });
})

-- The thread after a request and its approval.
abbrev approved_thread : Thread
approved_thread =
    append_thread_event
      (append_thread_event (prepared_thread "t" a_context a_reducer "n") (escalation_draft "e1")
        "n")
      (decision_draft (some "e1") approve) "n"

approved-passes : gate_ok (gate_checks approved_thread a_context a_reducer "n") ≡ true
unfolding gate_ok gate_checks prepared_thread create_agent_thread append_thread_event full_event
    live_update request_escalation record_decision has_event latest_decision_event
    decided_escalation_ids unresolved_escalation_id determine_next_step settled_step build_step
    status_for_step replay_runtime_thread replayed_base business_state_from_events
    initial_business_state replay_events apply_business_state_event candidate_result_refs
    reducer_event candidate_refs candidate_count reducer_policy_of
approved-passes = refl

-- The same with a live safety entry: the gate does not pass.
abbrev unsafe_thread : Thread
unsafe_thread = record approved_thread { safety = ("touches_vps", true) ∷ [] }

unsafe-blocked : gate_ok (gate_checks unsafe_thread a_context a_reducer "n") ≡ false
unfolding gate_ok gate_checks prepared_thread create_agent_thread append_thread_event full_event
    live_update request_escalation record_decision has_event latest_decision_event
    decided_escalation_ids unresolved_escalation_id determine_next_step settled_step build_step
    status_for_step replay_runtime_thread replayed_base business_state_from_events
    initial_business_state replay_events apply_business_state_event candidate_result_refs
    reducer_event candidate_refs candidate_count reducer_policy_of
unsafe-blocked = refl

approved-Reach : Reach approved_thread
approved-Reach = append (append (prepared-Reach "t" a_context a_reducer "n") _ "n") _ "n"

abbrev built : Thread × NextStep
built =
    build_runtime_thread_from_packets "t" a_context a_reducer ("e1" ∷ []) (some approve) true false
      "n"

replay-build_example :
    ((replay_runtime_thread built.0 "later").0 ≡ built.0)
    × ((replay_runtime_thread built.0 "later").1.step_type ≡ built.1.step_type)
replay-build_example =
    replay-build "t" a_context a_reducer ("e1" ∷ []) (some approve) true false "n" "later"

record_runtime_local_gate-completes_example :
    let result = record_runtime_local_gate approved_thread a_context a_reducer "n" in
    (has_stopped approved_thread ≡ false)
    × (awaited approved_thread ≡ none)
    × (is_none (latest_decision_event approved_thread.event_log) ≡ false)
    × (keeps_held (decision_of (latest_decision_event approved_thread.event_log)) ≡ false)
    × All IsDraftOnly (candidate_refs a_reducer approved_thread.event_log)
    × (result.1.step_type ≡ complete)
    × (result.0.status ≡ Status.completed)
record_runtime_local_gate-completes_example =
    record_runtime_local_gate-completes approved_thread a_context a_reducer "n" approved-passes

record_runtime_local_gate-fails_example :
    let result = record_runtime_local_gate unsafe_thread a_context a_reducer "n" in
    (result.1.step_type ≡ error) × (result.0.status ≡ Status.failed)
record_runtime_local_gate-fails_example =
    record_runtime_local_gate-fails unsafe_thread a_context a_reducer "n" unsafe-blocked

replay-record_example :
    (replay_runtime_thread
      (record_next_step approved_thread (determine_next_step approved_thread "n" 1) "n'")
      "later").0
    ≡ record_next_step approved_thread (determine_next_step approved_thread "n" 1) "n'"
replay-record_example = replay-record approved_thread "n" "n'" "later" approved-Reach

replay-live_example :
    ((replay_runtime_thread approved_thread "later").0.event_log ≡ approved_thread.event_log)
    × (core (replay_runtime_thread approved_thread "later").0.business_state
        ≡ core approved_thread.business_state)
    × ((replay_runtime_thread approved_thread "later").1.step_type
        ≡ (determine_next_step approved_thread "n" 1).step_type)
replay-live_example = replay-live approved_thread "n" "later" 1 approved-Reach

-- A thread with an error in its log, and the same thread after one more request.
abbrev failed_thread : Thread
failed_thread = append_thread_event approved_thread (error_draft ("no_live_authority" ∷ [])) "n"

failed-has_event : has_event runtime_error_compacted failed_thread.event_log ≡ true
unfolding has_event append_thread_event full_event prepared_thread create_agent_thread
failed-has_event = refl

failed-Later : Later failed_thread (append_thread_event failed_thread (escalation_draft "e2") "m")
failed-Later = Later.append same (escalation_draft "e2") "m"

error-absorbs_example :
    (determine_next_step
      (append_thread_event failed_thread (escalation_draft "e2") "m")
      "n"
      1).step_type
    ≡ error
error-absorbs_example =
    error-absorbs failed_thread (append_thread_event failed_thread (escalation_draft "e2") "m") "n"
      1 failed-has_event failed-Later

decided_e1 : includes (decided_escalation_ids approved_thread.event_log) "e1" ≡ true
unfolding decided_escalation_ids append_thread_event full_event prepared_thread create_agent_thread
decided_e1 = refl

undecided_e2 : includes (decided_escalation_ids approved_thread.event_log) "e2" ≡ false
unfolding decided_escalation_ids append_thread_event full_event prepared_thread create_agent_thread
undecided_e2 = refl

approved-live : has_stopped approved_thread ≡ false
unfolding has_event append_thread_event full_event prepared_thread create_agent_thread
approved-live = refl

request-pauses_example :
    (determine_next_step
      (append_thread_event approved_thread (escalation_draft "e2") "n")
      "m"
      1).step_type
    ≡ pause_for_human
request-pauses_example =
    request-pauses approved_thread "e2" "n" "m" 1 approved-Reach refl undecided_e2 approved-live

request-decided_example :
    (determine_next_step
      (append_thread_event approved_thread (escalation_draft "e1") "n")
      "m"
      1).step_type
    ≡ (determine_next_step approved_thread "m" 1).step_type
request-decided_example = request-decided approved_thread "e1" "n" "m" 1 decided_e1

-- The thread in which the decided escalation is pending again.
abbrev again : Thread
again = append_thread_event approved_thread (escalation_draft "e1") "n"

again-step : (determine_next_step again "n" 1).step_type ≡ run_local_gate
unfolding prepared_thread create_agent_thread append_thread_event full_event live_update
    request_escalation record_decision has_event latest_decision_event decided_escalation_ids
    unresolved_escalation_id determine_next_step settled_step build_step
again-step = refl

goes_on-IsDecided_example : All (IsDecided again) again.business_state.pending
goes_on-IsDecided_example =
    goes_on-IsDecided again "n" 1 (append approved-Reach (escalation_draft "e1") "n")
      (λ q. cc (again-step, q)) (λ q. cc (again-step, q))
