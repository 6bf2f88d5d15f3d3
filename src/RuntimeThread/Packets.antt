-- ===== src/RuntimeThread/Packets.antt =====
-- `buildRuntimeThreadFromPackets` of scripts/lib/runtime-thread.mjs: the whole life of a thread.
use misa_cybernetic_evolutio.Prelude.{
  String, Bool, false, Option, none, some, List, [], ◌∷◌, head?, get_or, if◌then◌else◌, or_else,
}
use misa_cybernetic_evolutio.RuntimeThread.Types.{
  candidate_context_ready, candidate_reducer_ready, human_escalation_requested,
  human_decision_recorded, Decision, deterministic_runtime, human_owner, Draft, Thread, NextStep,
  ReducerPolicy, no_refs, no_payload,
}
use misa_cybernetic_evolutio.RuntimeThread.Log.{append_thread_event, create_agent_thread}
use misa_cybernetic_evolutio.RuntimeThread.Steps.{determine_next_step, record_next_step}
use misa_cybernetic_evolutio.RuntimeThread.Gate.{
  CandidateContext, CandidateReducer, candidate_result_refs, record_runtime_local_gate,
  record_runtime_error_signal,
}
use misa_cybernetic_evolutio.RuntimeThread.Replay.{Reach, create, append}

abbrev context_draft : Option CandidateContext → Draft
context_draft context = record {
  event_id = none;
  event_type = candidate_context_ready;
  created_at = none;
  actor = some deterministic_runtime;
  refs = some (record no_refs { source_id = elim context [ none ↦ none | some c ↦ c.source_id ] });
  payload = some no_payload;
}

abbrev logged_policy : Option ReducerPolicy → ReducerPolicy
logged_policy none = record {
  same_input_same_seed_same_output = some false;
  runtime_fetch_allowed = none;
  llm_tool_calls_allowed = none;
  route_or_winner_authority = none;
}
logged_policy (some p) = record p {
  same_input_same_seed_same_output = some (get_or p.same_input_same_seed_same_output false);
}

abbrev reducer_draft : Option CandidateReducer → Draft
reducer_draft reducer = record {
  event_id = none;
  event_type = candidate_reducer_ready;
  created_at = none;
  actor = some deterministic_runtime;
  refs = some no_refs;
  payload = some (record no_payload {
    candidate_count = some (elim reducer [ none ↦ 0 | some r ↦ get_or r.candidate_count 0 ]);
    candidate_result_refs = some (candidate_result_refs reducer);
    reducer_policy =
        some (logged_policy (elim reducer [ none ↦ none | some r ↦ r.reducer_policy ]));
  });
}

-- A human escalation is its id; its texts are for the reader.
abbrev pub escalation_draft : String → Draft
escalation_draft id = record {
  event_id = none;
  event_type = human_escalation_requested;
  created_at = none;
  actor = some deterministic_runtime;
  refs = some (record no_refs { human_escalation_id = some id });
  payload = some no_payload;
}

abbrev pub decision_draft : Option String → Decision → Draft
decision_draft id decision = record {
  event_id = none;
  event_type = human_decision_recorded;
  created_at = none;
  actor = some human_owner;
  refs = some (record no_refs { human_escalation_id = id });
  payload = some (record no_payload { decision = some decision; human_escalation_id = id });
}

unfoldable pub request_all : Thread → List String → String → Thread
request_all thread [] now = thread
request_all thread (id ∷ ids) now =
    request_all (append_thread_event thread (escalation_draft id) now) ids now

-- The decision is recorded for the first escalation.
unfoldable pub decide_first : Thread → List String → Option Decision → String → Thread
decide_first thread ids none now = thread
decide_first thread ids (some decision) now =
    append_thread_event thread (decision_draft (head? ids) decision) now

unfoldable pub gate_if :
    Bool
    → Option CandidateContext
    → Option CandidateReducer
    → String
    → Thread × NextStep
    → Thread × NextStep
gate_if asked context reducer now (thread, next) =
    if asked then record_runtime_local_gate thread context reducer now else (thread, next)

unfoldable pub error_if : Bool → String → Thread × NextStep → Thread × NextStep
error_if asked now (thread, next) =
    if asked then record_runtime_error_signal thread [] now else (thread, next)

-- The thread once the context and the reducer are logged. `source_type` is the constant
-- `candidate_generation_context`.
unfoldable pub prepared_thread :
    String → Option CandidateContext → Option CandidateReducer → String → Thread
prepared_thread id context reducer now =
    let source_id : Option String = elim context [
      | none ↦ none
      | some c ↦ or_else c.source_id c.mode
    ] in
    let created = create_agent_thread id "candidate_generation_context" source_id now in
    append_thread_event (append_thread_event created (context_draft context) now)
      (reducer_draft reducer) now

unfoldable pub build_runtime_thread_from_packets :
    String
    → Option CandidateContext
    → Option CandidateReducer
    → List String
    → Option Decision
    → Bool
    → Bool
    → String
    → Thread × NextStep
unfolding decide_first gate_if error_if
build_runtime_thread_from_packets id context reducer ids decision run_gate runtime_error now =
    let asked = request_all (prepared_thread id context reducer now) ids now in
    let thread = decide_first asked ids decision now in
    let next = determine_next_step thread now 1 in
    error_if runtime_error now
      (gate_if run_gate context reducer now (record_next_step thread next now, next))

pub prepared-Reach :
    (id : String) (context : Option CandidateContext) (reducer : Option CandidateReducer)
    (now : String)
    → Reach (prepared_thread id context reducer now)
unfolding prepared_thread
prepared-Reach id context reducer now = append (append (create _ _ _ now) _ now) _ now
