-- ===== src/RuntimeThread/Decisions.antt =====
-- What `determineNextStep` of scripts/lib/runtime-thread.mjs decides, as a table of what it reads.
use misa_cybernetic_evolutio.Prelude.{
  ℕ, String, Bool, true, false, not, ◌&&◌, ◌||◌, ◌≡◌, Option, none, some, arith, if◌then◌else◌,
  is_none,
}
use misa_cybernetic_evolutio.RuntimeThread.Types.{
  StepType, Event, Thread, candidate_context_ready, candidate_reducer_ready, local_gate_passed,
  runtime_error_compacted, prepare_context, draft_candidate, pause_for_human, run_local_gate,
  complete, error,
}
use misa_cybernetic_evolutio.RuntimeThread.Log.{
  has_event, latest_decision_event, unresolved_escalation_id, keeps_held,
}
use misa_cybernetic_evolutio.RuntimeThread.Steps.{
  determine_next_step, is_failed, truthy_id, decision_of,
}

-- An error, then a pending escalation, then the last decision, then the local gate, then the
-- context and the reducer.
abbrev pub decide : Bool → Option String → Option Event → Bool → Bool → Bool → StepType
decide true pending latest gate context reducer = error
decide false (some id) latest gate context reducer = pause_for_human
decide false none latest gate context reducer =
    if keeps_held (decision_of latest)
    then StepType.hold
    else if not (is_none latest) && not gate
    then run_local_gate
    else if not context
    then prepare_context
    else if not reducer
    then draft_candidate
    else complete

abbrev pub escalation : Bool → Option String → Option String
escalation true pending = none
escalation false pending = pending

module _ (t : Thread) where
  abbrev pub has_stopped : Bool
  has_stopped = has_event runtime_error_compacted t.event_log || is_failed t.status

  abbrev pub awaited : Option String
  awaited = truthy_id (unresolved_escalation_id t.business_state.pending t.event_log)

  pub determine_next_step-decide :
      (now : String) (offset : ℕ)
      → (determine_next_step t now offset).step_type
        ≡ decide has_stopped awaited
            (latest_decision_event t.event_log)
            (has_event local_gate_passed t.event_log)
            (has_event candidate_context_ready t.event_log)
            (has_event candidate_reducer_ready t.event_log)
  unfolding determine_next_step
  determine_next_step-decide now offset = ground arith

  pub determine_next_step-escalation :
      (now : String) (offset : ℕ)
      → (determine_next_step t now offset).human_escalation_id ≡ escalation has_stopped awaited
  unfolding determine_next_step
  determine_next_step-escalation now offset = ground arith
