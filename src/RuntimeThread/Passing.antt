-- ===== src/RuntimeThread/Passing.antt =====
-- What the local gate of scripts/lib/runtime-thread.mjs lets through, and what follows it.
use misa_cybernetic_evolutio.Prelude.{
  String, Bool, true, false, ◌≡◌, refl, ap, ◌∙◌, sym, Option, none, some, List, [], ◌∷◌, arith, all,
  All, is_none, is_false, and-true, and_three-true, eq_iff,
}
use misa_cybernetic_evolutio.RuntimeThread.Types.{
  Status, Event, Thread, CandidateRef, candidate_context_ready, candidate_reducer_ready,
  local_gate_passed, runtime_error_compacted, human_decision_recorded, complete, error,
}
use misa_cybernetic_evolutio.RuntimeThread.Log.{
  has_event, append_thread_event, full_event, latest_decision_event, keeps_held,
}
use misa_cybernetic_evolutio.RuntimeThread.Steps.{
  determine_next_step, record_next_step, decision_of, status_for_step, is_local_gate,
}
use misa_cybernetic_evolutio.RuntimeThread.Decisions.{
  decide, has_stopped, awaited, determine_next_step-decide,
}
use misa_cybernetic_evolutio.RuntimeThread.Replay.{has_event-append}
use misa_cybernetic_evolutio.RuntimeThread.Checkpoint.{latest-append, awaited-extend}
use misa_cybernetic_evolutio.RuntimeThread.Gate.{
  Checks, CandidateContext, CandidateReducer, gate_checks, gate_ok, gate_draft, error_draft,
  record_runtime_local_gate, record_runtime_error_signal, candidate_refs, is_draft_only,
}

-- The checks that the proofs read, out of the twelve.
record Opened (c : Checks) : Type 0 where
  context : c.event_log_has_candidate_context ≡ true
  reducer : c.event_log_has_candidate_reducer ≡ true
  draft_only : c.candidate_results_draft_only ≡ true
  resumed : c.resumed_before_local_gate ≡ true
  no_live : c.no_live_authority ≡ true

gate_ok-Opened : (c : Checks) → gate_ok c ≡ true → Opened c
unfolding gate_ok
gate_ok-Opened c h = ground arith

abbrev pub IsDraftOnly : CandidateRef → Type 0
IsDraftOnly c =
    (c.output_surface ≡ "draft_candidate_only")
    × (c.execution_allowed ≡ some false)
    × (c.publication_allowed ≡ some false)

is_false-some : (o : Option Bool) → is_false o ≡ true → o ≡ some false
is_false-some none h = cc
is_false-some (some b) h = ground arith

is_draft_only-IsDraftOnly : (c : CandidateRef) → is_draft_only c ≡ true → IsDraftOnly c
is_draft_only-IsDraftOnly c h =
    let (surface, execution, publication) = and_three-true _ _ _ h in
    ((eq_iff _ _).0 surface, is_false-some _ execution, is_false-some _ publication)

all-IsDraftOnly : (cs : List CandidateRef) → all is_draft_only cs ≡ true → All IsDraftOnly cs
all-IsDraftOnly [] h = tt
all-IsDraftOnly (c ∷ cs) h =
    let (here, later) = and-true _ _ h in
    (is_draft_only-IsDraftOnly c here, all-IsDraftOnly cs later)

-- The step `run_local_gate` is decided only on a live thread with no one to wait for.
run_local_gate-settled :
    (stopped : Bool) (pending : Option String) (latest : Option Event) (gate context reducer : Bool)
    → is_local_gate (decide stopped pending latest gate context reducer) ≡ true
    → (stopped ≡ false)
      × (pending ≡ none)
      × (keeps_held (decision_of latest) ≡ false)
      × (is_none latest ≡ false)
      × (gate ≡ false)
run_local_gate-settled true pending latest gate context reducer h = cc
run_local_gate-settled false (some id) latest gate context reducer h = cc
run_local_gate-settled false none latest gate context reducer h = ground arith

module _ (t : Thread) (context : Option CandidateContext) (reducer : Option CandidateReducer)
    (now : String) where
  settled_of_gate :
      gate_ok (gate_checks t context reducer now) ≡ true
      → (has_stopped t ≡ false)
        × (awaited t ≡ none)
        × (keeps_held (decision_of (latest_decision_event t.event_log)) ≡ false)
        × (is_none (latest_decision_event t.event_log) ≡ false)
        × (has_event local_gate_passed t.event_log ≡ false)
  unfolding gate_checks
  settled_of_gate h =
      let o = gate_ok-Opened (gate_checks t context reducer now) h in
      let (decided, free, at_gate) =
        and_three-true (has_event human_decision_recorded t.event_log) (is_none (awaited t))
          (is_local_gate (determine_next_step t now 0).step_type) o.resumed in
      run_local_gate-settled _ _ _ _ _ _
        (ap is_local_gate (sym (determine_next_step-decide t now 0)) ∙ at_gate)

  -- What follows a gate that passes: the record of the gate, and the step after it.
  abbrev gated : Thread
  gated = append_thread_event t gate_draft now

  gated-complete :
      gate_ok (gate_checks t context reducer now) ≡ true
      → (determine_next_step gated now 1).step_type ≡ complete
  gated-complete h =
      let o = gate_ok-Opened (gate_checks t context reducer now) h in
      let (live, free, unheld, decided, _) = settled_of_gate h in
      let x = full_event t gate_draft now in
      let ctx : has_event candidate_context_ready t.event_log ≡ true =
        unfold gate_checks in o.context in
      let red : has_event candidate_reducer_ready t.event_log ≡ true =
        unfold gate_checks in o.reducer in
      let stopped : has_stopped gated ≡ false =
        unfold append_thread_event in
        ground (arith, live, has_event-append runtime_error_compacted t.event_log x) in
      let waits : awaited gated ≡ none =
        awaited-extend t gated x (unfold append_thread_event in refl) (unfold full_event in refl)
          (unfold append_thread_event in refl)
        ∙ free in
      let latest : latest_decision_event gated.event_log ≡ latest_decision_event t.event_log =
        unfold append_thread_event in latest-append t.event_log x (unfold full_event in refl) in
      let open_gate : has_event local_gate_passed gated.event_log ≡ true =
        unfold append_thread_event in
        ground (arith, has_event-append local_gate_passed t.event_log x) in
      let has_context : has_event candidate_context_ready gated.event_log ≡ true =
        unfold append_thread_event in
        ground (arith, ctx, has_event-append candidate_context_ready t.event_log x) in
      let has_reducer : has_event candidate_reducer_ready gated.event_log ≡ true =
        unfold append_thread_event in
        ground (arith, red, has_event-append candidate_reducer_ready t.event_log x) in
      determine_next_step-decide gated now 1
      ∙ (simp (stopped, waits, latest, open_gate, has_context, has_reducer, unheld) (ground arith))

  -- A gate that passes saw no error, awaited no one, found a decision that neither holds nor
  -- rejects, and only candidates that are drafts; the recorded thread is then completed, with
  -- the step `complete`. So a passed gate always completes the thread.
  pub record_runtime_local_gate-completes :
      gate_ok (gate_checks t context reducer now) ≡ true
      → let result = record_runtime_local_gate t context reducer now in
        (has_stopped t ≡ false)
        × (awaited t ≡ none)
        × (is_none (latest_decision_event t.event_log) ≡ false)
        × (keeps_held (decision_of (latest_decision_event t.event_log)) ≡ false)
        × All IsDraftOnly (candidate_refs reducer t.event_log)
        × (result.1.step_type ≡ complete)
        × (result.0.status ≡ Status.completed)
  record_runtime_local_gate-completes h =
      let o = gate_ok-Opened (gate_checks t context reducer now) h in
      let (live, free, unheld, decided, _) = settled_of_gate h in
      let done = gated-complete h in
      (
        live,
        free,
        decided,
        unheld,
        all-IsDraftOnly (candidate_refs reducer t.event_log) (unfold gate_checks in o.draft_only),
        unfold record_runtime_local_gate in rw h done,
        unfold record_runtime_local_gate record_next_step status_for_step in rw h (rw done refl),
      )

  error_signal-fails :
      (names : List String)
      → ((record_runtime_error_signal t names now).1.step_type ≡ error)
        × ((record_runtime_error_signal t names now).0.status ≡ Status.failed)
  error_signal-fails names =
      let u = append_thread_event t (error_draft names) now in
      let stopped : has_stopped u ≡ true =
        unfold append_thread_event in
        ground (
          arith,
          has_event-append runtime_error_compacted t.event_log
              (full_event t (error_draft names) now),
        ) in
      let stops : (determine_next_step u now 1).step_type ≡ error =
        determine_next_step-decide u now 1 ∙ (rw stopped refl) in
      (
        unfold record_runtime_error_signal in stops,
        unfold record_runtime_error_signal record_next_step status_for_step in rw stops refl,
      )

  -- A gate that does not pass records an error: the step is `error` and the thread has failed.
  pub record_runtime_local_gate-fails :
      gate_ok (gate_checks t context reducer now) ≡ false
      → let result = record_runtime_local_gate t context reducer now in
        (result.1.step_type ≡ error) × (result.0.status ≡ Status.failed)
  unfolding record_runtime_local_gate
  record_runtime_local_gate-fails h = rw h (error_signal-fails _)
