-- ===== src/RuntimeThread/Checkpoint.antt =====
-- Recording a step and replaying the log (scripts/lib/runtime-thread.mjs) give the same thread.
use misa_cybernetic_evolutio.Prelude.{
  ℕ, ◌+◌, String, false, ◌≡◌, refl, ap, ap₂, sym, ◌∙◌, some, List, [], ◌∷◌, ◌++◌, arith,
  find_last?-append_one, find?, includes, not, get_last?, length, length-append,
}
use misa_cybernetic_evolutio.RuntimeThread.Types.{
  Event, Thread, BusinessState, candidate_context_ready, candidate_reducer_ready, local_gate_passed,
  runtime_error_compacted, human_decision_recorded, next_step_determined,
}
use misa_cybernetic_evolutio.RuntimeThread.Log.{
  has_event, is_type, latest_decision_event, unresolved_escalation_id, decided_escalation_ids,
  full_event, business_state_from_events,
}
use misa_cybernetic_evolutio.RuntimeThread.Steps.{
  determine_next_step, truthy_id, step_draft, record_next_step, replay_runtime_thread,
  replayed_base,
}
use misa_cybernetic_evolutio.RuntimeThread.Decisions.{
  has_stopped, awaited, determine_next_step-decide, determine_next_step-escalation,
}
use misa_cybernetic_evolutio.RuntimeThread.Replay.{
  core, IsTracked, has_event-append, record-IsTracked, Reach, Reach-IsTracked,
}

get_last?-append_one {ℓ} : {A : Type ℓ} (xs : List A) (x : A) → get_last? (xs ++ x ∷ []) ≡ some x
get_last?-append_one [] x = refl
get_last?-append_one (y ∷ xs) x = ground (arith, get_last?-append_one xs x)

-- An event that is no decision leaves the decisions as they were.
pub decided-append :
    (log : List Event) (x : Event)
    → is_type human_decision_recorded x ≡ false
    → decided_escalation_ids (log ++ x ∷ []) ≡ decided_escalation_ids log
unfolding decided_escalation_ids
decided-append [] x h = ground arith
decided-append (e ∷ log) x h = ground (arith, decided-append log x h)

pub latest-append :
    (log : List Event) (x : Event)
    → is_type human_decision_recorded x ≡ false
    → latest_decision_event (log ++ x ∷ []) ≡ latest_decision_event log
unfolding latest_decision_event
latest-append log x h = find_last?-append_one (is_type human_decision_recorded) log x ∙ (rw h)

-- What the reducer reads of a thread.
pub record SameReading (a b : Thread) : Type 0 where
  pub stopped : has_stopped a ≡ has_stopped b
  pub waits : awaited a ≡ awaited b
  pub latest : latest_decision_event a.event_log ≡ latest_decision_event b.event_log
  pub gate : has_event local_gate_passed a.event_log ≡ has_event local_gate_passed b.event_log
  pub context :
      has_event candidate_context_ready a.event_log ≡ has_event candidate_context_ready b.event_log
  pub reducer :
      has_event candidate_reducer_ready a.event_log ≡ has_event candidate_reducer_ready b.event_log

determine_next_step-step_id :
    (t : Thread) (now : String) (offset : ℕ)
    → (determine_next_step t now offset).step_id
      ≡ record { of_thread = t.thread_id; at_count = length t.event_log + offset }
unfolding determine_next_step
determine_next_step-step_id t now offset = ground arith

module _ (a b : Thread) (h : SameReading a b) (now now' : String) (m n : ℕ) where
  pub step_type-SameReading :
      (determine_next_step a now m).step_type ≡ (determine_next_step b now' n).step_type
  step_type-SameReading = cc (
    determine_next_step-decide a now m,
    determine_next_step-decide b now' n,
    h.stopped,
    h.waits,
    h.latest,
    h.gate,
    h.context,
    h.reducer,
  )

  pub escalation-SameReading :
      (determine_next_step a now m).human_escalation_id
      ≡ (determine_next_step b now' n).human_escalation_id
  escalation-SameReading = cc (
    determine_next_step-escalation a now m,
    determine_next_step-escalation b now' n,
    h.stopped,
    h.waits,
  )

-- So the same human is waited for, as long as the pending ids are the same.
pub awaited-extend :
    (t t' : Thread) (x : Event)
    → t'.event_log ≡ t.event_log ++ x ∷ []
    → is_type human_decision_recorded x ≡ false
    → t'.business_state.pending ≡ t.business_state.pending
    → awaited t' ≡ awaited t
unfolding unresolved_escalation_id
awaited-extend t t' x l q p =
    ap₂ (λ (ds ps : List String). truthy_id (find? (λ id. not (includes ds id)) ps))
      (ap decided_escalation_ids l ∙ decided-append t.event_log x q) p

-- The record of a step changes nothing that the reducer reads.
quiet-SameReading :
    (t t' : Thread) (x : Event)
    → t'.event_log ≡ t.event_log ++ x ∷ []
    → x.event_type ≡ next_step_determined
    → t'.business_state.pending ≡ t.business_state.pending
    → has_stopped t' ≡ has_stopped t
    → SameReading t' t
quiet-SameReading t t' x l q p s = record {
  stopped = s;
  waits = awaited-extend t t' x l (rw q) p;
  latest = cc (l, latest-append t.event_log x (rw q));
  gate = rw l (ground (arith, has_event-append local_gate_passed t.event_log x));
  context = rw l (ground (arith, has_event-append candidate_context_ready t.event_log x));
  reducer = rw l (ground (arith, has_event-append candidate_reducer_ready t.event_log x));
}

-- A tracked thread and its replayed base are read alike.
live-SameReading : (t : Thread) → IsTracked t → SameReading (replayed_base t) t
unfolding replayed_base unresolved_escalation_id
live-SameReading t h = record {
  stopped = ground (arith, h.fails);
  waits =
      ap
        (λ (ps : List String).
          truthy_id (find? (λ id. not (includes (decided_escalation_ids t.event_log) id)) ps))
        (sym (ap (λ (s : BusinessState). s.pending) h.replays));
  latest = refl;
  gate = refl;
  context = refl;
  reducer = refl;
}

module _ (t : Thread) (h : IsTracked t) (now now' : String) (offset : ℕ) where
  abbrev recorded : Thread
  recorded = record_next_step t (determine_next_step t now offset) now'

  abbrev recorded_event : Event
  recorded_event = full_event t (step_draft (determine_next_step t now offset)) now'

  recorded-replays : core recorded.business_state ≡ core (business_state_from_events recorded)
  recorded-replays = (record-IsTracked t now now' offset h).replays

  recorded_log : recorded.event_log ≡ t.event_log ++ recorded_event ∷ []
  unfolding record_next_step
  recorded_log = refl

  replayed-stopped : has_stopped (replayed_base recorded) ≡ has_stopped t
  unfolding replayed_base record_next_step
  replayed-stopped =
      ground (arith, has_event-append runtime_error_compacted t.event_log recorded_event, h.fails)

  replayed-pending : (replayed_base recorded).business_state.pending ≡ t.business_state.pending
  unfolding replayed_base record_next_step
  replayed-pending = sym (ap (λ (s : BusinessState). s.pending) recorded-replays)

  replayed_log : (replayed_base recorded).event_log ≡ t.event_log ++ recorded_event ∷ []
  unfolding replayed_base
  replayed_log = recorded_log

  -- Replaying the recorded thread reads what the reducer read before the step.
  replayed-SameReading : SameReading (replayed_base recorded) t
  replayed-SameReading =
      quiet-SameReading t (replayed_base recorded) recorded_event replayed_log
        (unfold full_event in refl) replayed-pending replayed-stopped

  -- The replayed step has the number of the recorded one, if that was counted with the record.
  replayed_count :
      offset ≡ 1 → length (replayed_base recorded).event_log + 0 ≡ length t.event_log + offset
  replayed_count e =
      rw replayed_log (omega (arith, length-append t.event_log (recorded_event ∷ [])))

  -- Replaying a thread whose last operation recorded a step gives that same thread, whole.
  replay-record_IsTracked :
      (later : String) → offset ≡ 1 → (replay_runtime_thread recorded later).0 ≡ recorded
  unfolding replay_runtime_thread replayed_base record_next_step
  replay-record_IsTracked later e = ground (
    arith,
    step_type-SameReading _ _ replayed-SameReading later now 0 offset,
    escalation-SameReading _ _ replayed-SameReading later now 0 offset,
    determine_next_step-step_id (replayed_base recorded) later 0,
    determine_next_step-step_id t now offset,
    replayed_count e,
    get_last?-append_one t.event_log recorded_event,
    recorded-replays,
  )

-- For every thread that the operations reach: record the next step, counted with its own record
-- (`eventCountOffset` 1), then replay the log at any later time. The replay gives the recorded
-- thread itself: status, times, business state, log and latest step.
pub replay-record :
    (t : Thread) (now now' later : String)
    → Reach t
    → (replay_runtime_thread (record_next_step t (determine_next_step t now 1) now') later).0
      ≡ record_next_step t (determine_next_step t now 1) now'
replay-record t now now' later r =
    replay-record_IsTracked t (Reach-IsTracked r) now now' 1 later refl

-- The step that the replay determines has the type of the one that was recorded.
pub replay_next-record :
    (t : Thread) (now now' later : String)
    → Reach t
    → (replay_runtime_thread
        (record_next_step t (determine_next_step t now 1) now')
        later).1.step_type
      ≡ (determine_next_step t now 1).step_type
unfolding replay_runtime_thread record_next_step
replay_next-record t now now' later r =
    ap (λ (u : Thread). u.latest_next_step.step_type) (replay-record t now now' later r)

-- For every thread that the operations reach, replay keeps the log and every part of the business
-- state but the phase, and it determines the step that the reducer determines on the thread.
pub replay-live :
    (t : Thread) (now later : String) (offset : ℕ)
    → Reach t
    → ((replay_runtime_thread t later).0.event_log ≡ t.event_log)
      × (core (replay_runtime_thread t later).0.business_state ≡ core t.business_state)
      × ((replay_runtime_thread t later).1.step_type ≡ (determine_next_step t now offset).step_type)
replay-live t now later offset r =
    let h = Reach-IsTracked r in
    (
      unfold replay_runtime_thread replayed_base in refl,
      unfold replay_runtime_thread replayed_base in sym h.replays,
      unfold replay_runtime_thread in
          step_type-SameReading (replayed_base t) t (live-SameReading t h) later now 0 offset,
    )
