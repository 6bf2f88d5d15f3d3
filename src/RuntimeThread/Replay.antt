-- ===== src/RuntimeThread/Replay.antt =====
-- Replay of the event log (scripts/lib/runtime-thread.mjs) against the live thread.
use misa_cybernetic_evolutio.Prelude.{
  ℕ, String, true, ◌≡◌, refl, ap, ap₂, ◌∙◌, sym, Option, some, List, [], ◌∷◌, ◌++◌, arith, ◌||◌,
}
use misa_cybernetic_evolutio.RuntimeThread.Types.{
  EventType, thread_launched, runtime_error_compacted, Refs, Payload, Draft, Event, BusinessState,
  Thread, Status, StepType, launched,
}
use misa_cybernetic_evolutio.RuntimeThread.Log.{
  is_type, has_event, business_state_from_events, replay_events, initial_business_state,
  apply_business_state_event, live_update, append_thread_event, full_event, create_agent_thread,
  launch_state, launching, launch_draft,
}
use misa_cybernetic_evolutio.RuntimeThread.Steps.{
  determine_next_step, record_next_step, status_for_step, is_failed, step_draft,
}

-- The business state without its phase, which the operations overwrite.
abbrev pub core : BusinessState → BusinessState
core s = record s { phase = launched }

-- The live update and the replay of an event agree but for the phase.
core-live_update :
    (t : EventType) (refs : Refs) (payload : Payload) (s s' : BusinessState)
    → core s ≡ core s'
    → core (live_update t refs payload s) ≡ core (apply_business_state_event t refs payload s')
unfolding live_update apply_business_state_event
core-live_update EventType.candidate_context_ready refs payload s s' h = h
core-live_update EventType.human_escalation_requested refs payload s s' h = ground arith
core-live_update EventType.human_decision_recorded refs payload s s' h = ground arith
core-live_update EventType.local_gate_passed refs payload s s' h = ground arith
core-live_update _ refs payload s s' h = h

replay_events-append :
    (log : List Event) (e : Event) (s : BusinessState)
    → replay_events (log ++ e ∷ []) s
      ≡ apply_business_state_event e.event_type e.refs e.payload (replay_events log s)
unfolding replay_events
replay_events-append [] e s = refl
replay_events-append (x ∷ log) e s =
    replay_events-append log e (apply_business_state_event x.event_type x.refs x.payload s)

-- What every thread of the module satisfies: its log starts with its launch, the business state
-- is the log's but for the phase, and it has failed only with an error in the log.
pub record IsTracked (t : Thread) : Type 0 where
  pub first : Event
  pub others : List Event
  pub log_eq : t.event_log ≡ first ∷ others
  pub is_launch : is_type thread_launched first ≡ true
  pub type_eq : first.payload.source_type ≡ some t.business_state.source_type
  pub id_eq : first.refs.source_id ≡ t.business_state.source_id
  pub replays : core t.business_state ≡ core (business_state_from_events t)
  pub fails : t.status ≡ Status.failed → has_event runtime_error_compacted t.event_log ≡ true

-- With its launch first in the log, a thread's replay starts from its own source.
initial_business_state_of_launch :
    (t : Thread) (first : Event) (others : List Event)
    → t.event_log ≡ first ∷ others
    → is_type thread_launched first ≡ true
    → first.payload.source_type ≡ some t.business_state.source_type
    → first.refs.source_id ≡ t.business_state.source_id
    → initial_business_state t
      ≡ launch_state t.business_state.source_type t.business_state.source_id
unfolding initial_business_state
initial_business_state_of_launch t first others h l p q = ground arith

live_update-source :
    (t : EventType) (refs : Refs) (payload : Payload) (s : BusinessState)
    → ((live_update t refs payload s).source_type ≡ s.source_type)
      × ((live_update t refs payload s).source_id ≡ s.source_id)
unfolding live_update
live_update-source EventType.candidate_context_ready refs payload s = (refl, refl)
live_update-source EventType.human_escalation_requested refs payload s = (refl, refl)
live_update-source _ refs payload s = (refl, refl)

business_state_from_events-extend :
    (t t' : Thread) (x : Event)
    → t'.event_log ≡ t.event_log ++ x ∷ []
    → initial_business_state t' ≡ initial_business_state t
    → business_state_from_events t'
      ≡ apply_business_state_event x.event_type x.refs x.payload (business_state_from_events t)
unfolding business_state_from_events
business_state_from_events-extend t t' x l start =
    ap₂ replay_events l start ∙ replay_events-append t.event_log x (initial_business_state t)

-- One more event keeps a thread tracked, whatever is done to the phase and to the latest step.
extend-IsTracked :
    (t t' : Thread) (x : Event)
    → IsTracked t
    → t'.event_log ≡ t.event_log ++ x ∷ []
    → core t'.business_state ≡ core (live_update x.event_type x.refs x.payload t.business_state)
    → (t'.status ≡ Status.failed → has_event runtime_error_compacted t'.event_log ≡ true)
    → IsTracked t'
extend-IsTracked t t' x h l c f =
    let (same_type, same_id) = live_update-source x.event_type x.refs x.payload t.business_state in
    let src : t'.business_state.source_type ≡ t.business_state.source_type =
      ap (λ (s : BusinessState). s.source_type) c ∙ same_type in
    let sid : t'.business_state.source_id ≡ t.business_state.source_id =
      ap (λ (s : BusinessState). s.source_id) c ∙ same_id in
    let log : t'.event_log ≡ h.first ∷ (h.others ++ x ∷ []) =
      l ∙ ap (λ (k : List Event). k ++ x ∷ []) h.log_eq in
    let kind : h.first.payload.source_type ≡ some t'.business_state.source_type =
      h.type_eq ∙ ap some (sym src) in
    let id : h.first.refs.source_id ≡ t'.business_state.source_id = h.id_eq ∙ sym sid in
    let start : initial_business_state t' ≡ initial_business_state t =
      initial_business_state_of_launch t' h.first (h.others ++ x ∷ []) log h.is_launch kind id
      ∙ ap₂ launch_state src sid
      ∙ sym (
          initial_business_state_of_launch t h.first h.others h.log_eq h.is_launch h.type_eq
            h.id_eq) in
    record {
      first = h.first;
      others = h.others ++ x ∷ [];
      log_eq = log;
      is_launch = h.is_launch;
      type_eq = kind;
      id_eq = id;
      replays =
          c
          ∙ core-live_update x.event_type x.refs x.payload t.business_state
              (business_state_from_events t) h.replays
          ∙ ap core (sym (business_state_from_events-extend t t' x l start));
      fails = f;
    }

pub has_event-append :
    (wanted : EventType) (log : List Event) (e : Event)
    → has_event wanted (log ++ e ∷ []) ≡ (has_event wanted log || is_type wanted e)
unfolding has_event
has_event-append wanted [] e = ground arith
has_event-append wanted (x ∷ log) e = ground (arith, has_event-append wanted log e)

pub append-IsTracked :
    (t : Thread) (e : Draft) (now : String) → IsTracked t → IsTracked (append_thread_event t e now)
append-IsTracked t e now h =
    extend-IsTracked t (append_thread_event t e now) (full_event t e now) h
      (unfold append_thread_event in refl) (unfold append_thread_event in refl)
      (λ f.
        unfold append_thread_event in
        ground (
          arith,
          has_event-append runtime_error_compacted t.event_log (full_event t e now),
          h.fails f,
        ))

created-IsTracked :
    (id source_type : String) (source_id : Option String) (now : String)
    → IsTracked (create_agent_thread id source_type source_id now)
unfolding create_agent_thread business_state_from_events
created-IsTracked id source_type source_id now = record {
  first =
      full_event (launching id source_type source_id now) (launch_draft source_type source_id) now;
  others = [];
  log_eq = refl;
  is_launch = refl;
  type_eq = refl;
  id_eq = refl;
  replays = ground arith;
  fails = λ h. cc;
}

is_failed-status_for_step : (k : StepType) → status_for_step k ≡ Status.failed → k ≡ StepType.error
unfolding status_for_step
is_failed-status_for_step StepType.error h = refl
is_failed-status_for_step StepType.complete h = cc
is_failed-status_for_step _ h = cc

-- The reducer reports an error exactly for an error in the log or a failed thread.
error-determine_next_step :
    (t : Thread) (now : String) (offset : ℕ)
    → (determine_next_step t now offset).step_type ≡ StepType.error
    → (has_event runtime_error_compacted t.event_log || is_failed t.status) ≡ true
unfolding determine_next_step
error-determine_next_step t now offset h = ground arith

pub record-IsTracked :
    (t : Thread) (now now' : String) (offset : ℕ)
    → IsTracked t
    → IsTracked (record_next_step t (determine_next_step t now offset) now')
record-IsTracked t now now' offset h =
    let step = determine_next_step t now offset in
    let x = full_event t (step_draft step) now' in
    extend-IsTracked t (record_next_step t step now') x h (unfold record_next_step in refl)
      (unfold record_next_step in refl)
      (λ f.
        let e : step.step_type ≡ StepType.error =
          is_failed-status_for_step step.step_type (unfold record_next_step in f) in
        unfold record_next_step in
        ground (
          arith,
          has_event-append runtime_error_compacted t.event_log x,
          error-determine_next_step t now offset e,
          h.fails,
        ))

-- The threads that the module's operations reach.
pub data Reach : Thread → Type 0 where
  create :
      (id source_type : String) (source_id : Option String) (now : String)
      → Reach (create_agent_thread id source_type source_id now)
  append : {t : Thread} → Reach t → (e : Draft) (now : String) → Reach (append_thread_event t e now)
  step :
      {t : Thread}
      → Reach t
      → (now now' : String) (offset : ℕ)
      → Reach (record_next_step t (determine_next_step t now offset) now')

pub Reach-IsTracked : {t : Thread} → Reach t → IsTracked t
Reach-IsTracked (create id source_type source_id now) =
    created-IsTracked id source_type source_id now
Reach-IsTracked (append r e now) = append-IsTracked _ e now (Reach-IsTracked r)
Reach-IsTracked (step r now now' offset) = record-IsTracked _ now now' offset (Reach-IsTracked r)
