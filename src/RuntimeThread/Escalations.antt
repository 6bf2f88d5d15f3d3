-- ===== src/RuntimeThread/Escalations.antt =====
-- Human escalations of a thread (scripts/lib/runtime-thread.mjs): when it pauses and when it goes on.
use misa_cybernetic_evolutio.Prelude.{
  ℕ, String, Bool, true, false, not, ◌&&◌, ◌≡◌, ◌≢◌, refl, ap, ◌∙◌, Option, none, some, List, [],
  ◌∷◌, ◌++◌, arith, All, All-append, any, any-append, filter, find?, includes, truthy, or_else,
  str_eq, eq_iff, Bool-cases, inl, inr,
}
use misa_cybernetic_evolutio.RuntimeThread.Types.{
  EventType, Event, Thread, BusinessState, Refs, Payload, pause_for_human, error,
  human_decision_recorded, human_escalation_requested, runtime_error_compacted,
  candidate_context_ready, candidate_reducer_ready, local_gate_passed,
}
use misa_cybernetic_evolutio.RuntimeThread.Log.{
  append_thread_event, full_event, live_update, decided_escalation_ids, unresolved_escalation_id,
  add_pending, drop_pending, create_agent_thread,
}
use misa_cybernetic_evolutio.RuntimeThread.Steps.{determine_next_step, record_next_step, truthy_id}
use misa_cybernetic_evolutio.RuntimeThread.Decisions.{
  decide, has_stopped, awaited, determine_next_step-decide,
}
use misa_cybernetic_evolutio.RuntimeThread.Replay.{Reach, create, append, step, has_event-append}
use misa_cybernetic_evolutio.RuntimeThread.Checkpoint.{
  decided-append, latest-append, step_type-SameReading,
}
use misa_cybernetic_evolutio.RuntimeThread.Packets.{escalation_draft}

abbrev pub IsTruthy : String → Type 0
IsTruthy id = truthy id ≡ true

add_pending-IsTruthy :
    (id : Option String) (ids : List String) → All IsTruthy ids → All IsTruthy (add_pending id ids)
add_pending-IsTruthy none ids h = h
add_pending-IsTruthy (some id) ids h = elim (Bool-cases (truthy id && not (includes ids id))) [
  | inl e ↦ rw e (All-append IsTruthy ids (id ∷ []) h (ground arith, tt))
  | inr e ↦ rw e h
]

filter-All :
    (p : String → Bool) (ids : List String) → All IsTruthy ids → All IsTruthy (filter p ids)
filter-All p [] h = tt
filter-All p (id ∷ ids) h = elim (Bool-cases (p id)) [
  | inl e ↦ rw e (h.0, filter-All p ids h.1)
  | inr e ↦ rw e (filter-All p ids h.1)
]

drop_pending-IsTruthy :
    (id : Option String) (ids : List String) → All IsTruthy ids → All IsTruthy (drop_pending id ids)
drop_pending-IsTruthy none ids h = h
drop_pending-IsTruthy (some id) ids h = filter-All _ ids h

live_update-IsTruthy :
    (t : EventType) (refs : Refs) (payload : Payload) (s : BusinessState)
    → All IsTruthy s.pending
    → All IsTruthy (live_update t refs payload s).pending
unfolding live_update
live_update-IsTruthy human_escalation_requested refs payload s h =
    add_pending-IsTruthy (or_else refs.human_escalation_id payload.human_escalation_id) s.pending h
live_update-IsTruthy human_decision_recorded refs payload s h =
    drop_pending-IsTruthy (or_else payload.human_escalation_id refs.human_escalation_id) s.pending h
live_update-IsTruthy _ refs payload s h = h

-- No empty id is ever pending.
pub Reach-IsTruthy : {t : Thread} → Reach t → All IsTruthy t.business_state.pending
unfolding append_thread_event record_next_step create_agent_thread
Reach-IsTruthy (create id source_type source_id now) = tt
Reach-IsTruthy (append {t} r e now) =
    live_update-IsTruthy (full_event t e now).event_type (full_event t e now).refs
      (full_event t e now).payload t.business_state (Reach-IsTruthy r)
Reach-IsTruthy (step r now now' offset) = Reach-IsTruthy r

-- A search that a truth test empties had found nothing.
truthy_find? :
    (p : String → Bool) (ids : List String)
    → All IsTruthy ids
    → truthy_id (find? p ids) ≡ none
    → All (λ id. p id ≡ false) ids
truthy_find? p [] h e = tt
truthy_find? p (id ∷ ids) h e = elim (Bool-cases (p id)) [
  | inl q ↦ cc (rw (q, h.0) at e)
  | inr q ↦ (q, truthy_find? p ids h.1 (rw q at e))
]

awaited_none :
    (stopped : Bool) (pending : Option String) (latest : Option Event) (gate context reducer : Bool)
    → decide stopped pending latest gate context reducer ≢ pause_for_human
    → decide stopped pending latest gate context reducer ≢ error
    → pending ≡ none
awaited_none true pending latest gate context reducer p e = absurd (e refl)
awaited_none false (some id) latest gate context reducer p e = absurd (p refl)
awaited_none false none latest gate context reducer p e = refl

abbrev pub IsDecided : Thread → String → Type 0
IsDecided t id = includes (decided_escalation_ids t.event_log) id ≡ true

not-false : (b : Bool) → not b ≡ false → b ≡ true
not-false b h = ground arith

All-not :
    (p : String → Bool) (ids : List String)
    → All (λ id. not (p id) ≡ false) ids
    → All (λ id. p id ≡ true) ids
All-not p [] h = tt
All-not p (id ∷ ids) h = (not-false (p id) h.0, All-not p ids h.1)

undecided-free :
    (t : Thread)
    → All IsTruthy t.business_state.pending
    → awaited t ≡ none
    → All (IsDecided t) t.business_state.pending
unfolding unresolved_escalation_id
undecided-free t h e =
    All-not (includes (decided_escalation_ids t.event_log)) t.business_state.pending (
      truthy_find? (λ id. not (includes (decided_escalation_ids t.event_log) id))
        t.business_state.pending h e)

-- On every thread that the operations reach, a step that neither pauses nor reports an error is
-- determined only if each pending escalation has a decision in the log.
pub goes_on-IsDecided :
    (t : Thread) (now : String) (offset : ℕ)
    → Reach t
    → (determine_next_step t now offset).step_type ≢ pause_for_human
    → (determine_next_step t now offset).step_type ≢ error
    → All (IsDecided t) t.business_state.pending
goes_on-IsDecided t now offset r p e =
    let table = determine_next_step-decide t now offset in
    undecided-free t (Reach-IsTruthy r)
      (awaited_none _ _ _ _ _ _ (λ q. p (table ∙ q)) (λ q. e (table ∙ q)))

-- A search that some element passes finds an element.
pub find?-ne-none :
    (p : String → Bool) (ids : List String)
    → All IsTruthy ids
    → any p ids ≡ true
    → (id : String) × (truthy_id (find? p ids) ≡ some id)
find?-ne-none p [] h e = cc
find?-ne-none p (id ∷ ids) h e = elim (Bool-cases (p id)) [
  | inl q ↦ (id, rw (q, h.0))
  | inr q ↦ rw q (find?-ne-none p ids h.1 (rw q at e))
]

pub awaited_lem :
    (t : Thread)
    → awaited t
      ≡ truthy_id (
          find?
            (λ other. not (includes (decided_escalation_ids t.event_log) other))
            t.business_state.pending)
unfolding unresolved_escalation_id
awaited_lem t = refl

-- What requesting an escalation does to the thread.
module _ (t : Thread) (id now : String) where
  abbrev pub requested : Thread
  requested = append_thread_event t (escalation_draft id) now

  pub requested_pending :
      requested.business_state.pending ≡ add_pending (some id) t.business_state.pending
  unfolding append_thread_event
  requested_pending = refl

  pub requested_decided :
      decided_escalation_ids requested.event_log ≡ decided_escalation_ids t.event_log
  unfolding append_thread_event
  requested_decided = decided-append t.event_log (full_event t (escalation_draft id) now) refl

  pub requested_stopped : has_stopped requested ≡ has_stopped t
  unfolding append_thread_event
  requested_stopped = ground (
    arith,
    has_event-append runtime_error_compacted t.event_log (full_event t (escalation_draft id) now),
  )

  pub requested-awaited :
      awaited requested
      ≡ truthy_id (
          find?
            (λ other. not (includes (decided_escalation_ids t.event_log) other))
            requested.business_state.pending)
  unfolding unresolved_escalation_id
  requested-awaited =
      ap
        (λ (ds : List String).
          truthy_id (find? (λ other. not (includes ds other)) requested.business_state.pending))
        requested_decided

any_of_includes :
    (p : String → Bool) (ids : List String) (id : String)
    → includes ids id ≡ true
    → p id ≡ true
    → any p ids ≡ true
any_of_includes p [] id h q = cc
any_of_includes p (x ∷ ids) id h q = elim (Bool-cases (str_eq x id)) [
  | inl e ↦ rw ((eq_iff x id).0 e, q)
  | inr e ↦ ground (arith, any_of_includes p ids id (rw e at h) q)
]

any-add_pending :
    (p : String → Bool) (ids : List String) (id : String)
    → truthy id ≡ true
    → p id ≡ true
    → any p (add_pending (some id) ids) ≡ true
any-add_pending p ids id h q = elim (Bool-cases (includes ids id)) [
  | inl e ↦ rw (h, e) (any_of_includes p ids id e q)
  | inr e ↦ rw (h, e) (rw any-append (ground (arith, q)))
]

find?-append_failing :
    (p : String → Bool) (ids : List String) (id : String)
    → p id ≡ false
    → find? p (ids ++ id ∷ []) ≡ find? p ids
find?-append_failing p [] id h = rw h
find?-append_failing p (x ∷ ids) id h = ground (arith, find?-append_failing p ids id h)

find?-add_pending :
    (p : String → Bool) (ids : List String) (id : String)
    → p id ≡ false
    → find? p (add_pending (some id) ids) ≡ find? p ids
find?-add_pending p ids id h = elim (Bool-cases (truthy id && not (includes ids id))) [
  | inl e ↦ rw e (find?-append_failing p ids id h)
  | inr e ↦ rw e
]

module _ (t : Thread) (id now later : String) (offset : ℕ) where
  abbrev fails : String → Bool
  fails other = not (includes (decided_escalation_ids t.event_log) other)

  abbrev x : Event
  x = full_event t (escalation_draft id) now

  -- A request with a non-empty id that no decision names pauses a reached thread that has not
  -- stopped, whatever was decided before about other escalations.
  pub request-pauses :
      Reach t
      → truthy id ≡ true
      → includes (decided_escalation_ids t.event_log) id ≡ false
      → has_stopped t ≡ false
      → (determine_next_step (requested t id now) later offset).step_type ≡ pause_for_human
  request-pauses r h new live =
      let (first, found) =
        find?-ne-none fails (requested t id now).business_state.pending
          (Reach-IsTruthy (append r (escalation_draft id) now))
          (rw requested_pending (any-add_pending fails t.business_state.pending id h (rw new))) in
      let waits : awaited (requested t id now) ≡ some first = requested-awaited t id now ∙ found in
      determine_next_step-decide (requested t id now) later offset
      ∙ (rw (waits, requested_stopped, live) refl)

  -- A second request of an escalation that has a decision in the log changes no step: the thread
  -- does not pause for it again.
  pub request-decided :
      includes (decided_escalation_ids t.event_log) id ≡ true
      → (determine_next_step (requested t id now) later offset).step_type
        ≡ (determine_next_step t later offset).step_type
  unfolding append_thread_event unresolved_escalation_id
  request-decided old =
      step_type-SameReading (requested t id now) t
        (record {
          stopped = requested_stopped t id now;
          waits =
              requested-awaited t id now
              ∙ ap truthy_id (find?-add_pending fails t.business_state.pending id (rw old));
          latest = latest-append t.event_log x refl;
          gate = ground (arith, has_event-append local_gate_passed t.event_log x);
          context = ground (arith, has_event-append candidate_context_ready t.event_log x);
          reducer = ground (arith, has_event-append candidate_reducer_ready t.event_log x);
        })
        later later offset offset
