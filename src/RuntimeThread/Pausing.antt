-- ===== src/RuntimeThread/Pausing.antt =====
-- A thread built of packets (scripts/lib/runtime-thread.mjs) with an escalation and no decision.
use misa_cybernetic_evolutio.Prelude.{
  ℕ, String, Bool, true, false, not, ◌&&◌, ◌||◌, ◌≡◌, refl, ◌∙◌, Option, none, some, List, [], ◌∷◌,
  ◌++◌, arith, any, includes, truthy, Bool-cases, inl, inr,
}
use misa_cybernetic_evolutio.RuntimeThread.Types.{Thread, pause_for_human, paused}
use misa_cybernetic_evolutio.RuntimeThread.Log.{
  append_thread_event, create_agent_thread, decided_escalation_ids, add_pending, has_event,
}
use misa_cybernetic_evolutio.RuntimeThread.Steps.{
  determine_next_step, record_next_step, status_for_step,
}
use misa_cybernetic_evolutio.RuntimeThread.Decisions.{has_stopped, determine_next_step-decide}
use misa_cybernetic_evolutio.RuntimeThread.Replay.{Reach, append}
use misa_cybernetic_evolutio.RuntimeThread.Gate.{CandidateContext, CandidateReducer}
use misa_cybernetic_evolutio.RuntimeThread.Packets.{
  prepared_thread, prepared-Reach, request_all, escalation_draft, build_runtime_thread_from_packets,
}
use misa_cybernetic_evolutio.RuntimeThread.Escalations.{
  find?-ne-none, requested, requested_pending, requested_decided, requested_stopped, Reach-IsTruthy,
  awaited_lem,
}

abbrev is_filled : List String → Bool
is_filled [] = false
is_filled (x ∷ xs) = true

is_filled-append : (xs : List String) (x : String) → is_filled (xs ++ x ∷ []) ≡ true
is_filled-append [] x = refl
is_filled-append (y ∷ ys) x = refl

-- A request with a non-empty id leaves some id pending.
is_filled-add_pending :
    (ids : List String) (id : String)
    → is_filled (add_pending (some id) ids) ≡ (is_filled ids || truthy id)
is_filled-add_pending [] id = ground arith
is_filled-add_pending (x ∷ xs) id = elim (Bool-cases (truthy id && not (includes (x ∷ xs) id))) [
  | inl e ↦ rw e
  | inr e ↦ rw e
]

any_filled :
    (ids : List String) → is_filled ids ≡ true → any (λ other. not (includes [] other)) ids ≡ true
any_filled [] h = cc
any_filled (x ∷ xs) h = refl

undecided-pauses :
    (t : Thread) (now : String) (offset : ℕ)
    → Reach t
    → decided_escalation_ids t.event_log ≡ []
    → has_stopped t ≡ false
    → is_filled t.business_state.pending ≡ true
    → (determine_next_step t now offset).step_type ≡ pause_for_human
undecided-pauses t now offset r fresh live filled =
    let (id, found) =
      find?-ne-none (λ other. not (includes (decided_escalation_ids t.event_log) other))
        t.business_state.pending (Reach-IsTruthy r)
        (rw fresh (any_filled t.business_state.pending filled)) in
    determine_next_step-decide t now offset ∙ (rw (awaited_lem t ∙ found, live) refl)

request_all-pauses :
    (t : Thread) (ids : List String) (now later : String) (offset : ℕ)
    → Reach t
    → decided_escalation_ids t.event_log ≡ []
    → has_stopped t ≡ false
    → (is_filled t.business_state.pending || any truthy ids) ≡ true
    → (determine_next_step (request_all t ids now) later offset).step_type ≡ pause_for_human
unfolding request_all
request_all-pauses t [] now later offset r fresh live some_id =
    undecided-pauses t later offset r fresh live (ground (arith, some_id))
request_all-pauses t (id ∷ ids) now later offset r fresh live some_id =
    request_all-pauses (requested t id now) ids now later offset
      (append r (escalation_draft id) now) (requested_decided t id now ∙ fresh)
      (requested_stopped t id now ∙ live)
      (rw requested_pending (rw is_filled-add_pending (ground (arith, some_id))))

-- A prepared thread has no decision in its log, and no error.
prepared_fresh :
    (id : String) (context : Option CandidateContext) (reducer : Option CandidateReducer)
    (now : String)
    → (decided_escalation_ids (prepared_thread id context reducer now).event_log ≡ [])
      × (has_stopped (prepared_thread id context reducer now) ≡ false)
unfolding prepared_thread create_agent_thread append_thread_event decided_escalation_ids has_event
prepared_fresh id context reducer now = (refl, refl)

-- A thread built with at least one non-empty escalation id, with no decision, no gate and no
-- error, pauses for a human: its status is `paused`.
pub build-pauses :
    (id : String) (context : Option CandidateContext) (reducer : Option CandidateReducer)
    (ids : List String) (now : String)
    → any truthy ids ≡ true
    → let built = build_runtime_thread_from_packets id context reducer ids none false false now in
      (built.1.step_type ≡ pause_for_human) × (built.0.status ≡ paused)
unfolding build_runtime_thread_from_packets
build-pauses id context reducer ids now h =
    let (fresh, live) = prepared_fresh id context reducer now in
    let pauses =
      request_all-pauses (prepared_thread id context reducer now) ids now now 1
        (prepared-Reach id context reducer now) fresh live (ground (arith, h)) in
    (pauses, unfold record_next_step status_for_step in rw pauses)
