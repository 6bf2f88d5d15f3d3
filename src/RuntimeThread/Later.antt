-- ===== src/RuntimeThread/Later.antt =====
-- What stays true of a thread of scripts/lib/runtime-thread.mjs, whatever is appended to it.
use misa_cybernetic_evolutio.Prelude.{
  ℕ, String, true, ◌≡◌, refl, ap, ◌∙◌, sym, List, [], ◌∷◌, ◌++◌, arith, any-append,
}
use misa_cybernetic_evolutio.RuntimeThread.Types.{
  EventType, Event, Thread, Draft, NextStep, runtime_error_compacted, error,
}
use misa_cybernetic_evolutio.RuntimeThread.Log.{has_event, append_thread_event, full_event}
use misa_cybernetic_evolutio.RuntimeThread.Steps.{determine_next_step, record_next_step, step_draft}
use misa_cybernetic_evolutio.RuntimeThread.Decisions.{determine_next_step-decide}
use mathlib.Core.List.{append_assoc, append-nil}

-- `u` comes from `t` by operations on the log; the step that is recorded may be any.
pub data Later (t : Thread) : Thread → Type 0 where
  same : Later t t
  append :
      {u : Thread} → Later t u → (e : Draft) (now : String) → Later t (append_thread_event u e now)
  step :
      {u : Thread} → Later t u → (s : NextStep) (now : String) → Later t (record_next_step u s now)

abbrev Extends : List Event → List Event → Type 0
Extends log longer = (more : List Event) × (longer ≡ log ++ more)

extend_by_one :
    (log longer : List Event) (x : Event) → Extends log longer → Extends log (longer ++ x ∷ [])
extend_by_one log longer x (more, e) =
    (more ++ x ∷ [], ap (λ (l : List Event). l ++ x ∷ []) e ∙ append_assoc log more (x ∷ []))

-- The log only grows: what was logged stays, in its place and order.
pub Later-extends :
    (t u : Thread) → Later t u → (more : List Event) × (u.event_log ≡ t.event_log ++ more)
unfolding append_thread_event record_next_step
Later-extends t _ same = ([], sym (append-nil t.event_log))
Later-extends t _ (append {u} l e now) =
    extend_by_one t.event_log u.event_log (full_event u e now) (Later-extends t u l)
Later-extends t _ (step {u} l s now) =
    extend_by_one t.event_log u.event_log (full_event u (step_draft s) now) (Later-extends t u l)

has_event-extend :
    (wanted : EventType) (log more : List Event)
    → has_event wanted log ≡ true
    → has_event wanted (log ++ more) ≡ true
unfolding has_event
has_event-extend wanted log more h = rw any-append (ground (arith, h))

-- A thread with a compacted error determines `error` forever: at every later time, and after any
-- further events, decisions and recorded steps.
pub error-absorbs :
    (t u : Thread) (now : String) (offset : ℕ)
    → has_event runtime_error_compacted t.event_log ≡ true
    → Later t u
    → (determine_next_step u now offset).step_type ≡ error
error-absorbs t u now offset h l =
    let (more, e) = Later-extends t u l in
    let here : has_event runtime_error_compacted u.event_log ≡ true =
      rw e (has_event-extend runtime_error_compacted t.event_log more h) in
    determine_next_step-decide u now offset ∙ (rw here refl)
