-- ===== src/RuntimeThread/Lifecycle.antt =====
-- The whole life that `buildRuntimeThreadFromPackets` of scripts/lib/runtime-thread.mjs gives a
-- thread, and its replay.
use mathlib.Core.Path.{subst}
use misa_cybernetic_evolutio.Prelude.{
  String, Bool, true, false, ◌≡◌, refl, ap, ◌∙◌, sym, Option, none, some, List, [], ◌∷◌, Bool-cases,
  inl, inr,
}
use misa_cybernetic_evolutio.RuntimeThread.Types.{Decision, Thread, NextStep}
use misa_cybernetic_evolutio.RuntimeThread.Log.{append_thread_event}
use misa_cybernetic_evolutio.RuntimeThread.Steps.{
  determine_next_step, record_next_step, replay_runtime_thread,
}
use misa_cybernetic_evolutio.RuntimeThread.Gate.{
  CandidateContext, CandidateReducer, gate_checks, gate_ok, gate_draft, record_runtime_local_gate,
  record_runtime_error_signal,
}
use misa_cybernetic_evolutio.RuntimeThread.Replay.{Reach, append, step}
use misa_cybernetic_evolutio.RuntimeThread.Checkpoint.{replay-record, replay_next-record}
use misa_cybernetic_evolutio.RuntimeThread.Packets.{
  prepared-Reach, request_all, escalation_draft, decide_first, gate_if, error_if,
  build_runtime_thread_from_packets,
}

-- The last operation recorded the step that it returned, counted with its own record.
pub record IsRecorded (result : Thread × NextStep) : Type 0 where
  pub before : Thread
  pub reached : Reach before
  pub at : String
  pub thread_eq : result.0 ≡ record_next_step before (determine_next_step before at 1) at
  pub next_eq : result.1 ≡ determine_next_step before at 1

pub IsRecorded-Reach : {result : Thread × NextStep} → IsRecorded result → Reach result.0
IsRecorded-Reach h = subst Reach (sym h.thread_eq) (step h.reached h.at h.at 1)

IsRecorded-replay :
    {result : Thread × NextStep}
    → IsRecorded result
    → (later : String)
    → ((replay_runtime_thread result.0 later).0 ≡ result.0)
      × ((replay_runtime_thread result.0 later).1.step_type ≡ result.1.step_type)
IsRecorded-replay h later = (
  ap (λ (t : Thread). (replay_runtime_thread t later).0) h.thread_eq
      ∙ replay-record h.before h.at h.at later h.reached
      ∙ sym h.thread_eq,
  ap (λ (t : Thread). (replay_runtime_thread t later).1.step_type) h.thread_eq
      ∙ replay_next-record h.before h.at h.at later h.reached
      ∙ sym (ap (λ (s : NextStep). s.step_type) h.next_eq),
)

request_all-Reach :
    (t : Thread) (ids : List String) (now : String) → Reach t → Reach (request_all t ids now)
unfolding request_all
request_all-Reach t [] now r = r
request_all-Reach t (id ∷ ids) now r =
    request_all-Reach (append_thread_event t (escalation_draft id) now) ids now
      (append r (escalation_draft id) now)

decide_first-Reach :
    (t : Thread) (ids : List String) (d : Option Decision) (now : String)
    → Reach t
    → Reach (decide_first t ids d now)
unfolding decide_first
decide_first-Reach t ids none now r = r
decide_first-Reach t ids (some d) now r = append r _ now

record-IsRecorded :
    (t : Thread) (now : String)
    → Reach t
    → IsRecorded (record_next_step t (determine_next_step t now 1) now, determine_next_step t now 1)
record-IsRecorded t now r = record {
  before = t;
  reached = r;
  at = now;
  thread_eq = refl;
  next_eq = refl;
}

error_signal-IsRecorded :
    (t : Thread) (names : List String) (now : String)
    → Reach t
    → IsRecorded (record_runtime_error_signal t names now)
unfolding record_runtime_error_signal
error_signal-IsRecorded t names now r = record-IsRecorded _ now (append r _ now)

local_gate-IsRecorded :
    (t : Thread) (context : Option CandidateContext) (reducer : Option CandidateReducer)
    (now : String)
    → Reach t
    → IsRecorded (record_runtime_local_gate t context reducer now)
unfolding record_runtime_local_gate
local_gate-IsRecorded t context reducer now r =
    elim (Bool-cases (gate_ok (gate_checks t context reducer now))) [
      | inl e ↦ rw e (record-IsRecorded _ now (append r gate_draft now))
      | inr e ↦ rw e (error_signal-IsRecorded t _ now r)
    ]

gate_if-IsRecorded :
    (asked : Bool) (context : Option CandidateContext) (reducer : Option CandidateReducer)
    (now : String) (result : Thread × NextStep)
    → IsRecorded result
    → IsRecorded (gate_if asked context reducer now result)
unfolding gate_if
gate_if-IsRecorded true context reducer now (t, n) h =
    local_gate-IsRecorded t context reducer now (IsRecorded-Reach h)
gate_if-IsRecorded false context reducer now (t, n) h = h

error_if-IsRecorded :
    (asked : Bool) (now : String) (result : Thread × NextStep)
    → IsRecorded result
    → IsRecorded (error_if asked now result)
unfolding error_if
error_if-IsRecorded true now (t, n) h = error_signal-IsRecorded t [] now (IsRecorded-Reach h)
error_if-IsRecorded false now (t, n) h = h

module _ (id : String) (context : Option CandidateContext) (reducer : Option CandidateReducer)
    (ids : List String) (decision : Option Decision) (run_gate runtime_error : Bool)
    (now : String) where
  built-IsRecorded :
      IsRecorded (
        build_runtime_thread_from_packets id context reducer ids decision run_gate runtime_error
          now)
  unfolding build_runtime_thread_from_packets
  built-IsRecorded = error_if-IsRecorded runtime_error now _ (
      gate_if-IsRecorded run_gate context reducer now _ (
        record-IsRecorded _ now (
          decide_first-Reach _ ids decision now
            (request_all-Reach _ ids now (prepared-Reach id context reducer now)))))

  -- Whatever the packets, the escalations, the decision, and whether the gate was run or an error
  -- was given: replaying the built thread gives the built thread itself, and its next step has
  -- the type of the step that was returned.
  pub replay-build :
      (later : String)
      → let built =
          build_runtime_thread_from_packets id context reducer ids decision run_gate runtime_error
            now in
        ((replay_runtime_thread built.0 later).0 ≡ built.0)
        × ((replay_runtime_thread built.0 later).1.step_type ≡ built.1.step_type)
  replay-build later = IsRecorded-replay built-IsRecorded later
