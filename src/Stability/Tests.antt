-- ===== src/Stability/Tests.antt =====
-- Runs of the measurement and the monitor (scripts/lib/post-deploy-measurement.mjs,
-- scripts/lib/stability-monitor.mjs), and their theorems at concrete tickets and results.
use misa_cybernetic_evolutio.Stability.Review.{
  PostDeployReview, review_post_deploy_tickets, review-recommends,
}
use Prim.Native.Nat.{◌/◌}
use misa_cybernetic_evolutio.Prelude.{
  ℕ, ◌+◌, ◌-◌, ◌*◌, ◌≤◌, String, Bool, true, false, not, ◌≡◌, refl, Option, none, some, List, [],
  ◌∷◌, ◌++◌, any, length, ltb, leb, if◌then◌else◌, All, arith,
}
use misa_cybernetic_evolutio.Stability.Numbers.{Numbers}
use misa_cybernetic_evolutio.Stability.Measurement.{
  Ticket, Measured, returned, and_then, as_finite_number, finite_or_null, measured_ticket,
  measure_numbers, measure_post_deploy_ticket, brought, measured_at,
}
use misa_cybernetic_evolutio.Stability.Remeasure.{as_ticket, measure-measure}
use misa_cybernetic_evolutio.Stability.Monitor.{
  ReplayResult, Replay, Threshold, review_measured, is_divergent, all_frozen_routes,
  normalize_replay_result, measure_all,
}
use misa_cybernetic_evolutio.Stability.SafeMode.{
  IsSkillFailure, Partitions, review-safe_mode, failures-freeze,
}

-- Natural numbers, of which the difference stops at 0.
abbrev naturals : Numbers
naturals = record {
  Num = ℕ;
  Raw = Option ℕ;
  read = λ x. x;
  of_num = λ x. some x;
  of_count = λ x. x;
  add = λ a b. a + b;
  sub = λ a b. a - b;
  mul = λ a b. a * b;
  div = λ a b. a / b;
  neg = λ a. 0;
  abs = λ a. a;
  max = λ a b. if leb a b then b else a;
  min = λ a b. if leb a b then a else b;
  nearest = λ a. a;
  lt = ltb;
  le = leb;
}

abbrev joined : String → String → String
joined a b = a

naturals_floor : (x : ℕ) → naturals.max 0 (naturals.max 0 x) ≡ naturals.max 0 x
naturals_floor x = ground arith

naturals_read :
    (raw : Option ℕ) (x : ℕ)
    → naturals.read raw ≡ some x
    → (naturals.read (naturals.of_num x) ≡ some x)
      × (naturals.read (naturals.of_num (naturals.max 0 x)) ≡ some (naturals.max 0 x))
naturals_read raw x h = (refl, refl)

naturals_compare : (a b : ℕ) → a ≤ b → naturals.le a b ≡ true
naturals_compare a b h = ground (arith, h)

-- The value moves away from its target.
abbrev a_ticket : Ticket naturals joined
a_ticket = record {
  deployment_id = none;
  candidate_id = "memory-1";
  candidate_kind = "memory";
  route_target = none;
  setpoint_metric_id = "memory.pollution_rate";
  target_value = some 20;
  tolerance = some 10;
  direction = "minimize";
  pre_deploy_value = some 50;
  post_deploy_value = some (some 30);
  measurement_window = none;
  evidence = some (brought "{\"source\":\"audit\"}" ∷ []);
}

abbrev a_measured : Measured naturals joined
a_measured = measured_ticket naturals joined "now" a_ticket "memory" 20 10 50 (some 30)

ticket-returned : measure_post_deploy_ticket naturals joined "now" a_ticket ≡ returned a_measured
unfolding measure_post_deploy_ticket measure_numbers and_then as_finite_number finite_or_null
ticket-returned = refl

measure-measure_example :
    measure_post_deploy_ticket naturals joined "later" (as_ticket naturals joined a_measured)
    ≡ returned (record a_measured { evidence = a_measured.evidence ++ measured_at "later" ∷ [] })
measure-measure_example =
    measure-measure naturals joined naturals_read naturals_floor "now" "later" a_ticket a_measured
      ticket-returned

twice_measured :
    a_measured.evidence ++ measured_at "later" ∷ []
    ≡ brought "{\"source\":\"audit\"}" ∷ measured_at "now" ∷ measured_at "later" ∷ []
unfolding measured_ticket
twice_measured = refl

abbrev a_result : Bool → ReplayResult
a_result passes = record {
  candidate_id = some "skill-1";
  source_event_id = none;
  route_target = none;
  replay_passed = none;
  was_passed = some passes;
  was_ok = none;
}

abbrev older : List ReplayResult
older = a_result false ∷ a_result true ∷ []

abbrev recent : List ReplayResult
recent = a_result false ∷ a_result false ∷ a_result false ∷ []

abbrev config : String → Threshold naturals joined
config route = record {
  indicator_id = route;
  route_target = route;
  warning_threshold = 2;
  safe_mode_threshold = 3;
  min_samples = 3;
}

recent-IsSkillFailure : All IsSkillFailure recent
unfolding normalize_replay_result
recent-IsSkillFailure = ((refl, refl), ((refl, refl), ((refl, refl), tt)))

failures-freeze_example :
    let r =
      review_measured naturals joined
        (a_measured ∷ [])
        (older ++ recent)
        (config "memory")
        (config "skill") in
    (r.ok ≡ false) × (r.safe_mode.active ≡ true) × (r.safe_mode.frozen_routes ≡ all_frozen_routes)
failures-freeze_example =
    failures-freeze naturals joined (a_measured ∷ []) older recent (config "memory")
      (config "skill") 3 naturals_compare refl recent-IsSkillFailure (omega arith) (omega arith)

review-safe_mode_example :
    let r =
      review_measured naturals joined
        (a_measured ∷ [])
        (older ++ recent)
        (config "memory")
        (config "skill") in
    (r.ok ≡ not r.safe_mode.active)
    × (r.safe_mode.active ≡ any (λ i. is_divergent i.status) r.indicators)
    × (r.safe_mode_incident_count ≡ r.divergent_indicator_count)
    × Partitions r.safe_mode.allowed_routes r.safe_mode.frozen_routes
review-safe_mode_example =
    review-safe_mode naturals joined (a_measured ∷ []) (older ++ recent) (config "memory")
      (config "skill")

abbrev a_replay : Bool → Replay
a_replay passes = record { candidate_id = "s"; route_target = "skill"; replay_passed = passes }

-- The value gets worse by more than the tolerance.
abbrev bad_ticket : Ticket naturals joined
bad_ticket = record a_ticket { post_deploy_value = some (some 90) }

abbrev bad_measured : Measured naturals joined
bad_measured = measured_ticket naturals joined "now" bad_ticket "memory" 20 10 50 (some 90)

tickets-returned :
    measure_all naturals joined "now" (a_ticket ∷ bad_ticket ∷ [])
    ≡ returned (a_measured ∷ bad_measured ∷ [])
unfolding measure_all measure_post_deploy_ticket measure_numbers and_then as_finite_number
    finite_or_null
tickets-returned = refl

review-recommends_example :
    (r : PostDeployReview naturals joined) × (review_post_deploy_tickets naturals joined "now"
        (a_ticket ∷ bad_ticket ∷ [])
      ≡ returned r)
    × (r.post_deploy_results ≡ a_measured ∷ bad_measured ∷ [])
    × (r.summary.result_count ≡ 2)
    × (r.summary.confirmed_negative_count ≡ length r.rollback_recommendations)
    × (r.summary.confirmed_negative_count ≡ length r.damping_recommendations)
review-recommends_example =
    review-recommends naturals joined naturals_read naturals_floor "now"
      (a_ticket ∷ bad_ticket ∷ []) (a_measured ∷ bad_measured ∷ []) tickets-returned
