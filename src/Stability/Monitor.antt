-- ===== src/Stability/Monitor.antt =====
-- The indicators, incidents and safe mode of scripts/lib/stability-monitor.mjs.
use misa_cybernetic_evolutio.Prelude.{
  ℕ, ◌+◌, ◌-◌, String, Bool, true, false, not, ◌&&◌, Option, none, some, List, [], ◌∷◌, map, filter,
  length, ltb, ◌==◌, str_eq, get_or, or_else, if◌then◌else◌,
}
use misa_cybernetic_evolutio.Stability.Numbers.{Numbers, round}
use misa_cybernetic_evolutio.Stability.Measurement.{
  PostDeployDecision, pending, is_negative, Outcome, returned, and_then, Ticket, Measured,
  measure_post_deploy_ticket,
}

pub data IndicatorStatus : Type 0 where
  insufficient_data divergent warning stable : IndicatorStatus

abbrev pub is_divergent : IndicatorStatus → Bool
is_divergent divergent = true
is_divergent _ = false

abbrev pub is_warning : IndicatorStatus → Bool
is_warning warning = true
is_warning _ = false

abbrev pub is_insufficient : IndicatorStatus → Bool
is_insufficient insufficient_data = true
is_insufficient _ = false

abbrev pub is_pending : PostDeployDecision → Bool
is_pending pending = true
is_pending _ = false

abbrev pub routes : List String
routes = "memory" ∷ "skill" ∷ "case" ∷ "policy" ∷ "damping" ∷ "ignore" ∷ []

abbrev pub safe_mode_allowed_routes : List String
safe_mode_allowed_routes = "damping" ∷ "ignore" ∷ []

abbrev pub all_frozen_routes : List String
all_frozen_routes = "memory" ∷ "skill" ∷ "case" ∷ "policy" ∷ []

-- A replay result as it is given, and as `normalizeReplayResult` makes it.
pub record ReplayResult : Type 0 where
  pub candidate_id : Option String
  pub source_event_id : Option String
  pub route_target : Option String
  pub replay_passed : Option Bool
  pub was_passed : Option Bool  -- passed
  pub was_ok : Option Bool  -- ok

pub record Replay : Type 0 where
  pub candidate_id : String
  pub route_target : String
  pub replay_passed : Bool

unfoldable pub normalize_replay_result : ReplayResult → Replay
normalize_replay_result r = record {
  candidate_id = get_or (or_else r.candidate_id r.source_event_id) "unknown-skill-candidate";
  route_target = get_or r.route_target "skill";
  replay_passed = get_or (or_else (or_else r.replay_passed r.was_passed) r.was_ok) false;
}

abbrev pub as_result : Replay → ReplayResult
as_result r = record {
  candidate_id = some r.candidate_id;
  source_event_id = none;
  route_target = some r.route_target;
  replay_passed = some r.replay_passed;
  was_passed = none;
  was_ok = none;
}

unfoldable pub reverse_onto : List Replay → List Replay → List Replay
reverse_onto [] ys = ys
reverse_onto (x ∷ xs) ys = reverse_onto xs (x ∷ ys)

-- The loop over the reversed results, up to the first that passed.
unfoldable pub leading_failures : List Replay → ℕ
leading_failures [] = 0
leading_failures (r ∷ rs) =
    let rest = leading_failures rs in if r.replay_passed then 0 else rest + 1

unfoldable pub trailing_failure_streak : List Replay → ℕ
unfolding leading_failures reverse_onto
trailing_failure_streak results = leading_failures (reverse_onto results [])

-- `results.slice(k)`
unfoldable pub drop : ℕ → List Replay → List Replay
drop k [] = []
drop k (x ∷ xs) = let rest = drop (k - 1) xs in if k == 0 then x ∷ xs else rest

unfoldable pub failed_tail : List Replay → List Replay
unfolding drop trailing_failure_streak
failed_tail results = drop (length results - trailing_failure_streak results) results

pub record SafeMode : Type 0 where
  pub active : Bool
  pub allowed_routes : List String
  pub frozen_routes : List String
  pub requires_human_release : Bool

abbrev pub is_skill : Replay → Bool
is_skill r = str_eq r.route_target "skill"

module _ (n : Numbers) (deploy_id : String → String → String) where
  pub record Threshold : Type 0 where
    pub indicator_id : String
    pub route_target : String
    pub warning_threshold : n.Num
    pub safe_mode_threshold : n.Num
    pub min_samples : ℕ

  pub record Indicator : Type 0 where
    pub indicator_id : String
    pub route_target : String
    pub value : n.Num
    pub safe_mode_threshold : n.Num
    pub sample_count : ℕ
    pub numerator : ℕ
    pub denominator : ℕ
    pub status : IndicatorStatus
    pub safe_mode_triggered : Bool
    pub evidence : List String

  unfoldable pub status_for : ℕ → Threshold → n.Num → IndicatorStatus
  status_for sample_count config value =
      if ltb sample_count config.min_samples
      then insufficient_data
      else if n.le config.safe_mode_threshold value
      then divergent
      else if n.le config.warning_threshold value
      then warning
      else stable

  unfoldable pub indicator : Threshold → n.Num → ℕ → ℕ → ℕ → List String → Indicator
  unfolding status_for round
  indicator config value sample_count numerator denominator evidence =
      let status = status_for sample_count config value in
      record {
        indicator_id = config.indicator_id;
        route_target = config.route_target;
        value = round n value;
        safe_mode_threshold = config.safe_mode_threshold;
        sample_count = sample_count;
        numerator = numerator;
        denominator = denominator;
        status = status;
        safe_mode_triggered = is_divergent status;
        evidence = evidence;
      }

  abbrev pub counts_for_memory : Measured n deploy_id → Bool
  counts_for_memory t = str_eq t.route_target "memory" && not (is_pending t.decision_at_window_end)

  unfoldable pub memory_rollback_indicator : List (Measured n deploy_id) → Threshold → Indicator
  unfolding indicator
  memory_rollback_indicator tickets config =
      let memory_tickets = filter counts_for_memory tickets in
      let negative = filter (λ t. is_negative t.decision_at_window_end) memory_tickets in
      let total = length memory_tickets in
      let value : n.Num =
        if total == 0
        then n.of_count 0
        else n.div (n.of_count (length negative)) (n.of_count total) in
      indicator config value total (length negative) total (map (λ t. t.deployment_id) negative)

  unfoldable pub skill_replay_failure_indicator : List ReplayResult → Threshold → Indicator
  unfolding indicator trailing_failure_streak failed_tail normalize_replay_result
  skill_replay_failure_indicator results config =
      let skill_results = filter is_skill (map normalize_replay_result results) in
      let streak = trailing_failure_streak skill_results in
      indicator config (n.of_count streak) (length skill_results) streak (length skill_results)
        (map (λ r. r.candidate_id) (failed_tail skill_results))

  -- The indicators whose incidents are written; their ids, texts and times are left out.
  unfoldable pub build_incidents : List Indicator → List Indicator
  build_incidents indicators = filter (λ i. i.safe_mode_triggered) indicators

  unfoldable pub safe_mode_state : List Indicator → SafeMode
  safe_mode_state incidents =
      let active = ltb 0 (length incidents) in
      record {
        active = active;
        allowed_routes = if active then safe_mode_allowed_routes else routes;
        frozen_routes = if active then all_frozen_routes else [];
        requires_human_release = active;
      }

  pub record Review : Type 0 where
    pub ok : Bool
    pub safe_mode : SafeMode
    pub indicators : List Indicator
    pub incidents : List Indicator
    pub divergent_indicator_count : ℕ
    pub warning_indicator_count : ℕ
    pub insufficient_data_indicator_count : ℕ
    pub safe_mode_incident_count : ℕ
    pub post_deploy_ticket_count : ℕ
    pub skill_replay_result_count : ℕ

  -- `normalizePostDeployTickets`: the first ticket that throws ends it.
  unfoldable pub measure_all :
      (now : String) → List (Ticket n deploy_id) → Outcome (List (Measured n deploy_id))
  unfolding and_then
  measure_all now [] = returned []
  measure_all now (t ∷ ts) =
      and_then (measure_post_deploy_ticket n deploy_id now t)
        (λ m. and_then (measure_all now ts) (λ ms. returned (m ∷ ms)))

  -- The review once the tickets are measured. The results are normalised here and again in the
  -- indicator.
  unfoldable pub review_measured :
      List (Measured n deploy_id) → List ReplayResult → Threshold → Threshold → Review
  unfolding memory_rollback_indicator skill_replay_failure_indicator build_incidents safe_mode_state
      normalize_replay_result
  review_measured tickets results memory_config skill_config =
      let normalized = map normalize_replay_result results in
      let indicators =
        memory_rollback_indicator tickets memory_config
        ∷ skill_replay_failure_indicator (map as_result normalized) skill_config
        ∷ [] in
      let incidents = build_incidents indicators in
      let mode = safe_mode_state incidents in
      record {
        ok = not mode.active;
        safe_mode = mode;
        indicators = indicators;
        incidents = incidents;
        divergent_indicator_count = length (filter (λ i. is_divergent i.status) indicators);
        warning_indicator_count = length (filter (λ i. is_warning i.status) indicators);
        insufficient_data_indicator_count =
            length (filter (λ i. is_insufficient i.status) indicators);
        safe_mode_incident_count = length incidents;
        post_deploy_ticket_count = length tickets;
        skill_replay_result_count = length normalized;
      }

  unfoldable pub review_stability_indicators :
      (now : String)
      → List (Ticket n deploy_id)
      → List ReplayResult
      → Threshold
      → Threshold
      → Outcome Review
  unfolding measure_all review_measured and_then
  review_stability_indicators now tickets results memory_config skill_config =
      and_then (measure_all now tickets)
        (λ measured. returned (review_measured measured results memory_config skill_config))
