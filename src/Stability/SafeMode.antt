-- ===== src/Stability/SafeMode.antt =====
-- When the monitor of scripts/lib/stability-monitor.mjs freezes the routes.
use misa_cybernetic_evolutio.Prelude.{
  ℕ, ◌≤◌, String, Bool, true, false, not, ◌≡◌, refl, ap, ◌∙◌, List, [], ◌∷◌, ◌++◌, map, filter, any,
  length, length-append, ltb, includes, if◌then◌else◌, All, arith, filter-append, filter-All,
}
use misa_cybernetic_evolutio.Stability.Numbers.{Numbers}
use misa_cybernetic_evolutio.Stability.Measurement.{Measured}
use misa_cybernetic_evolutio.Stability.Monitor.{
  ReplayResult, Replay, normalize_replay_result, as_result, is_skill, is_divergent, divergent,
  routes, trailing_failure_streak, Threshold, Indicator, status_for, indicator,
  memory_rollback_indicator, skill_replay_failure_indicator, build_incidents, safe_mode_state,
  Review, review_measured, all_frozen_routes, safe_mode_allowed_routes,
}
use misa_cybernetic_evolutio.Stability.Streak.{Failed, streak-longest}

-- Normalising a normalised result changes nothing.
normalize-again : (r : Replay) → normalize_replay_result (as_result r) ≡ r
unfolding normalize_replay_result
normalize-again r = refl

normalize_all-again : (rs : List Replay) → map normalize_replay_result (map as_result rs) ≡ rs
normalize_all-again [] = refl
normalize_all-again (r ∷ rs) =
    rw (normalize-again r) (ap (λ (xs : List Replay). r ∷ xs) (normalize_all-again rs))

map-append_lists :
    (xs ys : List ReplayResult)
    → map normalize_replay_result (xs ++ ys)
      ≡ map normalize_replay_result xs ++ map normalize_replay_result ys
map-append_lists [] ys = refl
map-append_lists (x ∷ xs) ys =
    ap (λ (rs : List Replay). normalize_replay_result x ∷ rs) (map-append_lists xs ys)

length-map_results : (xs : List ReplayResult) → length (map normalize_replay_result xs) ≡ length xs
length-map_results [] = refl
length-map_results (x ∷ xs) = omega (arith, length-map_results xs)

-- A result is a failed replay of the route `skill`.
abbrev pub IsSkillFailure : ReplayResult → Type 0
IsSkillFailure r =
    (is_skill (normalize_replay_result r) ≡ true) × Failed (normalize_replay_result r)

skill_results_pass :
    (rs : List ReplayResult)
    → All IsSkillFailure rs
    → All (λ r. is_skill r ≡ true) (map normalize_replay_result rs)
skill_results_pass [] h = tt
skill_results_pass (r ∷ rs) h = (h.0.0, skill_results_pass rs h.1)

All-Failed :
    (rs : List ReplayResult) → All IsSkillFailure rs → All Failed (map normalize_replay_result rs)
All-Failed [] h = tt
All-Failed (r ∷ rs) h = (h.0.1, All-Failed rs h.1)

skill_results-append :
    (older recent : List ReplayResult)
    → All IsSkillFailure recent
    → filter is_skill (map normalize_replay_result (older ++ recent))
      ≡ filter is_skill (map normalize_replay_result older) ++ map normalize_replay_result recent
skill_results-append older recent h =
    rw
      (
        map-append_lists older recent,
        filter-append is_skill (map normalize_replay_result older)
            (map normalize_replay_result recent),
        filter-All is_skill (map normalize_replay_result recent) (skill_results_pass recent h),
      )
      refl

-- Every route is allowed or frozen, and none is both.
abbrev pub Partitions : List String → List String → Type 0
Partitions allowed frozen =
    All (λ route. includes allowed route ≡ not (includes frozen route)) routes

either_way :
    (active : Bool)
    → Partitions
        (if active then safe_mode_allowed_routes else routes)
        (if active then all_frozen_routes else [])
either_way true = (refl, (refl, (refl, (refl, (refl, (refl, tt))))))
either_way false = (refl, (refl, (refl, (refl, (refl, (refl, tt))))))

module _ (n : Numbers) (deploy_id : String → String → String) where
  -- Of an indicator that is built: the incident is there exactly where its status is `divergent`.
  abbrev Agrees : Indicator n deploy_id → Type 0
  Agrees i = i.safe_mode_triggered ≡ is_divergent i.status

  indicator-Agrees :
      (config : Threshold n deploy_id) (value : n.Num) (sample_count numerator denominator : ℕ)
      (evidence : List String)
      → Agrees (indicator n deploy_id config value sample_count numerator denominator evidence)
  unfolding indicator
  indicator-Agrees config value sample_count numerator denominator evidence = refl

  incidents-divergent :
      (indicators : List (Indicator n deploy_id))
      → All Agrees indicators
      → build_incidents n deploy_id indicators ≡ filter (λ i. is_divergent i.status) indicators
  unfolding build_incidents
  incidents-divergent [] h = refl
  incidents-divergent (i ∷ is) h = ground (arith, h.0, incidents-divergent is h.1)

  active-divergent :
      (indicators : List (Indicator n deploy_id))
      → All Agrees indicators
      → ltb 0 (length (build_incidents n deploy_id indicators))
        ≡ any (λ i. is_divergent i.status) indicators
  unfolding build_incidents
  active-divergent [] h = refl
  active-divergent (i ∷ is) h = ground (arith, h.0, active-divergent is h.1)

  state-Partitions :
      (incidents : List (Indicator n deploy_id))
      → Partitions
          (safe_mode_state n deploy_id incidents).allowed_routes
          (safe_mode_state n deploy_id incidents).frozen_routes
  unfolding safe_mode_state
  state-Partitions incidents = either_way (ltb 0 (length incidents))

  state-frozen :
      (incidents : List (Indicator n deploy_id))
      → (safe_mode_state n deploy_id incidents).active ≡ true
      → (safe_mode_state n deploy_id incidents).frozen_routes ≡ all_frozen_routes
  unfolding safe_mode_state
  state-frozen incidents h = rw h refl

  status-divergent :
      (count : ℕ) (config : Threshold n deploy_id) (value : n.Num)
      → config.min_samples ≤ count
      → n.le config.safe_mode_threshold value ≡ true
      → status_for n deploy_id count config value ≡ divergent
  unfolding status_for
  status-divergent count config value h k = ground (arith, h, k)

  module _ (tickets : List (Measured n deploy_id)) (results : List ReplayResult)
      (memory_config skill_config : Threshold n deploy_id) where
    abbrev pub reviewed : Review n deploy_id
    reviewed = review_measured n deploy_id tickets results memory_config skill_config

    reviewed-Agrees : All Agrees reviewed.indicators
    unfolding review_measured memory_rollback_indicator skill_replay_failure_indicator indicator
    reviewed-Agrees = (refl, (refl, tt))

    -- The review is good exactly where safe mode is off; safe mode is on exactly where some indicator
    -- diverges; there are as many incidents as divergent indicators; and in both modes every
    -- route is either allowed or frozen, and not both.
    pub review-safe_mode :
        let r = review_measured n deploy_id tickets results memory_config skill_config in
        (r.ok ≡ not r.safe_mode.active)
        × (r.safe_mode.active ≡ any (λ i. is_divergent i.status) r.indicators)
        × (r.safe_mode_incident_count ≡ r.divergent_indicator_count)
        × Partitions r.safe_mode.allowed_routes r.safe_mode.frozen_routes
    unfolding review_measured safe_mode_state
    review-safe_mode = (
      refl,
      active-divergent reviewed.indicators reviewed-Agrees,
      ap (λ (is : List (Indicator n deploy_id)). length is)
          (incidents-divergent reviewed.indicators reviewed-Agrees),
      state-Partitions reviewed.incidents,
    )

  -- The second indicator diverges on results that end with enough failures.
  skill-divergent :
      (older recent : List ReplayResult) (config : Threshold n deploy_id) (threshold : ℕ)
      → ((a b : ℕ) → a ≤ b → n.le (n.of_count a) (n.of_count b) ≡ true)
      → config.safe_mode_threshold ≡ n.of_count threshold
      → All IsSkillFailure recent
      → threshold ≤ length recent
      → config.min_samples ≤ length recent
      → (skill_replay_failure_indicator n deploy_id
          (map as_result (map normalize_replay_result (older ++ recent)))
          config).status
        ≡ divergent
  unfolding skill_replay_failure_indicator indicator
  skill-divergent older recent config threshold compares e failed k s =
      let before = filter is_skill (map normalize_replay_result older) in
      let tail = map normalize_replay_result recent in
      let long = length-map_results recent in
      let total = length-append before tail in
      let streak = streak-longest before tail (All-Failed recent failed) in
      rw
        (
          normalize_all-again (map normalize_replay_result (older ++ recent)),
          skill_results-append older recent failed,
        )
        (status-divergent (length (before ++ tail)) config
          (n.of_count (trailing_failure_streak (before ++ tail))) (omega (arith, long, total, s))
          (rw e (
            compares threshold (trailing_failure_streak (before ++ tail))
              (omega (arith, long, streak, k)))))

  -- Where counts are compared as numbers are: a review of results that end with failed replays of the
  -- route `skill`, at least as many as the safe mode threshold and the fewest samples, is not good;
  -- safe mode is on, and the routes memory, skill, case and policy are frozen, whatever came
  -- before and whatever was measured.
  pub failures-freeze :
      (tickets : List (Measured n deploy_id)) (older recent : List ReplayResult)
      (memory_config skill_config : Threshold n deploy_id) (threshold : ℕ)
      → ((a b : ℕ) → a ≤ b → n.le (n.of_count a) (n.of_count b) ≡ true)
      → skill_config.safe_mode_threshold ≡ n.of_count threshold
      → All IsSkillFailure recent
      → threshold ≤ length recent
      → skill_config.min_samples ≤ length recent
      → let r = review_measured n deploy_id tickets (older ++ recent) memory_config skill_config in
        (r.ok ≡ false)
        × (r.safe_mode.active ≡ true)
        × (r.safe_mode.frozen_routes ≡ all_frozen_routes)
  failures-freeze tickets older recent memory_config skill_config threshold compares e failed k s =
      let results = older ++ recent in
      let diverges = skill-divergent older recent skill_config threshold compares e failed k s in
      let (good, on, _, _) = review-safe_mode tickets results memory_config skill_config in
      let active : (reviewed tickets results memory_config skill_config).safe_mode.active ≡ true =
        on ∙ (unfold review_measured in rw diverges (ground arith)) in
      (
        good ∙ ap (λ (b : Bool). not b) active,
        active,
        unfold review_measured in
            state-frozen (reviewed tickets results memory_config skill_config).incidents active,
      )
