-- ===== src/Tournament/Footprint.antt =====
-- The restraint score of `buildControlFootprint` of scripts/lib/evolution-tournament-scoring.mjs.
use misa_cybernetic_evolutio.Prelude.{
  ◌+◌, String, List, [], ◌∷◌, ◌++◌, map, filter, length, includes,
}
use misa_cybernetic_evolutio.Stability.Numbers.{Numbers, round}
use misa_cybernetic_evolutio.Tournament.Types.{
  Strategy, baseline, trace_reflective, pareto_compact, aggressive_auto_publish, Role,
  incumbent_unchanged, negative_probe, Variant, TournamentTexts,
}
use misa_cybernetic_evolutio.Tournament.Constraints.{
  blocked_operations, role_for_strategy, unique_strings,
}
use misa_cybernetic_evolutio.Tournament.Scoring.{zero_num, one, novelty_of}

abbrev pub surfaces_of : Strategy → List String
surfaces_of baseline = "draft_report" ∷ []
surfaces_of trace_reflective = "draft_report" ∷ "local_eval_metadata" ∷ []
surfaces_of pareto_compact = "draft_report" ∷ []
surfaces_of aggressive_auto_publish = "draft_report" ∷ "persistent_state" ∷ "skill_registry" ∷ []

module _ (n : Numbers) (t : TournamentTexts) where
  abbrev pub setpoints_of : Role → String → List String
  setpoints_of incumbent_unchanged route = []
  setpoints_of negative_probe route =
      unique_strings t (t.route_text route ∷ "promotion_surface" ∷ [])
  setpoints_of _ route = unique_strings t (t.route_text route ∷ [])

  abbrev pub actuators_of : Role → Variant → List String
  actuators_of incumbent_unchanged v = []
  actuators_of _ v =
      unique_strings t
        (map t.surface_text (surfaces_of v.strategy) ++ map t.operation_text v.requested_operations)

  abbrev pub unless_incumbent : Role → n.Num → n.Num
  unless_incumbent incumbent_unchanged x = zero_num n
  unless_incumbent _ x = x

  unfoldable pub restraint_score_of : Variant → n.Num
  unfolding unique_strings round
  restraint_score_of v =
      let role = role_for_strategy v.strategy in
      let setpoints = setpoints_of role v.route_target in
      let actuators = actuators_of role v in
      let blocked = filter (includes blocked_operations) v.requested_operations in
      let route_pressure = unless_incumbent role (round n (novelty_of n v.strategy)) in
      let surface_pressure =
        unless_incumbent role
          (round n (n.min (one n) (n.div (n.of_count (length actuators)) (n.of_count 4)))) in
      let blocked_pressure =
        round n (n.min (one n) (n.div (n.of_count (length blocked)) (n.of_count 3))) in
      let delta = round n (
        n.add (n.add (n.add (zero_num n) (n.abs route_pressure)) (n.abs surface_pressure))
          (n.abs blocked_pressure)) in
      round n (n.add (n.of_count (length setpoints + length actuators)) delta)
