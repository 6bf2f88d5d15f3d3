-- ===== src/Tournament/Build.antt =====
-- `buildTournament` of scripts/lib/evolution-tournament-scoring.mjs: the scored variants, the winner and the
-- standing of each variant.
use misa_cybernetic_evolutio.Prelude.{Option, none, some, List, map}
use misa_cybernetic_evolutio.Stability.Numbers.{Numbers}
use misa_cybernetic_evolutio.Tournament.Types.{
  Candidate, Variant, Constraints, Scored, Annotated, TournamentTexts,
}
use misa_cybernetic_evolutio.Tournament.Constraints.{
  role_for_strategy, build_variants, evaluate_constraints,
}
use misa_cybernetic_evolutio.Tournament.Scoring.{score_variant}
use misa_cybernetic_evolutio.Tournament.Footprint.{restraint_score_of}
use misa_cybernetic_evolutio.Tournament.Choice.{choose_winner, annotate_pareto}

pub record Tournament (n : Numbers) : Type 0 where
  pub winner : Scored n
  pub variants : List (Annotated n)

module _ (n : Numbers) (t : TournamentTexts) where
  abbrev pub scored_variant : Candidate → Variant → Scored n
  scored_variant candidate v =
      let constraints : Constraints = evaluate_constraints t candidate v in
      record {
        variant_id = v.variant_id;
        requested_operations = v.requested_operations;
        hard_gate_passed = constraints.hard_gate_passed;
        blocked_requests = constraints.blocked_requests;
        role = role_for_strategy v.strategy;
        restraint_score = restraint_score_of n t v;
        scores = score_variant n t candidate v;
      }

  unfoldable pub scored_variants : Candidate → List (Scored n)
  unfolding build_variants evaluate_constraints score_variant restraint_score_of
  scored_variants candidate = map (scored_variant candidate) (build_variants t candidate)

  abbrev pub with_winner : List (Scored n) → Option (Scored n) → Option (Tournament n)
  with_winner scored none = none
  with_winner scored (some w) =
      some (record { winner = w; variants = annotate_pareto n scored w.variant_id })

  unfoldable pub build_tournament : Candidate → Option (Tournament n)
  unfolding scored_variants choose_winner annotate_pareto
  build_tournament candidate =
      let scored = scored_variants candidate in with_winner scored (choose_winner n t scored)
