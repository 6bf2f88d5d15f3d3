-- ===== src/Tournament/Choice.antt =====
-- `synthesisComparison`, `sortWinnerPool`, `chooseWinner`, `dominates` and `annotatePareto` of
-- scripts/lib/evolution-tournament-scoring.mjs. Scores are JavaScript's numbers, whose comparisons
-- are given.
use misa_cybernetic_evolutio.Prelude.{
  String, Bool, true, false, not, ◌&&◌, ◌||◌, Option, none, some, List, [], ◌∷◌, map, filter, find?,
  str_eq, if◌then◌else◌, truthy, head?, sort, is_none, or_else,
}
use misa_cybernetic_evolutio.Stability.Numbers.{Numbers}
use misa_cybernetic_evolutio.Tournament.Types.{
  Role, incumbent_unchanged, revision_candidate, synthesis_candidate, Scores, Scored, Comparison,
  rejected, winner, loser, Annotated, TournamentTexts,
}

abbrev pub is_incumbent : Role → Bool
is_incumbent incumbent_unchanged = true
is_incumbent _ = false

abbrev pub is_revision : Role → Bool
is_revision revision_candidate = true
is_revision _ = false

abbrev pub is_synthesis : Role → Bool
is_synthesis synthesis_candidate = true
is_synthesis _ = false

abbrev pub no_comparison : Option String → Option String → Comparison
no_comparison revision synthesis = record {
  revision_variant_id = revision;
  synthesis_variant_id = synthesis;
  synthesis_more_restrained_than_revision = false;
  synthesis_metric_within_epsilon = false;
  synthesis_safety_at_least_revision = false;
  synthesis_can_beat_revision = false;
}

abbrev pub has_text : Option String → Bool
has_text none = false
has_text (some s) = truthy s

-- A synthesis that cannot beat the revision of its pool.
abbrev pub is_barred : Comparison → Role → Bool
is_barred c role =
    is_synthesis role && has_text c.revision_variant_id && not c.synthesis_can_beat_revision

module _ (n : Numbers) where
  -- 1 - 0.03
  unfoldable pub kept_share : n.Num
  kept_share = n.sub (n.of_count 1) (n.div (n.of_count 3) (n.of_count 100))

  abbrev pub at_least : n.Num → n.Num → Bool
  at_least x y = n.le y x

  abbrev pub id_of_found : Option (Scored n) → Option String
  id_of_found none = none
  id_of_found (some v) = some v.variant_id

  unfoldable pub compare_pair : Scored n → Scored n → Comparison
  unfolding kept_share
  compare_pair revision synthesis =
      let r : Scores n = revision.scores in
      let s : Scores n = synthesis.scores in
      let restrained = n.le synthesis.restraint_score revision.restraint_score in
      let within = at_least s.composite (n.mul r.composite kept_share) in
      let safe =
        at_least s.safety r.safety
        && at_least s.holdout r.holdout
        && at_least s.regression r.regression in
      record {
        revision_variant_id = some revision.variant_id;
        synthesis_variant_id = some synthesis.variant_id;
        synthesis_more_restrained_than_revision = restrained;
        synthesis_metric_within_epsilon = within;
        synthesis_safety_at_least_revision = safe;
        synthesis_can_beat_revision = restrained && within && safe;
      }

  abbrev pub compare_found : Option (Scored n) → Option (Scored n) → Comparison
  compare_found (some r) (some s) = compare_pair r s
  compare_found (some r) none = no_comparison (some r.variant_id) none
  compare_found none s = no_comparison none (id_of_found s)

  unfoldable pub synthesis_comparison : List (Scored n) → Comparison
  unfolding compare_pair
  synthesis_comparison variants =
      compare_found (find? (λ v. is_revision v.role) variants)
        (find? (λ v. is_synthesis v.role) variants)

  -- `y - x || …` as a test that x comes first: a difference decides, and without one the rest does.
  abbrev pub greater_or : n.Num → n.Num → Bool → Bool
  greater_or x y rest = if n.lt y x then true else if n.lt x y then false else rest

  abbrev pub dominates : Scored n → Scored n → Bool
  dominates a b =
      let x : Scores n = a.scores in
      let y : Scores n = b.scores in
      (at_least x.composite y.composite
        && at_least x.holdout y.holdout
        && at_least x.safety y.safety
        && at_least x.compactness y.compactness)
      && (n.lt y.composite x.composite
          || n.lt y.holdout x.holdout
          || n.lt y.safety x.safety
          || n.lt y.compactness x.compactness)

  abbrev pub first_or : List (Scored n) → List (Scored n) → List (Scored n)
  first_or [] other = other
  first_or (v ∷ vs) other = v ∷ vs

  unfoldable pub pool_of : List (Scored n) → List (Scored n)
  pool_of variants = first_or (filter (λ v. v.hard_gate_passed) variants) variants

  -- The loop of `chooseWinner`.
  unfoldable pub first_allowed : Comparison → List (Scored n) → Option (Scored n)
  first_allowed c [] = none
  first_allowed c (v ∷ vs) = if is_barred c v.role then first_allowed c vs else some v

  module _ (t : TournamentTexts) where
    abbrev pub before : Scored n → Scored n → Bool
    before a b =
        let x : Scores n = a.scores in
        let y : Scores n = b.scores in
        greater_or x.composite y.composite (
          greater_or x.holdout y.holdout (
            greater_or x.safety y.safety (
              if is_incumbent a.role
              then true
              else if is_incumbent b.role
              then false
              else t.locale_le a.variant_id b.variant_id)))

    unfoldable pub sort_winner_pool : List (Scored n) → List (Scored n)
    unfolding sort
    sort_winner_pool = sort before

    unfoldable pub choose_winner : List (Scored n) → Option (Scored n)
    unfolding pool_of synthesis_comparison sort_winner_pool first_allowed
    choose_winner variants =
        let pool = pool_of variants in
        let sorted = sort_winner_pool pool in
        or_else (first_allowed (synthesis_comparison pool) sorted) (head? sorted)

  abbrev pub is_dominator : Scored n → Scored n → Bool
  is_dominator v other =
      not (str_eq other.variant_id v.variant_id) && other.hard_gate_passed && dominates other v

  abbrev pub annotate : List (Scored n) → String → Scored n → Annotated n
  annotate all_variants winner_id v =
      let found = find? (is_dominator v) all_variants in
      let won = str_eq v.variant_id winner_id in
      record {
        variant = v;
        tournament_status =
            if not v.hard_gate_passed then rejected else if won then winner else loser;
        dominated = v.hard_gate_passed && not (is_none found);
        dominated_by = if not v.hard_gate_passed || won then none else id_of_found found;
      }

  unfoldable pub annotate_pareto : List (Scored n) → String → List (Annotated n)
  annotate_pareto variants winner_id = map (annotate variants winner_id) variants
