-- ===== src/Tournament/Tests.antt =====
-- The tournament of scripts/lib/evolution-tournament-scoring.mjs at concrete scores, in thousandths.
use misa_cybernetic_evolutio.Tournament.Constraints.{evaluate_constraints}
use misa_cybernetic_evolutio.Tournament.Scoring.{score_variant}
use misa_cybernetic_evolutio.Tournament.Losers.{loser_ledger}
use misa_cybernetic_evolutio.Tournament.Ledger.{IsFair, loser_ledger-IsFair}
use Prim.Native.Nat.{◌/◌}
use misa_cybernetic_evolutio.Prelude.{
  ℕ, ◌+◌, ◌-◌, ◌*◌, String, true, false, not, ◌&&◌, ◌||◌, ◌≡◌, refl, some, List, [], ◌∷◌, any, ltb,
  leb, if◌then◌else◌, arith, All, Option, none, find?,
}
use misa_cybernetic_evolutio.Stability.Numbers.{Numbers}
use misa_cybernetic_evolutio.Tournament.Types.{
  Role, incumbent_unchanged, revision_candidate, synthesis_candidate, Candidate, Scored,
  TournamentTexts,
}
use misa_cybernetic_evolutio.Tournament.Choice.{
  is_barred, synthesis_comparison, compare_pair, dominates, pool_of, choose_winner, is_revision,
}
use misa_cybernetic_evolutio.Tournament.Build.{Tournament, scored_variants, build_tournament}
use misa_cybernetic_evolutio.Tournament.Synthesis.{choose_winner-synthesis, Beats}
use misa_cybernetic_evolutio.Tournament.Pareto.{is_only_more_compact, choose_winner-dominates}
use misa_cybernetic_evolutio.Tournament.Blocked.{build_tournament-asks_nothing}

abbrev counts : Numbers
counts = record {
  Num = ℕ;
  Raw = ℕ;
  read = λ x. some x;
  of_num = λ x. x;
  of_count = λ x. x;
  add = λ a b. a + b;
  sub = λ a b. a - b;
  mul = λ a b. a * b;
  div = λ a b. a / b;
  neg = λ a. 0;
  abs = λ a. a;
  max = λ a b. if leb a b then b else a;
  min = λ a b. if leb a b then a else b;
  nearest = λ a. a;
  lt = ltb;
  le = leb;
}

abbrev sample_texts : TournamentTexts
sample_texts = record {
  trim = λ s. s;
  locale_le = λ a b. true;
  id_of = λ candidate strategy. candidate;
  change_tokens_of = λ candidate strategy. 20;
  outline_tokens_of = λ strategy. 30;
  is_source_backed = λ id. false;
  route_text = λ s. s;
  surface_text = λ s. s;
  operation_text = λ s. s;
}

abbrev scored : String → Role → (composite compactness : ℕ) → Scored counts
scored id role composite compactness = record {
  variant_id = id;
  requested_operations = [];
  hard_gate_passed = true;
  blocked_requests = [];
  role = role;
  restraint_score = 3;
  scores = record {
    route_fit = 1000;
    evidence_fit = 1000;
    train = 1000;
    validation = 1000;
    holdout = 1000;
    safety = 1000;
    compactness = compactness;
    novelty = 150;
    strategy_fit = 580;
    regression = 1000;
    composite = composite;
  };
}

abbrev incumbent : Scored counts
incumbent = scored "baseline" incumbent_unchanged 900 700

abbrev synthesis : Scored counts
synthesis = scored "synthesis" synthesis_candidate 920 900

abbrev revision : Scored counts
revision = scored "revision" revision_candidate 910 600

abbrev field : List (Scored counts)
field = incumbent ∷ synthesis ∷ revision ∷ []

synthesis_wins : choose_winner counts sample_texts field ≡ some synthesis
unfolding choose_winner synthesis_comparison compare_pair
synthesis_wins = refl

counts_asym : (x y : ℕ) → ltb x y ≡ true → ltb y x ≡ false
counts_asym x y h = ground (arith, h)

counts_trans : (x y z : ℕ) → ltb x y ≡ false → ltb y z ≡ false → ltb x z ≡ false
counts_trans x y z h k = ground (arith, h, k)

counts_le : (x y : ℕ) → leb x y ≡ not (ltb y x)
counts_le x y = ground arith

choose_winner-synthesis_example :
    (r : Scored counts) × (find? (λ v. is_revision v.role) (pool_of counts field) ≡ some r)
    × Beats counts synthesis r
unfolding synthesis_comparison pool_of compare_pair
choose_winner-synthesis_example =
    choose_winner-synthesis counts sample_texts field synthesis synthesis_wins refl (omega arith)
      refl

abbrev level_field : List (Scored counts)
level_field =
    scored "first" revision_candidate 920 900 ∷ scored "second" revision_candidate 920 950 ∷ []

first_wins :
    choose_winner counts sample_texts level_field ≡ some (scored "first" revision_candidate 920 900)
unfolding choose_winner synthesis_comparison compare_pair
first_wins = refl

choose_winner-dominates_example :
    let w = scored "first" revision_candidate 920 900 in
    any
      (λ v.
        dominates counts v w
        && not (
            is_barred (synthesis_comparison counts (pool_of counts level_field)) v.role
            || is_only_more_compact counts v w))
      (pool_of counts level_field)
    ≡ false
choose_winner-dominates_example =
    choose_winner-dominates counts counts_le sample_texts counts_asym counts_trans (λ a b h. refl)
      (λ a b c h k. refl) level_field (scored "first" revision_candidate 920 900) first_wins

abbrev a_candidate : Candidate
a_candidate = record {
  candidate_id = "c1";
  route_target = "skill";
  source_event_id = "e1";
  has_evidence = true;
  evidence_count = 3;
  risk_level = "low";
  normalized_signals = [];
  commands = "npm test" ∷ [];
}

build_tournament-asks_nothing_example :
    (result : Tournament counts) × (build_tournament counts sample_texts a_candidate ≡ some result)
    × (result.winner.hard_gate_passed ≡ true)
    × (result.winner.requested_operations ≡ [])
unfolding scored_variants
build_tournament-asks_nothing_example =
    build_tournament-asks_nothing sample_texts (λ s h. refl) counts a_candidate refl

abbrev winner_or : Option (Tournament counts) → Tournament counts
winner_or none = record { winner = synthesis; variants = [] }
winner_or (some result) = result

abbrev a_result : Tournament counts
a_result = winner_or (build_tournament counts sample_texts a_candidate)

a_result_built : build_tournament counts sample_texts a_candidate ≡ some a_result
unfolding build_tournament choose_winner synthesis_comparison compare_pair scored_variants
    evaluate_constraints score_variant
a_result_built = refl

loser_ledger-IsFair_example :
    All (IsFair counts a_result.winner.variant_id) (loser_ledger counts a_candidate a_result)
loser_ledger-IsFair_example =
    loser_ledger-IsFair counts sample_texts a_candidate a_result a_result_built
