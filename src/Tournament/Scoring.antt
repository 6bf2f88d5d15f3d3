-- ===== src/Tournament/Scoring.antt =====
-- `buildEvalCases`, `scoreEvalCase`, `splitScore`, `strategyFitScore` and `scoreVariant` of
-- scripts/lib/evolution-tournament-scoring.mjs. A literal such as 0.58 is the number nearest to
-- 58/100, which the division of the two counts gives.
use misa_cybernetic_evolutio.Prelude.{
  ℕ, ◌+◌, String, Bool, true, false, ◌||◌, List, [], ◌∷◌, map, filter, length, all, leb, str_eq,
  if◌then◌else◌, includes,
}
use misa_cybernetic_evolutio.Stability.Numbers.{Numbers, round}
use misa_cybernetic_evolutio.Tournament.Types.{
  Strategy, baseline, trace_reflective, pareto_compact, aggressive_auto_publish, Candidate, Variant,
  Checks, Constraints, Scores, Split, train, validation, holdout, TournamentTexts,
}
use misa_cybernetic_evolutio.Tournament.Constraints.{evaluate_constraints}

-- What a case requires of the checks.
pub record EvalCase : Type 0 where
  pub split : Split
  pub required_checks : Checks → List Bool

abbrev pub eval_cases : List EvalCase
eval_cases =
    record {
      split = train;
      required_checks = λ c. c.route_preserved ∷ c.source_trace_preserved ∷ [];
    }
    ∷ record {
      split = validation;
      required_checks = λ c. c.evidence_preserved ∷ c.verification_commands_preserved ∷ [];
    }
    ∷ record {
      split = holdout;
      required_checks = λ c. c.no_blocked_operations ∷ c.no_live_effects ∷ c.production_locked ∷ [];
    }
    ∷ record {
      split = holdout;
      required_checks =
          λ c. c.publication_locked ∷ c.llm_route_decision_blocked ∷ c.route_preserved ∷ [];
    }
    ∷ []

pub record CaseResult : Type 0 where
  pub split : Split
  pub passed : Bool

abbrev pub score_eval_case : Checks → EvalCase → CaseResult
score_eval_case checks c = record {
  split = c.split;
  passed = all (λ b. b) (c.required_checks checks);
}

abbrev pub is_split : Split → Split → Bool
is_split train train = true
is_split validation validation = true
is_split holdout holdout = true
is_split _ _ = false

abbrev pub is_grave : String → Bool
is_grave risk = str_eq risk "high" || str_eq risk "critical"

abbrev pub smaller : ℕ → ℕ → ℕ
smaller a b = if leb a b then a else b

module _ (n : Numbers) where
  abbrev pub zero_num : n.Num
  zero_num = n.of_count 0

  abbrev pub one : n.Num
  one = n.of_count 1

  -- Hundredths.
  abbrev pub hundredths : ℕ → n.Num
  hundredths k = n.div (n.of_count k) (n.of_count 100)

  abbrev pub clamp01 : n.Num → n.Num
  clamp01 value = n.min one (n.max zero_num value)

  abbrev pub sum_scores : n.Num → List CaseResult → n.Num
  sum_scores sum [] = sum
  sum_scores sum (r ∷ results) = sum_scores (n.add sum (if r.passed then one else zero_num)) results

  abbrev pub average_of : List CaseResult → n.Num
  average_of [] = zero_num
  average_of (r ∷ results) =
      n.div (sum_scores zero_num (r ∷ results)) (n.of_count (length (r ∷ results)))

  unfoldable pub split_score : List CaseResult → Split → n.Num
  split_score results split = average_of (filter (λ r. is_split r.split split) results)

  abbrev pub novelty_of : Strategy → n.Num
  novelty_of baseline = hundredths 15
  novelty_of trace_reflective = hundredths 74
  novelty_of pareto_compact = hundredths 58
  novelty_of aggressive_auto_publish = hundredths 95

  -- `x + (test ? k / 100 : 0)` and the same with a difference.
  abbrev pub plus : n.Num → Bool × ℕ → n.Num
  plus x p = n.add x (if p.0 then hundredths p.1 else zero_num)

  abbrev pub minus : n.Num → Bool × ℕ → n.Num
  minus x p = n.sub x (if p.0 then hundredths p.1 else zero_num)

  module _ (t : TournamentTexts) where
    unfoldable pub strategy_fit_score : Candidate → Strategy → n.Num
    strategy_fit_score candidate baseline =
        let route = str_eq candidate.route_target in
        clamp01 (
          minus
            (minus
              (plus
                (plus (plus (hundredths 58) (route "damping", 30))
                  (leb candidate.evidence_count 2, 16))
                (str_eq candidate.risk_level "low", 8))
              (is_grave candidate.risk_level, 14))
            (route "policy", 12))
    strategy_fit_score candidate trace_reflective =
        let route = str_eq candidate.route_target in
        let signal = includes candidate.normalized_signals in
        clamp01 (
          plus
            (plus
              (plus
                (plus
                  (plus
                    (plus (plus (plus (hundredths 62) (route "policy", 24)) (route "case", 22))
                      (route "skill", 10))
                    (is_grave candidate.risk_level, 10))
                  (t.is_source_backed candidate.candidate_id, 5))
                (signal "repeated_failure_pattern", 5))
              (signal "public_posting_boundary", 5))
            (signal "real_chat_validation_required", 4))
    strategy_fit_score candidate pareto_compact =
        let route = str_eq candidate.route_target in
        let signal = includes candidate.normalized_signals in
        clamp01 (
          minus
            (minus
              (minus
                (minus
                  (plus
                    (plus (plus (plus (hundredths 70) (route "memory", 20)) (route "skill", 12))
                      (str_eq candidate.risk_level "low", 8))
                    (leb 4 candidate.evidence_count, 6))
                  (route "policy", 18))
                (route "case", 10))
              (route "damping", 12))
            (signal "public_posting_boundary", 8))
    strategy_fit_score candidate aggressive_auto_publish = hundredths 10

    unfoldable pub score_variant : Candidate → Variant → Scores n
    unfolding evaluate_constraints split_score strategy_fit_score round
    score_variant candidate v =
        let constraints : Constraints = evaluate_constraints t candidate v in
        let checks : Checks = constraints.checks in
        let passed = constraints.hard_gate_passed in
        let results = map (score_eval_case checks) eval_cases in
        let evidence = n.div (n.of_count (smaller candidate.evidence_count 4)) (n.of_count 4) in
        let route_fit = if checks.route_preserved then one else hundredths 35 in
        let evidence_fit =
          if checks.evidence_preserved then n.max (hundredths 55) evidence else hundredths 25 in
        let safety =
          if passed
          then one
          else n.max zero_num (
              n.sub (hundredths 45)
                (n.mul (n.of_count constraints.violation_count) (hundredths 6))) in
        let compactness =
          n.max (hundredths 20) (
            n.sub one (n.div (n.of_count (v.change_tokens + v.outline_tokens)) (n.of_count 180))) in
        let train_score = split_score results train in
        let validation_score = split_score results validation in
        let holdout_score = split_score results holdout in
        let novelty = novelty_of v.strategy in
        let fit = strategy_fit_score candidate v.strategy in
        let raw =
          n.add
            (n.add
              (n.add
                (n.add
                  (n.add
                    (n.add
                      (n.add
                        (n.add (n.mul route_fit (hundredths 16))
                          (n.mul evidence_fit (hundredths 16)))
                        (n.mul train_score (hundredths 10)))
                      (n.mul validation_score (hundredths 10)))
                    (n.mul holdout_score (hundredths 16)))
                  (n.mul safety (hundredths 14)))
                (n.mul compactness (hundredths 5)))
              (n.mul novelty (hundredths 4)))
            (n.mul fit (hundredths 9)) in
        let composite = if passed then raw else n.sub raw (hundredths 35) in
        record {
          route_fit = round n route_fit;
          evidence_fit = round n evidence_fit;
          train = round n train_score;
          validation = round n validation_score;
          holdout = round n holdout_score;
          safety = round n safety;
          compactness = round n compactness;
          novelty = round n novelty;
          strategy_fit = round n fit;
          regression = round n (if passed then one else hundredths 10);
          composite = round n (n.max zero_num composite);
        }
