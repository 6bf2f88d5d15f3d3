-- ===== src/Tournament/Losers.antt =====
-- The loser ledger of `buildTournament` of scripts/lib/evolution-tournament-scoring.mjs:
-- `buildLoserContrast`, `loserFailureType`, `loserMemoryEvidence`, `loserPoolControl` and
-- `classifyLoserAgainstWinner`. Conditions, triggers and reasons are texts that go with the class.
use misa_cybernetic_evolutio.Prelude.{
  ℕ, String, Bool, true, false, not, ◌&&◌, ◌||◌, Option, none, some, List, map, filter, find?,
  str_eq, if◌then◌else◌, length, ltb,
}
use misa_cybernetic_evolutio.Stability.Numbers.{Numbers, round}
use misa_cybernetic_evolutio.Tournament.Types.{
  Candidate, Scores, Scored, TournamentStatus, rejected, Annotated,
}
use misa_cybernetic_evolutio.Tournament.Scoring.{hundredths, one}
use misa_cybernetic_evolutio.Tournament.Choice.{at_least}
use misa_cybernetic_evolutio.Tournament.Build.{Tournament}

pub data LoserClass : Type 0 where
  unsafe promising weak : LoserClass

pub data FailureType : Type 0 where
  safety_boundary overfit_or_holdout_regression evidence_deficit : FailureType
  cost_or_operational_risk context_mismatch quality_inferior : FailureType

pub data ReviewPath : Type 0 where
  l4_review_before_reentry l4_context_when_route_pressure_matches : ReviewPath
  agent_evidence_check_before_reentry : ReviewPath

pub record LoserContrast (n : Numbers) : Type 0 where
  pub score_margin : n.Num
  pub safety : n.Num
  pub holdout : n.Num
  pub evidence_fit : n.Num
  pub compactness : n.Num
  pub strategy_fit : n.Num

pub record LoserRecord (n : Numbers) : Type 0 where
  pub variant_id : String
  pub status : TournamentStatus
  pub blocked_requests : List String
  pub becomes_evidence : Bool  -- becomes === "damping_or_case_evidence"
  pub loser_class : LoserClass
  pub failure_type : FailureType
  pub review_path : ReviewPath
  pub l4_review_required : Bool
  pub decay_weight : n.Num
  pub confidence : n.Num
  pub evidence_count : ℕ
  pub contrast : LoserContrast n

abbrev pub is_unsafe : LoserClass → Bool
is_unsafe unsafe = true
is_unsafe _ = false

abbrev pub is_rejected : TournamentStatus → Bool
is_rejected rejected = true
is_rejected _ = false

abbrev pub review_path_of : LoserClass → ReviewPath
review_path_of unsafe = l4_review_before_reentry
review_path_of promising = l4_context_when_route_pressure_matches
review_path_of weak = agent_evidence_check_before_reentry

-- reviewPath.includes("l4")
abbrev pub names_l4 : ReviewPath → Bool
names_l4 agent_evidence_check_before_reentry = false
names_l4 _ = true

-- `!constraints.hard_gate_passed || blockedRequests.length > 0`
abbrev pub is_hard_rejected : (passed : Bool) → (blocked : List String) → Bool
is_hard_rejected passed blocked = not passed || ltb 0 (length blocked)

module _ (n : Numbers) where
  unfoldable pub loser_contrast : (winner variant : Scores n) → LoserContrast n
  unfolding round
  loser_contrast w v =
      let delta = λ (x y : n.Num). round n (n.sub x y) in
      record {
        score_margin = delta w.composite v.composite;
        safety = delta w.safety v.safety;
        holdout = delta w.holdout v.holdout;
        evidence_fit = delta w.evidence_fit v.evidence_fit;
        compactness = delta w.compactness v.compactness;
        strategy_fit = delta w.strategy_fit v.strategy_fit;
      }

  -- A loser that passed the gate.
  unfoldable pub safe_failure_type : (winner variant : Scores n) → LoserContrast n → FailureType
  safe_failure_type w v contrast =
      if at_least n contrast.holdout (hundredths n 20)
      then overfit_or_holdout_regression
      else if at_least n contrast.evidence_fit (hundredths n 20)
      then evidence_deficit
      else if at_least n contrast.compactness (hundredths n 20)
      then cost_or_operational_risk
      else if at_least n v.strategy_fit w.strategy_fit || n.lt w.novelty v.novelty
      then context_mismatch
      else quality_inferior

  -- The score is close, or nearly so and the loser is better at something.
  unfoldable pub is_promising : (winner variant : Scores n) → LoserContrast n → Bool
  is_promising w v contrast =
      n.le contrast.score_margin (hundredths n 6)
      || (n.le contrast.score_margin (hundredths n 12)
          && (at_least n v.strategy_fit w.strategy_fit
              || n.lt w.novelty v.novelty
              || n.lt w.compactness v.compactness))

  unfoldable pub loser_class_of :
      (hard_rejected : Bool) → (winner variant : Scores n) → LoserContrast n → LoserClass
  unfolding is_promising
  loser_class_of hard_rejected w v contrast =
      if hard_rejected then unsafe else if is_promising w v contrast then promising else weak

  abbrev pub decay_weight_of : LoserClass → n.Num
  decay_weight_of unsafe = one n
  decay_weight_of promising = hundredths n 55
  decay_weight_of weak = hundredths n 72

  abbrev pub confidence_of : LoserClass → n.Num
  confidence_of unsafe = hundredths n 88
  confidence_of promising = hundredths n 58
  confidence_of weak = hundredths n 66

  unfoldable pub loser_record : Candidate → (winner : Scored n) → Annotated n → LoserRecord n
  unfolding loser_contrast safe_failure_type loser_class_of
  loser_record candidate winner a =
      let v : Scored n = a.variant in
      let contrast : LoserContrast n = loser_contrast winner.scores v.scores in
      let hard_rejected = is_hard_rejected v.hard_gate_passed v.blocked_requests in
      let class = loser_class_of hard_rejected winner.scores v.scores contrast in
      record {
        variant_id = v.variant_id;
        status = a.tournament_status;
        blocked_requests = v.blocked_requests;
        becomes_evidence = is_rejected a.tournament_status;
        loser_class = class;
        failure_type =
            if hard_rejected
            then safety_boundary
            else safe_failure_type winner.scores v.scores contrast;
        review_path = review_path_of class;
        l4_review_required = names_l4 (review_path_of class);
        decay_weight = decay_weight_of class;
        confidence = confidence_of class;
        evidence_count = candidate.evidence_count;
        contrast = contrast;
      }

  abbrev pub scored_of : Option (Annotated n) → Scored n → Scored n
  scored_of none w = w
  scored_of (some a) w = a.variant

  unfoldable pub loser_ledger : Candidate → Tournament n → List (LoserRecord n)
  unfolding loser_record
  loser_ledger candidate result =
      let id = result.winner.variant_id in
      let winner =
        scored_of (find? (λ a. str_eq a.variant.variant_id id) result.variants) result.winner in
      map (loser_record candidate winner)
        (filter (λ a. not (str_eq a.variant.variant_id id)) result.variants)
