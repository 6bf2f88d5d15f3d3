-- ===== src/Tournament/Types.antt =====
-- The data of scripts/lib/evolution-tournament-scoring.mjs.
use misa_cybernetic_evolutio.Prelude.{ℕ, String, Bool, Option, List}
use misa_cybernetic_evolutio.Stability.Numbers.{Numbers}

pub data Strategy : Type 0 where
  baseline trace_reflective pareto_compact aggressive_auto_publish : Strategy

pub data Role : Type 0 where
  incumbent_unchanged revision_candidate synthesis_candidate negative_probe : Role

-- What is read of a candidate; its other parts are texts.
pub record Candidate : Type 0 where
  pub candidate_id : String
  pub route_target : String
  pub source_event_id : String
  pub has_evidence : Bool  -- Boolean(candidate.evidence)
  pub evidence_count : ℕ  -- evidence?.evidence_count ?? 0
  pub risk_level : String  -- evidence?.risk_level ?? "medium"
  pub normalized_signals : List String  -- evidence?.normalized_signals ?? []
  pub commands : List String  -- local_preflight.commands

-- `commonSafety`, and its `live_effects` as the list of their values.
pub record VariantSafety : Type 0 where
  pub production_authority : Bool
  pub publication_allowed : Bool
  pub automatic_write_allowed : Bool
  pub llm_route_decision_allowed : Bool
  pub live_effects : List Bool

-- Of the texts only the numbers of their tokens are kept.
pub record Variant : Type 0 where
  pub variant_id : String
  pub strategy : Strategy
  pub route_target : String
  pub source_event_id : String
  pub change_tokens : ℕ  -- estimateTokens(proposed_change)
  pub outline_tokens : ℕ  -- estimateTokens(procedure_outline.join(" "))
  pub requested_operations : List String
  pub verification_commands : List String
  pub safety : VariantSafety

pub record Checks : Type 0 where
  pub route_preserved : Bool
  pub source_trace_preserved : Bool
  pub evidence_preserved : Bool
  pub verification_commands_preserved : Bool
  pub no_blocked_operations : Bool
  pub no_live_effects : Bool
  pub production_locked : Bool
  pub publication_locked : Bool
  pub llm_route_decision_blocked : Bool
  pub text_budget_ok : Bool

pub record Constraints : Type 0 where
  pub hard_gate_passed : Bool
  pub checks : Checks
  pub blocked_requests : List String
  pub violation_count : ℕ  -- violations.length

-- The parts of the evaluation.
pub data Split : Type 0 where
  train validation holdout : Split

pub record Scores (n : Numbers) : Type 0 where
  pub route_fit : n.Num
  pub evidence_fit : n.Num
  pub train : n.Num
  pub validation : n.Num
  pub holdout : n.Num
  pub safety : n.Num
  pub compactness : n.Num
  pub novelty : n.Num
  pub strategy_fit : n.Num
  pub regression : n.Num
  pub composite : n.Num

pub record Scored (n : Numbers) : Type 0 where
  pub variant_id : String
  pub requested_operations : List String
  pub hard_gate_passed : Bool  -- constraints.hard_gate_passed
  pub blocked_requests : List String  -- constraints.blocked_requests
  pub role : Role  -- control_footprint.role
  pub restraint_score : n.Num  -- control_footprint.restraint_score
  pub scores : Scores n

pub record Comparison : Type 0 where
  pub revision_variant_id : Option String
  pub synthesis_variant_id : Option String
  pub synthesis_more_restrained_than_revision : Bool
  pub synthesis_metric_within_epsilon : Bool
  pub synthesis_safety_at_least_revision : Bool
  pub synthesis_can_beat_revision : Bool

pub data TournamentStatus : Type 0 where
  rejected winner loser : TournamentStatus

pub record Annotated (n : Numbers) : Type 0 where
  pub variant : Scored n
  pub tournament_status : TournamentStatus
  pub dominated : Bool  -- pareto.dominated
  pub dominated_by : Option String  -- the id that pareto.reason names

-- The text functions: JavaScript's `trim` and `localeCompare`, and the numbers of tokens of the
-- texts of a candidate's variants.
pub record TournamentTexts : Type 0 where
  pub trim : String → String
  pub locale_le : String → String → Bool
  pub id_of : String → Strategy → String  -- `${candidate_id}:…`
  pub change_tokens_of : Candidate → Strategy → ℕ
  pub outline_tokens_of : Strategy → ℕ
  pub is_source_backed : String → Bool  -- startsWith("source-")
  pub route_text : String → String  -- `route:${…}`
  pub surface_text : String → String  -- `surface:${…}`
  pub operation_text : String → String  -- `operation:${…}`
