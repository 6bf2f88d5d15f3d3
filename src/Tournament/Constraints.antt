-- ===== src/Tournament/Constraints.antt =====
-- `buildVariants` and `evaluateConstraints` of scripts/lib/evolution-tournament-scoring.mjs, with the
-- lists of scripts/lib/evolution-tournament-contract.mjs.
use misa_cybernetic_evolutio.Prelude.{
  ℕ, ◌+◌, String, Bool, false, not, ◌&&◌, List, [], ◌∷◌, ◌++◌, map, filter, length, all, leb, ◌==◌,
  str_eq, if◌then◌else◌, truthy, includes,
}
use misa_cybernetic_evolutio.Tournament.Types.{
  Strategy, baseline, trace_reflective, pareto_compact, aggressive_auto_publish, Role,
  incumbent_unchanged, revision_candidate, synthesis_candidate, negative_probe, Candidate,
  VariantSafety, Variant, Checks, Constraints, TournamentTexts,
}

abbrev pub blocked_operations : List String
blocked_operations =
    "persistent_memory_write" ∷ "zilliz_replacement" ∷ "farcaster_publish" ∷ "skill_publication"
    ∷ "production_skill_installation" ∷ "session_mechanic_replacement" ∷ "timer_or_service_start"
    ∷ "provider_route_change" ∷ "automatic_prompt_rewrite" ∷ "automatic_code_evolution" ∷ []

abbrev pub local_command_allowlist : List String
local_command_allowlist =
    "npm run distill:misa" ∷ "npm run simulate:misa" ∷ "npm run adaptive:misa"
    ∷ "npm run rollup:misa" ∷ "npm run evolution:evaluate:misa"
    ∷ "npm run evolution:tournament:misa" ∷ "npm run memory-layer:misa"
    ∷ "npm run repair-ticket:misa" ∷ "npm run post-deploy:measure" ∷ "npm run stability:monitor"
    ∷ "npm run outer-loop:review" ∷ "npm run skill:evolution" ∷ "npm run validate:schemas"
    ∷ "npm run precheck" ∷ "npm test" ∷ []

abbrev pub common_safety : VariantSafety
common_safety = record {
  production_authority = false;
  publication_allowed = false;
  automatic_write_allowed = false;
  llm_route_decision_allowed = false;
  live_effects = false ∷ false ∷ false ∷ false ∷ false ∷ [];
}

-- Each value once, in the order of the first ones.
abbrev pub without_text : String → List String → List String
without_text x = filter (λ y. not (str_eq y x))

unfoldable pub distinct : List String → List String
distinct [] = []
distinct (x ∷ xs) = x ∷ without_text x (distinct xs)

abbrev pub operations_of : Strategy → List String
operations_of aggressive_auto_publish =
    "persistent_memory_write" ∷ "skill_publication" ∷ "production_skill_installation" ∷ []
operations_of _ = []

abbrev pub role_for_strategy : Strategy → Role
role_for_strategy baseline = incumbent_unchanged
role_for_strategy trace_reflective = revision_candidate
role_for_strategy pareto_compact = synthesis_candidate
role_for_strategy aggressive_auto_publish = negative_probe

abbrev pub count_false : List Bool → ℕ
count_false [] = 0
count_false (b ∷ bs) = let rest = count_false bs in if b then rest else rest + 1

abbrev pub check_values : Checks → List Bool
check_values c =
    c.route_preserved ∷ c.source_trace_preserved ∷ c.evidence_preserved
    ∷ c.verification_commands_preserved ∷ c.no_blocked_operations ∷ c.no_live_effects
    ∷ c.production_locked ∷ c.publication_locked ∷ c.llm_route_decision_blocked ∷ c.text_budget_ok
    ∷ []

module _ (t : TournamentTexts) where
  unfoldable pub unique_strings : List String → List String
  unfolding distinct
  unique_strings values = distinct (filter truthy (map t.trim values))

  abbrev pub variant_of : Candidate → Strategy → Variant
  variant_of candidate strategy = record {
    variant_id = t.id_of candidate.candidate_id strategy;
    strategy = strategy;
    route_target = candidate.route_target;
    source_event_id = candidate.source_event_id;
    change_tokens = t.change_tokens_of candidate strategy;
    outline_tokens = t.outline_tokens_of strategy;
    requested_operations = operations_of strategy;
    verification_commands =
        unique_strings (candidate.commands ++ "npm run evolution:tournament:misa" ∷ []);
    safety = common_safety;
  }

  unfoldable pub build_variants : Candidate → List Variant
  unfolding unique_strings
  build_variants candidate =
      variant_of candidate baseline
      ∷ variant_of candidate trace_reflective
      ∷ variant_of candidate pareto_compact
      ∷ variant_of candidate aggressive_auto_publish
      ∷ []

  unfoldable pub blocked_requests_of : Variant → List String
  unfolding unique_strings
  blocked_requests_of variant =
      filter (includes blocked_operations) (unique_strings variant.requested_operations)

  unfoldable pub checks_of : Candidate → Variant → Checks
  unfolding blocked_requests_of
  checks_of candidate variant =
      let safety : VariantSafety = variant.safety in
      let commands : List String = variant.verification_commands in
      let trace_preserved = str_eq variant.source_event_id candidate.source_event_id in
      record {
        route_preserved = str_eq variant.route_target candidate.route_target;
        source_trace_preserved = trace_preserved;
        evidence_preserved = candidate.has_evidence && trace_preserved;
        verification_commands_preserved =
            all (includes commands) candidate.commands
            && all (includes local_command_allowlist) commands;
        no_blocked_operations = length (blocked_requests_of variant) == 0;
        no_live_effects = all (λ e. not e) safety.live_effects;
        production_locked = not safety.production_authority;
        publication_locked = not safety.publication_allowed && not safety.automatic_write_allowed;
        llm_route_decision_blocked = not safety.llm_route_decision_allowed;
        text_budget_ok = leb variant.change_tokens 90 && leb variant.outline_tokens 90;
      }

  -- A violation is a check that fails, or a blocked request.
  unfoldable pub evaluate_constraints : Candidate → Variant → Constraints
  unfolding checks_of
  evaluate_constraints candidate variant =
      let checks : Checks = checks_of candidate variant in
      let blocked = blocked_requests_of variant in
      let count = count_false (check_values checks) + length blocked in
      record {
        hard_gate_passed = count == 0;
        checks = checks;
        blocked_requests = blocked;
        violation_count = count;
      }
