-- ===== src/Tournament/Blocked.antt =====
-- `buildTournament` of scripts/lib/evolution-tournament-scoring.mjs: no variant that asks for a
-- blocked operation passes the gate.
use misa_cybernetic_evolutio.Prelude.{
  String, Bool, true, false, not, ◌&&◌, ◌||◌, ◌≡◌, refl, ap, none, some, List, [], ◌∷◌, filter,
  length, any, inl, inr, Bool-cases, Option-cases, includes, arith, ◌==◌,
}
use misa_cybernetic_evolutio.Stability.Numbers.{Numbers}
use misa_cybernetic_evolutio.Tournament.Types.{
  aggressive_auto_publish, Candidate, Variant, Scored, TournamentTexts,
}
use misa_cybernetic_evolutio.Tournament.Constraints.{
  blocked_operations, operations_of, distinct, unique_strings, build_variants, blocked_requests_of,
  variant_of, evaluate_constraints,
}
use misa_cybernetic_evolutio.Tournament.Choice.{choose_winner, first_or, pool_of, annotate_pareto}
use misa_cybernetic_evolutio.Tournament.Build.{
  Tournament, scored_variants, with_winner, build_tournament,
}
use misa_cybernetic_evolutio.Tournament.Winner.{
  choose_winner-any, choose_winner-none, choose_winner-hard_gate_passed,
}

length-nothing : (xs : List String) → length xs ≡ 0 → xs ≡ []
length-nothing [] h = refl
length-nothing (x ∷ xs) h = absurd (omega (arith, h))

module _ (t : TournamentTexts) where
  -- A variant that passes the hard gate has no blocked request.
  pub passed-blocked_requests :
      (candidate : Candidate) (v : Variant)
      → (evaluate_constraints t candidate v).hard_gate_passed ≡ true
      → blocked_requests_of t v ≡ []
  unfolding evaluate_constraints
  passed-blocked_requests candidate v h =
      length-nothing (blocked_requests_of t v) (ground (arith, h))

  module _ (trim_blocked : (s : String) → includes blocked_operations s ≡ true → t.trim s ≡ s) where
    aggressive-blocked_requests :
        (candidate : Candidate)
        → blocked_requests_of t (variant_of t candidate aggressive_auto_publish)
          ≡ operations_of aggressive_auto_publish
    unfolding blocked_requests_of unique_strings distinct
    aggressive-blocked_requests candidate =
        rw
          (
            trim_blocked "persistent_memory_write" refl,
            trim_blocked "skill_publication" refl,
            trim_blocked "production_skill_installation" refl,
          )
          refl

    aggressive_fails :
        (candidate : Candidate)
        → (evaluate_constraints t candidate
            (variant_of t candidate aggressive_auto_publish)).hard_gate_passed
          ≡ false
    aggressive_fails candidate =
        let v = variant_of t candidate aggressive_auto_publish in
        elim (Bool-cases (evaluate_constraints t candidate v).hard_gate_passed) [
          | inl h ↦
              let none_blocked : length (blocked_requests_of t v) ≡ 0 =
                ap (λ (xs : List String). length xs) (passed-blocked_requests candidate v h) in
              let three_blocked : length (blocked_requests_of t v) ≡ 3 =
                ap (λ (xs : List String). length xs) (aggressive-blocked_requests candidate) in
              absurd (omega (arith, none_blocked, three_blocked))
          | inr h ↦ h
        ]

    module _ (n : Numbers) where
      -- A variant that passes and asks for an operation.
      abbrev asks : Scored n → Bool
      asks v = v.hard_gate_passed && not (length v.requested_operations == 0)

      any-asks : (candidate : Candidate) → any asks (scored_variants n t candidate) ≡ false
      unfolding scored_variants build_variants
      any-asks candidate = ground (arith, aggressive_fails candidate)

      any-first_or :
          (p : Scored n → Bool) (xs ys : List (Scored n))
          → any p (first_or n xs ys) ≡ true
          → (any p xs || any p ys) ≡ true
      any-first_or p [] ys h = ground (arith, h)
      any-first_or p (x ∷ xs) ys h = ground (arith, h)

      any-passed :
          (p q : Scored n → Bool) (xs : List (Scored n))
          → any p (filter q xs) ≡ true
          → any p xs ≡ true
      any-passed p q [] h = h
      any-passed p q (x ∷ xs) h = ground (arith, h, any-passed p q xs)

      any-pool :
          (p : Scored n → Bool) (xs : List (Scored n))
          → any p (pool_of n xs) ≡ true
          → any p xs ≡ true
      unfolding pool_of
      any-pool p xs h = ground (
        arith,
        any-first_or p (filter (λ v. v.hard_gate_passed) xs) xs h,
        any-passed p (λ v. v.hard_gate_passed) xs,
      )

      any-some :
          (p : Scored n → Bool) (xs : List (Scored n)) → any p xs ≡ true → any (λ v. true) xs ≡ true
      any-some p [] h = h
      any-some p (x ∷ xs) h = refl

      no_winner :
          (scored : List (Scored n))
          → any (λ v. v.hard_gate_passed) scored ≡ true
          → choose_winner n t scored ≡ none
          → ⊥
      no_winner scored passes h =
          ground (
            arith,
            any-some (λ v. v.hard_gate_passed) scored passes,
            choose_winner-none n t scored h,
          )

      winner-asks_nothing :
          (scored : List (Scored n)) (w : Scored n)
          → any asks scored ≡ false
          → choose_winner n t scored ≡ some w
          → w.hard_gate_passed ≡ true
          → w.requested_operations ≡ []
      winner-asks_nothing scored w a h passes =
          length-nothing w.requested_operations
            (ground (arith, passes, a, any-pool asks scored, choose_winner-any n t asks scored w h))

      -- Where trimming leaves the names of the blocked operations as they are, and some variant of a
      -- candidate passes the hard gate: the candidate's tournament has a winner, which passes the gate
      -- and asks for no operation at all.
      pub build_tournament-asks_nothing :
          (candidate : Candidate)
          → any (λ v. v.hard_gate_passed) (scored_variants n t candidate) ≡ true
          → (result : Tournament n) × (build_tournament n t candidate ≡ some result)
            × (result.winner.hard_gate_passed ≡ true)
            × (result.winner.requested_operations ≡ [])
      unfolding build_tournament
      build_tournament-asks_nothing candidate some_passes =
          let scored = scored_variants n t candidate in
          elim (Option-cases (choose_winner n t scored)) [
            | inl h ↦ absurd (no_winner scored some_passes h)
            | inr (w, h) ↦
                let passes = choose_winner-hard_gate_passed n t scored w h some_passes in
                (
                  record { winner = w; variants = annotate_pareto n scored w.variant_id },
                  ap (with_winner n t scored) h,
                  passes,
                  winner-asks_nothing scored w (any-asks candidate) h passes,
                )
          ]
