-- ===== src/Tournament/Ledger.antt =====
-- The loser ledger of `buildTournament` of scripts/lib/evolution-tournament-scoring.mjs: who stands
-- in it as unsafe.
use misa_cybernetic_evolutio.Prelude.{
  String, Bool, true, false, not, ◌≡◌, refl, ap, sym, subst, ◌∙◌, inl, inr, Option, none, some,
  List, [], ◌∷◌, map, filter, find?, str_eq, length, arith, Bool-cases, All, get_or,
}
use misa_cybernetic_evolutio.Stability.Numbers.{Numbers}
use misa_cybernetic_evolutio.Tournament.Types.{
  Candidate, Variant, baseline, trace_reflective, pareto_compact, aggressive_auto_publish, Scores,
  Scored, Annotated, TournamentTexts,
}
use misa_cybernetic_evolutio.Tournament.Constraints.{
  build_variants, evaluate_constraints, variant_of, blocked_requests_of,
}
use misa_cybernetic_evolutio.Tournament.Choice.{annotate, annotate_pareto, choose_winner}
use misa_cybernetic_evolutio.Tournament.Build.{
  Tournament, scored_variant, scored_variants, with_winner, build_tournament,
}
use misa_cybernetic_evolutio.Tournament.Losers.{
  FailureType, safety_boundary, LoserContrast, LoserRecord, is_unsafe, is_rejected,
  is_hard_rejected, safe_failure_type, loser_class_of, loser_record, loser_ledger, scored_of,
  loser_contrast,
}
use misa_cybernetic_evolutio.Tournament.Blocked.{passed-blocked_requests}

unfoldable pub is_boundary : FailureType → Bool
is_boundary safety_boundary = true
is_boundary _ = false

gated :
    (passed : Bool) (blocked : List String)
    → (passed ≡ true → length blocked ≡ 0)
    → is_hard_rejected passed blocked ≡ not passed
gated passed blocked f = ground (arith, f)

module _ (n : Numbers) where
  -- A record is not the winner's, and it is unsafe, with the boundary of safety as its failure,
  -- exactly where its variant is rejected.
  unfoldable pub IsFair : String → LoserRecord n → Type 0
  IsFair id r =
      (str_eq r.variant_id id ≡ false)
      × (is_unsafe r.loser_class ≡ is_rejected r.status)
      × (is_boundary r.failure_type ≡ is_rejected r.status)

  safe-is_boundary :
      (w v : Scores n) (c : LoserContrast n) → is_boundary (safe_failure_type n w v c) ≡ false
  unfolding safe_failure_type is_boundary
  safe-is_boundary w v c = ground arith

  class-is_unsafe :
      (b : Bool) (w v : Scores n) (c : LoserContrast n) → is_unsafe (loser_class_of n b w v c) ≡ b
  unfolding loser_class_of
  class-is_unsafe b w v c = ground arith

  IsSound : Annotated n → Type 0
  IsSound a =
      is_hard_rejected a.variant.hard_gate_passed a.variant.blocked_requests
      ≡ is_rejected a.tournament_status

  record-IsFair :
      (candidate : Candidate) (w : Scored n) (id : String) (a : Annotated n)
      → IsSound a
      → str_eq a.variant.variant_id id ≡ false
      → IsFair id (loser_record n candidate w a)
  unfolding loser_record IsSound IsFair is_boundary
  record-IsFair candidate w id a s h =
      let v : Scored n = a.variant in
      let contrast : LoserContrast n = loser_contrast n w.scores v.scores in
      let hard_rejected = is_hard_rejected v.hard_gate_passed v.blocked_requests in
      (
        h,
        class-is_unsafe hard_rejected w.scores v.scores contrast ∙ s,
        elim (Bool-cases hard_rejected) [
          | inl e ↦ rw e (sym e ∙ s)
          | inr e ↦ rw e (safe-is_boundary w.scores v.scores contrast ∙ sym e ∙ s)
        ],
      )

  records-IsFair :
      (candidate : Candidate) (w : Scored n) (id : String) (xs : List (Annotated n))
      → All IsSound xs
      → All
          (IsFair id)
          (map (loser_record n candidate w) (filter (λ a. not (str_eq a.variant.variant_id id)) xs))
  records-IsFair candidate w id [] s = tt
  records-IsFair candidate w id (a ∷ xs) s = elim (Bool-cases (str_eq a.variant.variant_id id)) [
    | inl h ↦ rw h (records-IsFair candidate w id xs s.1)
    | inr h ↦ rw h (record-IsFair candidate w id a s.0 h, records-IsFair candidate w id xs s.1)
  ]

  -- What is blocked does not pass.
  IsGated : Scored n → Type 0
  IsGated v = is_hard_rejected v.hard_gate_passed v.blocked_requests ≡ not v.hard_gate_passed

  annotate-is_rejected :
      (vs : List (Scored n)) (id : String) (v : Scored n)
      → not v.hard_gate_passed ≡ is_rejected (annotate n vs id v).tournament_status
  annotate-is_rejected vs id v = elim (Bool-cases v.hard_gate_passed) [
    | inl h ↦
        rw h (elim (Bool-cases (str_eq v.variant_id id)) [ inl k ↦ rw k refl | inr k ↦ rw k refl ])
    | inr h ↦ rw h refl
  ]

  annotate-IsSound :
      (vs : List (Scored n)) (id : String) (v : Scored n) → IsGated v → IsSound (annotate n vs id v)
  unfolding IsSound IsGated
  annotate-IsSound vs id v g = g ∙ annotate-is_rejected vs id v

  annotated-IsSound :
      (vs : List (Scored n)) (id : String) (xs : List (Scored n))
      → All IsGated xs
      → All IsSound (map (annotate n vs id) xs)
  annotated-IsSound vs id [] g = tt
  annotated-IsSound vs id (x ∷ xs) g =
      (annotate-IsSound vs id x g.0, annotated-IsSound vs id xs g.1)

  module _ (t : TournamentTexts) where
    scored-IsGated :
        (candidate : Candidate) (v : Variant) → IsGated (scored_variant n t candidate v)
    unfolding IsGated evaluate_constraints
    scored-IsGated candidate v =
        gated _ (blocked_requests_of t v)
          (λ h. ap (λ (xs : List String). length xs) (passed-blocked_requests t candidate v h))

    with_winner-IsSound :
        (vs : List (Scored n)) (w : Option (Scored n)) (result : Tournament n)
        → All IsGated vs
        → with_winner n t vs w ≡ some result
        → All IsSound result.variants
    unfolding annotate_pareto
    with_winner-IsSound vs none result g h = absurd (ground (arith, h))
    with_winner-IsSound vs (some w) result g h =
        subst (λ (r : Tournament n). All IsSound r.variants) (ap (λ o. get_or o result) h)
          (annotated-IsSound vs w.variant_id vs g)

    -- In the loser ledger of a candidate's tournament no record is the winner's, and a record is
    -- unsafe, with the boundary of safety as its failure, exactly where its variant is rejected.
    pub loser_ledger-IsFair :
        (candidate : Candidate) (result : Tournament n)
        → build_tournament n t candidate ≡ some result
        → All (IsFair result.winner.variant_id) (loser_ledger n candidate result)
    unfolding build_tournament scored_variants build_variants loser_ledger
    loser_ledger-IsFair candidate result h =
        let scored = scored_variants n t candidate in
        let id = result.winner.variant_id in
        records-IsFair candidate
          (scored_of n (find? (λ a. str_eq a.variant.variant_id id) result.variants) result.winner)
          id result.variants
          (with_winner-IsSound scored (choose_winner n t scored) result
            (
              scored-IsGated candidate (variant_of t candidate baseline),
              (
                scored-IsGated candidate (variant_of t candidate trace_reflective),
                (
                  scored-IsGated candidate (variant_of t candidate pareto_compact),
                  (scored-IsGated candidate (variant_of t candidate aggressive_auto_publish), tt),
                ),
              ),
            )
            h)
