-- ===== src/Tournament/Synthesis.antt =====
-- When `chooseWinner` of scripts/lib/evolution-tournament-scoring.mjs lets a synthesis win.
use misa_cybernetic_evolutio.Prelude.{
  Bool, true, ◌≡◌, refl, sym, subst, inl, inr, Option, none, some, List, [], ◌∷◌, ◌≤◌, filter,
  find?, length, All, Bool-cases, arith,
}
use misa_cybernetic_evolutio.Stability.Numbers.{Numbers}
use misa_cybernetic_evolutio.Tournament.Types.{Scores, Scored, TournamentTexts}
use misa_cybernetic_evolutio.Tournament.Choice.{
  is_revision, is_synthesis, has_text, compare_pair, kept_share, compare_found,
  synthesis_comparison, pool_of, choose_winner,
}
use misa_cybernetic_evolutio.Tournament.Winner.{some-injective, choose_winner-All, winner-beats}

module _ (n : Numbers) where
  none_passes :
      (p : Scored n → Bool) (xs : List (Scored n)) (s : Scored n)
      → length (filter p xs) ≤ 0
      → All (λ v. p v ≡ true → v ≡ s) xs
  none_passes p [] s h = tt
  none_passes p (x ∷ xs) s h = elim (Bool-cases (p x)) [
    | inl e ↦ absurd (ground (arith, h, e))
    | inr e ↦ (
      λ (g : p x ≡ true). absurd (ground (arith, e, g)),
      none_passes p xs s (ground (arith, h, e)),
    )
  ]

  -- Where at most one variant passes a test, each that does is the one that is found.
  only_one :
      (p : Scored n → Bool) (xs : List (Scored n)) (s : Scored n)
      → length (filter p xs) ≤ 1
      → find? p xs ≡ some s
      → All (λ v. p v ≡ true → v ≡ s) xs
  only_one p [] s h k = tt
  only_one p (x ∷ xs) s h k = elim (Bool-cases (p x)) [
    | inl e ↦
        (λ _. some-injective x s (ground (arith, k, e)), none_passes p xs s (ground (arith, h, e)))
    | inr e ↦ (
      λ (g : p x ≡ true). absurd (ground (arith, e, g)),
      only_one p xs s (ground (arith, h, e)) (ground (arith, k, e)),
    )
  ]

  -- The synthesis is no less restrained than the revision, keeps 97 percent of its composite score,
  -- and is as good in the three scores that are critical for safety.
  abbrev pub Beats : Scored n → Scored n → Type 0
  Beats synthesis revision =
      let s : Scores n = synthesis.scores in
      let r : Scores n = revision.scores in
      let kept : n.Num = n.sub (n.of_count 1) (n.div (n.of_count 3) (n.of_count 100)) in
      (n.le synthesis.restraint_score revision.restraint_score ≡ true)
      × (n.le (n.mul r.composite kept) s.composite ≡ true)
      × (n.le r.safety s.safety ≡ true)
      × (n.le r.holdout s.holdout ≡ true)
      × (n.le r.regression s.regression ≡ true)

  compare_pair-Beats :
      (r s : Scored n) → (compare_pair n r s).synthesis_can_beat_revision ≡ true → Beats s r
  unfolding compare_pair kept_share
  compare_pair-Beats r s h = (
    ground (arith, h),
    ground (arith, h),
    ground (arith, h),
    ground (arith, h),
    ground (arith, h),
  )

  compare_found-Beats :
      (o p : Option (Scored n))
      → (compare_found n o p).synthesis_can_beat_revision ≡ true
      → (r : Scored n) × (s : Scored n) × (o ≡ some r) × (p ≡ some s) × Beats s r
  compare_found-Beats (some r) (some s) h = (r, s, refl, refl, compare_pair-Beats r s h)
  compare_found-Beats (some r) none h = cc
  compare_found-Beats none p h = cc

  -- A synthesis that is the only one of a pool whose first revision has an id wins only where it
  -- beats that revision: it is no less restrained, it keeps 97 percent of the composite score, and it
  -- is as good in the scores for safety, holdout and regression.
  pub choose_winner-synthesis :
      (t : TournamentTexts) (variants : List (Scored n)) (w : Scored n)
      → choose_winner n t variants ≡ some w
      → is_synthesis w.role ≡ true
      → length (filter (λ v. is_synthesis v.role) (pool_of n variants)) ≤ 1
      → has_text (synthesis_comparison n (pool_of n variants)).revision_variant_id ≡ true
      → (r : Scored n) × (find? (λ v. is_revision v.role) (pool_of n variants) ≡ some r) × Beats w r
  unfolding synthesis_comparison
  choose_winner-synthesis t variants w h k one id =
      let pool = pool_of n variants in
      let (r, s, found, other, beats) =
        compare_found-Beats (find? (λ v. is_revision v.role) pool)
          (find? (λ v. is_synthesis v.role) pool) (winner-beats n t variants w h k id) in
      let same : w ≡ s =
        choose_winner-All n t (λ v. is_synthesis v.role ≡ true → v ≡ s) variants w h
          (only_one (λ v. is_synthesis v.role) pool s one other) k in
      (r, found, subst (λ (v : Scored n). Beats v r) (sym same) beats)
