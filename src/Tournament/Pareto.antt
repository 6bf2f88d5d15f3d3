-- ===== src/Tournament/Pareto.antt =====
-- `annotatePareto` of scripts/lib/evolution-tournament-scoring.mjs for the winner.
use misa_cybernetic_evolutio.Prelude.{
  String, Bool, true, false, not, ◌&&◌, ◌||◌, ◌≡◌, refl, some, List, [], ◌∷◌, any, arith,
}
use misa_cybernetic_evolutio.Stability.Numbers.{Numbers}
use misa_cybernetic_evolutio.Tournament.Types.{Scored, TournamentTexts}
use misa_cybernetic_evolutio.Tournament.Choice.{
  is_barred, synthesis_comparison, dominates, pool_of, before, choose_winner,
}
use misa_cybernetic_evolutio.Tournament.Leading.{choose_winner-before}

module _ (n : Numbers) where
  -- Neither number is smaller.
  abbrev pub ties : n.Num → n.Num → Bool
  ties x y = not (n.lt x y) && not (n.lt y x)

  -- Level in all that the winner is sorted by, and more compact.
  abbrev pub is_only_more_compact : Scored n → Scored n → Bool
  is_only_more_compact v w =
      ties v.scores.composite w.scores.composite
      && ties v.scores.holdout w.scores.holdout
      && ties v.scores.safety w.scores.safety
      && n.lt w.scores.compactness v.scores.compactness

  any-none :
      (p q : Scored n → Bool) (xs : List (Scored n))
      → ((v : Scored n) → q v ≡ true → p v ≡ true)
      → any p xs ≡ false
      → any q xs ≡ false
  any-none p q [] f h = refl
  any-none p q (x ∷ xs) f h = ground (arith, h, f x, any-none p q xs f)

  module _ (le_lt : (x y : n.Num) → n.le x y ≡ not (n.lt y x)) (t : TournamentTexts) where
    dominates-compact :
        (v w : Scored n)
        → before n t w v ≡ true
        → dominates n v w ≡ true
        → is_only_more_compact v w ≡ true
    dominates-compact v w h k = ground (
      arith,
      h,
      k,
      le_lt w.scores.composite v.scores.composite,
      le_lt w.scores.holdout v.scores.holdout,
      le_lt w.scores.safety v.scores.safety,
    )

    -- In a total order of the numbers and of the ids: of the pool, only a synthesis that may not win
    -- dominates the winner, or a variant that is level with it in composite score, holdout and safety
    -- and is more compact.
    pub choose_winner-dominates :
        (lt_asym : (x y : n.Num) → n.lt x y ≡ true → n.lt y x ≡ false)
        (lt_trans_not : (x y z : n.Num) → n.lt x y ≡ false → n.lt y z ≡ false → n.lt x z ≡ false)
        (total : (a b : String) → t.locale_le a b ≡ false → t.locale_le b a ≡ true)
        (trans : (a b c : String)
          → t.locale_le a b ≡ true
          → t.locale_le b c ≡ true
          → t.locale_le a c ≡ true)
        (variants : List (Scored n)) (w : Scored n)
        → choose_winner n t variants ≡ some w
        → let pool = pool_of n variants in
          any
            (λ v.
              dominates n v w
              && not (is_barred (synthesis_comparison n pool) v.role || is_only_more_compact v w))
            pool
          ≡ false
    choose_winner-dominates lt_asym lt_trans_not total trans variants w h =
        let pool = pool_of n variants in
        let c = synthesis_comparison n pool in
        any-none (λ v. not (is_barred c v.role) && not (before n t w v))
          (λ v. dominates n v w && not (is_barred c v.role || is_only_more_compact v w)) pool
          (λ v k. ground (arith, k, dominates-compact v w))
          (choose_winner-before n t lt_asym lt_trans_not total trans variants w h)
