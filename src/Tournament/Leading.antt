-- ===== src/Tournament/Leading.antt =====
-- `chooseWinner` of scripts/lib/evolution-tournament-scoring.mjs: it chooses the variant that comes
-- first in the order of the pool.
use misa_cybernetic_evolutio.Prelude.{
  String, Bool, true, false, not, ◌&&◌, ◌≡◌, refl, ap, sym, ◌∙◌, inl, inr, some, List, [], ◌∷◌, any,
  all, if◌then◌else◌, head?, sort, IsSorted, sort-IsSorted, any-sort, arith, Bool-cases, All,
  get_or, subst,
}
use misa_cybernetic_evolutio.Stability.Numbers.{Numbers}
use misa_cybernetic_evolutio.Tournament.Types.{Scored, Comparison, TournamentTexts}
use misa_cybernetic_evolutio.Tournament.Choice.{
  is_incumbent, is_barred, synthesis_comparison, greater_or, pool_of, first_allowed, before,
  sort_winner_pool, choose_winner,
}
use misa_cybernetic_evolutio.Tournament.Winner.{or_else-some, first_allowed-none}

module _ (n : Numbers) where
  module _ (t : TournamentTexts) (lt_asym : (x y : n.Num) → n.lt x y ≡ true → n.lt y x ≡ false)
      (lt_trans_not : (x y z : n.Num) → n.lt x y ≡ false → n.lt y z ≡ false → n.lt x z ≡ false)
      (total : (a b : String) → t.locale_le a b ≡ false → t.locale_le b a ≡ true)
      (trans : (a b c : String)
        → t.locale_le a b ≡ true
        → t.locale_le b c ≡ true
        → t.locale_le a c ≡ true) where
    greater_or-total :
        (x y : n.Num) (p q : Bool)
        → (p ≡ false → q ≡ true)
        → greater_or n x y p ≡ false
        → greater_or n y x q ≡ true
    greater_or-total x y p q f h = ground (arith, f, h)

    greater_or_trans :
        (x y z : n.Num) (p q r : Bool)
        → (p ≡ true → q ≡ true → r ≡ true)
        → greater_or n x y p ≡ true
        → greater_or n y z q ≡ true
        → greater_or n x z r ≡ true
    greater_or_trans x y z p q r f h k = ground (
      arith,
      f,
      h,
      k,
      lt_asym x z,
      lt_asym z x,
      lt_asym x y,
      lt_asym y x,
      lt_asym y z,
      lt_asym z y,
      lt_trans_not x y z,
      lt_trans_not z y x,
      lt_trans_not y z x,
      lt_trans_not x z y,
      lt_trans_not y x z,
      lt_trans_not z x y,
    )

    last_test : Scored n → Scored n → Bool
    last_test a b =
        if is_incumbent a.role
        then true
        else if is_incumbent b.role
        then false
        else t.locale_le a.variant_id b.variant_id

    before-total : (a b : Scored n) → before n t a b ≡ false → before n t b a ≡ true
    before-total a b h =
        greater_or-total a.scores.composite b.scores.composite _ _
          (greater_or-total a.scores.holdout b.scores.holdout _ _ (
            greater_or-total a.scores.safety b.scores.safety _ _
              (λ k. ground (arith, k, total a.variant_id b.variant_id))))
          h

    before_trans :
        (a b c : Scored n) → before n t a b ≡ true → before n t b c ≡ true → before n t a c ≡ true
    before_trans a b c h k =
        greater_or_trans a.scores.composite b.scores.composite c.scores.composite _ _ _
          (greater_or_trans a.scores.holdout b.scores.holdout c.scores.holdout _ _ _ (
            greater_or_trans a.scores.safety b.scores.safety c.scores.safety _ _ _
              (λ p q. ground (arith, p, q, trans a.variant_id b.variant_id c.variant_id))))
          h k

    -- No variant of a sorted list that may win comes before the first one that may.
    is_ahead : Comparison → Scored n → Scored n → Bool
    is_ahead c w v = not (is_barred c v.role) && not (before n t w v)

    All-is_ahead :
        (c : Comparison) (w : Scored n) (xs : List (Scored n))
        → All (λ v. before n t w v ≡ true) xs
        → any (is_ahead c w) xs ≡ false
    unfolding is_ahead
    All-is_ahead c w [] h = refl
    All-is_ahead c w (x ∷ xs) h = ground (arith, h.0, All-is_ahead c w xs h.1)

    before_itself : (w : Scored n) → before n t w w ≡ true
    before_itself w = elim (Bool-cases (before n t w w)) [ inl h ↦ h | inr h ↦ before-total w w h ]

    first_allowed-is_ahead :
        (c : Comparison) (xs : List (Scored n)) (w : Scored n)
        → IsSorted (before n t) xs
        → first_allowed n c xs ≡ some w
        → any (is_ahead c w) xs ≡ false
    unfolding first_allowed is_ahead
    first_allowed-is_ahead c [] w s h = refl
    first_allowed-is_ahead c (x ∷ xs) w s h = elim (Bool-cases (is_barred c x.role)) [
      | inl k ↦ ground (arith, h, k, first_allowed-is_ahead c xs w s.1)
      | inr k ↦
          let first : some x ≡ some w = ground (arith, h, k) in
          let same : x ≡ w = ap (λ o. get_or o x) first in
          subst (λ (v : Scored n). any (is_ahead c v) (x ∷ xs) ≡ false) same
            (ground (arith, before_itself x, All-is_ahead c x xs s.0))
    ]

    barred-is_ahead :
        (c : Comparison) (w : Scored n) (xs : List (Scored n))
        → all (λ v. is_barred c v.role) xs ≡ true
        → any (is_ahead c w) xs ≡ false
    unfolding is_ahead
    barred-is_ahead c w [] h = refl
    barred-is_ahead c w (x ∷ xs) h = ground (arith, h, barred-is_ahead c w xs)

    pub choose_winner-before :
        (variants : List (Scored n)) (w : Scored n)
        → choose_winner n t variants ≡ some w
        → let pool = pool_of n variants in
          any
            (λ v. not (is_barred (synthesis_comparison n pool) v.role) && not (before n t w v))
            pool
          ≡ false
    unfolding choose_winner sort_winner_pool is_ahead
    choose_winner-before variants w h =
        let pool = pool_of n variants in
        let c = synthesis_comparison n pool in
        let sorted = sort (before n t) pool in
        sym (any-sort (before n t) (is_ahead c w) pool)
        ∙ elim (or_else-some n (first_allowed n c sorted) (head? sorted) w h) [
          | inl k ↦
              first_allowed-is_ahead c sorted w
                (sort-IsSorted (before n t) before-total before_trans pool) k
          | inr k ↦ barred-is_ahead c w sorted (first_allowed-none n c sorted k.0)
        ]
