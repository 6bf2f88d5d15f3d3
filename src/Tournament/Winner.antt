-- ===== src/Tournament/Winner.antt =====
-- `chooseWinner` of scripts/lib/evolution-tournament-scoring.mjs: which variant it chooses.
use misa_cybernetic_evolutio.Prelude.{
  Bool, true, false, not, ◌≡◌, refl, ap, sym, ◌∙◌, inl, inr, ◌⊎◌, Option, none, some, List, [], ◌∷◌,
  filter, find?, any, all, head?, sort, any-sort, is_none, arith, or_else, All, All-sort, subst,
  Bool-cases,
}
use misa_cybernetic_evolutio.Stability.Numbers.{Numbers}
use misa_cybernetic_evolutio.Tournament.Types.{
  Role, incumbent_unchanged, revision_candidate, synthesis_candidate, negative_probe, Scored,
  Comparison, TournamentTexts,
}
use misa_cybernetic_evolutio.Tournament.Choice.{
  is_revision, is_synthesis, has_text, is_barred, compare_found, synthesis_comparison, first_or,
  pool_of, first_allowed, before, sort_winner_pool, choose_winner,
}

pub some-injective : {A : Type 0} (x y : A) → some x ≡ some y → x ≡ y
some-injective x y h = cc h

module _ (n : Numbers) where
  first_allowed-is_barred :
      (c : Comparison) (xs : List (Scored n)) (w : Scored n)
      → first_allowed n c xs ≡ some w
      → is_barred c w.role ≡ false
  unfolding first_allowed
  first_allowed-is_barred c [] w h = ground (arith, h)
  first_allowed-is_barred c (x ∷ xs) w h = ground (
    arith,
    h,
    first_allowed-is_barred c xs w,
    λ (e : x ≡ w). ap (λ (v : Scored n). is_barred c v.role) e,
  )

  first_allowed-any :
      (p : Scored n → Bool) (c : Comparison) (xs : List (Scored n)) (w : Scored n)
      → first_allowed n c xs ≡ some w
      → p w ≡ true
      → any p xs ≡ true
  unfolding first_allowed
  first_allowed-any p c [] w h k = ground (arith, h)
  first_allowed-any p c (x ∷ xs) w h k =
      ground (arith, h, k, first_allowed-any p c xs w, λ (e : x ≡ w). ap p e)

  first_allowed-All :
      (P : Scored n → Type 0) (c : Comparison) (xs : List (Scored n)) (w : Scored n)
      → first_allowed n c xs ≡ some w
      → All P xs
      → P w
  unfolding first_allowed
  first_allowed-All P c [] w h k = cc
  first_allowed-All P c (x ∷ xs) w h k = elim (Bool-cases (is_barred c x.role)) [
    | inl e ↦ first_allowed-All P c xs w (ground (arith, h, e)) k.1
    | inr e ↦ subst P (some-injective x w (ground (arith, h, e))) k.0
  ]

  head?-All :
      (P : Scored n → Type 0) (xs : List (Scored n)) (w : Scored n)
      → head? xs ≡ some w
      → All P xs
      → P w
  head?-All P [] w h k = cc
  head?-All P (x ∷ xs) w h k = subst P (some-injective x w h) k.0

  pub first_allowed-none :
      (c : Comparison) (xs : List (Scored n))
      → first_allowed n c xs ≡ none
      → all (λ v. is_barred c v.role) xs ≡ true
  unfolding first_allowed
  first_allowed-none c [] h = refl
  first_allowed-none c (x ∷ xs) h = ground (arith, h, first_allowed-none c xs)

  synthesis_revision : (r : Role) → is_synthesis r ≡ true → is_revision r ≡ false
  synthesis_revision synthesis_candidate h = refl
  synthesis_revision incumbent_unchanged h = refl
  synthesis_revision revision_candidate h = ground (arith, h)
  synthesis_revision negative_probe h = refl

  all_barred :
      (c : Comparison) (xs : List (Scored n))
      → all (λ v. is_barred c v.role) xs ≡ true
      → any (λ v. is_revision v.role) xs ≡ false
  all_barred c [] h = refl
  all_barred c (x ∷ xs) h = ground (arith, h, all_barred c xs, synthesis_revision x.role)

  pub or_else-some :
      (o p : Option (Scored n)) (w : Scored n)
      → or_else o p ≡ some w
      → (o ≡ some w) ⊎ ((o ≡ none) × (p ≡ some w))
  or_else-some none p w h = inr (refl, h)
  or_else-some (some v) p w h = inl h

  head?-any :
      (p : Scored n → Bool) (xs : List (Scored n)) (w : Scored n)
      → head? xs ≡ some w
      → p w ≡ true
      → any p xs ≡ true
  head?-any p [] w h k = ground (arith, h)
  head?-any p (x ∷ xs) w h k = ground (arith, h, k, λ (e : x ≡ w). ap p e)

  compare_found-revision :
      (r s : Option (Scored n))
      → has_text (compare_found n r s).revision_variant_id ≡ true
      → is_none r ≡ false
  compare_found-revision none s h = ground (arith, h)
  compare_found-revision (some v) s h = refl

  find?-any : (p : Scored n → Bool) (xs : List (Scored n)) → is_none (find? p xs) ≡ not (any p xs)
  find?-any p [] = refl
  find?-any p (x ∷ xs) = ground (arith, find?-any p xs)

  comparison-revision :
      (pool : List (Scored n))
      → has_text (synthesis_comparison n pool).revision_variant_id ≡ true
      → any (λ v. is_revision v.role) pool ≡ true
  unfolding synthesis_comparison
  comparison-revision pool h = ground (
    arith,
    compare_found-revision (find? (λ v. is_revision v.role) pool)
        (find? (λ v. is_synthesis v.role) pool) h,
    find?-any (λ v. is_revision v.role) pool,
  )

  any-filter : (p : Scored n → Bool) (xs : List (Scored n)) → any p (filter p xs) ≡ any p xs
  any-filter p [] = refl
  any-filter p (x ∷ xs) = ground (arith, any-filter p xs)

  -- Every variant of the pool has what is asked of all of them, and the winner is one of them.
  pub choose_winner-any :
      (t : TournamentTexts) (p : Scored n → Bool) (variants : List (Scored n)) (w : Scored n)
      → choose_winner n t variants ≡ some w
      → p w ≡ true
      → any p (pool_of n variants) ≡ true
  unfolding choose_winner sort_winner_pool
  choose_winner-any t p variants w h k =
      let pool = pool_of n variants in
      let sorted = sort (before n t) pool in
      sym (any-sort (before n t) p pool)
      ∙ elim (or_else-some (first_allowed n (synthesis_comparison n pool) sorted) (head? sorted) w
          h) [
            | inl e ↦ first_allowed-any p (synthesis_comparison n pool) sorted w e k
            | inr e ↦ head?-any p sorted w e.1 k
          ]

  first_or-fails :
      (xs ys : List (Scored n))
      → any (λ v. v.hard_gate_passed) xs ≡ true
      → any (λ v. not v.hard_gate_passed) xs ≡ false
      → any (λ v. not v.hard_gate_passed) (first_or n xs ys) ≡ false
  first_or-fails [] ys h k = ground (arith, h)
  first_or-fails (x ∷ xs) ys h k = k

  filter-fails :
      (xs : List (Scored n))
      → any (λ v. not v.hard_gate_passed) (filter (λ v. v.hard_gate_passed) xs) ≡ false
  filter-fails [] = refl
  filter-fails (x ∷ xs) = ground (arith, filter-fails xs)

  -- Where some variant passes the hard gate, the winner passes it.
  pub choose_winner-hard_gate_passed :
      (t : TournamentTexts) (variants : List (Scored n)) (w : Scored n)
      → choose_winner n t variants ≡ some w
      → any (λ v. v.hard_gate_passed) variants ≡ true
      → w.hard_gate_passed ≡ true
  unfolding pool_of
  choose_winner-hard_gate_passed t variants w h k =
      let passed = filter (λ v. v.hard_gate_passed) variants in
      ground (
        arith,
        choose_winner-any t (λ v. not v.hard_gate_passed) variants w h,
        first_or-fails passed variants (any-filter (λ v. v.hard_gate_passed) variants ∙ k)
            (filter-fails variants),
      )

  -- A synthesis that wins where the pool has a revision with an id can beat it.
  pub winner-beats :
      (t : TournamentTexts) (variants : List (Scored n)) (w : Scored n)
      → choose_winner n t variants ≡ some w
      → is_synthesis w.role ≡ true
      → has_text (synthesis_comparison n (pool_of n variants)).revision_variant_id ≡ true
      → (synthesis_comparison n (pool_of n variants)).synthesis_can_beat_revision ≡ true
  unfolding choose_winner sort_winner_pool
  winner-beats t variants w h s r =
      let pool = pool_of n variants in
      let c = synthesis_comparison n pool in
      let sorted = sort (before n t) pool in
      elim (or_else-some (first_allowed n c sorted) (head? sorted) w h) [
        | inl e ↦ ground (arith, s, r, first_allowed-is_barred c sorted w e)
        | inr e ↦ absurd (
            ground (
              arith,
              all_barred c sorted (first_allowed-none c sorted e.0),
              any-sort (before n t) (λ v. is_revision v.role) pool,
              comparison-revision pool r,
            ))
      ]

  -- What holds of all variants of the pool holds of the winner.
  pub choose_winner-All :
      (t : TournamentTexts) (P : Scored n → Type 0) (variants : List (Scored n)) (w : Scored n)
      → choose_winner n t variants ≡ some w
      → All P (pool_of n variants)
      → P w
  unfolding choose_winner sort_winner_pool
  choose_winner-All t P variants w h k =
      let pool = pool_of n variants in
      let sorted = sort (before n t) pool in
      let all_sorted : All P sorted = All-sort (before n t) P pool k in
      elim (or_else-some (first_allowed n (synthesis_comparison n pool) sorted) (head? sorted) w
        h) [
          | inl e ↦ first_allowed-All P (synthesis_comparison n pool) sorted w e all_sorted
          | inr e ↦ head?-All P sorted w e.1 all_sorted
        ]

  or_else-none : (o p : Option (Scored n)) → or_else o p ≡ none → p ≡ none
  or_else-none none p h = h
  or_else-none (some v) p h = absurd (ground (arith, h))

  head?-none : (xs : List (Scored n)) → head? xs ≡ none → any (λ v. true) xs ≡ false
  head?-none [] h = refl
  head?-none (x ∷ xs) h = absurd (ground (arith, h))

  first_or-any :
      (xs ys : List (Scored n))
      → any (λ v. true) (first_or n xs ys) ≡ false
      → any (λ v. true) ys ≡ false
  first_or-any [] ys h = h
  first_or-any (x ∷ xs) ys h = absurd (ground (arith, h))

  -- Without variants only there is no winner.
  pub choose_winner-none :
      (t : TournamentTexts) (variants : List (Scored n))
      → choose_winner n t variants ≡ none
      → any (λ v. true) variants ≡ false
  unfolding choose_winner sort_winner_pool pool_of
  choose_winner-none t variants h =
      let pool = pool_of n variants in
      let sorted = sort (before n t) pool in
      first_or-any (filter (λ v. v.hard_gate_passed) variants) variants (
        sym (any-sort (before n t) (λ v. true) pool)
        ∙ head?-none sorted
            (or_else-none (first_allowed n (synthesis_comparison n pool) sorted) (head? sorted) h))
