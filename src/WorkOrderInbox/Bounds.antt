-- ===== src/WorkOrderInbox/Bounds.antt =====
-- The bounds that scripts/lib/work-order-inbox.mjs puts on what an item keeps.
use misa_cybernetic_evolutio.Prelude.{
  ℕ, zero, suc, ◌-◌, ◌≤◌, true, ◌≡◌, refl, some, List, [], ◌∷◌, ◌++◌, map, arith, length,
  length-filter-le, get_or,
}
use misa_cybernetic_evolutio.WorkOrderInbox.Types.{
  Instant, Item, Occurrence, CompactOccurrence, AggregateState, ObservationState, Texts,
}
use misa_cybernetic_evolutio.WorkOrderInbox.Observation.{
  seen_within, count_since, short_window_ms, daily_window_ms, refresh_observation,
}
use misa_cybernetic_evolutio.WorkOrderInbox.Aggregate.{
  take, drop, take_last, compact_occurrence, example_of,
}
use misa_cybernetic_evolutio.WorkOrderInbox.Merge.{absorb, merge_fresh, merge_into_existing_item}

pub length-take {ℓ} : {A : Type ℓ} (n : ℕ) (xs : List A) → length (take n xs) ≤ n
unfolding take
length-take n [] = omega arith
length-take zero (x ∷ xs) = omega arith
length-take (suc n) (x ∷ xs) = omega (arith, length-take n xs)

pub length-drop {ℓ} : {A : Type ℓ} (n : ℕ) (xs : List A) → length (drop n xs) ≡ length xs - n
unfolding drop
length-drop n [] = omega arith
length-drop zero (x ∷ xs) = omega arith
length-drop (suc n) (x ∷ xs) = omega (arith, length-drop n xs)

length-take_last {ℓ} : {A : Type ℓ} (n : ℕ) (xs : List A) → length (take_last n xs) ≤ n
unfolding take_last
length-take_last n xs = omega (arith, length-drop (length xs - n) xs)

-- The bounds on an aggregate.
unfoldable pub IsBounded : AggregateState → Type 0
IsBounded a =
    (length (get_or a.occurrence_timeline []) ≤ 5000)
    × (length a.evidence_examples ≤ 10)
    × (o : ObservationState) × (a.observation ≡ some o)
    × (o.short_count ≤ o.daily_count)
    × (o.daily_count ≤ length (get_or a.occurrence_timeline []))

module _ (t : Texts) where
  seen_within-le :
      (x : CompactOccurrence) (v w : ℕ) (n : Instant)
      → v ≤ w
      → seen_within t v n x ≡ true
      → seen_within t w n x ≡ true
  seen_within-le x v w n h k = ground (arith, h, k)

  -- What is seen in a window is seen in a longer one.
  count_since-le :
      (xs : List CompactOccurrence) (v w : ℕ) (n : Instant)
      → v ≤ w
      → count_since t xs v n ≤ count_since t xs w n
  unfolding count_since
  count_since-le [] v w n h = omega arith
  count_since-le (x ∷ xs) v w n h =
      ground (arith, seen_within-le x v w n h, count_since-le xs v w n h)

  count_since-length :
      (xs : List CompactOccurrence) (w : ℕ) (n : Instant) → count_since t xs w n ≤ length xs
  unfolding count_since
  count_since-length xs w n = length-filter-le (seen_within t w n) xs

  merge_fresh-IsBounded :
      (existing : Item) (a : AggregateState) (incoming : Item) (n : Instant)
      (fresh : List Occurrence)
      → (merge_fresh t existing a incoming n fresh).changed ≡ true
      → (b : AggregateState) × ((merge_fresh t existing a incoming n fresh).item.aggregate ≡ some b)
        × IsBounded b
  unfolding merge_fresh absorb refresh_observation IsBounded
  merge_fresh-IsBounded existing a incoming n [] h = ground (arith, h)
  merge_fresh-IsBounded existing a incoming n (o ∷ fresh) h =
      let b = absorb t a (o ∷ fresh) in
      let timeline = get_or b.occurrence_timeline [] in
      (
        _,
        refl,
        (
          length-take_last 5000
              (get_or a.occurrence_timeline [] ++ map compact_occurrence (o ∷ fresh)),
          length-take_last 10 (a.evidence_examples ++ map example_of (o ∷ fresh)),
          _,
          refl,
          count_since-le timeline short_window_ms daily_window_ms n (omega arith),
          count_since-length timeline daily_window_ms n,
        ),
      )

  -- Where a merge changes an item, the item keeps at most 5000 occurrences on its timeline and at most
  -- 10 examples, whatever it kept before, and counts no more occurrences in the last hour than in the
  -- last day, and no more in the last day than there are on the timeline.
  pub merge-IsBounded :
      (existing incoming : Item) (c n : Instant)
      → (merge_into_existing_item t existing incoming c n).changed ≡ true
      → (b : AggregateState) × ((merge_into_existing_item t existing incoming c n).item.aggregate
          ≡ some b)
        × IsBounded b
  unfolding merge_into_existing_item
  merge-IsBounded existing incoming c n h = merge_fresh-IsBounded existing _ incoming n _ h
