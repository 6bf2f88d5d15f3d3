-- ===== src/WorkOrderInbox/Counted.antt =====
-- What a merge of `mergeIntoExistingItem` of scripts/lib/work-order-inbox.mjs counts.
use misa_cybernetic_evolutio.Prelude.{true, ◌≡◌, refl, some, List, [], ◌∷◌, arith, length}
use misa_cybernetic_evolutio.WorkOrderInbox.Types.{Instant, Item, Occurrence, AggregateState, Texts}
use misa_cybernetic_evolutio.WorkOrderInbox.Keys.{set_add_all}
use misa_cybernetic_evolutio.WorkOrderInbox.Observation.{refresh_observation}
use misa_cybernetic_evolutio.WorkOrderInbox.Aggregate.{keys_of}
use misa_cybernetic_evolutio.WorkOrderInbox.Merge.{absorb, merge_fresh, merge_into_existing_item}
use misa_cybernetic_evolutio.WorkOrderInbox.Sets.{IsUnique, set_add_all-IsUnique}

module _ (t : Texts) where
  merge_fresh-counts :
      (existing : Item) (a : AggregateState) (incoming : Item) (n : Instant)
      (fresh : List Occurrence)
      → (merge_fresh t existing a incoming n fresh).changed ≡ true
      → (b : AggregateState) × ((merge_fresh t existing a incoming n fresh).item.aggregate ≡ some b)
        × (b.occurrence_count ≡ length b.occurrence_keys)
        × IsUnique b.occurrence_keys
  unfolding merge_fresh absorb refresh_observation
  merge_fresh-counts existing a incoming n [] h = ground (arith, h)
  merge_fresh-counts existing a incoming n (o ∷ fresh) h = (
    _,
    refl,
    refl,
    set_add_all-IsUnique (set_add_all [] a.occurrence_keys) (keys_of (o ∷ fresh))
        (set_add_all-IsUnique [] a.occurrence_keys tt),
  )

  -- Where a merge changes the item, the aggregate that it leaves knows no key twice and counts as
  -- many occurrences as it knows keys, whatever the aggregate was before.
  pub merge-counts_keys :
      (existing incoming : Item) (c n : Instant)
      → (merge_into_existing_item t existing incoming c n).changed ≡ true
      → (b : AggregateState) × ((merge_into_existing_item t existing incoming c n).item.aggregate
          ≡ some b)
        × (b.occurrence_count ≡ length b.occurrence_keys)
        × IsUnique b.occurrence_keys
  unfolding merge_into_existing_item
  merge-counts_keys existing incoming c n h = merge_fresh-counts existing _ incoming n _ h
