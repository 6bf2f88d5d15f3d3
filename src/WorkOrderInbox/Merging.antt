-- ===== src/WorkOrderInbox/Merging.antt =====
-- What a merge of `mergeIntoExistingItem` of scripts/lib/work-order-inbox.mjs adds to an item, and
-- that nothing is added twice.
use misa_cybernetic_evolutio.Prelude.{
  String, true, false, ◌||◌, ◌≡◌, refl, ap, ◌∙◌, some, List, [], ◌∷◌, eq_iff, arith, includes,
}
use misa_cybernetic_evolutio.WorkOrderInbox.Types.{Instant, Item, Occurrence, AggregateState, Texts}
use misa_cybernetic_evolutio.WorkOrderInbox.Keys.{set_add_all}
use misa_cybernetic_evolutio.WorkOrderInbox.Observation.{refresh_observation}
use misa_cybernetic_evolutio.WorkOrderInbox.Aggregate.{
  keys_of, occurrences_for_item, ensured_aggregate,
}
use misa_cybernetic_evolutio.WorkOrderInbox.Merge.{
  Merged, fresh_occurrences, absorb, merge_fresh, merge_into_existing_item,
}
use misa_cybernetic_evolutio.WorkOrderInbox.Sets.{
  contains_all, contains_all_member, contains_all_from, includes-set_add_all,
}
use misa_cybernetic_evolutio.WorkOrderInbox.Known.{
  brought_keys, known_keys, keys_of-occurrences, ensured_aggregate-keys, ensured_aggregate-group,
  known_keys_current,
}

-- A fresh occurrence is one whose key is not known.
fresh-includes :
    (known : List String) (os : List Occurrence) (k : String)
    → (includes known k || includes (keys_of (fresh_occurrences known os)) k)
      ≡ (includes known k || includes (keys_of os) k)
unfolding fresh_occurrences
fresh-includes known [] k = refl
fresh-includes known (o ∷ os) k =
    ground (arith, fresh-includes known os k, eq_iff o.occurrence_key k)

fresh_none :
    (known : List String) (os : List Occurrence)
    → contains_all known (keys_of os) ≡ true
    → fresh_occurrences known os ≡ []
unfolding fresh_occurrences
fresh_none known [] h = refl
fresh_none known (o ∷ os) h = ground (arith, h, fresh_none known os)

module _ (t : Texts) where
  -- What a merge with these fresh occurrences comes to, for the item's aggregate `a`.
  known_after : List String → List Occurrence → List String
  known_after keys [] = keys
  known_after keys (o ∷ fresh) = set_add_all (set_add_all [] keys) (keys_of (o ∷ fresh))

  merge_fresh-known :
      (existing : Item) (a : AggregateState) (incoming : Item) (n : Instant)
      (fresh : List Occurrence)
      → a.group_key ≡ existing.dedupe_group_key
      → known_keys t (merge_fresh t existing a incoming n fresh).item
        ≡ known_after a.occurrence_keys fresh
  unfolding merge_fresh absorb refresh_observation known_after
  merge_fresh-known existing a incoming n [] g = known_keys_current t _ _ refl g
  merge_fresh-known existing a incoming n (o ∷ fresh) g = known_keys_current t _ _ refl g

  known_after-includes :
      (keys : List String) (fresh : List Occurrence) (k : String)
      → includes (known_after keys fresh) k ≡ (includes keys k || includes (keys_of fresh) k)
  unfolding known_after
  known_after-includes keys [] k = ground arith
  known_after-includes keys (o ∷ fresh) k = ground (
    arith,
    includes-set_add_all (set_add_all [] keys) (keys_of (o ∷ fresh)) k,
    includes-set_add_all [] keys k,
  )

  merge-known :
      (existing incoming : Item) (c n : Instant)
      → known_keys t (merge_into_existing_item t existing incoming c n).item
        ≡ known_after (known_keys t existing) (
            fresh_occurrences
              (set_add_all [] (known_keys t existing))
              (occurrences_for_item t incoming c))
  unfolding merge_into_existing_item
  merge-known existing incoming c n =
      let a = ensured_aggregate t existing c c in
      let same = ensured_aggregate-keys t existing c c in
      merge_fresh-known existing a incoming n
        (fresh_occurrences (set_add_all [] a.occurrence_keys) (occurrences_for_item t incoming c))
        (ensured_aggregate-group t existing c c)
      ∙ ap
          (λ (ks : List String).
            known_after ks
              (fresh_occurrences (set_add_all [] ks) (occurrences_for_item t incoming c)))
          same

  -- A merge knows what was known, and what it was brought.
  pub merge-knows :
      (existing incoming : Item) (c n : Instant) (k : String)
      → includes (known_keys t (merge_into_existing_item t existing incoming c n).item) k
        ≡ (includes (known_keys t existing) k || includes (brought_keys t incoming) k)
  merge-knows existing incoming c n k =
      let known = known_keys t existing in
      let os = occurrences_for_item t incoming c in
      let fresh = fresh_occurrences (set_add_all [] known) os in
      ap (λ (ks : List String). includes ks k) (merge-known existing incoming c n)
      ∙ ground (
        arith,
        known_after-includes known fresh k,
        fresh-includes (set_add_all [] known) os k,
        includes-set_add_all [] known k,
        ap (λ (ks : List String). includes ks k) (keys_of-occurrences t incoming c),
      )

  merge_fresh-unchanged :
      (existing : Item) (a : AggregateState) (incoming : Item) (n : Instant)
      (fresh : List Occurrence)
      → fresh ≡ []
      → merge_fresh t existing a incoming n fresh ≡ record {
        item = record existing { aggregate = some a };
        changed = false;
        added_occurrence_count = 0;
      }
  unfolding merge_fresh
  merge_fresh-unchanged existing a incoming n fresh e =
      ap (λ (os : List Occurrence). merge_fresh t existing a incoming n os) e

  -- A merge that brings nothing new.
  pub merge_known :
      (existing incoming : Item) (c n : Instant)
      → contains_all (known_keys t existing) (brought_keys t incoming) ≡ true
      → merge_into_existing_item t existing incoming c n ≡ record {
        item = record existing { aggregate = some (ensured_aggregate t existing c c) };
        changed = false;
        added_occurrence_count = 0;
      }
  unfolding merge_into_existing_item
  merge_known existing incoming c n h =
      let a = ensured_aggregate t existing c c in
      let os = occurrences_for_item t incoming c in
      merge_fresh-unchanged existing a incoming n _ (
        fresh_none (set_add_all [] a.occurrence_keys) os (
          contains_all_from (set_add_all [] a.occurrence_keys) (keys_of os) (λ k member. ground (
            arith,
            includes-set_add_all [] a.occurrence_keys k,
            ap (λ (ks : List String). includes ks k) (ensured_aggregate-keys t existing c c),
            ap (λ (ks : List String). includes ks k) (keys_of-occurrences t incoming c),
            contains_all_member (known_keys t existing) (brought_keys t incoming) k h,
            member,
          ))))

  pub merge_known-keys :
      (existing incoming : Item) (c n : Instant)
      → contains_all (known_keys t existing) (brought_keys t incoming) ≡ true
      → known_keys t (merge_into_existing_item t existing incoming c n).item ≡ known_keys t existing
  merge_known-keys existing incoming c n h =
      ap (λ (m : Merged). known_keys t m.item) (merge_known existing incoming c n h)
      ∙ known_keys_current t _ _ refl (ensured_aggregate-group t existing c c)
      ∙ ensured_aggregate-keys t existing c c

  -- What an item has merged, it knows.
  pub merge-contains :
      (existing incoming : Item) (c n : Instant)
      → contains_all
          (known_keys t (merge_into_existing_item t existing incoming c n).item)
          (brought_keys t incoming)
        ≡ true
  merge-contains existing incoming c n =
      contains_all_from _ (brought_keys t incoming)
        (λ k member. ground (arith, merge-knows existing incoming c n k, member))

  -- What an item has merged it does not merge again: where the same occurrences come a second
  -- time, in any later review, the merge changes nothing, adds nothing, and the item knows the same
  -- keys as before.
  pub merge_again :
      (existing incoming again : Item) (c n d m : Instant)
      → brought_keys t again ≡ brought_keys t incoming
      → let merged = merge_into_existing_item t existing incoming c n in
        let twice = merge_into_existing_item t merged.item again d m in
        (twice.changed ≡ false)
        × (twice.added_occurrence_count ≡ 0)
        × (known_keys t twice.item ≡ known_keys t merged.item)
  merge_again existing incoming again c n d m e =
      let merged = merge_into_existing_item t existing incoming c n in
      let h =
        ap (contains_all (known_keys t merged.item)) e ∙ merge-contains existing incoming c n in
      let same = merge_known merged.item again d m h in
      (
        ap (λ (x : Merged). x.changed) same,
        ap (λ (x : Merged). x.added_occurrence_count) same,
        merge_known-keys merged.item again d m h,
      )

  merge_fresh_unchanged-keys :
      (existing : Item) (a : AggregateState) (incoming : Item) (n : Instant)
      (fresh : List Occurrence)
      → a.group_key ≡ existing.dedupe_group_key
      → (merge_fresh t existing a incoming n fresh).changed ≡ false
      → known_keys t (merge_fresh t existing a incoming n fresh).item ≡ a.occurrence_keys
  unfolding merge_fresh
  merge_fresh_unchanged-keys existing a incoming n [] g h = known_keys_current t _ _ refl g
  merge_fresh_unchanged-keys existing a incoming n (o ∷ fresh) g h = ground (arith, h)

  pub merge_unchanged-keys :
      (existing incoming : Item) (c n : Instant)
      → (merge_into_existing_item t existing incoming c n).changed ≡ false
      → known_keys t (merge_into_existing_item t existing incoming c n).item ≡ known_keys t existing
  unfolding merge_into_existing_item
  merge_unchanged-keys existing incoming c n h =
      merge_fresh_unchanged-keys existing _ incoming n _ (ensured_aggregate-group t existing c c) h
      ∙ ensured_aggregate-keys t existing c c
