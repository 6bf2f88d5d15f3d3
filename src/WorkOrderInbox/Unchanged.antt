-- ===== src/WorkOrderInbox/Unchanged.antt =====
-- A step of `exportReviewWorkOrdersToInbox` of scripts/lib/work-order-inbox.mjs for an order that
-- the inbox covers.
use misa_cybernetic_evolutio.Prelude.{
  String, true, ◌≡◌, refl, ap, sym, ◌∙◌, inl, inr, some, List, str_eq, eq_iff, arith, Bool-cases,
  Option-cases,
}
use misa_cybernetic_evolutio.WorkOrderInbox.Types.{Instant, Item, Entry, Texts}
use misa_cybernetic_evolutio.WorkOrderInbox.Export.{
  ExportState, get_existing, after_merge, export_item,
}
use misa_cybernetic_evolutio.WorkOrderInbox.Sets.{contains_all}
use misa_cybernetic_evolutio.WorkOrderInbox.Known.{brought_keys, known_keys}
use misa_cybernetic_evolutio.WorkOrderInbox.Merging.{merge_known, merge_known-keys}
use misa_cybernetic_evolutio.WorkOrderInbox.Index.{seen_of}
use misa_cybernetic_evolutio.WorkOrderInbox.Views.{shown}
use misa_cybernetic_evolutio.WorkOrderInbox.InStep.{IsInStep}
use misa_cybernetic_evolutio.WorkOrderInbox.Growth.{covered, export_item_merges, merged-shown}

module _ (t : Texts) where
  abbrev pub IsUnchanged : ExportState → ExportState → Type 0
  IsUnchanged s after =
      (after.disk ≡ s.disk)
      × (after.written ≡ s.written)
      × (after.merged_existing ≡ s.merged_existing)
      × ((h : String) → shown t h after ≡ shown t h s)

  module _ (s : ExportState) (item : Item) (c n : Instant) (i : IsInStep t s) where
    known_step :
        (e : Entry)
        → get_existing item.dedupe_group_key s.existing_by_group ≡ some e
        → contains_all (known_keys t e.item) (brought_keys t item) ≡ true
        → IsUnchanged s (export_item t s item c n)
    unfolding after_merge
    known_step e k h =
        let key = item.dedupe_group_key in
        let same =
          export_item_merges t s item c n e k
          ∙ ap (after_merge t s e item) (merge_known t e.item item c n h) in
        (
          ap (λ (x : ExportState). x.disk) same,
          ap (λ (x : ExportState). x.written) same,
          ap (λ (x : ExportState). x.merged_existing) same,
          λ g. merged-shown t s item c n e g i k ∙ elim (Bool-cases (str_eq key g)) [
            | inl y ↦ rw y (
                ap (λ (ks : List String). some (e.path, ks)) (merge_known-keys t e.item item c n h)
                ∙ sym (ap (seen_of t) k)
                ∙ ap (λ (z : String). shown t z s) ((eq_iff key g).0 y))
            | inr y ↦ rw y refl
          ],
        )

    pub export_item-covered :
        covered (shown t item.dedupe_group_key s) (brought_keys t item) ≡ true
        → IsUnchanged s (export_item t s item c n)
    export_item-covered h =
        elim (Option-cases (get_existing item.dedupe_group_key s.existing_by_group)) [
          | inl k ↦
              absurd (ground (arith, h, ap (λ o. covered (seen_of t o) (brought_keys t item)) k))
          | inr (e, k) ↦
              known_step e k (sym (ap (λ o. covered (seen_of t o) (brought_keys t item)) k) ∙ h)
        ]
