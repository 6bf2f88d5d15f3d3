-- ===== src/WorkOrderInbox/Counts.antt =====
-- The lists that `exportReviewWorkOrdersToInbox` of scripts/lib/work-order-inbox.mjs reports, counted
-- against the orders and the files.
use misa_cybernetic_evolutio.WorkOrderInbox.Digest.{paths_of}
use misa_cybernetic_evolutio.WorkOrderInbox.Cover.{group_of}
use misa_cybernetic_evolutio.WorkOrderInbox.Listing.{
  reported_keys, paths_listed, export_orders-lists,
}
use mathlib.Core.List.{Perm}
use mathlib.Core.List.Perm
use misa_cybernetic_evolutio.Prelude.{
  map, ◌++◌, ℕ, suc, ◌+◌, String, ◌≡◌, refl, inl, inr, Option, none, some, List, [], ◌∷◌, arith,
  Bool-cases, Option-cases, any, length, length-append, insert,
}
use misa_cybernetic_evolutio.WorkOrderInbox.Types.{Instant, Order, Review, Item, Entry, Texts}
use misa_cybernetic_evolutio.WorkOrderInbox.Merge.{Merged, merge_into_existing_item}
use misa_cybernetic_evolutio.WorkOrderInbox.Export.{
  ExportState, has_path, get_existing, write_file, before, target_of, normalize_inbox_item,
  after_merge, create_item, export_item, export_orders, start_of, export_review, export_summary,
  listed, occurrence_count_of,
}

abbrev reported_count : ExportState → ℕ
reported_count s = length s.written + length s.merged_existing + length s.skipped_existing

length-write_file :
    (p : String) (item : Item) (disk : List Entry) → length (write_file p item disk) ≡ length disk
length-write_file p item [] = refl
length-write_file p item (e ∷ disk) = ground (arith, length-write_file p item disk)

append_nil_perm : (ks : List String) → Perm (ks ++ []) ks
append_nil_perm [] = Perm.refl []
append_nil_perm (k ∷ ks) = Perm.cons k (append_nil_perm ks)

module _ (t : Texts) where
  length-insert :
      (e : Entry) (disk : List Entry) → length (insert (before t) e disk) ≡ suc (length disk)
  unfolding insert
  length-insert e [] = refl
  length-insert e (x ∷ disk) = ground (arith, length-insert e disk)

  -- One more order reported, and one more file for each that is written.
  abbrev CountsOne : ExportState → ExportState → Type 0
  CountsOne s after =
      (reported_count after ≡ suc (reported_count s))
      × (length after.disk + length s.written ≡ length s.disk + length after.written)

  after_merge-counts :
      (s : ExportState) (e : Entry) (item : Item) (m : Merged)
      → CountsOne s (after_merge t s e item m)
  unfolding after_merge
  after_merge-counts s e item m =
      let key = item.dedupe_group_key in
      let count = occurrence_count_of m.item in
      elim (Bool-cases m.changed) [
        | inl h ↦ rw h (
          omega (
            arith,
            length-append s.merged_existing
                (listed m.item e.path key (some m.added_occurrence_count) (some count) ∷ []),
          ),
          omega (arith, length-write_file e.path m.item s.disk),
        )
        | inr h ↦ rw h (
          omega (arith, length-append s.skipped_existing (listed m.item e.path key none none ∷ [])),
          refl,
        )
      ]

  create_item-counts : (s : ExportState) (item : Item) → CountsOne s (create_item t s item)
  unfolding create_item
  create_item-counts s item =
      let file = target_of t item in
      let key = item.dedupe_group_key in
      let count = occurrence_count_of item in
      let more = length-append s.written (listed item file key none (some count) ∷ []) in
      elim (Bool-cases (any (has_path file) s.disk)) [
        | inl h ↦ rw h (
          omega (arith, length-append s.skipped_existing (listed item file key none none ∷ [])),
          refl,
        )
        | inr h ↦ rw h (
          omega (arith, more),
          omega (arith, more, length-insert (record { path = file; item = item }) s.disk),
        )
      ]

  export_item-counts :
      (s : ExportState) (item : Item) (c n : Instant) → CountsOne s (export_item t s item c n)
  unfolding export_item
  export_item-counts s item c n =
      elim (Option-cases (get_existing item.dedupe_group_key s.existing_by_group)) [
        | inl k ↦ rw (k, export_item) (create_item-counts s item)
        | inr (e, k) ↦
            rw (k, export_item)
              (after_merge-counts s e item (merge_into_existing_item t e.item item c n))
      ]

  export_orders-counts :
      (r : Review) (f : Option String) (c n : Instant) (orders : List Order) (s : ExportState)
      → let after = export_orders t r f c n orders s in
        (reported_count after ≡ reported_count s + length orders)
        × (length after.disk + length s.written ≡ length s.disk + length after.written)
  unfolding export_orders
  export_orders-counts r f c n [] s = (omega arith, refl)
  export_orders-counts r f c n (o ∷ orders) s =
      let item = normalize_inbox_item t o r f c n in
      let one = export_item-counts s item c n in
      let rest = export_orders-counts r f c n orders (export_item t s item c n) in
      (omega (arith, one.0, rest.0), omega (arith, one.1, rest.1))

  -- An export reports every order of the review exactly once, as written, merged or skipped: the
  -- group keys of its three lists are those of the orders, in some order, and the three counts add
  -- up to the number of orders. The files after it are those that were there and those that are
  -- listed as written, each once, and the inbox count is their number.
  pub export_review-counts :
      (disk : List Entry) (r : Review) (f : Option String) (c n : Instant)
      → let after = export_review t disk r f c n in
        let s = export_summary after in
        Perm (reported_keys after) (map (group_of t) r.repair_work_orders)
        × Perm (paths_of after.disk) (paths_listed after.written ++ paths_of disk)
        × (s.written_count + s.merged_existing_count + s.skipped_existing_count
            ≡ length r.repair_work_orders)
        × (s.inbox_count ≡ length disk + s.written_count)
  unfolding export_review export_summary start_of
  export_review-counts disk r f c n =
      let start = start_of t disk c in
      let counts = export_orders-counts r f c n r.repair_work_orders start in
      let (keys, filed) =
        export_orders-lists t r f c n (paths_of disk) r.repair_work_orders start
          (Perm.refl (paths_of disk)) in
      (
        Perm.trans keys (append_nil_perm (map (group_of t) r.repair_work_orders)),
        filed,
        omega (arith, counts.0),
        omega (arith, counts.1),
      )
