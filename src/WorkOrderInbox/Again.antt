-- ===== src/WorkOrderInbox/Again.antt =====
-- Exporting the orders of a review of scripts/lib/work-order-inbox.mjs a second time.
use misa_cybernetic_evolutio.Prelude.{
  String, true, ◌≡◌, refl, ap, sym, ◌∙◌, Option, List, [], ◌∷◌, arith, all, is_none, truthy,
  and-true,
}
use misa_cybernetic_evolutio.WorkOrderInbox.Types.{Instant, Order, Review, Entry, Texts}
use misa_cybernetic_evolutio.WorkOrderInbox.Export.{
  ExportState, normalize_inbox_item, export_orders, start_of, export_review,
}
use misa_cybernetic_evolutio.WorkOrderInbox.Digest.{paths_of}
use misa_cybernetic_evolutio.WorkOrderInbox.Sets.{IsUnique}
use misa_cybernetic_evolutio.WorkOrderInbox.Directory.{open_entry}
use misa_cybernetic_evolutio.WorkOrderInbox.Views.{shown, shown_on_disk}
use misa_cybernetic_evolutio.WorkOrderInbox.InStep.{IsInStep, start_of-IsInStep}
use misa_cybernetic_evolutio.WorkOrderInbox.Cover.{group_of, brought_by, normalize-brought}
use misa_cybernetic_evolutio.WorkOrderInbox.Unchanged.{IsUnchanged, export_item-covered}
use misa_cybernetic_evolutio.WorkOrderInbox.Growth.{covered}
use misa_cybernetic_evolutio.WorkOrderInbox.Covering.{
  is_free, are_apart, free, covers, step, step-IsInStep, export_orders-covers,
}

module _ (t : Texts) where
  module _ (r : Review) (f : Option String) (c n : Instant) where
    step_covered :
        (s : ExportState) (o : Order)
        → IsInStep t s
        → covers t s o ≡ true
        → IsUnchanged t s (step t r f c n s o)
    unfolding step covers normalize_inbox_item
    step_covered s o i h =
        export_item-covered t s (normalize_inbox_item t o r f c n) c n i
          (ap (covered (shown t (group_of t o) s)) (normalize-brought t o r f c n) ∙ h)

    all_covered :
        (s after : ExportState) (orders : List Order)
        → IsUnchanged t s after
        → all (covers t s) orders ≡ true
        → all (covers t after) orders ≡ true
    unfolding covers
    all_covered s after [] u h = refl
    all_covered s after (o ∷ orders) u h = ground (
      arith,
      h,
      ap (λ x. covered x (brought_by t o)) (u.3 (group_of t o)),
      all_covered s after orders u,
    )

    export_orders_covered :
        (orders : List Order) (s : ExportState)
        → IsInStep t s
        → all (covers t s) orders ≡ true
        → let after = export_orders t r f c n orders s in
          (after.disk ≡ s.disk)
          × (after.written ≡ s.written)
          × (after.merged_existing ≡ s.merged_existing)
    unfolding export_orders step
    export_orders_covered [] s i h = (refl, refl, refl)
    export_orders_covered (o ∷ orders) s i h =
        let now = and-true _ _ h in
        let once = step_covered s o i now.0 in
        let rest =
          export_orders_covered orders (step t r f c n s o) (step-IsInStep t r f c n s o i)
            (all_covered s (step t r f c n s o) orders once now.1) in
        (rest.0 ∙ once.0, rest.1 ∙ once.1, rest.2 ∙ once.2)

  is_none-seen :
      (g : String) (disk : List Entry)
      → is_none (shown_on_disk t g disk) ≡ is_none (open_entry t g disk)
  is_none-seen g disk = ground arith

  -- With an index that is read from the files.
  start-free :
      (disk : List Entry) (c : Instant) (orders : List Order)
      → IsInStep t (start_of t disk c)
      → all (is_free t disk) orders ≡ true
      → all (free t (start_of t disk c)) orders ≡ true
  unfolding free is_free start_of
  start-free disk c [] i h = refl
  start-free disk c (o ∷ orders) i h = ground (
    arith,
    h,
    start-free disk c orders i,
    ap (λ x. is_none x) (i.2 (group_of t o)),
    is_none-seen (group_of t o) disk,
  )

  start-covers :
      (s : ExportState) (c : Instant) (orders : List Order)
      → IsInStep t s
      → IsInStep t (start_of t s.disk c)
      → all (covers t s) orders ≡ true
      → all (covers t (start_of t s.disk c)) orders ≡ true
  unfolding covers start_of
  start-covers s c [] i j h = refl
  start-covers s c (o ∷ orders) i j h = ground (
    arith,
    h,
    start-covers s c orders i j,
    ap (λ x. covered x (brought_by t o)) (j.2 (group_of t o) ∙ sym (i.2 (group_of t o))),
  )

  -- Where the hashes are not empty, no two files have one path, the orders of different groups have
  -- different paths, and no path of an order is taken unless its group has an open item: exporting
  -- the orders of a review again, at any later time and from whatever review, rewrites no file,
  -- creates none, and reports nothing as written or merged.
  pub export_review-export_review :
      (hash_present : (g : String) (s : Option String) (k r : String)
        → truthy (t.occurrence_hash g s k r) ≡ true)
      (source_present : (o : Order) → truthy (t.source_hash o) ≡ true) (disk : List Entry)
      (r again : Review) (f g : Option String) (c n d m : Instant)
      → IsUnique (paths_of disk)
      → are_apart t r.repair_work_orders ≡ true
      → all (is_free t disk) r.repair_work_orders ≡ true
      → again.repair_work_orders ≡ r.repair_work_orders
      → let once = export_review t disk r f c n in
        let twice = export_review t once.disk again g d m in
        (twice.disk ≡ once.disk) × (twice.written ≡ []) × (twice.merged_existing ≡ [])
  unfolding export_review
  export_review-export_review hash_present source_present disk r again f g c n d m u a v e =
      let orders = r.repair_work_orders in
      let i = start_of-IsInStep t disk c u in
      let once =
        export_orders-covers t r f c n hash_present source_present orders (start_of t disk c) i
          (start-free disk c orders i v) a in
      let after = export_orders t r f c n orders (start_of t disk c) in
      let j = start_of-IsInStep t after.disk d once.0.1 in
      let twice =
        export_orders_covered again g d m again.repair_work_orders (start_of t after.disk d) j (
          ap (all (covers t (start_of t after.disk d))) e
          ∙ start-covers after d orders once.0 j once.1) in
      twice
