-- ===== src/WorkOrderInbox/Growth.antt =====
-- What one step of `exportReviewWorkOrdersToInbox` of scripts/lib/work-order-inbox.mjs does to what
-- the index shows, and to the orders that the inbox covers.
use misa_cybernetic_evolutio.Prelude.{
  String, Bool, true, false, not, ◌||◌, ◌≡◌, refl, ap, sym, ◌∙◌, inl, inr, Option, none, some, List,
  if◌then◌else◌, str_eq, arith, Bool-cases, Option-cases, any, is_none, includes, insert,
}
use misa_cybernetic_evolutio.WorkOrderInbox.Types.{Instant, Item, Entry, Texts}
use misa_cybernetic_evolutio.WorkOrderInbox.Merge.{Merged, merge_into_existing_item}
use misa_cybernetic_evolutio.WorkOrderInbox.Export.{
  ExportState, has_path, get_existing, replace_existing, target_of, after_merge, create_item,
  export_item, before,
}
use misa_cybernetic_evolutio.WorkOrderInbox.Digest.{paths_of}
use misa_cybernetic_evolutio.WorkOrderInbox.Sets.{
  contains_all, contains_all_from, contains_all_member,
}
use misa_cybernetic_evolutio.WorkOrderInbox.Known.{brought_keys, known_keys}
use misa_cybernetic_evolutio.WorkOrderInbox.Merging.{merge-knows, merge-contains}
use misa_cybernetic_evolutio.WorkOrderInbox.Directory.{
  any-has_path, paths_of-write_file, includes-insert, get_existing-has_group,
}
use misa_cybernetic_evolutio.WorkOrderInbox.Index.{seen_of}
use misa_cybernetic_evolutio.WorkOrderInbox.Views.{
  shown, replace-seen, append-seen, get_existing-IsSettled,
}
use misa_cybernetic_evolutio.WorkOrderInbox.InStep.{IsInStep, merge-keeps}

abbrev pub covered : Option (String × List String) → List String → Bool
covered none keys = false
covered (some p) keys = contains_all p.1 keys

-- A step that sets what a group shows.
abbrev pub set_shown :
    String
    → String × List String
    → String
    → Option (String × List String)
    → Option (String × List String)
set_shown g p h before = if str_eq g h then some p else before

module _ (t : Texts) where
  -- Nothing stands in the way of an order's file, where it would be created.
  abbrev pub is_free_in : ExportState → (group file : String) → Bool
  is_free_in s group file = not (is_none (shown t group s)) || not (any (has_path file) s.disk)

  after_merge-index :
      (s : ExportState) (e : Entry) (item : Item) (m : Merged)
      → (after_merge t s e item m).existing_by_group
        ≡ replace_existing item.dedupe_group_key m.item s.existing_by_group
  unfolding after_merge
  after_merge-index s e item m = elim (Bool-cases m.changed) [
    | inl h ↦ rw h refl
    | inr h ↦ rw h refl
  ]

  after_merge-paths :
      (s : ExportState) (e : Entry) (item : Item) (m : Merged)
      → paths_of (after_merge t s e item m).disk ≡ paths_of s.disk
  unfolding after_merge
  after_merge-paths s e item m = elim (Bool-cases m.changed) [
    | inl h ↦ rw h (paths_of-write_file e.path m.item s.disk)
    | inr h ↦ rw h refl
  ]

  -- A step that merges.
  pub export_item_merges :
      (s : ExportState) (item : Item) (c n : Instant) (e : Entry)
      → get_existing item.dedupe_group_key s.existing_by_group ≡ some e
      → export_item t s item c n
        ≡ after_merge t s e item (merge_into_existing_item t e.item item c n)
  unfolding export_item
  export_item_merges s item c n e k = rw (k, export_item) refl

  export_item_creates :
      (s : ExportState) (item : Item) (c n : Instant)
      → get_existing item.dedupe_group_key s.existing_by_group ≡ none
      → export_item t s item c n ≡ create_item t s item
  unfolding export_item
  export_item_creates s item c n k = rw (k, export_item) refl

  pub merged-shown :
      (s : ExportState) (item : Item) (c n : Instant) (e : Entry) (h : String)
      → IsInStep t s
      → get_existing item.dedupe_group_key s.existing_by_group ≡ some e
      → shown t h (export_item t s item c n)
        ≡ set_shown item.dedupe_group_key
            (e.path, known_keys t (merge_into_existing_item t e.item item c n).item)
            h
            (shown t h s)
  merged-shown s item c n e h i k =
      let key = item.dedupe_group_key in
      let was = get_existing-IsSettled t key s.existing_by_group e i.0 k in
      ap (shown t h) (export_item_merges s item c n e k)
      ∙ ap (λ entries. seen_of t (get_existing h entries))
          (after_merge-index s e item (merge_into_existing_item t e.item item c n))
      ∙ replace-seen t key h _ s.existing_by_group e k (
          (merge-keeps t e.item item c n was).1
          ∙ get_existing-has_group key s.existing_by_group e k)

  created-shown :
      (s : ExportState) (item : Item) (c n : Instant) (h : String)
      → get_existing item.dedupe_group_key s.existing_by_group ≡ none
      → any (has_path (target_of t item)) s.disk ≡ false
      → shown t h (export_item t s item c n)
        ≡ set_shown item.dedupe_group_key (target_of t item, known_keys t item) h (shown t h s)
  unfolding create_item
  created-shown s item c n h k f =
      ap (shown t h) (export_item_creates s item c n k)
      ∙ rw f (
          append-seen t item.dedupe_group_key h (record { path = target_of t item; item = item })
            s.existing_by_group k refl)

  -- What the index shows after a step for an item whose file is free: for its own group, a file
  -- whose keys have grown by what the item brings.
  abbrev pub GrowsTo : ExportState → Item → ExportState → String × List String → Type 0
  GrowsTo s item after p =
      ((h : String) → shown t h after ≡ set_shown item.dedupe_group_key p h (shown t h s))
      × (contains_all p.1 (brought_keys t item) ≡ true)
      × ((keys : List String)
          → covered (shown t item.dedupe_group_key s) keys ≡ true
          → contains_all p.1 keys ≡ true)

  pub export_item-grows :
      (s : ExportState) (item : Item) (c n : Instant)
      → IsInStep t s
      → is_free_in s item.dedupe_group_key (target_of t item) ≡ true
      → contains_all (known_keys t item) (brought_keys t item) ≡ true
      → (p : String × List String) × GrowsTo s item (export_item t s item c n) p
  export_item-grows s item c n i f k =
      let key = item.dedupe_group_key in
      elim (Option-cases (get_existing key s.existing_by_group)) [
        | inl none_there ↦ (
          (target_of t item, known_keys t item),
          (
            λ h.
                created-shown s item c n h none_there
                  (ground (arith, f, ap (λ o. is_none (seen_of t o)) none_there)),
            k,
            λ keys was. ground (arith, was, ap (λ o. covered (seen_of t o) keys) none_there),
          ),
        )
        | inr (e, there) ↦ (
          (e.path, known_keys t (merge_into_existing_item t e.item item c n).item),
          (
            λ h. merged-shown s item c n e h i there,
            merge-contains t e.item item c n,
            λ keys was. contains_all_from _ keys (λ x m. ground (
              arith,
              merge-knows t e.item item c n x,
              contains_all_member (known_keys t e.item) keys x
                  (sym (ap (λ o. covered (seen_of t o) keys) there) ∙ was) m,
            )),
          ),
        )
      ]

  create_item-has_path :
      (s : ExportState) (item : Item) (p : String)
      → str_eq (target_of t item) p ≡ false
      → any (has_path p) (create_item t s item).disk ≡ any (has_path p) s.disk
  unfolding create_item
  create_item-has_path s item p d = elim (Bool-cases (any (has_path (target_of t item)) s.disk)) [
    | inl h ↦ rw h refl
    | inr h ↦ rw h (
        any-has_path p (insert (before t) (record { path = target_of t item; item = item }) s.disk)
        ∙ ground (
          arith,
          d,
          includes-insert t (record { path = target_of t item; item = item }) s.disk p,
          any-has_path p s.disk,
        ))
  ]

  -- A step leaves alone every path but its item's, and all of them where it merges.
  pub export_item-has_path :
      (s : ExportState) (item : Item) (c n : Instant) (p : String)
      → (not (is_none (shown t item.dedupe_group_key s)) || not (str_eq (target_of t item) p))
        ≡ true
      → any (has_path p) (export_item t s item c n).disk ≡ any (has_path p) s.disk
  export_item-has_path s item c n p d =
      elim (Option-cases (get_existing item.dedupe_group_key s.existing_by_group)) [
        | inl k ↦
            ap (λ (x : ExportState). any (has_path p) x.disk) (export_item_creates s item c n k)
            ∙ create_item-has_path s item p (ground (arith, d, ap (λ o. is_none (seen_of t o)) k))
        | inr (e, k) ↦
            ap (λ (x : ExportState). any (has_path p) x.disk) (export_item_merges s item c n e k)
            ∙ any-has_path p _
            ∙ ap (λ (ps : List String). includes ps p)
                (after_merge-paths s e item (merge_into_existing_item t e.item item c n))
            ∙ sym (any-has_path p s.disk)
      ]
