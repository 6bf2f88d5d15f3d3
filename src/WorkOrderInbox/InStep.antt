-- ===== src/WorkOrderInbox/InStep.antt =====
-- The step of `exportReviewWorkOrdersToInbox` of scripts/lib/work-order-inbox.mjs for one order
-- keeps the index in step with the files.
use misa_cybernetic_evolutio.Prelude.{
  String, false, ◌≡◌, refl, ap, sym, ◌∙◌, inl, inr, Option, none, some, List, [], ◌∷◌,
  if◌then◌else◌, str_eq, eq_iff, arith, Bool-cases, Option-cases, any, All-append, subst,
}
use misa_cybernetic_evolutio.WorkOrderInbox.Types.{
  Instant, Item, Entry, Occurrence, AggregateState, Texts,
}
use misa_cybernetic_evolutio.WorkOrderInbox.Keys.{group_key_for_existing_item}
use misa_cybernetic_evolutio.WorkOrderInbox.Merge.{Merged, merge_fresh, merge_into_existing_item}
use misa_cybernetic_evolutio.WorkOrderInbox.Export.{
  ExportState, has_path, get_existing, target_of, after_merge, create_item, export_item,
  index_open_inbox_by_group, start_of,
}
use misa_cybernetic_evolutio.WorkOrderInbox.Digest.{paths_of}
use misa_cybernetic_evolutio.WorkOrderInbox.Sets.{IsUnique}
use misa_cybernetic_evolutio.WorkOrderInbox.Known.{known_keys}
use misa_cybernetic_evolutio.WorkOrderInbox.Merging.{merge_unchanged-keys}
use misa_cybernetic_evolutio.WorkOrderInbox.Directory.{
  get_existing-has_group, any-has_path, paths_of-write_file, insert-IsUnique, open_entry,
}
use misa_cybernetic_evolutio.WorkOrderInbox.Index.{
  seen_of, keyed_entry, IsSettled, AllSettled, index_from-IsSettled, index_shows,
}
use misa_cybernetic_evolutio.WorkOrderInbox.Views.{
  shown, shown_on_disk, get_existing-IsSettled, replace_existing-IsSettled, replace-seen,
  write-seen, insert-seen, append-seen,
}

module _ (t : Texts) where
  -- The items of the index are settled, no two files have one path, and the index shows for every
  -- group what the files do.
  abbrev pub IsInStep : ExportState → Type 0
  IsInStep s =
      AllSettled t s.existing_by_group
      × IsUnique (paths_of s.disk)
      × ((g : String) → shown t g s ≡ shown_on_disk t g s.disk)

  pub start_of-IsInStep :
      (disk : List Entry) (c : Instant) → IsUnique (paths_of disk) → IsInStep (start_of t disk c)
  unfolding start_of index_open_inbox_by_group
  start_of-IsInStep disk c u = (index_from-IsSettled t c disk [] tt, u, λ g. index_shows t g c disk)

  merge_fresh-keeps :
      (existing : Item) (a : AggregateState) (incoming : Item) (n : Instant)
      (fresh : List Occurrence)
      → IsSettled t existing
      → let m = merge_fresh t existing a incoming n fresh in
        IsSettled t m.item × (m.item.dedupe_group_key ≡ existing.dedupe_group_key)
  unfolding merge_fresh group_key_for_existing_item
  merge_fresh-keeps existing a incoming n [] s = (s, refl)
  merge_fresh-keeps existing a incoming n (o ∷ fresh) s = (s, refl)

  pub merge-keeps :
      (existing incoming : Item) (c n : Instant)
      → IsSettled t existing
      → let m = merge_into_existing_item t existing incoming c n in
        IsSettled t m.item × (m.item.dedupe_group_key ≡ existing.dedupe_group_key)
  unfolding merge_into_existing_item
  merge-keeps existing incoming c n s = merge_fresh-keeps existing _ incoming n _ s

  abbrev path_seen : Option (String × List String) → String
  path_seen none = ""
  path_seen (some p) = p.0

  -- The file of an item of the index is on the disk.
  open_entry-of :
      (g : String) (s : ExportState) (e : Entry)
      → shown t g s ≡ shown_on_disk t g s.disk
      → get_existing g s.existing_by_group ≡ some e
      → (d : Entry) × (open_entry t g s.disk ≡ some d)
        × (d.path ≡ e.path)
        × (shown_on_disk t g s.disk ≡ some (e.path, known_keys t e.item))
  open_entry-of g s e a k =
      let shows : shown_on_disk t g s.disk ≡ some (e.path, known_keys t e.item) =
        sym a ∙ ap (seen_of t) k in
      elim (Option-cases (open_entry t g s.disk)) [
        | inl o ↦ ground (arith, shows, ap (λ x. seen_of t (keyed_entry t x)) o)
        | inr (d, o) ↦
            (d, o, ap path_seen (sym (ap (λ x. seen_of t (keyed_entry t x)) o) ∙ shows), shows)
      ]

  after_merge-IsInStep :
      (s : ExportState) (e : Entry) (item : Item) (m : Merged)
      → IsInStep s
      → get_existing item.dedupe_group_key s.existing_by_group ≡ some e
      → IsSettled t m.item
      → m.item.dedupe_group_key ≡ item.dedupe_group_key
      → (m.changed ≡ false → known_keys t m.item ≡ known_keys t e.item)
      → IsInStep (after_merge t s e item m)
  unfolding after_merge
  after_merge-IsInStep s e item m i k settled g same =
      let key = item.dedupe_group_key in
      let all_settled = replace_existing-IsSettled t key m.item s.existing_by_group settled i.0 in
      let on_disk = open_entry-of key s e (i.2 key) k in
      elim (Bool-cases m.changed) [
        | inl h ↦ rw h (
          all_settled,
          subst (λ (ps : List String). IsUnique ps) (sym (paths_of-write_file e.path m.item s.disk))
              i.1,
          λ x.
              replace-seen t key x m.item s.existing_by_group e k g
              ∙ ap (λ v. if str_eq key x then some (e.path, known_keys t m.item) else v) (i.2 x)
              ∙ sym (
                  write-seen t key x e.path m.item s.disk on_disk.0 i.1 on_disk.1 on_disk.2 settled
                    g),
        )
        | inr h ↦ rw h (
          all_settled,
          i.1,
          λ x.
              replace-seen t key x m.item s.existing_by_group e k g
              ∙ elim (Bool-cases (str_eq key x)) [
                | inl y ↦ rw y (
                    ap (λ (ks : List String). some (e.path, ks)) (same h)
                    ∙ sym on_disk.3
                    ∙ ap (λ (z : String). shown_on_disk t z s.disk) ((eq_iff key x).0 y))
                | inr y ↦ rw y (i.2 x)
              ],
        )
      ]

  no_open_entry :
      (g : String) (s : ExportState)
      → shown t g s ≡ shown_on_disk t g s.disk
      → get_existing g s.existing_by_group ≡ none
      → open_entry t g s.disk ≡ none
  no_open_entry g s a k = elim (Option-cases (open_entry t g s.disk)) [
    | inl o ↦ o
    | inr (d, o) ↦ ground (arith, a, ap (seen_of t) k, ap (λ x. seen_of t (keyed_entry t x)) o)
  ]

  create_item-IsInStep :
      (s : ExportState) (item : Item)
      → IsInStep s
      → get_existing item.dedupe_group_key s.existing_by_group ≡ none
      → IsSettled t item
      → IsInStep (create_item t s item)
  unfolding create_item
  create_item-IsInStep s item i k settled =
      let entry : Entry = record { path = target_of t item; item = item } in
      let key = item.dedupe_group_key in
      elim (Bool-cases (any (has_path (target_of t item)) s.disk)) [
        | inl h ↦ rw h i
        | inr h ↦ rw h (
          All-append (λ e. IsSettled t e.item) s.existing_by_group (entry ∷ []) i.0 (settled, tt),
          insert-IsUnique t entry s.disk (sym (any-has_path entry.path s.disk) ∙ h) i.1,
          λ x.
              append-seen t key x entry s.existing_by_group k refl
              ∙ ap (λ v. if str_eq key x then some (entry.path, known_keys t item) else v) (i.2 x)
              ∙ sym
                  (insert-seen t key x entry s.disk (no_open_entry key s (i.2 key) k) settled refl),
        )
      ]

  pub export_item-IsInStep :
      (s : ExportState) (item : Item) (c n : Instant)
      → IsInStep s
      → IsSettled t item
      → IsInStep (export_item t s item c n)
  unfolding export_item
  export_item-IsInStep s item c n i settled =
      elim (Option-cases (get_existing item.dedupe_group_key s.existing_by_group)) [
        | inl k ↦ rw (k, export_item) (create_item-IsInStep s item i k settled)
        | inr (e, k) ↦
            let was = get_existing-IsSettled t item.dedupe_group_key s.existing_by_group e i.0 k in
            let keeps = merge-keeps e.item item c n was in
            rw (k, export_item)
              (after_merge-IsInStep s e item (merge_into_existing_item t e.item item c n) i k
                keeps.0
                (keeps.1 ∙ get_existing-has_group item.dedupe_group_key s.existing_by_group e k)
                (merge_unchanged-keys t e.item item c n))
      ]
