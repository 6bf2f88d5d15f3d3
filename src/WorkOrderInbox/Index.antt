-- ===== src/WorkOrderInbox/Index.antt =====
-- The index of open items that `exportReviewWorkOrdersToInbox` of scripts/lib/work-order-inbox.mjs
-- keeps, against the files: both show the same file and the same known keys for every group.
use misa_cybernetic_evolutio.Prelude.{
  String, true, not, ◌&&◌, ◌≡◌, refl, ap, ◌∙◌, inl, inr, Option, none, some, List, [], ◌∷◌,
  if◌then◌else◌, eq_iff, arith, Bool-cases, any, All, All-append, or_else, and-true, is_none,
}
use misa_cybernetic_evolutio.WorkOrderInbox.Types.{Instant, Item, Entry, Texts}
use misa_cybernetic_evolutio.WorkOrderInbox.Keys.{group_key_for_existing_item}
use misa_cybernetic_evolutio.WorkOrderInbox.Aggregate.{ensure_aggregate}
use misa_cybernetic_evolutio.WorkOrderInbox.Export.{
  is_open, has_group, get_existing, keyed, index_entry, index_from, index_open_inbox_by_group,
}
use misa_cybernetic_evolutio.WorkOrderInbox.Known.{
  known_keys, known_keys_current, ensured_aggregate-keys, ensured_aggregate-group,
}
use misa_cybernetic_evolutio.WorkOrderInbox.Directory.{get_existing-append, open_entry, is_open_of}

module _ (t : Texts) where
  -- What is seen of an entry: its file and the keys that its item knows.
  abbrev pub seen_of : Option Entry → Option (String × List String)
  seen_of none = none
  seen_of (some e) = some (e.path, known_keys t e.item)

  abbrev pub keyed_entry : Option Entry → Option Entry
  keyed_entry none = none
  keyed_entry (some e) = some (record { path = e.path; item = keyed t e.item })

  abbrev pub indexed_entry : Instant → Option Entry → Option Entry
  indexed_entry c none = none
  indexed_entry c (some e) =
      some (record { path = e.path; item = ensure_aggregate t (keyed t e.item) c c })

  -- An item of the index is open and has the key of its group.
  abbrev pub IsSettled : Item → Type 0
  IsSettled item =
      (is_open item ≡ true) × (group_key_for_existing_item t item ≡ item.dedupe_group_key)

  abbrev pub AllSettled : List Entry → Type 0
  AllSettled = All (λ e. IsSettled e.item)

  pub group_key_keyed :
      (item : Item)
      → group_key_for_existing_item t (keyed t item) ≡ group_key_for_existing_item t item
  unfolding group_key_for_existing_item
  group_key_keyed item = ground arith

  pub group_key_ensure :
      (item : Item) (c n : Instant)
      → group_key_for_existing_item t (ensure_aggregate t item c n)
        ≡ group_key_for_existing_item t item
  unfolding group_key_for_existing_item
  group_key_ensure item c n = refl

  any-has_group :
      (g : String) (entries : List Entry)
      → any (has_group g) entries ≡ not (is_none (get_existing g entries))
  any-has_group g [] = refl
  any-has_group g (e ∷ entries) = ground (arith, any-has_group g entries)

  get_existing-index_entry :
      (g : String) (c : Instant) (e : Entry) (entries : List Entry)
      → get_existing g (index_entry t c e entries)
        ≡ or_else
            (get_existing g entries)
            (if is_open_of t g e.item then indexed_entry c (some e) else none)
  unfolding index_entry
  get_existing-index_entry g c e entries =
      let entry : Entry = record {
        path = e.path;
        item = ensure_aggregate t (keyed t e.item) c c;
      } in
      let group = group_key_for_existing_item t e.item in
      elim (Bool-cases (is_open e.item && not (any (has_group group) entries))) [
        | inl h ↦ rw h (get_existing-append g entries entry ∙ ground (arith, h))
        | inr h ↦ rw h (ground (arith, h, any-has_group group entries, eq_iff group g))
      ]

  get_existing-index_from :
      (g : String) (c : Instant) (disk entries : List Entry)
      → get_existing g (index_from t c disk entries)
        ≡ or_else (get_existing g entries) (indexed_entry c (open_entry t g disk))
  unfolding index_from
  get_existing-index_from g c [] entries = ground arith
  get_existing-index_from g c (e ∷ disk) entries =
      get_existing-index_from g c disk (index_entry t c e entries)
      ∙ ap (λ o. or_else o (indexed_entry c (open_entry t g disk)))
          (get_existing-index_entry g c e entries)
      ∙ ground arith

  index_entry-IsSettled :
      (c : Instant) (e : Entry) (entries : List Entry)
      → AllSettled entries
      → AllSettled (index_entry t c e entries)
  unfolding index_entry
  index_entry-IsSettled c e entries s =
      let entry : Entry = record {
        path = e.path;
        item = ensure_aggregate t (keyed t e.item) c c;
      } in
      let group = group_key_for_existing_item t e.item in
      elim (Bool-cases (is_open e.item && not (any (has_group group) entries))) [
        | inl h ↦ rw h (
            All-append (λ e. IsSettled e.item) entries (entry ∷ []) s
              (
                (
                  (and-true _ _ h).0,
                  group_key_ensure (keyed t e.item) c c ∙ group_key_keyed e.item,
                ),
                tt,
              ))
        | inr h ↦ rw h s
      ]

  pub index_from-IsSettled :
      (c : Instant) (disk entries : List Entry)
      → AllSettled entries
      → AllSettled (index_from t c disk entries)
  unfolding index_from
  index_from-IsSettled c [] entries s = s
  index_from-IsSettled c (e ∷ disk) entries s =
      index_from-IsSettled c disk (index_entry t c e entries) (index_entry-IsSettled c e entries s)

  known_keys-ensure :
      (item : Item) (c : Instant) → known_keys t (ensure_aggregate t item c c) ≡ known_keys t item
  known_keys-ensure item c =
      known_keys_current t _ _ refl (ensured_aggregate-group t item c c)
      ∙ ensured_aggregate-keys t item c c

  seen_of-indexed_entry :
      (c : Instant) (o : Option Entry) → seen_of (indexed_entry c o) ≡ seen_of (keyed_entry o)
  seen_of-indexed_entry c none = refl
  seen_of-indexed_entry c (some e) =
      ap (λ (ks : List String). some (e.path, ks)) (known_keys-ensure (keyed t e.item) c)

  -- A fresh index shows what the files do.
  pub index_shows :
      (g : String) (c : Instant) (disk : List Entry)
      → seen_of (get_existing g (index_open_inbox_by_group t disk c))
        ≡ seen_of (keyed_entry (open_entry t g disk))
  unfolding index_open_inbox_by_group
  index_shows g c disk =
      ap seen_of (get_existing-index_from g c disk [])
      ∙ seen_of-indexed_entry c (open_entry t g disk)
