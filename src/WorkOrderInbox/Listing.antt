-- ===== src/WorkOrderInbox/Listing.antt =====
-- Which orders and which files `exportReviewWorkOrdersToInbox` of scripts/lib/work-order-inbox.mjs
-- lists: the group keys of its three lists, and the paths of its list `written`.
use mathlib.Core.List.{Perm}
use mathlib.Core.List.Perm
use misa_cybernetic_evolutio.Prelude.{
  String, sym, subst, inl, inr, Option, none, some, List, [], ◌∷◌, ◌++◌, map, Bool-cases,
  Option-cases, any, insert,
}
use misa_cybernetic_evolutio.WorkOrderInbox.Types.{Instant, Order, Review, Item, Entry, Texts}
use misa_cybernetic_evolutio.WorkOrderInbox.Merge.{Merged, merge_into_existing_item}
use misa_cybernetic_evolutio.WorkOrderInbox.Export.{
  Listed, ExportState, has_path, get_existing, before, target_of, normalize_inbox_item, after_merge,
  create_item, export_item, export_orders, listed, occurrence_count_of,
}
use misa_cybernetic_evolutio.WorkOrderInbox.Digest.{paths_of}
use misa_cybernetic_evolutio.WorkOrderInbox.Directory.{paths_of-write_file}
use misa_cybernetic_evolutio.WorkOrderInbox.Cover.{group_of}

abbrev pub keys_listed : List Listed → List String
keys_listed ls = map (λ (l : Listed). l.dedupe_group_key) ls

abbrev pub paths_listed : List Listed → List String
paths_listed ls = map (λ (l : Listed). l.path) ls

-- The group keys of all that an export lists.
abbrev pub reported_keys : ExportState → List String
reported_keys s =
    keys_listed s.written ++ (keys_listed s.merged_existing ++ keys_listed s.skipped_existing)

perm_middle : {k : String} (xs ys : List String) → Perm (xs ++ (k ∷ ys)) (k ∷ (xs ++ ys))
perm_middle {k} [] ys = Perm.refl (k ∷ ys)
perm_middle {k} (x ∷ xs) ys =
    Perm.trans (Perm.cons x (perm_middle xs ys)) (Perm.swap k x (xs ++ ys))

-- A line at the end of a list, brought to its front.
map_last :
    (f : Listed → String) (ls : List Listed) (l : Listed)
    → Perm (map f (ls ++ l ∷ [])) (f l ∷ map f ls)
map_last f [] l = Perm.refl (f l ∷ [])
map_last f (x ∷ ls) l =
    Perm.trans (Perm.cons (f x) (map_last f ls l)) (Perm.swap (f l) (f x) (map f ls))

keys_last :
    (ls : List Listed) (l : Listed)
    → Perm (keys_listed (ls ++ l ∷ [])) (l.dedupe_group_key ∷ keys_listed ls)
keys_last ls l = map_last (λ (k : Listed). k.dedupe_group_key) ls l

one_merged :
    (w m s : List Listed) (l : Listed)
    → Perm
        (keys_listed w ++ (keys_listed (m ++ l ∷ []) ++ keys_listed s))
        (l.dedupe_group_key ∷ (keys_listed w ++ (keys_listed m ++ keys_listed s)))
one_merged w m s l =
    Perm.trans
      (Perm.append_left (keys_listed w) (Perm.append_right (keys_listed s) (keys_last m l)))
      (perm_middle (keys_listed w) (keys_listed m ++ keys_listed s))

one_skipped :
    (w m s : List Listed) (l : Listed)
    → Perm
        (keys_listed w ++ (keys_listed m ++ keys_listed (s ++ l ∷ [])))
        (l.dedupe_group_key ∷ (keys_listed w ++ (keys_listed m ++ keys_listed s)))
one_skipped w m s l =
    Perm.trans
      (Perm.append_left (keys_listed w) (
        Perm.trans (Perm.append_left (keys_listed m) (keys_last s l))
          (perm_middle (keys_listed m) (keys_listed s))))
      (perm_middle (keys_listed w) (keys_listed m ++ keys_listed s))

module _ (t : Texts) where
  paths_of-insert :
      (e : Entry) (disk : List Entry)
      → Perm (paths_of (insert (before t) e disk)) (e.path ∷ paths_of disk)
  unfolding insert
  paths_of-insert e [] = Perm.refl (e.path ∷ [])
  paths_of-insert e (x ∷ disk) = elim (Bool-cases (before t e x)) [
    | inl h ↦ rw h (Perm.refl (e.path ∷ x.path ∷ paths_of disk))
    | inr h ↦ rw h (
        Perm.trans (Perm.cons x.path (paths_of-insert e disk))
          (Perm.swap e.path x.path (paths_of disk)))
  ]

  -- The files are those that were there and those that are listed as written.
  abbrev pub IsFiled : List String → ExportState → Type 0
  IsFiled paths s = Perm (paths_of s.disk) (paths_listed s.written ++ paths)

  -- One line more, with the given key, and still all files are listed.
  abbrev ListsOne : List String → String → ExportState → ExportState → Type 0
  ListsOne paths key s after =
      Perm (reported_keys after) (key ∷ reported_keys s) × IsFiled paths after

  after_merge-lists :
      (paths : List String) (s : ExportState) (e : Entry) (item : Item) (m : Merged)
      → IsFiled paths s
      → ListsOne paths item.dedupe_group_key s (after_merge t s e item m)
  unfolding after_merge
  after_merge-lists paths s e item m filed =
      let key = item.dedupe_group_key in
      let count = some (occurrence_count_of m.item) in
      elim (Bool-cases m.changed) [
        | inl h ↦ rw h (
          one_merged s.written s.merged_existing s.skipped_existing
              (listed m.item e.path key (some m.added_occurrence_count) count),
          subst (λ (ps : List String). Perm ps (paths_listed s.written ++ paths))
              (sym (paths_of-write_file e.path m.item s.disk)) filed,
        )
        | inr h ↦ rw h (
          one_skipped s.written s.merged_existing s.skipped_existing
              (listed m.item e.path key none none),
          filed,
        )
      ]

  create_item-lists :
      (paths : List String) (s : ExportState) (item : Item)
      → IsFiled paths s
      → ListsOne paths item.dedupe_group_key s (create_item t s item)
  unfolding create_item
  create_item-lists paths s item filed =
      let file = target_of t item in
      let line = listed item file item.dedupe_group_key none (some (occurrence_count_of item)) in
      elim (Bool-cases (any (has_path file) s.disk)) [
        | inl h ↦ rw h (
          one_skipped s.written s.merged_existing s.skipped_existing
              (listed item file item.dedupe_group_key none none),
          filed,
        )
        | inr h ↦ rw h (
          Perm.append_right (keys_listed s.merged_existing ++ keys_listed s.skipped_existing)
              (keys_last s.written line),
          Perm.trans (paths_of-insert (record { path = file; item = item }) s.disk) (
              Perm.trans (Perm.cons file filed) (
                Perm.symm
                  (Perm.append_right paths (map_last (λ (l : Listed). l.path) s.written line)))),
        )
      ]

  export_item-lists :
      (paths : List String) (s : ExportState) (item : Item) (c n : Instant)
      → IsFiled paths s
      → ListsOne paths item.dedupe_group_key s (export_item t s item c n)
  unfolding export_item
  export_item-lists paths s item c n filed =
      elim (Option-cases (get_existing item.dedupe_group_key s.existing_by_group)) [
        | inl k ↦ rw (k, export_item) (create_item-lists paths s item filed)
        | inr (e, k) ↦
            rw (k, export_item)
              (after_merge-lists paths s e item (merge_into_existing_item t e.item item c n) filed)
      ]

  pub export_orders-lists :
      (r : Review) (f : Option String) (c n : Instant) (paths : List String) (orders : List Order)
      (s : ExportState)
      → IsFiled paths s
      → let after = export_orders t r f c n orders s in
        Perm (reported_keys after) (map (group_of t) orders ++ reported_keys s)
        × IsFiled paths after
  unfolding export_orders normalize_inbox_item
  export_orders-lists r f c n paths [] s filed = (Perm.refl (reported_keys s), filed)
  export_orders-lists r f c n paths (o ∷ orders) s filed =
      let item = normalize_inbox_item t o r f c n in
      let (key, one) = export_item-lists paths s item c n filed in
      let (keys, rest) = export_orders-lists r f c n paths orders (export_item t s item c n) one in
      (
        Perm.trans keys (
            Perm.trans (Perm.append_left (map (group_of t) orders) key)
              (perm_middle (map (group_of t) orders) (reported_keys s))),
        rest,
      )
