-- ===== src/WorkOrderInbox/Views.antt =====
-- What the index and the files of scripts/lib/work-order-inbox.mjs show for a group, after each of
-- the changes that an export makes to them.
use misa_cybernetic_evolutio.Prelude.{
  String, true, ◌≡◌, refl, ap, ◌∙◌, inl, inr, Option, none, some, List, [], ◌∷◌, ◌++◌,
  if◌then◌else◌, str_eq, eq_iff, arith, Bool-cases, insert, subst,
}
use misa_cybernetic_evolutio.WorkOrderInbox.Types.{Item, Entry, Texts}
use misa_cybernetic_evolutio.WorkOrderInbox.Keys.{group_key_for_existing_item}
use misa_cybernetic_evolutio.WorkOrderInbox.Export.{
  ExportState, has_group, get_existing, replace_existing, write_file, before, keyed,
}
use misa_cybernetic_evolutio.WorkOrderInbox.Digest.{paths_of}
use misa_cybernetic_evolutio.WorkOrderInbox.Sets.{IsUnique}
use misa_cybernetic_evolutio.WorkOrderInbox.Known.{known_keys}
use misa_cybernetic_evolutio.WorkOrderInbox.Directory.{
  get_existing-replace_existing, get_existing-append, open_entry, is_open_of, open_entry-insert,
  open_entry-write_file,
}
use misa_cybernetic_evolutio.WorkOrderInbox.Index.{seen_of, keyed_entry, IsSettled, AllSettled}

module _ (t : Texts) where
  abbrev pub shown : String → ExportState → Option (String × List String)
  shown g s = seen_of t (get_existing g s.existing_by_group)

  abbrev pub shown_on_disk : String → List Entry → Option (String × List String)
  shown_on_disk g disk = seen_of t (keyed_entry t (open_entry t g disk))

  known_keys-keyed :
      (item : Item) → IsSettled t item → known_keys t (keyed t item) ≡ known_keys t item
  known_keys-keyed item s =
      ap (λ (k : String). known_keys t (record item { dedupe_group_key = k })) s.1

  is_open_of-settled :
      (g : String) (item : Item)
      → IsSettled t item
      → item.dedupe_group_key ≡ g
      → is_open_of t g item ≡ true
  is_open_of-settled g item s e =
      ground (arith, s.0, (eq_iff (group_key_for_existing_item t item) g).1 (s.1 ∙ e))

  pub get_existing-IsSettled :
      (g : String) (entries : List Entry) (e : Entry)
      → AllSettled t entries
      → get_existing g entries ≡ some e
      → IsSettled t e.item
  get_existing-IsSettled g [] e s h = ground (arith, h)
  get_existing-IsSettled g (x ∷ entries) e s h =
      ground (arith, h, s.0.0, s.0.1, get_existing-IsSettled g entries e s.1)

  pub replace_existing-IsSettled :
      (g : String) (item : Item) (entries : List Entry)
      → IsSettled t item
      → AllSettled t entries
      → AllSettled t (replace_existing g item entries)
  replace_existing-IsSettled g item [] i s = tt
  replace_existing-IsSettled g item (x ∷ entries) i s = elim (Bool-cases (has_group g x)) [
    | inl h ↦ rw h (i, s.1)
    | inr h ↦ rw h (s.0, replace_existing-IsSettled g item entries i s.1)
  ]

  pub replace-seen :
      (g h : String) (item : Item) (entries : List Entry) (e : Entry)
      → get_existing g entries ≡ some e
      → item.dedupe_group_key ≡ g
      → seen_of t (get_existing h (replace_existing g item entries)) ≡ (
          if str_eq g h
          then some (e.path, known_keys t item)
          else seen_of t (get_existing h entries))
  replace-seen g h item entries e k i =
      ap (seen_of t) (get_existing-replace_existing g h item entries e k i) ∙ ground arith

  pub write-seen :
      (g h p : String) (item : Item) (disk : List Entry) (d : Entry)
      → IsUnique (paths_of disk)
      → open_entry t g disk ≡ some d
      → d.path ≡ p
      → IsSettled t item
      → item.dedupe_group_key ≡ g
      → shown_on_disk h (write_file p item disk)
        ≡ (if str_eq g h then some (p, known_keys t item) else shown_on_disk h disk)
  write-seen g h p item disk d u k path s e =
      subst
        (λ (q : String).
          shown_on_disk h (write_file q item disk)
          ≡ (if str_eq g h then some (q, known_keys t item) else shown_on_disk h disk))
        path
        (ap (λ o. seen_of t (keyed_entry t o))
            (open_entry-write_file t g h item disk d u k (is_open_of-settled g item s e))
          ∙ elim (Bool-cases (str_eq g h)) [
            | inl i ↦ rw i (ap (λ (ks : List String). some (d.path, ks)) (known_keys-keyed item s))
            | inr i ↦ rw i refl
          ])

  pub insert-seen :
      (g h : String) (e : Entry) (disk : List Entry)
      → open_entry t g disk ≡ none
      → IsSettled t e.item
      → e.item.dedupe_group_key ≡ g
      → shown_on_disk h (insert (before t) e disk)
        ≡ (if str_eq g h then some (e.path, known_keys t e.item) else shown_on_disk h disk)
  insert-seen g h e disk k s i =
      ap (λ o. seen_of t (keyed_entry t o))
        (open_entry-insert t g h e disk k (is_open_of-settled g e.item s i))
      ∙ elim (Bool-cases (str_eq g h)) [
        | inl m ↦ rw m (ap (λ (ks : List String). some (e.path, ks)) (known_keys-keyed e.item s))
        | inr m ↦ rw m refl
      ]

  pub append-seen :
      (g h : String) (e : Entry) (entries : List Entry)
      → get_existing g entries ≡ none
      → e.item.dedupe_group_key ≡ g
      → seen_of t (get_existing h (entries ++ e ∷ [])) ≡ (
          if str_eq g h
          then some (e.path, known_keys t e.item)
          else seen_of t (get_existing h entries))
  append-seen g h e entries k i =
      ap (seen_of t) (get_existing-append h entries e)
      ∙ ground (arith, k, i, eq_iff g h, ap (λ (x : String). str_eq x h) i)
