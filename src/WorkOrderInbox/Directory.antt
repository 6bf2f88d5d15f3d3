-- ===== src/WorkOrderInbox/Directory.antt =====
-- Looking things up among the files of the inbox and in the index of
-- scripts/lib/work-order-inbox.mjs, after each of the changes that an export makes.
use misa_cybernetic_evolutio.Prelude.{
  String, Bool, true, false, ◌&&◌, ◌||◌, ◌≡◌, refl, ap, inl, inr, Option, none, some, List, [], ◌∷◌,
  ◌++◌, if◌then◌else◌, str_eq, eq_iff, arith, Bool-cases, any, includes, insert, or_else,
}
use misa_cybernetic_evolutio.WorkOrderInbox.Types.{Item, Entry, Texts}
use misa_cybernetic_evolutio.WorkOrderInbox.Keys.{group_key_for_existing_item}
use misa_cybernetic_evolutio.WorkOrderInbox.Export.{
  is_open, has_path, has_group, get_existing, replace_existing, write_file, before,
}
use misa_cybernetic_evolutio.WorkOrderInbox.Digest.{paths_of}
use misa_cybernetic_evolutio.WorkOrderInbox.Sets.{IsUnique}

-- The index.

pub get_existing-has_group :
    (g : String) (entries : List Entry) (e : Entry)
    → get_existing g entries ≡ some e
    → e.item.dedupe_group_key ≡ g
get_existing-has_group g [] e h = ground (arith, h)
get_existing-has_group g (x ∷ entries) e h =
    ground (arith, h, get_existing-has_group g entries e, eq_iff x.item.dedupe_group_key g)

pub get_existing-replace_existing :
    (g h : String) (item : Item) (entries : List Entry) (e : Entry)
    → get_existing g entries ≡ some e
    → item.dedupe_group_key ≡ g
    → get_existing h (replace_existing g item entries)
      ≡ (if str_eq g h then some (record e { item = item }) else get_existing h entries)
get_existing-replace_existing g h item [] e k i = ground (arith, k)
get_existing-replace_existing g h item (x ∷ entries) e k i = ground (
  arith,
  k,
  i,
  get_existing-replace_existing g h item entries e,
  eq_iff x.item.dedupe_group_key g,
  eq_iff x.item.dedupe_group_key h,
  eq_iff item.dedupe_group_key h,
  eq_iff g h,
)

pub get_existing-append :
    (h : String) (entries : List Entry) (e : Entry)
    → get_existing h (entries ++ e ∷ [])
      ≡ or_else (get_existing h entries) (if has_group h e then some e else none)
get_existing-append h [] e = ground arith
get_existing-append h (x ∷ entries) e = ground (arith, get_existing-append h entries e)

-- The paths.

pub any-has_path :
    (p : String) (disk : List Entry) → any (has_path p) disk ≡ includes (paths_of disk) p
any-has_path p [] = refl
any-has_path p (e ∷ disk) = ap (λ (b : Bool). str_eq e.path p || b) (any-has_path p disk)

pub paths_of-write_file :
    (p : String) (item : Item) (disk : List Entry)
    → paths_of (write_file p item disk) ≡ paths_of disk
paths_of-write_file p item [] = refl
paths_of-write_file p item (e ∷ disk) = elim (Bool-cases (has_path p e)) [
  | inl h ↦ rw h refl
  | inr h ↦ rw h (ap (λ (ps : List String). e.path ∷ ps) (paths_of-write_file p item disk))
]

module _ (t : Texts) where
  pub includes-insert :
      (e : Entry) (disk : List Entry) (k : String)
      → includes (paths_of (insert (before t) e disk)) k
        ≡ (str_eq e.path k || includes (paths_of disk) k)
  unfolding insert
  includes-insert e [] k = refl
  includes-insert e (x ∷ disk) k = ground (arith, includes-insert e disk k)

  pub insert-IsUnique :
      (e : Entry) (disk : List Entry)
      → includes (paths_of disk) e.path ≡ false
      → IsUnique (paths_of disk)
      → IsUnique (paths_of (insert (before t) e disk))
  unfolding insert
  insert-IsUnique e [] h u = (refl, tt)
  insert-IsUnique e (x ∷ disk) h u = ground (
    arith,
    h,
    includes-insert e disk x.path,
    insert-IsUnique e disk,
    eq_iff x.path e.path,
    eq_iff e.path x.path,
  )

  -- The files: the first open one of a group.
  abbrev pub is_open_of : String → Item → Bool
  is_open_of g item = is_open item && str_eq (group_key_for_existing_item t item) g

  abbrev pub open_entry : String → List Entry → Option Entry
  open_entry g [] = none
  open_entry g (e ∷ disk) = if is_open_of g e.item then some e else open_entry g disk

  -- An open item has one group.
  is_open_of-eq :
      (g h : String) (item : Item) → is_open_of g item ≡ true → is_open_of h item ≡ str_eq g h
  is_open_of-eq g h item m = ground (
    arith,
    m,
    eq_iff (group_key_for_existing_item t item) g,
    eq_iff (group_key_for_existing_item t item) h,
    eq_iff g h,
  )

  open_entry-path :
      (g : String) (disk : List Entry) (d : Entry)
      → open_entry g disk ≡ some d
      → includes (paths_of disk) d.path ≡ true
  open_entry-path g [] d h = ground (arith, h)
  open_entry-path g (e ∷ disk) d h =
      ground (arith, h, open_entry-path g disk d, eq_iff e.path d.path)

  pub open_entry-insert :
      (g h : String) (e : Entry) (disk : List Entry)
      → open_entry g disk ≡ none
      → is_open_of g e.item ≡ true
      → open_entry h (insert (before t) e disk) ≡ (if str_eq g h then some e else open_entry h disk)
  unfolding insert
  open_entry-insert g h e [] k m = ground (arith, is_open_of-eq g h e.item m)
  open_entry-insert g h e (x ∷ disk) k m = ground (
    arith,
    k,
    is_open_of-eq g h e.item m,
    is_open_of-eq g h x.item,
    open_entry-insert g h e disk,
    eq_iff g h,
  )

  pub open_entry-write_file :
      (g h : String) (item : Item) (disk : List Entry) (d : Entry)
      → IsUnique (paths_of disk)
      → open_entry g disk ≡ some d
      → is_open_of g item ≡ true
      → open_entry h (write_file d.path item disk)
        ≡ (if str_eq g h then some (record d { item = item }) else open_entry h disk)
  open_entry-write_file g h item [] d u k m = ground (arith, k)
  open_entry-write_file g h item (x ∷ disk) d u k m = ground (
    arith,
    k,
    u.0,
    is_open_of-eq g h item m,
    is_open_of-eq g h x.item,
    open_entry-path g disk d,
    open_entry-write_file g h item disk d u.1,
    eq_iff g h,
    eq_iff x.path d.path,
  )
