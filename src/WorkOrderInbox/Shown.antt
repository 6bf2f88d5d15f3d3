-- ===== src/WorkOrderInbox/Shown.antt =====
-- `exportInboxOwnerDigest` of scripts/lib/work-order-inbox.mjs: what a digest shows, a later one does
-- not show again.
use misa_cybernetic_evolutio.Prelude.{
  ℕ, zero, suc, String, Bool, true, false, not, ◌&&◌, ◌≡◌, refl, ap, sym, ◌∙◌, inl, inr, List, [],
  ◌∷◌, str_eq, eq_iff, arith, Bool-cases, any, includes, any-sort, sort, subst, and-true,
}
use misa_cybernetic_evolutio.WorkOrderInbox.Types.{Instant, Item, Entry, Texts}
use misa_cybernetic_evolutio.WorkOrderInbox.Keys.{group_key_for_existing_item}
use misa_cybernetic_evolutio.WorkOrderInbox.Aggregate.{take, ensure_aggregate}
use misa_cybernetic_evolutio.WorkOrderInbox.Export.{
  is_open, has_path, needs_report, keyed, write_file,
}
use misa_cybernetic_evolutio.WorkOrderInbox.Digest.{
  paths_of, max_owner_digest_items, reported_inbox_entries, mark_item_reported, mark_entries,
  owner_digest, export_owner_digest, sort_owner_digest_items, comes_first,
}
use misa_cybernetic_evolutio.WorkOrderInbox.Sets.{IsUnique}
use misa_cybernetic_evolutio.WorkOrderInbox.Directory.{any-has_path, paths_of-write_file}
use misa_cybernetic_evolutio.WorkOrderInbox.Index.{
  IsSettled, AllSettled, group_key_ensure, group_key_keyed,
}
use misa_cybernetic_evolutio.WorkOrderInbox.Reported.{mark_item_reported-needs_report}

any-take {ℓ} :
    {A : Type ℓ} (p : A → Bool) (n : ℕ) (xs : List A) → any p (take n xs) ≡ true → any p xs ≡ true
unfolding take
any-take p n [] h = h
any-take p zero (x ∷ xs) h = ground (arith, h)
any-take p (suc n) (x ∷ xs) h = ground (arith, h, any-take p n xs)

and_false : (b : Bool) → not (b && false) ≡ true
and_false b = ground arith

module _ (t : Texts) where
  module _ (d m : Instant) where
    -- An item that does not call for a report.
    abbrev is_quiet : Item → Bool
    is_quiet item = not (is_open item && needs_report (ensure_aggregate t (keyed t item) d m))

    unfoldable reports : String → List Entry → Bool
    reports p disk = any (has_path p) (reported_inbox_entries t disk d m)

    reports-paths_of :
        (p : String) (disk : List Entry)
        → includes (paths_of disk) p ≡ false
        → reports p disk ≡ false
    unfolding reports reported_inbox_entries
    reports-paths_of p [] h = refl
    reports-paths_of p (e ∷ disk) h = ground (arith, h, reports-paths_of p disk)

    -- Writing a quiet item takes its file out of the report, and no other.
    reports-write_file :
        (p q : String) (item : Item) (disk : List Entry)
        → IsUnique (paths_of disk)
        → is_quiet item ≡ true
        → reports p (write_file q item disk) ≡ (not (str_eq q p) && reports p disk)
    unfolding reports reported_inbox_entries
    reports-write_file p q item [] u h = ground arith
    reports-write_file p q item (e ∷ disk) u h = ground (
      arith,
      h,
      u.0,
      reports-write_file p q item disk u.1,
      reports-paths_of p disk,
      eq_iff e.path q,
      eq_iff e.path p,
      eq_iff q p,
    )

    marked-IsSettled :
        (item : Item) (id : String) (c n : Instant)
        → IsSettled t item
        → let marked = mark_item_reported t item id c n in
          group_key_for_existing_item t marked ≡ marked.dedupe_group_key
    unfolding mark_item_reported group_key_for_existing_item
    marked-IsSettled item id c n s = s.1

    marked-is_quiet :
        (item : Item) (id : String) (c n : Instant)
        → IsSettled t item
        → is_quiet (mark_item_reported t item id c n) ≡ true
    marked-is_quiet item id c n s =
        let marked = mark_item_reported t item id c n in
        let quiet : needs_report (ensure_aggregate t (keyed t marked) d m) ≡ false =
          ap
            (λ (k : String).
              needs_report (ensure_aggregate t (record marked { dedupe_group_key = k }) d m))
            (marked-IsSettled item id c n s)
          ∙ (mark_item_reported-needs_report t item id c n d m).1 in
        ap (λ (b : Bool). not (is_open marked && b)) quiet ∙ and_false (is_open marked)

    -- After the marking, the files that were visible are out of the report.
    mark_entries-reports :
        (p id : String) (visible : List String) (c n : Instant) (entries disk : List Entry)
        → includes visible p ≡ true
        → IsUnique (paths_of disk)
        → AllSettled t entries
        → reports p (mark_entries t visible id c n entries disk)
          ≡ (not (includes (paths_of entries) p) && reports p disk)
    unfolding mark_entries
    mark_entries-reports p id visible c n [] disk v u s = refl
    mark_entries-reports p id visible c n (e ∷ entries) disk v u s =
        let item = mark_item_reported t e.item id c n in
        let out = not (includes (paths_of entries) p) in
        elim (Bool-cases (includes visible e.path)) [
          | inl h ↦ rw h (
              mark_entries-reports p id visible c n entries (write_file e.path item disk) v
                (subst (λ (ps : List String). IsUnique ps)
                  (sym (paths_of-write_file e.path item disk)) u)
                s.1
              ∙ ap (λ (b : Bool). out && b)
                  (reports-write_file p e.path item disk u (marked-is_quiet e.item id c n s.0))
              ∙ ground arith)
          | inr h ↦ rw h (
              mark_entries-reports p id visible c n entries disk v u s.1
              ∙ ground (
                arith,
                h,
                v,
                eq_iff e.path p,
                λ (q : e.path ≡ p). ap (λ (x : String). includes visible x) q,
              ))
        ]

  reported-AllSettled :
      (disk : List Entry) (c n : Instant) → AllSettled t (reported_inbox_entries t disk c n)
  unfolding reported_inbox_entries
  reported-AllSettled [] c n = tt
  reported-AllSettled (e ∷ disk) c n =
      let item = ensure_aggregate t (keyed t e.item) c n in
      elim (Bool-cases (is_open e.item && needs_report item)) [
        | inl h ↦ rw h (
          ((and-true _ _ h).0, group_key_ensure t (keyed t e.item) c n ∙ group_key_keyed t e.item),
          reported-AllSettled disk c n,
        )
        | inr h ↦ rw h (reported-AllSettled disk c n)
      ]

  -- What a digest shows is among what is reported.
  items-reported :
      (xs : List Entry) (k : ℕ) (p : String)
      → includes (paths_of (take k (sort_owner_digest_items t xs))) p ≡ true
      → any (has_path p) xs ≡ true
  unfolding sort_owner_digest_items
  items-reported xs k p h =
      sym (any-sort (comes_first t) (has_path p) xs)
      ∙ any-take (has_path p) k (sort (comes_first t) xs) (any-has_path p _ ∙ h)

  -- Where no two files have one path: after a digest that marks what it shows, no file that it showed
  -- is shown by a later digest, at whatever time, as long as nothing is merged in between.
  pub export_owner_digest-owner_digest :
      (disk : List Entry) (c n d m : Instant) (p : String)
      → IsUnique (paths_of disk)
      → includes (paths_of (export_owner_digest t disk true c n).1.items) p ≡ true
      → includes (paths_of (owner_digest t (export_owner_digest t disk true c n).0 d m).items) p
        ≡ false
  unfolding reports export_owner_digest owner_digest sort_owner_digest_items
  export_owner_digest-owner_digest disk c n d m p u v =
      let entries = reported_inbox_entries t disk c n in
      let shown = paths_of (take max_owner_digest_items (sort_owner_digest_items t entries)) in
      let after = mark_entries t shown (t.digest_id n.iso) c n entries disk in
      let gone =
        mark_entries-reports d m p (t.digest_id n.iso) shown c n entries disk v u
          (reported-AllSettled disk c n) in
      ground (
        arith,
        gone,
        items-reported entries max_owner_digest_items p v,
        any-has_path p entries,
        items-reported (reported_inbox_entries t after d m) max_owner_digest_items p,
      )
