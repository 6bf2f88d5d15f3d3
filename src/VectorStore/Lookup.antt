-- ===== src/VectorStore/Lookup.antt =====
-- What the store finds under an id after an upsert: `mergeRecords` and
-- `upsertDistillationToLocalVectorStore` of scripts/lib/local-vector-store.mjs.
use misa_cybernetic_evolutio.Prelude.{
  ◌+◌, String, Bool, false, ◌≡◌, refl, ap, ◌∙◌, List, [], ◌∷◌, find_last?, length, arith, eq_iff,
  or_else, insert, sort, any-sort, any-insert, length-sort,
}
use misa_cybernetic_evolutio.VectorStore.Records.{
  VectorRecord, has_key, has, get, set_all, IsUnique, get-set_all, set_all-IsUnique,
}
use misa_cybernetic_evolutio.VectorStore.Store.{merge_loop, before, merge_records}
use misa_cybernetic_evolutio.VectorStore.Merging.{
  merge_loop-merged, merge_loop-counts, merge_loop-length, set_all_new,
}

module _ (locale_le : String → String → Bool) where
  get-insert :
      (id : String) (r : VectorRecord) (xs : List VectorRecord)
      → has r.record_id xs ≡ false
      → get id (insert (before locale_le) r xs) ≡ get id (r ∷ xs)
  unfolding insert
  get-insert id r [] h = refl
  get-insert id r (x ∷ xs) h = ground (
    arith,
    h,
    get-insert id r xs,
    eq_iff x.record_id r.record_id,
    eq_iff r.record_id id,
    eq_iff x.record_id id,
  )

  insert-IsUnique :
      (r : VectorRecord) (xs : List VectorRecord)
      → has r.record_id xs ≡ false
      → IsUnique xs
      → IsUnique (insert (before locale_le) r xs)
  unfolding insert
  insert-IsUnique r [] h u = (refl, tt)
  insert-IsUnique r (x ∷ xs) h u = ground (
    arith,
    h,
    any-insert (before locale_le) (has_key x.record_id) r xs,
    insert-IsUnique r xs,
    eq_iff x.record_id r.record_id,
    eq_iff r.record_id x.record_id,
  )

  sort-IsUnique : (xs : List VectorRecord) → IsUnique xs → IsUnique (sort (before locale_le) xs)
  unfolding sort
  sort-IsUnique [] u = tt
  sort-IsUnique (x ∷ xs) u =
      insert-IsUnique x _ (any-sort (before locale_le) (has_key x.record_id) xs ∙ u.0)
        (sort-IsUnique xs u.1)

  get-sort :
      (id : String) (xs : List VectorRecord)
      → IsUnique xs
      → get id (sort (before locale_le) xs) ≡ get id xs
  unfolding sort
  get-sort id [] u = refl
  get-sort id (x ∷ xs) u =
      get-insert id x (sort (before locale_le) xs)
        (any-sort (before locale_le) (has_key x.record_id) xs ∙ u.0)
      ∙ ground (arith, get-sort id xs u.1)

  -- Where the keys of the records that are there differ, the counts of a merge add up: every new
  -- record is counted once, as inserted or as updated, and the merged records are as many as the
  -- old ones and the inserted ones.
  pub merge-counts :
      (existing new_records : List VectorRecord)
      → IsUnique existing
      → let m = merge_records locale_le existing new_records in
        (m.inserted + m.updated ≡ length new_records)
        × (length m.merged ≡ length existing + m.inserted)
  unfolding merge_records
  merge-counts existing new_records u =
      let same = set_all_new [] existing u in
      (
        omega (arith, merge_loop-counts (set_all [] existing) 0 0 new_records),
        length-sort (before locale_le) (merge_loop (set_all [] existing) 0 0 new_records).merged
            ∙ omega (
              arith,
              merge_loop-length (set_all [] existing) 0 0 new_records,
              ap (λ (xs : List VectorRecord). length xs) same,
            ),
      )

  pub merge-merged :
      (existing new_records : List VectorRecord)
      → IsUnique existing
      → (merge_records locale_le existing new_records).merged
        ≡ sort (before locale_le) (set_all existing new_records)
  unfolding merge_records
  merge-merged existing new_records u =
      ap (λ (xs : List VectorRecord). sort (before locale_le) xs)
        (merge_loop-merged (set_all [] existing) 0 0 new_records
          ∙ ap (λ (xs : List VectorRecord). set_all xs new_records) (set_all_new [] existing u))

  -- Where the keys of the records that are there differ, the keys of the merged ones differ too, and
  -- under every id the merge finds the last new record with that id, and without one the old record.
  pub merge-get :
      (existing new_records : List VectorRecord)
      → IsUnique existing
      → let m = merge_records locale_le existing new_records in
        IsUnique m.merged
        × ((id : String)
            → get id m.merged ≡ or_else (find_last? (has_key id) new_records) (get id existing))
  merge-get existing new_records u =
      let unique = set_all-IsUnique existing new_records u in
      let e = merge-merged existing new_records u in
      (
        rw e (sort-IsUnique (set_all existing new_records) unique),
        λ id. rw e (
            get-sort id (set_all existing new_records) unique
            ∙ get-set_all id existing new_records),
      )
