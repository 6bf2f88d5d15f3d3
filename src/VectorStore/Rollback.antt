-- ===== src/VectorStore/Rollback.antt =====
-- What a rollback takes out and what it leaves: `rollbackLocalVectorStoreBatch` of
-- scripts/lib/local-vector-store.mjs.
use mathlib.Core.Option
use misa_cybernetic_evolutio.VectorStore.Invariant.{filter-has}
use misa_cybernetic_evolutio.Prelude.{
  ◌+◌, String, Bool, true, false, not, ◌&&◌, ◌≡◌, refl, ◌∙◌, inl, inr, none, some, List, [], ◌∷◌,
  ◌++◌, any, filter, find_last?, any-append, length, arith, truthy, Bool-cases, IsSorted,
  sort_sorted, filter-sort, filter-append, filter-All, filter_none, length-filter-not, All, eq_iff,
}
use misa_cybernetic_evolutio.VectorStore.Records.{VectorRecord, has_key, has, get, IsUnique}
use misa_cybernetic_evolutio.VectorStore.Store.{Store, merge_records, before, upsert}
use misa_cybernetic_evolutio.VectorStore.Upkeep.{
  RolledBack, of_batch, not_of_batch, without_batch, rollback,
}
use misa_cybernetic_evolutio.VectorStore.Merging.{set_all_new, append_nil}
use misa_cybernetic_evolutio.VectorStore.Lookup.{merge-merged, merge-get}

any-filter-not :
    (p : VectorRecord → Bool) (xs : List VectorRecord) → any p (filter (λ r. not (p r)) xs) ≡ false
any-filter-not p [] = refl
any-filter-not p (x ∷ xs) = ground (arith, any-filter-not p xs)

get-filter-not :
    (q : VectorRecord → Bool) (id : String) (xs : List VectorRecord)
    → any (λ r. has_key id r && q r) xs ≡ false
    → get id (filter (λ r. not (q r)) xs) ≡ get id xs
get-filter-not q id [] h = refl
get-filter-not q id (x ∷ xs) h = ground (arith, h, get-filter-not q id xs)

-- Where the batch id is not empty, a rollback succeeds, no record of the batch is left, the numbers
-- that it reports add up to the number of the records that were there, and the second one is the
-- number of those that are left.
pub rollback-removes :
    (store : Store) (batch_id now : String)
    → truthy batch_id ≡ true
    → (result : Store × RolledBack) × (rollback store (some batch_id) now ≡ some result)
      × (any (of_batch batch_id) result.0.records ≡ false)
      × (result.1.removed_record_count + result.1.remaining_record_count ≡ length store.records)
      × (result.1.remaining_record_count ≡ length result.0.records)
unfolding rollback
rollback-removes store batch_id now t = (
  without_batch store batch_id now,
  rw t refl,
  any-filter-not (of_batch batch_id) store.records,
  length-filter-not (of_batch batch_id) store.records,
  refl,
)

-- Where the batch id is not empty and no record of the batch has an id, a rollback succeeds, and
-- under that id it leaves what was there.
pub rollback-keeps :
    (store : Store) (batch_id now id : String)
    → truthy batch_id ≡ true
    → any (λ r. has_key id r && of_batch batch_id r) store.records ≡ false
    → (result : Store × RolledBack) × (rollback store (some batch_id) now ≡ some result)
      × (get id result.0.records ≡ get id store.records)
unfolding rollback
rollback-keeps store batch_id now id t h = (
  without_batch store batch_id now,
  rw t refl,
  get-filter-not (of_batch batch_id) id store.records h,
)

find_last?-absent :
    (id : String) (rs : List VectorRecord) → has id rs ≡ false → find_last? (has_key id) rs ≡ none
find_last?-absent id [] h = refl
find_last?-absent id (x ∷ xs) h = ground (arith, h, find_last?-absent id xs)

get-absent : (id : String) (rs : List VectorRecord) → has id rs ≡ false → get id rs ≡ none
get-absent id [] h = refl
get-absent id (x ∷ xs) h = ground (arith, h, get-absent id xs)

-- The last record under an id that is there passes a test that they all pass.
find_last?-All :
    (id : String) (p : VectorRecord → Bool) (rs : List VectorRecord)
    → All (λ r. p r ≡ true) rs
    → has id rs ≡ true
    → (r : VectorRecord) × (find_last? (has_key id) rs ≡ some r) × (p r ≡ true)
find_last?-All id p [] a h = ground (arith, h)
find_last?-All id p (x ∷ xs) a h = elim (Bool-cases (has id xs)) [
  | inl e ↦ let (r, found, passes) = find_last?-All id p xs a.1 e in (r, rw found refl, passes)
  | inr e ↦ (x, ground (arith, e, h, find_last?-absent id xs e), a.0)
]

get-filter-none :
    (q : VectorRecord → Bool) (id : String) (xs : List VectorRecord)
    → IsUnique xs
    → Option.map q (get id xs) ≡ some true
    → get id (filter (λ r. not (q r)) xs) ≡ none
get-filter-none q id [] u e = refl
get-filter-none q id (x ∷ xs) u e = ground (
  arith,
  e,
  u.0,
  get-filter-none q id xs u.1,
  eq_iff x.record_id id,
  filter-has (λ r. not (q r)) id xs,
  get-absent id (filter (λ r. not (q r)) xs),
)

IsUnique-left : (xs ys : List VectorRecord) → IsUnique (xs ++ ys) → IsUnique xs
IsUnique-left [] ys u = tt
IsUnique-left (x ∷ xs) ys u =
    (ground (arith, u.0, any-append (has_key x.record_id) xs ys), IsUnique-left xs ys u.1)

module _ (q : VectorRecord → Bool) where
  All-not-true :
      (xs : List VectorRecord) → All (λ r. q r ≡ false) xs → All (λ r. not (q r) ≡ true) xs
  All-not-true [] h = tt
  All-not-true (x ∷ xs) h = (rw h.0 refl, All-not-true xs h.1)

  All-not-false :
      (xs : List VectorRecord) → All (λ r. q r ≡ true) xs → All (λ r. not (q r) ≡ false) xs
  All-not-false [] h = tt
  All-not-false (x ∷ xs) h = (rw h.0 refl, All-not-false xs h.1)

module _ (locale_le : String → String → Bool) where
  -- Where the keys of the stored records differ, an upsert that is written puts records of its own batch
  -- in the store, and one of them has the id, the rollback of that batch leaves no record under the
  -- id, also where the store had one before the upsert.
  pub rollback-loses :
      (store : Store) (built : List VectorRecord) (batch_id now later id : String)
      → IsUnique store.records
      → truthy batch_id ≡ true
      → All (λ r. of_batch batch_id r ≡ true) built
      → has id built ≡ true
      → let s = (upsert locale_le store true built false batch_id now).0 in
        (result : Store × RolledBack) × (rollback s (some batch_id) later ≡ some result)
        × (get id result.0.records ≡ none)
  unfolding rollback upsert
  rollback-loses store built batch_id now later id u t a h =
      let merged = merge-get locale_le store.records built u in
      let (r, found, of) = find_last?-All id (of_batch batch_id) built a h in
      let s = (upsert locale_le store true built false batch_id now).0 in
      let all_records = (merge_records locale_le store.records built).merged in
      let here : get id all_records ≡ some r = merged.1 id ∙ rw found refl in
      let of_it : Option.map (of_batch batch_id) (get id all_records) ≡ some true =
        rw (here, of) refl in
      (
        without_batch s batch_id later,
        rw t refl,
        get-filter-none (of_batch batch_id) id all_records merged.0 of_it,
      )

  module _
      (total : (a b : VectorRecord) → before locale_le a b ≡ false → before locale_le b a ≡ true)
      (trans : (a b c : VectorRecord)
        → before locale_le a b ≡ true
        → before locale_le b c ≡ true
        → before locale_le a c ≡ true) where
    -- In an order of the ids that is total and transitive, where the stored records are sorted, belong to
    -- other batches and have, together with the new ones, different ids, and the new ones belong
    -- to the upsert's batch: the rollback of the upsert that was just written succeeds and gives
    -- back exactly the stored records.
    pub rollback-upsert :
        (store : Store) (built : List VectorRecord) (batch_id now later : String)
        → IsSorted (before locale_le) store.records
        → IsUnique (store.records ++ built)
        → truthy batch_id ≡ true
        → All (λ r. of_batch batch_id r ≡ true) built
        → All (λ r. of_batch batch_id r ≡ false) store.records
        → let s = (upsert locale_le store true built false batch_id now).0 in
          (result : Store × RolledBack) × (rollback s (some batch_id) later ≡ some result)
          × (result.0.records ≡ store.records)
    unfolding rollback upsert
    rollback-upsert store built batch_id now later sorted u t a b =
        let s = (upsert locale_le store true built false batch_id now).0 in
        (without_batch s batch_id later, rw t refl, restored)
      where
        p : VectorRecord → Bool
        p = not_of_batch batch_id

        restored : filter p (merge_records locale_le store.records built).merged ≡ store.records
        restored =
            rw
              (
                merge-merged locale_le store.records built (IsUnique-left store.records built u),
                set_all_new store.records built u,
                filter-sort (before locale_le) total trans p (store.records ++ built),
                filter-append p store.records built,
                filter-All p store.records (All-not-true (of_batch batch_id) store.records b),
                filter_none p built (All-not-false (of_batch batch_id) built a),
                append_nil store.records,
              )
              (sort_sorted (before locale_le) store.records sorted)
