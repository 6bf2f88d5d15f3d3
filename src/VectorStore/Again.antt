-- ===== src/VectorStore/Again.antt =====
-- Merging the same records a second time: `mergeRecords` of scripts/lib/local-vector-store.mjs.
use misa_cybernetic_evolutio.Prelude.{
  ℕ, ◌+◌, String, Bool, true, ◌||◌, ◌≡◌, refl, sym, ap, ◌∙◌, Option, none, some, List, [], ◌∷◌,
  any-sort, find_last?, length, arith, eq_iff, or_else, All, str_eq,
}
use misa_cybernetic_evolutio.VectorStore.Records.{
  VectorRecord, has_key, has, get, set, set_all, IsUnique, has-set,
}
use misa_cybernetic_evolutio.VectorStore.Store.{merge_loop, before, merge_records}
use misa_cybernetic_evolutio.VectorStore.Merging.{set_all_new}
use misa_cybernetic_evolutio.VectorStore.Lookup.{merge-counts, merge-merged, merge-get}

abbrev Known : List VectorRecord → VectorRecord → Type 0
Known xs r = has r.record_id xs ≡ true

has-set_all :
    (id : String) (xs rs : List VectorRecord) → has id (set_all xs rs) ≡ (has id rs || has id xs)
unfolding set_all
has-set_all id xs [] = refl
has-set_all id xs (r ∷ rs) = ground (arith, has-set_all id (set r xs) rs, has-set id r xs)

set-Known :
    (r : VectorRecord) (xs rs : List VectorRecord) → All (Known xs) rs → All (Known (set r xs)) rs
set-Known r xs [] h = tt
set-Known r xs (y ∷ ys) h = (ground (arith, has-set y.record_id r xs, h.0), set-Known r xs ys h.1)

-- Known keys are updated, not inserted.
merge_loop-Known :
    (xs : List VectorRecord) (i u : ℕ) (rs : List VectorRecord)
    → All (Known xs) rs
    → (merge_loop xs i u rs).inserted ≡ i
unfolding merge_loop
merge_loop-Known xs i u [] h = refl
merge_loop-Known xs i u (r ∷ rs) h =
    ground (arith, h.0, merge_loop-Known (set r xs) i (u + 1) rs (set-Known r xs rs h.1))

key_of : (id : String) → str_eq id id ≡ true
key_of id = (eq_iff id id).1 refl

contained-Known :
    (xs rs : List VectorRecord)
    → ((id : String) → has id rs ≡ true → has id xs ≡ true)
    → All (Known xs) rs
contained-Known xs [] h = tt
contained-Known xs (r ∷ rs) h = (
  h r.record_id (ground (arith, key_of r.record_id)),
  contained-Known xs rs (λ id k. h id (ground (arith, k))),
)

get_again :
    (found : Option VectorRecord) (old : Option VectorRecord)
    → or_else found (or_else found old) ≡ or_else found old
get_again none old = refl
get_again (some r) old = refl

module _ (locale_le : String → String → Bool) where
  merged-Known :
      (existing new_records : List VectorRecord)
      → IsUnique existing
      → All (Known (merge_records locale_le existing new_records).merged) new_records
  merged-Known existing new_records u = contained-Known _ new_records (λ id h.
      rw (merge-merged locale_le existing new_records u) (
        any-sort (before locale_le) (has_key id) (set_all existing new_records)
        ∙ has-set_all id existing new_records
        ∙ (rw h refl)))

  -- Where the keys of the records that are there differ, a second merge of the same new records
  -- inserts none and updates all of them, leaves as many records as there were after the first,
  -- and finds under every id what was found after the first.
  pub merge-merge :
      (existing new_records : List VectorRecord)
      → IsUnique existing
      → let once = (merge_records locale_le existing new_records).merged in
        let again = merge_records locale_le once new_records in
        (again.inserted ≡ 0)
        × (again.updated ≡ length new_records)
        × (length again.merged ≡ length once)
        × ((id : String) → get id again.merged ≡ get id once)
  merge-merge existing new_records u =
      let once = (merge_records locale_le existing new_records).merged in
      let (unique, first) = merge-get locale_le existing new_records u in
      let (_, second) = merge-get locale_le once new_records unique in
      let (sum, total) = merge-counts locale_le once new_records unique in
      let none_new : (merge_records locale_le once new_records).inserted ≡ 0 =
        unfold merge_records in
        rw (set_all_new [] once unique)
          (merge_loop-Known once 0 0 new_records (merged-Known existing new_records u)) in
      (
        none_new,
        omega (arith, none_new, sum),
        omega (arith, none_new, total),
        λ id.
            second id
            ∙ ap (λ (o : Option VectorRecord). or_else (find_last? (has_key id) new_records) o)
                (first id)
            ∙ get_again (find_last? (has_key id) new_records) (get id existing)
            ∙ sym (first id),
      )
