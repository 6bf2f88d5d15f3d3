-- ===== src/VectorStore/Tests.antt =====
-- Runs of the store of scripts/lib/local-vector-store.mjs, and its theorems at concrete stores.
use misa_cybernetic_evolutio.VectorStore.Again.{merge-merge}
use Prim.Native.String.{len}
use misa_cybernetic_evolutio.Prelude.{
  ◌+◌, String, Bool, true, false, ◌≡◌, refl, none, some, List, [], ◌∷◌, find_last?, or_else, any,
  length, leb, arith,
}
use misa_cybernetic_evolutio.VectorStore.Records.{VectorRecord, has_key, get, IsUnique}
use misa_cybernetic_evolutio.VectorStore.Store.{
  Store, before, merge_records, upsert, build_manifest, batches_of,
}
use misa_cybernetic_evolutio.VectorStore.Upkeep.{
  RolledBack, of_batch, rollback, without_batch, stats,
}
use misa_cybernetic_evolutio.VectorStore.Lookup.{merge-get}
use misa_cybernetic_evolutio.VectorStore.Invariant.{
  IsConsistent, Steps, done, more, upserted, rolled_back, Steps-IsConsistent, stats-manifest,
}
use misa_cybernetic_evolutio.VectorStore.Rollback.{
  rollback-removes, rollback-loses, rollback-upsert,
}
use misa_cybernetic_evolutio.VectorStore.Reports.{upsert-reports}

-- Ids in the order of their lengths.
abbrev shorter : String → String → Bool
shorter a b = leb (len a) (len b)

shorter-total : (a b : VectorRecord) → before shorter a b ≡ false → before shorter b a ≡ true
shorter-total a b h = ground (arith, h)

shorter_trans :
    (a b c : VectorRecord)
    → before shorter a b ≡ true
    → before shorter b c ≡ true
    → before shorter a c ≡ true
shorter_trans a b c h k = ground (arith, h, k)

abbrev a_record : String → String → VectorRecord
a_record id batch_id = record {
  record_id = id;
  batch_id = batch_id;
  kind = "distillate";
  route = "memory";
  collection = "misa_memory";
  source_id = "s1";
  source_kind = "note";
  original_source_id = "s0";
}

abbrev old_records : List VectorRecord
old_records = a_record "r" "b1" ∷ a_record "rrr" "b1" ∷ []

abbrev new_records : List VectorRecord
new_records = a_record "rr" "b2" ∷ a_record "rrrr" "b2" ∷ []

-- The first one has the id of a record that is there.
abbrev clashing : List VectorRecord
clashing = a_record "rrr" "b2" ∷ a_record "rr" "b2" ∷ []

abbrev a_store : Store
a_store = record { records = old_records; manifest = none; history = [] }

abbrev empty_store : Store
empty_store = record { records = []; manifest = none; history = [] }

abbrev store_after : Store
store_after = (upsert shorter empty_store true new_records false "b2" "now").0

merge-get_example :
    let m = merge_records shorter old_records clashing in
    IsUnique m.merged
    × ((id : String)
        → get id m.merged ≡ or_else (find_last? (has_key id) clashing) (get id old_records))
merge-get_example = merge-get shorter old_records clashing (refl, (refl, tt))

upsert-reports_example :
    let (after, report) = upsert shorter a_store true clashing false "b2" "now" in
    (report.total_records_after_upsert ≡ length after.records)
    × (report.inserted + report.updated ≡ report.record_count)
upsert-reports_example =
    upsert-reports shorter a_store true clashing false "b2" "now" (refl, (refl, tt))

merge-merge_example :
    let once = (merge_records shorter old_records clashing).merged in
    let again = merge_records shorter once clashing in
    (again.inserted ≡ 0)
    × (again.updated ≡ 2)
    × (length again.merged ≡ length once)
    × ((id : String) → get id again.merged ≡ get id once)
merge-merge_example = merge-merge shorter old_records clashing (refl, (refl, tt))

-- An upsert, and the rollback of its batch.
two-Steps : Steps shorter empty_store (without_batch store_after "b2" "later").0
unfolding rollback
two-Steps =
    more empty_store store_after _
      (more empty_store empty_store _ (done empty_store)
        (upserted empty_store true new_records false "b2" "now"))
      (rolled_back store_after "b2" "later" _ (without_batch store_after "b2" "later").1 refl)

Steps-IsConsistent_example : IsConsistent (without_batch store_after "b2" "later").0
Steps-IsConsistent_example =
    Steps-IsConsistent shorter empty_store (without_batch store_after "b2" "later").0 two-Steps
      (tt, tt)

rollback-removes_example :
    (result : Store × RolledBack) × (rollback a_store (some "b1") "now" ≡ some result)
    × (any (of_batch "b1") result.0.records ≡ false)
    × (result.1.removed_record_count + result.1.remaining_record_count ≡ 2)
    × (result.1.remaining_record_count ≡ length result.0.records)
rollback-removes_example = rollback-removes a_store "b1" "now" refl

rollback-loses_example :
    let s = (upsert shorter a_store true clashing false "b2" "now").0 in
    (result : Store × RolledBack) × (rollback s (some "b2") "later" ≡ some result)
    × (get "rrr" result.0.records ≡ none)
rollback-loses_example =
    rollback-loses shorter a_store clashing "b2" "now" "later" "rrr" (refl, (refl, tt)) refl
      (refl, (refl, tt)) refl

rollback-upsert_example :
    let s = (upsert shorter a_store true new_records false "b2" "now").0 in
    (result : Store × RolledBack) × (rollback s (some "b2") "later" ≡ some result)
    × (result.0.records ≡ old_records)
rollback-upsert_example =
    rollback-upsert shorter shorter-total shorter_trans a_store new_records "b2" "now" "later"
      ((refl, tt), (tt, tt)) (refl, (refl, (refl, (refl, tt)))) refl (refl, (refl, tt))
      (refl, (refl, tt))

stats-manifest_example :
    let s = (without_batch store_after "b2" "later").0 in
    let m = build_manifest s.records (batches_of s.manifest) "later" (some "b2") in
    ((stats s).manifest_found ≡ true)
    × ((stats s).record_count ≡ m.record_count)
    × ((stats s).batch_count ≡ length m.batches)
unfolding without_batch upsert
stats-manifest_example =
    stats-manifest shorter empty_store (without_batch store_after "b2" "later").0 _ two-Steps
      (tt, tt) refl
