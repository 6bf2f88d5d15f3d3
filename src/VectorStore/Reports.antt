-- ===== src/VectorStore/Reports.antt =====
-- What an upsert reports and when it writes: `upsertDistillationToLocalVectorStore` of
-- scripts/lib/local-vector-store.mjs.
use misa_cybernetic_evolutio.Prelude.{
  ◌+◌, String, Bool, true, false, ◌≡◌, refl, List, [], length, arith,
}
use misa_cybernetic_evolutio.VectorStore.Records.{VectorRecord, IsUnique}
use misa_cybernetic_evolutio.VectorStore.Store.{Store, upsert}
use misa_cybernetic_evolutio.VectorStore.Lookup.{merge-counts}

module _ (locale_le : String → String → Bool) where
  -- Where the keys of the stored records differ, the total that an upsert reports is the number of
  -- the records that the store has after it, and its inserted and updated counts add up to its
  -- record count: for a dry run, and for a distillation that is not valid, too.
  pub upsert-reports :
      (store : Store) (valid : Bool) (built : List VectorRecord) (dry_run : Bool)
      (batch_id now : String)
      → IsUnique store.records
      → let (after, report) = upsert locale_le store valid built dry_run batch_id now in
        (report.total_records_after_upsert ≡ length after.records)
        × (report.inserted + report.updated ≡ report.record_count)
  unfolding upsert
  upsert-reports store true built true batch_id now u =
      (refl, (merge-counts locale_le store.records built u).0)
  upsert-reports store true built false batch_id now u =
      (refl, (merge-counts locale_le store.records built u).0)
  upsert-reports store false built true batch_id now u =
      (refl, (merge-counts locale_le store.records [] u).0)
  upsert-reports store false built false batch_id now u =
      let (sum, total) = merge-counts locale_le store.records [] u in
      (omega (arith, sum, total), sum)
