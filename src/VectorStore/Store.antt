-- ===== src/VectorStore/Store.antt =====
-- The operations of scripts/lib/local-vector-store.mjs on the store's files.
use misa_cybernetic_evolutio.Prelude.{
  ℕ, ◌+◌, String, Bool, not, ◌&&◌, Option, none, some, List, [], ◌∷◌, ◌++◌, map, length, str_eq,
  if◌then◌else◌, includes, sort,
}
use misa_cybernetic_evolutio.VectorStore.Records.{VectorRecord, has, set, set_all}

-- `countBy`: the object's entries, in the order in which its keys were first met.
unfoldable pub count_key : String → List (String × ℕ) → List (String × ℕ)
count_key key [] = (key, 1) ∷ []
count_key key ((k, n) ∷ counts) =
    if str_eq k key then (k, n + 1) ∷ counts else (k, n) ∷ count_key key counts

unfoldable pub count_from :
    (VectorRecord → String) → List VectorRecord → List (String × ℕ) → List (String × ℕ)
unfolding count_key
count_from selector [] counts = counts
count_from selector (r ∷ rs) counts = count_from selector rs (count_key (selector r) counts)

unfoldable pub count_by : List VectorRecord → (VectorRecord → String) → List (String × ℕ)
unfolding count_from
count_by records selector = count_from selector records []

-- `new Set(values).size`
unfoldable pub distinct_count : List String → ℕ
distinct_count [] = 0
distinct_count (x ∷ xs) = let rest = distinct_count xs in if includes xs x then rest else rest + 1

-- `batchSummary`
pub record BatchSummary : Type 0 where
  pub record_count : ℕ
  pub by_kind : List (String × ℕ)
  pub by_route : List (String × ℕ)
  pub by_collection : List (String × ℕ)
  pub source_count : ℕ

-- `rolled_back` is the time and the number of records of `rolled_back_at`, `rollback_record_count`.
pub record Batch : Type 0 where
  pub batch_id : String
  pub created_at : String
  pub dry_run : Bool
  pub summary : BatchSummary
  pub rolled_back : Option (String × ℕ)

pub record Manifest : Type 0 where
  pub updated_at : String
  pub last_batch_id : Option String
  pub record_count : ℕ
  pub batch_count : ℕ
  pub by_kind : List (String × ℕ)
  pub by_route : List (String × ℕ)
  pub by_collection : List (String × ℕ)
  pub unique_source_count : ℕ
  pub batches : List Batch

-- What is written under `history/<batch-id>/`.
pub data HistoryFile : Type 0 where
  batch_records : List VectorRecord → HistoryFile
  upsert_manifest : BatchSummary → (inserted updated : ℕ) → List String → HistoryFile
  rollback_file : (removed_record_count : ℕ) → List String → HistoryFile

-- The files of the store: `records.jsonl`, `manifest.json`, and the history, newest last.
pub record Store : Type 0 where
  pub records : List VectorRecord
  pub manifest : Option Manifest
  pub history : List (String × HistoryFile)

abbrev pub ids_of : List VectorRecord → List String
ids_of records = map (λ r. r.record_id) records

unfoldable pub batch_summary : List VectorRecord → BatchSummary
unfolding count_by distinct_count
batch_summary records = record {
  record_count = length records;
  by_kind = count_by records (λ r. r.kind);
  by_route = count_by records (λ r. r.route);
  by_collection = count_by records (λ r. r.collection);
  source_count = distinct_count (map (λ r. r.original_source_id) records);
}

unfoldable pub build_manifest : List VectorRecord → List Batch → String → Option String → Manifest
unfolding count_by distinct_count
build_manifest records batches now last_batch_id = record {
  updated_at = now;
  last_batch_id = last_batch_id;
  record_count = length records;
  batch_count = length batches;
  by_kind = count_by records (λ r. r.kind);
  by_route = count_by records (λ r. r.route);
  by_collection = count_by records (λ r. r.collection);
  unique_source_count = distinct_count (map (λ r. r.original_source_id) records);
  batches = batches;
}

abbrev pub batches_of : Option Manifest → List Batch
batches_of none = []
batches_of (some m) = m.batches

abbrev pub last_of : Option Manifest → Option String
last_of none = none
last_of (some m) = m.last_batch_id

pub record Merge : Type 0 where
  pub merged : List VectorRecord
  pub inserted : ℕ
  pub updated : ℕ

-- The loop of `mergeRecords`: the map, and how many keys were new and how many were not.
unfoldable pub merge_loop : List VectorRecord → ℕ → ℕ → List VectorRecord → Merge
unfolding set
merge_loop records inserted updated [] = record {
  merged = records;
  inserted = inserted;
  updated = updated;
}
merge_loop records inserted updated (r ∷ rs) =
    let old = has r.record_id records in
    merge_loop (set r records) (if old then inserted else inserted + 1)
      (if old then updated + 1 else updated) rs

-- `locale_le a b` is `a.localeCompare(b) <= 0`.
module _ (locale_le : String → String → Bool) where
  abbrev pub before : VectorRecord → VectorRecord → Bool
  before a b = locale_le a.record_id b.record_id

  unfoldable pub merge_records : List VectorRecord → List VectorRecord → Merge
  unfolding merge_loop set_all
  merge_records existing upserts =
      let result = merge_loop (set_all [] existing) 0 0 upserts in
      record result { merged = sort before result.merged }

  pub record Upserted : Type 0 where
    pub ok : Bool
    pub record_count : ℕ
    pub inserted : ℕ
    pub updated : ℕ
    pub total_records_after_upsert : ℕ
    pub by_kind : List (String × ℕ)
    pub by_route : List (String × ℕ)
    pub unique_source_count : ℕ

  -- `valid` is the validation of the distillation, and `built` the records that are made of it;
  -- both are computed before the store is read.
  unfoldable pub upsert :
      Store
      → (valid : Bool) → List VectorRecord
      → (dry_run : Bool) → String
      → String
      → Store × Upserted
  unfolding merge_records build_manifest batch_summary
  upsert store valid built dry_run batch_id now =
      let new_records = if valid then built else [] in
      let result = merge_records store.records new_records in
      let batches =
        batches_of store.manifest
        ++ (record {
          batch_id = batch_id;
          created_at = now;
          dry_run = dry_run;
          summary = batch_summary new_records;
          rolled_back = none;
        })
          ∷ [] in
      let written = not dry_run && valid in
      (
        if written
            then record {
              records = result.merged;
              manifest = some (build_manifest result.merged batches now (some batch_id));
              history =
                  store.history
                  ++ (batch_id, batch_records new_records)
                    ∷ (
                      batch_id,
                      upsert_manifest (batch_summary new_records) result.inserted result.updated
                          (ids_of new_records),
                    )
                    ∷ [];
            }
            else store,
        record {
          ok = valid;
          record_count = length new_records;
          inserted = result.inserted;
          updated = result.updated;
          total_records_after_upsert =
              if dry_run then length store.records else length result.merged;
          by_kind = count_by new_records (λ r. r.kind);
          by_route = count_by new_records (λ r. r.route);
          unique_source_count = distinct_count (map (λ r. r.original_source_id) new_records);
        },
      )
