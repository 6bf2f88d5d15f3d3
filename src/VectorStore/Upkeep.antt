-- ===== src/VectorStore/Upkeep.antt =====
-- The rollback, the statistics and the filters of a query on the files of
-- scripts/lib/local-vector-store.mjs.
use misa_cybernetic_evolutio.Prelude.{
  ℕ, String, Bool, true, not, ◌&&◌, ◌||◌, Option, none, some, List, [], ◌∷◌, ◌++◌, map, filter,
  length, str_eq, if◌then◌else◌, truthy, is_none,
}
use misa_cybernetic_evolutio.VectorStore.Records.{VectorRecord}
use misa_cybernetic_evolutio.VectorStore.Store.{
  count_by, distinct_count, Batch, Store, rollback_file, ids_of, build_manifest, batches_of,
  last_of,
}

pub record RolledBack : Type 0 where
  pub removed_record_count : ℕ
  pub remaining_record_count : ℕ

abbrev pub of_batch : String → VectorRecord → Bool
of_batch batch_id r = str_eq r.batch_id batch_id

abbrev pub not_of_batch : String → VectorRecord → Bool
not_of_batch batch_id r = not (of_batch batch_id r)

unfoldable pub mark_rolled_back : String → String → ℕ → List Batch → List Batch
mark_rolled_back batch_id now removed batches =
    map
      (λ b.
        if str_eq b.batch_id batch_id then record b { rolled_back = some (now, removed) } else b)
      batches

-- What a rollback writes and returns.
unfoldable pub without_batch : Store → String → String → Store × RolledBack
unfolding mark_rolled_back build_manifest
without_batch store batch_id now =
    let remaining = filter (not_of_batch batch_id) store.records in
    let removed = filter (of_batch batch_id) store.records in
    let batches = mark_rolled_back batch_id now (length removed) (batches_of store.manifest) in
    (
      record {
        records = remaining;
        manifest = some (build_manifest remaining batches now (last_of store.manifest));
        history = store.history ++ (batch_id, rollback_file (length removed) (ids_of removed)) ∷ [];
      },
      record { removed_record_count = length removed; remaining_record_count = length remaining },
    )

-- `none` is the error for a missing batch id; it comes before anything is read.
unfoldable pub rollback : Store → Option String → String → Option (Store × RolledBack)
unfolding without_batch
rollback store none now = none
rollback store (some batch_id) now =
    if truthy batch_id then some (without_batch store batch_id now) else none

-- `localVectorStoreStats`, less the constant parts of its result.
pub record Stats : Type 0 where
  pub manifest_found : Bool
  pub record_count : ℕ
  pub batch_count : ℕ
  pub by_kind : List (String × ℕ)
  pub by_route : List (String × ℕ)
  pub by_collection : List (String × ℕ)
  pub unique_source_count : ℕ

unfoldable pub stats : Store → Stats
unfolding count_by distinct_count
stats store = record {
  manifest_found = not (is_none store.manifest);
  record_count = length store.records;
  batch_count = elim store.manifest [ none ↦ 0 | some m ↦ m.batch_count ];
  by_kind = count_by store.records (λ r. r.kind);
  by_route = count_by store.records (λ r. r.route);
  by_collection = count_by store.records (λ r. r.collection);
  unique_source_count = distinct_count (map (λ r. r.original_source_id) store.records);
}

-- One filter of a query: an empty or missing one lets every value through.
unfoldable pub passes : Option String → String → Bool
passes none value = true
passes (some given) value = not (truthy given) || str_eq value given

-- The filters of `queryLocalVectorStore`, which come before the scoring of the records.
unfoldable pub passes_filters :
    Option String → Option String → Option String → Option String → VectorRecord → Bool
unfolding passes
passes_filters route kind source_kind source_id r =
    passes route r.route
    && passes kind r.kind
    && passes source_kind r.source_kind
    && (passes source_id r.source_id || passes source_id r.original_source_id)
