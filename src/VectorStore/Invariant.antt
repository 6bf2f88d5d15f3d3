-- ===== src/VectorStore/Invariant.antt =====
-- The store's files agree with each other after any sequence of upserts and rollbacks:
-- `buildManifest`, `upsertDistillationToLocalVectorStore` and `rollbackLocalVectorStoreBatch` of
-- scripts/lib/local-vector-store.mjs.
use misa_cybernetic_evolutio.Prelude.{
  ℕ, ◌+◌, String, Bool, true, false, not, ◌&&◌, ◌≡◌, refl, sym, ap, inl, inr, Option, none, some,
  List, [], ◌∷◌, filter, length, arith, if◌then◌else◌, truthy, Bool-cases, subst, get_or,
}
use misa_cybernetic_evolutio.VectorStore.Records.{VectorRecord, has, IsUnique}
use misa_cybernetic_evolutio.VectorStore.Store.{
  count_key, count_from, count_by, Manifest, Store, build_manifest, upsert, Batch, last_of,
}
use misa_cybernetic_evolutio.VectorStore.Upkeep.{RolledBack, not_of_batch, rollback, stats}
use misa_cybernetic_evolutio.VectorStore.Lookup.{merge-get}

abbrev pub total : List (String × ℕ) → ℕ
total [] = 0
total (c ∷ cs) = c.1 + total cs

total-count_key : (k : String) (cs : List (String × ℕ)) → total (count_key k cs) ≡ total cs + 1
unfolding count_key
total-count_key k [] = omega arith
total-count_key k ((k', n) ∷ cs) = ground (arith, total-count_key k cs)

total-count_from :
    (f : VectorRecord → String) (rs : List VectorRecord) (cs : List (String × ℕ))
    → total (count_from f rs cs) ≡ total cs + length rs
unfolding count_from
total-count_from f [] cs = omega arith
total-count_from f (r ∷ rs) cs =
    omega (arith, total-count_from f rs (count_key (f r) cs), total-count_key (f r) cs)

total-count_by :
    (f : VectorRecord → String) (rs : List VectorRecord) → total (count_by rs f) ≡ length rs
unfolding count_by
total-count_by f rs = omega (arith, total-count_from f rs [])

-- What a manifest says of the records: their number, and counts by kind, route and collection that
-- add up to it.
abbrev pub Describes : Manifest → List VectorRecord → Type 0
Describes m records =
    (m.record_count ≡ length records)
    × (m.batch_count ≡ length m.batches)
    × (total m.by_kind ≡ length records)
    × (total m.by_route ≡ length records)
    × (total m.by_collection ≡ length records)

pub build_manifest-Describes :
    (records : List VectorRecord) (batches : List Batch) (now : String) (last : Option String)
    → Describes (build_manifest records batches now last) records
unfolding build_manifest
build_manifest-Describes records batches now last = (
  refl,
  refl,
  total-count_by (λ r. r.kind) records,
  total-count_by (λ r. r.route) records,
  total-count_by (λ r. r.collection) records,
)

pub filter-has :
    (p : VectorRecord → Bool) (id : String) (xs : List VectorRecord)
    → has id xs ≡ false
    → has id (filter p xs) ≡ false
filter-has p id [] h = refl
filter-has p id (x ∷ xs) h = ground (arith, h, filter-has p id xs)

pub filter-IsUnique :
    (p : VectorRecord → Bool) (xs : List VectorRecord) → IsUnique xs → IsUnique (filter p xs)
filter-IsUnique p [] u = tt
filter-IsUnique p (x ∷ xs) u = elim (Bool-cases (p x)) [
  | inl e ↦ rw e (filter-has p x.record_id xs u.0, filter-IsUnique p xs u.1)
  | inr e ↦ rw e (filter-IsUnique p xs u.1)
]

abbrev pub Described : Option Manifest → List VectorRecord → Type 0
Described none records = Unit
Described (some m) records = Describes m records

-- The keys differ, and a manifest that is there describes the records.
abbrev pub IsConsistent : Store → Type 0
IsConsistent store = IsUnique store.records × Described store.manifest store.records

module _ (locale_le : String → String → Bool) where
  -- An upsert with any distillation, or a rollback that does not throw.
  pub data Step : Store → Store → Type 0 where
    upserted :
        (store : Store) (valid : Bool) (built : List VectorRecord) (dry_run : Bool)
        (batch_id now : String)
        → Step store (upsert locale_le store valid built dry_run batch_id now).0
    rolled_back :
        (store : Store) (batch_id now : String) (after : Store) (report : RolledBack)
        → rollback store (some batch_id) now ≡ some (after, report)
        → Step store after

  pub data Steps : Store → Store → Type 0 where
    done : (store : Store) → Steps store store
    more : (a b c : Store) → Steps a b → Step b c → Steps a c

  upsert-IsConsistent :
      (store : Store) (valid : Bool) (built : List VectorRecord) (dry_run : Bool)
      (batch_id now : String)
      → IsConsistent store
      → IsConsistent (upsert locale_le store valid built dry_run batch_id now).0
  unfolding upsert
  upsert-IsConsistent store valid built dry_run batch_id now c =
      elim (Bool-cases (not dry_run && valid)) [
        | inl e ↦ rw e (
          (merge-get locale_le store.records (if valid then built else []) c.0).0,
          build_manifest-Describes _ _ now (some batch_id),
        )
        | inr e ↦ rw e c
      ]

  rollback-truthy :
      (store : Store) (batch_id now : String) (after : Store) (report : RolledBack)
      → rollback store (some batch_id) now ≡ some (after, report)
      → truthy batch_id ≡ true
  unfolding rollback
  rollback-truthy store batch_id now after report e = ground (arith, e)

  rollback-IsConsistent :
      (store : Store) (batch_id now : String) (after : Store) (report : RolledBack)
      → rollback store (some batch_id) now ≡ some (after, report)
      → IsConsistent store
      → IsConsistent after
  unfolding rollback
  rollback-IsConsistent store batch_id now after report e c =
      subst IsConsistent
        (ap (λ (o : Option (Store × RolledBack)). (get_or o (after, report)).0)
          (rw (rollback-truthy store batch_id now after report e) at e))
        (
          filter-IsUnique (not_of_batch batch_id) store.records c.0,
          build_manifest-Describes _ _ now (last_of store.manifest),
        )

  Step-IsConsistent : (a b : Store) → Step a b → IsConsistent a → IsConsistent b
  Step-IsConsistent a _ (upserted _ v built d batch_id now) c =
      upsert-IsConsistent a v built d batch_id now c
  Step-IsConsistent a b (rolled_back _ batch_id now _ report e) c =
      rollback-IsConsistent a batch_id now b report e c

  -- From a store whose keys differ and whose manifest, if there is one, gives the number of the
  -- records and of its batches, and counts by kind, route and collection that add up to the number
  -- of the records, every sequence of upserts and rollbacks leads to such a store.
  pub Steps-IsConsistent : (a b : Store) → Steps a b → IsConsistent a → IsConsistent b
  Steps-IsConsistent a _ (done _) c = c
  Steps-IsConsistent a b (more _ m _ s t) c = Step-IsConsistent m b t (Steps-IsConsistent a m s c)

  -- On a store with a manifest that some sequence of upserts and rollbacks reaches from a
  -- consistent one, the statistics give the counts of records and batches of the manifest.
  pub stats-manifest :
      (a b : Store) (m : Manifest)
      → Steps a b
      → IsConsistent a
      → b.manifest ≡ some m
      → ((stats b).manifest_found ≡ true)
        × ((stats b).record_count ≡ m.record_count)
        × ((stats b).batch_count ≡ length m.batches)
  unfolding stats
  stats-manifest a b m s c e =
      let described = subst (λ o. Described o b.records) e (Steps-IsConsistent a b s c).1 in
      (rw e refl, sym described.0, rw e described.1)
