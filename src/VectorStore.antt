-- ===== src/VectorStore.antt =====
-- scripts/lib/local-vector-store.mjs: the local store of vector records.
mod Records
mod Store
mod Upkeep
mod Merging
mod Lookup
mod Invariant
mod Rollback
mod Reports
mod Again
mod Tests
