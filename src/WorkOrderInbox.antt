-- ===== src/WorkOrderInbox.antt =====
-- scripts/lib/work-order-inbox.mjs: the inbox of repair work orders, its aggregates of
-- occurrences, the merging of reviews into it, and the owner's digest.
mod Types
mod Keys
mod Observation
mod Aggregate
mod Merge
mod Export
mod Digest
mod Sets
mod Known
mod Merging
mod Counted
mod Directory
mod Index
mod Views
mod InStep
mod Cover
mod Growth
mod Unchanged
mod Covering
mod Again
mod Listing
mod Counts
mod Reported
mod Bounds
mod Shown
mod DigestOrder
mod ReportNeeded
mod Tests
