-- ===== src/WorkOrderRouter.antt =====
-- scripts/lib/work-order-router.mjs and the filter of scripts/lib/human-escalation.mjs.
mod Types
mod Ids
mod Orders
mod Policy
mod Routing
mod Lanes
mod Routed
mod Graver
mod Outcome
mod Handoff
mod Tests
