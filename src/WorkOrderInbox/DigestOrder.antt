-- ===== src/WorkOrderInbox/DigestOrder.antt =====
-- `sortOwnerDigestItems` of scripts/lib/work-order-inbox.mjs, and what a digest shows of what needs
-- a report.
use misa_cybernetic_evolutio.Prelude.{List}
