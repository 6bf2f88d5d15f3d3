-- ===== src/Lib.antt =====
-- The core of misa-cybernetic-evolution: from repair tickets over work orders and human
-- escalations to the agent thread; the inbox of work orders; the local vector store; the
-- stability monitor; and the tournament of a candidate's variants.
--
-- `WorkOrderRouter` models scripts/lib/work-order-router.mjs: `Types` the data; `Ids` stableSlug
-- and the ids of the orders; `Orders` workOrderFromRepairTicket and workOrderFromOperationalQualityReport; `Policy`
-- normalizeRoutingPolicy, modelHandoffForOrder and applyRoutingPolicy; `Routing`
-- sortWorkOrders, buildWorkOrderRouting, and of scripts/lib/human-escalation.mjs the choice of
-- orders in humanEscalationsFromWorkOrderRouting. `Lanes`, `Routed`, `Graver`, `Outcome` and `Handoff` hold
-- the proofs; `Handoff` joins the routing to the thread that is built of its escalations.
--
-- `RuntimeThread` models scripts/lib/runtime-thread.mjs: `Types` the data; `Log` the event log,
-- createAgentThread, appendThreadEvent and businessStateFromEvents; `Steps` determineNextStep,
-- recordNextStep and replayRuntimeThread; `Gate` evaluateRuntimeLocalGate, recordRuntimeLocalGate
-- and recordRuntimeErrorSignal; `Packets` buildRuntimeThreadFromPackets. The other modules hold the
-- proofs: `Decisions` the table of the reducer, `Replay` and `Checkpoint` the tracking of the log
-- by the live state, `Passing` the gate, `Later` the growth of the log, `Escalations` and `Pausing`
-- the waiting for a human, `Lifecycle` the built thread.
--
-- `VectorStore` models scripts/lib/local-vector-store.mjs: `Records` a Map of records by id;
-- `Store` countBy, batchSummary, buildManifest, mergeRecords and
-- upsertDistillationToLocalVectorStore, on a store that is the three kinds of file; `Upkeep`
-- rollbackLocalVectorStoreBatch, localVectorStoreStats and the filters of
-- queryLocalVectorStore. `Merging`, `Lookup`, `Again`, `Reports`, `Rollback` and `Invariant` hold
-- the proofs.
--
-- `Stability` models scripts/lib/post-deploy-measurement.mjs (`Measurement`:
-- measurePostDeployTicket; `Review`: reviewPostDeployTickets, with its proof) and
-- scripts/lib/stability-monitor.mjs (`Monitor`: the indicators, trailingFailureStreak,
-- buildIncidents, safeModeState and reviewStabilityIndicators). `Numbers`
-- is the interface of JavaScript's floating point, which they take as given, with `round` of
-- scripts/lib/evolution-tournament-utils.mjs. `Checked`, `Remeasure`, `Streak` and `SafeMode`
-- hold the proofs.
--
-- `WorkOrderInbox` models scripts/lib/work-order-inbox.mjs: `Types` the data; `Keys`
-- classifyFailureReason and dedupeGroupKeyForOrder; `Observation` refreshObservation; `Aggregate`
-- occurrencesForItem, buildAggregate and ensureAggregate; `Merge` mergeIntoExistingItem; `Export`
-- normalizeInboxItem, indexOpenInboxByGroup and exportReviewWorkOrdersToInbox, on a directory that is
-- the list of its files in the order of their paths; `Digest` exportInboxOwnerDigest, the sorting of
-- its items and markItemReported. `Texts` is the interface of the hash, the slugs and the text
-- functions of JavaScript. `Sets`, `Known`, `Merging`, `Counted` and `Bounds` hold the proofs about one item,
-- `Directory`, `Index`, `Views`, `InStep`, `Cover`, `Growth`, `Unchanged`, `Covering`, `Again`,
-- `Listing` and `Counts` those about the export, `Reported`, `ReportNeeded`, `DigestOrder` and `Shown` those about
-- what the owner is told.
--
-- `Tournament` models scripts/lib/evolution-tournament-scoring.mjs with the lists of
-- scripts/lib/evolution-tournament-contract.mjs: `Types` the data; `Constraints` buildVariants
-- and evaluateConstraints; `Scoring` scoreVariant, strategyFitScore, and `Footprint` the
-- restraint score of buildControlFootprint, over the numbers of `Stability.Numbers`; `Choice`
-- synthesisComparison, chooseWinner, dominates and annotatePareto; `Build` buildTournament up to
-- the annotation, and `Losers` its loser ledger with classifyLoserAgainstWinner. A candidate has
-- four variants, no more than are allowed, so they are not cut. `Winner`, `Synthesis`, `Leading`, `Pareto`,
-- `Blocked` and `Ledger` hold the proofs.
--
-- `Prelude` holds what the parts share: truth, searches and filters of JavaScript lists, and the
-- stable sort of Array.prototype.sort, as an insertion sort.
--
-- The threads that operations reach (`Reach`) and the stores that they reach (`Steps`) are step
-- relations. Every function recurs on its list, but the decimal digits of an order's index, whose
-- fuel is the index itself, which has no more digits than its value. `null` and `undefined` are both
-- `none`. Times are texts that are already normalised; in the inbox a time is also its number of
-- milliseconds from 1970, and now - window <= seen is tested as now <= seen + window. An event id that is printed from a thread id
-- and a number is kept as these two. `localeCompare`, as "at most 0", and the chain of
-- text replacements in stableSlug are parameters; what is used of the first is named at the theorem.
--
-- Not modelled: titles, summaries, prompts, reasons and warnings, which are texts for a reader;
-- the reading and writing of files but for what they hold; the distillation's validation and the
-- building of vector records, which the upsert takes as given; the scores of query hits; a
-- tournament's risks of drift and gaming; and the repository's other scripts.
pub mod Prelude
pub mod RuntimeThread
pub mod WorkOrderRouter
pub mod VectorStore
pub mod Stability
pub mod WorkOrderInbox
pub mod Tournament
