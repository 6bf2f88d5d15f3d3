-- ===== src/RuntimeThread.antt =====
-- scripts/lib/runtime-thread.mjs: the agent thread, its event log, and the next-step reducer.
-- `Types` holds the data, `Log` the operations on the log, `Steps` the reducer and replay, `Gate`
-- the local gate and the error signal, `Packets` the building of a thread.
-- Times are ISO texts that `iso` has already normalised; ids are kept as the parts that they
-- are printed from. Reasons, summaries and warnings are texts for a reader and are left out.
mod Types
mod Log
mod Steps
mod Decisions
mod Gate
mod Replay
mod Checkpoint
mod Passing
mod Later
mod Packets
mod Lifecycle
mod Escalations
mod Pausing
mod Tests
pub use Types.{pause_for_human, paused}
pub use Gate.{CandidateContext, CandidateReducer}
pub use Packets.{build_runtime_thread_from_packets}
pub use Pausing.{build-pauses}
