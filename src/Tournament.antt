-- ===== src/Tournament.antt =====
-- scripts/lib/evolution-tournament-scoring.mjs: the variants of a candidate, their constraints and
-- scores, and the choice of the winner.
mod Types
mod Constraints
mod Choice
mod Scoring
mod Footprint
mod Build
mod Losers
mod Winner
mod Synthesis
mod Leading
mod Pareto
mod Blocked
mod Ledger
mod Tests
