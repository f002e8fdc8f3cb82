-- ===== src/Tests.antt =====
-- Runs of the model on concrete inputs, and the theorems at inputs that meet their conditions.
mod Fixtures
mod Names
mod Limits
mod Votes
mod Leaders
mod Proofs
mod Rounds
mod Writes
mod Answers
mod Caches
mod Capacities
mod Commands
mod Documents
mod Updates
