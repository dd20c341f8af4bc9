-- ===== src/Ledger.antt =====
-- scripts/release_state.py: the version ledger and its compare-and-swap writes.
pub mod Types
pub mod Read
pub mod Sequence
pub mod Reserve
pub mod Publish
pub mod Concurrent
pub mod Candidate
