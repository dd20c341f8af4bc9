-- ===== src/Publish.antt =====
-- The publication of a release by scripts/release_control.py: the checks before the first write, the calls of the
-- transaction, and the protocol that they follow.
pub mod Preflight
pub mod Run
pub mod Asset
pub mod Transaction
pub mod Protocol
