-- ===== src/Runs.antt =====
-- The Actions runs that scripts/release_control.py trusts: the provenance of a run, its release gate, fresh jobs of
-- a rerun, the execution that publishes, and the wait for it.
pub mod Timing
pub mod Gate
pub mod Provenance
pub mod Execution
pub mod Wait
