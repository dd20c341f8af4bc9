-- ===== src/Manifest.antt =====
-- The candidate manifest: what scripts/release_control.py asks of it before it trusts its assets, with the fuzzing
-- policy of scripts/release_fuzz.py.
pub mod Python
pub mod Assets
pub mod Fuzz
pub mod Policy
pub mod Accept
pub mod Snapshot
pub mod Source
