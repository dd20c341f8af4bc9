-- ===== src/Validation.antt =====
-- scripts/release_validation.py: which checks a release channel needs, and whether they passed.
pub mod Policy
pub mod Gate
pub mod Jobs
