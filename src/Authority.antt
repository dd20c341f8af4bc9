-- ===== src/Authority.antt =====
-- What else scripts/release_control.py asks before it publishes: that the source is on the default branch and not
-- superseded, that the evidence of a candidate is the run's, and that the environment has reviewers.
pub mod Superseded
pub mod Evidence
