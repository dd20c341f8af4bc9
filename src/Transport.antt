-- ===== src/Transport.antt =====
-- How scripts/release_control.py reads GitHub through `gh api --include`: the HTTP heads, what counts as a
-- transient failure, and the three attempts of a read.
pub mod Head
pub mod Pages
pub mod Diagnose
pub mod Retry
pub mod Create
pub mod Bounded
pub mod Ends
