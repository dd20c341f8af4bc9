-- ===== src/Scope.antt =====
-- scripts/change_scope.py: which changes skip heavy CI.
pub mod Paths
pub mod Diff
pub mod Classify
pub mod Documents
pub mod Safety
