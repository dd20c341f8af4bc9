-- ===== src/Plan.antt =====
-- scripts/version_plan.py: release identities, the versioning policy, plans and projections.
pub mod Patterns
pub mod Identity
pub mod Declaration
pub mod Declared
pub mod Receipts
pub mod Policy
pub mod Projection
pub mod Create
