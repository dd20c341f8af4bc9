-- ===== src/Examples.antt =====
-- Concrete policies, plans, ledgers and repositories, and the theorems at them.
pub mod Values
pub mod Plans
pub mod Ledgers
pub mod LedgerFacts
pub mod ScopeFacts
pub mod ValidationFacts
pub mod PrepareFacts
pub mod NotesFacts
pub mod CandidateFacts
pub mod TransportFacts
pub mod RunsFacts
pub mod ManifestFacts
pub mod PublishFacts
pub mod AuthorityFacts
pub mod StagingFacts
