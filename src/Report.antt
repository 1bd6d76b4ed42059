-- ===== src/Report.antt =====
-- internal/report: the report contract.
pub mod Kinds
pub mod Limits
pub mod Records
pub mod Document
pub mod Review
pub mod Subject
pub mod Digest
pub mod Graph
pub mod Canonical
pub mod Validate
pub mod Comparison
pub mod Observations
