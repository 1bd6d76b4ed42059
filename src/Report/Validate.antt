-- ===== src/Report/Validate.antt =====
-- The checks of internal/report/validate.go.
pub mod Relationships
pub mod Bounds
pub mod Distinct
pub mod Paths
pub mod Inputs
pub mod Provenance
