-- ===== src/Resource.antt =====
-- internal/resource/scope.go.
pub mod Strings
pub mod Units
pub mod Verify
pub mod Bounded
pub mod Teardown
pub mod Gone
