-- ===== src/Sandbox.antt =====
-- internal/sandbox/sandbox.go.
pub mod Buffer
pub mod Bounded
pub mod Names
pub mod Run
pub mod Contained
