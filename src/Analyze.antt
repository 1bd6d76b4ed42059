-- ===== src/Analyze.antt =====
-- internal/analyze: the parts that work on paths and on the results of the analyzers.
pub mod Manifest
pub mod Paths
pub mod Binaries
pub mod Capabilities
pub mod Coverage
pub mod Languages
pub mod References
pub mod Scope
