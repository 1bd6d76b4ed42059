-- ===== src/Broker.antt =====
-- cmd/plug-prejudice-broker/main.go.
pub mod Plugins
pub mod Listing
pub mod Command
pub mod Guarded
pub mod Bounded
