-- ===== src/Tests.antt =====
-- The theorems at concrete inputs, and runs of the definitions.
mod Analyze
mod Capabilities
mod Manifest
mod Resource
mod Sandbox
mod Broker
mod Sample
mod Summary
mod Graph
mod Digest
mod Comparison
mod Validate
mod Canonical
