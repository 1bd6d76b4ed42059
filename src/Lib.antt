-- ===== src/Lib.antt =====
-- Verification of plug-and-prejudice, a scanner that reports what an untrusted plugin does.
--
-- A scan builds a report: an inventory of files, the operations and resources that analyzers saw,
-- findings and unknowns with their evidence, relationships between them, and a review summary. The
-- report is derived and validated in internal/report.
--
-- Prelude: Boolean tests, lists, texts as lists of bytes, Go's error results, integers over the
-- native numbers, sorting, byte encodings, association lists.
-- Report.Kinds, Report.Limits, Report.Records, Report.Document: the data model of
-- internal/report/report.go. An enumeration is a data type with a constructor for any other string,
-- a nil slice is the empty list, a map is an association list, and a Go integer that a decoded
-- document may make negative is an integer without a width.
-- Report.Review: internal/report/review.go. `deriveReviewSummary` is a chain of folds over the
-- collections (Derive), over the coverage arithmetic (Coverage) and the reasons (Summary).
-- Report.Subject: internal/report/semantic_subject.go.
-- Report.Digest: internal/report/inventory_digest.go; the model separates the bytes that are hashed
-- from the hash, which is a parameter.
-- Report.Graph: internal/report/evidence_graph.go. The closures of `BuildEvidenceGraph` pass their
-- maps along; the digest is a parameter.
-- Report.Observations, Report.Comparison: `AddComparison` of the same file, with the lookups that it
-- shares with the validation.
-- Report.Validate: internal/report/validate.go, by what is checked: Provenance, Inputs, Paths,
-- Bounds and Relationships. A switch over a field is a function whose first argument is that field.
-- Report.Canonical: internal/report/encode.go, the comparators and the order of the collections.
-- Analyze: internal/analyze. Paths and Languages read off names and contents what a file is,
-- References is the closure of the paths that the plugin refers to, Scope and Coverage annotate the
-- results with it, Capabilities derives resources and findings from commands,
-- Manifest checks the contract of the manifest, Binaries reports native executables.
-- Scanner: cmd/plug-prejudice/main.go, from what the inventory walk and the analysis of the sources
-- return to the report, which goes through Analyze.Coverage, Report.Graph and Report.Review.
-- Resource: internal/resource/scope.go, the verification (Verify) and the teardown (Teardown) of the
-- systemd scope; the wait for an empty cgroup is the list of what its ticks read before the deadline.
-- Sandbox: internal/sandbox/sandbox.go. Broker: cmd/plug-prejudice-broker/main.go. What the system
-- answers is a record of results and functions; a run of the broker is its exit code with the calls
-- that it made, in their order; Broker.Bounded gives it the checks of Resource.Verify.
-- Policy: internal/policy/limits.go.
-- Tests: the theorems at concrete inputs, and runs of the definitions.
--
-- The loops are structural recursion, but for one: the closure of the references is allowed a number
-- of passes, one for each candidate and one more, which is enough because a pass that changes
-- anything uses up a candidate. The canonical report takes package sort of Go as a parameter. Elsewhere
-- `sort.Slice` is an insertion sort, which keeps the order of equal keys where Go leaves it open. A
-- mutation of a report is the report that results, and an error result carries none.
--
-- Not modelled: the loops of `Validate` over the single records and its check of hostile strings,
-- which goes by reflection; the inventory walk, the start of processes in a resource scope and the trusted
-- executables, which work through the system; the analyzers of shell and QML, of which the first reads the syntax trees of
-- a third-party parser; JSON decoding and encoding, which are the Go standard library; the panel.
pub mod Analyze
pub mod Broker
pub mod Policy
pub mod Prelude
pub mod Report
pub mod Resource
pub mod Sandbox
pub mod Scanner
pub mod Tests
