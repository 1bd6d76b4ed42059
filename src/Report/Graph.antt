-- ===== src/Report/Graph.antt =====
-- internal/report/evidence_graph.go: public references, the base relationships and comparisons. The
-- digest is a parameter, as in the code's `…WithDigest` functions.
pub mod View
pub mod References
pub mod Edges
pub mod Asked
pub mod Build
pub mod Laws
