-- ===== src/Tests/Comparison.antt =====
-- Comparisons, and the checks of a report, at concrete inputs.
use plug_and_prejudice.Prelude.{In, Result, Text, [], arith, codes, err, ok, refl, ◌∷◌, ◌≡◌}
use plug_and_prejudice.Report.Comparison.{Comparison, add_comparison}
use plug_and_prejudice.Report.Comparison.Keeps.{
  IsGraph, add_comparison-IsGraph, add_comparison-twice,
}
use plug_and_prejudice.Report.Document.{Report}
use plug_and_prejudice.Report.Kinds.{
  Confidence-discrete, NodeKind, NodeKind-discrete, RelationshipType, RelationshipType-discrete,
  Scope-discrete,
}
use plug_and_prejudice.Report.Observations.{command_subject}
use plug_and_prejudice.Report.Records.{Operation, Relationship}
use plug_and_prejudice.Tests.Sample.{sample_digest, sample_operation, sample_report}

-- Two operations that do the same.
abbrev twin : Text → Text → Operation
twin id reference = record sample_operation { id = id; reference = reference }

abbrev twin_report : Report
twin_report = record sample_report {
  operations = twin (codes "op-1") (codes "PP-2") ∷ twin (codes "op-2") (codes "PP-1") ∷ [];
}

abbrev twins : Comparison
twins = record {
  type = RelationshipType.duplicates;
  from_kind = NodeKind.operation;
  from_id = codes "op-1";
  to_kind = NodeKind.operation;
  to_id = codes "op-2";
  basis = record { kind = []; subject = [] };
}

report_of : Result Report → Report
report_of (ok s) = s
report_of (err e) = sample_report

abbrev compared_report : Report
compared_report = report_of (add_comparison sample_digest twins twin_report)

adds : add_comparison sample_digest twins twin_report ≡ ok compared_report
unfolding add_comparison report_of RelationshipType-discrete command_subject NodeKind-discrete
    Scope-discrete Confidence-discrete
adds = refl

add_comparison-twice_example :
    add_comparison sample_digest twins compared_report ≡ ok compared_report
add_comparison-twice_example =
    add_comparison-twice sample_digest twins twin_report compared_report adds

no_relationships : IsGraph []
no_relationships = record { ordered = tt; apart = tt; few = omega arith }

add_comparison-IsGraph_example :
    IsGraph compared_report.relationships
    × ((x : Relationship) → In x [] → In x compared_report.relationships)
add_comparison-IsGraph_example =
    add_comparison-IsGraph sample_digest twins twin_report compared_report adds no_relationships
