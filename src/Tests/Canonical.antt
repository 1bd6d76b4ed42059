-- ===== src/Tests/Canonical.antt =====
-- The canonical order at concrete inputs.
use Prim.Native.Nat.{Ordering}
use plug_and_prejudice.Prelude.{[], codes, less, map, refl, ◌↔◌, ◌∷◌, ◌≡◌}
use plug_and_prejudice.Prelude.Int.{pos}
use plug_and_prejudice.Prelude.Sort.{sort, sort-IsOrdered, sort-perm}
use plug_and_prejudice.Report.Canonical.{Sorter, compare_evidence, settle}
use plug_and_prejudice.Report.Canonical.Order.{compare_evidence-eq}
use plug_and_prejudice.Report.Document.{Report}
use plug_and_prejudice.Report.Records.{Evidence}
use plug_and_prejudice.Tests.Sample.{
  sample_evidence, sample_finding, sample_operation, sample_report,
}

abbrev later_evidence : Evidence
later_evidence = record sample_evidence { line_start = pos 9; line_end = pos 9 }

-- The sample with two operations out of order, and a finding whose evidence is.
abbrev shuffled : Report
shuffled = record sample_report {
  operations = record sample_operation { id = codes "op-2" } ∷ sample_operation ∷ [];
  findings = record sample_finding { evidence = later_evidence ∷ sample_evidence ∷ [] } ∷ [];
}

-- Insertion sort is a way of sorting.
abbrev insertion : Sorter
insertion = record {
  sort = λ A. sort {A = A};
  permutes = λ A. sort-perm {A = A};
  orders = λ A. sort-IsOrdered {A = A};
}

settle_test :
    map (λ o. o.id) (settle insertion shuffled).operations ≡ codes "op-1" ∷ codes "op-2" ∷ []
unfolding settle sort less
settle_test = refl

compare_evidence-eq_example :
    (compare_evidence sample_evidence later_evidence ≡ Ordering.eq)
    ↔ (sample_evidence ≡ later_evidence)
compare_evidence-eq_example = compare_evidence-eq sample_evidence later_evidence
