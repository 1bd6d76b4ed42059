-- ===== src/Report/Review/Coverage.antt =====
-- `NewCoverageSummary`, `coverageFromInventory` and `validateCoverageSummary` of
-- internal/report/review.go. The counts that a document declares are integers of any sign; as
-- mathematical integers they do not wrap, which the code's sums do only beyond its own limits.
pub mod Exact
use plug_and_prejudice.Prelude.{
  Bool, Check, List, Option, Result, Text, Text-eq, [], codes, eqb, err, false, if◌then◌else◌,
  is_some, leb, ltb, none, not, ok, refuse, some, ℕ, ◌*◌, ◌+◌, ◌/◌, ◌==◌, ◌>>=◌, ◌>>◌, ◌||◌, ◌∷◌,
}
use plug_and_prejudice.Prelude.Int.{eqb_ℤ, ltb_ℤ, pos, quot, ℤ, ◌*ℤ◌, ◌+ℤ◌}
use plug_and_prejudice.Report.Document.{CoverageSummary}
use plug_and_prejudice.Report.Kinds.{AnalysisDisposition}
use plug_and_prejudice.Report.Limits.{coverage_denominator, max_inventory_entries}
use plug_and_prejudice.Report.Records.{File}

-- `excluded ...int`: only a sole argument counts.
abbrev pub sole : List ℕ → ℕ
sole (e ∷ []) = e
sole _ = 0

-- The levels, by the number of analyzed units and the percentage.
unfoldable pub unit_level : ℕ → ℕ → ℕ → Text
unit_level analyzed total percentage =
    if eqb analyzed total
    then codes "complete"
    else if leb 80 percentage
    then codes "substantial"
    else if ltb 0 percentage
    then codes "partial"
    else codes "limited"

unfoldable pub new_coverage_summary : ℕ → ℕ → ℕ → List ℕ → CoverageSummary
unfolding unit_level
new_coverage_summary analyzed partial unanalyzed excluded =
    let total = analyzed + partial + unanalyzed in
    let percentage = analyzed * 100 / total in
    let empty = eqb total 0 in
    record {
      level = if empty then codes "not-applicable" else unit_level analyzed total percentage;
      denominator = coverage_denominator;
      analyzed_units = pos analyzed;
      partial_units = pos partial;
      unanalyzed_units = pos unanalyzed;
      excluded_units = pos (sole excluded);
      total_units = pos total;
      retained_units = pos (total + sole excluded);
      percentage = if empty then none else some (pos percentage);
    }

-- The four counters of the loop over the inventory.
pub record Tally : Type 0 where
  pub analyzed : ℕ
  pub partial : ℕ
  pub unanalyzed : ℕ
  pub excluded : ℕ

abbrev pub tally_one : AnalysisDisposition → Tally → Tally
tally_one AnalysisDisposition.analyzed t = record t { analyzed = t.analyzed + 1 }
tally_one AnalysisDisposition.partial t = record t { partial = t.partial + 1 }
tally_one AnalysisDisposition.unanalyzed t = record t { unanalyzed = t.unanalyzed + 1 }
tally_one AnalysisDisposition.not_applicable t = record t { excluded = t.excluded + 1 }
tally_one (AnalysisDisposition.other s) t = t

unfoldable pub tally : List File → Tally → Tally
tally [] t = t
tally (f ∷ fs) t = tally fs (tally_one f.analysis t)

abbrev pub no_units : Tally
no_units = record { analyzed = 0; partial = 0; unanalyzed = 0; excluded = 0 }

unfoldable pub coverage_from_inventory : List File → CoverageSummary
unfolding tally new_coverage_summary
coverage_from_inventory files =
    let t = tally files no_units in
    new_coverage_summary t.analyzed t.partial t.unanalyzed (t.excluded ∷ [])

abbrev pub negative : ℤ → Bool
negative z = ltb_ℤ z (pos 0)

abbrev pub over_inventory : ℤ → Bool
over_inventory z = ltb_ℤ (pos max_inventory_entries) z

unfoldable pub inconsistent_units : CoverageSummary → Bool
inconsistent_units v =
    not (v.denominator == coverage_denominator)
    || negative v.analyzed_units
    || negative v.partial_units
    || negative v.unanalyzed_units
    || negative v.excluded_units
    || negative v.total_units
    || negative v.retained_units
    || not (eqb_ℤ (v.analyzed_units +ℤ v.partial_units +ℤ v.unanalyzed_units) v.total_units)
    || not (eqb_ℤ (v.total_units +ℤ v.excluded_units) v.retained_units)

unfoldable pub excessive_units : CoverageSummary → Bool
excessive_units v =
    over_inventory v.analyzed_units
    || over_inventory v.partial_units
    || over_inventory v.unanalyzed_units
    || over_inventory v.excluded_units
    || over_inventory v.total_units
    || over_inventory v.retained_units

-- `value.Percentage == nil || *value.Percentage != percentage`, negated.
abbrev pub percentage_is : Option ℤ → ℤ → Bool
percentage_is none p = false
percentage_is (some q) p = eqb_ℤ q p

unfoldable pub expected_level : CoverageSummary → Result Text
unfolding quot ◌*ℤ◌
expected_level v =
    let percentage = quot (v.analyzed_units *ℤ pos 100) v.total_units in
    if eqb_ℤ v.total_units (pos 0)
    then (if is_some v.percentage
        then err "analysis coverage percentage requires a nonzero denominator"
        else ok (codes "not-applicable"))
    else if not (percentage_is v.percentage percentage)
    then err "analysis coverage percentage does not match its explicit denominator"
    else if eqb_ℤ v.analyzed_units v.total_units
    then ok (codes "complete")
    else if not (ltb_ℤ percentage (pos 80))
    then ok (codes "substantial")
    else if ltb_ℤ (pos 0) percentage
    then ok (codes "partial")
    else ok (codes "limited")

unfoldable pub validate_coverage_summary : CoverageSummary → Check
unfolding inconsistent_units excessive_units expected_level
validate_coverage_summary v = do
  refuse (inconsistent_units v) "analysis coverage has an invalid denominator or unit counts"
  refuse (excessive_units v) "analysis coverage unit counts exceed inventory limits"
  level ← expected_level v
  refuse (not (v.level == level)) "analysis coverage level does not match unit counts"
