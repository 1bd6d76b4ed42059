-- ===== src/Report/Review/Coverage/Exact.antt =====
-- The coverage summaries that `validateCoverageSummary` accepts are those that
-- `NewCoverageSummary` makes.
use plug_and_prejudice.Prelude.{
  ==_refl, ==→≡, Text, Text-eq, [], arith, false, ok, pass, true, ℕ, ◌+◌, ◌==◌, ◌∷◌, ◌≡◌, ◌≤◌,
}
use plug_and_prejudice.Prelude.Int.{eqb_ℤ-eq, natural, pos, pos_part, ◌+ℤ◌}
use plug_and_prejudice.Report.Document.{CoverageSummary}
use plug_and_prejudice.Report.Limits.{coverage_denominator, max_inventory_entries}
use plug_and_prejudice.Report.Review.Coverage.{
  excessive_units, expected_level, inconsistent_units, new_coverage_summary,
  validate_coverage_summary,
}

module _ (a p u e : ℕ) (fits : a + p + u + e ≤ max_inventory_entries) where
  consistent : inconsistent_units (new_coverage_summary a p u (e ∷ [])) ≡ false
  unfolding inconsistent_units new_coverage_summary ◌+ℤ◌
  consistent = ground (arith, ==_refl coverage_denominator)

  moderate : excessive_units (new_coverage_summary a p u (e ∷ [])) ≡ false
  unfolding excessive_units new_coverage_summary
  moderate = ground arith

  level_expected :
      expected_level (new_coverage_summary a p u (e ∷ []))
      ≡ ok (new_coverage_summary a p u (e ∷ [])).level
  unfolding expected_level new_coverage_summary
  level_expected = ground arith

  -- What `NewCoverageSummary` makes of counts within the inventory limit is accepted.
  pub validate-new_coverage_summary :
      validate_coverage_summary (new_coverage_summary a p u (e ∷ [])) ≡ pass
  unfolding validate_coverage_summary
  validate-new_coverage_summary =
      rw (consistent, moderate, level_expected)
        (rw (==_refl (new_coverage_summary a p u (e ∷ [])).level))

-- The integers of an accepted summary, as natural numbers.
record Units (v : CoverageSummary) : Type 0 where
  a : ℕ
  p : ℕ
  u : ℕ
  e : ℕ
  analyzed : v.analyzed_units ≡ pos a
  partial : v.partial_units ≡ pos p
  unanalyzed : v.unanalyzed_units ≡ pos u
  excluded : v.excluded_units ≡ pos e
  total : v.total_units ≡ pos (a + p + u)
  retained : v.retained_units ≡ pos (a + p + u + e)
  denominator : v.denominator ≡ coverage_denominator

units : (v : CoverageSummary) → inconsistent_units v ≡ false → Units v
unfolding inconsistent_units ◌+ℤ◌
units v h = record {
  a = pos_part v.analyzed_units;
  p = pos_part v.partial_units;
  u = pos_part v.unanalyzed_units;
  e = pos_part v.excluded_units;
  analyzed = natural v.analyzed_units (ground arith);
  partial = natural v.partial_units (ground arith);
  unanalyzed = natural v.unanalyzed_units (ground arith);
  excluded = natural v.excluded_units (ground arith);
  total =
      ground
        (arith, eqb_ℤ-eq (v.analyzed_units +ℤ v.partial_units +ℤ v.unanalyzed_units) v.total_units);
  retained = ground (
    arith,
    eqb_ℤ-eq (v.analyzed_units +ℤ v.partial_units +ℤ v.unanalyzed_units) v.total_units,
    eqb_ℤ-eq (v.total_units +ℤ v.excluded_units) v.retained_units,
  );
  denominator = ground (arith, ==→≡ v.denominator coverage_denominator);
}

-- What is left of the checks, at the units of `v`.
module _ (v : CoverageSummary) (k : Units v) (l : Text) (expected : expected_level v ≡ ok l) where
  same_percentage : v.percentage ≡ (new_coverage_summary k.a k.p k.u (k.e ∷ [])).percentage
  unfolding expected_level new_coverage_summary
  same_percentage = ground (arith, k.analyzed, k.total)

  same_level : l ≡ (new_coverage_summary k.a k.p k.u (k.e ∷ [])).level
  unfolding expected_level new_coverage_summary
  same_level = ground (arith, k.analyzed, k.total)

-- The checks of `validateCoverageSummary`, one by one.
accepted :
    (v : CoverageSummary)
    → validate_coverage_summary v ≡ pass
    → (inconsistent_units v ≡ false)
      × (excessive_units v ≡ false)
      × ((l : Text) × (expected_level v ≡ ok l) × ((v.level == l) ≡ true))
unfolding validate_coverage_summary
accepted v h = (ground arith, ground arith, leveled)
  where
    leveled : (l : Text) × (expected_level v ≡ ok l) × ((v.level == l) ≡ true)
    leveled = ground arith

-- Whatever `validateCoverageSummary` accepts is the summary that `NewCoverageSummary` makes of four
-- counts that sum to at most `MaxInventoryEntries`.
pub validate_coverage_summary_sound :
    (v : CoverageSummary)
    → validate_coverage_summary v ≡ pass
    → (a p u e : ℕ) × (a + p + u + e ≤ max_inventory_entries)
      × (v ≡ new_coverage_summary a p u (e ∷ []))
unfolding excessive_units new_coverage_summary
validate_coverage_summary_sound v h =
    let (consistent_v, moderate_v, rest) = accepted v h in
    let (l, expected, agrees) = rest in
    let k = units v consistent_v in
    let same = same_level v k l expected in
    let share = same_percentage v k l expected in
    (
      k.a,
      k.p,
      k.u,
      k.e,
      ground (arith, k.retained),
      ground (
        arith,
        ==→≡ v.level l,
        k.analyzed,
        k.partial,
        k.unanalyzed,
        k.excluded,
        k.total,
        k.retained,
        k.denominator,
      ),
    )
