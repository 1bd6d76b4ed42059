-- ===== src/Scanner/Complete.antt =====
-- What a scan with the status "complete" has looked at.
use plug_and_prejudice.Analyze.Binaries.{analyze_inventory}
use plug_and_prejudice.Analyze.Coverage.{
  assign_coverage_dispositions, assign_one, coverage_from_files, disposition, failed_paths,
  limited_paths,
}
use plug_and_prejudice.Analyze.Coverage.Laws.{
  IsCovered, coverage_from_files-inventory, disposition-IsCovered,
}
use plug_and_prejudice.Analyze.References.{Contents}
use plug_and_prejudice.Analyze.Scope.{Analysis}
use plug_and_prejudice.Prelude.{
  ==→≡, All, Bool, Bool-cases, List, Text, Text-eq, [], and-split, ap, arith, codes, eqb, false,
  if◌then◌else◌, inl, inr, length, ltb, map, not, or-split, refl, subst, subst₂, sym, text_eq, true,
  ℕ, ◌&&◌, ◌++◌, ◌+◌, ◌==◌, ◌∙◌, ◌∷◌, ◌≡◌, ◌≢◌, ◌≤◌,
}
use plug_and_prejudice.Prelude.Int.{ltb_ℤ, pos}
use plug_and_prejudice.Report.Document.{CoverageSummary, Report}
use plug_and_prejudice.Report.Kinds.{AnalysisDisposition, Status, Status-eq}
use plug_and_prejudice.Report.Records.{File, Limitation, ScanError, Unknown}
use plug_and_prejudice.Report.Review.Coverage.{
  Tally, coverage_from_inventory, new_coverage_summary, no_units, tally, tally_one, unit_level,
}
use plug_and_prejudice.Scanner.{Invocation, Scan, assemble, explain_status, is_empty, scan_status}

abbrev unfinished : Tally → ℕ
unfinished t = t.partial + t.unanalyzed + t.excluded

tally_one-unfinished :
    (d : AnalysisDisposition) (t : Tally) → unfinished t ≤ unfinished (tally_one d t)
tally_one-unfinished AnalysisDisposition.analyzed t = omega arith
tally_one-unfinished AnalysisDisposition.partial t = omega arith
tally_one-unfinished AnalysisDisposition.unanalyzed t = omega arith
tally_one-unfinished AnalysisDisposition.not_applicable t = omega arith
tally_one-unfinished (AnalysisDisposition.other s) t = omega arith

tally-unfinished : (files : List File) (t : Tally) → unfinished t ≤ unfinished (tally files t)
unfolding tally
tally-unfinished [] t = omega arith
tally-unfinished (f ∷ files) t =
    omega
      (arith, tally_one-unfinished f.analysis t, tally-unfinished files (tally_one f.analysis t))

abbrev is_known : AnalysisDisposition → Bool
is_known (AnalysisDisposition.other s) = false
is_known _ = true

finished_one :
    (d : AnalysisDisposition) (t : Tally)
    → is_known d ≡ true
    → unfinished (tally_one d t) ≡ 0
    → d ≡ AnalysisDisposition.analyzed
finished_one AnalysisDisposition.analyzed t k h = refl
finished_one AnalysisDisposition.partial t k h = absurd (omega (arith, h))
finished_one AnalysisDisposition.unanalyzed t k h = absurd (omega (arith, h))
finished_one AnalysisDisposition.not_applicable t k h = absurd (omega (arith, h))
finished_one (AnalysisDisposition.other s) t k h = cc

module _ (contents : Contents) (limited failed : List Text) where
  disposition-known : (file : File) → is_known (disposition contents limited failed file).0 ≡ true
  unfolding disposition
  disposition-known file = ground arith

  finished_all :
      (files : List File) (t : Tally)
      → unfinished (tally (map (assign_one contents limited failed) files) t) ≡ 0
      → All (IsCovered contents limited failed) files
  unfolding tally
  finished_all [] t h = tt
  finished_all (f ∷ files) t h =
      let d = (disposition contents limited failed f).0 in
      let rest = map (assign_one contents limited failed) files in
      let none_now : unfinished (tally_one d t) ≡ 0 =
        omega (arith, tally-unfinished rest (tally_one d t), h) in
      (
        disposition-IsCovered contents limited failed f
            (finished_one d t (disposition-known f) none_now),
        finished_all files (tally_one d t) h,
      )

-- The levels that a complete scan may have.
full_level :
    (a p u e : ℕ)
    → (not ((new_coverage_summary a p u (e ∷ [])).level == codes "complete")
        && not ((new_coverage_summary a p u (e ∷ [])).level == codes "not-applicable"))
      ≡ false
    → (p ≡ 0) × (u ≡ 0)
unfolding new_coverage_summary unit_level text_eq
full_level a p u e h = elim (Bool-cases (eqb (a + p + u) 0)) [
  | inl k ↦ (ground arith, ground arith)
  | inr k ↦ elim (Bool-cases (eqb a (a + p + u))) [
    | inl m ↦ (ground arith, ground arith)
    | inr m ↦ absurd (ground arith)
  ]
]

counts :
    (files : List File)
    → coverage_from_files files
      ≡ new_coverage_summary
          (tally files no_units).analyzed
          (tally files no_units).partial
          (tally files no_units).unanalyzed
          ((tally files no_units).excluded ∷ [])
unfolding coverage_from_inventory
counts files = coverage_from_files-inventory files

no_excess :
    (t : Tally)
    → ltb_ℤ
        (pos 0)
        (new_coverage_summary t.analyzed t.partial t.unanalyzed (t.excluded ∷ [])).excluded_units
      ≡ false
    → t.excluded ≡ 0
unfolding new_coverage_summary
no_excess t h = ground arith

-- Coverage without excluded units at one of these levels is coverage of every file.
finished :
    (files : List File) (contents : Contents) (limitations : List Limitation)
    (errors : List ScanError)
    → ltb_ℤ
        (pos 0)
        (assign_coverage_dispositions files contents limitations errors).1.excluded_units
      ≡ false
    → (not (
          (assign_coverage_dispositions files contents limitations errors).1.level
          == codes "complete")
        && not (
            (assign_coverage_dispositions files contents limitations errors).1.level
            == codes "not-applicable"))
      ≡ false
    → All (IsCovered contents (limited_paths limitations) (failed_paths errors)) files
unfolding assign_coverage_dispositions
finished files contents limitations errors included full =
    let step = assign_one contents (limited_paths limitations) (failed_paths errors) in
    let t = tally (map step files) no_units in
    let counted = counts (map step files) in
    let (no_partial, no_unanalyzed) = full_level t.analyzed t.partial t.unanalyzed t.excluded (
      subst
        (λ c.
          (not (c.level == codes "complete") && not (c.level == codes "not-applicable")) ≡ false)
        counted full) in
    let no_excluded : t.excluded ≡ 0 =
      no_excess t (subst (λ c. ltb_ℤ (pos 0) c.excluded_units ≡ false) counted included) in
    finished_all contents (limited_paths limitations) (failed_paths errors) files no_units
      (omega (arith, no_partial, no_unanalyzed, no_excluded))

no_items : {A : Type 0} (xs : List A) → ltb 0 (length xs) ≡ false → xs ≡ []
no_items [] h = refl
no_items (x ∷ xs) h = absurd (ground arith)

not_incomplete :
    (b : Bool) → (if b then Status.incomplete else Status.complete) ≡ Status.complete → b ≡ false
not_incomplete true h = cc
not_incomplete false h = refl

-- The tests that a complete status has failed.
complete_status :
    (unknowns : List Unknown) (errors : List ScanError) (limitations : List Limitation)
    (coverage : CoverageSummary)
    → scan_status unknowns errors limitations coverage ≡ Status.complete
    → (unknowns ≡ [])
      × (errors ≡ [])
      × (limitations ≡ [])
      × (ltb_ℤ (pos 0) coverage.excluded_units ≡ false)
      × ((not (coverage.level == codes "complete")
            && not (coverage.level == codes "not-applicable"))
          ≡ false)
unfolding scan_status
complete_status unknowns errors limitations coverage h =
    let tests = not_incomplete _ h in
    let (tests, full) = or-split _ _ tests in
    let (tests, included) = or-split _ _ tests in
    let (tests, limited) = or-split _ _ tests in
    let (known, sound) = or-split _ _ tests in
    (no_items unknowns known, no_items errors sound, no_items limitations limited, included, full)

apart : Status.incomplete ≢ Status.complete
apart h = cc

explain_status-complete :
    (r : Report)
    → (explain_status r).status ≡ Status.complete
    → (r.status ≡ Status.complete) × (explain_status r ≡ r)
unfolding explain_status
explain_status-complete r h =
    elim (Bool-cases (
      r.status == Status.incomplete
      && is_empty r.unknowns
      && is_empty r.limitations
      && is_empty r.errors)) [
        | inl e ↦
            let (first, _) = and-split _ _ e in
            let (first, _) = and-split _ _ first in
            let (first, _) = and-split _ _ first in
            let incomplete = ==→≡ r.status Status.incomplete first in
            absurd (apart (sym incomplete ∙ rw (e, explain_status) at h))
        | inr e ↦ (rw (e, explain_status) at h, rw (e, explain_status) refl)
      ]

-- A report that is assembled with the status "complete" has no unknowns, limitations or errors, and
-- every file of the scan is a regular file of a kind with semantic analysis that was inspected, is
-- no native binary, and is written in a language that has an analyzer.
pub assemble-IsComplete :
    (invocation : Invocation) (scan : Scan) (sources : Analysis)
    → (assemble invocation scan sources).0.status ≡ Status.complete
    → ((assemble invocation scan sources).0.unknowns ≡ [])
      × ((assemble invocation scan sources).0.limitations ≡ [])
      × ((assemble invocation scan sources).0.errors ≡ [])
      × All (IsCovered scan.contents [] []) scan.files
unfolding assemble failed_paths limited_paths
assemble-IsComplete invocation scan sources h =
    let analysis = analyze_inventory scan.files scan.contents sources in
    let limitations = scan.scan_limitations ++ analysis.limitations in
    let (complete, same) = explain_status-complete _ h in
    let (known, sound, free, included, full) =
      complete_status analysis.unknowns scan.scan_errors limitations
        (assign_coverage_dispositions scan.files scan.contents limitations scan.scan_errors).1
        complete in
    (
      ap (λ r. r.unknowns) same ∙ known,
      ap (λ r. r.limitations) same ∙ free,
      ap (λ r. r.errors) same ∙ sound,
      subst₂ (λ l e. All (IsCovered scan.contents (limited_paths l) (failed_paths e)) scan.files)
          free sound (finished scan.files scan.contents limitations scan.scan_errors included full),
    )
