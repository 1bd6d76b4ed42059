-- ===== src/Analyze/Coverage/Laws.antt =====
-- What the dispositions of the files say, and that the summary of a report accepts them.
use plug_and_prejudice.Analyze.Coverage.{
  assign_coverage_dispositions, assign_one, content_of, coverage_counts, coverage_from_files,
  coverage_relevant, disposition, failed_paths, limited_paths,
}
use plug_and_prejudice.Analyze.Languages.{unsupported_language}
use plug_and_prejudice.Analyze.References.{Contents, has}
use plug_and_prejudice.Prelude.{
  ==→≡, Bool, List, Option, Text, Text-eq, [], ap, arith, codes, false, if◌then◌else◌, is_some,
  length, length-map, map, negated_false, none, not, ok, or-split, pass, refl, some, subst, suc,
  sym, true, ℕ, ≡→==, ◌+◌, ◌==◌, ◌∙◌, ◌∷◌, ◌≡◌, ◌≤◌,
}
use plug_and_prejudice.Report.Digest.{inventory_root_digest}
use plug_and_prejudice.Report.Digest.Order.{KeepsRetained, inventory_root_digest-map}
use plug_and_prejudice.Report.Digest.Stream.{retained}
use plug_and_prejudice.Report.Document.{CoverageSummary, Report}
use plug_and_prejudice.Report.Kinds.{AnalysisDisposition}
use plug_and_prejudice.Report.Limits.{max_inventory_entries}
use plug_and_prejudice.Report.Records.{File, Limitation, ScanError}
use plug_and_prejudice.Report.Review.Coverage.{
  Tally, coverage_from_inventory, new_coverage_summary, no_units, tally, tally_one,
  validate_coverage_summary,
}
use plug_and_prejudice.Report.Review.Coverage.Exact.{validate-new_coverage_summary}
use plug_and_prejudice.Report.Review.Derive.{build_review_summary, derive_review_summary}
use plug_and_prejudice.Report.Review.Summary.{CoverageSummary-eq}

-- The tests of the loop have all failed where it reaches its last branch.
abbrev chosen : Bool → Bool → Bool → Bool → Text → Text → Text → Text → AnalysisDisposition × Text
chosen a b c d r s u v =
    if a
    then (AnalysisDisposition.not_applicable, r)
    else if b
    then (AnalysisDisposition.unanalyzed, s)
    else if c
    then (AnalysisDisposition.unanalyzed, u)
    else if d
    then (AnalysisDisposition.partial, v)
    else (AnalysisDisposition.analyzed, [])

last_branch :
    (a b c d : Bool) (r s u v : Text)
    → (chosen a b c d r s u v).0 ≡ AnalysisDisposition.analyzed
    → (a ≡ false) × (b ≡ false) × (c ≡ false) × (d ≡ false)
last_branch true b c d r s u v h = cc
last_branch false true c d r s u v h = cc
last_branch false false true d r s u v h = cc
last_branch false false false true r s u v h = cc
last_branch false false false false r s u v h = (refl, refl, refl, refl)

no_value : {A : Type 0} (o : Option A) → is_some o ≡ false → o ≡ none
no_value none h = refl
no_value (some a) h = cc

module _ (contents : Contents) (limited failed : List Text) where
  -- What makes a file count as analyzed.
  abbrev pub IsCovered : File → Type 0
  IsCovered file =
      (file.kind ≡ codes "regular")
      × (coverage_relevant file (content_of contents file.path) ≡ true)
      × (file.inspected ≡ true)
      × (has file.path failed ≡ false)
      × (has file.path limited ≡ false)
      × (file.binary ≡ none)
      × (unsupported_language file.path (content_of contents file.path) ≡ [])

  pub disposition-IsCovered :
      (file : File)
      → (disposition contents limited failed file).0 ≡ AnalysisDisposition.analyzed
      → IsCovered file
  unfolding disposition
  disposition-IsCovered file h =
      let text = content_of contents file.path in
      let (relevant, retained, supported, resolved) = last_branch _ _ _ _ _ _ _ _ h in
      let (regular, semantic) = or-split (not (file.kind == codes "regular")) _ relevant in
      let (sound, inspected) = or-split (has file.path failed) _ retained in
      let (native, free) = or-split (is_some file.binary) _ resolved in
      (
        ==→≡ file.kind (codes "regular") (negated_false _ regular),
        negated_false _ semantic,
        negated_false _ inspected,
        sound,
        free,
        no_value file.binary native,
        ==→≡ (unsupported_language file.path text) [] (negated_false _ supported),
      )

  pub assign_one-KeepsRetained : KeepsRetained (assign_one contents limited failed)
  assign_one-KeepsRetained = record {
    path = λ x. refl;
    kind = λ x. refl;
    mode = λ x. refl;
    size = λ x. refl;
    sha256 = λ x. refl;
    link_target = λ x. refl;
    skip_reason = λ x. refl;
  }

-- Both packages count the same.
coverage_counts-tally : (files : List File) (t : Tally) → coverage_counts files t ≡ tally files t
unfolding coverage_counts tally
coverage_counts-tally [] t = refl
coverage_counts-tally (file ∷ files) t = coverage_counts-tally files (tally_one file.analysis t)

pub coverage_from_files-inventory :
    (files : List File) → coverage_from_files files ≡ coverage_from_inventory files
unfolding coverage_from_files coverage_from_inventory
coverage_from_files-inventory files = rw (coverage_counts-tally files no_units) refl

abbrev pub units : Tally → ℕ
units t = t.analyzed + t.partial + t.unanalyzed + t.excluded

tally_one-units : (d : AnalysisDisposition) (t : Tally) → units (tally_one d t) ≤ suc (units t)
tally_one-units AnalysisDisposition.analyzed t = omega arith
tally_one-units AnalysisDisposition.partial t = omega arith
tally_one-units AnalysisDisposition.unanalyzed t = omega arith
tally_one-units AnalysisDisposition.not_applicable t = omega arith
tally_one-units (AnalysisDisposition.other s) t = omega arith

tally-units : (files : List File) (t : Tally) → units (tally files t) ≤ units t + length files
unfolding tally
tally-units [] t = omega arith
tally-units (file ∷ files) t =
    omega (arith, tally-units files (tally_one file.analysis t), tally_one-units file.analysis t)

valid_counts :
    (t : Tally)
    → units t ≤ max_inventory_entries
    → validate_coverage_summary
        (new_coverage_summary t.analyzed t.partial t.unanalyzed (t.excluded ∷ []))
      ≡ pass
valid_counts t h = validate-new_coverage_summary t.analyzed t.partial t.unanalyzed t.excluded h

build_accepts :
    (coverage : CoverageSummary) (r : Report)
    → validate_coverage_summary coverage ≡ pass
    → (coverage == coverage_from_inventory r.inventory) ≡ true
    → (s : Report) × (build_review_summary coverage r ≡ ok s)
unfolding build_review_summary
build_accepts coverage r valid same =
    (record r { review = some (derive_review_summary r coverage) }, rw (valid, same) refl)

-- The dispositions leave the root digest as it was, and `BuildReviewSummary` accepts the coverage
-- that comes with them for any report on these files that is within the inventory limit.
pub assign_coverage_dispositions-build :
    (sha256 : Text → Text) (files : List File) (contents : Contents) (limitations : List Limitation)
    (errors : List ScanError) (r : Report)
    → length files ≤ max_inventory_entries
    → r.inventory ≡ (assign_coverage_dispositions files contents limitations errors).0
    → (inventory_root_digest sha256 r.inventory ≡ inventory_root_digest sha256 files)
      × ((s : Report) × (build_review_summary
              (assign_coverage_dispositions files contents limitations errors).1
              r
            ≡ ok s))
unfolding assign_coverage_dispositions coverage_from_inventory
assign_coverage_dispositions-build sha256 files contents limitations errors r few same =
    let step = assign_one contents (limited_paths limitations) (failed_paths errors) in
    let counted = tally (map step files) no_units in
    let keeps =
      assign_one-KeepsRetained contents (limited_paths limitations) (failed_paths errors) in
    let agrees = coverage_from_files-inventory (map step files) in
    let valid : validate_coverage_summary (coverage_from_inventory (map step files)) ≡ pass =
      valid_counts counted
        (omega (arith, tally-units (map step files) no_units, length-map step files, few)) in
    (
      ap (inventory_root_digest sha256) same ∙ inventory_root_digest-map step keeps sha256 files,
      build_accepts _ r (subst (λ c. validate_coverage_summary c ≡ pass) (sym agrees) valid)
          (≡→== (agrees ∙ ap coverage_from_inventory (sym same))),
    )
