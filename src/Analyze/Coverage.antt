-- ===== src/Analyze/Coverage.antt =====
-- `AssignCoverageDispositions` and `addLanguageCoverageLimitations` of internal/analyze/coverage.go,
-- and `Inventory` of internal/analyze/binary.go. A key that is missing in a map of contents has the
-- empty contents, as in Go.
pub mod Laws
use plug_and_prejudice.Analyze.Languages.{
  coverage_description, is_inert_git_metadata, is_shell, unsupported_language,
}
use plug_and_prejudice.Analyze.Paths.{is_qml, tooling_path}
use plug_and_prejudice.Analyze.References.{Contents, has, runtime_referenced_paths}
use plug_and_prejudice.Analyze.Scope.{Analysis, scope_for_path}
use plug_and_prejudice.Prelude.{
  Bool, List, Text, Text-eq, [], codes, if◌then◌else◌, is_some, less, map, not, true, ◌++◌, ◌==◌,
  ◌||◌, ◌∷◌,
}
use plug_and_prejudice.Prelude.Assoc.{lookup_or_empty}
use plug_and_prejudice.Prelude.Sort.{sort}
use plug_and_prejudice.Report.Document.{CoverageSummary}
use plug_and_prejudice.Report.Kinds.{AnalysisDisposition}
use plug_and_prejudice.Report.Records.{File, Limitation, ScanError}
use plug_and_prejudice.Report.Review.Coverage.{Tally, new_coverage_summary, no_units, tally_one}

abbrev pub content_of : Contents → Text → Text
content_of contents name = lookup_or_empty name contents

unfoldable pub coverage_relevant : File → Text → Bool
coverage_relevant file text =
    if file.path == codes "manifest.json"
      || is_some file.binary
      || file.content_type == codes "application/x-elf"
      || is_qml file.path
    then true
    else is_shell file.path text || not (unsupported_language file.path text == [])

-- The keys of `limited` and of `failed`.
unfoldable pub limited_paths : List Limitation → List Text
limited_paths [] = []
limited_paths (l ∷ limitations) =
    let rest = limited_paths limitations in if l.path == [] then rest else l.path ∷ rest

unfoldable pub failed_paths : List ScanError → List Text
failed_paths [] = []
failed_paths (e ∷ errors) =
    let rest = failed_paths errors in if e.path == [] then rest else e.path ∷ rest

-- The disposition of a file with its reason.
unfoldable pub disposition : Contents → List Text → List Text → File → AnalysisDisposition × Text
disposition contents limited failed file =
    let text = content_of contents file.path in
    if not (file.kind == codes "regular") || not (coverage_relevant file text)
    then (
      AnalysisDisposition.not_applicable,
      codes "not a retained artifact class with semantic behavior analysis",
    )
    else if has file.path failed || not file.inspected
    then (AnalysisDisposition.unanalyzed, codes "content was not retained for analysis")
    else if not (unsupported_language file.path text == [])
    then (
      AnalysisDisposition.unanalyzed,
      codes "the retained source language has no semantic analyzer in this stack",
    )
    else if is_some file.binary || has file.path limited
    then (
      AnalysisDisposition.partial,
      codes "retained metadata or an explicit limitation leaves behavior unresolved",
    )
    else (AnalysisDisposition.analyzed, [])

abbrev pub assign_one : Contents → List Text → List Text → File → File
assign_one contents limited failed file =
    let (analysis, reason) = disposition contents limited failed file in
    record file { analysis = analysis; analysis_reason = reason }

unfoldable pub coverage_counts : List File → Tally → Tally
coverage_counts [] t = t
coverage_counts (file ∷ files) t = coverage_counts files (tally_one file.analysis t)

unfoldable pub coverage_from_files : List File → CoverageSummary
unfolding coverage_counts
coverage_from_files files =
    let t = coverage_counts files no_units in
    new_coverage_summary t.analyzed t.partial t.unanalyzed (t.excluded ∷ [])

unfoldable pub assign_coverage_dispositions :
    List File → Contents → List Limitation → List ScanError → List File × CoverageSummary
unfolding disposition coverage_from_files
assign_coverage_dispositions files contents limitations scan_errors =
    let result =
      map (assign_one contents (limited_paths limitations) (failed_paths scan_errors)) files in
    (result, coverage_from_files result)

unfoldable pub language_limitations : Contents → List Text → List (Text × Text) → List Limitation
language_limitations contents references [] = []
language_limitations contents references ((name, text) ∷ files) =
    let rest = language_limitations contents references files in
    let language = unsupported_language name text in
    if tooling_path name || is_inert_git_metadata name || language == []
    then rest
    else record {
      code = language ++ codes "-semantic-analysis-unavailable";
      description = coverage_description language;
      path = name;
      scope = scope_for_path name references;
    }
      ∷ rest

abbrev pub by_name : Text × Text → Text × Text → Bool
by_name a b = less a.0 b.0

unfoldable pub add_language_coverage_limitations : Contents → Analysis → Analysis
unfolding language_limitations
add_language_coverage_limitations contents result =
    let references = runtime_referenced_paths contents [] result.manifest in
    record result {
      limitations =
          result.limitations ++ language_limitations contents references (sort by_name contents);
    }
