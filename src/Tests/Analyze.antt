-- ===== src/Tests/Analyze.antt =====
-- The analysis and the scanner at a small plugin.
use plug_and_prejudice.Analyze.Binaries.{add_binaries, analyze_inventory}
use plug_and_prejudice.Analyze.Coverage.{
  assign_coverage_dispositions, coverage_from_files, coverage_relevant, disposition, failed_paths,
  limited_paths,
}
use plug_and_prejudice.Analyze.Coverage.Laws.{IsCovered, assign_coverage_dispositions-build}
use plug_and_prejudice.Analyze.Languages.{is_shell, unsupported_language}
use plug_and_prejudice.Analyze.Paths.{is_git_metadata_path, path_extension, tooling_path}
use plug_and_prejudice.Analyze.References.{
  Contents, add, candidate_contents, candidate_files, candidates_of, entry_references, has, marks,
  paths_within, qml_references, runtime_referenced_paths,
}
use plug_and_prejudice.Analyze.References.Closure.{IsReferenced}
use plug_and_prejudice.Analyze.References.Exact.{runtime_referenced_paths-IsReferenced}
use plug_and_prejudice.Analyze.Scope.{Analysis, annotate_scopes, related_scope}
use plug_and_prejudice.Analyze.Scope.Related.{AreOne, related_scope_iff}
use plug_and_prejudice.Prelude.{
  All, In, List, Text, [], arith, codes, contains, has_prefix, length, none, ok, refl, some,
  text_eq, to_lower, true, ◌↔◌, ◌∷◌, ◌≡◌, ◌≢◌,
}
use plug_and_prejudice.Prelude.Assoc.{lookup, lookup_or_empty}
use plug_and_prejudice.Prelude.Int.{pos}
use plug_and_prejudice.Prelude.Sort.{sort}
use plug_and_prejudice.Report.Digest.{inventory_root_digest}
use plug_and_prejudice.Report.Document.{Report}
use plug_and_prejudice.Report.Kinds.{Scope, Scope-discrete, Status, Status-discrete}
use plug_and_prejudice.Report.Review.Coverage.{new_coverage_summary}
use plug_and_prejudice.Report.Review.Derive.{build_review_summary}
use plug_and_prejudice.Scanner.{Invocation, Scan, assemble, explain_status, scan_status}
use plug_and_prejudice.Scanner.Complete.{assemble-IsComplete}
use plug_and_prejudice.Tests.Sample.{
  sample_digest, sample_file, sample_finding, sample_operation, sample_report, sample_resource,
}

abbrev clock_contents : Contents
clock_contents =
    (codes "Clock.qml", codes "run tick.sh")
    ∷ (codes "tick.sh", codes "source lib/time.sh")
    ∷ (codes "lib/time.sh", codes "date")
    ∷ (codes "lib/other.sh", codes "true")
    ∷ []

references_test :
    runtime_referenced_paths clock_contents [] none
    ≡ codes "Clock.qml" ∷ codes "tick.sh" ∷ codes "lib/time.sh" ∷ []
unfolding runtime_referenced_paths qml_references text_eq to_lower path_extension tooling_path
    contains candidate_files candidate_contents is_git_metadata_path has marks entry_references
    lookup
references_test = refl

candidates_test : length (candidates_of clock_contents []) ≡ 4
unfolding candidate_files candidate_contents is_git_metadata_path has text_eq has_prefix add
candidates_test = refl

-- The loop needs a pass that adds a path and a pass that adds none.
one_pass_test : paths_within 1 clock_contents [] none ≡ none
unfolding paths_within qml_references text_eq to_lower path_extension tooling_path contains
    candidate_files candidate_contents is_git_metadata_path has marks entry_references lookup
one_pass_test = refl

runtime_referenced_paths-IsReferenced_example :
    (paths_within 5 clock_contents [] none ≡ some (runtime_referenced_paths clock_contents [] none))
    × ((path : Text)
        → In path (runtime_referenced_paths clock_contents [] none)
          ↔ IsReferenced clock_contents (candidates_of clock_contents []) [] path)
runtime_referenced_paths-IsReferenced_example =
    runtime_referenced_paths-IsReferenced 5 clock_contents [] none (omega (arith, candidates_test))

abbrev two_scopes : List (Text × Scope)
two_scopes = (codes "op-1", Scope.runtime) ∷ (codes "op-2", Scope.tooling) ∷ []

related_scope_iff_example :
    (related_scope (codes "op-1" ∷ []) two_scopes ≡ Scope.runtime)
    ↔ ((Scope.runtime ≢ Scope.other []) × AreOne Scope.runtime two_scopes (codes "op-1" ∷ []))
related_scope_iff_example = related_scope_iff (codes "op-1" ∷ []) two_scopes Scope.runtime λ h. cc

-- A scope that is the empty text counts only behind a scope that is not.
abbrev unset_scopes : List (Text × Scope)
unset_scopes = (codes "op-0", Scope.other []) ∷ two_scopes

unset_first_test : related_scope (codes "op-0" ∷ codes "op-1" ∷ []) unset_scopes ≡ Scope.runtime
unfolding related_scope lookup text_eq Scope-discrete
unset_first_test = refl

unset_last_test : related_scope (codes "op-1" ∷ codes "op-0" ∷ []) unset_scopes ≡ Scope.unknown
unfolding related_scope lookup text_eq Scope-discrete
unset_last_test = refl

unset_test : related_scope (codes "op-0" ∷ []) unset_scopes ≡ Scope.unknown
unfolding related_scope lookup text_eq Scope-discrete
unset_test = refl

mixed_test : related_scope (codes "op-1" ∷ codes "op-2" ∷ []) two_scopes ≡ Scope.unknown
unfolding related_scope lookup text_eq Scope-discrete
mixed_test = refl

abbrev sample_contents : Contents
sample_contents = (codes "install.sh", codes "rm -r cache") ∷ []

abbrev covered_report : Report
covered_report = record sample_report {
  inventory = (assign_coverage_dispositions (sample_file ∷ []) sample_contents [] []).0;
}

assign_coverage_dispositions-build_example :
    (inventory_root_digest sample_digest covered_report.inventory
      ≡ inventory_root_digest sample_digest (sample_file ∷ []))
    × ((s : Report) × (build_review_summary
            (assign_coverage_dispositions (sample_file ∷ []) sample_contents [] []).1
            covered_report
          ≡ ok s))
assign_coverage_dispositions-build_example =
    assign_coverage_dispositions-build sample_digest (sample_file ∷ []) sample_contents [] []
      covered_report (omega arith) refl

abbrev sample_invocation : Invocation
sample_invocation = record {
  target = codes "/target";
  display_name = codes "clock";
  sandboxed = true;
  resource_limited = true;
  started = 1;
  completed = 2;
}

abbrev sample_scan : Scan
sample_scan = record {
  files = sample_file ∷ [];
  contents = sample_contents;
  scan_limitations = [];
  scan_errors = [];
  scan_digest = codes "00";
  scan_read_bytes = pos 11;
  scan_binary_bytes = pos 0;
}

abbrev sample_analysis : Analysis
sample_analysis = record {
  manifest = none;
  operations = sample_operation ∷ [];
  resources = sample_resource ∷ [];
  findings = sample_finding ∷ [];
  unknowns = [];
  limitations = [];
}

complete_test : (assemble sample_invocation sample_scan sample_analysis).0.status ≡ Status.complete
unfolding assemble analyze_inventory annotate_scopes add_binaries sort assign_coverage_dispositions
    disposition coverage_relevant is_shell path_extension to_lower text_eq unsupported_language
    has_prefix lookup lookup_or_empty has limited_paths failed_paths coverage_from_files
    new_coverage_summary Status-discrete explain_status scan_status
complete_test = refl

assemble-IsComplete_example :
    ((assemble sample_invocation sample_scan sample_analysis).0.unknowns ≡ [])
    × ((assemble sample_invocation sample_scan sample_analysis).0.limitations ≡ [])
    × ((assemble sample_invocation sample_scan sample_analysis).0.errors ≡ [])
    × All (IsCovered sample_contents [] []) (sample_file ∷ [])
assemble-IsComplete_example =
    assemble-IsComplete sample_invocation sample_scan sample_analysis complete_test
