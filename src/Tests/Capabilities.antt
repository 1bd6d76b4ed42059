-- ===== src/Tests/Capabilities.antt =====
-- The capabilities of small commands, with URLs that are never parsed.
use plug_and_prejudice.Analyze.Capabilities.{
  Url, add_destructive_finding, network_command, persistence_path, sensitive_path,
}
use plug_and_prejudice.Analyze.Capabilities.Derive.{command_kind, derive_capabilities}
use plug_and_prejudice.Analyze.Capabilities.Distinct.{IsResolved, derive_capabilities-IsResolved}
use plug_and_prejudice.Analyze.Paths.{path_base}
use plug_and_prejudice.Analyze.Scope.{Analysis}
use plug_and_prejudice.Prelude.{
  List, Option, Text, [], codes, contains, has_prefix, less, map, none, refl, text_eq, to_lower,
  ◌∷◌, ◌≡◌,
}
use plug_and_prejudice.Prelude.Sort.{sort}
use plug_and_prejudice.Report.Kinds.{Severity}
use plug_and_prejudice.Report.Records.{Operation}
use plug_and_prejudice.Sandbox.Run.{arguments}
use plug_and_prejudice.Tests.Sample.{sample_operation}

abbrev no_url : Text → Option Url
no_url value = none

abbrev command_of : Text → List Text → Operation
command_of name arguments = record sample_operation { command = name; arguments = arguments }

abbrev analysis_of : Operation → Analysis
analysis_of o = record {
  manifest = none;
  operations = o ∷ [];
  resources = [];
  findings = [];
  unknowns = [];
  limitations = [];
}

abbrev removal : Analysis
removal = analysis_of (command_of (codes "/bin/rm") (codes "-rf" ∷ codes "~/.ssh" ∷ codes "/" ∷ []))

derive_capabilities-IsResolved_example :
    IsResolved
      (codes "op-1" ∷ [])
      (derive_capabilities no_url removal).resources
      (derive_capabilities no_url removal).findings
derive_capabilities-IsResolved_example = derive_capabilities-IsResolved no_url removal refl tt

severities_test :
    map (λ f. f.severity) (derive_capabilities no_url removal).findings
    ≡ Severity.high ∷ Severity.critical ∷ []
unfolding derive_capabilities command_kind text_eq path_base has_prefix add_destructive_finding
    persistence_path contains to_lower sensitive_path network_command
severities_test = refl

-- Two paths that differ only in separators give two resources with one ID.
same_ids_test :
    map
      (λ r. r.id)
      (derive_capabilities no_url
        (analysis_of (command_of (codes "cat") (codes "./a.b" ∷ codes "./a/b" ∷ [])))).resources
    ≡ codes "resource-op-1-filesystem-path-read---a-b"
      ∷ codes "resource-op-1-filesystem-path-read---a-b"
      ∷ []
unfolding derive_capabilities sort command_kind text_eq path_base has_prefix sensitive_path contains
    to_lower network_command less
same_ids_test = refl

-- A path that stands twice gives two findings with one ID.
same_findings_test :
    map
      (λ f. f.id)
      (derive_capabilities no_url (
        analysis_of
          (command_of (codes "touch") (codes "~/.bashrc" ∷ codes "~/.bashrc" ∷ [])))).findings
    ≡ codes "finding-persistence-op-1-~--bashrc" ∷ codes "finding-persistence-op-1-~--bashrc" ∷ []
unfolding derive_capabilities command_kind text_eq path_base has_prefix persistence_path contains
    to_lower sensitive_path network_command
same_findings_test = refl
