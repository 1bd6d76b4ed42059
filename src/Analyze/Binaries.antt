-- ===== src/Analyze/Binaries.antt =====
-- internal/analyze/provenance.go and `Inventory` of internal/analyze/binary.go.
use plug_and_prejudice.Analyze.Languages.{stable_path_id}
use plug_and_prejudice.Analyze.References.{Contents}
use plug_and_prejudice.Analyze.Scope.{Analysis, annotate_scopes}
use plug_and_prejudice.Prelude.{List, Text, [], codes, none, some, ◌++◌, ◌∷◌}
use plug_and_prejudice.Prelude.Int.{pos}
use plug_and_prejudice.Prelude.Sort.{sort}
use plug_and_prejudice.Report.Digest.{path_less}
use plug_and_prejudice.Report.Kinds.{Confidence, EvidenceSource, Scope, UnknownReason}
use plug_and_prejudice.Report.Records.{Binary, File, Limitation, Provenance, Unknown}

abbrev pub source_provenance : Text → Provenance
source_provenance rule = record {
  rule_id = rule;
  analyzer = codes "plug-prejudice/deterministic";
  analyzer_version = codes "development";
  evidence_source = EvidenceSource.target_source;
}

abbrev pub inventory_provenance : Text → Provenance
inventory_provenance rule = record (source_provenance rule) {
  evidence_source = EvidenceSource.inventory_metadata;
}

unfoldable pub binary_unknown : File → Binary → Unknown
unfolding stable_path_id
binary_unknown file binary = record {
  id = codes "unknown-native-binary-" ++ stable_path_id file.path;
  reference = [];
  category = codes "native-binary";
  reason = UnknownReason.native_behavior;
  scope = Scope.unknown;
  confidence = Confidence.high;
  title = codes "Bundled native executable behavior is not established";
  description =
      codes "This "
      ++ binary.class
      ++ codes " "
      ++ binary.machine
      ++ codes
          " ELF file is identified and hashed, but headers and imported libraries cannot establish what it will do when run. Manual source-to-binary provenance or deeper independent analysis is required.";
  evidence =
      record {
        input_id = [];
        path = file.path;
        line_start = pos 0;
        line_end = pos 0;
        operation = codes "sha256:" ++ file.sha256;
        excerpt = [];
      }
      ∷ [];
  origins = [];
  affected_operations = [];
  suppressed_rules = [];
  provenance = source_provenance (codes "elf-metadata/v1");
}

abbrev pub binary_limitation : File → Limitation
binary_limitation file = record {
  code = codes "native-binary-behavior";
  description =
      codes
        "ELF metadata was inspected, but executable behavior and source provenance remain unknown.";
  path = file.path;
  scope = Scope.other [];
}

unfoldable pub add_binaries : List File → Analysis → Analysis
unfolding binary_unknown
add_binaries [] result = result
add_binaries (file ∷ files) result = elim file.binary [
  | none ↦ add_binaries files result
  | some binary ↦ add_binaries files (record result {
    unknowns = result.unknowns ++ binary_unknown file binary ∷ [];
    limitations = result.limitations ++ binary_limitation file ∷ [];
  })
]

unfoldable pub analyze_inventory : List File → Contents → Analysis → Analysis
unfolding add_binaries
analyze_inventory files contents result =
    annotate_scopes contents files (add_binaries (sort path_less files) result)
