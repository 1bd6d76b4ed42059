-- ===== src/Analyze/Manifest.antt =====
-- internal/analyze/manifest.go. Decoding the JSON document and quoting a string in a message (`%q`) are
-- Go's, and parameters. Its limitation on a document that cannot be parsed leaves out the message of
-- the decoder.
pub mod Contract
use plug_and_prejudice.Analyze.Binaries.{source_provenance}
use plug_and_prejudice.Analyze.References.{Contents}
use plug_and_prejudice.Analyze.Scope.{Analysis}
use plug_and_prejudice.Prelude.{
  Bool, List, Option, Text, Text-eq, [], codes, contains, eqb, false, has_prefix, length, less,
  none, not, some, true, ℕ, ◌&&◌, ◌++◌, ◌+◌, ◌==◌, ◌||◌, ◌∷◌,
}
use plug_and_prejudice.Prelude.Assoc.{lookup}
use plug_and_prejudice.Prelude.Encoding.{decimal}
use plug_and_prejudice.Prelude.Int.{eqb_ℤ, pos, ℤ}
use plug_and_prejudice.Prelude.Sort.{sort}
use plug_and_prejudice.Report.Kinds.{ClaimType, Confidence, Scope, Severity}
use plug_and_prejudice.Report.Records.{Finding}
use plug_and_prejudice.Report.Validate.Paths.{clean}
use plug_and_prejudice.Report.Validate.Provenance.{operation}
use plug_and_prejudice.Sandbox.Names.{matches_pattern}

pub record ManifestDocument : Type 0 where
  pub document_schema : ℤ
  pub document_id : Text
  pub document_name : Text
  pub document_version : Text
  pub document_description : Text
  pub document_kinds : List Text
  pub document_entries : List (Text × Text)

unfoldable pub safe_entry_point : Text → Bool
safe_entry_point value =
    not (value == [])
    && not (has_prefix value (codes "/"))
    && not (contains value (codes ".."))
    && clean value == value

abbrev pub required_entries : List (Text × Text)
required_entries =
    (codes "bar", codes "bar")
    ∷ (codes "bar-widget", codes "barWidget")
    ∷ (codes "menu", codes "menu")
    ∷ (codes "overlay", codes "overlay")
    ∷ (codes "panel", codes "panel")
    ∷ (codes "service", codes "service")
    ∷ []

abbrev pub problem_if : Bool → Text → List Text
problem_if true problem = problem ∷ []
problem_if false problem = []

-- The pattern of an ID is the one of the broker's plugin IDs.
unfoldable pub bad_manifest_id : Text → Bool
bad_manifest_id id =
    not (matches_pattern id) || contains id (codes "..") || has_prefix id (codes "omarchy.")

module _ (quote : Text → Text) where
  -- The problem with an entry point.
  abbrev pub entry_problems : Text → Bool → Option Text → List Text
  entry_problems entry false found =
      (codes "entry point " ++ quote entry ++ codes " must be a safe relative path without '..'.")
      ∷ []
  entry_problems entry true none =
      (codes "declared entry point " ++ quote entry ++ codes " is absent or was not inspectable.")
      ∷ []
  entry_problems entry true (some text) = []

  abbrev pub declared_problems : Text → Text → Contents → Option Text → List Text
  declared_problems kind key contents none =
      (codes "kind " ++ quote kind ++ codes " requires entryPoints." ++ key ++ codes ".") ∷ []
  declared_problems kind key contents (some entry) =
      entry_problems entry (safe_entry_point entry) (lookup (clean entry) contents)

  abbrev pub kind_problems : Text → List (Text × Text) → Contents → Option Text → List Text
  kind_problems kind entries contents none = []
  kind_problems kind entries contents (some key) =
      declared_problems kind key contents (lookup key entries)

  unfoldable pub kinds_problems : List Text → List (Text × Text) → Contents → List Text
  unfolding safe_entry_point
  kinds_problems [] entries contents = []
  kinds_problems (kind ∷ kinds) entries contents =
      kind_problems kind entries contents (lookup kind required_entries)
      ++ kinds_problems kinds entries contents

  unfoldable pub validate_manifest : ManifestDocument → Contents → List Text
  unfolding bad_manifest_id kinds_problems
  validate_manifest d contents = sort less (
      problem_if (not (eqb_ℤ d.document_schema (pos 1)))
        (codes "schemaVersion must be the JSON number 1.")
      ++ problem_if (bad_manifest_id d.document_id)
          (codes "id is empty, malformed, contains '..', or uses the reserved omarchy.* namespace.")
      ++ problem_if (d.document_name == [] || d.document_version == [])
          (codes "name and version are required non-empty manifest fields.")
      ++ problem_if (eqb (length d.document_kinds) 0) (codes "kinds must be a non-empty array.")
      ++ kinds_problems d.document_kinds d.document_entries contents)

  abbrev pub manifest_finding : Text → Text → Text → Finding
  manifest_finding suffix title explanation = record {
    id = codes "finding-" ++ suffix;
    reference = [];
    claim = ClaimType.fact;
    severity = Severity.medium;
    confidence = Confidence.high;
    category = codes "manifest";
    scope = Scope.other [];
    title = title;
    explanation = explanation;
    evidence =
        record {
          input_id = [];
          path = codes "manifest.json";
          line_start = pos 0;
          line_end = pos 0;
          operation = [];
          excerpt = [];
        }
        ∷ [];
    related = [];
    provenance = source_provenance (codes "manifest/v1");
  }

  -- The findings on the problems, from the number `index` on.
  unfoldable pub problem_findings : ℕ → List Text → List Finding
  problem_findings index [] = []
  problem_findings index (problem ∷ problems) =
      manifest_finding (codes "manifest-contract-" ++ decimal (index + 1))
        (codes "Manifest does not satisfy the Omarchy plugin contract") problem
      ∷ problem_findings (index + 1) problems

  -- `decode` is `json.Unmarshal`.
  unfoldable pub analyze_manifest :
      (Text → Option ManifestDocument) → Contents → Analysis → Analysis
  unfolding validate_manifest problem_findings
  analyze_manifest decode contents result = elim (lookup (codes "manifest.json") contents) [
    | none ↦ record result {
      limitations =
          result.limitations
          ++ record {
            code = codes "missing-manifest";
            description =
                codes
                  "Current Omarchy Shell plugins require manifest.json at the repository root. Its absence cannot be anchored as file evidence, so it is retained as an explicit target-level limitation.";
            path = [];
            scope = Scope.runtime;
          }
            ∷ [];
    }
    | some text ↦ elim (decode text) [
      | none ↦ record result {
        limitations =
            result.limitations
            ++ record {
              code = codes "manifest-parse-error";
              description = [];
              path = codes "manifest.json";
              scope = Scope.other [];
            }
              ∷ [];
        findings =
            result.findings
            ++ manifest_finding (codes "invalid-manifest-json")
                (codes "Plugin manifest is not valid JSON")
                (codes
                  "The declared plugin identity, kinds, and entry points cannot be established because manifest.json could not be parsed.")
              ∷ [];
      }
      | some d ↦ record result {
        manifest = some (record {
          id = d.document_id;
          name = d.document_name;
          version = d.document_version;
          description = d.document_description;
          kinds = d.document_kinds;
          entry_points = d.document_entries;
        });
        findings = result.findings ++ problem_findings 0 (validate_manifest d contents);
      }
    ]
  ]
