-- ===== src/Tests/Manifest.antt =====
-- A manifest that satisfies the contract, and one whose entry point is missing.
use plug_and_prejudice.Analyze.Manifest.{ManifestDocument, validate_manifest}
use plug_and_prejudice.Analyze.Manifest.Contract.{IsContract, validate_manifest-IsContract}
use plug_and_prejudice.Analyze.References.{Contents}
use plug_and_prejudice.Prelude.{Text, [], codes, contains, refl, text_eq, ◌∷◌, ◌≡◌}
use plug_and_prejudice.Prelude.Assoc.{lookup}
use plug_and_prejudice.Prelude.Int.{pos}
use plug_and_prejudice.Prelude.Sort.{sort}
use plug_and_prejudice.Report.Validate.Paths.{clean}
use plug_and_prejudice.Sandbox.Names.{matches_pattern}

abbrev clock_manifest : ManifestDocument
clock_manifest = record {
  document_schema = pos 1;
  document_id = codes "clock";
  document_name = codes "Clock";
  document_version = codes "1.0";
  document_description = [];
  document_kinds = codes "panel" ∷ codes "theme" ∷ [];
  document_entries = (codes "panel", codes "Clock.qml") ∷ [];
}

abbrev manifest_contents : Contents
manifest_contents = (codes "Clock.qml", codes "Item {}") ∷ []

abbrev same_text : Text → Text
same_text s = s

no_problems_test : validate_manifest same_text clock_manifest manifest_contents ≡ []
unfolding validate_manifest sort matches_pattern contains text_eq lookup clean
no_problems_test = refl

validate_manifest-IsContract_example : IsContract clock_manifest manifest_contents
validate_manifest-IsContract_example =
    validate_manifest-IsContract same_text clock_manifest manifest_contents no_problems_test

missing_test :
    validate_manifest same_text clock_manifest []
    ≡ codes "declared entry point Clock.qml is absent or was not inspectable." ∷ []
unfolding validate_manifest sort matches_pattern contains text_eq lookup clean
missing_test = refl
