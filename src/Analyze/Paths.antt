-- ===== src/Analyze/Paths.antt =====
-- What internal/analyze/scope.go reads off a path: `toolingPath` and `isGitMetadataPath`, with
-- `filepath.Base` and `filepath.Ext` of Go. On the systems of the program `filepath.Clean` is
-- `path.Clean`, and `filepath.ToSlash` changes nothing. Letters are ASCII where their case is changed.
use plug_and_prejudice.Prelude.{
  Bool, List, Text, Text-eq, [], any, codes, contains, eqb, false, has_prefix, if◌then◌else◌, map,
  refl, text_eq, to_lower, true, ◌++◌, ◌==◌, ◌||◌, ◌∷◌, ◌≡◌,
}
use plug_and_prejudice.Report.Validate.Paths.{clean, dot, segments}

-- The last of the segments, without the empty ones behind it.
abbrev last_segment : Text → List Text → Text
last_segment found [] = found
last_segment found (s ∷ ss) = last_segment (if s == [] then found else s) ss

unfoldable pub path_base : Text → Text
unfolding segments
path_base [] = dot
path_base (c ∷ s) =
    let found = last_segment [] (segments (c ∷ s)) in if found == [] then b'/' ∷ [] else found

-- The text from its last dot on.
unfoldable pub from_last_dot : Text → Text
from_last_dot [] = []
from_last_dot (c ∷ s) =
    let rest = from_last_dot s in if rest == [] then if eqb c b'.' then c ∷ s else [] else rest

-- The last segment, though it is empty.
abbrev final_segment : Text → List Text → Text
final_segment found [] = found
final_segment found (s ∷ ss) = final_segment s ss

unfoldable pub path_extension : Text → Text
unfolding segments from_last_dot
path_extension name = from_last_dot (final_segment [] (segments name))

abbrev pub tooling_segments : List Text
tooling_segments =
    map codes ("/.github/" ∷ "/test/" ∷ "/tests/" ∷ "/testdata/" ∷ "/docs/" ∷ "/examples/" ∷ [])

abbrev pub tooling_markers : List Text
tooling_markers =
    map codes ("build" ∷ "release" ∷ "package" ∷ "validate" ∷ "lint" ∷ "test" ∷ "check" ∷ [])

unfoldable pub tooling_path : Text → Bool
unfolding path_base clean
tooling_path name =
    any (contains (b'/' ∷ to_lower (clean name) ++ b'/' ∷ [])) tooling_segments
    || any (contains (to_lower (path_base name))) tooling_markers

unfoldable pub is_git_metadata_path : Text → Bool
unfolding clean
is_git_metadata_path name =
    let cleaned = clean name in cleaned == codes ".git" || has_prefix cleaned (codes ".git/")

abbrev pub is_qml : Text → Bool
is_qml name = to_lower (path_extension name) == codes ".qml"

base_test : path_base (codes "a/b.sh//") ≡ codes "b.sh"
unfolding path_base text_eq
base_test = refl

extension_test : path_extension (codes "a.d/b.tar.gz") ≡ codes ".gz"
unfolding path_extension text_eq
extension_test = refl

no_extension_test : path_extension (codes "a.d/b") ≡ []
unfolding path_extension text_eq
no_extension_test = refl

tooling_test : tooling_path (codes "./Tests/run") ≡ true
unfolding tooling_path contains to_lower text_eq
tooling_test = refl

runtime_test : tooling_path (codes "panel/Clock.qml") ≡ false
unfolding tooling_path contains to_lower text_eq
runtime_test = refl
