-- ===== src/Analyze/Languages.antt =====
-- What a file is written in: `unsupportedLanguage` and `coverageDescription` of
-- internal/analyze/coverage.go, and `isShell`, `isInertGitMetadata` and `stablePathID` of
-- internal/analyze/shell.go.
use plug_and_prejudice.Analyze.Paths.{path_extension}
use plug_and_prejudice.Prelude.{
  Bool, List, Text, Text-eq, [], codes, contains, eqb, has_prefix, if◌then◌else◌, leb, map, none,
  not, refl, some, text_eq, to_lower, true, ℕ, ◌&&◌, ◌++◌, ◌-◌, ◌==◌, ◌||◌, ◌∷◌, ◌≡◌,
}
use plug_and_prejudice.Prelude.Assoc.{lookup}

unfoldable pub has_suffix : Text → Text → Bool
has_suffix [] p = p == []
has_suffix (c ∷ s) p = (c ∷ s) == p || has_suffix s p

unfoldable pub first_line : Text → Text
first_line [] = []
first_line (c ∷ s) = if eqb c b'\n' then [] else c ∷ first_line s

-- Extensions with the language that they stand for.
abbrev pub language_extensions : List (Text × Text)
language_extensions =
    (codes ".py", codes "python")
    ∷ (codes ".pyw", codes "python")
    ∷ (codes ".js", codes "javascript")
    ∷ (codes ".mjs", codes "javascript")
    ∷ (codes ".cjs", codes "javascript")
    ∷ (codes ".jsx", codes "javascript")
    ∷ (codes ".ts", codes "typescript")
    ∷ (codes ".mts", codes "typescript")
    ∷ (codes ".cts", codes "typescript")
    ∷ (codes ".tsx", codes "typescript")
    ∷ (codes ".go", codes "go")
    ∷ (codes ".rb", codes "ruby")
    ∷ (codes ".pl", codes "perl")
    ∷ (codes ".pm", codes "perl")
    ∷ (codes ".lua", codes "lua")
    ∷ (codes ".php", codes "php")
    ∷ []

abbrev pub interpreters : List Text
interpreters = map codes ("python" ∷ "node" ∷ "ruby" ∷ "perl" ∷ "lua" ∷ "php" ∷ [])

unfoldable pub shebang_language : Text → List Text → Text
shebang_language lower [] = []
shebang_language lower (candidate ∷ candidates) =
    if contains lower candidate
    then (if candidate == codes "node" then codes "javascript" else candidate)
    else shebang_language lower candidates

unfoldable pub unsupported_language : Text → Text → Text
unfolding shebang_language first_line
unsupported_language name text =
    elim (lookup (to_lower (path_extension name)) language_extensions) [
      | some language ↦ language
      | none ↦
          if not (has_prefix (first_line text) (codes "#!"))
          then []
          else shebang_language (to_lower (first_line text)) interpreters
    ]

-- `strings.ToUpper(language[:1]) + language[1:]`; a language is never empty here.
abbrev pub capitalized : Text → Text
capitalized [] = []
capitalized (c ∷ s) = (if leb b'a' c && leb c b'z' then c - 32 else c) ∷ s

unfoldable pub coverage_description : Text → Text
coverage_description language =
    capitalized language
    ++ codes
        " source was inventoried but has not received syntax-tree semantic analysis. Calls, dependencies, and data flow may be missing."

unfoldable pub is_inert_git_metadata : Text → Bool
unfolding has_suffix
is_inert_git_metadata name =
    has_prefix name (codes ".git/objects/")
    || has_prefix name (codes ".git/logs/")
    || (has_prefix name (codes ".git/hooks/") && has_suffix name (codes ".sample"))

unfoldable pub is_shell : Text → Text → Bool
unfolding first_line
is_shell name text =
    let extension = to_lower (path_extension name) in
    let line = to_lower (first_line text) in
    if extension == codes ".sh" || extension == codes ".bash" || extension == codes ".zsh"
    then true
    else has_prefix line (codes "#!")
      && (contains line (codes "sh") || contains line (codes "bash") || contains line (codes "zsh"))

abbrev pub is_replaced : ℕ → Bool
is_replaced c = eqb c b'/' || eqb c b'.' || eqb c b'_' || eqb c b' '

unfoldable pub replace_separators : Text → Text
replace_separators [] = []
replace_separators (c ∷ s) = (if is_replaced c then b'-' else c) ∷ replace_separators s

unfoldable pub trim_left : Text → Text
trim_left [] = []
trim_left (c ∷ s) = if eqb c b'-' then trim_left s else c ∷ s

unfoldable pub trim_right : Text → Text
trim_right [] = []
trim_right (c ∷ s) = let rest = trim_right s in if rest == [] && eqb c b'-' then [] else c ∷ rest

unfoldable pub stable_path_id : Text → Text
unfolding replace_separators trim_left trim_right
stable_path_id name = trim_left (trim_right (replace_separators (to_lower name)))

stable_path_id_test : stable_path_id (codes "./Hooks/on_start.sh") ≡ codes "hooks-on-start-sh"
unfolding stable_path_id to_lower text_eq
stable_path_id_test = refl

collision_test : stable_path_id (codes "./a.b") ≡ stable_path_id (codes "./a/b")
unfolding stable_path_id to_lower
collision_test = refl

node_test : unsupported_language (codes "run") (codes "#!/usr/bin/env node\nx") ≡ codes "javascript"
unfolding unsupported_language lookup text_eq to_lower path_extension has_prefix contains
node_test = refl

lua_test : unsupported_language (codes "a/b.LUA") [] ≡ codes "lua"
unfolding unsupported_language lookup text_eq to_lower path_extension
lua_test = refl
