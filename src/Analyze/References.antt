-- ===== src/Analyze/References.antt =====
-- `runtimeReferencedPaths` of internal/analyze/scope.go. A map with Boolean values is the list of its
-- keys. Go ranges over a map in any order, and may or may not reach a key that is stored on the way;
-- the model goes through the keys in the order in which they were stored, and not through new ones.
pub mod Closure
pub mod Exact
pub mod Marks
pub mod Sets
use plug_and_prejudice.Analyze.Paths.{is_git_metadata_path, is_qml, path_base, tooling_path}
use plug_and_prejudice.Prelude.{
  Bool, List, Option, Text, Text-eq, [], codes, contains, eqb, false, if◌then◌else◌, length, none,
  not, some, suc, zero, ℕ, ◌&&◌, ◌++◌, ◌==◌, ◌||◌, ◌∷◌,
}
use plug_and_prejudice.Prelude.Assoc.{lookup}
use plug_and_prejudice.Report.Records.{File, Manifest}
use plug_and_prejudice.Report.Validate.Paths.{clean}

abbrev pub Contents : Type 0
Contents = List (Text × Text)

unfoldable pub has : Text → List Text → Bool
has key [] = false
has key (x ∷ xs) = key == x || has key xs

-- `set[key] = true`.
unfoldable pub add : Text → List Text → List Text
add key set = if has key set then set else set ++ key ∷ []

-- Whether `source`, with its text, makes the candidate a reference.
unfoldable pub marks : Text → Text → Text → Bool
marks text source candidate =
    not (candidate == source || tooling_path candidate)
    && (contains text candidate || contains text (path_base candidate))

unfoldable pub mark_text_references : Text → Text → List Text → List Text → List Text
unfolding add
mark_text_references text source [] references = references
mark_text_references text source (candidate ∷ candidates) references =
    mark_text_references text source candidates
      (if marks text source candidate then add candidate references else references)

unfoldable pub candidate_contents : Contents → List Text → List Text
candidate_contents [] out = out
candidate_contents ((name, text) ∷ contents) out =
    candidate_contents contents
      (if is_git_metadata_path (clean name) then out else add (clean name) out)

unfoldable pub candidate_files : List File → List Text → List Text
candidate_files [] out = out
candidate_files (file ∷ files) out = candidate_files files (
    if file.kind == codes "regular" && not (is_git_metadata_path (clean file.path))
    then add (clean file.path) out
    else out)

unfoldable pub entry_references : List (Text × Text) → List Text → List Text
entry_references [] out = out
entry_references ((_, entry) ∷ entries) out = entry_references entries (add (clean entry) out)

-- The files that the shell loads whether they are named or not.
unfoldable pub qml_references : Contents → List Text → List Text → List Text
unfolding mark_text_references
qml_references [] candidates references = references
qml_references ((name, text) ∷ contents) candidates references =
    qml_references contents candidates (
      if is_qml name && not (tooling_path name)
      then mark_text_references text name candidates (add (clean name) references)
      else references)

-- One pass of the loop, over the keys that it starts with.
pub record Pass : Type 0 where
  pub references : List Text
  pub changed : Bool

unfoldable pub visit : Contents → List Text → Text → Pass → Pass
unfolding mark_text_references
visit contents candidates name p = elim (lookup name contents) [
  | none ↦ p
  | some text ↦
      let next = mark_text_references text name candidates p.references in
      record {
        references = next;
        changed = p.changed || not (eqb (length next) (length p.references));
      }
]

unfoldable pub visit_all : Contents → List Text → List Text → Pass → Pass
unfolding visit
visit_all contents candidates [] p = p
visit_all contents candidates (name ∷ names) p =
    visit_all contents candidates names (visit contents candidates name p)

-- The loop, with at most so many passes; `none` if it has not ended by then.
unfoldable pub passes : ℕ → Contents → List Text → List Text → Option (List Text)
unfolding visit_all
passes zero contents candidates references = none
passes (suc fuel) contents candidates references =
    let p =
      visit_all contents candidates references
        (record { references = references; changed = false }) in
    let rest = passes fuel contents candidates p.references in
    if p.changed then rest else some p.references

abbrev pub candidates_of : Contents → List File → List Text
candidates_of contents files = candidate_files files (candidate_contents contents [])

abbrev pub entries_of : Option Manifest → List (Text × Text)
entries_of none = []
entries_of (some manifest) = manifest.entry_points

-- What the code has stored before the loop.
abbrev pub first_references : Contents → List File → Option Manifest → List Text
first_references contents files manifest =
    qml_references contents (candidates_of contents files)
      (entry_references (entries_of manifest) [])

unfoldable pub paths_within : ℕ → Contents → List File → Option Manifest → Option (List Text)
unfolding passes
paths_within fuel contents files manifest =
    passes fuel contents (candidates_of contents files) (first_references contents files manifest)

-- The case `none` does not come up.
abbrev pub found_paths : Option (List Text) → List Text
found_paths none = []
found_paths (some references) = references

unfoldable pub runtime_referenced_paths : Contents → List File → Option Manifest → List Text
unfolding paths_within
runtime_referenced_paths contents files manifest =
    found_paths (paths_within (suc (length (candidates_of contents files))) contents files manifest)
