-- ===== src/Report/Validate/Paths.antt =====
-- `validateRelativePath` of internal/report/validate.go, over `path.Clean` of Go, which works on the
-- segments between slashes: an empty segment and "." go, and ".." takes the segment before it away,
-- unless there is none.
pub mod Safe
use plug_and_prejudice.Prelude.{
  Bool, Check, List, Text, Text-eq, [], any, codes, eqb, has_prefix, if◌then◌else◌, not, refl,
  refuse, text_eq, ◌&&◌, ◌++◌, ◌==◌, ◌>>◌, ◌||◌, ◌∷◌, ◌≡◌,
}

unfoldable pub segments : Text → List Text
segments [] = [] ∷ []
segments (c ∷ cs) =
    let rest = segments cs in
    if eqb c b'/' then [] ∷ rest else elim rest [ [] ↦ (c ∷ []) ∷ [] | s ∷ ss ↦ (c ∷ s) ∷ ss ]

unfoldable pub join : List Text → Text
join [] = []
join (s ∷ []) = s
join (s ∷ t ∷ ss) = s ++ b'/' ∷ join (t ∷ ss)

abbrev pub dot : Text
dot = b'.' ∷ []

abbrev pub dot_dot : Text
dot_dot = b'.' ∷ b'.' ∷ []

-- One segment more; the segments that are kept stand in reverse.
unfoldable pub pushed : Bool → Text → List Text → List Text
pushed rooted s [] = if s == [] || s == dot || (rooted && s == dot_dot) then [] else s ∷ []
pushed rooted s (top ∷ stack) =
    if s == [] || s == dot
    then top ∷ stack
    else if s == dot_dot && not (top == dot_dot)
    then stack
    else s ∷ top ∷ stack

unfoldable pub kept_segments : Bool → List Text → List Text → List Text
unfolding pushed
kept_segments rooted [] stack = stack
kept_segments rooted (s ∷ ss) stack = kept_segments rooted ss (pushed rooted s stack)

unfoldable pub reversed : List Text → List Text → List Text
reversed [] out = out
reversed (s ∷ ss) out = reversed ss (s ∷ out)

unfoldable pub clean : Text → Text
unfolding segments join kept_segments reversed
clean path =
    let rooted = has_prefix path (b'/' ∷ []) in
    let body = join (reversed (kept_segments rooted (segments path) []) []) in
    if rooted then b'/' ∷ body else if body == [] then dot else body

unfoldable pub validate_relative_path : Text → Check
unfolding clean
validate_relative_path value = do
  refuse (any (eqb b'\\') value || any (eqb 0) value) "noncanonical target-relative path"
  let cleaned = clean value
  refuse
      (not (cleaned == value)
        || cleaned == dot
        || cleaned == dot_dot
        || has_prefix cleaned (codes "../")
        || has_prefix cleaned (codes "/"))
      "unsafe target-relative path"

climbing_test : clean (codes "a//b/./../c/../../..") ≡ codes ".."
unfolding clean text_eq has_prefix
climbing_test = refl

rooted_test : clean (codes "/../a/") ≡ codes "/a"
unfolding clean text_eq has_prefix
rooted_test = refl
