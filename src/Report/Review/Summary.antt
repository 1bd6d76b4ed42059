-- ===== src/Report/Review/Summary.antt =====
-- `deriveReviewSummary`, `BuildReviewSummary` and `validateReviewSummary` of
-- internal/report/review.go, with the helpers that they call. A loop is a function over the list
-- that it ranges over, with the variables that it changes as its last argument.
use native.Mathlib.Decide.{ℕ_discrete}
use plug_and_prejudice.Prelude.{
  Bool, Eq, List, Text, Text-discrete, Text-eq, [], any, codes, contains, false, has_prefix,
  if◌then◌else◌, leb, length, ltb, not, of_discrete, ◌&&◌, ◌++◌, ◌+◌, ◌==◌, ◌||◌, ◌∷◌,
}
use plug_and_prejudice.Prelude.Int.{negsuc, pos, ℤ}
use plug_and_prejudice.Report.Document.{
  ConfidenceSummary, CoverageSummary, Report, ReviewReason, ReviewSummary,
}
use plug_and_prejudice.Report.Kinds.{
  Confidence, Confidence-eq, Scope, Scope-discrete, Scope-eq, Severity, Severity-discrete,
  Severity-eq, UnknownReason, UnknownReason-eq,
}
use plug_and_prejudice.Report.Limits.{max_review_reasons}
use plug_and_prejudice.Report.Records.{Finding, Limitation, ScanError, Unknown}

unfoldable pub CoverageSummary-discrete : Discrete CoverageSummary
unfolding Text-discrete ℕ_discrete
CoverageSummary-discrete = hlevel (Text-discrete, ℕ_discrete)

instance abbrev pub CoverageSummary-eq : Eq CoverageSummary
CoverageSummary-eq = of_discrete CoverageSummary-discrete

unfoldable pub ReviewSummary-discrete : Discrete ReviewSummary
unfolding CoverageSummary-discrete Severity-discrete Scope-discrete
ReviewSummary-discrete =
    hlevel (Text-discrete, ℕ_discrete, CoverageSummary-discrete, Severity-discrete, Scope-discrete)

instance abbrev pub ReviewSummary-eq : Eq ReviewSummary
ReviewSummary-eq = of_discrete ReviewSummary-discrete

unfoldable pub severity_rank : Severity → ℤ
severity_rank Severity.critical = pos 4
severity_rank Severity.high = pos 3
severity_rank Severity.medium = pos 2
severity_rank Severity.low = pos 1
severity_rank Severity.informational = pos 0
severity_rank (Severity.other s) = negsuc 0

unfoldable pub add_confidence : Confidence → ConfidenceSummary → ConfidenceSummary
add_confidence Confidence.high s = record s { high = s.high + 1 }
add_confidence Confidence.medium s = record s { medium = s.medium + 1 }
add_confidence Confidence.low s = record s { low = s.low + 1 }
add_confidence (Confidence.other t) s = s

-- The early return is the case of a low confidence.
unfoldable pub confidence_for_impact_reasons : List Finding → Severity → Text → Text
confidence_for_impact_reasons [] severity level = level
confidence_for_impact_reasons (f ∷ fs) severity level =
    let rest = confidence_for_impact_reasons fs severity level in
    let lowered = confidence_for_impact_reasons fs severity (codes "medium") in
    if not (f.severity == severity)
    then rest
    else if f.confidence == Confidence.low
    then codes "low"
    else if f.confidence == Confidence.medium
    then lowered
    else rest

-- The unknowns whose presence alone makes the level high.
unfoldable pub is_serious : Unknown → Bool
is_serious u =
    u.reason == UnknownReason.budget_exhaustion
    || u.reason == UnknownReason.parser_failure
    || (u.scope == Scope.runtime && ltb 0 (length u.affected_operations))

-- The limitations whose presence alone makes the level high.
unfoldable pub is_budget : Limitation → Bool
is_budget l =
    contains l.code (codes "budget")
    || has_prefix l.code (codes "max-")
    || l.code == codes "result-production-limit"

unfoldable pub limitation_level : List Limitation → Text → Text
unfolding is_budget
limitation_level [] level = level
limitation_level (l ∷ ls) level =
    let moderate =
      limitation_level ls (if not (level == codes "high") then codes "moderate" else level) in
    let low = limitation_level ls (if level == codes "none" then codes "low" else level) in
    if is_budget l then codes "high" else if l.scope == Scope.runtime then moderate else low

unfoldable pub unknowns_level : List Unknown → List Limitation → Text → Text
unfolding is_serious limitation_level
unknowns_level [] ls level = limitation_level ls level
unknowns_level (u ∷ us) ls level =
    let moderate = unknowns_level us ls (codes "moderate") in
    let low = unknowns_level us ls (if level == codes "none" then codes "low" else level) in
    if is_serious u then codes "high" else if u.scope == Scope.runtime then moderate else low

unfoldable pub unknown_level : Report → Text
unfolding unknowns_level
unknown_level r =
    if ltb 0 (length r.errors)
    then codes "high"
    else unknowns_level r.unknowns r.limitations (codes "none")

-- `containsReason`.
unfoldable pub contains_reason : List ReviewReason → Text → Bool
contains_reason [] reference = false
contains_reason (v ∷ vs) reference =
    (not (reference == []) && v.reference == reference) || contains_reason vs reference

-- The test of the loop in `appendReviewReason`.
abbrev pub repeats : ReviewReason → ReviewReason → Bool
repeats reason existing =
    (not (reason.reference == []) && existing.reference == reason.reference)
    || (reason.reference == [] && existing.reference == [] && existing.title == reason.title)

unfoldable pub append_review_reason : List ReviewReason → ReviewReason → List ReviewReason
append_review_reason values reason =
    if leb max_review_reasons (length values)
    then values
    else if any (repeats reason) values
    then values
    else values ++ reason ∷ []

abbrev pub finding_reason : Finding → ReviewReason
finding_reason f = record { reference = f.reference; title = f.title; scope = f.scope }

abbrev pub unknown_reason : Unknown → ReviewReason
unknown_reason u = record { reference = u.reference; title = u.title; scope = u.scope }

abbrev pub limitation_reason : Limitation → ReviewReason
limitation_reason l = record {
  reference = [];
  title = codes "Analysis limitation: " ++ l.code;
  scope = l.scope;
}

abbrev pub error_reason : ScanError → ReviewReason
error_reason e = record {
  reference = [];
  title = codes "Scan error: " ++ e.code;
  scope = Scope.other [];
}
