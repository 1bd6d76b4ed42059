-- ===== src/Report/Canonical.antt =====
-- The order of collections in the canonical report: the comparators and the first part of
-- `canonicalReport` of internal/report/encode.go, up to the review summary. The copies that the code
-- makes of slices and maps are the values themselves. Package sort is a parameter.
pub mod Order
pub mod Settled
use Prim.Native.Nat.{Ordering}
use mathlib.Core.List.{Perm}
use plug_and_prejudice.Prelude.{
  Bool, List, Option, Text, false, if◌then◌else◌, less, map, none, some, true, ◌≡◌,
}
use plug_and_prejudice.Prelude.Int.{ltb_ℤ, ℤ}
use plug_and_prejudice.Prelude.Sort.{IsOrdered, sort}
use plug_and_prejudice.Report.Document.{Report, Target}
use plug_and_prejudice.Report.Graph.View.{edge_identity}
use plug_and_prejudice.Report.Kinds.{scope_text}
use plug_and_prejudice.Report.Records.{
  Binary, Evidence, File, Finding, Limitation, Manifest, Relationship, ScanError, Unknown,
}

unfoldable pub compare_string : Text → Text → Ordering
compare_string left right =
    if less left right then Ordering.lt else if less right left then Ordering.gt else Ordering.eq

unfoldable pub compare_int : ℤ → ℤ → Ordering
compare_int left right =
    if ltb_ℤ left right then Ordering.lt else if ltb_ℤ right left then Ordering.gt else Ordering.eq

-- `if result := ...; result != 0 { return result }`.
unfoldable pub or_else : Ordering → Ordering → Ordering
or_else Ordering.eq next = next
or_else Ordering.lt next = Ordering.lt
or_else Ordering.gt next = Ordering.gt

unfoldable pub compare_evidence : Evidence → Evidence → Ordering
unfolding compare_string compare_int or_else
compare_evidence a b = or_else (compare_string a.input_id b.input_id) (
    or_else (compare_string a.path b.path) (
      or_else (compare_int a.line_start b.line_start) (
        or_else (compare_int a.line_end b.line_end)
          (or_else (compare_string a.operation b.operation) (compare_string a.excerpt b.excerpt)))))

unfoldable pub compare_limitation : Limitation → Limitation → Ordering
unfolding compare_string or_else
compare_limitation a b = or_else (compare_string a.code b.code) (
    or_else (compare_string a.path b.path) (
      or_else (compare_string (scope_text a.scope) (scope_text b.scope))
        (compare_string a.description b.description)))

unfoldable pub compare_scan_error : ScanError → ScanError → Ordering
unfolding compare_string or_else
compare_scan_error a b =
    or_else (compare_string a.code b.code)
      (or_else (compare_string a.path b.path) (compare_string a.message b.message))

unfoldable pub relationship_tuple : Relationship → Text
relationship_tuple v = edge_identity v.type v.from_kind v.source v.to_kind v.target

-- `compare(a, b) < 0`.
abbrev pub comes_first : {A : Type 0} → (A → A → Ordering) → A → A → Bool
comes_first compare a b = elim (compare a b) [ Ordering.lt ↦ true | _ ↦ false ]

-- The order of a text that an element has.
abbrev pub by_text : {A : Type 0} → (A → Text) → A → A → Bool
by_text key a b = less (key a) (key b)

-- Package sort of Go: `sort.Slice` and `sort.Strings` put a slice in an order, and leave open how
-- elements that are equal in it stand.
pub record Sorter : Type 1 where
  pub sort : (A : Type 0) → (A → A → Bool) → List A → List A
  pub permutes : (A : Type 0) (lt : A → A → Bool) (xs : List A) → Perm (sort A lt xs) xs
  pub orders :
      (A : Type 0) (lt : A → A → Bool)
      → ((a b : A) → lt a b ≡ true → lt b a ≡ false)
      → ((a b c : A) → lt b a ≡ false → lt c b ≡ false → lt c a ≡ false)
      → (xs : List A) → IsOrdered lt (sort A lt xs)

abbrev pub settle_some : {A : Type 0} → (A → A) → Option A → Option A
settle_some f none = none
settle_some f (some a) = some (f a)

module _ (sorter : Sorter) where
  abbrev pub sorted_strings : List Text → List Text
  sorted_strings = sorter.sort Text less

  unfoldable pub settle_manifest : Manifest → Manifest
  settle_manifest m = record m { kinds = sorted_strings m.kinds }

  unfoldable pub settle_binary : Binary → Binary
  settle_binary b = record b {
    libraries = sorted_strings b.libraries;
    imported_symbols = sorted_strings b.imported_symbols;
    extracted_strings = sorted_strings b.extracted_strings;
    embedded_urls = sorted_strings b.embedded_urls;
    file_capabilities = sorted_strings b.file_capabilities;
  }

  abbrev pub settle_file : File → File
  settle_file f = record f { binary = settle_some settle_binary f.binary }

  unfoldable pub sort_evidence : List Evidence → List Evidence
  unfolding compare_evidence
  sort_evidence = sorter.sort Evidence (comes_first compare_evidence)

  abbrev pub settle_finding : Finding → Finding
  settle_finding f = record f {
    evidence = sort_evidence f.evidence;
    related = sorted_strings f.related;
  }

  abbrev pub settle_unknown : Unknown → Unknown
  settle_unknown u = record u {
    evidence = sort_evidence u.evidence;
    affected_operations = sorted_strings u.affected_operations;
    suppressed_rules = sorted_strings u.suppressed_rules;
  }

  abbrev pub settle_target : Target → Target
  settle_target t = record t { manifest = settle_some settle_manifest t.manifest }

  unfoldable pub settle : Report → Report
  unfolding settle_manifest settle_binary sort_evidence compare_limitation compare_scan_error
      relationship_tuple
  settle r = record r {
    target = settle_target r.target;
    evidence_inputs = sorter.sort _ (by_text (λ i. i.id)) r.evidence_inputs;
    inventory = map settle_file (sorter.sort _ (by_text (λ f. f.path)) r.inventory);
    operations = sorter.sort _ (by_text (λ o. o.id)) r.operations;
    resources = sorter.sort _ (by_text (λ o. o.id)) r.resources;
    findings = map settle_finding (sorter.sort _ (by_text (λ f. f.id)) r.findings);
    unknowns = map settle_unknown (sorter.sort _ (by_text (λ u. u.id)) r.unknowns);
    relationships = sorter.sort _ (by_text relationship_tuple) r.relationships;
    limitations = sorter.sort _ (comes_first compare_limitation) r.limitations;
    errors = sorter.sort _ (comes_first compare_scan_error) r.errors;
  }
