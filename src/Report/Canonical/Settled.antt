-- ===== src/Report/Canonical/Settled.antt =====
-- What the first part of `canonicalReport` of internal/report/encode.go does to a report.
use mathlib.Core.List.{Perm}
use plug_and_prejudice.Prelude.{Bool, List, Option, Text, [], less, none, some, ◌∷◌, ◌≡◌}
use plug_and_prejudice.Prelude.Sort.{IsOrdered}
use plug_and_prejudice.Report.Canonical.{
  by_text, comes_first, compare_evidence, compare_limitation, compare_scan_error,
  relationship_tuple,
}
use plug_and_prejudice.Report.Document.{Report}
use plug_and_prejudice.Report.Records.{Binary, Evidence, File, Finding, Manifest, Unknown}

-- The elements of a list, as often, in an order.
abbrev pub IsSorting : {A : Type 0} → (A → A → Bool) → List A → List A → Type 0
IsSorting lt xs ys = Perm ys xs × IsOrdered lt ys

abbrev pub IsSortedText : List Text → List Text → Type 0
IsSortedText = IsSorting less

-- Two lists whose elements, in their places, are in a relation.
abbrev pub Pairwise : {A : Type 0} → (A → A → Type 0) → List A → List A → Type 0
Pairwise R [] [] = Unit
Pairwise R [] (y ∷ ys) = ⊥
Pairwise R (x ∷ xs) [] = ⊥
Pairwise R (x ∷ xs) (y ∷ ys) = R x y × Pairwise R xs ys

-- The elements are put in order, and then each is put in order in itself.
abbrev pub IsSettling : {A : Type 0} → (A → A → Bool) → (A → A → Type 0) → List A → List A → Type 0
IsSettling {A} lt R xs ys = (sorted : List A) × IsSorting lt xs sorted × Pairwise R sorted ys

abbrev pub IsOptional : {A : Type 0} → (A → A → Type 0) → Option A → Option A → Type 0
IsOptional R none none = Unit
IsOptional R none (some b) = ⊥
IsOptional R (some a) none = ⊥
IsOptional R (some a) (some b) = R a b

abbrev pub IsSettledManifest : Manifest → Manifest → Type 0
IsSettledManifest m n = IsSortedText m.kinds n.kinds × (n ≡ record m { kinds = n.kinds })

pub record IsSettledBinary (b c : Binary) : Type 0 where
  pub libraries : IsSortedText b.libraries c.libraries
  pub imported_symbols : IsSortedText b.imported_symbols c.imported_symbols
  pub extracted_strings : IsSortedText b.extracted_strings c.extracted_strings
  pub embedded_urls : IsSortedText b.embedded_urls c.embedded_urls
  pub file_capabilities : IsSortedText b.file_capabilities c.file_capabilities
  pub others : c ≡ record b {
    libraries = c.libraries;
    imported_symbols = c.imported_symbols;
    extracted_strings = c.extracted_strings;
    embedded_urls = c.embedded_urls;
    file_capabilities = c.file_capabilities;
  }

abbrev pub IsSettledFile : File → File → Type 0
IsSettledFile f g =
    IsOptional IsSettledBinary f.binary g.binary × (g ≡ record f { binary = g.binary })

abbrev pub IsSortedEvidence : List Evidence → List Evidence → Type 0
IsSortedEvidence = IsSorting (comes_first compare_evidence)

pub record IsSettledFinding (f g : Finding) : Type 0 where
  pub evidence : IsSortedEvidence f.evidence g.evidence
  pub related : IsSortedText f.related g.related
  pub others : g ≡ record f { evidence = g.evidence; related = g.related }

pub record IsSettledUnknown (u v : Unknown) : Type 0 where
  pub evidence : IsSortedEvidence u.evidence v.evidence
  pub affected_operations : IsSortedText u.affected_operations v.affected_operations
  pub suppressed_rules : IsSortedText u.suppressed_rules v.suppressed_rules
  pub others : v ≡ record u {
    evidence = v.evidence;
    affected_operations = v.affected_operations;
    suppressed_rules = v.suppressed_rules;
  }

-- A report and its canonical order: each collection holds what it held, in the order of its key, and
-- nothing else changes.
pub record IsSettled (r s : Report) : Type 0 where
  pub manifest : IsOptional IsSettledManifest r.target.manifest s.target.manifest
  pub evidence_inputs : IsSorting (by_text (λ i. i.id)) r.evidence_inputs s.evidence_inputs
  pub inventory : IsSettling (by_text (λ f. f.path)) IsSettledFile r.inventory s.inventory
  pub operations : IsSorting (by_text (λ o. o.id)) r.operations s.operations
  pub resources : IsSorting (by_text (λ o. o.id)) r.resources s.resources
  pub findings : IsSettling (by_text (λ f. f.id)) IsSettledFinding r.findings s.findings
  pub unknowns : IsSettling (by_text (λ u. u.id)) IsSettledUnknown r.unknowns s.unknowns
  pub relationships : IsSorting (by_text relationship_tuple) r.relationships s.relationships
  pub limitations : IsSorting (comes_first compare_limitation) r.limitations s.limitations
  pub errors : IsSorting (comes_first compare_scan_error) r.errors s.errors
  pub others : s ≡ record r {
    target = record r.target { manifest = s.target.manifest };
    evidence_inputs = s.evidence_inputs;
    inventory = s.inventory;
    operations = s.operations;
    resources = s.resources;
    findings = s.findings;
    unknowns = s.unknowns;
    relationships = s.relationships;
    limitations = s.limitations;
    errors = s.errors;
  }
