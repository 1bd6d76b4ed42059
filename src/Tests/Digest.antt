-- ===== src/Tests/Digest.antt =====
-- The root digest and the comparison subject at concrete inputs.
use plug_and_prejudice.Prelude.{
  Result, Text, [], arith, codes, each, err, inl, inr, map, ok, refl, sym, valid_utf8, ◌∷◌, ◌≡◌,
  ◌≢◌,
}
use plug_and_prejudice.Prelude.Sort.{sort}
use plug_and_prejudice.Report.Digest.{inventory_root_digest, inventory_stream, path_less}
use plug_and_prejudice.Report.Digest.Order.{IsWithin, inventory_root_digest-same}
use plug_and_prejudice.Report.Digest.Stream.{FitsWords, inventory_stream_inj, retained}
use plug_and_prejudice.Report.Kinds.{AnalysisDisposition}
use plug_and_prejudice.Report.Records.{File}
use plug_and_prejudice.Report.Subject.{resource_comparison_subject_inj}
use plug_and_prejudice.Tests.Sample.{sample_digest, sample_file}

resource_comparison_subject_inj_example :
    (codes "path" ≡ codes "path") × (codes "read" ≡ codes "read") × (codes "a:1:b" ≡ codes "a:1:b")
resource_comparison_subject_inj_example =
    resource_comparison_subject_inj (codes "path") (codes "read") (codes "a:1:b") (codes "path")
      (codes "read") (codes "a:1:b") refl

fits_words : FitsWords sample_file
fits_words = record {
  path = omega arith;
  kind = omega arith;
  mode = omega arith;
  size = omega arith;
  sha256 = omega arith;
  link_target = omega arith;
  skip_reason = omega arith;
}

result_text : Result Text → Text
result_text (ok t) = t
result_text (err e) = []

abbrev sample_stream : Text
sample_stream = result_text (inventory_stream (sample_file ∷ []))

streams : inventory_stream (sample_file ∷ []) ≡ ok sample_stream
unfolding inventory_stream result_text sort each valid_utf8
streams = refl

inventory_stream_inj_example :
    map retained (sort path_less (sample_file ∷ []))
    ≡ map retained (sort path_less (sample_file ∷ []))
inventory_stream_inj_example =
    inventory_stream_inj (sample_file ∷ []) (sample_file ∷ []) sample_stream (fits_words, tt)
      (fits_words, tt) (omega arith) (omega arith) streams streams

-- A change of the analysis of a file, which the digest does not cover.
abbrev unanalyze : File → File
unanalyze f = record f { analysis = AnalysisDisposition.unanalyzed }

abbrev other_file : File
other_file = record sample_file { path = codes "other.qml" }

paths_differ : other_file.path ≢ sample_file.path
paths_differ e = cc

swapped : (a b : File) → IsWithin (a ∷ b ∷ []) (b ∷ a ∷ [])
swapped a b x (inl e) = inr (inl e)
swapped a b x (inr (inl e)) = inl e
swapped a b x (inr (inr i)) = absurd i

-- The files of the sample are in two orders, and lose the result of their analysis in one of them.
inventory_root_digest-same_example :
    inventory_root_digest sample_digest (map unanalyze (other_file ∷ sample_file ∷ []))
    ≡ inventory_root_digest sample_digest (sample_file ∷ other_file ∷ [])
inventory_root_digest-same_example =
    inventory_root_digest-same unanalyze
      (record {
        path = λ x. refl;
        kind = λ x. refl;
        mode = λ x. refl;
        size = λ x. refl;
        sha256 = λ x. refl;
        link_target = λ x. refl;
        skip_reason = λ x. refl;
      })
      sample_digest (other_file ∷ sample_file ∷ []) (sample_file ∷ other_file ∷ [])
      ((paths_differ, tt), (tt, tt)) (((λ e. paths_differ (sym e)), tt), (tt, tt))
      (swapped other_file sample_file) (swapped sample_file other_file)
