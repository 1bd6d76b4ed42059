-- ===== src/Report/Digest.antt =====
-- `InventoryRootDigest` of internal/report/inventory_digest.go. SHA-256 is a parameter.
pub mod Stream
pub mod Order
use plug_and_prejudice.Prelude.{
  Bool, Check, List, Result, Text, [], any, codes, each, eqb, length, less, not, ok, refuse,
  valid_utf8, ◌++◌, ◌>>=◌, ◌>>◌, ◌∷◌,
}
use plug_and_prejudice.Prelude.Encoding.{big_endian, hex}
use plug_and_prejudice.Prelude.Int.{ltb_ℤ, pos, pos_part}
use plug_and_prejudice.Prelude.Sort.{sort}
use plug_and_prejudice.Report.Records.{File}

abbrev pub inventory_digest_domain : Text
inventory_digest_domain = codes "plug-prejudice/target-inventory-root/v1"

-- `writeDigestUint64` and `writeDigestString`: what they append to the hashed stream.
unfoldable pub digest_string : Text → Text
digest_string value = big_endian (length value) ++ value

-- The fields of a file that are checked for UTF-8 and NUL, in the order of the code.
abbrev pub checked_fields : File → List Text
checked_fields f = f.path ∷ f.kind ∷ f.mode ∷ f.sha256 ∷ f.link_target ∷ f.skip_reason ∷ []

unfoldable pub check_field : Text → Check
check_field value = do
  refuse (not (valid_utf8 value)) "inventory digest cannot encode invalid UTF-8"
  refuse (any (eqb 0) value) "inventory digest fields cannot contain NUL"

unfoldable pub file_record : File → Text
unfolding digest_string
file_record f =
    digest_string f.path
    ++ (digest_string f.kind
        ++ (digest_string f.mode
            ++ (big_endian (pos_part f.size)
                ++ (digest_string f.sha256
                    ++ (digest_string f.link_target ++ digest_string f.skip_reason)))))

unfoldable pub file_stream : List File → Result Text
unfolding check_field file_record
file_stream [] = ok []
file_stream (f ∷ fs) = do
  refuse (ltb_ℤ f.size (pos 0)) "inventory digest cannot encode a negative file size"
  each check_field (checked_fields f)
  rest ← file_stream fs
  ok (file_record f ++ rest)

abbrev pub path_less : File → File → Bool
path_less f g = less f.path g.path

-- The bytes that are hashed.
unfoldable pub inventory_stream : List File → Result Text
unfolding file_stream
inventory_stream files = do
  let ordered = sort path_less files
  records ← file_stream ordered
  ok (digest_string inventory_digest_domain ++ (big_endian (length ordered) ++ records))

module _ (sha256 : Text → Text) where
  unfoldable pub inventory_root_digest : List File → Result Text
  unfolding inventory_stream
  inventory_root_digest files = do stream ← inventory_stream files; ok (hex (sha256 stream))
