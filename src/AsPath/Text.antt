-- ===== src/AsPath/Text.antt =====
-- The texts of segments and paths: bgpstream_as_path_seg_snprintf and bgpstream_as_path_snprintf of
-- lib/utils/bgpstream_utils_as_path.c, without the cut to the buffer.
use libbgpstream.Prelude.{ℕ, Option, some, List, [], ◌∷◌, ◌++◌, ◌==◌, if◌then◌else◌, ◌>>=◌}
use libbgpstream.Libc.{decimal}
use libbgpstream.AsPath.{
  Seg, asn, asn_set, AsPath, type_set, type_confed_seq, type_confed_set, segs,
}

-- The characters before, between and after the ASNs.
pub record Chars : Type 0 where
  pub before : ℕ
  pub between : ℕ
  pub after : ℕ

unfoldable pub chars_of : ℕ → Chars
chars_of type =
    if type == type_set
    then record { before = b'{'; between = b','; after = b'}' }
    else if type == type_confed_seq
    then record { before = b'('; between = b' '; after = b')' }
    else if type == type_confed_set
    then record { before = b'['; between = b','; after = b']' }
    else record { before = b'<'; between = b' '; after = b'>' }

-- The numbers, with a character before each but the first.
unfoldable pub more_asns_text : ℕ → List ℕ → List ℕ
more_asns_text sep [] = []
more_asns_text sep (x ∷ xs) = sep ∷ (decimal x ++ more_asns_text sep xs)

unfoldable pub asns_text : ℕ → List ℕ → List ℕ
unfolding more_asns_text
asns_text sep [] = []
asns_text sep (x ∷ xs) = decimal x ++ more_asns_text sep xs

unfoldable pub seg_text : Seg → List ℕ
unfolding chars_of asns_text
seg_text (asn x) = decimal x
seg_text (asn_set type xs) =
    let chars = chars_of type in chars.before ∷ (asns_text chars.between xs ++ (chars.after ∷ []))

unfoldable pub more_segs_text : List Seg → List ℕ
unfolding seg_text
more_segs_text [] = []
more_segs_text (s ∷ l) = b' ' ∷ (seg_text s ++ more_segs_text l)

unfoldable pub segs_text : List Seg → List ℕ
unfolding more_segs_text seg_text
segs_text [] = []
segs_text (s ∷ l) = seg_text s ++ more_segs_text l

-- None where the iterator meets a fault.
unfoldable pub path_text : AsPath → Option (List ℕ)
unfolding segs_text
path_text path = do l ← segs path; some (segs_text l)
