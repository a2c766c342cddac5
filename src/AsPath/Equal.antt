-- ===== src/AsPath/Equal.antt =====
-- Equality and hashes of AS paths and their segments: lib/utils/bgpstream_utils_as_path.c.
use libbgpstream.Prelude.{
  ℕ, ◌+◌, ◌-◌, ◌*◌, ◌/◌, ◌%◌, ◌^◌, bit_and, bit_or, bit_xor, Bool, true, false, ◌&&◌, Option, none,
  some, List, [], ◌∷◌, ltb, ◌==◌, if◌then◌else◌, length, drop, ◌>>=◌,
}
use libbgpstream.AsPath.{Seg, asn, asn_set, AsPath, read_seg}

unfoldable pub bytes_equal : List ℕ → List ℕ → Bool
bytes_equal [] [] = true
bytes_equal (x ∷ xs) (y ∷ ys) = (x == y) && bytes_equal xs ys
bytes_equal _ _ = false

unfoldable pub path_equal : AsPath → AsPath → Bool
unfolding bytes_equal
path_equal path1 path2 =
    (length path1.data_bytes == length path2.data_bytes)
    && bytes_equal path1.data_bytes path2.data_bytes

unfoldable pub words_equal : List ℕ → List ℕ → Bool
words_equal [] [] = true
words_equal (x ∷ xs) (y ∷ ys) = (x == y) && words_equal xs ys
words_equal _ _ = false

unfoldable pub seg_equal : Seg → Seg → Bool
unfolding words_equal
seg_equal (asn x) (asn y) = x == y
seg_equal (asn_set t xs) (asn_set u ys) =
    (t == u) && ((length xs == length ys) && words_equal xs ys)
seg_equal _ _ = false

-- The hash of no segment is -1, on 32 bits; that of an empty set reads past the segment.
unfoldable pub seg_hash : Option Seg → Option ℕ
seg_hash none = some (2 ^ 32 - 1)
seg_hash (some (asn x)) = some x
seg_hash (some (asn_set type [])) = none
seg_hash (some (asn_set type (x ∷ xs))) = some x

-- The sum and the shift to the left are on 32 bits.
unfoldable pub mixbits : ℕ → ℕ
mixbits a =
    let b = bit_xor a (a / 2 ^ 4) in
    let c = (bit_xor b 0xdeadbeef + b * 2 ^ 5 % 2 ^ 32) % 2 ^ 32 in bit_xor c (c / 2 ^ 11)

abbrev pub hash_of : Option Seg → Option ℕ
hash_of none = none
hash_of (some s) = seg_hash (some s)

-- From the first segment and the origin.
unfoldable pub path_hash : AsPath → Option ℕ
unfolding mixbits seg_hash read_seg
path_hash path =
    if ltb 0 (length path.data_bytes)
    then (do
      first ← hash_of (read_seg path.data_bytes)
      origin ← hash_of (read_seg (drop path.origin_offset path.data_bytes))
      some (mixbits (bit_or (bit_and first 0xFFFF * 2 ^ 8) (bit_and origin 0xFFFF))))
    else some 0
