-- ===== src/AsPath/Segments.antt =====
-- The bytes of a segment, and reading them back.
use libbgpstream.Prelude.{
  ℕ, ◌*◌, ◌/◌, ◌%◌, ◌<◌, ◌≡◌, refl, sym, ◌≢◌, some, List, [], ◌∷◌, ◌++◌, arith, length, drop, All,
  ==_ne,
}
use mathlib.Core.List.{append_assoc}
use libbgpstream.AsPath.{
  Seg, asn, asn_set, type_asn, word_bytes, words_bytes, word_of, read_words, read_set, read_asn,
  read_seg, sizeof_seg,
}

abbrev pub IsWord : ℕ → Type 0
IsWord x = x < 4294967296

-- What the fields of a segment can hold.
abbrev pub IsSeg : Seg → Type 0
IsSeg (asn x) = IsWord x
IsSeg (asn_set type xs) = (type ≢ type_asn) × (length xs < 256) × All IsWord xs × (type < 256)

-- A segment in memory.
unfoldable pub seg_bytes : Seg → List ℕ
unfolding words_bytes
seg_bytes (asn x) = type_asn ∷ word_bytes x
seg_bytes (asn_set type xs) = type ∷ length xs ∷ words_bytes xs

unfoldable pub segs_bytes : List Seg → List ℕ
segs_bytes [] = []
segs_bytes (s ∷ l) = seg_bytes s ++ segs_bytes l

word_of-bytes :
    (x : ℕ)
    → IsWord x
    → word_of (x % 256) (x / 256 % 256) (x / 65536 % 256) (x / 16777216 % 256) ≡ x
word_of-bytes x h = omega arith

read_words-bytes :
    (xs rest : List ℕ) → All IsWord xs → read_words (length xs) (words_bytes xs ++ rest) ≡ some xs
unfolding read_words words_bytes
read_words-bytes [] rest h = refl
read_words-bytes (x ∷ xs) rest h = rw (read_words-bytes xs rest h.1, word_of-bytes x h.0)

-- A segment reads back from its bytes, whatever follows them.
pub read_seg-bytes : (s : Seg) (rest : List ℕ) → IsSeg s → read_seg (seg_bytes s ++ rest) ≡ some s
unfolding read_seg seg_bytes read_asn read_set
read_seg-bytes (asn x) rest h = rw (word_of-bytes x h)
read_seg-bytes (asn_set type xs) rest h =
    rw (==_ne type type_asn h.0, read_set, read_words-bytes xs rest h.2)

length-words_bytes : (xs : List ℕ) → length (words_bytes xs) ≡ 4 * length xs
unfolding words_bytes
length-words_bytes [] = omega arith
length-words_bytes (x ∷ xs) = omega (arith, length-words_bytes xs)

pub length-seg_bytes : (s : Seg) → length (seg_bytes s) ≡ sizeof_seg s
unfolding seg_bytes
length-seg_bytes (asn x) = omega arith
length-seg_bytes (asn_set type xs) = omega (arith, length-words_bytes xs)

pub segs_bytes-append : (l m : List Seg) → segs_bytes (l ++ m) ≡ segs_bytes l ++ segs_bytes m
unfolding segs_bytes
segs_bytes-append [] m = refl
segs_bytes-append (s ∷ l) m =
    rw (segs_bytes-append l m) (sym (append_assoc (seg_bytes s) (segs_bytes l) (segs_bytes m)))

pub drop-append {ℓ} : {A : Type ℓ} (xs ys : List A) → drop (length xs) (xs ++ ys) ≡ ys
drop-append [] ys = refl
drop-append (x ∷ xs) ys = drop-append xs ys
