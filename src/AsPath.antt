-- ===== src/AsPath.antt =====
-- AS paths: lib/utils/bgpstream_utils_as_path.c, its header and bgpstream_utils_as_path_int.h. `data`
-- is the part of the byte array in use, so `data_len` is its length. A word is in the order of a little
-- endian host. Allocation succeeds. None stands for a fault: a read past the data, a write to
-- memory that the path does not own, or an assertion that stops the program.
pub mod Segments
pub mod Walk
pub mod Append
pub mod Fields
pub mod Equal
pub mod Text
pub mod Merge
use libbgpstream.Prelude.{
  ℕ, zero, suc, ◌+◌, ◌-◌, ◌*◌, ◌/◌, ◌%◌, ◌^◌, bit_and, bit_or, bit_xor, Bool, true, false, ◌&&◌,
  ◌||◌, Option, none, some, List, [], ◌∷◌, ◌++◌, ltb, leb, ◌==◌, if◌then◌else◌, length, take, drop,
  ◌>>=◌,
}

-- BGPSTREAM_AS_PATH_SEG_ASN and the other types.
abbrev pub type_asn : ℕ
type_asn = 1

abbrev pub type_set : ℕ
type_set = 2

abbrev pub type_confed_seq : ℕ
type_confed_seq = 3

abbrev pub type_confed_set : ℕ
type_confed_set = 4

-- A segment: one ASN, or a type with its ASNs.
pub data Seg : Type 0 where
  asn : ℕ → Seg
  asn_set : ℕ → List ℕ → Seg

pub record AsPath : Type 0 where
  pub data_bytes : List ℕ
  pub data_alloc_len : ℕ
  pub seg_cnt : ℕ
  pub origin_offset : ℕ

abbrev pub uint16_max : ℕ
uint16_max = 65535

abbrev pub create : AsPath
create = record { data_bytes = []; data_alloc_len = 0; seg_cnt = 0; origin_offset = uint16_max }

abbrev pub clear : AsPath → AsPath
clear path = record path { data_bytes = []; seg_cnt = 0; origin_offset = uint16_max }

-- The bytes of a `uint32_t`.
abbrev pub word_bytes : ℕ → List ℕ
word_bytes x = x % 256 ∷ x / 256 % 256 ∷ x / 65536 % 256 ∷ x / 16777216 % 256 ∷ []

unfoldable pub words_bytes : List ℕ → List ℕ
words_bytes [] = []
words_bytes (x ∷ xs) = word_bytes x ++ words_bytes xs

abbrev pub word_of : ℕ → ℕ → ℕ → ℕ → ℕ
word_of a b c d = a + b * 256 + c * 65536 + d * 16777216

unfoldable pub read_words : ℕ → List ℕ → Option (List ℕ)
read_words zero s = some []
read_words (suc n) (a ∷ b ∷ c ∷ d ∷ s) = elim (read_words n s) [
  | none ↦ none
  | some xs ↦ some (word_of a b c d ∷ xs)
]
read_words (suc n) _ = none

unfoldable pub read_set : ℕ → List ℕ → Option Seg
unfolding read_words
read_set type [] = none
read_set type (cnt ∷ s) = elim (read_words cnt s) [ none ↦ none | some xs ↦ some (asn_set type xs) ]

unfoldable pub read_asn : List ℕ → Option Seg
read_asn (a ∷ b ∷ c ∷ d ∷ s) = some (asn (word_of a b c d))
read_asn _ = none

-- The segment at a pointer into the data.
unfoldable pub read_seg : List ℕ → Option Seg
unfolding read_set read_asn
read_seg [] = none
read_seg (type ∷ s) = if type == type_asn then read_asn s else read_set type s

-- SIZEOF_SEG
abbrev pub sizeof_seg : Seg → ℕ
sizeof_seg (asn x) = 5
sizeof_seg (asn_set type xs) = 2 + 4 * length xs

-- What get_next_seg gives: the end of the path, a fault, or a segment with the next offset.
pub data Next : Type 0 where
  end fault : Next
  seg : Seg → ℕ → Next

abbrev pub next_of : ℕ → Option Seg → Next
next_of offset none = fault
next_of offset (some s) = seg s ((offset + sizeof_seg s) % 2 ^ 16)

unfoldable pub get_next_seg : AsPath → ℕ → Next
unfolding read_seg
get_next_seg path offset =
    if length path.data_bytes == 0
    then end
    else if leb (length path.data_bytes) offset
    then end
    else next_of offset (read_seg (drop offset path.data_bytes))

-- The segments that an iterator meets from an offset on. Each takes two bytes at least, so as many
-- rounds as there are bytes, and one more, are enough.
unfoldable pub segs_from : ℕ → AsPath → ℕ → Option (List Seg)
unfolding get_next_seg
segs_from zero path offset = none
segs_from (suc f) path offset = elim (get_next_seg path offset) [
  | end ↦ some []
  | fault ↦ none
  | seg s next ↦ elim (segs_from f path next) [ none ↦ none | some l ↦ some (s ∷ l) ]
]

unfoldable pub segs : AsPath → Option (List Seg)
unfolding segs_from
segs path = segs_from (suc (length path.data_bytes)) path 0

unfoldable pub get_origin_seg : AsPath → Option Seg
unfolding read_seg
get_origin_seg path =
    if length path.data_bytes == 0 then none else read_seg (drop path.origin_offset path.data_bytes)

abbrev pub asn_of : Option Seg → Option ℕ
asn_of none = none
asn_of (some (asn x)) = some x
asn_of (some (asn_set type xs)) = none

unfoldable pub get_origin_val : AsPath → Option ℕ
unfolding get_origin_seg
get_origin_val path = asn_of (get_origin_seg path)

-- The loop of bgpstream_as_path_update_fields: `cur` is the iterator's offset.
unfoldable pub update_loop : ℕ → AsPath → ℕ → ℕ → Option AsPath
unfolding get_next_seg
update_loop zero path cur offset = none
update_loop (suc f) path cur offset = elim (get_next_seg path cur) [
  | end ↦ some path
  | fault ↦ none
  | seg s next ↦
      update_loop f (record path { origin_offset = offset; seg_cnt = (path.seg_cnt + 1) % 2 ^ 16 })
        next ((offset + sizeof_seg s) % 2 ^ 16)
]

unfoldable pub update_fields : AsPath → Option AsPath
unfolding update_loop
update_fields path = update_loop (suc (length path.data_bytes)) (record path { seg_cnt = 0 }) 0 0

unfoldable pub populate_from_data : AsPath → List ℕ → Option AsPath
unfolding update_fields
populate_from_data path bytes =
    let alloc = if path.data_alloc_len == uint16_max then 0 else path.data_alloc_len in
    update_fields (record (clear path) {
      data_alloc_len = if ltb alloc (length bytes) then length bytes else alloc;
      data_bytes = bytes;
    })

unfoldable pub populate_from_data_zc : AsPath → List ℕ → Option AsPath
unfolding update_fields
populate_from_data_zc path bytes =
    update_fields (record (clear path) { data_alloc_len = uint16_max; data_bytes = bytes })

-- Memory that the path does not own is not enlarged: a fault. An empty copy leaves it in place.
unfoldable pub copy : AsPath → AsPath → Option AsPath
copy dst src =
    let external = dst.data_alloc_len == uint16_max in
    let alloc = if external then 0 else dst.data_alloc_len in
    let grows = ltb alloc (length src.data_bytes) in
    if external && grows
    then none
    else some (record src { data_alloc_len = if grows then length src.data_bytes else alloc })

-- A run of ASNs is split into one segment for each.
unfoldable pub append_asns : AsPath → List ℕ → AsPath
append_asns path [] = path
append_asns path (x ∷ xs) =
    append_asns
      (record path {
        data_bytes = path.data_bytes ++ (type_asn ∷ word_bytes x);
        origin_offset = length path.data_bytes;
        seg_cnt = (path.seg_cnt + 1) % 2 ^ 16;
      })
      xs

-- The type and the count of a set are `uint8_t`s.
unfoldable pub append_set : AsPath → ℕ → List ℕ → AsPath
unfolding words_bytes
append_set path type xs = record path {
  data_bytes = path.data_bytes ++ (type % 256 ∷ length xs % 256 ∷ words_bytes xs);
  origin_offset = length path.data_bytes;
  seg_cnt = (path.seg_cnt + 1) % 2 ^ 16;
}

-- The type is written at the end of the data whatever there is to add.
abbrev pub written_to : ℕ → ℕ
written_to n = if n == 0 then 1 else n

unfoldable pub append : AsPath → ℕ → List ℕ → Option AsPath
unfolding append_asns append_set
append path type xs =
    let added = if type == type_asn then 5 * length xs else 2 + 4 * length xs in
    let new_len = length path.data_bytes + added in
    let alloc = if ltb path.data_alloc_len new_len then new_len else path.data_alloc_len in
    let grown = record path { data_alloc_len = alloc } in
    if leb uint16_max new_len
      || (path.data_alloc_len == uint16_max
          || ltb alloc (length path.data_bytes + written_to added))
    then none
    else some (if type == type_asn then append_asns grown xs else append_set grown type xs)
