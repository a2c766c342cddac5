-- ===== src/AsPath/Merge.antt =====
-- AS_PATH and AS4_PATH made one path: handle_as_paths of lib/formats/bgpstream_parsebgp_common.c. The
-- segments of the two attributes are what libparsebgp gives: a type and the ASNs of each, and the
-- number of ASNs of the path. None is a fault, as in AsPath.antt, a failed assertion, or an index
-- outside `as_path_types`. The result is the path and whether the call succeeded.
pub mod Lists
pub mod Sequences
use libbgpstream.Prelude.{
  ℕ, zero, suc, ◌+◌, ◌-◌, Bool, true, false, ◌&&◌, ◌||◌, Option, none, some, List, [], ◌∷◌, ltb,
  leb, ◌==◌, if◌then◌else◌, length, take, ◌>>=◌,
}
use libbgpstream.AsPath.{
  AsPath, clear, append, type_asn, type_set, type_confed_seq, type_confed_set,
}

-- The types of segments of libparsebgp: 0, the four known ones in order, and any other number.
pub data SegType : Type 0 where
  invalid as_set as_seq confed_seq confed_set other : SegType

pub record PbgpSeg : Type 0 where
  pub type : SegType
  pub asns : List ℕ

pub record PbgpPath : Type 0 where
  pub path_segs : List PbgpSeg
  pub asns_cnt : ℕ

-- BGPSTREAM_AS_PATH_SEG_INVALID
abbrev type_invalid : ℕ
type_invalid = 0

-- as_path_types
abbrev pub as_path_type : SegType → Option ℕ
as_path_type invalid = some type_invalid
as_path_type as_set = some type_set
as_path_type as_seq = some type_asn
as_path_type confed_seq = some type_confed_seq
as_path_type confed_set = some type_confed_set
as_path_type other = none

abbrev pub effective_cnt : PbgpSeg → ℕ
effective_cnt seg = elim seg.type [
  | invalid ↦ 0
  | as_set ↦ 1
  | as_seq ↦ length seg.asns
  | confed_seq ↦ 0
  | confed_set ↦ 0
  | other ↦ 0
]

-- How many ASNs of a segment are appended where `left` are still wanted.
abbrev pub to_append : PbgpSeg → ℕ → ℕ
to_append seg left =
    if leb (effective_cnt seg) 1 || leb (length seg.asns) left then length seg.asns else left

abbrev pub appended_by : PbgpSeg → ℕ → ℕ
appended_by seg n = elim seg.type [
  | invalid ↦ 0
  | as_set ↦ 1
  | as_seq ↦ n
  | confed_seq ↦ 0
  | confed_set ↦ 0
  | other ↦ 0
]

abbrev pub Handled : Type 0
Handled = Option (AsPath × Bool)

abbrev pub is_known : SegType → Bool
is_known invalid = false
is_known other = false
is_known _ = true

-- The rest of the loop, `k`, with what is still wanted after `n` more.
abbrev pub after_append : ℕ → ℕ → (AsPath → ℕ → Handled) → AsPath → Handled
after_append n left k path =
    if n == left then some (path, true) else if ltb left n then none else k path (left - n)

abbrev pub append_typed : AsPath → Option ℕ → List ℕ → (AsPath → Handled) → Handled
append_typed path none asns k = none
append_typed path (some type) asns k = append path type asns >>= k

abbrev pub append_seg : AsPath → PbgpSeg → ℕ → (AsPath → ℕ → Handled) → Handled
append_seg path seg left k =
    let n = to_append seg left in
    if n == 0
    then none
    else if is_known seg.type
    then append_typed path (as_path_type seg.type) (take n seg.asns)
        (after_append (appended_by seg n) left k)
    else some (path, false)

-- `left` is `asns_cnt - appended`.
unfoldable pub append_loop : List PbgpSeg → AsPath → ℕ → Handled
append_loop [] path left = some (path, true)
append_loop (seg ∷ rest) path left = append_seg path seg left (append_loop rest)

unfoldable pub append_segments : AsPath → PbgpPath → ℕ → Handled
unfolding append_loop
append_segments path pbgp_path asns_cnt =
    if asns_cnt == 0 then some (path, true) else append_loop pbgp_path.path_segs path asns_cnt

unfoldable pub append_all : List PbgpSeg → AsPath → Handled
append_all [] path = some (path, true)
append_all (seg ∷ rest) path = append_typed path (as_path_type seg.type) seg.asns (append_all rest)

-- append_segments_all after another step that succeeded.
abbrev pub then_all : Handled → PbgpPath → Handled
then_all none as4path = none
then_all (some (path, false)) as4path = some (path, false)
then_all (some (path, true)) as4path = append_all as4path.path_segs path

unfoldable pub handle_as_paths : AsPath → Option PbgpPath → Option PbgpPath → Handled
unfolding append_segments append_all
handle_as_paths path none none = some (clear path, true)
handle_as_paths path (some aspath) none = append_all aspath.path_segs (clear path)
handle_as_paths path none (some as4path) = append_all as4path.path_segs (clear path)
handle_as_paths path (some aspath) (some as4path) =
    if leb as4path.asns_cnt aspath.asns_cnt
    then then_all (append_segments (clear path) aspath (aspath.asns_cnt - as4path.asns_cnt)) as4path
    else append_all aspath.path_segs (clear path)
