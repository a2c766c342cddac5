-- ===== src/Patricia/Search.antt =====
-- Searching: comp_with_mask, bpt_search_node, bpt_find_insert_point_const and
-- bgpstream_patricia_tree_search_exact_const of lib/utils/bgpstream_utils_patricia.c.
pub mod Compare
pub mod Differ
pub mod Descent
pub mod Exact
use libbgpstream.Prelude.{
  ℕ, zero, suc, ◌+◌, ◌-◌, ◌*◌, ◌/◌, ◌%◌, ◌^◌, Bool, true, false, not, ◌&&◌, ◌||◌, Option, none,
  some, List, [], ◌∷◌, bit_and, bit_xor, ltb, leb, ◌==◌, if◌then◌else◌, get_or,
}
use libbgpstream.Addr.{bit_array_test, memcmp_eq}
use libbgpstream.Pfx.{Pfx}
use libbgpstream.Patricia.Tree.{
  Node, Tree, null, node, Frame, left_of, right_of, Loc, loc, up, frame_loc, frame_info, Patricia,
  get_head,
}

-- `(-1) << (8 - mask % 8)`, as a 32-bit pattern.
unfoldable pub comp_with_mask : List ℕ → List ℕ → ℕ → Bool
comp_with_mask addr dest mask =
    if memcmp_eq addr dest (mask / 8)
    then (let n = mask / 8 in
        let m = 2 ^ 32 - 2 ^ (8 - mask % 8) in
        (mask % 8 == 0) || (bit_and (get_or addr n 0) m == bit_and (get_or dest n 0) m))
    else false

abbrev pub or_here : Option Loc → Loc → Option Loc
or_here none x = some x
or_here (some y) x = some y

-- `none` for a null pointer only.
unfoldable pub search_node : Tree → List Frame → Pfx → Option Loc
search_node null parents pfx = none
search_node (node i l r) parents pfx =
    let right = or_here (search_node r (right_of i l ∷ parents) pfx) (loc i l r parents) in
    let left = or_here (search_node l (left_of i r ∷ parents) pfx) (loc i l r parents) in
    if ltb i.prefix.mask_len pfx.mask_len
    then if bit_array_test pfx.address.bytes i.prefix.mask_len then right else left
    else some (loc i l r parents)

-- The first of the bits from j on that is set in r, with `left` of the eight still to test.
unfoldable pub first_set : ℕ → ℕ → ℕ → ℕ
first_set zero j r = j
first_set (suc left) j r =
    if not (bit_and r (0x80 / 2 ^ j) == 0) then j else first_set left (j + 1) r

-- The loop over the bytes; every round starts a byte that holds a bit below `check_bit`.
unfoldable pub differ_loop : List ℕ → List ℕ → ℕ → ℕ → ℕ → ℕ → ℕ
differ_loop paddr naddr check_bit zero i differ_bit = differ_bit
differ_loop paddr naddr check_bit (suc rounds) i differ_bit =
    let r = bit_xor (get_or paddr i 0) (get_or naddr i 0) in
    let rest = differ_loop paddr naddr check_bit rounds (i + 1) ((i + 1) * 8) in
    if ltb (i * 8) check_bit then if r == 0 then rest else i * 8 + first_set 8 0 r else differ_bit

unfoldable pub find_differ_bit : Pfx → Pfx → ℕ
unfolding differ_loop first_set
find_differ_bit pfx n =
    let check_bit = if ltb n.mask_len pfx.mask_len then n.mask_len else pfx.mask_len in
    let differ_bit = differ_loop pfx.address.bytes n.address.bytes check_bit check_bit 0 0 in
    if ltb check_bit differ_bit then check_bit else differ_bit

-- Back up to the node whose parent has a shorter prefix than `differ_bit`.
unfoldable pub climb : ℕ → Node → Tree → Tree → List Frame → Loc
climb d i l r [] = loc i l r []
climb d i l r (left_of p s ∷ fs) =
    if leb d p.prefix.mask_len then climb d p (node i l r) s fs else loc i l r (left_of p s ∷ fs)
climb d i l r (right_of p s ∷ fs) =
    if leb d p.prefix.mask_len then climb d p s (node i l r) fs else loc i l r (right_of p s ∷ fs)

-- What the new prefix is to the node of the insertion point.
pub data Relation : Type 0 where
  self parent child sibling : Relation

pub record InsertPoint : Type 0 where
  pub at : Loc
  pub relation : Relation
  pub differ_bit : ℕ

unfoldable pub relation_to : ℕ → ℕ → ℕ → Relation
relation_to differ_bit bitlen node_len =
    if (differ_bit == bitlen) && (node_len == bitlen)
    then self
    else if node_len == differ_bit
    then parent
    else if bitlen == differ_bit
    then child
    else sibling

unfoldable pub insert_point_from : Pfx → Loc → InsertPoint
unfolding find_differ_bit climb relation_to
insert_point_from pfx found =
    let d = find_differ_bit pfx found.info.prefix in
    let x = climb d found.info found.l found.r found.parents in
    record { at = x; relation = relation_to d pfx.mask_len x.info.prefix.mask_len; differ_bit = d }

unfoldable pub find_insert_point : Tree → Pfx → Option InsertPoint
unfolding search_node insert_point_from
find_insert_point t pfx = elim (search_node t [] pfx) [
  | none ↦ none
  | some found ↦ some (insert_point_from pfx found)
]

pub exact_or_none : Pfx → Loc → Option Loc
exact_or_none pfx x =
    if not (x.info.prefix.mask_len == pfx.mask_len) || not x.info.actual
    then none
    else if comp_with_mask x.info.prefix.address.bytes pfx.address.bytes pfx.mask_len
    then some x
    else none

unfoldable pub search_exact : Patricia → Pfx → Option Loc
unfolding search_node exact_or_none comp_with_mask
search_exact pt pfx = elim (search_node (get_head pt pfx.address.version) [] pfx) [
  | none ↦ none
  | some x ↦ exact_or_none pfx x
]
