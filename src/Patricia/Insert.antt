-- ===== src/Patricia/Insert.antt =====
-- bgpstream_patricia_tree_insert, the creation of nodes and the merge of two trees, of
-- lib/utils/bgpstream_utils_patricia.c. Allocation succeeds.
pub mod Place
pub mod Reference
pub mod Shape
pub mod Refines
pub mod Set
use libbgpstream.Prelude.{
  ℕ, Bool, true, false, ◌&&◌, Option, none, some, List, [], ◌∷◌, ltb, if◌then◌else◌,
}
use libbgpstream.Addr.{AddrVersion, addr_mask, addr_copy, bit_array_test}
use libbgpstream.Pfx.{Pfx, match_any}
use libbgpstream.Patricia.Tree.{
  Node, Tree, null, node, Frame, left_of, right_of, Loc, loc, plug, here, Patricia, get_head,
  set_head, count_node,
}
use libbgpstream.Patricia.Search.{
  Relation, self, parent, child, sibling, InsertPoint, find_insert_point,
}

-- `BGPSTREAM_PATRICIA_MAXBITS`
abbrev pub max_bits : ℕ
max_bits = 128

-- The node of bgpstream_patricia_node_create; the tree counts it by `count_node`.
abbrev pub node_create : Pfx → Node
node_create pfx = record { actual = true; prefix = pfx; user = none }

-- The other fields of a glue node are zero.
unfoldable pub gluenode_create : Pfx → ℕ → Node
gluenode_create pfx mask_len = record {
  actual = false;
  prefix = record {
    mask_len = mask_len;
    allowed_matches = 0;
    address = addr_mask pfx.address mask_len;
  };
  user = none;
}

-- Which way the bit leads, unless it is past the last.
abbrev pub bit_of : Pfx → ℕ → Bool
bit_of pfx n = ltb n max_bits && bit_array_test pfx.address.bytes n

-- The new node as a child of the insertion point, where the child pointer is null.
unfoldable pub append_child : Loc → Node → Loc
append_child x new =
    if bit_of new.prefix x.info.prefix.mask_len
    then loc new null null (right_of x.info x.l ∷ x.parents)
    else loc new null null (left_of x.info x.r ∷ x.parents)

-- The new node as the parent of the insertion point.
unfoldable pub attach_parent : Loc → Node → Loc
attach_parent x new =
    if bit_of x.info.prefix new.prefix.mask_len
    then loc new null (here x) x.parents
    else loc new (here x) null x.parents

-- The new node beside the insertion point, under a glue node.
unfoldable pub attach_sibling : Loc → Node → Node → Loc
attach_sibling x new glue =
    if bit_of new.prefix glue.prefix.mask_len
    then loc new null null (right_of glue (here x) ∷ x.parents)
    else loc new null null (left_of glue (here x) ∷ x.parents)

-- The location of the node that the prefix is at afterwards, and whether it was added.
unfoldable pub insert_at : Pfx → InsertPoint → Loc × Bool
unfolding append_child attach_parent attach_sibling gluenode_create
insert_at pfx p = elim p.relation [
  | self ↦
      if p.at.info.actual
      then (p.at, false)
      else (record (p.at) { info = record (p.at.info) { actual = true } }, true)
  | parent ↦ (append_child p.at (node_create pfx), true)
  | child ↦ (attach_parent p.at (node_create pfx), true)
  | sibling ↦ (attach_sibling p.at (node_create pfx) (gluenode_create pfx p.differ_bit), true)
]

unfoldable pub insert_result : Patricia → AddrVersion → Loc × Bool → Patricia × Loc
insert_result pt v (x, added) =
    let linked = set_head pt v (plug (here x) x.parents) in
    (if added then count_node linked v else linked, x)

-- The tree, and the node that the prefix is at.
unfoldable pub insert : Patricia → Pfx → Patricia × Loc
unfolding insert_at insert_result find_insert_point
insert pt pfx = elim (find_insert_point (get_head pt pfx.address.version) pfx) [
  | none ↦ insert_result pt pfx.address.version (loc (node_create pfx) null null [], true)
  | some p ↦ insert_result pt pfx.address.version (insert_at pfx p)
]

-- The actual nodes of a tree are inserted, a node before its children.
unfoldable pub merge_tree : Patricia → Tree → Patricia
unfolding insert
merge_tree dst null = dst
merge_tree dst (node i l r) =
    let with_node = if i.actual then (insert dst i.prefix).0 else dst in
    merge_tree (merge_tree with_node l) r

unfoldable pub merge : Patricia → Patricia → Patricia
unfolding merge_tree
merge dst src = merge_tree (merge_tree dst src.head4) src.head6
