-- ===== src/Patricia/Merge.antt =====
-- bgpstream_patricia_tree_merge of lib/utils/bgpstream_utils_patricia.c is the union of two sets of
-- prefixes.
use libbgpstream.Prelude.{
  ◌≡◌, inl, inr, ap, ◌∙◌, Bool, true, false, ◌&&◌, ◌||◌, [], if◌then◌else◌, arith, Bool-cases,
}
use libbgpstream.Addr.{AddrVersion, unknown, ipv4, ipv6, version_eq}
use libbgpstream.Key.{Key, branch, key_eq}
use libbgpstream.Pfx.{key}
use libbgpstream.Patricia.Tree.{Node, Tree, null, node, Patricia, get_head}
use libbgpstream.Patricia.Tree.Shape.{HasShape, member}
use libbgpstream.Patricia.Insert.{insert, merge_tree, merge}
use libbgpstream.Patricia.Insert.Set.{IsTree, insert-IsTree, member-insert}
use libbgpstream.Patricia.Remove.Set.{member-node}

-- The trees are in shape, and hold what they held and what the test says, under the version.
abbrev Joined : Patricia → AddrVersion → (Key → Bool) → Patricia → Type 0
Joined dst v new after =
    IsTree after
    × ((w : AddrVersion) (k : Key)
        → member k (get_head after w) ≡ (member k (get_head dst w) || (version_eq w v && new k)))

with_node :
    (v : AddrVersion) (p : Key) (i : Node) (l r : Tree) (dst : Patricia)
    → HasShape v p (node i l r)
    → IsTree dst
    → Joined dst v
        (λ k. i.actual && key_eq (key i.prefix) k)
        (if i.actual then (insert dst i.prefix).0 else dst)
with_node v p i l r dst s tree = elim (Bool-cases i.actual) [
  | inl e ↦ rw e (
    insert-IsTree dst i.prefix tree s.0.ok,
    λ w k.
        member-insert dst i.prefix w k tree s.0.ok
        ∙ ap (λ u. member k (get_head dst w) || (version_eq w u && key_eq (key i.prefix) k))
            s.0.version,
  )
  | inr e ↦ rw e (tree, λ w k. ground arith)
]

all_three :
    (a v own left right : Bool) {b c d whole : Bool}
    → b ≡ (a || (v && own))
    → c ≡ (b || (v && left))
    → d ≡ (c || (v && right))
    → whole ≡ (own || (left || right))
    → d ≡ (a || (v && whole))
all_three a v own left right e f g h = ground arith

merge_tree-Joined :
    (v : AddrVersion) (t : Tree) (p : Key) (dst : Patricia)
    → HasShape v p t
    → IsTree dst
    → Joined dst v (λ k. member k t) (merge_tree dst t)
unfolding merge_tree
merge_tree-Joined v null p dst s tree = (tree, λ w k. unfold member in ground arith)
merge_tree-Joined v (node i l r) p dst s tree =
    let mid : Patricia = if i.actual then (insert dst i.prefix).0 else dst in
    let first = with_node v p i l r dst s tree in
    let second = merge_tree-Joined v l (branch (key i.prefix) false) mid s.2 first.0 in
    let third =
      merge_tree-Joined v r (branch (key i.prefix) true) (merge_tree mid l) s.3 second.0 in
    (
      third.0,
      λ w k. all_three _ _ _ _ _ (first.1 w k) (second.1 w k) (third.1 w k) (member-node k i l r),
    )

-- Where all four trees are in shape, the merge of two pairs of trees is in shape, and holds under
-- each version the prefixes of either pair, and no others.
pub merge-member :
    (dst src : Patricia)
    → IsTree dst
    → IsTree src
    → IsTree (merge dst src)
      × ((w : AddrVersion) (k : Key)
          → member k (get_head (merge dst src) w)
            ≡ (member k (get_head dst w) || member k (get_head src w)))
unfolding merge
merge-member dst src d s =
    let four = merge_tree-Joined ipv4 src.head4 [] dst s.shape4 d in
    let six = merge_tree-Joined ipv6 src.head6 [] (merge_tree dst src.head4) s.shape6 four.0 in
    (six.0, λ w k. by_version w k (four.1 w k) (six.1 w k))
  where
    by_version :
        (w : AddrVersion) (k : Key)
        → member k (get_head (merge_tree dst src.head4) w)
          ≡ (member k (get_head dst w) || (version_eq w ipv4 && member k src.head4))
        → member k (get_head (merge_tree (merge_tree dst src.head4) src.head6) w) ≡ (
            member k (get_head (merge_tree dst src.head4) w)
            || (version_eq w ipv6 && member k src.head6))
        → member k (get_head (merge_tree (merge_tree dst src.head4) src.head6) w)
          ≡ (member k (get_head dst w) || member k (get_head src w))
    by_version ipv4 k e f = ground arith
    by_version ipv6 k e f = ground arith
    by_version unknown k e f = unfold member in ground arith
