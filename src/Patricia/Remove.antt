-- ===== src/Patricia/Remove.antt =====
-- Removing nodes, user pointers and clearing, of lib/utils/bgpstream_utils_patricia.c.
pub mod Reference
pub mod Set
pub mod Laws
use libbgpstream.Prelude.{
  ℕ, suc, ◌+◌, ◌-◌, ◌%◌, ◌^◌, Bool, true, false, not, ◌&&◌, Option, none, some, List, [], ◌∷◌, ◌==◌,
  if◌then◌else◌,
}
use libbgpstream.Addr.{AddrVersion, unknown, ipv4, ipv6}
use libbgpstream.Pfx.{Pfx}
use libbgpstream.Patricia.Tree.{
  Node, Tree, null, node, Frame, Loc, loc, up, plug, here, sibling_of, frame_info, Patricia,
  get_head, set_head, destroy_user,
}
use libbgpstream.Patricia.Search.{search_exact}

-- `(*num_active_node) - 1` on a `uint64_t`; every version but IPv6 counts as IPv4.
abbrev pub uncount_node : Patricia → AddrVersion → Patricia
uncount_node pt ipv6 = record pt {
  ipv6_active_nodes = (pt.ipv6_active_nodes + 2 ^ 64 - 1) % 2 ^ 64;
}
uncount_node pt _ = record pt { ipv4_active_nodes = (pt.ipv4_active_nodes + 2 ^ 64 - 1) % 2 ^ 64 }

-- A leaf goes, and with it a glue parent, whose other child takes its place.
unfoldable pub unlink_leaf : List Frame → Tree
unlink_leaf [] = null
unlink_leaf (f ∷ fs) = if (frame_info f).actual then plug (up null f) fs else plug (sibling_of f) fs

-- The head after the removal, and whether a node was freed and counted out.
unfoldable pub unlink : Node → Tree → Tree → List Frame → Tree × Bool
unfolding unlink_leaf
unlink i null null parents = (unlink_leaf parents, true)
unlink i (node j a b) null parents = (plug (node j a b) parents, true)
unlink i null (node k c d) parents = (plug (node k c d) parents, true)
unlink i (node j a b) (node k c d) parents = (
  plug (node (record i { actual = false; user = none }) (node j a b) (node k c d)) parents,
  false,
)

unfoldable pub removed : Patricia → AddrVersion → Tree × Bool → Patricia
removed pt v (head, freed) =
    let linked = set_head pt v head in if freed then uncount_node linked v else linked

unfoldable pub remove_node : Patricia → Option Loc → Patricia
unfolding unlink removed
remove_node pt none = pt
remove_node pt (some x) =
    if not x.info.actual
    then pt
    else removed (destroy_user pt x.info.user) x.info.prefix.address.version
        (unlink x.info x.l x.r x.parents)

unfoldable pub remove : Patricia → Pfx → Patricia
unfolding remove_node
remove pt pfx = remove_node pt (search_exact pt pfx)

user_eq : Option ℕ → Option ℕ → Bool
user_eq none none = true
user_eq none (some b) = false
user_eq (some a) none = false
user_eq (some a) (some b) = a == b

-- The tree, the node and what the call returns.
unfoldable pub set_user : Patricia → Loc → Option ℕ → Patricia × Loc × ℕ
unfolding user_eq
set_user pt x user =
    if user_eq x.info.user user
    then (pt, x, 0)
    else (let x' = record x { info = record (x.info) { user = user } } in
        let pt' = destroy_user pt x.info.user in
        (set_head pt' x.info.prefix.address.version (plug (here x') x.parents), x', 1))

unfoldable pub destroy_tree : Patricia → Tree → Patricia
destroy_tree pt null = pt
destroy_tree pt (node i l r) = destroy_user (destroy_tree (destroy_tree pt l) r) i.user

unfoldable pub clear : Patricia → Patricia
unfolding destroy_tree
clear pt =
    let pt4 = record (destroy_tree pt pt.head4) { ipv4_active_nodes = 0; head4 = null } in
    record (destroy_tree pt4 pt4.head6) { ipv6_active_nodes = 0; head6 = null }
