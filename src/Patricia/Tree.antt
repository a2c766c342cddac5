-- ===== src/Patricia/Tree.antt =====
-- The data of lib/utils/bgpstream_utils_patricia.c. A node pointer with its `parent` links is a
-- location: the node and the frames between it and the head, the nearest first.
pub mod Shape
use libbgpstream.Prelude.{ℕ, ◌+◌, ◌%◌, ◌^◌, Bool, true, false, Option, none, some, List, [], ◌∷◌}
use libbgpstream.Addr.{AddrVersion, unknown, ipv4, ipv6}
use libbgpstream.Pfx.{Pfx}

-- A `user` pointer is the number of what it points to, and `none` if it is null.
pub record Node : Type 0 where
  pub actual : Bool
  pub prefix : Pfx
  pub user : Option ℕ

pub data Tree : Type 0 where
  null : Tree
  node : Node → Tree → Tree → Tree

-- The parent of a left or of a right child, with the sibling.
pub data Frame : Type 0 where
  left_of : Node → Tree → Frame
  right_of : Node → Tree → Frame

pub record Loc : Type 0 where
  pub info : Node
  pub l : Tree
  pub r : Tree
  pub parents : List Frame

abbrev pub loc : Node → Tree → Tree → List Frame → Loc
loc i l r parents = record { info = i; l = l; r = r; parents = parents }

abbrev pub up : Tree → Frame → Tree
up t (left_of i r) = node i t r
up t (right_of i l) = node i l t

-- The whole tree, with `t` where the location stands.
abbrev pub plug : Tree → List Frame → Tree
plug t [] = t
plug t (f ∷ fs) = plug (up t f) fs

abbrev pub here : Loc → Tree
here x = node x.info x.l x.r

-- The node that a frame is of, as a location, above the child `t`.
abbrev pub frame_loc : Tree → Frame → List Frame → Loc
frame_loc t (left_of i r) fs = loc i t r fs
frame_loc t (right_of i l) fs = loc i l t fs

abbrev pub frame_info : Frame → Node
frame_info (left_of i r) = i
frame_info (right_of i l) = i

abbrev pub sibling_of : Frame → Tree
sibling_of (left_of i r) = r
sibling_of (right_of i l) = l

-- `node->parent`.
abbrev pub parent_at : Tree → List Frame → Option Loc
parent_at t [] = none
parent_at t (f ∷ fs) = some (frame_loc t f fs)

abbrev pub parent_of : Loc → Option Loc
parent_of x = parent_at (here x) x.parents

-- `destroyed` records the calls of `node_user_destructor`, the last first.
pub record Patricia : Type 0 where
  pub head4 : Tree
  pub head6 : Tree
  pub ipv4_active_nodes : ℕ
  pub ipv6_active_nodes : ℕ
  pub has_destructor : Bool
  pub destroyed : List ℕ

abbrev pub create : Bool → Patricia
create has_destructor = record {
  head4 = null;
  head6 = null;
  ipv4_active_nodes = 0;
  ipv6_active_nodes = 0;
  has_destructor = has_destructor;
  destroyed = [];
}

abbrev pub get_head : Patricia → AddrVersion → Tree
get_head pt ipv4 = pt.head4
get_head pt ipv6 = pt.head6
get_head pt unknown = null

-- An unknown version fails an assertion in the source.
abbrev pub set_head : Patricia → AddrVersion → Tree → Patricia
set_head pt ipv4 n = record pt { head4 = n }
set_head pt ipv6 n = record pt { head6 = n }
set_head pt unknown n = pt

abbrev pub active_nodes : Patricia → AddrVersion → ℕ
active_nodes pt ipv4 = pt.ipv4_active_nodes
active_nodes pt _ = pt.ipv6_active_nodes

-- `uint64_t` counters; a node is counted with its allocation.
abbrev pub count_node : Patricia → AddrVersion → Patricia
count_node pt ipv4 = record pt { ipv4_active_nodes = (pt.ipv4_active_nodes + 1) % 2 ^ 64 }
count_node pt _ = record pt { ipv6_active_nodes = (pt.ipv6_active_nodes + 1) % 2 ^ 64 }

-- `node_user_destructor(user)`, where both are set.
abbrev pub destroy_user : Patricia → Option ℕ → Patricia
destroy_user pt none = pt
destroy_user pt (some u) = elim pt.has_destructor [
  | true ↦ record pt { destroyed = u ∷ pt.destroyed }
  | false ↦ pt
]

unfoldable pub get_user : Loc → Option ℕ
get_user x = x.info.user

unfoldable pub get_pfx : Loc → Option Pfx
get_pfx x = elim x.info.actual [ true ↦ some x.info.prefix | false ↦ none ]
