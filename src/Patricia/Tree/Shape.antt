-- ===== src/Patricia/Tree/Shape.antt =====
-- The invariant of one tree, and the prefixes that it holds.
use libbgpstream.Prelude.{
  ℕ, ◌<◌, ◌≡◌, ◌⊎◌, inl, inr, subst, Bool, true, false, ◌&&◌, ◌||◌, List, [], ◌∷◌, arith,
}
use libbgpstream.Addr.{AddrVersion}
use libbgpstream.Key.{Key, PrefixOf, branch, PrefixOf-trans, branch-parent, key_eq, key_eq_sound}
use libbgpstream.Pfx.{IsPfx, key}
use libbgpstream.Patricia.Tree.{Node, Tree, null, node, Frame, frame_info}

-- The prefix of a node that stands below the bits `p` in a tree of version `v`.
pub record NodeOk (v : AddrVersion) (p : Key) (i : Node) : Type 0 where
  pub ok : IsPfx i.prefix
  pub version : i.prefix.address.version ≡ v
  pub below : PrefixOf p (key i.prefix)

abbrev pub is_node : Tree → Bool
is_node null = false
is_node (node i l r) = true

-- A glue node has two children.
abbrev pub linked : Node → Tree → Tree → Bool
linked i l r = i.actual || (is_node l && is_node r)

-- Every prefix goes on from its parent's with the bit of its side.
abbrev pub HasShape : AddrVersion → Key → Tree → Type 0
HasShape v p null = Unit {0}
HasShape v p (node i l r) =
    NodeOk v p i
    × (linked i l r ≡ true)
    × HasShape v (branch (key i.prefix) false) l
    × HasShape v (branch (key i.prefix) true) r

-- Whether an actual node of the tree has the key.
unfoldable pub member : Key → Tree → Bool
member k null = false
member k (node i l r) = (i.actual && key_eq (key i.prefix) k) || (member k l || member k r)

pub NodeOk-weaken :
    {v : AddrVersion} {i : Node} (p q : Key) → PrefixOf p q → NodeOk v q i → NodeOk v p i
NodeOk-weaken {i} p q h n = record {
  ok = n.ok;
  version = n.version;
  below = PrefixOf-trans p q (key i.prefix) h n.below;
}

pub HasShape-weaken :
    (v : AddrVersion) (p q : Key) (t : Tree) → PrefixOf p q → HasShape v q t → HasShape v p t
HasShape-weaken v p q null h s = tt
HasShape-weaken v p q (node i l r) h s = (NodeOk-weaken p q h s.0, s.1, s.2, s.3)

pub or_cases : (a b c : Bool) → (a || (b || c)) ≡ true → (a ≡ true) ⊎ ((b ≡ true) ⊎ (c ≡ true))
or_cases a b c h = ground arith

pub and_left : (a b : Bool) → (a && b) ≡ true → (a ≡ true) × (b ≡ true)
and_left a b h = ground arith

-- Every prefix of a tree goes on from the bits that it stands below.
pub member-below :
    (v : AddrVersion) (p k : Key) (t : Tree) → HasShape v p t → member k t ≡ true → PrefixOf p k
unfolding member
member-below v p k null s m = cc
member-below v p k (node i l r) s m =
    split (or_cases _ _ _ m) (member-below v (branch (key i.prefix) false) k l s.2)
      (member-below v (branch (key i.prefix) true) k r s.3)
  where
    split :
        ((i.actual && key_eq (key i.prefix) k) ≡ true) ⊎ ((member k l ≡ true) ⊎ (member k r ≡ true))
        → (member k l ≡ true → PrefixOf (branch (key i.prefix) false) k)
        → (member k r ≡ true → PrefixOf (branch (key i.prefix) true) k)
        → PrefixOf p k
    split (inl at) left right =
        subst (PrefixOf p) (key_eq_sound (key i.prefix) k (and_left _ _ at).1) s.0.below
    split (inr (inl m)) left right =
        PrefixOf-trans p (key i.prefix) k s.0.below (branch-parent (key i.prefix) k false (left m))
    split (inr (inr m)) left right =
        PrefixOf-trans p (key i.prefix) k s.0.below (branch-parent (key i.prefix) k true (right m))

-- The nearest parent has fewer bits than `n`.
abbrev pub ParentsBelow : ℕ → List Frame → Type 0
ParentsBelow n [] = Unit {0}
ParentsBelow n (f ∷ fs) = (frame_info f).prefix.mask_len < n
