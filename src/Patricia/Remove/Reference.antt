-- ===== src/Patricia/Remove/Reference.antt =====
-- Removal from the head down: what the code is compared with.
use libbgpstream.Prelude.{
  ◌<◌, ◌≡◌, refl, ◌∙◌, true, false, List, [], ◌∷◌, none, some, arith, if◌then◌else◌,
}
use libbgpstream.Addr.{AddrVersion, bit_array_test}
use libbgpstream.Key.{Key, branch, key_eq, key_eq_sound, key_eq_refl}
use libbgpstream.Pfx.{Pfx, key}
use libbgpstream.Pfx.Keys.{length-key}
use libbgpstream.Patricia.Tree.{
  Node, Tree, null, node, Frame, left_of, right_of, Loc, up, plug, sibling_of, frame_info,
}
use libbgpstream.Patricia.Tree.Shape.{HasShape, is_node, linked}
use libbgpstream.Patricia.Search.{search_node}
use libbgpstream.Patricia.Search.Descent.{search_node_ind}
use libbgpstream.Patricia.Remove.{unlink, unlink_leaf}

-- A node's children once it goes; with two of them it stays as a glue node.
unfoldable pub drop_node : Node → Tree → Tree → Tree
drop_node i null null = null
drop_node i (node j a b) null = node j a b
drop_node i null (node j a b) = node j a b
drop_node i (node j a b) (node k c d) =
    node (record i { actual = false; user = none }) (node j a b) (node k c d)

-- A glue node that is left with one child gives way to it.
unfoldable pub rejoin : Node → Tree → Tree → Tree
rejoin i l r = if linked i l r then node i l r else if is_node l then l else r

unfoldable pub del : Pfx → Tree → Tree
del pfx null = null
del pfx (node i l r) =
    let below =
      if bit_array_test pfx.address.bytes i.prefix.mask_len
      then rejoin i l (del pfx r)
      else rejoin i (del pfx l) r in
    if key_eq (key i.prefix) (key pfx) then drop_node i l r else below

-- The whole tree, where a glue parent gives way if the subtree is gone.
unfoldable pub settle : Tree → List Frame → Tree
settle null [] = null
settle null (f ∷ fs) = if (frame_info f).actual then plug (up null f) fs else plug (sibling_of f) fs
settle (node i l r) fs = plug (node i l r) fs

settle-rejoin_left :
    (i : Node) (t l r : Tree) (fs : List Frame)
    → linked i l r ≡ true
    → settle t (left_of i r ∷ fs) ≡ settle (rejoin i t r) fs
unfolding settle rejoin
settle-rejoin_left i null l null fs h = ground arith
settle-rejoin_left i null l (node k c d) fs h = ground arith
settle-rejoin_left i (node j a b) l null fs h = ground arith
settle-rejoin_left i (node j a b) l (node k c d) fs h = ground arith

settle-rejoin_right :
    (i : Node) (t l r : Tree) (fs : List Frame)
    → linked i l r ≡ true
    → settle t (right_of i l ∷ fs) ≡ settle (rejoin i l t) fs
unfolding settle rejoin
settle-rejoin_right i null null r fs h = ground arith
settle-rejoin_right i null (node k c d) r fs h = ground arith
settle-rejoin_right i (node j a b) null r fs h = ground arith
settle-rejoin_right i (node j a b) (node k c d) r fs h = ground arith

settle-drop_node :
    (i : Node) (l r : Tree) (fs : List Frame) → (unlink i l r fs).0 ≡ settle (drop_node i l r) fs
unfolding unlink unlink_leaf settle drop_node
settle-drop_node i null null [] = refl
settle-drop_node i null null (f ∷ fs) = refl
settle-drop_node i (node j a b) null fs = refl
settle-drop_node i null (node j a b) fs = refl
settle-drop_node i (node j a b) (node k c d) fs = refl

module _ (v : AddrVersion) (pfx : Pfx) where
  abbrev Removed : Tree → List Frame → Loc → Type 0
  Removed t fs x =
      (p : Key)
      → HasShape v p t
      → key x.info.prefix ≡ key pfx
      → (unlink x.info x.l x.r x.parents).0 ≡ settle (del pfx t) fs

  shorter : (i : Node) → i.prefix.mask_len < pfx.mask_len → key_eq (key i.prefix) (key pfx) ≡ false
  shorter i lt =
      ground (arith, key_eq_sound (key i.prefix) (key pfx), length-key i.prefix, length-key pfx)

  -- Removing the node that the search found is removal from the head down.
  pub unlink-del :
      (t : Tree) (fs : List Frame) (x : Loc) → search_node t fs pfx ≡ some x → Removed t fs x
  unfolding del
  unlink-del =
      search_node_ind pfx Removed
        (λ i l r fs stops p s at. rw (at, key_eq_refl (key pfx)) (settle-drop_node i l r fs))
        (λ i l r fs x e short zero deeper rest p s at.
          rw (shorter i short, zero)
            (rest (branch (key i.prefix) false) s.2 at
              ∙ settle-rejoin_left i (del pfx l) l r fs s.1))
        (λ i l r fs x e short one deeper rest p s at.
          rw (shorter i short, one)
            (rest (branch (key i.prefix) true) s.3 at
              ∙ settle-rejoin_right i (del pfx r) l r fs s.1))
