-- ===== src/Patricia/Overlap.antt =====
-- bgpstream_patricia_tree_get_node_overlap_info of lib/utils/bgpstream_utils_patricia.c, by the
-- prefixes that the whole tree holds.
use libbgpstream.Prelude.{
  ℕ, ◌≤◌, ◌<◌, ◌≡◌, refl, sym, ap, ap₂, subst, ◌∙◌, Bool, true, false, not, ◌&&◌, ◌||◌, some, List,
  [], ◌∷◌, length, bit_or, if◌then◌else◌, arith,
}
use libbgpstream.Addr.{AddrVersion, bit_array_test}
use libbgpstream.Key.{
  Key, bit_at, PrefixOf, PrefixOf-trans, branch, branch-bit, branch-parent, branch-lt,
  length-branch,
}
use libbgpstream.Pfx.{Pfx, IsPfx, key}
use libbgpstream.Pfx.Keys.{length-key, bit_at-key}
use libbgpstream.Patricia.Tree.{
  Node, Tree, node, Frame, left_of, right_of, Loc, loc, Patricia, get_head,
}
use libbgpstream.Patricia.Tree.Shape.{HasShape}
use libbgpstream.Patricia.Search.{search_node, search_exact}
use libbgpstream.Patricia.Search.Descent.{search_node_ind, search_node-below}
use libbgpstream.Patricia.Insert.Set.{IsTree, head-HasShape}
use libbgpstream.Patricia.Remove.Laws.{IsFound, search_exact-IsFound}
use libbgpstream.Patricia.Walk.{
  find_more_specific, has_actual_parent, get_node_overlap_info, less_specifics_bit, exact_match_bit,
  more_specifics_bit,
}
use libbgpstream.Patricia.Leads.{
  leads, leads_sound, leads_complete, PrefixOf-chain, any_key, any_key-none, any_key-all,
}

module _ (v : AddrVersion) (pfx : Pfx) where
  abbrev above : Key → Bool
  above q = leads q (key pfx)

  abbrev beyond : Key → Bool
  beyond q = leads (key pfx) q

  not_true : (b : Bool) → (b ≡ true → ⊥) → b ≡ false
  not_true true h = absurd (h refl)
  not_true false h = refl

  -- The prefix does not stand on the other side of a shorter node.
  other_side :
      (i : Node) (b : Bool)
      → i.prefix.mask_len < pfx.mask_len
      → bit_array_test pfx.address.bytes i.prefix.mask_len ≡ not b
      → PrefixOf (branch (key i.prefix) b) (key pfx)
      → ⊥
  other_side i b lt e h = not_same b (
      sym e
      ∙ sym (bit_at-key pfx i.prefix.mask_len lt)
      ∙ ap (λ n. bit_at (key pfx) n) (sym (length-key i.prefix))
      ∙ branch-bit (key i.prefix) (key pfx) b h)
    where
      not_same : (c : Bool) → not c ≡ c → ⊥
      not_same true h = cc
      not_same false h = cc

  no_above :
      (i : Node) (b : Bool) (t : Tree)
      → i.prefix.mask_len < pfx.mask_len
      → bit_array_test pfx.address.bytes i.prefix.mask_len ≡ not b
      → HasShape v (branch (key i.prefix) b) t
      → any_key above t ≡ false
  no_above i b t lt e s = any_key-none above v (branch (key i.prefix) b) t s (λ k q.
      not_true (above k) (λ h.
        other_side i b lt e
          (PrefixOf-trans (branch (key i.prefix) b) k (key pfx) q (leads_sound k (key pfx) h).0)))

  no_beyond :
      (i : Node) (b : Bool) (t : Tree)
      → i.prefix.mask_len < pfx.mask_len
      → bit_array_test pfx.address.bytes i.prefix.mask_len ≡ not b
      → HasShape v (branch (key i.prefix) b) t
      → any_key beyond t ≡ false
  no_beyond i b t lt e s = any_key-none beyond v (branch (key i.prefix) b) t s (λ k q.
      not_true (beyond k) (λ h. other_side i b lt e (
        PrefixOf-chain (branch (key i.prefix) b) (key pfx) k q (leads_sound (key pfx) k h).0
          (omega (arith, length-branch (key i.prefix) b, length-key i.prefix, length-key pfx)))))

  -- Where the prefix's own node is: no key there or below leads it, and all below go on from it.
  not_longer : (q : Key) → length (key pfx) ≤ length q → above q ≡ false
  not_longer q le = not_true (above q) (λ h. omega (arith, (leads_sound q (key pfx) h).1, le))

  below_own :
      (i : Node) (b : Bool) (k : Key)
      → key i.prefix ≡ key pfx
      → PrefixOf (branch (key i.prefix) b) k
      → PrefixOf (key pfx) k × (length (key pfx) < length k)
  below_own i b k at q = (
    subst (λ a. PrefixOf a k) at (branch-parent (key i.prefix) k b q),
    omega (arith, ap length at, branch-lt (key i.prefix) k b q),
  )

  abbrev LessAbove : Tree → List Frame → Loc → Type 0
  LessAbove t fs x =
      (p : Key)
      → HasShape v p t
      → key x.info.prefix ≡ key pfx
      → has_actual_parent x.parents ≡ (any_key above t || has_actual_parent fs)

  less_at_stop :
      (i : Node) (l r : Tree) (fs : List Frame) → LessAbove (node i l r) fs (loc i l r fs)
  unfolding any_key
  less_at_stop i l r fs p s at = ground (
    arith,
    not_longer (key i.prefix) (omega (arith, ap length at)),
    any_key-none above v (branch (key i.prefix) false) l s.2
        (λ k q. not_longer k (omega (arith, (below_own i false k at q).1))),
    any_key-none above v (branch (key i.prefix) true) r s.3
        (λ k q. not_longer k (omega (arith, (below_own i true k at q).1))),
  )

  -- A node that the search passes on the way to the prefix's node leads the prefix.
  passed_leads :
      (i : Node) (b : Bool) (t : Tree) (fs : List Frame) (x : Loc)
      → search_node t fs pfx ≡ some x
      → HasShape v (branch (key i.prefix) b) t
      → key x.info.prefix ≡ key pfx
      → above (key i.prefix) ≡ true
  passed_leads i b t fs x e s at =
      leads_complete (key i.prefix) (key pfx) (branch-parent (key i.prefix) (key pfx) b here)
        (branch-lt (key i.prefix) (key pfx) b here)
    where
      here : PrefixOf (branch (key i.prefix) b) (key pfx)
      here =
          subst (PrefixOf (branch (key i.prefix) b)) at
            (search_node-below pfx v t fs x e (branch (key i.prefix) b) s).below

  less_from_left :
      {above_x at r : Bool} (actual l fs : Bool)
      → above_x ≡ (l || (actual || fs))
      → at ≡ true
      → r ≡ false
      → above_x ≡ (((actual && at) || (l || r)) || fs)
  less_from_left actual l fs e f g = ground arith

  less_from_right :
      {above_x at l : Bool} (actual r fs : Bool)
      → above_x ≡ (r || (actual || fs))
      → at ≡ true
      → l ≡ false
      → above_x ≡ (((actual && at) || (l || r)) || fs)
  less_from_right actual r fs e f g = ground arith

  more_at_stop :
      {at l r l' r' : Bool} (actual : Bool)
      → at ≡ false
      → l ≡ l'
      → r ≡ r'
      → (l' || r') ≡ ((actual && at) || (l || r))
  more_at_stop actual e f g = ground arith

  more_from_left :
      {below_x at l r : Bool} (actual : Bool)
      → below_x ≡ l
      → at ≡ false
      → r ≡ false
      → below_x ≡ ((actual && at) || (l || r))
  more_from_left actual e f g = ground arith

  more_from_right :
      {below_x at l r : Bool} (actual : Bool)
      → below_x ≡ r
      → at ≡ false
      → l ≡ false
      → below_x ≡ ((actual && at) || (l || r))
  more_from_right actual e f g = ground arith

  parents_lead :
      (t : Tree) (fs : List Frame) (x : Loc) → search_node t fs pfx ≡ some x → LessAbove t fs x
  unfolding any_key has_actual_parent
  parents_lead =
      search_node_ind pfx LessAbove (λ i l r fs stops. less_at_stop i l r fs)
        (λ i l r fs x e short zero deeper rest p s at.
          less_from_left i.actual _ _ (rest (branch (key i.prefix) false) s.2 at)
            (passed_leads i false l (left_of i r ∷ fs) x deeper s.2 at)
            (no_above i true r short zero s.3))
        (λ i l r fs x e short one deeper rest p s at.
          less_from_right i.actual _ _ (rest (branch (key i.prefix) true) s.3 at)
            (passed_leads i true r (right_of i l ∷ fs) x deeper s.3 at)
            (no_above i false l short one s.2))

  abbrev MoreBelow : Tree → List Frame → Loc → Type 0
  MoreBelow t fs x =
      (p : Key)
      → HasShape v p t
      → key x.info.prefix ≡ key pfx
      → (find_more_specific x.l || find_more_specific x.r) ≡ any_key beyond t

  not_shorter : (q : Key) → length q ≤ length (key pfx) → beyond q ≡ false
  not_shorter q le = not_true (beyond q) (λ h. omega (arith, (leads_sound (key pfx) q h).1, le))

  all_below_own :
      (i : Node) (b : Bool) (t : Tree)
      → key i.prefix ≡ key pfx
      → HasShape v (branch (key i.prefix) b) t
      → any_key beyond t ≡ find_more_specific t
  all_below_own i b t at s =
      any_key-all beyond v (branch (key i.prefix) b) t s
        (λ k q. leads_complete (key pfx) k (below_own i b k at q).0 (below_own i b k at q).1)

  children_follow :
      (t : Tree) (fs : List Frame) (x : Loc) → search_node t fs pfx ≡ some x → MoreBelow t fs x
  unfolding any_key
  children_follow =
      search_node_ind pfx MoreBelow
        (λ i l r fs stops p s at.
          more_at_stop i.actual (not_shorter (key i.prefix) (omega (arith, ap length at)))
            (all_below_own i false l at s.2) (all_below_own i true r at s.3))
        (λ i l r fs x e short zero deeper rest p s at.
          more_from_left i.actual (rest (branch (key i.prefix) false) s.2 at)
            (not_shorter (key i.prefix) (omega (arith, length-key i.prefix, length-key pfx)))
            (no_beyond i true r short zero s.3))
        (λ i l r fs x e short one deeper rest p s at.
          more_from_right i.actual (rest (branch (key i.prefix) true) s.3 at)
            (not_shorter (key i.prefix) (omega (arith, length-key i.prefix, length-key pfx)))
            (no_beyond i false l short one s.2))

-- The bits of the overlap information, by what there is.
abbrev pub overlap_bits : Bool → Bool → ℕ
overlap_bits less more =
    let mask = if less then bit_or exact_match_bit less_specifics_bit else exact_match_bit in
    if more then bit_or mask more_specifics_bit else mask

-- Where both trees are in shape and a well-formed prefix is found at the node x, the overlap
-- information of x has the exact match, has the less specifics exactly if the tree holds a prefix
-- whose bits lead the prefix's and are fewer, and the more specifics exactly if the tree holds one
-- that the prefix's bits lead and are fewer than.
pub get_node_overlap_info_lem :
    (pt : Patricia) (pfx : Pfx) (x : Loc)
    → IsTree pt
    → IsPfx pfx
    → search_exact pt pfx ≡ some x
    → get_node_overlap_info x
      ≡ overlap_bits
          (any_key (λ q. leads q (key pfx)) (get_head pt pfx.address.version))
          (any_key (λ q. leads (key pfx) q) (get_head pt pfx.address.version))
unfolding get_node_overlap_info has_actual_parent
get_node_overlap_info_lem pt pfx x tree ok e =
    ap₂ overlap_bits
      (parents_lead pfx.address.version pfx (get_head pt pfx.address.version) [] x found.reached []
          shape found.same
        ∙ ground arith)
      (children_follow pfx.address.version pfx (get_head pt pfx.address.version) [] x found.reached
        [] shape found.same)
  where
    found : IsFound pfx ok pt x
    found = search_exact-IsFound pfx ok pt x tree e

    shape : HasShape pfx.address.version [] (get_head pt pfx.address.version)
    shape = head-HasShape pt pfx.address.version tree
