-- ===== src/Patricia/Search/Exact.antt =====
-- bgpstream_patricia_tree_search_exact_const finds a prefix exactly when the tree holds it.
use libbgpstream.Prelude.{
  ◌<◌, ◌≡◌, ◌⊎◌, inl, inr, sym, ap, ◌∙◌, Bool, true, false, ◌&&◌, Option, none, some, List, [], ◌∷◌,
  length, arith, Bool-cases, Option-cases, lt→ltb, le→ltb,
}
use libbgpstream.Addr.{AddrVersion, bit_array_test}
use libbgpstream.Key.{
  Key, PrefixOf, branch, bit_at, key_eq, key_eq_sound, key_eq_refl, branch-bit, branch-lt,
}
use libbgpstream.Pfx.{Pfx, IsPfx, key, key_from}
use libbgpstream.Pfx.Keys.{length-key, bit_at-key, key_from_ext}
use libbgpstream.Patricia.Tree.{
  Node, Tree, null, node, Frame, left_of, right_of, Loc, loc, Patricia, get_head,
}
use libbgpstream.Patricia.Tree.Shape.{HasShape, member, member-below, or_cases, and_left}
use libbgpstream.Patricia.Search.{search_node, comp_with_mask, exact_or_none, search_exact}
use libbgpstream.Patricia.Search.Compare.{comp_with_mask_sound, comp_with_mask_complete}
use libbgpstream.Patricia.Search.Descent.{search_node_ind, search_node-below}

-- The search comes to the node with the prefix, if there is one.
module _ (v : AddrVersion) (pfx : Pfx) where
  here_or_below :
      (i : Node) (l r : Tree)
      → member (key pfx) (node i l r) ≡ true
      → ((i.actual ≡ true) × (key i.prefix ≡ key pfx))
        ⊎ ((member (key pfx) l ≡ true) ⊎ (member (key pfx) r ≡ true))
  unfolding member
  here_or_below i l r m = cases (or_cases _ _ _ m)
    where
      cases :
          ((i.actual && key_eq (key i.prefix) (key pfx)) ≡ true)
            ⊎ ((member (key pfx) l ≡ true) ⊎ (member (key pfx) r ≡ true))
          → ((i.actual ≡ true) × (key i.prefix ≡ key pfx))
            ⊎ ((member (key pfx) l ≡ true) ⊎ (member (key pfx) r ≡ true))
      cases (inl at) = inl ((and_left _ _ at).0, key_eq_sound _ _ (and_left _ _ at).1)
      cases (inr m) = inr m

  abbrev Found : Loc → Type 0
  Found x = (x.info.actual ≡ true) × (key x.info.prefix ≡ key pfx)

  pub search_node-member :
      (t : Tree) (fs : List Frame) (p : Key)
      → HasShape v p t
      → member (key pfx) t ≡ true
      → (x : Loc) × (search_node t fs pfx ≡ some x) × Found x
  unfolding search_node
  search_node-member null fs p s m = absurd (no m)
    where
      no : member (key pfx) null ≡ true → ⊥
      no = unfold member in λ e. cc
  search_node-member (node i l r) fs p s m =
      cases (here_or_below i l r m)
        (search_node-member l (left_of i r ∷ fs) (branch (key i.prefix) false) s.2)
        (search_node-member r (right_of i l ∷ fs) (branch (key i.prefix) true) s.3)
    where
      short :
          (b : Bool)
          → PrefixOf (branch (key i.prefix) b) (key pfx)
          → i.prefix.mask_len < pfx.mask_len
      short b h =
          omega (arith, branch-lt (key i.prefix) (key pfx) b h, length-key i.prefix, length-key pfx)

      side :
          (b : Bool)
          → PrefixOf (branch (key i.prefix) b) (key pfx)
          → bit_array_test pfx.address.bytes i.prefix.mask_len ≡ b
      side b h =
          sym (bit_at-key pfx i.prefix.mask_len (short b h))
          ∙ ap (bit_at (key pfx)) (sym (length-key i.prefix))
          ∙ branch-bit (key i.prefix) (key pfx) b h

      cases :
          ((i.actual ≡ true) × (key i.prefix ≡ key pfx))
            ⊎ ((member (key pfx) l ≡ true) ⊎ (member (key pfx) r ≡ true))
          → (member (key pfx) l ≡ true
              → (x : Loc) × (search_node l (left_of i r ∷ fs) pfx ≡ some x) × Found x)
          → (member (key pfx) r ≡ true
              → (x : Loc) × (search_node r (right_of i l ∷ fs) pfx ≡ some x) × Found x)
          → (x : Loc) × (search_node (node i l r) fs pfx ≡ some x) × Found x
      cases (inl at) left right = (
        loc i l r fs,
        rw (
            le→ltb i.prefix.mask_len pfx.mask_len
              (omega (arith, ap length at.1, length-key i.prefix, length-key pfx))),
        at,
      )
      cases (inr (inl in_l)) left right =
          let (x, e, found) = left in_l in
          let below = member-below v (branch (key i.prefix) false) (key pfx) l s.2 in_l in
          (x, rw (lt→ltb _ _ (short false below), side false below, e), found)
      cases (inr (inr in_r)) left right =
          let (x, e, found) = right in_r in
          let below = member-below v (branch (key i.prefix) true) (key pfx) r s.3 in_r in
          (x, rw (lt→ltb _ _ (short true below), side true below, e), found)

  -- What the search stops at is in the tree.
  search_node-in :
      (t : Tree) (fs : List Frame) (x : Loc)
      → search_node t fs pfx ≡ some x
      → (x.info.actual && key_eq (key x.info.prefix) (key pfx)) ≡ true
      → member (key pfx) t ≡ true
  unfolding member
  search_node-in =
      search_node_ind pfx
        (λ t fs x.
          (x.info.actual && key_eq (key x.info.prefix) (key pfx)) ≡ true
          → member (key pfx) t ≡ true)
        (λ i l r fs stops h. rw h) (λ i l r fs x e short zero deeper rest h. ground (arith, rest h))
        (λ i l r fs x e short one deeper rest h. ground (arith, rest h))

abbrev pub is_some {ℓ} : {A : Type ℓ} → Option A → Bool
is_some none = false
is_some (some a) = true

module _ (pfx : Pfx) (ok : IsPfx pfx) where
  same_key :
      (q : Pfx)
      → IsPfx q
      → q.mask_len ≡ pfx.mask_len
      → comp_with_mask q.address.bytes pfx.address.bytes pfx.mask_len ≡ true
      → key q ≡ key pfx
  unfolding key
  same_key q q_ok e h =
      ap (key_from q.address.bytes 0) e
      ∙ key_from_ext q.address.bytes pfx.address.bytes 0 pfx.mask_len (λ j z lt.
        comp_with_mask_sound q.address pfx.address q_ok.addr ok.addr pfx.mask_len h j (omega arith))

  same_bits :
      (q : Pfx)
      → IsPfx q
      → key q ≡ key pfx
      → comp_with_mask q.address.bytes pfx.address.bytes pfx.mask_len ≡ true
  same_bits q q_ok e =
      comp_with_mask_complete q.address pfx.address q_ok.addr ok.addr pfx.mask_len (λ n lt.
        sym (bit_at-key q n (omega (arith, lengths)))
        ∙ ap (λ k. bit_at k n) e
        ∙ bit_at-key pfx n lt)
    where
      lengths : q.mask_len ≡ pfx.mask_len
      lengths = sym (length-key q) ∙ ap length e ∙ length-key pfx

  pub exact_iff :
      (x : Loc)
      → IsPfx x.info.prefix
      → is_some (exact_or_none pfx x) ≡ (x.info.actual && key_eq (key x.info.prefix) (key pfx))
  unfolding exact_or_none
  exact_iff x x_ok = ground (
    arith,
    same_key x.info.prefix x_ok,
    same_bits x.info.prefix x_ok,
    key_eq_sound (key x.info.prefix) (key pfx),
    key_eq_refl (key pfx),
    length-key x.info.prefix,
    length-key pfx,
  )

  pub exact_or_none-eq : (x y : Loc) → exact_or_none pfx x ≡ some y → x ≡ y
  unfolding exact_or_none
  exact_or_none-eq x y e = ground arith

  -- For a well-formed prefix and a tree in shape, `search_exact` succeeds exactly when the
  -- tree of the prefix's version holds the prefix as an actual node.
  pub search_exact-member :
      (pt : Patricia)
      → HasShape pfx.address.version [] (get_head pt pfx.address.version)
      → is_some (search_exact pt pfx) ≡ member (key pfx) (get_head pt pfx.address.version)
  unfolding search_exact
  search_exact-member pt s = cases (Bool-cases (member (key pfx) t))
    where
      v : AddrVersion
      v = pfx.address.version

      t : Tree
      t = get_head pt v

      found_there :
          (x : Loc)
          → search_node t [] pfx ≡ some x
          → Found v pfx x
          → is_some (search_exact pt pfx) ≡ true
      found_there x e found =
          rw (e, search_exact)
            (exact_iff x (search_node-below pfx v t [] x e [] s).ok
              ∙ rw (found.0, found.1) (key_eq_refl (key pfx)))

      cases :
          (member (key pfx) t ≡ true) ⊎ (member (key pfx) t ≡ false)
          → is_some (search_exact pt pfx) ≡ member (key pfx) t
      cases (inl m) =
          let (x, e, found) = search_node-member v pfx t [] [] s m in rw m (found_there x e found)
      cases (inr m) = rw m (missing (Option-cases (search_node t [] pfx)))
        where
          missing :
              (search_node t [] pfx ≡ none) ⊎ ((x : Loc) × (search_node t [] pfx ≡ some x))
              → is_some (search_exact pt pfx) ≡ false
          missing (inl e) = rw (e, search_exact)
          missing (inr (x, e)) =
              rw (e, search_exact) (exact_iff x (search_node-below pfx v t [] x e [] s).ok ∙ absent)
            where
              absent : (x.info.actual && key_eq (key x.info.prefix) (key pfx)) ≡ false
              absent = ground (arith, search_node-in v pfx t [] x e)
