-- ===== src/Filter/Check/Judged.antt =====
-- What bgpstream_elem_prefix_match of lib/bgpstream_record.c comes to from a location on the way of
-- the search.
use libbgpstream.Prelude.{
  ℕ, ◌≤◌, ◌<◌, ◌≡◌, ◌≢◌, inl, inr, refl, sym, ap, subst, ◌∙◌, Bool, false, ◌&&◌, ◌||◌, some, List,
  ◌==◌, length, arith, Bool-cases, ==_iff, ==_ne, ne_of_==,
}
use libbgpstream.Addr.{AddrVersion, bit_array_test}
use libbgpstream.Key.{
  Key, PrefixOf, PrefixOf-refl, PrefixOf-trans, PrefixOf-of_common, PrefixOf-next, common, branch,
  common_below, common_left, common-le_left, common-le_right, le-common, bit_at,
}
use libbgpstream.Pfx.{Pfx, IsPfx, key, match_more, match_less}
use libbgpstream.Pfx.Keys.{length-key, bit_at-key}
use libbgpstream.Patricia.Tree.{Node, Tree, node, Frame, Loc, loc}
use libbgpstream.Patricia.Tree.Shape.{NodeOk, HasShape, ParentsBelow}
use libbgpstream.Patricia.Search.{
  self, parent, child, sibling, relation_to, climb, find_differ_bit, search_node,
}
use libbgpstream.Patricia.Search.Differ.{find_differ_bit_lem}
use libbgpstream.Patricia.Search.Descent.{search_node-below, climb-search_node}
use libbgpstream.Patricia.Insert.Place.{climb_stays, ParentsBelow-mono}
use libbgpstream.Filter.Check.Prefixes.{
  permits, asks_for, any_node, any_frame, any_node-none, matched_at,
}
use libbgpstream.Filter.Check.Asks.{asks_apart, all_below}

pub relation_self : (d bits len : ℕ) → d ≡ bits → len ≡ bits → relation_to d bits len ≡ self
unfolding relation_to
relation_self d bits len e f = ground arith

pub relation_parent : (d bits len : ℕ) → d ≢ bits → len ≡ d → relation_to d bits len ≡ parent
unfolding relation_to
relation_parent d bits len e f = ground (arith, ==_ne d bits e)

relation_child : (d bits len : ℕ) → d ≡ bits → len ≢ d → relation_to d bits len ≡ child
unfolding relation_to
relation_child d bits len e f = ground (arith, ==_ne len d f)

relation_sibling : (d bits len : ℕ) → d ≢ bits → len ≢ d → relation_to d bits len ≡ sibling
unfolding relation_to
relation_sibling d bits len e f = ground (arith, ==_ne len d f, ==_ne d bits e)

module _ (pfx : Pfx) where
  module _ (v : AddrVersion) where
    -- What the walk from a location with this differing bit comes to.
    abbrev pub judged : ℕ → Loc → Bool
    judged d y = matched_at (relation_to d pfx.mask_len y.info.prefix.mask_len) y

    abbrev pub asked : Tree → List Frame → Bool
    asked t fs = any_node (asks_for pfx) t || any_frame (permits match_more) fs

    abbrev pub Judged : Tree → List Frame → Loc → Type 0
    Judged t fs x =
        (p : Key)
        → HasShape v p t
        → PrefixOf p (key pfx)
        → ParentsBelow (length p) fs
        → judged (find_differ_bit pfx x.info.prefix)
            (climb (find_differ_bit pfx x.info.prefix) x.info x.l x.r x.parents)
          ≡ asked t fs

    own_shape :
        (p : Key) (i : Node) (l r : Tree)
        → HasShape v p (node i l r)
        → HasShape v (key i.prefix) (node i l r)
    own_shape p i l r s = (
      record { ok = s.0.ok; version = s.0.version; below = PrefixOf-refl (key i.prefix) },
      s.1,
      s.2,
      s.3,
    )

    -- The keys part before the node's end: the prefix is above the node, or beside it.
    pub judged_part :
        (i : Node) (l r : Tree) (fs : List Frame) (p : Key)
        → HasShape v p (node i l r)
        → common (key pfx) (key i.prefix) ≢ i.prefix.mask_len
        → judged (common (key pfx) (key i.prefix)) (loc i l r fs) ≡ asked (node i l r) fs
    judged_part i l r fs p s ne = elim (Bool-cases (d == pfx.mask_len)) [
      | inl ends ↦
          let at : d ≡ pfx.mask_len = (==_iff _ _).0 ends in
          rw
            (
              relation_child d pfx.mask_len i.prefix.mask_len at (λ e. ne (sym e)),
              all_below pfx v (key i.prefix) (node i l r)
                  (common_left (key pfx) (key i.prefix) (at ∙ sym (length-key pfx)))
                  (omega (arith, at, short, length-key pfx)) (own_shape p i l r s),
            )
            (or_comm (any_frame (permits match_more) fs)
              (any_node (permits match_less) (node i l r)))
      | inr goes_on ↦
          let away : d ≢ pfx.mask_len = ne_of_== _ _ goes_on in
          rw
            (
              relation_sibling d pfx.mask_len i.prefix.mask_len away (λ e. ne (sym e)),
              any_node-none (asks_for pfx) v (key i.prefix) (node i l r) (own_shape p i l r s)
                  (λ j q.
                    asks_apart pfx j
                      (λ lead.
                        no_lead (PrefixOf-trans (key i.prefix) (key j.prefix) (key pfx) q lead))
                      (λ follow. away (no_follow j q follow))),
            )
            refl
    ]
      where
        d : ℕ
        d = common (key pfx) (key i.prefix)

        short : d < length (key i.prefix)
        short = omega (arith, ne, common-le_right (key pfx) (key i.prefix), length-key i.prefix)

        or_comm : (a b : Bool) → (a || b) ≡ (b || a)
        or_comm a b = ground arith

        no_lead : PrefixOf (key i.prefix) (key pfx) → ⊥
        no_lead h = omega (
          arith,
          short,
          le-common (key i.prefix) (key pfx) (key i.prefix) h (PrefixOf-refl (key i.prefix)),
        )

        no_follow :
            (j : Node)
            → PrefixOf (key i.prefix) (key j.prefix)
            → PrefixOf (key pfx) (key j.prefix)
            → d ≡ pfx.mask_len
        no_follow j q follow = omega (
          arith,
          common_below (key pfx) (key i.prefix) (key j.prefix) q short,
          le-common (key pfx) (key pfx) (key j.prefix) (PrefixOf-refl (key pfx)) follow,
          common-le_left (key pfx) (key i.prefix),
          length-key pfx,
        )

    pub leads_pfx :
        (i : Node)
        → common (key pfx) (key i.prefix) ≡ i.prefix.mask_len
        → PrefixOf (key i.prefix) (key pfx)
    leads_pfx i at = PrefixOf-of_common (key pfx) (key i.prefix) (at ∙ sym (length-key i.prefix))

    pub on_side :
        (i : Node) (b : Bool)
        → PrefixOf (key i.prefix) (key pfx)
        → i.prefix.mask_len < pfx.mask_len
        → bit_array_test pfx.address.bytes i.prefix.mask_len ≡ b
        → PrefixOf (branch (key i.prefix) b) (key pfx)
    on_side i b lead lt e =
        subst (λ c. PrefixOf (branch (key i.prefix) c) (key pfx))
          (ap (λ n. bit_at (key pfx) n) (length-key i.prefix)
            ∙ bit_at-key pfx i.prefix.mask_len lt
            ∙ e)
          (PrefixOf-next (key i.prefix) (key pfx) lead
            (omega (arith, lt, length-key i.prefix, length-key pfx)))

    pub from_left :
        {x asks more r : Bool} (actual fs l : Bool)
        → x ≡ (l || ((actual && more) || fs))
        → asks ≡ more
        → r ≡ false
        → x ≡ (((actual && asks) || (l || r)) || fs)
    from_left actual fs l e f g = ground arith

    pub from_right :
        {x asks more l : Bool} (actual fs r : Bool)
        → x ≡ (r || ((actual && more) || fs))
        → asks ≡ more
        → l ≡ false
        → x ≡ (((actual && asks) || (l || r)) || fs)
    from_right actual fs r e f g = ground arith

    module _ (ok : IsPfx pfx) where
      pub parts_early :
          (i : Node) (l r : Tree) (fs : List Frame) (x : Loc)
          → search_node (node i l r) fs pfx ≡ some x
          → common (key pfx) (key i.prefix) ≢ i.prefix.mask_len
          → Judged (node i l r) fs x
      parts_early i l r fs x e ne p s h above =
          rw
            (
              differ,
              climb-search_node pfx v d (node i l r) fs x e p s (omega (arith, d_lt)),
              climb_stays d i l r fs (ParentsBelow-mono (length p) d fs shared above),
            )
            (judged_part i l r fs p s ne)
        where
          d : ℕ
          d = common (key pfx) (key i.prefix)

          d_lt : d < i.prefix.mask_len
          d_lt = omega (arith, ne, common-le_right (key pfx) (key i.prefix), length-key i.prefix)

          shared : length p ≤ d
          shared = le-common p (key pfx) (key i.prefix) h s.0.below

          found : NodeOk v (key i.prefix) x.info
          found = search_node-below pfx v (node i l r) fs x e (key i.prefix) (own_shape p i l r s)

          differ : find_differ_bit pfx x.info.prefix ≡ d
          differ =
              find_differ_bit_lem pfx x.info.prefix ok found.ok
              ∙ common_below (key pfx) (key i.prefix) (key x.info.prefix) found.below
                  (omega (arith, d_lt, length-key i.prefix))
