-- ===== src/Patricia/Insert/Refines.antt =====
-- The search down, the climb back and the four ways to link a node come to the insertion from the
-- head down.
use libbgpstream.Prelude.{
  ℕ, ◌≤◌, ◌<◌, ◌≡◌, ◌≢◌, ◌⊎◌, inl, inr, refl, subst, ◌∙◌, Bool, true, false, List, [], ◌∷◌, some,
  ◌==◌, length, arith, Bool-cases, ==_iff, ==_ne, ne_of_==, lt→ltb, if◌then◌else◌,
}
use libbgpstream.Addr.{AddrVersion, bit_array_test}
use libbgpstream.Key.{
  Key, PrefixOf, PrefixOf-refl, common, branch, common_below, common-le_left, common-le_right,
  le-common, length-branch,
}
use libbgpstream.Pfx.{Pfx, IsPfx, key}
use libbgpstream.Pfx.Keys.{length-key}
use libbgpstream.Patricia.Tree.{Node, Tree, node, Frame, left_of, right_of, Loc, loc, plug}
use libbgpstream.Patricia.Tree.Shape.{NodeOk, HasShape, ParentsBelow}
use libbgpstream.Patricia.Search.{insert_point_from, climb, find_differ_bit, search_node}
use libbgpstream.Patricia.Search.Differ.{find_differ_bit_lem}
use libbgpstream.Patricia.Search.Descent.{
  Stops, search_node_ind, search_node-below, climb-search_node, search_node-Stops,
}
use libbgpstream.Patricia.Insert.{insert_at, bit_of, max_bits}
use libbgpstream.Patricia.Insert.Reference.{ins}
use libbgpstream.Patricia.Insert.Shape.{below_side, width-le}
use libbgpstream.Patricia.Insert.Place.{
  relinked, place_as, place, place-part, place_self, climb_stays, ParentsBelow-mono, place-parent,
}

module _ (v : AddrVersion) (pfx : Pfx) (ok : IsPfx pfx) where
  -- What the insertion point of the code leads to, from a location that the search found.
  abbrev Placed : Tree → List Frame → Loc → Type 0
  Placed t fs x =
      (p : Key)
      → HasShape v p t
      → PrefixOf p (key pfx)
      → ParentsBelow (length p) fs
      → place pfx (find_differ_bit pfx x.info.prefix)
          (climb (find_differ_bit pfx x.info.prefix) x.info x.l x.r x.parents)
        ≡ plug (ins pfx t) fs

  -- The keys part before the node's end: whatever was found below it, the node is the place.
  parts_early :
      (i : Node) (l r : Tree) (fs : List Frame) (x : Loc)
      → search_node (node i l r) fs pfx ≡ some x
      → common (key pfx) (key i.prefix) ≢ i.prefix.mask_len
      → Placed (node i l r) fs x
  unfolding ins
  parts_early i l r fs x e ne p s h above =
      rw
        (
          differ,
          climb-search_node pfx v d (node i l r) fs x e p s (omega (arith, d_lt)),
          climb_stays d i l r fs (ParentsBelow-mono (length p) d fs shared above),
          place-part pfx d i l r fs ne,
          ==_ne d i.prefix.mask_len ne,
        )
        refl
    where
      d : ℕ
      d = common (key pfx) (key i.prefix)

      d_lt : d < i.prefix.mask_len
      d_lt = omega (arith, ne, common-le_right (key pfx) (key i.prefix), length-key i.prefix)

      shared : length p ≤ d
      shared = le-common p (key pfx) (key i.prefix) h s.0.below

      found : NodeOk v (key i.prefix) x.info
      found = search_node-below pfx v (node i l r) fs x e (key i.prefix) (
        record { ok = s.0.ok; version = s.0.version; below = PrefixOf-refl (key i.prefix) },
        s.1,
        s.2,
        s.3,
      )

      differ : find_differ_bit pfx x.info.prefix ≡ d
      differ =
          find_differ_bit_lem pfx x.info.prefix ok found.ok
          ∙ common_below (key pfx) (key i.prefix) (key x.info.prefix) found.below
              (omega (arith, d_lt, length-key i.prefix))

  module _ (is_v : pfx.address.version ≡ v) where
    Placed-stop :
        (i : Node) (l r : Tree) (fs : List Frame)
        → Stops pfx i l r
        → common (key pfx) (key i.prefix) ≡ i.prefix.mask_len
        → Placed (node i l r) fs (loc i l r fs)
    unfolding ins
    Placed-stop i l r fs stops at p s h above =
        rw
          (
            find_differ_bit_lem pfx i.prefix ok s.0.ok,
            at,
            climb_stays i.prefix.mask_len i l r fs
                (ParentsBelow-mono (length p) i.prefix.mask_len fs shared above),
            (==_iff i.prefix.mask_len i.prefix.mask_len).1 refl,
          )
          (same_or_longer (Bool-cases (pfx.mask_len == i.prefix.mask_len)))
      where
        shared : length p ≤ i.prefix.mask_len
        shared = omega (arith, le-common p (key pfx) (key i.prefix) h s.0.below, at)

        same_or_longer :
            ((pfx.mask_len == i.prefix.mask_len) ≡ true)
              ⊎ ((pfx.mask_len == i.prefix.mask_len) ≡ false)
            → place pfx i.prefix.mask_len (loc i l r fs)
              ≡ plug
                  (if pfx.mask_len == i.prefix.mask_len
                    then node (record i { actual = true }) l r
                    else if bit_of pfx i.prefix.mask_len
                    then node i l (ins pfx r)
                    else node i (ins pfx l) r)
                  fs
        same_or_longer (inl e) =
            let same : pfx.mask_len ≡ i.prefix.mask_len = (==_iff _ _).0 e in
            rw e (
              subst
                (λ n. place pfx n (loc i l r fs) ≡ plug (node (record i { actual = true }) l r) fs)
                same (place_self pfx i l r fs same))
        same_or_longer (inr e) = rw e (
            place-parent pfx i l r fs ok
              (omega (
                arith,
                at,
                ne_of_== _ _ e,
                common-le_left (key pfx) (key i.prefix),
                length-key pfx,
              ))
              stops)

    pub bit_of_test : (n : ℕ) → n < pfx.mask_len → bit_of pfx n ≡ bit_array_test pfx.address.bytes n
    bit_of_test n lt =
        let bound : n < max_bits = omega (arith, ok.fits, width-le pfx.address.version) in
        rw (lt→ltb n max_bits bound)

    below_branch : (i : Node) (b : Bool) → i.prefix.mask_len < length (branch (key i.prefix) b)
    below_branch i b = omega (arith, length-branch (key i.prefix) b, length-key i.prefix)

    Placed-left :
        (i : Node) (l r : Tree) (fs : List Frame) (x : Loc)
        → search_node (node i l r) fs pfx ≡ some x
        → i.prefix.mask_len < pfx.mask_len
        → bit_array_test pfx.address.bytes i.prefix.mask_len ≡ false
        → search_node l (left_of i r ∷ fs) pfx ≡ some x
        → Placed l (left_of i r ∷ fs) x
        → Placed (node i l r) fs x
    unfolding ins
    Placed-left i l r fs x e short zero deeper rest p s h above =
        elim (Bool-cases (common (key pfx) (key i.prefix) == i.prefix.mask_len)) [
          | inr out ↦ parts_early i l r fs x e (ne_of_== _ _ out) p s h above
          | inl at ↦
              let at' : common (key pfx) (key i.prefix) ≡ i.prefix.mask_len = (==_iff _ _).0 at in
              let longer : pfx.mask_len ≢ common (key pfx) (key i.prefix) = λ z. omega arith in
              let bit : bit_of pfx i.prefix.mask_len ≡ false =
                bit_of_test i.prefix.mask_len short ∙ zero in
              rw (at, ==_ne pfx.mask_len (common (key pfx) (key i.prefix)) longer, bit)
                (rest (branch (key i.prefix) false) s.2
                  (below_side v pfx ok is_v p i l r s h at' longer false bit)
                  (below_branch i false))
        ]

    Placed-right :
        (i : Node) (l r : Tree) (fs : List Frame) (x : Loc)
        → search_node (node i l r) fs pfx ≡ some x
        → i.prefix.mask_len < pfx.mask_len
        → bit_array_test pfx.address.bytes i.prefix.mask_len ≡ true
        → search_node r (right_of i l ∷ fs) pfx ≡ some x
        → Placed r (right_of i l ∷ fs) x
        → Placed (node i l r) fs x
    unfolding ins
    Placed-right i l r fs x e short one deeper rest p s h above =
        elim (Bool-cases (common (key pfx) (key i.prefix) == i.prefix.mask_len)) [
          | inr out ↦ parts_early i l r fs x e (ne_of_== _ _ out) p s h above
          | inl at ↦
              let at' : common (key pfx) (key i.prefix) ≡ i.prefix.mask_len = (==_iff _ _).0 at in
              let longer : pfx.mask_len ≢ common (key pfx) (key i.prefix) = λ z. omega arith in
              let bit : bit_of pfx i.prefix.mask_len ≡ true =
                bit_of_test i.prefix.mask_len short ∙ one in
              rw (at, ==_ne pfx.mask_len (common (key pfx) (key i.prefix)) longer, bit)
                (rest (branch (key i.prefix) true) s.3
                  (below_side v pfx ok is_v p i l r s h at' longer true bit) (below_branch i true))
        ]

    placed : (t : Tree) (fs : List Frame) (x : Loc) → search_node t fs pfx ≡ some x → Placed t fs x
    placed =
        search_node_ind pfx Placed
          (λ i l r fs stops p s h above.
            elim (Bool-cases (common (key pfx) (key i.prefix) == i.prefix.mask_len)) [
              | inl at ↦ Placed-stop i l r fs stops ((==_iff _ _).0 at) p s h above
              | inr out ↦
                  parts_early i l r fs (loc i l r fs) (search_node-Stops pfx i l r fs stops)
                    (ne_of_== _ _ out) p s h above
            ])
          Placed-left Placed-right

    -- For a well-formed prefix and a tree in shape, if the search stops at a node, then
    -- linking the new node where the code climbs back to from there makes the tree that an
    -- insertion from the head down makes.
    pub insert_at-ins :
        (t : Tree) (x : Loc)
        → search_node t [] pfx ≡ some x
        → HasShape v [] t
        → relinked (insert_at pfx (insert_point_from pfx x)) ≡ plug (ins pfx t) []
    unfolding insert_point_from place place_as
    insert_at-ins t x e s = placed t [] x e [] s tt tt
