-- ===== src/Patricia/Insert/Place.antt =====
-- The four ways in which bgpstream_patricia_tree_insert of lib/utils/bgpstream_utils_patricia.c
-- links a node, at the place where the prefix parts from the tree.
use libbgpstream.Prelude.{
  ℕ, ◌≤◌, ◌<◌, ◌≡◌, ◌≢◌, ◌⊎◌, inl, inr, refl, sym, Bool, true, false, List, [], ◌∷◌, ◌==◌, arith,
  Bool-cases, ==_iff, ==_ne, ne_of_==, lt→leb, lt→ltb, if◌then◌else◌,
}
use libbgpstream.Pfx.{Pfx, IsPfx}
use libbgpstream.Patricia.Tree.{Node, Tree, node, Frame, left_of, right_of, Loc, loc, plug, here}
use libbgpstream.Patricia.Tree.Shape.{ParentsBelow}
use libbgpstream.Patricia.Search.{Relation, self, parent, child, sibling, relation_to, climb}
use libbgpstream.Patricia.Search.Descent.{Stops, long_enough, no_left, no_right}
use libbgpstream.Patricia.Insert.{insert_at, append_child, node_create, bit_of, max_bits}
use libbgpstream.Patricia.Insert.Reference.{part, ins}
use libbgpstream.Patricia.Insert.Shape.{width-le}

-- The head after the new node is linked at an insertion point.
abbrev pub relinked : Loc × Bool → Tree
relinked (x, added) = plug (here x) x.parents

unfoldable pub place_as : Pfx → ℕ → Loc → Relation → Tree
place_as pfx d y rel = relinked (insert_at pfx (record { at = y; relation = rel; differ_bit = d }))

unfoldable pub place : Pfx → ℕ → Loc → Tree
place pfx d y = place_as pfx d y (relation_to d pfx.mask_len y.info.prefix.mask_len)

module _ (d bitlen n : ℕ) where
  pub is_self : d ≡ bitlen → n ≡ bitlen → relation_to d bitlen n ≡ self
  unfolding relation_to
  is_self e f = ground arith

  is_parent : d ≢ bitlen → n ≡ d → relation_to d bitlen n ≡ parent
  unfolding relation_to
  is_parent e f = ground arith

  is_child : bitlen ≡ d → n ≢ d → relation_to d bitlen n ≡ child
  unfolding relation_to
  is_child e f = ground arith

  is_sibling : bitlen ≢ d → n ≢ d → relation_to d bitlen n ≡ sibling
  unfolding relation_to
  is_sibling e f = ground arith

place_as-child :
    (pfx : Pfx) (d : ℕ) (i : Node) (l r : Tree) (fs : List Frame)
    → pfx.mask_len ≡ d
    → place_as pfx d (loc i l r fs) child ≡ plug (part pfx d i l r) fs
unfolding place_as insert_at part
place_as-child pfx d i l r fs e = elim (Bool-cases (bit_of i.prefix pfx.mask_len)) [
  | inl one ↦ rw ((==_iff pfx.mask_len d).1 e, one)
  | inr zero ↦ rw ((==_iff pfx.mask_len d).1 e, zero)
]

place_as-sibling :
    (pfx : Pfx) (d : ℕ) (i : Node) (l r : Tree) (fs : List Frame)
    → pfx.mask_len ≢ d
    → place_as pfx d (loc i l r fs) sibling ≡ plug (part pfx d i l r) fs
unfolding place_as insert_at part
place_as-sibling pfx d i l r fs ne = elim (Bool-cases (bit_of pfx d)) [
  | inl one ↦ rw (==_ne pfx.mask_len d ne, one)
  | inr zero ↦ rw (==_ne pfx.mask_len d ne, zero)
]

-- Where the prefix parts from a node, above it or beside it.
pub place-part :
    (pfx : Pfx) (d : ℕ) (i : Node) (l r : Tree) (fs : List Frame)
    → d ≢ i.prefix.mask_len
    → place pfx d (loc i l r fs) ≡ plug (part pfx d i l r) fs
unfolding place
place-part pfx d i l r fs ne = elim (Bool-cases (pfx.mask_len == d)) [
  | inl e ↦
      let same : pfx.mask_len ≡ d = (==_iff _ _).0 e in
      rw (is_child d pfx.mask_len i.prefix.mask_len same (λ z. ne (sym z)))
        (place_as-child pfx d i l r fs same)
  | inr e ↦
      rw (is_sibling d pfx.mask_len i.prefix.mask_len (ne_of_== _ _ e) (λ z. ne (sym z)))
        (place_as-sibling pfx d i l r fs (ne_of_== _ _ e))
]

pub place_self :
    (pfx : Pfx) (i : Node) (l r : Tree) (fs : List Frame)
    → pfx.mask_len ≡ i.prefix.mask_len
    → place pfx pfx.mask_len (loc i l r fs) ≡ plug (node (record i { actual = true }) l r) fs
unfolding place place_as insert_at
place_self pfx i l r fs e =
    rw (is_self pfx.mask_len pfx.mask_len i.prefix.mask_len refl (sym e))
      (as_actual (Bool-cases i.actual))
  where
    as_actual :
        (i.actual ≡ true) ⊎ (i.actual ≡ false)
        → relinked (
            if i.actual
            then (loc i l r fs, false)
            else (loc (record i { actual = true }) l r fs, true))
          ≡ plug (node (record i { actual = true }) l r) fs
    as_actual (inl e) = rw e
    as_actual (inr e) = rw e

-- The climb stops below a parent with fewer bits.
pub climb_stays :
    (d : ℕ) (i : Node) (l r : Tree) (fs : List Frame)
    → ParentsBelow d fs
    → climb d i l r fs ≡ loc i l r fs
unfolding climb
climb_stays d i l r [] h = refl
climb_stays d i l r (left_of p s ∷ fs) h = rw (lt→leb d p.prefix.mask_len h)
climb_stays d i l r (right_of p s ∷ fs) h = rw (lt→leb d p.prefix.mask_len h)

pub ParentsBelow-mono : (m n : ℕ) (fs : List Frame) → m ≤ n → ParentsBelow m fs → ParentsBelow n fs
ParentsBelow-mono m n [] le h = tt
ParentsBelow-mono m n (f ∷ fs) le h = omega arith

-- The child pointer that the search would have followed is null.
pub place-parent :
    (pfx : Pfx) (i : Node) (l r : Tree) (fs : List Frame)
    → IsPfx pfx
    → i.prefix.mask_len < pfx.mask_len
    → Stops pfx i l r
    → place pfx i.prefix.mask_len (loc i l r fs)
      ≡ plug
          (if bit_of pfx i.prefix.mask_len then node i l (ins pfx r) else node i (ins pfx l) r)
          fs
unfolding place place_as insert_at ins
place-parent pfx i l r fs ok lt stops =
    rw (is_parent i.prefix.mask_len pfx.mask_len i.prefix.mask_len (λ z. omega arith) refl)
      (linked_at stops)
  where
    bound : i.prefix.mask_len < max_bits
    bound = omega (arith, ok.fits, width-le pfx.address.version)

    linked_at :
        Stops pfx i l r
        → relinked (append_child (loc i l r fs) (node_create pfx), true)
          ≡ plug
              (if bit_of pfx i.prefix.mask_len then node i l (ins pfx r) else node i (ins pfx l) r)
              fs
    linked_at (long_enough h) = absurd (omega arith)
    linked_at (no_right h one e) = rw (e, append_child, lt→ltb _ _ bound, one)
    linked_at (no_left h zero e) = rw (e, append_child, lt→ltb _ _ bound, zero)
