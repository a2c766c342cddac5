-- ===== src/Patricia/Counted.antt =====
-- The counters of the two trees: what bgpstream_patricia_tree_insert and
-- bgpstream_patricia_tree_remove_node of lib/utils/bgpstream_utils_patricia.c do to them.
use libbgpstream.Prelude.{
  ℕ, ◌+◌, ◌≡◌, inl, inr, refl, sym, ap, subst, ◌∙◌, Bool, true, false, some, List, [], ◌∷◌, arith,
  Bool-cases, leb, length,
}
use libbgpstream.Addr.{AddrVersion}
use libbgpstream.Key.{common, common_all, PrefixOf-refl, key_eq_refl}
use libbgpstream.Pfx.{Pfx, IsPfx, key}
use libbgpstream.Pfx.Keys.{length-key}
use libbgpstream.Patricia.Tree.{Node, Tree, null, node, Frame, left_of, right_of, Loc, plug, here}
use libbgpstream.Patricia.Tree.Shape.{HasShape, member, ParentsBelow}
use libbgpstream.Patricia.Search.{
  Relation, self, parent, child, sibling, InsertPoint, insert_point_from, climb, search_node,
  find_differ_bit,
}
use libbgpstream.Patricia.Search.Differ.{find_differ_bit_lem}
use libbgpstream.Patricia.Search.Descent.{search_node_ind, search_node-below}
use libbgpstream.Patricia.Search.Exact.{search_node-member}
use libbgpstream.Patricia.Insert.{insert_at}
use libbgpstream.Patricia.Insert.Reference.{ins, member-ins}
use libbgpstream.Patricia.Insert.Place.{climb_stays, is_self}
use libbgpstream.Patricia.Insert.Refines.{insert_at-ins}

abbrev pub one_if : Bool → ℕ
one_if true = 1
one_if false = 0

unfoldable pub actual_nodes : Tree → ℕ
actual_nodes null = 0
actual_nodes (node i l r) = one_if i.actual + (actual_nodes l + actual_nodes r)

-- The climb and the search move in one and the same tree.
climb-plug :
    (d : ℕ) (i : Node) (l r : Tree) (fs : List Frame)
    → plug (here (climb d i l r fs)) (climb d i l r fs).parents ≡ plug (node i l r) fs
unfolding climb
climb-plug d i l r [] = refl
climb-plug d i l r (left_of p s ∷ fs) = elim (Bool-cases (leb d p.prefix.mask_len)) [
  | inl e ↦ rw e (climb-plug d p (node i l r) s fs)
  | inr e ↦ rw e
]
climb-plug d i l r (right_of p s ∷ fs) = elim (Bool-cases (leb d p.prefix.mask_len)) [
  | inl e ↦ rw e (climb-plug d p s (node i l r) fs)
  | inr e ↦ rw e
]

pub search_node-plug :
    (pfx : Pfx) (t : Tree) (fs : List Frame) (x : Loc)
    → search_node t fs pfx ≡ some x
    → plug (here x) x.parents ≡ plug t fs
search_node-plug pfx =
    search_node_ind pfx (λ t fs x. plug (here x) x.parents ≡ plug t fs) (λ i l r fs stops. refl)
      (λ i l r fs x e short zero deeper rest. rest) (λ i l r fs x e short one deeper rest. rest)

-- An insertion that adds nothing leaves the tree.
insert_at-not_added :
    (pfx : Pfx) (x : Loc) (d : ℕ) (rel : Relation)
    → let y = insert_at pfx (record { at = x; relation = rel; differ_bit = d }) in
      y.1 ≡ false → y.0 ≡ x
unfolding insert_at
insert_at-not_added pfx x d self e = ground arith
insert_at-not_added pfx x d parent e = cc
insert_at-not_added pfx x d child e = cc
insert_at-not_added pfx x d sibling e = cc

-- The search goes on only below shorter prefixes.
search_node-parents :
    (pfx : Pfx) (t : Tree) (fs : List Frame) (x : Loc)
    → search_node t fs pfx ≡ some x
    → ParentsBelow pfx.mask_len fs
    → ParentsBelow pfx.mask_len x.parents
search_node-parents pfx =
    search_node_ind pfx
      (λ t fs x. ParentsBelow pfx.mask_len fs → ParentsBelow pfx.mask_len x.parents)
      (λ i l r fs stops h. h) (λ i l r fs x e short zero deeper rest h. rest short)
      (λ i l r fs x e short one deeper rest h. rest short)

module _ (v : AddrVersion) (pfx : Pfx) (ok : IsPfx pfx) (is_v : pfx.address.version ≡ v) where
  pub added_sound :
      (t : Tree) (x : Loc)
      → search_node t [] pfx ≡ some x
      → HasShape v [] t
      → (insert_at pfx (insert_point_from pfx x)).1 ≡ false
      → member (key pfx) t ≡ true
  unfolding insert_point_from
  added_sound t x e s unchanged =
      ap (member (key pfx)) same
      ∙ member-ins pfx t (key pfx)
      ∙ ground (arith, key_eq_refl (key pfx))
    where
      p : InsertPoint
      p = insert_point_from pfx x

      same : t ≡ ins pfx t
      same =
          sym (search_node-plug pfx t [] x e)
          ∙ sym (climb-plug p.differ_bit x.info x.l x.r x.parents)
          ∙ ap (λ y. plug (here y) y.parents)
              (sym (insert_at-not_added pfx p.at p.differ_bit p.relation unchanged))
          ∙ insert_at-ins v pfx ok is_v t x e s

  pub added_complete :
      (t : Tree) (x : Loc)
      → search_node t [] pfx ≡ some x
      → HasShape v [] t
      → member (key pfx) t ≡ true
      → (insert_at pfx (insert_point_from pfx x)).1 ≡ false
  unfolding insert_point_from insert_at
  added_complete t x e s m =
      let (y, there, found) = search_node-member v pfx t [] [] s m in at_end y there found
    where
      at_end :
          (y : Loc)
          → search_node t [] pfx ≡ some y
          → (y.info.actual ≡ true) × (key y.info.prefix ≡ key pfx)
          → (insert_at pfx (insert_point_from pfx x)).1 ≡ false
      at_end y there found =
          subst (λ z. (insert_at pfx (insert_point_from pfx z)).1 ≡ false) y_is_x
            (rw
              (
                differ,
                climb_stays pfx.mask_len y.info y.l y.r y.parents
                    (search_node-parents pfx t [] y there tt),
                is_self pfx.mask_len pfx.mask_len y.info.prefix.mask_len refl len,
                found.0,
              )
              refl)
        where
          y_is_x : y ≡ x
          y_is_x = ground (arith, sym there ∙ e)

          len : y.info.prefix.mask_len ≡ pfx.mask_len
          len = sym (length-key y.info.prefix) ∙ ap length found.1 ∙ length-key pfx

          differ : find_differ_bit pfx y.info.prefix ≡ pfx.mask_len
          differ =
              find_differ_bit_lem pfx y.info.prefix ok
                (search_node-below pfx v t [] y there [] s).ok
              ∙ ap (common (key pfx)) found.1
              ∙ common_all (key pfx) (key pfx) (PrefixOf-refl (key pfx))
              ∙ length-key pfx
