-- ===== src/Filter/Check/Matches.antt =====
-- bgpstream_elem_prefix_match of lib/bgpstream_record.c, by the prefixes that the filter holds.
use libbgpstream.Prelude.{
  ◌<◌, ◌≡◌, inl, inr, refl, sym, ap, subst, ◌∙◌, Bool, true, false, ◌&&◌, ◌||◌, some, List, [], ◌∷◌,
  ◌==◌, length, arith, Bool-cases, Option-cases, ==_iff, ne_of_==,
}
use libbgpstream.Addr.{AddrVersion, bit_array_test}
use libbgpstream.Key.{
  Key, PrefixOf, PrefixOf-of_common, PrefixOf-full, PrefixOf-branch, common, branch, common-le_left,
  le-common, length-branch, key_eq, key_eq_refl,
}
use libbgpstream.Pfx.{Pfx, IsPfx, key, match_more, match_less}
use libbgpstream.Pfx.Keys.{length-key}
use libbgpstream.Patricia.Tree.{
  Node, Tree, node, Frame, left_of, right_of, Loc, loc, Patricia, get_head,
}
use libbgpstream.Patricia.Tree.Shape.{HasShape}
use libbgpstream.Patricia.Search.{insert_point_from, find_insert_point, search_node}
use libbgpstream.Patricia.Search.Differ.{find_differ_bit_lem}
use libbgpstream.Patricia.Search.Descent.{
  Stops, long_enough, no_right, no_left, search_node_ind, search_node-Stops, search_node-none,
}
use libbgpstream.Patricia.Insert.Place.{climb_stays, ParentsBelow-mono}
use libbgpstream.Patricia.Insert.Set.{IsTree, head-HasShape}
use libbgpstream.Filter.Check.{prefix_match}
use libbgpstream.Filter.Check.Prefixes.{
  permits, asks_for, any_node, any_frame, prefix_match-matched_at, prefix_match-empty,
}
use libbgpstream.Filter.Check.Asks.{asks_shorter, or_false, none_aside, all_below}
use libbgpstream.Filter.Check.Judged.{
  relation_self, relation_parent, judged, asked, Judged, leads_pfx, on_side, from_left, from_right,
  parts_early,
}

module _ (pfx : Pfx) where
  module _ (v : AddrVersion) where
    module _ (ok : IsPfx pfx) where
      -- The search stops at a node whose bits all lead the prefix's.
      judged_stop :
          (i : Node) (l r : Tree) (fs : List Frame) (p : Key)
          → Stops pfx i l r
          → HasShape v p (node i l r)
          → common (key pfx) (key i.prefix) ≡ i.prefix.mask_len
          → judged pfx v i.prefix.mask_len (loc i l r fs) ≡ asked pfx v (node i l r) fs
      unfolding any_node
      judged_stop i l r fs p stops s at = elim (Bool-cases (pfx.mask_len == i.prefix.mask_len)) [
        | inl ends ↦
            let same : pfx.mask_len ≡ i.prefix.mask_len = (==_iff _ _).0 ends in
            let keys : key i.prefix ≡ key pfx =
              PrefixOf-full (key i.prefix) (key pfx) lead
                (omega (arith, same, length-key i.prefix, length-key pfx)) in
            rw
              (relation_self i.prefix.mask_len pfx.mask_len i.prefix.mask_len (sym same) (sym same))
              (regroup i.actual (any_frame (permits match_more) fs) _
                (subst (λ k. key_eq k (key pfx) ≡ true) (sym keys) (key_eq_refl (key pfx)))
                (below keys false l s.2) (below keys true r s.3))
        | inr goes_on ↦
            let longer : i.prefix.mask_len < pfx.mask_len = omega (
              arith,
              ne_of_== _ _ goes_on,
              at,
              common-le_left (key pfx) (key i.prefix),
              length-key pfx,
            ) in
            let (no_l, no_r) = nothing_below longer stops in
            rw
              (
                relation_parent i.prefix.mask_len pfx.mask_len i.prefix.mask_len
                    (λ e. omega (arith, longer, e)) refl,
                asks_shorter pfx i lead
                    (omega (arith, longer, length-key i.prefix, length-key pfx)),
                no_l,
                no_r,
              )
              (drop_false (i.actual && permits match_more i) _)
      ]
        where
          lead : PrefixOf (key i.prefix) (key pfx)
          lead = PrefixOf-of_common (key pfx) (key i.prefix) (at ∙ sym (length-key i.prefix))

          below :
              key i.prefix ≡ key pfx
              → (b : Bool) (t : Tree) → HasShape v (branch (key i.prefix) b) t
              → any_node (asks_for pfx) t ≡ any_node (permits match_less) t
          below keys b t shape =
              all_below pfx v (branch (key i.prefix) b) t
                (subst (λ k. PrefixOf k (branch (key i.prefix) b)) keys
                  (PrefixOf-branch (key i.prefix) b))
                (omega (arith, ap length keys, length-branch (key i.prefix) b)) shape

          nothing_below :
              i.prefix.mask_len < pfx.mask_len
              → Stops pfx i l r
              → (any_node (asks_for pfx) l ≡ false) × (any_node (asks_for pfx) r ≡ false)
          nothing_below lt (long_enough le) = absurd (omega arith)
          nothing_below lt (no_right lt' one none_there) =
              (none_aside pfx v i false l lt one s.2, rw none_there refl)
          nothing_below lt (no_left lt' zero none_there) =
              (rw none_there refl, none_aside pfx v i true r lt zero s.3)

          regroup :
              {asks l' l r' r : Bool} (actual fs more : Bool)
              → asks ≡ true
              → l' ≡ l
              → r' ≡ r
              → (actual || (fs || (l || r))) ≡ (((actual && (asks || more)) || (l' || r')) || fs)
          regroup actual fs more e f g = ground arith

          drop_false : (a fs : Bool) → (a || fs) ≡ ((a || false) || fs)
          drop_false a fs = ground arith

      Judged-left :
          (i : Node) (l r : Tree) (fs : List Frame) (x : Loc)
          → search_node (node i l r) fs pfx ≡ some x
          → i.prefix.mask_len < pfx.mask_len
          → bit_array_test pfx.address.bytes i.prefix.mask_len ≡ false
          → search_node l (left_of i r ∷ fs) pfx ≡ some x
          → Judged pfx v l (left_of i r ∷ fs) x
          → Judged pfx v (node i l r) fs x
      unfolding any_node any_frame
      Judged-left i l r fs x e short zero deeper rest p s h above =
          elim (Bool-cases (common (key pfx) (key i.prefix) == i.prefix.mask_len)) [
            | inr out ↦ parts_early pfx v ok i l r fs x e (ne_of_== _ _ out) p s h above
            | inl at ↦
                let lead = leads_pfx pfx v i ((==_iff _ _).0 at) in
                from_left pfx v i.actual _ _
                  (rest (branch (key i.prefix) false) s.2 (on_side pfx v i false lead short zero)
                    (omega (arith, length-branch (key i.prefix) false, length-key i.prefix)))
                  (asks_shorter pfx i lead
                    (omega (arith, short, length-key i.prefix, length-key pfx)))
                  (none_aside pfx v i true r short zero s.3)
          ]

      Judged-right :
          (i : Node) (l r : Tree) (fs : List Frame) (x : Loc)
          → search_node (node i l r) fs pfx ≡ some x
          → i.prefix.mask_len < pfx.mask_len
          → bit_array_test pfx.address.bytes i.prefix.mask_len ≡ true
          → search_node r (right_of i l ∷ fs) pfx ≡ some x
          → Judged pfx v r (right_of i l ∷ fs) x
          → Judged pfx v (node i l r) fs x
      unfolding any_node any_frame
      Judged-right i l r fs x e short one deeper rest p s h above =
          elim (Bool-cases (common (key pfx) (key i.prefix) == i.prefix.mask_len)) [
            | inr out ↦ parts_early pfx v ok i l r fs x e (ne_of_== _ _ out) p s h above
            | inl at ↦
                let lead = leads_pfx pfx v i ((==_iff _ _).0 at) in
                from_right pfx v i.actual _ _
                  (rest (branch (key i.prefix) true) s.3 (on_side pfx v i true lead short one)
                    (omega (arith, length-branch (key i.prefix) true, length-key i.prefix)))
                  (asks_shorter pfx i lead
                    (omega (arith, short, length-key i.prefix, length-key pfx)))
                  (none_aside pfx v i false l short one s.2)
          ]

      Judged-all :
          (t : Tree) (fs : List Frame) (x : Loc)
          → search_node t fs pfx ≡ some x
          → Judged pfx v t fs x
      Judged-all =
          search_node_ind pfx (Judged pfx v)
            (λ i l r fs stops p s h above.
              elim (Bool-cases (common (key pfx) (key i.prefix) == i.prefix.mask_len)) [
                | inl at ↦
                    let at' : common (key pfx) (key i.prefix) ≡ i.prefix.mask_len =
                      (==_iff _ _).0 at in
                    rw
                      (
                        find_differ_bit_lem pfx i.prefix ok s.0.ok,
                        at',
                        climb_stays i.prefix.mask_len i l r fs (
                            ParentsBelow-mono (length p) i.prefix.mask_len fs
                              (omega (arith, le-common p (key pfx) (key i.prefix) h s.0.below, at'))
                              above),
                      )
                      (judged_stop i l r fs p stops s at')
                | inr out ↦
                    parts_early pfx v ok i l r fs (loc i l r fs)
                      (search_node-Stops pfx i l r fs stops) (ne_of_== _ _ out) p s h above
              ])
            Judged-left Judged-right

-- On trees in shape, a well-formed prefix matches exactly if an actual node of its version asks
-- for it.
pub prefix_match-asks_for :
    (pt : Patricia) (pfx : Pfx)
    → IsTree pt
    → IsPfx pfx
    → prefix_match pt pfx ≡ any_node (asks_for pfx) (get_head pt pfx.address.version)
unfolding find_insert_point insert_point_from any_node any_frame
prefix_match-asks_for pt pfx tree ok =
    elim (Option-cases (search_node (get_head pt pfx.address.version) [] pfx)) [
      | inl nowhere ↦
          prefix_match-empty pt pfx (rw (find_insert_point, nowhere) refl)
          ∙ rw (search_node-none pfx (get_head pt pfx.address.version) [] nowhere) refl
      | inr (x, there) ↦
          prefix_match-matched_at pt pfx (insert_point_from pfx x)
            (rw (find_insert_point, there) refl)
          ∙ Judged-all pfx pfx.address.version ok (get_head pt pfx.address.version) [] x there []
              (head-HasShape pt pfx.address.version tree) tt tt
          ∙ or_false pfx (any_node (asks_for pfx) (get_head pt pfx.address.version))
    ]
