-- ===== src/Filter/Check/Prefixes.antt =====
-- What bgpstream_elem_prefix_match of lib/bgpstream_record.c is to find, and what its walk from an
-- insertion point comes to.
use libbgpstream.Prelude.{
  ℕ, ◌≡◌, refl, ap, ◌∙◌, Bool, true, false, ◌&&◌, ◌||◌, none, some, List, [], ◌∷◌, ◌==◌,
  if◌then◌else◌, arith,
}
use libbgpstream.Addr.{AddrVersion}
use libbgpstream.Key.{Key, PrefixOf, PrefixOf-trans, branch, branch-parent, key_eq}
use libbgpstream.Pfx.{Pfx, key, match_any, match_more, match_less}
use libbgpstream.Patricia.Tree.{
  Node, Tree, null, node, Frame, left_of, right_of, frame_info, Loc, here, Patricia, get_head,
}
use libbgpstream.Patricia.Tree.Shape.{HasShape}
use libbgpstream.Patricia.Search.{
  Relation, self, parent, child, sibling, InsertPoint, find_insert_point,
}
use libbgpstream.Patricia.Walk.{
  WalkResult, continue, end_all, walk_children, walk_parents, and_then, unless_end_all, if_continue,
  walk_up_down, walk_at,
}
use libbgpstream.Patricia.Leads.{leads}
use libbgpstream.Filter.Check.{pfx_exists, pfx_allows, prefix_match}

abbrev pub permits : ℕ → Node → Bool
permits matches i = i.prefix.allowed_matches == match_any || i.prefix.allowed_matches == matches

-- A prefix of the filter asks for itself; for the more specific ones, whose bits its own lead, if
-- it allows any or those; and for the less specific ones, whose bits lead its own, if it allows any
-- or those.
abbrev pub asks_for : Pfx → Node → Bool
asks_for pfx i =
    key_eq (key i.prefix) (key pfx)
    || ((leads (key i.prefix) (key pfx) && permits match_more i)
        || (leads (key pfx) (key i.prefix) && permits match_less i))

-- Whether an actual node passes the test.
unfoldable pub any_node : (Node → Bool) → Tree → Bool
any_node f null = false
any_node f (node i l r) = (i.actual && f i) || (any_node f l || any_node f r)

unfoldable pub any_frame : (Node → Bool) → List Frame → Bool
any_frame f [] = false
any_frame f (fr ∷ fs) = ((frame_info fr).actual && f (frame_info fr)) || any_frame f fs

pub any_node-same :
    (f g : Node → Bool) (v : AddrVersion) (p : Key) (t : Tree)
    → HasShape v p t
    → ((i : Node) → PrefixOf p (key i.prefix) → f i ≡ g i)
    → any_node f t ≡ any_node g t
unfolding any_node
any_node-same f g v p null s h = refl
any_node-same f g v p (node i l r) s h =
    rw
      (
        h i s.0.below,
        any_node-same f g v (branch (key i.prefix) false) l s.2 (below false),
        any_node-same f g v (branch (key i.prefix) true) r s.3 (below true),
      )
      refl
  where
    below : (b : Bool) (j : Node) → PrefixOf (branch (key i.prefix) b) (key j.prefix) → f j ≡ g j
    below b j q = h j (
        PrefixOf-trans p (key i.prefix) (key j.prefix) s.0.below
          (branch-parent (key i.prefix) (key j.prefix) b q))

any_node-never : (t : Tree) → any_node (λ i. false) t ≡ false
unfolding any_node
any_node-never null = refl
any_node-never (node i l r) = ground (arith, any_node-never l, any_node-never r)

pub any_node-none :
    (f : Node → Bool) (v : AddrVersion) (p : Key) (t : Tree)
    → HasShape v p t
    → ((i : Node) → PrefixOf p (key i.prefix) → f i ≡ false)
    → any_node f t ≡ false
any_node-none f v p t s h = rw (any_node-same f (λ i. false) v p t s h) (any_node-never t)

-- What a walk with the callback has come to.
abbrev outcome : Bool → WalkResult × Bool
outcome b = if b then (end_all, true) else (continue, false)

-- A callback on an actual node, and then the rest of the walk.
guarded :
    (actual p rest : Bool) (k : Bool → WalkResult × Bool)
    → k false ≡ outcome rest
    → and_then
        (if actual then (if p then (end_all, true) else (continue, false)) else (continue, false))
        k
      ≡ outcome ((actual && p) || rest)
guarded true true rest k e = refl
guarded true false rest k e = e
guarded false p rest k e = e

after_left :
    (left rest : Bool) (k : Bool → WalkResult × Bool)
    → k false ≡ outcome rest
    → and_then (outcome left) k ≡ outcome (left || rest)
after_left true rest k e = refl
after_left false rest k e = e

left_last : (a b c : Bool) → (b || (a || c)) ≡ (a || (b || c))
left_last a b c = ground arith

walk_children-any :
    (m : ℕ) (t : Tree) (fs : List Frame)
    → walk_children (pfx_allows m) t fs false ≡ outcome (any_node (permits m) t)
unfolding walk_children any_node pfx_allows
walk_children-any m null fs = refl
walk_children-any m (node i l r) fs = rw (walk_children-any m l (left_of i r ∷ fs)) (
    after_left (any_node (permits m) l) ((i.actual && permits m i) || any_node (permits m) r) _ (
      guarded i.actual (permits m i) (any_node (permits m) r) _
        (walk_children-any m r (right_of i l ∷ fs)))
    ∙ ap outcome (left_last (i.actual && permits m i) (any_node (permits m) l) _))

walk_parents-any :
    (m : ℕ) (t : Tree) (fs : List Frame)
    → walk_parents (pfx_allows m) t fs false ≡ outcome (any_frame (permits m) fs)
unfolding walk_parents any_frame pfx_allows
walk_parents-any m t [] = refl
walk_parents-any m t (left_of i r ∷ fs) =
    guarded i.actual (permits m i) (any_frame (permits m) fs) _ (walk_parents-any m (node i t r) fs)
walk_parents-any m t (right_of i l ∷ fs) =
    guarded i.actual (permits m i) (any_frame (permits m) fs) _ (walk_parents-any m (node i l t) fs)

-- What the walk looks at, by the relation to the insertion point.
abbrev pub matched_at : Relation → Loc → Bool
matched_at self x =
    x.info.actual
    || (any_frame (permits match_more) x.parents
        || (any_node (permits match_less) x.l || any_node (permits match_less) x.r))
matched_at parent x =
    (x.info.actual && permits match_more x.info) || any_frame (permits match_more) x.parents
matched_at child x =
    any_frame (permits match_more) x.parents || any_node (permits match_less) (here x)
matched_at sibling x = any_frame (permits match_more) x.parents

found_at : (b : Bool) → (outcome b).1 ≡ b
found_at true = refl
found_at false = refl

unless_found :
    (b rest : Bool) (k : Bool → Bool) → k false ≡ rest → unless_end_all (outcome b) k ≡ (b || rest)
unless_found true rest k e = refl
unless_found false rest k e = e

if_none_found :
    (b rest : Bool) (k : Bool → Bool) → k false ≡ rest → if_continue (outcome b) k ≡ (b || rest)
if_none_found true rest k e = refl
if_none_found false rest k e = e

walk_at-matched_at :
    (rel : Relation) (x : Loc) (d : ℕ)
    → walk_at
        (some pfx_exists)
        (some (pfx_allows match_more))
        (some (pfx_allows match_less))
        (record { at = x; relation = rel; differ_bit = d })
        false
      ≡ matched_at rel x
unfolding walk_at pfx_exists pfx_allows
walk_at-matched_at self x d = unless_found x.info.actual _ _ (
    rw (walk_parents-any match_more (here x) x.parents) (
      unless_found (any_frame (permits match_more) x.parents) _ _ (
        rw (walk_children-any match_less x.l (left_of x.info x.r ∷ x.parents)) (
          if_none_found (any_node (permits match_less) x.l) _ _ (
            ap (λ r. r.1) (walk_children-any match_less x.r (right_of x.info x.l ∷ x.parents))
            ∙ found_at _)))))
walk_at-matched_at parent x d =
    ap (λ r. r.1)
      (guarded x.info.actual (permits match_more x.info) (any_frame (permits match_more) x.parents)
        _ (walk_parents-any match_more (here x) x.parents))
    ∙ found_at _
walk_at-matched_at child x d = rw (walk_parents-any match_more (here x) x.parents) (
    unless_found (any_frame (permits match_more) x.parents) _ _
      (ap (λ r. r.1) (walk_children-any match_less (here x) x.parents) ∙ found_at _))
walk_at-matched_at sibling x d =
    ap (λ r. r.1) (walk_parents-any match_more (here x) x.parents) ∙ found_at _

pub prefix_match-matched_at :
    (pt : Patricia) (pfx : Pfx) (p : InsertPoint)
    → find_insert_point (get_head pt pfx.address.version) pfx ≡ some p
    → prefix_match pt pfx ≡ matched_at p.relation p.at
unfolding prefix_match walk_up_down
prefix_match-matched_at pt pfx p e =
    ap
      (λ o. elim o [
        | none ↦ false
        | some q ↦
            walk_at (some pfx_exists) (some (pfx_allows match_more)) (some (pfx_allows match_less))
              q false
      ])
      e
    ∙ walk_at-matched_at p.relation p.at p.differ_bit

pub prefix_match-empty :
    (pt : Patricia) (pfx : Pfx)
    → find_insert_point (get_head pt pfx.address.version) pfx ≡ none
    → prefix_match pt pfx ≡ false
unfolding prefix_match walk_up_down
prefix_match-empty pt pfx e =
    ap
      (λ o. elim o [
        | none ↦ false
        | some q ↦
            walk_at (some pfx_exists) (some (pfx_allows match_more)) (some (pfx_allows match_less))
              q false
      ])
      e
