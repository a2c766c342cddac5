-- ===== src/Patricia/Walk.antt =====
-- Walking: bpt_walk_children, bpt_walk_parents, bgpstream_patricia_tree_walk and _walk_up_down, and
-- the overlap information, of lib/utils/bgpstream_utils_patricia.c.
use libbgpstream.Prelude.{
  ℕ, Bool, false, ◌||◌, Option, none, some, List, [], ◌∷◌, bit_or, if◌then◌else◌,
}
use libbgpstream.Pfx.{Pfx}
use libbgpstream.Patricia.Tree.{
  Tree, null, node, Frame, left_of, right_of, Loc, loc, up, here, frame_loc, frame_info, Patricia,
  get_head,
}
use libbgpstream.Patricia.Search.{self, parent, child, sibling, InsertPoint, find_insert_point}

pub data WalkResult : Type 0 where
  continue end_direction end_all : WalkResult

-- A callback reads and writes the state that `data` points to.
module _ {ℓ} (S : Type ℓ) where
  abbrev pub ProcessNode : Type ℓ
  ProcessNode = Loc → S → WalkResult × S

module _ {ℓ} {S : Type ℓ} where
  abbrev pub and_then : WalkResult × S → (S → WalkResult × S) → WalkResult × S
  and_then (continue, s) k = k s
  and_then (end_direction, s) k = (end_direction, s)
  and_then (end_all, s) k = (end_all, s)

  -- A node is processed only if it is an actual prefix.
  abbrev pub on_node_itself : ProcessNode S → Loc → S → WalkResult × S
  on_node_itself fun x s = if x.info.actual then fun x s else (continue, s)

  -- In order: left, node, right.
  unfoldable pub walk_children : ProcessNode S → Tree → List Frame → S → WalkResult × S
  walk_children fun null parents s = (continue, s)
  walk_children fun (node i l r) parents s =
      and_then (walk_children fun l (left_of i r ∷ parents) s) (λ t.
        and_then (on_node_itself fun (loc i l r parents) t)
          (λ u. walk_children fun r (right_of i l ∷ parents) u))

  -- From the nearest parent of `t` to the head.
  unfoldable pub walk_parents : ProcessNode S → Tree → List Frame → S → WalkResult × S
  walk_parents fun t [] s = (continue, s)
  walk_parents fun t (f ∷ fs) s =
      and_then (on_node_itself fun (frame_loc t f fs) s) (walk_parents fun (up t f) fs)

  -- A callback that may be null.
  abbrev pub call : Option (ProcessNode S) → (ProcessNode S → WalkResult × S) → S → WalkResult × S
  call none run s = (continue, s)
  call (some fun) run s = run fun

  -- Whether to stop: `rc == BGPSTREAM_PATRICIA_WALK_END_ALL`.
  abbrev pub unless_end_all : WalkResult × S → (S → S) → S
  unless_end_all (continue, s) k = k s
  unless_end_all (end_direction, s) k = k s
  unless_end_all (end_all, s) k = s

  -- The same where END_DIRECTION stops too.
  abbrev pub if_continue : WalkResult × S → (S → S) → S
  if_continue (continue, s) k = k s
  if_continue (end_direction, s) k = s
  if_continue (end_all, s) k = s

  module _ (exact_fun parent_fun child_fun : Option (ProcessNode S)) where
    abbrev pub on_exact : Loc → S → WalkResult × S
    on_exact x s = if x.info.actual then call exact_fun (λ fun. fun x s) s else (continue, s)

    abbrev pub on_parents : Loc → S → WalkResult × S
    on_parents x s = call parent_fun (λ fun. walk_parents fun (here x) x.parents s) s

    abbrev pub on_children : Loc → S → S
    on_children x s = elim child_fun [
      | none ↦ s
      | some fun ↦
          if_continue (walk_children fun x.l (left_of x.info x.r ∷ x.parents) s)
            (λ t. (walk_children fun x.r (right_of x.info x.l ∷ x.parents) t).1)
    ]

    unfoldable pub walk_at : InsertPoint → S → S
    unfolding walk_parents walk_children
    walk_at p s = elim p.relation [
      | self ↦
          unless_end_all (on_exact p.at s)
            (λ t. unless_end_all (on_parents p.at t) (λ u. on_children p.at u))
      | parent ↦
          (call parent_fun
            (λ fun.
              and_then (on_node_itself fun p.at s) (walk_parents fun (here p.at) p.at.parents))
            s).1
      | child ↦
          unless_end_all (on_parents p.at s)
            (λ t. (call child_fun (λ fun. walk_children fun (here p.at) p.at.parents t) t).1)
      | sibling ↦ (on_parents p.at s).1
    ]

    unfoldable pub walk_up_down : Patricia → Pfx → S → S
    unfolding walk_at find_insert_point
    walk_up_down pt pfx s = elim (find_insert_point (get_head pt pfx.address.version) pfx) [
      | none ↦ s
      | some p ↦ walk_at p s
    ]

  unfoldable pub walk : ProcessNode S → Patricia → S → S
  unfolding walk_children
  walk fun pt s = (walk_children fun pt.head6 [] (walk_children fun pt.head4 [] s).1).1

-- The bits of the overlap information.
abbrev pub less_specifics_bit : ℕ
less_specifics_bit = 0x04

abbrev pub exact_match_bit : ℕ
exact_match_bit = 0x02

abbrev pub more_specifics_bit : ℕ
more_specifics_bit = 0x01

-- `set_exact`, `set_less_specific` and `set_more_specific`.
abbrev pub set_bit : ℕ → ProcessNode ℕ
set_bit b x s = (end_direction, bit_or s b)

unfoldable pub get_pfx_overlap_info : Patricia → Pfx → ℕ
unfolding walk_up_down
get_pfx_overlap_info pt pfx =
    walk_up_down (some (set_bit exact_match_bit)) (some (set_bit less_specifics_bit))
      (some (set_bit more_specifics_bit)) pt pfx 0

-- Does the subtree hold a real prefix?
unfoldable pub find_more_specific : Tree → Bool
find_more_specific null = false
find_more_specific (node i l r) = i.actual || find_more_specific l || find_more_specific r

unfoldable pub has_actual_parent : List Frame → Bool
has_actual_parent [] = false
has_actual_parent (f ∷ fs) = (frame_info f).actual || has_actual_parent fs

unfoldable pub get_node_overlap_info : Loc → ℕ
unfolding has_actual_parent find_more_specific
get_node_overlap_info x =
    let mask = exact_match_bit in
    let mask' = if has_actual_parent x.parents then bit_or mask less_specifics_bit else mask in
    if find_more_specific x.l || find_more_specific x.r
    then bit_or mask' more_specifics_bit
    else mask'
