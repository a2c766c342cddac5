-- ===== src/Patricia/Results.antt =====
-- Result sets and the queries that fill them, of lib/utils/bgpstream_utils_patricia.c.
-- `kroundup32` is a macro of khash.h, a parameter here; allocation succeeds.
use libbgpstream.Prelude.{
  ℕ, zero, suc, ◌+◌, ◌-◌, Option, none, some, List, [], ◌∷◌, ◌++◌, ltb, leb, ◌==◌, if◌then◌else◌,
  length, get_or, replicate,
}
use libbgpstream.Addr.{AddrVersion}
use libbgpstream.Patricia.Tree.{
  Tree, null, node, Frame, left_of, right_of, Loc, loc, up, here, frame_loc, Patricia, get_head,
}
use libbgpstream.Patricia.Insert.{max_bits}

-- `none` is an entry that no call has written yet.
pub record ResultSet : Type 0 where
  pub result_nodes : List (Option Loc)
  pub n_recs : ℕ
  pub cursor : ℕ
  pub alloc_size : ℕ

abbrev pub set_entry {ℓ} : {A : Type ℓ} → List A → ℕ → A → List A
set_entry [] i v = []
set_entry (x ∷ xs) zero v = v ∷ xs
set_entry (x ∷ xs) (suc i) v = x ∷ set_entry xs i v

abbrev pub empty_set : ResultSet
empty_set = record { result_nodes = []; n_recs = 0; cursor = 0; alloc_size = 0 }

unfoldable pub result_set_clear : ResultSet → ResultSet
result_set_clear set = record set { n_recs = 0; cursor = 0 }

unfoldable pub result_set_rewind : ResultSet → ResultSet
result_set_rewind set = record set { cursor = 0 }

unfoldable pub result_set_next : ResultSet → Option Loc × ResultSet
result_set_next set =
    if leb set.n_recs set.cursor
    then (none, set)
    else (get_or set.result_nodes set.cursor none, record set { cursor = set.cursor + 1 })

unfoldable pub result_set_count : ResultSet → ℕ
result_set_count set = set.n_recs

module _ (kroundup32 : ℕ → ℕ) where
  -- `realloc` to the larger size keeps the entries.
  unfoldable pub grow : ResultSet → ResultSet
  grow set =
      if ltb set.alloc_size set.n_recs
      then record set {
        alloc_size = kroundup32 set.n_recs;
        result_nodes =
            set.result_nodes ++ replicate (kroundup32 set.n_recs - length set.result_nodes) none;
      }
      else set

  unfoldable pub result_set_add_node : ResultSet → Option Loc → ResultSet
  unfolding grow
  result_set_add_node set x =
      let grown = grow (record set { n_recs = set.n_recs + 1 }) in
      record grown { result_nodes = set_entry grown.result_nodes (grown.n_recs - 1) x }

  unfoldable pub result_set_create : ResultSet
  unfolding result_set_add_node result_set_clear
  result_set_create = result_set_clear (result_set_add_node empty_set none)

  -- `depth` says how many actual nodes to take on each way down.
  unfoldable pub add_more_specifics : ResultSet → Tree → List Frame → ℕ → ResultSet
  unfolding result_set_add_node
  add_more_specifics set null parents depth = set
  add_more_specifics set (node i l r) parents depth =
      let d = if i.actual then depth - 1 else depth in
      let with_node =
        if i.actual then result_set_add_node set (some (loc i l r parents)) else set in
      let with_left = add_more_specifics with_node l (left_of i r ∷ parents) d in
      let with_right = add_more_specifics with_left r (right_of i l ∷ parents) d in
      if depth == 0 then set else with_right

  -- From the nearest parent of `t` to the head.
  unfoldable pub add_less_specifics : ResultSet → Tree → List Frame → ℕ → ResultSet
  unfolding result_set_add_node
  add_less_specifics set t [] depth = set
  add_less_specifics set t (f ∷ fs) depth =
      let x = frame_loc t f fs in
      let d = if x.info.actual then depth - 1 else depth in
      let with_node = if x.info.actual then result_set_add_node set (some x) else set in
      let rest = add_less_specifics with_node (up t f) fs d in if depth == 0 then set else rest

  unfoldable pub get_more_specifics : ResultSet → Option Loc → ResultSet
  unfolding add_more_specifics result_set_clear
  get_more_specifics results none = result_set_clear results
  get_more_specifics results (some x) =
      add_more_specifics
        (add_more_specifics (result_set_clear results) x.l (left_of x.info x.r ∷ x.parents)
          (max_bits + 1))
        x.r (right_of x.info x.l ∷ x.parents) (max_bits + 1)

  unfoldable pub get_mincovering_prefix : ResultSet → Option Loc → ResultSet
  unfolding add_less_specifics result_set_clear
  get_mincovering_prefix results none = result_set_clear results
  get_mincovering_prefix results (some x) =
      add_less_specifics (result_set_clear results) (here x) x.parents 1

  unfoldable pub get_less_specifics : ResultSet → Option Loc → ResultSet
  unfolding add_less_specifics result_set_clear
  get_less_specifics results none = result_set_clear results
  get_less_specifics results (some x) =
      add_less_specifics (result_set_clear results) (here x) x.parents (max_bits + 1)

  unfoldable pub get_minimum_coverage : Patricia → AddrVersion → ResultSet → ResultSet
  unfolding add_more_specifics result_set_clear
  get_minimum_coverage pt v results =
      add_more_specifics (result_set_clear results) (get_head pt v) [] 1
