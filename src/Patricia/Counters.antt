-- ===== src/Patricia/Counters.antt =====
-- The counters and the number of actual nodes: what bgpstream_patricia_tree_insert and
-- bgpstream_patricia_tree_remove_node of lib/utils/bgpstream_utils_patricia.c do to them.
use libbgpstream.Prelude.{
  ◌+◌, ◌%◌, ◌^◌, ◌≡◌, ◌≢◌, ◌⊎◌, inl, inr, refl, sym, ap, ◌∙◌, Bool, true, false, not, none, some,
  [], if◌then◌else◌, arith, Bool-cases, Option-cases, ◌&&◌,
}
use libbgpstream.Addr.{AddrVersion, unknown, ipv4, ipv6, version_eq}
use libbgpstream.Addr.Versions.{version_eq_sound}
use libbgpstream.Pfx.{Pfx, IsPfx, key}
use libbgpstream.Patricia.Tree.{Tree, null, Loc, loc, plug, here, Patricia, get_head, set_head}
use libbgpstream.Patricia.Tree.Shape.{member}
use libbgpstream.Patricia.Insert.{insert, insert_at, insert_result, node_create}
use libbgpstream.Patricia.Insert.Reference.{ins}
use libbgpstream.Patricia.Insert.Set.{IsTree, head-HasShape, insert-head}
use libbgpstream.Patricia.Search.{search_node, find_insert_point, insert_point_from}
use libbgpstream.Patricia.Search.Descent.{search_node-none}
use libbgpstream.Patricia.Counts.{prefix_count}
use libbgpstream.Patricia.Counted.{one_if, actual_nodes, added_sound, added_complete}
use libbgpstream.Patricia.ActualNodes.{actual_nodes-ins}

-- Each counter is the number of actual nodes of its tree, on 64 bits.
abbrev pub IsCounted : Patricia → Type 0
IsCounted pt = (w : AddrVersion) → prefix_count pt w ≡ actual_nodes (get_head pt w) % 2 ^ 64

insert_result-count :
    (pt : Patricia) (v w : AddrVersion) (x : Loc)
    → v ≢ unknown
    → prefix_count (insert_result pt v (x, true)).0 w
      ≡ (if version_eq w v then (prefix_count pt v + 1) % 2 ^ 64 else prefix_count pt w)
unfolding insert_result prefix_count
insert_result-count pt unknown w x known = absurd (known refl)
insert_result-count pt ipv4 unknown x known = refl
insert_result-count pt ipv4 ipv4 x known = refl
insert_result-count pt ipv4 ipv6 x known = refl
insert_result-count pt ipv6 unknown x known = refl
insert_result-count pt ipv6 ipv4 x known = refl
insert_result-count pt ipv6 ipv6 x known = refl

pub set_head-count :
    (pt : Patricia) (v w : AddrVersion) (t : Tree)
    → prefix_count (set_head pt v t) w ≡ prefix_count pt w
unfolding prefix_count
set_head-count pt unknown w t = refl
set_head-count pt ipv4 unknown t = refl
set_head-count pt ipv4 ipv4 t = refl
set_head-count pt ipv4 ipv6 t = refl
set_head-count pt ipv6 unknown t = refl
set_head-count pt ipv6 ipv4 t = refl
set_head-count pt ipv6 ipv6 t = refl

module _ (pt : Patricia) (pfx : Pfx) (tree : IsTree pt) (ok : IsPfx pfx) where
  abbrev v : AddrVersion
  v = pfx.address.version

  -- The counter of the prefix's version goes up by one exactly if the prefix is new.
  insert-count :
      (w : AddrVersion)
      → prefix_count (insert pt pfx).0 w ≡ (
          if version_eq w v && not (member (key pfx) (get_head pt v))
          then (prefix_count pt v + 1) % 2 ^ 64
          else prefix_count pt w)
  unfolding insert find_insert_point
  insert-count w = at (Option-cases (search_node (get_head pt v) [] pfx))
    where
      Counts : Patricia × Loc → Bool → Type 0
      Counts y held = prefix_count y.0 w ≡ (
          if version_eq w v && not held
          then (prefix_count pt v + 1) % 2 ^ 64
          else prefix_count pt w)

      flagged : (y : Loc × Bool) (held : Bool) → y.1 ≡ not held → Counts (insert_result pt v y) held
      flagged (x, true) false e = insert_result-count pt v w x ok.addr.known ∙ ground arith
      flagged (x, true) true e = cc
      flagged (x, false) false e = cc
      flagged (x, false) true e =
          unfold insert_result in set_head-count pt v w (plug (here x) x.parents) ∙ ground arith

      added :
          (x : Loc)
          → search_node (get_head pt v) [] pfx ≡ some x
          → (insert_at pfx (insert_point_from pfx x)).1 ≡ not (member (key pfx) (get_head pt v))
      added x e = ground (
        arith,
        added_sound v pfx ok refl (get_head pt v) x e (head-HasShape pt v tree),
        added_complete v pfx ok refl (get_head pt v) x e (head-HasShape pt v tree),
      )

      at :
          (search_node (get_head pt v) [] pfx ≡ none)
            ⊎ ((x : Loc) × (search_node (get_head pt v) [] pfx ≡ some x))
          → Counts (insert pt pfx) (member (key pfx) (get_head pt v))
      at (inl e) =
          rw (e, insert)
            (flagged (loc (node_create pfx) null null [], true) (member (key pfx) (get_head pt v))
              (sym (
                ap (λ t. not (member (key pfx) t)) (search_node-none pfx (get_head pt v) [] e)
                ∙ none_held)))
        where
          none_held : not (member (key pfx) null) ≡ true
          none_held = unfold member in refl
      at (inr (x, e)) =
          rw (e, insert)
            (flagged (insert_at pfx (insert_point_from pfx x)) (member (key pfx) (get_head pt v))
              (added x e))

  -- Where both trees are in shape and the prefix is well formed, if each counter is the number
  -- of actual nodes of its tree, on 64 bits, then so it is after the insertion.
  pub insert-IsCounted : IsCounted pt → IsCounted (insert pt pfx).0
  insert-IsCounted counted w =
      insert-count w
      ∙ cases (Bool-cases (version_eq w v)) (Bool-cases (member (key pfx) (get_head pt v)))
      ∙ sym (ap (λ t. actual_nodes t % 2 ^ 64) (insert-head pt pfx w tree ok))
    where
      grown :
          actual_nodes (ins pfx (get_head pt v))
          ≡ actual_nodes (get_head pt v) + one_if (not (member (key pfx) (get_head pt v)))
      grown = actual_nodes-ins v pfx ok refl (get_head pt v) [] (head-HasShape pt v tree)

      cases :
          (version_eq w v ≡ true) ⊎ (version_eq w v ≡ false)
          → (member (key pfx) (get_head pt v) ≡ true) ⊎ (member (key pfx) (get_head pt v) ≡ false)
          → (if version_eq w v && not (member (key pfx) (get_head pt v))
              then (prefix_count pt v + 1) % 2 ^ 64
              else prefix_count pt w)
            ≡ actual_nodes (if version_eq w v then ins pfx (get_head pt v) else get_head pt w)
              % 2 ^ 64
      cases (inl e) (inl m) =
          rw (e, m, version_eq_sound w v e)
            (counted v ∙ ap (λ n. n % 2 ^ 64) (omega (arith, grown, ap (λ b. one_if (not b)) m)))
      cases (inl e) (inr m) =
          rw (e, m) (omega (arith, counted v, grown, ap (λ b. one_if (not b)) m))
      cases (inr e) m = rw e (counted w)
