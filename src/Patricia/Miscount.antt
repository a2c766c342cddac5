-- ===== src/Patricia/Miscount.antt =====
-- bgpstream_patricia_tree_remove of lib/utils/bgpstream_utils_patricia.c and the counters: a node
-- with two children is emptied but stays in the count.
use libbgpstream.Prelude.{
  ℕ, ◌+◌, ◌-◌, ◌%◌, ◌^◌, ◌≡◌, ◌≢◌, refl, sym, ap, subst, ◌∙◌, Bool, true, false, not, ◌&&◌, Option,
  none, some, List, [], ◌∷◌, if◌then◌else◌, arith, ◌⊎◌, inl, inr, Bool-cases,
}
use libbgpstream.Addr.{AddrVersion, unknown, ipv4, ipv6}
use libbgpstream.Addr.Versions.{version_eq_refl}
use libbgpstream.Pfx.{Pfx, IsPfx}
use libbgpstream.Patricia.Tree.{
  Node, Tree, null, node, Frame, left_of, right_of, Loc, plug, Patricia, get_head, destroy_user,
}
use libbgpstream.Patricia.Tree.Shape.{is_node}
use libbgpstream.Patricia.Search.{search_exact}
use libbgpstream.Patricia.Remove.{remove, remove_node, removed, unlink, unlink_leaf}
use libbgpstream.Patricia.Remove.Laws.{
  IsFound, search_exact-IsFound, removed-head, remove_node-actual,
}
use libbgpstream.Patricia.Insert.Set.{IsTree}
use libbgpstream.Patricia.Counts.{prefix_count}
use libbgpstream.Patricia.Counted.{one_if, actual_nodes, search_node-plug}
use libbgpstream.Patricia.Counters.{IsCounted}

frame_nodes : List Frame → ℕ
unfolding actual_nodes
frame_nodes [] = 0
frame_nodes (left_of i r ∷ fs) = one_if i.actual + actual_nodes r + frame_nodes fs
frame_nodes (right_of i l ∷ fs) = one_if i.actual + actual_nodes l + frame_nodes fs

actual_nodes-plug :
    (t : Tree) (fs : List Frame) → actual_nodes (plug t fs) ≡ actual_nodes t + frame_nodes fs
unfolding frame_nodes
actual_nodes-plug t [] = omega arith
actual_nodes-plug t (left_of i r ∷ fs) =
    unfold actual_nodes in omega (arith, actual_nodes-plug (node i t r) fs)
actual_nodes-plug t (right_of i l ∷ fs) =
    unfold actual_nodes in omega (arith, actual_nodes-plug (node i l t) fs)

actual_nodes-unlink_leaf : (fs : List Frame) → actual_nodes (unlink_leaf fs) ≡ frame_nodes fs
unfolding unlink_leaf frame_nodes actual_nodes
actual_nodes-unlink_leaf [] = refl
actual_nodes-unlink_leaf (left_of i r ∷ fs) =
    ground (arith, actual_nodes-plug (node i null r) fs, actual_nodes-plug r fs)
actual_nodes-unlink_leaf (right_of i l ∷ fs) =
    ground (arith, actual_nodes-plug (node i l null) fs, actual_nodes-plug l fs)

-- An actual node is lost, whichever way it is unlinked.
actual_nodes-unlink :
    (i : Node) (l r : Tree) (fs : List Frame)
    → i.actual ≡ true
    → actual_nodes (unlink i l r fs).0 + 1 ≡ actual_nodes (plug (node i l r) fs)
unfolding unlink actual_nodes
actual_nodes-unlink i null null fs e =
    omega (arith, ap one_if e, actual_nodes-unlink_leaf fs, actual_nodes-plug (node i null null) fs)
actual_nodes-unlink i (node j a b) null fs e = omega (
  arith,
  ap one_if e,
  actual_nodes-plug (node j a b) fs,
  actual_nodes-plug (node i (node j a b) null) fs,
)
actual_nodes-unlink i null (node k c d) fs e = omega (
  arith,
  ap one_if e,
  actual_nodes-plug (node k c d) fs,
  actual_nodes-plug (node i null (node k c d)) fs,
)
actual_nodes-unlink i (node j a b) (node k c d) fs e = omega (
  arith,
  ap one_if e,
  actual_nodes-plug (node (record i { actual = false; user = none }) (node j a b) (node k c d)) fs,
  actual_nodes-plug (node i (node j a b) (node k c d)) fs,
)

unlink-freed :
    (i : Node) (l r : Tree) (fs : List Frame) → (unlink i l r fs).1 ≡ not (is_node l && is_node r)
unfolding unlink
unlink-freed i null null fs = refl
unlink-freed i (node j a b) null fs = refl
unlink-freed i null (node k c d) fs = refl
unlink-freed i (node j a b) (node k c d) fs = refl

removed-count :
    (pt : Patricia) (v : AddrVersion) (t : Tree) (freed : Bool)
    → v ≢ unknown
    → prefix_count (removed pt v (t, freed)) v
      ≡ (if freed then (prefix_count pt v + 2 ^ 64 - 1) % 2 ^ 64 else prefix_count pt v)
unfolding removed prefix_count
removed-count pt unknown t freed known = absurd (known refl)
removed-count pt ipv4 t true known = refl
removed-count pt ipv6 t true known = refl
removed-count pt ipv4 t false known = refl
removed-count pt ipv6 t false known = refl

destroy_user-count :
    (pt : Patricia) (u : Option ℕ) (w : AddrVersion)
    → prefix_count (destroy_user pt u) w ≡ prefix_count pt w
unfolding prefix_count
destroy_user-count pt none w = refl
destroy_user-count pt (some n) ipv4 = elim (Bool-cases pt.has_destructor) [
  | inl e ↦ rw e
  | inr e ↦ rw e
]
destroy_user-count pt (some n) ipv6 = elim (Bool-cases pt.has_destructor) [
  | inl e ↦ rw e
  | inr e ↦ rw e
]
destroy_user-count pt (some n) unknown = refl

module _ (pt : Patricia) (pfx : Pfx) (x : Loc) (tree : IsTree pt) (ok : IsPfx pfx) where
  abbrev v : AddrVersion
  v = pfx.address.version

  -- Where both trees are in shape, the prefix is well formed, the counters are right and the
  -- exact search finds the node x, after the removal the counter of the prefix's version is
  -- the number of actual nodes if x lacked a child, and one more if x had both children, on 64
  -- bits.
  pub remove-count :
      IsCounted pt
      → search_exact pt pfx ≡ some x
      → prefix_count (remove pt pfx) v
        ≡ (actual_nodes (get_head (remove pt pfx) v) + one_if (is_node x.l && is_node x.r)) % 2 ^ 64
  unfolding remove
  remove-count counted e =
      subst
        (λ q.
          prefix_count q v
          ≡ (actual_nodes (get_head q v) + one_if (is_node x.l && is_node x.r)) % 2 ^ 64)
        (sym is_removed)
        (subst
          (λ t.
            prefix_count (removed pt' v y) v
            ≡ (actual_nodes t + one_if (is_node x.l && is_node x.r)) % 2 ^ 64)
          (sym head_is)
          (removed-count pt' v y.0 y.1 ok.addr.known
            ∙ counts (Bool-cases (is_node x.l && is_node x.r))))
    where
      found : IsFound pfx ok pt x
      found = search_exact-IsFound pfx ok pt x tree e

      pt' : Patricia
      pt' = destroy_user pt x.info.user

      y : Tree × Bool
      y = unlink x.info x.l x.r x.parents

      lost : actual_nodes y.0 + 1 ≡ actual_nodes (get_head pt v)
      lost =
          actual_nodes-unlink x.info x.l x.r x.parents found.actual
          ∙ ap actual_nodes (search_node-plug pfx (get_head pt v) [] x found.reached)

      is_removed : remove pt pfx ≡ removed pt' v y
      is_removed =
          ap (remove_node pt) e
          ∙ remove_node-actual pt x found.actual
          ∙ ap (λ u. removed pt' u y) found.node_ok.version

      head_is : get_head (removed pt' v y) v ≡ y.0
      head_is = removed-head pt' v v y ok.addr.known ∙ rw (version_eq_refl v)

      before : prefix_count pt' v ≡ (actual_nodes y.0 + 1) % 2 ^ 64
      before = destroy_user-count pt x.info.user v ∙ counted v ∙ sym (ap (λ n. n % 2 ^ 64) lost)

      counts :
          ((is_node x.l && is_node x.r) ≡ true) ⊎ ((is_node x.l && is_node x.r) ≡ false)
          → (if y.1 then (prefix_count pt' v + 2 ^ 64 - 1) % 2 ^ 64 else prefix_count pt' v)
            ≡ (actual_nodes y.0 + one_if (is_node x.l && is_node x.r)) % 2 ^ 64
      counts (inl both) = rw (unlink-freed x.info x.l x.r x.parents, both) before
      counts (inr lacks) = rw (unlink-freed x.info x.l x.r x.parents, lacks) (omega (arith, before))
