-- ===== src/Patricia/Remove/Laws.antt =====
-- What bgpstream_patricia_tree_remove does to the two trees.
use libbgpstream.Prelude.{
  ◌≡◌, ◌⊎◌, inl, inr, refl, sym, ap, ◌∙◌, Bool, true, false, not, ◌&&◌, Option, none, some, [],
  if◌then◌else◌, arith, Bool-cases, Option-cases, ℕ,
}
use libbgpstream.Addr.{AddrVersion, unknown, ipv4, ipv6, version_eq}
use libbgpstream.Addr.Versions.{version_eq_sound}
use libbgpstream.Key.{Key, key_eq, key_eq_sound, key_eq_refl}
use libbgpstream.Pfx.{Pfx, IsPfx, key}
use libbgpstream.Patricia.Tree.{Tree, null, node, Loc, Patricia, get_head, set_head, destroy_user}
use libbgpstream.Patricia.Tree.Shape.{NodeOk, HasShape, member, and_left}
use libbgpstream.Patricia.Search.{search_node, search_exact, exact_or_none}
use libbgpstream.Patricia.Search.Descent.{search_node-below}
use libbgpstream.Patricia.Search.Exact.{is_some, exact_iff, exact_or_none-eq, search_exact-member}
use libbgpstream.Patricia.Remove.{remove, remove_node, removed, unlink, uncount_node}
use libbgpstream.Patricia.Remove.Reference.{del, settle, unlink-del}
use libbgpstream.Patricia.Remove.Set.{member-del_other, member-del_self, del-HasShape}
use libbgpstream.Patricia.Insert.Set.{IsTree, head-HasShape, set_head-head}

pub destroy_user-head :
    (pt : Patricia) (u : Option ℕ) (w : AddrVersion)
    → get_head (destroy_user pt u) w ≡ get_head pt w
destroy_user-head pt none w = refl
destroy_user-head pt (some n) w = cases w (Bool-cases pt.has_destructor)
  where
    cases :
        (w : AddrVersion)
        → (pt.has_destructor ≡ true) ⊎ (pt.has_destructor ≡ false)
        → get_head (destroy_user pt (some n)) w ≡ get_head pt w
    cases ipv4 (inl e) = rw e
    cases ipv6 (inl e) = rw e
    cases unknown (inl e) = refl
    cases ipv4 (inr e) = rw e
    cases ipv6 (inr e) = rw e
    cases unknown (inr e) = refl

uncount_node-head :
    (pt : Patricia) (v w : AddrVersion) → get_head (uncount_node pt v) w ≡ get_head pt w
uncount_node-head pt ipv4 unknown = refl
uncount_node-head pt ipv4 ipv4 = refl
uncount_node-head pt ipv4 ipv6 = refl
uncount_node-head pt ipv6 unknown = refl
uncount_node-head pt ipv6 ipv4 = refl
uncount_node-head pt ipv6 ipv6 = refl
uncount_node-head pt unknown unknown = refl
uncount_node-head pt unknown ipv4 = refl
uncount_node-head pt unknown ipv6 = refl

pub removed-head :
    (pt : Patricia) (v w : AddrVersion) (y : Tree × Bool)
    → (v ≡ unknown → ⊥)
    → get_head (removed pt v y) w ≡ (if version_eq w v then y.0 else get_head pt w)
unfolding removed
removed-head pt v w (t, true) known =
    uncount_node-head (set_head pt v t) v w ∙ set_head-head pt v w t known
removed-head pt v w (t, false) known = set_head-head pt v w t known

pub remove_node-actual :
    (pt : Patricia) (x : Loc)
    → x.info.actual ≡ true
    → remove_node pt (some x)
      ≡ removed
          (destroy_user pt x.info.user)
          x.info.prefix.address.version
          (unlink x.info x.l x.r x.parents)
unfolding remove_node
remove_node-actual pt x e = simp e

settle-top : (t : Tree) → settle t [] ≡ t
unfolding settle
settle-top null = refl
settle-top (node i l r) = refl

module _ (pfx : Pfx) (ok : IsPfx pfx) where
  abbrev v : AddrVersion
  v = pfx.address.version

  -- What an exact search returns.
  pub record IsFound (pt : Patricia) (x : Loc) : Type 0 where
    pub reached : search_node (get_head pt v) [] pfx ≡ some x
    pub node_ok : NodeOk v [] x.info
    pub actual : x.info.actual ≡ true
    pub same : key x.info.prefix ≡ key pfx

  pub search_exact-IsFound :
      (pt : Patricia) (x : Loc) → IsTree pt → search_exact pt pfx ≡ some x → IsFound pt x
  unfolding search_exact
  search_exact-IsFound pt x tree e = cases (Option-cases (search_node (get_head pt v) [] pfx))
    where
      cases :
          (search_node (get_head pt v) [] pfx ≡ none)
            ⊎ ((y : Loc) × (search_node (get_head pt v) [] pfx ≡ some y))
          → IsFound pt x
      cases (inl none_there) = absurd (no (sym none_exact ∙ e))
        where
          none_exact : search_exact pt pfx ≡ none
          none_exact = rw (none_there, search_exact)

          no : none ≡ some x → ⊥
          no h = cc
      cases (inr (y, there)) = record {
        reached = there ∙ ap some y_is_x;
        node_ok = x_ok;
        actual = (and_left _ _ holds).0;
        same = key_eq_sound _ _ (and_left _ _ holds).1;
      }
        where
          exact : exact_or_none pfx y ≡ some x
          exact = sym found_exact ∙ e
            where
              found_exact : search_exact pt pfx ≡ exact_or_none pfx y
              found_exact = rw (there, search_exact)

          y_is_x : y ≡ x
          y_is_x = exact_or_none-eq pfx ok y x exact

          x_ok : NodeOk v [] x.info
          x_ok =
              search_node-below pfx v (get_head pt v) [] x (there ∙ ap some y_is_x) []
                (head-HasShape pt v tree)

          holds : (x.info.actual && key_eq (key x.info.prefix) (key pfx)) ≡ true
          holds =
              sym (exact_iff pfx ok x x_ok.ok)
              ∙ ap is_some (ap (exact_or_none pfx) (sym y_is_x) ∙ exact)

  pub remove_node-head :
      (pt : Patricia) (x : Loc) (w : AddrVersion)
      → IsTree pt
      → IsFound pt x
      → get_head (remove_node pt (some x)) w
        ≡ (if version_eq w v then del pfx (get_head pt v) else get_head pt w)
  remove_node-head pt x w tree f =
      ap (λ p. get_head p w) (remove_node-actual pt x f.actual)
      ∙ ap
          (λ u.
            get_head (removed (destroy_user pt x.info.user) u (unlink x.info x.l x.r x.parents)) w)
          f.node_ok.version
      ∙ (removed-head (destroy_user pt x.info.user) v w (unlink x.info x.l x.r x.parents)
            ok.addr.known
          ∙ ap (λ t. if version_eq w v then t else get_head (destroy_user pt x.info.user) w) gone
          ∙ ap (λ t. if version_eq w v then del pfx (get_head pt v) else t)
              (destroy_user-head pt x.info.user w))
    where
      gone : (unlink x.info x.l x.r x.parents).0 ≡ del pfx (get_head pt v)
      gone =
          unlink-del v pfx (get_head pt v) [] x f.reached [] (head-HasShape pt v tree) f.same
          ∙ settle-top (del pfx (get_head pt v))

  -- What the tree of each version becomes.
  pub remove-head :
      (pt : Patricia) (w : AddrVersion)
      → IsTree pt
      → get_head (remove pt pfx) w ≡ (
          if version_eq w v && member (key pfx) (get_head pt v)
          then del pfx (get_head pt v)
          else get_head pt w)
  unfolding remove
  remove-head pt w tree = cases (Option-cases (search_exact pt pfx))
    where
      found : is_some (search_exact pt pfx) ≡ member (key pfx) (get_head pt v)
      found = search_exact-member pfx ok pt (head-HasShape pt v tree)

      cases :
          (search_exact pt pfx ≡ none) ⊎ ((x : Loc) × (search_exact pt pfx ≡ some x))
          → get_head (remove pt pfx) w ≡ (
              if version_eq w v && member (key pfx) (get_head pt v)
              then del pfx (get_head pt v)
              else get_head pt w)
      cases (inl e) = rw e (ground (arith, sym found ∙ ap is_some e))
      cases (inr (x, e)) = rw e (
          remove_node-head pt x w tree (search_exact-IsFound pt x tree e)
          ∙ ground (arith, sym found ∙ ap is_some e))

  -- If both trees are in shape, so they are after the removal of a well-formed prefix.
  pub remove-IsTree : (pt : Patricia) → IsTree pt → IsTree (remove pt pfx)
  remove-IsTree pt tree = record { shape4 = shape ipv4; shape6 = shape ipv6 }
    where
      shape : (w : AddrVersion) → HasShape w [] (get_head (remove pt pfx) w)
      shape w =
          rw (remove-head pt w tree)
            (side (Bool-cases (version_eq w v && member (key pfx) (get_head pt v))))
        where
          side :
              ((version_eq w v && member (key pfx) (get_head pt v)) ≡ true)
                ⊎ ((version_eq w v && member (key pfx) (get_head pt v)) ≡ false)
              → HasShape w [] (
                  if version_eq w v && member (key pfx) (get_head pt v)
                  then del pfx (get_head pt v)
                  else get_head pt w)
          side (inl e) =
              rw (e, version_eq_sound w v (and_left _ _ e).0)
                (del-HasShape v pfx (get_head pt v) [] (head-HasShape pt v tree))
          side (inr e) = rw e (head-HasShape pt w tree)

  member-del :
      (t : Tree) (k : Key)
      → HasShape v [] t
      → member k (del pfx t) ≡ (member k t && not (key_eq (key pfx) k))
  member-del t k s = cases (Bool-cases (key_eq (key pfx) k))
    where
      cases :
          (key_eq (key pfx) k ≡ true) ⊎ (key_eq (key pfx) k ≡ false)
          → member k (del pfx t) ≡ (member k t && not (key_eq (key pfx) k))
      cases (inl e) =
          rw⁻¹ (key_eq_sound (key pfx) k e)
            (ground (arith, member-del_self v [] pfx t s, key_eq_refl (key pfx)))
      cases (inr e) = ground (arith, member-del_other pfx k t e)

  -- Where both trees are in shape and the prefix is well formed, after its removal the trees
  -- hold the prefixes that they held but for that one, under its version; where they did not
  -- hold it, they hold the same.
  pub member-remove :
      (pt : Patricia) (w : AddrVersion) (k : Key)
      → IsTree pt
      → member k (get_head (remove pt pfx) w)
        ≡ (member k (get_head pt w) && not (version_eq w v && key_eq (key pfx) k))
  member-remove pt w k tree =
      rw (remove-head pt w tree)
        (side (Bool-cases (version_eq w v)) (Bool-cases (member (key pfx) (get_head pt v))))
    where
      side :
          (version_eq w v ≡ true) ⊎ (version_eq w v ≡ false)
          → (member (key pfx) (get_head pt v) ≡ true) ⊎ (member (key pfx) (get_head pt v) ≡ false)
          → member k (
              if version_eq w v && member (key pfx) (get_head pt v)
              then del pfx (get_head pt v)
              else get_head pt w)
            ≡ (member k (get_head pt w) && not (version_eq w v && key_eq (key pfx) k))
      side (inl e) (inl m) =
          rw (e, m, version_eq_sound w v e) (member-del (get_head pt v) k (head-HasShape pt v tree))
      side (inl e) (inr m) = rw (e, m, version_eq_sound w v e) (ground (arith, m, same))
        where
          same : key_eq (key pfx) k ≡ true → member k (get_head pt v) ≡ false
          same h = ap (λ q. member q (get_head pt v)) (sym (key_eq_sound (key pfx) k h)) ∙ m
      side (inr e) q = rw e (ground arith)
