-- ===== src/Patricia/Insert/Set.antt =====
-- What bgpstream_patricia_tree_insert does to the two trees and their counters.
use libbgpstream.Prelude.{
  ◌≡◌, ◌⊎◌, inl, inr, refl, sym, ap, ◌∙◌, Bool, true, false, ◌&&◌, ◌||◌, none, some, [],
  if◌then◌else◌, arith, Bool-cases, Option-cases,
}
use libbgpstream.Addr.{AddrVersion, unknown, ipv4, ipv6, version_eq}
use libbgpstream.Addr.Versions.{version_eq_sound}
use libbgpstream.Key.{Key, key_eq}
use libbgpstream.Pfx.{Pfx, IsPfx, key}
use libbgpstream.Patricia.Tree.{
  Tree, null, Loc, loc, plug, here, Patricia, get_head, set_head, count_node,
}
use libbgpstream.Patricia.Tree.Shape.{HasShape, member}
use libbgpstream.Patricia.Search.{find_insert_point, insert_point_from, search_node}
use libbgpstream.Patricia.Search.Descent.{search_node-none}
use libbgpstream.Patricia.Insert.{insert, insert_at, insert_result, node_create}
use libbgpstream.Patricia.Insert.Reference.{ins, member-ins}
use libbgpstream.Patricia.Insert.Shape.{ins-HasShape}
use libbgpstream.Patricia.Insert.Refines.{insert_at-ins}

-- Both trees have their shape.
pub record IsTree (pt : Patricia) : Type 0 where
  pub shape4 : HasShape ipv4 [] pt.head4
  pub shape6 : HasShape ipv6 [] pt.head6

pub head-HasShape : (pt : Patricia) (v : AddrVersion) → IsTree pt → HasShape v [] (get_head pt v)
head-HasShape pt unknown h = tt
head-HasShape pt ipv4 h = h.shape4
head-HasShape pt ipv6 h = h.shape6

pub set_head-head :
    (pt : Patricia) (v w : AddrVersion) (t : Tree)
    → (v ≡ unknown → ⊥)
    → get_head (set_head pt v t) w ≡ (if version_eq w v then t else get_head pt w)
set_head-head pt unknown w t known = absurd (known refl)
set_head-head pt ipv4 unknown t known = refl
set_head-head pt ipv4 ipv4 t known = refl
set_head-head pt ipv4 ipv6 t known = refl
set_head-head pt ipv6 unknown t known = refl
set_head-head pt ipv6 ipv4 t known = refl
set_head-head pt ipv6 ipv6 t known = refl

count_node-head : (pt : Patricia) (v w : AddrVersion) → get_head (count_node pt v) w ≡ get_head pt w
count_node-head pt ipv4 unknown = refl
count_node-head pt ipv4 ipv4 = refl
count_node-head pt ipv4 ipv6 = refl
count_node-head pt ipv6 unknown = refl
count_node-head pt ipv6 ipv4 = refl
count_node-head pt ipv6 ipv6 = refl
count_node-head pt unknown unknown = refl
count_node-head pt unknown ipv4 = refl
count_node-head pt unknown ipv6 = refl

pub insert_result-head :
    (pt : Patricia) (v w : AddrVersion) (y : Loc × Bool)
    → (v ≡ unknown → ⊥)
    → get_head (insert_result pt v y).0 w
      ≡ (if version_eq w v then plug (here y.0) y.0.parents else get_head pt w)
unfolding insert_result
insert_result-head pt v w (x, true) known =
    count_node-head (set_head pt v (plug (here x) x.parents)) v w ∙ set_head-head pt v w _ known
insert_result-head pt v w (x, false) known = set_head-head pt v w _ known

-- The tree of the prefix's version becomes the insertion from the head down; the other stays.
pub insert-head :
    (pt : Patricia) (pfx : Pfx) (w : AddrVersion)
    → IsTree pt
    → IsPfx pfx
    → get_head (insert pt pfx).0 w ≡ (
        if version_eq w pfx.address.version
        then ins pfx (get_head pt pfx.address.version)
        else get_head pt w)
unfolding insert find_insert_point ins
insert-head pt pfx w tree ok = at (Option-cases (search_node (get_head pt v) [] pfx))
  where
    v : AddrVersion
    v = pfx.address.version

    at :
        (search_node (get_head pt v) [] pfx ≡ none)
          ⊎ ((x : Loc) × (search_node (get_head pt v) [] pfx ≡ some x))
        → get_head (insert pt pfx).0 w
          ≡ (if version_eq w v then ins pfx (get_head pt v) else get_head pt w)
    at (inl e) =
        rw (e, insert)
          (insert_result-head pt v w (loc (node_create pfx) null null [], true) ok.addr.known
            ∙ ap (λ t. if version_eq w v then t else get_head pt w)
                (sym (ap (ins pfx) (search_node-none pfx (get_head pt v) [] e))))
    at (inr (x, e)) =
        rw (e, insert)
          (insert_result-head pt v w (insert_at pfx (insert_point_from pfx x)) ok.addr.known
            ∙ ap (λ t. if version_eq w v then t else get_head pt w)
                (insert_at-ins v pfx ok refl (get_head pt v) x e (head-HasShape pt v tree)))

-- If both trees are in shape, so they are after the insertion of a well-formed prefix.
pub insert-IsTree : (pt : Patricia) (pfx : Pfx) → IsTree pt → IsPfx pfx → IsTree (insert pt pfx).0
insert-IsTree pt pfx tree ok = record { shape4 = shape ipv4; shape6 = shape ipv6 }
  where
    shape : (w : AddrVersion) → HasShape w [] (get_head (insert pt pfx).0 w)
    shape w =
        rw (insert-head pt pfx w tree ok) (side (Bool-cases (version_eq w pfx.address.version)))
      where
        side :
            (version_eq w pfx.address.version ≡ true) ⊎ (version_eq w pfx.address.version ≡ false)
            → HasShape w [] (
                if version_eq w pfx.address.version
                then ins pfx (get_head pt pfx.address.version)
                else get_head pt w)
        side (inl e) =
            rw (e, version_eq_sound w pfx.address.version e)
              (ins-HasShape pfx.address.version pfx ok refl (get_head pt pfx.address.version) [] tt
                (head-HasShape pt pfx.address.version tree))
        side (inr e) = rw e (head-HasShape pt w tree)

-- Where both trees are in shape and the prefix is well formed, after its insertion the trees
-- hold the prefixes that they held and the new one, under its version, and no others.
pub member-insert :
    (pt : Patricia) (pfx : Pfx) (w : AddrVersion) (k : Key)
    → IsTree pt
    → IsPfx pfx
    → member k (get_head (insert pt pfx).0 w)
      ≡ (member k (get_head pt w) || (version_eq w pfx.address.version && key_eq (key pfx) k))
member-insert pt pfx w k tree ok =
    rw (insert-head pt pfx w tree ok) (side (Bool-cases (version_eq w pfx.address.version)))
  where
    side :
        (version_eq w pfx.address.version ≡ true) ⊎ (version_eq w pfx.address.version ≡ false)
        → member k (
            if version_eq w pfx.address.version
            then ins pfx (get_head pt pfx.address.version)
            else get_head pt w)
          ≡ (member k (get_head pt w) || (version_eq w pfx.address.version && key_eq (key pfx) k))
    side (inl e) =
        rw (e, version_eq_sound w pfx.address.version e)
          (member-ins pfx (get_head pt pfx.address.version) k)
    side (inr e) = rw e (ground arith)
