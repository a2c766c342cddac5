-- ===== src/Patricia/Remove/Set.antt =====
-- Removal takes out one prefix and keeps the shape of the tree.
use libbgpstream.Prelude.{
  ◌≡◌, ◌⊎◌, inl, inr, refl, sym, ap, ◌∙◌, Bool, true, false, not, ◌&&◌, ◌||◌, arith, Bool-cases,
  if◌then◌else◌,
}
use libbgpstream.Addr.{AddrVersion, bit_array_test}
use libbgpstream.Key.{
  Key, bit_at, PrefixOf, PrefixOf-le, branch, key_eq, key_eq_sound, branch-bit, branch-lt,
  length-branch, PrefixOf-trans, PrefixOf-branch,
}
use libbgpstream.Pfx.{Pfx, key}
use libbgpstream.Pfx.Keys.{length-key, bit_at-key}
use libbgpstream.Patricia.Tree.{Node, Tree, null, node}
use libbgpstream.Patricia.Tree.Shape.{
  NodeOk, HasShape, HasShape-weaken, member, member-below, is_node, linked,
}
use libbgpstream.Patricia.Remove.Reference.{drop_node, rejoin, del}

-- A subtree below a branch does not hold the key that the branch leaves.
pub member_above :
    (v : AddrVersion) (q : Key) (b : Bool) (t : Tree)
    → HasShape v (branch q b) t
    → member q t ≡ false
member_above v q b t s = cases (Bool-cases (member q t))
  where
    cases : (member q t ≡ true) ⊎ (member q t ≡ false) → member q t ≡ false
    cases (inl m) = absurd (
        omega (
          arith,
          PrefixOf-le (branch q b) q (member-below v (branch q b) q t s m),
          length-branch q b,
        ))
    cases (inr m) = m

-- Nor a key whose next bit leads to the other side.
pub member_beside :
    (v : AddrVersion) (pfx : Pfx) (i : Node) (b : Bool) (t : Tree)
    → HasShape v (branch (key i.prefix) b) t
    → bit_array_test pfx.address.bytes i.prefix.mask_len ≡ not b
    → member (key pfx) t ≡ false
member_beside v pfx i b t s e = cases (Bool-cases (member (key pfx) t))
  where
    apart : PrefixOf (branch (key i.prefix) b) (key pfx) → not b ≡ b
    apart h =
        sym e
        ∙ sym (
            bit_at-key pfx i.prefix.mask_len (
              omega (
                arith,
                branch-lt (key i.prefix) (key pfx) b h,
                length-key i.prefix,
                length-key pfx,
              )))
        ∙ ap (λ n. bit_at (key pfx) n) (sym (length-key i.prefix))
        ∙ branch-bit (key i.prefix) (key pfx) b h

    not_same : (c : Bool) → not c ≡ c → ⊥
    not_same true h = cc
    not_same false h = cc

    cases : (member (key pfx) t ≡ true) ⊎ (member (key pfx) t ≡ false) → member (key pfx) t ≡ false
    cases (inl m) =
        absurd (not_same b (apart (member-below v (branch (key i.prefix) b) (key pfx) t s m)))
    cases (inr m) = m

member-rejoin : (k : Key) (i : Node) (l r : Tree) → member k (rejoin i l r) ≡ member k (node i l r)
unfolding member rejoin
member-rejoin k i null null = ground arith
member-rejoin k i (node j a b) null = ground arith
member-rejoin k i null (node j a b) = ground arith
member-rejoin k i (node j a b) (node h c d) = ground arith

member-drop_node :
    (k : Key) (i : Node) (l r : Tree) → member k (drop_node i l r) ≡ (member k l || member k r)
unfolding member drop_node
member-drop_node k i null null = refl
member-drop_node k i (node j a b) null = ground arith
member-drop_node k i null (node j a b) = refl
member-drop_node k i (node j a b) (node h c d) = refl

-- What `member` says of a node, with the subtrees' calls shut.
pub member-node :
    (k : Key) (i : Node) (l r : Tree)
    → member k (node i l r) ≡ ((i.actual && key_eq (key i.prefix) k) || (member k l || member k r))
unfolding member
member-node k i l r = refl

-- The other prefixes stay.
pub member-del_other :
    (pfx : Pfx) (k : Key) (t : Tree)
    → key_eq (key pfx) k ≡ false
    → member k (del pfx t) ≡ member k t
unfolding del
member-del_other pfx k null ne = refl
member-del_other pfx k (node i l r) ne = ground (
  arith,
  member-drop_node k i l r,
  member-rejoin k i l (del pfx r),
  member-rejoin k i (del pfx l) r,
  member-node k i l r,
  member-node k i (del pfx l) r,
  member-node k i l (del pfx r),
  member-del_other pfx k l ne,
  member-del_other pfx k r ne,
  key_eq_sound (key i.prefix) (key pfx),
)

-- The prefix itself goes.
pub member-del_self :
    (v : AddrVersion) (p : Key) (pfx : Pfx) (t : Tree)
    → HasShape v p t
    → member (key pfx) (del pfx t) ≡ false
unfolding del
member-del_self v p pfx null s = unfold member in refl
member-del_self v p pfx (node i l r) s = ground (
  arith,
  member-drop_node (key pfx) i l r,
  member-rejoin (key pfx) i l (del pfx r),
  member-rejoin (key pfx) i (del pfx l) r,
  member-node (key pfx) i (del pfx l) r,
  member-node (key pfx) i l (del pfx r),
  member-del_self v (branch (key i.prefix) false) pfx l s.2,
  member-del_self v (branch (key i.prefix) true) pfx r s.3,
  member_beside v pfx i false l s.2,
  member_beside v pfx i true r s.3,
  member_above v (key i.prefix) false l s.2,
  member_above v (key i.prefix) true r s.3,
  key_eq_sound (key i.prefix) (key pfx),
)

-- A child in its parent's place.
lift_child :
    (v : AddrVersion) (p : Key) (i : Node) (b : Bool) (t : Tree)
    → NodeOk v p i
    → HasShape v (branch (key i.prefix) b) t
    → HasShape v p t
lift_child v p i b t n s =
    HasShape-weaken v p (branch (key i.prefix) b) t
      (PrefixOf-trans p (key i.prefix) (branch (key i.prefix) b) n.below
        (PrefixOf-branch (key i.prefix) b))
      s

drop_node-HasShape :
    (v : AddrVersion) (p : Key) (i : Node) (l r : Tree)
    → HasShape v p (node i l r)
    → HasShape v p (drop_node i l r)
unfolding drop_node
drop_node-HasShape v p i null null s = tt
drop_node-HasShape v p i (node j a b) null s = lift_child v p i false (node j a b) s.0 s.2
drop_node-HasShape v p i null (node j a b) s = lift_child v p i true (node j a b) s.0 s.3
drop_node-HasShape v p i (node j a b) (node k c d) s =
    (record { ok = s.0.ok; version = s.0.version; below = s.0.below }, refl, s.2, s.3)

rejoin-HasShape :
    (v : AddrVersion) (p : Key) (i : Node) (l r : Tree)
    → NodeOk v p i
    → HasShape v (branch (key i.prefix) false) l
    → HasShape v (branch (key i.prefix) true) r
    → HasShape v p (rejoin i l r)
unfolding rejoin
rejoin-HasShape v p i l r n sl sr = cases (Bool-cases (linked i l r)) (Bool-cases (is_node l))
  where
    cases :
        (linked i l r ≡ true) ⊎ (linked i l r ≡ false)
        → (is_node l ≡ true) ⊎ (is_node l ≡ false)
        → HasShape v p (if linked i l r then node i l r else if is_node l then l else r)
    cases (inl e) q = rw e (n, e, sl, sr)
    cases (inr e) (inl q) = rw (e, q) (lift_child v p i false l n sl)
    cases (inr e) (inr q) = rw (e, q) (lift_child v p i true r n sr)

pub del-HasShape :
    (v : AddrVersion) (pfx : Pfx) (t : Tree) (p : Key) → HasShape v p t → HasShape v p (del pfx t)
unfolding del
del-HasShape v pfx null p s = tt
del-HasShape v pfx (node i l r) p s = elim (Bool-cases (key_eq (key i.prefix) (key pfx))) [
  | inl e ↦ rw e (drop_node-HasShape v p i l r s)
  | inr e ↦ elim (Bool-cases (bit_array_test pfx.address.bytes i.prefix.mask_len)) [
    | inl one ↦
        rw (e, one)
          (rejoin-HasShape v p i l (del pfx r) s.0 s.2
            (del-HasShape v pfx r (branch (key i.prefix) true) s.3))
    | inr zero ↦
        rw (e, zero)
          (rejoin-HasShape v p i (del pfx l) r s.0
            (del-HasShape v pfx l (branch (key i.prefix) false) s.2) s.3)
  ]
]
