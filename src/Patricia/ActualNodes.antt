-- ===== src/Patricia/ActualNodes.antt =====
-- How many actual nodes an insertion from the head down adds.
use libbgpstream.Prelude.{
  ℕ, ◌<◌, ◌+◌, ◌≡◌, ◌≢◌, ◌⊎◌, inl, inr, refl, sym, ap, ◌∙◌, true, false, not, if◌then◌else◌, arith,
  Bool-cases, ◌==◌, ==_iff, ne_of_==,
}
use libbgpstream.Addr.{AddrVersion, bit_array_test}
use libbgpstream.Key.{
  Key, branch, common, common_all, PrefixOf-refl, key_eq, key_eq_refl, key_eq_sound, common-le_left,
}
use libbgpstream.Pfx.{Pfx, IsPfx, key}
use libbgpstream.Pfx.Keys.{length-key}
use libbgpstream.Patricia.Tree.{Node, Tree, null, node}
use libbgpstream.Patricia.Tree.Shape.{HasShape, member, member-below}
use libbgpstream.Patricia.Insert.{gluenode_create, bit_of}
use libbgpstream.Patricia.Insert.Reference.{ins, part, same_key}
use libbgpstream.Patricia.Insert.Refines.{bit_of_test}
use libbgpstream.Patricia.Remove.Set.{member_above, member_beside, member-node}
use libbgpstream.Patricia.Counted.{one_if, actual_nodes}

actual_nodes-part :
    (pfx : Pfx) (d : ℕ) (i : Node) (l r : Tree)
    → actual_nodes (part pfx d i l r) ≡ actual_nodes (node i l r) + 1
unfolding part gluenode_create actual_nodes
actual_nodes-part pfx d i l r = grind arith

pub actual_nodes-node :
    (i : Node) (l r : Tree)
    → actual_nodes (node i l r) ≡ one_if i.actual + (actual_nodes l + actual_nodes r)
unfolding actual_nodes
actual_nodes-node i l r = refl

module _ (v : AddrVersion) (pfx : Pfx) (ok : IsPfx pfx) (is_v : pfx.address.version ≡ v) where
  -- A prefix that parts from a node early is not at it or below it.
  not_member_early :
      (p : Key) (i : Node) (l r : Tree)
      → HasShape v p (node i l r)
      → common (key pfx) (key i.prefix) ≢ i.prefix.mask_len
      → member (key pfx) (node i l r) ≡ false
  not_member_early p i l r s ne = cases (Bool-cases (member (key pfx) (node i l r)))
    where
      cases :
          (member (key pfx) (node i l r) ≡ true) ⊎ (member (key pfx) (node i l r) ≡ false)
          → member (key pfx) (node i l r) ≡ false
      cases (inl m) = absurd (
          ne (
            common_all (key pfx) (key i.prefix) (
              member-below v (key i.prefix) (key pfx) (node i l r)
                (
                  record {
                    ok = s.0.ok;
                    version = s.0.version;
                    below = PrefixOf-refl (key i.prefix);
                  },
                  s.1,
                  s.2,
                  s.3,
                )
                m)
            ∙ length-key i.prefix))
      cases (inr e) = e

  -- At the node with the prefix's own key.
  actual_nodes-at :
      (p : Key) (i : Node) (l r : Tree)
      → HasShape v p (node i l r)
      → key i.prefix ≡ key pfx
      → actual_nodes (node (record i { actual = true }) l r)
        ≡ actual_nodes (node i l r) + one_if (not (member (key pfx) (node i l r)))
  unfolding actual_nodes
  actual_nodes-at p i l r s at = ground (
    arith,
    member-node (key pfx) i l r,
    ap (λ k. member k l) (sym at) ∙ member_above v (key i.prefix) false l s.2,
    ap (λ k. member k r) (sym at) ∙ member_above v (key i.prefix) true r s.3,
    ap (key_eq (key i.prefix)) (sym at) ∙ key_eq_refl (key i.prefix),
  )

  -- Below a shorter node, only the side that the next bit leads to matters.
  member-side :
      (p : Key) (i : Node) (l r : Tree)
      → HasShape v p (node i l r)
      → i.prefix.mask_len ≢ pfx.mask_len
      → member (key pfx) (node i l r) ≡ (
          if bit_array_test pfx.address.bytes i.prefix.mask_len
          then member (key pfx) r
          else member (key pfx) l)
  member-side p i l r s ne = ground (
    arith,
    member-node (key pfx) i l r,
    member_beside v pfx i false l s.2,
    member_beside v pfx i true r s.3,
    key_eq_sound (key i.prefix) (key pfx),
    length-key i.prefix,
    length-key pfx,
  )

  actual_nodes-below :
      (p : Key) (i : Node) (l r : Tree)
      → HasShape v p (node i l r)
      → i.prefix.mask_len < pfx.mask_len
      → actual_nodes (ins pfx l) ≡ actual_nodes l + one_if (not (member (key pfx) l))
      → actual_nodes (ins pfx r) ≡ actual_nodes r + one_if (not (member (key pfx) r))
      → actual_nodes
          (if bit_of pfx i.prefix.mask_len then node i l (ins pfx r) else node i (ins pfx l) r)
        ≡ actual_nodes (node i l r) + one_if (not (member (key pfx) (node i l r)))
  actual_nodes-below p i l r s lt on_left on_right =
      rw (bit_of_test v pfx ok is_v i.prefix.mask_len lt, member-side p i l r s (λ z. omega arith))
        (sides (Bool-cases (bit_array_test pfx.address.bytes i.prefix.mask_len)))
    where
      sides :
          (bit_array_test pfx.address.bytes i.prefix.mask_len ≡ true)
            ⊎ (bit_array_test pfx.address.bytes i.prefix.mask_len ≡ false)
          → actual_nodes (
              if bit_array_test pfx.address.bytes i.prefix.mask_len
              then node i l (ins pfx r)
              else node i (ins pfx l) r)
            ≡ actual_nodes (node i l r)
              + one_if (
                  not (
                    if bit_array_test pfx.address.bytes i.prefix.mask_len
                    then member (key pfx) r
                    else member (key pfx) l))
      sides (inl one) =
          rw one
            (omega (arith, actual_nodes-node i l r, actual_nodes-node i l (ins pfx r), on_right))
      sides (inr zero) =
          rw zero
            (omega (arith, actual_nodes-node i l r, actual_nodes-node i (ins pfx l) r, on_left))

  -- The insertion adds one actual node, or none if the prefix is there.
  pub actual_nodes-ins :
      (t : Tree) (p : Key)
      → HasShape v p t
      → actual_nodes (ins pfx t) ≡ actual_nodes t + one_if (not (member (key pfx) t))
  unfolding ins
  actual_nodes-ins null p s = unfold actual_nodes member in refl
  actual_nodes-ins (node i l r) p s =
      elim (Bool-cases (common (key pfx) (key i.prefix) == i.prefix.mask_len)) [
        | inr early ↦
            rw (early, not_member_early p i l r s (ne_of_== _ _ early))
              (actual_nodes-part pfx (common (key pfx) (key i.prefix)) i l r)
        | inl e ↦
            let at : common (key pfx) (key i.prefix) ≡ i.prefix.mask_len = (==_iff _ _).0 e in
            rw e (elim (Bool-cases (pfx.mask_len == common (key pfx) (key i.prefix))) [
              | inl same ↦
                  rw same (
                    actual_nodes-at p i l r s (same_key pfx i.prefix at ((==_iff _ _).0 same ∙ at)))
              | inr longer ↦ rw longer (
                  actual_nodes-below p i l r s
                    (omega (
                      arith,
                      at,
                      ne_of_== _ _ longer,
                      common-le_left (key pfx) (key i.prefix),
                      length-key pfx,
                    ))
                    (actual_nodes-ins l (branch (key i.prefix) false) s.2)
                    (actual_nodes-ins r (branch (key i.prefix) true) s.3))
            ])
      ]
