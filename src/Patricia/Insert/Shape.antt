-- ===== src/Patricia/Insert/Shape.antt =====
-- Insertion keeps the shape of a tree.
use libbgpstream.Prelude.{
  ℕ, ◌≤◌, ◌<◌, ◌≡◌, ◌≢◌, inl, inr, refl, sym, ap, subst, ◌∙◌, Bool, true, false, not, ◌==◌, length,
  take, arith, Bool-cases, ==_iff, ==_ne, ne_of_==, lt→ltb,
}
use libbgpstream.Addr.{AddrVersion, unknown, ipv4, ipv6, width, addr_mask}
use libbgpstream.Addr.Mask.{addr_mask-IsAddr}
use libbgpstream.Key.{
  Key, PrefixOf, common, branch, bit_at, PrefixOf-next, PrefixOf-of_common, common_left,
  common-le_left, common-le_right, common_differ, common-take, PrefixOf-take, PrefixOf-take_le,
  length-take_le, le-common,
}
use libbgpstream.Pfx.{Pfx, IsPfx, key}
use libbgpstream.Pfx.Keys.{length-key, bit_at-key, key-shorten}
use libbgpstream.Patricia.Tree.{Node, Tree, null, node}
use libbgpstream.Patricia.Tree.Shape.{NodeOk, HasShape, is_node}
use libbgpstream.Patricia.Insert.{node_create, gluenode_create, bit_of, max_bits}
use libbgpstream.Patricia.Insert.Reference.{part, ins}

pub width-le : (v : AddrVersion) → width v ≤ 16
width-le unknown = omega arith
width-le ipv4 = omega arith
width-le ipv6 = omega arith

-- Inside a prefix, the bit that the code tests is the bit of the key.
pub bit_of_lem : (p : Pfx) (n : ℕ) → IsPfx p → n < p.mask_len → bit_of p n ≡ bit_at (key p) n
bit_of_lem p n ok lt =
    let bound : n < max_bits = omega (arith, ok.fits, width-le p.address.version) in
    rw (lt→ltb n max_bits bound, bit_at-key p n lt)

-- A key goes on with the tested bit.
pub next_bit :
    (q : Pfx) (p : Key) (n : ℕ) (b : Bool)
    → IsPfx q
    → PrefixOf p (key q)
    → length p ≡ n
    → n < q.mask_len
    → bit_of q n ≡ b
    → PrefixOf (branch p b) (key q)
next_bit q p n b ok h len lt e =
    subst (λ c. PrefixOf (branch p c) (key q))
      (ap (bit_at (key q)) len ∙ sym (bit_of_lem q n ok lt) ∙ e)
      (PrefixOf-next p (key q) h (omega (arith, length-key q)))

glue-IsPfx :
    (pfx : Pfx) (d : ℕ) → IsPfx pfx → d ≤ pfx.mask_len → IsPfx (gluenode_create pfx d).prefix
unfolding gluenode_create addr_mask
glue-IsPfx pfx d ok le = record {
  addr = addr_mask-IsAddr pfx.address d ok.addr;
  fits = omega (arith, ok.fits);
}

key-glue :
    (pfx : Pfx) (d : ℕ)
    → IsPfx pfx
    → d ≤ pfx.mask_len
    → key (gluenode_create pfx d).prefix ≡ take d (key pfx)
unfolding gluenode_create
key-glue pfx d ok le = key-shorten pfx d 0 ok le

is_node-ins : (pfx : Pfx) (t : Tree) → is_node (ins pfx t) ≡ true
unfolding ins part
is_node-ins pfx null = refl
is_node-ins pfx (node i l r) = ground arith

module _ (v : AddrVersion) (pfx : Pfx) (ok : IsPfx pfx) (is_v : pfx.address.version ≡ v) where
  created : (p : Key) → PrefixOf p (key pfx) → NodeOk v p (node_create pfx)
  created p h = record { ok = ok; version = is_v; below = h }

  leaf-HasShape : (p : Key) → PrefixOf p (key pfx) → HasShape v p (node (node_create pfx) null null)
  leaf-HasShape p h = (created p h, refl, tt, tt)

  module _ (p : Key) (i : Node) (l r : Tree) (s : HasShape v p (node i l r))
      (h : PrefixOf p (key pfx)) where
    abbrev d : ℕ
    d = common (key pfx) (key i.prefix)

    old_below : (q : Key) → PrefixOf q (key i.prefix) → HasShape v q (node i l r)
    old_below q at = (record { ok = s.0.ok; version = s.0.version; below = at }, s.1, s.2, s.3)

    -- The new node above the old one.
    above-HasShape : pfx.mask_len ≡ d → d ≢ i.prefix.mask_len → HasShape v p (part pfx d i l r)
    unfolding part
    above-HasShape e ne = elim (Bool-cases (bit_of i.prefix pfx.mask_len)) [
      | inl one ↦
          rw ((==_iff pfx.mask_len d).1 e, one) (created p h, refl, tt, old_below _ (next true one))
      | inr zero ↦
          rw ((==_iff pfx.mask_len d).1 e, zero)
            (created p h, refl, old_below _ (next false zero), tt)
    ]
      where
        over : PrefixOf (key pfx) (key i.prefix)
        over = common_left (key pfx) (key i.prefix) (sym e ∙ sym (length-key pfx))

        short : pfx.mask_len < i.prefix.mask_len
        short = omega (arith, common-le_right (key pfx) (key i.prefix), length-key i.prefix, e, ne)

        next :
            (b : Bool)
            → bit_of i.prefix pfx.mask_len ≡ b
            → PrefixOf (branch (key pfx) b) (key i.prefix)
        next b = next_bit i.prefix (key pfx) pfx.mask_len b s.0.ok over (length-key pfx) short

    -- Both under a new glue node.
    beside-HasShape : pfx.mask_len ≢ d → d ≢ i.prefix.mask_len → HasShape v p (part pfx d i l r)
    unfolding part gluenode_create
    beside-HasShape away ne = elim (Bool-cases (bit_of pfx d)) [
      | inl one ↦
          rw (==_ne pfx.mask_len d away, one)
            (
              glue,
              refl,
              old_below _ (old_side false (rw one at opposite)),
              leaf-HasShape _ (new_side true one),
            )
      | inr zero ↦
          rw (==_ne pfx.mask_len d away, zero)
            (
              glue,
              refl,
              leaf-HasShape _ (new_side false zero),
              old_below _ (old_side true (rw zero at opposite)),
            )
    ]
      where
        short : d < pfx.mask_len
        short = omega (arith, common-le_left (key pfx) (key i.prefix), length-key pfx, away)

        old_short : d < i.prefix.mask_len
        old_short = omega (arith, common-le_right (key pfx) (key i.prefix), length-key i.prefix, ne)

        glue_key : Key
        glue_key = key (gluenode_create pfx d).prefix

        shared : glue_key ≡ take d (key pfx)
        shared = key-glue pfx d ok (omega (arith, short))

        glue_length : length glue_key ≡ d
        glue_length =
            ap length shared ∙ length-take_le d (key pfx) (omega (arith, short, length-key pfx))

        glue : NodeOk v p (gluenode_create pfx d)
        glue = record {
          ok = glue-IsPfx pfx d ok (omega (arith, short));
          version = glue_version;
          below =
              subst (PrefixOf p) (sym shared) (
                PrefixOf-take_le p (key pfx) d h
                  (le-common p (key pfx) (key i.prefix) h s.0.below));
        }
          where
            glue_version : (gluenode_create pfx d).prefix.address.version ≡ v
            glue_version = unfold gluenode_create addr_mask in is_v

        new_side : (b : Bool) → bit_of pfx d ≡ b → PrefixOf (branch glue_key b) (key pfx)
        new_side b e =
            next_bit pfx glue_key d b ok
              (subst (λ q. PrefixOf q (key pfx)) (sym shared) (PrefixOf-take d (key pfx)))
              glue_length short e

        old_side : (b : Bool) → bit_of i.prefix d ≡ b → PrefixOf (branch glue_key b) (key i.prefix)
        old_side b e =
            next_bit i.prefix glue_key d b s.0.ok
              (subst (λ q. PrefixOf q (key i.prefix)) (sym shared)
                (common-take (key pfx) (key i.prefix)))
              glue_length old_short e

        opposite : bit_of i.prefix d ≡ not (bit_of pfx d)
        opposite = ground (
          arith,
          bit_of_lem pfx d ok short,
          bit_of_lem i.prefix d s.0.ok old_short,
          common_differ (key pfx) (key i.prefix) (omega (arith, short, length-key pfx))
              (omega (arith, old_short, length-key i.prefix)),
        )

    part-HasShape : d ≢ i.prefix.mask_len → HasShape v p (part pfx d i l r)
    part-HasShape ne = elim (Bool-cases (pfx.mask_len == d)) [
      | inl e ↦ above-HasShape ((==_iff pfx.mask_len d).0 e) ne
      | inr away ↦ beside-HasShape (ne_of_== pfx.mask_len d away) ne
    ]

    -- The prefix goes on below the node, on the side of its next bit.
    pub below_side :
        d ≡ i.prefix.mask_len
        → pfx.mask_len ≢ d
        → (b : Bool) → bit_of pfx i.prefix.mask_len ≡ b
        → PrefixOf (branch (key i.prefix) b) (key pfx)
    below_side at away b e =
        next_bit pfx (key i.prefix) i.prefix.mask_len b ok
          (PrefixOf-of_common (key pfx) (key i.prefix) (at ∙ sym (length-key i.prefix)))
          (length-key i.prefix)
          (omega (arith, common-le_left (key pfx) (key i.prefix), length-key pfx)) e

  -- An insertion keeps the shape of a tree.
  pub ins-HasShape :
      (t : Tree) (p : Key) → PrefixOf p (key pfx) → HasShape v p t → HasShape v p (ins pfx t)
  unfolding ins
  ins-HasShape null p h s = leaf-HasShape p h
  ins-HasShape (node i l r) p h s =
      elim (Bool-cases (common (key pfx) (key i.prefix) == i.prefix.mask_len)) [
        | inr out ↦ rw out (part-HasShape p i l r s h (ne_of_== _ _ out))
        | inl at ↦ elim (Bool-cases (pfx.mask_len == common (key pfx) (key i.prefix))) [
          | inl same ↦
              rw (at, same)
                (record { ok = s.0.ok; version = s.0.version; below = s.0.below }, refl, s.2, s.3)
          | inr longer ↦ elim (Bool-cases (bit_of pfx i.prefix.mask_len)) [
            | inl one ↦
                rw (at, longer, one)
                  (
                    s.0,
                    ground (arith, s.1, is_node-ins pfx r),
                    s.2,
                    ins-HasShape r (branch (key i.prefix) true)
                        (below_side p i l r s h ((==_iff _ _).0 at) (ne_of_== _ _ longer) true one)
                        s.3,
                  )
            | inr zero ↦
                rw (at, longer, zero)
                  (
                    s.0,
                    ground (arith, s.1, is_node-ins pfx l),
                    ins-HasShape l (branch (key i.prefix) false)
                        (below_side p i l r s h ((==_iff _ _).0 at) (ne_of_== _ _ longer) false
                          zero)
                        s.2,
                    s.3,
                  )
          ]
        ]
      ]
