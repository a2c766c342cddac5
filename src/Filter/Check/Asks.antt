-- ===== src/Filter/Check/Asks.antt =====
-- Which nodes ask for a prefix, by the bits of both: for bgpstream_elem_prefix_match of
-- lib/bgpstream_record.c.
use libbgpstream.Prelude.{
  ◌<◌, ◌≡◌, refl, ap, subst, ◌∙◌, Bool, true, false, ◌||◌, not, length, arith,
}
use libbgpstream.Addr.{AddrVersion, bit_array_test}
use libbgpstream.Key.{
  Key, PrefixOf, PrefixOf-refl, PrefixOf-trans, PrefixOf-le, branch, length-branch,
  not-PrefixOf-branch, bit_at, key_eq, key_eq_sound,
}
use libbgpstream.Pfx.{Pfx, key, match_more, match_less}
use libbgpstream.Pfx.Keys.{length-key, bit_at-key}
use libbgpstream.Patricia.Tree.{Node, Tree}
use libbgpstream.Patricia.Tree.Shape.{HasShape}
use libbgpstream.Patricia.Leads.{leads, leads_sound, leads_complete, PrefixOf-chain}
use libbgpstream.Filter.Check.Prefixes.{permits, asks_for, any_node, any_node-same, any_node-none}

not_true : (b : Bool) → (b ≡ true → ⊥) → b ≡ false
not_true true h = absurd (h refl)
not_true false h = refl

module _ (pfx : Pfx) where
  -- The bits of the node's prefix and of the prefix part: it does not ask for it.
  pub asks_apart :
      (i : Node)
      → (PrefixOf (key i.prefix) (key pfx) → ⊥)
      → (PrefixOf (key pfx) (key i.prefix) → ⊥)
      → asks_for pfx i ≡ false
  asks_apart i no_lead no_follow =
      rw
        (
          not_true (key_eq (key i.prefix) (key pfx)) (λ e. no_lead (
              subst (PrefixOf (key i.prefix)) (key_eq_sound (key i.prefix) (key pfx) e)
                (PrefixOf-refl (key i.prefix)))),
          not_true (leads (key i.prefix) (key pfx))
              (λ e. no_lead (leads_sound (key i.prefix) (key pfx) e).0),
          not_true (leads (key pfx) (key i.prefix))
              (λ e. no_follow (leads_sound (key pfx) (key i.prefix) e).0),
        )
        refl

  pub asks_longer :
      (i : Node)
      → PrefixOf (key pfx) (key i.prefix)
      → length (key pfx) < length (key i.prefix)
      → asks_for pfx i ≡ permits match_less i
  asks_longer i q lt =
      rw
        (
          not_true (key_eq (key i.prefix) (key pfx))
              (λ e. omega (arith, lt, ap length (key_eq_sound (key i.prefix) (key pfx) e))),
          not_true (leads (key i.prefix) (key pfx))
              (λ e. omega (arith, lt, (leads_sound (key i.prefix) (key pfx) e).1)),
          leads_complete (key pfx) (key i.prefix) q lt,
        )
        refl

  pub or_false : (a : Bool) → (a || false) ≡ a
  or_false a = ground arith

  pub asks_shorter :
      (i : Node)
      → PrefixOf (key i.prefix) (key pfx)
      → length (key i.prefix) < length (key pfx)
      → asks_for pfx i ≡ permits match_more i
  asks_shorter i q lt =
      rw
        (
          not_true (key_eq (key i.prefix) (key pfx))
              (λ e. omega (arith, lt, ap length (key_eq_sound (key i.prefix) (key pfx) e))),
          not_true (leads (key pfx) (key i.prefix))
              (λ e. omega (arith, lt, (leads_sound (key pfx) (key i.prefix) e).1)),
          leads_complete (key i.prefix) (key pfx) q lt,
        )
        (or_false _)

  module _ (v : AddrVersion) where
    -- Nothing on the other side of a node that leads the prefix.
    pub none_aside :
        (i : Node) (b : Bool) (t : Tree)
        → i.prefix.mask_len < pfx.mask_len
        → bit_array_test pfx.address.bytes i.prefix.mask_len ≡ not b
        → HasShape v (branch (key i.prefix) b) t
        → any_node (asks_for pfx) t ≡ false
    none_aside i b t lt e s = any_node-none (asks_for pfx) v (branch (key i.prefix) b) t s (λ j q.
        asks_apart j
          (λ lead. aside (PrefixOf-trans (branch (key i.prefix) b) (key j.prefix) (key pfx) q lead))
          (λ follow. aside (
            PrefixOf-chain (branch (key i.prefix) b) (key pfx) (key j.prefix) q follow (
              omega (arith, length-branch (key i.prefix) b, length-key i.prefix, length-key pfx)))))
      where
        aside : PrefixOf (branch (key i.prefix) b) (key pfx) → ⊥
        aside = not-PrefixOf-branch (key i.prefix) (key pfx) b (
            ap (λ n. bit_at (key pfx) n) (length-key i.prefix)
            ∙ bit_at-key pfx i.prefix.mask_len lt
            ∙ e)

    -- All below the prefix is longer.
    pub all_below :
        (p : Key) (t : Tree)
        → PrefixOf (key pfx) p
        → length (key pfx) < length p
        → HasShape v p t
        → any_node (asks_for pfx) t ≡ any_node (permits match_less) t
    all_below p t q lt s = any_node-same (asks_for pfx) (permits match_less) v p t s (λ j below.
        asks_longer j (PrefixOf-trans (key pfx) p (key j.prefix) q below)
          (omega (arith, lt, PrefixOf-le p (key j.prefix) below)))
