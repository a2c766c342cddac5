-- ===== src/Patricia/Leads.antt =====
-- Keys that lead a prefix, and tests of the keys that a tree of
-- lib/utils/bgpstream_utils_patricia.c holds.
use libbgpstream.Prelude.{
  ◌≤◌, ◌<◌, ◌≡◌, refl, sym, ◌∙◌, Bool, true, false, ◌&&◌, ◌||◌, [], ◌∷◌, length, arith,
}
use libbgpstream.Addr.{AddrVersion}
use libbgpstream.Key.{Key, bool_eq, PrefixOf, PrefixOf-trans, branch, branch-parent}
use libbgpstream.Pfx.{key}
use libbgpstream.Patricia.Tree.{Tree, null, node}
use libbgpstream.Patricia.Tree.Shape.{HasShape}
use libbgpstream.Patricia.Walk.{find_more_specific}

-- The bits of `a` lead those of `b`, and `b` goes on.
unfoldable pub leads : Key → Key → Bool
leads [] [] = false
leads [] (c ∷ k) = true
leads (b ∷ p) [] = false
leads (b ∷ p) (c ∷ k) = bool_eq b c && leads p k

pub leads_sound : (a b : Key) → leads a b ≡ true → PrefixOf a b × (length a < length b)
unfolding leads
leads_sound [] [] h = cc
leads_sound [] (c ∷ k) h = (tt, omega arith)
leads_sound (b ∷ p) [] h = cc
leads_sound (true ∷ p) (true ∷ k) h = let (q, lt) = leads_sound p k h in ((refl, q), omega arith)
leads_sound (true ∷ p) (false ∷ k) h = cc
leads_sound (false ∷ p) (true ∷ k) h = cc
leads_sound (false ∷ p) (false ∷ k) h = let (q, lt) = leads_sound p k h in ((refl, q), omega arith)

pub leads_complete : (a b : Key) → PrefixOf a b → length a < length b → leads a b ≡ true
unfolding leads
leads_complete [] [] h lt = absurd (omega arith)
leads_complete [] (c ∷ k) h lt = refl
leads_complete (b ∷ p) [] h lt = absurd h
leads_complete (true ∷ p) (true ∷ k) h lt = leads_complete p k h.1 (omega arith)
leads_complete (true ∷ p) (false ∷ k) h lt = cc
leads_complete (false ∷ p) (true ∷ k) h lt = cc
leads_complete (false ∷ p) (false ∷ k) h lt = leads_complete p k h.1 (omega arith)

pub PrefixOf-chain :
    (a b k : Key) → PrefixOf a k → PrefixOf b k → length a ≤ length b → PrefixOf a b
PrefixOf-chain [] b k p q le = tt
PrefixOf-chain (x ∷ a) [] k p q le = absurd (omega arith)
PrefixOf-chain (x ∷ a) (y ∷ b) [] p q le = absurd p
PrefixOf-chain (x ∷ a) (y ∷ b) (z ∷ k) p q le =
    (p.0 ∙ sym q.0, PrefixOf-chain a b k p.1 q.1 (omega arith))

-- Whether an actual node's key passes the test.
unfoldable pub any_key : (Key → Bool) → Tree → Bool
any_key f null = false
any_key f (node i l r) = (i.actual && f (key i.prefix)) || (any_key f l || any_key f r)

pub any_key-none :
    (f : Key → Bool) (v : AddrVersion) (p : Key) (t : Tree)
    → HasShape v p t
    → ((k : Key) → PrefixOf p k → f k ≡ false)
    → any_key f t ≡ false
unfolding any_key
any_key-none f v p null s h = refl
any_key-none f v p (node i l r) s h = ground (
  arith,
  h (key i.prefix) s.0.below,
  any_key-none f v (branch (key i.prefix) false) l s.2 (λ k q.
      h k (PrefixOf-trans p (key i.prefix) k s.0.below (branch-parent (key i.prefix) k false q))),
  any_key-none f v (branch (key i.prefix) true) r s.3 (λ k q.
      h k (PrefixOf-trans p (key i.prefix) k s.0.below (branch-parent (key i.prefix) k true q))),
)

regroup : (a b c : Bool) → ((a && true) || (b || c)) ≡ (a || b || c)
regroup a b c = ground arith

pub any_key-all :
    (f : Key → Bool) (v : AddrVersion) (p : Key) (t : Tree)
    → HasShape v p t
    → ((k : Key) → PrefixOf p k → f k ≡ true)
    → any_key f t ≡ find_more_specific t
unfolding any_key find_more_specific
any_key-all f v p null s h = refl
any_key-all f v p (node i l r) s h =
    rw
      (
        h (key i.prefix) s.0.below,
        any_key-all f v (branch (key i.prefix) false) l s.2 (λ k q.
            h k (
              PrefixOf-trans p (key i.prefix) k s.0.below
                (branch-parent (key i.prefix) k false q))),
        any_key-all f v (branch (key i.prefix) true) r s.3 (λ k q.
            h k (
              PrefixOf-trans p (key i.prefix) k s.0.below (branch-parent (key i.prefix) k true q))),
      )
      (regroup i.actual (find_more_specific l) (find_more_specific r))
