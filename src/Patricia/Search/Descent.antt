-- ===== src/Patricia/Search/Descent.antt =====
-- Induction on the way down that `bpt_search_node` takes.
use libbgpstream.Prelude.{
  ℕ, ◌≤◌, ◌<◌, ◌≡◌, ◌≢◌, inl, inr, refl, subst, ◌∙◌, true, false, none, some, List, ◌∷◌, ltb,
  le→leb, le→ltb, lt→ltb, arith, Bool-cases, Option-cases,
}
use libbgpstream.Addr.{AddrVersion, bit_array_test}
use libbgpstream.Key.{Key, branch, length-branch, PrefixOf-le, PrefixOf-branch}
use libbgpstream.Pfx.{Pfx, key}
use libbgpstream.Pfx.Keys.{length-key}
use libbgpstream.Patricia.Tree.{Node, Tree, null, node, Frame, left_of, right_of, Loc, loc}
use libbgpstream.Patricia.Tree.Shape.{NodeOk, HasShape, NodeOk-weaken}
use libbgpstream.Patricia.Search.{search_node, climb}

-- Why the search stops at a node: it is long enough, or the child it would go to is null.
pub data Stops (pfx : Pfx) (i : Node) (l r : Tree) : Type 0 where
  long_enough : pfx.mask_len ≤ i.prefix.mask_len → Stops pfx i l r
  no_right :
      i.prefix.mask_len < pfx.mask_len
      → bit_array_test pfx.address.bytes i.prefix.mask_len ≡ true
      → r ≡ null
      → Stops pfx i l r
  no_left :
      i.prefix.mask_len < pfx.mask_len
      → bit_array_test pfx.address.bytes i.prefix.mask_len ≡ false
      → l ≡ null
      → Stops pfx i l r

module _ (pfx : Pfx) where
  pub search_node-none : (t : Tree) (fs : List Frame) → search_node t fs pfx ≡ none → t ≡ null
  unfolding search_node
  search_node-none null fs e = refl
  search_node-none (node i l r) fs e = ground arith

  search_node-some :
      (t : Tree) (fs : List Frame) (x : Loc) → search_node t fs pfx ≡ some x → t ≢ null
  unfolding search_node
  search_node-some null fs x e z = cc
  search_node-some (node i l r) fs x e z = cc

  pub search_node_ind {ℓ} :
      (P : Tree → List Frame → Loc → Type ℓ)
      → ((i : Node) (l r : Tree) (fs : List Frame)
          → Stops pfx i l r
          → P (node i l r) fs (loc i l r fs))
      → ((i : Node) (l r : Tree) (fs : List Frame) (x : Loc)
          → search_node (node i l r) fs pfx ≡ some x
          → i.prefix.mask_len < pfx.mask_len
          → bit_array_test pfx.address.bytes i.prefix.mask_len ≡ false
          → search_node l (left_of i r ∷ fs) pfx ≡ some x
          → P l (left_of i r ∷ fs) x
          → P (node i l r) fs x)
      → ((i : Node) (l r : Tree) (fs : List Frame) (x : Loc)
          → search_node (node i l r) fs pfx ≡ some x
          → i.prefix.mask_len < pfx.mask_len
          → bit_array_test pfx.address.bytes i.prefix.mask_len ≡ true
          → search_node r (right_of i l ∷ fs) pfx ≡ some x
          → P r (right_of i l ∷ fs) x
          → P (node i l r) fs x)
      → (t : Tree) (fs : List Frame) (x : Loc) → search_node t fs pfx ≡ some x
      → P t fs x
  unfolding search_node
  search_node_ind P stop left right null fs x e = cc
  search_node_ind P stop left right (node i l r) fs x e =
      elim (Bool-cases (ltb i.prefix.mask_len pfx.mask_len)) [
        | inr long ↦
            subst (P (node i l r) fs) (ground arith) (stop i l r fs (long_enough (ground arith)))
        | inl short ↦ elim (Bool-cases (bit_array_test pfx.address.bytes i.prefix.mask_len)) [
          | inl one ↦ elim (Option-cases (search_node r (right_of i l ∷ fs) pfx)) [
            | inl none_there ↦ subst (P (node i l r) fs) (ground arith) (
                stop i l r fs
                  (no_right (ground arith) one (search_node-none r (right_of i l ∷ fs) none_there)))
            | inr (y, there) ↦
                right i l r fs x e (ground arith) one (ground arith)
                  (search_node_ind P stop left right r (right_of i l ∷ fs) x (ground arith))
          ]
          | inr zero ↦ elim (Option-cases (search_node l (left_of i r ∷ fs) pfx)) [
            | inl none_there ↦ subst (P (node i l r) fs) (ground arith) (
                stop i l r fs
                  (no_left (ground arith) zero (search_node-none l (left_of i r ∷ fs) none_there)))
            | inr (y, there) ↦
                left i l r fs x e (ground arith) zero (ground arith)
                  (search_node_ind P stop left right l (left_of i r ∷ fs) x (ground arith))
          ]
        ]
      ]

  -- What the search finds stands below the bits of the tree that it began in.
  pub search_node-below :
      (v : AddrVersion) (t : Tree) (fs : List Frame) (x : Loc)
      → search_node t fs pfx ≡ some x
      → (p : Key) → HasShape v p t
      → NodeOk v p x.info
  search_node-below v =
      search_node_ind (λ t fs x. (p : Key) → HasShape v p t → NodeOk v p x.info)
        (λ i l r fs stops p s. s.0)
        (λ i l r fs x e short zero deeper rest p s.
          NodeOk-weaken p (key i.prefix) s.0.below
            (NodeOk-weaken (key i.prefix) _ (PrefixOf-branch (key i.prefix) false) (rest _ s.2)))
        (λ i l r fs x e short one deeper rest p s.
          NodeOk-weaken p (key i.prefix) s.0.below
            (NodeOk-weaken (key i.prefix) _ (PrefixOf-branch (key i.prefix) true) (rest _ s.3)))

  -- Climbing back from there, with no more bits than the node has, comes past the node itself.
  abbrev Passes : ℕ → Tree → List Frame → Loc → Type 0
  Passes d null fs x = Unit {0}
  Passes d (node i l r) fs x =
      d ≤ i.prefix.mask_len → climb d x.info x.l x.r x.parents ≡ climb d i l r fs

  Passes-left :
      (d : ℕ) (i : Node) (l r : Tree) (fs : List Frame) (x : Loc) (v : AddrVersion)
      → HasShape v (branch (key i.prefix) false) l
      → l ≢ null
      → Passes d l (left_of i r ∷ fs) x
      → Passes d (node i l r) fs x
  unfolding climb
  Passes-left d i null r fs x v s ne rest le = absurd (ne refl)
  Passes-left d i (node j a b) r fs x v s ne rest le =
      rest (
        omega (
          arith,
          PrefixOf-le (branch (key i.prefix) false) (key j.prefix) s.0.below,
          length-branch (key i.prefix) false,
          length-key i.prefix,
          length-key j.prefix,
        ))
      ∙ rw (le→leb d i.prefix.mask_len le)

  Passes-right :
      (d : ℕ) (i : Node) (l r : Tree) (fs : List Frame) (x : Loc) (v : AddrVersion)
      → HasShape v (branch (key i.prefix) true) r
      → r ≢ null
      → Passes d r (right_of i l ∷ fs) x
      → Passes d (node i l r) fs x
  unfolding climb
  Passes-right d i l null fs x v s ne rest le = absurd (ne refl)
  Passes-right d i l (node j a b) fs x v s ne rest le =
      rest (
        omega (
          arith,
          PrefixOf-le (branch (key i.prefix) true) (key j.prefix) s.0.below,
          length-branch (key i.prefix) true,
          length-key i.prefix,
          length-key j.prefix,
        ))
      ∙ rw (le→leb d i.prefix.mask_len le)

  pub climb-search_node :
      (v : AddrVersion) (d : ℕ) (t : Tree) (fs : List Frame) (x : Loc)
      → search_node t fs pfx ≡ some x
      → (p : Key) → HasShape v p t
      → Passes d t fs x
  climb-search_node v d =
      search_node_ind (λ t fs x. (p : Key) → HasShape v p t → Passes d t fs x)
        (λ i l r fs stops p s le. refl)
        (λ i l r fs x e short zero deeper rest p s.
          Passes-left d i l r fs x v s.2 (search_node-some l _ x deeper) (rest _ s.2))
        (λ i l r fs x e short one deeper rest p s.
          Passes-right d i l r fs x v s.3 (search_node-some r _ x deeper) (rest _ s.3))

  pub search_node-Stops :
      (i : Node) (l r : Tree) (fs : List Frame)
      → Stops pfx i l r
      → search_node (node i l r) fs pfx ≡ some (loc i l r fs)
  unfolding search_node
  search_node-Stops i l r fs (long_enough h) = rw (le→ltb _ _ h)
  search_node-Stops i l r fs (no_right h one e) = rw (e, lt→ltb _ _ h, one)
  search_node-Stops i l r fs (no_left h zero e) = rw (e, lt→ltb _ _ h, zero)
