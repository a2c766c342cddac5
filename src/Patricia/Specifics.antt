-- ===== src/Patricia/Specifics.antt =====
-- What bgpstream_patricia_tree_get_more_specifics of lib/utils/bgpstream_utils_patricia.c puts in a
-- result set.
use libbgpstream.Prelude.{
  ℕ, ◌+◌, ◌-◌, ◌≤◌, ◌<◌, ◌≡◌, ◌⊎◌, inl, inr, refl, sym, ap, ap₂, subst, ◌∙◌, Bool, true, false,
  Option, some, List, [], ◌∷◌, ◌++◌, length, ◌==◌, if◌then◌else◌, arith, Bool-cases, ==_iff,
}
use mathlib.Core.List.{append_assoc, append-nil}
use libbgpstream.Addr.{AddrVersion}
use libbgpstream.Key.{branch, length-branch, PrefixOf-le}
use libbgpstream.Pfx.{key}
use libbgpstream.Pfx.Keys.{length-key}
use libbgpstream.Patricia.Tree.{Tree, null, node, Frame, left_of, right_of, Loc, loc}
use libbgpstream.Patricia.Tree.Shape.{HasShape}
use libbgpstream.Patricia.Insert.{max_bits}
use libbgpstream.Patricia.Insert.Shape.{width-le}
use libbgpstream.Patricia.Results.{
  ResultSet, result_set_add_node, result_set_clear, add_more_specifics, get_more_specifics,
}
use libbgpstream.Patricia.Entries.{entries, IsResultSet, add_node-entries}

-- What the calls for a subtree add.
abbrev Adds : ResultSet → List (Option Loc) → ResultSet → Type 0
Adds set new after = IsResultSet after × (entries after ≡ entries set ++ new)

-- The actual nodes of a tree, a node before its children: all of them, and with a depth.
unfoldable pub all_specifics : Tree → List Frame → List (Option Loc)
all_specifics null fs = []
all_specifics (node i l r) fs =
    let below = all_specifics l (left_of i r ∷ fs) ++ all_specifics r (right_of i l ∷ fs) in
    if i.actual then some (loc i l r fs) ∷ below else below

to_depth : Tree → List Frame → ℕ → List (Option Loc)
to_depth null fs depth = []
to_depth (node i l r) fs depth =
    let d = if i.actual then depth - 1 else depth in
    let below = to_depth l (left_of i r ∷ fs) d ++ to_depth r (right_of i l ∷ fs) d in
    if depth == 0 then [] else if i.actual then some (loc i l r fs) ∷ below else below

-- As many levels as a key has bits, and one more, are all.
to_depth-all :
    (v : AddrVersion) (p : List Bool) (t : Tree) (fs : List Frame) (depth : ℕ)
    → HasShape v p t
    → max_bits < depth + length p
    → to_depth t fs depth ≡ all_specifics t fs
unfolding to_depth all_specifics
to_depth-all v p null fs depth s h = refl
to_depth-all v p (node i l r) fs depth s h =
    cases (Bool-cases (depth == 0))
      (λ d deep. to_depth-all v (branch (key i.prefix) false) l (left_of i r ∷ fs) d s.2 deep)
      (λ d deep. to_depth-all v (branch (key i.prefix) true) r (right_of i l ∷ fs) d s.3 deep)
  where
    longer : length p ≤ length (key i.prefix)
    longer = PrefixOf-le p (key i.prefix) s.0.below

    fits : length p ≤ max_bits
    fits =
        omega (arith, longer, length-key i.prefix, s.0.ok.fits, width-le i.prefix.address.version)

    d : ℕ
    d = if i.actual then depth - 1 else depth

    deep : (b : Bool) → (depth == 0) ≡ false → max_bits < d + length (branch (key i.prefix) b)
    deep b some_depth = ground (arith, length-branch (key i.prefix) b, longer)

    cases :
        ((depth == 0) ≡ true) ⊎ ((depth == 0) ≡ false)
        → ((d : ℕ)
            → max_bits < d + length (branch (key i.prefix) false)
            → to_depth l (left_of i r ∷ fs) d ≡ all_specifics l (left_of i r ∷ fs))
        → ((d : ℕ)
            → max_bits < d + length (branch (key i.prefix) true)
            → to_depth r (right_of i l ∷ fs) d ≡ all_specifics r (right_of i l ∷ fs))
        → to_depth (node i l r) fs depth ≡ all_specifics (node i l r) fs
    cases (inl zero_depth) left right = absurd (omega (arith, (==_iff _ _).0 zero_depth, fits))
    cases (inr some_depth) left right = rw some_depth (
        ap (λ b. if i.actual then some (loc i l r fs) ∷ b else b)
          (ap₂ (λ a b. a ++ b) (left d (deep false some_depth)) (right d (deep true some_depth))))

module _ (kroundup32 : ℕ → ℕ) (rounds_up : (n : ℕ) → n ≤ kroundup32 n) where
  joined :
      (set mid after : ResultSet) (a b : List (Option Loc))
      → Adds set a mid
      → Adds mid b after
      → Adds set (a ++ b) after
  joined set mid after a b p q = (q.0, q.1 ∙ ap (λ l. l ++ b) p.1 ∙ append_assoc (entries set) a b)

  nothing_added : (set : ResultSet) → IsResultSet set → Adds set [] set
  nothing_added set ok = (ok, sym (append-nil (entries set)))

  own_entry :
      (set : ResultSet) (actual : Bool) (x : Option Loc)
      → IsResultSet set
      → Adds set
          (if actual then x ∷ [] else [])
          (if actual then result_set_add_node kroundup32 set x else set)
  own_entry set true x ok = add_node-entries kroundup32 rounds_up set x ok
  own_entry set false x ok = nothing_added set ok

  put_before :
      (actual : Bool) (x : Option Loc) (l : List (Option Loc))
      → ((if actual then x ∷ [] else []) ++ l) ≡ (if actual then x ∷ l else l)
  put_before true x l = refl
  put_before false x l = refl

  add_more_specifics-Adds :
      (t : Tree) (fs : List Frame) (depth : ℕ) (set : ResultSet)
      → IsResultSet set
      → Adds set (to_depth t fs depth) (add_more_specifics kroundup32 set t fs depth)
  unfolding add_more_specifics to_depth
  add_more_specifics-Adds null fs depth set ok = nothing_added set ok
  add_more_specifics-Adds (node i l r) fs depth set ok = elim (Bool-cases (depth == 0)) [
    | inl none_left ↦ rw none_left (nothing_added set ok)
    | inr some_left ↦
        let d : ℕ = if i.actual then depth - 1 else depth in
        let mid : ResultSet =
          if i.actual then result_set_add_node kroundup32 set (some (loc i l r fs)) else set in
        let own = own_entry set i.actual (some (loc i l r fs)) ok in
        let left = add_more_specifics-Adds l (left_of i r ∷ fs) d mid own.0 in
        let right =
          add_more_specifics-Adds r (right_of i l ∷ fs) d
            (add_more_specifics kroundup32 mid l (left_of i r ∷ fs) d) left.0 in
        rw some_left (
          subst
            (λ new. Adds set new (
              add_more_specifics kroundup32
                (add_more_specifics kroundup32 mid l (left_of i r ∷ fs) d) r (right_of i l ∷ fs) d))
            (put_before i.actual (some (loc i l r fs))
              (to_depth l (left_of i r ∷ fs) d ++ to_depth r (right_of i l ∷ fs) d))
            (joined set mid _ _ _ own (joined mid _ _ _ _ left right)))
  ]

  -- For a node of a tree in shape and a result set in order, the result set is emptied and then
  -- lists the actual nodes below the node, all of them, each before those below it, if the
  -- rounding of sizes never rounds down.
  pub get_more_specifics_lem :
      (v : AddrVersion) (p : List Bool) (x : Loc) (set : ResultSet)
      → HasShape v p (node x.info x.l x.r)
      → IsResultSet set
      → entries (get_more_specifics kroundup32 set (some x))
        ≡ all_specifics x.l (left_of x.info x.r ∷ x.parents)
          ++ all_specifics x.r (right_of x.info x.l ∷ x.parents)
  unfolding get_more_specifics result_set_clear
  get_more_specifics_lem v p x set s ok =
      both.1
      ∙ ap₂ (λ a b. a ++ b)
          (to_depth-all v (branch (key x.info.prefix) false) x.l (left_of x.info x.r ∷ x.parents)
            (max_bits + 1) s.2 (omega arith))
          (to_depth-all v (branch (key x.info.prefix) true) x.r (right_of x.info x.l ∷ x.parents)
            (max_bits + 1) s.3 (omega arith))
    where
      cleared : ResultSet
      cleared = record set { n_recs = 0; cursor = 0 }

      cleared_ok : IsResultSet cleared
      cleared_ok = record { room = ok.room; fits = omega arith }

      left : Adds cleared (to_depth x.l (left_of x.info x.r ∷ x.parents) (max_bits + 1)) (
          add_more_specifics kroundup32 cleared x.l (left_of x.info x.r ∷ x.parents) (max_bits + 1))
      left =
          add_more_specifics-Adds x.l (left_of x.info x.r ∷ x.parents) (max_bits + 1) cleared
            cleared_ok

      both :
          Adds cleared
            (to_depth x.l (left_of x.info x.r ∷ x.parents) (max_bits + 1)
              ++ to_depth x.r (right_of x.info x.l ∷ x.parents) (max_bits + 1))
            (add_more_specifics kroundup32
              (add_more_specifics kroundup32 cleared x.l
                (left_of x.info x.r ∷ x.parents)
                (max_bits + 1))
              x.r
              (right_of x.info x.l ∷ x.parents)
              (max_bits + 1))
      both = joined cleared _ _ _ _ left (
          add_more_specifics-Adds x.r (right_of x.info x.l ∷ x.parents) (max_bits + 1)
            (add_more_specifics kroundup32 cleared x.l (left_of x.info x.r ∷ x.parents)
              (max_bits + 1))
            left.0)
