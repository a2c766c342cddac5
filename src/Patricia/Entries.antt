-- ===== src/Patricia/Entries.antt =====
-- The result sets of lib/utils/bgpstream_utils_patricia.c as lists: an addition puts one entry at
-- the end, whether or not the array grows.
use libbgpstream.Prelude.{
  ℕ, zero, suc, ◌+◌, ◌-◌, ◌≤◌, ◌<◌, ◌≡◌, inl, inr, refl, sym, ap, ap₂, ◌∙◌, Option, none, List, [],
  ◌∷◌, ◌++◌, length, take, replicate, length-append, ltb, arith, Bool-cases, ltb→lt, ltb→le,
}
use libbgpstream.Patricia.Tree.{Loc}
use libbgpstream.Patricia.Results.{ResultSet, set_entry, grow, result_set_add_node}

abbrev pub entries : ResultSet → List (Option Loc)
entries set = take set.n_recs set.result_nodes

pub record IsResultSet (set : ResultSet) : Type 0 where
  pub room : set.alloc_size ≡ length set.result_nodes
  pub fits : set.n_recs ≤ set.alloc_size

module _ {ℓ} {A : Type ℓ} where
  length-replicate : (n : ℕ) (a : A) → length (replicate n a) ≡ n
  length-replicate zero a = refl
  length-replicate (suc n) a = ap suc (length-replicate n a)

  length-set_entry : (l : List A) (i : ℕ) (a : A) → length (set_entry l i a) ≡ length l
  length-set_entry [] i a = refl
  length-set_entry (x ∷ l) zero a = refl
  length-set_entry (x ∷ l) (suc i) a = ap suc (length-set_entry l i a)

  take-append : (n : ℕ) (l m : List A) → n ≤ length l → take n (l ++ m) ≡ take n l
  take-append zero l m h = refl
  take-append (suc n) [] m h = absurd (omega arith)
  take-append (suc n) (x ∷ l) m h = ap (λ t. x ∷ t) (take-append n l m (omega arith))

  take-set_entry :
      (n : ℕ) (l : List A) (a : A)
      → n < length l
      → take (suc n) (set_entry l n a) ≡ take n l ++ (a ∷ [])
  take-set_entry zero [] a h = absurd (omega arith)
  take-set_entry (suc n) [] a h = absurd (omega arith)
  take-set_entry zero (x ∷ l) a h = refl
  take-set_entry (suc n) (x ∷ l) a h = ap (λ t. x ∷ t) (take-set_entry n l a (omega arith))

module _ (kroundup32 : ℕ → ℕ) (rounds_up : (n : ℕ) → n ≤ kroundup32 n) where
  -- A set with room for one more entry.
  record Grown (set grown : ResultSet) : Type 0 where
    one_more : grown.n_recs ≡ set.n_recs + 1
    room : grown.alloc_size ≡ length grown.result_nodes
    fits : grown.n_recs ≤ grown.alloc_size
    kept : take set.n_recs grown.result_nodes ≡ entries set

  grow-Grown :
      (set : ResultSet)
      → IsResultSet set
      → Grown set (grow kroundup32 (record set { n_recs = set.n_recs + 1 }))
  unfolding grow
  grow-Grown set ok = elim (Bool-cases (ltb set.alloc_size (set.n_recs + 1))) [
    | inl full ↦ rw full (record {
      one_more = refl;
      room = sym (
          length-append set.result_nodes
            (replicate (kroundup32 (set.n_recs + 1) - length set.result_nodes) none)
          ∙ omega (
            arith,
            length-replicate {A = Option Loc}
                (kroundup32 (set.n_recs + 1) - length set.result_nodes) none,
            rounds_up (set.n_recs + 1),
            ok.room,
            ltb→lt _ _ full,
            ok.fits,
          ));
      fits = rounds_up (set.n_recs + 1);
      kept =
          take-append set.n_recs set.result_nodes
            (replicate (kroundup32 (set.n_recs + 1) - length set.result_nodes) none)
            (omega (arith, ok.fits, ok.room));
    })
    | inr spare ↦
        rw spare (record { one_more = refl; room = ok.room; fits = ltb→le _ _ spare; kept = refl })
  ]

  entered :
      (set grown : ResultSet) (x : Option Loc)
      → Grown set grown
      → IsResultSet
          (record grown { result_nodes = set_entry grown.result_nodes (grown.n_recs - 1) x })
        × (take grown.n_recs (set_entry grown.result_nodes (grown.n_recs - 1) x)
            ≡ entries set ++ (x ∷ []))
  entered set grown x g = (
    record {
      room = g.room ∙ sym (length-set_entry grown.result_nodes (grown.n_recs - 1) x);
      fits = g.fits;
    },
    ap₂ (λ a b. take a (set_entry grown.result_nodes b x)) after before
        ∙ take-set_entry set.n_recs grown.result_nodes x (omega (arith, g.one_more, g.fits, g.room))
        ∙ ap (λ l. l ++ (x ∷ [])) g.kept,
  )
    where
      after : grown.n_recs ≡ suc set.n_recs
      after = omega (arith, g.one_more)

      before : grown.n_recs - 1 ≡ set.n_recs
      before = omega (arith, g.one_more)

  -- An addition puts one more entry at the end.
  pub add_node-entries :
      (set : ResultSet) (x : Option Loc)
      → IsResultSet set
      → IsResultSet (result_set_add_node kroundup32 set x)
        × (entries (result_set_add_node kroundup32 set x) ≡ entries set ++ (x ∷ []))
  unfolding result_set_add_node
  add_node-entries set x ok =
      entered set (grow kroundup32 (record set { n_recs = set.n_recs + 1 })) x (grow-Grown set ok)
