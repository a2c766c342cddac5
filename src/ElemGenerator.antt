-- ===== src/ElemGenerator.antt =====
-- The array of elems of a record: lib/bgpstream_elem_generator.c. `elems` is what is allocated,
-- `elems_cnt` is none for -1. `blank` is an elem after bgpstream_elem_clear. An index outside the
-- array, or a failed assertion, is a fault, none.
pub mod Iteration
use libbgpstream.Prelude.{
  ℕ, zero, suc, ◌+◌, Bool, true, false, Option, none, some, List, [], ◌∷◌, ◌++◌, ltb, leb,
  if◌then◌else◌, length, ◌>>=◌,
}
use libbgpstream.Filter.{Elem}

pub record ElemGenerator : Type 0 where
  pub elems : List Elem
  pub elems_cnt : Option ℕ
  pub iter : ℕ

abbrev pub create : ElemGenerator
create = record { elems = []; elems_cnt = none; iter = 0 }

abbrev pub clear : ElemGenerator → ElemGenerator
clear self = record self { elems_cnt = none; iter = 0 }

abbrev pub empty : ElemGenerator → ElemGenerator
empty self = record self { elems_cnt = some 0; iter = 0 }

abbrev pub is_populated : ElemGenerator → Bool
is_populated self = elim self.elems_cnt [ none ↦ false | some cnt ↦ true ]

unfoldable pub set_at : ℕ → Elem → List Elem → List Elem
set_at i e [] = []
set_at zero e (x ∷ xs) = e ∷ xs
set_at (suc i) e (x ∷ xs) = x ∷ set_at i e xs

unfoldable pub elem_at : ℕ → List Elem → Option Elem
elem_at i [] = none
elem_at zero (x ∷ xs) = some x
elem_at (suc i) (x ∷ xs) = elem_at i xs

-- The array grows before its last place is handed out.
abbrev pub grown : Elem → ℕ → List Elem → List Elem
grown blank cnt elems = if leb (length elems) (cnt + 1) then elems ++ (blank ∷ []) else elems

-- The generator with an elem in the place of index `elems_cnt`.
abbrev pub put_elem : ElemGenerator → List Elem → ℕ → ℕ → Elem → Option ElemGenerator
put_elem self elems place cnt el =
    if ltb place (length elems)
    then some (record self { elems = set_at place el elems; elems_cnt = some cnt })
    else none

-- The new elem is cleared; the caller fills it in place.
unfoldable pub get_new_elem : Elem → ElemGenerator → Option ElemGenerator
unfolding set_at
get_new_elem blank self = elim self.elems_cnt [
  | none ↦ none
  | some cnt ↦ put_elem self (grown blank cnt self.elems) cnt cnt blank
]

-- `el` is what the caller made of the elem that it was given.
unfoldable pub commit_elem : ElemGenerator → Elem → Option ElemGenerator
unfolding set_at
commit_elem self el = elim self.elems_cnt [
  | none ↦ none
  | some cnt ↦ put_elem self self.elems cnt (cnt + 1) el
]

abbrev next_at : ElemGenerator → Option Elem → ElemGenerator × Option Elem
next_at self el = (record self { iter = self.iter + 1 }, el)

-- The next elem where there are `elems_cnt` of them.
unfoldable pub next_of_cnt : ElemGenerator → Option ℕ → ElemGenerator × Option Elem
unfolding elem_at
next_of_cnt self none = (self, none)
next_of_cnt self (some cnt) =
    if ltb self.iter cnt then next_at self (elem_at self.iter self.elems) else (self, none)

unfoldable pub get_next_elem : ElemGenerator → ElemGenerator × Option Elem
unfolding next_of_cnt
get_next_elem self = next_of_cnt self self.elems_cnt

-- One elem after the other is got, filled and committed.
unfoldable pub add_elems : Elem → ElemGenerator → List Elem → Option ElemGenerator
unfolding get_new_elem commit_elem
add_elems blank self [] = some self
add_elems blank self (el ∷ els) = do
  fresh ← get_new_elem blank self
  held ← commit_elem fresh el
  add_elems blank held els
