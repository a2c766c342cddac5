-- ===== src/ElemGenerator/Iteration.antt =====
-- What a generator of lib/bgpstream_elem_generator.c hands out of the elems that were put into it.
use libbgpstream.Prelude.{
  ℕ, zero, suc, ◌+◌, ◌≡◌, refl, sym, ap, ◌∙◌, true, false, Option, none, some, List, [], ◌∷◌, ◌++◌,
  arith, ltb, leb, length, Bool-cases, inl, inr, length-append,
}
use mathlib.Core.List.{append_assoc, append-nil}
use libbgpstream.Filter.{Elem}
use libbgpstream.ElemGenerator.{
  ElemGenerator, empty, set_at, elem_at, grown, put_elem, get_new_elem, commit_elem, next_of_cnt,
  get_next_elem, add_elems,
}

-- Calls of get_next_elem up to the first that gives none; none if that takes more than the fuel.
abbrev pub drain_step :
    (ElemGenerator → Option (List Elem)) → ElemGenerator × Option Elem → Option (List Elem)
drain_step k (self, none) = some []
drain_step k (self, some e) = elim (k self) [ none ↦ none | some l ↦ some (e ∷ l) ]

unfoldable pub drain : ℕ → ElemGenerator → Option (List Elem)
drain zero self = none
drain (suc f) self = drain_step (drain f) (get_next_elem self)

set_at-append :
    (l : List Elem) (e x : Elem) (tail : List Elem)
    → set_at (length l) e (l ++ (x ∷ tail)) ≡ l ++ (e ∷ tail)
unfolding set_at
set_at-append [] e x tail = refl
set_at-append (y ∷ l) e x tail = ap (λ t. y ∷ t) (set_at-append l e x tail)

elem_at-append :
    (l : List Elem) (e : Elem) (tail : List Elem) → elem_at (length l) (l ++ (e ∷ tail)) ≡ some e
unfolding elem_at
elem_at-append [] e tail = refl
elem_at-append (y ∷ l) e tail = elem_at-append l e tail

-- The generator holds these elems first, of which `k` were handed out.
record Holds (self : ElemGenerator) (l : List Elem) (k : ℕ) : Type 0 where
  tail : List Elem
  elems_held : self.elems ≡ l ++ tail
  counted : self.elems_cnt ≡ some (length l)
  at : self.iter ≡ k

-- Whatever is past the elems in use, there is a place for one more after the array has grown.
room :
    (blank : Elem) (l tail : List Elem)
    → (x : Elem) × (rest : List Elem) × (grown blank (length l) (l ++ tail) ≡ l ++ (x ∷ rest))
room blank l [] =
    let full : leb (length (l ++ [])) (length l + 1) ≡ true = ground (arith, length-append l []) in
    (blank, [], rw full (ap (λ t. t ++ (blank ∷ [])) (append-nil l)))
room blank l (x ∷ rest) = elim (Bool-cases (leb (length (l ++ (x ∷ rest))) (length l + 1))) [
  | inl full ↦ (x, rest ++ (blank ∷ []), rw full (append_assoc l (x ∷ rest) (blank ∷ [])))
  | inr roomy ↦ (x, rest, rw roomy)
]

put_elem-append :
    (self : ElemGenerator) (l : List Elem) (x e : Elem) (rest : List Elem) (cnt : ℕ)
    → put_elem self (l ++ (x ∷ rest)) (length l) cnt e
      ≡ some (record self { elems = l ++ (e ∷ rest); elems_cnt = some cnt })
put_elem-append self l x e rest cnt =
    let inside : ltb (length l) (length (l ++ (x ∷ rest))) ≡ true =
      ground (arith, length-append l (x ∷ rest)) in
    rw (inside, set_at-append l e x rest)

-- An elem is got and committed after those that are held.
record AddsOne (blank el : Elem) (self : ElemGenerator) (l : List Elem) (k : ℕ) : Type 0 where
  fresh : ElemGenerator
  after : ElemGenerator
  got : get_new_elem blank self ≡ some fresh
  committed : commit_elem fresh el ≡ some after
  holds : Holds after (l ++ (el ∷ [])) k

add_one :
    (blank el : Elem) (self : ElemGenerator) (l : List Elem) (k : ℕ)
    → Holds self l k
    → AddsOne blank el self l k
unfolding get_new_elem commit_elem
add_one blank el self l k h =
    let (x, rest, spare) = room blank l h.tail in
    let fresh : ElemGenerator = record self {
      elems = l ++ (blank ∷ rest);
      elems_cnt = some (length l);
    } in
    record {
      fresh = fresh;
      after = record fresh { elems = l ++ (el ∷ rest); elems_cnt = some (length l + 1) };
      got =
          rw (h.counted, h.elems_held)
            (ap (λ es. put_elem self es (length l) (length l) blank) spare
              ∙ put_elem-append self l x blank rest (length l));
      committed = put_elem-append fresh l blank el rest (length l + 1);
      holds = record {
        tail = rest;
        elems_held = sym (append_assoc l (el ∷ []) rest);
        counted = ap some (omega (arith, length-append l (el ∷ [])));
        at = h.at;
      };
    }

add_elems-Holds :
    (blank : Elem) (els : List Elem) (self : ElemGenerator) (l : List Elem) (k : ℕ)
    → Holds self l k
    → (after : ElemGenerator) × (add_elems blank self els ≡ some after) × Holds after (l ++ els) k
unfolding add_elems
add_elems-Holds blank [] self l k h = (self, refl, rw (append-nil l) h)
add_elems-Holds blank (el ∷ els) self l k h =
    let one = add_one blank el self l k h in
    let (after, added, holds) = add_elems-Holds blank els one.after (l ++ (el ∷ [])) k one.holds in
    (after, rw (one.got, one.committed) added, rw (← append_assoc l (el ∷ []) els) holds)

get_next_elem-none :
    (self : ElemGenerator) (cnt : ℕ)
    → self.elems_cnt ≡ some cnt
    → ltb self.iter cnt ≡ false
    → get_next_elem self ≡ (self, none)
unfolding get_next_elem next_of_cnt
get_next_elem-none self cnt counted over = ap (next_of_cnt self) counted ∙ rw over

get_next_elem-some :
    (self : ElemGenerator) (cnt : ℕ) (e : Elem)
    → self.elems_cnt ≡ some cnt
    → ltb self.iter cnt ≡ true
    → elem_at self.iter self.elems ≡ some e
    → get_next_elem self ≡ (record self { iter = self.iter + 1 }, some e)
unfolding get_next_elem next_of_cnt
get_next_elem-some self cnt e counted more found = ap (next_of_cnt self) counted ∙ rw (more, found)

-- A generator that has handed out the elems of `pre` hands out the others.
drain-Holds :
    (els pre : List Elem) (self : ElemGenerator)
    → Holds self (pre ++ els) (length pre)
    → drain (suc (length els)) self ≡ some els
unfolding drain
drain-Holds [] pre self h =
    let over : ltb self.iter (length (pre ++ [])) ≡ false =
      ground (arith, h.at, length-append pre []) in
    ap (drain_step (drain 0)) (get_next_elem-none self (length (pre ++ [])) h.counted over)
drain-Holds (e ∷ els) pre self h =
    let more : ltb self.iter (length (pre ++ (e ∷ els))) ≡ true =
      ground (arith, h.at, length-append pre (e ∷ els)) in
    let found : elem_at self.iter self.elems ≡ some e =
      rw (h.at, h.elems_held, append_assoc pre (e ∷ els) h.tail)
        (elem_at-append pre e (els ++ h.tail)) in
    let further =
      drain-Holds els (pre ++ (e ∷ [])) (record self { iter = self.iter + 1 })
        (record {
          tail = h.tail;
          elems_held = h.elems_held ∙ ap (λ t. t ++ h.tail) (sym (append_assoc pre (e ∷ []) els));
          counted = h.counted ∙ ap (λ t. some (length t)) (sym (append_assoc pre (e ∷ []) els));
          at = omega (arith, h.at, length-append pre (e ∷ []));
        }) in
    ap (drain_step (drain (suc (length els))))
      (get_next_elem-some self (length (pre ++ (e ∷ els))) e h.counted more found)
    ∙ rw (drain_step, further)

-- A generator that is emptied, whatever it held before, takes any elems, one after the other, and
-- then hands out these elems in the same order, each once, and says that there are no more.
pub add_elems-drain :
    (blank : Elem) (self : ElemGenerator) (els : List Elem)
    → (after : ElemGenerator) × (add_elems blank (empty self) els ≡ some after)
      × (drain (suc (length els)) after ≡ some els)
add_elems-drain blank self els =
    let (after, added, holds) =
      add_elems-Holds blank els (empty self) [] 0
        (record { tail = self.elems; elems_held = refl; counted = refl; at = refl }) in
    (after, added, drain-Holds els [] after holds)
