-- ===== src/ResourceMgr/Order.antt =====
-- insert_resource_elem of lib/bgpstream_resource_mgr.c: the queue stays in order, whichever end the
-- search starts from.
use libbgpstream.Prelude.{
  ℕ, suc, ◌≤◌, ◌<◌, ◌≡◌, inl, inr, refl, sym, ◌≢◌, ap, subst, ◌∙◌, List, [], ◌∷◌, ◌++◌, ltb, ◌==◌,
  arith, All, All-append, Bool-cases, ltb→lt, ltb→le, ne_of_==, ==_iff, lt→ltb, le→ltb, ==_ne,
}
use mathlib.Core.List.{reverse, reverse-cons, reverse-append, reverse-reverse}
use libbgpstream.ResourceMgr.{
  ResGroup, ResListElem, RecordType, update, rib, set_res_list, ResourceMgr, get_next_time,
  push_from_head, push_from_tail, res_group_create, res_group_add, link, new_group, update_overlap,
  push_groups, insert_resource_elem, abs_diff, last_time,
}

-- Oldest first, one group for a time.
abbrev pub IsOrdered : ℕ → List ResGroup → Type 0
IsOrdered low [] = Unit {0}
IsOrdered low (g ∷ gs) = (low ≤ g.time) × IsOrdered (suc g.time) gs

pub All-after :
    (low t : ℕ) (gs : List ResGroup) → t < low → IsOrdered low gs → All (λ g. t < g.time) gs
All-after low t [] lt h = tt
All-after low t (g ∷ gs) lt h =
    (omega (arith, h.0), All-after (suc g.time) t gs (omega (arith, h.0)) h.1)

module _ {ℓ κ} {A : Type ℓ} (P : A → Type κ) where
  All-reverse : (xs : List A) → All P xs → All P (reverse xs)
  All-reverse [] p = tt
  All-reverse (x ∷ xs) p =
      subst (All P) (sym (reverse-cons x xs))
        (All-append P (reverse xs) (x ∷ []) (All-reverse xs p.1) (p.0, tt))

pub time-set_res_list :
    (g : ResGroup) (r : RecordType) (l : List ResListElem) → (set_res_list g r l).time ≡ g.time
time-set_res_list g update l = refl
time-set_res_list g rib l = refl

module _ (el : ResListElem) where
  abbrev t : ℕ
  t = get_next_time el

  pub time-create : (res_group_create el).time ≡ t
  unfolding res_group_create update_overlap new_group link
  time-create = time-set_res_list _ el.res.record_type _

  pub time-add : (g : ResGroup) → (res_group_add g el).0.time ≡ g.time
  unfolding res_group_add update_overlap link
  time-add g = time-set_res_list _ el.res.record_type _

  pub push_from_head-IsOrdered :
      (low : ℕ) (gs : List ResGroup)
      → low ≤ t
      → IsOrdered low gs
      → IsOrdered low (push_from_head el gs).0
  unfolding push_from_head
  push_from_head-IsOrdered low [] le h = (omega (arith, time-create), tt)
  push_from_head-IsOrdered low (g ∷ gs) le h = elim (Bool-cases (ltb g.time t)) [
    | inl before ↦ rw before (h.0, push_from_head-IsOrdered (suc g.time) gs (ltb→lt _ _ before) h.1)
    | inr not_before ↦ elim (Bool-cases (g.time == t)) [
      | inl at ↦
          rw (not_before, at)
            (
              omega (arith, h.0, time-add g),
              subst (λ n. IsOrdered (suc n) gs) (sym (time-add g)) h.1,
            )
      | inr after ↦
          rw (not_before, after)
            (
              omega (arith, time-create),
              (omega (arith, time-create, ltb→le _ _ not_before, ne_of_== _ _ after), h.1),
            )
    ]
  ]

  abbrev at_end : List ResGroup × ℕ → ResGroup → List ResGroup × ℕ
  at_end (l, dirty) g = (l ++ (g ∷ []), dirty)

  abbrev and_then : List ResGroup → List ResGroup × ℕ → List ResGroup × ℕ
  and_then b (l, dirty) = (b ++ l, dirty)

  -- An older group at the end is never reached.
  push_from_tail-older :
      (b : List ResGroup) (g : ResGroup)
      → g.time < t
      → push_from_tail el (b ++ (g ∷ [])) ≡ at_end (push_from_tail el b) g
  unfolding push_from_tail
  push_from_tail-older [] g lt =
      rw (le→ltb t g.time (omega arith), ==_ne g.time t (λ e. omega arith))
  push_from_tail-older (c ∷ b) g lt = elim (Bool-cases (ltb t c.time)) [
    | inl past ↦ rw (past, push_from_tail-older b g lt)
    | inr not_past ↦ elim (Bool-cases (c.time == t)) [
      | inl at ↦ rw (not_past, at)
      | inr before ↦ rw (not_past, before)
    ]
  ]

  -- Newer groups before it are all passed.
  push_from_tail-newer :
      (b l : List ResGroup)
      → All (λ g. t < g.time) b
      → push_from_tail el (b ++ l) ≡ and_then b (push_from_tail el l)
  unfolding push_from_tail
  push_from_tail-newer [] l h = refl
  push_from_tail-newer (c ∷ b) l h = rw (lt→ltb t c.time h.0, push_from_tail-newer b l h.1)

  abbrev turned : List ResGroup × ℕ → List ResGroup × ℕ
  turned (l, dirty) = (reverse l, dirty)

  turned-at_end :
      (r : List ResGroup × ℕ) (g : ResGroup) → turned (at_end r g) ≡ and_then (g ∷ []) (turned r)
  turned-at_end (l, dirty) g = ap (λ x. (x, dirty)) (reverse-append l (g ∷ []))

  turned-back :
      (gs l : List ResGroup) (d : ℕ)
      → turned (and_then (reverse gs) (l, d)) ≡ and_then (reverse l) (gs, d)
  turned-back gs l d =
      ap (λ x. (x, d))
        (reverse-append (reverse gs) l ∙ ap (λ x. reverse l ++ x) (reverse-reverse gs))

  all_passed :
      (g : ResGroup) (gs : List ResGroup)
      → t ≤ g.time
      → IsOrdered (suc g.time) gs
      → turned (push_from_tail el (reverse (g ∷ gs)))
        ≡ turned (and_then (reverse gs) (push_from_tail el (g ∷ [])))
  all_passed g gs le h =
      ap (λ l. turned (push_from_tail el l)) (reverse-cons g gs)
      ∙ ap turned (
          push_from_tail-newer (reverse gs) (g ∷ [])
            (All-reverse (λ g. t < g.time) gs (All-after (suc g.time) t gs (omega arith) h)))

  tail-at :
      (g : ResGroup)
      → g.time ≡ t
      → push_from_tail el (g ∷ []) ≡ ((res_group_add g el).0 ∷ [], (res_group_add g el).1)
  unfolding push_from_tail
  tail-at g e = rw (le→ltb t g.time (omega arith), (==_iff g.time t).1 e)

  tail-after :
      (g : ResGroup)
      → t ≤ g.time
      → g.time ≢ t
      → push_from_tail el (g ∷ []) ≡ (g ∷ res_group_create el ∷ [], 0)
  unfolding push_from_tail
  tail-after g le ne = rw (lt→ltb t g.time (omega (arith, ne)))

  -- On groups in the order of time, the loop of the insertion run from the tail comes to the
  -- same groups, and to the same number of dirty ones, as run from the head.
  pub push_from_either_end :
      (low : ℕ) (gs : List ResGroup)
      → IsOrdered low gs
      → turned (push_from_tail el (reverse gs)) ≡ push_from_head el gs
  unfolding push_from_head
  push_from_either_end low [] h = unfold push_from_tail in refl
  push_from_either_end low (g ∷ gs) h = elim (Bool-cases (ltb g.time t)) [
    | inl before ↦ rw (before) (
        ap (λ l. turned (push_from_tail el l)) (reverse-cons g gs)
        ∙ ap turned (push_from_tail-older (reverse gs) g (ltb→lt _ _ before))
        ∙ turned-at_end (push_from_tail el (reverse gs)) g
        ∙ ap (and_then (g ∷ [])) (push_from_either_end (suc g.time) gs h.1))
    | inr not_before ↦
        let passed : turned (push_from_tail el (reverse (g ∷ gs)))
            ≡ turned (and_then (reverse gs) (push_from_tail el (g ∷ []))) =
          all_passed g gs (ltb→le _ _ not_before) h.1 in
        elim (Bool-cases (g.time == t)) [
          | inl at ↦
              rw (not_before, at)
                (passed
                  ∙ ap (λ r. turned (and_then (reverse gs) r)) (tail-at g ((==_iff _ _).0 at))
                  ∙ turned-back gs ((res_group_add g el).0 ∷ []) (res_group_add g el).1)
          | inr after ↦
              rw (not_before, after)
                (passed
                  ∙ ap (λ r. turned (and_then (reverse gs) r))
                      (tail-after g (ltb→le _ _ not_before) (ne_of_== _ _ after))
                  ∙ turned-back gs (g ∷ res_group_create el ∷ []) 0)
        ]
  ]

-- So the choice of the end does not matter.
pub push_groups-head :
    (el : ResListElem) (gs : List ResGroup)
    → IsOrdered 0 gs
    → push_groups el gs ≡ push_from_head el gs
unfolding push_groups
push_groups-head el [] h = unfold push_from_head in refl
push_groups-head el (g ∷ gs) h =
    elim (Bool-cases (
      ltb (abs_diff (get_next_time el) g.time)
        (abs_diff (get_next_time el) (last_time g.time gs)))) [
          | inl near ↦ rw near
          | inr far ↦ rw far (push_from_either_end el 0 (g ∷ gs) h)
        ]

-- An insertion keeps the queue in order, by whichever end it went.
pub insert-IsOrdered :
    (q : ResourceMgr) (el : ResListElem)
    → IsOrdered 0 q.groups
    → IsOrdered 0 (insert_resource_elem q el).0.groups
unfolding insert_resource_elem
insert-IsOrdered q el h =
    subst (λ r. IsOrdered 0 r.0) (sym (push_groups-head el q.groups h))
      (push_from_head-IsOrdered el 0 q.groups (omega arith) h)
