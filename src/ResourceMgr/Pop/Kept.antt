-- ===== src/ResourceMgr/Pop/Kept.antt =====
-- What pop_record of lib/bgpstream_resource_mgr.c keeps true, and which resource it reads.
use libbgpstream.Prelude.{
  ℕ, suc, ◌+◌, ◌-◌, ◌≤◌, ◌≡◌, sym, ap, subst, inl, inr, Bool, true, List, ◌∷◌, arith, ◌==◌,
  if◌then◌else◌, All, Bool-cases, ==_iff,
}
use libbgpstream.ResourceMgr.{
  RecordType, update, rib, ResListElem, ResGroup, ResourceMgr, get_next_time, has_reader, res_list,
  set_res_list, one_if,
}
use libbgpstream.ResourceMgr.Order.{IsOrdered, time-set_res_list}
use libbgpstream.ResourceMgr.Contents.{
  IsResourceMgr, IsGroup, held, held_in, any_elem, is_stream, is_checked, count,
}
use libbgpstream.ResourceMgr.Upkeep.{IsOrdered-weaken, count-le}
use libbgpstream.ResourceMgr.Queue.{pop_res_el}
use libbgpstream.ResourceMgr.Pop.{pop_first, with_list}

abbrev pub HasTime : ℕ → ResListElem → Type 0
HasTime n e = get_next_time e ≡ n

-- The counts that the counters are of.
abbrev pub SameCounts : List ResListElem → List ResListElem → Type 0
SameCounts l l' =
    (count any_elem l ≡ count any_elem l')
    × (count has_reader l ≡ count has_reader l')
    × (count is_checked l ≡ count is_checked l')
    × (count is_stream l ≡ count is_stream l')

held_in-list :
    (gp : ResGroup) (r : RecordType) (p : ResListElem → Bool) (l : List ResListElem)
    → held_in p (set_res_list gp r l) + count p (res_list gp r) ≡ held_in p gp + count p l
held_in-list gp update p l = omega arith
held_in-list gp rib p l = omega arith

pub times-list :
    (gp : ResGroup) (r : RecordType) → IsGroup gp → All (HasTime gp.time) (res_list gp r)
times-list gp update ok = ok.update_times
times-list gp rib ok = ok.rib_times

-- A group with another list, and counters that count it.
IsGroup-list :
    (gp : ResGroup) (r : RecordType) (l : List ResListElem) (cnt open_cnt checked : ℕ)
    → IsGroup gp
    → All (HasTime gp.time) l
    → cnt ≡ held_in any_elem (set_res_list gp r l)
    → open_cnt ≡ held_in has_reader (set_res_list gp r l)
    → checked ≡ held_in is_checked (set_res_list gp r l)
    → IsGroup (record (set_res_list gp r l) {
      res_cnt = cnt;
      res_open_cnt = open_cnt;
      res_open_checked_cnt = checked;
    })
IsGroup-list gp update l cnt open_cnt checked ok times c o k = record {
  update_times = times;
  rib_times = ok.rib_times;
  res_cnt_right = c;
  res_open_cnt_right = o;
  checked_cnt_right = k;
}
IsGroup-list gp rib l cnt open_cnt checked ok times c o k = record {
  update_times = ok.update_times;
  rib_times = times;
  res_cnt_right = c;
  res_open_cnt_right = o;
  checked_cnt_right = k;
}

-- A group with another list that has the same counts.
IsGroup-same :
    (gp : ResGroup) (r : RecordType) (l : List ResListElem)
    → IsGroup gp
    → All (HasTime gp.time) l
    → SameCounts l (res_list gp r)
    → IsGroup (set_res_list gp r l)
IsGroup-same gp update l ok times same =
    IsGroup-list gp update l gp.res_cnt gp.res_open_cnt gp.res_open_checked_cnt ok times
      (omega (arith, ok.res_cnt_right, same.0)) (omega (arith, ok.res_open_cnt_right, same.1))
      (omega (arith, ok.checked_cnt_right, same.2))
IsGroup-same gp rib l ok times same =
    IsGroup-list gp rib l gp.res_cnt gp.res_open_cnt gp.res_open_checked_cnt ok times
      (omega (arith, ok.res_cnt_right, same.0)) (omega (arith, ok.res_open_cnt_right, same.1))
      (omega (arith, ok.checked_cnt_right, same.2))

module _ (q : ResourceMgr) (gp : ResGroup) (next : List ResGroup) (ok : IsResourceMgr q)
    (at : q.groups ≡ gp ∷ next) where
  ordered : IsOrdered 0 (gp ∷ next)
  ordered = subst (IsOrdered 0) at ok.ordered

  pub groups_right : All IsGroup (gp ∷ next)
  groups_right = subst (All IsGroup) at ok.groups_right

  held-at : (p : ResListElem → Bool) → held p q.groups ≡ held_in p gp + held p next
  held-at p = ap (held p) at

  pub with_list-IsResourceMgr :
      (r : RecordType) (l : List ResListElem)
      → All (HasTime gp.time) l
      → SameCounts l (res_list gp r)
      → IsResourceMgr (with_list q gp next r l)
        × (held any_elem (with_list q gp next r l).groups ≡ held any_elem q.groups)
  with_list-IsResourceMgr r l times same = (
    record {
      ordered = (
        omega arith,
        subst (λ n. IsOrdered (suc n) next) (sym (time-set_res_list gp r l)) ordered.1,
      );
      groups_right = (IsGroup-same gp r l groups_right.0 times same, groups_right.1);
      cnt_right =
          omega (arith, ok.cnt_right, held-at any_elem, held_in-list gp r any_elem l, same.0);
      open_cnt_right =
          omega
            (arith, ok.open_cnt_right, held-at has_reader, held_in-list gp r has_reader l, same.1);
      stream_cnt_right =
          omega
            (arith, ok.stream_cnt_right, held-at is_stream, held_in-list gp r is_stream l, same.3);
    },
    omega (arith, held-at any_elem, held_in-list gp r any_elem l, same.0),
  )

  -- The first element of a list is taken off the queue.
  module _ (el first : ResListElem) (rest : List ResListElem)
      (found : res_list gp el.res.record_type ≡ first ∷ rest) (opened : el.is_open ≡ true)
      (has : has_reader first ≡ true) (first_open : first.is_open ≡ true)
      (same_kind : is_stream first ≡ is_stream el) where
    abbrev left : ResGroup
    left = record (set_res_list gp el.res.record_type rest) {
      res_cnt = gp.res_cnt - 1;
      res_open_cnt = gp.res_open_cnt - 1;
      res_open_checked_cnt = gp.res_open_checked_cnt - 1;
    }

    abbrev popped : ResourceMgr
    popped = record {
      groups = if gp.res_cnt - 1 == 0 then next else left ∷ next;
      res_cnt = q.res_cnt - 1;
      res_open_cnt = q.res_open_cnt - 1;
      res_stream_cnt = q.res_stream_cnt - one_if (is_stream el);
    }

    pop_first-popped : pop_first q gp next el ≡ popped
    unfolding pop_first pop_res_el
    pop_first-popped = rw (found, opened)

    held_in-left :
        (p : ResListElem → Bool)
        → held_in p (set_res_list gp el.res.record_type rest) + one_if (p first) ≡ held_in p gp
    held_in-left p = omega (arith, held_in-list gp el.res.record_type p rest, ap (count p) found)

    reader_counted : one_if (has_reader first) ≡ 1
    reader_counted = ap one_if has

    open_counted : one_if (is_checked first) ≡ 1
    open_counted = rw (has, first_open)

    IsGroup-left : IsGroup left
    IsGroup-left =
        IsGroup-list gp el.res.record_type rest (gp.res_cnt - 1) (gp.res_open_cnt - 1)
          (gp.res_open_checked_cnt - 1) groups_right.0
          (subst (All (HasTime gp.time)) found (times-list gp el.res.record_type groups_right.0)).1
          (omega (arith, groups_right.0.res_cnt_right, held_in-left any_elem))
          (omega
            (arith, groups_right.0.res_open_cnt_right, held_in-left has_reader, reader_counted))
          (omega (arith, groups_right.0.checked_cnt_right, held_in-left is_checked, open_counted))

    held-popped :
        (p : ResListElem → Bool) → held p popped.groups + one_if (p first) ≡ held p q.groups
    held-popped p = elim (Bool-cases (gp.res_cnt - 1 == 0)) [
      | inl none_left ↦ rw none_left (
          omega (
            arith,
            held-at p,
            held_in-left p,
            held_in-left any_elem,
            groups_right.0.res_cnt_right,
            (==_iff _ _).0 none_left,
            none_of p,
          ))
      | inr some_left ↦ rw some_left (omega (arith, held-at p, held_in-left p))
    ]
      where
        none_of :
            (p : ResListElem → Bool)
            → held_in p (set_res_list gp el.res.record_type rest)
              ≤ held_in any_elem (set_res_list gp el.res.record_type rest)
        none_of p =
            let g = set_res_list gp el.res.record_type rest in
            omega (arith, count-le p g.update_list, count-le p g.rib_list)

    popped-IsResourceMgr : IsResourceMgr popped
    popped-IsResourceMgr = record {
      ordered = order;
      groups_right = right;
      cnt_right = omega (arith, ok.cnt_right, held-popped any_elem);
      open_cnt_right = omega (arith, ok.open_cnt_right, held-popped has_reader, reader_counted);
      stream_cnt_right =
          omega (arith, ok.stream_cnt_right, held-popped is_stream, ap one_if same_kind);
    }
      where
        order : IsOrdered 0 popped.groups
        order = elim (Bool-cases (gp.res_cnt - 1 == 0)) [
          | inl none_left ↦
              rw none_left (IsOrdered-weaken 0 (suc gp.time) next (omega arith) ordered.1)
          | inr some_left ↦ rw some_left (
              (
                omega arith,
                subst (λ n. IsOrdered (suc n) next)
                    (sym (time-set_res_list gp el.res.record_type rest)) ordered.1,
              ))
        ]

        right : All IsGroup popped.groups
        right = elim (Bool-cases (gp.res_cnt - 1 == 0)) [
          | inl none_left ↦ rw none_left groups_right.1
          | inr some_left ↦ rw some_left (IsGroup-left, groups_right.1)
        ]

    pub pop_first-IsResourceMgr :
        IsResourceMgr (pop_first q gp next el)
        × (held any_elem (pop_first q gp next el).groups + 1 ≡ held any_elem q.groups)
    pop_first-IsResourceMgr = rw pop_first-popped (popped-IsResourceMgr, held-popped any_elem)
