-- ===== src/ResourceMgr/Contents.antt =====
-- insert_resource_elem of lib/bgpstream_resource_mgr.c: what the queue holds, and its counters.
use libbgpstream.Prelude.{
  ℕ, ◌+◌, ◌≡◌, inl, inr, refl, sym, ap, subst, ◌∙◌, Bool, true, List, [], ◌∷◌, ltb, ◌==◌, ◌&&◌,
  arith, All, Bool-cases, ==_iff,
}
use libbgpstream.ResourceMgr.{
  ResGroup, ResListElem, RecordType, update, rib, set_res_list, res_list, ResourceMgr,
  get_next_time, has_reader, push_from_head, res_group_create, res_group_add, link, new_group,
  update_overlap, insert_resource_elem, one_if, forever,
}
use libbgpstream.ResourceMgr.Order.{
  IsOrdered, push_groups-head, insert-IsOrdered, time-create, time-add,
}

-- How many elements pass a test.
abbrev pub count : (ResListElem → Bool) → List ResListElem → ℕ
count p [] = 0
count p (e ∷ l) = one_if (p e) + count p l

abbrev pub held_in : (ResListElem → Bool) → ResGroup → ℕ
held_in p g = count p g.update_list + count p g.rib_list

abbrev pub held : (ResListElem → Bool) → List ResGroup → ℕ
held p [] = 0
held p (g ∷ gs) = held_in p g + held p gs

abbrev pub any_elem : ResListElem → Bool
any_elem el = true

abbrev pub is_stream : ResListElem → Bool
is_stream el = el.res.duration == forever

-- An open reader: the elements that `res_open_checked_cnt` counts.
abbrev pub is_checked : ResListElem → Bool
is_checked el = has_reader el && el.is_open

-- The elements of a group have its time, and its counters count them.
pub record IsGroup (g : ResGroup) : Type 0 where
  pub update_times : All (λ e. get_next_time e ≡ g.time) g.update_list
  pub rib_times : All (λ e. get_next_time e ≡ g.time) g.rib_list
  pub res_cnt_right : g.res_cnt ≡ held_in any_elem g
  pub res_open_cnt_right : g.res_open_cnt ≡ held_in has_reader g
  pub checked_cnt_right : g.res_open_checked_cnt ≡ held_in is_checked g

held_in-link :
    (p : ResListElem → Bool) (g : ResGroup) (el : ResListElem) (r : RecordType)
    → held_in p (set_res_list g r (el ∷ res_list g r)) ≡ held_in p g + one_if (p el)
held_in-link p g el update = omega arith
held_in-link p g el rib = omega arith

abbrev Times : ℕ → ResGroup → Type 0
Times n g = All (λ e. get_next_time e ≡ n) g.update_list × All (λ e. get_next_time e ≡ n) g.rib_list

Times-link :
    (n : ℕ) (g : ResGroup) (el : ResListElem) (r : RecordType)
    → get_next_time el ≡ n
    → Times n g
    → Times n (set_res_list g r (el ∷ res_list g r))
Times-link n g el update at h = ((at, h.0), h.1)
Times-link n g el rib at h = (h.0, (at, h.1))

res_cnt-set_res_list :
    (g : ResGroup) (r : RecordType) (l : List ResListElem)
    → (set_res_list g r l).res_cnt ≡ g.res_cnt
res_cnt-set_res_list g update l = refl
res_cnt-set_res_list g rib l = refl

module _ (el : ResListElem) where
  held-create : (p : ResListElem → Bool) → held_in p (res_group_create el) ≡ one_if (p el)
  unfolding res_group_create update_overlap new_group link
  held-create p =
      held_in-link p (update_overlap (new_group (get_next_time el)) el) el el.res.record_type
      ∙ omega arith

  held-add :
      (p : ResListElem → Bool) (g : ResGroup)
      → held_in p (res_group_add g el).0 ≡ held_in p g + one_if (p el)
  unfolding res_group_add update_overlap link
  held-add p g = held_in-link p (update_overlap g el) el el.res.record_type

  res_cnt-create : (res_group_create el).res_cnt ≡ 1
  unfolding res_group_create update_overlap new_group link
  res_cnt-create = res_cnt-set_res_list _ el.res.record_type _

  open-create : (res_group_create el).res_open_cnt ≡ one_if (has_reader el)
  unfolding res_group_create update_overlap new_group link
  open-create = omega arith

  checked-create : (res_group_create el).res_open_checked_cnt ≡ one_if (is_checked el)
  unfolding res_group_create update_overlap new_group link
  checked-create = omega arith

  Times-create : Times (get_next_time el) (res_group_create el)
  unfolding res_group_create update_overlap new_group link
  Times-create =
      Times-link (get_next_time el) (update_overlap (new_group (get_next_time el)) el) el
        el.res.record_type refl (tt, tt)

  IsGroup-create : IsGroup (res_group_create el)
  IsGroup-create = record {
    update_times =
        (subst (λ n. Times n (res_group_create el)) (sym (time-create el)) Times-create).0;
    rib_times = (subst (λ n. Times n (res_group_create el)) (sym (time-create el)) Times-create).1;
    res_cnt_right = res_cnt-create ∙ sym (held-create any_elem);
    res_open_cnt_right = open-create ∙ sym (held-create has_reader);
    checked_cnt_right = checked-create ∙ sym (held-create is_checked);
  }

  counts-add :
      (g : ResGroup)
      → ((res_group_add g el).0.res_cnt ≡ g.res_cnt + 1)
        × ((res_group_add g el).0.res_open_cnt ≡ g.res_open_cnt + one_if (has_reader el))
        × ((res_group_add g el).0.res_open_checked_cnt
            ≡ g.res_open_checked_cnt + one_if (is_checked el))
  unfolding res_group_add update_overlap link
  counts-add g = (refl, refl, refl)

  Times-add :
      (g : ResGroup) (n : ℕ) → get_next_time el ≡ n → Times n g → Times n (res_group_add g el).0
  unfolding res_group_add update_overlap link
  Times-add g n at h = Times-link n (update_overlap g el) el el.res.record_type at h

  IsGroup-add :
      (g : ResGroup) → IsGroup g → g.time ≡ get_next_time el → IsGroup (res_group_add g el).0
  IsGroup-add g ok at = record {
    update_times = times.0;
    rib_times = times.1;
    res_cnt_right = omega (arith, (counts-add g).0, ok.res_cnt_right, held-add any_elem g);
    res_open_cnt_right =
        omega (arith, (counts-add g).1, ok.res_open_cnt_right, held-add has_reader g);
    checked_cnt_right =
        omega (arith, (counts-add g).2, ok.checked_cnt_right, held-add is_checked g);
  }
    where
      times : Times (res_group_add g el).0.time (res_group_add g el).0
      times =
          subst (λ n. Times n (res_group_add g el).0) (sym (time-add el g))
            (Times-add g g.time (sym at) (ok.update_times, ok.rib_times))

  held-push :
      (p : ResListElem → Bool) (gs : List ResGroup)
      → held p (push_from_head el gs).0 ≡ held p gs + one_if (p el)
  unfolding push_from_head
  held-push p [] = omega (arith, held-create p)
  held-push p (g ∷ gs) = elim (Bool-cases (ltb g.time (get_next_time el))) [
    | inl before ↦ rw before (omega (arith, held-push p gs))
    | inr not_before ↦ elim (Bool-cases (g.time == get_next_time el)) [
      | inl at ↦ rw (not_before, at) (omega (arith, held-add p g))
      | inr after ↦ rw (not_before, after) (omega (arith, held-create p))
    ]
  ]

  groups-push : (gs : List ResGroup) → All IsGroup gs → All IsGroup (push_from_head el gs).0
  unfolding push_from_head
  groups-push [] h = (IsGroup-create, tt)
  groups-push (g ∷ gs) h = elim (Bool-cases (ltb g.time (get_next_time el))) [
    | inl before ↦ rw before (h.0, groups-push gs h.1)
    | inr not_before ↦ elim (Bool-cases (g.time == get_next_time el)) [
      | inl at ↦ rw (not_before, at) (IsGroup-add g h.0 ((==_iff _ _).0 at), h.1)
      | inr after ↦ rw (not_before, after) (IsGroup-create, (h.0, h.1))
    ]
  ]

-- The queue is in order, its groups are right, and its counters count what it holds.
pub record IsResourceMgr (q : ResourceMgr) : Type 0 where
  pub ordered : IsOrdered 0 q.groups
  pub groups_right : All IsGroup q.groups
  pub cnt_right : q.res_cnt ≡ held any_elem q.groups
  pub open_cnt_right : q.res_open_cnt ≡ held has_reader q.groups
  pub stream_cnt_right : q.res_stream_cnt ≡ held is_stream q.groups

-- On a queue in order, for every test of elements, an insertion raises the number of elements
-- in the queue that pass it by one if the new element passes it, and leaves it otherwise.
pub insert-held :
    (q : ResourceMgr) (el : ResListElem) (p : ResListElem → Bool)
    → IsOrdered 0 q.groups
    → held p (insert_resource_elem q el).0.groups ≡ held p q.groups + one_if (p el)
unfolding insert_resource_elem
insert-held q el p h =
    ap (λ r. held p r.0) (push_groups-head el q.groups h) ∙ held-push el p q.groups

counters :
    (q : ResourceMgr) (el : ResListElem)
    → ((insert_resource_elem q el).0.res_cnt ≡ q.res_cnt + 1)
      × ((insert_resource_elem q el).0.res_open_cnt ≡ q.res_open_cnt + one_if (has_reader el))
      × ((insert_resource_elem q el).0.res_stream_cnt ≡ q.res_stream_cnt + one_if (is_stream el))
unfolding insert_resource_elem
counters q el = (refl, refl, refl)

groups_after :
    (q : ResourceMgr) (el : ResListElem)
    → IsResourceMgr q
    → All IsGroup (insert_resource_elem q el).0.groups
unfolding insert_resource_elem
groups_after q el h =
    subst (λ r. All IsGroup r.0) (sym (push_groups-head el q.groups h.ordered))
      (groups-push el q.groups h.groups_right)

-- An insertion keeps the queue's invariant: the groups in the order of time, every element in
-- the group of its time, and right counters: of the elements, of the readers and of the open readers
-- of each group, and of the elements, the readers and the streams of the queue.
pub insert-IsResourceMgr :
    (q : ResourceMgr) (el : ResListElem)
    → IsResourceMgr q
    → IsResourceMgr (insert_resource_elem q el).0
insert-IsResourceMgr q el h = record {
  ordered = insert-IsOrdered q el h.ordered;
  groups_right = groups_after q el h;
  cnt_right = omega (arith, (counters q el).0, h.cnt_right, insert-held q el any_elem h.ordered);
  open_cnt_right =
      omega (arith, (counters q el).1, h.open_cnt_right, insert-held q el has_reader h.ordered);
  stream_cnt_right =
      omega (arith, (counters q el).2, h.stream_cnt_right, insert-held q el is_stream h.ordered);
}
