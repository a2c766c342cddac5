-- ===== src/ResourceMgr/Upkeep.antt =====
-- What bgpstream_resource_mgr_push and reap_groups of lib/bgpstream_resource_mgr.c keep true.
use libbgpstream.Prelude.{
  ℕ, suc, ◌≡◌, ◌≤◌, inl, inr, refl, ap, subst, false, sym, ◌∙◌, Bool, List, [], ◌∷◌, ◌==◌, arith,
  All, Bool-cases, ==_iff, ◌+◌, if◌then◌else◌,
}
use libbgpstream.ResourceMgr.{
  Resource, ResListElem, ResGroup, ResourceMgr, has_reader, res_list_elem_create, one_if,
}
use libbgpstream.ResourceMgr.Order.{IsOrdered}
use libbgpstream.ResourceMgr.Contents.{
  IsResourceMgr, IsGroup, insert-IsResourceMgr, insert-held, held, any_elem, is_stream, count,
}
use libbgpstream.ResourceMgr.Queue.{reap, reap_groups, RibFilter, wanted_resource, push}

-- A push keeps the queue's invariant, leaves the RIB filter as its test makes it, and says 1 if the
-- filter wants the resource and 0 if not. If it is wanted, the number of elements in the queue that
-- pass a test, whatever the test, grows by one if the closed element of the resource passes it, and
-- stays otherwise; if it is turned down, the number stays.
pub push-IsResourceMgr :
    (q : ResourceMgr) (f : RibFilter) (res : Resource)
    → IsResourceMgr q
    → IsResourceMgr (push q f res).0
      × ((push q f res).1 ≡ (wanted_resource res f).1)
      × ((push q f res).2 ≡ one_if (wanted_resource res f).0)
      × ((p : ResListElem → Bool)
          → held p (push q f res).0.groups
            ≡ held p q.groups
              + (if (wanted_resource res f).0 then one_if (p (res_list_elem_create res)) else 0))
unfolding push
push-IsResourceMgr q f res h = elim (Bool-cases (wanted_resource res f).0) [
  | inl wanted ↦ rw wanted (
    insert-IsResourceMgr q (res_list_elem_create res) h,
    refl,
    refl,
    λ p. insert-held q (res_list_elem_create res) p h.ordered,
  )
  | inr unwanted ↦ rw unwanted (h, refl, refl, λ p. omega arith)
]

pub IsOrdered-weaken :
    (low high : ℕ) (gs : List ResGroup) → low ≤ high → IsOrdered high gs → IsOrdered low gs
IsOrdered-weaken low high [] le h = tt
IsOrdered-weaken low high (g ∷ gs) le h = (omega (arith, h.0), h.1)

-- Reaping keeps the order and loses no resource.
reap-IsOrdered : (low : ℕ) (gs : List ResGroup) → IsOrdered low gs → IsOrdered low (reap gs)
unfolding reap
reap-IsOrdered low [] h = tt
reap-IsOrdered low (g ∷ gs) h = elim (Bool-cases (g.res_cnt == 0)) [
  | inl none_left ↦ rw none_left (
      IsOrdered-weaken low (suc g.time) (reap gs) (omega (arith, h.0))
        (reap-IsOrdered (suc g.time) gs h.1))
  | inr some_left ↦ rw some_left (h.0, reap-IsOrdered (suc g.time) gs h.1)
]

pub count-le : (p : ResListElem → Bool) (l : List ResListElem) → count p l ≤ count any_elem l
count-le p [] = omega arith
count-le p (e ∷ l) = ground (arith, count-le p l)

reap-held :
    (p : ResListElem → Bool) (gs : List ResGroup) → All IsGroup gs → held p (reap gs) ≡ held p gs
unfolding reap
reap-held p [] h = refl
reap-held p (g ∷ gs) h = elim (Bool-cases (g.res_cnt == 0)) [
  | inl none_left ↦ rw none_left (
      omega (
        arith,
        reap-held p gs h.1,
        h.0.res_cnt_right,
        (==_iff _ _).0 none_left,
        count-le p g.update_list,
        count-le p g.rib_list,
      ))
  | inr some_left ↦ rw some_left (omega (arith, reap-held p gs h.1))
]

reap-IsGroup : (gs : List ResGroup) → All IsGroup gs → All IsGroup (reap gs)
unfolding reap
reap-IsGroup [] h = tt
reap-IsGroup (g ∷ gs) h = elim (Bool-cases (g.res_cnt == 0)) [
  | inl none_left ↦ rw none_left (reap-IsGroup gs h.1)
  | inr some_left ↦ rw some_left (h.0, reap-IsGroup gs h.1)
]

reap-some_left : (gs : List ResGroup) → All (λ g. (g.res_cnt == 0) ≡ false) (reap gs)
unfolding reap
reap-some_left [] = tt
reap-some_left (g ∷ gs) = elim (Bool-cases (g.res_cnt == 0)) [
  | inl none_left ↦ rw none_left (reap-some_left gs)
  | inr some_left ↦
      subst (All (λ h. (h.res_cnt == 0) ≡ false))
        (sym (ap (λ b. if b then reap gs else g ∷ reap gs) some_left))
        (some_left, reap-some_left gs)
]

-- On a queue with the invariant, removing the groups that are counted empty keeps the
-- invariant, and the number of elements that pass any test, and leaves no group that is counted
-- empty.
pub reap_groups-IsResourceMgr :
    (q : ResourceMgr)
    → IsResourceMgr q
    → IsResourceMgr (reap_groups q)
      × ((p : ResListElem → Bool) → held p (reap_groups q).groups ≡ held p q.groups)
      × All (λ g. (g.res_cnt == 0) ≡ false) (reap_groups q).groups
unfolding reap_groups
reap_groups-IsResourceMgr q h = (
  record {
    ordered = reap-IsOrdered 0 q.groups h.ordered;
    groups_right = reap-IsGroup q.groups h.groups_right;
    cnt_right = h.cnt_right ∙ sym (reap-held any_elem q.groups h.groups_right);
    open_cnt_right = h.open_cnt_right ∙ sym (reap-held has_reader q.groups h.groups_right);
    stream_cnt_right = h.stream_cnt_right ∙ sym (reap-held is_stream q.groups h.groups_right);
  },
  λ p. reap-held p q.groups h.groups_right,
  reap-some_left q.groups,
)
