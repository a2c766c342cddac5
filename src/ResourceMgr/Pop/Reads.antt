-- ===== src/ResourceMgr/Pop/Reads.antt =====
-- pop_record of lib/bgpstream_resource_mgr.c: what becomes of the queue, and which resource is read.
use libbgpstream.Prelude.{
  ℕ, suc, ◌+◌, ◌%◌, ◌^◌, ◌≤◌, ◌<◌, ◌≡◌, refl, sym, ap, subst, ◌∙◌, inl, inr, Bool, true, false,
  ◌&&◌, some, List, [], ◌∷◌, ◌++◌, arith, ltb, ◌==◌, All, All-append, Bool-cases, ==_iff,
}
use libbgpstream.Reader.{ReaderStatus, reader_error, eos, again, reader_ok}
use libbgpstream.ResourceMgr.{
  ResListElem, ResGroup, ResourceMgr, get_next_time, has_reader, res_list, one_if,
}
use libbgpstream.ResourceMgr.Order.{IsOrdered, All-after}
use libbgpstream.ResourceMgr.Contents.{
  IsResourceMgr, IsGroup, insert-IsResourceMgr, insert-held, held, any_elem, is_stream, is_checked,
  count,
}
use libbgpstream.ResourceMgr.Pop.Kept.{
  HasTime, groups_right, times-list, with_list-IsResourceMgr, pop_first-IsResourceMgr,
}
use libbgpstream.ResourceMgr.Pop.{
  Reading, read_error, read_again, read_eos, read_ok, first_type, pop_first, with_list,
  after_reading, pop_list, pop_groups, pop_record, again_poll_interval,
}

abbrev pub is_eos : ReaderStatus → Bool
is_eos eos = true
is_eos _ = false

count-append :
    (p : ResListElem → Bool) (l m : List ResListElem) → count p (l ++ m) ≡ count p l + count p m
count-append p [] m = omega arith
count-append p (e ∷ l) m = omega (arith, count-append p l m)

-- From a queue, the result is one with the invariant that has lost one resource at the end of its
-- data and none otherwise.
abbrev pub Keeps : ResourceMgr → ResourceMgr × ReaderStatus → Type 0
Keeps q x =
    IsResourceMgr x.0 × (held any_elem x.0.groups + one_if (is_eos x.1) ≡ held any_elem q.groups)

no_eos :
    (q x : ResourceMgr) (s : ReaderStatus)
    → is_eos s ≡ false
    → IsResourceMgr x × (held any_elem x.groups ≡ held any_elem q.groups)
    → Keeps q (x, s)
no_eos q x s e h = rw e (h.0, omega (arith, h.1))

checked : (el : ResListElem) → has_reader el ≡ true → el.is_open ≡ true → one_if (is_checked el) ≡ 1
checked el has opened = rw (has, opened)

-- A reader that says AGAIN still has the time of its element.
abbrev pub SameTime : Reading → ResListElem → Type 0
SameTime (read_again time) el = time ≡ get_next_time el
SameTime _ el = Unit

module _ (q : ResourceMgr) (gp : ResGroup) (next : List ResGroup) (ok : IsResourceMgr q)
    (at : q.groups ≡ gp ∷ next) (first : ResListElem) (rest : List ResListElem)
    (found : res_list gp first.res.record_type ≡ first ∷ rest) (opened : first.is_open ≡ true)
    (has : has_reader first ≡ true) where
  abbrev polled : ResListElem
  polled = record first { next_poll = 0 }

  times : All (HasTime gp.time) (first ∷ rest)
  times =
      subst (All (HasTime gp.time)) found
        (times-list gp first.res.record_type (groups_right q gp next ok at).0)

  -- An element in place of the first, at the start of the list or at its end.
  first-Keeps :
      (el : ResListElem)
      → get_next_time el ≡ gp.time
      → has_reader el ≡ true
      → el.is_open ≡ true
      → el.res ≡ first.res
      → IsResourceMgr (with_list q gp next first.res.record_type (el ∷ rest))
        × (held any_elem (with_list q gp next first.res.record_type (el ∷ rest)).groups
            ≡ held any_elem q.groups)
  first-Keeps el time reads el_open same =
      with_list-IsResourceMgr q gp next ok at first.res.record_type (el ∷ rest) (time, times.1)
        (
          omega (arith, ap (count any_elem) found),
          omega (arith, ap (count has_reader) found, ap one_if has, ap one_if reads),
          omega (
            arith,
            ap (count is_checked) found,
            checked first has opened,
            checked el reads el_open,
          ),
          omega (arith, ap (count is_stream) found, ap (λ r. one_if (r.duration == 0)) same),
        )

  last-Keeps :
      (el : ResListElem)
      → get_next_time el ≡ gp.time
      → has_reader el ≡ true
      → el.is_open ≡ true
      → el.res ≡ first.res
      → IsResourceMgr (with_list q gp next first.res.record_type (rest ++ (el ∷ [])))
        × (held any_elem (with_list q gp next first.res.record_type (rest ++ (el ∷ []))).groups
            ≡ held any_elem q.groups)
  last-Keeps el time reads el_open same =
      with_list-IsResourceMgr q gp next ok at first.res.record_type (rest ++ (el ∷ []))
        (All-append (HasTime gp.time) rest (el ∷ []) times.1 (time, tt))
        (
          omega (arith, ap (count any_elem) found, count-append any_elem rest (el ∷ [])),
          omega (
            arith,
            ap (count has_reader) found,
            count-append has_reader rest (el ∷ []),
            ap one_if has,
            ap one_if reads,
          ),
          omega (
            arith,
            ap (count is_checked) found,
            count-append is_checked rest (el ∷ []),
            checked first has opened,
            checked el reads el_open,
          ),
          omega (
            arith,
            ap (count is_stream) found,
            count-append is_stream rest (el ∷ []),
            ap (λ r. one_if (r.duration == 0)) same,
          ),
        )

  popped-first :
      IsResourceMgr (pop_first q gp next polled)
      × (held any_elem (pop_first q gp next polled).groups + 1 ≡ held any_elem q.groups)
  popped-first =
      pop_first-IsResourceMgr q gp next ok at polled first rest found opened has opened refl

  after_reading-Keeps :
      (now : ℕ) (reading : Reading)
      → SameTime reading first
      → Keeps q (after_reading q gp next polled rest now reading)
  unfolding after_reading
  after_reading-Keeps now read_error same =
      no_eos q _ reader_error refl (first-Keeps polled times.0 has opened refl)
  after_reading-Keeps now (read_again time) same = no_eos q _ again refl (
      last-Keeps
        (record polled { reader = some time; next_poll = (now + again_poll_interval) % 2 ^ 32 })
        (same ∙ times.0) refl opened refl)
  after_reading-Keeps now read_eos same = popped-first
  after_reading-Keeps now (read_ok time) _ =
      let el : ResListElem = record polled { reader = some time } in
      let taken = popped-first in
      elim (Bool-cases (time == get_next_time polled)) [
        | inl same ↦ rw same (
            no_eos q _ reader_ok refl
              (first-Keeps el ((==_iff _ _).0 same ∙ times.0) refl opened refl))
        | inr later ↦ rw later (
            no_eos q _ reader_ok refl (
              insert-IsResourceMgr (pop_first q gp next polled) el taken.0,
              insert-held (pop_first q gp next polled) el any_elem taken.0.ordered ∙ taken.1,
            ))
      ]

-- `el` has the earliest time of all elements in the groups.
abbrev pub IsEarliest : ResListElem → List ResGroup → Type 0
IsEarliest el gs =
    All
      (λ g.
        All (λ e. get_next_time el ≤ get_next_time e) g.update_list
        × All (λ e. get_next_time el ≤ get_next_time e) g.rib_list)
      gs

later_list :
    (n m : ℕ) (l : List ResListElem) → n ≤ m → All (HasTime m) l → All (λ e. n ≤ get_next_time e) l
later_list n m [] le h = tt
later_list n m (e ∷ l) le h = (omega (arith, h.0), later_list n m l le h.1)

groups-IsEarliest :
    (el : ResListElem) (gs : List ResGroup)
    → All IsGroup gs
    → All (λ g. get_next_time el ≤ g.time) gs
    → IsEarliest el gs
groups-IsEarliest el [] ok h = tt
groups-IsEarliest el (g ∷ gs) ok h = (
  (
    later_list (get_next_time el) g.time g.update_list h.0 ok.0.update_times,
    later_list (get_next_time el) g.time g.rib_list h.0 ok.0.rib_times,
  ),
  groups-IsEarliest el gs ok.1 h.1,
)

-- The first list that is not empty, of the first group, starts with an open resource of its type.
pub record IsReady (q : ResourceMgr) : Type 0 where
  pub gp : ResGroup
  pub next : List ResGroup
  pub first : ResListElem
  pub rest : List ResListElem
  pub at : q.groups ≡ gp ∷ next
  pub found : res_list gp (first_type gp) ≡ first ∷ rest
  pub type_right : first.res.record_type ≡ first_type gp
  pub first_open : first.is_open ≡ true
  pub has : has_reader first ≡ true

after : (t : ℕ) (gs : List ResGroup) → All (λ g. t < g.time) gs → All (λ g. t ≤ g.time) gs
after t [] h = tt
after t (g ∷ gs) h = (omega (arith, h.0), after t gs h.1)

first-IsEarliest :
    (q : ResourceMgr) → IsResourceMgr q → (ready : IsReady q) → IsEarliest ready.first q.groups
first-IsEarliest q ok ready =
    let ordered : IsOrdered 0 (ready.gp ∷ ready.next) = subst (IsOrdered 0) ready.at ok.ordered in
    let right = groups_right q ready.gp ready.next ok ready.at in
    let own : get_next_time ready.first ≡ ready.gp.time =
      (subst (All (HasTime ready.gp.time)) ready.found
        (times-list ready.gp (first_type ready.gp) right.0)).0 in
    subst (IsEarliest ready.first) (sym ready.at) (
      groups-IsEarliest ready.first (ready.gp ∷ ready.next) right (
        omega (arith, own),
        subst (λ t. All (λ g. t ≤ g.time) ready.next) (sym own)
            (after ready.gp.time ready.next
              (All-after (suc ready.gp.time) ready.gp.time ready.next (omega arith) ordered.1)),
      ))

pop_list-Keeps :
    (q : ResourceMgr) (ok : IsResourceMgr q) (ready : IsReady q) (interrupted : Bool) (now : ℕ)
    (reading : Reading)
    → SameTime reading ready.first
    → (x : ResourceMgr × ReaderStatus) × (pop_list q ready.gp ready.next
          (ready.first ∷ ready.rest)
          interrupted
          now
          reading
        ≡ some x)
      × Keeps q x
unfolding pop_list
pop_list-Keeps q ok ready interrupted now reading same =
    elim (Bool-cases (ltb now ready.first.next_poll && interrupted)) [
      | inl stops ↦ ((q, reader_error), rw stops, (ok, omega arith))
      | inr goes ↦ (
        after_reading q ready.gp ready.next (record ready.first { next_poll = 0 }) ready.rest now
            reading,
        rw goes,
        after_reading-Keeps q ready.gp ready.next ok ready.at ready.first ready.rest
            (ap (res_list ready.gp) ready.type_right ∙ ready.found) ready.first_open ready.has now
            reading same,
      )
    ]

-- Take a queue with the invariant whose first group has an open resource of the right type at the
-- start of the list that is read from. Whatever the reader says, as long as an AGAIN leaves it the
-- time that it had, and also if the sleep is interrupted, the call comes to a result, which keeps the
-- invariant and loses one resource where the reader has reached its end, and none otherwise; and the
-- resource read had the earliest time of all.
pub pop_record-Keeps :
    (q : ResourceMgr) (interrupted : Bool) (now : ℕ) (reading : Reading)
    → IsResourceMgr q
    → (ready : IsReady q) → SameTime reading ready.first
    → ((x : ResourceMgr × ReaderStatus) × (pop_record q interrupted now reading ≡ some x)
        × Keeps q x)
      × IsEarliest ready.first q.groups
unfolding pop_record
pop_record-Keeps q interrupted now reading ok ready same =
    let (x, run, keeps) = pop_list-Keeps q ok ready interrupted now reading same in
    (
      (
        x,
        ap (λ gs. pop_groups q gs interrupted now reading) ready.at
            ∙ ap (λ l. pop_list q ready.gp ready.next l interrupted now reading) ready.found
            ∙ run,
        keeps,
      ),
      first-IsEarliest q ok ready,
    )
