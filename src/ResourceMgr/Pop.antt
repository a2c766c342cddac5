-- ===== src/ResourceMgr/Pop.antt =====
-- pop_record of lib/bgpstream_resource_mgr.c: a record of the first resource of the queue. What its
-- reader does is the outcome of bgpstream_reader_get_next_record, with the time of the record after. An error
-- comes before the reader has another time.
pub mod Kept
pub mod Reads
use libbgpstream.Prelude.{
  ℕ, ◌+◌, ◌-◌, ◌*◌, ◌%◌, ◌^◌, Bool, ◌&&◌, Option, none, some, List, [], ◌∷◌, ◌++◌, ltb, ◌==◌,
  if◌then◌else◌,
}
use libbgpstream.Reader.{ReaderStatus, reader_error, eos, again, reader_ok}
use libbgpstream.ResourceMgr.{
  RecordType, update, rib, ResListElem, ResGroup, ResourceMgr, get_next_time, res_list,
  set_res_list, insert_resource_elem,
}
use libbgpstream.ResourceMgr.Queue.{pop_res_el}

-- With the time that the reader has for its next record after the call.
pub data Reading : Type 0 where
  read_error read_eos : Reading
  read_again read_ok : ℕ → Reading

-- AGAIN_POLL_INTERVAL, in milliseconds.
abbrev pub again_poll_interval : ℕ
again_poll_interval = 100

-- The list that is read from: that of the RIBs, unless it is empty.
abbrev pub first_type : ResGroup → RecordType
first_type gp = elim gp.rib_list [ [] ↦ update | e ∷ l ↦ rib ]

-- The nanoseconds of the sleep before a poll; the product is one of `uint32_t`s.
unfoldable pub sleep_nsec : ResListElem → ℕ → ℕ
sleep_nsec el now = if ltb now el.next_poll then (el.next_poll - now) * 1000000 % 2 ^ 32 else 0

-- The queue without the first element `el` of the list, and without the group if that was its last.
unfoldable pub pop_first : ResourceMgr → ResGroup → List ResGroup → ResListElem → ResourceMgr
unfolding pop_res_el
pop_first q gp next el =
    let (q', gp') = pop_res_el q gp 0 el in
    record q' { groups = if gp'.res_cnt == 0 then next else gp' ∷ next }

-- The queue with another list in place of the one that is read from.
abbrev pub with_list :
    ResourceMgr → ResGroup → List ResGroup → RecordType → List ResListElem → ResourceMgr
with_list q gp next r l = record q { groups = set_res_list gp r l ∷ next }

-- `el` is the first of the list, `rest` what follows it; `now` is the time of the poll.
unfoldable pub after_reading :
    ResourceMgr
    → ResGroup
    → List ResGroup
    → ResListElem
    → List ResListElem
    → ℕ
    → Reading
    → ResourceMgr × ReaderStatus
unfolding pop_first insert_resource_elem
after_reading q gp next el rest now read_error =
    (with_list q gp next el.res.record_type (el ∷ rest), reader_error)
after_reading q gp next el rest now (read_again time) = (
  with_list q gp next el.res.record_type (
      rest
      ++ (record el { reader = some time; next_poll = (now + again_poll_interval) % 2 ^ 32 } ∷ [])),
  again,
)
after_reading q gp next el rest now read_eos = (pop_first q gp next el, eos)
after_reading q gp next el rest now (read_ok time) =
    let el' = record el { reader = some time } in
    if time == get_next_time el
    then (with_list q gp next el.res.record_type (el' ∷ rest), reader_ok)
    else ((insert_resource_elem (pop_first q gp next el) el').0, reader_ok)

-- The first resource is read; an interrupted sleep is an error. None on a queue or a group with
-- nothing in it, which the source does not look for.
unfoldable pub pop_list :
    ResourceMgr
    → ResGroup
    → List ResGroup
    → List ResListElem
    → Bool
    → ℕ
    → Reading
    → Option (ResourceMgr × ReaderStatus)
unfolding after_reading
pop_list q gp next [] interrupted now reading = none
pop_list q gp next (el ∷ rest) interrupted now reading =
    if ltb now el.next_poll && interrupted
    then some (q, reader_error)
    else some (after_reading q gp next (record el { next_poll = 0 }) rest now reading)

abbrev pub pop_groups :
    ResourceMgr → List ResGroup → Bool → ℕ → Reading → Option (ResourceMgr × ReaderStatus)
pop_groups q [] interrupted now reading = none
pop_groups q (gp ∷ next) interrupted now reading =
    pop_list q gp next (res_list gp (first_type gp)) interrupted now reading

unfoldable pub pop_record : ResourceMgr → Bool → ℕ → Reading → Option (ResourceMgr × ReaderStatus)
unfolding pop_list
pop_record q interrupted now reading = pop_groups q q.groups interrupted now reading
