-- ===== src/ResourceMgr/Queue.antt =====
-- Taking from the queue and filling it: pop_res_el, reap_groups, the extent of open_batch,
-- wanted_resource and the public functions of lib/bgpstream_resource_mgr.c.
use libbgpstream.Prelude.{
  ℕ, zero, suc, ◌+◌, ◌-◌, ◌%◌, ◌^◌, Bool, true, false, ◌&&◌, Option, none, some, List, [], ◌∷◌, ltb,
  leb, ◌==◌, if◌then◌else◌, ◌++◌, take,
}
use libbgpstream.Libc.{strcmp_eq}
use libbgpstream.ResourceMgr.{
  RecordType, update, rib, Resource, ResListElem, ResGroup, ResourceMgr, forever, one_if, res_list,
  set_res_list, is_empty, insert_resource_elem, res_list_elem_create,
}

-- The n-th element of a list taken off it.
abbrev unlinked : ℕ → List ResListElem → List ResListElem
unlinked n [] = []
unlinked zero (e ∷ l) = l
unlinked (suc n) (e ∷ l) = e ∷ unlinked n l

-- `el` is the n-th element of its list in the group; the counters are `int`s that assertions keep
-- from going below zero.
unfoldable pub pop_res_el : ResourceMgr → ResGroup → ℕ → ResListElem → ResourceMgr × ResGroup
pop_res_el q gp n el =
    let r = el.res.record_type in
    let opened = one_if el.is_open in
    (
      record q {
        res_cnt = q.res_cnt - 1;
        res_open_cnt = q.res_open_cnt - opened;
        res_stream_cnt = q.res_stream_cnt - one_if (el.res.duration == forever);
      },
      record (set_res_list gp r (unlinked n (res_list gp r))) {
        res_cnt = gp.res_cnt - 1;
        res_open_cnt = gp.res_open_cnt - opened;
        res_open_checked_cnt = gp.res_open_checked_cnt - opened;
      },
    )

-- The groups that still hold a resource.
unfoldable pub reap : List ResGroup → List ResGroup
reap [] = []
reap (gp ∷ nxt) = if gp.res_cnt == 0 then reap nxt else gp ∷ reap nxt

unfoldable pub reap_groups : ResourceMgr → ResourceMgr
unfolding reap
reap_groups q = record q { groups = reap q.groups }

-- How many groups open_batch opens from the one it is given: those before the first that does not
-- overlap. `end` is `last_overlap_end`.
batch_rest : ℕ → ℕ → List ResGroup → ℕ
batch_rest original_time end [] = 0
batch_rest original_time end (cur ∷ next) =
    let longer = ltb end cur.overlap_end && leb cur.time original_time in
    let further = batch_rest original_time (if longer then cur.overlap_end else end) next in
    if ltb cur.overlap_start end then suc further else 0

unfoldable pub batch_length : List ResGroup → ℕ
unfolding batch_rest
batch_length [] = 0
batch_length (cur ∷ next) = suc (batch_rest cur.time cur.overlap_end next)

-- `last_processed_ts`, by the text that `ts_key` makes, and `rib_period`.
pub record RibFilter : Type 0 where
  pub rib_period : ℕ
  pub last_processed_ts : List (List ℕ × ℕ)

-- BUFFER_LEN, with the terminator.
abbrev pub buffer_len : ℕ
buffer_len = 1024

-- `snprintf(buffer, BUFFER_LEN, "%s.%s", ...)`; 46 is the point.
abbrev pub ts_key : Resource → List ℕ
ts_key res = take (buffer_len - 1) (res.project ++ (46 ∷ res.collector))

unfoldable pub last_ts : List (List ℕ × ℕ) → List ℕ → Option ℕ
unfolding strcmp_eq
last_ts [] key = none
last_ts ((k, ts) ∷ rest) key = if strcmp_eq k key then some ts else last_ts rest key

unfoldable pub set_ts : RibFilter → Resource → RibFilter
set_ts f res = record f { last_processed_ts = (ts_key res, res.initial_time) ∷ f.last_processed_ts }

unfoldable pub by_last_ts : Resource → RibFilter → Option ℕ → Bool × RibFilter
unfolding set_ts
by_last_ts res f none = (true, set_ts f res)
by_last_ts res f (some ts) =
    if ltb res.initial_time ((ts + f.rib_period) % 2 ^ 32) then (false, f) else (true, set_ts f res)

unfoldable pub wanted_at : RecordType → Resource → RibFilter → Bool × RibFilter
unfolding by_last_ts last_ts
wanted_at update res f = (true, f)
wanted_at rib res f =
    if f.rib_period == 0
    then (true, f)
    else by_last_ts res f (last_ts f.last_processed_ts (ts_key res))

-- Whether the resource is wanted; a RIB that is leaves its time. The sum is of `uint32_t`s.
unfoldable pub wanted_resource : Resource → RibFilter → Bool × RibFilter
unfolding wanted_at
wanted_resource res f = wanted_at res.record_type res f

-- 1 if the resource is kept, 0 if the filter turns it down.
unfoldable pub push : ResourceMgr → RibFilter → Resource → ResourceMgr × RibFilter × ℕ
unfolding insert_resource_elem wanted_resource
push q f res =
    let (wanted, f') = wanted_resource res f in
    if wanted then ((insert_resource_elem q (res_list_elem_create res)).0, f', 1) else (q, f', 0)

unfoldable pub empty : ResourceMgr → Bool
empty q = is_empty q.groups

unfoldable pub stream_only : ResourceMgr → Bool
stream_only q = q.res_stream_cnt == q.res_cnt
