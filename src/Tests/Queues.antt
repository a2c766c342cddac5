-- ===== src/Tests/Queues.antt =====
-- The queue of resources.
use libbgpstream.Prelude.{
  ℕ, ◌==◌, ◌+◌, ◌%◌, ◌^◌, ◌≡◌, refl, Bool, true, false, some, not, ltb, if◌then◌else◌, [], All,
  arith, ◌∷◌,
}
use mathlib.Core.List.{reverse}
use libbgpstream.Libc.{codes, strcmp_eq}
use libbgpstream.ResourceMgr.{
  RecordType, update, rib, Resource, ResListElem, ResGroup, ResourceMgr, create,
  res_list_elem_create, insert_resource_elem, res_group_create, push_from_head, push_from_tail,
  one_if,
}
use libbgpstream.ResourceMgr.Order.{push_from_either_end}
use libbgpstream.ResourceMgr.Contents.{
  IsResourceMgr, insert-IsResourceMgr, insert-held, held, any_elem,
}
use libbgpstream.ResourceMgr.Queue.{
  RibFilter, push, reap_groups, wanted_resource, batch_length, ts_key,
}
use libbgpstream.ResourceMgr.Upkeep.{push-IsResourceMgr, reap_groups-IsResourceMgr}
use libbgpstream.ResourceMgr.Pop.{read_ok, read_again, pop_record}
use libbgpstream.ResourceMgr.Pop.Reads.{Keeps, IsEarliest, IsReady, pop_record-Keeps}
use libbgpstream.Reader.{ReaderStatus, again}
use libbgpstream.ResourceMgr.RibPeriod.{same_text, wanted_resource-period}

abbrev resource : ℕ → ℕ → RecordType → Resource
resource time duration t = record {
  url = 1;
  initial_time = time;
  duration = duration;
  project = codes "ris";
  collector = codes "rrc00";
  record_type = t;
}

abbrev no_resources : ResourceMgr
no_resources = create

no_resources-IsResourceMgr : IsResourceMgr no_resources
no_resources-IsResourceMgr = record {
  ordered = tt;
  groups_right = tt;
  cnt_right = refl;
  open_cnt_right = refl;
  stream_cnt_right = refl;
}

abbrev updates : ResListElem
updates = res_list_elem_create (resource 900 300 update)

abbrev table : ResListElem
table = res_list_elem_create (resource 600 120 rib)

abbrev queue : ResourceMgr
queue = (insert_resource_elem no_resources updates).0

queue-IsResourceMgr : IsResourceMgr queue
queue-IsResourceMgr = insert-IsResourceMgr no_resources updates no_resources-IsResourceMgr

insert-IsResourceMgr_example : IsResourceMgr (insert_resource_elem queue table).0
insert-IsResourceMgr_example = insert-IsResourceMgr queue table queue-IsResourceMgr

insert-held_example :
    held any_elem (insert_resource_elem queue table).0.groups
    ≡ held any_elem queue.groups + one_if (any_elem table)
insert-held_example = insert-held queue table any_elem queue-IsResourceMgr.ordered

push_from_either_end_example :
    (
      (reverse (push_from_tail table (reverse queue.groups)).0),
      (push_from_tail table (reverse queue.groups)).1,
    )
    ≡ push_from_head table queue.groups
push_from_either_end_example = push_from_either_end table 0 queue.groups queue-IsResourceMgr.ordered

abbrev hourly : RibFilter
hourly = record { rib_period = 3600; last_processed_ts = [] }

push-IsResourceMgr_example :
    IsResourceMgr (push queue hourly (resource 600 120 rib)).0
    × ((push queue hourly (resource 600 120 rib)).1
        ≡ (wanted_resource (resource 600 120 rib) hourly).1)
    × ((push queue hourly (resource 600 120 rib)).2
        ≡ one_if (wanted_resource (resource 600 120 rib) hourly).0)
    × ((p : ResListElem → Bool)
        → held p (push queue hourly (resource 600 120 rib)).0.groups
          ≡ held p queue.groups
            + (if (wanted_resource (resource 600 120 rib) hourly).0 then one_if (p table) else 0))
push-IsResourceMgr_example =
    push-IsResourceMgr queue hourly (resource 600 120 rib) queue-IsResourceMgr

-- A group that has lost its elements, ahead of the others.
abbrev emptied : ResGroup
emptied = record {
  time = 300;
  overlap_start = 300;
  overlap_end = 600;
  update_list = [];
  rib_list = [];
  res_cnt = 0;
  res_open_cnt = 0;
  res_open_checked_cnt = 0;
}

abbrev with_emptied : ResourceMgr
with_emptied = record queue { groups = emptied ∷ queue.groups }

with_emptied-IsResourceMgr : IsResourceMgr with_emptied
unfolding insert_resource_elem
with_emptied-IsResourceMgr = record {
  ordered = (omega arith, (omega arith, tt));
  groups_right = (
    record {
      update_times = tt;
      rib_times = tt;
      res_cnt_right = refl;
      res_open_cnt_right = refl;
      checked_cnt_right = refl;
    },
    queue-IsResourceMgr.groups_right,
  );
  cnt_right = queue-IsResourceMgr.cnt_right;
  open_cnt_right = queue-IsResourceMgr.open_cnt_right;
  stream_cnt_right = queue-IsResourceMgr.stream_cnt_right;
}

reap_groups-IsResourceMgr_example :
    IsResourceMgr (reap_groups with_emptied)
    × ((p : ResListElem → Bool)
        → held p (reap_groups with_emptied).groups ≡ held p with_emptied.groups)
    × All (λ g. (g.res_cnt == 0) ≡ false) (reap_groups with_emptied).groups
reap_groups-IsResourceMgr_example =
    reap_groups-IsResourceMgr with_emptied with_emptied-IsResourceMgr

reaped : reap_groups with_emptied ≡ queue
unfolding reap_groups insert_resource_elem
reaped = refl

wanted_resource-period_example :
    (wanted_resource (resource 4200 120 rib) (wanted_resource (resource 600 120 rib) hourly).1).0
    ≡ (if same_text (resource 600 120 rib) (resource 4200 120 rib)
        then not (ltb 4200 ((600 + 3600) % 2 ^ 32))
        else (wanted_resource (resource 4200 120 rib) hourly).0)
unfolding wanted_resource
wanted_resource-period_example =
    wanted_resource-period (resource 600 120 rib) (resource 4200 120 rib) hourly refl refl refl refl

-- The updates start after the window of the table, which is a batch of its own.
batch_of_one : batch_length (insert_resource_elem queue table).0.groups ≡ 1
unfolding batch_length insert_resource_elem
batch_of_one = refl

-- An open resource of updates, ahead of a table that is not open.
abbrev open_updates : ResListElem
open_updates = record updates { reader = some 500; is_open = true }

abbrev open_queue : ResourceMgr
open_queue = (insert_resource_elem queue open_updates).0

open_queue-IsResourceMgr : IsResourceMgr open_queue
open_queue-IsResourceMgr = insert-IsResourceMgr queue open_updates queue-IsResourceMgr

open_queue-IsReady : IsReady open_queue
unfolding insert_resource_elem
open_queue-IsReady = record {
  gp = res_group_create open_updates;
  next = queue.groups;
  first = open_updates;
  rest = [];
  at = refl;
  found = refl;
  type_right = refl;
  first_open = refl;
  has = refl;
}

pop_record-Keeps_example :
    ((x : ResourceMgr × ReaderStatus) × (pop_record open_queue false 0 (read_ok 1000) ≡ some x)
      × Keeps open_queue x)
    × IsEarliest open_queue-IsReady.first open_queue.groups
pop_record-Keeps_example =
    pop_record-Keeps open_queue false 0 (read_ok 1000) open_queue-IsResourceMgr open_queue-IsReady
      tt

-- A reader that says AGAIN with another time for its next record stays where it was, at a time that
-- is not its group's.
out_of_place :
    pop_record open_queue false 0 (read_again 1000)
    ≡ some (
      record open_queue {
        groups =
            record (res_group_create open_updates) {
              update_list = record open_updates { reader = some 1000; next_poll = 100 } ∷ [];
            }
            ∷ queue.groups;
      },
      again,
    )
unfolding pop_record insert_resource_elem
out_of_place = refl

-- The keys of different collectors can be the same text.
same_key :
    strcmp_eq
      (ts_key (record (resource 0 0 rib) { project = codes "a.b"; collector = codes "c" }))
      (ts_key (record (resource 0 0 rib) { project = codes "a"; collector = codes "b.c" }))
    ≡ true
unfolding strcmp_eq
same_key = refl
