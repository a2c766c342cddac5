-- ===== src/ResourceMgr.antt =====
-- The queue of resources: lib/bgpstream_resource_mgr.c. The groups and the elements of a group are
-- lists from the head; the `prev` pointers and `tail` are what the lists make them. Allocation
-- succeeds. Of a reader only the time of its next record is here.
pub mod Upkeep
pub mod Queue
pub mod Order
pub mod Contents
pub mod RibPeriod
pub mod Pop
use libbgpstream.Prelude.{
  ℕ, zero, suc, ◌+◌, ◌-◌, ◌%◌, ◌^◌, Bool, true, false, not, ◌&&◌, ◌||◌, Option, none, some, List,
  [], ◌∷◌, ltb, leb, ◌==◌, if◌then◌else◌, length,
}
use mathlib.Core.List.{reverse}

-- `BGPSTREAM_UPDATE` and `BGPSTREAM_RIB`.
pub data RecordType : Type 0 where
  update rib : RecordType

-- The text of `url` is a number that tells it apart, the others are lists of characters.
pub record Resource : Type 0 where
  pub url : ℕ
  pub initial_time : ℕ
  pub duration : ℕ
  pub project : List ℕ
  pub collector : List ℕ
  pub record_type : RecordType

-- `BGPSTREAM_FOREVER`: the duration of a stream.
abbrev pub forever : ℕ
forever = 0

-- `reader` is the time of the next record, if there is a reader.
pub record ResListElem : Type 0 where
  pub res : Resource
  pub reader : Option ℕ
  pub is_open : Bool
  pub next_poll : ℕ

pub record ResGroup : Type 0 where
  pub time : ℕ
  pub overlap_start : ℕ
  pub overlap_end : ℕ
  pub update_list : List ResListElem
  pub rib_list : List ResListElem
  pub res_cnt : ℕ
  pub res_open_cnt : ℕ
  pub res_open_checked_cnt : ℕ

pub record ResourceMgr : Type 0 where
  pub groups : List ResGroup
  pub res_cnt : ℕ
  pub res_open_cnt : ℕ
  pub res_stream_cnt : ℕ

abbrev pub create : ResourceMgr
create = record { groups = []; res_cnt = 0; res_open_cnt = 0; res_stream_cnt = 0 }

abbrev pub res_list_elem_create : Resource → ResListElem
res_list_elem_create res = record { res = res; reader = none; is_open = false; next_poll = 0 }

abbrev pub get_next_time : ResListElem → ℕ
get_next_time el = elim el.reader [ none ↦ el.res.initial_time | some time ↦ time ]

abbrev pub has_reader : ResListElem → Bool
has_reader el = elim el.reader [ none ↦ false | some time ↦ true ]

abbrev pub res_list : ResGroup → RecordType → List ResListElem
res_list gp update = gp.update_list
res_list gp rib = gp.rib_list

abbrev pub set_res_list : ResGroup → RecordType → List ResListElem → ResGroup
set_res_list gp update l = record gp { update_list = l }
set_res_list gp rib l = record gp { rib_list = l }

abbrev pub is_empty {ℓ} : {A : Type ℓ} → List A → Bool
is_empty [] = true
is_empty (x ∷ l) = false

is_rib : RecordType → Bool
is_rib update = false
is_rib rib = true

-- On `uint32_t` times; the start moves only where it cannot wrap.
unfoldable pub update_overlap : ResGroup → ResListElem → ResGroup
unfolding is_rib
update_overlap gp el =
    let start =
      if is_rib el.res.record_type && (is_empty gp.rib_list && ltb el.res.duration gp.overlap_start)
      then gp.overlap_start - el.res.duration
      else gp.overlap_start in
    let end = (gp.time + el.res.duration) % 2 ^ 32 in
    record gp {
      overlap_start = start;
      overlap_end = if ltb gp.overlap_end end then end else gp.overlap_end;
    }

abbrev pub one_if : Bool → ℕ
one_if true = 1
one_if false = 0

new_group : ℕ → ResGroup
new_group time = record {
  time = time;
  overlap_start = time;
  overlap_end = 0;
  update_list = [];
  rib_list = [];
  res_cnt = 1;
  res_open_cnt = 0;
  res_open_checked_cnt = 0;
}

-- The element on a group's list, and the counts of what is open.
link : ResGroup → ResListElem → ResGroup
link gp el = record (set_res_list gp el.res.record_type (el ∷ res_list gp el.res.record_type)) {
  res_open_cnt = gp.res_open_cnt + one_if (has_reader el);
  res_open_checked_cnt = gp.res_open_checked_cnt + one_if (has_reader el && el.is_open);
}

unfoldable pub res_group_create : ResListElem → ResGroup
unfolding update_overlap new_group link
res_group_create el = link (update_overlap (new_group (get_next_time el)) el) el

-- The group, and whether it has become dirty.
unfoldable pub res_group_add : ResGroup → ResListElem → ResGroup × ℕ
unfolding update_overlap link
res_group_add gp el =
    let linked = link (update_overlap gp el) el in
    let added = record linked { res_cnt = gp.res_cnt + 1 } in
    (added, one_if (has_reader el && ltb added.res_open_cnt added.res_cnt))

abbrev and_before : ResGroup → List ResGroup × ℕ → List ResGroup × ℕ
and_before g (l, dirty) = (g ∷ l, dirty)

-- QUEUE_PUSH from the head, and from the tail, where the list is the other way round.
unfoldable pub push_from_head : ResListElem → List ResGroup → List ResGroup × ℕ
unfolding res_group_create res_group_add
push_from_head el [] = (res_group_create el ∷ [], 0)
push_from_head el (cur ∷ next) =
    let further = and_before cur (push_from_head el next) in
    let (added, dirty) = res_group_add cur el in
    if ltb cur.time (get_next_time el)
    then further
    else if cur.time == get_next_time el
    then (added ∷ next, dirty)
    else (res_group_create el ∷ cur ∷ next, 0)

unfoldable pub push_from_tail : ResListElem → List ResGroup → List ResGroup × ℕ
unfolding res_group_create res_group_add
push_from_tail el [] = (res_group_create el ∷ [], 0)
push_from_tail el (cur ∷ prev) =
    let further = and_before cur (push_from_tail el prev) in
    let (added, dirty) = res_group_add cur el in
    if ltb (get_next_time el) cur.time
    then further
    else if cur.time == get_next_time el
    then (added ∷ prev, dirty)
    else (res_group_create el ∷ cur ∷ prev, 0)

-- `abs((int)a - (int)b)`, which the source leaves undefined where the two are 2 ^ 31 apart.
abbrev pub abs_diff : ℕ → ℕ → ℕ
abs_diff a b = let d = (a + 2 ^ 32 - b) % 2 ^ 32 in if ltb d (2 ^ 31) then d else 2 ^ 32 - d

abbrev pub last_time : ℕ → List ResGroup → ℕ
last_time t [] = t
last_time t (g ∷ gs) = last_time g.time gs

unfoldable pub push_groups : ResListElem → List ResGroup → List ResGroup × ℕ
unfolding push_from_head push_from_tail res_group_create
push_groups el [] = (res_group_create el ∷ [], 0)
push_groups el (head ∷ rest) =
    let t = get_next_time el in
    let (back, dirty) = push_from_tail el (reverse (head ∷ rest)) in
    if ltb (abs_diff t head.time) (abs_diff t (last_time head.time rest))
    then push_from_head el (head ∷ rest)
    else (reverse back, dirty)

-- The queue, and the number of groups that have become dirty.
unfoldable pub insert_resource_elem : ResourceMgr → ResListElem → ResourceMgr × ℕ
unfolding push_groups
insert_resource_elem q el =
    let (groups, dirty) = push_groups el q.groups in
    (
      record {
        groups = groups;
        res_cnt = q.res_cnt + 1;
        res_open_cnt = q.res_open_cnt + one_if (has_reader el);
        res_stream_cnt = q.res_stream_cnt + one_if (el.res.duration == forever);
      },
      dirty,
    )
