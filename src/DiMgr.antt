-- ===== src/DiMgr.antt =====
-- The data interface manager: the loop of bgpstream_di_mgr_get_next_record of lib/bgpstream_di_mgr.c.
-- The clock, the data interface, and the queue's delivery are what they say in a round; the queue is
-- that of ResourceMgr.antt.
pub mod Waiting
use libbgpstream.Prelude.{
  ℕ, zero, suc, ◌+◌, ◌*◌, Bool, true, false, not, ◌&&◌, ◌||◌, Option, none, some, List, [], ◌∷◌,
  ltb, leb, if◌then◌else◌,
}
use libbgpstream.ResourceMgr.{ResourceMgr}
use libbgpstream.ResourceMgr.Queue.{empty, stream_only}

-- DATA_INTERFACE_BLOCKING_RETRY_CNT, _MIN_WAIT and _MAX_WAIT.
abbrev pub retry_limit : ℕ
retry_limit = 10

abbrev pub min_wait : ℕ
min_wait = 20

abbrev pub max_wait : ℕ
max_wait = 150

pub record DiMgr : Type 0 where
  pub blocking : Bool
  pub backoff_time : ℕ
  pub retry_cnt : ℕ
  pub next_poll : ℕ
  pub poll_freq : ℕ
  pub poll_cnt : ℕ

abbrev pub create : DiMgr
create = record {
  blocking = false;
  backoff_time = min_wait;
  retry_cnt = 0;
  next_poll = 0;
  poll_freq = min_wait;
  poll_cnt = 0;
}

abbrev pub set_blocking : DiMgr → DiMgr
set_blocking m = record m { blocking = true }

-- What the queue's delivery comes to: below 0, 0 and above.
pub data Delivery : Type 0 where
  failed at_eos delivered : Delivery

-- What happens in a round: the queue and the clock at its start, the queue after the update of the
-- resources (none if that fails) and the clock then, what the queue delivers, and whether the
-- sleep is interrupted.
pub record Round : Type 0 where
  pub queue : ResourceMgr
  pub now : ℕ
  pub updated : Option ResourceMgr
  pub now_after : ℕ
  pub delivery : Delivery
  pub interrupted : Bool

-- A round returns -1, 0 or 1, or goes on, after sleeping for some seconds.
pub data Outcome : Type 0 where
  returns_error returns_eos returns_record : Outcome
  goes_on : ℕ → Outcome

-- A wait is doubled after ten rounds, and cut to the longest.
unfoldable pub back_off : ℕ → ℕ → ℕ
back_off cnt wait =
    if leb retry_limit cnt then if ltb max_wait (wait * 2) then max_wait else wait * 2 else wait

-- The polling of the data interface, with the queue that it left.
unfoldable pub poll : DiMgr → ResourceMgr → ℕ → DiMgr
unfolding back_off
poll m q now =
    let m' =
      if stream_only q
      then record m { poll_freq = back_off m.poll_cnt m.poll_freq; poll_cnt = m.poll_cnt + 1 }
      else record m { poll_freq = min_wait } in
    record m' { next_poll = now + m'.poll_freq }

abbrev pub reset : DiMgr → DiMgr
reset m = record m { backoff_time = min_wait; retry_cnt = 0 }

unfoldable pub after_delivery : DiMgr → Delivery → DiMgr × Outcome
after_delivery m failed = (m, returns_error)
after_delivery m delivered = (reset m, returns_record)
after_delivery m at_eos = (m, goes_on 0)

-- The end of a round on a queue: a record, an empty queue, or a sleep.
unfoldable pub deliver : DiMgr → ResourceMgr → Round → DiMgr × Outcome
unfolding back_off after_delivery
deliver m q r =
    if not (empty q)
    then after_delivery m r.delivery
    else if not m.blocking
    then (reset m, returns_eos)
    else if r.interrupted
    then (m, returns_error)
    else (
      record m { backoff_time = back_off m.retry_cnt m.backoff_time; retry_cnt = m.retry_cnt + 1 },
      goes_on m.backoff_time,
    )

unfoldable pub after_update : DiMgr → Option ResourceMgr → Round → DiMgr × Outcome
unfolding poll deliver
after_update m none r = (m, returns_error)
after_update m (some q) r = deliver (poll m q r.now_after) q r

unfoldable pub round : DiMgr → Round → DiMgr × Outcome
unfolding after_update deliver
round m r =
    if empty r.queue || (stream_only r.queue && leb m.next_poll r.now)
    then after_update m r.updated r
    else deliver m r.queue r

-- The rounds of calls one after the other, with what each came to.
unfoldable pub rounds : DiMgr → List Round → DiMgr × List Outcome
unfolding round
rounds m [] = (m, [])
rounds m (r ∷ rs) =
    let (m', outcome) = round m r in let (m'', outcomes) = rounds m' rs in (m'', outcome ∷ outcomes)
