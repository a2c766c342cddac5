-- ===== src/DiMgr/Waiting.antt =====
-- How long the loop of bgpstream_di_mgr_get_next_record, lib/bgpstream_di_mgr.c, waits.
use libbgpstream.Prelude.{
  ℕ, ◌≤◌, inl, inr, Bool, true, false, not, ◌&&◌, ◌||◌, Option, none, some, List, [], ◌∷◌, leb,
  if◌then◌else◌, arith, All, Bool-cases,
}
use libbgpstream.ResourceMgr.{ResourceMgr}
use libbgpstream.ResourceMgr.Queue.{empty, stream_only}
use libbgpstream.DiMgr.{
  DiMgr, Round, Delivery, failed, at_eos, delivered, Outcome, returns_error, returns_eos,
  returns_record, goes_on, min_wait, max_wait, back_off, poll, reset, after_delivery, deliver,
  after_update, round, rounds, create,
}

-- Both waits are between 20 and 150 seconds, and the sleeps so far are between them too.
pub record IsPaced (m : DiMgr) : Type 0 where
  pub poll_low : min_wait ≤ m.poll_freq
  pub poll_high : m.poll_freq ≤ max_wait
  pub backoff_low : min_wait ≤ m.backoff_time
  pub backoff_high : m.backoff_time ≤ max_wait

abbrev pub SleepsWithin : Outcome → Type 0
SleepsWithin (goes_on seconds) = seconds ≤ max_wait
SleepsWithin returns_error = Unit
SleepsWithin returns_eos = Unit
SleepsWithin returns_record = Unit

back_off_bounds :
    (cnt wait : ℕ)
    → min_wait ≤ wait
    → wait ≤ max_wait
    → (min_wait ≤ back_off cnt wait) × (back_off cnt wait ≤ max_wait)
unfolding back_off
back_off_bounds cnt wait low high = ground arith

poll-IsPaced : (m : DiMgr) (q : ResourceMgr) (now : ℕ) → IsPaced m → IsPaced (poll m q now)
unfolding poll
poll-IsPaced m q now p =
    let b = back_off_bounds m.poll_cnt m.poll_freq p.poll_low p.poll_high in
    elim (Bool-cases (stream_only q)) [
      | inl streams ↦ rw streams (record {
        poll_low = b.0;
        poll_high = b.1;
        backoff_low = p.backoff_low;
        backoff_high = p.backoff_high;
      })
      | inr batch ↦ rw batch (record {
        poll_low = omega arith;
        poll_high = omega arith;
        backoff_low = p.backoff_low;
        backoff_high = p.backoff_high;
      })
    ]

abbrev IsFine : DiMgr × Outcome → Type 0
IsFine x = IsPaced x.0 × SleepsWithin x.1

if_IsFine : (b : Bool) (x y : DiMgr × Outcome) → IsFine x → IsFine y → IsFine (if b then x else y)
if_IsFine true x y hx hy = hx
if_IsFine false x y hx hy = hy

reset-IsPaced : (m : DiMgr) → IsPaced m → IsPaced (reset m)
reset-IsPaced m p = record {
  poll_low = p.poll_low;
  poll_high = p.poll_high;
  backoff_low = omega arith;
  backoff_high = omega arith;
}

after_delivery-IsFine : (m : DiMgr) (d : Delivery) → IsPaced m → IsFine (after_delivery m d)
unfolding after_delivery
after_delivery-IsFine m failed p = (p, tt)
after_delivery-IsFine m delivered p = (reset-IsPaced m p, tt)
after_delivery-IsFine m at_eos p = (p, omega arith)

deliver-IsFine : (m : DiMgr) (q : ResourceMgr) (r : Round) → IsPaced m → IsFine (deliver m q r)
unfolding deliver
deliver-IsFine m q r p =
    let b = back_off_bounds m.retry_cnt m.backoff_time p.backoff_low p.backoff_high in
    if_IsFine (not (empty q)) _ _ (after_delivery-IsFine m r.delivery p) (
      if_IsFine (not m.blocking) _ _ (reset-IsPaced m p, tt)
        (if_IsFine r.interrupted _ _ (p, tt)
          (
            record {
              poll_low = p.poll_low;
              poll_high = p.poll_high;
              backoff_low = b.0;
              backoff_high = b.1;
            },
            p.backoff_high,
          )))

after_update-IsFine :
    (m : DiMgr) (u : Option ResourceMgr) (r : Round) → IsPaced m → IsFine (after_update m u r)
unfolding after_update
after_update-IsFine m none r p = (p, tt)
after_update-IsFine m (some q) r p =
    deliver-IsFine (poll m q r.now_after) q r (poll-IsPaced m q r.now_after p)

round-IsFine : (m : DiMgr) (r : Round) → IsPaced m → IsFine (round m r)
unfolding round
round-IsFine m r p =
    if_IsFine (empty r.queue || (stream_only r.queue && leb m.next_poll r.now)) _ _
      (after_update-IsFine m r.updated r p) (deliver-IsFine m r.queue r p)

-- Whatever the queue, the clock and the data interface do, the waits of a manager stay between 20
-- and 150 seconds through any number of rounds, and no sleep is longer than 150 seconds.
pub rounds-IsPaced :
    (m : DiMgr) (rs : List Round)
    → IsPaced m
    → IsPaced (rounds m rs).0 × All SleepsWithin (rounds m rs).1
unfolding rounds
rounds-IsPaced m [] p = (p, tt)
rounds-IsPaced m (r ∷ rs) p =
    let fine = round-IsFine m r p in
    let further = rounds-IsPaced (round m r).0 rs fine.0 in (further.0, (fine.1, further.1))

pub create-IsPaced : IsPaced create
create-IsPaced = record {
  poll_low = omega arith;
  poll_high = omega arith;
  backoff_low = omega arith;
  backoff_high = omega arith;
}
