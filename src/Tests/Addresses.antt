-- ===== src/Tests/Addresses.antt =====
-- The counter of addresses.
use libbgpstream.Prelude.{
  ℕ, ◌/◌, ◌^◌, ◌≡◌, refl, false, ◌&&◌, ◌||◌, ◌==◌, List, [], ◌∷◌, map, arith,
}
use libbgpstream.Addr.{ipv4}
use libbgpstream.IpCounter.{
  IpCounter, V6pfxInt, create, add, merge_in_sorted_queue6, v6_interval, ntohl,
}
use libbgpstream.IpCounter.Query.{is_overlapping, get_ipcount}
use libbgpstream.IpCounter.Union.{within, covers, IsQueue}
use libbgpstream.IpCounter.Counting.{count_below, get_ipcount_lem}
use libbgpstream.IpCounter.Overlap.{holds}
use libbgpstream.IpCounter.Range.{block}
use libbgpstream.IpCounter.Wide.{value, whole, merge6-covers}
use libbgpstream.IpCounter.Laws.{add-IsQueue, add-covers, is_overlapping_lem}
use libbgpstream.Tests.Data.{pfx4, ten, ten_high, ten_low, ten-IsPfx}

abbrev sample : IpCounter
sample = record {
  v4list = record { start = 5; end = 9 } ∷ record { start = 184549376; end = 184549380 } ∷ [];
  v6list = [];
}

sample-IsQueue : IsQueue 0 sample.v4list
sample-IsQueue = (omega arith, omega arith, (omega arith, omega arith, tt))

add-IsQueue_example : IsQueue 0 (add sample ten).v4list
add-IsQueue_example = add-IsQueue sample ten ten-IsPfx refl sample-IsQueue

add-covers_example :
    covers (add sample ten).v4list 167772165
    ≡ (covers sample.v4list 167772165 || (167772165 / 2 ^ 24 == ntohl ten.address.bytes / 2 ^ 24))
add-covers_example = add-covers sample ten ten-IsPfx refl sample-IsQueue 167772165

is_overlapping_lem_example : is_overlapping sample ten ≡ (
  count_below
      (2 ^ 32)
      (λ x. (x / 2 ^ 24 == ntohl ten.address.bytes / 2 ^ 24) && covers sample.v4list x),
  holds sample.v4list (block (ntohl ten.address.bytes) 24),
)
is_overlapping_lem_example =
    is_overlapping_lem sample ten ten-IsPfx refl sample-IsQueue (omega arith)

get_ipcount_lem_example : get_ipcount sample ipv4 ≡ count_below (2 ^ 32) (covers sample.v4list)
get_ipcount_lem_example =
    get_ipcount_lem sample sample-IsQueue
      ((omega arith, omega arith), ((omega arith, omega arith), tt))

-- The halves of 10.0.0.0/8 are two intervals: the /8 overlaps in all of its addresses, and is
-- still not a more specific prefix.
halves_overlap : is_overlapping (add (add create ten_low) ten_high) ten ≡ (2 ^ 24, false)
unfolding is_overlapping add
halves_overlap = refl

-- The count of the whole space is zero.
whole_space : get_ipcount (add create (pfx4 0 0 0)) ipv4 ≡ 0
unfolding get_ipcount add
whole_space = refl

abbrev wide_queue : List V6pfxInt
wide_queue = v6_interval 1 0 1 7 ∷ v6_interval 2 0 2 4 ∷ []

merge6-covers_example :
    IsQueue 0 (map whole (merge_in_sorted_queue6 wide_queue 1 5 2 1))
    × ((x : ℕ)
        → covers (map whole (merge_in_sorted_queue6 wide_queue 1 5 2 1)) x
          ≡ (covers (map whole wide_queue) x || within (value 1 5) (value 2 1) x))
merge6-covers_example =
    merge6-covers wide_queue 1 5 2 1 0
      ((omega arith, omega arith), ((omega arith, omega arith), tt)) (omega arith) (omega arith)
      (omega arith) (omega arith) (omega arith, omega arith, (omega arith, omega arith, tt))
