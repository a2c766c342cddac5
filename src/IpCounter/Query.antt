-- ===== src/IpCounter/Query.antt =====
-- Overlaps, counts and clearing, of lib/utils/bgpstream_utils_ip_counter.c.
use libbgpstream.Prelude.{
  ℕ, ◌+◌, ◌-◌, ◌*◌, ◌/◌, ◌%◌, ◌^◌, Bool, false, ◌&&◌, ◌||◌, Option, none, some, List, [], ◌∷◌, ltb,
  ◌==◌, if◌then◌else◌, bit_or,
}
use libbgpstream.Addr.{AddrVersion, unknown, ipv4, ipv6}
use libbgpstream.Pfx.{Pfx}
use libbgpstream.IpCounter.{V4pfxInt, V6pfxInt, IpCounter, range6, is_below, ntohl}

-- `a - b` on `uint32_t` and on `uint64_t`, then `+ 1`.
abbrev pub size32 : ℕ → ℕ → ℕ
size32 to from = ((to + 2 ^ 32 - from) % 2 ^ 32 + 1) % 2 ^ 32

abbrev pub size64 : ℕ → ℕ → ℕ
size64 to from = ((to + 2 ^ 64 - from) % 2 ^ 64 + 1) % 2 ^ 64

-- The prefix's ends here, by shifts. For the length 0 the source shifts a `uint32_t` by 32.
unfoldable pub shifted_range4 : Pfx → V4pfxInt
shifted_range4 pfx =
    let len = 32 - pfx.mask_len in
    let start = ntohl pfx.address.bytes / 2 ^ len * 2 ^ len in
    let high = (2 ^ 32 - 1) / 2 ^ len * 2 ^ len in
    record { start = start; end = bit_or start (2 ^ 32 - 1 - high) }

-- What the loops return: the count and `*more_specific`.
unfoldable pub overlap_loop4 : V4pfxInt → List V4pfxInt → ℕ → Bool → ℕ × Bool
overlap_loop4 p [] count more = (count, more)
overlap_loop4 p (current ∷ next) count more =
    let int_start = if ltb current.start p.start then p.start else current.start in
    let int_end = if ltb p.end current.end then p.end else current.end in
    let size = size32 int_end int_start in
    let further =
      overlap_loop4 p next ((count + size) % 2 ^ 32) (more || (size == size32 p.end p.start)) in
    let skipped = overlap_loop4 p next count more in
    if ltb p.end current.start
    then (count, more)
    else if ltb current.end p.start
    then skipped
    else further

unfoldable pub is_overlapping4 : IpCounter → Pfx → ℕ × Bool
unfolding overlap_loop4 shifted_range4
is_overlapping4 ipc pfx = overlap_loop4 (shifted_range4 pfx) ipc.v4list 0 false

-- Whether an interval's /64s were counted with the one before it; `none` at the head.
abbrev pub same_ms : Option V6pfxInt → V6pfxInt → Bool
same_ms none current = false
same_ms (some previous) current =
    current.start_ms == previous.start_ms && current.end_ms == previous.end_ms

-- The tests of the halves compare `end_ms` and `start_ms` with the prefix's `start_ls`, as the
-- source does.
unfoldable pub overlap_loop6 : V6pfxInt → Option V6pfxInt → List V6pfxInt → ℕ → Bool → ℕ × Bool
overlap_loop6 p previous [] count more = (count, more)
overlap_loop6 p previous (current ∷ next) count more =
    let int_start =
      if is_below current.start_ms current.start_ms p.start_ms p.start_ls
      then p.start_ms
      else current.start_ms in
    let int_end =
      if is_below p.end_ms p.end_ls current.end_ms current.end_ls
      then p.end_ms
      else current.end_ms in
    let size = size64 int_end int_start in
    let counted =
      overlap_loop6 p (some current) next ((count + size) % 2 ^ 64)
        (more || (size == size64 p.end_ms p.start_ms)) in
    let skipped = overlap_loop6 p (some current) next count more in
    if is_below p.end_ms p.end_ls current.start_ms current.start_ls
    then (count, more)
    else if is_below current.end_ms current.end_ms p.start_ms p.start_ls
    then skipped
    else if same_ms previous current
    then skipped
    else counted

unfoldable pub is_overlapping6 : IpCounter → Pfx → ℕ × Bool
unfolding overlap_loop6 range6
is_overlapping6 ipc pfx = overlap_loop6 (range6 pfx) none ipc.v6list 0 false

unfoldable pub overlapping_at : AddrVersion → IpCounter → Pfx → ℕ × Bool
unfolding is_overlapping4 is_overlapping6
overlapping_at ipv4 ipc pfx = is_overlapping4 ipc pfx
overlapping_at ipv6 ipc pfx = is_overlapping6 ipc pfx
overlapping_at unknown ipc pfx = (0, false)

unfoldable pub is_overlapping : IpCounter → Pfx → ℕ × Bool
unfolding overlapping_at
is_overlapping ipc pfx = overlapping_at pfx.address.version ipc pfx

unfoldable pub count_loop4 : List V4pfxInt → ℕ → ℕ
count_loop4 [] ip_count = ip_count
count_loop4 (current ∷ next) ip_count =
    count_loop4 next ((ip_count + size32 current.end current.start) % 2 ^ 64)

unfoldable pub count_loop6 : Option V6pfxInt → List V6pfxInt → ℕ → ℕ
count_loop6 previous [] ip_count = ip_count
count_loop6 previous (current ∷ next) ip_count =
    let added = if same_ms previous current then 0 else size64 current.end_ms current.start_ms in
    count_loop6 (some current) next ((ip_count + added) % 2 ^ 64)

unfoldable pub get_ipcount : IpCounter → AddrVersion → ℕ
unfolding count_loop4 count_loop6
get_ipcount ipc ipv4 = count_loop4 ipc.v4list 0
get_ipcount ipc ipv6 = count_loop6 none ipc.v6list 0
get_ipcount ipc unknown = 0

unfoldable pub clear : IpCounter → IpCounter
clear ipc = record ipc { v4list = []; v6list = [] }
