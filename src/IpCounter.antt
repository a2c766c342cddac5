-- ===== src/IpCounter.antt =====
-- Counting the addresses that prefixes cover: lib/utils/bgpstream_utils_ip_counter.c. A queue is the
-- list of its intervals from the head; the 64-bit halves of an IPv6 address are two numbers.
-- Allocation succeeds.
pub mod Query
pub mod Union
pub mod Counting
pub mod Overlap
pub mod Range
pub mod Laws
pub mod Wide
use libbgpstream.Prelude.{
  ℕ, ◌+◌, ◌-◌, ◌*◌, ◌/◌, ◌%◌, ◌^◌, Bool, true, false, ◌&&◌, ◌||◌, Option, none, some, List, [], ◌∷◌,
  ltb, leb, ◌==◌, if◌then◌else◌, get_or, bit_and, bit_or,
}
use libbgpstream.Addr.{AddrVersion, unknown, ipv4, ipv6}
use libbgpstream.Pfx.{Pfx}

-- `v4pfx_int_t`, both ends included.
pub record V4pfxInt : Type 0 where
  pub start : ℕ
  pub end : ℕ

-- `v6pfx_int_t`
pub record V6pfxInt : Type 0 where
  pub start_ms : ℕ
  pub start_ls : ℕ
  pub end_ms : ℕ
  pub end_ls : ℕ

pub record IpCounter : Type 0 where
  pub v4list : List V4pfxInt
  pub v6list : List V6pfxInt

abbrev pub create : IpCounter
create = record { v4list = []; v6list = [] }

-- The interval that an earlier one takes up what follows it, and the list from it on.
unfoldable pub one_step_merge4 : V4pfxInt → List V4pfxInt → List V4pfxInt
one_step_merge4 previous [] = previous ∷ []
one_step_merge4 previous (current ∷ rest) =
    let merged = one_step_merge4 previous rest in
    let longer = one_step_merge4 (record previous { end = current.end }) rest in
    if leb current.start previous.end
    then if ltb previous.end current.end then longer else merged
    else previous ∷ current ∷ rest

unfoldable pub merge_in_sorted_queue4 : List V4pfxInt → ℕ → ℕ → List V4pfxInt
unfolding one_step_merge4
merge_in_sorted_queue4 [] start end = record { start = start; end = end } ∷ []
merge_in_sorted_queue4 (current ∷ next) start end =
    let further = merge_in_sorted_queue4 next start end in
    let from = if ltb start current.start then start else current.start in
    let to = if ltb current.end end then end else current.end in
    if ltb current.end start
    then current ∷ further
    else if ltb end current.start
    then record { start = start; end = end } ∷ current ∷ next
    else one_step_merge4 (record { start = from; end = to }) next

-- `a < b` and `a <= b` on the pairs of halves, as the conditions are written.
abbrev pub is_below : ℕ → ℕ → ℕ → ℕ → Bool
is_below a_ms a_ls b_ms b_ls = ltb a_ms b_ms || (a_ms == b_ms && ltb a_ls b_ls)

abbrev pub not_above : ℕ → ℕ → ℕ → ℕ → Bool
not_above a_ms a_ls b_ms b_ls = ltb a_ms b_ms || (a_ms == b_ms && leb a_ls b_ls)

unfoldable pub one_step_merge6 : V6pfxInt → List V6pfxInt → List V6pfxInt
one_step_merge6 previous [] = previous ∷ []
one_step_merge6 previous (current ∷ rest) =
    let merged = one_step_merge6 previous rest in
    let longer =
      one_step_merge6 (record previous { end_ms = current.end_ms; end_ls = current.end_ls }) rest in
    if not_above current.start_ms current.start_ls previous.end_ms previous.end_ls
    then if is_below previous.end_ms previous.end_ls current.end_ms current.end_ls
      then longer
      else merged
    else previous ∷ current ∷ rest

abbrev pub v6_interval : ℕ → ℕ → ℕ → ℕ → V6pfxInt
v6_interval a b c d = record { start_ms = a; start_ls = b; end_ms = c; end_ls = d }

-- `current` stretched over the new interval, where the two meet.
unfoldable pub stretch6 : V6pfxInt → ℕ → ℕ → ℕ → ℕ → V6pfxInt
stretch6 current start_ms start_ls end_ms end_ls =
    let from =
      if is_below start_ms start_ls current.start_ms current.start_ls
      then record current { start_ms = start_ms; start_ls = start_ls }
      else current in
    if is_below current.end_ms current.end_ls end_ms end_ls
    then record from { end_ms = end_ms; end_ls = end_ls }
    else from

unfoldable pub merge_in_sorted_queue6 : List V6pfxInt → ℕ → ℕ → ℕ → ℕ → List V6pfxInt
unfolding one_step_merge6 stretch6
merge_in_sorted_queue6 [] start_ms start_ls end_ms end_ls =
    v6_interval start_ms start_ls end_ms end_ls ∷ []
merge_in_sorted_queue6 (current ∷ next) start_ms start_ls end_ms end_ls =
    let further = merge_in_sorted_queue6 next start_ms start_ls end_ms end_ls in
    if is_below current.end_ms current.end_ls start_ms start_ls
    then current ∷ further
    else if is_below end_ms end_ls current.start_ms current.start_ls
    then v6_interval start_ms start_ls end_ms end_ls ∷ current ∷ next
    else one_step_merge6 (stretch6 current start_ms start_ls end_ms end_ls) next

-- `ntohl` of an `s_addr`, and `nptohll` of the eight bytes from the i-th.
abbrev pub ntohl : List ℕ → ℕ
ntohl b = get_or b 0 0 * 2 ^ 24 + get_or b 1 0 * 2 ^ 16 + get_or b 2 0 * 2 ^ 8 + get_or b 3 0

abbrev pub nptohll : List ℕ → ℕ → ℕ
nptohll b i =
    get_or b i 0 * 2 ^ 56
    + get_or b (i + 1) 0 * 2 ^ 48
    + get_or b (i + 2) 0 * 2 ^ 40
    + get_or b (i + 3) 0 * 2 ^ 32
    + get_or b (i + 4) 0 * 2 ^ 24
    + get_or b (i + 5) 0 * 2 ^ 16
    + get_or b (i + 6) 0 * 2 ^ 8
    + get_or b (i + 7) 0

-- `~(((uint64_t)1 << n) - 1)`, for n < 64.
abbrev pub high_mask : ℕ → ℕ
high_mask n = 2 ^ 64 - 1 - (2 ^ n - 1)

-- The first and the last address of an IPv4 prefix; the mask is put into a `uint32_t`.
unfoldable pub range4 : Pfx → V4pfxInt
range4 pfx =
    let mask = high_mask (32 - pfx.mask_len) % 2 ^ 32 in
    let start = bit_and (ntohl pfx.address.bytes) mask in
    record { start = start; end = bit_or start (2 ^ 32 - 1 - mask) }

-- The same for an IPv6 prefix. For the length 0 the source shifts a `uint64_t` by 64.
unfoldable pub range6 : Pfx → V6pfxInt
range6 pfx =
    let long = ltb 64 pfx.mask_len in
    let mask_ms = if long then 2 ^ 64 - 1 else high_mask (64 - pfx.mask_len) in
    let mask_ls = if long then high_mask (64 - (pfx.mask_len - 64)) else 0 in
    let start_ms = bit_and (nptohll pfx.address.bytes 0) mask_ms in
    let start_ls = bit_and (nptohll pfx.address.bytes 8) mask_ls in
    v6_interval start_ms start_ls (bit_or start_ms (2 ^ 64 - 1 - mask_ms))
      (bit_or start_ls (2 ^ 64 - 1 - mask_ls))

unfoldable pub add_at : AddrVersion → IpCounter → Pfx → IpCounter
unfolding merge_in_sorted_queue4 merge_in_sorted_queue6 range4 range6
add_at ipv4 ipc pfx =
    let r = range4 pfx in record ipc { v4list = merge_in_sorted_queue4 ipc.v4list r.start r.end }
add_at ipv6 ipc pfx =
    let r = range6 pfx in
    record ipc {
      v6list = merge_in_sorted_queue6 ipc.v6list r.start_ms r.start_ls r.end_ms r.end_ls;
    }
add_at unknown ipc pfx = ipc

unfoldable pub add : IpCounter → Pfx → IpCounter
unfolding add_at
add ipc pfx = add_at pfx.address.version ipc pfx
