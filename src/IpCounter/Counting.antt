-- ===== src/IpCounter/Counting.antt =====
-- What the counts of lib/utils/bgpstream_utils_ip_counter.c are: sizes of sets of addresses.
use libbgpstream.Prelude.{
  ℕ, zero, suc, ◌+◌, ◌-◌, ◌%◌, ◌^◌, min, ◌≤◌, ◌<◌, ◌≡◌, refl, ap, ◌∙◌, Bool, true, false, ◌&&◌,
  ◌||◌, List, [], ◌∷◌, if◌then◌else◌, arith, All,
}
use libbgpstream.Addr.{ipv4}
use libbgpstream.IpCounter.{V4pfxInt, IpCounter}
use libbgpstream.IpCounter.Query.{count_loop4, get_ipcount, size32}
use libbgpstream.IpCounter.Union.{within, covers, IsQueue}

-- How many numbers below n pass the test.
unfoldable pub count_below : ℕ → (ℕ → Bool) → ℕ
count_below zero p = 0
count_below (suc n) p = (if p n then 1 else 0) + count_below n p

pub count_below-le : (n : ℕ) (p : ℕ → Bool) → count_below n p ≤ n
unfolding count_below
count_below-le zero p = omega arith
count_below-le (suc n) p = ground (arith, count_below-le n p)

pub count_below-none : (n : ℕ) (p : ℕ → Bool) → ((x : ℕ) → p x ≡ false) → count_below n p ≡ 0
unfolding count_below
count_below-none zero p h = refl
count_below-none (suc n) p h = rw (h n) (omega (arith, count_below-none n p h))

pub count_below_mono :
    (n : ℕ) (p q : ℕ → Bool)
    → ((x : ℕ) → p x ≡ true → q x ≡ true)
    → count_below n p ≤ count_below n q
unfolding count_below
count_below_mono zero p q h = omega arith
count_below_mono (suc n) p q h = ground (arith, h n, count_below_mono n p q h)

pub count_below-ext :
    (n : ℕ) (p q : ℕ → Bool) → ((x : ℕ) → p x ≡ q x) → count_below n p ≡ count_below n q
unfolding count_below
count_below-ext zero p q h = refl
count_below-ext (suc n) p q h = rw (h n, count_below-ext n p q h)

count_below-nil : (n : ℕ) → count_below n (covers []) ≡ 0
unfolding count_below covers
count_below-nil zero = refl
count_below-nil (suc n) = omega (arith, count_below-nil n)

pub count_below-within :
    (n start end : ℕ) → start ≤ end → count_below n (within start end) ≡ min n (suc end) - start
unfolding count_below
count_below-within zero start end h = omega arith
count_below-within (suc n) start end h = ground (arith, count_below-within n start end h)

-- Sets with no number in common.
pub count_below-apart :
    (n : ℕ) (p q : ℕ → Bool)
    → ((x : ℕ) → (p x && q x) ≡ false)
    → count_below n (λ x. p x || q x) ≡ count_below n p + count_below n q
unfolding count_below
count_below-apart zero p q h = refl
count_below-apart (suc n) p q h = ground (arith, h n, count_below-apart n p q h)

pub covers-from :
    (low : ℕ) (l : List V4pfxInt) (x : ℕ) → IsQueue low l → covers l x ≡ true → low ≤ x
unfolding covers
covers-from low [] x q h = cc
covers-from low (c ∷ next) x q h = ground (arith, q.0, q.1, covers-from (suc c.end) next x q.2)

count_below-covers :
    (n low : ℕ) (c : V4pfxInt) (next : List V4pfxInt)
    → IsQueue low (c ∷ next)
    → c.end < n
    → count_below n (covers (c ∷ next)) ≡ suc (c.end - c.start) + count_below n (covers next)
unfolding covers
count_below-covers n low c next q fits = omega (
  arith,
  q.1,
  count_below-apart n (within c.start c.end) (covers next)
      (λ x. ground (arith, covers-from (suc c.end) next x q.2)),
  count_below-within n c.start c.end q.1,
)

-- An interval of 32-bit addresses that is not the whole space.
abbrev pub IsPart : V4pfxInt → Type 0
IsPart c = (c.end < 2 ^ 32) × (c.end < 2 ^ 32 - 1 + c.start)

count_loop4_lem :
    (l : List V4pfxInt) (low ip_count : ℕ)
    → IsQueue low l
    → All IsPart l
    → ip_count + count_below (2 ^ 32) (covers l) < 2 ^ 64
    → count_loop4 l ip_count ≡ ip_count + count_below (2 ^ 32) (covers l)
unfolding count_loop4
count_loop4_lem [] low ip_count q part h = omega (arith, count_below-nil (2 ^ 32))
count_loop4_lem (c ∷ next) low ip_count q part h =
    let size : size32 c.end c.start ≡ suc (c.end - c.start) =
      omega (arith, q.1, part.0.0, part.0.1) in
    let rest : count_below (2 ^ 32) (covers (c ∷ next))
        ≡ suc (c.end - c.start) + count_below (2 ^ 32) (covers next) =
      count_below-covers (2 ^ 32) low c next q part.0.0 in
    let added : (ip_count + size32 c.end c.start) % 2 ^ 64 ≡ ip_count + suc (c.end - c.start) =
      omega (arith, size, rest, h) in
    ap (λ n. count_loop4 next n) added
    ∙ count_loop4_lem next (suc c.end) (ip_count + suc (c.end - c.start)) q.2 part.1
        (omega (arith, rest, h))
    ∙ omega (arith, rest)

-- The count of an IPv4 queue in order, with 32-bit ends and no interval that is the whole
-- space, is the number of addresses that the queue covers.
pub get_ipcount_lem :
    (ipc : IpCounter)
    → IsQueue 0 ipc.v4list
    → All IsPart ipc.v4list
    → get_ipcount ipc ipv4 ≡ count_below (2 ^ 32) (covers ipc.v4list)
unfolding get_ipcount
get_ipcount_lem ipc q part =
    count_loop4_lem ipc.v4list 0 0 q part
      (omega (arith, count_below-le (2 ^ 32) (covers ipc.v4list)))
    ∙ omega arith
