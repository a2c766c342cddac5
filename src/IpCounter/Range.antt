-- ===== src/IpCounter/Range.antt =====
-- The addresses of an IPv4 prefix, as bgpstream_ip_counter_add and
-- bgpstream_ip_counter_is_overlapping4 of lib/utils/bgpstream_utils_ip_counter.c find them.
use libbgpstream.Prelude.{
  ℕ, suc, ◌+◌, ◌-◌, ◌*◌, ◌/◌, ◌%◌, ◌^◌, ◌≤◌, ◌<◌, ◌≡◌, ◌↔◌, refl, ap, ◌∙◌, true, ◌&&◌, List, leb,
  ◌==◌, ==_iff, arith, bit_and, bit_or, bit_and-mul_pow, bit_and_low, bit_or_low, get_or, all_below,
  all_below_sound,
}
use native.Mathlib.Nat.{div-lt_iff_lt-mul, one-le-pow, mod-eq_of_lt, pow-le-pow_right}
use libbgpstream.Pfx.{Pfx}
use libbgpstream.IpCounter.{V4pfxInt, range4, high_mask, ntohl}
use libbgpstream.IpCounter.Counting.{IsPart}
use libbgpstream.IpCounter.Query.{shifted_range4}

-- The block of 2 ^ k addresses that n is in.
abbrev pub block : ℕ → ℕ → V4pfxInt
block n k = record { start = n / 2 ^ k * 2 ^ k; end = n / 2 ^ k * 2 ^ k + (2 ^ k - 1) }

-- A test of the 33 lengths.
at_each :
    (p : ℕ → ℕ) (q : ℕ → ℕ) (m : ℕ) → all_below 33 (λ i. p i == q i) ≡ true → m ≤ 32 → p m ≡ q m
at_each p q m h le = (==_iff _ _).0 (all_below_sound 33 (λ i. p i == q i) m h (omega arith))

-- At each length, the mask is a number of high ones.
mask_lem : (m : ℕ) → m ≤ 32 → high_mask (32 - m) % 2 ^ 32 ≡ (2 ^ m - 1) * 2 ^ (32 - m)
unfolding all_below
mask_lem m h = at_each (λ i. high_mask (32 - i) % 2 ^ 32) (λ i. (2 ^ i - 1) * 2 ^ (32 - i)) m refl h

host_lem : (m : ℕ) → m ≤ 32 → 2 ^ 32 - 1 - (2 ^ m - 1) * 2 ^ (32 - m) ≡ 2 ^ (32 - m) - 1
unfolding all_below
host_lem m h =
    at_each (λ i. 2 ^ 32 - 1 - (2 ^ i - 1) * 2 ^ (32 - i)) (λ i. 2 ^ (32 - i) - 1) m refl h

shifted_lem :
    (m : ℕ) → m ≤ 32 → (2 ^ 32 - 1) / 2 ^ (32 - m) * 2 ^ (32 - m) ≡ (2 ^ m - 1) * 2 ^ (32 - m)
unfolding all_below
shifted_lem m h =
    at_each (λ i. (2 ^ 32 - 1) / 2 ^ (32 - i) * 2 ^ (32 - i)) (λ i. (2 ^ i - 1) * 2 ^ (32 - i)) m
      refl h

pow_lem : (m : ℕ) → m ≤ 32 → 2 ^ 32 ≡ 2 ^ m * 2 ^ (32 - m)
unfolding all_below
pow_lem m h = at_each (λ i. 2 ^ 32) (λ i. 2 ^ i * 2 ^ (32 - i)) m refl h

masked :
    (n m : ℕ)
    → m ≤ 32
    → n < 2 ^ 32
    → bit_and n ((2 ^ m - 1) * 2 ^ (32 - m)) ≡ n / 2 ^ (32 - m) * 2 ^ (32 - m)
masked n m h fits =
    bit_and-mul_pow (32 - m) n (2 ^ m - 1)
    ∙ ap (λ x. x * 2 ^ (32 - m)) (bit_and_low m (n / 2 ^ (32 - m)) ∙ small)
  where
    quotient : n / 2 ^ (32 - m) < 2 ^ m
    quotient =
        (div-lt_iff_lt-mul {k = 2 ^ (32 - m)} {x = n} {y = 2 ^ m}
            (one-le-pow (32 - m) 2 (omega arith))).1
          (omega (arith, pow_lem m h))

    small : n / 2 ^ (32 - m) % 2 ^ m ≡ n / 2 ^ (32 - m)
    small = mod-eq_of_lt quotient

filled : (n k : ℕ) → bit_or (n / 2 ^ k * 2 ^ k) (2 ^ k - 1) ≡ n / 2 ^ k * 2 ^ k + (2 ^ k - 1)
filled n k = bit_or_low k (n / 2 ^ k) (2 ^ k - 1) (omega (arith, one-le-pow k 2))

abbrev ends : ℕ → ℕ → V4pfxInt
ends start mask = record { start = start; end = bit_or start (2 ^ 32 - 1 - mask) }

ends_lem :
    (n m : ℕ)
    → m ≤ 32
    → ends (n / 2 ^ (32 - m) * 2 ^ (32 - m)) ((2 ^ m - 1) * 2 ^ (32 - m)) ≡ block n (32 - m)
ends_lem n m h =
    ap (λ e. record { start = n / 2 ^ (32 - m) * 2 ^ (32 - m); end = e })
      (ap (bit_or (n / 2 ^ (32 - m) * 2 ^ (32 - m))) (host_lem m h) ∙ filled n (32 - m))

-- The masks give the block of the addresses with the prefix's leading bits.
pub range4_lem :
    (pfx : Pfx)
    → pfx.mask_len ≤ 32
    → ntohl pfx.address.bytes < 2 ^ 32
    → range4 pfx ≡ block (ntohl pfx.address.bytes) (32 - pfx.mask_len)
unfolding range4
range4_lem pfx h fits =
    ap (λ mask. ends (bit_and (ntohl pfx.address.bytes) mask) mask) (mask_lem pfx.mask_len h)
    ∙ ap (λ start. ends start ((2 ^ pfx.mask_len - 1) * 2 ^ (32 - pfx.mask_len)))
        (masked (ntohl pfx.address.bytes) pfx.mask_len h fits)
    ∙ ends_lem (ntohl pfx.address.bytes) pfx.mask_len h

-- And so do the shifts.
pub shifted_range4_lem :
    (pfx : Pfx)
    → pfx.mask_len ≤ 32
    → shifted_range4 pfx ≡ block (ntohl pfx.address.bytes) (32 - pfx.mask_len)
unfolding shifted_range4
shifted_range4_lem pfx h =
    ap (ends (ntohl pfx.address.bytes / 2 ^ (32 - pfx.mask_len) * 2 ^ (32 - pfx.mask_len)))
      (shifted_lem pfx.mask_len h)
    ∙ ends_lem (ntohl pfx.address.bytes) pfx.mask_len h

pub ntohl-lt : (b : List ℕ) → ((i : ℕ) → get_or b i 0 < 256) → ntohl b < 2 ^ 32
ntohl-lt b h = omega (arith, h 0, h 1, h 2, h 3)

-- An address is in the block exactly if its leading bits are those of n.
pub within-block :
    (n k x : ℕ) → (leb (block n k).start x && leb x (block n k).end) ≡ (x / 2 ^ k == n / 2 ^ k)
within-block n k x = ground (
  arith,
  (below_iff (n / 2 ^ k)).0,
  (below_iff (n / 2 ^ k)).1,
  (below_iff (suc (n / 2 ^ k))).0,
  (below_iff (suc (n / 2 ^ k))).1,
  next,
  one-le-pow k 2 (omega arith),
)
  where
    below_iff : (y : ℕ) → (x / 2 ^ k < y) ↔ (x < y * 2 ^ k)
    below_iff y = div-lt_iff_lt-mul {k = 2 ^ k} {x = x} {y = y} (one-le-pow k 2 (omega arith))

    next : suc (n / 2 ^ k) * 2 ^ k ≡ n / 2 ^ k * 2 ^ k + 2 ^ k
    next = omega arith

-- No block but the one of all addresses is the whole space.
pub block-IsPart : (n m : ℕ) → 0 < m → m ≤ 32 → n < 2 ^ 32 → IsPart (block n (32 - m))
block-IsPart n m long h fits = (inside, omega (arith, small, one-le-pow k 2 (omega arith)))
  where
    k : ℕ
    k = 32 - m

    small : 2 ^ k ≤ 2 ^ 31
    small = pow-le-pow_right {n = 2} (omega arith) {i = k} {j = 31} (omega arith)

    in_block : (block n k).end / 2 ^ k ≡ n / 2 ^ k
    in_block = ground (arith, within-block n k (block n k).end, one-le-pow k 2 (omega arith))

    quotient : (block n k).end / 2 ^ k < 2 ^ m
    quotient = omega (
      arith,
      in_block,
      (div-lt_iff_lt-mul {k = 2 ^ k} {x = n} {y = 2 ^ m} (one-le-pow k 2 (omega arith))).1
          (omega (arith, pow_lem m h)),
    )

    inside : (block n k).end < 2 ^ 32
    inside = omega (
      arith,
      pow_lem m h,
      (div-lt_iff_lt-mul {k = 2 ^ k} {x = (block n k).end} {y = 2 ^ m}
            (one-le-pow k 2 (omega arith))).0
          quotient,
    )
