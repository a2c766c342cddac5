-- ===== src/Addr/Mask.antt =====
-- What masking an address does to each of its bits.
use libbgpstream.Prelude.{
  ℕ, zero, suc, ◌+◌, ◌-◌, ◌*◌, ◌/◌, ◌%◌, ◌^◌, ◌≤◌, ◌<◌, ◌≡◌, refl, ap, true, not, ◌&&◌, List, [],
  ◌∷◌, ◌++◌, bit_and, ◌==◌, ltb, leb, if◌then◌else◌, length, get_or, take, replicate, arith,
  bit_and-lt, ==_iff, all_below, all_below_sound, lt→ltb, le→ltb, Bool-cases, inl, inr,
}
use libbgpstream.Addr.{
  Addr, AddrVersion, unknown, ipv4, ipv6, IsAddr, width, addr_mask, bit_array_test, and_bytes,
  htonl, mask32, ipv4_addr_mask, ipv6_addr_mask, mask_at,
}
use libbgpstream.Addr.Digits.{
  digit, zero_digit, bit_array_test_lem, digit-bit_and_one, digit-bit_and_zero,
}

-- The digit of the mask for bit n.
abbrev kept : ℕ → ℕ → ℕ
kept mask_len n = if ltb n mask_len then 1 else 0

mask32_table :
    all_below 32
      (λ m. all_below 32 (λ n. digit (get_or (htonl (mask32 m)) (n / 8) 0) (n % 8) == kept m n))
    ≡ true
unfolding all_below
mask32_table = refl

digit-mask32 :
    (m n : ℕ) → m < 32 → n < 32 → digit (get_or (htonl (mask32 m)) (n / 8) 0) (n % 8) ≡ kept m n
digit-mask32 m n hm hn =
    (==_iff _ _).0 (all_below_sound 32 _ n (all_below_sound 32 _ m mask32_table hm) hn)

byte_mask_table :
    all_below 8 (λ r. all_below 8 (λ j. digit (0xff * 2 ^ (8 - r)) j == kept r j)) ≡ true
unfolding all_below
byte_mask_table = refl

byte_mask_digit : (r j : ℕ) → r < 8 → j < 8 → digit (0xff * 2 ^ (8 - r)) j ≡ kept r j
byte_mask_digit r j hr hj =
    (==_iff _ _).0 (all_below_sound 8 _ j (all_below_sound 8 _ r byte_mask_table hr) hj)

get_or-and_bytes :
    (xs ys : List ℕ) (i : ℕ)
    → length xs ≡ length ys
    → i < length xs
    → get_or (and_bytes xs ys) i 0 ≡ bit_and (get_or xs i 0) (get_or ys i 0)
get_or-and_bytes [] ys i e h = absurd (omega arith)
get_or-and_bytes (x ∷ xs) [] i e h = absurd (omega arith)
get_or-and_bytes (x ∷ xs) (y ∷ ys) zero e h = refl
get_or-and_bytes (x ∷ xs) (y ∷ ys) (suc i) e h =
    get_or-and_bytes xs ys i (omega arith) (omega arith)

get_or-zeros : (k j : ℕ) → ◌≡◌ {A = ℕ} (get_or (replicate k 0) j 0) 0
get_or-zeros zero j = refl
get_or-zeros (suc k) zero = refl
get_or-zeros (suc k) (suc j) = get_or-zeros k j

get_or-splice :
    (i j k c : ℕ) (xs : List ℕ)
    → i ≤ length xs
    → get_or (take i xs ++ (c ∷ replicate k 0)) j 0
      ≡ (if ltb j i then get_or xs j 0 else if j == i then c else 0)
get_or-splice zero zero k c xs h = refl
get_or-splice zero (suc j) k c xs h = ground (arith, get_or-zeros k j)
get_or-splice (suc i) j k c [] h = absurd (omega arith)
get_or-splice (suc i) zero k c (x ∷ xs) h = ground arith
get_or-splice (suc i) (suc j) k c (x ∷ xs) h = ground (arith, get_or-splice i j k c xs)

-- A digit after `&` with a mask digit that is `kept`.
digit-kept :
    (x m j a b : ℕ)
    → digit m j ≡ kept a b
    → not (digit (bit_and x m) j == 0) ≡ (ltb b a && not (digit x j == 0))
digit-kept x m j a b h = elim (Bool-cases (ltb b a)) [
  | inl e ↦ ground (arith, digit-bit_and_one x m j)
  | inr e ↦ ground (arith, digit-bit_and_zero x m j)
]

ipv4_mask_bit :
    (bytes : List ℕ) (m n : ℕ)
    → length bytes ≡ 4
    → n < 32
    → bit_array_test (ipv4_addr_mask bytes m) n ≡ (ltb n m && bit_array_test bytes n)
unfolding ipv4_addr_mask
ipv4_mask_bit bytes m n full hn = elim (Bool-cases (leb 32 m)) [
  | inl e ↦ rw (e, lt→ltb n m (ground arith))
  | inr e ↦
      rw
        (
          e,
          bit_array_test_lem,
          bit_array_test_lem bytes n,
          get_or-and_bytes bytes (htonl (mask32 m)) (n / 8) full (omega arith),
        )
        (digit-kept _ _ (n % 8) m n (digit-mask32 m n (ground arith) hn))
]

same_byte : (m n : ℕ) → n / 8 ≡ m / 8 → ltb (n % 8) (m % 8) ≡ ltb n m
same_byte m n e = ground arith

-- The bit of the byte that masking leaves: whole before byte m / 8, cut in it and zero after.
spliced_bit :
    (x y : ℕ) (m n : ℕ)
    → (n / 8 ≡ m / 8 → x ≡ y)
    → not (
        digit
          (if ltb (n / 8) (m / 8)
            then x
            else if n / 8 == m / 8
            then bit_and y (0xff * 2 ^ (8 - m % 8))
            else 0)
          (n % 8)
        == 0)
      ≡ (ltb n m && not (digit x (n % 8) == 0))
spliced_bit x y m n same = elim (Bool-cases (ltb (n / 8) (m / 8))) [
  | inl before ↦ rw (before, lt→ltb n m (ground arith))
  | inr later ↦ elim (Bool-cases (n / 8 == m / 8)) [
    | inl at ↦
        let e : n / 8 ≡ m / 8 = (==_iff _ _).0 at in
        rw (later, at, same e, ← same_byte m n e)
          (digit-kept y _ (n % 8) (m % 8) (n % 8)
            (byte_mask_digit (m % 8) (n % 8) (omega arith) (omega arith)))
    | inr after ↦ rw (later, after, le→ltb n m (ground arith), zero_digit (n % 8))
  ]
]

ipv6_mask_bit :
    (bytes : List ℕ) (m n : ℕ)
    → length bytes ≡ 16
    → n < 128
    → bit_array_test (ipv6_addr_mask bytes m) n ≡ (ltb n m && bit_array_test bytes n)
unfolding ipv6_addr_mask
ipv6_mask_bit bytes m n full hn = elim (Bool-cases (leb 128 m)) [
  | inl e ↦ rw (e, lt→ltb n m (ground arith))
  | inr e ↦
      let short : m < 128 = ground arith in
      rw
        (
          e,
          bit_array_test_lem,
          bit_array_test_lem bytes n,
          get_or-splice (m / 8) (n / 8) (16 - (m / 8 + 1))
              (bit_and (get_or bytes (m / 8) 0) (0xff * 2 ^ (8 - m % 8))) bytes (omega arith),
        )
        (spliced_bit (get_or bytes (n / 8) 0) (get_or bytes (m / 8) 0) m n
          (λ e. ap (λ i. get_or bytes i 0) e))
]

mask_at_bit :
    (v : AddrVersion) (bytes : List ℕ) (m n : ℕ)
    → length bytes ≡ width v
    → n < 8 * width v
    → bit_array_test (mask_at v bytes m) n ≡ (ltb n m && bit_array_test bytes n)
unfolding mask_at
mask_at_bit unknown bytes m n full h = absurd (omega arith)
mask_at_bit ipv4 bytes m n full h = ipv4_mask_bit bytes m n full (omega arith)
mask_at_bit ipv6 bytes m n full h = ipv6_mask_bit bytes m n full (omega arith)

-- Masking a well-formed address keeps each bit before the length and clears each bit from it
-- on.
pub addr_mask_bit :
    (a : Addr) (m n : ℕ)
    → IsAddr a
    → n < 8 * width a.version
    → bit_array_test (addr_mask a m).bytes n ≡ (ltb n m && bit_array_test a.bytes n)
unfolding addr_mask
addr_mask_bit a m n ok h = mask_at_bit a.version a.bytes m n ok.full h

-- The mask leaves an address an address.
length-and_bytes : (xs ys : List ℕ) → length xs ≡ length ys → length (and_bytes xs ys) ≡ length xs
length-and_bytes [] ys e = refl
length-and_bytes (x ∷ xs) [] e = absurd (omega arith)
length-and_bytes (x ∷ xs) (y ∷ ys) e = omega (arith, length-and_bytes xs ys (omega arith))

length-splice :
    (i k c : ℕ) (xs : List ℕ)
    → i ≤ length xs
    → length (take i xs ++ (c ∷ replicate k 0)) ≡ i + (k + 1)
length-splice zero zero c xs h = refl
length-splice zero (suc k) c xs h = omega (arith, length-splice zero k c xs h)
length-splice (suc i) k c [] h = absurd (omega arith)
length-splice (suc i) k c (x ∷ xs) h = omega (arith, length-splice i k c xs (omega arith))

byte_fits : (x y : ℕ) → x < 256 → bit_and x y < 256
byte_fits x y h = bit_and-lt 8 x y h

and_bytes_fit : (xs ys : List ℕ) (i : ℕ) → get_or xs i 0 < 256 → get_or (and_bytes xs ys) i 0 < 256
and_bytes_fit [] ys i h = omega arith
and_bytes_fit (x ∷ xs) [] i h = omega arith
and_bytes_fit (x ∷ xs) (y ∷ ys) zero h = byte_fits x y h
and_bytes_fit (x ∷ xs) (y ∷ ys) (suc i) h = and_bytes_fit xs ys i h

length-mask_at :
    (v : AddrVersion) (bytes : List ℕ) (m : ℕ)
    → length bytes ≡ width v
    → length (mask_at v bytes m) ≡ width v
unfolding mask_at ipv4_addr_mask ipv6_addr_mask
length-mask_at unknown bytes m full = full
length-mask_at ipv4 bytes m full = ground (arith, length-and_bytes bytes (htonl (mask32 m)))
length-mask_at ipv6 bytes m full = ground (
  arith,
  length-splice (m / 8) (16 - (m / 8 + 1))
      (bit_and (get_or bytes (m / 8) 0) (0xff * 2 ^ (8 - m % 8))) bytes,
)

mask_at_fits :
    (v : AddrVersion) (bytes : List ℕ) (m i : ℕ)
    → length bytes ≡ width v
    → ((j : ℕ) → get_or bytes j 0 < 256)
    → get_or (mask_at v bytes m) i 0 < 256
unfolding mask_at ipv4_addr_mask ipv6_addr_mask
mask_at_fits unknown bytes m i full h = h i
mask_at_fits ipv4 bytes m i full h = ground (arith, h i, and_bytes_fit bytes (htonl (mask32 m)) i)
mask_at_fits ipv6 bytes m i full h = ground (
  arith,
  h i,
  byte_fits (get_or bytes (m / 8) 0) (0xff * 2 ^ (8 - m % 8)) (h (m / 8)),
  get_or-splice (m / 8) i (16 - (m / 8 + 1))
      (bit_and (get_or bytes (m / 8) 0) (0xff * 2 ^ (8 - m % 8))) bytes,
)

pub addr_mask-IsAddr : (a : Addr) (m : ℕ) → IsAddr a → IsAddr (addr_mask a m)
unfolding addr_mask
addr_mask-IsAddr a m ok = record {
  known = ok.known;
  full = length-mask_at a.version a.bytes m ok.full;
  bytes_fit = λ i. mask_at_fits a.version a.bytes m i ok.full ok.bytes_fit;
}
