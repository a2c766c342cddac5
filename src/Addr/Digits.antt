-- ===== src/Addr/Digits.antt =====
-- The bits of an address, as digits of its bytes.
use libbgpstream.Prelude.{
  ℕ, zero, suc, ◌+◌, ◌-◌, ◌*◌, ◌/◌, ◌%◌, ◌^◌, ◌≤◌, ◌<◌, ◌≡◌, refl, sym, ap, ◌∙◌, not, List, bit_and,
  ◌==◌, get_or, arith, bit_and-mul_pow, bit_and_low, bit_and_digit, Bool-cases, ==_iff, inl, inr,
}
use native.Mathlib.Nat.{one-le-pow, pow-suc, div-div-eq-div-mul}
use libbgpstream.Addr.{bit_array_test}

-- The j-th digit of a byte, from the most significant one.
abbrev pub digit : ℕ → ℕ → ℕ
digit x j = x / 2 ^ (7 - j) % 2

pub zero_digit : (j : ℕ) → digit 0 j ≡ 0
zero_digit j = omega arith

shifted_one : (j : ℕ) → j < 8 → 0x80 / 2 ^ j ≡ 1 * 2 ^ (7 - j)
shifted_one zero h = refl
shifted_one (suc zero) h = refl
shifted_one (suc (suc zero)) h = refl
shifted_one (suc (suc (suc zero))) h = refl
shifted_one (suc (suc (suc (suc zero)))) h = refl
shifted_one (suc (suc (suc (suc (suc zero))))) h = refl
shifted_one (suc (suc (suc (suc (suc (suc zero)))))) h = refl
shifted_one (suc (suc (suc (suc (suc (suc (suc zero))))))) h = refl
shifted_one (suc (suc (suc (suc (suc (suc (suc (suc j)))))))) h = absurd (omega arith)

mul_eq_zero_test : (d p : ℕ) → 0 < p → (d * p == 0) ≡ (d == 0)
mul_eq_zero_test zero p h = ground arith
mul_eq_zero_test (suc d) p h = grind arith

-- A single-bit mask reads one digit.
pub bit_and_one_bit : (x j : ℕ) → j < 8 → (bit_and x (0x80 / 2 ^ j) == 0) ≡ (digit x j == 0)
bit_and_one_bit x j h =
    rw (shifted_one j h, bit_and-mul_pow (7 - j) x 1, bit_and_low 1 (x / 2 ^ (7 - j)))
      (mul_eq_zero_test (digit x j) (2 ^ (7 - j)) (one-le-pow (7 - j) 2 (omega arith)))

-- `BIT_ARRAY_TEST` by divisions.
pub bit_array_test_lem :
    (p : List ℕ) (n : ℕ) → bit_array_test p n ≡ not (digit (get_or p (n / 8) 0) (n % 8) == 0)
unfolding bit_array_test
bit_array_test_lem p n =
    rw (bit_and_low 3 n, bit_and_one_bit (get_or p (n / 8) 0) (n % 8) (omega arith))

-- A digit of `&` with a mask whose digit is known.
pub digit-bit_and_one : (x m j : ℕ) → digit m j ≡ 1 → digit (bit_and x m) j ≡ digit x j
digit-bit_and_one x m j h = omega (arith, bit_and_digit (7 - j) x m)

pub digit-bit_and_zero : (x m j : ℕ) → digit m j ≡ 0 → digit (bit_and x m) j ≡ 0
digit-bit_and_zero x m j h = omega (arith, bit_and_digit (7 - j) x m)

half_shift : (x k : ℕ) → x / 2 ^ k / 2 ≡ x / 2 ^ suc k
half_shift x k = div-div-eq-div-mul x (2 ^ k) 2 ∙ ap (λ t. x / t) (sym (pow-suc 2 k))

-- The high digits of a byte make up its quotient.
quotient_step : (x q : ℕ) → q < 8 → x / 2 ^ (7 - q) ≡ 2 * (x / 2 ^ (8 - q)) + digit x q
quotient_step x q h =
    let e : 8 - q ≡ suc (7 - q) = omega arith in rw e (omega (arith, half_shift x (7 - q)))

pub quotient_of_digits :
    (q x y : ℕ)
    → q ≤ 8
    → x < 256
    → y < 256
    → ((j : ℕ) → j < q → digit x j ≡ digit y j)
    → x / 2 ^ (8 - q) ≡ y / 2 ^ (8 - q)
quotient_of_digits zero x y h hx hy same = omega arith
quotient_of_digits (suc q) x y h hx hy same =
    let e : 8 - suc q ≡ 7 - q = omega arith in
    rw e (
      omega (
        arith,
        quotient_step x q (omega arith),
        quotient_step y q (omega arith),
        same q (omega arith),
        quotient_of_digits q x y (omega arith) hx hy (λ j p. same j (omega arith)),
      ))

pub digits_of_quotient :
    (q x y j : ℕ) → q ≤ 8 → x / 2 ^ (8 - q) ≡ y / 2 ^ (8 - q) → j < q → digit x j ≡ digit y j
digits_of_quotient zero x y j h e lt = absurd (omega arith)
digits_of_quotient (suc q) x y j h e lt = elim (Bool-cases (j == q)) [
  | inl at ↦ let j' : j ≡ q = (==_iff j q).0 at in rw j' (omega (arith, quotients))
  | inr before ↦
      digits_of_quotient q x y j (omega arith)
        (omega (arith, quotients, quotient_step x q (omega arith), quotient_step y q (omega arith)))
        (ground arith)
]
  where
    quotients : x / 2 ^ (7 - q) ≡ y / 2 ^ (7 - q)
    quotients = let e' : 8 - suc q ≡ 7 - q = omega arith in rw e' at e

pub byte_of_digits :
    (x y : ℕ) → x < 256 → y < 256 → ((j : ℕ) → j < 8 → digit x j ≡ digit y j) → x ≡ y
byte_of_digits x y hx hy same = omega (arith, quotient_of_digits 8 x y (omega arith) hx hy same)

-- Bits of two byte strings agree where their digits do.
digit_test : (d e : ℕ) → d < 2 → e < 2 → not (d == 0) ≡ not (e == 0) → d ≡ e
digit_test d e hd he h = ground arith

pub digit_of_bit :
    (p q : List ℕ) (i j : ℕ)
    → j < 8
    → bit_array_test p (8 * i + j) ≡ bit_array_test q (8 * i + j)
    → digit (get_or p i 0) j ≡ digit (get_or q i 0) j
digit_of_bit p q i j lt h =
    let at : (8 * i + j) / 8 ≡ i = omega arith in
    let within : (8 * i + j) % 8 ≡ j = omega arith in
    digit_test _ _ (omega arith) (omega arith)
      (rw (bit_array_test_lem p (8 * i + j), bit_array_test_lem q (8 * i + j), at, within) at h)

pub bit_of_digit :
    (p q : List ℕ) (n : ℕ)
    → digit (get_or p (n / 8) 0) (n % 8) ≡ digit (get_or q (n / 8) 0) (n % 8)
    → bit_array_test p n ≡ bit_array_test q n
bit_of_digit p q n h = rw (bit_array_test_lem p n, bit_array_test_lem q n, h)
