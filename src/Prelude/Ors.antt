-- ===== src/Prelude/Ors.antt =====
-- `|` of numbers with no binary digit in common, as their sum, and the digits that `|` keeps.
use Prim.Native.Nat.{
  ℕ, zero, suc, ◌+◌, ◌*◌, ◌/◌, ◌%◌, ◌^◌, ◌≤◌, ◌<◌, max, bit_and, bit_or, bit_or-bitwise,
}
use mathlib.Core.Path.{◌≡◌, refl, ap, ◌∙◌}
use native.Mathlib.Nat.{pow-suc}
use native.Mathlib.Omega.{arith}
use libbgpstream.Prelude.Bits.{digits_half, bit_and_step, bit_and-zero_below}

bit_or_step : (x y : ℕ) → bit_or x y ≡ max (x % 2) (y % 2) + 2 * bit_or (x / 2) (y / 2)
bit_or_step zero y = simp bit_or-bitwise (omega arith)
bit_or_step (suc x) y = simp bit_or-bitwise (omega (arith, digits_half (λ n. n) max x (y / 2)))

bit_or-zero_below : (n a : ℕ) → a ≤ n → bit_or a 0 ≡ a
bit_or-zero_below n zero h = simp bit_or-bitwise refl
bit_or-zero_below zero (suc a) h = absurd (omega arith)
bit_or-zero_below (suc n) (suc a) h =
    omega (arith, bit_or_step (suc a) 0, bit_or-zero_below n (suc a / 2) (omega arith))

pub bit_or_low : (k q r : ℕ) → r < 2 ^ k → bit_or (q * 2 ^ k) r ≡ q * 2 ^ k + r
bit_or_low zero q zero h =
    let same : q * 2 ^ 0 ≡ q = omega arith in
    rw same (bit_or-zero_below q q (omega arith) ∙ omega arith)
bit_or_low zero q (suc r) h = absurd (omega arith)
bit_or_low (suc k) q r h =
    let even : q * 2 ^ suc k ≡ 2 * (q * 2 ^ k) =
      omega (arith, ap (λ (t : ℕ). q * t) (pow-suc 2 k)) in
    let half : 2 * (q * 2 ^ k) / 2 ≡ q * 2 ^ k = omega arith in
    rw
      (
        even,
        bit_or_step (2 * (q * 2 ^ k)) r,
        half,
        bit_or_low k q (r / 2) (omega (arith, pow-suc 2 k)),
      )
      (omega arith)

bit_and_or_right_below : (n a b : ℕ) → b ≤ n → bit_and (bit_or a b) b ≡ b
bit_and_or_right_below n a zero h = bit_and-zero_below (bit_or a 0) (bit_or a 0) (omega arith)
bit_and_or_right_below zero a (suc b) h = absurd (omega arith)
bit_and_or_right_below (suc n) a (suc b) h =
    let halves : bit_or a (suc b) / 2 ≡ bit_or (a / 2) (suc b / 2) =
      omega (arith, bit_or_step a (suc b)) in
    rw
      (
        bit_and_step (bit_or a (suc b)) (suc b),
        halves,
        bit_and_or_right_below n (a / 2) (suc b / 2) (omega arith),
      )
      (omega (arith, bit_or_step a (suc b)))

-- An `|` has every digit of its second number.
pub bit_and_or_right : (a b : ℕ) → bit_and (bit_or a b) b ≡ b
bit_and_or_right a b = bit_and_or_right_below b a b (omega arith)

bit_and_or_left_below : (n h b a : ℕ) → a ≤ n → bit_and h a ≡ a → bit_and (bit_or h b) a ≡ a
bit_and_or_left_below n h b zero le e = bit_and-zero_below (bit_or h b) (bit_or h b) (omega arith)
bit_and_or_left_below zero h b (suc a) le e = absurd (omega arith)
bit_and_or_left_below (suc n) h b (suc a) le e =
    let halves : bit_or h b / 2 ≡ bit_or (h / 2) (b / 2) = omega (arith, bit_or_step h b) in
    rw
      (
        bit_and_step (bit_or h b) (suc a),
        halves,
        bit_and_or_left_below n (h / 2) (b / 2) (suc a / 2) (omega arith)
            (omega (arith, bit_and_step h (suc a))),
      )
      (omega (arith, bit_or_step h b, bit_and_step h (suc a)))

-- It keeps the digits that its first number has.
pub bit_and_or_left : (h b a : ℕ) → bit_and h a ≡ a → bit_and (bit_or h b) a ≡ a
bit_and_or_left h b a e = bit_and_or_left_below a h b a (omega arith) e
