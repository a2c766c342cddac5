-- ===== src/Prelude/Bits.antt =====
-- `&`, `^` and shifts at variables, as arithmetic, at every width.
use Prim.Native.Nat.{
  ℕ, zero, suc, ◌+◌, ◌-◌, ◌*◌, ◌/◌, ◌%◌, ◌^◌, ◌≤◌, ◌<◌, min, bit_and, bit_xor, digits, differ,
  bit_and-bitwise, bit_xor-bitwise,
}
use mathlib.Core.Path.{◌≡◌, refl, sym, ap, ◌∙◌}
use native.Mathlib.Nat.{pow-suc, one-le-pow, div-div-eq-div-mul, div-add-mod, mul_comm}
use mathlib.Core.Bool.{Bool, true, ◌&&◌}
use native.Mathlib.Omega.{arith}

-- The native operations stand for a recursion on binary digits with fuel. Fuel above the first
-- number changes nothing.
module _ (z : ℕ → ℕ) (f : ℕ → ℕ → ℕ) where
  digits_one_more : (n a b : ℕ) → a ≤ n → digits z f (suc n) a b ≡ digits z f n a b
  digits_one_more zero zero b h = refl
  digits_one_more zero (suc a) b h = absurd (omega arith)
  digits_one_more (suc n) zero b h = refl
  digits_one_more (suc n) (suc a) b h = rw (digits_one_more n (suc a / 2) (b / 2) (omega arith))

  digits_more : (k n m a b : ℕ) → k + n ≡ m → a ≤ n → digits z f m a b ≡ digits z f n a b
  digits_more zero n m a b e h = let e' : m ≡ n = omega arith in rw e'
  digits_more (suc k) n m a b e h =
      let e' : m ≡ suc (k + n) = omega arith in
      rw e' (digits_one_more (k + n) a b (omega arith) ∙ digits_more k n (k + n) a b refl h)

  pub digits_half : (a b : ℕ) → digits z f a (suc a / 2) b ≡ digits z f (suc a / 2) (suc a / 2) b
  digits_half a b = digits_more (a - suc a / 2) (suc a / 2) a _ b (omega arith) (omega arith)

pub bit_and_step : (x y : ℕ) → bit_and x y ≡ min (x % 2) (y % 2) + 2 * bit_and (x / 2) (y / 2)
bit_and_step zero y = simp bit_and-bitwise (omega arith)
bit_and_step (suc x) y = simp bit_and-bitwise (omega (arith, digits_half (λ n. 0) min x (y / 2)))

-- The exclusive or of two binary digits.
differ_zero : (b : ℕ) → b < 2 → differ 0 b ≡ b
differ_zero zero h = refl
differ_zero (suc zero) h = refl
differ_zero (suc (suc b)) h = absurd (omega arith)

bit_xor_step : (a b : ℕ) → bit_xor a b ≡ bit_xor (a / 2) (b / 2) * 2 + differ (a % 2) (b % 2)
bit_xor_step zero b = simp bit_xor-bitwise (omega (arith, differ_zero (b % 2) (omega arith)))
bit_xor_step (suc a) b = simp bit_xor-bitwise (omega (arith, digits_half (λ y. y) differ a (b / 2)))

differ-lt : (a b : ℕ) → a < 2 → b < 2 → differ a b < 2
differ-lt zero zero p q = omega arith
differ-lt zero (suc zero) p q = omega arith
differ-lt (suc zero) zero p q = omega arith
differ-lt (suc zero) (suc zero) p q = omega arith
differ-lt (suc (suc a)) b p q = absurd (omega arith)
differ-lt a (suc (suc b)) p q = absurd (omega arith)

half_pow : (a k : ℕ) → a / 2 / 2 ^ k ≡ a / 2 ^ suc k
half_pow a k =
    div-div-eq-div-mul a 2 (2 ^ k) ∙ ap (λ t. a / t) (mul_comm 2 (2 ^ k) ∙ sym (pow-suc 2 k))

-- A digit of an exclusive or is that of the two digits.
pub bit_xor_digit : (k a b : ℕ) → bit_xor a b / 2 ^ k % 2 ≡ differ (a / 2 ^ k % 2) (b / 2 ^ k % 2)
bit_xor_digit zero a b =
    let one : (x : ℕ) → x / 2 ^ 0 ≡ x = λ x. omega arith in
    rw (one (bit_xor a b), one a, one b)
      (omega (arith, bit_xor_step a b, differ-lt (a % 2) (b % 2) (omega arith) (omega arith)))
bit_xor_digit (suc k) a b =
    rw (← half_pow (bit_xor a b) k, ← half_pow a k, ← half_pow b k, halves)
      (bit_xor_digit k (a / 2) (b / 2))
  where
    halves : bit_xor a b / 2 ≡ bit_xor (a / 2) (b / 2)
    halves = omega (arith, bit_xor_step a b, differ-lt (a % 2) (b % 2) (omega arith) (omega arith))

pub bit_xor-lt : (k a b : ℕ) → a < 2 ^ k → b < 2 ^ k → bit_xor a b < 2 ^ k
bit_xor-lt zero zero zero p q = omega arith
bit_xor-lt zero (suc a) b p q = absurd (omega arith)
bit_xor-lt zero zero (suc b) p q = absurd (omega arith)
bit_xor-lt (suc k) a b p q = omega (
  arith,
  pow-suc 2 k,
  bit_xor_step a b,
  differ-lt (a % 2) (b % 2) (omega arith) (omega arith),
  bit_xor-lt k (a / 2) (b / 2) (omega (arith, pow-suc 2 k)) (omega (arith, pow-suc 2 k)),
)

pub bit_and-zero_below : (n a : ℕ) → a ≤ n → bit_and a 0 ≡ 0
bit_and-zero_below n zero h = refl
bit_and-zero_below zero (suc a) h = absurd (omega arith)
bit_and-zero_below (suc n) (suc a) h =
    omega (arith, bit_and_step (suc a) 0, bit_and-zero_below n (suc a / 2) (omega arith))

-- A mask whose low digits are all zero acts on the high digits alone.
pub bit_and-mul_pow : (s x y : ℕ) → bit_and x (y * 2 ^ s) ≡ bit_and (x / 2 ^ s) y * 2 ^ s
bit_and-mul_pow zero x y =
    let one : x / 2 ^ 0 ≡ x = omega arith in
    let same : y * 2 ^ 0 ≡ y = omega arith in rw (one, same) (omega arith)
bit_and-mul_pow (suc s) x y =
    let even : y * 2 ^ suc s ≡ 2 * (y * 2 ^ s) =
      omega (arith, ap (λ (t : ℕ). y * t) (pow-suc 2 s)) in
    let half : 2 * (y * 2 ^ s) / 2 ≡ y * 2 ^ s = omega arith in
    rw (even, bit_and_step x (2 * (y * 2 ^ s)), half, bit_and-mul_pow s (x / 2) y, half_pow x s)
      (omega (arith, ap (λ (t : ℕ). bit_and (x / 2 ^ suc s) y * t) (pow-suc 2 s)))

mod_pow_suc : (k x : ℕ) → x % 2 ^ suc k ≡ x / 2 % 2 ^ k * 2 + x % 2
mod_pow_suc k x = omega (
  arith,
  pow-suc 2 k,
  half_pow x k,
  div-add-mod x (2 ^ suc k),
  div-add-mod (x / 2) (2 ^ k),
  ap (λ (t : ℕ). t * (x / 2 ^ suc k)) (pow-suc 2 k),
  ap (λ (t : ℕ). 2 ^ k * t) (half_pow x k),
)

-- A mask of `k` low ones is the remainder by `2 ^ k`.
pub bit_and_low : (k x : ℕ) → bit_and x (2 ^ k - 1) ≡ x % 2 ^ k
bit_and_low zero x = omega (arith, bit_and-zero_below x x (omega arith))
bit_and_low (suc k) x =
    let half : (2 ^ suc k - 1) / 2 ≡ 2 ^ k - 1 = omega (arith, pow-suc 2 k, one-le-pow k 2) in
    rw (bit_and_step x (2 ^ suc k - 1), half, bit_and_low k (x / 2))
      (omega (arith, mod_pow_suc k x, pow-suc 2 k, one-le-pow k 2))

-- The same for `&`, whose digits are the lesser of two.
pub bit_and_digit : (k a b : ℕ) → bit_and a b / 2 ^ k % 2 ≡ min (a / 2 ^ k % 2) (b / 2 ^ k % 2)
bit_and_digit zero a b =
    let one : (x : ℕ) → x / 2 ^ 0 ≡ x = λ x. omega arith in
    rw (one (bit_and a b), one a, one b) (omega (arith, bit_and_step a b))
bit_and_digit (suc k) a b =
    let halves : bit_and a b / 2 ≡ bit_and (a / 2) (b / 2) = omega (arith, bit_and_step a b) in
    rw (← half_pow (bit_and a b) k, ← half_pow a k, ← half_pow b k, halves)
      (bit_and_digit k (a / 2) (b / 2))

pub bit_and-lt : (k a b : ℕ) → a < 2 ^ k → bit_and a b < 2 ^ k
bit_and-lt zero zero b p = simp bit_and-bitwise (omega arith)
bit_and-lt zero (suc a) b p = absurd (omega arith)
bit_and-lt (suc k) a b p = omega (
  arith,
  pow-suc 2 k,
  bit_and_step a b,
  bit_and-lt k (a / 2) (b / 2) (omega (arith, pow-suc 2 k)),
)

-- Over a small range, check every value by evaluation.
unfoldable pub all_below : ℕ → (ℕ → Bool) → Bool
all_below zero test = true
all_below (suc last) test = test last && all_below last test

pub all_below_sound :
    (bound : ℕ) (test : ℕ → Bool) (i : ℕ) → all_below bound test ≡ true → i < bound → test i ≡ true
unfolding all_below
all_below_sound zero test i all lt = absurd (omega arith)
all_below_sound (suc bound) test i all lt = ground (arith, all_below_sound bound test i)

pub all_below_complete :
    (n : ℕ) (p : ℕ → Bool) → ((x : ℕ) → x < n → p x ≡ true) → all_below n p ≡ true
unfolding all_below
all_below_complete zero p h = refl
all_below_complete (suc n) p h =
    rw (h n (omega arith)) (all_below_complete n p (λ x lt. h x (omega arith)))
