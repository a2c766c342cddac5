-- ===== src/Libc/Decimal.antt =====
-- A printed number reads back: `%u` of snprintf and strtoul.
use libbgpstream.Prelude.{
  ℕ, zero, suc, ◌+◌, ◌-◌, ◌*◌, ◌/◌, ◌%◌, ◌≤◌, ◌<◌, ◌≡◌, refl, ap, ◌∙◌, inl, inr, true, false, List,
  [], ◌∷◌, ◌++◌, arith, ltb, Bool-cases, ltb→lt, ltb→le,
}
use libbgpstream.Libc.{
  is_digit, starts_digit, skip_space, read_digits, ulong_max, unsigned_part, signed_part, strtoul,
  decimal_from, decimal,
}

read_digits-digit :
    (m d : ℕ) (tail : List ℕ)
    → d < 10
    → read_digits m ((b'0' + d) ∷ tail) ≡ read_digits (m * 10 + d) tail
unfolding read_digits
read_digits-digit m d tail h =
    let digit : is_digit (b'0' + d) ≡ true = ground arith in
    let value : b'0' + d - b'0' ≡ d = omega arith in rw (digit, value)

-- The digits of `n` before `tail` read as `n`.
read_digits-decimal_from :
    (f n : ℕ) (tail : List ℕ) → n ≤ f → read_digits 0 (decimal_from f n tail) ≡ read_digits n tail
unfolding decimal_from
read_digits-decimal_from zero n tail h =
    read_digits-digit 0 n tail (omega arith) ∙ ap (λ m. read_digits m tail) (omega arith)
read_digits-decimal_from (suc f) n tail h = elim (Bool-cases (ltb n 10)) [
  | inl small ↦
      rw small (
        read_digits-digit 0 n tail (ltb→lt n 10 small) ∙ ap (λ m. read_digits m tail) (omega arith))
  | inr large ↦ rw large (
      read_digits-decimal_from f (n / 10) _ (omega (arith, ltb→le n 10 large))
      ∙ read_digits-digit (n / 10) (n % 10) tail (omega arith)
      ∙ ap (λ m. read_digits m tail) (omega arith))
]

decimal_from-append :
    (f n : ℕ) (tail rest : List ℕ) → decimal_from f n tail ++ rest ≡ decimal_from f n (tail ++ rest)
unfolding decimal_from
decimal_from-append zero n tail rest = refl
decimal_from-append (suc f) n tail rest = elim (Bool-cases (ltb n 10)) [
  | inl small ↦ rw small
  | inr large ↦ rw large (decimal_from-append f (n / 10) ((b'0' + n % 10) ∷ tail) rest)
]

-- A printed number begins with a digit.
starts_digit-decimal_from :
    (f n : ℕ) (tail : List ℕ)
    → n ≤ f
    → (c : ℕ) × (s : List ℕ) × (decimal_from f n tail ≡ c ∷ s) × (b'0' ≤ c) × (c ≤ b'9')
unfolding decimal_from
starts_digit-decimal_from zero n tail h = (b'0' + n, tail, refl, omega arith, omega arith)
starts_digit-decimal_from (suc f) n tail h = elim (Bool-cases (ltb n 10)) [
  | inl small ↦ (b'0' + n, tail, rw small, omega arith, omega (arith, ltb→lt n 10 small))
  | inr large ↦ rw large (starts_digit-decimal_from f (n / 10) _ (omega (arith, ltb→le n 10 large)))
]

read_digits-stops :
    (n : ℕ) (rest : List ℕ) → starts_digit rest ≡ false → read_digits n rest ≡ (n, rest)
unfolding read_digits
read_digits-stops n [] h = refl
read_digits-stops n (c ∷ s) h = rw h

strtoul-digit :
    (c : ℕ) (s : List ℕ)
    → b'0' ≤ c
    → c ≤ b'9'
    → strtoul (c ∷ s) ≡ unsigned_part (c ∷ s) false (c ∷ s)
unfolding strtoul skip_space signed_part
strtoul-digit c s low high = ground arith

unsigned_part-value :
    (whole s rest : List ℕ) (n : ℕ)
    → starts_digit s ≡ true
    → read_digits 0 s ≡ (n, rest)
    → n ≤ ulong_max
    → unsigned_part whole false s ≡ record { value = n; rest = rest; errno = false }
unfolding unsigned_part
unsigned_part-value whole s rest n digit e h =
    let fits : ltb ulong_max n ≡ false = ground arith in rw (e, digit, fits)

-- What `%u` prints for a number, `strtoul` reads back, up to what follows it.
pub strtoul-decimal :
    (n : ℕ) (rest : List ℕ)
    → n ≤ ulong_max
    → starts_digit rest ≡ false
    → strtoul (decimal n ++ rest) ≡ record { value = n; rest = rest; errno = false }
unfolding decimal
strtoul-decimal n rest h stop =
    let (c, s, e, low, high) = starts_digit-decimal_from n n rest (omega arith) in
    let digit : starts_digit (c ∷ s) ≡ true = ground arith in
    let reads = read_digits-decimal_from n n rest (omega arith) ∙ read_digits-stops n rest stop in
    rw (decimal_from-append n n [] rest, e)
      (strtoul-digit c s low high
        ∙ unsigned_part-value (c ∷ s) (c ∷ s) rest n digit (rw e at reads) h)

-- What is printed begins with a digit.
pub decimal-starts :
    (n : ℕ) (rest : List ℕ)
    → (c : ℕ) × (s : List ℕ) × (decimal n ++ rest ≡ c ∷ s) × (b'0' ≤ c) × (c ≤ b'9')
unfolding decimal
decimal-starts n rest =
    let (c, s, e, low, high) = starts_digit-decimal_from n n rest (omega arith) in
    (c, s, decimal_from-append n n [] rest ∙ e, low, high)
