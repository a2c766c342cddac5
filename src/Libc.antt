-- ===== src/Libc.antt =====
-- What the source uses of the C library's conversions: strtoul in base 10 and the `%u` of snprintf.
-- A text is the list of its codes, without the NUL that ends it.
pub mod Decimal
use Prim.Native.Char.{code}
use Prim.Native.String.{String}
use libbgpstream.Prelude.{
  ℕ, zero, suc, ◌+◌, ◌-◌, ◌*◌, ◌/◌, ◌%◌, ◌^◌, Bool, true, false, ◌&&◌, ◌||◌, List, [], ◌∷◌, ltb,
  leb, ◌==◌, if◌then◌else◌,
}

abbrev pub is_digit : ℕ → Bool
is_digit c = leb b'0' c && leb c b'9'

-- isspace: a blank, or one of the codes from tab to carriage return.
abbrev pub is_space : ℕ → Bool
is_space c = c == 32 || (leb 9 c && leb c 13)

abbrev pub starts_digit : List ℕ → Bool
starts_digit [] = false
starts_digit (c ∷ s) = is_digit c

unfoldable pub skip_space : List ℕ → List ℕ
skip_space [] = []
skip_space (c ∷ s) = if is_space c then skip_space s else c ∷ s

-- The number that the leading digits write after `acc`, and what follows them.
unfoldable pub read_digits : ℕ → List ℕ → ℕ × List ℕ
read_digits acc [] = (acc, [])
read_digits acc (c ∷ s) = if is_digit c then read_digits (acc * 10 + (c - b'0')) s else (acc, c ∷ s)

-- The value, the rest of the text, and whether errno is set.
pub record Strtoul : Type 0 where
  pub value : ℕ
  pub rest : List ℕ
  pub errno : Bool

abbrev pub ulong_max : ℕ
ulong_max = 2 ^ 64 - 1

-- The digits after the sign; `whole` is the text that is handed back where there are none.
unfoldable pub unsigned_part : List ℕ → Bool → List ℕ → Strtoul
unfolding read_digits
unsigned_part whole negated s =
    let (n, rest) = read_digits 0 s in
    if starts_digit s
    then if ltb ulong_max n
      then record { value = ulong_max; rest = rest; errno = true }
      else record {
        value = if negated then (2 ^ 64 - n) % 2 ^ 64 else n;
        rest = rest;
        errno = false;
      }
    else record { value = 0; rest = whole; errno = false }

unfoldable pub signed_part : List ℕ → List ℕ → Strtoul
unfolding unsigned_part
signed_part whole [] = unsigned_part whole false []
signed_part whole (c ∷ s) =
    if c == b'-'
    then unsigned_part whole true s
    else if c == b'+'
    then unsigned_part whole false s
    else unsigned_part whole false (c ∷ s)

unfoldable pub strtoul : List ℕ → Strtoul
unfolding skip_space signed_part
strtoul s = signed_part s (skip_space s)

-- Fuel bounds the number of digits.
unfoldable pub decimal_from : ℕ → ℕ → List ℕ → List ℕ
decimal_from zero n tail = (b'0' + n) ∷ tail
decimal_from (suc f) n tail =
    let more = decimal_from f (n / 10) ((b'0' + n % 10) ∷ tail) in
    if ltb n 10 then (b'0' + n) ∷ tail else more

-- The decimal digits of n; n rounds are more than it has digits.
unfoldable pub decimal : ℕ → List ℕ
unfolding decimal_from
decimal n = decimal_from n n []

-- The codes of a text.
abbrev pub codes : String → List ℕ
codes String.[] = []
codes (String.◌∷◌ c s) = code c ∷ codes s

-- strcmp is 0.
unfoldable pub strcmp_eq : List ℕ → List ℕ → Bool
strcmp_eq [] [] = true
strcmp_eq (c ∷ s) (d ∷ t) = (c == d) && strcmp_eq s t
strcmp_eq _ _ = false
