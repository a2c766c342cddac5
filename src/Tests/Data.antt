-- ===== src/Tests/Data.antt =====
-- Prefixes and trees for the runs.
use libbgpstream.Prelude.{
  ℕ, zero, suc, ◌≤◌, ◌<◌, ◌≡◌, refl, Bool, true, false, ◌&&◌, List, [], ◌∷◌, ltb, get_or, arith,
}
use libbgpstream.Addr.{ipv4}
use libbgpstream.Pfx.{Pfx, IsPfx}
use libbgpstream.Patricia.Tree.{Patricia, create}
use libbgpstream.Patricia.Insert.{insert}
use libbgpstream.Patricia.Insert.Set.{IsTree, insert-IsTree}

all_bytes : List ℕ → Bool
all_bytes [] = true
all_bytes (b ∷ l) = ltb b 256 && all_bytes l

bytes_fit_lem : (l : List ℕ) → all_bytes l ≡ true → (i : ℕ) → get_or l i 0 < 256
unfolding all_bytes
bytes_fit_lem [] h i = omega arith
bytes_fit_lem (b ∷ l) h zero = ground arith
bytes_fit_lem (b ∷ l) h (suc i) = bytes_fit_lem l (ground arith) i

abbrev pub pfx4 : ℕ → ℕ → ℕ → Pfx
pfx4 a b mask_len = record {
  mask_len = mask_len;
  allowed_matches = 0;
  address = record { version = ipv4; bytes = a ∷ b ∷ 0 ∷ 0 ∷ [] };
}

pfx4-IsPfx : (a b m : ℕ) → all_bytes (a ∷ b ∷ 0 ∷ 0 ∷ []) ≡ true → m ≤ 32 → IsPfx (pfx4 a b m)
pfx4-IsPfx a b m h le = record {
  addr = record { known = λ e. cc; full = refl; bytes_fit = bytes_fit_lem (a ∷ b ∷ 0 ∷ 0 ∷ []) h };
  fits = omega arith;
}

-- 10.0.0.0/8, its two halves, and 192.168.0.0/16.
abbrev pub ten : Pfx
ten = pfx4 10 0 8

abbrev pub ten_low : Pfx
ten_low = pfx4 10 0 9

abbrev pub ten_high : Pfx
ten_high = pfx4 10 128 9

abbrev pub local : Pfx
local = pfx4 192 168 16

pub ten-IsPfx : IsPfx ten
unfolding all_bytes
ten-IsPfx = pfx4-IsPfx 10 0 8 refl (omega arith)

pub ten_low-IsPfx : IsPfx ten_low
unfolding all_bytes
ten_low-IsPfx = pfx4-IsPfx 10 0 9 refl (omega arith)

pub ten_high-IsPfx : IsPfx ten_high
unfolding all_bytes
ten_high-IsPfx = pfx4-IsPfx 10 128 9 refl (omega arith)

pub local-IsPfx : IsPfx local
unfolding all_bytes
local-IsPfx = pfx4-IsPfx 192 168 16 refl (omega arith)

-- The tree of the three first prefixes, the halves inserted first.
abbrev pub no_prefixes : Patricia
no_prefixes = create false

abbrev pub two_prefixes : Patricia
two_prefixes = (insert (insert no_prefixes ten_low).0 ten_high).0

abbrev pub three_prefixes : Patricia
three_prefixes = (insert two_prefixes ten).0

pub no_prefixes-IsTree : IsTree no_prefixes
no_prefixes-IsTree = record { shape4 = tt; shape6 = tt }

pub two_prefixes-IsTree : IsTree two_prefixes
two_prefixes-IsTree =
    insert-IsTree (insert no_prefixes ten_low).0 ten_high
      (insert-IsTree no_prefixes ten_low no_prefixes-IsTree ten_low-IsPfx) ten_high-IsPfx

pub three_prefixes-IsTree : IsTree three_prefixes
three_prefixes-IsTree = insert-IsTree two_prefixes ten two_prefixes-IsTree ten-IsPfx
