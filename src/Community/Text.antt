-- ===== src/Community/Text.antt =====
-- A community's text reads back: bgpstream_community_snprintf and bgpstream_str2community.
use libbgpstream.Prelude.{ℕ, ◌≤◌, ◌≡◌, refl, false, some, List, [], ◌∷◌, ◌++◌, arith, ltb, ◌==◌}
use mathlib.Core.List.{append-nil}
use libbgpstream.Libc.{starts_digit, decimal}
use libbgpstream.Libc.Decimal.{strtoul-decimal, decimal-starts}
use libbgpstream.Community.{
  Community, community_text, read_number, read_half, finish, after_colon, str2community,
}

read_number-decimal :
    (n : ℕ) (rest : List ℕ)
    → n ≤ 65535
    → starts_digit rest ≡ false
    → read_number (decimal n ++ rest) ≡ some (some n, rest)
unfolding read_number
read_number-decimal n rest h stop =
    let small : ltb 65535 n ≡ false = ground arith in
    rw (strtoul-decimal n rest (omega arith) stop, small)

read_half-decimal :
    (n : ℕ) (rest : List ℕ)
    → n ≤ 65535
    → starts_digit rest ≡ false
    → read_half (decimal n ++ rest) ≡ some (some n, rest)
unfolding read_half
read_half-decimal n rest h stop =
    let (c, s, e, low, high) = decimal-starts n rest in
    let no_star : (c == b'*') ≡ false = ground arith in
    let reads : read_number (decimal n ++ rest) ≡ some (some n, rest) =
      read_number-decimal n rest h stop in
    rw (e, no_star) (rw e at reads)

after_colon-decimal :
    (comm : Community) (asn n : ℕ)
    → n ≤ 65535
    → after_colon comm (some asn) (b':' ∷ decimal n) ≡ some (record { asn = asn; value = n }, 3)
unfolding after_colon finish
after_colon-decimal comm asn n h = rw (← append-nil (decimal n), read_half-decimal n [] h refl)

-- The text of a community whose halves fit 16 bits reads back as the community, with the mask of
-- an exact match, whatever the structure held before.
pub str2community-text :
    (c held : Community)
    → c.asn ≤ 65535
    → c.value ≤ 65535
    → str2community (community_text c) held ≡ some (c, 3)
unfolding str2community community_text
str2community-text c held ha hv =
    rw (read_half-decimal c.asn (b':' ∷ decimal c.value) ha refl, str2community)
      (after_colon-decimal held c.asn c.value hv)
