-- ===== src/Community.antt =====
-- Communities and their sets: lib/utils/bgpstream_utils_community.c and .h. The `ui32` of the union is
-- the pair of both halves, so its `|` is that of each half. Allocation succeeds.
pub mod Text
pub mod Set
use libbgpstream.Prelude.{
  ℕ, zero, suc, ◌+◌, ◌-◌, ◌*◌, ◌/◌, ◌%◌, ◌^◌, bit_and, bit_or, Bool, true, false, not, ◌&&◌, ◌||◌,
  Option, none, some, List, [], ◌∷◌, ◌++◌, ltb, leb, ◌==◌, if◌then◌else◌, length, take, drop,
}
use libbgpstream.Libc.{Strtoul, strtoul, decimal}

pub record Community : Type 0 where
  pub asn : ℕ
  pub value : ℕ

-- BGPSTREAM_COMMUNITY_FILTER_ASN, _VALUE and _EXACT.
abbrev pub filter_asn : ℕ
filter_asn = 2

abbrev pub filter_value : ℕ
filter_value = 1

abbrev pub filter_exact : ℕ
filter_exact = 3

-- The text of a community, which bgpstream_community_snprintf cuts to the buffer.
unfoldable pub community_text : Community → List ℕ
community_text comm = decimal comm.asn ++ (b':' ∷ decimal comm.value)

unfoldable pub read_number : List ℕ → Option (Option ℕ × List ℕ)
read_number s =
    let r = strtoul s in if r.errno || ltb 65535 r.value then none else some (some r.value, r.rest)

-- One half of the text: its number, or no number for a `*`, and the rest; none where it is refused.
unfoldable pub read_half : List ℕ → Option (Option ℕ × List ℕ)
unfolding read_number
read_half [] = read_number []
read_half (c ∷ s) = if c == b'*' then some (none, s) else read_number (c ∷ s)

abbrev pub get {ℓ} : {A : Type ℓ} → A → Option A → A
get a none = a
get a (some b) = b

abbrev pub mask_of : ℕ → Option ℕ → ℕ
mask_of bit none = 0
mask_of bit (some n) = bit

-- Both halves read, and nothing left: a half that is a `*` leaves its number as it was.
unfoldable pub finish : Community → Option ℕ → Option ℕ → List ℕ → Option (Community × ℕ)
finish comm asn value [] = some (
  record { asn = get comm.asn asn; value = get comm.value value },
  bit_or (mask_of filter_asn asn) (mask_of filter_value value),
)
finish comm asn value (c ∷ s) = none

unfoldable pub after_colon : Community → Option ℕ → List ℕ → Option (Community × ℕ)
unfolding read_half finish
after_colon comm asn [] = none
after_colon comm asn (c ∷ s) =
    if c == b':'
    then elim (read_half s) [ none ↦ none | some half ↦ finish comm asn half.0 half.1 ]
    else none

-- The community and the mask; none where the source returns -1. `comm` is what the structure held.
unfoldable pub str2community : List ℕ → Community → Option (Community × ℕ)
unfolding read_half after_colon
str2community buf comm = elim (read_half buf) [
  | none ↦ none
  | some half ↦ after_colon comm half.0 half.1
]

unfoldable pub community_hash : Community → ℕ
community_hash comm = bit_or comm.asn comm.value

unfoldable pub community_equal : Community → Community → Bool
community_equal a b = (a.asn == b.asn) && (a.value == b.value)
