-- ===== src/Community/Set.antt =====
-- Sets of communities: the second half of lib/utils/bgpstream_utils_community.c. The list is the part
-- of the array in use. `communities_alloc_cnt` is none for -1: the memory is not the set's own. An
-- operation that would enlarge such memory, or write past what is allocated, is a fault, none.
pub mod Laws
pub mod Match
use libbgpstream.Prelude.{
  ℕ, zero, suc, ◌+◌, ◌-◌, ◌*◌, ◌/◌, ◌%◌, ◌^◌, bit_and, bit_or, Bool, true, false, not, ◌&&◌, ◌||◌,
  Option, none, some, List, [], ◌∷◌, ◌++◌, ltb, ◌==◌, if◌then◌else◌, length,
}
use libbgpstream.Community.{
  Community, filter_asn, filter_value, filter_exact, community_hash, community_equal,
}

pub record CommunitySet : Type 0 where
  pub communities : List Community
  pub communities_alloc_cnt : Option ℕ
  pub communities_hash : Community

abbrev pub no_community : Community
no_community = record { asn = 0; value = 0 }

abbrev pub create : CommunitySet
create = record {
  communities = [];
  communities_alloc_cnt = some 0;
  communities_hash = no_community;
}

abbrev pub clear : CommunitySet → CommunitySet
clear set = record set { communities = []; communities_hash = no_community }

abbrev pub size : CommunitySet → ℕ
size set = length set.communities

abbrev nth : ℕ → List Community → Option Community
nth i [] = none
nth zero (c ∷ l) = some c
nth (suc i) (c ∷ l) = nth i l

unfoldable pub set_get : CommunitySet → ℕ → Option Community
set_get set i = if ltb i (size set) then nth i set.communities else none

-- `|=` on the `ui32` of two communities.
abbrev pub or_into : Community → Community → Community
or_into h c = record { asn = bit_or h.asn c.asn; value = bit_or h.value c.value }

-- The allocation after a growth to `cnt`, where it is less.
abbrev pub reserve : Option ℕ → ℕ → Option ℕ
reserve none cnt = none
reserve (some alloc) cnt = some (if ltb alloc cnt then cnt else alloc)

abbrev pub with_alloc : Option ℕ → (ℕ → CommunitySet) → Option CommunitySet
with_alloc none f = none
with_alloc (some alloc) f = some (f alloc)

unfoldable pub set_copy : CommunitySet → CommunitySet → Option CommunitySet
set_copy dst src = with_alloc (reserve dst.communities_alloc_cnt (size src)) λ alloc. record {
  communities = src.communities;
  communities_alloc_cnt = some alloc;
  communities_hash = src.communities_hash;
}

-- A full array grows by one.
unfoldable pub set_insert : CommunitySet → Community → Option CommunitySet
set_insert set comm = elim set.communities_alloc_cnt [
  | none ↦ none
  | some alloc ↦
      let grown = if size set == alloc then alloc + 1 else alloc in
      if ltb (size set) grown
      then some (record {
        communities = set.communities ++ (comm ∷ []);
        communities_alloc_cnt = some grown;
        communities_hash = or_into set.communities_hash comm;
      })
      else none
]

unfoldable pub hash_loop : Community → List Community → Community
hash_loop h [] = h
hash_loop h (c ∷ cs) = hash_loop (or_into h c) cs

unfoldable pub populate_from_array_zc : List Community → CommunitySet
unfolding hash_loop
populate_from_array_zc comms = record {
  communities = comms;
  communities_alloc_cnt = none;
  communities_hash = hash_loop no_community comms;
}

unfoldable pub populate_from_array : CommunitySet → List Community → Option CommunitySet
unfolding set_copy populate_from_array_zc
populate_from_array set comms = set_copy set (populate_from_array_zc comms)

-- nptohs
abbrev pub nptohs : ℕ → ℕ → ℕ
nptohs high low = bit_or (high * 2 ^ 8) low

-- The communities in whole groups of four bytes.
unfoldable pub read_communities : List ℕ → List Community
read_communities (a ∷ b ∷ c ∷ d ∷ buf) =
    record { asn = nptohs a b; value = nptohs c d } ∷ read_communities buf
read_communities _ = []

unfoldable pub populate : CommunitySet → List ℕ → Option CommunitySet
unfolding read_communities hash_loop
populate set [] = some (clear set)
populate set (byte ∷ buf) =
    let cs = read_communities (byte ∷ buf) in
    with_alloc (reserve set.communities_alloc_cnt (length (byte ∷ buf) / 4)) λ alloc. record {
      communities = cs;
      communities_alloc_cnt = some alloc;
      communities_hash = hash_loop no_community cs;
    }

-- `h << 5` and the sums are on 32 bits.
unfoldable pub set_hash_loop : ℕ → List Community → ℕ
unfolding community_hash
set_hash_loop h [] = h
set_hash_loop h (c ∷ cs) =
    set_hash_loop ((h * 2 ^ 5 % 2 ^ 32 + 2 ^ 32 - h + community_hash c) % 2 ^ 32) cs

unfoldable pub set_hash : List Community → ℕ
unfolding set_hash_loop community_hash
set_hash [] = 0
set_hash (c ∷ cs) = set_hash_loop (community_hash c) cs

-- Whether memcmp on the first set's number of communities is not 0.
unfoldable pub memcmp_differs : List Community → List Community → Bool
unfolding community_equal
memcmp_differs [] ys = false
memcmp_differs (x ∷ xs) [] = true
memcmp_differs (x ∷ xs) (y ∷ ys) = not (community_equal x y) || memcmp_differs xs ys

unfoldable pub set_equal : CommunitySet → CommunitySet → Bool
unfolding community_equal memcmp_differs
set_equal set1 set2 =
    community_equal set1.communities_hash set2.communities_hash
    && (size set1 == size set2 && memcmp_differs set1.communities set2.communities)

-- Whether `mask` has the bit.
abbrev pub asks : ℕ → ℕ → Bool
asks mask bit = not (bit_and mask bit == 0)

unfoldable pub match_loop : ℕ → Community → List Community → Bool
match_loop mask comm [] = false
match_loop mask comm (c ∷ cs) =
    let next = match_loop mask comm cs in
    if asks mask filter_asn && not (c.asn == comm.asn)
    then next
    else if asks mask filter_value && not (c.value == comm.value)
    then next
    else true

abbrev pub may_have : ℕ → ℕ → Bool
may_have hash half = bit_and hash half == half

unfoldable pub may_match : CommunitySet → Community → ℕ → Bool
may_match set comm mask =
    (not (asks mask filter_asn) || may_have set.communities_hash.asn comm.asn)
    && (not (asks mask filter_value) || may_have set.communities_hash.value comm.value)

-- No community is looked at where the hash lacks a bit that is asked for.
unfoldable pub set_match : CommunitySet → Community → ℕ → Bool
unfolding match_loop
set_match set comm mask =
    if may_match set comm mask then match_loop mask comm set.communities else false

unfoldable pub set_exists : CommunitySet → Community → Bool
unfolding set_match
set_exists set comm = set_match set comm filter_exact
