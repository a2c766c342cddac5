-- ===== src/Tests/Paths.antt =====
-- Communities and AS paths.
use libbgpstream.Prelude.{
  ℕ, ◌≤◌, ◌≡◌, ◌≢◌, refl, ◌↔◌, true, false, none, some, List, [], ◌∷◌, ◌++◌, arith, Any, All,
  length,
}
use libbgpstream.Libc.{codes, strtoul, decimal}
use libbgpstream.Community.{Community, community_text, str2community}
use libbgpstream.Community.Text.{str2community-text}
use libbgpstream.Community.Set.{
  CommunitySet, set_insert, set_copy, populate_from_array, populate, set_match, set_equal,
  hash_loop,
}
use libbgpstream.Community.Set.Match.{IsHashed, Agrees, set_match_iff}
use libbgpstream.Community.Set.Laws.{
  IsOwned, Makes, attribute, set_operations-Makes, set_equal-same,
}
use libbgpstream.AsPath.{
  uint16_max, Seg, asn, asn_set, AsPath, segs, append, populate_from_data, populate_from_data_zc,
}
use libbgpstream.AsPath.Equal.{path_equal}
use libbgpstream.AsPath.Segments.{IsSeg, seg_bytes, segs_bytes}
use libbgpstream.AsPath.Walk.{origin_from}
use libbgpstream.AsPath.Fields.{
  IsPath, Walks, populate_from_data-walk, populate_from_data-IsPath, path_equal_iff,
}
use libbgpstream.AsPath.Append
use libbgpstream.AsPath.Append.{append-Makes, new_segs}
use libbgpstream.AsPath.Merge.{handle_as_paths}
use libbgpstream.AsPath.Merge.Sequences.{Leaves, of_sequences, handle_as_paths-merged}
use libbgpstream.AsPath.Text.{path_text}

abbrev pub peering : Community
peering = record { asn = 65000; value = 120 }

abbrev blackhole : Community
blackhole = record { asn = 65535; value = 666 }

abbrev pub one_community : CommunitySet
one_community = record {
  communities = peering ∷ [];
  communities_alloc_cnt = some 1;
  communities_hash = peering;
}

pub one_community-IsHashed : IsHashed one_community
unfolding hash_loop
one_community-IsHashed = refl

one_community-IsOwned : IsOwned one_community
one_community-IsOwned = record {
  alloc = 1;
  owned = refl;
  fits = omega arith;
  hashed = one_community-IsHashed;
}

set_operations-Makes_example :
    Makes (set_insert one_community blackhole) (peering ∷ blackhole ∷ [])
    × Makes (set_copy one_community one_community) (peering ∷ [])
    × Makes (populate_from_array one_community (blackhole ∷ [])) (blackhole ∷ [])
    × Makes
        (populate one_community (attribute (blackhole ∷ peering ∷ [])))
        (blackhole ∷ peering ∷ [])
set_operations-Makes_example =
    set_operations-Makes one_community one_community blackhole (blackhole ∷ [])
      (blackhole ∷ peering ∷ []) one_community-IsOwned one_community-IsHashed

set_match_iff_example :
    (set_match one_community (record { asn = 65000; value = 7 }) 2 ≡ true)
    ↔ Any (Agrees 2 (record { asn = 65000; value = 7 })) (peering ∷ [])
set_match_iff_example =
    set_match_iff one_community (record { asn = 65000; value = 7 }) 2 one_community-IsHashed

equal_sets_differ : set_equal one_community one_community ≡ false
equal_sets_differ = set_equal-same one_community one_community refl

str2community-text_example : str2community (community_text blackhole) peering ≡ some (blackhole, 3)
str2community-text_example = str2community-text blackhole peering (omega arith) (omega arith)

-- The wildcard keeps what the structure held.
wildcard : str2community (codes "65535:*") peering ≡ some (record { asn = 65535; value = 120 }, 2)
unfolding str2community strtoul
wildcard = refl

-- A sequence of two ASNs, then a set.
abbrev pub two_segs : List Seg
two_segs = asn 64500 ∷ asn_set 2 (64501 ∷ 64502 ∷ []) ∷ []

two_segs-IsSeg : All IsSeg two_segs
two_segs-IsSeg = (
  omega arith,
  ((λ e. omega arith, omega arith, (omega arith, (omega arith, tt)), omega arith), tt),
)

abbrev pub path : AsPath
path = record {
  data_bytes = 1 ∷ 244 ∷ 251 ∷ 0 ∷ 0 ∷ 2 ∷ 2 ∷ 245 ∷ 251 ∷ 0 ∷ 0 ∷ 246 ∷ 251 ∷ 0 ∷ 0 ∷ [];
  data_alloc_len = 15;
  seg_cnt = 2;
  origin_offset = 5;
}

pub path-IsPath : IsPath path two_segs
unfolding segs_bytes seg_bytes origin_from
path-IsPath = record {
  held = refl;
  valid = two_segs-IsSeg;
  short = omega arith;
  counted = refl;
  origin = refl;
}

same_paths : (path_equal path path ≡ true) ↔ (two_segs ≡ two_segs)
same_paths = path_equal_iff path path two_segs two_segs path-IsPath path-IsPath

populate_from_data-IsPath_example :
    ((path' : AsPath) × (populate_from_data path (segs_bytes two_segs) ≡ some path')
      × IsPath path' two_segs
      × (length path'.data_bytes ≤ path'.data_alloc_len)
      × (path'.data_alloc_len ≢ uint16_max))
    × ((path' : AsPath) × (populate_from_data_zc path (segs_bytes two_segs) ≡ some path')
        × IsPath path' two_segs)
unfolding segs_bytes seg_bytes
populate_from_data-IsPath_example =
    populate_from_data-IsPath path two_segs two_segs-IsSeg (omega arith)

populate_from_data-walk_example :
    ((path' : AsPath) × (populate_from_data path (segs_bytes two_segs) ≡ some path')
      × Walks path' two_segs)
    × ((path' : AsPath) × (populate_from_data_zc path (segs_bytes two_segs) ≡ some path')
        × Walks path' two_segs)
unfolding segs_bytes seg_bytes
populate_from_data-walk_example = populate_from_data-walk path two_segs two_segs-IsSeg (omega arith)

append-Makes_example :
    Append.Makes (append path 1 (64503 ∷ 64504 ∷ [])) (two_segs ++ new_segs 1 (64503 ∷ 64504 ∷ []))
unfolding new_segs
append-Makes_example =
    append-Makes path two_segs 1 (64503 ∷ 64504 ∷ []) path-IsPath ((λ e. omega arith), omega arith)
      (omega arith, (omega arith, tt)) (omega arith) (omega arith)

-- A sequence without ASNs is refused: its type would be written past the data.
no_asns : append path 1 [] ≡ none
unfolding append
no_asns = refl

written : path_text path ≡ some (codes "64500 {64501,64502}")
unfolding path_text segs decimal
written = refl

-- An AS_PATH of an old speaker and its AS4_PATH.
abbrev as_trans : List (List ℕ)
as_trans = (64500 ∷ 23456 ∷ []) ∷ (23456 ∷ []) ∷ []

abbrev as4 : List (List ℕ)
as4 = (4200000001 ∷ 4200000002 ∷ []) ∷ []

handle_as_paths-merged_example :
    Leaves
      (handle_as_paths path (some (of_sequences as_trans)) (some (of_sequences as4)))
      (asn 64500 ∷ asn 4200000001 ∷ asn 4200000002 ∷ [])
handle_as_paths-merged_example =
    handle_as_paths-merged path as_trans as4 (λ e. omega arith)
      ((omega arith, (omega arith, (omega arith, tt))), ((omega arith, (omega arith, tt)), tt))
      ((omega arith, (omega arith, (omega arith, tt))), tt) (omega arith) (omega arith)
