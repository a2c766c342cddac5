-- ===== src/Community/Set/Laws.antt =====
-- What the operations of community sets come to: the hash, the raw attribute, and the equality test.
use libbgpstream.Prelude.{
  ℕ, ◌+◌, ◌*◌, ◌/◌, ◌%◌, ◌≤◌, ◌<◌, ◌≡◌, refl, sym, ap, ◌∙◌, true, false, Option, some, List, [],
  ◌∷◌, ◌++◌, arith, ltb, ◌==◌, if◌then◌else◌, length, bit_or_low, length-append,
}
use libbgpstream.Community.{Community, community_equal}
use libbgpstream.Community.Set.{
  CommunitySet, no_community, or_into, hash_loop, size, set_copy, set_insert, populate_from_array,
  populate_from_array_zc, nptohs, read_communities, populate, memcmp_differs, set_equal,
}
use libbgpstream.Community.Set.Match.{IsHashed}

-- The memory is the set's own and holds what is in use, and the hash is the `|` of the communities.
pub record IsOwned (set : CommunitySet) : Type 0 where
  pub alloc : ℕ
  pub owned : set.communities_alloc_cnt ≡ some alloc
  pub fits : size set ≤ alloc
  pub hashed : IsHashed set

-- The operation made a set of these communities with the invariant.
abbrev pub Makes : Option CommunitySet → List Community → Type 0
Makes result cs = (set : CommunitySet) × (result ≡ some set) × (set.communities ≡ cs) × IsOwned set

hash_loop-snoc :
    (h c : Community) (cs : List Community)
    → hash_loop h (cs ++ (c ∷ [])) ≡ or_into (hash_loop h cs) c
unfolding hash_loop
hash_loop-snoc h c [] = refl
hash_loop-snoc h c (d ∷ cs) = hash_loop-snoc (or_into h d) c cs

set_insert-Makes :
    (set : CommunitySet) (c : Community)
    → IsOwned set
    → Makes (set_insert set c) (set.communities ++ (c ∷ []))
unfolding set_insert
set_insert-Makes set c o =
    let grown : ℕ = if size set == o.alloc then o.alloc + 1 else o.alloc in
    let room : ltb (size set) grown ≡ true = ground (arith, o.fits) in
    (
      record {
        communities = set.communities ++ (c ∷ []);
        communities_alloc_cnt = some grown;
        communities_hash = or_into set.communities_hash c;
      },
      rw (o.owned, room),
      refl,
      record {
        alloc = grown;
        owned = refl;
        fits = rw (length-append set.communities (c ∷ [])) (ground (arith, o.fits));
        hashed =
            ap (λ h. or_into h c) o.hashed ∙ sym (hash_loop-snoc no_community c set.communities);
      },
    )

set_copy-Makes :
    (dst src : CommunitySet) → IsOwned dst → IsHashed src → Makes (set_copy dst src) src.communities
unfolding set_copy
set_copy-Makes dst src o h =
    let alloc : ℕ = if ltb o.alloc (size src) then size src else o.alloc in
    (
      record {
        communities = src.communities;
        communities_alloc_cnt = some alloc;
        communities_hash = src.communities_hash;
      },
      rw o.owned,
      refl,
      record { alloc = alloc; owned = refl; fits = ground arith; hashed = h },
    )

populate_from_array-Makes :
    (set : CommunitySet) (comms : List Community)
    → IsOwned set
    → Makes (populate_from_array set comms) comms
unfolding populate_from_array
populate_from_array-Makes set comms o =
    set_copy-Makes set (populate_from_array_zc comms) o (unfold populate_from_array_zc in refl)

abbrev pub IsCommunity : Community → Type 0
IsCommunity c = (c.asn < 65536) × (c.value < 65536)

-- The attribute that carries the communities: each half in two bytes, the high one first.
abbrev pub attribute : List Community → List ℕ
attribute [] = []
attribute (c ∷ cs) = c.asn / 256 ∷ c.asn % 256 ∷ c.value / 256 ∷ c.value % 256 ∷ attribute cs

nptohs_lem : (x : ℕ) → nptohs (x / 256) (x % 256) ≡ x
nptohs_lem x = bit_or_low 8 (x / 256) (x % 256) (omega arith) ∙ omega arith

read_communities-attribute : (cs : List Community) → read_communities (attribute cs) ≡ cs
unfolding read_communities
read_communities-attribute [] = refl
read_communities-attribute (c ∷ cs) =
    rw (nptohs_lem c.asn, nptohs_lem c.value, read_communities-attribute cs)

length-attribute : (cs : List Community) → length (attribute cs) ≡ 4 * length cs
length-attribute [] = omega arith
length-attribute (c ∷ cs) = omega (arith, length-attribute cs)

populate-Makes :
    (set : CommunitySet) (cs : List Community)
    → IsOwned set
    → Makes (populate set (attribute cs)) cs
unfolding populate
populate-Makes set [] o = (
  record set { communities = []; communities_hash = no_community },
  refl,
  refl,
  record {
    alloc = o.alloc;
    owned = o.owned;
    fits = omega arith;
    hashed = unfold hash_loop in refl;
  },
)
populate-Makes set (c ∷ cs) o =
    let count : length (attribute (c ∷ cs)) / 4 ≡ length (c ∷ cs) =
      omega (arith, length-attribute cs) in
    let read = read_communities-attribute (c ∷ cs) in
    let alloc : ℕ = if ltb o.alloc (length (c ∷ cs)) then length (c ∷ cs) else o.alloc in
    (
      record {
        communities = read_communities (attribute (c ∷ cs));
        communities_alloc_cnt = some alloc;
        communities_hash = hash_loop no_community (read_communities (attribute (c ∷ cs)));
      },
      rw (o.owned, count),
      read,
      record { alloc = alloc; owned = refl; fits = ground (arith, ap length read); hashed = refl },
    )

-- Let a set own its memory, hold in it what is in use, and have the `|` of its communities for its
-- hash, and let another set have a right hash. Then an insertion, a copy of the other set, a filling
-- from an array and one from an attribute each succeed, make a set of the communities meant, in
-- order, and keep all three.
pub set_operations-Makes :
    (set src : CommunitySet) (c : Community) (comms cs : List Community)
    → IsOwned set
    → IsHashed src
    → Makes (set_insert set c) (set.communities ++ (c ∷ []))
      × Makes (set_copy set src) src.communities
      × Makes (populate_from_array set comms) comms
      × Makes (populate set (attribute cs)) cs
set_operations-Makes set src c comms cs o h = (
  set_insert-Makes set c o,
  set_copy-Makes set src o h,
  populate_from_array-Makes set comms o,
  populate-Makes set cs o,
)

community_equal_self : (c : Community) → community_equal c c ≡ true
unfolding community_equal
community_equal_self c = ground arith

memcmp_differs_self : (cs : List Community) → memcmp_differs cs cs ≡ false
unfolding memcmp_differs
memcmp_differs_self [] = refl
memcmp_differs_self (c ∷ cs) = rw (community_equal_self c) (memcmp_differs_self cs)

-- The equality test is the wrong way round: no set is found equal to a set of the same communities
-- in the same order, itself included.
pub set_equal-same :
    (set1 set2 : CommunitySet) → set1.communities ≡ set2.communities → set_equal set1 set2 ≡ false
unfolding set_equal
set_equal-same set1 set2 e =
    let same : memcmp_differs set1.communities set2.communities ≡ false =
      rw e (memcmp_differs_self set2.communities) in
    ground (arith, same)
