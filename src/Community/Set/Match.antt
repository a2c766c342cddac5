-- ===== src/Community/Set/Match.antt =====
-- bgpstream_community_set_match: the test of the hash never hides a match.
use libbgpstream.Prelude.{
  ℕ, bit_and, ◌≡◌, ◌↔◌, inl, inr, true, not, ◌&&◌, List, [], ◌∷◌, arith, ◌==◌, Bool-cases,
  bit_and_or_right, bit_and_or_left, Any,
}
use libbgpstream.Community.{Community, filter_asn, filter_value}
use libbgpstream.Community.Set.{
  CommunitySet, no_community, or_into, hash_loop, asks, match_loop, may_match, set_match,
}

-- The hash is the `|` of the communities.
abbrev pub IsHashed : CommunitySet → Type 0
IsHashed set = set.communities_hash ≡ hash_loop no_community set.communities

-- `c` has the halves of `want` that the mask asks for.
abbrev pub Agrees : ℕ → Community → Community → Type 0
Agrees mask want c =
    (asks mask filter_asn ≡ true → c.asn ≡ want.asn)
    × (asks mask filter_value ≡ true → c.value ≡ want.value)

hash_loop-keeps :
    (h : Community) (cs : List Community) (x y : ℕ)
    → (bit_and h.asn x ≡ x → bit_and (hash_loop h cs).asn x ≡ x)
      × (bit_and h.value y ≡ y → bit_and (hash_loop h cs).value y ≡ y)
unfolding hash_loop
hash_loop-keeps h [] x y = (λ e. e, λ e. e)
hash_loop-keeps h (c ∷ cs) x y =
    let further = hash_loop-keeps (or_into h c) cs x y in
    (
      λ e. further.0 (bit_and_or_left h.asn c.asn x e),
      λ e. further.1 (bit_and_or_left h.value c.value y e),
    )

hash_loop-has :
    (mask : ℕ) (want h : Community) (cs : List Community)
    → Any (Agrees mask want) cs
    → (asks mask filter_asn ≡ true → bit_and (hash_loop h cs).asn want.asn ≡ want.asn)
      × (asks mask filter_value ≡ true → bit_and (hash_loop h cs).value want.value ≡ want.value)
unfolding hash_loop
hash_loop-has mask want h [] m = elim m [ ]
hash_loop-has mask want h (c ∷ cs) (inr m) = hash_loop-has mask want (or_into h c) cs m
hash_loop-has mask want h (c ∷ cs) (inl agrees) =
    let kept = hash_loop-keeps (or_into h c) cs want.asn want.value in
    (
      λ asked. kept.0 (rw (← agrees.0 asked) (bit_and_or_right h.asn c.asn)),
      λ asked. kept.1 (rw (← agrees.1 asked) (bit_and_or_right h.value c.value)),
    )

match_loop-finds :
    (mask : ℕ) (want : Community) (cs : List Community)
    → match_loop mask want cs ≡ true
    → Any (Agrees mask want) cs
unfolding match_loop
match_loop-finds mask want [] e = cc
match_loop-finds mask want (c ∷ cs) e =
    elim (Bool-cases (asks mask filter_asn && not (c.asn == want.asn))) [
      | inl other ↦ inr (match_loop-finds mask want cs (rw other at e))
      | inr agrees ↦ elim (Bool-cases (asks mask filter_value && not (c.value == want.value))) [
        | inl other ↦ inr (match_loop-finds mask want cs (rw (agrees, other) at e))
        | inr also ↦ inl (ground (arith, agrees), ground (arith, also))
      ]
    ]

match_loop-found :
    (mask : ℕ) (want : Community) (cs : List Community)
    → Any (Agrees mask want) cs
    → match_loop mask want cs ≡ true
unfolding match_loop
match_loop-found mask want [] m = elim m [ ]
match_loop-found mask want (c ∷ cs) (inl agrees) = ground (arith, agrees.0, agrees.1)
match_loop-found mask want (c ∷ cs) (inr m) = ground (arith, match_loop-found mask want cs m)

may_match-true :
    (set : CommunitySet) (want : Community) (mask : ℕ)
    → IsHashed set
    → Any (Agrees mask want) set.communities
    → may_match set want mask ≡ true
unfolding may_match
may_match-true set want mask h m =
    let has = hash_loop-has mask want no_community set.communities m in
    rw h (ground (arith, has.0, has.1))

-- If the hash of a set is the `|` of its communities, a match is found exactly if some community of
-- the set has the halves of the one looked for that the mask asks for.
pub set_match_iff :
    (set : CommunitySet) (want : Community) (mask : ℕ)
    → IsHashed set
    → (set_match set want mask ≡ true) ↔ Any (Agrees mask want) set.communities
unfolding set_match
set_match_iff set want mask h = (to, from)
  where
    to : set_match set want mask ≡ true → Any (Agrees mask want) set.communities
    to e = elim (Bool-cases (may_match set want mask)) [
      | inl may ↦ match_loop-finds mask want set.communities (rw may at e)
      | inr hidden ↦ cc (rw hidden at e)
    ]

    from : Any (Agrees mask want) set.communities → set_match set want mask ≡ true
    from m = rw (may_match-true set want mask h m) (match_loop-found mask want set.communities m)
