-- ===== src/Filter/Check/Wanted.antt =====
-- What each filter of elem_check_filters, lib/bgpstream_record.c, asks of an elem.
use libbgpstream.Prelude.{
  ℕ, bit_and, ◌≡◌, ◌≢◌, refl, ◌↔◌, ◌⊎◌, inl, inr, Bool, true, false, ◌&&◌, Option, none, some, List,
  [], ◌∷◌, arith, if◌then◌else◌, Any, Bool-cases,
}
use libbgpstream.Addr.{AddrVersion, unknown, ipv4, ipv6, version_eq}
use libbgpstream.Pfx.{IsPfx}
use libbgpstream.Patricia.Tree.{Patricia, get_head}
use libbgpstream.Patricia.Insert.Set.{IsTree}
use libbgpstream.Filter.Check.Prefixes.{any_node, asks_for}
use libbgpstream.Filter.Check.Matches.{prefix_match-asks_for}
use libbgpstream.Community.{Community}
use libbgpstream.Community.Set.{CommunitySet, set_match}
use libbgpstream.Community.Set.Match.{IsHashed, Agrees, set_match_iff}
use libbgpstream.AsPath.{Seg, asn, asn_set, get_origin_val, asn_of}
use libbgpstream.AsPath.Fields.{IsPath, last?, walk-IsPath}
use libbgpstream.Filter.{
  ElemType, unknown_elem, rib, announcement, withdrawal, peerstate, end_of_rib, Elem,
}
use libbgpstream.Filter.Check.{
  type_allowed, check_type, is_peerstate, has_no_path, check_peer, check_not_peer, in_ids,
  check_origin, check_ipversion, check_prefixes, any_community, check_communities,
}

-- A filter that is off asks nothing.
abbrev pub Wanted {ℓ} : {A : Type ℓ} → Option A → (A → Type 0) → Type 0
Wanted none P = Unit
Wanted (some a) P = P a

abbrev pub type_bit : ElemType → Option ℕ
type_bit unknown_elem = none
type_bit rib = some 0x1
type_bit announcement = some 0x2
type_bit withdrawal = some 0x4
type_bit peerstate = some 0x8
type_bit end_of_rib = some 0x10

abbrev pub TypeWanted : ℕ → ElemType → Type 0
TypeWanted mask type = (mask ≡ 0) ⊎ Wanted (type_bit type) (λ bit. bit_and mask bit ≢ 0)

-- Elems of the other types carry a path and communities.
abbrev pub CarriesPath : Elem → Type 0
CarriesPath elem = (elem.elem_type ≢ withdrawal) × (elem.elem_type ≢ peerstate)

abbrev pub OriginWanted : Option (ℕ → Bool) → Elem → List Seg → Type 0
OriginWanted origins elem l =
    Wanted origins (λ ids. CarriesPath elem × ((a : ℕ) × (last? l ≡ some (asn a)) × (ids a ≡ true)))

abbrev pub VersionWanted : AddrVersion → Elem → Type 0
VersionWanted version elem =
    (version ≡ unknown) ⊎ ((elem.elem_type ≢ peerstate) × (elem.prefix.address.version ≡ version))

-- An actual node of the filter's tree, of the version of the elem's prefix, asks for it.
abbrev pub PrefixWanted : Option Patricia → Elem → Type 0
PrefixWanted prefixes elem = Wanted prefixes (λ pt.
    (elem.elem_type ≢ peerstate)
    × (any_node (asks_for elem.prefix) (get_head pt elem.prefix.address.version) ≡ true))

-- What the tree of a prefix filter, if there is one, and an elem's prefix are like.
abbrev pub PrefixesRight : Option Patricia → Elem → Type 0
PrefixesRight prefixes elem = Wanted prefixes (λ pt. IsTree pt × IsPfx elem.prefix)

abbrev pub CommunityWanted : Option (List (Community × ℕ)) → Elem → Type 0
CommunityWanted communities elem =
    Wanted communities
      (λ ws. CarriesPath elem × Any (λ w. Any (Agrees w.1 w.0) elem.communities.communities) ws)

pub check_type_iff :
    (mask : ℕ) (type : ElemType) → (check_type mask type ≡ true) ↔ TypeWanted mask type
unfolding check_type type_allowed
check_type_iff mask unknown_elem = (λ e. inr tt, λ h. ground arith)
check_type_iff mask rib = (λ e. ground arith, λ h. ground arith)
check_type_iff mask announcement = (λ e. ground arith, λ h. ground arith)
check_type_iff mask withdrawal = (λ e. ground arith, λ h. ground arith)
check_type_iff mask peerstate = (λ e. ground arith, λ h. ground arith)
check_type_iff mask end_of_rib = (λ e. ground arith, λ h. ground arith)

pub carries_iff :
    (type : ElemType) → (has_no_path type ≡ false) ↔ ((type ≢ withdrawal) × (type ≢ peerstate))
carries_iff withdrawal = (λ e. cc, λ h. absurd (h.0 refl))
carries_iff peerstate = (λ e. cc, λ h. absurd (h.1 refl))
carries_iff unknown_elem = (λ e. (λ x. cc, λ x. cc), λ h. refl)
carries_iff rib = (λ e. (λ x. cc, λ x. cc), λ h. refl)
carries_iff announcement = (λ e. (λ x. cc, λ x. cc), λ h. refl)
carries_iff end_of_rib = (λ e. (λ x. cc, λ x. cc), λ h. refl)

pub peerstate_iff : (type : ElemType) → (is_peerstate type ≡ false) ↔ (type ≢ peerstate)
peerstate_iff peerstate = (λ e. cc, λ h. absurd (h refl))
peerstate_iff unknown_elem = (λ e x. cc, λ h. refl)
peerstate_iff rib = (λ e x. cc, λ h. refl)
peerstate_iff announcement = (λ e x. cc, λ h. refl)
peerstate_iff withdrawal = (λ e x. cc, λ h. refl)
peerstate_iff end_of_rib = (λ e x. cc, λ h. refl)

pub version_eq_iff : (a b : AddrVersion) → (version_eq a b ≡ true) ↔ (a ≡ b)
version_eq_iff unknown unknown = (λ e. refl, λ e. refl)
version_eq_iff unknown ipv4 = (λ e. cc, λ e. cc)
version_eq_iff unknown ipv6 = (λ e. cc, λ e. cc)
version_eq_iff ipv4 unknown = (λ e. cc, λ e. cc)
version_eq_iff ipv4 ipv4 = (λ e. refl, λ e. refl)
version_eq_iff ipv4 ipv6 = (λ e. cc, λ e. cc)
version_eq_iff ipv6 unknown = (λ e. cc, λ e. cc)
version_eq_iff ipv6 ipv4 = (λ e. cc, λ e. cc)
version_eq_iff ipv6 ipv6 = (λ e. refl, λ e. refl)

-- A guard before a test.
pub guarded_iff {ℓ κ} :
    {P : Type ℓ} {Q : Type κ} (no b : Bool)
    → ((no ≡ false) ↔ P)
    → ((b ≡ true) ↔ Q)
    → ((if no then false else b) ≡ true) ↔ (P × Q)
guarded_iff true b p q = (λ e. cc, λ h. cc (p.1 h.0))
guarded_iff false b p q = (λ e. (p.0 refl, q.0 e), λ h. q.1 h.1)

pub in_ids_iff :
    (ids : ℕ → Bool) (o : Option Seg)
    → (in_ids ids (asn_of o) ≡ true) ↔ ((a : ℕ) × (o ≡ some (asn a)) × (ids a ≡ true))
in_ids_iff ids none = (λ e. cc, λ (a, e, h). cc)
in_ids_iff ids (some (asn a)) = (λ e. (a, refl, e), λ (b, e, h). cc)
in_ids_iff ids (some (asn_set t xs)) = (λ e. cc, λ (a, e, h). cc)

pub check_origin_iff :
    (origins : Option (ℕ → Bool)) (elem : Elem) (l : List Seg)
    → IsPath elem.as_path l
    → (check_origin origins elem ≡ true) ↔ OriginWanted origins elem l
unfolding check_origin get_origin_val
check_origin_iff none elem l p = (λ e. tt, λ h. refl)
check_origin_iff (some ids) elem l p = rw ((walk-IsPath elem.as_path l p).1) (
    guarded_iff (has_no_path elem.elem_type) _ (carries_iff elem.elem_type)
      (in_ids_iff ids (last? l)))

pub check_ipversion_iff :
    (version : AddrVersion) (elem : Elem)
    → (check_ipversion version elem ≡ true) ↔ VersionWanted version elem
unfolding check_ipversion
check_ipversion_iff version elem = elim (Bool-cases (version_eq version unknown)) [
  | inl off ↦ (λ e. inl ((version_eq_iff version unknown).0 off), λ h. rw off)
  | inr on ↦ (
    λ e. inr ((guard_iff elem).0 (rw on at e)),
    λ h. elim h [
      | inl any ↦ cc ((version_eq_iff version unknown).1 any)
      | inr wanted ↦ rw on ((guard_iff elem).1 wanted)
    ],
  )
]
  where
    guard_iff :
        (elem : Elem)
        → ((if is_peerstate elem.elem_type
              then false
              else version_eq elem.prefix.address.version version)
            ≡ true)
          ↔ ((elem.elem_type ≢ peerstate) × (elem.prefix.address.version ≡ version))
    guard_iff elem =
        guarded_iff (is_peerstate elem.elem_type) _ (peerstate_iff elem.elem_type)
          (version_eq_iff elem.prefix.address.version version)

pub check_prefixes_iff :
    (prefixes : Option Patricia) (elem : Elem)
    → PrefixesRight prefixes elem
    → (check_prefixes prefixes elem ≡ true) ↔ PrefixWanted prefixes elem
unfolding check_prefixes
check_prefixes_iff none elem ok = (λ e. tt, λ h. refl)
check_prefixes_iff (some pt) elem ok =
    rw (prefix_match-asks_for pt elem.prefix ok.0 ok.1)
      (guarded_iff (is_peerstate elem.elem_type) _ (peerstate_iff elem.elem_type) (λ e. e, λ e. e))

pub any_community_iff :
    (ws : List (Community × ℕ)) (set : CommunitySet)
    → IsHashed set
    → (any_community ws set ≡ true) ↔ Any (λ w. Any (Agrees w.1 w.0) set.communities) ws
unfolding any_community
any_community_iff [] set h = (λ e. cc, λ m. elim m [ ])
any_community_iff ((c, mask) ∷ ws) set h =
    let first = set_match_iff set c mask h in
    let rest = any_community_iff ws set h in
    (
      λ e. elim (Bool-cases (set_match set c mask)) [
        | inl found ↦ inl (first.0 found)
        | inr other ↦ inr (rest.0 (rw other at e))
      ],
      λ m. elim m [ inl found ↦ rw (first.1 found) | inr other ↦ ground (arith, rest.1 other) ],
    )

pub check_communities_iff :
    (communities : Option (List (Community × ℕ))) (elem : Elem)
    → IsHashed elem.communities
    → (check_communities communities elem ≡ true) ↔ CommunityWanted communities elem
unfolding check_communities
check_communities_iff none elem h = (λ e. tt, λ w. refl)
check_communities_iff (some ws) elem h =
    guarded_iff (has_no_path elem.elem_type) _ (carries_iff elem.elem_type)
      (any_community_iff ws elem.communities h)

pub both_iff {ℓ κ} :
    {P : Type ℓ} {Q : Type κ} (a b : Bool)
    → ((a ≡ true) ↔ P)
    → ((b ≡ true) ↔ Q)
    → ((a && b) ≡ true) ↔ (P × Q)
both_iff true b p q = (λ e. (p.0 refl, q.0 e), λ h. q.1 h.1)
both_iff false b p q = (λ e. cc, λ h. cc (p.1 h.0))

pub check_peer_iff :
    (ids : Option (ℕ → Bool)) (peer : ℕ)
    → (check_peer ids peer ≡ true) ↔ Wanted ids (λ f. f peer ≡ true)
unfolding check_peer
check_peer_iff none peer = (λ e. tt, λ h. refl)
check_peer_iff (some f) peer = (λ e. e, λ h. h)

pub check_not_peer_iff :
    (ids : Option (ℕ → Bool)) (peer : ℕ)
    → (check_not_peer ids peer ≡ true) ↔ Wanted ids (λ f. f peer ≡ false)
unfolding check_not_peer
check_not_peer_iff none peer = (λ e. tt, λ h. refl)
check_not_peer_iff (some f) peer = (λ e. ground arith, λ h. ground arith)
