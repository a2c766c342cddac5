-- ===== src/Filter/Add.antt =====
-- Filters are added: bgpstream_filter_mgr_filter_add and the other functions of lib/bgpstream_filter.c,
-- with bgpstream_str2addr and bgpstream_str2pfx. `inet_pton` and `regcomp` are the C library's.
pub mod Asns
use libbgpstream.Prelude.{
  ℕ, zero, suc, ◌+◌, ◌-◌, ◌^◌, bit_and, bit_or, Bool, true, false, not, ◌&&◌, ◌||◌, Option, none,
  some, List, [], ◌∷◌, ◌++◌, ltb, leb, ◌==◌, if◌then◌else◌, length,
}
use libbgpstream.Libc.{Strtoul, strtoul, strcmp_eq, codes}
use libbgpstream.Addr.{Addr, AddrVersion, unknown, ipv4, ipv6, version_eq, addr_mask}
use libbgpstream.Pfx.{Pfx, match_any, match_exact, match_more, match_less}
use libbgpstream.Patricia.Tree
use libbgpstream.Patricia.Tree.{Patricia}
use libbgpstream.Patricia.Insert
use libbgpstream.Community.{Community, community_equal, str2community}
use libbgpstream.ResourceMgr.Queue.{RibFilter}
use libbgpstream.Filter.{FilterMgr, AspathExpr, IntervalFilter}
use libbgpstream.Filter.Regex.{
  Converted, converted, too_long, bad_backreference, fault, start, convert,
}

-- bgpstream_filter_type_t, without the prefix of the names.
pub data FilterType : Type 0 where
  project collector router record_type : FilterType
  elem_not_peer_asn elem_peer_asn elem_origin_asn elem_prefix elem_community : FilterType
  elem_prefix_exact elem_prefix_more elem_prefix_less elem_prefix_any : FilterType
  elem_aspath elem_extended_community elem_ip_version elem_type resource_type : FilterType

-- The filters, and whether the call succeeded.
abbrev pub Added : Type 0
Added = FilterMgr × Bool

-- bsf_id_set_insert
unfoldable pub id_set_insert : Option (ℕ → Bool) → ℕ → ℕ → Bool
id_set_insert none id x = x == id
id_set_insert (some ids) id x = x == id || ids x

has_text : List ℕ → List (List ℕ) → Bool
has_text t [] = false
has_text t (s ∷ l) = strcmp_eq t s || has_text t l

-- bsf_str_set_insert
unfoldable pub str_set_insert : Option (List (List ℕ)) → List ℕ → List (List ℕ)
unfolding has_text strcmp_eq
str_set_insert none value = value ∷ []
str_set_insert (some l) value = if has_text value l then l else value ∷ l

abbrev is_end : List ℕ → Bool
is_end [] = true
is_end (c ∷ s) = false

-- A whole text that writes a `uint32_t`.
unfoldable pub read_asn : List ℕ → Option ℕ
read_asn value =
    let r = strtoul value in
    if r.errno || (ltb (2 ^ 32 - 1) r.value || not (is_end r.rest)) then none else some r.value

abbrev pub with_asn : FilterMgr → Option ℕ → (ℕ → FilterMgr) → Added
with_asn mgr none set = (mgr, false)
with_asn mgr (some n) set = (set n, true)

-- BGPSTREAM_FILTER_ELEM_TYPE_ bits by the words for them.
unfoldable pub type_mask : List ℕ → Option ℕ
unfolding strcmp_eq
type_mask value =
    if strcmp_eq value (codes "ribs")
    then some 0x1
    else if strcmp_eq value (codes "announcements")
    then some 0x2
    else if strcmp_eq value (codes "withdrawals")
    then some 0x4
    else if strcmp_eq value (codes "peerstates")
    then some 0x8
    else if strcmp_eq value (codes "endofrib")
    then some 0x10
    else none

unfoldable pub add_type : FilterMgr → Option ℕ → Added
add_type mgr none = (mgr, false)
add_type mgr (some bit) = (record mgr { elemtype_mask = bit_or mgr.elemtype_mask bit }, true)

unfoldable pub add_ip_version : FilterMgr → List ℕ → Added
unfolding strcmp_eq
add_ip_version mgr value =
    if strcmp_eq value (codes "4")
    then (record mgr { ipversion = ipv4 }, true)
    else if strcmp_eq value (codes "6")
    then (record mgr { ipversion = ipv6 }, true)
    else (mgr, false)

-- The entry of a community in the map: a new one has the mask, an old one what both masks have.
unfoldable pub put_mask : Community → ℕ → List (Community × ℕ) → List (Community × ℕ)
unfolding community_equal
put_mask comm mask [] = (comm, bit_and mask mask) ∷ []
put_mask comm mask ((c, m) ∷ rest) =
    if community_equal c comm then (c, bit_and m mask) ∷ rest else (c, m) ∷ put_mask comm mask rest

abbrev pub entries {ℓ} : {A : Type ℓ} → Option (List A) → List A
entries none = []
entries (some l) = l

unfoldable pub add_community : FilterMgr → List ℕ → Community → Added
unfolding put_mask str2community
add_community mgr value held =
    let started = record mgr { communities = some (entries mgr.communities) } in
    elim (str2community value held) [
      | none ↦ (started, false)
      | some (comm, mask) ↦
          (record mgr { communities = some (put_mask comm mask (entries mgr.communities)) }, true)
    ]

-- The text up to the first `/` and what follows it.
unfoldable pub split_slash : List ℕ → Option (List ℕ × List ℕ)
split_slash [] = none
split_slash (c ∷ s) =
    if c == b'/'
    then some ([], s)
    else elim (split_slash s) [ none ↦ none | some (a, m) ↦ some (c ∷ a, m) ]

abbrev pub max_len : AddrVersion → ℕ
max_len ipv4 = 32
max_len ipv6 = 128
max_len unknown = 2 ^ 64

module _ (inet_pton : AddrVersion → List ℕ → Option (List ℕ)) (regcomp : List ℕ → Bool) where
  unfoldable pub str2addr : List ℕ → Option Addr
  str2addr s = elim (inet_pton ipv4 s) [
    | some bytes ↦ some (record { version = ipv4; bytes = bytes })
    | none ↦ elim (inet_pton ipv6 s) [
      | some bytes ↦ some (record { version = ipv6; bytes = bytes })
      | none ↦ none
    ]
  ]

  unfoldable pub with_mask : Option Addr → List ℕ → Option Pfx
  with_mask none mask = none
  with_mask (some addr) mask =
      let r = strtoul mask in
      if not (is_end r.rest) || (r.errno || ltb (max_len addr.version) r.value)
      then none
      else some (record {
        mask_len = r.value;
        allowed_matches = match_any;
        address = addr_mask addr r.value;
      })

  -- The copy of the text has 49 bytes with its NUL.
  unfoldable pub str2pfx : List ℕ → Option Pfx
  unfolding str2addr with_mask split_slash
  str2pfx s = elim (if ltb 48 (length s) then none else split_slash s) [
    | none ↦ none
    | some (a, mask) ↦ with_mask (str2addr a) mask
  ]

  -- The tree is made before the text is read.
  unfoldable pub add_prefix : FilterMgr → ℕ → List ℕ → Added
  unfolding str2pfx
  add_prefix mgr matches value =
      let tree : Patricia = elim mgr.prefixes [ none ↦ Tree.create false | some pt ↦ pt ] in
      elim (str2pfx value) [
        | none ↦ (record mgr { prefixes = some tree }, false)
        | some pfx ↦ (
          record mgr {
            prefixes = some (Insert.insert tree (record pfx { allowed_matches = matches })).0;
          },
          true,
        )
      ]

  abbrev add_expr : FilterMgr → Bool → Converted → Option Added
  add_expr mgr negate (converted re) = some (
      if regcomp re
      then (
        record mgr {
          aspath_exprs = mgr.aspath_exprs ++ (record { re = re; negate = negate } ∷ []);
        },
        true,
      )
      else (mgr, false))
  add_expr mgr negate too_long = some (mgr, false)
  add_expr mgr negate bad_backreference = some (mgr, false)
  add_expr mgr negate fault = none

  unfoldable pub add_aspath : FilterMgr → List ℕ → Option Added
  unfolding convert
  add_aspath mgr [] = add_expr mgr false (convert [] start)
  add_aspath mgr (c ∷ s) =
      if c == b'!'
      then add_expr mgr true (convert s start)
      else add_expr mgr false (convert (c ∷ s) start)

  -- `held` is what the uninitialised community holds; none is a write outside an array.
  unfoldable pub filter_add : FilterMgr → FilterType → List ℕ → Community → Option Added
  unfolding read_asn id_set_insert str_set_insert type_mask add_type add_ip_version add_community
      add_prefix add_aspath strcmp_eq
  filter_add mgr elem_peer_asn value held = some (
      with_asn mgr (read_asn value)
        (λ n. record mgr { peer_asns = some (id_set_insert mgr.peer_asns n) }))
  filter_add mgr elem_not_peer_asn value held = some (
      with_asn mgr (read_asn value)
        (λ n. record mgr { not_peer_asns = some (id_set_insert mgr.not_peer_asns n) }))
  filter_add mgr elem_origin_asn value held = some (
      with_asn mgr (read_asn value)
        (λ n. record mgr { origin_asns = some (id_set_insert mgr.origin_asns n) }))
  filter_add mgr elem_type value held = some (add_type mgr (type_mask value))
  filter_add mgr elem_aspath value held = add_aspath mgr value
  filter_add mgr elem_prefix value held = some (add_prefix mgr match_more value)
  filter_add mgr elem_prefix_more value held = some (add_prefix mgr match_more value)
  filter_add mgr elem_prefix_less value held = some (add_prefix mgr match_less value)
  filter_add mgr elem_prefix_exact value held = some (add_prefix mgr match_exact value)
  filter_add mgr elem_prefix_any value held = some (add_prefix mgr match_any value)
  filter_add mgr elem_community value held = some (add_community mgr value held)
  filter_add mgr elem_ip_version value held = some (add_ip_version mgr value)
  filter_add mgr project value held =
      some (record mgr { projects = some (str_set_insert mgr.projects value) }, true)
  filter_add mgr collector value held =
      some (record mgr { collectors = some (str_set_insert mgr.collectors value) }, true)
  filter_add mgr router value held =
      some (record mgr { routers = some (str_set_insert mgr.routers value) }, true)
  filter_add mgr record_type value held = some (
      if strcmp_eq value (codes "ribs") || strcmp_eq value (codes "updates")
      then (record mgr { bgp_types = some (str_set_insert mgr.bgp_types value) }, true)
      else (mgr, false))
  filter_add mgr resource_type value held = some (
      if strcmp_eq value (codes "stream") || strcmp_eq value (codes "batch")
      then (record mgr { res_types = some (str_set_insert mgr.res_types value) }, true)
      else (mgr, false))
  filter_add mgr elem_extended_community value held = some (mgr, false)

unfoldable pub interval_filter_add : FilterMgr → ℕ → ℕ → FilterMgr
interval_filter_add mgr begin_time end_time = record mgr {
  time_interval = some (record { begin_time = begin_time; end_time = end_time });
}

-- The period and the times of the last RIBs are the part of the manager that the queue uses.
unfoldable pub rib_period_filter_add : RibFilter → ℕ → RibFilter
rib_period_filter_add f period = record f { rib_period = period }

-- BGPSTREAM_FOREVER
abbrev forever : ℕ
forever = 0

-- Whether the interval is a valid one.
unfoldable pub validate : FilterMgr → Bool
validate mgr = elim mgr.time_interval [
  | none ↦ true
  | some f ↦ f.end_time == forever || leb f.begin_time f.end_time
]
