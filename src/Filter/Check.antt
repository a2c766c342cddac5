-- ===== src/Filter/Check.antt =====
-- Which elems pass: elem_check_filters and bgpstream_elem_prefix_match of lib/bgpstream_record.c.
-- `regexec` is the C library's match of a compiled expression.
pub mod Wanted
pub mod Prefixes
pub mod Asks
pub mod Judged
pub mod Matches
pub mod Passes
use libbgpstream.Prelude.{
  ℕ, ◌^◌, ◌-◌, bit_and, Bool, true, false, not, ◌&&◌, ◌||◌, Option, none, some, List, [], ◌∷◌, ◌==◌,
  if◌then◌else◌, take, ◌>>=◌,
}
use libbgpstream.Addr.{AddrVersion, unknown, version_eq}
use libbgpstream.Pfx.{Pfx, match_any, match_more, match_less}
use libbgpstream.Patricia.Tree.{Loc, Patricia}
use libbgpstream.Patricia.Walk.{WalkResult, continue, end_all, walk_up_down}
use libbgpstream.Community.{Community}
use libbgpstream.Community.Set.{CommunitySet, asks, set_match}
use libbgpstream.AsPath.{AsPath, get_origin_val}
use libbgpstream.AsPath.Text.{path_text}
use libbgpstream.Filter.{
  ElemType, unknown_elem, rib, announcement, withdrawal, peerstate, end_of_rib, Elem, AspathExpr,
  FilterMgr,
}

-- BGPSTREAM_FILTER_ELEM_TYPE_RIB and the others; no bit turns an unknown type down.
unfoldable pub type_allowed : ℕ → ElemType → Bool
type_allowed mask unknown_elem = true
type_allowed mask rib = asks mask 0x1
type_allowed mask announcement = asks mask 0x2
type_allowed mask withdrawal = asks mask 0x4
type_allowed mask peerstate = asks mask 0x8
type_allowed mask end_of_rib = asks mask 0x10

unfoldable pub check_type : ℕ → ElemType → Bool
unfolding type_allowed
check_type mask type = if mask == 0 then true else type_allowed mask type

abbrev pub is_peerstate : ElemType → Bool
is_peerstate peerstate = true
is_peerstate _ = false

-- An elem that carries no path: a withdrawal or a change of the peer's state.
abbrev pub has_no_path : ElemType → Bool
has_no_path withdrawal = true
has_no_path peerstate = true
has_no_path _ = false

unfoldable pub check_peer : Option (ℕ → Bool) → ℕ → Bool
check_peer none asn = true
check_peer (some ids) asn = ids asn

unfoldable pub check_not_peer : Option (ℕ → Bool) → ℕ → Bool
check_not_peer none asn = true
check_not_peer (some ids) asn = not (ids asn)

abbrev pub in_ids : (ℕ → Bool) → Option ℕ → Bool
in_ids ids none = false
in_ids ids (some asn) = ids asn

unfoldable pub check_origin : Option (ℕ → Bool) → Elem → Bool
check_origin none elem = true
check_origin (some ids) elem =
    if has_no_path elem.elem_type then false else in_ids ids (get_origin_val elem.as_path)

unfoldable pub check_ipversion : AddrVersion → Elem → Bool
check_ipversion version elem =
    if version_eq version unknown
    then true
    else if is_peerstate elem.elem_type
    then false
    else version_eq elem.prefix.address.version version

unfoldable pub pfx_exists : Loc → Bool → WalkResult × Bool
pfx_exists x matched = (end_all, true)

abbrev pub allows : ℕ → Loc → Bool
allows matches x =
    x.info.prefix.allowed_matches == match_any || x.info.prefix.allowed_matches == matches

unfoldable pub pfx_allows : ℕ → Loc → Bool → WalkResult × Bool
pfx_allows matches x matched = if allows matches x then (end_all, true) else (continue, matched)

unfoldable pub prefix_match : Patricia → Pfx → Bool
unfolding pfx_exists pfx_allows walk_up_down
prefix_match prefixes search =
    walk_up_down (some pfx_exists) (some (pfx_allows match_more)) (some (pfx_allows match_less))
      prefixes search false

unfoldable pub check_prefixes : Option Patricia → Elem → Bool
check_prefixes none elem = true
check_prefixes (some prefixes) elem =
    if is_peerstate elem.elem_type then false else prefix_match prefixes elem.prefix

unfoldable pub any_community : List (Community × ℕ) → CommunitySet → Bool
any_community [] set = false
any_community ((c, mask) ∷ rest) set = set_match set c mask || any_community rest set

unfoldable pub check_communities : Option (List (Community × ℕ)) → Elem → Bool
unfolding any_community
check_communities none elem = true
check_communities (some wanted) elem =
    if has_no_path elem.elem_type then false else any_community wanted elem.communities

-- The checks before those of the path's text.
unfoldable pub before_aspath : FilterMgr → Elem → Bool
unfolding check_type check_peer check_not_peer check_origin check_ipversion check_prefixes
before_aspath mgr elem =
    check_type mgr.elemtype_mask elem.elem_type
    && (check_peer mgr.peer_asns elem.peer_asn
        && (check_not_peer mgr.not_peer_asns elem.peer_asn
            && (check_origin mgr.origin_asns elem
                && (check_ipversion mgr.ipversion elem && check_prefixes mgr.prefixes elem))))

module _ (regexec : List ℕ → List ℕ → Bool) where
  -- All expressions must match, a negated one must not.
  unfoldable pub check_exprs : List AspathExpr → List ℕ → Bool
  check_exprs [] text = true
  check_exprs (e ∷ es) text =
      (if e.negate then not (regexec e.re text) else regexec e.re text) && check_exprs es text

  -- The text is cut to the buffer of 65536 bytes.
  unfoldable pub check_aspath : List AspathExpr → Elem → Option Bool
  unfolding check_exprs
  check_aspath [] elem = some true
  check_aspath (e ∷ es) elem =
      if has_no_path elem.elem_type
      then some false
      else (do text ← path_text elem.as_path; some (check_exprs (e ∷ es) (take 65535 text)))

  -- The checks in order; none where the path's text meets a fault.
  unfoldable pub elem_check_filters : FilterMgr → Elem → Option Bool
  unfolding before_aspath check_aspath check_communities
  elem_check_filters mgr elem =
      if before_aspath mgr elem
      then (do
        matched ← check_aspath mgr.aspath_exprs elem
        some (matched && check_communities mgr.communities elem))
      else some false

  -- bgpstream_record_get_next_elem: `elems` is what bgpstream_format_get_next_elem has still to give.
  -- The next elem that passes, and those after it.
  unfoldable pub get_next_elem : FilterMgr → List Elem → Option (Option (Elem × List Elem))
  unfolding elem_check_filters
  get_next_elem mgr [] = some none
  get_next_elem mgr (e ∷ es) = elim (elem_check_filters mgr e) [
    | none ↦ none
    | some true ↦ some (some (e, es))
    | some false ↦ get_next_elem mgr es
  ]
