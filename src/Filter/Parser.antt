-- ===== src/Filter/Parser.antt =====
-- Filter strings: bgpstream_parse_filter_string and the other functions of
-- lib/bgpstream_filter_parser.c. A pointer into the string is the rest of the string. `add_filter`
-- is bgpstream_add_filter of lib/bgpstream.c, which is filter_add of Add.antt; none is its fault.
pub mod Ends
pub mod Query
pub mod Values
use libbgpstream.Prelude.{
  ℕ, zero, suc, Bool, true, false, not, ◌&&◌, ◌||◌, Option, none, some, List, [], ◌∷◌, ◌==◌,
  if◌then◌else◌, length,
}
use libbgpstream.Libc.{codes, strcmp_eq, skip_space}
use libbgpstream.Filter.{FilterMgr}
use libbgpstream.Filter.Add.{
  FilterType, project, collector, router, record_type, elem_not_peer_asn, elem_peer_asn,
  elem_origin_asn, elem_prefix, elem_community, elem_prefix_exact, elem_prefix_more,
  elem_prefix_less, elem_prefix_any, elem_aspath, elem_extended_community, elem_ip_version,
  elem_type, resource_type, Added,
}

-- fp_state_t, without FAIL, which stops the parser.
pub data State : Type 0 where
  term prefixext value endvalue : State

-- A row of `terms` with its entry of `repeatable`, which is none for a number below 0.
pub record Term : Type 0 where
  pub repeatable : Option ℕ
  pub word : List ℕ
  pub alt : Option (List ℕ)
  pub termtype : FilterType
  pub state : State

abbrev row : Option ℕ → List ℕ → Option (List ℕ) → FilterType → State → Term
row repeatable word alt termtype state = record {
  repeatable = repeatable;
  word = word;
  alt = alt;
  termtype = termtype;
  state = state;
}

abbrev pub terms : List Term
terms =
    row (some 1) (codes "project") (some (codes "proj")) project value
    ∷ row (some 1) (codes "collector") (some (codes "coll")) collector value
    ∷ row (some 1) (codes "router") (some (codes "rout")) router value
    ∷ row (some 1) (codes "type") none record_type value
    ∷ row (some 1) (codes "resourcetype") (some (codes "restype")) resource_type value
    ∷ row (some 1) (codes "peer") none elem_peer_asn value
    ∷ row (some 1) (codes "origin") (some (codes "orig")) elem_origin_asn value
    ∷ row (some 1) (codes "prefix") (some (codes "pref")) elem_prefix_more prefixext
    ∷ row (some 1) (codes "community") (some (codes "comm")) elem_community value
    ∷ row none (codes "aspath") (some (codes "path")) elem_aspath value
    ∷ row (some 1) (codes "extcommunity") (some (codes "extc")) elem_extended_community value
    ∷ row (some 1) (codes "ipversion") (some (codes "ipv")) elem_ip_version value
    ∷ row (some 1) (codes "elemtype") none elem_type value
    ∷ row (some 0) (codes "prefix") none elem_prefix_any prefixext
    ∷ row (some 0) (codes "prefix") none elem_prefix_more prefixext
    ∷ row (some 0) (codes "prefix") none elem_prefix_less prefixext
    ∷ row (some 0) (codes "prefix") none elem_prefix_exact prefixext
    ∷ []

-- The place of a type in the enumeration.
abbrev type_code : FilterType → ℕ
type_code project = 0
type_code collector = 1
type_code router = 2
type_code record_type = 3
type_code elem_not_peer_asn = 4
type_code elem_peer_asn = 5
type_code elem_origin_asn = 6
type_code elem_prefix = 7
type_code elem_community = 8
type_code elem_prefix_exact = 9
type_code elem_prefix_more = 10
type_code elem_prefix_less = 11
type_code elem_prefix_any = 12
type_code elem_aspath = 13
type_code elem_extended_community = 14
type_code elem_ip_version = 15
type_code elem_type = 16
type_code resource_type = 17

-- `item_type` is the `termtype` of the item, and `rows` has the counts that are left.
pub record Parser : Type 0 where
  pub state : State
  pub item_type : FilterType
  pub rows : List Term
  pub mgr : FilterMgr

abbrev pub start : FilterMgr → Parser
start mgr = record { state = term; item_type = project; rows = terms; mgr = mgr }

-- What comes before the first `c`, and the text from there on.
unfoldable pub cut_at : ℕ → List ℕ → List ℕ × List ℕ
cut_at c [] = ([], [])
cut_at c (d ∷ s) =
    let (before, rest) = cut_at c s in if d == c then ([], d ∷ s) else (d ∷ before, rest)

abbrev pub is_named : List ℕ → Term → Bool
is_named token t =
    strcmp_eq token t.word || elim t.alt [ none ↦ false | some alt ↦ strcmp_eq token alt ]

pub data Taken : Type 0 where
  no_term used_up : Taken
  taken : FilterType → State → List Term → Taken

abbrev pub use_row : Term → List Term → Taken
use_row t rest = elim t.repeatable [
  | none ↦ taken t.termtype t.state (t ∷ rest)
  | some zero ↦ used_up
  | some (suc n) ↦ taken t.termtype t.state (record t { repeatable = some n } ∷ rest)
]

abbrev pub keep_row : Term → Taken → Taken
keep_row t no_term = no_term
keep_row t used_up = used_up
keep_row t (taken ty st rest) = taken ty st (t ∷ rest)

unfoldable pub take_term : List ℕ → List Term → Taken
unfolding strcmp_eq
take_term token [] = no_term
take_term token (t ∷ rest) =
    let further = take_term token rest in
    if is_named token t then use_row t rest else keep_row t further

-- The value and what follows it; none where the quotes are wrong.
abbrev pub after_quote : List ℕ × List ℕ → Option (List ℕ × List ℕ)
after_quote (inside, []) = none
after_quote (inside, quote ∷ []) = some (inside, [])
after_quote (inside, quote ∷ c ∷ rest) = if c == b' ' then some (inside, c ∷ rest) else none

unfoldable pub parse_value : List ℕ → Option (List ℕ × List ℕ)
unfolding cut_at
parse_value [] = some ([], [])
parse_value (c ∷ s) = if c == b'"' then after_quote (cut_at b'"' s) else some (cut_at b' ' (c ∷ s))

unfoldable pub prefix_word : List ℕ → Option FilterType
unfolding strcmp_eq
prefix_word token =
    if strcmp_eq token (codes "any")
    then some elem_prefix_any
    else if strcmp_eq token (codes "more")
    then some elem_prefix_more
    else if strcmp_eq token (codes "less")
    then some elem_prefix_less
    else if strcmp_eq token (codes "exact")
    then some elem_prefix_exact
    else none

-- The state in which another value of the item's type is read.
unfoldable pub repeat_state : FilterType → List Term → Option State
repeat_state ty [] = none
repeat_state ty (t ∷ rest) =
    let further = repeat_state ty rest in
    if type_code ty == type_code t.termtype
    then elim t.repeatable [ none ↦ none | some n ↦ some t.state ]
    else further

unfoldable pub parse_endvalue : List ℕ → Parser → Option State
unfolding strcmp_eq repeat_state
parse_endvalue conj pr =
    if strcmp_eq conj (codes "and")
    then some term
    else if strcmp_eq conj (codes "or")
    then none
    else repeat_state pr.item_type pr.rows

abbrev pub is_supported : FilterType → Bool
is_supported elem_prefix = false
is_supported elem_extended_community = false
is_supported _ = true

-- What a token comes to: the end of the parsing, a fault, or the parser and the rest of the string.
pub data Step : Type 0 where
  failed : FilterMgr → Step
  faulted : Step
  goes : Parser → List ℕ → Step

pub data Parsed : Type 0 where
  parsed : Added → Parsed
  parse_fault out_of_fuel : Parsed

abbrev pub after_step : (Parser → List ℕ → Parsed) → Step → Parsed
after_step k (failed mgr) = parsed (mgr, false)
after_step k faulted = parse_fault
after_step k (goes pr s) = k pr s

-- bgpstream_parse_filter_term, on a token and the rest of the string.
unfoldable pub parse_filter_term : Parser → List ℕ × List ℕ → Step
unfolding take_term
parse_filter_term pr (token, rest) = elim (take_term token pr.rows) [
  | no_term ↦ failed pr.mgr
  | used_up ↦ failed pr.mgr
  | taken ty st rows ↦ goes (record pr { state = st; item_type = ty; rows = rows }) rest
]

abbrev pub after_add : Parser → List ℕ → Option Added → Step
after_add pr rest none = faulted
after_add pr rest (some (mgr, false)) = failed mgr
after_add pr rest (some (mgr, true)) = goes (record pr { state = endvalue; mgr = mgr }) rest

abbrev pub is_endvalue : State → Bool
is_endvalue endvalue = true
is_endvalue _ = false

module _ (add_filter : FilterMgr → FilterType → List ℕ → Option Added) where
  unfoldable pub instantiate_filter : Parser → List ℕ → List ℕ → Step
  instantiate_filter pr val rest =
      if is_supported pr.item_type
      then after_add pr rest (add_filter pr.mgr pr.item_type val)
      else failed pr.mgr

  -- A value, and the filter that it makes.
  unfoldable pub on_value : Parser → List ℕ → Step
  unfolding parse_value instantiate_filter
  on_value pr s = elim (parse_value s) [
    | none ↦ failed pr.mgr
    | some (val, rest) ↦ instantiate_filter pr val rest
  ]

  unfoldable pub on_prefixext : Parser → List ℕ → Step
  unfolding cut_at prefix_word on_value
  on_prefixext pr s =
      let (token, rest) = cut_at b' ' s in
      elim (prefix_word token) [
        | none ↦ on_value pr s
        | some ty ↦ goes (record pr { state = value; item_type = ty }) rest
      ]

  -- A token after a value: "and", or another value.
  abbrev pub retry : Parser → List ℕ → Option State → Step
  retry pr s none = failed pr.mgr
  retry pr s (some term) = goes (record pr { state = term }) (cut_at b' ' s).1
  retry pr s (some prefixext) = on_prefixext (record pr { state = prefixext }) s
  retry pr s (some value) = on_value (record pr { state = value }) s
  retry pr s (some endvalue) = failed pr.mgr

  -- The token at the start of the text.
  abbrev pub on_token : State → Parser → List ℕ → Step
  on_token term pr s = parse_filter_term pr (cut_at b' ' s)
  on_token prefixext pr s = on_prefixext pr s
  on_token value pr s = on_value pr s
  on_token endvalue pr s = retry pr s (parse_endvalue (cut_at b' ' s).0 pr)

  abbrev pub parse_round : (Parser → List ℕ → Parsed) → Parser → List ℕ → Parsed
  parse_round k pr [] = parsed (pr.mgr, is_endvalue pr.state)
  parse_round k pr (c ∷ s) = after_step k (on_token pr.state pr (c ∷ s))

  -- A round takes a character at least.
  unfoldable pub parse_loop : ℕ → Parser → List ℕ → Parsed
  unfolding on_prefixext on_value parse_filter_term parse_endvalue cut_at skip_space
  parse_loop zero pr s = out_of_fuel
  parse_loop (suc f) pr s = parse_round (parse_loop f) pr (skip_space s)

  unfoldable pub parse_filter_string : FilterMgr → List ℕ → Parsed
  unfolding parse_loop
  parse_filter_string mgr fstring = parse_loop (suc (length fstring)) (start mgr) fstring
