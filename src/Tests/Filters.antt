-- ===== src/Tests/Filters.antt =====
-- Filters and the elems that pass them.
use libbgpstream.Prelude.{
  ℕ, zero, suc, ◌≡◌, ◌≢◌, refl, ◌↔◌, Bool, true, false, ◌||◌, Option, none, some, List, [], ◌∷◌,
  ◌==◌, arith,
}
use libbgpstream.Libc.{codes, decimal, strtoul}
use libbgpstream.Addr.{AddrVersion, bit_array_test, addr_mask}
use libbgpstream.Community.Set.{set_match, may_match}
use libbgpstream.AsPath.{segs}
use libbgpstream.AsPath.Text.{path_text}
use libbgpstream.Filter.{Elem, announcement, withdrawal, FilterMgr, create}
use libbgpstream.Filter.Regex.{fault, start, convert}
use libbgpstream.Filter.Regex.Safe.{groups, convert-safe}
use libbgpstream.Filter.Add.{
  FilterType, elem_peer_asn, elem_not_peer_asn, elem_origin_asn, elem_type, Added, filter_add,
}
use libbgpstream.Filter.Add.Asns.{Adds, has, filter_add-asn}
use libbgpstream.Filter.Parser.{
  Term, terms, take_term, repeat_state, parsed, out_of_fuel, parse_filter_string,
}
use libbgpstream.Filter.Parser.Ends.{parse_filter_string-ends}
use libbgpstream.Filter.Parser.Query.{
  Clause, IsQuery, is_plain, is_conjunction, tokens_text, query_tokens, run_query,
}
use libbgpstream.Filter.Parser.Values.{parse_filter_string-query}
use libbgpstream.Filter.Check.{elem_check_filters, prefix_match}
use libbgpstream.Pfx.{match_more, match_less}
use libbgpstream.Patricia.Tree.{Patricia}
use libbgpstream.Patricia.Insert.{insert}
use libbgpstream.Filter.Check.Passes.{Passes, elem_check_filters_iff}
use libbgpstream.ElemGenerator
use libbgpstream.ElemGenerator.{ElemGenerator, add_elems, get_new_elem}
use libbgpstream.ElemGenerator.Iteration.{drain, add_elems-drain}
use libbgpstream.Tests.Data.{
  ten, ten_low, ten_low-IsPfx, no_prefixes, three_prefixes, three_prefixes-IsTree,
}
use libbgpstream.Tests.Paths.{
  peering, one_community, one_community-IsHashed, path, two_segs, path-IsPath,
}

-- A library that knows no address, and one that takes every expression and finds it in no text.
abbrev inet_pton : AddrVersion → List ℕ → Option (List ℕ)
inet_pton version s = none

abbrev regcomp : List ℕ → Bool
regcomp re = true

abbrev regexec : List ℕ → List ℕ → Bool
regexec re text = false

abbrev elem : Elem
elem = record {
  elem_type = announcement;
  peer_asn = 64500;
  prefix = ten_low;
  as_path = path;
  communities = one_community;
}

-- Announcements from one peer that do not match an expression, with either of two communities.
abbrev filters : FilterMgr
filters = record create {
  elemtype_mask = 2;
  peer_asns = some (λ x. x == 64500);
  prefixes = some three_prefixes;
  aspath_exprs = record { re = codes "64999"; negate = true } ∷ [];
  communities =
      some ((record { asn = 1; value = 2 }, 3) ∷ (record { asn = 65000; value = 0 }, 2) ∷ []);
}

elem_check_filters_iff_example :
    (b : Bool) × (elem_check_filters regexec filters elem ≡ some b)
    × ((b ≡ true) ↔ Passes regexec filters elem two_segs)
elem_check_filters_iff_example =
    elem_check_filters_iff regexec filters elem two_segs path-IsPath one_community-IsHashed
      (three_prefixes-IsTree, ten_low-IsPfx)

passes : elem_check_filters regexec filters elem ≡ some true
unfolding elem_check_filters path_text segs set_match may_match prefix_match insert bit_array_test
    addr_mask
passes = refl

-- A filter with 10.0.0.0/8 alone, that allows these matches.
abbrev only_ten : ℕ → Patricia
only_ten matches = (insert no_prefixes (record ten { allowed_matches = matches })).0

matches_more : prefix_match (only_ten match_more) ten_low ≡ true
unfolding prefix_match insert bit_array_test addr_mask
matches_more = refl

matches_less : prefix_match (only_ten match_less) ten_low ≡ false
unfolding prefix_match insert bit_array_test addr_mask
matches_less = refl

withdrawn : elem_check_filters regexec filters (record elem { elem_type = withdrawal }) ≡ some false
unfolding elem_check_filters
withdrawn = refl

filter_add-asn_example :
    Adds inet_pton regcomp peering
      (filter_add inet_pton regcomp filters elem_peer_asn (decimal 64501) peering)
      (λ m. (x : ℕ) → has m.peer_asns x ≡ (x == 64501 || has filters.peer_asns x))
    × Adds inet_pton regcomp peering
        (filter_add inet_pton regcomp filters elem_not_peer_asn (decimal 64501) peering)
        (λ m. (x : ℕ) → has m.not_peer_asns x ≡ (x == 64501 || has filters.not_peer_asns x))
    × Adds inet_pton regcomp peering
        (filter_add inet_pton regcomp filters elem_origin_asn (decimal 64501) peering)
        (λ m. (x : ℕ) → has m.origin_asns x ≡ (x == 64501 || has filters.origin_asns x))
filter_add-asn_example = filter_add-asn inet_pton regcomp peering filters 64501 (omega arith)

convert-safe_example : convert (codes "^(1|2)_3$") start ≢ fault
unfolding groups
convert-safe_example = convert-safe (codes "^(1|2)_3$") (omega arith)

-- A number that does not fit 32 bits is refused.
too_large :
    filter_add inet_pton regcomp filters elem_peer_asn (codes "4294967296") peering
    ≡ some (filters, false)
unfolding filter_add strtoul
too_large = refl

abbrev add_filter : FilterMgr → FilterType → List ℕ → Option Added
add_filter mgr ty val = filter_add inet_pton regcomp mgr ty val peering

-- "peer 64500 64501 and elemtype ribs".
abbrev peer_clause : Clause
peer_clause = record {
  word = codes "peer";
  type = elem_peer_asn;
  first = codes "64500";
  more = codes "64501" ∷ [];
}

abbrev type_clause : Clause
type_clause = record { word = codes "elemtype"; type = elem_type; first = codes "ribs"; more = [] }

parse_filter_string-ends_example :
    parse_filter_string add_filter create (codes "peer \"64500") ≢ out_of_fuel
parse_filter_string-ends_example = parse_filter_string-ends add_filter create (codes "peer \"64500")

abbrev rows_left : ℕ → List Term → List Term
rows_left n [] = []
rows_left zero (t ∷ ts) = record t { repeatable = some 0 } ∷ ts
rows_left (suc n) (t ∷ ts) = t ∷ rows_left n ts

abbrev two_clauses : List Clause
two_clauses = peer_clause ∷ type_clause ∷ []

two_clauses-IsQuery : IsQuery terms two_clauses
unfolding take_term is_plain is_conjunction repeat_state
two_clauses-IsQuery = (
  rows_left 5 terms,
  refl,
  refl,
  refl,
  refl,
  ((refl, refl), tt),
  refl,
  (rows_left 12 (rows_left 5 terms), refl, refl, refl, refl, tt, tt, tt),
)

parse_filter_string-query_example :
    parse_filter_string add_filter create
      (tokens_text (query_tokens peer_clause (type_clause ∷ [])))
    ≡ run_query add_filter create (peer_clause ∷ type_clause ∷ [])
parse_filter_string-query_example =
    parse_filter_string-query add_filter create peer_clause (type_clause ∷ []) two_clauses-IsQuery

-- A term that is used twice is refused.
twice :
    parse_filter_string add_filter create (codes "project ris and project routeviews")
    ≡ parsed (record create { projects = some (codes "ris" ∷ []) }, false)
unfolding parse_filter_string filter_add
twice = refl

-- Elems are put into a generator and handed out.
abbrev withdrawal_elem : Elem
withdrawal_elem = record elem { elem_type = withdrawal }

add_elems-drain_example :
    (after : ElemGenerator) × (add_elems elem
        (ElemGenerator.empty ElemGenerator.create)
        (elem ∷ withdrawal_elem ∷ [])
      ≡ some after)
    × (drain 3 after ≡ some (elem ∷ withdrawal_elem ∷ []))
add_elems-drain_example = add_elems-drain elem ElemGenerator.create (elem ∷ withdrawal_elem ∷ [])

-- A generator that was not emptied has no place for an elem.
not_emptied : add_elems elem ElemGenerator.create (elem ∷ []) ≡ none
unfolding add_elems get_new_elem
not_emptied = refl
