-- ===== src/Tests/Trees.antt =====
-- The Patricia tree on three prefixes.
use libbgpstream.Prelude.{
  ◌++◌, ◌∷◌, subst, arith, ◌+◌, ◌%◌, ◌^◌, ◌≡◌, refl, false, not, ◌&&◌, ◌||◌, some, [], all_below,
}
use libbgpstream.Addr.{AddrVersion, unknown, ipv4, ipv6, version_eq, bit_array_test, addr_mask}
use libbgpstream.Key.{Key, key_eq, common}
use libbgpstream.Pfx.{key}
use libbgpstream.Patricia.Tree.{left_of, right_of, Loc, loc, null, node, get_head, plug, here}
use libbgpstream.Patricia.Tree.Shape.{HasShape, member, is_node}
use libbgpstream.Patricia.Search.{search_exact, search_node, find_differ_bit, insert_point_from}
use libbgpstream.Patricia.Search.Exact.{is_some, search_exact-member}
use libbgpstream.Patricia.Search.Differ.{find_differ_bit_lem}
use libbgpstream.Patricia.Entries.{entries}
use libbgpstream.Patricia.Results.{empty_set, get_more_specifics}
use libbgpstream.Patricia.Specifics.{all_specifics, get_more_specifics_lem}
use libbgpstream.Patricia.Merge.{merge-member}
use libbgpstream.Patricia.Insert.{merge, insert, insert_at, node_create}
use libbgpstream.Patricia.Insert.Reference.{ins}
use libbgpstream.Patricia.Insert.Refines.{insert_at-ins}
use libbgpstream.Patricia.Insert.Set.{IsTree, insert-IsTree, member-insert, head-HasShape}
use libbgpstream.Patricia.Remove.{remove}
use libbgpstream.Patricia.Remove.Laws.{remove-IsTree, member-remove}
use libbgpstream.Patricia.Counts.{prefix_count}
use libbgpstream.Patricia.Counted.{one_if, actual_nodes}
use libbgpstream.Patricia.Counters.{IsCounted, insert-IsCounted}
use libbgpstream.Patricia.Miscount.{remove-count}
use libbgpstream.Patricia.Leads.{any_key, leads}
use libbgpstream.Patricia.Overlap.{overlap_bits, get_node_overlap_info_lem}
use libbgpstream.Patricia.Walk.{get_node_overlap_info}
use libbgpstream.Tests.Data.{
  ten, ten_low, ten_high, local, ten-IsPfx, ten_low-IsPfx, ten_high-IsPfx, local-IsPfx, no_prefixes,
  two_prefixes, three_prefixes, no_prefixes-IsTree, two_prefixes-IsTree, three_prefixes-IsTree,
}

search_exact-member_example :
    is_some (search_exact three_prefixes ten) ≡ member (key ten) (get_head three_prefixes ipv4)
search_exact-member_example =
    search_exact-member ten ten-IsPfx three_prefixes
      (head-HasShape three_prefixes ipv4 three_prefixes-IsTree)

common_bits : find_differ_bit ten_low ten_high ≡ common (key ten_low) (key ten_high)
common_bits = find_differ_bit_lem ten_low ten_high ten_low-IsPfx ten_high-IsPfx

member-insert_example : member (key ten) (get_head (insert two_prefixes ten).0 ipv4) ≡ (
    member (key ten) (get_head two_prefixes ipv4)
    || (version_eq ipv4 ipv4 && key_eq (key ten) (key ten)))
member-insert_example = member-insert two_prefixes ten ipv4 (key ten) two_prefixes-IsTree ten-IsPfx

insert-IsTree_example : IsTree (insert two_prefixes local).0
insert-IsTree_example = insert-IsTree two_prefixes local two_prefixes-IsTree local-IsPfx

member-remove_example : member (key ten_low) (get_head (remove three_prefixes ten_low) ipv4) ≡ (
    member (key ten_low) (get_head three_prefixes ipv4)
    && not (version_eq ipv4 ipv4 && key_eq (key ten_low) (key ten_low)))
member-remove_example =
    member-remove ten_low ten_low-IsPfx three_prefixes ipv4 (key ten_low) three_prefixes-IsTree

remove-IsTree_example : IsTree (remove three_prefixes ten)
remove-IsTree_example = remove-IsTree ten ten-IsPfx three_prefixes three_prefixes-IsTree

no_prefixes-IsCounted : IsCounted no_prefixes
unfolding prefix_count actual_nodes
no_prefixes-IsCounted unknown = refl
no_prefixes-IsCounted ipv4 = refl
no_prefixes-IsCounted ipv6 = refl

two_prefixes-IsCounted : IsCounted two_prefixes
two_prefixes-IsCounted =
    insert-IsCounted (insert no_prefixes ten_low).0 ten_high
      (insert-IsTree no_prefixes ten_low no_prefixes-IsTree ten_low-IsPfx) ten_high-IsPfx
      (insert-IsCounted no_prefixes ten_low no_prefixes-IsTree ten_low-IsPfx no_prefixes-IsCounted)

insert-IsCounted_example : IsCounted (insert two_prefixes ten).0
insert-IsCounted_example =
    insert-IsCounted two_prefixes ten two_prefixes-IsTree ten-IsPfx two_prefixes-IsCounted

abbrev at_ten : Loc
at_ten =
    loc (node_create ten) (node (node_create ten_low) null null)
      (node (node_create ten_high) null null) []

-- The glue node that the halves are under has become the node of the prefix.
found_ten : search_exact three_prefixes ten ≡ some at_ten
unfolding search_exact insert bit_array_test addr_mask all_below
found_ten = refl

three_prefixes-IsCounted : IsCounted three_prefixes
three_prefixes-IsCounted =
    insert-IsCounted two_prefixes ten two_prefixes-IsTree ten-IsPfx two_prefixes-IsCounted

remove-count_example :
    prefix_count (remove three_prefixes ten) ipv4
    ≡ (actual_nodes (get_head (remove three_prefixes ten) ipv4)
        + one_if (is_node at_ten.l && is_node at_ten.r))
      % 2 ^ 64
remove-count_example =
    remove-count three_prefixes ten at_ten three_prefixes-IsTree ten-IsPfx three_prefixes-IsCounted
      found_ten

-- After the removal of 10.0.0.0/8 two prefixes are left, and the counter still says three.
count_left : prefix_count (remove three_prefixes ten) ipv4 ≡ 3
unfolding prefix_count remove search_exact insert bit_array_test addr_mask all_below
count_left = refl

nodes_left : actual_nodes (get_head (remove three_prefixes ten) ipv4) ≡ 2
unfolding actual_nodes remove search_exact insert bit_array_test addr_mask all_below
nodes_left = refl

-- Where the search for 10.0.0.0/8 ends among its halves: at their glue node.
abbrev at_glue : Loc
at_glue = record at_ten { info = record (at_ten.info) { actual = false } }

found_glue : search_node (get_head two_prefixes ipv4) [] ten ≡ some at_glue
unfolding search_node insert bit_array_test addr_mask
found_glue = refl

insert_at-ins_example :
    plug
      (here (insert_at ten (insert_point_from ten at_glue)).0)
      (insert_at ten (insert_point_from ten at_glue)).0.parents
    ≡ plug (ins ten (get_head two_prefixes ipv4)) []
insert_at-ins_example =
    insert_at-ins ipv4 ten ten-IsPfx refl (get_head two_prefixes ipv4) at_glue found_glue
      (head-HasShape two_prefixes ipv4 two_prefixes-IsTree)

get_node_overlap_info_lem_example :
    get_node_overlap_info at_ten
    ≡ overlap_bits
        (any_key (λ q. leads q (key ten)) (get_head three_prefixes ipv4))
        (any_key (λ q. leads (key ten) q) (get_head three_prefixes ipv4))
get_node_overlap_info_lem_example =
    get_node_overlap_info_lem three_prefixes ten at_ten three_prefixes-IsTree ten-IsPfx found_ten

overlap_of_ten : get_node_overlap_info at_ten ≡ 3
unfolding get_node_overlap_info
overlap_of_ten = refl

merge-member_example :
    IsTree (merge two_prefixes three_prefixes)
    × ((w : AddrVersion) (k : Key)
        → member k (get_head (merge two_prefixes three_prefixes) w)
          ≡ (member k (get_head two_prefixes w) || member k (get_head three_prefixes w)))
merge-member_example =
    merge-member two_prefixes three_prefixes two_prefixes-IsTree three_prefixes-IsTree

head_of_three : get_head three_prefixes ipv4 ≡ node at_ten.info at_ten.l at_ten.r
unfolding insert bit_array_test addr_mask
head_of_three = refl

get_more_specifics_lem_example :
    entries (get_more_specifics (λ n. n) empty_set (some at_ten))
    ≡ all_specifics at_ten.l (left_of at_ten.info at_ten.r ∷ [])
      ++ all_specifics at_ten.r (right_of at_ten.info at_ten.l ∷ [])
get_more_specifics_lem_example =
    get_more_specifics_lem (λ n. n) (λ n. omega arith) ipv4 [] at_ten empty_set
      (subst (HasShape ipv4 []) head_of_three
        (head-HasShape three_prefixes ipv4 three_prefixes-IsTree))
      (record { room = refl; fits = omega arith })
