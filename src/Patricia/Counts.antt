-- ===== src/Patricia/Counts.antt =====
-- Counts of prefixes and of subnets, of lib/utils/bgpstream_utils_patricia.c.
use libbgpstream.Prelude.{ℕ, ◌+◌, ◌-◌, ◌%◌, ◌^◌, not, leb, ◌==◌, if◌then◌else◌}
use libbgpstream.Addr.{AddrVersion, unknown, ipv4, ipv6}
use libbgpstream.Patricia.Tree.{Node, Tree, null, node, Patricia}

unfoldable pub prefix_count : Patricia → AddrVersion → ℕ
prefix_count pt ipv4 = pt.ipv4_active_nodes
prefix_count pt ipv6 = pt.ipv6_active_nodes
prefix_count pt unknown = 0

-- `subnet_size - mask_len` is put into a `uint8_t`.
actual_subnets : Node → ℕ → ℕ
actual_subnets i subnet_size =
    let diff = (subnet_size - i.prefix.mask_len) % 2 ^ 8 in
    if leb subnet_size i.prefix.mask_len
    then 1
    else if diff == 64
    then 2 ^ 64 - 1
    else 2 ^ diff % 2 ^ 64

unfoldable pub count_subnets : Tree → ℕ → ℕ
unfolding actual_subnets
count_subnets null subnet_size = 0
count_subnets (node i l r) subnet_size =
    let below = (count_subnets l subnet_size + count_subnets r subnet_size) % 2 ^ 64 in
    if not i.actual
    then if leb subnet_size i.prefix.mask_len then 1 else below
    else actual_subnets i subnet_size

unfoldable pub count_24subnets : Patricia → ℕ
unfolding count_subnets
count_24subnets pt = count_subnets pt.head4 24

unfoldable pub count_64subnets : Patricia → ℕ
unfolding count_subnets
count_64subnets pt = count_subnets pt.head6 64
