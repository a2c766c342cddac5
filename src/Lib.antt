-- ===== src/Lib.antt =====
-- A model of the core of libbgpstream, a C library that reads and sorts BGP data: its prefix tree and
-- its counter of addresses, AS paths and communities, the filters and what they let through, the
-- readers of resources, the queue that puts the resources in the order of time, and the loop that
-- polls for more of them.
--
-- Parts, and the files that model them:
--   - Addr.antt: lib/utils/bgpstream_utils_addr.c and .h. An address (`Addr`, bgpstream_ip_addr_t) is
--     its version and its bytes in memory. Addr/Mask.antt and Addr/Digits.antt say what the masks do
--     to single bits, Addr/Versions.antt compares versions.
--   - Pfx.antt: lib/utils/bgpstream_utils_pfx.c and .h. A prefix (`Pfx`, bgpstream_pfx_t) uses the
--     addresses; its `key` is the list of the bits that it fixes. Key.antt has the theory of those
--     lists, Pfx/Keys.antt joins the two, Pfx/Contains.antt is about bgpstream_pfx_contains.
--   - Patricia.antt and below: lib/utils/bgpstream_utils_patricia.c. Patricia/Tree.antt has the state
--     (bgpstream_patricia_tree) and its nodes; Search, Insert, Remove, Walk, Results and Counts have
--     the operations, each function under its name without the prefix bgpstream_patricia_ or bpt_.
--     Insert/Reference.antt and Remove/Reference.antt are an insertion and a removal from the head
--     down, and Insert/Refines.antt and Remove/Laws.antt say that the code comes to the same trees.
--     Insert/Set.antt and Remove/Laws.antt state the operations by the set of prefixes (`member`).
--     Counted.antt, ActualNodes.antt, Counters.antt and Miscount.antt are about the counters of active
--     nodes, Leads.antt and Overlap.antt about the overlap information of a node, Merge.antt about
--     the merge of two trees, Entries.antt and Specifics.antt about the result sets.
--   - IpCounter.antt and below: lib/utils/bgpstream_utils_ip_counter.c. The two queues of intervals
--     are lists; Query.antt has the counts and overlaps. Union.antt, Counting.antt, Overlap.antt,
--     Range.antt and Laws.antt state them by sets of addresses, Wide.antt takes the IPv6 queue back to
--     the IPv4 one.
--   - ResourceMgr.antt and below: lib/bgpstream_resource_mgr.c. The queue is a list of groups
--     (`ResGroup`, res_group), each with its lists of elements (`ResListElem`, res_list_elem).
--     Order.antt and Contents.antt are about insert_resource_elem, Queue.antt has the other
--     operations, Upkeep.antt and RibPeriod.antt are about those.
--     Pop.antt has the reading of a record from the first resource (pop_record), of which
--     Pop/Kept.antt and Pop/Reads.antt say what it keeps.
--   - Reader.antt and below: lib/bgpstream_reader.c. What the format gives is a list of statuses and
--     records. Delivery.antt is about get_next_record, Opening.antt about the retries of the opener.
--   - DiMgr.antt and below: the loop of bgpstream_di_mgr_get_next_record, lib/bgpstream_di_mgr.c, round
--     by round; Waiting.antt is about its waits.
--   - AsPath.antt and below: lib/utils/bgpstream_utils_as_path.c. A path (`AsPath`, bgpstream_as_path)
--     is its bytes; Segments.antt puts segments into bytes, Walk.antt and Fields.antt are about the
--     iterator, the origin, filling and equality, Append.antt about appending. Equal.antt has equality
--     and the hashes, Text.antt the texts.
--     Merge.antt is handle_as_paths of lib/formats/bgpstream_parsebgp_common.c, which makes one path of
--     AS_PATH and AS4_PATH as libparsebgp gives them.
--   - Community.antt and below: lib/utils/bgpstream_utils_community.c; Set.antt has the sets.
--   - Filter.antt and below: the filter manager (`FilterMgr`, bgpstream_filter_mgr_t). Add.antt has
--     lib/bgpstream_filter.c and the reading of prefixes, Regex.antt the conversion of Cisco's
--     expressions in it, Parser.antt lib/bgpstream_filter_parser.c, which adds filters by Add.antt.
--     Check.antt has elem_check_filters of lib/bgpstream_record.c, which uses the Patricia tree, the
--     communities and the AS paths; Check/Wanted.antt and Check/Passes.antt say what an elem that
--     passes has to be. Check/Prefixes.antt says which prefixes a prefix of the filter asks for, and
--     Check/Asks.antt, Check/Judged.antt and Check/Matches.antt that the walk of the tree finds them.
--   - ElemGenerator.antt and below: lib/bgpstream_elem_generator.c, the array of a record's elems.
--   - Libc.antt and below: strtoul, strcmp and the printing of numbers, of the C library.
--   - Prelude.antt and below: names of the libraries, Boolean tests, lists and bit operations.
--   - Tests.antt and below: runs at fixed inputs, and instances of the theorems.
--
-- A node pointer with its `parent` links is a location: the node, and the frames between it and the
-- head. Recursion down a tree or along a list is structural. The loop over the bytes of two addresses
-- (`differ_loop`) has as many rounds as there are bits to check; a round covers eight of them, so they
-- are enough.
--
-- Taken for granted: allocation succeeds, so that the error returns for a lack of memory do not occur;
-- an assertion of the source is not a guard of the model, but for AS paths, where it is a fault.
-- `user` pointers are numbers, and the calls of their destructor are recorded. The macro kroundup32 of
-- khash.h is a parameter of the result sets; the theorem on them asks that it never rounds down. A
-- search for more specific prefixes has a depth of 129, one more than a key has bits, which
-- get_more_specifics_lem shows to be enough. The url of a resource is a number that tells it apart; of
-- a reader, an element of the queue has only the time of the next record. Words in the bytes of an AS
-- path are those of a little endian host. None stands for a fault, as a read or a write outside the
-- memory of a path. A walk over a path has a round more than there are bytes, and each segment takes
-- two, so that the walk ends, which populate_from_data-walk shows; the calls that read_all-opened needs are in its
-- statement. Sets of numbers over khash are membership tests. inet_pton, regcomp and regexec are
-- parameters, on which no theorem asks anything. The community that filter_add does not initialise is
-- an argument. The parser of filter strings has a round for each character and one more, which
-- parse_filter_string-ends shows to be enough.
--
-- Not modelled: printing and hashing of addresses and prefixes, texts that are cut to a buffer, the
-- opening of a batch and the loop of get_record, threads, the sets over khash, the rest of the formats
-- (on libparsebgp), transports, data interfaces and tools.
pub mod Prelude
pub mod Addr
pub mod Libc
pub mod AsPath
pub mod Community
pub mod Filter
pub mod Key
pub mod Pfx
pub mod Patricia
pub mod IpCounter
pub mod ResourceMgr
pub mod ElemGenerator
pub mod DiMgr
pub mod Reader
pub mod Tests
