-- ===== src/Patricia.antt =====
-- The Patricia tree of prefixes: lib/utils/bgpstream_utils_patricia.c.
pub mod Entries
pub mod ActualNodes
pub mod Leads
pub mod Tree
pub mod Search
pub mod Insert
pub mod Remove
pub mod Walk
pub mod Overlap
pub mod Merge
pub mod Specifics
pub mod Results
pub mod Counts
pub mod Counted
pub mod Counters
pub mod Miscount
