-- ===== src/Filter.antt =====
-- Elems and the filters on them: lib/bgpstream_filter.h and .c, lib/bgpstream_filter_parser.c, and the
-- checks of lib/bgpstream_record.c. A set of numbers is its membership test, a set of texts a list,
-- and the map of communities the list of its entries.
pub mod Check
pub mod Add
pub mod Regex
pub mod Parser
use libbgpstream.Prelude.{ℕ, Bool, Option, none, some, List, []}
use libbgpstream.Addr.{AddrVersion, unknown}
use libbgpstream.Pfx.{Pfx}
use libbgpstream.Patricia.Tree.{Patricia}
use libbgpstream.Community.{Community}
use libbgpstream.Community.Set.{CommunitySet}
use libbgpstream.AsPath.{AsPath}

pub data ElemType : Type 0 where
  unknown_elem rib announcement withdrawal peerstate end_of_rib : ElemType

-- The fields of an elem that the filters read.
pub record Elem : Type 0 where
  pub elem_type : ElemType
  pub peer_asn : ℕ
  pub prefix : Pfx
  pub as_path : AsPath
  pub communities : CommunitySet

-- A compiled expression is the text that it was compiled from.
pub record AspathExpr : Type 0 where
  pub re : List ℕ
  pub negate : Bool

pub record IntervalFilter : Type 0 where
  pub begin_time : ℕ
  pub end_time : ℕ

pub record FilterMgr : Type 0 where
  pub projects : Option (List (List ℕ))
  pub collectors : Option (List (List ℕ))
  pub routers : Option (List (List ℕ))
  pub bgp_types : Option (List (List ℕ))
  pub res_types : Option (List (List ℕ))
  pub aspath_exprs : List AspathExpr
  pub peer_asns : Option (ℕ → Bool)
  pub not_peer_asns : Option (ℕ → Bool)
  pub origin_asns : Option (ℕ → Bool)
  pub prefixes : Option Patricia
  pub communities : Option (List (Community × ℕ))
  pub time_interval : Option IntervalFilter
  pub ipversion : AddrVersion
  pub elemtype_mask : ℕ

abbrev pub create : FilterMgr
create = record {
  projects = none;
  collectors = none;
  routers = none;
  bgp_types = none;
  res_types = none;
  aspath_exprs = [];
  peer_asns = none;
  not_peer_asns = none;
  origin_asns = none;
  prefixes = none;
  communities = none;
  time_interval = none;
  ipversion = unknown;
  elemtype_mask = 0;
}
