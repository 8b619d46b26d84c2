-- ===== src/Table/Ted.antt =====
-- The traffic engineering database, pkg/table/ted.go: its records, and what is read from a node and a
-- link. A text is its bytes. The lists hold no nil pointers. What a prefix and an SRv6 SID point to
-- is left out, since only UpdateTED reads it.
pub mod Update
pub mod Closed
pub mod Kept
pub mod Reads
pub mod Present
use pce_testing.Base.{
  ℕ, ◌+◌, Bool, true, false, ◌||◌, not, List, [], ◌∷◌, ◌++◌, Option, none, some, Result, ok, err,
  ◌>>=◌, or_err, ◌==◌, if◌then◌else◌,
}
use pce_testing.Base.Bytes.{u32}
use pce_testing.Net.{Addr, is4, is6, bytes_eq}
use pce_testing.Net.Parse.{parse_addr}
use pce_testing.Strconv.{itoa, parse_uint32}
use pce_testing.Table.Policy.{
  MetricType, unspecified_metric, igp_metric, te_metric, delay_metric, hopcount_metric,
}
use pce_testing.Table.Segment.{
  Segment, SegmentSrv6, srv6, srmpls, new_segment_srv6, new_segment_srmpls,
}

pub record SidStructure : Type 0 where
  pub local_block : ℕ
  pub local_node : ℕ
  pub local_func : ℕ
  pub local_arg : ℕ

pub record EndpointBehavior : Type 0 where
  pub behavior : ℕ
  pub flags : ℕ
  pub algorithm : ℕ

pub record Metric : Type 0 where
  pub typ : MetricType
  pub value : ℕ

pub record Prefix : Type 0 where
  pub addr : Addr
  pub bits : ℕ

pub record LsPrefix : Type 0 where
  pub prefix : Prefix
  pub sid_index : ℕ
  pub has_sid_index : Bool

pub record LsSrv6Sid : Type 0 where
  pub sids : List (List ℕ)
  pub endpoint_behavior : EndpointBehavior
  pub sid_structure : SidStructure
  pub multi_topo_ids : List ℕ

pub record Srv6EndxSid : Type 0 where
  pub endpoint_behavior : ℕ
  pub sids : List (List ℕ)
  pub srv6_sid_structure : SidStructure

-- The nodes of a link are pointers, numbers in the store of the database.
pub record LsLink : Type 0 where
  pub local_node : ℕ
  pub remote_node : ℕ
  pub local_ip : Addr
  pub remote_ip : Addr
  pub metrics : List Metric
  pub adj_sid : ℕ
  pub srv6_endx_sid : Option Srv6EndxSid

pub record LsNode : Type 0 where
  pub asn : ℕ
  pub router_id : List ℕ
  pub isis_area_id : List ℕ
  pub hostname : List ℕ
  pub srgb_begin : ℕ
  pub srgb_end : ℕ
  pub links : List LsLink
  pub prefixes : List LsPrefix
  pub srv6_sids : List LsSrv6Sid

unfoldable pub new_ls_node : ℕ → List ℕ → LsNode
new_ls_node asn node_id = record {
  asn = asn;
  router_id = node_id;
  isis_area_id = [];
  hostname = [];
  srgb_begin = 0;
  srgb_end = 0;
  links = [];
  prefixes = [];
  srv6_sids = [];
}

pub data TedError : Type 0 where
  invalid_sid unparsed_address no_srv6_sids no_node_sid no_loopback metric_not_defined : TedError

unfoldable pub metric_type_eq : MetricType → MetricType → Bool
metric_type_eq unspecified_metric unspecified_metric = true
metric_type_eq igp_metric igp_metric = true
metric_type_eq te_metric te_metric = true
metric_type_eq delay_metric delay_metric = true
metric_type_eq hopcount_metric hopcount_metric = true
metric_type_eq _ _ = false

-- `Metric` of a link.
unfoldable pub metric_of : List Metric → MetricType → Result TedError ℕ
unfolding metric_type_eq
metric_of [] t = err metric_not_defined
metric_of (m ∷ ms) t =
    let rest = metric_of ms t in if metric_type_eq m.typ t then ok m.value else rest

-- NewSegment of pkg/table/sr_policy.go.
unfoldable pub new_segment : List ℕ → Result TedError Segment
unfolding parse_addr parse_uint32 new_segment_srv6 new_segment_srmpls
new_segment sid =
    let by_number =
      or_err (parse_uint32 sid) invalid_sid >>= λ i. ok (srmpls (new_segment_srmpls i)) in
    elim (parse_addr sid) [
      | none ↦ by_number
      | some a ↦ if is6 a then ok (srv6 (new_segment_srv6 a)) else by_number
    ]

-- The segment with the node information of an SRv6 SID, whose texts are given; the rest of the loop
-- follows if it has none.
unfoldable pub with_sid_info :
    Addr → LsSrv6Sid → List (List ℕ) → Result TedError SegmentSrv6 → Result TedError SegmentSrv6
unfolding parse_addr
with_sid_info sid s [] rest = rest
with_sid_info sid s (first ∷ more) rest = or_err (parse_addr first) unparsed_address >>= λ a.
    ok (record {
      sid = sid;
      local_addr = a;
      remote_addr = Addr.invalid;
      structure = some (
          s.sid_structure.local_block ∷ s.sid_structure.local_node ∷ s.sid_structure.local_func
          ∷ s.sid_structure.local_arg ∷ []);
      u_sid = s.endpoint_behavior.behavior == 0x30 || s.endpoint_behavior.behavior == 0x39;
    })

-- NewSegmentSRv6WithNodeInfo: the first SID of the node's first SRv6 SID that has one.
unfoldable pub srv6_with_node_info : Addr → List LsSrv6Sid → Result TedError SegmentSrv6
unfolding with_sid_info
srv6_with_node_info sid [] = err no_srv6_sids
srv6_with_node_info sid (s ∷ ss) = with_sid_info sid s s.sids (srv6_with_node_info sid ss)

unfoldable pub new_segment_srv6_with_node_info : Addr → LsNode → Result TedError SegmentSrv6
unfolding srv6_with_node_info
new_segment_srv6_with_node_info sid n = srv6_with_node_info sid n.srv6_sids

-- The first prefix with a Prefix-SID.
unfoldable pub prefix_sid : List LsPrefix → Option ℕ
prefix_sid [] = none
prefix_sid (p ∷ ps) = let rest = prefix_sid ps in if p.has_sid_index then some p.sid_index else rest

-- The first text of the node's first SRv6 SID that has one.
unfoldable pub first_sid : List LsSrv6Sid → Option (List ℕ)
first_sid [] = none
first_sid (s ∷ ss) = let rest = first_sid ss in elim s.sids [ [] ↦ rest | t ∷ ts ↦ some t ]

-- A Prefix-SID comes before an SRv6 SID.
unfoldable pub segment_from : LsNode → Option ℕ → Option (List ℕ) → Result TedError Segment
unfolding new_segment new_segment_srv6_with_node_info
segment_from n (some i) t = new_segment (itoa (u32 (n.srgb_begin + i)))
segment_from n none none = err no_node_sid
segment_from n none (some t) = or_err (parse_addr t) unparsed_address >>= λ a.
    new_segment_srv6_with_node_info a n >>= λ seg. ok (srv6 seg)

unfoldable pub node_segment : LsNode → Result TedError Segment
unfolding prefix_sid first_sid segment_from
node_segment n = segment_from n (prefix_sid n.prefixes) (first_sid n.srv6_sids)

unfoldable pub loopback_of : List LsPrefix → Result TedError Addr
loopback_of [] = err no_loopback
loopback_of (p ∷ ps) =
    let rest = loopback_of ps in
    if is4 p.prefix.addr
    then (if p.prefix.bits == 32 then ok p.prefix.addr else rest)
    else if is6 p.prefix.addr
    then (if p.prefix.bits == 128 then ok p.prefix.addr else rest)
    else rest

unfoldable pub loopback_addr : LsNode → Result TedError Addr
unfolding loopback_of
loopback_addr n = loopback_of n.prefixes

-- The map of nodes, in no order that the code relies on, and what its pointers point to.
pub record Ted : Type 0 where
  pub store : ℕ → LsNode
  pub allocated : ℕ
  pub nodes : List (List ℕ × ℕ)

unfoldable pub find_node : List (List ℕ × ℕ) → List ℕ → Option ℕ
unfolding bytes_eq
find_node [] id = none
find_node ((k, p) ∷ rest) id =
    let later = find_node rest id in if bytes_eq k id then some p else later
