-- ===== src/Table/Segment.antt =====
-- The segments of pkg/table/sr_policy.go: SR-MPLS labels and SRv6 SIDs, and when two of them are the
-- same hop.
pub mod Equality
use pce_testing.Base.{
  ℕ, Bool, true, false, not, ◌&&◌, ◌||◌, Option, none, some, List, Result, ok, err, ◌==◌,
  if◌then◌else◌,
}
use pce_testing.Net.{Addr, invalid, is_valid, addr_eq}

-- A nil structure is `none`.
pub record SegmentSrv6 : Type 0 where
  pub sid : Addr
  pub local_addr : Addr
  pub remote_addr : Addr
  pub structure : Option (List ℕ)
  pub u_sid : Bool

pub record SegmentSrMpls : Type 0 where
  pub sid : ℕ
  pub ttl : ℕ
  pub tc : ℕ
  pub s : Bool
  pub local_addr : Addr
  pub remote_addr : Addr

-- A value of the interface type: `absent` is the nil interface, and `foreign` a value of any other type
-- that implements it, by the text of its SidString.
pub data Segment : Type 0 where
  srv6 : SegmentSrv6 → Segment
  srmpls : SegmentSrMpls → Segment
  foreign : List ℕ → Segment
  absent : Segment

pub data SegmentFamily : Type 0 where
  unknown_family srv6_family srmpls_family : SegmentFamily

unfoldable pub segment_family : Segment → SegmentFamily
segment_family (srv6 s) = srv6_family
segment_family (srmpls s) = srmpls_family
segment_family (foreign t) = unknown_family
segment_family absent = unknown_family

unfoldable pub new_segment_srv6 : Addr → SegmentSrv6
new_segment_srv6 a = record {
  sid = a;
  local_addr = invalid;
  remote_addr = invalid;
  structure = none;
  u_sid = false;
}

unfoldable pub new_segment_srmpls : ℕ → SegmentSrMpls
new_segment_srmpls label = record {
  sid = label;
  ttl = 0;
  tc = 0;
  s = false;
  local_addr = invalid;
  remote_addr = invalid;
}

unfoldable pub has_mpls_stack_entry_attrs : SegmentSrMpls → Bool
has_mpls_stack_entry_attrs seg = not (seg.tc == 0) || seg.s || not (seg.ttl == 0)

pub data SegmentError : Type 0 where
  local_addr_invalid : SegmentError

-- The endpoint behaviours END, END.X, uN and uA.
unfoldable pub behavior : SegmentSrv6 → Result SegmentError ℕ
behavior seg =
    if not (is_valid seg.local_addr)
    then err local_addr_invalid
    else if seg.u_sid
    then (if is_valid seg.remote_addr then ok 0x39 else ok 0x30)
    else if is_valid seg.remote_addr
    then ok 0x05
    else ok 0x01

unfoldable pub srv6_equal : SegmentSrv6 → SegmentSrv6 → Bool
srv6_equal a b =
    addr_eq a.sid b.sid && addr_eq a.local_addr b.local_addr && addr_eq a.remote_addr b.remote_addr

-- The NAI does not change the hop.
unfoldable pub srmpls_equal : SegmentSrMpls → SegmentSrMpls → Bool
srmpls_equal a b = a.sid == b.sid

unfoldable pub segments_equal : Segment → Segment → Bool
unfolding srv6_equal srmpls_equal
segments_equal (srv6 a) (srv6 b) = srv6_equal a b
segments_equal (srmpls a) (srmpls b) = srmpls_equal a b
segments_equal (srv6 a) _ = false
segments_equal (srmpls a) _ = false
segments_equal (foreign t) _ = false
segments_equal absent _ = false
