-- ===== src/Pcep/Report/Ero.antt =====
-- The explicit route object of pkg/packet/pcep/object.go: its subobjects and the segments that they
-- stand for.
pub mod Decode
pub mod Subobjects
pub mod Progress
pub mod Total
pub mod Write
pub mod Lengths
pub mod Prefix
pub mod WriteSrv6
pub mod LengthsSrv6
use pce_testing.Base.{ℕ, Bool, List, [], ◌∷◌}
use pce_testing.Net.{Addr}
use pce_testing.Table.Segment.{Segment, SegmentSrv6, SegmentSrMpls, srv6, srmpls, absent}

pub record SrEroSubobject : Type 0 where
  pub l_flag : Bool
  pub subobject_type : ℕ
  pub length : ℕ
  pub nai_type : ℕ
  pub f_flag : Bool
  pub s_flag : Bool
  pub c_flag : Bool
  pub m_flag : Bool
  pub segment : SegmentSrMpls

pub record Srv6EroSubobject : Type 0 where
  pub l_flag : Bool
  pub subobject_type : ℕ
  pub length : ℕ
  pub nai_type : ℕ
  pub v_flag : Bool
  pub t_flag : Bool
  pub f_flag : Bool
  pub s_flag : Bool
  pub segment : SegmentSrv6

pub record RsvpIpv4PrefixEroSubobject : Type 0 where
  pub l_flag : Bool
  pub subobject_type : ℕ
  pub length : ℕ
  pub address : Addr
  pub prefix_len : ℕ

pub data EroSubobject : Type 0 where
  sr_ero : SrEroSubobject → EroSubobject
  srv6_ero : Srv6EroSubobject → EroSubobject
  rsvp_ipv4_prefix : RsvpIpv4PrefixEroSubobject → EroSubobject

pub record EroObject : Type 0 where
  pub object_type : ℕ
  pub ero_subobjects : List EroSubobject

unfoldable pub to_segment : EroSubobject → Segment
to_segment (sr_ero o) = srmpls o.segment
to_segment (srv6_ero o) = srv6 o.segment
to_segment (rsvp_ipv4_prefix o) = absent

-- A subobject that stands for no segment is skipped.
abbrev add_segment : Segment → List Segment → List Segment
add_segment absent sl = sl
add_segment seg sl = seg ∷ sl

unfoldable pub to_segments : List EroSubobject → List Segment
unfolding to_segment
to_segments [] = []
to_segments (so ∷ sos) = add_segment (to_segment so) (to_segments sos)

unfoldable pub to_segment_list : EroObject → List Segment
unfolding to_segments
to_segment_list o = to_segments o.ero_subobjects
