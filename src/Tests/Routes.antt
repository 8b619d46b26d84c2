-- ===== src/Tests/Routes.antt =====
-- SRv6 segments with and without a local address, and an IPv4 prefix.
use pce_testing.Base.{ℕ, ◌≡◌, refl, true, false, arith, [], ◌∷◌, none, some, ok, err}
use pce_testing.Net.{Addr, invalid, v4, v6}
use pce_testing.Table.Segment.{SegmentSrv6}
use pce_testing.Pcep.Report.Ero.{Srv6EroSubobject, RsvpIpv4PrefixEroSubobject}
use pce_testing.Pcep.Report.Ero.Prefix.{IsReadBack, decode-serialize_rsvp_ipv4_prefix}
use pce_testing.Pcep.Report.Ero.Decode.{EroError}
use pce_testing.Pcep.Report.Ero.WriteSrv6.{new_srv6_ero_subobject, serialize_srv6_ero}
use pce_testing.Pcep.Report.Ero.LengthsSrv6.{
  IsWrittenSrv6, segment_of, new_srv6_ero_subobject-IsWrittenSrv6,
  new_srv6_ero_subobject_unwritable,
}

abbrev address : ℕ → Addr
address n = v6 (32 ∷ 1 ∷ 13 ∷ 184 ∷ 0 ∷ 0 ∷ 0 ∷ 0 ∷ 0 ∷ 0 ∷ 0 ∷ 0 ∷ 0 ∷ 0 ∷ 0 ∷ n ∷ []) []

abbrev node_segment : SegmentSrv6
node_segment = segment_of (address 1) (address 2) invalid (some (32 ∷ 16 ∷ 16 ∷ 0 ∷ [])) false

new_srv6_ero_subobject-IsWrittenSrv6_example :
    (o : Srv6EroSubobject) × (new_srv6_ero_subobject node_segment ≡ ok o) × IsWrittenSrv6 o
new_srv6_ero_subobject-IsWrittenSrv6_example =
    new_srv6_ero_subobject-IsWrittenSrv6 node_segment
      (record { sid = refl; local_addr = refl; remote_addr = tt; structure = refl })

new_srv6_ero_subobject_unwritable_example :
    (o : Srv6EroSubobject) × (new_srv6_ero_subobject
        (segment_of (address 1) invalid invalid none false)
      ≡ ok o)
    × (serialize_srv6_ero o ≡ err EroError.segment_without_behavior)
new_srv6_ero_subobject_unwritable_example =
    new_srv6_ero_subobject_unwritable (address 1) invalid none false

abbrev prefix_hop : RsvpIpv4PrefixEroSubobject
prefix_hop = record {
  l_flag = true;
  subobject_type = 1;
  length = 8;
  address = v4 (10 ∷ 0 ∷ 0 ∷ 0 ∷ []);
  prefix_len = 24;
}

decode-serialize_rsvp_ipv4_prefix_example : IsReadBack prefix_hop (36 ∷ [])
decode-serialize_rsvp_ipv4_prefix_example =
    decode-serialize_rsvp_ipv4_prefix prefix_hop (36 ∷ []) (record {
      small_type = omega arith;
      fixed_length = refl;
      ipv4 = refl;
      four_bytes = refl;
      small_prefix = omega arith;
    })
