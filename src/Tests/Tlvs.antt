-- ===== src/Tests/Tlvs.antt =====
-- TLVs and messages as bytes.
use pce_testing.Base.{ℕ, ◌≡◌, refl, true, false, List, [], ◌∷◌, ◌++◌, arith, ok, Ends, length}
use pce_testing.Net.{v4, utf8_valid}
use pce_testing.Pcep.Tlv.Types.{
  Tlvs, color, symbolic_path_name, path_setup_type_capability, sr_pce_capability,
  ipv4_lsp_identifiers, unknown, nil, cons, to_list,
}
use pce_testing.Pcep.Tlv.Serialize.{len, serialize, serialize_all}
use pce_testing.Pcep.Tlv.Sequence.{decode_tlvs}
use pce_testing.Pcep.Tlv.SequenceEnds.{decode_tlvs-Ends}
use pce_testing.Pcep.Tlv.Lengths.{len-length}
use pce_testing.Pcep.Tlv.RoundTrip.WellFormed.{AllWellFormed}
use pce_testing.Pcep.Tlv.RoundTrip.All.{decode_tlvs-serialize_all}
use pce_testing.Pcep.Header.{
  CommonObjectHeader, decode_common_object_header, serialize_common_object_header,
}
use pce_testing.Pcep.Header.RoundTrip.{decode-serialize_common_object_header}
use pce_testing.Pcep.PcErr.{decode_pcerr_message}
use pce_testing.Pcep.PcErr.Total.{decode_pcerr_message-Ends}
use pce_testing.Pcep.Report.Ero.Decode.{decode_ero_object}
use pce_testing.Table.Segment.{SegmentSrMpls}
use pce_testing.Pcep.Report.Ero.Write.{new_sr_ero_subobject, sr_ero_of}
use pce_testing.Pcep.Report.Ero.Lengths.{IsWritten, new_sr_ero_subobject-IsWritten}
use pce_testing.Pcep.Report.Ero.Total.{decode_ero_object-Ends}

-- A capability that holds another one, a name with padding and LSP identifiers.
abbrev nested_tlvs : Tlvs
nested_tlvs =
    cons
      (path_setup_type_capability (0 ∷ 1 ∷ 3 ∷ []) (
        cons
          (sr_pce_capability (record {
            has_unlimited_max_sid_depth = true;
            is_nai_supported = false;
            maximum_sid_depth = 10;
          }))
          nil))
      (cons (symbolic_path_name (112 ∷ 49 ∷ [])) (
        cons
          (ipv4_lsp_identifiers (record {
            ipv4_tunnel_sender_address = v4 (192 ∷ 0 ∷ 2 ∷ 1 ∷ []);
            ipv4_tunnel_endpoint_address = v4 (192 ∷ 0 ∷ 2 ∷ 2 ∷ []);
            lsp_id = 1;
            tunnel_id = 2;
            extended_tunnel_id = 3;
          }))
          (cons (unknown (record { typ = 500; len = 3; value = 1 ∷ 2 ∷ 3 ∷ [] })) nil)))

nested_tlvs-AllWellFormed : AllWellFormed nested_tlvs
unfolding utf8_valid serialize_all
nested_tlvs-AllWellFormed = (
  (omega arith, (omega arith, tt), omega arith),
  (
    (refl, omega arith),
    (
      (refl, refl, omega arith, omega arith, omega arith),
      ((omega arith, refl, refl, omega arith), tt),
    ),
  ),
)

decode_tlvs-serialize_all_example :
    decode_tlvs (serialize_all nested_tlvs) ≡ ok (to_list nested_tlvs)
decode_tlvs-serialize_all_example = decode_tlvs-serialize_all nested_tlvs nested_tlvs-AllWellFormed

-- A TLV whose length runs past the end.
abbrev truncated : List ℕ
truncated = 0 ∷ 67 ∷ 0 ∷ 9 ∷ 0 ∷ 0 ∷ 0 ∷ 7 ∷ []

decode_tlvs-Ends_example : Ends (decode_tlvs truncated)
decode_tlvs-Ends_example = decode_tlvs-Ends truncated

len-length_example : len (color 100) ≡ length (serialize (color 100))
len-length_example = len-length (color 100) (omega arith)

abbrev srp_header : CommonObjectHeader
srp_header = record {
  object_class = 33;
  object_type = 1;
  res_flags = 0;
  p_flag = true;
  i_flag = false;
  object_length = 12;
}

decode-serialize_common_object_header_example :
    decode_common_object_header (serialize_common_object_header srp_header ++ (0 ∷ []))
    ≡ ok srp_header
decode-serialize_common_object_header_example =
    decode-serialize_common_object_header srp_header (0 ∷ [])
      (record { small_type = omega arith; small_flags = omega arith; small_length = omega arith })

-- An object of length 0.
decode_pcerr_message-Ends_example : Ends (decode_pcerr_message (13 ∷ 16 ∷ 0 ∷ 0 ∷ []))
decode_pcerr_message-Ends_example = decode_pcerr_message-Ends (13 ∷ 16 ∷ 0 ∷ 0 ∷ [])

-- An SR-ERO subobject that says it has an IPv4 node, which is missing.
decode_ero_object-Ends_example : Ends (decode_ero_object 1 (36 ∷ 8 ∷ 16 ∷ 0 ∷ 0 ∷ 0 ∷ 0 ∷ 0 ∷ []))
decode_ero_object-Ends_example = decode_ero_object-Ends 1 (36 ∷ 8 ∷ 16 ∷ 0 ∷ 0 ∷ 0 ∷ 0 ∷ 0 ∷ [])

-- An IPv4 adjacency.
abbrev adjacency : SegmentSrMpls
adjacency = record {
  sid = 16001;
  ttl = 0;
  tc = 0;
  s = false;
  local_addr = v4 (10 ∷ 0 ∷ 0 ∷ 1 ∷ []);
  remote_addr = v4 (10 ∷ 0 ∷ 0 ∷ 2 ∷ []);
}

adjacency_accepted : new_sr_ero_subobject adjacency ≡ ok (sr_ero_of adjacency 3 16)
unfolding new_sr_ero_subobject
adjacency_accepted = refl

new_sr_ero_subobject-IsWritten_example : IsWritten (sr_ero_of adjacency 3 16)
new_sr_ero_subobject-IsWritten_example =
    new_sr_ero_subobject-IsWritten adjacency (sr_ero_of adjacency 3 16) refl refl adjacency_accepted
