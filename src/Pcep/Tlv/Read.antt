-- ===== src/Pcep/Tlv/Read.antt =====
-- DecodeFromBytes() of the TLVs of pkg/packet/pcep/tlv.go, and the loop that reads a sequence.
-- A decoder fills a fresh struct, so its result is the decoded TLV.
use pce_testing.Base.{
  ℕ, ◌+◌, ◌%◌, Bool, true, false, not, List, [], ◌∷◌, Result, ok, err, ◌>>=◌, ◌>>◌, guard, ltb,
  ◌==◌, if◌then◌else◌, length, drop,
}
use pce_testing.Base.Bytes.{index, slice, read16, read32, read64, be16}
use pce_testing.Net.{Addr, v4, v6, addr_from_slice, utf8_valid}
use pce_testing.Pcep.Wire.{
  TlvError, invalid_value_length, invalid_utf8, odd_value_length, decode_tlv_length, is_bit_set,
  is_ipv4_bytes,
}
use pce_testing.Pcep.Tlv.Types.{
  VendorInformation, StatefulPceCapability, Ipv4LspIdentifiers, Ipv6LspIdentifiers, SrPceCapability,
  MultipathCapability, ExtendedAssociationId, CandidatePathIdentifier, UnknownTlv,
}

-- `valueLen, err := decodeTLVLength(data, pad)` and `value := data[4 : 4+valueLen]`, with which
-- every decoder starts. The value's length is `valueLen`.
unfoldable pub tlv_value : List ℕ → Bool → Result TlvError (List ℕ)
tlv_value bytes allow_padding = do
  len ← decode_tlv_length bytes allow_padding
  slice bytes 4 (4 + len)

-- `tlv_value`, followed by the test that the value has the one length that the type allows.
unfoldable pub fixed_value : List ℕ → ℕ → Result TlvError (List ℕ)
fixed_value bytes n = do
  value ← tlv_value bytes false
  guard (length value == n) invalid_value_length
  ok value

unfoldable pub decode_vendor_information : List ℕ → Result TlvError VendorInformation
decode_vendor_information bytes = do
  value ← tlv_value bytes true
  guard (not (ltb (length value) 4)) invalid_value_length
  number ← read32 value
  ok (record { enterprise_number = number; enterprise_specific_information = drop 4 value })

unfoldable pub extract_capabilities : ℕ → StatefulPceCapability
unfolding is_bit_set
extract_capabilities flags = record {
  lsp_update_capability = is_bit_set flags 1;
  include_db_version = is_bit_set flags 2;
  lsp_instantiation_capability = is_bit_set flags 4;
  triggered_resync = is_bit_set flags 8;
  delta_lsp_sync_capability = is_bit_set flags 16;
  triggered_initial_sync = is_bit_set flags 32;
  p2mp_capability = false;
  p2mp_lsp_update_capability = false;
  p2mp_lsp_instantiation_capability = false;
  lsp_scheduling_capability = false;
  pd_lsp_capability = false;
  color_capability = is_bit_set flags 2048;
  path_recomputation_capability = false;
  strict_path_capability = false;
  relax = false;
}

unfoldable pub decode_stateful_pce_capability : List ℕ → Result TlvError StatefulPceCapability
decode_stateful_pce_capability bytes = do
  value ← fixed_value bytes 4
  flags ← read32 value
  ok (extract_capabilities flags)

unfoldable pub decode_symbolic_path_name : List ℕ → Result TlvError (List ℕ)
decode_symbolic_path_name bytes = do
  value ← tlv_value bytes true
  guard (utf8_valid value) invalid_utf8
  ok value

unfoldable pub decode_ipv4_lsp_identifiers : List ℕ → Result TlvError Ipv4LspIdentifiers
decode_ipv4_lsp_identifiers bytes = do
  value ← fixed_value bytes 16
  sender ← slice value 0 4
  lsp ← read16 (drop 4 value)
  tunnel ← read16 (drop 6 value)
  extended ← read32 (drop 8 value)
  endpoint ← slice value 12 16
  ok (record {
    ipv4_tunnel_sender_address = addr_from_slice sender;
    ipv4_tunnel_endpoint_address = addr_from_slice endpoint;
    lsp_id = lsp;
    tunnel_id = tunnel;
    extended_tunnel_id = extended;
  })

unfoldable pub decode_ipv6_lsp_identifiers : List ℕ → Result TlvError Ipv6LspIdentifiers
decode_ipv6_lsp_identifiers bytes = do
  value ← fixed_value bytes 52
  sender ← slice value 0 16
  lsp ← read16 (drop 16 value)
  tunnel ← read16 (drop 18 value)
  extended ← slice value 20 36
  endpoint ← slice value 36 52
  ok (record {
    ipv6_tunnel_sender_address = addr_from_slice sender;
    ipv6_tunnel_endpoint_address = addr_from_slice endpoint;
    lsp_id = lsp;
    tunnel_id = tunnel;
    extended_tunnel_id = extended;
  })

unfoldable pub decode_lsp_db_version : List ℕ → Result TlvError ℕ
decode_lsp_db_version bytes = do value ← fixed_value bytes 8; read64 value

unfoldable pub decode_sr_pce_capability : List ℕ → Result TlvError SrPceCapability
unfolding is_bit_set
decode_sr_pce_capability bytes = do
  value ← fixed_value bytes 4
  flags ← index value 0
  depth ← index value 1
  ok (record {
    has_unlimited_max_sid_depth = is_bit_set flags 1;
    is_nai_supported = is_bit_set flags 2;
    maximum_sid_depth = depth;
  })

-- A value longer than four bytes is accepted.
unfoldable pub decode_srv6_pce_capability : List ℕ → Result TlvError Bool
unfolding is_bit_set
decode_srv6_pce_capability bytes = do
  value ← tlv_value bytes false
  guard (not (ltb (length value) 4)) invalid_value_length
  flags ← read16 (drop 2 value)
  ok (is_bit_set flags 2)

unfoldable pub decode_multipath_capability : List ℕ → Result TlvError MultipathCapability
unfolding is_bit_set
decode_multipath_capability bytes = do
  value ← fixed_value bytes 4
  multipaths ← read16 value
  flags ← read16 (drop 2 value)
  ok (record {
    max_multipaths = multipaths;
    is_weighted_supported = is_bit_set flags 1;
    is_opposite_dir_supported = is_bit_set flags 4;
    is_forward_class_supported = is_bit_set flags 8;
    is_composite_path_supported = is_bit_set flags 16;
  })

unfoldable pub decode_path_setup_type : List ℕ → Result TlvError ℕ
decode_path_setup_type bytes = do value ← fixed_value bytes 4; index value 3

-- The switch on the value length: an IPv4 or an IPv6 endpoint.
unfoldable pub endpoint_bytes : List ℕ → Result TlvError (List ℕ)
unfolding slice
endpoint_bytes value =
    if length value == 8
    then slice value 4 8
    else if length value == 20
    then slice value 4 20
    else err invalid_value_length

unfoldable pub decode_extended_association_id : List ℕ → Result TlvError ExtendedAssociationId
decode_extended_association_id bytes = do
  value ← tlv_value bytes false
  guard (not (ltb (length value) 4)) invalid_value_length
  c ← read32 value
  endpoint ← endpoint_bytes value
  ok (record { color = c; endpoint = addr_from_slice endpoint })

-- The Juniper TLV has an IPv4 endpoint only.
unfoldable pub decode_extended_association_id_juniper :
    List ℕ → Result TlvError ExtendedAssociationId
decode_extended_association_id_juniper bytes = do
  value ← fixed_value bytes 8
  decode_extended_association_id bytes

-- Pairs of bytes, of a value of even length.
unfoldable pub read16_all : List ℕ → List ℕ
read16_all (a ∷ b ∷ r) = be16 a b ∷ read16_all r
read16_all _ = []

unfoldable pub decode_assoc_type_list : List ℕ → Result TlvError (List ℕ)
decode_assoc_type_list bytes = do
  value ← tlv_value bytes true
  guard (length value % 2 == 0) odd_value_length
  ok (read16_all value)

unfoldable pub originator_addr_of : List ℕ → Addr
unfolding is_ipv4_bytes
originator_addr_of b = if is_ipv4_bytes b then v4 (drop 12 b) else v6 b []

unfoldable pub decode_candidate_path_identifier : List ℕ → Result TlvError CandidatePathIdentifier
decode_candidate_path_identifier bytes = do
  value ← fixed_value bytes 28
  origin ← index value 0
  asn ← read32 (drop 4 value)
  addr ← slice value 8 24
  disc ← read32 (drop 24 value)
  ok (record {
    protocol_origin = origin;
    originator_asn = asn;
    originator_addr = originator_addr_of addr;
    discriminator = disc;
  })

unfoldable pub decode_candidate_path_preference : List ℕ → Result TlvError ℕ
decode_candidate_path_preference bytes = do value ← fixed_value bytes 4; read32 value

unfoldable pub decode_color : List ℕ → Result TlvError ℕ
decode_color bytes = do value ← fixed_value bytes 4; read32 value

unfoldable pub decode_unknown : List ℕ → Result TlvError UnknownTlv
decode_unknown bytes = do
  value ← tlv_value bytes true
  typ ← read16 bytes
  ok (record { typ = typ; len = length value; value = value })
