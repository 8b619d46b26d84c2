-- ===== src/Pcep/Tlv/Write.antt =====
-- Serialize() and Len() of the TLVs of pkg/packet/pcep/tlv.go. A value whose length does not fit the
-- uint16 that the source computes it in is outside the model (the source faults on some of these);
-- the theorems exclude it by their hypotheses.
use Prim.Native.Nat.{bit_and, bit_or}
use pce_testing.Base.{
  ℕ, ◌+◌, ◌-◌, ◌*◌, ◌%◌, Bool, List, [], ◌∷◌, ◌++◌, ltb, if◌then◌else◌, length, take, replicate,
}
use pce_testing.Base.Bytes.{u16, put16, put32, put64}
use pce_testing.Net.{Addr, invalid, v4, v6, is4, is6, is_valid, as_slice}
use pce_testing.Pcep.Wire.{
  append_byte_slices, uint16_to_byte_slice, uint32_to_byte_slice, set_bit, padded_length,
}
use pce_testing.Pcep.Tlv.Types.{
  VendorInformation, StatefulPceCapability, Ipv4LspIdentifiers, Ipv6LspIdentifiers, SrPceCapability,
  MultipathCapability, ExtendedAssociationId, CandidatePathIdentifier, UnknownTlv,
}

-- `copy` into a zeroed field of `n` bytes.
unfoldable pub copy_into : ℕ → List ℕ → List ℕ
copy_into n bytes = take n bytes ++ replicate (n - length bytes) 0

-- What every serializer ends with: the type, the value length and the value.
unfoldable pub framed : ℕ → ℕ → List ℕ → List ℕ
unfolding append_byte_slices uint16_to_byte_slice
framed typ len value =
    append_byte_slices (uint16_to_byte_slice typ ∷ uint16_to_byte_slice len ∷ value ∷ [])

-- `(TLVAlignment - (n % TLVAlignment)) % TLVAlignment`.
abbrev pub padding_of : ℕ → ℕ
padding_of n = (4 - n % 4) % 4

unfoldable pub vendor_value_length : VendorInformation → ℕ
vendor_value_length t = u16 (4 + u16 (length t.enterprise_specific_information))

unfoldable pub vendor_padded_value_length : VendorInformation → ℕ
unfolding vendor_value_length padded_length
vendor_padded_value_length t = u16 (padded_length (vendor_value_length t) 4)

unfoldable pub serialize_vendor_information : VendorInformation → List ℕ
unfolding vendor_padded_value_length framed copy_into put32
serialize_vendor_information t = framed 0x07 (vendor_value_length t) (
    put32 t.enterprise_number
    ++ copy_into (vendor_padded_value_length t - 4) t.enterprise_specific_information)

unfoldable pub set_flags : StatefulPceCapability → ℕ
unfolding set_bit
set_flags t =
    let f0 = set_bit 0 1 t.lsp_update_capability in
    let f1 = set_bit f0 2 t.include_db_version in
    let f2 = set_bit f1 4 t.lsp_instantiation_capability in
    let f3 = set_bit f2 8 t.triggered_resync in
    let f4 = set_bit f3 16 t.delta_lsp_sync_capability in
    let f5 = set_bit f4 32 t.triggered_initial_sync in set_bit f5 2048 t.color_capability

-- The seven flags that the code defines.
abbrev pub defined_stateful_pce_flags_mask : ℕ
defined_stateful_pce_flags_mask = 1 + 2 + 4 + 8 + 16 + 32 + 2048

unfoldable pub serialize_stateful_pce_capability : StatefulPceCapability → List ℕ
unfolding set_flags framed uint32_to_byte_slice
serialize_stateful_pce_capability t =
    framed 0x10 4 (uint32_to_byte_slice (bit_and (set_flags t) defined_stateful_pce_flags_mask))

unfoldable pub serialize_symbolic_path_name : List ℕ → List ℕ
unfolding framed
serialize_symbolic_path_name name =
    framed 0x11 (u16 (length name)) (name ++ replicate (padding_of (length name)) 0)

unfoldable pub serialize_ipv4_lsp_identifiers : Ipv4LspIdentifiers → List ℕ
unfolding framed copy_into put16 put32
serialize_ipv4_lsp_identifiers t = framed 0x12 16 (
    copy_into 4 (as_slice t.ipv4_tunnel_sender_address)
    ++ (put16 t.lsp_id
        ++ (put16 t.tunnel_id
            ++ (put32 t.extended_tunnel_id
                ++ copy_into 4 (as_slice t.ipv4_tunnel_endpoint_address)))))

unfoldable pub serialize_ipv6_lsp_identifiers : Ipv6LspIdentifiers → List ℕ
unfolding framed copy_into put16
serialize_ipv6_lsp_identifiers t = framed 0x13 52 (
    copy_into 16 (as_slice t.ipv6_tunnel_sender_address)
    ++ (put16 t.lsp_id
        ++ (put16 t.tunnel_id
            ++ (copy_into 16 t.extended_tunnel_id
                ++ copy_into 16 (as_slice t.ipv6_tunnel_endpoint_address)))))

unfoldable pub serialize_lsp_db_version : ℕ → List ℕ
unfolding framed put64
serialize_lsp_db_version version = framed 0x17 8 (put64 version)

unfoldable pub serialize_sr_pce_capability : SrPceCapability → List ℕ
unfolding framed set_bit
serialize_sr_pce_capability t = framed 0x1a 4 (
    set_bit (set_bit 0 1 t.has_unlimited_max_sid_depth) 2 t.is_nai_supported
    ∷ t.maximum_sid_depth
    ∷ 0
    ∷ 0
    ∷ [])

unfoldable pub serialize_srv6_pce_capability : Bool → List ℕ
unfolding framed put16
serialize_srv6_pce_capability is_nai_supported =
    framed 0x1b 4 (0 ∷ 0 ∷ put16 (if is_nai_supported then bit_or 0 2 else 0))

unfoldable pub multipath_flags : MultipathCapability → ℕ
unfolding set_bit
multipath_flags t =
    let w = set_bit 0 1 t.is_weighted_supported in
    let o = set_bit w 4 t.is_opposite_dir_supported in
    let f = set_bit o 8 t.is_forward_class_supported in set_bit f 16 t.is_composite_path_supported

unfoldable pub serialize_multipath_capability : MultipathCapability → List ℕ
unfolding framed put16 multipath_flags
serialize_multipath_capability t =
    framed 0x3c 4 (put16 t.max_multipaths ++ put16 (multipath_flags t))

unfoldable pub serialize_path_setup_type : ℕ → List ℕ
unfolding framed
serialize_path_setup_type pst = framed 0x1c 4 (0 ∷ 0 ∷ 0 ∷ pst ∷ [])

-- `serialize`, shared by the standard and the Juniper TLV; nil for the zero endpoint.
unfoldable pub serialize_association : ExtendedAssociationId → ℕ → List ℕ
unfolding framed copy_into put32
serialize_association t typ =
    if is_valid t.endpoint
    then (let len = if is4 t.endpoint then 8 else if is6 t.endpoint then 20 else 0 in
        framed typ len (put32 t.color ++ copy_into (len - 4) (as_slice t.endpoint)))
    else []

unfoldable pub serialize_extended_association_id : ExtendedAssociationId → List ℕ
unfolding serialize_association
serialize_extended_association_id t = serialize_association t 0x1f

unfoldable pub serialize_extended_association_id_juniper : ExtendedAssociationId → List ℕ
unfolding serialize_association
serialize_extended_association_id_juniper t =
    if is4 t.endpoint then serialize_association t 0xffe3 else []

-- At most 255 path setup types are written.
unfoldable pub pst_count : List ℕ → ℕ
pst_count psts = if ltb 255 (length psts) then 255 else length psts

unfoldable pub padded_pst_length : List ℕ → ℕ
unfolding pst_count padded_length
padded_pst_length psts = u16 (padded_length (pst_count psts) 4)

unfoldable pub put16_all : List ℕ → List ℕ
unfolding put16
put16_all [] = []
put16_all (v ∷ vs) = put16 v ++ put16_all vs

unfoldable pub serialize_assoc_type_list : List ℕ → List ℕ
unfolding framed put16_all
serialize_assoc_type_list types =
    let value_len = u16 (u16 (length types) * 2) in
    framed 0x23 value_len (put16_all types ++ replicate (padding_of value_len) 0)

-- The sixteen bytes of the originator: an IPv4 address stands in the last four.
unfoldable pub originator_bytes : Addr → List ℕ
unfolding copy_into
originator_bytes invalid = replicate 16 0
originator_bytes (v4 b) = replicate 12 0 ++ copy_into 4 b
originator_bytes (v6 b z) = copy_into 16 b

unfoldable pub serialize_candidate_path_identifier : CandidatePathIdentifier → ℕ → List ℕ
unfolding framed put32 originator_bytes
serialize_candidate_path_identifier t typ = framed typ 28 (
    t.protocol_origin
    ∷ 0
    ∷ 0
    ∷ 0
    ∷ (put32 t.originator_asn ++ (originator_bytes t.originator_addr ++ put32 t.discriminator)))

unfoldable pub serialize_candidate_path_preference : ℕ → ℕ → List ℕ
unfolding framed put32
serialize_candidate_path_preference preference typ = framed typ 4 (put32 preference)

unfoldable pub serialize_color : ℕ → List ℕ
unfolding framed put32
serialize_color c = framed 0x43 4 (put32 c)

unfoldable pub serialize_unknown : UnknownTlv → List ℕ
unfolding framed
serialize_unknown t = framed t.typ t.len (t.value ++ replicate (padding_of t.len) 0)
