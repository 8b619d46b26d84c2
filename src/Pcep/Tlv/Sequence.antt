-- ===== src/Pcep/Tlv/Sequence.antt =====
-- The TLV that holds TLVs, the choice of a decoder by type, and the loop over a sequence, of
-- pkg/packet/pcep/tlv.go.
use pce_testing.Base.{
  ℕ, zero, suc, ◌+◌, ◌-◌, ◌*◌, ◌/◌, false, not, List, [], ◌∷◌, Result, ok, stuck, ◌>>=◌, ◌>>◌,
  guard, ltb, leb, ◌==◌, if◌then◌else◌, length, take, drop, all_of,
}
use pce_testing.Base.Bytes.{index, slice, read16}
use pce_testing.Pcep.Wire.{
  TlvError, invalid_padding, invalid_value_length, truncated_header, truncated_value,
  truncated_padding, is_zero, padded_length,
}
use pce_testing.Pcep.Tlv.Types.{
  Tlv, vendor_information, stateful_pce_capability, symbolic_path_name, ipv4_lsp_identifiers,
  ipv6_lsp_identifiers, lsp_db_version, sr_pce_capability, srv6_pce_capability,
  multipath_capability, path_setup_type, extended_association_id, extended_association_id_juniper,
  path_setup_type_capability, assoc_type_list, candidate_path_identifier,
  candidate_path_identifier_juniper, candidate_path_preference, candidate_path_preference_juniper,
  color, unknown, of_list,
}
use pce_testing.Pcep.Tlv.Read.{
  decode_assoc_type_list, decode_candidate_path_identifier, decode_candidate_path_preference,
  decode_color, decode_extended_association_id, decode_extended_association_id_juniper,
  decode_ipv4_lsp_identifiers, decode_ipv6_lsp_identifiers, decode_lsp_db_version,
  decode_multipath_capability, decode_path_setup_type, decode_sr_pce_capability,
  decode_srv6_pce_capability, decode_stateful_pce_capability, decode_symbolic_path_name,
  decode_unknown, decode_vendor_information, tlv_value,
}

-- The path setup types, and the TLVs behind their padding, which `sub` reads.
unfoldable pub decode_path_setup_type_capability :
    (List ℕ → Result TlvError (List Tlv)) → List ℕ → Result TlvError Tlv
decode_path_setup_type_capability sub bytes = do
  value ← tlv_value bytes false
  guard (not (ltb (length value) 4)) invalid_value_length
  pst_num ← index value 3
  guard (leb (4 + pst_num) (length value)) invalid_value_length
  guard (leb (4 + padded_length pst_num 4) (length value)) invalid_value_length
  psts ← slice value 4 (4 + pst_num)
  subs ← sub (drop (4 + padded_length pst_num 4) value)
  ok (path_setup_type_capability psts (of_list subs))

-- `tlvs[typ]` and the decoder that it makes, or the decoder of an unknown TLV.
unfoldable pub decode_known :
    (List ℕ → Result TlvError (List Tlv)) → List ℕ → ℕ → Result TlvError Tlv
decode_known sub bytes typ =
    if typ == 0x07
    then (decode_vendor_information bytes >>= λ t. ok (vendor_information t))
    else if typ == 0x10
    then (decode_stateful_pce_capability bytes >>= λ t. ok (stateful_pce_capability t))
    else if typ == 0x11
    then (decode_symbolic_path_name bytes >>= λ t. ok (symbolic_path_name t))
    else if typ == 0x12
    then (decode_ipv4_lsp_identifiers bytes >>= λ t. ok (ipv4_lsp_identifiers t))
    else if typ == 0x13
    then (decode_ipv6_lsp_identifiers bytes >>= λ t. ok (ipv6_lsp_identifiers t))
    else if typ == 0x17
    then (decode_lsp_db_version bytes >>= λ t. ok (lsp_db_version t))
    else if typ == 0x1a
    then (decode_sr_pce_capability bytes >>= λ t. ok (sr_pce_capability t))
    else if typ == 0x1b
    then (decode_srv6_pce_capability bytes >>= λ t. ok (srv6_pce_capability t))
    else if typ == 0x3c
    then (decode_multipath_capability bytes >>= λ t. ok (multipath_capability t))
    else if typ == 0x1c
    then (decode_path_setup_type bytes >>= λ t. ok (path_setup_type t))
    else if typ == 0x1f
    then (decode_extended_association_id bytes >>= λ t. ok (extended_association_id t))
    else if typ == 0x22
    then decode_path_setup_type_capability sub bytes
    else if typ == 0x23
    then (decode_assoc_type_list bytes >>= λ t. ok (assoc_type_list t))
    else if typ == 0x39
    then (decode_candidate_path_identifier bytes >>= λ t. ok (candidate_path_identifier t))
    else if typ == 0x3b
    then (decode_candidate_path_preference bytes >>= λ t. ok (candidate_path_preference t))
    else if typ == 0x43
    then (decode_color bytes >>= λ t. ok (color t))
    else if typ == 0xffe3
    then (decode_extended_association_id_juniper bytes >>= λ t.
        ok (extended_association_id_juniper t))
    else if typ == 0xffe4
    then (decode_candidate_path_identifier bytes >>= λ t. ok (candidate_path_identifier_juniper t))
    else if typ == 0xffe5
    then (decode_candidate_path_preference bytes >>= λ t. ok (candidate_path_preference_juniper t))
    else (decode_unknown bytes >>= λ t. ok (unknown t))

-- One round of `decodeTLVSequence`: the TLV, and what follows its padding.
unfoldable pub decode_next :
    (List ℕ → ℕ → Result TlvError Tlv) → List ℕ → Result TlvError (Tlv × List ℕ)
decode_next dec bytes = do
  guard (not (ltb (length bytes) 4)) truncated_header
  typ ← read16 bytes
  value_len ← read16 (drop 2 bytes)
  let total = 4 + value_len
  guard (not (ltb (length bytes) total)) truncated_value
  tlv ← dec (take total bytes) typ
  let padded = (total + 4 - 1) / 4 * 4
  guard (not (ltb (length bytes) padded)) truncated_padding
  guard (all_of is_zero (drop total (take padded bytes))) invalid_padding
  ok (tlv, drop padded bytes)

-- The loop, with the rounds that it may take.
unfoldable pub decode_tlv_sequence :
    ℕ → (List ℕ → ℕ → Result TlvError Tlv) → List ℕ → Result TlvError (List Tlv)
decode_tlv_sequence fuel dec [] = ok []
decode_tlv_sequence zero dec (b ∷ bs) = stuck
decode_tlv_sequence (suc fuel) dec (b ∷ bs) = decode_next dec (b ∷ bs) >>= λ next.
    decode_tlv_sequence fuel dec next.1 >>= λ rest. ok (next.0 ∷ rest)

-- `decodeTLV`, with the depth of nesting that it may take. A nested sequence is shorter than the TLV
-- that holds it, so its length bounds the depth.
unfoldable pub decode_tlv : ℕ → List ℕ → ℕ → Result TlvError Tlv
decode_tlv zero = decode_known (λ sub. stuck)
decode_tlv (suc depth) =
    decode_known (λ sub. decode_tlv_sequence (length sub) (decode_tlv depth) sub)

unfoldable pub decode_tlvs : List ℕ → Result TlvError (List Tlv)
decode_tlvs bytes = decode_tlv_sequence (length bytes) (decode_tlv (length bytes)) bytes

-- The decoder of vendor-specific sequences keeps every TLV as raw bytes.
unfoldable pub decode_unknown_tlv : List ℕ → ℕ → Result TlvError Tlv
decode_unknown_tlv bytes typ = decode_unknown bytes >>= λ t. ok (unknown t)

unfoldable pub decode_vendor_tlvs : List ℕ → Result TlvError (List Tlv)
decode_vendor_tlvs bytes = decode_tlv_sequence (length bytes) decode_unknown_tlv bytes
