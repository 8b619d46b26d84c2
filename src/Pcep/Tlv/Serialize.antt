-- ===== src/Pcep/Tlv/Serialize.antt =====
-- Len() and Serialize() of every TLV of pkg/packet/pcep/tlv.go.
use pce_testing.Base.{ℕ, ◌+◌, ◌-◌, ◌*◌, ◌%◌, List, [], ◌∷◌, ◌++◌, ◌==◌, if◌then◌else◌, length, take}
use pce_testing.Base.Bytes.{u16}
use pce_testing.Net.{Addr, is4, is6}
use pce_testing.Pcep.Tlv.Types.{
  UnknownTlv, Tlv, Tlvs, vendor_information, stateful_pce_capability, symbolic_path_name,
  ipv4_lsp_identifiers, ipv6_lsp_identifiers, lsp_db_version, sr_pce_capability,
  srv6_pce_capability, multipath_capability, path_setup_type, extended_association_id,
  extended_association_id_juniper, path_setup_type_capability, assoc_type_list,
  candidate_path_identifier, candidate_path_identifier_juniper, candidate_path_preference,
  candidate_path_preference_juniper, color, unknown, nil, cons,
}
use pce_testing.Pcep.Tlv.Write.{
  copy_into, framed, padded_pst_length, padding_of, pst_count, serialize_assoc_type_list,
  serialize_candidate_path_identifier, serialize_candidate_path_preference, serialize_color,
  serialize_extended_association_id, serialize_extended_association_id_juniper,
  serialize_ipv4_lsp_identifiers, serialize_ipv6_lsp_identifiers, serialize_lsp_db_version,
  serialize_multipath_capability, serialize_path_setup_type, serialize_sr_pce_capability,
  serialize_srv6_pce_capability, serialize_stateful_pce_capability, serialize_symbolic_path_name,
  serialize_unknown, serialize_vendor_information, vendor_padded_value_length,
}

-- Len(): the header and the value with its padding.
unfoldable pub len_symbolic_path_name : List ℕ → ℕ
len_symbolic_path_name name = let n = u16 (length name) in u16 (4 + n + padding_of n)

unfoldable pub len_assoc_type_list : List ℕ → ℕ
len_assoc_type_list types =
    let n = u16 (u16 (length types) * 2) in u16 (4 + n + (if n % 4 == 0 then 0 else 2))

unfoldable pub len_association : Addr → ℕ
len_association endpoint = if is4 endpoint then 12 else if is6 endpoint then 24 else 0

unfoldable pub len_unknown : UnknownTlv → ℕ
len_unknown t = u16 (4 + t.len + (if t.len % 4 == 0 then 0 else 4 - t.len % 4))

unfoldable mutual
  unfolding vendor_padded_value_length len_symbolic_path_name len_association padded_pst_length
      len_assoc_type_list len_unknown

  pub len : Tlv → ℕ
  len (vendor_information t) = u16 (4 + vendor_padded_value_length t)
  len (stateful_pce_capability t) = 8
  len (symbolic_path_name name) = len_symbolic_path_name name
  len (ipv4_lsp_identifiers t) = 20
  len (ipv6_lsp_identifiers t) = 56
  len (lsp_db_version t) = 12
  len (sr_pce_capability t) = 8
  len (srv6_pce_capability t) = 8
  len (multipath_capability t) = 8
  len (path_setup_type t) = 8
  len (extended_association_id t) = len_association t.endpoint
  len (extended_association_id_juniper t) = if is4 t.endpoint then 12 else 0
  len (path_setup_type_capability psts subs) = u16 (4 + (4 + padded_pst_length psts + len_all subs))
  len (assoc_type_list types) = len_assoc_type_list types
  len (candidate_path_identifier t) = 32
  len (candidate_path_identifier_juniper t) = 32
  len (candidate_path_preference t) = 8
  len (candidate_path_preference_juniper t) = 8
  len (color t) = 8
  len (unknown t) = len_unknown t

  -- The sum that the callers accumulate in a uint16.
  pub len_all : Tlvs → ℕ
  len_all nil = 0
  len_all (cons t ts) = u16 (len t + len_all ts)

unfoldable mutual
  unfolding serialize_vendor_information serialize_stateful_pce_capability
      serialize_symbolic_path_name serialize_ipv4_lsp_identifiers serialize_ipv6_lsp_identifiers
      serialize_lsp_db_version serialize_sr_pce_capability serialize_srv6_pce_capability
      serialize_multipath_capability serialize_path_setup_type serialize_extended_association_id
      serialize_extended_association_id_juniper serialize_assoc_type_list
      serialize_candidate_path_identifier serialize_candidate_path_preference serialize_color
      serialize_unknown pst_count padded_pst_length copy_into framed len

  pub serialize : Tlv → List ℕ
  serialize (vendor_information t) = serialize_vendor_information t
  serialize (stateful_pce_capability t) = serialize_stateful_pce_capability t
  serialize (symbolic_path_name name) = serialize_symbolic_path_name name
  serialize (ipv4_lsp_identifiers t) = serialize_ipv4_lsp_identifiers t
  serialize (ipv6_lsp_identifiers t) = serialize_ipv6_lsp_identifiers t
  serialize (lsp_db_version t) = serialize_lsp_db_version t
  serialize (sr_pce_capability t) = serialize_sr_pce_capability t
  serialize (srv6_pce_capability t) = serialize_srv6_pce_capability t
  serialize (multipath_capability t) = serialize_multipath_capability t
  serialize (path_setup_type t) = serialize_path_setup_type t
  serialize (extended_association_id t) = serialize_extended_association_id t
  serialize (extended_association_id_juniper t) = serialize_extended_association_id_juniper t
  serialize (path_setup_type_capability psts subs) =
      framed 0x22 (u16 (4 + padded_pst_length psts + len_all subs)) (
        0
        ∷ 0
        ∷ 0
        ∷ pst_count psts
        ∷ (copy_into (padded_pst_length psts) (take (pst_count psts) psts) ++ serialize_all subs))
  serialize (assoc_type_list types) = serialize_assoc_type_list types
  serialize (candidate_path_identifier t) = serialize_candidate_path_identifier t 0x39
  serialize (candidate_path_identifier_juniper t) = serialize_candidate_path_identifier t 0xffe4
  serialize (candidate_path_preference t) = serialize_candidate_path_preference t 0x3b
  serialize (candidate_path_preference_juniper t) = serialize_candidate_path_preference t 0xffe5
  serialize (color t) = serialize_color t
  serialize (unknown t) = serialize_unknown t

  pub serialize_all : Tlvs → List ℕ
  serialize_all nil = []
  serialize_all (cons t ts) = serialize t ++ serialize_all ts
