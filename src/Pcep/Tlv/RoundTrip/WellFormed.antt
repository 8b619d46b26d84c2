-- ===== src/Pcep/Tlv/RoundTrip/WellFormed.antt =====
-- The TLVs whose fields fit the wire: numbers in their widths, addresses of the field's family and
-- without a zone, flags and lengths that the encoding can express.
use pce_testing.Base.{
  ℕ, ◌+◌, ◌*◌, ◌^◌, ◌≤◌, ◌<◌, ◌≡◌, true, false, not, List, [], ◌∷◌, length, ◌==◌, All, all_of,
}
use pce_testing.Base.Bytes.{IsByte, IsU16, IsU32}
use pce_testing.Net.{Addr, invalid, v4, v6, utf8_valid}
use pce_testing.Pcep.Wire.{is_ipv4_bytes}
use pce_testing.Pcep.Tlv.Types.{
  StatefulPceCapability, CandidatePathIdentifier, Tlv, Tlvs, vendor_information,
  stateful_pce_capability, symbolic_path_name, ipv4_lsp_identifiers, ipv6_lsp_identifiers,
  lsp_db_version, sr_pce_capability, srv6_pce_capability, multipath_capability, path_setup_type,
  extended_association_id, extended_association_id_juniper, path_setup_type_capability,
  assoc_type_list, candidate_path_identifier, candidate_path_identifier_juniper,
  candidate_path_preference, candidate_path_preference_juniper, color, unknown, nil, cons,
}
use pce_testing.Pcep.Tlv.Serialize.{serialize_all}

abbrev pub IsV4 : Addr → Type 0
IsV4 (v4 b) = length b ≡ 4
IsV4 _ = ⊥

abbrev pub IsV6 : Addr → Type 0
IsV6 (v6 b z) = (length b ≡ 16) × (z ≡ [])
IsV6 _ = ⊥

-- The flags that have no bit in the code's flag word.
pub record HasDefinedFlags (t : StatefulPceCapability) : Type 0 where
  pub no_p2mp : t.p2mp_capability ≡ false
  pub no_p2mp_lsp_update : t.p2mp_lsp_update_capability ≡ false
  pub no_p2mp_lsp_instantiation : t.p2mp_lsp_instantiation_capability ≡ false
  pub no_lsp_scheduling : t.lsp_scheduling_capability ≡ false
  pub no_pd_lsp : t.pd_lsp_capability ≡ false
  pub no_path_recomputation : t.path_recomputation_capability ≡ false
  pub no_strict_path : t.strict_path_capability ≡ false
  pub no_relax : t.relax ≡ false

-- The type numbers that have a decoder of their own.
abbrev pub known_types : List ℕ
known_types =
    0x07 ∷ 0x10 ∷ 0x11 ∷ 0x12 ∷ 0x13 ∷ 0x17 ∷ 0x1a ∷ 0x1b ∷ 0x3c ∷ 0x1c ∷ 0x1f ∷ 0x22 ∷ 0x23 ∷ 0x39
    ∷ 0x3b ∷ 0x43 ∷ 0xffe3 ∷ 0xffe4 ∷ 0xffe5 ∷ []

-- The longest value that a TLV can carry so that its padded length fits a uint16.
abbrev pub max_value : ℕ
max_value = 65528

-- An originator that the sixteen bytes can tell apart: IPv4, or IPv6 with a bit set in its first
-- twelve bytes.
abbrev pub IsOriginator : Addr → Type 0
IsOriginator (v4 b) = length b ≡ 4
IsOriginator (v6 b z) = (length b ≡ 16) × (z ≡ []) × (is_ipv4_bytes b ≡ false)
IsOriginator invalid = ⊥

abbrev pub IsEndpoint : Addr → Type 0
IsEndpoint (v4 b) = length b ≡ 4
IsEndpoint (v6 b z) = (length b ≡ 16) × (z ≡ [])
IsEndpoint invalid = ⊥

pub record IsCandidate (t : CandidatePathIdentifier) : Type 0 where
  pub origin : IsByte t.protocol_origin
  pub asn : IsU32 t.originator_asn
  pub originator : IsOriginator t.originator_addr
  pub disc : IsU32 t.discriminator

abbrev mutual
  pub IsWellFormed : Tlv → Type 0
  IsWellFormed (vendor_information t) =
      IsU32 t.enterprise_number × (4 + length t.enterprise_specific_information ≤ max_value)
  IsWellFormed (stateful_pce_capability t) = HasDefinedFlags t
  IsWellFormed (symbolic_path_name name) = (utf8_valid name ≡ true) × (length name ≤ max_value)
  IsWellFormed (ipv4_lsp_identifiers t) =
      IsV4 t.ipv4_tunnel_sender_address
      × IsV4 t.ipv4_tunnel_endpoint_address
      × IsU16 t.lsp_id
      × IsU16 t.tunnel_id
      × IsU32 t.extended_tunnel_id
  IsWellFormed (ipv6_lsp_identifiers t) =
      IsV6 t.ipv6_tunnel_sender_address
      × IsV6 t.ipv6_tunnel_endpoint_address
      × IsU16 t.lsp_id
      × IsU16 t.tunnel_id
      × (length t.extended_tunnel_id ≡ 16)
  IsWellFormed (lsp_db_version v) = v < 2 ^ 64
  IsWellFormed (sr_pce_capability t) = IsByte t.maximum_sid_depth
  IsWellFormed (srv6_pce_capability b) = Unit {0}
  IsWellFormed (multipath_capability t) = IsU16 t.max_multipaths
  IsWellFormed (path_setup_type pst) = IsByte pst
  IsWellFormed (extended_association_id t) = IsU32 t.color × IsEndpoint t.endpoint
  IsWellFormed (extended_association_id_juniper t) = IsU32 t.color × IsV4 t.endpoint
  IsWellFormed (path_setup_type_capability psts subs) =
      (length psts ≤ 255) × AllWellFormed subs × (length (serialize_all subs) ≤ 65000)
  IsWellFormed (assoc_type_list types) = All IsU16 types × (2 * length types ≤ max_value)
  IsWellFormed (candidate_path_identifier t) = IsCandidate t
  IsWellFormed (candidate_path_identifier_juniper t) = IsCandidate t
  IsWellFormed (candidate_path_preference p) = IsU32 p
  IsWellFormed (candidate_path_preference_juniper p) = IsU32 p
  IsWellFormed (color c) = IsU32 c
  IsWellFormed (unknown t) =
      IsU16 t.typ
      × (all_of (λ k. not (t.typ == k)) known_types ≡ true)
      × (length t.value ≡ t.len)
      × (t.len ≤ max_value)

  pub AllWellFormed : Tlvs → Type 0
  AllWellFormed nil = Unit {0}
  AllWellFormed (cons t ts) = IsWellFormed t × AllWellFormed ts
