-- ===== src/Pcep/Tlv/Types.antt =====
-- The TLVs of pkg/packet/pcep/tlv.go: the structs that implement TLVInterface, and the type numbers
-- that the code reads or writes. A name on the wire is its bytes.
use pce_testing.Base.{ℕ, Bool, List, [], ◌∷◌}
use pce_testing.Net.{Addr}

pub record VendorInformation : Type 0 where
  pub enterprise_number : ℕ
  pub enterprise_specific_information : List ℕ

pub record StatefulPceCapability : Type 0 where
  pub lsp_update_capability : Bool
  pub include_db_version : Bool
  pub lsp_instantiation_capability : Bool
  pub triggered_resync : Bool
  pub delta_lsp_sync_capability : Bool
  pub triggered_initial_sync : Bool
  pub p2mp_capability : Bool
  pub p2mp_lsp_update_capability : Bool
  pub p2mp_lsp_instantiation_capability : Bool
  pub lsp_scheduling_capability : Bool
  pub pd_lsp_capability : Bool
  pub color_capability : Bool
  pub path_recomputation_capability : Bool
  pub strict_path_capability : Bool
  pub relax : Bool

pub record Ipv4LspIdentifiers : Type 0 where
  pub ipv4_tunnel_sender_address : Addr
  pub ipv4_tunnel_endpoint_address : Addr
  pub lsp_id : ℕ
  pub tunnel_id : ℕ
  pub extended_tunnel_id : ℕ

-- The extended tunnel ID is an array of sixteen bytes.
pub record Ipv6LspIdentifiers : Type 0 where
  pub ipv6_tunnel_sender_address : Addr
  pub ipv6_tunnel_endpoint_address : Addr
  pub lsp_id : ℕ
  pub tunnel_id : ℕ
  pub extended_tunnel_id : List ℕ

pub record SrPceCapability : Type 0 where
  pub has_unlimited_max_sid_depth : Bool
  pub is_nai_supported : Bool
  pub maximum_sid_depth : ℕ

pub record MultipathCapability : Type 0 where
  pub max_multipaths : ℕ
  pub is_weighted_supported : Bool
  pub is_opposite_dir_supported : Bool
  pub is_forward_class_supported : Bool
  pub is_composite_path_supported : Bool

pub record ExtendedAssociationId : Type 0 where
  pub color : ℕ
  pub endpoint : Addr

pub record CandidatePathIdentifier : Type 0 where
  pub protocol_origin : ℕ
  pub originator_asn : ℕ
  pub originator_addr : Addr
  pub discriminator : ℕ

pub record UnknownTlv : Type 0 where
  pub typ : ℕ
  pub len : ℕ
  pub value : List ℕ

-- A TLVInterface value is one of these; a capability TLV may hold further TLVs.
mutual
  pub data Tlv : Type 0 where
    vendor_information : VendorInformation → Tlv
    stateful_pce_capability : StatefulPceCapability → Tlv
    symbolic_path_name : List ℕ → Tlv
    ipv4_lsp_identifiers : Ipv4LspIdentifiers → Tlv
    ipv6_lsp_identifiers : Ipv6LspIdentifiers → Tlv
    lsp_db_version : ℕ → Tlv
    sr_pce_capability : SrPceCapability → Tlv
    srv6_pce_capability : Bool → Tlv
    multipath_capability : MultipathCapability → Tlv
    path_setup_type : ℕ → Tlv
    extended_association_id : ExtendedAssociationId → Tlv
    extended_association_id_juniper : ExtendedAssociationId → Tlv
    path_setup_type_capability : List ℕ → Tlvs → Tlv
    assoc_type_list : List ℕ → Tlv
    candidate_path_identifier : CandidatePathIdentifier → Tlv
    candidate_path_identifier_juniper : CandidatePathIdentifier → Tlv
    candidate_path_preference : ℕ → Tlv
    candidate_path_preference_juniper : ℕ → Tlv
    color : ℕ → Tlv
    unknown : UnknownTlv → Tlv

  pub data Tlvs : Type 0 where
    nil : Tlvs
    cons : Tlv → Tlvs → Tlvs

abbrev pub to_list : Tlvs → List Tlv
to_list nil = []
to_list (cons t ts) = t ∷ to_list ts

abbrev pub of_list : List Tlv → Tlvs
of_list [] = nil
of_list (t ∷ ts) = cons t (of_list ts)

-- Type(), of every TLV.
unfoldable pub tlv_type : Tlv → ℕ
tlv_type (vendor_information t) = 0x07
tlv_type (stateful_pce_capability t) = 0x10
tlv_type (symbolic_path_name t) = 0x11
tlv_type (ipv4_lsp_identifiers t) = 0x12
tlv_type (ipv6_lsp_identifiers t) = 0x13
tlv_type (lsp_db_version t) = 0x17
tlv_type (sr_pce_capability t) = 0x1a
tlv_type (srv6_pce_capability t) = 0x1b
tlv_type (multipath_capability t) = 0x3c
tlv_type (path_setup_type t) = 0x1c
tlv_type (extended_association_id t) = 0x1f
tlv_type (extended_association_id_juniper t) = 0xffe3
tlv_type (path_setup_type_capability t u) = 0x22
tlv_type (assoc_type_list t) = 0x23
tlv_type (candidate_path_identifier t) = 0x39
tlv_type (candidate_path_identifier_juniper t) = 0xffe4
tlv_type (candidate_path_preference t) = 0x3b
tlv_type (candidate_path_preference_juniper t) = 0xffe5
tlv_type (color t) = 0x43
tlv_type (unknown t) = t.typ
