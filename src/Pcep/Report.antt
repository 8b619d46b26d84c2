-- ===== src/Pcep/Report.antt =====
-- The objects of a state report, pkg/packet/pcep/object.go and message.go, and what the server reads
-- of them.
pub mod Ero
use pce_testing.Base.{
  ℕ, Bool, true, false, ◌&&◌, ◌||◌, not, List, [], ◌∷◌, Option, none, some, ltb, leb, ◌==◌,
  if◌then◌else◌, length, Result, ok,
}
use pce_testing.Base.Bytes.{be32}
use pce_testing.Net.{Addr, invalid}
use pce_testing.Pcep.Tlv.Types.{
  Tlv, vendor_information, stateful_pce_capability, symbolic_path_name, ipv4_lsp_identifiers,
  ipv6_lsp_identifiers, lsp_db_version, sr_pce_capability, srv6_pce_capability,
  multipath_capability, path_setup_type, extended_association_id, extended_association_id_juniper,
  path_setup_type_capability, assoc_type_list, candidate_path_identifier,
  candidate_path_identifier_juniper, candidate_path_preference, candidate_path_preference_juniper,
  color, unknown,
}
use pce_testing.Pcep.Report.Ero.{EroObject}

-- The kinds of PCC, which read and write associations in their own ways; `undefined_pcc` is any other
-- number.
pub data PccType : Type 0 where
  cisco_legacy juniper_legacy rfc_compliant undefined_pcc : PccType

pub record SrpObject : Type 0 where
  pub object_type : ℕ
  pub r_flag : Bool
  pub srp_id : ℕ
  pub tlvs : List Tlv

pub record LspObject : Type 0 where
  pub object_type : ℕ
  pub name : List ℕ
  pub src_addr : Addr
  pub dst_addr : Addr
  pub plsp_id : ℕ
  pub lsp_id : ℕ
  pub c_flag : Bool
  pub o_flag : ℕ
  pub a_flag : Bool
  pub r_flag : Bool
  pub s_flag : Bool
  pub d_flag : Bool
  pub tlvs : List Tlv

pub record MetricObject : Type 0 where
  pub object_type : ℕ
  pub c_flag : Bool
  pub b_flag : Bool
  pub metric_type : ℕ
  pub metric_value : ℕ

pub record AssociationObject : Type 0 where
  pub object_type : ℕ
  pub r_flag : Bool
  pub assoc_type : ℕ
  pub assoc_id : ℕ
  pub assoc_src : Addr
  pub tlvs : List Tlv

pub record VendorInformationObject : Type 0 where
  pub object_type : ℕ
  pub enterprise_number : ℕ
  pub tlvs : List Tlv

pub record BandwidthObject : Type 0 where
  pub object_type : ℕ
  pub bandwidth : ℕ

pub record LspaObject : Type 0 where
  pub object_type : ℕ
  pub exclude_any : ℕ
  pub include_any : ℕ
  pub include_all : ℕ
  pub setup_priority : ℕ
  pub holding_priority : ℕ
  pub l_flag : Bool

-- The session makes reports of its own without an explicit route.
pub record StateReport : Type 0 where
  pub srp_object : SrpObject
  pub lsp_object : LspObject
  pub ero_object : Option EroObject
  pub lspa_object : LspaObject
  pub metric_objects : List MetricObject
  pub bandwidth_objects : List BandwidthObject
  pub association_object : AssociationObject
  pub vendor_information_object : VendorInformationObject

-- The color of the first color TLV.
unfoldable pub lsp_color : List Tlv → ℕ
lsp_color [] = 0
lsp_color (color c ∷ ts) = c
lsp_color (_ ∷ ts) = lsp_color ts

-- The first four bytes of a raw value, when it has them.
abbrev leading : List ℕ → Option ℕ
leading (a ∷ b ∷ c ∷ d ∷ r) = some (be32 a b c d)
leading _ = none

-- A raw TLV of the given type, whose value is long enough.
unfoldable pub raw_value : Tlv → ℕ → Option ℕ
raw_value (unknown t) typ = if t.typ == typ then leading t.value else none
raw_value _ typ = none

abbrev color_of : Tlv → Option ℕ
color_of (extended_association_id_juniper t) = some t.color
color_of (extended_association_id t) = some t.color
color_of t = raw_value t 0xffe3

abbrev preference_of : Tlv → Option ℕ
preference_of (candidate_path_preference_juniper p) = some p
preference_of (candidate_path_preference p) = some p
preference_of t = raw_value t 0xffe5

abbrev endpoint_of : Tlv → Option Addr
endpoint_of (extended_association_id_juniper t) = some t.endpoint
endpoint_of (extended_association_id t) = some t.endpoint
endpoint_of _ = none

-- The value of the first TLV that carries one, or the zero value.
unfoldable pub first_of {ℓ} : {A : Type ℓ} → (Tlv → Option A) → A → List Tlv → A
first_of f zero_value [] = zero_value
first_of f zero_value (t ∷ ts) = elim (f t) [ none ↦ first_of f zero_value ts | some a ↦ a ]

unfoldable pub association_color : AssociationObject → ℕ
unfolding raw_value first_of
association_color o = first_of color_of 0 o.tlvs

unfoldable pub association_preference : AssociationObject → ℕ
unfolding raw_value first_of
association_preference o = first_of preference_of 0 o.tlvs

unfoldable pub association_endpoint : AssociationObject → Addr
unfolding first_of
association_endpoint o = first_of endpoint_of invalid o.tlvs

abbrev short_or_leading : List ℕ → ℕ
short_or_leading v = elim (leading v) [ none ↦ 0 | some n ↦ n ]

-- The first raw TLV of the type decides: 0 when its value is too short.
unfoldable pub sub_tlv_uint32 : List Tlv → ℕ → ℕ
sub_tlv_uint32 [] typ = 0
sub_tlv_uint32 (unknown t ∷ ts) typ =
    let rest = sub_tlv_uint32 ts typ in if t.typ == typ then short_or_leading t.value else rest
sub_tlv_uint32 (_ ∷ ts) typ = sub_tlv_uint32 ts typ

unfoldable pub vendor_color : VendorInformationObject → ℕ
unfolding sub_tlv_uint32
vendor_color o = sub_tlv_uint32 o.tlvs 1

unfoldable pub vendor_preference : VendorInformationObject → ℕ
unfolding sub_tlv_uint32
vendor_preference o = sub_tlv_uint32 o.tlvs 3
