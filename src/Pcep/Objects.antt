-- ===== src/Pcep/Objects.antt =====
-- The decoders of the objects of a state report and of the OPEN and CLOSE objects,
-- pkg/packet/pcep/object.go. A decoder that is called on an object of the report keeps what it does
-- not read. Only some of them check the length of the body: the others fault on a short one, or read
-- what lies beyond it, since the body is cut from a message that may go on.
pub mod Write
pub mod Policy
use Prim.Native.Nat.{bit_and}
use pce_testing.Base.{
  ℕ, ◌/◌, Bool, true, false, not, List, [], ◌∷◌, ◌++◌, Result, ok, err, ◌>>=◌, ◌>>◌, guard, map_err,
  ltb, ◌==◌, if◌then◌else◌, length, drop,
}
use pce_testing.Base.Bytes.{index, slice, slice_within, read16, read32}
use pce_testing.Net.{addr_from_slice}
use pce_testing.Pcep.Wire.{TlvError}
use pce_testing.Pcep.Tlv.Types.{
  Tlv, vendor_information, stateful_pce_capability, symbolic_path_name, ipv4_lsp_identifiers,
  ipv6_lsp_identifiers, lsp_db_version, sr_pce_capability, srv6_pce_capability,
  multipath_capability, path_setup_type_capability, assoc_type_list, unknown,
}
use pce_testing.Pcep.Tlv.Sequence.{decode_tlvs, decode_vendor_tlvs}
use pce_testing.Pcep.Header.{ObjectError}
use pce_testing.Pcep.Report.{
  LspObject, MetricObject, AssociationObject, VendorInformationObject, BandwidthObject, LspaObject,
}
use pce_testing.Pcep.Report.Ero.Decode.{EroError}

pub data ReportError : Type 0 where
  object_error : ObjectError → ReportError
  ero_error : EroError → ReportError
  object_tlv_error : TlvError → ReportError
  invalid_association_source vendor_information_too_short unsupported_object_class
        unsupported_object_type :
      ReportError

-- A bit of a byte.
abbrev flag : ℕ → ℕ → Bool
flag byte mask = not (bit_and byte mask == 0)

-- binary.BigEndian.Uint32 and Uint16 of a part of the body, with what lies beyond it.
abbrev uint32_at : List ℕ → List ℕ → ℕ → ℕ → Result ReportError ℕ
uint32_at body beyond a b = slice_within body beyond a b >>= λ part. read32 part

abbrev uint16_at : List ℕ → List ℕ → ℕ → ℕ → Result ReportError ℕ
uint16_at body beyond a b = slice_within body beyond a b >>= λ part. read16 part

-- The TLVs that follow the fixed part, or those that were there if nothing follows.
abbrev tlvs_after : ℕ → List ℕ → List Tlv → Result ReportError (List Tlv)
tlvs_after n body old =
    let rest = map_err object_tlv_error (decode_tlvs (drop n body)) in
    if ltb n (length body) then rest else ok old

unfoldable pub decode_bandwidth_object : ℕ → List ℕ → Result ReportError BandwidthObject
unfolding read32
decode_bandwidth_object typ body =
    read32 body >>= λ n. ok (record { object_type = typ; bandwidth = n })

unfoldable pub decode_metric_object : ℕ → List ℕ → List ℕ → Result ReportError MetricObject
unfolding index slice_within read32
decode_metric_object typ body beyond = do
  flags ← index body 2
  metric_type ← index body 3
  value ← uint32_at body beyond 4 8
  ok (record {
    object_type = typ;
    c_flag = flag flags 2;
    b_flag = flag flags 1;
    metric_type = metric_type;
    metric_value = value;
  })

unfoldable pub decode_lspa_object : ℕ → List ℕ → List ℕ → Result ReportError LspaObject
unfolding index slice_within read32
decode_lspa_object typ body beyond = do
  exclude_any ← uint32_at body beyond 0 4
  include_any ← uint32_at body beyond 4 8
  include_all ← uint32_at body beyond 8 12
  setup_priority ← index body 12
  holding_priority ← index body 13
  flags ← index body 14
  ok (record {
    object_type = typ;
    exclude_any = exclude_any;
    include_any = include_any;
    include_all = include_all;
    setup_priority = setup_priority;
    holding_priority = holding_priority;
    l_flag = flag flags 1;
  })

-- What a TLV of the LSP object sets.
unfoldable pub lsp_tlv : LspObject → Tlv → LspObject
lsp_tlv o (symbolic_path_name n) = record o { name = n }
lsp_tlv o (ipv4_lsp_identifiers t) = record o {
  src_addr = t.ipv4_tunnel_sender_address;
  dst_addr = t.ipv4_tunnel_endpoint_address;
  lsp_id = t.lsp_id;
}
lsp_tlv o (ipv6_lsp_identifiers t) = record o {
  src_addr = t.ipv6_tunnel_sender_address;
  dst_addr = t.ipv6_tunnel_endpoint_address;
  lsp_id = t.lsp_id;
}
lsp_tlv o _ = o

unfoldable pub lsp_tlvs : LspObject → List Tlv → LspObject
unfolding lsp_tlv
lsp_tlvs o [] = o
lsp_tlvs o (t ∷ ts) = lsp_tlvs (lsp_tlv o t) ts

abbrev lsp_fixed : LspObject → ℕ → ℕ → ℕ → LspObject
lsp_fixed o typ word flags = record o {
  object_type = typ;
  plsp_id = word / 4096;
  c_flag = flag flags 0x80;
  o_flag = bit_and flags 0x70 / 16;
  a_flag = flag flags 0x08;
  r_flag = flag flags 0x04;
  s_flag = flag flags 0x02;
  d_flag = flag flags 0x01;
}

unfoldable pub decode_lsp_object : LspObject → ℕ → List ℕ → List ℕ → Result ReportError LspObject
unfolding index slice_within read32 lsp_tlvs
decode_lsp_object o typ body beyond = do
  word ← uint32_at body beyond 0 4
  flags ← index body 3
  tlvs ← tlvs_after 4 body o.tlvs
  ok (
      if ltb 4 (length body)
      then lsp_tlvs (record (lsp_fixed o typ word flags) { tlvs = tlvs }) tlvs
      else lsp_fixed o typ word flags)

-- The source address and the TLVs of an association object whose address ends there.
abbrev association_rest :
    AssociationObject → List ℕ → List ℕ → ℕ → Result ReportError AssociationObject
association_rest o body beyond end = do
  address ← slice_within body beyond 8 end
  tlvs ← tlvs_after end body o.tlvs
  ok (record o { assoc_src = addr_from_slice address; tlvs = tlvs })

-- An object of type 1 has an IPv4 address, and of type 2 an IPv6 address.
abbrev association_address :
    AssociationObject → List ℕ → List ℕ → Result ReportError AssociationObject
association_address o body beyond =
    if o.object_type == 1
    then association_rest o body beyond 12
    else if o.object_type == 2
    then association_rest o body beyond 24
    else err invalid_association_source

unfoldable pub decode_association_object :
    AssociationObject → ℕ → List ℕ → List ℕ → Result ReportError AssociationObject
unfolding index slice_within read16 addr_from_slice
decode_association_object o typ body beyond = do
  flags ← index body 3
  assoc_type ← uint16_at body beyond 4 6
  assoc_id ← uint16_at body beyond 6 8
  association_address
      (record o {
        object_type = typ;
        r_flag = flag flags 1;
        assoc_type = assoc_type;
        assoc_id = assoc_id;
      })
      body beyond

unfoldable pub decode_vendor_information_object :
    VendorInformationObject → ℕ → List ℕ → Result ReportError VendorInformationObject
unfolding slice read32
decode_vendor_information_object o typ body = do
  guard (not (ltb (length body) 4)) vendor_information_too_short
  number ← slice body 0 4 >>= λ part. read32 part
  tlvs ←
      (if ltb 4 (length body)
        then map_err object_tlv_error (decode_vendor_tlvs (drop 4 body))
        else ok o.tlvs)
  ok (record { object_type = typ; enterprise_number = number; tlvs = tlvs })

pub record OpenObject : Type 0 where
  pub object_type : ℕ
  pub version : ℕ
  pub flag_bits : ℕ
  pub keepalive : ℕ
  pub deadtime : ℕ
  pub sid : ℕ
  pub caps : List Tlv

-- The TLVs that implement CapabilityInterface.
unfoldable pub is_capability : Tlv → Bool
is_capability (vendor_information t) = true
is_capability (stateful_pce_capability t) = true
is_capability (lsp_db_version t) = true
is_capability (sr_pce_capability t) = true
is_capability (srv6_pce_capability t) = true
is_capability (multipath_capability t) = true
is_capability (path_setup_type_capability t u) = true
is_capability (assoc_type_list t) = true
is_capability (unknown t) = true
is_capability _ = false

unfoldable pub capabilities : List Tlv → List Tlv
unfolding is_capability
capabilities [] = []
capabilities (t ∷ ts) = let rest = capabilities ts in if is_capability t then t ∷ rest else rest

unfoldable pub decode_open_object : ℕ → List ℕ → Result ReportError OpenObject
unfolding index capabilities
decode_open_object typ body = do
  first ← index body 0
  keepalive ← index body 1
  deadtime ← index body 2
  sid ← index body 3
  tlvs ← map_err object_tlv_error (decode_tlvs (drop 4 body))
  ok (record {
    object_type = typ;
    version = first / 32;
    flag_bits = bit_and first 0x1f;
    keepalive = keepalive;
    deadtime = deadtime;
    sid = sid;
    caps = capabilities tlvs;
  })

pub record CloseObject : Type 0 where
  pub object_type : ℕ
  pub reason : ℕ

unfoldable pub decode_close_object : ℕ → List ℕ → Result ReportError CloseObject
unfolding index
decode_close_object typ body =
    index body 3 >>= λ reason. ok (record { object_type = typ; reason = reason })
