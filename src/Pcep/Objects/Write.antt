-- ===== src/Pcep/Objects/Write.antt =====
-- The making and writing of the objects that the PCE sends, pkg/packet/pcep/object.go.
use Prim.Native.Nat.{bit_and, bit_or}
use pce_testing.Base.{
  ℕ, ◌+◌, ◌*◌, Bool, true, false, List, [], ◌∷◌, ◌++◌, Option, none, some, Result, ok, err, ◌>>=◌,
  map_err, if◌then◌else◌,
}
use pce_testing.Base.Bytes.{u8, u16, u32, put32}
use pce_testing.Net.{invalid}
use pce_testing.Table.Segment.{Segment, srv6, srmpls, foreign, absent}
use pce_testing.Pcep.Wire.{append_byte_slices}
use pce_testing.Pcep.Tlv.Types.{Tlv, of_list, symbolic_path_name, path_setup_type}
use pce_testing.Pcep.Tlv.Serialize.{len_all, serialize_all}
use pce_testing.Pcep.Header.{new_common_object_header, serialize_common_object_header}
use pce_testing.Pcep.Report.{SrpObject, LspObject, LspaObject}
use pce_testing.Pcep.Report.Ero.{EroObject, EroSubobject, sr_ero, srv6_ero, rsvp_ipv4_prefix}
use pce_testing.Pcep.Report.Ero.Decode.{EroError, len_sr_ero, len_srv6_ero}
use pce_testing.Pcep.Report.Ero.Write.{new_sr_ero_subobject, serialize_sr_ero}
use pce_testing.Pcep.Report.Ero.WriteSrv6.{new_srv6_ero_subobject, serialize_srv6_ero}
use pce_testing.Pcep.Report.Ero.Prefix.{serialize_rsvp_ipv4_prefix}
use pce_testing.Pcep.Objects.{OpenObject, CloseObject}

pub data RequestError : Type 0 where
  ero_failed : EroError → RequestError
  invalid_segment_type invalid_endpoints invalid_association_address juniper_needs_ipv4
        unknown_vendor undefined_pcc_type :
      RequestError

-- The header of an object of the class, type and length.
unfoldable pub object_header : ℕ → ℕ → ℕ → List ℕ
unfolding serialize_common_object_header new_common_object_header
object_header class typ len =
    serialize_common_object_header (new_common_object_header class typ len)

abbrev pub with_flag : Bool → ℕ → ℕ → ℕ
with_flag b mask byte = if b then bit_or byte mask else byte

unfoldable pub len_open_object : OpenObject → ℕ
len_open_object o = u16 (8 + len_all (of_list o.caps))

unfoldable pub serialize_open_object : OpenObject → List ℕ
unfolding append_byte_slices object_header len_open_object
serialize_open_object o = append_byte_slices (
    object_header 0x01 o.object_type (len_open_object o)
    ∷ (bit_or (u8 (o.version * 32)) (bit_and o.flag_bits 0x1f)
        ∷ o.keepalive
        ∷ o.deadtime
        ∷ o.sid
        ∷ [])
    ∷ serialize_all (of_list o.caps)
    ∷ [])

unfoldable pub new_open_object : ℕ → ℕ → List Tlv → OpenObject
new_open_object session_id keepalive caps = record {
  object_type = 1;
  version = 1;
  flag_bits = 0;
  keepalive = keepalive;
  deadtime = u8 (keepalive * 4);
  sid = session_id;
  caps = caps;
}

unfoldable pub serialize_close_object : CloseObject → List ℕ
unfolding append_byte_slices object_header
serialize_close_object o =
    append_byte_slices (object_header 0x0f o.object_type 8 ∷ (0 ∷ 0 ∷ 0 ∷ o.reason ∷ []) ∷ [])

unfoldable pub serialize_lspa_object : LspaObject → List ℕ
unfolding append_byte_slices object_header put32
serialize_lspa_object o = append_byte_slices (
    object_header 0x09 o.object_type 20
    ∷ (put32 o.exclude_any
        ++ put32 o.include_any
        ++ put32 o.include_all
        ++ (o.setup_priority ∷ o.holding_priority ∷ with_flag o.l_flag 1 0 ∷ 0 ∷ []))
    ∷ [])

-- The path setup type follows the first segment.
unfoldable pub new_srp_object : List Segment → ℕ → Bool → Result RequestError SrpObject
new_srp_object [] srp_id is_remove =
    ok (record { object_type = 1; r_flag = is_remove; srp_id = srp_id; tlvs = [] })
new_srp_object (srmpls s ∷ segs) srp_id is_remove =
    ok (record {
      object_type = 1;
      r_flag = is_remove;
      srp_id = srp_id;
      tlvs = path_setup_type 1 ∷ [];
    })
new_srp_object (srv6 s ∷ segs) srp_id is_remove =
    ok (record {
      object_type = 1;
      r_flag = is_remove;
      srp_id = srp_id;
      tlvs = path_setup_type 3 ∷ [];
    })
new_srp_object (foreign t ∷ segs) srp_id is_remove = err invalid_segment_type
new_srp_object (absent ∷ segs) srp_id is_remove = err invalid_segment_type

unfoldable pub len_lsp_object : LspObject → ℕ
len_lsp_object o = u16 (8 + len_all (of_list o.tlvs))

-- The last of the four bytes takes the flags.
abbrev with_lsp_flags : LspObject → List ℕ → List ℕ
with_lsp_flags o (a ∷ b ∷ c ∷ d ∷ []) =
    a
    ∷ b
    ∷ c
    ∷ with_flag o.d_flag 0x01 (
        with_flag o.s_flag 0x02
          (with_flag o.r_flag 0x04 (with_flag o.a_flag 0x08 (with_flag o.c_flag 0x80 d))))
    ∷ []
with_lsp_flags o bytes = bytes

unfoldable pub serialize_lsp_object : LspObject → List ℕ
unfolding append_byte_slices object_header put32 len_lsp_object
serialize_lsp_object o = append_byte_slices (
    object_header 0x20 o.object_type (len_lsp_object o)
    ∷ with_lsp_flags o (put32 (u32 (u32 (o.plsp_id * 4096) + u8 (o.o_flag * 16))))
    ∷ serialize_all (of_list o.tlvs)
    ∷ [])

abbrev pub color_tlvs : Option ℕ → List Tlv
color_tlvs none = []
color_tlvs (some c) = Tlv.color c ∷ []

unfoldable pub new_lsp_object : List ℕ → Option ℕ → ℕ → LspObject
new_lsp_object name c plsp_id = record {
  object_type = 1;
  name = name;
  src_addr = invalid;
  dst_addr = invalid;
  plsp_id = plsp_id;
  lsp_id = 0;
  c_flag = true;
  o_flag = 1;
  a_flag = true;
  r_flag = false;
  s_flag = false;
  d_flag = true;
  tlvs = symbolic_path_name name ∷ color_tlvs c;
}

unfoldable pub len_subobject : EroSubobject → Result EroError ℕ
unfolding len_sr_ero len_srv6_ero
len_subobject (sr_ero o) = len_sr_ero o
len_subobject (srv6_ero o) = len_srv6_ero o
len_subobject (rsvp_ipv4_prefix o) = ok 8

unfoldable pub serialize_subobject : EroSubobject → Result EroError (List ℕ)
unfolding serialize_sr_ero serialize_srv6_ero serialize_rsvp_ipv4_prefix
serialize_subobject (sr_ero o) = serialize_sr_ero o
serialize_subobject (srv6_ero o) = serialize_srv6_ero o
serialize_subobject (rsvp_ipv4_prefix o) = serialize_rsvp_ipv4_prefix o

unfoldable pub len_subobjects : ℕ → List EroSubobject → Result EroError ℕ
unfolding len_subobject
len_subobjects total [] = ok total
len_subobjects total (o ∷ os) = len_subobject o >>= λ n. len_subobjects (u16 (total + n)) os

unfoldable pub len_ero_object : EroObject → Result EroError ℕ
unfolding len_subobjects
len_ero_object o = len_subobjects 0 o.ero_subobjects >>= λ n. ok (u16 (4 + n))

unfoldable pub serialize_subobjects : List EroSubobject → Result EroError (List ℕ)
unfolding serialize_subobject
serialize_subobjects [] = ok []
serialize_subobjects (o ∷ os) =
    serialize_subobject o >>= λ first. serialize_subobjects os >>= λ rest. ok (first ++ rest)

unfoldable pub serialize_ero_object : EroObject → Result EroError (List ℕ)
unfolding len_ero_object serialize_subobjects object_header
serialize_ero_object o = len_ero_object o >>= λ n.
    serialize_subobjects o.ero_subobjects >>= λ bytes.
    ok (object_header 0x07 o.object_type n ++ bytes)

unfoldable pub new_ero_subobject : Segment → Result RequestError EroSubobject
unfolding new_sr_ero_subobject new_srv6_ero_subobject
new_ero_subobject (srmpls s) = map_err ero_failed (new_sr_ero_subobject s) >>= λ o. ok (sr_ero o)
new_ero_subobject (srv6 s) = map_err ero_failed (new_srv6_ero_subobject s) >>= λ o. ok (srv6_ero o)
new_ero_subobject (foreign t) = err invalid_segment_type
new_ero_subobject absent = err invalid_segment_type

unfoldable pub ero_subobjects_of : List Segment → Result RequestError (List EroSubobject)
unfolding new_ero_subobject
ero_subobjects_of [] = ok []
ero_subobjects_of (s ∷ ss) = new_ero_subobject s >>= λ o. ero_subobjects_of ss >>= λ os. ok (o ∷ os)

unfoldable pub new_ero_object : List Segment → Result RequestError EroObject
unfolding ero_subobjects_of
new_ero_object segs =
    ero_subobjects_of segs >>= λ os. ok (record { object_type = 1; ero_subobjects = os })
