-- ===== src/Pcep/PcErr.antt =====
-- The SRP and PCEP-ERROR objects and the PCErr message, pkg/packet/pcep/object.go and message.go.
pub mod Total
use Prim.Native.Nat.{bit_and}
use pce_testing.Base.{
  ℕ, zero, suc, ◌+◌, ◌*◌, ◌/◌, ◌%◌, Bool, true, false, not, ◌&&◌, ◌||◌, List, [], ◌∷◌, ◌++◌, Result,
  ok, err, stuck, ◌>>=◌, ◌>>◌, guard, map_err, ltb, leb, ◌==◌, if◌then◌else◌, length, take, drop,
}
use pce_testing.Base.Bytes.{index, slice, read32, u16, put32}
use pce_testing.Pcep.Wire.{append_byte_slices}
use pce_testing.Pcep.Tlv.Types.{Tlv, Tlvs, of_list}
use pce_testing.Pcep.Tlv.Serialize.{len_all, serialize_all}
use pce_testing.Pcep.Tlv.Sequence.{decode_tlvs}
use pce_testing.Pcep.Header.{
  ObjectError, CommonObjectHeader, body_too_short, truncated_object_header, invalid_object_length,
  object_past_message, no_error_object, tlv_error, decode_common_object_header,
  new_common_object_header, serialize_common_object_header, new_common_header,
  serialize_common_header,
}
use pce_testing.Pcep.Report.{SrpObject}

pub record PcepErrorObject : Type 0 where
  pub object_type : ℕ
  pub error_type : ℕ
  pub error_value : ℕ
  pub tlvs : List Tlv

-- `DecodeTLVs` of what follows the fixed part, of which an empty rest is no call.
abbrev pub decode_rest : List ℕ → Result ObjectError (List Tlv)
decode_rest [] = ok []
decode_rest (b ∷ bs) = map_err tlv_error (decode_tlvs (b ∷ bs))

unfoldable pub decode_pcep_error_object : ℕ → List ℕ → Result ObjectError PcepErrorObject
decode_pcep_error_object typ body = do
  guard (not (ltb (length body) 4)) body_too_short
  error_type ← index body 2
  error_value ← index body 3
  tlvs ← decode_rest (drop 4 body)
  ok (record { object_type = typ; error_type = error_type; error_value = error_value; tlvs = tlvs })

unfoldable pub len_pcep_error_object : PcepErrorObject → ℕ
len_pcep_error_object o = u16 (8 + len_all (of_list o.tlvs))

unfoldable pub serialize_pcep_error_object : PcepErrorObject → List ℕ
unfolding append_byte_slices new_common_object_header serialize_common_object_header
    len_pcep_error_object
serialize_pcep_error_object o = append_byte_slices (
    serialize_common_object_header
      (new_common_object_header 0x0d o.object_type (len_pcep_error_object o))
    ∷ (0 ∷ 0 ∷ o.error_type ∷ o.error_value ∷ [])
    ∷ serialize_all (of_list o.tlvs)
    ∷ [])

unfoldable pub decode_srp_object : ℕ → List ℕ → Result ObjectError SrpObject
decode_srp_object typ body = do
  guard (not (ltb (length body) 8)) body_too_short
  flags ← index body 3
  id ← read32 (drop 4 body)
  tlvs ← decode_rest (drop 8 body)
  ok (record { object_type = typ; r_flag = not (bit_and flags 1 == 0); srp_id = id; tlvs = tlvs })

unfoldable pub len_srp_object : SrpObject → ℕ
len_srp_object o = u16 (12 + len_all (of_list o.tlvs))

unfoldable pub serialize_srp_object : SrpObject → List ℕ
unfolding append_byte_slices new_common_object_header serialize_common_object_header put32
    len_srp_object
serialize_srp_object o = append_byte_slices (
    serialize_common_object_header (new_common_object_header 0x21 o.object_type (len_srp_object o))
    ∷ (0 ∷ 0 ∷ 0 ∷ (if o.r_flag then 1 else 0) ∷ [])
    ∷ put32 o.srp_id
    ∷ serialize_all (of_list o.tlvs)
    ∷ [])

pub record PcErrMessage : Type 0 where
  pub errors : List PcepErrorObject
  pub srps : List SrpObject

-- What an object adds to the message: an object of any other class adds nothing.
unfoldable pub add_object :
    CommonObjectHeader → List ℕ → PcErrMessage → Result ObjectError PcErrMessage
unfolding decode_pcep_error_object decode_srp_object
add_object header body m =
    if header.object_class == 0x0d
    then (decode_pcep_error_object header.object_type body >>= λ e.
        ok (record { errors = m.errors ++ (e ∷ []); srps = m.srps }))
    else if header.object_class == 0x21
    then (decode_srp_object header.object_type body >>= λ s.
        ok (record { errors = m.errors; srps = m.srps ++ (s ∷ []) }))
    else ok m

-- One round of the loop: the message, and what follows the object.
unfoldable pub decode_object : List ℕ → PcErrMessage → Result ObjectError (PcErrMessage × List ℕ)
unfolding add_object decode_common_object_header slice
decode_object bytes m = do
  guard (not (ltb (length bytes) 4)) truncated_object_header
  header_bytes ← slice bytes 0 4
  header ← decode_common_object_header header_bytes
  guard (not (ltb header.object_length 4 || not (header.object_length % 4 == 0)))
      invalid_object_length
  guard (leb header.object_length (length bytes)) object_past_message
  body ← slice bytes 4 header.object_length
  m' ← add_object header body m
  ok (m', drop header.object_length bytes)

-- The loop over what is left of the body, with the rounds that it may take.
unfoldable pub decode_objects : ℕ → List ℕ → PcErrMessage → Result ObjectError PcErrMessage
decode_objects fuel [] m = ok m
decode_objects zero (b ∷ bs) m = stuck
decode_objects (suc fuel) (b ∷ bs) m =
    decode_object (b ∷ bs) m >>= λ next. decode_objects fuel next.1 next.0

abbrev has_errors : List PcepErrorObject → Bool
has_errors [] = false
has_errors (e ∷ es) = true

unfoldable pub decode_pcerr_message : List ℕ → Result ObjectError PcErrMessage
unfolding decode_objects
decode_pcerr_message body = do
  m ← decode_objects (length body) body (record { errors = []; srps = [] })
  guard (has_errors m.errors) no_error_object
  ok m

-- SRPIDs, in wire order.
unfoldable pub srp_ids : List SrpObject → List ℕ
srp_ids [] = []
srp_ids (s ∷ ss) = s.srp_id ∷ srp_ids ss
