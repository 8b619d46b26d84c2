-- ===== src/Pcep/Header.antt =====
-- The common headers of messages and objects, pkg/packet/pcep/message.go and object.go.
pub mod RoundTrip
use Prim.Native.Nat.{bit_and, bit_or}
use pce_testing.Base.{
  ℕ, ◌*◌, ◌/◌, Bool, true, false, not, List, [], ◌∷◌, ◌++◌, Result, ok, err, ◌>>=◌, ◌>>◌, guard,
  ltb, ◌==◌, if◌then◌else◌, length, drop,
}
use pce_testing.Base.Bytes.{index, read16, u8}
use pce_testing.Pcep.Wire.{TlvError, uint16_to_byte_slice}

-- What the decoders of messages and objects report; an error of a TLV is wrapped.
pub data ObjectError : Type 0 where
  header_too_short body_too_short truncated_object_header invalid_object_length object_past_message
        no_error_object :
      ObjectError
  tlv_error : TlvError → ObjectError

pub record CommonHeader : Type 0 where
  pub version : ℕ
  pub flag : ℕ
  pub message_type : ℕ
  pub message_length : ℕ

-- Without a test of the length: fewer than four bytes are a fault.
unfoldable pub decode_common_header : List ℕ → Result ObjectError CommonHeader
decode_common_header header = do
  first ← index header 0
  message_type ← index header 1
  message_length ← read16 (drop 2 header)
  ok (record {
    version = first / 32;
    flag = bit_and first 0x1f;
    message_type = message_type;
    message_length = message_length;
  })

unfoldable pub serialize_common_header : CommonHeader → List ℕ
unfolding uint16_to_byte_slice
serialize_common_header h =
    bit_or (u8 (h.version * 32)) h.flag ∷ h.message_type ∷ uint16_to_byte_slice h.message_length

unfoldable pub new_common_header : ℕ → ℕ → CommonHeader
new_common_header message_type message_length = record {
  version = 1;
  flag = 0;
  message_type = message_type;
  message_length = message_length;
}

pub record CommonObjectHeader : Type 0 where
  pub object_class : ℕ
  pub object_type : ℕ
  pub res_flags : ℕ
  pub p_flag : Bool
  pub i_flag : Bool
  pub object_length : ℕ

unfoldable pub decode_common_object_header : List ℕ → Result ObjectError CommonObjectHeader
decode_common_object_header header = do
  guard (not (ltb (length header) 4)) header_too_short
  object_class ← index header 0
  flags ← index header 1
  object_length ← read16 (drop 2 header)
  ok (record {
    object_class = object_class;
    object_type = bit_and flags 0xf0 / 16;
    res_flags = bit_and flags 0x0c / 4;
    p_flag = not (bit_and flags 2 == 0);
    i_flag = not (bit_and flags 1 == 0);
    object_length = object_length;
  })

abbrev pub flag_byte : ℕ → ℕ → Bool → Bool → ℕ
flag_byte typ res p i =
    let base = bit_or (u8 (typ * 16)) (u8 (res * 4)) in
    let with_p = if p then bit_or base 2 else base in if i then bit_or with_p 1 else with_p

unfoldable pub serialize_common_object_header : CommonObjectHeader → List ℕ
unfolding uint16_to_byte_slice
serialize_common_object_header h =
    h.object_class
    ∷ flag_byte h.object_type h.res_flags h.p_flag h.i_flag
    ∷ uint16_to_byte_slice h.object_length

unfoldable pub new_common_object_header : ℕ → ℕ → ℕ → CommonObjectHeader
new_common_object_header object_class object_type message_length = record {
  object_class = object_class;
  object_type = object_type;
  res_flags = 0;
  p_flag = false;
  i_flag = false;
  object_length = message_length;
}
