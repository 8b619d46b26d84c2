-- ===== src/Pcep/Wire.antt =====
-- pkg/packet/pcep/pcep_util.go and tlv_common.go: byte slices, flag bits, the length and the padding
-- of a TLV.
pub mod Padding
pub mod Frame
use Prim.Native.Nat.{bit_and, bit_or}
use pce_testing.Base.{
  ℕ, ◌+◌, ◌-◌, ◌*◌, ◌/◌, ◌%◌, Bool, true, false, not, ◌&&◌, List, [], ◌∷◌, ◌++◌, Result, ok, err,
  ◌>>=◌, ◌>>◌, guard, ltb, ◌==◌, if◌then◌else◌, length, drop, take, all_of,
}
use pce_testing.Base.Bytes.{slice, read16, put16, put32}

-- What the decoders of the TLVs report.
pub data TlvError : Type 0 where
  too_short invalid_length invalid_padding invalid_value_length invalid_utf8 odd_value_length :
      TlvError
  truncated_header truncated_value truncated_padding insufficient_type : TlvError

-- AppendByteSlices copies the slices one after the other into a slice of their total length.
unfoldable pub append_byte_slices : List (List ℕ) → List ℕ
append_byte_slices [] = []
append_byte_slices (s ∷ slices) = s ++ append_byte_slices slices

unfoldable pub uint16_to_byte_slice : ℕ → List ℕ
unfolding put16
uint16_to_byte_slice v = put16 v

unfoldable pub uint32_to_byte_slice : ℕ → List ℕ
unfolding put32
uint32_to_byte_slice v = put32 v

unfoldable pub is_bit_set : ℕ → ℕ → Bool
is_bit_set value mask = not (bit_and value mask == 0)

unfoldable pub set_bit : ℕ → ℕ → Bool → ℕ
set_bit value bit condition = if condition then bit_or value bit else value

abbrev pub tlv_value_offset : ℕ
tlv_value_offset = 4

abbrev pub tlv_length_offset : ℕ
tlv_length_offset = 2

abbrev pub tlv_alignment : ℕ
tlv_alignment = 4

unfoldable pub padded_length : ℕ → ℕ → ℕ
padded_length n align = if n % align == 0 then n else n + (align - n % align)

abbrev pub is_zero : ℕ → Bool
is_zero b = b == 0

-- The checks that follow once the length field has been read.
check_tlv_length : List ℕ → Bool → ℕ → Result TlvError ℕ
unfolding padded_length
check_tlv_length bytes allow_padding len =
    let expected = tlv_value_offset + len in
    if ltb (length bytes) expected
    then err invalid_length
    else if length bytes == expected
    then ok len
    else if not allow_padding
    then err invalid_length
    else if not (length bytes == padded_length expected tlv_alignment)
    then err invalid_length
    else if all_of is_zero (drop expected bytes)
    then ok len
    else err invalid_padding

unfoldable pub decode_tlv_length : List ℕ → Bool → Result TlvError ℕ
unfolding check_tlv_length slice read16
decode_tlv_length bytes allow_padding = do
  guard (not (ltb (length bytes) tlv_value_offset)) too_short
  field ← slice bytes tlv_length_offset tlv_value_offset
  len ← read16 field
  check_tlv_length bytes allow_padding len

abbrev pub ipv4_in_ipv6_offset : ℕ
ipv4_in_ipv6_offset = 12

-- Sixteen bytes whose first twelve are zero.
unfoldable pub is_ipv4_bytes : List ℕ → Bool
is_ipv4_bytes b = if length b == 16 then all_of is_zero (take ipv4_in_ipv6_offset b) else false
