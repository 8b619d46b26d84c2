-- ===== src/Pcep/Tlv/RoundTrip/Vendors.antt =====
-- The vendor TLV of pkg/packet/pcep/tlv.go is read back from what its serializer writes.
use pce_testing.Base.{
  ℕ, ◌+◌, ◌-◌, ◌%◌, ◌≤◌, ◌≡◌, refl, ap, ◌∙◌, true, false, List, ◌++◌, arith, ok, ltb, ◌==◌,
  if◌then◌else◌, length, replicate,
}
use pce_testing.Base.Bytes.{put32, put32_read, IsU32, u16}
use pce_testing.Pcep.Wire.{TlvError, padded_length}
use pce_testing.Pcep.Tlv.Types.{VendorInformation, vendor_information}
use pce_testing.Pcep.Tlv.Read.{decode_vendor_information}
use pce_testing.Pcep.Tlv.Write.{
  framed, padding_of, vendor_value_length, vendor_padded_value_length, serialize_vendor_information,
}
use pce_testing.Pcep.Tlv.Serialize.{serialize}
use pce_testing.Pcep.Tlv.Sequence.{decode_known}
use pce_testing.Pcep.Tlv.RoundTrip.WellFormed.{max_value}
use pce_testing.Pcep.Tlv.RoundTrip.Frame.{unpadded, tlv_value_put}
use pce_testing.Pcep.Tlv.RoundTrip.Reads.{Sub, Reads}
use pce_testing.Pcep.Tlv.RoundTrip.Values.{padded-Reads}
use pce_testing.Pcep.Tlv.RoundTrip.Fields.{copy_into_padded}

-- A value that starts with a number of four bytes passes the test of its length.
pub long_enough : (v : ℕ) (xs : List ℕ) → ltb (length (put32 v ++ xs)) 4 ≡ false
unfolding put32
long_enough v xs = ground arith

pub decode_vendor_put :
    (t : VendorInformation)
    → IsU32 t.enterprise_number
    → 4 + length t.enterprise_specific_information ≤ max_value
    → decode_vendor_information
        (unpadded 0x07 (put32 t.enterprise_number ++ t.enterprise_specific_information))
      ≡ ok t
unfolding decode_vendor_information
decode_vendor_put t hn small =
    rw
      (tlv_value_put 0x07 (put32 t.enterprise_number ++ t.enterprise_specific_information) true
        (unfold put32 in omega arith))
      (rw (long_enough t.enterprise_number t.enterprise_specific_information) (
        rw (put32_read {E = TlvError} t.enterprise_number t.enterprise_specific_information hn)
          (unfold put32 in refl)))

pub vendor_writes :
    (t : VendorInformation)
    → 4 + length t.enterprise_specific_information ≤ max_value
    → serialize_vendor_information t
      ≡ framed 0x07 (4 + length t.enterprise_specific_information) (
          put32 t.enterprise_number
          ++ (t.enterprise_specific_information
              ++ replicate (padding_of (4 + length t.enterprise_specific_information)) 0))
unfolding serialize_vendor_information vendor_value_length vendor_padded_value_length padded_length
vendor_writes t small =
    let info = t.enterprise_specific_information in
    let n = length info in
    let vlen : u16 (4 + u16 n) ≡ 4 + n = omega arith in
    let body = put32 t.enterprise_number in
    rw vlen (
      rw
        (copy_into_padded (u16 (if (4 + n) % 4 == 0 then 4 + n else 4 + n + (4 - (4 + n) % 4)) - 4)
          info (ground arith))
        (ap (λ k. framed 0x07 (4 + n) (body ++ (info ++ replicate k 0))) (ground arith)))

module _ (sub : Sub) where
  pub vendor_information-Reads :
      (t : VendorInformation)
      → IsU32 t.enterprise_number
      → 4 + length t.enterprise_specific_information ≤ max_value
      → Reads sub (vendor_information t)
  vendor_information-Reads t hn small =
      let value = put32 t.enterprise_number ++ t.enterprise_specific_information in
      let e : 4 + length t.enterprise_specific_information ≡ length value =
        unfold put32 in omega arith in
      padded-Reads sub (vendor_information t) 0x07
        (put32 t.enterprise_number ++ t.enterprise_specific_information)
        (unfold serialize put32 in
          vendor_writes t small ∙ ap (λ n. framed 0x07 n (value ++ replicate (padding_of n) 0)) e)
        (omega arith) (unfold put32 in omega arith)
        (unfold decode_known in rw (decode_vendor_put t hn small))
