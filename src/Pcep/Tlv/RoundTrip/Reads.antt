-- ===== src/Pcep/Tlv/RoundTrip/Reads.antt =====
-- How a TLV stands on the wire, and that its decoder reads it back from there.
use pce_testing.Base.{ℕ, ◌+◌, ◌≡◌, List, ◌++◌, [], arith, Result, ok, length, replicate}
use pce_testing.Base.Bytes.{IsU16}
use pce_testing.Pcep.Wire.{TlvError}
use pce_testing.Pcep.Tlv.Types.{Tlv}
use pce_testing.Pcep.Tlv.Serialize.{serialize}
use pce_testing.Pcep.Tlv.Sequence.{decode_known}
use pce_testing.Pcep.Tlv.RoundTrip.Frame.{unpadded, skipped}

abbrev pub Sub : Type 0
Sub = List ℕ → Result TlvError (List Tlv)

pub record Reads (sub : Sub) (t : Tlv) : Type 0 where
  pub typ : ℕ
  pub value : List ℕ
  pub pad : ℕ
  pub writes : serialize t ≡ unpadded typ value ++ replicate pad 0
  pub small_typ : IsU16 typ
  pub small : IsU16 (length value)
  pub aligned : 4 + length value + pad ≡ skipped (length value)
  pub reads : decode_known sub (unpadded typ value) typ ≡ ok t

-- A TLV whose value needs no padding.
pub unpadded-Reads :
    (sub : Sub) (t : Tlv) (typ : ℕ) (value : List ℕ) (n : ℕ)
    → serialize t ≡ unpadded typ value ++ []
    → IsU16 typ
    → length value ≡ n
    → IsU16 n
    → 4 + n ≡ skipped n
    → decode_known sub (unpadded typ value) typ ≡ ok t
    → Reads sub t
unpadded-Reads sub t typ value n writes small_typ len small aligned reads = record {
  typ = typ;
  value = value;
  pad = 0;
  writes = writes;
  small_typ = small_typ;
  small = omega arith;
  aligned = rw len (omega arith);
  reads = reads;
}
