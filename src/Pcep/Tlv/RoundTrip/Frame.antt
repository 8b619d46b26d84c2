-- ===== src/Pcep/Tlv/RoundTrip/Frame.antt =====
-- A TLV that was written with its header and padding is read back by one round of the loop, and what
-- follows it is left.
use mathlib.Core.List.{append_assoc}
use pce_testing.Base.{
  ℕ, zero, suc, ◌+◌, ◌-◌, ◌*◌, ◌/◌, ◌≤◌, ◌≡◌, refl, sym, ap, ◌∙◌, Bool, true, List, ◌++◌, arith,
  Result, ok, le→ltb, ==_refl, length, take, drop, replicate, all_of, length-append,
  length-replicate, take-append, drop-append, take_all,
}
use pce_testing.Base.Bytes.{slice_in_range, read16, put16, IsU16}
use pce_testing.Pcep.Wire.{TlvError, is_zero}
use pce_testing.Pcep.Wire.Frame.{decode_tlv_length_put}
use pce_testing.Pcep.Tlv.Types.{Tlv}
use pce_testing.Pcep.Tlv.Read.{tlv_value, fixed_value}
use pce_testing.Pcep.Tlv.Sequence.{decode_next}

-- The bytes that a decoder is handed.
abbrev pub unpadded : ℕ → List ℕ → List ℕ
unpadded typ value = put16 typ ++ (put16 (length value) ++ value)

length-unpadded : (typ : ℕ) (value : List ℕ) → length (unpadded typ value) ≡ 4 + length value
unfolding put16
length-unpadded typ value = omega arith

pub tlv_value_put :
    (typ : ℕ) (value : List ℕ) (pad : Bool)
    → IsU16 (length value)
    → tlv_value (unpadded typ value) pad ≡ ok value
unfolding tlv_value
tlv_value_put typ value pad small =
    rw (decode_tlv_length_put typ (length value) value pad small refl) (
      rw
        (slice_in_range {E = TlvError} (unpadded typ value) 4 (4 + length value) (omega arith)
          (omega (arith, length-unpadded typ value)))
        (ap ok (unfold put16 in take_all (4 + length value - 4) value (omega arith))))

pub fixed_value_put :
    (typ : ℕ) (value : List ℕ) (n : ℕ)
    → length value ≡ n
    → IsU16 n
    → fixed_value (unpadded typ value) n ≡ ok value
unfolding fixed_value
fixed_value_put typ value n len small =
    rw (tlv_value_put typ value _ (omega arith)) (rw (len, ==_refl n))

all_zero-replicate : (n : ℕ) → all_of is_zero (replicate n 0) ≡ true
all_zero-replicate zero = refl
all_zero-replicate (suc n) = all_zero-replicate n

-- The length that the loop skips: the TLV rounded up to the alignment.
abbrev pub skipped : ℕ → ℕ
skipped n = (4 + n + 4 - 1) / 4 * 4

-- A round, from what each of its steps finds.
decode_next_run :
    (dec : List ℕ → ℕ → Result TlvError Tlv) (bytes : List ℕ) (typ n : ℕ) (t : Tlv)
    → skipped n ≤ length bytes
    → read16 {E = TlvError} bytes ≡ ok typ
    → read16 {E = TlvError} (drop 2 bytes) ≡ ok n
    → dec (take (4 + n) bytes) typ ≡ ok t
    → all_of is_zero (drop (4 + n) (take (skipped n) bytes)) ≡ true
    → decode_next dec bytes ≡ ok (t, drop (skipped n) bytes)
unfolding decode_next
decode_next_run dec bytes typ n t fits h2 h3 h5 h7 = rw (le→ltb (length bytes) 4 (omega arith)) (
    rw h2 (
      rw h3 (
        rw (le→ltb (length bytes) (4 + n) (omega arith))
          (rw h5 (rw (le→ltb (length bytes) (skipped n) fits) (rw h7 refl))))))

module _ (typ : ℕ) (value : List ℕ) (pad : ℕ) (rest : List ℕ) where
  abbrev written : List ℕ
  written = unpadded typ value ++ (replicate pad 0 ++ rest)

  length-zeros : length (replicate {A = ℕ} pad 0) ≡ pad
  length-zeros = length-replicate {A = ℕ} pad 0

  length-written : length written ≡ 4 + length value + pad + length rest
  length-written = omega (
    arith,
    length-append (unpadded typ value) (replicate pad 0 ++ rest),
    length-append (replicate {A = ℕ} pad 0) rest,
    length-zeros,
    length-unpadded typ value,
  )

  length_with_zeros : length (unpadded typ value ++ replicate pad 0) ≡ 4 + length value + pad
  length_with_zeros = omega (
    arith,
    length-append (unpadded typ value) (replicate pad 0),
    length-zeros,
    length-unpadded typ value,
  )

  regroup : written ≡ (unpadded typ value ++ replicate pad 0) ++ rest
  regroup = sym (append_assoc (unpadded typ value) (replicate pad 0) rest)

  take-written : take (4 + length value + pad) written ≡ unpadded typ value ++ replicate pad 0
  take-written = rw regroup (take-append _ rest _ length_with_zeros)

  drop-written : drop (4 + length value + pad) written ≡ rest
  drop-written = rw regroup (drop-append _ rest _ length_with_zeros)

  zeros_written :
      all_of is_zero (drop (4 + length value) (take (4 + length value + pad) written)) ≡ true
  zeros_written = rw take-written (
      rw
        (drop-append (unpadded typ value) (replicate pad 0) (4 + length value)
          (length-unpadded typ value))
        (all_zero-replicate pad))

  -- One round of the loop on what a serializer wrote.
  pub decode_next_framed :
      (dec : List ℕ → ℕ → Result TlvError Tlv) (t : Tlv)
      → IsU16 typ
      → IsU16 (length value)
      → 4 + length value + pad ≡ skipped (length value)
      → dec (unpadded typ value) typ ≡ ok t
      → decode_next dec written ≡ ok (t, rest)
  decode_next_framed dec t small_typ small aligned reads =
      decode_next_run dec written typ (length value) t (omega (arith, length-written))
        (unfold read16 put16 in ap ok (omega arith)) (unfold read16 put16 in ap ok (omega arith))
        (rw (take-append (unpadded typ value) _ (4 + length value) (length-unpadded typ value))
          reads)
        (rw (← aligned) zeros_written)
      ∙ ap (λ r. ok (t, r)) (rw (← aligned) drop-written)
