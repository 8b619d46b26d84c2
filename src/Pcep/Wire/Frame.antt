-- ===== src/Pcep/Wire/Frame.antt =====
-- What `decodeTLVLength` accepts, for every byte sequence, and that it never faults.
use pce_testing.Base.{
  ℕ, suc, ap, le→ltb, some_inj, ◌+◌, ◌≡◌, refl, ◌↔◌, ◌⊎◌, Bool, true, Option, none, some, List, [],
  ◌∷◌, ◌++◌, inl, arith, ok, Ends, Ends-of_ne, length, drop, all_of,
}
use pce_testing.Base.Bytes.{be16, put16, slice_in_range, IsU16}
use pce_testing.Pcep.Wire.{
  decode_tlv_length, check_tlv_length, padded_length, tlv_value_offset, tlv_alignment, is_zero,
}

-- The value length that a TLV header declares.
abbrev pub header_length : List ℕ → Option ℕ
header_length (t ∷ t' ∷ l ∷ l' ∷ _) = some (be16 l l')
header_length _ = none

-- The bytes are the header and the value, or these and a zero padding up to the alignment.
abbrev pub FitsFrame : List ℕ → Bool → ℕ → Type 0
FitsFrame bytes pad n =
    (length bytes ≡ tlv_value_offset + n)
    ⊎ ((pad ≡ true)
        × (length bytes ≡ padded_length (tlv_value_offset + n) tlv_alignment)
        × (all_of is_zero (drop (tlv_value_offset + n) bytes) ≡ true))

check_tlv_length_iff :
    (bytes : List ℕ) (pad : Bool) (n m : ℕ)
    → (check_tlv_length bytes pad n ≡ ok m) ↔ ((n ≡ m) × FitsFrame bytes pad n)
unfolding check_tlv_length
check_tlv_length_iff bytes pad n m = ((λ h. ground arith), (λ h. ground arith))

check_tlv_length-Ends : (bytes : List ℕ) (pad : Bool) (n : ℕ) → Ends (check_tlv_length bytes pad n)
unfolding check_tlv_length
check_tlv_length-Ends bytes pad n = Ends-of_ne _ (λ h. ground arith) (λ h. ground arith)

decode_tlv_length_step :
    (t t' l l' : ℕ) (r : List ℕ) (pad : Bool)
    → decode_tlv_length (t ∷ t' ∷ l ∷ l' ∷ r) pad
      ≡ check_tlv_length (t ∷ t' ∷ l ∷ l' ∷ r) pad (be16 l l')
unfolding decode_tlv_length
decode_tlv_length_step t t' l l' r pad =
    rw (le→ltb (suc (suc (suc (suc (length r))))) 4 (omega arith))
      (rw (slice_in_range (t ∷ t' ∷ l ∷ l' ∷ r) 2 4 (omega arith) (omega arith)) refl)

-- `decodeTLVLength` returns the length that the header declares, exactly when the bytes are the
-- header and the value or, where padding is allowed, these and zero bytes up to the alignment.
pub decode_tlv_length_iff :
    (bytes : List ℕ) (pad : Bool) (n : ℕ)
    → (decode_tlv_length bytes pad ≡ ok n)
      ↔ ((header_length bytes ≡ some n) × FitsFrame bytes pad n)
decode_tlv_length_iff [] pad n = (unfold decode_tlv_length in (λ h. cc), λ h. cc)
decode_tlv_length_iff (t ∷ []) pad n = (unfold decode_tlv_length in (λ h. cc), λ h. cc)
decode_tlv_length_iff (t ∷ t' ∷ []) pad n = (unfold decode_tlv_length in (λ h. cc), λ h. cc)
decode_tlv_length_iff (t ∷ t' ∷ l ∷ []) pad n = (unfold decode_tlv_length in (λ h. cc), λ h. cc)
decode_tlv_length_iff (t ∷ t' ∷ l ∷ l' ∷ r) pad n =
    let e = decode_tlv_length_step t t' l l' r pad in
    let both = check_tlv_length_iff (t ∷ t' ∷ l ∷ l' ∷ r) pad (be16 l l') n in
    (
      (λ h. (ap some (both.0 (rw e at h)).0, rw (← (both.0 (rw e at h)).0) (both.0 (rw e at h)).1)),
      λ h. rw e (both.1 (some_inj h.0, rw (some_inj h.0) h.1)),
    )

-- `decodeTLVLength` returns a length or an error on every input: no index is out of range.
pub decode_tlv_length-Ends : (bytes : List ℕ) (pad : Bool) → Ends (decode_tlv_length bytes pad)
decode_tlv_length-Ends [] pad = unfold decode_tlv_length in tt
decode_tlv_length-Ends (t ∷ []) pad = unfold decode_tlv_length in tt
decode_tlv_length-Ends (t ∷ t' ∷ []) pad = unfold decode_tlv_length in tt
decode_tlv_length-Ends (t ∷ t' ∷ l ∷ []) pad = unfold decode_tlv_length in tt
decode_tlv_length-Ends (t ∷ t' ∷ l ∷ l' ∷ r) pad =
    rw (decode_tlv_length_step t t' l l' r pad)
      (check_tlv_length-Ends (t ∷ t' ∷ l ∷ l' ∷ r) pad (be16 l l'))

-- A header that a serializer wrote, in front of a value of that length, is accepted.
pub decode_tlv_length_put :
    (t n : ℕ) (value : List ℕ) (pad : Bool)
    → IsU16 n
    → length value ≡ n
    → decode_tlv_length (put16 t ++ (put16 n ++ value)) pad ≡ ok n
unfolding put16
decode_tlv_length_put t n value pad small len =
    (decode_tlv_length_iff (put16 t ++ (put16 n ++ value)) pad n).1
      (ap some (omega arith), inl (omega arith))
