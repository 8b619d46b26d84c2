-- ===== src/Pcep/Tlv/Ends.antt =====
-- No input makes a decoder of pkg/packet/pcep/tlv.go fault or run without end.
use pce_testing.Base.{
  ℕ, ◌+◌, ◌≤◌, ◌≡◌, Bool, false, not, List, arith, Result, ok, ◌>>=◌, ◌>>◌, guard, Ends, >>=-Ends,
  guarded-Ends, >>=-eq-ok, ok_inj, ltb, ◌==◌, length,
}
use pce_testing.Base.Bytes.{slice_in_range, length-slice}
use pce_testing.Base.Reads.{slice-Ends}
use pce_testing.Pcep.Wire.{TlvError, decode_tlv_length}
use pce_testing.Pcep.Wire.Frame.{decode_tlv_length_iff, decode_tlv_length-Ends}
use pce_testing.Pcep.Wire.Padding.{padded_length_least}
use pce_testing.Pcep.Tlv.Read.{tlv_value, fixed_value}

decode_tlv_length_bound :
    (bytes : List ℕ) (pad : Bool) (n : ℕ)
    → decode_tlv_length bytes pad ≡ ok n
    → 4 + n ≤ length bytes
decode_tlv_length_bound bytes pad n h = omega (
  arith,
  ((decode_tlv_length_iff bytes pad n).0 h).1,
  padded_length_least (4 + n) 4 (omega arith),
)

pub tlv_value-Ends : (bytes : List ℕ) (pad : Bool) → Ends (tlv_value bytes pad)
unfolding tlv_value
tlv_value-Ends bytes pad =
    >>=-Ends (decode_tlv_length bytes pad) _ (decode_tlv_length-Ends bytes pad) (λ n e.
      slice-Ends TlvError bytes 4 (4 + n) (omega arith) (decode_tlv_length_bound bytes pad n e))

-- The value and the header lie within the bytes, and the header declares the value's length.
pub tlv_value_bound :
    (bytes : List ℕ) (pad : Bool) (v : List ℕ)
    → tlv_value bytes pad ≡ ok v
    → 4 + length v ≤ length bytes
unfolding tlv_value
tlv_value_bound bytes pad v h =
    let (n, e, s) = >>=-eq-ok (decode_tlv_length bytes pad) _ h in
    let fits = decode_tlv_length_bound bytes pad n e in
    let same =
      ok_inj (rw (slice_in_range {E = TlvError} bytes 4 (4 + n) (omega arith) fits) at s) in
    rw (← same) (omega (arith, fits, length-slice bytes 4 (4 + n) (omega arith) fits))

fixed_value-Ends : (bytes : List ℕ) (n : ℕ) → Ends (fixed_value bytes n)
unfolding fixed_value
fixed_value-Ends bytes n =
    >>=-Ends (tlv_value bytes false) _ (tlv_value-Ends bytes false)
      (λ v e. guarded-Ends (length v == n) _ (ok v) (λ h. tt))

fixed_value_length :
    (bytes : List ℕ) (n : ℕ) (v : List ℕ) → fixed_value bytes n ≡ ok v → length v ≡ n
unfolding fixed_value
fixed_value_length bytes n v h =
    let (w, e, g) = >>=-eq-ok (tlv_value bytes false) _ h in ground arith

-- A decoder of a value of one length: what follows may read within that length.
pub fixed-Ends {ℓ} :
    {A : Type ℓ} (bytes : List ℕ) (n : ℕ) (k : List ℕ → Result TlvError A)
    → ((v : List ℕ) → length v ≡ n → Ends (k v))
    → Ends (fixed_value bytes n >>= k)
fixed-Ends bytes n k h =
    >>=-Ends (fixed_value bytes n) k (fixed_value-Ends bytes n)
      (λ v e. h v (fixed_value_length bytes n v e))

-- A decoder of a value of four bytes at least.
pub at_least_four-Ends {ℓ} :
    {A : Type ℓ} (bytes : List ℕ) (pad : Bool) (e : TlvError) (k : List ℕ → Result TlvError A)
    → ((v : List ℕ) → 4 ≤ length v → Ends (k v))
    → Ends (tlv_value bytes pad >>= λ v. guard (not (ltb (length v) 4)) e >> k v)
at_least_four-Ends bytes pad e k h =
    >>=-Ends (tlv_value bytes pad) _ (tlv_value-Ends bytes pad)
      (λ v p. guarded-Ends (not (ltb (length v) 4)) e (k v) (λ g. h v (ground arith)))

-- A last step that only builds the result.
pub returns-Ends {ℓ κ} :
    {A : Type ℓ} {B : Type κ} (m : Result TlvError A) (f : A → B)
    → Ends m
    → Ends (m >>= λ a. ok (f a))
returns-Ends m f h = >>=-Ends m _ h (λ a e. tt)
