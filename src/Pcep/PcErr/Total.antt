-- ===== src/Pcep/PcErr/Total.antt =====
-- PCErrMessage.DecodeFromBytes of pkg/packet/pcep/message.go always ends with a message or an error.
use pce_testing.Base.{
  ℕ, zero, suc, ◌+◌, ◌≤◌, ◌%◌, ◌≡◌, ap, not, ◌||◌, List, [], ◌∷◌, arith, Result, ok, err, panic,
  stuck, ◌>>=◌, map_err, Ends, >>=-Ends, >>=-eq-ok, guarded-Ends, guarded-eq-ok, ok_inj, ltb, leb,
  ◌==◌, length, drop, length-drop, Bool-cases, inl, inr,
}
use pce_testing.Base.Bytes.{index, slice, read16, read32}
use pce_testing.Base.Reads.{index-Ends, read32_at-Ends, read16_at-Ends, slice-Ends}
use pce_testing.Pcep.Wire.{TlvError}
use pce_testing.Pcep.Tlv.Sequence.{decode_tlvs}
use pce_testing.Pcep.Tlv.SequenceEnds.{decode_tlvs-Ends}
use pce_testing.Pcep.Header.{
  ObjectError, CommonObjectHeader, tlv_error, decode_common_object_header,
}
use pce_testing.Pcep.PcErr.{
  PcErrMessage, decode_rest, decode_pcep_error_object, decode_srp_object, add_object, decode_object,
  decode_objects, decode_pcerr_message,
}

map_err-Ends :
    {A : Type 0} (r : Result TlvError A) → Ends r → Ends (map_err {F = ObjectError} tlv_error r)
map_err-Ends (ok a) h = tt
map_err-Ends (err e) h = tt
map_err-Ends panic h = elim h [ ]
map_err-Ends stuck h = elim h [ ]

decode_rest-Ends : (bytes : List ℕ) → Ends (decode_rest bytes)
decode_rest-Ends [] = tt
decode_rest-Ends (b ∷ bs) = map_err-Ends (decode_tlvs (b ∷ bs)) (decode_tlvs-Ends (b ∷ bs))

returns-Ends :
    {A B : Type 0} (m : Result ObjectError A) (f : A → B) → Ends m → Ends (m >>= λ a. ok (f a))
returns-Ends m f h = >>=-Ends m (λ a. ok (f a)) h (λ a e. tt)

error_object-Ends : (typ : ℕ) (body : List ℕ) → Ends (decode_pcep_error_object typ body)
unfolding decode_pcep_error_object
error_object-Ends typ body = guarded-Ends (not (ltb (length body) 4)) _ _ (λ four.
    >>=-Ends (index body 2) _ (index-Ends ObjectError body 2 (ground arith)) (λ t _.
      >>=-Ends (index body 3) _ (index-Ends ObjectError body 3 (ground arith))
        (λ v _. returns-Ends (decode_rest (drop 4 body)) _ (decode_rest-Ends (drop 4 body)))))

srp_object-Ends : (typ : ℕ) (body : List ℕ) → Ends (decode_srp_object typ body)
unfolding decode_srp_object
srp_object-Ends typ body = guarded-Ends (not (ltb (length body) 8)) _ _ (λ eight.
    >>=-Ends (index body 3) _ (index-Ends ObjectError body 3 (ground arith)) (λ f _.
      >>=-Ends (read32 (drop 4 body)) _ (read32_at-Ends ObjectError body 4 (ground arith))
        (λ id _. returns-Ends (decode_rest (drop 8 body)) _ (decode_rest-Ends (drop 8 body)))))

header-Ends : (bytes : List ℕ) → Ends (decode_common_object_header bytes)
unfolding decode_common_object_header
header-Ends bytes = guarded-Ends (not (ltb (length bytes) 4)) _ _ (λ four.
    >>=-Ends (index bytes 0) _ (index-Ends ObjectError bytes 0 (ground arith)) (λ c _.
      >>=-Ends (index bytes 1) _ (index-Ends ObjectError bytes 1 (ground arith)) (λ f _.
        returns-Ends (read16 (drop 2 bytes)) _
          (read16_at-Ends ObjectError bytes 2 (ground arith)))))

add_object-Ends :
    (header : CommonObjectHeader) (body : List ℕ) (m : PcErrMessage)
    → Ends (add_object header body m)
unfolding add_object
add_object-Ends header body m = elim (Bool-cases (header.object_class == 0x0d)) [
  | inl e ↦ rw e (
      returns-Ends (decode_pcep_error_object header.object_type body) _
        (error_object-Ends header.object_type body))
  | inr e ↦ rw e (elim (Bool-cases (header.object_class == 0x21)) [
    | inl f ↦ rw f (
        returns-Ends (decode_srp_object header.object_type body) _
          (srp_object-Ends header.object_type body))
    | inr f ↦ rw f tt
  ])
]

decode_object-Ends : (bytes : List ℕ) (m : PcErrMessage) → Ends (decode_object bytes m)
unfolding decode_object
decode_object-Ends bytes m = guarded-Ends (not (ltb (length bytes) 4)) _ _ (λ four.
    >>=-Ends (slice bytes 0 4) _ (slice-Ends ObjectError bytes 0 4 (omega arith) (ground arith))
      (λ hb _. >>=-Ends (decode_common_object_header hb) _ (header-Ends hb) (λ h _.
        guarded-Ends (not (ltb h.object_length 4 || not (h.object_length % 4 == 0))) _ _ (λ ok_len.
          guarded-Ends (leb h.object_length (length bytes)) _ _ (λ fits.
            >>=-Ends (slice bytes 4 h.object_length) _
              (slice-Ends ObjectError bytes 4 h.object_length (ground arith) (ground arith))
              (λ body _. returns-Ends (add_object h body m) _ (add_object-Ends h body m)))))))

-- A round takes four bytes at least.
decode_object_shorter :
    (bytes rest : List ℕ) (m m' : PcErrMessage)
    → decode_object bytes m ≡ ok (m', rest)
    → 4 + length rest ≤ length bytes
unfolding decode_object
decode_object_shorter bytes rest m m' e =
    let (four, h1) = guarded-eq-ok (not (ltb (length bytes) 4)) _ _ e in
    let (hb, e2, h2) = >>=-eq-ok (slice bytes 0 4) _ h1 in
    let (h, e3, h3) = >>=-eq-ok (decode_common_object_header hb) _ h2 in
    let (ok_len, h4) =
      guarded-eq-ok (not (ltb h.object_length 4 || not (h.object_length % 4 == 0))) _ _ h3 in
    let (fits, h5) = guarded-eq-ok (leb h.object_length (length bytes)) _ _ h4 in
    let (body, e6, h6) = >>=-eq-ok (slice bytes 4 h.object_length) _ h5 in
    let (added, e7, h7) = >>=-eq-ok (add_object h body m) _ h6 in
    let same : drop h.object_length bytes ≡ rest = ap (λ p. p.1) (ok_inj h7) in
    rw (← same) (ground (arith, length-drop h.object_length bytes))

decode_objects-Ends :
    (fuel : ℕ) (bytes : List ℕ) (m : PcErrMessage)
    → length bytes ≤ fuel
    → Ends (decode_objects fuel bytes m)
unfolding decode_objects
decode_objects-Ends fuel [] m h = tt
decode_objects-Ends zero (b ∷ bs) m h = absurd (omega arith)
decode_objects-Ends (suc fuel) (b ∷ bs) m h =
    >>=-Ends (decode_object (b ∷ bs) m) _ (decode_object-Ends (b ∷ bs) m) (λ next e.
      let shorter = decode_object_shorter (b ∷ bs) next.1 m next.0 e in
      decode_objects-Ends fuel next.1 next.0 (omega (arith, shorter)))

-- The body of a PCErr message is decoded to a message or to an error on every byte sequence: no
-- object header makes the decoder fault, and the loop over the objects ends.
pub decode_pcerr_message-Ends : (body : List ℕ) → Ends (decode_pcerr_message body)
unfolding decode_pcerr_message
decode_pcerr_message-Ends body =
    >>=-Ends (decode_objects (length body) body (record { errors = []; srps = [] })) _
      (decode_objects-Ends (length body) body (record { errors = []; srps = [] }) (omega arith))
      (λ m _. guarded-Ends _ _ (ok m) (λ some_error. tt))
