-- ===== src/Pcep/Report/Ero/Subobjects.antt =====
-- The decoders of the subobjects of pkg/packet/pcep/object.go end on every input.
use Prim.Native.Nat.{bit_and}
use pce_testing.Base.{
  ℕ, ◌+◌, ◌/◌, ◌≤◌, ◌≡◌, ◌⊎◌, refl, Bool, true, false, not, ◌&&◌, ◌||◌, List, arith, Result, ok,
  ◌>>=◌, Ends, >>=-Ends, guarded-Ends, Ends-of_ne, ltb, leb, ◌==◌, if◌then◌else◌, length, drop,
}
use pce_testing.Base.Bytes.{index, slice, read16, read32}
use pce_testing.Base.Reads.{index-Ends, read16_at-Ends, read32_at-Ends, slice-Ends}
use pce_testing.Table.Segment.{SegmentSrv6, SegmentSrMpls}
use pce_testing.Pcep.Report.Ero.{SrEroSubobject, Srv6EroSubobject}
use pce_testing.Pcep.Report.Ero.Decode.{
  EroError, flag, segment_of_word, nai_length, read_addresses, read_nai, decode_sr_ero, len_sr_ero,
  read_sid, read_srv6_nai, read_structure, decode_srv6_ero, srv6_nai_length, len_srv6_ero,
  decode_rsvp_ipv4_prefix, decode_subobject,
}

pub returns-Ends :
    {A B : Type 0} (m : Result EroError A) (f : A → B) → Ends m → Ends (m >>= λ a. ok (f a))
returns-Ends m f h = >>=-Ends m (λ a. ok (f a)) h (λ a e. tt)

-- A choice ends when both of its branches do.
pub if-Ends :
    {A : Type 0} (b : Bool) (x y : Result EroError A)
    → (b ≡ true → Ends x)
    → (b ≡ false → Ends y)
    → Ends (if b then x else y)
if-Ends true x y h k = h refl
if-Ends false x y h k = k refl

nai_length-cases :
    (t n : ℕ) → nai_length t ≡ ok n → ((t == 0) ≡ true) ⊎ ((ltb 0 n ≡ true) × (n / 2 ≤ n))
unfolding nai_length
nai_length-cases t n h = ground arith

nai_length-Ends : (t : ℕ) → Ends (nai_length t)
unfolding nai_length
nai_length-Ends t = Ends-of_ne _ (λ h. ground arith) (λ h. ground arith)

read_addresses-Ends :
    (t n : ℕ) (seg : SegmentSrMpls) (bytes : List ℕ)
    → nai_length t ≡ ok n
    → not (ltb 0 n && ltb (length bytes) (8 + n)) ≡ true
    → Ends (read_addresses t n seg bytes)
unfolding read_addresses
read_addresses-Ends t n seg bytes h fits =
    if-Ends (t == 1 || t == 2) _ _
      (λ e.
        returns-Ends (slice bytes 8 (8 + n)) _ (
          slice-Ends EroError bytes 8 (8 + n) (omega arith) (room t n bytes h fits (ground arith))))
      (λ e.
        if-Ends (t == 3 || t == 4) _ _
          (λ f.
            let r = room t n bytes h fits (ground arith) in
            >>=-Ends (slice bytes 8 (8 + n / 2)) _
              (slice-Ends EroError bytes 8 (8 + n / 2) (omega arith) (omega (arith, r)))
              (λ l _.
                returns-Ends (slice bytes (8 + n / 2) (8 + n)) _
                  (slice-Ends EroError bytes (8 + n / 2) (8 + n) (omega arith) r)))
          (λ f. tt))
  where
    room :
        (t n : ℕ) (bytes : List ℕ)
        → nai_length t ≡ ok n
        → not (ltb 0 n && ltb (length bytes) (8 + n)) ≡ true
        → (t == 0) ≡ false
        → 8 + n ≤ length bytes
    room t n bytes h fits other = ground (arith, nai_length-cases t n h)

read_nai-Ends :
    (f : Bool) (t : ℕ) (seg : SegmentSrMpls) (bytes : List ℕ) → Ends (read_nai f t seg bytes)
unfolding read_nai
read_nai-Ends f t seg bytes =
    if-Ends f _ _ (λ e. tt)
      (λ e. >>=-Ends (nai_length t) _ (nai_length-Ends t) (λ n h.
        guarded-Ends (not (ltb 0 n && ltb (length bytes) (8 + n))) _ _
          (λ fits. read_addresses-Ends t n seg bytes h fits)))

decode_sr_ero-Ends : (bytes : List ℕ) → Ends (decode_sr_ero bytes)
unfolding decode_sr_ero
decode_sr_ero-Ends bytes = guarded-Ends (not (ltb (length bytes) 8)) _ _ (λ eight.
    >>=-Ends (index bytes 0) _ (index-Ends EroError bytes 0 (ground arith)) (λ b0 _.
      >>=-Ends (index bytes 1) _ (index-Ends EroError bytes 1 (ground arith)) (λ b1 _.
        >>=-Ends (index bytes 2) _ (index-Ends EroError bytes 2 (ground arith)) (λ b2 _.
          >>=-Ends (index bytes 3) _ (index-Ends EroError bytes 3 (ground arith)) (λ b3 _.
            >>=-Ends (read32 (drop 4 bytes)) _ (read32_at-Ends EroError bytes 4 (ground arith))
              (λ w _.
                returns-Ends {B = SrEroSubobject}
                  (read_nai (flag b3 8) (b2 / 16) (segment_of_word w (flag b3 2)) bytes) _
                  (read_nai-Ends (flag b3 8) (b2 / 16) (segment_of_word w (flag b3 2)) bytes)))))))

read_sid-Ends : (s : Bool) (bytes : List ℕ) → Ends (read_sid s bytes)
unfolding read_sid
read_sid-Ends s bytes =
    if-Ends s _ _ (λ e. tt)
      (λ e. guarded-Ends (not (ltb (length bytes) 24)) _ _ (λ fits.
        returns-Ends (slice bytes 8 24) _
          (slice-Ends EroError bytes 8 24 (omega arith) (ground arith))))

read_srv6_nai-Ends :
    (f : Bool) (t : ℕ) (seg : SegmentSrv6) (off : ℕ) (bytes : List ℕ)
    → Ends (read_srv6_nai f t seg off bytes)
unfolding read_srv6_nai
read_srv6_nai-Ends f t seg off bytes =
    if-Ends f _ _ (λ e. tt)
      (λ e.
        if-Ends (t == 2) _ _
          (λ n. guarded-Ends (not (ltb (length bytes) (off + 16))) _ _ (λ fits.
            returns-Ends (slice bytes off (off + 16)) _
              (slice-Ends EroError bytes off (off + 16) (omega arith) (ground arith))))
          (λ n.
            if-Ends (t == 4) _ _
              (λ g. guarded-Ends (not (ltb (length bytes) (off + 32))) _ _ (λ fits.
                >>=-Ends (slice bytes off (off + 16)) _
                  (slice-Ends EroError bytes off (off + 16) (omega arith) (ground arith))
                  (λ l _. returns-Ends (slice bytes (off + 16) (off + 32)) _ (
                    slice-Ends EroError bytes (off + 16) (off + 32) (omega arith) (ground arith)))))
              (λ g.
                if-Ends (t == 6) _ _
                  (λ k. guarded-Ends (not (ltb (length bytes) (off + 40))) _ _ (λ fits.
                    >>=-Ends (slice bytes off (off + 16)) _
                      (slice-Ends EroError bytes off (off + 16) (omega arith) (ground arith))
                      (λ l _. returns-Ends (slice bytes (off + 20) (off + 36)) _ (
                        slice-Ends EroError bytes (off + 20) (off + 36) (omega arith)
                          (ground arith)))))
                  (λ k. tt))))

read_structure-Ends :
    (t : Bool) (seg : SegmentSrv6) (off : ℕ) (bytes : List ℕ)
    → Ends (read_structure t seg off bytes)
unfolding read_structure
read_structure-Ends t seg off bytes =
    if-Ends t _ _
      (λ e. guarded-Ends (not (ltb (length bytes) (off + 8))) _ _ (λ fits.
        returns-Ends (slice bytes off (off + 4)) _
          (slice-Ends EroError bytes off (off + 4) (omega arith) (ground arith))))
      (λ e. tt)

decode_srv6_ero-Ends : (bytes : List ℕ) → Ends (decode_srv6_ero bytes)
unfolding decode_srv6_ero
decode_srv6_ero-Ends bytes = guarded-Ends (not (ltb (length bytes) 8)) _ _ (λ eight.
    >>=-Ends (index bytes 0) _ (index-Ends EroError bytes 0 (ground arith)) (λ b0 _.
      >>=-Ends (index bytes 1) _ (index-Ends EroError bytes 1 (ground arith)) (λ b1 _.
        >>=-Ends (index bytes 2) _ (index-Ends EroError bytes 2 (ground arith)) (λ b2 _.
          >>=-Ends (index bytes 3) _ (index-Ends EroError bytes 3 (ground arith)) (λ b3 _.
            >>=-Ends (read16 (drop 6 bytes)) _ (read16_at-Ends EroError bytes 6 (ground arith))
              (λ behavior _.
                >>=-Ends (read_sid (flag b3 1) bytes) _ (read_sid-Ends (flag b3 1) bytes) (λ sid _.
                  >>=-Ends (read_srv6_nai (flag b3 2) (b2 / 16) sid.0 sid.1 bytes) _
                    (read_srv6_nai-Ends (flag b3 2) (b2 / 16) sid.0 sid.1 bytes)
                    (λ nai _.
                      returns-Ends {B = Srv6EroSubobject}
                        (read_structure (flag b3 4) nai.0 nai.1 bytes) _
                        (read_structure-Ends (flag b3 4) nai.0 nai.1 bytes)))))))))

decode_rsvp-Ends : (bytes : List ℕ) → Ends (decode_rsvp_ipv4_prefix bytes)
unfolding decode_rsvp_ipv4_prefix
decode_rsvp-Ends bytes = guarded-Ends (not (ltb (length bytes) 8)) _ _ (λ eight.
    >>=-Ends (index bytes 1) _ (index-Ends EroError bytes 1 (ground arith)) (λ b1 _.
      guarded-Ends (b1 == 8) _ _ (λ e.
        >>=-Ends (index bytes 0) _ (index-Ends EroError bytes 0 (ground arith)) (λ b0 _.
          >>=-Ends (slice bytes 2 6) _ (slice-Ends EroError bytes 2 6 (omega arith) (ground arith))
            (λ a _.
              >>=-Ends (index bytes 6) _ (index-Ends EroError bytes 6 (ground arith))
                (λ p _. guarded-Ends (leb p 32) _ _ (λ l. tt)))))))

len_sr_ero-Ends : (o : SrEroSubobject) → Ends (len_sr_ero o)
unfolding len_sr_ero
len_sr_ero-Ends o =
    if-Ends o.f_flag _ _ (λ e. tt)
      (λ e. returns-Ends (nai_length o.nai_type) _ (nai_length-Ends o.nai_type))

len_srv6_ero-Ends : (o : Srv6EroSubobject) → Ends (len_srv6_ero o)
unfolding len_srv6_ero srv6_nai_length
len_srv6_ero-Ends o =
    returns-Ends (srv6_nai_length o.f_flag o.nai_type) _
      (Ends-of_ne _ (λ h. ground arith) (λ h. ground arith))

pub decode_subobject-Ends : (bytes : List ℕ) → 1 ≤ length bytes → Ends (decode_subobject bytes)
unfolding decode_subobject
decode_subobject-Ends bytes one =
    >>=-Ends (index bytes 0) _ (index-Ends EroError bytes 0 (omega arith)) (λ b0 _.
      if-Ends (bit_and b0 0x7f == 0x24) _ _
        (λ e.
          >>=-Ends (decode_sr_ero bytes) _ (decode_sr_ero-Ends bytes)
            (λ o _. returns-Ends (len_sr_ero o) _ (len_sr_ero-Ends o)))
        (λ e.
          if-Ends (bit_and b0 0x7f == 0x28) _ _
            (λ f.
              >>=-Ends (decode_srv6_ero bytes) _ (decode_srv6_ero-Ends bytes)
                (λ o _. returns-Ends (len_srv6_ero o) _ (len_srv6_ero-Ends o)))
            (λ f.
              if-Ends (bit_and b0 0x7f == 0x01) _ _
                (λ g. returns-Ends (decode_rsvp_ipv4_prefix bytes) _ (decode_rsvp-Ends bytes))
                (λ g. tt))))
