-- ===== src/Pcep/Reports/Framed.antt =====
-- The loop of PCRptMessage.DecodeFromBytes, pkg/packet/pcep/message.go, over objects with true lengths,
-- and over an object of length 0.
use Prim.Native.Nat.{bit_and}
use pce_testing.Base.{
  ℕ, zero, suc, ltb, ◌==◌, ◌/◌, ◌%◌, ◌+◌, ◌-◌, ◌≤◌, ◌<◌, ◌≡◌, refl, ap, ◌∙◌, true, false, not, List,
  [], ◌∷◌, ◌++◌, none, arith, Result, ok, err, panic, stuck, ◌>>=◌, if◌then◌else◌, Bool-cases, inl,
  inr, All, length, take, drop, length-append, take-append, drop-append, take_all,
}
use pce_testing.Base.Bytes.{slice, slice_in_range, index, read16}
use pce_testing.Pcep.Header.{
  CommonObjectHeader, new_common_object_header, serialize_common_object_header,
  decode_common_object_header, flag_byte,
}
use pce_testing.Pcep.Header.RoundTrip.{decode-serialize_common_object_header}
use pce_testing.Pcep.Objects.{ReportError}
use pce_testing.Pcep.Reports.{
  Reports, is_registered, take_object, add_current, decode_report_object, decode_report_objects,
  decode_pcrpt_message,
}

module _ (w x y z : ℕ) (body rest : List ℕ) where
  slice_body :
      slice {E = ReportError} (w ∷ x ∷ y ∷ z ∷ (body ++ rest)) 4 (4 + length body) ≡ ok body
  slice_body =
      let total = length-append body rest in
      slice_in_range {E = ReportError} (w ∷ x ∷ y ∷ z ∷ (body ++ rest)) 4 (4 + length body)
        (omega arith) (omega arith)
      ∙ ap ok (take-append body rest (4 + length body - 4) (omega arith))

  slice_rest :
      slice {E = ReportError}
        (w ∷ x ∷ y ∷ z ∷ (body ++ rest))
        (4 + length body)
        (length (w ∷ x ∷ y ∷ z ∷ (body ++ rest)))
      ≡ ok rest
  slice_rest =
      let total = length-append body rest in
      let n = length (w ∷ x ∷ y ∷ z ∷ (body ++ rest)) - (4 + length body) in
      slice_in_range {E = ReportError} (w ∷ x ∷ y ∷ z ∷ (body ++ rest)) (4 + length body)
        (length (w ∷ x ∷ y ∷ z ∷ (body ++ rest))) (omega arith) (omega arith)
      ∙ (ap (λ l. ok (take n l))
            (drop-append (w ∷ x ∷ y ∷ z ∷ body) rest (4 + length body) (omega arith))
          ∙ ap ok (take_all n rest (omega arith)))

-- An object as its header and its body.
pub record ObjectFrame : Type 0 where
  pub class : ℕ
  pub typ : ℕ
  pub body : List ℕ

abbrev header_of : ObjectFrame → CommonObjectHeader
unfolding new_common_object_header
header_of f = new_common_object_header f.class f.typ (4 + length f.body)

unfoldable pub frame_bytes : ObjectFrame → List ℕ
unfolding serialize_common_object_header header_of
frame_bytes f = serialize_common_object_header (header_of f) ++ f.body

unfoldable pub all_frame_bytes : List ObjectFrame → List ℕ
unfolding frame_bytes
all_frame_bytes [] = []
all_frame_bytes (f ∷ fs) = frame_bytes f ++ all_frame_bytes fs

pub record IsFrame (f : ObjectFrame) : Type 0 where
  pub small_type : f.typ < 16
  pub small_length : 4 + length f.body < 65536

-- What an object does to the reports, with the bytes of the objects behind it.
unfoldable pub take_frame : ObjectFrame → List ℕ → Reports → Result ReportError Reports
unfolding is_registered take_object
take_frame f beyond d =
    if is_registered f.class then take_object f.class f.typ f.body beyond d else ok d

unfoldable pub take_frames : List ObjectFrame → Reports → Result ReportError Reports
unfolding take_frame all_frame_bytes
take_frames [] d = ok d
take_frames (f ∷ fs) d = take_frame f (all_frame_bytes fs) d >>= λ d'. take_frames fs d'

header-decoded :
    (f : ObjectFrame) (rest : List ℕ)
    → IsFrame f
    → decode_common_object_header (frame_bytes f ++ rest) ≡ ok (header_of f)
unfolding frame_bytes header_of
header-decoded f rest w =
    decode-serialize_common_object_header (header_of f) (f.body ++ rest)
      record { small_type = w.small_type; small_flags = omega arith; small_length = w.small_length }

module _ (bytes : List ℕ) (d : Reports) (header : CommonObjectHeader)
    (decoded : decode_common_object_header bytes ≡ ok header) where
  round_taken :
      (body rest : List ℕ)
      → is_registered header.object_class ≡ true
      → slice {E = ReportError} bytes 4 header.object_length ≡ ok body
      → slice {E = ReportError} bytes header.object_length (length bytes) ≡ ok rest
      → drop header.object_length bytes ≡ rest
      → decode_report_object bytes d
        ≡ (take_object header.object_class header.object_type body rest d >>= λ d'. ok (d', rest))
  unfolding decode_report_object
  round_taken body rest e f g b = rw (decoded, e, f, g, b) refl

  round_skipped :
      (rest : List ℕ)
      → is_registered header.object_class ≡ false
      → slice {E = ReportError} bytes header.object_length (length bytes) ≡ ok rest
      → decode_report_object bytes d ≡ ok (d, rest)
  unfolding decode_report_object
  round_skipped rest e g = rw (decoded, e, g) refl

one_frame :
    (f : ObjectFrame) (rest : List ℕ) (d : Reports)
    → IsFrame f
    → decode_report_object (frame_bytes f ++ rest) d ≡ (take_frame f rest d >>= λ d'. ok (d', rest))
unfolding frame_bytes header_of take_frame
one_frame f rest d w =
    let decoded = header-decoded f rest w in
    let n = 4 + length f.body in
    let body =
      slice_body f.class (flag_byte f.typ 0 false false) (n / 256 % 256) (n % 256) f.body rest in
    let after =
      slice_rest f.class (flag_byte f.typ 0 false false) (n / 256 % 256) (n % 256) f.body rest in
    elim (Bool-cases (is_registered f.class)) [
      | inl e ↦ rw e (
          round_taken (frame_bytes f ++ rest) d (header_of f) decoded f.body rest e body after (
            drop-append (f.class ∷ flag_byte f.typ 0 false false ∷ n / 256 % 256 ∷ n % 256 ∷ f.body)
              rest n (omega arith)))
      | inr e ↦ rw e (round_skipped (frame_bytes f ++ rest) d (header_of f) decoded rest e after)
    ]

abbrev with_rest : List ℕ → Reports → Result ReportError (Reports × List ℕ)
with_rest rest d = ok (d, rest)

-- With a round for each object at least, the loop takes all of them.
every_frame :
    (fuel : ℕ) (fs : List ObjectFrame) (d : Reports)
    → All IsFrame fs
    → length fs ≤ fuel
    → decode_report_objects fuel (all_frame_bytes fs) d ≡ take_frames fs d
unfolding all_frame_bytes take_frames decode_report_objects frame_bytes
every_frame zero [] d h le = refl
every_frame (suc fuel) [] d h le = refl
every_frame zero (f ∷ fs) d h le = absurd (omega arith)
every_frame (suc fuel) (f ∷ fs) d h le =
    ap (λ r. r >>= λ next. decode_report_objects fuel next.1 next.0)
      (one_frame f (all_frame_bytes fs) d h.0)
    ∙ later (take_frame f (all_frame_bytes fs) d) (λ d'. every_frame fuel fs d' h.1 (omega arith))
  where
    later :
        (r : Result ReportError Reports)
        → ((d' : Reports) → decode_report_objects fuel (all_frame_bytes fs) d' ≡ take_frames fs d')
        → ((r >>= with_rest (all_frame_bytes fs)) >>= λ next.
            decode_report_objects fuel next.1 next.0)
          ≡ (r >>= λ d'. take_frames fs d')
    later (ok d') rest = rest d'
    later (err e) rest = refl
    later panic rest = refl
    later stuck rest = refl

-- The body of a PCRpt message whose objects have true lengths is decoded object by object: the
-- reports are what the objects of the registered classes make of them, in their order, each with the
-- bytes behind it, which the decoder of a short body may read, and the others are skipped. As many rounds as there are objects are enough.
pub decode_pcrpt_message_framed :
    (fuel : ℕ) (fs : List ObjectFrame)
    → All IsFrame fs
    → length fs ≤ fuel
    → decode_pcrpt_message fuel (all_frame_bytes fs) ≡ (
        take_frames fs (record { previous = 0; current = none; state_reports = [] }) >>= λ d.
        ok (add_current d))
unfolding decode_pcrpt_message
decode_pcrpt_message_framed fuel fs h le =
    ap (λ r. r >>= λ d. ok (add_current d))
      (every_frame fuel fs (record { previous = 0; current = none; state_reports = [] }) h le)

zero_header :
    (class byte : ℕ) (rest : List ℕ)
    → (header : CommonObjectHeader) × (decode_common_object_header (class ∷ byte ∷ 0 ∷ 0 ∷ rest)
        ≡ ok header)
      × (header.object_class ≡ class)
      × (header.object_length ≡ 0)
unfolding decode_common_object_header index read16
zero_header class byte rest =
    let long : ltb (suc (suc (suc (suc (length rest))))) 4 ≡ false = ground arith in
    (
      record {
        object_class = class;
        object_type = bit_and byte 0xf0 / 16;
        res_flags = bit_and byte 0x0c / 4;
        p_flag = not (bit_and byte 2 == 0);
        i_flag = not (bit_and byte 1 == 0);
        object_length = 0;
      },
      rw long refl,
      refl,
      refl,
    )

no_progress :
    (class byte : ℕ) (rest : List ℕ) (d : Reports)
    → is_registered class ≡ false
    → decode_report_object (class ∷ byte ∷ 0 ∷ 0 ∷ rest) d ≡ ok (d, class ∷ byte ∷ 0 ∷ 0 ∷ rest)
no_progress class byte rest d h =
    let (header, decoded, same, none_left) = zero_header class byte rest in
    let bytes = class ∷ byte ∷ 0 ∷ 0 ∷ rest in
    let whole : slice {E = ReportError} bytes 0 (length bytes) ≡ ok bytes =
      slice_in_range {E = ReportError} bytes 0 (length bytes) (omega arith) (omega arith)
      ∙ ap ok (take_all (length bytes - 0) bytes (omega arith)) in
    round_skipped bytes d header decoded bytes (ap is_registered same ∙ h)
      (ap (λ n. slice {E = ReportError} bytes n (length bytes)) none_left ∙ whole)

never_ends :
    (fuel class byte : ℕ) (rest : List ℕ) (d : Reports)
    → is_registered class ≡ false
    → decode_report_objects fuel (class ∷ byte ∷ 0 ∷ 0 ∷ rest) d ≡ stuck
unfolding decode_report_objects
never_ends zero class byte rest d h = refl
never_ends (suc fuel) class byte rest d h =
    ap (λ r. r >>= λ next. decode_report_objects fuel next.1 next.0)
      (no_progress class byte rest d h)
    ∙ never_ends fuel class byte rest d h

-- A PCRpt message that begins with an object of an unregistered class whose header says length 0 is
-- decoded for ever: no number of rounds is enough, whatever follows.
pub decode_pcrpt_message_never_ends :
    (fuel class byte : ℕ) (rest : List ℕ)
    → is_registered class ≡ false
    → decode_pcrpt_message fuel (class ∷ byte ∷ 0 ∷ 0 ∷ rest) ≡ stuck
unfolding decode_pcrpt_message
decode_pcrpt_message_never_ends fuel class byte rest h =
    ap (λ r. r >>= λ d. ok (add_current d))
      (never_ends fuel class byte rest (record { previous = 0; current = none; state_reports = [] })
        h)
