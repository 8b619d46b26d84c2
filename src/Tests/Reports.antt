-- ===== src/Tests/Reports.antt =====
-- Messages of state reports, and messages of the PCE.
use pce_testing.Base.{ℕ, ◌≡◌, refl, false, List, [], ◌∷◌, none, arith, ok, panic, stuck, ◌>>=◌, All}
use pce_testing.Table.Segment.{srmpls, new_segment_srmpls}
use pce_testing.Pcep.Tlv.Serialize.{len_all, serialize_all}
use pce_testing.Pcep.Report.{StateReport}
use pce_testing.Pcep.Reports.{decode_pcrpt_message, add_current, is_registered}
use pce_testing.Pcep.Reports.Framed.{
  ObjectFrame, IsFrame, all_frame_bytes, take_frames, decode_pcrpt_message_framed,
  decode_pcrpt_message_never_ends,
}
use pce_testing.Pcep.Objects.{decode_metric_object}
use pce_testing.Pcep.Requests.{
  serialize_keepalive_message, serialize_pcerr_message, new_pcerr_message, new_pcupd_message,
  serialize_pcupd_message,
}

-- An SRP object, the LSP object that follows it, an object that is skipped, and an LSP object of a report
-- of its own.
abbrev frames : List ObjectFrame
frames =
    record { class = 0x21; typ = 1; body = 0 ∷ 0 ∷ 0 ∷ 0 ∷ 0 ∷ 0 ∷ 0 ∷ 7 ∷ [] }
    ∷ record { class = 0x20; typ = 1; body = 0 ∷ 0 ∷ 16 ∷ 0x19 ∷ [] }
    ∷ record { class = 0x0d; typ = 1; body = 0 ∷ 0 ∷ 1 ∷ 1 ∷ [] }
    ∷ record { class = 0x20; typ = 1; body = 0 ∷ 0 ∷ 32 ∷ 0x19 ∷ [] }
    ∷ []

frames_fit : All IsFrame frames
frames_fit = (
  record { small_type = omega arith; small_length = omega arith },
  (
    record { small_type = omega arith; small_length = omega arith },
    (
      record { small_type = omega arith; small_length = omega arith },
      (record { small_type = omega arith; small_length = omega arith }, tt),
    ),
  ),
)

abbrev plsp_ids : List StateReport → List ℕ
plsp_ids [] = []
plsp_ids (r ∷ rs) = r.lsp_object.plsp_id ∷ plsp_ids rs

two_reports :
    (decode_pcrpt_message 4 (all_frame_bytes frames) >>= λ rs. ok (plsp_ids rs)) ≡ ok (1 ∷ 2 ∷ [])
unfolding decode_pcrpt_message all_frame_bytes
two_reports = refl

-- The value of a METRIC object of four bytes is read from the object behind it.
short_metric :
    (decode_metric_object 1 (0 ∷ 0 ∷ 0 ∷ 2 ∷ []) (0x20 ∷ 16 ∷ 0 ∷ 8 ∷ []) >>= λ o.
    ok o.metric_value)
    ≡ ok 0x20100008
unfolding decode_metric_object
short_metric = refl

short_metric_at_the_end : decode_metric_object 1 (0 ∷ 0 ∷ 0 ∷ 2 ∷ []) [] ≡ panic
unfolding decode_metric_object
short_metric_at_the_end = refl

keepalive : serialize_keepalive_message ≡ 32 ∷ 2 ∷ 0 ∷ 4 ∷ []
unfolding serialize_keepalive_message
keepalive = refl

error_of_a_session :
    serialize_pcerr_message (new_pcerr_message 1 1 [])
    ≡ 32 ∷ 6 ∷ 0 ∷ 12 ∷ 13 ∷ 16 ∷ 0 ∷ 8 ∷ 0 ∷ 0 ∷ 1 ∷ 1 ∷ []
unfolding serialize_pcerr_message new_pcerr_message len_all serialize_all
error_of_a_session = refl

update_of_one_label :
    (new_pcupd_message 9 (97 ∷ []) 3 (srmpls (new_segment_srmpls 16002) ∷ []) >>= λ m.
    serialize_pcupd_message m)
    ≡ ok (
        32 ∷ 11 ∷ 0 ∷ 52 ∷ 33 ∷ 16 ∷ 0 ∷ 20 ∷ 0 ∷ 0 ∷ 0 ∷ 0 ∷ 0 ∷ 0 ∷ 0 ∷ 9 ∷ 0 ∷ 28 ∷ 0 ∷ 4 ∷ 0 ∷ 0
        ∷ 0 ∷ 1 ∷ 32 ∷ 16 ∷ 0 ∷ 16 ∷ 0 ∷ 0 ∷ 48 ∷ 0x99 ∷ 0 ∷ 17 ∷ 0 ∷ 1 ∷ 97 ∷ 0 ∷ 0 ∷ 0 ∷ 7 ∷ 16
        ∷ 0 ∷ 12 ∷ 36 ∷ 8 ∷ 0 ∷ 9 ∷ 3 ∷ 232 ∷ 32 ∷ 0 ∷ [])
unfolding new_pcupd_message serialize_pcupd_message new_segment_srmpls len_all serialize_all
update_of_one_label = refl

decode_pcrpt_message_framed_example : decode_pcrpt_message 4 (all_frame_bytes frames) ≡ (
    take_frames frames (record { previous = 0; current = none; state_reports = [] }) >>= λ d.
    ok (add_current d))
decode_pcrpt_message_framed_example = decode_pcrpt_message_framed 4 frames frames_fit (omega arith)

pcerr_unregistered : is_registered 0x0d ≡ false
unfolding is_registered
pcerr_unregistered = refl

decode_pcrpt_message_never_ends_example :
    decode_pcrpt_message 1000 (0x0d ∷ 16 ∷ 0 ∷ 0 ∷ 1 ∷ 2 ∷ []) ≡ stuck
decode_pcrpt_message_never_ends_example =
    decode_pcrpt_message_never_ends 1000 0x0d 16 (1 ∷ 2 ∷ []) pcerr_unregistered
