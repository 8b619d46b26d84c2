-- ===== src/Pcep/Requests/Update.antt =====
-- The length of a PCUpd message of pkg/packet/pcep/message.go.
use mathlib.Core.Path.{subst}
use pce_testing.Base.{
  ℕ, ◌+◌, ◌≤◌, ◌≡◌, refl, false, List, [], ◌∷◌, ◌++◌, none, arith, ok, >>=-eq-ok, ok_inj, length,
  length-append, All,
}
use pce_testing.Base.Bytes.{u16}
use pce_testing.Table.Segment.{Segment}
use pce_testing.Pcep.Wire.{append_byte_slices}
use pce_testing.Pcep.Tlv.Serialize.{len}
use pce_testing.Pcep.Tlv.RoundTrip.WellFormed.{max_value}
use pce_testing.Pcep.PcErr.{len_srp_object, serialize_srp_object}
use pce_testing.Pcep.Report.{SrpObject, LspObject}
use pce_testing.Pcep.Report.Ero.{EroObject}
use pce_testing.Pcep.Objects.Write.{
  new_srp_object, new_lsp_object, len_lsp_object, serialize_lsp_object, new_ero_object,
}
use pce_testing.Pcep.Requests.{
  PcUpdMessage, message_header, new_pcupd_message, serialize_pcupd_message,
}
use pce_testing.Pcep.Requests.Lengths.{
  IsSendable, IsWrittenEro, ero_object-IsWrittenEro, srp_object_length, lsp_object_length, IsFramed,
  header_of,
}

message-IsFramed :
    (srp : SrpObject) (lsp : LspObject) (ero : EroObject)
    → len_srp_object srp ≡ length (serialize_srp_object srp)
    → u16 (len_lsp_object lsp) ≡ u16 (length (serialize_lsp_object lsp))
    → IsWrittenEro ero
    → IsFramed 11
        (serialize_pcupd_message (record { srp_object = srp; lsp_object = lsp; ero_object = ero }))
unfolding serialize_pcupd_message
message-IsFramed srp lsp ero es el (b, n, w, len, same) =
    let a = serialize_srp_object srp in
    let c = serialize_lsp_object lsp in
    let rest = append_byte_slices (a ∷ c ∷ b ∷ []) in
    let k = 4 + len_srp_object srp + len_lsp_object lsp + n in
    (
      message_header 11 (u16 k) ++ rest,
      rw (w, len) refl,
      header_of 11 k rest (
          omega (
            arith,
            length-append a (c ++ (b ++ [])),
            length-append c (b ++ []),
            length-append b [],
          )),
    )

-- The message that `NewPCUpdMessage` makes of a name and segments is written by `Serialize` without an
-- error, and its common header is read back with the number of its bytes, modulo 2^16, as its length,
-- where the name fits a TLV, the addresses of a segment have the bytes of their family and an SRv6
-- segment has a local address.
pub new_pcupd_message-IsFramed :
    (srp_id : ℕ) (name : List ℕ) (plsp_id : ℕ) (segs : List Segment) (m : PcUpdMessage)
    → length name ≤ max_value
    → All IsSendable segs
    → new_pcupd_message srp_id name plsp_id segs ≡ ok m
    → IsFramed 11 (serialize_pcupd_message m)
unfolding new_pcupd_message
new_pcupd_message-IsFramed srp_id name plsp_id segs m small h e =
    let (srp, es, k) = >>=-eq-ok (new_srp_object segs srp_id false) _ e in
    let (ero, ee, last) = >>=-eq-ok (new_ero_object segs) _ k in
    subst (λ x. IsFramed 11 (serialize_pcupd_message x)) (ok_inj last)
      (message-IsFramed srp (new_lsp_object name none plsp_id) ero
        (srp_object_length segs srp_id false srp es) (lsp_object_length name none plsp_id small)
        (ero_object-IsWrittenEro segs ero h ee))
