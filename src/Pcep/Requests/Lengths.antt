-- ===== src/Pcep/Requests/Lengths.antt =====
-- The lengths of the parts that the messages of the PCE are made of, pkg/packet/pcep/object.go and
-- message.go.
use mathlib.Core.Path.{subst}
use pce_testing.Base.{
  ℕ, ◌+◌, ◌≤◌, ◌≡◌, refl, sym, ap, ◌∙◌, List, [], ◌∷◌, ◌++◌, Option, none, some, arith, Bool,
  Result, ok, >>=-eq-ok, ok_inj, map_err, length, length-append, All,
}
use pce_testing.Base.Bytes.{u16, put16, put32}
use pce_testing.Table.Segment.{Segment, srv6, srmpls, foreign, absent}
use pce_testing.Pcep.Wire.{append_byte_slices, uint16_to_byte_slice}
use pce_testing.Pcep.Tlv.Types.{Tlv, Tlvs, nil, cons, of_list, symbolic_path_name}
use pce_testing.Pcep.Tlv.Serialize.{len_all, serialize_all, len, serialize}
use pce_testing.Pcep.Tlv.RoundTrip.WellFormed.{max_value}
use pce_testing.Pcep.Tlv.Lengths.{name_length}
use pce_testing.Pcep.Header.{
  decode_common_header, new_common_header, serialize_common_header, serialize_common_object_header,
}
use pce_testing.Pcep.Header.RoundTrip.{decode-serialize_common_header}
use pce_testing.Pcep.PcErr.{len_srp_object, serialize_srp_object}
use pce_testing.Pcep.Report.{SrpObject, LspObject}
use pce_testing.Pcep.Report.Ero.{EroObject, EroSubobject, srv6_ero}
use pce_testing.Pcep.Report.Ero.Decode.{EroError}
use pce_testing.Pcep.Report.Ero.Lengths.{IsAddr, new_sr_ero_subobject-IsWritten}
use pce_testing.Pcep.Report.Ero.LengthsSrv6.{IsLocated, new_srv6_ero_subobject-IsWrittenSrv6}
use pce_testing.Pcep.Report.Ero.Write.{new_sr_ero_subobject}
use pce_testing.Pcep.Report.Ero.WriteSrv6.{new_srv6_ero_subobject}
use pce_testing.Pcep.Objects.Write.{
  RequestError, ero_failed, object_header, new_srp_object, new_lsp_object, color_tlvs,
  len_lsp_object, serialize_lsp_object, len_subobject, serialize_subobject, len_subobjects,
  serialize_subobjects, len_ero_object, serialize_ero_object, new_ero_subobject, ero_subobjects_of,
  new_ero_object,
}
use pce_testing.Pcep.Requests.{message_header}

-- A segment whose addresses have the bytes of their family, with a local address if it is SRv6.
abbrev pub IsSendable : Segment → Type 0
IsSendable (srmpls s) = IsAddr s.local_addr × IsAddr s.remote_addr
IsSendable (srv6 s) = IsLocated s
IsSendable (foreign t) = ⊥
IsSendable absent = ⊥

-- What is written, and what gives its length modulo 2^16.
abbrev pub Writes : Result RequestError ℕ → Result RequestError (List ℕ) → Type 0
Writes len bytes = (b : List ℕ) × (n : ℕ) × (bytes ≡ ok b) × (len ≡ ok n) × (u16 n ≡ u16 (length b))

map_err-eq-ok :
    {A : Type 0} (x : Result EroError A) {a : A} → map_err ero_failed x ≡ ok a → x ≡ ok a
map_err-eq-ok (ok x) e = ap ok (ok_inj e)
map_err-eq-ok (Result.err x) e = absurd (cc)
map_err-eq-ok Result.panic e = absurd (cc)
map_err-eq-ok Result.stuck e = absurd (cc)

abbrev IsWrittenSubobject : EroSubobject → Type 0
IsWrittenSubobject o =
    (b : List ℕ) × (serialize_subobject o ≡ ok b) × (len_subobject o ≡ ok (length b))

subobject-IsWritten :
    (s : Segment) (o : EroSubobject)
    → IsSendable s
    → new_ero_subobject s ≡ ok o
    → IsWrittenSubobject o
unfolding new_ero_subobject serialize_subobject len_subobject
subobject-IsWritten (srmpls s) o (l, r) e =
    let (x, ex, k) = >>=-eq-ok (map_err ero_failed (new_sr_ero_subobject s)) _ e in
    let (b, w, n, _) = new_sr_ero_subobject-IsWritten s x l r (map_err-eq-ok _ ex) in
    subst IsWrittenSubobject (ok_inj k) (b, w, n)
subobject-IsWritten (srv6 s) o h e =
    let (x, ex, k) = >>=-eq-ok (map_err ero_failed (new_srv6_ero_subobject s)) _ e in
    let (y, made, (b, w, n, _)) = new_srv6_ero_subobject-IsWrittenSrv6 s h in
    let same = ok_inj (sym made ∙ map_err-eq-ok _ ex) in
    subst IsWrittenSubobject (ap srv6_ero same ∙ ok_inj k) (b, w, n)
subobject-IsWritten (foreign t) o h e = absurd h
subobject-IsWritten absent o h e = absurd h

-- The subobjects are written, and their lengths are added up modulo 2^16.
abbrev AreWritten : List EroSubobject → Type 0
AreWritten os =
    (b : List ℕ) × (serialize_subobjects os ≡ ok b)
    × ((total : ℕ) → (n : ℕ) × (len_subobjects total os ≡ ok n) × (u16 n ≡ u16 (total + length b)))

AreWritten-cons :
    (o : EroSubobject) (os : List EroSubobject)
    → IsWrittenSubobject o
    → AreWritten os
    → AreWritten (o ∷ os)
unfolding serialize_subobjects len_subobjects
AreWritten-cons o os (b, w, l) (bs, ws, ls) = (
  b ++ bs,
  rw (w, ws) refl,
  λ total.
      let (n, len, same) = ls (u16 (total + length b)) in
      (n, rw l len, omega (arith, length-append b bs)),
)

subobjects-AreWritten :
    (segs : List Segment) (os : List EroSubobject)
    → All IsSendable segs
    → ero_subobjects_of segs ≡ ok os
    → AreWritten os
unfolding ero_subobjects_of
subobjects-AreWritten [] os h e = subst AreWritten (ok_inj e) (
    unfold serialize_subobjects in
    unfold len_subobjects in ([], refl, λ total. (total, refl, omega arith)))
subobjects-AreWritten (s ∷ ss) os (h, hs) e =
    let (o, eo, k) = >>=-eq-ok (new_ero_subobject s) _ e in
    let (rest, er, last) = >>=-eq-ok (ero_subobjects_of ss) _ k in
    subst AreWritten (ok_inj last)
      (AreWritten-cons o rest (subobject-IsWritten s o h eo) (subobjects-AreWritten ss rest hs er))

abbrev pub IsWrittenEro : EroObject → Type 0
IsWrittenEro o =
    Writes (map_err ero_failed (len_ero_object o)) (map_err ero_failed (serialize_ero_object o))

pub length-object_header : (class typ n : ℕ) → length (object_header class typ n) ≡ 4
unfolding object_header serialize_common_object_header uint16_to_byte_slice put16
length-object_header class typ n = refl

pub ero_object-IsWrittenEro :
    (segs : List Segment) (o : EroObject)
    → All IsSendable segs
    → new_ero_object segs ≡ ok o
    → IsWrittenEro o
unfolding new_ero_object serialize_ero_object len_ero_object
ero_object-IsWrittenEro segs o h e =
    let (os, eo, k) = >>=-eq-ok (ero_subobjects_of segs) _ e in
    let (b, w, l) = subobjects-AreWritten segs os h eo in
    let (n, len, same) = l 0 in
    let header = object_header 0x07 1 (u16 (4 + n)) in
    subst IsWrittenEro (ok_inj k) (
      header ++ b,
      u16 (4 + n),
      rw (len, w) refl,
      rw len refl,
      omega (arith, length-append header b, length-object_header 0x07 1 (u16 (4 + n))),
    )

pub srp_object_length :
    (segs : List Segment) (id : ℕ) (remove : Bool) (o : SrpObject)
    → new_srp_object segs id remove ≡ ok o
    → len_srp_object o ≡ length (serialize_srp_object o)
unfolding new_srp_object len_srp_object serialize_srp_object len_all serialize_all
    append_byte_slices put32 serialize_common_object_header uint16_to_byte_slice put16
srp_object_length [] id remove o e =
    subst (λ x. len_srp_object x ≡ length (serialize_srp_object x)) (ok_inj e) refl
srp_object_length (srmpls s ∷ segs) id remove o e =
    subst (λ x. len_srp_object x ≡ length (serialize_srp_object x)) (ok_inj e) refl
srp_object_length (srv6 s ∷ segs) id remove o e =
    subst (λ x. len_srp_object x ≡ length (serialize_srp_object x)) (ok_inj e) refl
srp_object_length (foreign t ∷ segs) id remove o e = absurd (cc)
srp_object_length (absent ∷ segs) id remove o e = absurd (cc)

length-serialize_lsp_object :
    (o : LspObject) → length (serialize_lsp_object o) ≡ 8 + length (serialize_all (of_list o.tlvs))
unfolding serialize_lsp_object append_byte_slices object_header put32 serialize_common_object_header
    uint16_to_byte_slice put16
length-serialize_lsp_object o = omega (arith, length-append (serialize_all (of_list o.tlvs)) [])

-- The lengths of a sequence agree modulo 2^16.
abbrev pub AreCounted : Tlvs → Type 0
AreCounted ts = u16 (len_all ts) ≡ u16 (length (serialize_all ts))

pub AreCounted-nil : AreCounted nil
unfolding len_all serialize_all
AreCounted-nil = refl

pub AreCounted-cons :
    (t : Tlv) (ts : Tlvs) → len t ≡ length (serialize t) → AreCounted ts → AreCounted (cons t ts)
unfolding len_all serialize_all
AreCounted-cons t ts e es = omega (arith, length-append (serialize t) (serialize_all ts))

name_counted :
    (name : List ℕ)
    → length name ≤ max_value
    → len (symbolic_path_name name) ≡ length (serialize (symbolic_path_name name))
unfolding len serialize
name_counted name small = name_length name small

colors-AreCounted : (c : Option ℕ) → AreCounted (of_list (color_tlvs c))
unfolding len_all serialize_all
colors-AreCounted none = refl
colors-AreCounted (some c) = refl

pub lsp_object_length :
    (name : List ℕ) (c : Option ℕ) (plsp_id : ℕ)
    → length name ≤ max_value
    → u16 (len_lsp_object (new_lsp_object name c plsp_id))
      ≡ u16 (length (serialize_lsp_object (new_lsp_object name c plsp_id)))
unfolding new_lsp_object len_lsp_object
lsp_object_length name c plsp_id small =
    let o = new_lsp_object name c plsp_id in
    let same =
      AreCounted-cons (symbolic_path_name name) (of_list (color_tlvs c)) (name_counted name small)
        (colors-AreCounted c) in
    omega (arith, same, length-serialize_lsp_object o)

-- The bytes begin with the header of a message of the type, whose length field is the number of the
-- bytes modulo 2^16.
abbrev pub IsFramed : ℕ → Result RequestError (List ℕ) → Type 0
IsFramed typ written =
    (bytes : List ℕ) × (written ≡ ok bytes)
    × (decode_common_header bytes ≡ ok (new_common_header typ (u16 (length bytes))))

length-message_header : (typ n : ℕ) → length (message_header typ n) ≡ 4
unfolding message_header serialize_common_header uint16_to_byte_slice put16
length-message_header typ n = refl

-- A header with the length of what follows it.
pub header_of :
    (typ n : ℕ) (rest : List ℕ)
    → u16 n ≡ u16 (4 + length rest)
    → decode_common_header (message_header typ (u16 n) ++ rest)
      ≡ ok (new_common_header typ (u16 (length (message_header typ (u16 n) ++ rest))))
unfolding new_common_header message_header serialize_common_header
header_of typ n rest e =
    decode-serialize_common_header (new_common_header typ (u16 n)) rest (omega arith) (omega arith)
      (omega arith)
    ∙ ap (λ k. ok (new_common_header typ k))
        (omega (
          arith,
          length-append (message_header typ (u16 n)) rest,
          length-message_header typ (u16 n),
        ))
