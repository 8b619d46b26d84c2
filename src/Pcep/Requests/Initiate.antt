-- ===== src/Pcep/Requests/Initiate.antt =====
-- The length of a PCInitiate message of pkg/packet/pcep/message.go.
use pce_testing.Base.{
  ℕ, ◌+◌, ◌≤◌, ◌≡◌, refl, true, false, List, [], ◌∷◌, ◌++◌, Option, none, some, arith, Bool, ok,
  ◌>>=◌, >>=-eq-ok, ok_inj, map_err, length, length-append, All,
}
use pce_testing.Base.Bytes.{u16}
use pce_testing.Net.{Addr}
use pce_testing.Table.Segment.{Segment}
use pce_testing.Pcep.Requests.{
  message_header, PcInitiateMessage, optional, serialize_pcinitiate_message, new_pcinitiate_message,
  policy_objects,
}
use pce_testing.Pcep.Wire.{append_byte_slices}
use pce_testing.Pcep.Tlv.RoundTrip.WellFormed.{max_value, IsEndpoint}
use pce_testing.Pcep.PcErr.{len_srp_object, serialize_srp_object}
use pce_testing.Pcep.Objects.Write.{
  ero_failed, new_srp_object, len_lsp_object, serialize_lsp_object, len_ero_object,
  serialize_ero_object, new_ero_object,
}
use pce_testing.Pcep.Report.{
  AssociationObject, VendorInformationObject, PccType, cisco_legacy, juniper_legacy, rfc_compliant,
  undefined_pcc,
}
use pce_testing.Pcep.Objects.Policy.{
  OptParams, len_endpoints_object, serialize_endpoints_object, new_endpoints_object,
  len_association_object, serialize_association_object, new_association_object,
  len_vendor_information_object, serialize_vendor_information_object, new_vendor_information_object,
}
use pce_testing.Pcep.Requests.Lengths.{
  Writes, IsSendable, ero_object-IsWrittenEro, srp_object_length, lsp_object_length, IsFramed,
  header_of,
}
use pce_testing.Pcep.Requests.Policy.{
  endpoints_object-WritesEndpoints, association_object-Writes, vendor_object-Writes,
}
use mathlib.Core.Path.{subst}

-- The objects of a message, each of which may be nil.
record AreWritten (m : PcInitiateMessage) : Type 0 where
  srp : len_srp_object m.srp_object ≡ length (serialize_srp_object m.srp_object)
  lsp : u16 (len_lsp_object m.lsp_object) ≡ u16 (length (serialize_lsp_object m.lsp_object))
  endpoints :
      Writes
        (optional 0 len_endpoints_object m.endpoints_object)
        (optional [] serialize_endpoints_object m.endpoints_object)
  ero :
      Writes
        (optional 0 (λ o. map_err ero_failed (len_ero_object o)) m.ero_object)
        (optional [] (λ o. map_err ero_failed (serialize_ero_object o)) m.ero_object)
  association :
      Writes
        (optional 0 len_association_object m.association_object)
        (optional [] serialize_association_object m.association_object)
  vendor :
      Writes
        (optional 0 (λ o. ok (len_vendor_information_object o)) m.vendor_information_object)
        (optional [] (λ o. ok (serialize_vendor_information_object o)) m.vendor_information_object)

message-IsFramed :
    (m : PcInitiateMessage) → AreWritten m → IsFramed 12 (serialize_pcinitiate_message m)
unfolding serialize_pcinitiate_message
message-IsFramed m h =
    let (be, ne, we, le, se) = h.endpoints in
    let (br, nr, wr, lr, sr) = h.ero in
    let (ba, na, wa, la, sa) = h.association in
    let (bv, nv, wv, lv, sv) = h.vendor in
    let es = h.srp in
    let el = h.lsp in
    let a = serialize_srp_object m.srp_object in
    let c = serialize_lsp_object m.lsp_object in
    let rest = append_byte_slices (a ∷ c ∷ be ∷ br ∷ ba ∷ bv ∷ []) in
    let k = 4 + len_srp_object m.srp_object + len_lsp_object m.lsp_object + ne + nr + na + nv in
    (
      message_header 12 (u16 k) ++ rest,
      rw (we, le, wr, lr, wa, la, wv, lv) refl,
      header_of 12 k rest (
          omega (
            arith,
            length-append a (c ++ (be ++ (br ++ (ba ++ (bv ++ []))))),
            length-append c (be ++ (br ++ (ba ++ (bv ++ [])))),
            length-append be (br ++ (ba ++ (bv ++ []))),
            length-append br (ba ++ (bv ++ [])),
            length-append ba (bv ++ []),
            length-append bv [],
          )),
    )

nothing : Writes (ok 0) (ok [])
nothing = ([], 0, refl, refl, refl)

-- The two objects of a policy are written, if they are there.
abbrev AreWrittenPolicy : Option AssociationObject → Option VendorInformationObject → Type 0
AreWrittenPolicy a v =
    Writes (optional 0 len_association_object a) (optional [] serialize_association_object a)
    × Writes (optional 0 (λ o. ok (len_vendor_information_object o)) v)
        (optional [] (λ o. ok (serialize_vendor_information_object o)) v)

abbrev options : PccType → ℕ → OptParams
options kind asn = record { pcc_type = kind; originator_asn = asn }

policy_objects-AreWrittenPolicy :
    (src dst : Addr) (c p asn : ℕ) (kind : PccType) (a : Option AssociationObject)
    (v : Option VendorInformationObject)
    → IsEndpoint src
    → IsEndpoint dst
    → policy_objects src dst c p (options kind asn) ≡ ok (a, v)
    → AreWrittenPolicy a v
unfolding policy_objects
policy_objects-AreWrittenPolicy src dst c p asn juniper_legacy a v hs hd e =
    let opts = options juniper_legacy asn in
    let (x, ex, k) =
      >>=-eq-ok (new_association_object src dst c p opts) (λ x. ok (some x, none)) e in
    let w = association_object-Writes src dst c p asn juniper_legacy x hs hd ex in
    subst (λ r. AreWrittenPolicy r.0 r.1) {x = (some x, none)} (ok_inj k) (w, nothing)
policy_objects-AreWrittenPolicy src dst c p asn cisco_legacy a v hs hd e =
    let (y, ey, k) =
      >>=-eq-ok (new_vendor_information_object cisco_legacy c p) (λ y. ok (none, some y)) e in
    subst (λ r. AreWrittenPolicy r.0 r.1) {x = (none, some y)} (ok_inj k)
      (nothing, vendor_object-Writes cisco_legacy c p y ey)
policy_objects-AreWrittenPolicy src dst c p asn rfc_compliant a v hs hd e =
    let opts = options rfc_compliant asn in
    let (x, ex, k) =
      >>=-eq-ok (new_association_object src dst c p opts)
        (λ x. new_vendor_information_object cisco_legacy c p >>= λ y. ok (some x, some y)) e in
    let (y, ey, last) =
      >>=-eq-ok (new_vendor_information_object cisco_legacy c p) (λ y. ok (some x, some y)) k in
    let w = association_object-Writes src dst c p asn rfc_compliant x hs hd ex in
    subst (λ r. AreWrittenPolicy r.0 r.1) {x = (some x, some y)} (ok_inj last)
      (w, vendor_object-Writes cisco_legacy c p y ey)
policy_objects-AreWrittenPolicy src dst c p asn undefined_pcc a v hs hd e = absurd (cc)

-- The message that `NewPCInitiateMessage` makes is written by `Serialize` without an error, and its
-- common header is read back with the number of its bytes, modulo 2^16, as its length, whether it
-- makes or removes a path and whatever the kind of the PCC, where the name fits a TLV, the addresses
-- have the bytes of their family, those of the path no zone, and an SRv6 segment has a local address.
pub new_pcinitiate_message-IsFramed :
    (srp_id : ℕ) (name : List ℕ) (lsp_delete : Bool) (plsp_id : ℕ) (segs : List Segment)
    (c preference : ℕ) (src dst : Addr) (opts : OptParams) (m : PcInitiateMessage)
    → length name ≤ max_value
    → All IsSendable segs
    → IsEndpoint src
    → IsEndpoint dst
    → new_pcinitiate_message srp_id name lsp_delete plsp_id segs c preference src dst opts ≡ ok m
    → IsFramed 12 (serialize_pcinitiate_message m)
unfolding new_pcinitiate_message
new_pcinitiate_message-IsFramed srp_id name true plsp_id segs c p src dst opts m small h hs hd e =
    let (srp, es, k) = >>=-eq-ok (new_srp_object segs srp_id true) _ e in
    subst (λ x. IsFramed 12 (serialize_pcinitiate_message x)) (ok_inj k)
      (message-IsFramed _ (record {
        srp = srp_object_length segs srp_id true srp es;
        lsp = lsp_object_length name (some c) plsp_id small;
        endpoints = nothing;
        ero = nothing;
        association = nothing;
        vendor = nothing;
      }))
new_pcinitiate_message-IsFramed srp_id name false plsp_id segs c p src dst opts m small h hs hd e =
    let (srp, es, k) = >>=-eq-ok (new_srp_object segs srp_id false) _ e in
    let (points, ep, l) = >>=-eq-ok (new_endpoints_object dst src) _ k in
    let (ero, ee, n) = >>=-eq-ok (new_ero_object segs) _ l in
    let (policy, eo, last) = >>=-eq-ok (policy_objects src dst c p opts) _ n in
    let (wa, wv) =
      policy_objects-AreWrittenPolicy src dst c p opts.originator_asn opts.pcc_type policy.0
        policy.1 hs hd eo in
    subst (λ x. IsFramed 12 (serialize_pcinitiate_message x)) (ok_inj last)
      (message-IsFramed _ (record {
        srp = srp_object_length segs srp_id false srp es;
        lsp = lsp_object_length name (some c) 0 small;
        endpoints = endpoints_object-WritesEndpoints dst src points hd hs ep;
        ero = ero_object-IsWrittenEro segs ero h ee;
        association = wa;
        vendor = wv;
      }))
