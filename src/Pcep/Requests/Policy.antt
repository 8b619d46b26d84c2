-- ===== src/Pcep/Requests/Policy.antt =====
-- The lengths of the END-POINTS, ASSOCIATION and VENDOR-INFORMATION objects of a PCInitiate message,
-- pkg/packet/pcep/object.go.
use mathlib.Core.Path.{subst}
use pce_testing.Base.{
  if◌then◌else◌, err, not, false, ℕ, ◌+◌, ◌≡◌, refl, List, [], ◌∷◌, ◌++◌, arith, Bool, ok,
  >>=-eq-ok, ok_inj, length, length-append,
}
use pce_testing.Base.Bytes.{u16, put16, put32}
use pce_testing.Net.{Addr, is4, invalid, v4, v6, as_slice}
use pce_testing.Pcep.Wire.{uint32_to_byte_slice, append_byte_slices, uint16_to_byte_slice}
use pce_testing.Pcep.Tlv.Types.{
  unknown, CandidatePathIdentifier, Tlv, nil, cons, of_list, extended_association_id,
  extended_association_id_juniper, candidate_path_identifier, candidate_path_identifier_juniper,
  candidate_path_preference, candidate_path_preference_juniper,
}
use pce_testing.Pcep.Tlv.Serialize.{len_all, serialize_all, len, serialize}
use pce_testing.Pcep.Tlv.Write.{serialize_extended_association_id}
use pce_testing.Pcep.Header.{serialize_common_object_header}
use pce_testing.Pcep.Objects.Write.{object_header, with_flag, juniper_needs_ipv4}
use pce_testing.Pcep.Tlv.RoundTrip.WellFormed.{IsEndpoint, IsV4}
use pce_testing.Pcep.Tlv.Lengths.{association_length, juniper_length, candidate_length}
use pce_testing.Pcep.Report.{
  AssociationObject, VendorInformationObject, PccType, cisco_legacy, juniper_legacy, rfc_compliant,
  undefined_pcc,
}
use pce_testing.Pcep.Objects.Policy.{
  EndpointsObject, len_endpoints_object, serialize_endpoints_object, endpoint_type,
  new_endpoints_object, len_association_object, serialize_association_object,
  new_association_object, is_juniper, juniper_association, standard_association,
  len_vendor_information_object, serialize_vendor_information_object, new_vendor_information_object,
}
use pce_testing.Pcep.Requests.Lengths.{
  Writes, AreCounted, AreCounted-nil, AreCounted-cons, length-object_header,
}

-- Two addresses of one family.
data AreAlike : Addr → Addr → ℕ → Type 0 where
  both4 : (b c : List ℕ) → length b ≡ 4 → length c ≡ 4 → AreAlike (v4 b) (v4 c) 1
  both6 : (b c y z : List ℕ) → length b ≡ 16 → length c ≡ 16 → AreAlike (v6 b y) (v6 c z) 2

endpoint_type-AreAlike :
    (dst src : Addr) (t : ℕ)
    → IsEndpoint dst
    → IsEndpoint src
    → endpoint_type dst src ≡ ok t
    → AreAlike dst src t
unfolding endpoint_type
endpoint_type-AreAlike invalid src t hd hs e = absurd hd
endpoint_type-AreAlike (v4 b) invalid t hd hs e = absurd hs
endpoint_type-AreAlike (v6 b z) invalid t hd hs e = absurd hs
endpoint_type-AreAlike (v4 b) (v4 c) t hd hs e =
    subst (AreAlike (v4 b) (v4 c)) (ok_inj e) (both4 b c hd hs)
endpoint_type-AreAlike (v4 b) (v6 c z) t hd hs e = absurd (cc)
endpoint_type-AreAlike (v6 b y) (v4 c) t hd hs e = absurd (cc)
endpoint_type-AreAlike (v6 b y) (v6 c z) t hd hs e =
    subst (AreAlike (v6 b y) (v6 c z)) (ok_inj e) (both6 b c y z hd.0 hs.0)

length-endpoints :
    (typ n : ℕ) (c b : List ℕ)
    → length (object_header 0x04 typ n ++ (c ++ (b ++ []))) ≡ 4 + length c + length b
length-endpoints typ n c b = omega (
  arith,
  length-append (object_header 0x04 typ n) (c ++ (b ++ [])),
  length-object_header 0x04 typ n,
  length-append c (b ++ []),
  length-append b [],
)

endpoints-Writes :
    (dst src : Addr) (t : ℕ)
    → AreAlike dst src t
    → let o : EndpointsObject = record { object_type = t; src_addr = src; dst_addr = dst } in
      Writes (len_endpoints_object o) (serialize_endpoints_object o)
unfolding len_endpoints_object serialize_endpoints_object append_byte_slices
endpoints-Writes _ _ _ (both4 b c hb hc) = (
  object_header 0x04 1 12 ++ (c ++ (b ++ [])),
  12,
  refl,
  refl,
  omega (arith, length-endpoints 1 12 c b),
)
endpoints-Writes _ _ _ (both6 b c y z hb hc) = (
  object_header 0x04 2 36 ++ (c ++ (b ++ [])),
  36,
  refl,
  refl,
  omega (arith, length-endpoints 2 36 c b),
)

abbrev pub WritesEndpoints : EndpointsObject → Type 0
WritesEndpoints o = Writes (len_endpoints_object o) (serialize_endpoints_object o)

pub endpoints_object-WritesEndpoints :
    (dst src : Addr) (o : EndpointsObject)
    → IsEndpoint dst
    → IsEndpoint src
    → new_endpoints_object dst src ≡ ok o
    → WritesEndpoints o
unfolding new_endpoints_object
endpoints_object-WritesEndpoints dst src o hd hs e =
    let (t, et, k) = >>=-eq-ok (endpoint_type dst src) _ e in
    subst WritesEndpoints (ok_inj k)
      (endpoints-Writes dst src t (endpoint_type-AreAlike dst src t hd hs et))

-- The object, with the length that is given.
abbrev association_bytes : AssociationObject → ℕ → List ℕ
association_bytes o n =
    object_header 0x28 o.object_type n
    ++ ((0 ∷ 0 ∷ 0 ∷ with_flag o.r_flag 1 0 ∷ [])
        ++ (uint16_to_byte_slice o.assoc_type
            ++ (uint16_to_byte_slice o.assoc_id
                ++ (as_slice o.assoc_src ++ (serialize_all (of_list o.tlvs) ++ [])))))

length-association_bytes :
    (o : AssociationObject) (n : ℕ)
    → length (association_bytes o n)
      ≡ 12 + length (as_slice o.assoc_src) + length (serialize_all (of_list o.tlvs))
unfolding object_header serialize_common_object_header uint16_to_byte_slice put16
length-association_bytes o n = omega (
  arith,
  length-append (as_slice o.assoc_src) (serialize_all (of_list o.tlvs) ++ []),
  length-append (serialize_all (of_list o.tlvs)) [],
)

-- An ASSOCIATION object of the fields.
abbrev association_of : ℕ → Bool → ℕ → ℕ → Addr → List Tlv → AssociationObject
association_of typ r t id src tlvs = record {
  object_type = typ;
  r_flag = r;
  assoc_type = t;
  assoc_id = id;
  assoc_src = src;
  tlvs = tlvs;
}

abbrev pub WritesAssociation : AssociationObject → Type 0
WritesAssociation o = Writes (len_association_object o) (serialize_association_object o)

association-Writes :
    (typ : ℕ) (r : Bool) (t id : ℕ) (src : Addr) (tlvs : List Tlv)
    → IsEndpoint src
    → AreCounted (of_list tlvs)
    → WritesAssociation (association_of typ r t id src tlvs)
unfolding len_association_object serialize_association_object append_byte_slices
association-Writes typ r t id invalid tlvs h e = absurd h
association-Writes typ r t id (v4 b) tlvs h e =
    let o = association_of typ r t id (v4 b) tlvs in
    let n = u16 (16 + len_all (of_list tlvs)) in
    (association_bytes o n, n, refl, refl, omega (arith, e, length-association_bytes o n))
association-Writes typ r t id (v6 b z) tlvs h e =
    let o = association_of typ r t id (v6 b z) tlvs in
    let n = u16 (28 + len_all (of_list tlvs)) in
    let long = h.0 in
    (association_bytes o n, n, refl, refl, omega (arith, e, length-association_bytes o n))

abbrev pub WritesVendor : VendorInformationObject → Type 0
WritesVendor o =
    Writes (ok (len_vendor_information_object o)) (ok (serialize_vendor_information_object o))

vendor-Writes : (o : VendorInformationObject) → AreCounted (of_list o.tlvs) → WritesVendor o
unfolding len_vendor_information_object serialize_vendor_information_object append_byte_slices put32
    object_header serialize_common_object_header uint16_to_byte_slice put16
vendor-Writes o e = (
  serialize_vendor_information_object o,
  len_vendor_information_object o,
  refl,
  refl,
  omega (arith, e, length-append (serialize_all (of_list o.tlvs)) []),
)

standard-AreCounted :
    (c : ℕ) (dst : Addr) (i : CandidatePathIdentifier) (p : ℕ)
    → IsEndpoint dst
    → AreCounted (
        of_list (
          extended_association_id (record { color = c; endpoint = dst })
          ∷ candidate_path_identifier i
          ∷ candidate_path_preference p
          ∷ []))
standard-AreCounted c dst i p h =
    AreCounted-cons _ _
      (unfold len in
        unfold serialize in
        unfold serialize_extended_association_id in association_length c 0x1f dst h)
      (AreCounted-cons _ _ (unfold len in unfold serialize in candidate_length i 0x39)
        (AreCounted-cons _ _ (unfold len in unfold serialize in refl) AreCounted-nil))

juniper-AreCounted :
    (c : ℕ) (dst : Addr) (i : CandidatePathIdentifier) (p : ℕ)
    → IsV4 dst
    → AreCounted (
        of_list (
          extended_association_id_juniper (record { color = c; endpoint = dst })
          ∷ candidate_path_identifier_juniper i
          ∷ candidate_path_preference_juniper p
          ∷ []))
juniper-AreCounted c dst i p h =
    AreCounted-cons _ _ (unfold len in unfold serialize in juniper_length c dst h) (
      AreCounted-cons _ _ (unfold len in unfold serialize in candidate_length i 0xffe4)
        (AreCounted-cons _ _ (unfold len in unfold serialize in refl) AreCounted-nil))

pub association_object-Writes :
    (src dst : Addr) (c p asn : ℕ) (kind : PccType) (o : AssociationObject)
    → IsEndpoint src
    → IsEndpoint dst
    → new_association_object src dst c p (record { pcc_type = kind; originator_asn = asn }) ≡ ok o
    → WritesAssociation o
unfolding new_association_object
association_object-Writes src dst c p asn kind o hs hd e =
    let (t, et, k) = >>=-eq-ok (endpoint_type dst src) _ e in by_kind t kind dst hd k
  where
    by_kind :
        (t : ℕ) (kind : PccType) (dst : Addr)
        → IsEndpoint dst
        → (if is_juniper kind
            then (if not (is4 dst)
                then err juniper_needs_ipv4
                else juniper_association t src c dst p asn)
            else standard_association t src c dst p asn)
          ≡ ok o
        → WritesAssociation o
    by_kind t cisco_legacy dst h k =
        subst WritesAssociation (ok_inj k)
          (association-Writes t false 6 1 src _ hs (standard-AreCounted c dst _ p h))
    by_kind t rfc_compliant dst h k =
        subst WritesAssociation (ok_inj k)
          (association-Writes t false 6 1 src _ hs (standard-AreCounted c dst _ p h))
    by_kind t undefined_pcc dst h k =
        subst WritesAssociation (ok_inj k)
          (association-Writes t false 6 1 src _ hs (standard-AreCounted c dst _ p h))
    by_kind t juniper_legacy invalid h k = absurd h
    by_kind t juniper_legacy (v4 b) h k =
        subst WritesAssociation (ok_inj k)
          (association-Writes t false 0xffe1 0 src _ hs (juniper-AreCounted c (v4 b) _ p h))
    by_kind t juniper_legacy (v6 b z) h k = absurd (cc)

abbrev four_byte_tlv : ℕ → ℕ → Tlv
unfolding uint32_to_byte_slice
four_byte_tlv typ n = unknown (record { typ = typ; len = 4; value = uint32_to_byte_slice n })

four_byte-AreCounted : (c p : ℕ) → AreCounted (of_list (four_byte_tlv 1 c ∷ four_byte_tlv 3 p ∷ []))
unfolding len serialize four_byte_tlv uint32_to_byte_slice
four_byte-AreCounted c p =
    AreCounted-cons (four_byte_tlv 1 c) (cons (four_byte_tlv 3 p) nil) refl
      (AreCounted-cons (four_byte_tlv 3 p) nil refl AreCounted-nil)

pub vendor_object-Writes :
    (kind : PccType) (c p : ℕ) (o : VendorInformationObject)
    → new_vendor_information_object kind c p ≡ ok o
    → WritesVendor o
unfolding new_vendor_information_object four_byte_tlv
vendor_object-Writes cisco_legacy c p o e =
    subst WritesVendor (ok_inj e) (vendor-Writes _ (four_byte-AreCounted c p))
vendor_object-Writes juniper_legacy c p o e = absurd (cc)
vendor_object-Writes rfc_compliant c p o e = absurd (cc)
vendor_object-Writes undefined_pcc c p o e = absurd (cc)
