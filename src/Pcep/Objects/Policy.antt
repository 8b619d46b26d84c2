-- ===== src/Pcep/Objects/Policy.antt =====
-- The END-POINTS, ASSOCIATION and VENDOR-INFORMATION objects that tell a PCC the policy of a path,
-- pkg/packet/pcep/object.go, and what a PCC's capabilities say of its kind.
use pce_testing.Base.{
  ℕ, ◌+◌, ◌==◌, Bool, true, false, not, ◌&&◌, List, [], ◌∷◌, Result, ok, err, ◌>>=◌, if◌then◌else◌,
}
use pce_testing.Base.Bytes.{u16}
use pce_testing.Net.{Addr, v4, is4, is6, as_slice}
use pce_testing.Pcep.Wire.{append_byte_slices, uint16_to_byte_slice, uint32_to_byte_slice}
use pce_testing.Pcep.Tlv.Types.{
  Tlv, of_list, unknown, assoc_type_list, extended_association_id, extended_association_id_juniper,
  candidate_path_identifier, candidate_path_identifier_juniper, candidate_path_preference,
  candidate_path_preference_juniper,
}
use pce_testing.Pcep.Tlv.Serialize.{len_all, serialize_all}
use pce_testing.Pcep.Report.{
  AssociationObject, VendorInformationObject, PccType, cisco_legacy, juniper_legacy, rfc_compliant,
}
use pce_testing.Pcep.Objects.Write.{
  RequestError, object_header, with_flag, invalid_endpoints, invalid_association_address,
  juniper_needs_ipv4, unknown_vendor,
}

pub record EndpointsObject : Type 0 where
  pub object_type : ℕ
  pub src_addr : Addr
  pub dst_addr : Addr

unfoldable pub len_endpoints_object : EndpointsObject → Result RequestError ℕ
len_endpoints_object o =
    if is4 o.src_addr && is4 o.dst_addr
    then ok 12
    else if is6 o.src_addr && is6 o.dst_addr
    then ok 36
    else err invalid_endpoints

unfoldable pub serialize_endpoints_object : EndpointsObject → Result RequestError (List ℕ)
unfolding len_endpoints_object append_byte_slices object_header
serialize_endpoints_object o = len_endpoints_object o >>= λ n. ok (
    append_byte_slices
      (object_header 0x04 o.object_type n ∷ as_slice o.src_addr ∷ as_slice o.dst_addr ∷ []))

-- The object type of two addresses of one family.
unfoldable pub endpoint_type : Addr → Addr → Result RequestError ℕ
endpoint_type dst src =
    if is4 dst && is4 src then ok 1 else if is6 dst && is6 src then ok 2 else err invalid_endpoints

unfoldable pub new_endpoints_object : Addr → Addr → Result RequestError EndpointsObject
unfolding endpoint_type
new_endpoints_object dst src = endpoint_type dst src >>= λ typ.
    ok (record { object_type = typ; src_addr = src; dst_addr = dst })

-- The association types of one capability, of which a Juniper type ends the search of the list.
unfoldable pub pcc_type_of : PccType → List ℕ → PccType
pcc_type_of typ [] = typ
pcc_type_of typ (v ∷ vs) =
    let cisco = pcc_type_of cisco_legacy vs in
    let other = pcc_type_of typ vs in
    if v == 0x14 then cisco else if v == 0xffe1 then juniper_legacy else other

unfoldable pub pcc_type_from : PccType → List Tlv → PccType
unfolding pcc_type_of
pcc_type_from typ [] = typ
pcc_type_from typ (assoc_type_list vs ∷ caps) = pcc_type_from (pcc_type_of typ vs) caps
pcc_type_from typ (_ ∷ caps) = pcc_type_from typ caps

unfoldable pub determine_pcc_type : List Tlv → PccType
unfolding pcc_type_from
determine_pcc_type caps = pcc_type_from rfc_compliant caps

unfoldable pub len_association_object : AssociationObject → Result RequestError ℕ
len_association_object o =
    if is4 o.assoc_src
    then ok (u16 (16 + len_all (of_list o.tlvs)))
    else if is6 o.assoc_src
    then ok (u16 (28 + len_all (of_list o.tlvs)))
    else err invalid_association_address

unfoldable pub serialize_association_object : AssociationObject → Result RequestError (List ℕ)
unfolding len_association_object append_byte_slices object_header uint16_to_byte_slice
serialize_association_object o = len_association_object o >>= λ n. ok (
    append_byte_slices (
      object_header 0x28 o.object_type n
      ∷ (0 ∷ 0 ∷ 0 ∷ with_flag o.r_flag 1 0 ∷ [])
      ∷ uint16_to_byte_slice o.assoc_type
      ∷ uint16_to_byte_slice o.assoc_id
      ∷ as_slice o.assoc_src
      ∷ serialize_all (of_list o.tlvs)
      ∷ []))

pub record OptParams : Type 0 where
  pub pcc_type : PccType
  pub originator_asn : ℕ

abbrev pub is_juniper : PccType → Bool
is_juniper juniper_legacy = true
is_juniper _ = false

abbrev pub juniper_association : ℕ → Addr → ℕ → Addr → ℕ → ℕ → Result RequestError AssociationObject
juniper_association typ src c dst preference asn = ok (record {
  object_type = typ;
  r_flag = false;
  assoc_type = 0xffe1;
  assoc_id = 0;
  assoc_src = src;
  tlvs =
      extended_association_id_juniper (record { color = c; endpoint = dst })
      ∷ candidate_path_identifier_juniper (record {
        protocol_origin = 0x0a;
        originator_asn = asn;
        originator_addr = v4 (0 ∷ 0 ∷ 0 ∷ 0 ∷ []);
        discriminator = 1;
      })
      ∷ candidate_path_preference_juniper preference
      ∷ [];
})

abbrev pub standard_association :
    ℕ → Addr → ℕ → Addr → ℕ → ℕ → Result RequestError AssociationObject
standard_association typ src c dst preference asn = ok (record {
  object_type = typ;
  r_flag = false;
  assoc_type = 6;
  assoc_id = 1;
  assoc_src = src;
  tlvs =
      extended_association_id (record { color = c; endpoint = dst })
      ∷ candidate_path_identifier (record {
        protocol_origin = 0x0a;
        originator_asn = asn;
        originator_addr = dst;
        discriminator = 1;
      })
      ∷ candidate_path_preference preference
      ∷ [];
})

unfoldable pub new_association_object :
    Addr → Addr → ℕ → ℕ → OptParams → Result RequestError AssociationObject
unfolding endpoint_type
new_association_object src dst c preference opts = endpoint_type dst src >>= λ typ.
    if is_juniper opts.pcc_type
    then (if not (is4 dst)
        then err juniper_needs_ipv4
        else juniper_association typ src c dst preference opts.originator_asn)
    else standard_association typ src c dst preference opts.originator_asn

unfoldable pub len_vendor_information_object : VendorInformationObject → ℕ
len_vendor_information_object o = u16 (8 + len_all (of_list o.tlvs))

unfoldable pub serialize_vendor_information_object : VendorInformationObject → List ℕ
unfolding append_byte_slices object_header len_vendor_information_object uint32_to_byte_slice
serialize_vendor_information_object o = append_byte_slices (
    object_header 0x22 o.object_type (len_vendor_information_object o)
    ∷ uint32_to_byte_slice o.enterprise_number
    ∷ serialize_all (of_list o.tlvs)
    ∷ [])

unfoldable pub new_vendor_information_object :
    PccType → ℕ → ℕ → Result RequestError VendorInformationObject
unfolding uint32_to_byte_slice
new_vendor_information_object cisco_legacy c preference = ok (record {
  object_type = 1;
  enterprise_number = 9;
  tlvs =
      unknown (record { typ = 1; len = 4; value = uint32_to_byte_slice c })
      ∷ unknown (record { typ = 3; len = 4; value = uint32_to_byte_slice preference })
      ∷ [];
})
new_vendor_information_object _ c preference = err unknown_vendor
