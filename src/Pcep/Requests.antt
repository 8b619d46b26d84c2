-- ===== src/Pcep/Requests.antt =====
-- The messages that the PCE sends and those that open and close a session, pkg/packet/pcep/message.go,
-- and the capabilities that it answers with, pkg/packet/pcep/capability.go.
pub mod Lengths
pub mod Update
pub mod Policy
pub mod Initiate
use pce_testing.Base.{
  ℕ, ◌+◌, ◌==◌, Bool, true, false, List, [], ◌∷◌, Option, none, some, Result, ok, err, ◌>>=◌, ◌>>◌,
  guard, map_err, if◌then◌else◌, map,
}
use pce_testing.Base.Bytes.{u16, slice}
use pce_testing.Net.{Addr}
use pce_testing.Table.Segment.{Segment}
use pce_testing.Pcep.Wire.{append_byte_slices}
use pce_testing.Pcep.Tlv.Types.{Tlv, stateful_pce_capability, lsp_db_version}
use pce_testing.Pcep.Header.{
  decode_common_object_header, new_common_header, serialize_common_header,
}
use pce_testing.Pcep.PcErr.{
  PcErrMessage, PcepErrorObject, len_srp_object, serialize_srp_object, len_pcep_error_object,
  serialize_pcep_error_object,
}
use pce_testing.Pcep.Report.{
  SrpObject, LspObject, AssociationObject, VendorInformationObject, cisco_legacy, juniper_legacy,
  rfc_compliant, undefined_pcc,
}
use pce_testing.Pcep.Report.Ero.{EroObject}
use pce_testing.Pcep.Objects.{
  OpenObject, CloseObject, ReportError, object_error, unsupported_object_class,
  unsupported_object_type, decode_open_object, decode_close_object,
}
use pce_testing.Pcep.Objects.Write.{
  RequestError, ero_failed, undefined_pcc_type, len_open_object, serialize_open_object,
  serialize_close_object, new_srp_object, len_lsp_object, serialize_lsp_object, new_lsp_object,
  len_ero_object, serialize_ero_object, new_ero_object,
}
use pce_testing.Pcep.Objects.Policy.{
  EndpointsObject, OptParams, len_endpoints_object, serialize_endpoints_object,
  new_endpoints_object, len_association_object, serialize_association_object,
  new_association_object, len_vendor_information_object, serialize_vendor_information_object,
  new_vendor_information_object,
}

-- The common header of a message of the type and length.
abbrev pub message_header : ℕ → ℕ → List ℕ
unfolding serialize_common_header new_common_header
message_header typ len = serialize_common_header (new_common_header typ len)

-- PolaCapability.
unfoldable pub pola_capability : List Tlv → List Tlv
pola_capability [] = []
pola_capability (stateful_pce_capability t ∷ caps) =
    stateful_pce_capability (record {
      lsp_update_capability = true;
      include_db_version = false;
      lsp_instantiation_capability = true;
      triggered_resync = false;
      delta_lsp_sync_capability = false;
      triggered_initial_sync = false;
      p2mp_capability = false;
      p2mp_lsp_update_capability = false;
      p2mp_lsp_instantiation_capability = false;
      lsp_scheduling_capability = false;
      pd_lsp_capability = false;
      color_capability = true;
      path_recomputation_capability = false;
      strict_path_capability = false;
      relax = false;
    })
    ∷ pola_capability caps
pola_capability (lsp_db_version v ∷ caps) = pola_capability caps
pola_capability (t ∷ caps) = t ∷ pola_capability caps

unfoldable pub decode_open_message : List ℕ → Result ReportError OpenObject
unfolding decode_common_object_header slice decode_open_object
decode_open_message body = do
  header ← map_err object_error (decode_common_object_header body)
  guard (header.object_class == 1) unsupported_object_class
  guard (header.object_type == 1) unsupported_object_type
  object_body ← slice body 4 header.object_length
  decode_open_object header.object_type object_body

unfoldable pub serialize_open_message : OpenObject → List ℕ
unfolding append_byte_slices message_header serialize_open_object len_open_object
serialize_open_message o =
    append_byte_slices
      (message_header 1 (u16 (4 + len_open_object o)) ∷ serialize_open_object o ∷ [])

unfoldable pub serialize_keepalive_message : List ℕ
unfolding message_header
serialize_keepalive_message = message_header 2 4

unfoldable pub decode_close_message : List ℕ → Result ReportError CloseObject
unfolding decode_common_object_header slice decode_close_object
decode_close_message body = do
  header ← map_err object_error (decode_common_object_header body)
  object_body ← slice body 4 header.object_length
  decode_close_object header.object_type object_body

unfoldable pub serialize_close_message : CloseObject → List ℕ
unfolding append_byte_slices message_header serialize_close_object
serialize_close_message o = append_byte_slices (message_header 7 12 ∷ serialize_close_object o ∷ [])

abbrev sum_srps : List SrpObject → ℕ
unfolding len_srp_object
sum_srps [] = 0
sum_srps (o ∷ os) = len_srp_object o + sum_srps os

abbrev sum_errors : List PcepErrorObject → ℕ
unfolding len_pcep_error_object
sum_errors [] = 0
sum_errors (o ∷ os) = len_pcep_error_object o + sum_errors os

unfoldable pub serialize_pcerr_message : PcErrMessage → List ℕ
unfolding append_byte_slices message_header serialize_srp_object serialize_pcep_error_object
    sum_srps sum_errors
serialize_pcerr_message m = append_byte_slices (
    message_header 6 (u16 (4 + sum_srps m.srps + sum_errors m.errors))
    ∷ append_byte_slices (map serialize_srp_object m.srps)
    ∷ append_byte_slices (map serialize_pcep_error_object m.errors)
    ∷ [])

unfoldable pub new_pcerr_message : ℕ → ℕ → List Tlv → PcErrMessage
new_pcerr_message error_type error_value tlvs = record {
  errors =
      record { object_type = 1; error_type = error_type; error_value = error_value; tlvs = tlvs }
      ∷ [];
  srps = [];
}

pub record PcInitiateMessage : Type 0 where
  pub srp_object : SrpObject
  pub lsp_object : LspObject
  pub endpoints_object : Option EndpointsObject
  pub ero_object : Option EroObject
  pub association_object : Option AssociationObject
  pub vendor_information_object : Option VendorInformationObject

-- An object that is nil has no length and no bytes.
abbrev pub optional {ℓ} :
    {A : Type 0} {B : Type ℓ} → B → (A → Result RequestError B) → Option A → Result RequestError B
optional b f none = ok b
optional b f (some a) = f a

unfoldable pub serialize_pcinitiate_message : PcInitiateMessage → Result RequestError (List ℕ)
unfolding append_byte_slices message_header len_srp_object serialize_srp_object len_lsp_object
    serialize_lsp_object len_ero_object serialize_ero_object len_endpoints_object
    serialize_endpoints_object len_association_object serialize_association_object
    len_vendor_information_object serialize_vendor_information_object
serialize_pcinitiate_message m = do
  ero_length ← optional 0 (λ o. map_err ero_failed (len_ero_object o)) m.ero_object
  endpoints_length ← optional 0 len_endpoints_object m.endpoints_object
  endpoints ← optional [] serialize_endpoints_object m.endpoints_object
  ero ← optional [] (λ o. map_err ero_failed (serialize_ero_object o)) m.ero_object
  association ← optional [] serialize_association_object m.association_object
  association_length ← optional 0 len_association_object m.association_object
  vendor ← optional [] (λ o. ok (serialize_vendor_information_object o)) m.vendor_information_object
  vendor_length ← optional 0 (λ o. ok (len_vendor_information_object o)) m.vendor_information_object
  ok (
      append_byte_slices (
        message_header 12 (
          u16 (
            4
            + len_srp_object m.srp_object
            + len_lsp_object m.lsp_object
            + endpoints_length
            + ero_length
            + association_length
            + vendor_length))
        ∷ serialize_srp_object m.srp_object
        ∷ serialize_lsp_object m.lsp_object
        ∷ endpoints
        ∷ ero
        ∷ association
        ∷ vendor
        ∷ []))

-- The objects that say which policy the path is of, by the kind of the PCC.
unfoldable pub policy_objects :
    Addr
    → Addr
    → ℕ
    → ℕ
    → OptParams
    → Result RequestError (Option AssociationObject × Option VendorInformationObject)
unfolding new_association_object new_vendor_information_object
policy_objects src dst color preference opts = elim opts.pcc_type [
  | juniper_legacy ↦ new_association_object src dst color preference opts >>= λ a. ok (some a, none)
  | cisco_legacy ↦
      new_vendor_information_object cisco_legacy color preference >>= λ v. ok (none, some v)
  | rfc_compliant ↦
      new_association_object src dst color preference
        (record { pcc_type = rfc_compliant; originator_asn = opts.originator_asn })
      >>= λ a.
          new_vendor_information_object cisco_legacy color preference >>= λ v. ok (some a, some v)
  | undefined_pcc ↦ err undefined_pcc_type
]

unfoldable pub new_pcinitiate_message :
    ℕ
    → List ℕ
    → Bool
    → ℕ
    → List Segment
    → ℕ
    → ℕ
    → Addr
    → Addr
    → OptParams
    → Result RequestError PcInitiateMessage
unfolding new_srp_object new_lsp_object new_endpoints_object new_ero_object policy_objects
new_pcinitiate_message srp_id name lsp_delete plsp_id segs color preference src dst opts =
    new_srp_object segs srp_id lsp_delete >>= λ srp.
    if lsp_delete
    then ok (record {
      srp_object = srp;
      lsp_object = new_lsp_object name (some color) plsp_id;
      endpoints_object = none;
      ero_object = none;
      association_object = none;
      vendor_information_object = none;
    })
    else (new_endpoints_object dst src >>= λ endpoints. new_ero_object segs >>= λ ero.
        policy_objects src dst color preference opts >>= λ policy. ok (record {
          srp_object = srp;
          lsp_object = new_lsp_object name (some color) 0;
          endpoints_object = some endpoints;
          ero_object = some ero;
          association_object = policy.0;
          vendor_information_object = policy.1;
        }))

pub record PcUpdMessage : Type 0 where
  pub srp_object : SrpObject
  pub lsp_object : LspObject
  pub ero_object : EroObject

unfoldable pub serialize_pcupd_message : PcUpdMessage → Result RequestError (List ℕ)
unfolding append_byte_slices message_header len_srp_object serialize_srp_object len_lsp_object
    serialize_lsp_object len_ero_object serialize_ero_object
serialize_pcupd_message m = do
  ero ← map_err ero_failed (serialize_ero_object m.ero_object)
  ero_length ← map_err ero_failed (len_ero_object m.ero_object)
  ok (
      append_byte_slices (
        message_header 11
          (u16 (4 + len_srp_object m.srp_object + len_lsp_object m.lsp_object + ero_length))
        ∷ serialize_srp_object m.srp_object
        ∷ serialize_lsp_object m.lsp_object
        ∷ ero
        ∷ []))

unfoldable pub new_pcupd_message : ℕ → List ℕ → ℕ → List Segment → Result RequestError PcUpdMessage
unfolding new_srp_object new_lsp_object new_ero_object
new_pcupd_message srp_id name plsp_id segs = do
  srp ← new_srp_object segs srp_id false
  ero ← new_ero_object segs
  ok (record { srp_object = srp; lsp_object = new_lsp_object name none plsp_id; ero_object = ero })
