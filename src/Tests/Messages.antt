-- ===== src/Tests/Messages.antt =====
-- The messages of the PCE.
use pce_testing.Base.{◌≡◌, refl, false, [], ◌∷◌, none, some, arith, ok}
use pce_testing.Net.{Addr, v4}
use pce_testing.Table.Segment.{srmpls, new_segment_srmpls}
use pce_testing.Pcep.Tlv.Types.{
  path_setup_type, unknown, extended_association_id, candidate_path_identifier,
  candidate_path_preference,
}
use pce_testing.Pcep.Report.{rfc_compliant}
use pce_testing.Pcep.Report.Ero.{EroObject, sr_ero}
use pce_testing.Pcep.Report.Ero.Write.{sr_ero_of}
use pce_testing.Pcep.Objects.Write.{new_lsp_object}
use pce_testing.Pcep.Objects.Policy.{OptParams}
use pce_testing.Pcep.Requests.{
  PcUpdMessage, PcInitiateMessage, new_pcupd_message, serialize_pcupd_message,
  new_pcinitiate_message, serialize_pcinitiate_message,
}
use pce_testing.Pcep.Requests.Lengths.{IsFramed}
use pce_testing.Pcep.Requests.Update.{new_pcupd_message-IsFramed}
use pce_testing.Pcep.Requests.Initiate.{new_pcinitiate_message-IsFramed}

abbrev route : EroObject
unfolding new_segment_srmpls
route = record {
  object_type = 1;
  ero_subobjects = sr_ero (sr_ero_of (new_segment_srmpls 16002) 0 8) ∷ [];
}

abbrev update_message : PcUpdMessage
unfolding new_lsp_object route
update_message = record {
  srp_object = record {
    object_type = 1;
    r_flag = false;
    srp_id = 9;
    tlvs = path_setup_type 1 ∷ [];
  };
  lsp_object = new_lsp_object (97 ∷ []) none 3;
  ero_object = route;
}

update_message_made :
    new_pcupd_message 9 (97 ∷ []) 3 (srmpls (new_segment_srmpls 16002) ∷ []) ≡ ok update_message
unfolding new_pcupd_message update_message
update_message_made = refl

new_pcupd_message-IsFramed_example : IsFramed 11 (serialize_pcupd_message update_message)
unfolding new_segment_srmpls
new_pcupd_message-IsFramed_example =
    new_pcupd_message-IsFramed 9 (97 ∷ []) 3 (srmpls (new_segment_srmpls 16002) ∷ []) update_message
      (omega arith) ((tt, tt), tt) update_message_made

abbrev head_end : Addr
head_end = v4 (10 ∷ 0 ∷ 0 ∷ 1 ∷ [])

abbrev endpoint : Addr
endpoint = v4 (10 ∷ 0 ∷ 0 ∷ 2 ∷ [])

abbrev standard_pcc : OptParams
standard_pcc = record { pcc_type = rfc_compliant; originator_asn = 65000 }

abbrev initiate_message : PcInitiateMessage
unfolding new_lsp_object route
initiate_message = record {
  srp_object = record {
    object_type = 1;
    r_flag = false;
    srp_id = 9;
    tlvs = path_setup_type 1 ∷ [];
  };
  lsp_object = new_lsp_object (97 ∷ []) (some 100) 0;
  endpoints_object = some (record { object_type = 1; src_addr = head_end; dst_addr = endpoint });
  ero_object = some route;
  association_object = some (record {
    object_type = 1;
    r_flag = false;
    assoc_type = 6;
    assoc_id = 1;
    assoc_src = head_end;
    tlvs =
        extended_association_id (record { color = 100; endpoint = endpoint })
        ∷ candidate_path_identifier (record {
          protocol_origin = 10;
          originator_asn = 65000;
          originator_addr = endpoint;
          discriminator = 1;
        })
        ∷ candidate_path_preference 50
        ∷ [];
  });
  vendor_information_object = some (record {
    object_type = 1;
    enterprise_number = 9;
    tlvs =
        unknown (record { typ = 1; len = 4; value = 0 ∷ 0 ∷ 0 ∷ 100 ∷ [] })
        ∷ unknown (record { typ = 3; len = 4; value = 0 ∷ 0 ∷ 0 ∷ 50 ∷ [] })
        ∷ [];
  });
}

initiate_message_made :
    new_pcinitiate_message 9
      (97 ∷ [])
      false
      0
      (srmpls (new_segment_srmpls 16002) ∷ [])
      100
      50
      head_end
      endpoint
      standard_pcc
    ≡ ok initiate_message
unfolding new_pcinitiate_message initiate_message
initiate_message_made = refl

new_pcinitiate_message-IsFramed_example :
    IsFramed 12 (serialize_pcinitiate_message initiate_message)
unfolding new_segment_srmpls
new_pcinitiate_message-IsFramed_example =
    new_pcinitiate_message-IsFramed 9 (97 ∷ []) false 0 (srmpls (new_segment_srmpls 16002) ∷ []) 100
      50 head_end endpoint standard_pcc initiate_message (omega arith) ((tt, tt), tt) refl refl
      initiate_message_made
