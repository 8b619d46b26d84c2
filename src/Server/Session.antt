-- ===== src/Server/Session.antt =====
-- The state of a PCEP session, pkg/server/session.go, and what it reads from a state report.
use pce_testing.Base.{
  ℕ, Bool, true, false, List, [], ◌∷◌, none, some, Result, ok, err, ◌==◌, if◌then◌else◌,
}
use pce_testing.Net.{Addr}
use pce_testing.Pcep.Tlv.Types.{Tlv, stateful_pce_capability}
use pce_testing.Pcep.Report.{PccType, cisco_legacy, juniper_legacy, rfc_compliant, undefined_pcc}
use pce_testing.Pcep.Report.{
  StateReport, association_color, association_preference, lsp_color, vendor_color,
  vendor_preference,
}
use pce_testing.Pcep.Report.Ero.{to_segment_list}
use pce_testing.Table.Segment.{Segment}
use pce_testing.Table.Policy.{
  SrPolicy, PolicyState, policy_down, policy_up, policy_active, policy_unknown, MetricType,
  igp_metric, te_metric, delay_metric, hopcount_metric,
}
use pce_testing.Server.Intents.{Intents}

pub data SessionError : Type 0 where
  ero_object_nil segment_list_empty invalid_source_address invalid_destination_address :
      SessionError

-- The connection, the logger, the locks and the sweeper's channels are left out.
pub record Session : Type 0 where
  pub session_id : ℕ
  pub peer_addr : Addr
  pub is_synced : Bool
  pub srp_id_head : ℕ
  pub sr_policies : List SrPolicy
  pub sr_policy_intents : Intents
  pub sr_policy_intent_ttl : ℕ
  pub keep_alive : ℕ
  pub pcc_type : PccType
  pub advertised_capabilities : List Tlv
  pub received_pcc_capabilities : List Tlv
  pub asn : ℕ

unfoldable pub new_session : ℕ → Addr → ℕ → Session
new_session session_id peer_addr asn = record {
  session_id = session_id;
  peer_addr = peer_addr;
  is_synced = false;
  srp_id_head = 1;
  sr_policies = [];
  sr_policy_intents = [];
  sr_policy_intent_ttl = 60;
  keep_alive = 0;
  pcc_type = rfc_compliant;
  advertised_capabilities = [];
  received_pcc_capabilities = [];
  asn = asn;
}

abbrev pub with_policies : Session → List SrPolicy → Intents → Session
with_policies ss policies intents = record {
  session_id = ss.session_id;
  peer_addr = ss.peer_addr;
  is_synced = ss.is_synced;
  srp_id_head = ss.srp_id_head;
  sr_policies = policies;
  sr_policy_intents = intents;
  sr_policy_intent_ttl = ss.sr_policy_intent_ttl;
  keep_alive = ss.keep_alive;
  pcc_type = ss.pcc_type;
  advertised_capabilities = ss.advertised_capabilities;
  received_pcc_capabilities = ss.received_pcc_capabilities;
  asn = ss.asn;
}

unfoldable pub resolve_policy_state : ℕ → PolicyState
resolve_policy_state oflag =
    if oflag == 0
    then policy_down
    else if oflag == 1
    then policy_up
    else if oflag == 2
    then policy_active
    else policy_unknown

-- Whether a capability says that the PCC supports colors.
unfoldable pub has_color : List Tlv → Bool
has_color [] = false
has_color (stateful_pce_capability c ∷ caps) =
    let rest = has_color caps in if c.color_capability then true else rest
has_color (_ ∷ caps) = has_color caps

-- The color and the preference of a report.
unfoldable pub resolve_color_preference : Session → StateReport → ℕ × ℕ
unfolding vendor_color vendor_preference association_color association_preference lsp_color
    has_color
resolve_color_preference ss sr = elim ss.pcc_type [
  | cisco_legacy ↦
      (vendor_color sr.vendor_information_object, vendor_preference sr.vendor_information_object)
  | juniper_legacy ↦ association_or_lsp
  | rfc_compliant ↦ association_or_lsp
  | undefined_pcc ↦ association_or_lsp
]
  where
    association_or_lsp : ℕ × ℕ
    association_or_lsp =
        let c = association_color sr.association_object in
        let lsp =
          if has_color ss.received_pcc_capabilities then lsp_color sr.lsp_object.tlvs else 0 in
        (if c == 0 then lsp else c, association_preference sr.association_object)

unfoldable pub select_metric_type : Session → StateReport → MetricType
select_metric_type ss sr = elim sr.metric_objects [
  | m ∷ ms ↦
      if m.metric_type == 1
      then igp_metric
      else if m.metric_type == 2
      then te_metric
      else if m.metric_type == 3
      then delay_metric
      else if m.metric_type == 4
      then hopcount_metric
      else te_metric
  | [] ↦ elim ss.pcc_type [
    | cisco_legacy ↦ te_metric
    | juniper_legacy ↦ igp_metric
    | rfc_compliant ↦ te_metric
    | undefined_pcc ↦ te_metric
  ]
]

abbrev non_empty : List Segment → Result SessionError (List Segment)
non_empty [] = err segment_list_empty
non_empty (s ∷ ss) = ok (s ∷ ss)

unfoldable pub validate_segment_list : StateReport → Result SessionError (List Segment)
unfolding to_segment_list
validate_segment_list sr = elim sr.ero_object [
  | none ↦ err ero_object_nil
  | some ero ↦ non_empty (to_segment_list ero)
]
