-- ===== src/Tests/Sessions.antt =====
-- Sessions with policies and intents.
use pce_testing.Base.{
  ℕ, ◌+◌, ◌<◌, ◌≤◌, ◌≡◌, refl, Bool, true, false, not, ◌&&◌, List, [], ◌∷◌, none, some, Result, ok,
  err, panic, stuck, arith, ◌==◌, if◌then◌else◌,
}
use pce_testing.Net.{v4, invalid}
use pce_testing.Table.Segment.{Segment, srmpls}
use pce_testing.Table.Policy.{
  SrPolicy, policy_up, explicit_type, dynamic_type, te_metric, igp_metric,
}
use pce_testing.Pcep.Report.{StateReport, rfc_compliant}
use pce_testing.Pcep.Report.Ero.{sr_ero}
use pce_testing.Server.Send.{not_written, Others, forgetting, send_pcupdate}
use pce_testing.Server.Send.Laws.{pcupdate, send, Failed, send_undone}
use pce_testing.Pcep.Requests.{new_pcupd_message, serialize_pcupd_message}
use pce_testing.Pcep.Tlv.Serialize.{len_all, serialize_all}
use pce_testing.Server.SrpId.{
  next_unused_srp_id, attempt_srp_ids, next_unused_srp_id_found, next_unused_srp_id_sound,
  no_srp_id,
}
use pce_testing.Server.Intents.{
  SrPolicyIntent, Intents, intent_at, set_intent, delete_intent, remember_sr_policy_intent,
  sr_policy_intent_exists, sweep_expired_sr_policy_intents,
}
use pce_testing.Server.Intents.Laws.{intent_at-sweep, unexpired, UniqueKeys}
use pce_testing.Server.Session.{
  Session, validate_segment_list, resolve_color_preference, resolve_policy_state,
}
use pce_testing.Server.Allocation.{allocate_srp_id, with_allocation, max_uint32}
use pce_testing.Server.Allocation.Laws.{allocate_srp_id_lem, intent_of}
use pce_testing.Server.Policies.{search_sr_policy, register_sr_policy, delete_sr_policy}
use pce_testing.Server.Policies.Table.{Unique}
use pce_testing.Server.Errors.{handle_pcerr, handle_pcerr_lem, listed}
use pce_testing.Pcep.PcErr.{PcErrMessage, srp_ids}
use pce_testing.Server.Policies.Register.{
  register_sr_policy_lem, register_sr_policy_advances, reported,
}
use pce_testing.Server.Policies.Delete.{delete_sr_policy-Unique, search-delete_sr_policy, not_newer}

-- IDs 1 and 3 are in use, and the IDs wrap at 4.
abbrev some_used : ℕ → Bool
some_used k = if k == 2 then false else true

next_unused_srp_id_found_example :
    (id : ℕ) × (next : ℕ) × (next_unused_srp_id 3 4 some_used ≡ ok (id, next))
next_unused_srp_id_found_example =
    next_unused_srp_id_found 3 4 some_used 2 (omega arith) (omega arith) (omega arith) (omega arith)
      refl

second_found : next_unused_srp_id 3 4 some_used ≡ ok (2, 3)
unfolding next_unused_srp_id attempt_srp_ids
second_found = refl

next_unused_srp_id_sound_example : (1 ≤ 2) × (2 < 4) × (some_used 2 ≡ false) × (3 ≡ 2 + 1)
next_unused_srp_id_sound_example =
    next_unused_srp_id_sound 3 4 some_used 2 3 (omega arith) (omega arith) second_found

abbrev all_in_use : ℕ → Bool
all_in_use k = true

all_used : next_unused_srp_id 3 4 all_in_use ≡ err no_srp_id
unfolding next_unused_srp_id attempt_srp_ids
all_used = refl

abbrev intent : SrPolicyIntent
intent = record { pol_type = dynamic_type; metric = te_metric; expires_at = 100 }

abbrev old_intent : SrPolicyIntent
old_intent = record { pol_type = explicit_type; metric = igp_metric; expires_at = 10 }

abbrev two_intents : Intents
two_intents = (5, intent) ∷ (6, old_intent) ∷ []

intent_at-sweep_example :
    intent_at (sweep_expired_sr_policy_intents two_intents 50) 6
    ≡ unexpired 50 (intent_at two_intents 6)
unfolding intent_at
intent_at-sweep_example = intent_at-sweep two_intents 50 6 (refl, (refl, tt))

abbrev route : List Segment
route =
    srmpls (record {
      sid = 16001;
      ttl = 0;
      tc = 0;
      s = false;
      local_addr = invalid;
      remote_addr = invalid;
    })
    ∷ []

abbrev policy : ℕ → ℕ → SrPolicy
policy plsp lsp = record {
  plsp_id = plsp;
  name = 112 ∷ [];
  segment_list = route;
  src_addr = v4 (192 ∷ 0 ∷ 2 ∷ 1 ∷ []);
  dst_addr = v4 (192 ∷ 0 ∷ 2 ∷ 2 ∷ []);
  color = 100;
  preference = 10;
  lsp_id = lsp;
  state = policy_up;
  typ = explicit_type;
  metric = igp_metric;
}

abbrev session : Session
session = record {
  session_id = 1;
  peer_addr = v4 (192 ∷ 0 ∷ 2 ∷ 1 ∷ []);
  is_synced = true;
  srp_id_head = 5;
  sr_policies = policy 1 3 ∷ policy 2 4 ∷ policy 3 1 ∷ [];
  sr_policy_intents = two_intents;
  sr_policy_intent_ttl = 60;
  keep_alive = 30;
  pcc_type = rfc_compliant;
  advertised_capabilities = [];
  received_pcc_capabilities = [];
  asn = 65000;
}

abbrev report : ℕ → ℕ → ℕ → StateReport
report plsp lsp srp = record {
  srp_object = record { object_type = 1; r_flag = false; srp_id = srp; tlvs = [] };
  lsp_object = record {
    object_type = 1;
    name = 112 ∷ [];
    src_addr = v4 (192 ∷ 0 ∷ 2 ∷ 1 ∷ []);
    dst_addr = v4 (192 ∷ 0 ∷ 2 ∷ 2 ∷ []);
    plsp_id = plsp;
    lsp_id = lsp;
    c_flag = true;
    o_flag = 2;
    a_flag = true;
    r_flag = false;
    s_flag = false;
    d_flag = true;
    tlvs = [];
  };
  ero_object = some (record {
    object_type = 1;
    ero_subobjects =
        sr_ero (record {
          l_flag = false;
          subobject_type = 36;
          length = 8;
          nai_type = 0;
          f_flag = true;
          s_flag = false;
          c_flag = false;
          m_flag = true;
          segment = record {
            sid = 16002;
            ttl = 0;
            tc = 0;
            s = false;
            local_addr = invalid;
            remote_addr = invalid;
          };
        })
        ∷ [];
  });
  lspa_object = record {
    object_type = 1;
    exclude_any = 0;
    include_any = 0;
    include_all = 0;
    setup_priority = 7;
    holding_priority = 7;
    l_flag = false;
  };
  bandwidth_objects = [];
  metric_objects = [];
  association_object = record {
    object_type = 1;
    r_flag = false;
    assoc_type = 6;
    assoc_id = 1;
    assoc_src = invalid;
    tlvs = [];
  };
  vendor_information_object = record { object_type = 1; enterprise_number = 9; tlvs = [] };
}

session-Unique : Unique session.sr_policies
unfolding search_sr_policy
session-Unique = (refl, (refl, (refl, tt)))

delete_sr_policy-Unique_example : Unique (delete_sr_policy session (report 1 3 5)).sr_policies
delete_sr_policy-Unique_example = delete_sr_policy-Unique session (report 1 3 5) session-Unique

search-delete_sr_policy_example :
    search_sr_policy (delete_sr_policy session (report 1 3 5)).sr_policies 3 ≡ (
      if (1 == 3) && not_newer (search_sr_policy session.sr_policies 1) 3
      then none
      else search_sr_policy session.sr_policies 3)
search-delete_sr_policy_example = search-delete_sr_policy session (report 1 3 5) 3 session-Unique

abbrev or_session {ℓ} : {E : Type 0} {A : Type ℓ} → Result E A → A → A
or_session (ok a) d = a
or_session (err e) d = d
or_session panic d = d
or_session stuck d = d

-- A newer report of the second policy.
unfoldable registered : Session
unfolding register_sr_policy
registered = or_session (register_sr_policy session (report 2 7 5)) session

registers : register_sr_policy session (report 2 7 5) ≡ ok registered
unfolding register_sr_policy registered
registers = refl

-- The segments of the report.
abbrev reported_route : List Segment
reported_route =
    srmpls (record {
      sid = 16002;
      ttl = 0;
      tc = 0;
      s = false;
      local_addr = invalid;
      remote_addr = invalid;
    })
    ∷ []

register_sr_policy_lem_example :
    Unique registered.sr_policies
    × ((segs : List Segment) × (validate_segment_list (report 2 7 5) ≡ ok segs)
        × ((k : ℕ)
            → search_sr_policy registered.sr_policies k ≡ (
                if 2 == k
                then some (
                    reported session
                      (report 2 7 5)
                      segs
                      (resolve_color_preference session (report 2 7 5)).0
                      (resolve_color_preference session (report 2 7 5)).1
                      (resolve_policy_state 2)
                      (search_sr_policy session.sr_policies 2))
                else search_sr_policy session.sr_policies k)))
register_sr_policy_lem_example =
    register_sr_policy_lem session registered (report 2 7 5) session-Unique registers

register_sr_policy_advances_example :
    (q : SrPolicy) × (search_sr_policy registered.sr_policies 3 ≡ some q) × (1 ≤ q.lsp_id)
unfolding search_sr_policy
register_sr_policy_advances_example =
    register_sr_policy_advances session registered (report 2 7 5) 3 (policy 3 1) session-Unique
      registers refl

two_intents-UniqueKeys : UniqueKeys two_intents
unfolding intent_at
two_intents-UniqueKeys = (refl, (refl, tt))

-- The head stands at an SRP-ID that is in use, as is the one after it.
abbrev after_allocation : Session
after_allocation =
    with_allocation session 8 ((7, intent_of session 40 explicit_type igp_metric) ∷ two_intents)

allocates : allocate_srp_id session 40 explicit_type igp_metric ≡ ok (7, after_allocation)
unfolding allocate_srp_id next_unused_srp_id attempt_srp_ids sr_policy_intent_exists
    remember_sr_policy_intent intent_at set_intent delete_intent
allocates = refl

allocate_srp_id_lem_example :
    (1 ≤ 7)
    × (7 < max_uint32)
    × (intent_at two_intents 7 ≡ none)
    × (after_allocation.sr_policies ≡ session.sr_policies)
    × UniqueKeys after_allocation.sr_policy_intents
    × ((k : ℕ)
        → intent_at after_allocation.sr_policy_intents k ≡ (
            if 7 == k
            then some (intent_of session 40 explicit_type igp_metric)
            else intent_at two_intents k))
allocate_srp_id_lem_example =
    allocate_srp_id_lem session after_allocation 40 7 explicit_type igp_metric
      two_intents-UniqueKeys allocates

-- While the request is made, the PCC refuses another one, and then the connection takes no bytes.
abbrev refusal : Others
unfolding forgetting
refusal = record { until_built = λ ss. forgetting ss 6; until_done = λ ss. ss }

abbrev after_failure : Session
unfolding forgetting
after_failure = forgetting (forgetting after_allocation 6) 7

fails :
    send pcupdate refusal (λ bytes. false) session 40 (policy 1 3)
    ≡ (err not_written, after_failure)
unfolding send send_pcupdate allocate_srp_id next_unused_srp_id attempt_srp_ids
    sr_policy_intent_exists remember_sr_policy_intent intent_at set_intent delete_intent
    new_pcupd_message serialize_pcupd_message refusal after_failure len_all serialize_all
fails = refl

send_undone_example : Failed refusal session 40 (policy 1 3) after_failure
send_undone_example =
    send_undone refusal (λ bytes. false) session after_failure 40 (policy 1 3) not_written
      two_intents-UniqueKeys pcupdate fails

-- The PCC rejects the request with SRP-ID 6.
abbrev rejection : PcErrMessage
rejection = record {
  errors = [];
  srps = record { object_type = 1; r_flag = false; srp_id = 6; tlvs = [] } ∷ [];
}

handle_pcerr_lem_example :
    ((handle_pcerr session rejection).sr_policies ≡ session.sr_policies)
    × (intent_at (handle_pcerr session rejection).sr_policy_intents 6 ≡ (
        if listed (srp_ids rejection.srps) 6 && not (6 == 0)
        then none
        else intent_at two_intents 6))
handle_pcerr_lem_example = handle_pcerr_lem session rejection 6
