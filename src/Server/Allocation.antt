-- ===== src/Server/Allocation.antt =====
-- Allocating an SRP-ID for a request to the PCC, pkg/server/session.go.
pub mod Laws
use pce_testing.Base.{ℕ, ◌+◌, Bool, true, false, Result, ok, err, ◌>>=◌, if◌then◌else◌}
use pce_testing.Table.Policy.{PolicyType, MetricType, SrPolicy}
use pce_testing.Server.SrpId.{SrpIdError, next_unused_srp_id}
use pce_testing.Server.Intents.{
  Intents, sr_policy_intent_exists, remember_sr_policy_intent, forget_sr_policy_intent,
}
use pce_testing.Server.Session.{Session}

-- math.MaxUint32, which is reserved.
abbrev pub max_uint32 : ℕ
max_uint32 = 4294967295

abbrev pub with_allocation : Session → ℕ → Intents → Session
with_allocation ss head intents = record {
  session_id = ss.session_id;
  peer_addr = ss.peer_addr;
  is_synced = ss.is_synced;
  srp_id_head = head;
  sr_policies = ss.sr_policies;
  sr_policy_intents = intents;
  sr_policy_intent_ttl = ss.sr_policy_intent_ttl;
  keep_alive = ss.keep_alive;
  pcc_type = ss.pcc_type;
  advertised_capabilities = ss.advertised_capabilities;
  received_pcc_capabilities = ss.received_pcc_capabilities;
  asn = ss.asn;
}

-- At the present time `now`.
unfoldable pub allocate_srp_id :
    Session → ℕ → PolicyType → MetricType → Result SrpIdError (ℕ × Session)
unfolding next_unused_srp_id sr_policy_intent_exists remember_sr_policy_intent
allocate_srp_id ss now pol_type metric = do
  (id, next_head) ←
      next_unused_srp_id ss.srp_id_head max_uint32 (sr_policy_intent_exists ss.sr_policy_intents)
  ok (
    id,
    with_allocation ss next_head (
        remember_sr_policy_intent ss.sr_policy_intents now ss.sr_policy_intent_ttl id pol_type
          metric),
  )
