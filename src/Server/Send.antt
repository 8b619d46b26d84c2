-- ===== src/Server/Send.antt =====
-- Sending a request to the PCC under a new SRP-ID, pkg/server/session.go. No lock is held from the
-- allocation to the end, so that other goroutines may change the session in between.
pub mod Laws
use pce_testing.Base.{ℕ, Bool, List, Result, ok, err, panic, stuck, ◌>>=◌, map_err, guard}
use pce_testing.Table.Policy.{SrPolicy}
use pce_testing.Pcep.Objects.Write.{RequestError}
use pce_testing.Pcep.Objects.Policy.{OptParams}
use pce_testing.Pcep.Requests.{
  PcInitiateMessage, PcUpdMessage, new_pcinitiate_message, serialize_pcinitiate_message,
  new_pcupd_message, serialize_pcupd_message,
}
use pce_testing.Server.SrpId.{SrpIdError}
use pce_testing.Server.Intents.{forget_sr_policy_intent}
use pce_testing.Server.Session.{Session}
use pce_testing.Server.Allocation.{allocate_srp_id, with_allocation}

pub data SendError : Type 0 where
  not_allocated : SrpIdError → SendError
  invalid_request : RequestError → SendError
  not_written : SendError

-- What the other goroutines do to the session from the allocation until the message is built, and
-- from there until the request has succeeded or failed.
pub record Others : Type 0 where
  pub until_built : Session → Session
  pub until_done : Session → Session

-- sendPCEPMessage, where `write` says whether the connection takes the bytes.
unfoldable pub send_pcep_message :
    (List ℕ → Bool) → Result RequestError (List ℕ) → Result SendError (Unit {0})
send_pcep_message write serialized = do
  bytes ← map_err invalid_request serialized
  guard (write bytes) not_written

unfoldable pub forgetting : Session → ℕ → Session
unfolding forget_sr_policy_intent
forgetting ss id =
    with_allocation ss ss.srp_id_head (forget_sr_policy_intent ss.sr_policy_intents id)

-- What a request returns, and the session behind it.
abbrev pub Sent : Type 0
Sent = Result SendError (Unit {0}) × Session

unfoldable pub pcinitiate_sent : Session → ℕ → Result SendError (Unit {0}) → Sent
unfolding forgetting
pcinitiate_sent ss id (ok u) = (ok u, ss)
pcinitiate_sent ss id (err e) = (err e, forgetting ss id)
pcinitiate_sent ss id panic = (panic, ss)
pcinitiate_sent ss id stuck = (stuck, ss)

unfoldable pub pcinitiate_built :
    (List ℕ → Bool) → Session → ℕ → Result RequestError PcInitiateMessage → Sent
unfolding pcinitiate_sent send_pcep_message serialize_pcinitiate_message forgetting
pcinitiate_built write ss id (ok m) =
    pcinitiate_sent ss id (send_pcep_message write (serialize_pcinitiate_message m))
pcinitiate_built write ss id (err e) = (err (invalid_request e), forgetting ss id)
pcinitiate_built write ss id panic = (panic, ss)
pcinitiate_built write ss id stuck = (stuck, ss)

unfoldable pub pcinitiate_allocated :
    Others → (List ℕ → Bool) → Session → SrPolicy → Bool → Result SrpIdError (ℕ × Session) → Sent
unfolding new_pcinitiate_message pcinitiate_built
pcinitiate_allocated others write ss p lsp_delete (ok (id, allocated)) =
    let ss1 = others.until_built allocated in
    let opts : OptParams = record { pcc_type = ss1.pcc_type; originator_asn = ss1.asn } in
    pcinitiate_built write (others.until_done ss1) id (
      new_pcinitiate_message id p.name lsp_delete p.plsp_id p.segment_list p.color p.preference
        p.src_addr p.dst_addr opts)
pcinitiate_allocated others write ss p lsp_delete (err e) = (err (not_allocated e), ss)
pcinitiate_allocated others write ss p lsp_delete panic = (panic, ss)
pcinitiate_allocated others write ss p lsp_delete stuck = (stuck, ss)

unfoldable pub send_pcinitiate : Others → (List ℕ → Bool) → Session → ℕ → SrPolicy → Bool → Sent
unfolding allocate_srp_id pcinitiate_allocated
send_pcinitiate others write ss now p lsp_delete =
    pcinitiate_allocated others write ss p lsp_delete (allocate_srp_id ss now p.typ p.metric)

unfoldable pub pcupdate_sent : Session → ℕ → Result SendError (Unit {0}) → Sent
unfolding forgetting
pcupdate_sent ss id (ok u) = (ok u, ss)
pcupdate_sent ss id (err e) = (err e, forgetting ss id)
pcupdate_sent ss id panic = (panic, ss)
pcupdate_sent ss id stuck = (stuck, ss)

unfoldable pub pcupdate_built :
    (List ℕ → Bool) → Session → ℕ → Result RequestError PcUpdMessage → Sent
unfolding pcupdate_sent send_pcep_message serialize_pcupd_message forgetting
pcupdate_built write ss id (ok m) =
    pcupdate_sent ss id (send_pcep_message write (serialize_pcupd_message m))
pcupdate_built write ss id (err e) = (err (invalid_request e), forgetting ss id)
pcupdate_built write ss id panic = (panic, ss)
pcupdate_built write ss id stuck = (stuck, ss)

unfoldable pub pcupdate_allocated :
    Others → (List ℕ → Bool) → Session → SrPolicy → Result SrpIdError (ℕ × Session) → Sent
unfolding new_pcupd_message pcupdate_built
pcupdate_allocated others write ss p (ok (id, allocated)) =
    pcupdate_built write (others.until_done (others.until_built allocated)) id
      (new_pcupd_message id p.name p.plsp_id p.segment_list)
pcupdate_allocated others write ss p (err e) = (err (not_allocated e), ss)
pcupdate_allocated others write ss p panic = (panic, ss)
pcupdate_allocated others write ss p stuck = (stuck, ss)

unfoldable pub send_pcupdate : Others → (List ℕ → Bool) → Session → ℕ → SrPolicy → Sent
unfolding allocate_srp_id pcupdate_allocated
send_pcupdate others write ss now p =
    pcupdate_allocated others write ss p (allocate_srp_id ss now p.typ p.metric)
