-- ===== src/Server/Send/Laws.antt =====
-- What a request that fails leaves behind, pkg/server/session.go.
use mathlib.Core.Path.{subst}
use pce_testing.Base.{
  ℕ, ◌≤◌, ◌≡◌, ◌⊎◌, inl, inr, refl, sym, ap, Bool, false, List, none, Result, ok, err, panic, stuck,
  arith, ◌==◌, if◌then◌else◌,
}
use pce_testing.Table.Policy.{SrPolicy}
use pce_testing.Pcep.Objects.Write.{RequestError}
use pce_testing.Pcep.Requests.{
  PcInitiateMessage, PcUpdMessage, new_pcinitiate_message, new_pcupd_message,
}
use pce_testing.Pcep.Objects.Policy.{OptParams}
use pce_testing.Server.SrpId.{SrpIdError}
use pce_testing.Server.Intents.{Intents, intent_at, forget_sr_policy_intent}
use pce_testing.Server.Intents.Laws.{UniqueKeys, intent_at-delete_intent}
use pce_testing.Server.Session.{Session}
use pce_testing.Server.Allocation.{allocate_srp_id}
use pce_testing.Server.Allocation.Laws.{allocate_srp_id_lem}
use pce_testing.Server.Send.{
  SendError, Others, Sent, forgetting, pcinitiate_sent, pcinitiate_built, pcinitiate_allocated,
  pcupdate_allocated, send_pcinitiate, pcupdate_sent, pcupdate_built, send_pcupdate,
}

-- The session after is the one before, less the intent of the SRP-ID.
pub record IsForgotten (ss : Session) (id : ℕ) (ss' : Session) : Type 0 where
  pub intents :
      (k : ℕ)
      → intent_at ss'.sr_policy_intents k
        ≡ (if id == k then none else intent_at ss.sr_policy_intents k)
  pub policies : ss'.sr_policies ≡ ss.sr_policies
  pub head : ss'.srp_id_head ≡ ss.srp_id_head

forgetting-IsForgotten : (ss : Session) (id : ℕ) → 1 ≤ id → IsForgotten ss id (forgetting ss id)
unfolding forgetting
forgetting-IsForgotten ss id one = record {
  intents = λ k. forgotten ss.sr_policy_intents id k one;
  policies = refl;
  head = refl;
}
  where
    forgotten :
        (m : Intents) (id k : ℕ)
        → 1 ≤ id
        → intent_at (forget_sr_policy_intent m id) k ≡ (if id == k then none else intent_at m k)
    forgotten m id k one =
        let e : (id == 0) ≡ false = ground arith in
        unfold forget_sr_policy_intent in rw e (intent_at-delete_intent m id k)

-- Of a pair with an error, what the session is.
with_error :
    {ss ss1 ss' : Session} {e e1 : SendError} (id : ℕ)
    → IsForgotten ss id ss1
    → ◌≡◌ {A = Sent} (err e1, ss1) (err e, ss')
    → IsForgotten ss id ss'
with_error {ss} id h p = subst (IsForgotten ss id) (ap (λ r. r.1) p) h

no_error :
    {x : Result SendError (Unit {0})} {ss ss' : Session} {e : SendError} {P : Type 0}
    → (x ≡ err e → ⊥)
    → ◌≡◌ {A = Sent} (x, ss) (err e, ss')
    → P
no_error n p = absurd (n (ap (λ r. r.0) p))

pcinitiate_sent-IsForgotten :
    (ss ss' : Session) (id : ℕ) (r : Result SendError (Unit {0})) (e : SendError)
    → 1 ≤ id
    → pcinitiate_sent ss id r ≡ (err e, ss')
    → IsForgotten ss id ss'
unfolding pcinitiate_sent
pcinitiate_sent-IsForgotten ss ss' id (ok u) e one h = no_error (λ p. cc) h
pcinitiate_sent-IsForgotten ss ss' id (err x) e one h =
    with_error id (forgetting-IsForgotten ss id one) h
pcinitiate_sent-IsForgotten ss ss' id panic e one h = no_error (λ p. cc) h
pcinitiate_sent-IsForgotten ss ss' id stuck e one h = no_error (λ p. cc) h

pcinitiate_built-IsForgotten :
    (write : List ℕ → Bool) (ss ss' : Session) (id : ℕ) (r : Result RequestError PcInitiateMessage)
    (e : SendError)
    → 1 ≤ id
    → pcinitiate_built write ss id r ≡ (err e, ss')
    → IsForgotten ss id ss'
unfolding pcinitiate_built
pcinitiate_built-IsForgotten write ss ss' id (ok m) e one h =
    pcinitiate_sent-IsForgotten ss ss' id _ e one h
pcinitiate_built-IsForgotten write ss ss' id (err x) e one h =
    with_error id (forgetting-IsForgotten ss id one) h
pcinitiate_built-IsForgotten write ss ss' id panic e one h = no_error (λ p. cc) h
pcinitiate_built-IsForgotten write ss ss' id stuck e one h = no_error (λ p. cc) h

pcupdate_sent-IsForgotten :
    (ss ss' : Session) (id : ℕ) (r : Result SendError (Unit {0})) (e : SendError)
    → 1 ≤ id
    → pcupdate_sent ss id r ≡ (err e, ss')
    → IsForgotten ss id ss'
unfolding pcupdate_sent
pcupdate_sent-IsForgotten ss ss' id (ok u) e one h = no_error (λ p. cc) h
pcupdate_sent-IsForgotten ss ss' id (err x) e one h =
    with_error id (forgetting-IsForgotten ss id one) h
pcupdate_sent-IsForgotten ss ss' id panic e one h = no_error (λ p. cc) h
pcupdate_sent-IsForgotten ss ss' id stuck e one h = no_error (λ p. cc) h

pcupdate_built-IsForgotten :
    (write : List ℕ → Bool) (ss ss' : Session) (id : ℕ) (r : Result RequestError PcUpdMessage)
    (e : SendError)
    → 1 ≤ id
    → pcupdate_built write ss id r ≡ (err e, ss')
    → IsForgotten ss id ss'
unfolding pcupdate_built
pcupdate_built-IsForgotten write ss ss' id (ok m) e one h =
    pcupdate_sent-IsForgotten ss ss' id _ e one h
pcupdate_built-IsForgotten write ss ss' id (err x) e one h =
    with_error id (forgetting-IsForgotten ss id one) h
pcupdate_built-IsForgotten write ss ss' id panic e one h = no_error (λ p. cc) h
pcupdate_built-IsForgotten write ss ss' id stuck e one h = no_error (λ p. cc) h

-- The requests.
pub data Request : Type 0 where
  pcinitiate : Bool → Request
  pcupdate : Request

unfoldable pub send : Request → Others → (List ℕ → Bool) → Session → ℕ → SrPolicy → Sent
unfolding send_pcinitiate send_pcupdate
send (pcinitiate lsp_delete) others write ss now p =
    send_pcinitiate others write ss now p lsp_delete
send pcupdate others write ss now p = send_pcupdate others write ss now p

-- An SRP-ID that was free, and the session with its intent.
pub record IsAllocated (ss : Session) (now : ℕ) (p : SrPolicy) (id : ℕ) (allocated : Session)
    : Type 0 where
  pub run : allocate_srp_id ss now p.typ p.metric ≡ ok (id, allocated)
  pub positive : 1 ≤ id
  pub free : intent_at ss.sr_policy_intents id ≡ none

-- What a request that fails leaves behind: an unchanged session, if there was no SRP-ID, and otherwise
-- what the other goroutines made of the session, less the intent of the SRP-ID.
abbrev pub Failed : Others → Session → ℕ → SrPolicy → Session → Type 0
Failed others ss now p ss' =
    (ss' ≡ ss)
    ⊎ ((id : ℕ) × (allocated : Session) × IsAllocated ss now p id allocated
        × IsForgotten (others.until_done (others.until_built allocated)) id ss')

abbrev options : Session → OptParams
options ss = record { pcc_type = ss.pcc_type; originator_asn = ss.asn }

module _ (others : Others) (write : List ℕ → Bool) (ss ss' : Session) (now : ℕ) (p : SrPolicy)
    (e : SendError) (keys : UniqueKeys ss.sr_policy_intents) where
  allocate_srp_id-IsAllocated :
      (id : ℕ) (allocated : Session)
      → allocate_srp_id ss now p.typ p.metric ≡ ok (id, allocated)
      → IsAllocated ss now p id allocated
  allocate_srp_id-IsAllocated id allocated h =
      let (one, below, free, same, unique, view) =
        allocate_srp_id_lem ss allocated now id p.typ p.metric keys h in
      record { run = h; positive = one; free = free }

  unchanged :
      {x : Result SendError (Unit {0})}
      → ◌≡◌ {A = Sent} (x, ss) (err e, ss')
      → Failed others ss now p ss'
  unchanged h = inl (sym (ap (λ r. r.1) h))

  pcinitiate_allocated-Failed :
      (lsp_delete : Bool) (r : Result SrpIdError (ℕ × Session))
      → allocate_srp_id ss now p.typ p.metric ≡ r
      → pcinitiate_allocated others write ss p lsp_delete r ≡ (err e, ss')
      → Failed others ss now p ss'
  unfolding pcinitiate_allocated
  pcinitiate_allocated-Failed lsp_delete (ok (id, allocated)) run h =
      let a = allocate_srp_id-IsAllocated id allocated run in
      inr (
        id,
        allocated,
        a,
        pcinitiate_built-IsForgotten write (others.until_done (others.until_built allocated)) ss' id
            (new_pcinitiate_message id p.name lsp_delete p.plsp_id p.segment_list p.color
              p.preference p.src_addr p.dst_addr (options (others.until_built allocated)))
            e a.positive h,
      )
  pcinitiate_allocated-Failed lsp_delete (err x) run h = unchanged h
  pcinitiate_allocated-Failed lsp_delete panic run h = unchanged h
  pcinitiate_allocated-Failed lsp_delete stuck run h = unchanged h

  pcupdate_allocated-Failed :
      (r : Result SrpIdError (ℕ × Session))
      → allocate_srp_id ss now p.typ p.metric ≡ r
      → pcupdate_allocated others write ss p r ≡ (err e, ss')
      → Failed others ss now p ss'
  unfolding pcupdate_allocated
  pcupdate_allocated-Failed (ok (id, allocated)) run h =
      let a = allocate_srp_id-IsAllocated id allocated run in
      inr (
        id,
        allocated,
        a,
        pcupdate_built-IsForgotten write (others.until_done (others.until_built allocated)) ss' id
            (new_pcupd_message id p.name p.plsp_id p.segment_list) e a.positive h,
      )
  pcupdate_allocated-Failed (err x) run h = unchanged h
  pcupdate_allocated-Failed panic run h = unchanged h
  pcupdate_allocated-Failed stuck run h = unchanged h

  -- A request that fails, be it that its message is not built, not serialized or not written, leaves
  -- no intent under the SRP-ID that it took, which was free before, and changes no other intent and
  -- no policy, whatever other goroutines do to the session in the meantime. Without an SRP-ID it
  -- changes nothing. The keys of the map of intents are assumed to be distinct.
  pub send_undone :
      (request : Request)
      → send request others write ss now p ≡ (err e, ss')
      → Failed others ss now p ss'
  unfolding send send_pcinitiate send_pcupdate
  send_undone (pcinitiate lsp_delete) h =
      pcinitiate_allocated-Failed lsp_delete (allocate_srp_id ss now p.typ p.metric) refl h
  send_undone pcupdate h = pcupdate_allocated-Failed (allocate_srp_id ss now p.typ p.metric) refl h
