-- ===== src/Server/Errors.antt =====
-- handlePCErr of pkg/server/session.go: the intents of the reported requests are forgotten.
use pce_testing.Base.{
  ℕ, ◌≡◌, refl, ap, ◌∙◌, Bool, true, false, not, ◌&&◌, ◌||◌, List, [], ◌∷◌, Option, none, arith,
  ◌==◌, if◌then◌else◌, Bool-cases, inl, inr,
}
use pce_testing.Pcep.PcErr.{PcErrMessage, srp_ids}
use pce_testing.Server.Intents.{Intents, SrPolicyIntent, intent_at, forget_sr_policy_intent}
use pce_testing.Server.Intents.Laws.{intent_at-delete_intent}
use pce_testing.Server.Session.{Session, with_policies}

unfoldable pub forget_all : Intents → List ℕ → Intents
unfolding forget_sr_policy_intent
forget_all m [] = m
forget_all m (id ∷ ids) = forget_all (forget_sr_policy_intent m id) ids

unfoldable pub handle_pcerr : Session → PcErrMessage → Session
unfolding forget_all srp_ids
handle_pcerr ss m =
    with_policies ss ss.sr_policies (forget_all ss.sr_policy_intents (srp_ids m.srps))

-- Whether an SRP-ID is one of those.
abbrev pub listed : List ℕ → ℕ → Bool
listed [] k = false
listed (id ∷ ids) k = (id == k) || listed ids k

intent_at-forget :
    (m : Intents) (id k : ℕ)
    → intent_at (forget_sr_policy_intent m id) k
      ≡ (if (id == k) && not (k == 0) then none else intent_at m k)
unfolding forget_sr_policy_intent
intent_at-forget m id k = elim (Bool-cases (id == 0)) [
  | inl zero_id ↦ rw zero_id (elim (Bool-cases (id == k)) [
    | inl e ↦ (let z : (k == 0) ≡ true = ground arith in rw (e, z) refl)
    | inr e ↦ rw e refl
  ])
  | inr e ↦ rw e (
      intent_at-delete_intent m id k
      ∙ same_test (id == k) (k == 0) (intent_at m k) (λ h. ground arith))
]
  where
    same_test :
        (a z : Bool) (o : Option SrPolicyIntent)
        → (a ≡ true → z ≡ false)
        → (if a then none else o) ≡ (if a && not z then none else o)
    same_test true z o h = rw (h refl) refl
    same_test false z o h = refl

forget_all_lem :
    (ids : List ℕ) (m : Intents) (k : ℕ)
    → intent_at (forget_all m ids) k
      ≡ (if listed ids k && not (k == 0) then none else intent_at m k)
unfolding forget_all
forget_all_lem [] m k = refl
forget_all_lem (id ∷ ids) m k =
    forget_all_lem ids (forget_sr_policy_intent m id) k
    ∙ (ap (λ o. if listed ids k && not (k == 0) then none else o) (intent_at-forget m id k)
        ∙ one_or_other (id == k) (listed ids k) (not (k == 0)) (intent_at m k))
  where
    one_or_other :
        (a b z : Bool) (o : Option SrPolicyIntent)
        → (if b && z then none else (if a && z then none else o))
          ≡ (if (a || b) && z then none else o)
    one_or_other true true true o = refl
    one_or_other true true false o = refl
    one_or_other true false z o = refl
    one_or_other false true true o = refl
    one_or_other false true false o = refl
    one_or_other false false z o = refl

-- `handlePCErr` forgets the intents of exactly the SRP-IDs that the message names, except the
-- reserved SRP-ID 0, and keeps the session's policies.
pub handle_pcerr_lem :
    (ss : Session) (m : PcErrMessage) (k : ℕ)
    → ((handle_pcerr ss m).sr_policies ≡ ss.sr_policies)
      × (intent_at (handle_pcerr ss m).sr_policy_intents k ≡ (
          if listed (srp_ids m.srps) k && not (k == 0)
          then none
          else intent_at ss.sr_policy_intents k))
unfolding handle_pcerr
handle_pcerr_lem ss m k = (refl, forget_all_lem (srp_ids m.srps) ss.sr_policy_intents k)
