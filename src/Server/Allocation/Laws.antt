-- ===== src/Server/Allocation/Laws.antt =====
-- What an allocated SRP-ID is.
use pce_testing.Base.{
  ℕ, ◌+◌, ◌≤◌, ◌<◌, ◌≡◌, refl, sym, ap, ◌∙◌, true, false, Option, none, some, ok, >>=-eq-ok, ok_inj,
  arith, ◌==◌, if◌then◌else◌,
}
use pce_testing.Table.Policy.{PolicyType, MetricType}
use pce_testing.Server.SrpId.{next_unused_srp_id, next_unused_srp_id_sound}
use pce_testing.Server.Intents.{
  Intents, SrPolicyIntent, intent_at, set_intent, sr_policy_intent_exists,
  remember_sr_policy_intent,
}
use pce_testing.Server.Intents.Laws.{UniqueKeys, set_intent-UniqueKeys, intent_at-set_intent}
use pce_testing.Server.Session.{Session}
use pce_testing.Server.Allocation.{allocate_srp_id, max_uint32}

abbrev pub intent_of : Session → ℕ → PolicyType → MetricType → SrPolicyIntent
intent_of ss now pol_type metric = record {
  pol_type = pol_type;
  metric = metric;
  expires_at = now + ss.sr_policy_intent_ttl;
}

absent_of : (m : Intents) (k : ℕ) → sr_policy_intent_exists m k ≡ false → intent_at m k ≡ none
unfolding sr_policy_intent_exists
absent_of m k h = by_cases (intent_at m k) h
  where
    by_cases :
        (o : Option SrPolicyIntent) → (elim o [ none ↦ false | some v ↦ true ]) ≡ false → o ≡ none
    by_cases none h = refl
    by_cases (some v) h = absurd (cc)

remembered :
    (m : Intents) (now ttl id : ℕ) (t : PolicyType) (c : MetricType)
    → 1 ≤ id
    → remember_sr_policy_intent m now ttl id t c
      ≡ set_intent m id (record { pol_type = t; metric = c; expires_at = now + ttl })
unfolding remember_sr_policy_intent
remembered m now ttl id t c h = let e : (id == 0) ≡ false = ground arith in rw e refl

-- `allocateSRPID`, when it succeeds, gives an SRP-ID that is neither 0 nor 0xFFFFFFFF and that no
-- intent of the session had, records the request's intent under it, and changes no other intent and
-- none of the session's policies; the intents keep distinct SRP-IDs.
pub allocate_srp_id_lem :
    (ss ss' : Session) (now id : ℕ) (t : PolicyType) (c : MetricType)
    → UniqueKeys ss.sr_policy_intents
    → allocate_srp_id ss now t c ≡ ok (id, ss')
    → (1 ≤ id)
      × (id < max_uint32)
      × (intent_at ss.sr_policy_intents id ≡ none)
      × (ss'.sr_policies ≡ ss.sr_policies)
      × UniqueKeys ss'.sr_policy_intents
      × ((k : ℕ)
          → intent_at ss'.sr_policy_intents k
            ≡ (if id == k then some (intent_of ss now t c) else intent_at ss.sr_policy_intents k))
unfolding allocate_srp_id
allocate_srp_id_lem ss ss' now id t c u h =
    let used = sr_policy_intent_exists ss.sr_policy_intents in
    let ((found, next), e, h1) =
      >>=-eq-ok (next_unused_srp_id ss.srp_id_head max_uint32 used) _ h in
    let pair = ok_inj h1 in
    let same : found ≡ id = ap (λ p. p.0) pair in
    let (one, below, free, after) =
      next_unused_srp_id_sound ss.srp_id_head max_uint32 used found next (omega arith) (omega arith)
        e in
    let stored : ss'.sr_policy_intents
        ≡ set_intent ss.sr_policy_intents found (intent_of ss now t c) =
      ap (λ p. p.1.sr_policy_intents) (sym pair)
      ∙ remembered ss.sr_policy_intents now ss.sr_policy_intent_ttl found t c one in
    rw (← same) (
      one,
      below,
      absent_of ss.sr_policy_intents found free,
      ap (λ p. p.1.sr_policies) (sym pair),
      (rw stored (set_intent-UniqueKeys ss.sr_policy_intents found (intent_of ss now t c) u)),
      λ k.
          ap (λ m. intent_at m k) stored
          ∙ intent_at-set_intent ss.sr_policy_intents found k (intent_of ss now t c),
    )
