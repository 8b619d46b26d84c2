-- ===== src/Server/Intents.antt =====
-- The SR Policy intents of a session, pkg/server/session.go: a map from SRP-IDs to what a request
-- asked for.
pub mod Laws
use pce_testing.Base.{
  ℕ, ◌+◌, Bool, true, false, not, List, [], ◌∷◌, Option, none, some, ltb, leb, ◌==◌, if◌then◌else◌,
}
use pce_testing.Table.Policy.{PolicyType, MetricType}

pub record SrPolicyIntent : Type 0 where
  pub pol_type : PolicyType
  pub metric : MetricType
  pub expires_at : ℕ

abbrev pub Intents : Type 0
Intents = List (ℕ × SrPolicyIntent)

-- The map's operations: reading a key, deleting it, and setting it.
unfoldable pub intent_at : Intents → ℕ → Option SrPolicyIntent
intent_at [] k = none
intent_at ((j, v) ∷ m) k = let rest = intent_at m k in if j == k then some v else rest

unfoldable pub delete_intent : Intents → ℕ → Intents
delete_intent [] k = []
delete_intent ((j, v) ∷ m) k =
    let rest = delete_intent m k in if j == k then rest else (j, v) ∷ rest

unfoldable pub set_intent : Intents → ℕ → SrPolicyIntent → Intents
unfolding delete_intent
set_intent m k v = (k, v) ∷ delete_intent m k

abbrev has_intent : Option SrPolicyIntent → Bool
has_intent none = false
has_intent (some v) = true

unfoldable pub sr_policy_intent_exists : Intents → ℕ → Bool
unfolding intent_at
sr_policy_intent_exists m id = has_intent (intent_at m id)

-- The present time and the lifetime are seconds.
unfoldable pub remember_sr_policy_intent : Intents → ℕ → ℕ → ℕ → PolicyType → MetricType → Intents
unfolding set_intent
remember_sr_policy_intent m now ttl id pol_type metric =
    if id == 0
    then m
    else set_intent m id (record { pol_type = pol_type; metric = metric; expires_at = now + ttl })

unfoldable pub take_sr_policy_intent : Intents → ℕ → Option SrPolicyIntent × Intents
unfolding intent_at delete_intent
take_sr_policy_intent m id = if id == 0 then (none, m) else (intent_at m id, delete_intent m id)

unfoldable pub forget_sr_policy_intent : Intents → ℕ → Intents
unfolding delete_intent
forget_sr_policy_intent m id = if id == 0 then m else delete_intent m id

-- The loop deletes the intents whose time has passed.
unfoldable pub sweep_expired_sr_policy_intents : Intents → ℕ → Intents
sweep_expired_sr_policy_intents [] now = []
sweep_expired_sr_policy_intents ((id, v) ∷ m) now =
    let rest = sweep_expired_sr_policy_intents m now in
    if ltb v.expires_at now then rest else (id, v) ∷ rest

unfoldable pub clear_sr_policy_intents : Intents → Intents
clear_sr_policy_intents m = []
