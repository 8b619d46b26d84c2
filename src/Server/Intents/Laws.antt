-- ===== src/Server/Intents/Laws.antt =====
-- What the operations on a session's intents do to the map, key by key.
use pce_testing.Base.{
  ℕ, ◌≡◌, refl, sym, ap, ◌∙◌, Bool, true, false, [], ◌∷◌, Option, none, some, arith, ltb, ◌==◌,
  ==_refl, ==_iff, if◌then◌else◌, Bool-cases, inl, inr,
}
use pce_testing.Server.Intents.{
  SrPolicyIntent, Intents, intent_at, delete_intent, set_intent, sweep_expired_sr_policy_intents,
}

pub intent_at-delete_intent :
    (m : Intents) (j k : ℕ)
    → intent_at (delete_intent m j) k ≡ (if j == k then none else intent_at m k)
unfolding intent_at delete_intent
intent_at-delete_intent [] j k = ground arith
intent_at-delete_intent ((i, v) ∷ m) j k = ground (arith, intent_at-delete_intent m j k)

pub intent_at-set_intent :
    (m : Intents) (j k : ℕ) (v : SrPolicyIntent)
    → intent_at (set_intent m j v) k ≡ (if j == k then some v else intent_at m k)
unfolding intent_at set_intent
intent_at-set_intent m j k v = ground (arith, intent_at-delete_intent m j k)

-- No two entries share a key, as in a Go map.
abbrev pub UniqueKeys : Intents → Type 0
UniqueKeys [] = Unit {0}
UniqueKeys ((k, v) ∷ m) = (intent_at m k ≡ none) × UniqueKeys m

-- What is left of an intent at a time.
abbrev pub unexpired : ℕ → Option SrPolicyIntent → Option SrPolicyIntent
unexpired now none = none
unexpired now (some v) = if ltb v.expires_at now then none else some v

intent_here :
    (j k : ℕ) (v : SrPolicyIntent) (m : Intents)
    → (j == k) ≡ true
    → intent_at ((j, v) ∷ m) k ≡ some v
unfolding intent_at
intent_here j k v m e = rw e refl

intent_past :
    (j k : ℕ) (v : SrPolicyIntent) (m : Intents)
    → (j == k) ≡ false
    → intent_at ((j, v) ∷ m) k ≡ intent_at m k
unfolding intent_at
intent_past j k v m e = rw e refl

sweep_gone :
    (j : ℕ) (v : SrPolicyIntent) (m : Intents) (now : ℕ)
    → ltb v.expires_at now ≡ true
    → sweep_expired_sr_policy_intents ((j, v) ∷ m) now ≡ sweep_expired_sr_policy_intents m now
unfolding sweep_expired_sr_policy_intents
sweep_gone j v m now e = rw e refl

sweep_kept :
    (j : ℕ) (v : SrPolicyIntent) (m : Intents) (now : ℕ)
    → ltb v.expires_at now ≡ false
    → sweep_expired_sr_policy_intents ((j, v) ∷ m) now
      ≡ (j, v) ∷ sweep_expired_sr_policy_intents m now
unfolding sweep_expired_sr_policy_intents
sweep_kept j v m now e = rw e refl

-- `sweepExpiredSRPolicyIntents` removes the intents whose time has passed and keeps all others, where
-- the keys of the map are distinct.
pub intent_at-sweep :
    (m : Intents) (now k : ℕ)
    → UniqueKeys m
    → intent_at (sweep_expired_sr_policy_intents m now) k ≡ unexpired now (intent_at m k)
intent_at-sweep [] now k u = unfold intent_at sweep_expired_sr_policy_intents in refl
intent_at-sweep ((j, v) ∷ m) now k u = elim (Bool-cases (ltb v.expires_at now)) [
  | inl gone ↦
      ap (λ l. intent_at l k) (sweep_gone j v m now gone)
      ∙ (intent_at-sweep m now k u.1 ∙ elim (Bool-cases (j == k)) [
        | inl e ↦
            ap (λ o. unexpired now o) (ap (intent_at m) (sym ((==_iff j k).0 e)) ∙ u.0)
            ∙ sym (ap (λ o. unexpired now o) (intent_here j k v m e) ∙ rw gone refl)
        | inr e ↦ ap (λ o. unexpired now o) (sym (intent_past j k v m e))
      ])
  | inr kept ↦ ap (λ l. intent_at l k) (sweep_kept j v m now kept) ∙ elim (Bool-cases (j == k)) [
    | inl e ↦
        intent_here j k v (sweep_expired_sr_policy_intents m now) e
        ∙ sym (ap (λ o. unexpired now o) (intent_here j k v m e) ∙ rw kept refl)
    | inr e ↦
        intent_past j k v (sweep_expired_sr_policy_intents m now) e
        ∙ (intent_at-sweep m now k u.1 ∙ ap (λ o. unexpired now o) (sym (intent_past j k v m e)))
  ]
]

delete_gone :
    (j k : ℕ) (v : SrPolicyIntent) (m : Intents)
    → (j == k) ≡ true
    → delete_intent ((j, v) ∷ m) k ≡ delete_intent m k
unfolding delete_intent
delete_gone j k v m e = rw e refl

delete_kept :
    (j k : ℕ) (v : SrPolicyIntent) (m : Intents)
    → (j == k) ≡ false
    → delete_intent ((j, v) ∷ m) k ≡ (j, v) ∷ delete_intent m k
unfolding delete_intent
delete_kept j k v m e = rw e refl

if_none : (b : Bool) → ◌≡◌ {A = Option SrPolicyIntent} (if b then none else none) none
if_none true = refl
if_none false = refl

pub delete_intent-UniqueKeys : (m : Intents) (k : ℕ) → UniqueKeys m → UniqueKeys (delete_intent m k)
delete_intent-UniqueKeys [] k u = unfold delete_intent in tt
delete_intent-UniqueKeys ((j, v) ∷ m) k u = elim (Bool-cases (j == k)) [
  | inl e ↦ rw (delete_gone j k v m e) (delete_intent-UniqueKeys m k u.1)
  | inr e ↦
      rw (delete_kept j k v m e) (
        intent_at-delete_intent m k j ∙ rw u.0 (if_none (k == j)),
        delete_intent-UniqueKeys m k u.1,
      )
]

pub set_intent-UniqueKeys :
    (m : Intents) (k : ℕ) (v : SrPolicyIntent) → UniqueKeys m → UniqueKeys (set_intent m k v)
unfolding set_intent
set_intent-UniqueKeys m k v u =
    (intent_at-delete_intent m k k ∙ rw (==_refl k) refl, delete_intent-UniqueKeys m k u)
