-- ===== src/Server/SrpId.antt =====
-- The choice of an SRP-ID, nextUnusedSRPID of pkg/server/session.go.
use pce_testing.Base.{
  ℕ, zero, suc, ◌+◌, ◌-◌, ◌≤◌, ◌<◌, ◌≡◌, ◌≢◌, ◌⊎◌, inl, inr, refl, sym, ◌∙◌, ap, Bool, true, false,
  ◌||◌, arith, Result, ok, err, panic, stuck, Ends, ok_inj, leb, ◌==◌, ==_iff, if◌then◌else◌,
  Bool-cases,
}
use pce_testing.Base.Bytes.{u32, IsU32}

pub data SrpIdError : Type 0 where
  no_srp_id : SrpIdError

-- `if head == 0 || head >= max { head = 1 }`.
abbrev pub wrapped : ℕ → ℕ → ℕ
wrapped head max = if head == 0 || leb max head then 1 else head

-- The attempts that are left, the head and the bound. The result is the SRP-ID and the next head.
unfoldable pub attempt_srp_ids : ℕ → ℕ → ℕ → (ℕ → Bool) → Result SrpIdError (ℕ × ℕ)
attempt_srp_ids zero head max used = err no_srp_id
attempt_srp_ids (suc attempts) head max used =
    let candidate = wrapped head max in
    let rest = attempt_srp_ids attempts (u32 (candidate + 1)) max used in
    if used candidate then rest else ok (candidate, u32 (candidate + 1))

-- The attempts are the IDs in [1, max - 1].
unfoldable pub next_unused_srp_id : ℕ → ℕ → (ℕ → Bool) → Result SrpIdError (ℕ × ℕ)
unfolding attempt_srp_ids
next_unused_srp_id head max used = attempt_srp_ids (u32 (max + 4294967295)) head max used

wrapped_in_range : (head max : ℕ) → 2 ≤ max → (1 ≤ wrapped head max) × (wrapped head max < max)
wrapped_in_range head max two = ground arith

attempt_used :
    (n head max : ℕ) (used : ℕ → Bool)
    → used (wrapped head max) ≡ true
    → attempt_srp_ids (suc n) head max used
      ≡ attempt_srp_ids n (u32 (wrapped head max + 1)) max used
unfolding attempt_srp_ids
attempt_used n head max used e = rw e refl

attempt_free :
    (n head max : ℕ) (used : ℕ → Bool)
    → used (wrapped head max) ≡ false
    → attempt_srp_ids (suc n) head max used ≡ ok (wrapped head max, u32 (wrapped head max + 1))
unfolding attempt_srp_ids
attempt_free n head max used e = rw e refl

attempt_sound :
    (n head max : ℕ) (used : ℕ → Bool) (id next : ℕ)
    → 2 ≤ max
    → IsU32 max
    → attempt_srp_ids n head max used ≡ ok (id, next)
    → (1 ≤ id) × (id < max) × (used id ≡ false) × (next ≡ id + 1)
attempt_sound zero head max used id next two small h = absurd (unfold attempt_srp_ids in cc)
attempt_sound (suc n) head max used id next two small h =
    elim (Bool-cases (used (wrapped head max))) [
      | inl e ↦
          attempt_sound n (u32 (wrapped head max + 1)) max used id next two small
            (sym (attempt_used n head max used e) ∙ h)
      | inr e ↦
          let pair = ok_inj (sym (attempt_free n head max used e) ∙ h) in
          let same : wrapped head max ≡ id = ap (λ p. p.0) pair in
          let after : u32 (wrapped head max + 1) ≡ next = ap (λ p. p.1) pair in
          let range = wrapped_in_range head max two in
          rw (← same) (
            range.0,
            range.1,
            e,
            sym after
                ∙ (let q : u32 (wrapped head max + 1) ≡ wrapped head max + 1 =
                      omega (arith, range.1) in
                    q),
          )
    ]

-- The IDs that are tried: from the head up to the bound, and then from 1.
abbrev Tried : ℕ → ℕ → ℕ → ℕ → Type 0
Tried n start max id = ((start ≤ id) × (id < start + n)) ⊎ (id + (max - 1) < start + n)

dec_eq : (a b : ℕ) → (a ≡ b) ⊎ (a ≢ b)
dec_eq a b = elim (Bool-cases (a == b)) [
  | inl e ↦ inl ((==_iff a b).0 e)
  | inr e ↦ inr (λ h. absurd (let bad = sym ((==_iff a b).1 h) ∙ e in cc))
]

later :
    (start n max id : ℕ)
    → 1 ≤ start
    → start < max
    → 1 ≤ id
    → id < max
    → id ≢ start
    → Tried (suc n) start max id
    → Tried n (wrapped (start + 1) max) max id
later start n max id one below lo hi other (inl t) = inl (ground arith)
later start n max id one below lo hi other (inr t) = elim (Bool-cases (leb max (start + 1))) [
  | inl e ↦ inl (ground arith)
  | inr e ↦ inr (ground arith)
]

-- An ID that is not the first one tried is among those tried next.
Tried-later :
    (n head max id : ℕ)
    → 2 ≤ max
    → IsU32 max
    → 1 ≤ id
    → id < max
    → id ≢ wrapped head max
    → Tried (suc n) (wrapped head max) max id
    → Tried n (wrapped (u32 (wrapped head max + 1)) max) max id
Tried-later n head max id two small lo hi other tried =
    let range = wrapped_in_range head max two in
    let start = wrapped head max in
    let e : u32 (start + 1) ≡ start + 1 = omega (arith, range.1) in
    rw e (later start n max id range.0 range.1 lo hi other tried)

all-Tried :
    (head max id : ℕ)
    → 2 ≤ max
    → IsU32 max
    → 1 ≤ id
    → id < max
    → Tried (u32 (max + 4294967295)) (wrapped head max) max id
all-Tried head max id two small lo hi =
    let range = wrapped_in_range head max two in
    let e : u32 (max + 4294967295) ≡ max - 1 = omega arith in
    rw e (elim (Bool-cases (leb (wrapped head max) id)) [
      | inl b ↦ inl (ground (arith, range.0, range.1, b))
      | inr b ↦ inr (ground (arith, range.0, range.1, b))
    ])

result_cases :
    (r : Result SrpIdError (ℕ × ℕ)) → Ends r → ((p : ℕ × ℕ) × (r ≡ ok p)) ⊎ (r ≡ err no_srp_id)
result_cases (ok p) h = inl (p, refl)
result_cases (err no_srp_id) h = inr refl
result_cases panic h = elim h [ ]
result_cases stuck h = elim h [ ]

attempt_complete :
    (n head max : ℕ) (used : ℕ → Bool) (id : ℕ)
    → 2 ≤ max
    → IsU32 max
    → attempt_srp_ids n head max used ≡ err no_srp_id
    → 1 ≤ id
    → id < max
    → Tried n (wrapped head max) max id
    → used id ≡ true
attempt_complete zero head max used id two small h lo hi tried =
    let range = wrapped_in_range head max two in absurd (omega (arith, range.0, range.1))
attempt_complete (suc n) head max used id two small h lo hi tried =
    elim (Bool-cases (used (wrapped head max))) [
      | inr e ↦ absurd (let bad = sym (attempt_free n head max used e) ∙ h in cc)
      | inl e ↦ elim (dec_eq id (wrapped head max)) [
        | inl same ↦ ap used same ∙ e
        | inr other ↦
            attempt_complete n (u32 (wrapped head max + 1)) max used id two small
              (sym (attempt_used n head max used e) ∙ h) lo hi
              (Tried-later n head max id two small lo hi other tried)
      ]
    ]

-- `nextUnusedSRPID` gives an SRP-ID outside the reserved values 0 and max, which is not in use, and
-- the next head follows it.
pub next_unused_srp_id_sound :
    (head max : ℕ) (used : ℕ → Bool) (id next : ℕ)
    → 2 ≤ max
    → IsU32 max
    → next_unused_srp_id head max used ≡ ok (id, next)
    → (1 ≤ id) × (id < max) × (used id ≡ false) × (next ≡ id + 1)
unfolding next_unused_srp_id
next_unused_srp_id_sound head max used id next two small h =
    attempt_sound (u32 (max + 4294967295)) head max used id next two small h

-- `nextUnusedSRPID` fails only when every SRP-ID in [1, max - 1] is in use, wherever the head is.
next_unused_srp_id_complete :
    (head max : ℕ) (used : ℕ → Bool) (id : ℕ)
    → 2 ≤ max
    → IsU32 max
    → next_unused_srp_id head max used ≡ err no_srp_id
    → 1 ≤ id
    → id < max
    → used id ≡ true
unfolding next_unused_srp_id
next_unused_srp_id_complete head max used id two small h lo hi =
    attempt_complete (u32 (max + 4294967295)) head max used id two small h lo hi
      (all-Tried head max id two small lo hi)

attempt-Ends : (n head max : ℕ) (used : ℕ → Bool) → Ends (attempt_srp_ids n head max used)
unfolding attempt_srp_ids
attempt-Ends zero head max used = tt
attempt-Ends (suc n) head max used = elim (Bool-cases (used (wrapped head max))) [
  | inl e ↦ rw e (attempt-Ends n (u32 (wrapped head max + 1)) max used)
  | inr e ↦ rw e tt
]

-- `nextUnusedSRPID` finds an SRP-ID whenever one in [1, max - 1] is free.
pub next_unused_srp_id_found :
    (head max : ℕ) (used : ℕ → Bool) (free : ℕ)
    → 2 ≤ max
    → IsU32 max
    → 1 ≤ free
    → free < max
    → used free ≡ false
    → (id : ℕ) × (next : ℕ) × (next_unused_srp_id head max used ≡ ok (id, next))
next_unused_srp_id_found head max used free two small lo hi unused =
    elim (result_cases (next_unused_srp_id head max used)
      (unfold next_unused_srp_id in attempt-Ends (u32 (max + 4294967295)) head max used)) [
        | inl found ↦ (found.0.0, found.0.1, found.1)
        | inr failed ↦ absurd (
            let bad =
              sym unused ∙ next_unused_srp_id_complete head max used free two small failed lo hi in
            cc)
      ]
