-- ===== src/Server/Policies/Table.antt =====
-- The list of SR Policies of pkg/server/session.go as a map from PLSP-IDs, and what changing a policy
-- in place, appending one and the swap with the last one do to it.
use pce_testing.Base.{
  ℕ, ◌≡◌, refl, sym, ap, ◌∙◌, true, false, List, [], ◌∷◌, ◌++◌, Option, none, some, arith, ◌==◌,
  ==_iff, if◌then◌else◌, Bool-cases, Option-cases, some_inj, inl, inr,
}
use pce_testing.Table.Policy.{SrPolicy}
use pce_testing.Server.Policies.{search_sr_policy, replace_policy, last_or, drop_last, swap_remove}

-- No two policies share a PLSP-ID.
abbrev pub Unique : List SrPolicy → Type 0
Unique [] = Unit {0}
Unique (p ∷ ps) = (search_sr_policy ps p.plsp_id ≡ none) × Unique ps

abbrev pub or_else : Option SrPolicy → Option SrPolicy → Option SrPolicy
or_else none b = b
or_else (some a) b = some a

abbrev pub single : SrPolicy → ℕ → Option SrPolicy
single p k = if p.plsp_id == k then some p else none

pub search-append :
    (ps : List SrPolicy) (p : SrPolicy) (k : ℕ)
    → search_sr_policy (ps ++ (p ∷ [])) k ≡ or_else (search_sr_policy ps k) (single p k)
unfolding search_sr_policy
search-append [] p k = refl
search-append (q ∷ ps) p k = elim (Bool-cases (q.plsp_id == k)) [
  | inl e ↦ rw e refl
  | inr e ↦ rw e (search-append ps p k)
]

pub search_here :
    (p : SrPolicy) (ps : List SrPolicy) (k : ℕ)
    → (p.plsp_id == k) ≡ true
    → search_sr_policy (p ∷ ps) k ≡ some p
unfolding search_sr_policy
search_here p ps k e = rw e refl

pub search_past :
    (p : SrPolicy) (ps : List SrPolicy) (k : ℕ)
    → (p.plsp_id == k) ≡ false
    → search_sr_policy (p ∷ ps) k ≡ search_sr_policy ps k
unfolding search_sr_policy
search_past p ps k e = rw e refl

replace_here :
    (p q : SrPolicy) (ps : List SrPolicy) (k : ℕ)
    → (p.plsp_id == k) ≡ true
    → replace_policy (p ∷ ps) k q ≡ q ∷ ps
unfolding replace_policy
replace_here p q ps k e = rw e refl

replace_past :
    (p q : SrPolicy) (ps : List SrPolicy) (k : ℕ)
    → (p.plsp_id == k) ≡ false
    → replace_policy (p ∷ ps) k q ≡ p ∷ replace_policy ps k q
unfolding replace_policy
replace_past p q ps k e = rw e refl

search_empty : (k : ℕ) (p : SrPolicy) → search_sr_policy [] k ≡ some p → ⊥
unfolding search_sr_policy
search_empty k p h = absurd (cc)

pub search_plsp :
    (ps : List SrPolicy) (k : ℕ) (p : SrPolicy) → search_sr_policy ps k ≡ some p → p.plsp_id ≡ k
search_plsp [] k p h = absurd (search_empty k p h)
search_plsp (q ∷ ps) k p h = elim (Bool-cases (q.plsp_id == k)) [
  | inl e ↦
      let same : q ≡ p = some_inj (sym (search_here q ps k e) ∙ h) in
      ap (λ r. r.plsp_id) (sym same) ∙ (==_iff q.plsp_id k).0 e
  | inr e ↦ search_plsp ps k p (sym (search_past q ps k e) ∙ h)
]

eq_test : (a b c : ℕ) → a ≡ b → (a == c) ≡ (b == c)
eq_test a b c h = ap (λ x. x == c) h

past :
    (r : SrPolicy) (ps : List SrPolicy) (id k : ℕ) (q : SrPolicy)
    → (r.plsp_id == id) ≡ false
    → search_sr_policy (replace_policy ps id q) k
      ≡ (if id == k then some q else search_sr_policy ps k)
    → search_sr_policy (r ∷ replace_policy ps id q) k
      ≡ (if id == k then some q else search_sr_policy (r ∷ ps) k)
past r ps id k q e ih = elim (Bool-cases (r.plsp_id == k)) [
  | inl f ↦
      let other : (id == k) ≡ false = ground arith in
      search_here r (replace_policy ps id q) k f ∙ rw other (sym (search_here r ps k f))
  | inr f ↦
      search_past r (replace_policy ps id q) k f
      ∙ (ih ∙ ap (λ o. if id == k then some q else o) (sym (search_past r ps k f)))
]

-- The policy found is replaced, and no other key changes.
pub search-replace_policy :
    (ps : List SrPolicy) (id k : ℕ) (p q : SrPolicy)
    → q.plsp_id ≡ id
    → search_sr_policy ps id ≡ some p
    → search_sr_policy (replace_policy ps id q) k
      ≡ (if id == k then some q else search_sr_policy ps k)
search-replace_policy [] id k p q same found = absurd (search_empty id p found)
search-replace_policy (r ∷ ps) id k p q same found = elim (Bool-cases (r.plsp_id == id)) [
  | inl e ↦ rw (replace_here r q ps id e) (elim (Bool-cases (id == k)) [
    | inl f ↦ search_here q ps k (eq_test q.plsp_id id k same ∙ f) ∙ rw f refl
    | inr f ↦
        search_past q ps k (eq_test q.plsp_id id k same ∙ f)
        ∙ rw f (sym (search_past r ps k (eq_test r.plsp_id id k ((==_iff r.plsp_id id).0 e) ∙ f)))
  ])
  | inr e ↦ rw (replace_past r q ps id e) (
      past r ps id k q e
        (search-replace_policy ps id k p q same (sym (search_past r ps id e) ∙ found)))
]

-- Looking a key up in a list that is taken apart at its end.
search-last :
    (q : SrPolicy) (qs : List SrPolicy) (k : ℕ)
    → search_sr_policy (q ∷ qs) k
      ≡ or_else (search_sr_policy (drop_last (q ∷ qs)) k) (single (last_or q qs) k)
unfolding search_sr_policy drop_last last_or
search-last q [] k = refl
search-last q (r ∷ rs) k = elim (Bool-cases (q.plsp_id == k)) [
  | inl e ↦ rw e refl
  | inr e ↦ rw e (search-last r rs k)
]

not_sym : (a b : ℕ) → (a == b) ≡ false → (b == a) ≡ false
not_sym a b h = ground arith

or_else-none : (a : Option SrPolicy) → or_else a none ≡ a
or_else-none none = refl
or_else-none (some a) = refl

replace_absent :
    (ps : List SrPolicy) (id : ℕ) (q : SrPolicy)
    → search_sr_policy ps id ≡ none
    → replace_policy ps id q ≡ ps
replace_absent [] id q h = unfold replace_policy in refl
replace_absent (r ∷ ps) id q h = elim (Bool-cases (r.plsp_id == id)) [
  | inl e ↦ absurd (let bad = sym (search_here r ps id e) ∙ h in cc)
  | inr e ↦
      replace_past r q ps id e
      ∙ ap (λ l. r ∷ l) (replace_absent ps id q (sym (search_past r ps id e) ∙ h))
]

absent_kept :
    (ps : List SrPolicy) (id k : ℕ) (q : SrPolicy)
    → q.plsp_id ≡ id
    → (id == k) ≡ false
    → search_sr_policy ps k ≡ none
    → search_sr_policy (replace_policy ps id q) k ≡ none
absent_kept ps id k q same other h = elim (Option-cases (search_sr_policy ps id)) [
  | inl e ↦ ap (λ l. search_sr_policy l k) (replace_absent ps id q e) ∙ h
  | inr (p, e) ↦ search-replace_policy ps id k p q same e ∙ rw other h
]

-- In place, the PLSP-IDs stay as they are.
pub replace_policy-Unique :
    (ps : List SrPolicy) (id : ℕ) (q : SrPolicy)
    → q.plsp_id ≡ id
    → Unique ps
    → Unique (replace_policy ps id q)
replace_policy-Unique [] id q same u = unfold replace_policy in tt
replace_policy-Unique (r ∷ ps) id q same u = elim (Bool-cases (r.plsp_id == id)) [
  | inl e ↦
      rw (replace_here r q ps id e)
        (ap (search_sr_policy ps) (same ∙ sym ((==_iff r.plsp_id id).0 e)) ∙ u.0, u.1)
  | inr e ↦ rw (replace_past r q ps id e) (
    absent_kept ps id r.plsp_id q same (not_sym r.plsp_id id e) u.0,
    replace_policy-Unique ps id q same u.1,
  )
]

pub append-Unique :
    (ps : List SrPolicy) (p : SrPolicy)
    → search_sr_policy ps p.plsp_id ≡ none
    → Unique ps
    → Unique (ps ++ (p ∷ []))
append-Unique [] p h u = (h, tt)
append-Unique (q ∷ ps) p h u = elim (Bool-cases (q.plsp_id == p.plsp_id)) [
  | inl e ↦ absurd (let bad = sym (search_here q ps p.plsp_id e) ∙ h in cc)
  | inr e ↦
      let tail = sym (search_past q ps p.plsp_id e) ∙ h in
      (
        search-append ps p q.plsp_id ∙ rw (u.0, not_sym q.plsp_id p.plsp_id e) refl,
        append-Unique ps p tail u.1,
      )
]

none_parts : (a b : Option SrPolicy) → or_else a b ≡ none → (a ≡ none) × (b ≡ none)
none_parts none b h = (refl, h)
none_parts (some a) b h = absurd (cc)

single-none : (p : SrPolicy) (k : ℕ) → single p k ≡ none → (p.plsp_id == k) ≡ false
single-none p k h = ground arith

drop_last-Unique :
    (q : SrPolicy) (qs : List SrPolicy)
    → Unique (q ∷ qs)
    → Unique (drop_last (q ∷ qs))
      × (search_sr_policy (drop_last (q ∷ qs)) (last_or q qs).plsp_id ≡ none)
unfolding drop_last last_or
drop_last-Unique q [] u = (tt, unfold search_sr_policy in refl)
drop_last-Unique q (r ∷ rs) u =
    let (inner, free) = drop_last-Unique r rs u.1 in
    let (before, after) =
      none_parts (search_sr_policy (drop_last (r ∷ rs)) q.plsp_id) (single (last_or r rs) q.plsp_id)
        (sym (search-last r rs q.plsp_id) ∙ u.0) in
    let other =
      not_sym (last_or r rs).plsp_id q.plsp_id (single-none (last_or r rs) q.plsp_id after) in
    ((before, inner), search_past q (drop_last (r ∷ rs)) (last_or r rs).plsp_id other ∙ free)

-- Moving the last policy to the front keeps the map and its uniqueness.
pub swap_remove-Unique : (p : SrPolicy) (ps : List SrPolicy) → Unique ps → Unique (swap_remove p ps)
unfolding swap_remove
swap_remove-Unique p [] u = tt
swap_remove-Unique p (q ∷ qs) u = let d = drop_last-Unique q qs u in (d.1, d.0)

pub search-swap_remove :
    (p : SrPolicy) (ps : List SrPolicy) (k : ℕ)
    → Unique ps
    → search_sr_policy (swap_remove p ps) k ≡ search_sr_policy ps k
unfolding swap_remove
search-swap_remove p [] k u = refl
search-swap_remove p (q ∷ qs) k u =
    let D = drop_last (q ∷ qs) in
    let z = last_or q qs in
    let free = (drop_last-Unique q qs u).1 in
    elim (Bool-cases (z.plsp_id == k)) [
      | inl e ↦
          let gone : search_sr_policy D k ≡ none =
            ap (search_sr_policy D) (sym ((==_iff z.plsp_id k).0 e)) ∙ free in
          search_here z D k e ∙ sym (search-last q qs k ∙ rw (gone, e) refl)
      | inr e ↦
          search_past z D k e
          ∙ sym (search-last q qs k ∙ rw e (or_else-none (search_sr_policy D k)))
    ]
