-- ===== src/Server/Policies/Delete.antt =====
-- DeleteSRPolicy of pkg/server/session.go, as an operation on the map of SR Policies.
use mathlib.Core.Option
use pce_testing.Base.{
  ℕ, ◌≡◌, ◌⊎◌, refl, sym, ap, ◌∙◌, Bool, true, false, ◌&&◌, List, [], ◌∷◌, Option, none, some,
  arith, leb, ◌==◌, ==_iff, if◌then◌else◌, Bool-cases, inl, inr,
}
use pce_testing.Table.Policy.{SrPolicy}
use pce_testing.Pcep.Report.{StateReport}
use pce_testing.Server.Session.{Session}
use pce_testing.Server.Policies.{
  search_sr_policy, swap_remove, deletes, remove_policy, delete_sr_policy,
}
use pce_testing.Server.Policies.Table.{
  Unique, search_here, search_past, swap_remove-Unique, search-swap_remove,
}

-- There is a policy, and it is not newer than the LSP-ID.
abbrev pub not_newer : Option SrPolicy → ℕ → Bool
not_newer none lsp_id = false
not_newer (some p) lsp_id = leb p.lsp_id lsp_id

record Removed (ps : List SrPolicy) (id lsp_id : ℕ) (qs : List SrPolicy) : Type 0 where
  removes : remove_policy ps id lsp_id ≡ some qs
  found : not_newer (search_sr_policy ps id) lsp_id ≡ true
  unique : Unique qs
  view : (k : ℕ) → search_sr_policy qs k ≡ (if id == k then none else search_sr_policy ps k)

record Kept (ps : List SrPolicy) (id lsp_id : ℕ) : Type 0 where
  keeps : remove_policy ps id lsp_id ≡ none
  stale : not_newer (search_sr_policy ps id) lsp_id ≡ false

remove_here :
    (p : SrPolicy) (ps : List SrPolicy) (id lsp_id : ℕ)
    → deletes id lsp_id p ≡ true
    → remove_policy (p ∷ ps) id lsp_id ≡ some (swap_remove p ps)
unfolding remove_policy
remove_here p ps id lsp_id e = rw e refl

remove_past :
    (p : SrPolicy) (ps : List SrPolicy) (id lsp_id : ℕ)
    → deletes id lsp_id p ≡ false
    → remove_policy (p ∷ ps) id lsp_id ≡ Option.map (λ qs. p ∷ qs) (remove_policy ps id lsp_id)
unfolding remove_policy
remove_past p ps id lsp_id e = rw e refl

here-Removed :
    (p : SrPolicy) (ps : List SrPolicy) (id lsp_id : ℕ)
    → Unique (p ∷ ps)
    → (p.plsp_id == id) ≡ true
    → leb p.lsp_id lsp_id ≡ true
    → Removed (p ∷ ps) id lsp_id (swap_remove p ps)
here-Removed p ps id lsp_id u e l = record {
  removes = remove_here p ps id lsp_id (rw (e, l) refl);
  found = rw (search_here p ps id e) l;
  unique = swap_remove-Unique p ps u.1;
  view = λ k. search-swap_remove p ps k u.1 ∙ elim (Bool-cases (id == k)) [
    | inl f ↦
        rw f (
          ap (search_sr_policy ps) (sym ((==_iff id k).0 f) ∙ sym ((==_iff p.plsp_id id).0 e))
          ∙ u.0)
    | inr f ↦ rw f (sym (search_past p ps k (ap (λ x. x == k) ((==_iff p.plsp_id id).0 e) ∙ f)))
  ];
}

-- A newer policy is kept, and no other one has its PLSP-ID.
here-Kept :
    (p : SrPolicy) (ps : List SrPolicy) (id lsp_id : ℕ)
    → (p.plsp_id == id) ≡ true
    → leb p.lsp_id lsp_id ≡ false
    → remove_policy ps id lsp_id ≡ none
    → Kept (p ∷ ps) id lsp_id
here-Kept p ps id lsp_id e l h = record {
  keeps = remove_past p ps id lsp_id (rw (e, l) refl) ∙ rw h refl;
  stale = rw (search_here p ps id e) l;
}

past-Kept :
    (p : SrPolicy) (ps : List SrPolicy) (id lsp_id : ℕ)
    → (p.plsp_id == id) ≡ false
    → Kept ps id lsp_id
    → Kept (p ∷ ps) id lsp_id
past-Kept p ps id lsp_id e h = record {
  keeps = remove_past p ps id lsp_id (rw e refl) ∙ rw h.keeps refl;
  stale = rw (search_past p ps id e) h.stale;
}

both_none : (b : Bool) → ◌≡◌ {A = Option SrPolicy} (if b then none else none) none
both_none true = refl
both_none false = refl

past-Removed :
    (p : SrPolicy) (ps qs : List SrPolicy) (id lsp_id : ℕ)
    → Unique (p ∷ ps)
    → (p.plsp_id == id) ≡ false
    → Removed ps id lsp_id qs
    → Removed (p ∷ ps) id lsp_id (p ∷ qs)
past-Removed p ps qs id lsp_id u e h = record {
  removes = remove_past p ps id lsp_id (rw e refl) ∙ rw h.removes refl;
  found = rw (search_past p ps id e) h.found;
  unique = (h.view p.plsp_id ∙ rw u.0 (both_none (id == p.plsp_id)), h.unique);
  view = λ k. elim (Bool-cases (p.plsp_id == k)) [
    | inl f ↦
        let other : (id == k) ≡ false = ground arith in
        search_here p qs k f ∙ rw other (sym (search_here p ps k f))
    | inr f ↦
        search_past p qs k f
        ∙ (h.view k ∙ ap (λ o. if id == k then none else o) (sym (search_past p ps k f)))
  ];
}

absent_not_removed :
    (ps : List SrPolicy) (id lsp_id : ℕ)
    → search_sr_policy ps id ≡ none
    → remove_policy ps id lsp_id ≡ none
absent_not_removed [] id lsp_id h = unfold remove_policy in refl
absent_not_removed (p ∷ ps) id lsp_id h = elim (Bool-cases (p.plsp_id == id)) [
  | inl e ↦ absurd (let bad = sym (search_here p ps id e) ∙ h in cc)
  | inr e ↦
      remove_past p ps id lsp_id (rw e refl)
      ∙ rw (absent_not_removed ps id lsp_id (sym (search_past p ps id e) ∙ h)) refl
]

remove_policy-cases :
    (ps : List SrPolicy) (id lsp_id : ℕ)
    → Unique ps
    → Kept ps id lsp_id ⊎ ((qs : List SrPolicy) × Removed ps id lsp_id qs)
remove_policy-cases [] id lsp_id u =
    inl (record { keeps = unfold remove_policy in refl; stale = unfold search_sr_policy in refl })
remove_policy-cases (p ∷ ps) id lsp_id u = elim (Bool-cases (p.plsp_id == id)) [
  | inl e ↦ elim (Bool-cases (leb p.lsp_id lsp_id)) [
    | inl l ↦ inr (swap_remove p ps, here-Removed p ps id lsp_id u e l)
    | inr l ↦ inl (
        here-Kept p ps id lsp_id e l (
          absent_not_removed ps id lsp_id
            (ap (search_sr_policy ps) (sym ((==_iff p.plsp_id id).0 e)) ∙ u.0)))
  ]
  | inr e ↦ elim (remove_policy-cases ps id lsp_id u.1) [
    | inl k ↦ inl (past-Kept p ps id lsp_id e k)
    | inr (qs, r) ↦ inr (p ∷ qs, past-Removed p ps qs id lsp_id u e r)
  ]
]

and_false : (b : Bool) (o : Option SrPolicy) → o ≡ (if b && false then none else o)
and_false true o = refl
and_false false o = refl

and_true :
    (b : Bool) (o : Option SrPolicy) → (if b then none else o) ≡ (if b && true then none else o)
and_true true o = refl
and_true false o = refl

delete_none :
    (ss : Session) (sr : StateReport)
    → remove_policy ss.sr_policies sr.lsp_object.plsp_id sr.lsp_object.lsp_id ≡ none
    → delete_sr_policy ss sr ≡ ss
unfolding delete_sr_policy
delete_none ss sr h = rw (h, delete_sr_policy) refl

delete_some :
    (ss : Session) (sr : StateReport) (qs : List SrPolicy)
    → remove_policy ss.sr_policies sr.lsp_object.plsp_id sr.lsp_object.lsp_id ≡ some qs
    → (delete_sr_policy ss sr).sr_policies ≡ qs
unfolding delete_sr_policy
delete_some ss sr qs h = rw (h, delete_sr_policy) refl

-- `DeleteSRPolicy` keeps the PLSP-IDs of a session's policies distinct.
pub delete_sr_policy-Unique :
    (ss : Session) (sr : StateReport)
    → Unique ss.sr_policies
    → Unique (delete_sr_policy ss sr).sr_policies
delete_sr_policy-Unique ss sr u =
    elim (remove_policy-cases ss.sr_policies sr.lsp_object.plsp_id sr.lsp_object.lsp_id u) [
      | inl k ↦ rw (delete_none ss sr k.keeps) u
      | inr (qs, r) ↦ rw (delete_some ss sr qs r.removes) r.unique
    ]

-- `DeleteSRPolicy` removes the policy with the report's PLSP-ID exactly when there is one and its
-- LSP-ID is not greater than the report's, and it changes no policy with another PLSP-ID, although
-- it moves the last policy of the list; the distinctness of the PLSP-IDs is assumed.
pub search-delete_sr_policy :
    (ss : Session) (sr : StateReport) (k : ℕ)
    → Unique ss.sr_policies
    → search_sr_policy (delete_sr_policy ss sr).sr_policies k ≡ (
        if sr.lsp_object.plsp_id == k
          && not_newer (search_sr_policy ss.sr_policies sr.lsp_object.plsp_id) sr.lsp_object.lsp_id
        then none
        else search_sr_policy ss.sr_policies k)
search-delete_sr_policy ss sr k u =
    elim (remove_policy-cases ss.sr_policies sr.lsp_object.plsp_id sr.lsp_object.lsp_id u) [
      | inl h ↦ rw (delete_none ss sr h.keeps, h.stale) (and_false (sr.lsp_object.plsp_id == k) _)
      | inr (qs, r) ↦
          rw (delete_some ss sr qs r.removes, r.found)
            (r.view k ∙ and_true (sr.lsp_object.plsp_id == k) _)
    ]
