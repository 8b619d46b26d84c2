-- ===== src/Server/Policies/Register.antt =====
-- RegisterSRPolicy of pkg/server/session.go, as an operation on the map of SR Policies.
use pce_testing.Base.{
  ℕ, ◌≤◌, ◌≡◌, refl, sym, ap, ◌∙◌, true, false, List, [], ◌∷◌, ◌++◌, Option, none, some, ok,
  >>=-eq-ok, guarded-eq-ok, ok_inj, arith, leb, ◌==◌, ==_iff, if◌then◌else◌, Bool-cases,
  Option-cases, inl, inr,
}
use pce_testing.Net.{is_valid}
use pce_testing.Table.Segment.{Segment}
use pce_testing.Table.Policy.{SrPolicy, PolicyState, new_sr_policy, update}
use pce_testing.Pcep.Report.{StateReport, association_endpoint}
use pce_testing.Server.Intents.{SrPolicyIntent, take_sr_policy_intent}
use pce_testing.Server.Session.{
  Session, invalid_source_address, invalid_destination_address, resolve_color_preference,
  resolve_policy_state, validate_segment_list,
}
use pce_testing.Server.Policies.{
  search_sr_policy, replace_policy, with_intent, or_address, report_diff, create_policy,
  update_policy, update_or_create_policy, register_sr_policy,
}
use pce_testing.Server.Policies.Table.{
  Unique, or_else, search_plsp, search-append, search-replace_policy, replace_policy-Unique,
  append-Unique,
}

-- The policy that a report leaves at its PLSP-ID: an older report leaves the one that is there, any
-- other changes it or makes a new one, and an intent for the report's SRP-ID gives type and metric.
abbrev pub reported :
    Session → StateReport → List Segment → ℕ → ℕ → PolicyState → Option SrPolicy → SrPolicy
reported ss sr segs color pref state (some p) =
    if leb p.lsp_id sr.lsp_object.lsp_id
    then with_intent (update p (report_diff sr segs color pref state))
        (take_sr_policy_intent ss.sr_policy_intents sr.srp_object.srp_id).0
    else p
reported ss sr segs color pref state none =
    with_intent
      (new_sr_policy sr.lsp_object.plsp_id sr.lsp_object.name segs
        (or_address sr.lsp_object.src_addr sr.association_object.assoc_src)
        (or_address sr.lsp_object.dst_addr (association_endpoint sr.association_object)) color pref
        sr.lsp_object.lsp_id state)
      (take_sr_policy_intent ss.sr_policy_intents sr.srp_object.srp_id).0

with_intent-plsp :
    (p : SrPolicy) (o : Option SrPolicyIntent) → (with_intent p o).plsp_id ≡ p.plsp_id
unfolding with_intent
with_intent-plsp p none = refl
with_intent-plsp p (some i) = refl

with_intent-lsp : (p : SrPolicy) (o : Option SrPolicyIntent) → (with_intent p o).lsp_id ≡ p.lsp_id
unfolding with_intent
with_intent-lsp p none = refl
with_intent-lsp p (some i) = refl

or_none : (a : Option SrPolicy) → or_else a none ≡ a
or_none none = refl
or_none (some a) = refl

module _ (ss : Session) (sr : StateReport) (segs : List Segment) (color pref : ℕ)
    (state : PolicyState) where
  after_found :
      (p : SrPolicy)
      → search_sr_policy ss.sr_policies sr.lsp_object.plsp_id ≡ some p
      → update_or_create_policy ss sr segs color pref state
        ≡ ok (update_policy ss sr p segs color pref state)
  unfolding update_or_create_policy update_policy
  after_found p h = rw (h, update_or_create_policy) refl

  after_absent :
      search_sr_policy ss.sr_policies sr.lsp_object.plsp_id ≡ none
      → update_or_create_policy ss sr segs color pref state
        ≡ create_policy ss sr segs color pref state
  unfolding update_or_create_policy create_policy
  after_absent h = rw (h, update_or_create_policy) refl

  abbrev id : ℕ
  id = sr.lsp_object.plsp_id

  abbrev Registered : Session → Type 0
  Registered ss' =
      Unique ss'.sr_policies
      × ((k : ℕ)
          → search_sr_policy ss'.sr_policies k ≡ (
              if id == k
              then some (reported ss sr segs color pref state (search_sr_policy ss.sr_policies id))
              else search_sr_policy ss.sr_policies k))

  -- The changed policy keeps its PLSP-ID.
  abbrev changed_policy : SrPolicy → SrPolicy
  changed_policy p =
      with_intent (update p (report_diff sr segs color pref state))
        (take_sr_policy_intent ss.sr_policy_intents sr.srp_object.srp_id).0

  changed_policy-plsp : (p : SrPolicy) → (changed_policy p).plsp_id ≡ p.plsp_id
  unfolding update
  changed_policy-plsp p =
      with_intent-plsp (update p (report_diff sr segs color pref state))
        (take_sr_policy_intent ss.sr_policy_intents sr.srp_object.srp_id).0

  newer_changes :
      (p : SrPolicy)
      → leb p.lsp_id sr.lsp_object.lsp_id ≡ true
      → (update_policy ss sr p segs color pref state).sr_policies
        ≡ replace_policy ss.sr_policies id (changed_policy p)
  unfolding update_policy
  newer_changes p l = rw l refl

  older_keeps :
      (p : SrPolicy)
      → leb p.lsp_id sr.lsp_object.lsp_id ≡ false
      → update_policy ss sr p segs color pref state ≡ ss
  unfolding update_policy
  older_keeps p l = rw l refl

  kept_view :
      (p : SrPolicy) (k : ℕ)
      → search_sr_policy ss.sr_policies id ≡ some p
      → search_sr_policy ss.sr_policies k
        ≡ (if id == k then some p else search_sr_policy ss.sr_policies k)
  kept_view p k h = elim (Bool-cases (id == k)) [
    | inl e ↦ rw e (ap (search_sr_policy ss.sr_policies) (sym ((==_iff id k).0 e)) ∙ h)
    | inr e ↦ rw e refl
  ]

  found-Registered :
      (p : SrPolicy)
      → Unique ss.sr_policies
      → search_sr_policy ss.sr_policies id ≡ some p
      → Registered (update_policy ss sr p segs color pref state)
  found-Registered p u h = elim (Bool-cases (leb p.lsp_id sr.lsp_object.lsp_id)) [
    | inl l ↦
        let same = changed_policy-plsp p ∙ search_plsp ss.sr_policies id p h in
        rw (newer_changes p l, h, l)
          (
            replace_policy-Unique ss.sr_policies id (changed_policy p) same u,
            λ k. search-replace_policy ss.sr_policies id k p (changed_policy p) same h,
          )
    | inr l ↦ rw (older_keeps p l, h, l) (u, λ k. kept_view p k h)
  ]

  created_view :
      (q : SrPolicy) (k : ℕ)
      → q.plsp_id ≡ id
      → search_sr_policy ss.sr_policies id ≡ none
      → search_sr_policy (ss.sr_policies ++ (q ∷ [])) k
        ≡ (if id == k then some q else search_sr_policy ss.sr_policies k)
  created_view q k same h = elim (Bool-cases (id == k)) [
    | inl e ↦
        search-append ss.sr_policies q k
        ∙ rw (ap (search_sr_policy ss.sr_policies) (sym ((==_iff id k).0 e)) ∙ h, same, e) refl
    | inr e ↦
        search-append ss.sr_policies q k
        ∙ rw (same, e) (or_none (search_sr_policy ss.sr_policies k))
  ]

  created :
      (ss' : Session)
      → create_policy ss sr segs color pref state ≡ ok ss'
      → ss'.sr_policies ≡ ss.sr_policies ++ (reported ss sr segs color pref state none ∷ [])
  unfolding create_policy
  created ss' e =
      let (valid_src, e1) =
        guarded-eq-ok (is_valid (or_address sr.lsp_object.src_addr sr.association_object.assoc_src))
          invalid_source_address _ e in
      let (valid_dst, e2) =
        guarded-eq-ok
          (is_valid
            (or_address sr.lsp_object.dst_addr (association_endpoint sr.association_object)))
          invalid_destination_address _ e1 in
      ap (λ s. s.sr_policies) (sym (ok_inj e2))

  absent-Registered :
      (ss' : Session)
      → Unique ss.sr_policies
      → search_sr_policy ss.sr_policies id ≡ none
      → create_policy ss sr segs color pref state ≡ ok ss'
      → Registered ss'
  absent-Registered ss' u h e =
      let q = reported ss sr segs color pref state none in
      let same : q.plsp_id ≡ id = unfold new_sr_policy in with_intent-plsp _ _ in
      rw (created ss' e, h)
        (
          append-Unique ss.sr_policies q (ap (search_sr_policy ss.sr_policies) same ∙ h) u,
          λ k. created_view q k same h,
        )

  update_or_create-Registered :
      (ss' : Session)
      → Unique ss.sr_policies
      → update_or_create_policy ss sr segs color pref state ≡ ok ss'
      → Registered ss'
  update_or_create-Registered ss' u e = elim (Option-cases (search_sr_policy ss.sr_policies id)) [
    | inl h ↦ absent-Registered ss' u h (sym (after_absent h) ∙ e)
    | inr (p, h) ↦ rw (ok_inj (sym e ∙ after_found p h)) (found-Registered p u h)
  ]

-- `RegisterSRPolicy`, when it succeeds, keeps the PLSP-IDs of the session's policies distinct and
-- changes only the policy with the report's PLSP-ID: a policy whose LSP-ID is greater than the
-- report's stays as it is, any other takes the report's values, and if there is none a new policy is
-- made of the report.
pub register_sr_policy_lem :
    (ss ss' : Session) (sr : StateReport)
    → Unique ss.sr_policies
    → register_sr_policy ss sr ≡ ok ss'
    → Unique ss'.sr_policies
      × ((segs : List Segment) × (validate_segment_list sr ≡ ok segs)
          × ((k : ℕ)
              → search_sr_policy ss'.sr_policies k ≡ (
                  if sr.lsp_object.plsp_id == k
                  then some (
                      reported ss sr segs
                        (resolve_color_preference ss sr).0
                        (resolve_color_preference ss sr).1
                        (resolve_policy_state sr.lsp_object.o_flag)
                        (search_sr_policy ss.sr_policies sr.lsp_object.plsp_id))
                  else search_sr_policy ss.sr_policies k)))
unfolding register_sr_policy
register_sr_policy_lem ss ss' sr u h =
    let (segs, e, h1) = >>=-eq-ok (validate_segment_list sr) _ h in
    let r =
      update_or_create-Registered ss sr segs (resolve_color_preference ss sr).0
        (resolve_color_preference ss sr).1 (resolve_policy_state sr.lsp_object.o_flag) ss' u h1 in
    (r.0, (segs, e, r.1))

reported-lsp :
    (ss : Session) (sr : StateReport) (segs : List Segment) (color pref : ℕ) (state : PolicyState)
    (p : SrPolicy)
    → p.lsp_id ≤ (reported ss sr segs color pref state (some p)).lsp_id
unfolding update
reported-lsp ss sr segs color pref state p = elim (Bool-cases (leb p.lsp_id sr.lsp_object.lsp_id)) [
  | inl l ↦ rw l (
      rw
        (with_intent-lsp (update p (report_diff sr segs color pref state))
          (take_sr_policy_intent ss.sr_policy_intents sr.srp_object.srp_id).0)
        (ground arith))
  | inr l ↦ rw l (omega arith)
]

-- A policy that is registered stays registered, under any report, and its LSP-ID never decreases.
pub register_sr_policy_advances :
    (ss ss' : Session) (sr : StateReport) (k : ℕ) (p : SrPolicy)
    → Unique ss.sr_policies
    → register_sr_policy ss sr ≡ ok ss'
    → search_sr_policy ss.sr_policies k ≡ some p
    → (q : SrPolicy) × (search_sr_policy ss'.sr_policies k ≡ some q) × (p.lsp_id ≤ q.lsp_id)
register_sr_policy_advances ss ss' sr k p u h found =
    let (u', (segs, e, view)) = register_sr_policy_lem ss ss' sr u h in
    elim (Bool-cases (sr.lsp_object.plsp_id == k)) [
      | inl same ↦
          let here =
            ap (search_sr_policy ss.sr_policies) ((==_iff sr.lsp_object.plsp_id k).0 same)
            ∙ found in
          let q =
            reported ss sr segs (resolve_color_preference ss sr).0
              (resolve_color_preference ss sr).1 (resolve_policy_state sr.lsp_object.o_flag)
              (some p) in
          (q, view k ∙ rw (same, here) refl, reported-lsp ss sr segs _ _ _ p)
      | inr other ↦ (p, view k ∙ (rw other refl ∙ found), omega arith)
    ]
