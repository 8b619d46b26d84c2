-- ===== src/Server/Policies.antt =====
-- The table of SR Policies of a session, pkg/server/session.go: searching, registering and deleting.
pub mod Table
pub mod Register
pub mod Delete
use pce_testing.Base.{
  ℕ, Bool, true, false, ◌&&◌, List, [], ◌∷◌, ◌++◌, Option, none, some, Result, ok, err, ◌>>=◌, ◌>>◌,
  guard, leb, ◌==◌, if◌then◌else◌,
}
use mathlib.Core.Option
use pce_testing.Net.{Addr, is_valid, addr_eq}
use pce_testing.Pcep.Report.{StateReport, association_endpoint}
use pce_testing.Table.Segment.{Segment}
use pce_testing.Table.Policy.{SrPolicy, PolicyState, PolicyDiff, new_sr_policy, update}
use pce_testing.Server.Intents.{
  Intents, SrPolicyIntent, take_sr_policy_intent, forget_sr_policy_intent,
}
use pce_testing.Server.Session.{
  Session, SessionError, invalid_source_address, invalid_destination_address, with_policies,
  resolve_color_preference, resolve_policy_state, validate_segment_list,
}

unfoldable pub search_sr_policy : List SrPolicy → ℕ → Option SrPolicy
search_sr_policy [] id = none
search_sr_policy (p ∷ ps) id =
    let rest = search_sr_policy ps id in if p.plsp_id == id then some p else rest

unfoldable pub search_plsp_id : List SrPolicy → ℕ → Addr → Option ℕ
search_plsp_id [] color endpoint = none
search_plsp_id (p ∷ ps) color endpoint =
    let rest = search_plsp_id ps color endpoint in
    if p.color == color && addr_eq p.dst_addr endpoint then some p.plsp_id else rest

-- `p.Type = intent.polType` and `p.Metric = intent.metric`, when there is an intent.
unfoldable pub with_intent : SrPolicy → Option SrPolicyIntent → SrPolicy
with_intent p none = p
with_intent p (some intent) = record {
  plsp_id = p.plsp_id;
  name = p.name;
  segment_list = p.segment_list;
  src_addr = p.src_addr;
  dst_addr = p.dst_addr;
  color = p.color;
  preference = p.preference;
  lsp_id = p.lsp_id;
  state = p.state;
  typ = intent.pol_type;
  metric = intent.metric;
}

-- The first policy with the PLSP-ID is changed in place, through the pointer that the search gives.
unfoldable pub replace_policy : List SrPolicy → ℕ → SrPolicy → List SrPolicy
replace_policy [] id q = []
replace_policy (p ∷ ps) id q =
    let rest = replace_policy ps id q in if p.plsp_id == id then q ∷ ps else p ∷ rest

abbrev pub or_address : Addr → Addr → Addr
or_address a b = if is_valid a then a else b

abbrev pub report_diff : StateReport → List Segment → ℕ → ℕ → PolicyState → PolicyDiff
report_diff sr segment_list color preference state = record {
  name = some sr.lsp_object.name;
  color = some color;
  preference = some preference;
  segment_list = some segment_list;
  lsp_id = sr.lsp_object.lsp_id;
  state = state;
}

-- A policy that is not in the table yet.
unfoldable pub create_policy :
    Session → StateReport → List Segment → ℕ → ℕ → PolicyState → Result SessionError Session
unfolding association_endpoint new_sr_policy take_sr_policy_intent with_intent
create_policy ss sr segment_list color preference state =
    let lsp = sr.lsp_object in
    let src = or_address lsp.src_addr sr.association_object.assoc_src in
    let dst = or_address lsp.dst_addr (association_endpoint sr.association_object) in
    do
      guard (is_valid src) invalid_source_address
      guard (is_valid dst) invalid_destination_address
      let p =
          new_sr_policy lsp.plsp_id lsp.name segment_list src dst color preference lsp.lsp_id state
      let taken = take_sr_policy_intent ss.sr_policy_intents sr.srp_object.srp_id
      ok (with_policies ss (ss.sr_policies ++ (with_intent p taken.0 ∷ [])) taken.1)

-- A policy that is in the table is changed unless the report is older.
unfoldable pub update_policy :
    Session → StateReport → SrPolicy → List Segment → ℕ → ℕ → PolicyState → Session
unfolding update take_sr_policy_intent with_intent replace_policy
update_policy ss sr p segment_list color preference state =
    if leb p.lsp_id sr.lsp_object.lsp_id
    then (let taken = take_sr_policy_intent ss.sr_policy_intents sr.srp_object.srp_id in
        let q = update p (report_diff sr segment_list color preference state) in
        with_policies ss
          (replace_policy ss.sr_policies sr.lsp_object.plsp_id (with_intent q taken.0)) taken.1)
    else ss

unfoldable pub update_or_create_policy :
    Session → StateReport → List Segment → ℕ → ℕ → PolicyState → Result SessionError Session
unfolding search_sr_policy update_policy create_policy
update_or_create_policy ss sr segment_list color preference state =
    elim (search_sr_policy ss.sr_policies sr.lsp_object.plsp_id) [
      | some p ↦ ok (update_policy ss sr p segment_list color preference state)
      | none ↦ create_policy ss sr segment_list color preference state
    ]

unfoldable pub register_sr_policy : Session → StateReport → Result SessionError Session
unfolding resolve_color_preference resolve_policy_state validate_segment_list
    update_or_create_policy
register_sr_policy ss sr = do
  segment_list ← validate_segment_list sr
  update_or_create_policy ss sr segment_list (resolve_color_preference ss sr).0
      (resolve_color_preference ss sr).1 (resolve_policy_state sr.lsp_object.o_flag)

-- The last policy of a list, and the list without it.
unfoldable pub last_or : SrPolicy → List SrPolicy → SrPolicy
last_or p [] = p
last_or p (q ∷ qs) = last_or q qs

unfoldable pub drop_last : List SrPolicy → List SrPolicy
drop_last [] = []
drop_last (p ∷ []) = []
drop_last (p ∷ q ∷ qs) = p ∷ drop_last (q ∷ qs)

-- The last policy takes the place of the one at the front, and the list is one shorter.
unfoldable pub swap_remove : SrPolicy → List SrPolicy → List SrPolicy
unfolding last_or drop_last
swap_remove p [] = []
swap_remove p (q ∷ qs) = last_or q qs ∷ drop_last (q ∷ qs)

-- Whether a deletion of the report finds the policy: the same PLSP-ID, and not newer.
abbrev pub deletes : ℕ → ℕ → SrPolicy → Bool
deletes id lsp_id p = p.plsp_id == id && leb p.lsp_id lsp_id

-- The table without the first policy that is found, if there is one.
unfoldable pub remove_policy : List SrPolicy → ℕ → ℕ → Option (List SrPolicy)
unfolding swap_remove
remove_policy [] id lsp_id = none
remove_policy (p ∷ ps) id lsp_id =
    let rest = Option.map (λ qs. p ∷ qs) (remove_policy ps id lsp_id) in
    if deletes id lsp_id p then some (swap_remove p ps) else rest

unfoldable pub delete_sr_policy : Session → StateReport → Session
unfolding remove_policy forget_sr_policy_intent
delete_sr_policy ss sr =
    elim (remove_policy ss.sr_policies sr.lsp_object.plsp_id sr.lsp_object.lsp_id) [
      | none ↦ ss
      | some ps ↦
          with_policies ss ps (forget_sr_policy_intent ss.sr_policy_intents sr.srp_object.srp_id)
    ]
