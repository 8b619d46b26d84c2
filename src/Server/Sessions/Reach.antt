-- ===== src/Server/Sessions/Reach.antt =====
-- The list of sessions of pkg/server/server.go, in every state that the server reaches.
use mathlib.Core.Path.{subst}
use mathlib.Core.List.{Permᴰ}
use pce_testing.Base.{
  ℕ, ◌+◌, ◌%◌, ◌≤◌, ◌<◌, ◌≡◌, ◌⊎◌, inl, inr, refl, sym, ap, ◌∙◌, ◌∷◌, arith, ◌==◌, ==_iff,
  Bool-cases,
}
use pce_testing.Net.{Addr}
use pce_testing.Server.Session.{Session, new_session, with_policies}
use pce_testing.Server.Sessions.Pointers.{
  Removes, remove_session-Removes, Below, Below-Perm, Below-Listed, Below-append, Distinct,
  Distinct-Perm, Distinct-append,
}
use pce_testing.Server.Intents.{clear_sr_policy_intents}
use pce_testing.Server.Sessions.{
  Server, write, new_server, accept_session, remove_session, close_session, Listed, Step, Reachable,
}

-- The IDs follow the order in which the sessions were accepted, modulo 256.
record WellFormed (sv : Server) : Type 0 where
  next : sv.next_session_id ≡ (sv.accepted + 1) % 256
  ids : (h : ℕ) → h < sv.accepted → (sv.store h).session_id ≡ (h + 1) % 256
  below : Below sv.accepted sv.session_list
  distinct : Distinct sv.session_list

new_server-WellFormed : (asn : ℕ) → WellFormed (new_server asn)
unfolding new_server
new_server-WellFormed asn = record {
  next = refl;
  ids = λ h lt. absurd (omega arith);
  below = tt;
  distinct = tt;
}

write_ids :
    (store : ℕ → Session) (h : ℕ) (ss : Session) (k : ℕ)
    → ss.session_id ≡ (h + 1) % 256
    → ((store k).session_id ≡ (k + 1) % 256) ⊎ (h ≡ k)
    → (write store h ss k).session_id ≡ (k + 1) % 256
write_ids store h ss k e c = elim (Bool-cases (h == k)) [
  | inl t ↦ rw t (e ∙ ap (λ m. (m + 1) % 256) ((==_iff h k).0 t))
  | inr f ↦ rw f (elim c [ inl old ↦ old | inr same ↦ absurd (ground arith) ])
]

accept_session-WellFormed :
    (sv : Server) (peer_addr : Addr) → WellFormed sv → WellFormed (accept_session sv peer_addr)
unfolding accept_session new_session
accept_session-WellFormed sv peer_addr w = record {
  next = (let e = w.next in omega arith);
  ids = λ k lt. write_ids sv.store sv.accepted _ k w.next (older k lt);
  below = Below-append sv.accepted sv.session_list w.below;
  distinct = Distinct-append sv.accepted sv.session_list w.below w.distinct;
}
  where
    older :
        (k : ℕ)
        → k < sv.accepted + 1
        → ((sv.store k).session_id ≡ (k + 1) % 256) ⊎ (sv.accepted ≡ k)
    older k lt = elim (Bool-cases (sv.accepted == k)) [
      | inl t ↦ inr ((==_iff sv.accepted k).0 t)
      | inr f ↦ inl (w.ids k (ground arith))
    ]

run-WellFormed :
    (sv : Server) (h : ℕ) (ss : Session)
    → ss.session_id ≡ (sv.store h).session_id
    → WellFormed sv
    → WellFormed (record sv { store = write sv.store h ss })
run-WellFormed sv h ss e w = record {
  next = w.next;
  ids = λ k lt. elim (Bool-cases (h == k)) [
    | inl t ↦ rw t (e ∙ (ap (λ m. (sv.store m).session_id) ((==_iff h k).0 t) ∙ w.ids k lt))
    | inr f ↦ rw f (w.ids k lt)
  ];
  below = w.below;
  distinct = w.distinct;
}

abbrev cleared : Server → ℕ → Session
cleared sv h =
    let ss = sv.store h in
    with_policies ss ss.sr_policies (clear_sr_policy_intents ss.sr_policy_intents)

-- What `closeSession` leaves, where the session is in the list.
closed-Removes :
    (sv : Server) (h : ℕ)
    → Listed h sv.session_list
    → Removes sv.store sv.session_list (sv.store h).session_id
closed-Removes sv h l = remove_session-Removes sv.store sv.session_list _ h l refl

close_session-WellFormed :
    (sv : Server) (h : ℕ)
    → Listed h sv.session_list
    → WellFormed sv
    → WellFormed (close_session sv h)
unfolding close_session
close_session-WellFormed sv h l w =
    let (m, lm, em, p) = closed-Removes sv h l in
    let run = run-WellFormed sv h (cleared sv h) refl w in
    record {
      next = w.next;
      ids = run.ids;
      below = (Below-Perm sv.accepted p w.below).1;
      distinct = (Distinct-Perm p w.distinct).1;
    }

Step-WellFormed : {sv sv' : Server} → Step sv sv' → WellFormed sv → WellFormed sv'
Step-WellFormed {sv} (Step.accept peer_addr) w = accept_session-WellFormed sv peer_addr w
Step-WellFormed {sv} (Step.close h l) w = close_session-WellFormed sv h l w
Step-WellFormed {sv} (Step.run h ss e) w = run-WellFormed sv h ss e w

Reachable-WellFormed : {asn : ℕ} {sv : Server} → Reachable asn sv → WellFormed sv
Reachable-WellFormed {asn} Reachable.start = new_server-WellFormed asn
Reachable-WellFormed (Reachable.step r s) = Step-WellFormed s (Reachable-WellFormed r)

-- `closeSession` removes the session that it closes and no other, and the session is gone from the
-- list, in every state that the server reaches with at most 256 accepted connections.
pub close_session_lem :
    (asn : ℕ) (sv : Server) (h : ℕ)
    → Reachable asn sv
    → sv.accepted ≤ 256
    → Listed h sv.session_list
    → Permᴰ sv.session_list (h ∷ (close_session sv h).session_list)
      × (Listed h (close_session sv h).session_list → ⊥)
unfolding close_session
close_session_lem asn sv h r few l =
    let w = Reachable-WellFormed r in
    let (m, lm, em, p) = closed-Removes sv h l in
    let m_old = Below-Listed sv.accepted m sv.session_list w.below lm in
    let h_old = Below-Listed sv.accepted h sv.session_list w.below l in
    let same : m ≡ h =
      same_pointer m h m_old h_old few (sym (w.ids m m_old) ∙ (em ∙ w.ids h h_old)) in
    let q =
      subst
        (λ k.
          Permᴰ sv.session_list
            (k ∷ remove_session sv.store sv.session_list (sv.store h).session_id))
        same p in
    (q, (Distinct-Perm q w.distinct).0)
  where
    same_pointer :
        (m h : ℕ)
        → m < sv.accepted
        → h < sv.accepted
        → sv.accepted ≤ 256
        → (m + 1) % 256 ≡ (h + 1) % 256
        → m ≡ h
    same_pointer m h a b few e = omega arith
