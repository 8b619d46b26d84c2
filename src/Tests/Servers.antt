-- ===== src/Tests/Servers.antt =====
-- A server with two sessions, and the end of the first.
use mathlib.Core.List.{Permᴰ}
use pce_testing.Base.{ℕ, ◌≡◌, ◌≤◌, inl, inr, refl, true, false, [], ◌∷◌, some, arith}
use pce_testing.Net.{Addr, v4, addr_eq}
use pce_testing.Server.Session.{new_session}
use pce_testing.Server.Sessions.{
  Server, new_server, accept_session, close_session, Listed, Step, Reachable, search_session,
}
use pce_testing.Server.Sessions.Reach.{close_session_lem}
use pce_testing.Server.Sessions.Search.{search_session_lem, wanted}

abbrev router : ℕ → Addr
router n = v4 (192 ∷ 0 ∷ 2 ∷ n ∷ [])

abbrev two_sessions : Server
two_sessions = accept_session (accept_session (new_server 65000) (router 1)) (router 2)

two_sessions-Reachable : Reachable 65000 two_sessions
two_sessions-Reachable =
    Reachable.step (Reachable.step Reachable.start (Step.accept (router 1)))
      (Step.accept (router 2))

two_sessions-Listed : Listed 0 two_sessions.session_list
unfolding accept_session new_server
two_sessions-Listed = inl refl

two_sessions_few : two_sessions.accepted ≤ 256
unfolding accept_session new_server
two_sessions_few = omega arith

close_session_lem_example :
    Permᴰ two_sessions.session_list (0 ∷ (close_session two_sessions 0).session_list)
    × (Listed 0 (close_session two_sessions 0).session_list → ⊥)
close_session_lem_example =
    close_session_lem 65000 two_sessions 0 two_sessions-Reachable two_sessions_few
      two_sessions-Listed

first_closed : (close_session two_sessions 0).session_list ≡ 1 ∷ []
unfolding accept_session new_server close_session
first_closed = refl

second-Listed : Listed 1 two_sessions.session_list
unfolding accept_session new_server
second-Listed = inr (inl refl)

second-wanted : wanted (router 2) false (two_sessions.store 1) ≡ true
unfolding accept_session new_server new_session addr_eq
second-wanted = refl

search_session_lem_example :
    (k : ℕ) × (search_session two_sessions.store two_sessions.session_list (router 2) false
      ≡ some k)
    × Listed k two_sessions.session_list
    × (wanted (router 2) false (two_sessions.store k) ≡ true)
search_session_lem_example =
    search_session_lem two_sessions.store two_sessions.session_list (router 2) false 1 second-Listed
      second-wanted
