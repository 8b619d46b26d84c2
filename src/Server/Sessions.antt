-- ===== src/Server/Sessions.antt =====
-- The sessions of the PCE, pkg/server/server.go: accepting a connection, closing a session, searching.
-- A pointer to a session is a number, and the store gives what it points to.
pub mod Pointers
pub mod Reach
pub mod Search
use pce_testing.Base.{
  ℕ, ◌+◌, ◌≡◌, Bool, true, false, not, ◌&&◌, ◌||◌, List, [], ◌∷◌, ◌++◌, Option, none, some, ◌==◌,
  if◌then◌else◌, ◌⊎◌,
}
use pce_testing.Base.Bytes.{u8}
use pce_testing.Net.{Addr, addr_eq}
use pce_testing.Server.Intents.{clear_sr_policy_intents}
use pce_testing.Server.Session.{Session, new_session, with_policies}

-- `next_session_id` is the variable of the loop in Serve, and `accepted` the number of its rounds,
-- each of which makes the pointer of that number.
pub record Server : Type 0 where
  pub store : ℕ → Session
  pub accepted : ℕ
  pub session_list : List ℕ
  pub next_session_id : ℕ
  pub asn : ℕ

abbrev pub write : (ℕ → Session) → ℕ → Session → ℕ → Session
write store h ss k = if h == k then ss else store k

unfoldable pub new_server : ℕ → Server
unfolding new_session
new_server asn = record {
  store = λ h. new_session 0 Addr.invalid asn;
  accepted = 0;
  session_list = [];
  next_session_id = 1;
  asn = asn;
}

-- A round of Serve.
unfoldable pub accept_session : Server → Addr → Server
unfolding new_session
accept_session sv peer_addr = record {
  store = write sv.store sv.accepted (new_session sv.next_session_id peer_addr sv.asn);
  accepted = sv.accepted + 1;
  session_list = sv.session_list ++ (sv.accepted ∷ []);
  next_session_id = u8 (sv.next_session_id + 1);
  asn = sv.asn;
}

-- The last pointer takes the place of the one at the front, and the list is one shorter.
unfoldable pub last_of : ℕ → List ℕ → ℕ
last_of h [] = h
last_of h (k ∷ ks) = last_of k ks

unfoldable pub without_last : ℕ → List ℕ → List ℕ
without_last h [] = []
without_last h (k ∷ ks) = h ∷ without_last k ks

unfoldable pub swap_out : List ℕ → List ℕ
unfolding last_of without_last
swap_out [] = []
swap_out (h ∷ hs) = last_of h hs ∷ without_last h hs

-- The loop of closeSession, which removes the first session with an ID.
unfoldable pub remove_session : (ℕ → Session) → List ℕ → ℕ → List ℕ
unfolding swap_out
remove_session store [] id = []
remove_session store (h ∷ hs) id =
    let rest = remove_session store hs id in
    if (store h).session_id == id then swap_out hs else h ∷ rest

unfoldable pub close_session : Server → ℕ → Server
unfolding remove_session clear_sr_policy_intents
close_session sv h =
    let ss = sv.store h in
    record sv {
      store =
          write sv.store h
            (with_policies ss ss.sr_policies (clear_sr_policy_intents ss.sr_policy_intents));
      session_list = remove_session sv.store sv.session_list ss.session_id;
    }

unfoldable pub search_session : (ℕ → Session) → List ℕ → Addr → Bool → Option ℕ
search_session store [] peer_addr only_synced = none
search_session store (h ∷ hs) peer_addr only_synced =
    let rest = search_session store hs peer_addr only_synced in
    if addr_eq (store h).peer_addr peer_addr && (not only_synced || (store h).is_synced)
    then some h
    else rest

abbrev pub Listed : ℕ → List ℕ → Type 0
Listed h [] = ⊥
Listed h (k ∷ ks) = (k ≡ h) ⊎ Listed h ks

-- What changes the server: a connection, the end of a session that is in the list, and what a
-- session does to itself meanwhile, which keeps its ID.
pub data Step (sv : Server) : Server → Type 0 where
  accept : (peer_addr : Addr) → Step sv (accept_session sv peer_addr)
  close : (h : ℕ) → Listed h sv.session_list → Step sv (close_session sv h)
  run :
      (h : ℕ) (ss : Session)
      → ss.session_id ≡ (sv.store h).session_id
      → Step sv (record sv { store = write sv.store h ss })

pub data Reachable (asn : ℕ) : Server → Type 0 where
  start : Reachable asn (new_server asn)
  step : {sv sv' : Server} → Reachable asn sv → Step sv sv' → Reachable asn sv'
