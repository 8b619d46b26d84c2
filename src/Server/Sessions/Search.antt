-- ===== src/Server/Sessions/Search.antt =====
-- What SearchSession of pkg/server/server.go finds.
use pce_testing.Base.{
  ℕ, ◌≡◌, inl, inr, refl, sym, ap, ◌∙◌, Bool, true, false, not, ◌&&◌, ◌||◌, List, [], ◌∷◌, none,
  some, some_inj, Bool-cases, Option-cases,
}
use pce_testing.Net.{Addr, addr_eq}
use pce_testing.Server.Session.{Session}
use pce_testing.Server.Sessions.{Listed, search_session}

-- Whether a session is one that is searched for.
abbrev pub wanted : Addr → Bool → Session → Bool
wanted peer_addr only_synced ss =
    addr_eq ss.peer_addr peer_addr && (not only_synced || ss.is_synced)

found_here :
    (store : ℕ → Session) (h : ℕ) (hs : List ℕ) (a : Addr) (b : Bool)
    → wanted a b (store h) ≡ true
    → search_session store (h ∷ hs) a b ≡ some h
unfolding search_session
found_here store h hs a b e = rw e refl

found_past :
    (store : ℕ → Session) (h : ℕ) (hs : List ℕ) (a : Addr) (b : Bool)
    → wanted a b (store h) ≡ false
    → search_session store (h ∷ hs) a b ≡ search_session store hs a b
unfolding search_session
found_past store h hs a b e = rw e refl

search_session_sound :
    (store : ℕ → Session) (hs : List ℕ) (a : Addr) (b : Bool) (h : ℕ)
    → search_session store hs a b ≡ some h
    → Listed h hs × (wanted a b (store h) ≡ true)
search_session_sound store [] a b h e = absurd (unfold search_session in cc)
search_session_sound store (k ∷ ks) a b h e = elim (Bool-cases (wanted a b (store k))) [
  | inl t ↦
      let same : k ≡ h = some_inj (sym (found_here store k ks a b t) ∙ e) in
      (inl same, sym (ap (λ m. wanted a b (store m)) same) ∙ t)
  | inr f ↦
      let later = search_session_sound store ks a b h (sym (found_past store k ks a b f) ∙ e) in
      (inr later.0, later.1)
]

search_session_complete :
    (store : ℕ → Session) (hs : List ℕ) (a : Addr) (b : Bool) (h : ℕ)
    → search_session store hs a b ≡ none
    → Listed h hs
    → wanted a b (store h) ≡ false
search_session_complete store [] a b h e l = absurd l
search_session_complete store (k ∷ ks) a b h e l = elim (Bool-cases (wanted a b (store k))) [
  | inl t ↦ (let found = found_here store k ks a b t in absurd (cc))
  | inr f ↦ elim l [
    | inl here ↦ sym (ap (λ m. wanted a b (store m)) here) ∙ f
    | inr there ↦
        search_session_complete store ks a b h (sym (found_past store k ks a b f) ∙ e) there
  ]
]

-- `SearchSession` finds a session whenever the list has one with the address that is synchronized,
-- where only such sessions are wanted, and what it finds is such a session of the list.
pub search_session_lem :
    (store : ℕ → Session) (hs : List ℕ) (a : Addr) (b : Bool) (h : ℕ)
    → Listed h hs
    → wanted a b (store h) ≡ true
    → (k : ℕ) × (search_session store hs a b ≡ some k) × Listed k hs × (wanted a b (store k) ≡ true)
search_session_lem store hs a b h l e = elim (Option-cases (search_session store hs a b)) [
  | inl n ↦ (let no = search_session_complete store hs a b h n l in absurd (cc))
  | inr s ↦
      (let (k, found) = s in
        let (listed, good) = search_session_sound store hs a b k found in (k, found, listed, good))
]
