-- ===== src/Server/Sessions/Pointers.antt =====
-- The list of pointers to sessions of pkg/server/server.go: what removing one by a swap with the last
-- one does, and lists without repetition.
use mathlib.Core.Path.{subst}
use mathlib.Core.List.{Permᴰ}
use mathlib.Core.List.Permᴰ
use pce_testing.Base.{
  ℕ, ◌+◌, ◌<◌, ◌≡◌, ◌⊎◌, inl, inr, refl, sym, ap, ◌∙◌, true, false, List, [], ◌∷◌, ◌++◌, arith,
  ◌==◌, ==_iff, Bool-cases,
}
use pce_testing.Server.Session.{Session}
use pce_testing.Server.Sessions.{last_of, without_last, swap_out, remove_session, Listed}

swap_last-Perm : (h : ℕ) (hs : List ℕ) → Permᴰ (h ∷ hs) (last_of h hs ∷ without_last h hs)
unfolding last_of without_last
swap_last-Perm h [] = Permᴰ.refl (h ∷ [])
swap_last-Perm h (k ∷ ks) =
    Permᴰ.trans (Permᴰ.cons refl (swap_last-Perm k ks)) (Permᴰ.swap refl refl)

swap_out-Perm : (hs : List ℕ) → Permᴰ hs (swap_out hs)
unfolding swap_out
swap_out-Perm [] = Permᴰ.refl []
swap_out-Perm (h ∷ hs) = swap_last-Perm h hs

remove_here :
    (store : ℕ → Session) (h : ℕ) (hs : List ℕ) (id : ℕ)
    → ((store h).session_id == id) ≡ true
    → remove_session store (h ∷ hs) id ≡ swap_out hs
unfolding remove_session
remove_here store h hs id e = rw e refl

remove_past :
    (store : ℕ → Session) (h : ℕ) (hs : List ℕ) (id : ℕ)
    → ((store h).session_id == id) ≡ false
    → remove_session store (h ∷ hs) id ≡ h ∷ remove_session store hs id
unfolding remove_session
remove_past store h hs id e = rw e refl

-- What the loop removes when a session with the ID is listed: one session, which has the ID.
abbrev pub Removes : (ℕ → Session) → List ℕ → ℕ → Type 0
Removes store hs id =
    (h : ℕ) × Listed h hs × ((store h).session_id ≡ id) × Permᴰ hs (h ∷ remove_session store hs id)

pub remove_session-Removes :
    (store : ℕ → Session) (hs : List ℕ) (id h : ℕ)
    → Listed h hs
    → (store h).session_id ≡ id
    → Removes store hs id
remove_session-Removes store [] id h l e = absurd l
remove_session-Removes store (k ∷ ks) id h l e = elim (Bool-cases ((store k).session_id == id)) [
  | inl t ↦ (
    k,
    inl refl,
    (==_iff (store k).session_id id).0 t,
    rw (remove_here store k ks id t) (Permᴰ.cons refl (swap_out-Perm ks)),
  )
  | inr f ↦
      let later : Listed h ks = elim l [
        | inl here ↦ absurd (differs k here f)
        | inr there ↦ there
      ] in
      let (m, lm, em, p) = remove_session-Removes store ks id h later e in
      (
        m,
        inr lm,
        em,
        rw (remove_past store k ks id f) (Permᴰ.trans (Permᴰ.cons refl p) (Permᴰ.swap refl refl)),
      )
]
  where
    differs : (k : ℕ) → k ≡ h → ((store k).session_id == id) ≡ false → ⊥
    differs k here f =
        let same : (store k).session_id ≡ id = ap (λ n. (store n).session_id) here ∙ e in
        let t : ((store k).session_id == id) ≡ true = (==_iff (store k).session_id id).1 same in cc

-- Every pointer is below a bound.
abbrev pub Below : ℕ → List ℕ → Type 0
Below n [] = Unit {0}
Below n (h ∷ hs) = (h < n) × Below n hs

pub Below-Perm : (n : ℕ) {hs ks : List ℕ} → Permᴰ hs ks → Below n hs → Below n ks
Below-Perm n Permᴰ.nil b = b
Below-Perm n (Permᴰ.cons {a} {b} e p) bs = (rw (← e) (bs.0), Below-Perm n p bs.1)
Below-Perm n (Permᴰ.swap {a} {b} {a'} {b'} {l} e f) bs =
    (rw (← f) (bs.1.0), (rw (← e) (bs.0), bs.1.1))
Below-Perm n (Permᴰ.trans p q) b = Below-Perm n q (Below-Perm n p b)

pub Below-Listed : (n h : ℕ) (hs : List ℕ) → Below n hs → Listed h hs → h < n
Below-Listed n h [] b l = absurd l
Below-Listed n h (k ∷ ks) b l = elim l [
  | inl e ↦ rw (← e) b.0
  | inr there ↦ Below-Listed n h ks b.1 there
]

pub Below-append : (n : ℕ) (hs : List ℕ) → Below n hs → Below (n + 1) (hs ++ (n ∷ []))
Below-append n [] b = (omega arith, tt)
Below-append n (h ∷ hs) b = (let lt = b.0 in omega arith, Below-append n hs b.1)

Listed-Perm : (h : ℕ) {hs ks : List ℕ} → Permᴰ hs ks → Listed h hs → Listed h ks
Listed-Perm h Permᴰ.nil l = l
Listed-Perm h (Permᴰ.cons e p) l = elim l [
  | inl here ↦ inl (sym e ∙ here)
  | inr there ↦ inr (Listed-Perm h p there)
]
Listed-Perm h (Permᴰ.swap e f) l = elim l [
  | inl here ↦ inr (inl (sym e ∙ here))
  | inr there ↦ elim there [ inl next ↦ inl (sym f ∙ next) | inr last ↦ inr (inr last) ]
]
Listed-Perm h (Permᴰ.trans p q) l = Listed-Perm h q (Listed-Perm h p l)

-- No pointer stands twice in the list.
abbrev pub Distinct : List ℕ → Type 0
Distinct [] = Unit {0}
Distinct (h ∷ hs) = (Listed h hs → ⊥) × Distinct hs

pub Distinct-Perm : {hs ks : List ℕ} → Permᴰ hs ks → Distinct hs → Distinct ks
Distinct-Perm Permᴰ.nil d = d
Distinct-Perm (Permᴰ.cons {a} {b} {l₁} {l₂ = ks} e p) d = (
  λ l. d.0 (Listed-Perm a (Permᴰ.symm p) (subst (λ m. Listed m ks) (sym e) l)),
  Distinct-Perm p d.1,
)
Distinct-Perm (Permᴰ.swap {a} {b} {a'} {b'} {l} e f) d = (
  λ x. elim x [
    | inl same ↦ d.0 (inl (f ∙ (sym same ∙ sym e)))
    | inr far ↦ d.1.0 (subst (λ m. Listed m l) (sym f) far)
  ],
  (λ x. d.0 (inr (subst (λ m. Listed m l) (sym e) x)), d.1.1),
)
Distinct-Perm (Permᴰ.trans p q) d = Distinct-Perm q (Distinct-Perm p d)

pub Distinct-append : (n : ℕ) (hs : List ℕ) → Below n hs → Distinct hs → Distinct (hs ++ (n ∷ []))
Distinct-append n [] b d = (λ l. l, tt)
Distinct-append n (h ∷ hs) b d = (
  λ l. elim (Listed-append h n hs l) [ inl old ↦ d.0 old | inr e ↦ (let lt = b.0 in omega arith) ],
  Distinct-append n hs b.1 d.1,
)
  where
    Listed-append : (h n : ℕ) (hs : List ℕ) → Listed h (hs ++ (n ∷ [])) → Listed h hs ⊎ (n ≡ h)
    Listed-append h n [] l = elim l [ inl e ↦ inr e | inr none ↦ absurd none ]
    Listed-append h n (k ∷ ks) l = elim l [
      | inl e ↦ inl (inl e)
      | inr there ↦ elim (Listed-append h n ks there) [ inl old ↦ inl (inr old) | inr e ↦ inr e ]
    ]
