-- ===== src/Cspf/Nodes.antt =====
-- The map of nodes of pkg/cspf/cspf.go, and which node nextNode chooses.
use pce_testing.Base.{
  ℕ, ◌≡◌, ◌≢◌, inl, inr, refl, sym, ap, ◌∙◌, true, false, List, [], ◌∷◌, none, some, Bool-cases,
  some_inj, In,
}
use pce_testing.Net.{bytes_eq}
use pce_testing.Net.Equality.{bytes_eq_iff}
use pce_testing.Cspf.{Node, find, put}

pub find_nil : (id : List ℕ) → find [] id ≡ none
unfolding find
find_nil id = refl

pub find_here :
    (n : Node) (ns : List Node) (id : List ℕ) → bytes_eq n.id id ≡ true → find (n ∷ ns) id ≡ some n
unfolding find
find_here n ns id e = rw e refl

pub find_past :
    (n : Node) (ns : List Node) (id : List ℕ)
    → bytes_eq n.id id ≡ false
    → find (n ∷ ns) id ≡ find ns id
unfolding find
find_past n ns id e = rw e refl

put_here :
    (n : Node) (ns : List Node) (m : Node) → bytes_eq n.id m.id ≡ true → put (n ∷ ns) m ≡ m ∷ ns
unfolding put
put_here n ns m e = rw e refl

put_past :
    (n : Node) (ns : List Node) (m : Node)
    → bytes_eq n.id m.id ≡ false
    → put (n ∷ ns) m ≡ n ∷ put ns m
unfolding put
put_past n ns m e = rw e refl

put_nil : (m : Node) → put [] m ≡ m ∷ []
unfolding put
put_nil m = refl

pub same_text : (a b : List ℕ) → a ≡ b → bytes_eq a b ≡ true
same_text a b e = (bytes_eq_iff a b).1 e

pub other_text : (a b : List ℕ) → bytes_eq a b ≡ false → a ≢ b
other_text a b h e = let t = same_text a b e in cc

pub differ : (a b : List ℕ) → a ≢ b → bytes_eq a b ≡ false
differ a b h = elim (Bool-cases (bytes_eq a b)) [
  | inl e ↦ absurd (h ((bytes_eq_iff a b).0 e))
  | inr e ↦ e
]

pub find-id : (ns : List Node) (id : List ℕ) (n : Node) → find ns id ≡ some n → n.id ≡ id
find-id [] id n h = absurd (let z = find_nil id in cc)
find-id (m ∷ ns) id n h = elim (Bool-cases (bytes_eq m.id id)) [
  | inl e ↦ ap (λ k. k.id) (some_inj (sym h ∙ find_here m ns id e)) ∙ (bytes_eq_iff m.id id).0 e
  | inr e ↦ find-id ns id n (sym (find_past m ns id e) ∙ h)
]

pub find-In : (ns : List Node) (id : List ℕ) (n : Node) → find ns id ≡ some n → In n ns
find-In [] id n h = absurd (let z = find_nil id in cc)
find-In (m ∷ ns) id n h = elim (Bool-cases (bytes_eq m.id id)) [
  | inl e ↦ inl (some_inj (sym (find_here m ns id e) ∙ h))
  | inr e ↦ inr (find-In ns id n (sym (find_past m ns id e) ∙ h))
]

-- No two nodes have one ID.
abbrev pub Unique : List Node → Type 0
Unique [] = Unit {0}
Unique (n ∷ ns) = (find ns n.id ≡ none) × Unique ns

pub In-find : (ns : List Node) (n : Node) → Unique ns → In n ns → find ns n.id ≡ some n
In-find [] n u i = absurd i
In-find (m ∷ ns) n u i = elim (Bool-cases (bytes_eq m.id n.id)) [
  | inl e ↦ elim i [
    | inl here ↦ find_here m ns n.id e ∙ ap some here
    | inr there ↦
        let found = In-find ns n u.1 there in
        let gone = ap (find ns) (sym ((bytes_eq_iff m.id n.id).0 e)) ∙ u.0 in absurd (cc)
  ]
  | inr e ↦ elim i [
    | inl here ↦ absurd (other_text m.id n.id e (ap (λ k. k.id) here))
    | inr there ↦ find_past m ns n.id e ∙ In-find ns n u.1 there
  ]
]

pub find-put_self : (ns : List Node) (m : Node) → find (put ns m) m.id ≡ some m
find-put_self [] m =
    ap (λ l. find l m.id) (put_nil m) ∙ find_here m [] m.id (same_text m.id m.id refl)
find-put_self (n ∷ ns) m = elim (Bool-cases (bytes_eq n.id m.id)) [
  | inl e ↦
      ap (λ l. find l m.id) (put_here n ns m e) ∙ find_here m ns m.id (same_text m.id m.id refl)
  | inr e ↦
      ap (λ l. find l m.id) (put_past n ns m e)
      ∙ (find_past n (put ns m) m.id e ∙ find-put_self ns m)
]

pub find-put_other :
    (ns : List Node) (m : Node) (id : List ℕ)
    → bytes_eq m.id id ≡ false
    → find (put ns m) id ≡ find ns id
find-put_other [] m id h = ap (λ l. find l id) (put_nil m) ∙ find_past m [] id h
find-put_other (n ∷ ns) m id h = elim (Bool-cases (bytes_eq n.id m.id)) [
  | inl e ↦
      let away : bytes_eq n.id id ≡ false =
        differ n.id id (λ s. other_text m.id id h (sym ((bytes_eq_iff n.id m.id).0 e) ∙ s)) in
      ap (λ l. find l id) (put_here n ns m e) ∙ (find_past m ns id h ∙ sym (find_past n ns id away))
  | inr e ↦ ap (λ l. find l id) (put_past n ns m e) ∙ elim (Bool-cases (bytes_eq n.id id)) [
    | inl f ↦ find_here n (put ns m) id f ∙ sym (find_here n ns id f)
    | inr f ↦ find_past n (put ns m) id f ∙ (find-put_other ns m id h ∙ sym (find_past n ns id f))
  ]
]

not_equal_sym : (a b : List ℕ) → bytes_eq a b ≡ false → bytes_eq b a ≡ false
not_equal_sym a b h = differ b a (λ e. other_text a b h (sym e))

pub put-Unique : (ns : List Node) (m : Node) → Unique ns → Unique (put ns m)
put-Unique [] m u = rw (put_nil m) (find_nil m.id, tt)
put-Unique (n ∷ ns) m u = elim (Bool-cases (bytes_eq n.id m.id)) [
  | inl e ↦ rw (put_here n ns m e) (ap (find ns) (sym ((bytes_eq_iff n.id m.id).0 e)) ∙ u.0, u.1)
  | inr e ↦
      rw (put_past n ns m e)
        (find-put_other ns m n.id (not_equal_sym n.id m.id e) ∙ u.0, put-Unique ns m u.1)
]
