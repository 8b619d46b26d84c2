-- ===== src/Cspf/Invariant.antt =====
-- What the loop of spf in pkg/cspf/cspf.go keeps: what is known of each node of its map, and how many
-- nodes have been calculated.
use mathlib.Core.Path.{subst}
use pce_testing.Base.{
  ℕ, suc, ◌+◌, ◌*◌, ◌≤◌, ◌≡◌, ◌⊎◌, inl, inr, refl, sym, ap, ◌∙◌, Bool, true, false, List, [], ◌∷◌,
  some, arith, if◌then◌else◌, Bool-cases, length, In, All, some_inj,
}
use pce_testing.Net.{bytes_eq}
use pce_testing.Net.Equality.{bytes_eq_iff}
use pce_testing.Table.Policy.{MetricType}
use pce_testing.Table.Segment.{Segment}
use pce_testing.Table.Ted.{Ted, find_node}
use pce_testing.Table.Ted.Closed.{find_past, find_nil}
use pce_testing.Cspf.{Node, find, put}
use pce_testing.Cspf.Nodes.{Unique, find-put_self, find-put_other, same_text}
use pce_testing.Cspf.Walk.{Edge, SegmentAt}
use pce_testing.Cspf.Chain.{Chain}

-- The calculated nodes and one more.
abbrev pub add : List ℕ → (List ℕ → Bool) → List ℕ → Bool
add u closed id = if bytes_eq u id then true else closed id

pub add_self : (u : List ℕ) (closed : List ℕ → Bool) → add u closed u ≡ true
add_self u closed = rw (same_text u u refl) refl

pub add_more :
    (u : List ℕ) (closed : List ℕ → Bool) (id : List ℕ) → closed id ≡ true → add u closed id ≡ true
add_more u closed id h = elim (Bool-cases (bytes_eq u id)) [
  | inl e ↦ rw e refl
  | inr e ↦ rw (e, h) refl
]

pub add_cases :
    (u : List ℕ) (closed : List ℕ → Bool) (id : List ℕ)
    → ((u ≡ id) × (add u closed id ≡ true))
      ⊎ ((bytes_eq u id ≡ false) × (add u closed id ≡ closed id))
add_cases u closed id = elim (Bool-cases (bytes_eq u id)) [
  | inl e ↦ inl ((bytes_eq_iff u id).0 e, rw e refl)
  | inr e ↦ inr (e, rw e refl)
]

-- How many entries of the database are calculated.
abbrev pub count : (List ℕ → Bool) → List (List ℕ × ℕ) → ℕ
count closed [] = 0
count closed ((k, p) ∷ rest) = (if closed k then 1 else 0) + count closed rest

pub count_below : (closed : List ℕ → Bool) (ns : List (List ℕ × ℕ)) → count closed ns ≤ length ns
count_below closed [] = omega arith
count_below closed ((k, p) ∷ rest) =
    let later = count_below closed rest in
    elim (Bool-cases (closed k)) [ inl e ↦ rw e (omega arith) | inr e ↦ rw e (omega arith) ]

count_kept :
    (u : List ℕ) (closed : List ℕ → Bool) (ns : List (List ℕ × ℕ))
    → count closed ns ≤ count (add u closed) ns
count_kept u closed [] = omega arith
count_kept u closed ((k, p) ∷ rest) =
    let later = count_kept u closed rest in
    elim (Bool-cases (bytes_eq u k)) [
      | inl e ↦ elim (Bool-cases (closed k)) [
        | inl c ↦ rw (e, c) (omega arith)
        | inr c ↦ rw (e, c) (omega arith)
      ]
      | inr e ↦ rw e (omega arith)
    ]

pub count_raised :
    (u : List ℕ) (closed : List ℕ → Bool) (ns : List (List ℕ × ℕ)) (p : ℕ)
    → find_node ns u ≡ some p
    → closed u ≡ false
    → suc (count closed ns) ≤ count (add u closed) ns
count_raised u closed [] p f o = absurd (let z = find_nil u in cc)
count_raised u closed ((k, q) ∷ rest) p f o = elim (Bool-cases (bytes_eq k u)) [
  | inl e ↦
      let same : k ≡ u = (bytes_eq_iff k u).0 e in
      let now : bytes_eq u k ≡ true = same_text u k (sym same) in
      let old : closed k ≡ false = ap closed same ∙ o in
      let later = count_kept u closed rest in rw (now, old) (omega arith)
  | inr e ↦
      let later = count_raised u closed rest p (past e f) o in
      elim (Bool-cases (bytes_eq u k)) [
        | inl n ↦ absurd (let s = same_text k u (sym ((bytes_eq_iff u k).0 n)) in cc)
        | inr n ↦ rw n (omega arith)
      ]
]
  where
    past : bytes_eq k u ≡ false → find_node ((k, q) ∷ rest) u ≡ some p → find_node rest u ≡ some p
    past e f = sym (find_past k q rest u e) ∙ f

-- A node after `put` is the one that was put, or one that was there.
pub put_cases :
    (ns : List Node) (m : Node) (id : List ℕ) (n : Node)
    → find (put ns m) id ≡ some n
    → ((m.id ≡ id) × (m ≡ n)) ⊎ ((bytes_eq m.id id ≡ false) × (find ns id ≡ some n))
put_cases ns m id n f = elim (Bool-cases (bytes_eq m.id id)) [
  | inl e ↦
      let same : m.id ≡ id = (bytes_eq_iff m.id id).0 e in
      inl (same, some_inj (sym (find-put_self ns m) ∙ (ap (find (put ns m)) same ∙ f)))
  | inr e ↦ inr (e, sym (find-put_other ns m id e) ∙ f)
]

pub In-All : {A : Type 0} (P : A → Type 0) (xs : List A) (x : A) → All P xs → In x xs → P x
In-All P [] x h i = absurd i
In-All P (y ∷ ys) x h i = elim i [
  | inl here ↦ subst P here h.0
  | inr there ↦ In-All P ys x h.1 there
]

module _ (ted : Ted) (t : MetricType) (src : List ℕ) (bound : ℕ) where
  -- A node of the map, when `made` nodes have been calculated.
  pub record IsGood (closed : List ℕ → Bool) (nodes : List Node) (made : ℕ) (id : List ℕ) (n : Node)
      : Type 0 where
    pub segs : List Segment
    pub chain : Chain ted t src closed nodes made id n.cost segs
    pub segment : SegmentAt ted t id n.node_segment
    pub cheap : n.cost ≤ made * bound

  -- The map between two rounds.
  pub record IsSearch (closed : List ℕ → Bool) (nodes : List Node) (made : ℕ) : Type 0 where
    pub unique : Unique nodes
    pub good : (id : List ℕ) (n : Node) → find nodes id ≡ some n → IsGood closed nodes made id n
    pub closed_found : (id : List ℕ) → closed id ≡ true → (n : Node) × (find nodes id ≡ some n)
    pub order :
        (i j : List ℕ) (m n : Node)
        → find nodes i ≡ some m
        → closed i ≡ true
        → find nodes j ≡ some n
        → closed j ≡ false
        → m.cost ≤ n.cost
    pub source : (n : Node) × (find nodes src ≡ some n) × (n.cost ≡ 0)
    pub agrees : (id : List ℕ) (n : Node) → find nodes id ≡ some n → n.calculated ≡ closed id
    pub settled :
        (v x : List ℕ) (n : Node) (w : ℕ)
        → find nodes v ≡ some n
        → closed v ≡ true
        → Edge ted t v x w
        → (m : Node) × (find nodes x ≡ some m) × (m.cost ≤ n.cost + w)
    pub few : made ≤ count closed ted.nodes
