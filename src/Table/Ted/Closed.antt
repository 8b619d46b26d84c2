-- ===== src/Table/Ted/Closed.antt =====
-- The database of pkg/table/ted.go stays closed: its links stay inside it, and its nodes inside the AS.
use mathlib.Core.Path.{subst}
use pce_testing.Base.{
  ℕ, ◌+◌, ◌<◌, ◌≡◌, ◌⊎◌, inl, inr, refl, sym, ap, ◌∙◌, true, false, List, [], ◌∷◌, ◌++◌, none, some,
  arith, ◌==◌, ==_iff, All, Bool-cases, some_inj,
}
use pce_testing.Net.{bytes_eq}
use pce_testing.Net.Equality.{bytes_eq_iff}
use pce_testing.Table.Ted.{Ted, LsNode, LsLink, find_node}
use pce_testing.Table.Ted.Update.{set_node, add_node}

abbrev Nodes : Type 0
Nodes = List (List ℕ × ℕ)

-- The link starts at the node and ends at a node of the map.
abbrev pub IsInside : Nodes → ℕ → LsLink → Type 0
IsInside nodes p l = (l.local_node ≡ p) × ((k : List ℕ) × (find_node nodes k ≡ some l.remote_node))

pub record IsKeptAt (nodes : Nodes) (allocated asn : ℕ) (n : LsNode) (id : List ℕ) (p : ℕ)
    : Type 0 where
  pub made : p < allocated
  pub key : n.router_id ≡ id
  pub own_asn : n.asn ≡ asn
  pub inside : All (IsInside nodes p) n.links

pub record IsClosed (asn : ℕ) (ted : Ted) : Type 0 where
  pub kept :
      (id : List ℕ) (p : ℕ)
      → find_node ted.nodes id ≡ some p
      → IsKeptAt ted.nodes ted.allocated asn (ted.store p) id p

pub find_here :
    (k : List ℕ) (p : ℕ) (rest : Nodes) (id : List ℕ)
    → bytes_eq k id ≡ true
    → find_node ((k, p) ∷ rest) id ≡ some p
unfolding find_node
find_here k p rest id e = rw e refl

pub find_past :
    (k : List ℕ) (p : ℕ) (rest : Nodes) (id : List ℕ)
    → bytes_eq k id ≡ false
    → find_node ((k, p) ∷ rest) id ≡ find_node rest id
unfolding find_node
find_past k p rest id e = rw e refl

pub find_nil : (id : List ℕ) → find_node [] id ≡ none
unfolding find_node
find_nil id = refl

module _ (k : List ℕ) (a : ℕ) (id : List ℕ) where
  pub find_kept :
      (ns : Nodes) (p : ℕ) → find_node ns id ≡ some p → find_node (ns ++ ((k, a) ∷ [])) id ≡ some p
  find_kept [] p h = absurd (let n = find_nil id in cc)
  find_kept ((j, q) ∷ ns) p h = elim (Bool-cases (bytes_eq j id)) [
    | inl e ↦ find_here j q (ns ++ ((k, a) ∷ [])) id e ∙ (sym (find_here j q ns id e) ∙ h)
    | inr e ↦
        find_past j q (ns ++ ((k, a) ∷ [])) id e ∙ find_kept ns p (sym (find_past j q ns id e) ∙ h)
  ]

  find_new :
      (ns : Nodes) (p : ℕ)
      → find_node (ns ++ ((k, a) ∷ [])) id ≡ some p
      → (find_node ns id ≡ some p) ⊎ ((k ≡ id) × (a ≡ p))
  find_new [] p h = elim (Bool-cases (bytes_eq k id)) [
    | inl e ↦ inr ((bytes_eq_iff k id).0 e, some_inj (sym (find_here k a [] id e) ∙ h))
    | inr e ↦ absurd (let n = find_past k a [] id e in let z = find_nil id in cc)
  ]
  find_new ((j, q) ∷ ns) p h = elim (Bool-cases (bytes_eq j id)) [
    | inl e ↦ inl (find_here j q ns id e ∙ (sym (find_here j q (ns ++ ((k, a) ∷ [])) id e) ∙ h))
    | inr e ↦ elim (find_new ns p (sym (find_past j q (ns ++ ((k, a) ∷ [])) id e) ∙ h)) [
      | inl old ↦ inl (find_past j q ns id e ∙ old)
      | inr new ↦ inr new
    ]
  ]

pub find_added :
    (k : List ℕ) (a : ℕ) (ns : Nodes)
    → find_node ns k ≡ none
    → find_node (ns ++ ((k, a) ∷ [])) k ≡ some a
find_added k a [] h = find_here k a [] k ((bytes_eq_iff k k).1 refl)
find_added k a ((j, q) ∷ ns) h = elim (Bool-cases (bytes_eq j k)) [
  | inl e ↦ absurd (let f = find_here j q ns k e in cc)
  | inr e ↦
      find_past j q (ns ++ ((k, a) ∷ [])) k e ∙ find_added k a ns (sym (find_past j q ns k e) ∙ h)
]

IsInside-kept :
    (ns : Nodes) (k : List ℕ) (a p : ℕ) (ls : List LsLink)
    → All (IsInside ns p) ls
    → All (IsInside (ns ++ ((k, a) ∷ [])) p) ls
IsInside-kept ns k a p [] h = tt
IsInside-kept ns k a p (l ∷ ls) h =
    let (start, (end, found)) = h.0 in
    ((start, (end, find_kept k a end ns l.remote_node found)), IsInside-kept ns k a p ls h.1)

pub IsInside-append :
    (ns : Nodes) (p : ℕ) (ls : List LsLink) (l : LsLink)
    → All (IsInside ns p) ls
    → IsInside ns p l
    → All (IsInside ns p) (ls ++ (l ∷ []))
IsInside-append ns p [] l h k = (k, tt)
IsInside-append ns p (m ∷ ls) l h k = (h.0, IsInside-append ns p ls l h.1 k)

module _ (asn : ℕ) where
  pub set_node-IsClosed :
      (ted : Ted) (id : List ℕ) (p : ℕ) (n : LsNode)
      → IsClosed asn ted
      → find_node ted.nodes id ≡ some p
      → n.router_id ≡ (ted.store p).router_id
      → n.asn ≡ (ted.store p).asn
      → All (IsInside ted.nodes p) n.links
      → IsClosed asn (set_node ted p n)
  set_node-IsClosed ted id p n c f key own inside = record {
    kept = λ j q e. elim (Bool-cases (p == q)) [
      | inl same ↦
          let k = c.kept j q e in
          let pq : p ≡ q = (==_iff p q).0 same in
          let here : IsKeptAt ted.nodes ted.allocated asn n j q = record {
            made = k.made;
            key = key ∙ (ap (λ r. (ted.store r).router_id) pq ∙ k.key);
            own_asn = own ∙ (ap (λ r. (ted.store r).asn) pq ∙ k.own_asn);
            inside = subst (λ r. All (IsInside ted.nodes r) n.links) pq inside;
          } in
          rw same here
      | inr other ↦ rw other (c.kept j q e)
    ];
  }

  pub add_node-IsClosed :
      (ted : Ted) (n : LsNode)
      → IsClosed asn ted
      → n.asn ≡ asn
      → n.links ≡ []
      → IsClosed asn (add_node ted n)
  unfolding add_node
  add_node-IsClosed ted n c own fresh = record {
    kept = λ j q e. elim (find_new n.router_id ted.allocated j ted.nodes q e) [
      | inl old ↦
          let k = c.kept j q old in
          let below = k.made in
          let other : (ted.allocated == q) ≡ false = ground arith in
          let here : IsKeptAt (ted.nodes ++ ((n.router_id, ted.allocated) ∷ [])) (ted.allocated + 1)
              asn (ted.store q) j q =
            record {
              made = omega arith;
              key = k.key;
              own_asn = k.own_asn;
              inside =
                  IsInside-kept ted.nodes n.router_id ted.allocated q (ted.store q).links k.inside;
            } in
          rw other here
      | inr (same, at) ↦
          let there : (ted.allocated == q) ≡ true = (==_iff ted.allocated q).1 at in
          let here : IsKeptAt (ted.nodes ++ ((n.router_id, ted.allocated) ∷ [])) (ted.allocated + 1)
              asn n j q =
            record {
              made = omega arith;
              key = same;
              own_asn = own;
              inside =
                  subst
                    (λ ls. All (IsInside (ted.nodes ++ ((n.router_id, ted.allocated) ∷ [])) q) ls)
                    (sym fresh) tt;
            } in
          rw there here
    ];
  }
