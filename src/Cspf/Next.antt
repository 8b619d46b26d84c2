-- ===== src/Cspf/Next.antt =====
-- nextNode of pkg/cspf/cspf.go chooses a node of least cost, in whatever order it visits the map.
use mathlib.Core.List.{Permᴰ}
use pce_testing.Base.{
  ℕ, ◌≤◌, ◌≡◌, ◌≢◌, ◌⊎◌, inl, inr, refl, sym, ap, ◌∙◌, true, false, List, [], ◌∷◌, some, arith, ok,
  err, ltb, if◌then◌else◌, Bool-cases, some_inj, In, In-Perm,
}
use pce_testing.Net.{bytes_eq}
use pce_testing.Cspf.{Node, find, cost_of, better, next_from, next_node, next_node_not_found}
use pce_testing.Cspf.Nodes.{Unique, In-find, differ, same_text}

module _ (all : List Node) where
  better_calculated : (best : List ℕ) (y : Node) → y.calculated ≡ true → better all best y ≡ best
  better_calculated best y c = rw c refl

  better_first :
      (best : List ℕ) (y : Node)
      → y.calculated ≡ false
      → bytes_eq best [] ≡ true
      → better all best y ≡ y.id
  better_first best y c e = rw (c, e) refl

  better_cost :
      (best : List ℕ) (y b : Node)
      → y.calculated ≡ false
      → bytes_eq best [] ≡ false
      → find all best ≡ some b
      → better all best y ≡ (if ltb y.cost b.cost then y.id else best)
  better_cost best y b c e f =
      let cost : cost_of (find all best) ≡ b.cost = ap cost_of f in rw (c, e, cost) refl

  -- The choice so far: none, or a node that is not calculated.
  abbrev IsChoice : List ℕ → Type 0
  IsChoice best =
      (best ≡ []) ⊎ ((b : Node) × (find all best ≡ some b) × (b.calculated ≡ false) × (best ≢ []))

  -- What the choice has become after the nodes of a list.
  record IsLeast (best : List ℕ) (xs : List Node) (r : List ℕ) (n : Node) : Type 0 where
    found : find all r ≡ some n
    open_node : n.calculated ≡ false
    named : r ≢ []
    least : (m : Node) → In m xs → m.calculated ≡ false → n.cost ≤ m.cost
    below : (b : Node) → find all best ≡ some b → best ≢ [] → n.cost ≤ b.cost

  abbrev Becomes : List ℕ → List Node → List ℕ → Type 0
  Becomes best xs r =
      ((r ≡ []) × (best ≡ []) × ((m : Node) → In m xs → m.calculated ≡ true))
      ⊎ ((n : Node) × IsLeast best xs r n)

  -- A node of the list that is no better than the choice changes nothing.
  kept :
      (best : List ℕ) (y : Node) (xs : List Node) (r : List ℕ)
      → (y.calculated ≡ true)
        ⊎ ((b : Node) × (find all best ≡ some b) × (best ≢ []) × (b.cost ≤ y.cost))
      → Becomes best xs r
      → Becomes best (y ∷ xs) r
  kept best y xs r why (inr (n, l)) = inr (
    n,
    record {
      found = l.found;
      open_node = l.open_node;
      named = l.named;
      least = λ m i o. elim i [
        | inl here ↦ elim why [
          | inl c ↦ absurd (let d = ap (λ k. k.calculated) here in cc)
          | inr (b, f, ne, le) ↦
              let lb = l.below b f ne in let cost = ap (λ k. k.cost) here in omega arith
        ]
        | inr there ↦ l.least m there o
      ];
      below = l.below;
    },
  )
  kept best y xs r why (inl (er, eb, done)) = inl (
    er,
    eb,
    λ m i. elim i [
      | inl here ↦ elim why [
        | inl c ↦ sym (ap (λ k. k.calculated) here) ∙ c
        | inr (b, f, ne, le) ↦ absurd (ne eb)
      ]
      | inr there ↦ done m there
    ],
  )

  -- A node that becomes the choice.
  replaced :
      (best : List ℕ) (y : Node) (xs : List Node) (r : List ℕ)
      → find all y.id ≡ some y
      → y.id ≢ []
      → ((b : Node) → find all best ≡ some b → best ≢ [] → y.cost ≤ b.cost)
      → Becomes y.id xs r
      → Becomes best (y ∷ xs) r
  replaced best y xs r fy ny lower (inl (er, ey, done)) = absurd (ny ey)
  replaced best y xs r fy ny lower (inr (n, l)) = inr (
    n,
    record {
      found = l.found;
      open_node = l.open_node;
      named = l.named;
      least = λ m i o. elim i [
        | inl here ↦ (let le = l.below y fy ny in let cost = ap (λ k. k.cost) here in omega arith)
        | inr there ↦ l.least m there o
      ];
      below = λ b f ne. (let le = l.below y fy ny in let lo = lower b f ne in omega arith);
    },
  )

  next_from-Becomes :
      (xs : List Node) (best : List ℕ)
      → ((x : Node) → In x xs → find all x.id ≡ some x)
      → ((x : Node) → In x xs → x.id ≢ [])
      → IsChoice best
      → Becomes best xs (next_from all best xs)
  unfolding next_from
  next_from-Becomes [] best known named (inl e) = inl (e, e, λ m i. absurd i)
  next_from-Becomes [] best known named (inr (b, f, o, ne)) = inr (
    b,
    record {
      found = f;
      open_node = o;
      named = ne;
      least = λ m i c. absurd i;
      below = λ c g h. (let same = ap (λ k. k.cost) (some_inj (sym f ∙ g)) in omega arith);
    },
  )
  next_from-Becomes (y ∷ xs) best known named choice =
      let next = λ (best' : List ℕ) (c : IsChoice best').
        next_from-Becomes xs best' (λ x i. known x (inr i)) (λ x i. named x (inr i)) c in
      let fy = known y (inl refl) in
      let ny = named y (inl refl) in
      elim (Bool-cases y.calculated) [
        | inl c ↦
            rw (better_calculated best y c)
              (kept best y xs (next_from all best xs) (inl c) (next best choice))
        | inr o ↦ elim choice [
          | inl e ↦ rw (better_first best y o (same_text best [] e)) (
              replaced best y xs (next_from all y.id xs) fy ny (λ b f ne. absurd (ne e))
                (next y.id (inr (y, fy, o, ny))))
          | inr (b, f, ob, ne) ↦
              let changed = better_cost best y b o (differ best [] ne) f in
              elim (Bool-cases (ltb y.cost b.cost)) [
                | inl less ↦
                    rw (changed, less)
                      (replaced best y xs (next_from all y.id xs) fy ny
                        (λ c g h.
                          (let same = ap (λ k. k.cost) (some_inj (sym f ∙ g)) in ground arith))
                        (next y.id (inr (y, fy, o, ny))))
                | inr more ↦
                    rw (changed, more)
                      (kept best y xs (next_from all best xs) (inr (b, f, ne, ground arith))
                        (next best (inr (b, f, ob, ne))))
              ]
        ]
      ]

-- A node that nextNode may choose.
pub record IsNext (nodes : List Node) (id : List ℕ) (n : Node) : Type 0 where
  pub found : find nodes id ≡ some n
  pub open_node : n.calculated ≡ false
  pub least : (m : Node) → In m nodes → m.calculated ≡ false → n.cost ≤ m.cost

pub next_node-IsNext :
    (nodes visited : List Node)
    → Permᴰ visited nodes
    → Permᴰ nodes visited
    → Unique nodes
    → ((n : Node) → In n nodes → n.id ≢ [])
    → ((id : List ℕ) × (n : Node) × (next_node nodes visited ≡ ok id) × IsNext nodes id n)
      ⊎ ((next_node nodes visited ≡ err next_node_not_found)
          × ((m : Node) → In m nodes → m.calculated ≡ true))
unfolding next_node
next_node-IsNext nodes visited p q u named =
    let r = next_from nodes [] visited in
    let became =
      next_from-Becomes nodes visited [] (λ x i. In-find nodes x u (In-Perm x p i))
        (λ x i. named x (In-Perm x p i)) (inl refl) in
    elim became [
      | inl (er, eb, done) ↦ inr (rw (same_text r [] er) refl, λ m i. done m (In-Perm m q i))
      | inr (n, l) ↦ inl (
        r,
        n,
        rw (differ r [] l.named) refl,
        record {
          found = l.found;
          open_node = l.open_node;
          least = λ m i o. l.least m (In-Perm m q i) o;
        },
      )
    ]
