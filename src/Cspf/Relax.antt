-- ===== src/Cspf/Relax.antt =====
-- What updateNeighborCosts of pkg/cspf/cspf.go does to its map while a node is being calculated.
use mathlib.Core.Path.{subst}
use pce_testing.Base.{
  ℕ, suc, ◌+◌, ◌*◌, ◌≤◌, ◌≡◌, ◌≢◌, inl, inr, refl, sym, ap, ◌∙◌, Bool, true, false, List, [], ◌∷◌,
  ◌++◌, some, arith, Bool-cases, some_inj,
}
use pce_testing.Net.{bytes_eq}
use pce_testing.Net.Equality.{bytes_eq_iff}
use pce_testing.Table.Policy.{MetricType}
use pce_testing.Table.Segment.{Segment}
use pce_testing.Table.Ted.{Ted}
use pce_testing.Cspf.{Node, find, put}
use pce_testing.Cspf.Nodes.{Unique, put-Unique, find-put_self, find-put_other, differ}
use pce_testing.Cspf.Walk.{Edge, SegmentAt}
use pce_testing.Cspf.Chain.{Chain, AlikeAt, Chain-moved}
use pce_testing.Cspf.Invariant.{IsGood, put_cases}

-- The nodes that are done, and the one that is being calculated.
module _ (ted : Ted) (t : MetricType) (src : List ℕ) (bound made : ℕ) (done : List ℕ → Bool)
    (u : List ℕ) (nu : Node) where
  pub record IsOngoing (nodes : List Node) : Type 0 where
    pub unique : Unique nodes
    pub good :
        (id : List ℕ) (n : Node)
        → find nodes id ≡ some n
        → IsGood ted t src bound done nodes (suc made) id n
    pub closed_found : (id : List ℕ) → done id ≡ true → (n : Node) × (find nodes id ≡ some n)
    pub self : find nodes u ≡ some nu
    pub self_chain : (segs : List Segment) × Chain ted t src done nodes made u nu.cost segs
    pub self_cheap : nu.cost ≤ made * bound
    pub low : (id : List ℕ) (n : Node) → find nodes id ≡ some n → done id ≡ true → n.cost ≤ nu.cost
    pub high :
        (id : List ℕ) (n : Node) → find nodes id ≡ some n → done id ≡ false → nu.cost ≤ n.cost
    pub flag :
        (id : List ℕ) (n : Node) → find nodes id ≡ some n → done id ≡ false → n.calculated ≡ false
    pub source : (n : Node) × (find nodes src ≡ some n) × (n.cost ≡ 0)

  -- No cost goes up, and the nodes that are done stay as they are.
  pub record IsLower (nodes nodes' : List Node) : Type 0 where
    pub lowered :
        (id : List ℕ) (n : Node)
        → find nodes id ≡ some n
        → (m : Node) × (find nodes' id ≡ some m) × (m.cost ≤ n.cost)
    pub fixed :
        (id : List ℕ) (n : Node) → done id ≡ true → find nodes id ≡ some n → find nodes' id ≡ some n

  pub IsLower-refl : (nodes : List Node) → IsLower nodes nodes
  IsLower-refl nodes = record { lowered = λ id n f. (n, f, omega arith); fixed = λ id n d f. f }

  pub IsLower-trans : {a b c : List Node} → IsLower a b → IsLower b c → IsLower a c
  IsLower-trans p q = record {
    lowered = λ id n f.
        let (m, fm, lm) = p.lowered id n f in
        let (k, fk, lk) = q.lowered id m fm in (k, fk, omega arith);
    fixed = λ id n d f. q.fixed id n d (p.fixed id n d f);
  }

  -- The node that a link leads to, when its cost becomes lower or it is new.
  pub record IsReached (nodes : List Node) (m : Node) (w : ℕ) : Type 0 where
    pub not_done : done m.id ≡ false
    pub open_node : m.calculated ≡ false
    pub prev : m.prev_node ≡ u
    pub cost : m.cost ≡ nu.cost + w
    pub small : w ≤ bound
    pub edge : Edge ted t u m.id w
    pub segment : SegmentAt ted t m.id m.node_segment
    pub other : m.id ≢ src
    pub lower : (n : Node) → find nodes m.id ≡ some n → m.cost ≤ n.cost

  pub put-IsLower :
      (nodes : List Node) (m : Node) (w : ℕ) → IsReached nodes m w → IsLower nodes (put nodes m)
  put-IsLower nodes m w r = record {
    lowered = λ id n f. elim (Bool-cases (bytes_eq m.id id)) [
      | inl e ↦
          let same : m.id ≡ id = (bytes_eq_iff m.id id).0 e in
          (
            m,
            ap (find (put nodes m)) (sym same) ∙ find-put_self nodes m,
            r.lower n (ap (find nodes) same ∙ f),
          )
      | inr e ↦ (n, find-put_other nodes m id e ∙ f, omega arith)
    ];
    fixed = λ id n d f. elim (Bool-cases (bytes_eq m.id id)) [
      | inl e ↦
          absurd (let same = ap done ((bytes_eq_iff m.id id).0 e) in let no = r.not_done in cc)
      | inr e ↦ find-put_other nodes m id e ∙ f
    ];
  }

  -- Calculated nodes stay the same for the chains over them.
  alike_done :
      (nodes nodes' : List Node)
      → IsLower nodes nodes'
      → (j : List ℕ) → done j ≡ true
      → AlikeAt nodes nodes' j
  alike_done nodes nodes' l j d n f = record {
    now = n;
    found = l.fixed j n d f;
    same_cost = refl;
    same_prev = refl;
    same_segment = refl;
  }

  module _ (itself : done u ≡ true) where
    IsGood-new :
        (nodes : List Node) (m : Node) (w : ℕ)
        → IsReached nodes m w
        → (front : List Segment) → Chain ted t src done (put nodes m) made u nu.cost front
        → nu.cost ≤ made * bound
        → IsGood ted t src bound done (put nodes m) (suc made) m.id m
    IsGood-new nodes m w r front back cheap = record {
      segs = front ++ (m.node_segment ∷ []);
      chain =
          Chain.hop m (find-put_self nodes m) r.other r.prev itself back r.edge r.cost refl
            r.segment refl (omega arith);
      segment = r.segment;
      cheap = (let less = r.small in let price = r.cost in omega arith);
    }

    IsGood-old :
        (nodes nodes' : List Node) (id : List ℕ) (n : Node)
        → IsLower nodes nodes'
        → find nodes' id ≡ some n
        → IsGood ted t src bound done nodes (suc made) id n
        → find nodes id ≡ some n
        → IsGood ted t src bound done nodes' (suc made) id n
    IsGood-old nodes nodes' id n l f g before =
        let same : suc made ≤ suc made = omega arith in
        record {
          segs = g.segs;
          chain =
              Chain-moved ted t src (λ j h. h) (alike_done nodes nodes' l)
                (λ k fk. record {
                  now = n;
                  found = f;
                  same_cost = ap (λ x. x.cost) (some_inj (sym before ∙ fk));
                  same_prev = ap (λ x. x.prev_node) (some_inj (sym before ∙ fk));
                  same_segment = ap (λ x. x.node_segment) (some_inj (sym before ∙ fk));
                })
                same g.chain;
          segment = g.segment;
          cheap = g.cheap;
        }

    pub put-IsOngoing :
        (nodes : List Node) (m : Node) (w : ℕ)
        → IsOngoing nodes
        → IsReached nodes m w
        → IsOngoing (put nodes m)
    put-IsOngoing nodes m w o r =
        let l = put-IsLower nodes m w r in
        let alike = alike_done nodes (put nodes m) l in
        let (front, back) = o.self_chain in
        let back' : Chain ted t src done (put nodes m) made u nu.cost front =
          Chain-moved ted t src (λ j h. h) alike (alike u itself) (omega arith) back in
        let price = r.cost in
        record {
          unique = put-Unique nodes m o.unique;
          good = λ id n f. elim (put_cases nodes m id n f) [
            | inl (at, is) ↦
                subst (λ k. IsGood ted t src bound done (put nodes m) (suc made) id k) is
                  (subst (λ j. IsGood ted t src bound done (put nodes m) (suc made) j m) at
                    (IsGood-new nodes m w r front back' o.self_cheap))
            | inr (away, f') ↦
                IsGood-old nodes (put nodes m) id n l (find-put_other nodes m id away ∙ f')
                  (o.good id n f') f'
          ];
          closed_found = λ id d. let (n, f) = o.closed_found id d in (n, l.fixed id n d f);
          self = l.fixed u nu itself o.self;
          self_chain = (front, back');
          self_cheap = o.self_cheap;
          low = λ id n f d. elim (put_cases nodes m id n f) [
            | inl (at, is) ↦ absurd (let no = r.not_done in let x = ap done at in cc)
            | inr (away, f') ↦ o.low id n f' d
          ];
          high = λ id n f d. elim (put_cases nodes m id n f) [
            | inl (at, is) ↦ (let c = ap (λ k. k.cost) is in omega arith)
            | inr (away, f') ↦ o.high id n f' d
          ];
          flag = λ id n f d. elim (put_cases nodes m id n f) [
            | inl (at, is) ↦ sym (ap (λ k. k.calculated) is) ∙ r.open_node
            | inr (away, f') ↦ o.flag id n f' d
          ];
          source =
              let (s, f, z) = o.source in
              (s, find-put_other nodes m src (differ m.id src r.other) ∙ f, z);
        }
