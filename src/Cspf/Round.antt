-- ===== src/Cspf/Round.antt =====
-- One round of the loop of spf in pkg/cspf/cspf.go, from the choice of a node to its mark.
use mathlib.Core.Path.{subst}
use pce_testing.Base.{
  ℕ, suc, ◌+◌, ◌≤◌, ◌≡◌, inl, inr, refl, sym, ap, ◌∙◌, Bool, true, false, List, some, arith,
  Bool-cases, In, some_inj,
}
use pce_testing.Net.{bytes_eq}
use pce_testing.Net.Equality.{bytes_eq_iff}
use pce_testing.Table.Policy.{MetricType}
use pce_testing.Table.Ted.{Ted, find_node}
use pce_testing.Cspf.{Node, find, put}
use pce_testing.Cspf.Nodes.{find-put_self, find-put_other, find-id, find-In, put-Unique, same_text}
use pce_testing.Cspf.Next.{IsNext}
use pce_testing.Cspf.Walk.{Edge, SegmentAt}
use pce_testing.Cspf.Chain.{Chain, AlikeAt, Chain-moved}
use pce_testing.Cspf.Invariant.{
  add, add_self, add_more, add_cases, count_raised, put_cases, IsGood, IsSearch,
}
use pce_testing.Cspf.Relax.{IsOngoing}
use pce_testing.Cspf.Link.{IsRelaxed}

alike_refl : (nodes : List Node) (j : List ℕ) → AlikeAt nodes nodes j
alike_refl nodes j n f = record {
  now = n;
  found = f;
  same_cost = refl;
  same_prev = refl;
  same_segment = refl;
}

-- The node marked as calculated.
abbrev pub marked : Node → Node
marked n = record n { calculated = true }

mark_alike :
    (nodes : List Node) (u : List ℕ) (nu : Node)
    → find nodes u ≡ some nu
    → (id : List ℕ) → AlikeAt nodes (put nodes (marked nu)) id
mark_alike nodes u nu self id n f = elim (Bool-cases (bytes_eq nu.id id)) [
  | inl e ↦
      let at : nu.id ≡ id = (bytes_eq_iff nu.id id).0 e in
      let is : nu ≡ n =
        some_inj (sym self ∙ (ap (find nodes) (sym (find-id nodes u nu self) ∙ at) ∙ f)) in
      record {
        now = marked nu;
        found = ap (find (put nodes (marked nu))) (sym at) ∙ find-put_self nodes (marked nu);
        same_cost = ap (λ k. k.cost) is;
        same_prev = ap (λ k. k.prev_node) is;
        same_segment = ap (λ k. k.node_segment) is;
      }
  | inr e ↦ record {
    now = n;
    found = find-put_other nodes (marked nu) id e ∙ f;
    same_cost = refl;
    same_prev = refl;
    same_segment = refl;
  }
]

mark_back :
    (nodes : List Node) (u : List ℕ) (nu : Node)
    → find nodes u ≡ some nu
    → (id : List ℕ) (n : Node) → find (put nodes (marked nu)) id ≡ some n
    → (m : Node) × (find nodes id ≡ some m) × (m.cost ≡ n.cost)
mark_back nodes u nu self id n f = elim (put_cases nodes (marked nu) id n f) [
  | inl (at, is) ↦
      (nu, ap (find nodes) (sym at ∙ find-id nodes u nu self) ∙ self, ap (λ k. k.cost) is)
  | inr (away, f') ↦ (n, f', refl)
]

module _ (ted : Ted) (t : MetricType) (src : List ℕ) (bound made : ℕ) (closed : List ℕ → Bool)
    (u : List ℕ) (nu : Node) where
  pub next-IsOngoing :
      (nodes : List Node)
      → IsSearch ted t src bound closed nodes made
      → IsNext nodes u nu
      → closed u ≡ false
      → IsOngoing ted t src bound made (add u closed) u nu nodes
  next-IsOngoing nodes s next fresh =
      let self = s.good u nu next.found in
      let same : made ≤ made = omega arith in
      record {
        unique = s.unique;
        good = λ id n f.
            let g = s.good id n f in
            let more : made ≤ suc made = omega arith in
            let cheap = g.cheap in
            record {
              segs = g.segs;
              chain =
                  Chain-moved ted t src (add_more u closed) (λ j c. alike_refl nodes j)
                    (alike_refl nodes id) more g.chain;
              segment = g.segment;
              cheap = omega arith;
            };
        closed_found = λ id d. elim (add_cases u closed id) [
          | inl (at, a) ↦ (nu, ap (find nodes) (sym at) ∙ next.found)
          | inr (away, a) ↦ s.closed_found id (sym a ∙ d)
        ];
        self = next.found;
        self_chain = (
          self.segs,
          Chain-moved ted t src (add_more u closed) (λ j c. alike_refl nodes j) (alike_refl nodes u)
              same self.chain,
        );
        self_cheap = self.cheap;
        low = λ id n f d. elim (add_cases u closed id) [
          | inl (at, a) ↦
              (let is = ap (λ k. k.cost) (some_inj (sym next.found ∙ (ap (find nodes) at ∙ f))) in
                omega arith)
          | inr (away, a) ↦ s.order id u n nu f (sym a ∙ d) next.found fresh
        ];
        high = λ id n f d. elim (add_cases u closed id) [
          | inl (at, a) ↦ absurd (cc)
          | inr (away, a) ↦ next.least n (find-In nodes id n f) (s.agrees id n f ∙ (sym a ∙ d))
        ];
        flag = λ id n f d. elim (add_cases u closed id) [
          | inl (at, a) ↦ absurd (cc)
          | inr (away, a) ↦ s.agrees id n f ∙ (sym a ∙ d)
        ];
        source = s.source;
      }

  module _ (nodes nodes' : List Node) (p : ℕ) (s : IsSearch ted t src bound closed nodes made)
      (fresh : closed u ≡ false) (there : find_node ted.nodes u ≡ some p)
      (r : IsRelaxed ted t src bound made
        (add u closed)
        u
        nu
        (ted.store p).links
        nodes
        nodes') where
    same : nu.id ≡ u
    same = find-id nodes' u nu r.ongoing.self

    alike : (j : List ℕ) → AlikeAt nodes' (put nodes' (marked nu)) j
    alike = mark_alike nodes' u nu r.ongoing.self

    moved :
        (id : List ℕ) (n n' : Node)
        → n.cost ≡ n'.cost
        → n.node_segment ≡ n'.node_segment
        → find nodes' id ≡ some n
        → IsGood ted t src bound (add u closed) (put nodes' (marked nu)) (suc made) id n'
    moved id n n' c s f =
        let g = r.ongoing.good id n f in
        let fits : suc made ≤ suc made = omega arith in
        let cheap = g.cheap in
        record {
          segs = g.segs;
          chain =
              subst
                (λ k.
                  Chain ted t src (add u closed) (put nodes' (marked nu)) (suc made) id k g.segs)
                c (Chain-moved ted t src (λ j h. h) (λ j d. alike j) (alike id) fits g.chain);
          segment = subst (λ k. SegmentAt ted t id k) s g.segment;
          cheap = omega arith;
        }

    marked-IsGood :
        (id : List ℕ) (n : Node)
        → find (put nodes' (marked nu)) id ≡ some n
        → IsGood ted t src bound (add u closed) (put nodes' (marked nu)) (suc made) id n
    marked-IsGood id n f = elim (put_cases nodes' (marked nu) id n f) [
      | inl (at, is) ↦
          subst
            (λ k. IsGood ted t src bound (add u closed) (put nodes' (marked nu)) (suc made) id k) is
            (subst
              (λ j.
                IsGood ted t src bound (add u closed) (put nodes' (marked nu)) (suc made) j
                  (marked nu))
              at (moved nu.id nu (marked nu) refl refl (ap (find nodes') same ∙ r.ongoing.self)))
      | inr (away, f') ↦ moved id n n refl refl f'
    ]

    marked_settled :
        (v x : List ℕ) (n : Node) (w : ℕ)
        → find (put nodes' (marked nu)) v ≡ some n
        → add u closed v ≡ true
        → Edge ted t v x w
        → (m : Node) × (find (put nodes' (marked nu)) x ≡ some m) × (m.cost ≤ n.cost + w)
    marked_settled v x n w f d edge =
        let (n', f', c) = mark_back nodes' u nu r.ongoing.self v n f in
        elim (add_cases u closed v) [
          | inl (at, a) ↦
              let here : edge.at ≡ p =
                some_inj (sym edge.there ∙ (ap (find_node ted.nodes) (sym at) ∙ there)) in
              let listed = subst (λ q. In edge.link (ted.store q).links) here edge.listed in
              let (m, g, le) = r.settled edge.link w listed edge.metric in
              let is =
                ap (λ k. k.cost) (some_inj (sym r.ongoing.self ∙ (ap (find nodes') at ∙ f'))) in
              let a = alike ((ted.store edge.link.remote_node).router_id) m g in
              let price = a.same_cost in
              (a.now, ap (find (put nodes' (marked nu))) (sym edge.end) ∙ a.found, omega arith)
          | inr (away, a) ↦
              let old = sym a ∙ d in
              let (k, fk) = s.closed_found v old in
              let is = ap (λ i. i.cost) (some_inj (sym (r.lower.fixed v k d fk) ∙ f')) in
              let (m, g, le) = s.settled v x k w fk old edge in
              let (m', g', le') = r.lower.lowered x m g in
              let a = alike x m' g' in let price = a.same_cost in (a.now, a.found, omega arith)
        ]

    pub round-IsSearch : IsSearch ted t src bound (add u closed) (put nodes' (marked nu)) (suc made)
    round-IsSearch = record {
      unique = put-Unique nodes' (marked nu) r.ongoing.unique;
      good = marked-IsGood;
      closed_found = λ id d.
          let (n, f) = r.ongoing.closed_found id d in let a = alike id n f in (a.now, a.found);
      order = λ i j m n fi ci fj cj.
          let (m', gi, ei) = mark_back nodes' u nu r.ongoing.self i m fi in
          let (n', gj, ej) = mark_back nodes' u nu r.ongoing.self j n fj in
          let low = r.ongoing.low i m' gi ci in let high = r.ongoing.high j n' gj cj in omega arith;
      source =
          let (n, f, z) = r.ongoing.source in
          let a = alike src n f in (a.now, a.found, a.same_cost ∙ z);
      agrees = λ id n f. elim (put_cases nodes' (marked nu) id n f) [
        | inl (at, is) ↦
            sym (ap (λ k. k.calculated) is)
            ∙ sym (ap (add u closed) (sym at ∙ same) ∙ add_self u closed)
        | inr (away, f') ↦ elim (Bool-cases (add u closed id)) [
          | inl d ↦ elim (add_cases u closed id) [
            | inl (at, a) ↦ absurd (let e = same_text nu.id id (same ∙ at) in cc)
            | inr (apart, a) ↦
                let (k, fk) = s.closed_found id (sym a ∙ d) in
                let is = ap (λ i. i.calculated) (some_inj (sym (r.lower.fixed id k d fk) ∙ f')) in
                sym is ∙ (s.agrees id k fk ∙ sym a)
          ]
          | inr d ↦ r.ongoing.flag id n f' d ∙ sym d
        ]
      ];
      settled = marked_settled;
      few =
          let raised = count_raised u closed ted.nodes p there fresh in
          let few = s.few in omega arith;
    }
