-- ===== src/Cspf/Link.antt =====
-- What one link of the node that is being calculated does to the map: updateNeighborCosts of
-- pkg/cspf/cspf.go.
use pce_testing.Base.{
  ℕ, suc, ◌+◌, ◌*◌, ◌≤◌, ◌<◌, ◌≡◌, ◌≢◌, inl, inr, refl, sym, ap, ◌∙◌, Bool, true, false, List, [],
  ◌∷◌, none, some, arith, if◌then◌else◌, Bool-cases, In, All, some_inj, ok_inj, ok, ltb,
}
use pce_testing.Table.Policy.{MetricType}
use pce_testing.Table.Segment.{Segment}
use pce_testing.Table.Ted.{Ted, LsLink, find_node, metric_of, node_segment}
use pce_testing.Table.Ted.Closed.{IsClosed, IsInside}
use pce_testing.Table.Ted.Reads.{metric_of_below, found_listed}
use pce_testing.Cspf.{Node, find, put, new_node}
use pce_testing.Cspf.Nodes.{find-put_self, find-id}
use pce_testing.Cspf.Walk.{Edge, MetricsBelow}
use pce_testing.Cspf.Invariant.{In-All}
use pce_testing.Cspf.Relax.{IsOngoing, IsLower, IsReached, IsLower-refl, put-IsLower, put-IsOngoing}

-- relax_link on each of its branches.
abbrev pub remote : Ted → LsLink → List ℕ
remote ted l = (ted.store l.remote_node).router_id

module _ (ted : Ted) (t : MetricType) (src : List ℕ) (bound made : ℕ) (done : List ℕ → Bool)
    (u : List ℕ) (nu : Node) where
  -- What a link has done: its end is in the map, at no more than the cost over the link.
  pub record IsRelaxed (ls : List LsLink) (nodes nodes' : List Node) : Type 0 where
    pub ongoing : IsOngoing ted t src bound made done u nu nodes'
    pub lower : IsLower ted t src bound made done u nu nodes nodes'
    pub settled :
        (l : LsLink) (w : ℕ)
        → In l ls
        → metric_of l.metrics t ≡ ok w
        → (m : Node) × (find nodes' (ted.store l.remote_node).router_id ≡ some m)
          × (m.cost ≤ nu.cost + w)

module _ (ted : Ted) (t : MetricType) (src : List ℕ) (asn bound made : ℕ) (done : List ℕ → Bool)
    (u : List ℕ) (nu : Node) (inside : IsClosed asn ted) (metrics : MetricsBelow ted bound)
    (fits : suc made * bound < 4294967296) (itself : done u ≡ true) (p : ℕ)
    (there : find_node ted.nodes u ≡ some p) where
  pub remote_there :
      (l : LsLink)
      → In l (ted.store p).links
      → find_node ted.nodes (remote ted l) ≡ some l.remote_node
  remote_there l i =
      let kept = (inside.kept u p there).inside in
      let (at, (k, f)) = In-All (IsInside ted.nodes p) (ted.store p).links l kept i in
      ap (find_node ted.nodes) ((inside.kept k l.remote_node f).key) ∙ f

  pub metric_small :
      (l : LsLink) (w : ℕ) → In l (ted.store p).links → metric_of l.metrics t ≡ ok w → w ≤ bound
  metric_small l w i h =
      let (j, entry) = found_listed ted.nodes u p there in
      let of_node =
        In-All (λ x. All (λ k. All (λ m. m.value ≤ bound) k.metrics) (ted.store x.1).links)
          ted.nodes (j, p) metrics entry in
      metric_of_below l.metrics t bound w
        (In-All (λ k. All (λ m. m.value ≤ bound) k.metrics) (ted.store p).links l of_node i) h

  Edge-to :
      (l : LsLink) (w : ℕ) (v : List ℕ)
      → In l (ted.store p).links
      → metric_of l.metrics t ≡ ok w
      → remote ted l ≡ v
      → Edge ted t u v w
  Edge-to l w v i h e = record { at = p; link = l; there = there; listed = i; metric = h; end = e }

  -- The end of the link becomes m.
  reached :
      (nodes : List Node) (l : LsLink) (m : Node) (w : ℕ)
      → IsOngoing ted t src bound made done u nu nodes
      → metric_of l.metrics t ≡ ok w
      → remote ted l ≡ m.id
      → m.cost ≡ nu.cost + w
      → IsReached ted t src bound made done u nu nodes m w
      → IsRelaxed ted t src bound made done u nu (l ∷ []) nodes (put nodes m)
  reached nodes l m w o h e c r = record {
    ongoing = put-IsOngoing ted t src bound made done u nu itself nodes m w o r;
    lower = put-IsLower ted t src bound made done u nu nodes m w r;
    settled = λ k w' i h'. elim i [
      | inl here ↦ (
        m,
        ap (find (put nodes m)) (sym (ap (remote ted) here) ∙ e) ∙ find-put_self nodes m,
        let same : w ≡ w' = ok_inj (sym h ∙ (ap (λ x. metric_of x.metrics t) here ∙ h')) in
            omega arith,
      )
      | inr far ↦ absurd far
    ];
  }

  pub relax_known :
      (nodes : List Node) (l : LsLink) (w : ℕ) (r : Node)
      → IsOngoing ted t src bound made done u nu nodes
      → In l (ted.store p).links
      → metric_of l.metrics t ≡ ok w
      → find nodes (remote ted l) ≡ some r
      → IsRelaxed ted t src bound made done u nu (l ∷ []) nodes (
          if ltb (nu.cost + w) r.cost
          then put nodes (record r { cost = nu.cost + w; prev_node = u })
          else nodes)
  relax_known nodes l w r o i h f =
      let at : r.id ≡ remote ted l = find-id nodes (remote ted l) r f in
      let fr : find nodes r.id ≡ some r = ap (find nodes) at ∙ f in
      let small = metric_small l w i h in
      elim (Bool-cases (ltb (nu.cost + w) r.cost)) [
        | inl less ↦
            let cheaper : nu.cost + w < r.cost = ground arith in
            let outside : done r.id ≡ false = elim (Bool-cases (done r.id)) [
              | inl d ↦ absurd (let low = o.low r.id r fr d in omega arith)
              | inr d ↦ d
            ] in
            let away : r.id ≢ src = λ e.
              let (s, fs, z) = o.source in
              let same = ap (λ x. x.cost) (some_inj (sym fs ∙ (ap (find nodes) (sym e) ∙ fr))) in
              omega arith in
            rw less (
              reached nodes l (record r { cost = nu.cost + w; prev_node = u }) w o h (sym at) refl
                record {
                  not_done = outside;
                  open_node = o.flag r.id r fr outside;
                  prev = refl;
                  cost = refl;
                  small = small;
                  edge = Edge-to l w r.id i h (sym at);
                  segment = (o.good r.id r fr).segment;
                  other = away;
                  lower =
                      λ n g. (let same = ap (λ x. x.cost) (some_inj (sym fr ∙ g)) in omega arith);
                })
        | inr more ↦
            let dearer : r.cost ≤ nu.cost + w = ground arith in
            rw more record {
              ongoing = o;
              lower = IsLower-refl ted t src bound made done u nu nodes;
              settled = λ k w' j h'. elim j [
                | inl here ↦ (
                  r,
                  ap (find nodes) (sym (ap (remote ted) here)) ∙ f,
                  let same : w ≡ w' =
                        ok_inj (sym h ∙ (ap (λ x. metric_of x.metrics t) here ∙ h')) in
                      omega arith,
                )
                | inr far ↦ absurd far
              ];
            }
      ]

  pub relax_new :
      (nodes : List Node) (l : LsLink) (w : ℕ) (seg : Segment)
      → IsOngoing ted t src bound made done u nu nodes
      → In l (ted.store p).links
      → metric_of l.metrics t ≡ ok w
      → find nodes (remote ted l) ≡ none
      → node_segment (ted.store l.remote_node) ≡ ok seg
      → IsRelaxed ted t src bound made done u nu
          (l ∷ [])
          nodes
          (put nodes (record (new_node (remote ted l) (nu.cost + w) seg) { prev_node = u }))
  unfolding new_node
  relax_new nodes l w seg o i h f s =
      reached nodes l (record (new_node (remote ted l) (nu.cost + w) seg) { prev_node = u }) w o h
        refl refl
        record {
          not_done = elim (Bool-cases (done (remote ted l))) [
            | inl d ↦ absurd (let (n, g) = o.closed_found (remote ted l) d in cc)
            | inr d ↦ d
          ];
          open_node = refl;
          prev = refl;
          cost = refl;
          small = metric_small l w i h;
          edge = Edge-to l w (remote ted l) i h refl;
          segment = (l.remote_node, remote_there l i, s);
          other = λ e. let (n, fs, z) = o.source in absurd (let g = ap (find nodes) e in cc);
          lower = λ n g. absurd (cc);
        }
