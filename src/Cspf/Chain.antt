-- ===== src/Cspf/Chain.antt =====
-- The way back from a node of the map of pkg/cspf/cspf.go to the source, over prevNode, and the segment
-- list that buildSegmentListFromPath makes of it.
use mathlib.Core.List.{reverse, reverse-cons}
use pce_testing.Base.{
  ℕ, zero, suc, ◌+◌, ◌≤◌, ◌<◌, ◌≡◌, ◌≢◌, refl, sym, ap, ◌∙◌, Bool, true, List, [], ◌∷◌, ◌++◌, some,
  arith, ok,
}
use pce_testing.Table.Policy.{MetricType}
use pce_testing.Table.Segment.{Segment}
use pce_testing.Table.Ted.{Ted}
use pce_testing.Cspf.{Node, find, collect_segments, build_segment_list_from_path}
use pce_testing.Cspf.Nodes.{find-id, same_text, differ}
use pce_testing.Cspf.Walk.{Edge, SegmentAt, Route}

-- The same node but for `calculated`, if there is one.
pub record Alike (nodes nodes' : List Node) (id : List ℕ) (n : Node) : Type 0 where
  pub now : Node
  pub found : find nodes' id ≡ some now
  pub same_cost : now.cost ≡ n.cost
  pub same_prev : now.prev_node ≡ n.prev_node
  pub same_segment : now.node_segment ≡ n.node_segment

abbrev pub AlikeAt : List Node → List Node → List ℕ → Type 0
AlikeAt nodes nodes' id = (n : Node) → find nodes id ≡ some n → Alike nodes nodes' id n

module _ (ted : Ted) (t : MetricType) (src : List ℕ) where
  -- At most k hops back, over calculated nodes, to the source.
  pub data Chain (closed : List ℕ → Bool) (nodes : List Node)
      : ℕ → List ℕ → ℕ → List Segment → Type 0 where
    source :
        {k : ℕ} {id : List ℕ} {c : ℕ} {segs : List Segment}
        → id ≡ src
        → c ≡ 0
        → segs ≡ []
        → Chain closed nodes k id c segs
    hop :
        {k k' : ℕ} {id prev : List ℕ} {c d w : ℕ} {front segs : List Segment} {seg : Segment}
        (n : Node)
        → find nodes id ≡ some n
        → id ≢ src
        → n.prev_node ≡ prev
        → closed prev ≡ true
        → Chain closed nodes k prev d front
        → Edge ted t prev id w
        → c ≡ d + w
        → n.node_segment ≡ seg
        → SegmentAt ted t id seg
        → segs ≡ front ++ (seg ∷ [])
        → suc k ≤ k'
        → Chain closed nodes k' id c segs

  pub Chain-Route :
      {closed : List ℕ → Bool} {nodes : List Node} {k : ℕ} {id : List ℕ} {c : ℕ}
      {segs : List Segment}
      → Chain closed nodes k id c segs
      → Route ted t src id c segs
  Chain-Route (Chain.source e z s) = Route.start e z s
  Chain-Route (Chain.hop n f other p cl chain edge c s at segs le) =
      Route.step (Chain-Route chain) edge at c segs

  pub Chain-moved :
      {closed closed' : List ℕ → Bool} {nodes nodes' : List Node} {k k' : ℕ} {id : List ℕ} {c : ℕ}
      {segs : List Segment}
      → ((j : List ℕ) → closed j ≡ true → closed' j ≡ true)
      → ((j : List ℕ) → closed j ≡ true → AlikeAt nodes nodes' j)
      → AlikeAt nodes nodes' id
      → k ≤ k'
      → Chain closed nodes k id c segs
      → Chain closed' nodes' k' id c segs
  Chain-moved more alike here le (Chain.source e z s) = Chain.source e z s
  Chain-moved {k'} more alike here le (Chain.hop {k} n f other p cl chain edge c s at segs le') =
      let a = here n f in
      let same : k ≤ k = omega arith in
      let fits : suc k ≤ k' = omega arith in
      Chain.hop a.now a.found other (a.same_prev ∙ p) (more _ cl)
        (Chain-moved more alike (alike _ cl) same chain) edge c (a.same_segment ∙ s) at segs fits

  collect_source :
      (fuel : ℕ) (nodes : List Node) (id : List ℕ) (n : Node)
      → find nodes id ≡ some n
      → id ≡ src
      → collect_segments (suc fuel) nodes src id ≡ ok []
  unfolding collect_segments
  collect_source fuel nodes id n f e = rw (f, same_text n.id src (find-id nodes id n f ∙ e)) refl

  collect_hop :
      (fuel : ℕ) (nodes : List Node) (id : List ℕ) (n : Node) (segs : List Segment)
      → find nodes id ≡ some n
      → id ≢ src
      → collect_segments fuel nodes src n.prev_node ≡ ok segs
      → collect_segments (suc fuel) nodes src id ≡ ok (n.node_segment ∷ segs)
  unfolding collect_segments
  collect_hop fuel nodes id n segs f other rest =
      rw (f, differ n.id src (λ e. other (sym (find-id nodes id n f) ∙ e)), rest) refl

  collected :
      {closed : List ℕ → Bool} {nodes : List Node} {k : ℕ} {id : List ℕ} {c : ℕ}
      {segs : List Segment} (fuel : ℕ) (s : Node)
      → find nodes src ≡ some s
      → k < fuel
      → Chain closed nodes k id c segs
      → (rs : List Segment) × (collect_segments fuel nodes src id ≡ ok rs) × (reverse rs ≡ segs)
  collected zero s fs le chain = absurd (omega arith)
  collected {closed} {nodes} {k} {id} (suc fuel) s fs le (Chain.source e z segs) =
      ([], collect_source fuel nodes id s (ap (find nodes) e ∙ fs) e, sym segs)
  collected {closed} {nodes} (suc fuel) s fs le
        (Chain.hop {k} {k'} {id} {prev} {c} {d} {w} {front} {segs} {seg} n f other p cl chain edge
          ec es at e le') =
      let (rs, run, same) = collected fuel s fs (omega arith) chain in
      (
        n.node_segment ∷ rs,
        collect_hop fuel nodes id n rs f other (ap (collect_segments fuel nodes src) p ∙ run),
        reverse-cons n.node_segment rs
            ∙ (ap (λ r. r ++ (n.node_segment ∷ [])) same
                ∙ (ap (λ x. front ++ (x ∷ [])) es ∙ sym e)),
      )

  pub Chain-built :
      {closed : List ℕ → Bool} {nodes : List Node} {k : ℕ} {id : List ℕ} {c : ℕ}
      {segs : List Segment} (fuel : ℕ) (s : Node)
      → find nodes src ≡ some s
      → k < fuel
      → Chain closed nodes k id c segs
      → build_segment_list_from_path fuel src id nodes ≡ ok segs
  unfolding build_segment_list_from_path
  Chain-built fuel s fs le chain =
      let (rs, run, same) = collected fuel s fs le chain in rw run (ap ok same)
