-- ===== src/Cspf/Shortest.antt =====
-- What CSPF of pkg/cspf/cspf.go returns: a route of least cost, or an error that says the truth.
use mathlib.Core.List.{Permᴰ}
use pce_testing.Base.{
  ℕ, ◌*◌, ◌≤◌, ◌<◌, ◌≡◌, ◌⊎◌, inl, inr, refl, ◌∙◌, false, List, [], ◌∷◌, none, some, arith, length,
  Result, ok, err,
}
use pce_testing.Table.Policy.{MetricType}
use pce_testing.Table.Segment.{Segment}
use pce_testing.Table.Ted.{Ted, TedError, find_node, node_segment}
use pce_testing.Table.Ted.Closed.{IsClosed}
use pce_testing.Table.Ted.Reads.{node_segment-Returns}
use pce_testing.Cspf.{
  Node, CspfError, next_node_not_found, table_error, new_node, search_nodes, rounds, cspf,
}
use pce_testing.Cspf.Nodes.{find-In}
use pce_testing.Cspf.Walk.{Walk, Route, IsLacking, MetricsBelow}
use pce_testing.Cspf.Chain.{Chain-Route, Chain-built}
use pce_testing.Cspf.Invariant.{count_below}
use pce_testing.Cspf.Cover.{covered, init_IsSearch, spf_no_segment, spf_fails, spf_arrives}
use pce_testing.Cspf.Search.{IsArrived, IsExhausted, search-Outcome}

module _ (visit : ℕ → List Node → List Node) (src dst : List ℕ) (t : MetricType) (ted : Ted)
    (asn bound p : ℕ) (perm : (k : ℕ) (ns : List Node) → Permᴰ (visit k ns) ns)
    (inside : IsClosed asn ted) (metrics : MetricsBelow ted bound)
    (limit : length ted.nodes * bound < 4294967296) (unnamed : find_node ted.nodes [] ≡ none)
    (there : find_node ted.nodes src ≡ some p) where
  -- How CSPF ends, with the map that the search left.
  abbrev Computed : Result CspfError (List Segment) → Type 0
  Computed r =
      ((segs : List Segment) × (nodes : List Node) × (a : IsArrived ted t src bound dst nodes) × (r
          ≡ ok segs)
        × Route ted t src dst a.at.cost segs)
      ⊎ (((r ≡ err next_node_not_found) × IsExhausted ted t src bound dst)
          ⊎ ((e : TedError) × (r ≡ err (table_error e)) × IsLacking ted t e))

  Computed-arrived :
      (seg : Segment) (nodes : List Node)
      → node_segment (ted.store p) ≡ ok seg
      → search_nodes visit ted t dst (rounds ted) (new_node src 0 seg ∷ []) ≡ ok nodes
      → IsArrived ted t src bound dst nodes
      → Computed (cspf visit src dst t ted)
  Computed-arrived seg nodes s e a =
      let g = a.search.good dst a.at a.next.found in
      let (first, f, z) = a.search.source in
      let few = a.search.few in
      let below = count_below a.closed ted.nodes in
      let built = Chain-built ted t src (rounds ted) first f (omega arith) g.chain in
      inl (
        g.segs,
        nodes,
        a,
        spf_arrives visit src dst t ted p there seg s nodes (ok g.segs) e built,
        Chain-Route ted t src g.chain,
      )

  computed : Computed (cspf visit src dst t ted)
  computed = elim (node_segment-Returns (ted.store p)) [
    | inr (e, s) ↦ inr (
        inr (e, spf_no_segment visit src dst t ted p there e s, IsLacking.no_segment src p there s))
    | inl (seg, s) ↦
        elim (search-Outcome ted t src asn bound inside metrics limit unnamed visit dst perm
          (rounds ted) 0 (λ id. false) (new_node src 0 seg ∷ [])
          (init_IsSearch ted t src bound p seg there s) refl (omega arith)) [
            | inl (nodes, e, a) ↦ Computed-arrived seg nodes s e a
            | inr (inl (e, x)) ↦
                inr (inl (spf_fails visit src dst t ted p there seg s next_node_not_found e, x))
            | inr (inr (e, h, lack)) ↦
                inr (inr (e, spf_fails visit src dst t ted p there seg s (table_error e) h, lack))
          ]
  ]

  -- No node left costs less than the destination.
  arrived_least :
      (nodes : List Node) (d : ℕ) (a : IsArrived ted t src bound dst nodes)
      → Walk ted t src dst d
      → a.at.cost ≤ d
  arrived_least nodes d a walk =
      elim (covered ted t src bound a.closed nodes a.made a.search walk) [
        | inl (cl, n, f, le) ↦ absurd (let fresh = a.fresh in cc)
        | inr (j, n, f, o, le) ↦
            let least = a.next.least n (find-In nodes j n f) (a.search.agrees j n f ∙ o) in
            omega arith
      ]

  exhausted_none : (d : ℕ) (x : IsExhausted ted t src bound dst) → ¬ Walk ted t src dst d
  exhausted_none d x walk = elim (covered ted t src bound x.closed x.nodes x.made x.search walk) [
    | inl (cl, n, f, le) ↦ absurd (let fresh = x.fresh in cc)
    | inr (j, n, f, o, le) ↦ absurd (
        let done = x.none_left n (find-In x.nodes j n f) in
        let open_node = x.search.agrees j n f ∙ o in cc)
  ]

  -- Where a walk of any cost leads from the source to the destination, CSPF returns the segments of a
  -- route that costs no more, unless it returns the error of a link of the database without the
  -- metric or of a node without a segment.
  pub cspf_shortest :
      (d : ℕ)
      → Walk ted t src dst d
      → ((segs : List Segment) × (c : ℕ) × (cspf visit src dst t ted ≡ ok segs)
          × Route ted t src dst c segs
          × (c ≤ d))
        ⊎ ((e : TedError) × (cspf visit src dst t ted ≡ err (table_error e)) × IsLacking ted t e)
  cspf_shortest d walk = elim computed [
    | inl (segs, nodes, a, e, route) ↦ inl (segs, a.at.cost, e, route, arrived_least nodes d a walk)
    | inr (inl (e, x)) ↦ absurd (exhausted_none d x walk)
    | inr (inr lacking) ↦ inr lacking
  ]

  -- CSPF ends: with the segments of a route, with the error that no node is left, or with the error
  -- of a link or node of the database that lacks the metric or a segment.
  pub cspf_ends :
      ((segs : List Segment) × (c : ℕ) × (cspf visit src dst t ted ≡ ok segs)
        × Route ted t src dst c segs)
      ⊎ ((cspf visit src dst t ted ≡ err next_node_not_found)
          ⊎ ((e : TedError) × (cspf visit src dst t ted ≡ err (table_error e)) × IsLacking ted t e))
  cspf_ends = elim computed [
    | inl (segs, nodes, a, e, route) ↦ inl (segs, a.at.cost, e, route)
    | inr (inl (e, x)) ↦ inr (inl e)
    | inr (inr lacking) ↦ inr (inr lacking)
  ]
