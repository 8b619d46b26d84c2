-- ===== src/Cspf/Cover.antt =====
-- What is known of the walks of the database from the map of pkg/cspf/cspf.go, and how the search
-- begins and CSPF goes on from its result.
use pce_testing.Base.{
  ℕ, ◌≤◌, ◌≡◌, ◌⊎◌, inl, inr, refl, sym, ap, ◌∙◌, Bool, true, false, List, [], ◌∷◌, some, arith,
  Bool-cases, some_inj, Result, ok, err,
}
use pce_testing.Net.{bytes_eq}
use pce_testing.Net.Equality.{bytes_eq_iff}
use pce_testing.Table.Policy.{MetricType}
use pce_testing.Table.Segment.{Segment}
use pce_testing.Table.Ted.{Ted, TedError, find_node, node_segment}
use pce_testing.Cspf.{
  Node, CspfError, table_error, find, new_node, init_node_map, search_nodes,
  build_segment_list_from_path, rounds, spf, cspf,
}
use pce_testing.Cspf.Nodes.{find_here, find_past, find_nil, same_text}
use pce_testing.Cspf.Walk.{Walk}
use pce_testing.Cspf.Chain.{Chain}
use pce_testing.Cspf.Invariant.{IsSearch}

module _ (ted : Ted) (t : MetricType) (src : List ℕ) (bound : ℕ) where
  -- A walk's end is calculated at no more than its cost, or a node is left that costs no more.
  pub covered :
      {v : List ℕ} {c : ℕ} (closed : List ℕ → Bool) (nodes : List Node) (made : ℕ)
      → IsSearch ted t src bound closed nodes made
      → Walk ted t src v c
      → ((closed v ≡ true) × (n : Node) × (find nodes v ≡ some n) × (n.cost ≤ c))
        ⊎ ((j : List ℕ) × (n : Node) × (find nodes j ≡ some n) × (closed j ≡ false) × (n.cost ≤ c))
  covered {v} closed nodes made s (Walk.start e z) =
      let (n, f, zero_cost) = s.source in
      let there = ap (find nodes) e ∙ f in
      elim (Bool-cases (closed v)) [
        | inl d ↦ inl (d, n, there, omega arith)
        | inr d ↦ inr (v, n, there, d, omega arith)
      ]
  covered {v} closed nodes made s (Walk.step {u} {w = w} walk edge sum) =
      elim (covered closed nodes made s walk) [
        | inl (cl, n, f, le) ↦
            let (m, g, le') = s.settled u v n w f cl edge in
            elim (Bool-cases (closed v)) [
              | inl d ↦ inl (d, m, g, omega arith)
              | inr d ↦ inr (v, m, g, d, omega arith)
            ]
        | inr (j, n, f, o, le) ↦ inr (j, n, f, o, omega arith)
      ]

  pub init_IsSearch :
      (p : ℕ) (seg : Segment)
      → find_node ted.nodes src ≡ some p
      → node_segment (ted.store p) ≡ ok seg
      → IsSearch ted t src bound (λ id. false) (new_node src 0 seg ∷ []) 0
  unfolding new_node
  init_IsSearch p seg there s =
      let first = new_node src 0 seg in
      record {
        unique = (find_nil src, tt);
        good = λ id n f.
            let (at, is) = only id n f in
            record {
              segs = [];
              chain = Chain.source (sym at) (sym (ap (λ k. k.cost) is)) refl;
              segment = (
                p,
                ap (find_node ted.nodes) (sym at) ∙ there,
                s ∙ ap ok (ap (λ k. k.node_segment) is),
              );
              cheap = (let zero_cost = ap (λ k. k.cost) is in omega arith);
            };
        closed_found = λ id d. absurd (cc);
        order = λ i j m n fi ci fj cj. absurd (cc);
        source = (first, find_here first [] src (same_text src src refl), refl);
        agrees = λ id n f. let (at, is) = only id n f in sym (ap (λ k. k.calculated) is);
        settled = λ v x n w f d edge. absurd (cc);
        few = omega arith;
      }
    where
      only :
          (id : List ℕ) (n : Node)
          → find (new_node src 0 seg ∷ []) id ≡ some n
          → (src ≡ id) × (new_node src 0 seg ≡ n)
      only id n f = elim (Bool-cases (bytes_eq src id)) [
        | inl e ↦
            ((bytes_eq_iff src id).0 e, some_inj (sym (find_here (new_node src 0 seg) [] id e) ∙ f))
        | inr e ↦
            absurd (let past = find_past (new_node src 0 seg) [] id e in let z = find_nil id in cc)
      ]

module _ (visit : ℕ → List Node → List Node) (src dst : List ℕ) (t : MetricType) (ted : Ted) (p : ℕ)
    (there : find_node ted.nodes src ≡ some p) where
  pub spf_no_segment :
      (e : TedError)
      → node_segment (ted.store p) ≡ err e
      → cspf visit src dst t ted ≡ err (table_error e)
  unfolding cspf spf init_node_map
  spf_no_segment e s = rw (there, s) refl

  module _ (seg : Segment) (s : node_segment (ted.store p) ≡ ok seg) where
    pub spf_fails :
        (e : CspfError)
        → search_nodes visit ted t dst (rounds ted) (new_node src 0 seg ∷ []) ≡ err e
        → cspf visit src dst t ted ≡ err e
    unfolding cspf spf init_node_map
    spf_fails e r = rw (there, s, r) refl

    pub spf_arrives :
        (nodes : List Node) (r : Result CspfError (List Segment))
        → search_nodes visit ted t dst (rounds ted) (new_node src 0 seg ∷ []) ≡ ok nodes
        → build_segment_list_from_path (rounds ted) src dst nodes ≡ r
        → cspf visit src dst t ted ≡ r
    unfolding cspf spf init_node_map
    spf_arrives nodes r e f = rw (there, s, e) f
