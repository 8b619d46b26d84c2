-- ===== src/Cspf/Search.antt =====
-- The loop of spf in pkg/cspf/cspf.go: it ends in fewer rounds than the database has nodes, at the
-- destination, without a node left, or with an error of the database.
use mathlib.Core.List.{Permᴰ}
use mathlib.Core.List.Permᴰ
use mathlib.Core.Path.{subst}
use pce_testing.Base.{
  ℕ, zero, suc, ◌+◌, ◌*◌, ◌≤◌, ◌<◌, ◌≡◌, ◌≢◌, ◌⊎◌, inl, inr, refl, sym, ap, ◌∙◌, Bool, true, false,
  List, [], none, some, arith, Bool-cases, length, In, Result, ok, err,
}
use pce_testing.Net.{bytes_eq}
use pce_testing.Net.Equality.{bytes_eq_iff}
use pce_testing.Table.Policy.{MetricType}
use pce_testing.Table.Ted.{Ted, TedError, find_node}
use pce_testing.Table.Ted.Closed.{IsClosed}
use pce_testing.Cspf.{
  Node, CspfError, next_node_not_found, table_error, find, put, next_node, update_neighbor_costs,
  calculate, relax_links, search_nodes,
}
use pce_testing.Cspf.Nodes.{In-find, same_text}
use pce_testing.Cspf.Next.{IsNext, next_node-IsNext}
use pce_testing.Cspf.Walk.{IsLacking, MetricsBelow}
use pce_testing.Cspf.Invariant.{add, count_below, count_raised, IsSearch}
use pce_testing.Cspf.Links.{relax_links-Outcome}
use pce_testing.Cspf.Invariant.{add_self}
use pce_testing.Cspf.Round.{marked, next-IsOngoing, round-IsSearch}

mul_mono : (a b m : ℕ) → a ≤ b → a * m ≤ b * m
mul_mono zero b m h = omega arith
mul_mono (suc a) zero m h = absurd (omega arith)
mul_mono (suc a) (suc b) m h = (let le = mul_mono a b m (omega arith) in omega arith)

module _ (ted : Ted) (t : MetricType) (u : List ℕ) (nodes : List Node) (p : ℕ) where
  calculate_ok :
      (nodes' : List Node) (nu : Node)
      → find_node ted.nodes u ≡ some p
      → relax_links ted t u nodes (ted.store p).links ≡ ok nodes'
      → find nodes' u ≡ some nu
      → calculate ted t u nodes ≡ ok (put nodes' (marked nu))
  unfolding calculate update_neighbor_costs
  calculate_ok nodes' nu f r g = rw (f, r, g) refl

  calculate_err :
      (e : CspfError)
      → find_node ted.nodes u ≡ some p
      → relax_links ted t u nodes (ted.store p).links ≡ err e
      → calculate ted t u nodes ≡ err e
  unfolding calculate update_neighbor_costs
  calculate_err e f r = rw (f, r) refl

module _ (visit : ℕ → List Node → List Node) (ted : Ted) (t : MetricType) (dst : List ℕ) (fuel : ℕ)
    (nodes : List Node) where
  search_ends :
      next_node nodes (visit fuel nodes) ≡ ok dst
      → search_nodes visit ted t dst (suc fuel) nodes ≡ ok nodes
  unfolding search_nodes
  search_ends n = rw (n, same_text dst dst refl) refl

  search_empty :
      (e : CspfError)
      → next_node nodes (visit fuel nodes) ≡ err e
      → search_nodes visit ted t dst (suc fuel) nodes ≡ err e
  unfolding search_nodes
  search_empty e n = rw n refl

  search_fails :
      (id : List ℕ) (e : CspfError)
      → next_node nodes (visit fuel nodes) ≡ ok id
      → bytes_eq id dst ≡ false
      → calculate ted t id nodes ≡ err e
      → search_nodes visit ted t dst (suc fuel) nodes ≡ err e
  unfolding search_nodes
  search_fails id e n d c = rw (n, d, c) refl

  search_more :
      (id : List ℕ) (nodes' : List Node) (r : Result CspfError (List Node))
      → next_node nodes (visit fuel nodes) ≡ ok id
      → bytes_eq id dst ≡ false
      → calculate ted t id nodes ≡ ok nodes'
      → search_nodes visit ted t dst fuel nodes' ≡ r
      → search_nodes visit ted t dst (suc fuel) nodes ≡ r
  unfolding search_nodes
  search_more id nodes' r n d c e = rw (n, d, c) e

module _ (ted : Ted) (t : MetricType) (src : List ℕ) (bound : ℕ) (dst : List ℕ) where
  -- The destination is the next node of the map that is left.
  pub record IsArrived (nodes : List Node) : Type 0 where
    pub closed : List ℕ → Bool
    pub made : ℕ
    pub at : Node
    pub search : IsSearch ted t src bound closed nodes made
    pub next : IsNext nodes dst at
    pub fresh : closed dst ≡ false

  -- All nodes of the map that is left are calculated, and the destination is none of them.
  pub record IsExhausted : Type 0 where
    pub nodes : List Node
    pub closed : List ℕ → Bool
    pub made : ℕ
    pub search : IsSearch ted t src bound closed nodes made
    pub none_left : (m : Node) → In m nodes → m.calculated ≡ true
    pub fresh : closed dst ≡ false

  abbrev pub SearchOutcome : Result CspfError (List Node) → Type 0
  SearchOutcome r =
      ((nodes : List Node) × (r ≡ ok nodes) × IsArrived nodes)
      ⊎ (((r ≡ err next_node_not_found) × IsExhausted)
          ⊎ ((e : TedError) × (r ≡ err (table_error e)) × IsLacking ted t e))

module _ (ted : Ted) (t : MetricType) (src : List ℕ) (asn bound : ℕ) (inside : IsClosed asn ted)
    (metrics : MetricsBelow ted bound) (limit : length ted.nodes * bound < 4294967296)
    (unnamed : find_node ted.nodes [] ≡ none) where
  calculate-IsSearch :
      (closed : List ℕ → Bool) (nodes : List Node) (made : ℕ) (u : List ℕ) (nu : Node)
      → IsSearch ted t src bound closed nodes made
      → IsNext nodes u nu
      → ((nodes' : List Node) × (calculate ted t u nodes ≡ ok nodes')
          × IsSearch ted t src bound (add u closed) nodes' (suc made))
        ⊎ ((e : TedError) × (calculate ted t u nodes ≡ err (table_error e)) × IsLacking ted t e)
  calculate-IsSearch closed nodes made u nu s next =
      let fresh : closed u ≡ false = sym (s.agrees u nu next.found) ∙ next.open_node in
      let (p, there, seg) = (s.good u nu next.found).segment in
      let below = count_below (add u closed) ted.nodes in
      let raised = count_raised u closed ted.nodes p there fresh in
      let few = s.few in
      let product = mul_mono (suc made) (length ted.nodes) bound (omega arith) in
      let fits : suc made * bound < 4294967296 = omega arith in
      let ongoing = next-IsOngoing ted t src bound made closed u nu nodes s next fresh in
      elim (relax_links-Outcome ted t src asn bound made (add u closed) u nu inside metrics fits
        (add_self u closed) p there nodes (ted.store p).links ongoing (λ l i. i)) [
          | inl (nodes', e, r) ↦ inl (
            put nodes' (marked nu),
            calculate_ok ted t u nodes p nodes' nu there e r.ongoing.self,
            round-IsSearch ted t src bound made closed u nu nodes nodes' p s fresh there r,
          )
          | inr (x, e, lack) ↦ inr (x, calculate_err ted t u nodes p (table_error x) there e, lack)
        ]

  named :
      (closed : List ℕ → Bool) (nodes : List Node) (made : ℕ)
      → IsSearch ted t src bound closed nodes made
      → (n : Node) → In n nodes
      → n.id ≢ []
  named closed nodes made s n i e =
      let (p, there, seg) = (s.good n.id n (In-find nodes n s.unique i)).segment in
      let gone = ap (find_node ted.nodes) e in absurd (cc)

  module _ (visit : ℕ → List Node → List Node) (dst : List ℕ)
      (perm : (k : ℕ) (ns : List Node) → Permᴰ (visit k ns) ns) where
    after :
        (nodes nodes' : List Node) (fuel : ℕ) (id : List ℕ)
        → next_node nodes (visit fuel nodes) ≡ ok id
        → bytes_eq id dst ≡ false
        → calculate ted t id nodes ≡ ok nodes'
        → SearchOutcome ted t src bound dst (search_nodes visit ted t dst fuel nodes')
        → SearchOutcome ted t src bound dst (search_nodes visit ted t dst (suc fuel) nodes)
    after nodes nodes' fuel id e d c later =
        subst (SearchOutcome ted t src bound dst)
          (sym (
            search_more visit ted t dst fuel nodes id nodes'
              (search_nodes visit ted t dst fuel nodes') e d c refl))
          later

    pub search-Outcome :
        (fuel made : ℕ) (closed : List ℕ → Bool) (nodes : List Node)
        → IsSearch ted t src bound closed nodes made
        → closed dst ≡ false
        → fuel + made ≡ suc (length ted.nodes)
        → SearchOutcome ted t src bound dst (search_nodes visit ted t dst fuel nodes)
    search-Outcome zero made closed nodes s fresh sum =
        absurd (let few = s.few in let below = count_below closed ted.nodes in omega arith)
    search-Outcome (suc fuel) made closed nodes s fresh sum =
        elim (next_node-IsNext nodes (visit fuel nodes) (perm fuel nodes)
          (Permᴰ.symm (perm fuel nodes)) s.unique (named closed nodes made s)) [
            | inr (e, left) ↦ inr (
                inl (
                  search_empty visit ted t dst fuel nodes next_node_not_found e,
                  record {
                    nodes = nodes;
                    closed = closed;
                    made = made;
                    search = s;
                    none_left = left;
                    fresh = fresh;
                  },
                ))
            | inl (id, n, e, next) ↦ elim (Bool-cases (bytes_eq id dst)) [
              | inl is ↦
                  let at : id ≡ dst = (bytes_eq_iff id dst).0 is in
                  inl (
                    nodes,
                    search_ends visit ted t dst fuel nodes (e ∙ ap ok at),
                    record {
                      closed = closed;
                      made = made;
                      at = n;
                      search = s;
                      next = subst (λ k. IsNext nodes k n) at next;
                      fresh = fresh;
                    },
                  )
              | inr no_end ↦ elim (calculate-IsSearch closed nodes made id n s next) [
                | inl (nodes', c, s') ↦
                    let still : add id closed dst ≡ false = rw no_end fresh in
                    after nodes nodes' fuel id e no_end c
                      (search-Outcome fuel (suc made) (add id closed) nodes' s' still (omega arith))
                | inr (x, c, lack) ↦ inr (
                    inr (
                      x,
                      search_fails visit ted t dst fuel nodes id (table_error x) e no_end c,
                      lack,
                    ))
              ]
            ]
          ]
