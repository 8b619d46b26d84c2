-- ===== src/Cspf/Links.antt =====
-- The links of the node that is being calculated, one after the other: updateNeighborCosts of
-- pkg/cspf/cspf.go.
use pce_testing.Base.{
  ℕ, suc, ◌+◌, ◌*◌, ◌<◌, ◌≡◌, ◌⊎◌, inl, inr, refl, ap, ◌∙◌, Bool, true, List, [], ◌∷◌, none, some,
  arith, if◌then◌else◌, Option-cases, In, Result, ok, err, ltb,
}
use pce_testing.Base.Bytes.{u32}
use pce_testing.Table.Policy.{MetricType}
use pce_testing.Table.Segment.{Segment}
use pce_testing.Table.Ted.{Ted, LsLink, TedError, find_node, metric_of, node_segment}
use pce_testing.Table.Ted.Closed.{IsClosed}
use pce_testing.Table.Ted.Reads.{metric_of-Returns, node_segment-Returns}
use pce_testing.Cspf.{Node, CspfError, table_error, find, put, new_node, relax_link, relax_links}
use pce_testing.Cspf.Walk.{IsLacking, MetricsBelow}
use pce_testing.Cspf.Link.{remote, IsRelaxed, remote_there, metric_small, relax_known, relax_new}
use pce_testing.Cspf.Relax.{IsOngoing, IsLower-refl, IsLower-trans}

-- relax_link on each of its branches.
module _ (ted : Ted) (t : MetricType) (u : List ℕ) (nu : Node) (nodes : List Node)
    (l : LsLink) where
  link_no_metric :
      (e : TedError)
      → metric_of l.metrics t ≡ err e
      → relax_link ted t u nodes l ≡ err (table_error e)
  unfolding relax_link
  link_no_metric e h = rw h refl

  link_known :
      (w : ℕ) (r : Node)
      → metric_of l.metrics t ≡ ok w
      → find nodes u ≡ some nu
      → find nodes (ted.store l.remote_node).router_id ≡ some r
      → relax_link ted t u nodes l
        ≡ ok (
            if ltb (u32 (nu.cost + w)) r.cost
            then put nodes (record r { cost = u32 (nu.cost + w); prev_node = u })
            else nodes)
  unfolding relax_link
  link_known w r h f g = rw (h, f, g) refl

  link_new :
      (w : ℕ) (seg : Segment)
      → metric_of l.metrics t ≡ ok w
      → find nodes u ≡ some nu
      → find nodes (ted.store l.remote_node).router_id ≡ none
      → node_segment (ted.store l.remote_node) ≡ ok seg
      → relax_link ted t u nodes l
        ≡ ok (
            put nodes
              (record (new_node (ted.store l.remote_node).router_id (u32 (nu.cost + w)) seg) {
                prev_node = u;
              }))
  unfolding relax_link
  link_new w seg h f g s = rw (h, f, g, s) refl

  link_no_segment :
      (w : ℕ) (e : TedError)
      → metric_of l.metrics t ≡ ok w
      → find nodes u ≡ some nu
      → find nodes (ted.store l.remote_node).router_id ≡ none
      → node_segment (ted.store l.remote_node) ≡ err e
      → relax_link ted t u nodes l ≡ err (table_error e)
  unfolding relax_link
  link_no_segment w e h f g s = rw (h, f, g, s) refl

module _ (ted : Ted) (t : MetricType) (src : List ℕ) (asn bound made : ℕ) (done : List ℕ → Bool)
    (u : List ℕ) (nu : Node) (inside : IsClosed asn ted) (metrics : MetricsBelow ted bound)
    (fits : suc made * bound < 4294967296) (itself : done u ≡ true) (p : ℕ)
    (there : find_node ted.nodes u ≡ some p) where
  abbrev pub Outcome : List LsLink → List Node → Result CspfError (List Node) → Type 0
  Outcome ls nodes r =
      ((nodes' : List Node) × (r ≡ ok nodes')
        × IsRelaxed ted t src bound made done u nu ls nodes nodes')
      ⊎ ((e : TedError) × (r ≡ err (table_error e)) × IsLacking ted t e)

  module _ (nodes : List Node) (l : LsLink) where
    relax_metric :
        (w : ℕ)
        → IsOngoing ted t src bound made done u nu nodes
        → In l (ted.store p).links
        → metric_of l.metrics t ≡ ok w
        → Outcome (l ∷ []) nodes (relax_link ted t u nodes l)
    relax_metric w o i h =
        let small =
          metric_small ted t src asn bound made done u nu inside metrics fits itself p there l w i
            h in
        let cheap = o.self_cheap in
        let whole : u32 (nu.cost + w) ≡ nu.cost + w = omega arith in
        elim (Option-cases (find nodes (remote ted l))) [
          | inl f ↦ elim (node_segment-Returns (ted.store l.remote_node)) [
            | inl (seg, s) ↦ inl (
              put nodes (record (new_node (remote ted l) (nu.cost + w) seg) { prev_node = u }),
              link_new ted t u nu nodes l w seg h o.self f s
                  ∙ ap
                      (λ c.
                        ok (put nodes (record (new_node (remote ted l) c seg) { prev_node = u })))
                      whole,
              relax_new ted t src asn bound made done u nu inside metrics fits itself p there nodes
                  l w seg o i h f s,
            )
            | inr (e, s) ↦ inr (
              e,
              link_no_segment ted t u nu nodes l w e h o.self f s,
              IsLacking.no_segment (remote ted l) l.remote_node
                  (remote_there ted t src asn bound made done u nu inside metrics fits itself p
                    there l i)
                  s,
            )
          ]
          | inr (r, f) ↦ inl (
            (if ltb (nu.cost + w) r.cost
                then put nodes (record r { cost = nu.cost + w; prev_node = u })
                else nodes),
            link_known ted t u nu nodes l w r h o.self f
                ∙ ap
                    (λ c. ok (
                      if ltb c r.cost
                      then put nodes (record r { cost = c; prev_node = u })
                      else nodes))
                    whole,
            relax_known ted t src asn bound made done u nu inside metrics fits itself p there nodes
                l w r o i h f,
          )
        ]

    relax_link-Outcome :
        IsOngoing ted t src bound made done u nu nodes
        → In l (ted.store p).links
        → Outcome (l ∷ []) nodes (relax_link ted t u nodes l)
    relax_link-Outcome o i = elim (metric_of-Returns l.metrics t) [
      | inl (w, h) ↦ relax_metric w o i h
      | inr (e, h) ↦
          inr (e, link_no_metric ted t u nu nodes l e h, IsLacking.no_metric u p l there i h)
    ]

  relax_first :
      (nodes nodes' : List Node) (l : LsLink) (ls : List LsLink) (r : Result CspfError (List Node))
      → relax_link ted t u nodes l ≡ ok nodes'
      → relax_links ted t u nodes' ls ≡ r
      → relax_links ted t u nodes (l ∷ ls) ≡ r
  unfolding relax_links
  relax_first nodes nodes' l ls r e f = rw e f

  relax_stops :
      (nodes : List Node) (l : LsLink) (ls : List LsLink) (e : CspfError)
      → relax_link ted t u nodes l ≡ err e
      → relax_links ted t u nodes (l ∷ ls) ≡ err e
  unfolding relax_links
  relax_stops nodes l ls e h = rw h refl

  relax_none : (nodes : List Node) → relax_links ted t u nodes [] ≡ ok nodes
  unfolding relax_links
  relax_none nodes = refl

  IsRelaxed-more :
      (a b c : List Node) (l : LsLink) (ls : List LsLink)
      → IsRelaxed ted t src bound made done u nu (l ∷ []) a b
      → IsRelaxed ted t src bound made done u nu ls b c
      → IsRelaxed ted t src bound made done u nu (l ∷ ls) a c
  IsRelaxed-more a b c l ls p q = record {
    ongoing = q.ongoing;
    lower = IsLower-trans ted t src bound made done u nu p.lower q.lower;
    settled = λ k w i h. elim i [
      | inl here ↦
          let (m, f, le) = p.settled k w (inl here) h in
          let (n, g, le') = q.lower.lowered (remote ted k) m f in (n, g, omega arith)
      | inr there ↦ q.settled k w there h
    ];
  }

  -- All the links are relaxed, or one of them lacks what the search needs.
  pub relax_links-Outcome :
      (nodes : List Node) (ls : List LsLink)
      → IsOngoing ted t src bound made done u nu nodes
      → ((l : LsLink) → In l ls → In l (ted.store p).links)
      → Outcome ls nodes (relax_links ted t u nodes ls)
  relax_links-Outcome nodes [] o all = inl (
    nodes,
    relax_none nodes,
    record {
      ongoing = o;
      lower = IsLower-refl ted t src bound made done u nu nodes;
      settled = λ l w i h. absurd i;
    },
  )
  relax_links-Outcome nodes (l ∷ ls) o all =
      elim (relax_link-Outcome nodes l o (all l (inl refl))) [
        | inl (nodes', e, r) ↦
            elim (relax_links-Outcome nodes' ls r.ongoing (λ k i. all k (inr i))) [
              | inl (last, e', r') ↦ inl (
                last,
                relax_first nodes nodes' l ls (ok last) e e',
                IsRelaxed-more nodes nodes' last l ls r r',
              )
              | inr (x, e', lack) ↦
                  inr (x, relax_first nodes nodes' l ls (err (table_error x)) e e', lack)
            ]
        | inr (x, e, lack) ↦ inr (x, relax_stops nodes l ls (table_error x) e, lack)
      ]
