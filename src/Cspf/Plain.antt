-- ===== src/Cspf/Plain.antt =====
-- CSPFWithLooseSourceRouting of pkg/cspf/cspf.go ends, and without waypoints it is CSPF.
use mathlib.Core.List.{Permᴰ}
use pce_testing.Base.{
  ℕ, ◌*◌, ◌<◌, ◌≡◌, ◌≢◌, inl, inr, refl, sym, ap, ◌∙◌, true, List, [], ◌∷◌, ◌++◌, Option, none,
  some, Result, ok, err, or_err, map_err, Ends, >>=-Ends, Bool-cases, length,
}
use pce_testing.Net.{bytes_eq}
use pce_testing.Net.Parse.{parse_addr}
use pce_testing.Table.Policy.{MetricType}
use pce_testing.Table.Segment.{Segment}
use pce_testing.Table.Ted.{
  Ted, TedError, LsNode, find_node, node_segment, new_segment_srv6_with_node_info,
  srv6_with_node_info,
}
use pce_testing.Table.Ted.Closed.{IsClosed}
use pce_testing.Table.Ted.Reads.{Returns, node_segment-Returns, srv6_with_node_info-Returns}
use pce_testing.Table.Ted.Present.{node_segment-Equal}
use pce_testing.Cspf.{Node, CspfError, waypoint_not_found, invalid_explicit_sid, table_error, cspf}
use pce_testing.Cspf.Walk.{Route, MetricsBelow}
use pce_testing.Cspf.Shortest.{cspf_ends}
use pce_testing.Cspf.Loose.{
  Waypoint, last, ends_with, remove_duplicate_first, append_if_not_duplicate,
  build_waypoint_segment, build_section_segments, all_sections, cspf_with_loose_source_routing,
}
use pce_testing.Cspf.Joins.{ends_at}
use pce_testing.Cspf.Passes.{IsSection-of}

-- With nothing before it, the section to the destination is the path and the destination's segment.
module _ (visit : ℕ → ℕ → List Node → List Node) (src dst : List ℕ) (metric : MetricType)
    (ted : Ted) where
  plain_fails :
      (e : CspfError)
      → cspf (visit 0) src dst metric ted ≡ err e
      → cspf_with_loose_source_routing visit src dst [] metric ted ≡ err e
  unfolding cspf_with_loose_source_routing all_sections build_section_segments
  plain_fails e h = rw h refl

  kept_first : (section : List Segment) → remove_duplicate_first [] section ≡ section
  unfolding remove_duplicate_first ends_with last
  kept_first [] = refl
  kept_first (s ∷ section) = refl

  own_segment :
      (node : LsNode) (seg : Segment)
      → node_segment node ≡ ok seg
      → build_waypoint_segment node [] ≡ ok seg
  unfolding build_waypoint_segment bytes_eq
  own_segment node seg h = rw h refl

  no_more :
      (list : List Segment) (seg : Segment)
      → ends_with list seg ≡ true
      → append_if_not_duplicate list seg ≡ list
  unfolding append_if_not_duplicate
  no_more list seg h = rw h refl

  plain_returns :
      (segs : List Segment) (p : ℕ) (seg : Segment)
      → cspf (visit 0) src dst metric ted ≡ ok segs
      → find_node ted.nodes dst ≡ some p
      → node_segment (ted.store p) ≡ ok seg
      → ends_with segs seg ≡ true
      → cspf_with_loose_source_routing visit src dst [] metric ted ≡ ok segs
  unfolding cspf_with_loose_source_routing all_sections build_section_segments
  plain_returns segs p seg h f s e =
      rw (h, f, own_segment (ted.store p) seg s, kept_first segs, no_more segs seg e) refl

  -- A route to another node than the source ends with that node's segment.
  Route-end :
      {v : List ℕ} {c : ℕ} {segs : List Segment}
      → Route ted metric src v c segs
      → src ≢ v
      → (p : ℕ) × (seg : Segment) × (find_node ted.nodes v ≡ some p)
        × (node_segment (ted.store p) ≡ ok seg)
        × (ends_with segs seg ≡ true)
  Route-end (Route.start e z s) other = absurd (other (sym e))
  Route-end (Route.step {front = front} {seg = seg} route edge (p, f, n) c s) other = (
    p,
    seg,
    f,
    n,
    ap (λ x. ends_with x seg) s ∙ ends_at front seg (node_segment-Equal (ted.store p) seg n),
  )

or_err-Ends : {E : Type 0} {A : Type 0} (o : Option A) (e : E) → Ends (or_err o e)
or_err-Ends none e = tt
or_err-Ends (some a) e = tt

table-Ends : {A : Type 0} (r : Result TedError A) → Returns r → Ends (map_err table_error r)
table-Ends r h = elim h [ inl (a, e) ↦ rw e tt | inr (x, e) ↦ rw e tt ]

waypoint_segment-Ends : (node : LsNode) (sid : List ℕ) → Ends (build_waypoint_segment node sid)
unfolding build_waypoint_segment new_segment_srv6_with_node_info
waypoint_segment-Ends node sid = elim (Bool-cases (bytes_eq sid [])) [
  | inl e ↦
      rw (e, build_waypoint_segment) (table-Ends (node_segment node) (node_segment-Returns node))
  | inr e ↦
      rw (e, build_waypoint_segment)
        (>>=-Ends (or_err (parse_addr sid) invalid_explicit_sid) _
          (or_err-Ends (parse_addr sid) invalid_explicit_sid)
          (λ a f.
            >>=-Ends (map_err table_error (srv6_with_node_info a node.srv6_sids)) _
              (table-Ends (srv6_with_node_info a node.srv6_sids)
                (srv6_with_node_info-Returns a node.srv6_sids))
              (λ seg g. tt)))
]

module _ (visit : ℕ → ℕ → List Node → List Node) (metric : MetricType) (ted : Ted) (asn bound : ℕ)
    (perm : (left k : ℕ) (ns : List Node) → Permᴰ (visit left k ns) ns) (inside : IsClosed asn ted)
    (metrics : MetricsBelow ted bound) (limit : length ted.nodes * bound < 4294967296)
    (unnamed : find_node ted.nodes [] ≡ none) where
  -- Without waypoints, a loose source route to another node than the source is what CSPF returns,
  -- errors included.
  pub loose_without_waypoints :
      (src dst : List ℕ) (p : ℕ)
      → find_node ted.nodes src ≡ some p
      → src ≢ dst
      → cspf_with_loose_source_routing visit src dst [] metric ted
        ≡ cspf (visit 0) src dst metric ted
  loose_without_waypoints src dst p there other =
      elim (cspf_ends (visit 0) src dst metric ted asn bound p (perm 0) inside metrics limit unnamed
        there) [
          | inl (segs, c, e, route) ↦
              let (q, seg, f, n, ends) = Route-end visit src dst metric ted route other in
              plain_returns visit src dst metric ted segs q seg e f n ends ∙ sym e
          | inr (inl e) ↦ plain_fails visit src dst metric ted _ e ∙ sym e
          | inr (inr (x, e, lack)) ↦ plain_fails visit src dst metric ted _ e ∙ sym e
        ]

  cspf-Ends :
      (left : ℕ) (src dst : List ℕ) (p : ℕ)
      → find_node ted.nodes src ≡ some p
      → Ends (cspf (visit left) src dst metric ted)
  cspf-Ends left src dst p there =
      elim (cspf_ends (visit left) src dst metric ted asn bound p (perm left) inside metrics limit
        unnamed there) [
          | inl (segs, c, e, route) ↦ rw e tt
          | inr (inl e) ↦ rw e tt
          | inr (inr (x, e, lack)) ↦ rw e tt
        ]

  section-Ends :
      (left : ℕ) (prev : List ℕ) (wp : Waypoint) (full : List Segment) (p : ℕ)
      → find_node ted.nodes prev ≡ some p
      → Ends (build_section_segments (visit left) prev wp metric ted full)
  unfolding build_section_segments
  section-Ends left prev wp full p there =
      >>=-Ends (cspf (visit left) prev wp.router_id metric ted) _
        (cspf-Ends left prev wp.router_id p there)
        (λ path e.
          >>=-Ends (or_err (find_node ted.nodes wp.router_id) waypoint_not_found) _
            (or_err-Ends (find_node ted.nodes wp.router_id) waypoint_not_found)
            (λ q f.
              >>=-Ends (build_waypoint_segment (ted.store q) wp.sid) _
                (waypoint_segment-Ends (ted.store q) wp.sid) (λ seg g. tt)))

  sections-Ends :
      (prev : List ℕ) (wps : List Waypoint) (full : List Segment) (p : ℕ)
      → find_node ted.nodes prev ≡ some p
      → Ends (all_sections visit prev wps metric ted full)
  unfolding all_sections
  sections-Ends prev [] full p there = tt
  sections-Ends prev (wp ∷ wps) full p there =
      >>=-Ends (build_section_segments (visit (length wps)) prev wp metric ted full) _
        (section-Ends (length wps) prev wp full p there)
        (λ r e.
          let s = IsSection-of visit metric ted prev (length wps) wp full r e in
          sections-Ends wp.router_id wps (append_if_not_duplicate (full ++ r.0) r.1) s.at s.there)

  -- A loose source route from a node of the database ends with a segment list or an error, whatever
  -- the waypoints and the destination.
  pub cspf_with_loose_source_routing-Ends :
      (src dst : List ℕ) (waypoints : List Waypoint) (p : ℕ)
      → find_node ted.nodes src ≡ some p
      → Ends (cspf_with_loose_source_routing visit src dst waypoints metric ted)
  unfolding cspf_with_loose_source_routing
  cspf_with_loose_source_routing-Ends src dst waypoints p there =
      sections-Ends src (waypoints ++ (record { router_id = dst; sid = [] } ∷ [])) [] p there
