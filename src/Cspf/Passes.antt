-- ===== src/Cspf/Passes.antt =====
-- The segment list of CSPFWithLooseSourceRouting of pkg/cspf/cspf.go passes the waypoints in order.
use mathlib.Core.Path.{subst}
use pce_testing.Base.{
  ℕ, ◌≡◌, refl, sym, ap, ◌∙◌, Bool, true, false, not, List, [], ◌∷◌, ◌++◌, Option, none, some,
  Result, ok, err, ◌>>=◌, or_err, map_err, >>=-eq-ok, ok_inj, if◌then◌else◌, length,
}
use pce_testing.Net.{bytes_eq}
use pce_testing.Net.Parse.{parse_addr}
use pce_testing.Table.Policy.{MetricType}
use pce_testing.Table.Segment.{Segment, srv6, segments_equal}
use pce_testing.Table.Ted.{Ted, LsNode, find_node, node_segment, new_segment_srv6_with_node_info}
use pce_testing.Table.Ted.Present.{srv6-Equal, node_segment-Equal}
use pce_testing.Cspf.{Node, waypoint_not_found, invalid_explicit_sid, table_error, cspf}
use pce_testing.Cspf.Joins.{EndsWith, Joins, removed-Joins, appended-Joins, Joins-EndsWith}
use pce_testing.Cspf.Loose.{
  Waypoint, remove_duplicate_first, append_if_not_duplicate, build_waypoint_segment,
  build_section_segments, all_sections, cspf_with_loose_source_routing,
}

map_err-eq-ok :
    {E F A : Type 0} (f : E → F) (r : Result E A) (a : A) → map_err f r ≡ ok a → r ≡ ok a
map_err-eq-ok f (ok b) a h = ap ok (ok_inj h)
map_err-eq-ok f (err e) a h = absurd (cc)
map_err-eq-ok f Result.panic a h = absurd (cc)
map_err-eq-ok f Result.stuck a h = absurd (cc)

waypoint_segment-Equal :
    (node : LsNode) (sid : List ℕ) (seg : Segment)
    → build_waypoint_segment node sid ≡ ok seg
    → segments_equal seg seg ≡ true
waypoint_segment-Equal node sid seg h =
    by_test (bytes_eq sid []) (unfold build_waypoint_segment in h)
  where
    by_test :
        (b : Bool)
        → (if not b
            then (or_err (parse_addr sid) invalid_explicit_sid >>= λ addr.
                map_err table_error (new_segment_srv6_with_node_info addr node) >>= λ seg.
                ok (srv6 seg))
            else map_err table_error (node_segment node))
          ≡ ok seg
        → segments_equal seg seg ≡ true
    by_test true e =
        node_segment-Equal node seg (map_err-eq-ok table_error (node_segment node) seg e)
    by_test false e =
        let (a, p, f) = >>=-eq-ok (or_err (parse_addr sid) invalid_explicit_sid) _ e in
        let (s, g, k) =
          >>=-eq-ok (map_err table_error (new_segment_srv6_with_node_info a node)) _ f in
        ap (λ x. segments_equal x x) (sym (ok_inj k)) ∙ srv6-Equal s

pub or_err-eq-ok : {E A : Type 0} (o : Option A) (e : E) (a : A) → or_err o e ≡ ok a → o ≡ some a
or_err-eq-ok none e a h = absurd (cc)
or_err-eq-ok (some b) e a h = ap some (ok_inj h)

module _ (visit : ℕ → ℕ → List Node → List Node) (metric : MetricType) (ted : Ted) where
  -- The section to a waypoint: the list goes on with the path that CSPF finds from the waypoint before,
  -- and that with the segment of the waypoint, with which it ends.
  pub record IsSection (prev : List ℕ) (left : ℕ) (wp : Waypoint) (before after : List Segment)
      : Type 0 where
    pub path : List Segment
    pub seg : Segment
    pub at : ℕ
    pub arrived : List Segment
    pub found : cspf (visit left) prev wp.router_id metric ted ≡ ok path
    pub there : find_node ted.nodes wp.router_id ≡ some at
    pub built : build_waypoint_segment (ted.store at) wp.sid ≡ ok seg
    pub onward : Joins before path arrived
    pub closed : Joins arrived (seg ∷ []) after
    pub ends : EndsWith after seg

  -- A section for each waypoint, in their order.
  pub data Passes : List ℕ → List Waypoint → List Segment → List Segment → Type 0 where
    done :
        {prev : List ℕ} {wps : List Waypoint} {before full : List Segment}
        → wps ≡ []
        → before ≡ full
        → Passes prev wps before full
    via :
        {prev : List ℕ} {wps : List Waypoint} {before full : List Segment} (wp : Waypoint)
        (rest : List Waypoint) (after : List Segment)
        → wps ≡ wp ∷ rest
        → IsSection prev (length rest) wp before after
        → Passes wp.router_id rest after full
        → Passes prev wps before full

  IsSection-built :
      (prev : List ℕ) (left : ℕ) (wp : Waypoint) (full path : List Segment) (seg : Segment) (p : ℕ)
      → cspf (visit left) prev wp.router_id metric ted ≡ ok path
      → find_node ted.nodes wp.router_id ≡ some p
      → build_waypoint_segment (ted.store p) wp.sid ≡ ok seg
      → IsSection prev left wp full
          (append_if_not_duplicate (full ++ remove_duplicate_first full path) seg)
  IsSection-built prev left wp full path seg p e g b =
      let kept = remove_duplicate_first full path in
      let closed = appended-Joins (full ++ kept) seg in
      record {
        path = path;
        seg = seg;
        at = p;
        arrived = full ++ kept;
        found = e;
        there = g;
        built = b;
        onward = removed-Joins full path;
        closed = closed;
        ends =
            Joins-EndsWith (full ++ kept) (append_if_not_duplicate (full ++ kept) seg) seg
              (waypoint_segment-Equal (ted.store p) wp.sid seg b) closed;
      }

  pub IsSection-of :
      (prev : List ℕ) (left : ℕ) (wp : Waypoint) (full : List Segment) (r : List Segment × Segment)
      → build_section_segments (visit left) prev wp metric ted full ≡ ok r
      → IsSection prev left wp full (append_if_not_duplicate (full ++ r.0) r.1)
  unfolding build_section_segments
  IsSection-of prev left wp full r h =
      let (path, e, f) = >>=-eq-ok (cspf (visit left) prev wp.router_id metric ted) _ h in
      let (p, g, k) =
        >>=-eq-ok (or_err (find_node ted.nodes wp.router_id) waypoint_not_found) _ f in
      let (seg, b, same) = >>=-eq-ok (build_waypoint_segment (ted.store p) wp.sid) _ k in
      subst (λ x. IsSection prev left wp full (append_if_not_duplicate (full ++ x.0) x.1))
        (ok_inj same)
        (IsSection-built prev left wp full path seg p e
          (or_err-eq-ok (find_node ted.nodes wp.router_id) waypoint_not_found p g) b)

  sections :
      (prev : List ℕ) (wps : List Waypoint) (before full : List Segment)
      → all_sections visit prev wps metric ted before ≡ ok full
      → Passes prev wps before full
  unfolding all_sections
  sections prev [] before full h = Passes.done refl (ok_inj h)
  sections prev (wp ∷ wps) before full h =
      let (r, e, f) =
        >>=-eq-ok (build_section_segments (visit (length wps)) prev wp metric ted before) _ h in
      Passes.via wp wps (append_if_not_duplicate (before ++ r.0) r.1) refl
        (IsSection-of prev (length wps) wp before r e)
        (sections wp.router_id wps (append_if_not_duplicate (before ++ r.0) r.1) full f)

-- The segment list of a loose source route is made of one section for each waypoint, in their order,
-- and one for the destination. In a section the list goes on with the path that CSPF finds from the
-- waypoint before, and then with the waypoint's segment, with which it ends. A first segment that
-- equals the last one of the list is not repeated, and nothing else is left out or added.
pub cspf_with_loose_source_routing-Passes :
    (visit : ℕ → ℕ → List Node → List Node) (src dst : List ℕ) (waypoints : List Waypoint)
    (metric : MetricType) (ted : Ted) (full : List Segment)
    → cspf_with_loose_source_routing visit src dst waypoints metric ted ≡ ok full
    → Passes visit metric ted src (waypoints ++ (record { router_id = dst; sid = [] } ∷ [])) [] full
unfolding cspf_with_loose_source_routing
cspf_with_loose_source_routing-Passes visit src dst waypoints metric ted full h =
    sections visit metric ted src (waypoints ++ (record { router_id = dst; sid = [] } ∷ [])) [] full
      h
