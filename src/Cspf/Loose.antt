-- ===== src/Cspf/Loose.antt =====
-- CSPFWithLooseSourceRouting of pkg/cspf/cspf.go, for waypoints of pkg/table/sr_policy.go. `visit`
-- gives each section, by the number of waypoints that are left after it, the orders of its rounds.
use pce_testing.Base.{
  ℕ, Bool, false, not, List, [], ◌∷◌, ◌++◌, Option, none, some, Result, ok, ◌>>=◌, or_err, map_err,
  if◌then◌else◌, length,
}
use pce_testing.Net.{bytes_eq}
use pce_testing.Net.Parse.{parse_addr}
use pce_testing.Table.Policy.{MetricType}
use pce_testing.Table.Segment.{Segment, srv6, segments_equal}
use pce_testing.Table.Ted.{Ted, LsNode, find_node, node_segment, new_segment_srv6_with_node_info}
use pce_testing.Cspf.{Node, CspfError, waypoint_not_found, invalid_explicit_sid, table_error, cspf}

pub record Waypoint : Type 0 where
  pub router_id : List ℕ
  pub sid : List ℕ

unfoldable pub last : List Segment → Option Segment
last [] = none
last (s ∷ ss) = elim ss [ [] ↦ some s | t ∷ ts ↦ last ss ]

-- Whether the last segment of the list is this one.
unfoldable pub ends_with : List Segment → Segment → Bool
unfolding last segments_equal
ends_with full seg = elim (last full) [ none ↦ false | some s ↦ segments_equal s seg ]

unfoldable pub remove_duplicate_first : List Segment → List Segment → List Segment
unfolding ends_with
remove_duplicate_first full [] = []
remove_duplicate_first full (s ∷ section) = if ends_with full s then section else s ∷ section

unfoldable pub append_if_not_duplicate : List Segment → Segment → List Segment
unfolding ends_with
append_if_not_duplicate list seg = if ends_with list seg then list else list ++ (seg ∷ [])

unfoldable pub build_waypoint_segment : LsNode → List ℕ → Result CspfError Segment
unfolding node_segment parse_addr new_segment_srv6_with_node_info
build_waypoint_segment node explicit_sid =
    if not (bytes_eq explicit_sid [])
    then (or_err (parse_addr explicit_sid) invalid_explicit_sid >>= λ addr.
        map_err table_error (new_segment_srv6_with_node_info addr node) >>= λ seg. ok (srv6 seg))
    else map_err table_error (node_segment node)

unfoldable pub build_section_segments :
    (ℕ → List Node → List Node)
    → List ℕ
    → Waypoint
    → MetricType
    → Ted
    → List Segment
    → Result CspfError (List Segment × Segment)
unfolding cspf remove_duplicate_first find_node build_waypoint_segment
build_section_segments visit prev wp metric_type ted full = do
  section ← cspf visit prev wp.router_id metric_type ted
  p ← or_err (find_node ted.nodes wp.router_id) waypoint_not_found
  seg ← build_waypoint_segment (ted.store p) wp.sid
  ok (remove_duplicate_first full section, seg)

unfoldable pub all_sections :
    (ℕ → ℕ → List Node → List Node)
    → List ℕ
    → List Waypoint
    → MetricType
    → Ted
    → List Segment
    → Result CspfError (List Segment)
unfolding build_section_segments append_if_not_duplicate
all_sections visit prev [] metric_type ted full = ok full
all_sections visit prev (wp ∷ wps) metric_type ted full =
    build_section_segments (visit (length wps)) prev wp metric_type ted full >>= λ r.
    all_sections visit wp.router_id wps metric_type ted (append_if_not_duplicate (full ++ r.0) r.1)

unfoldable pub cspf_with_loose_source_routing :
    (ℕ → ℕ → List Node → List Node)
    → List ℕ
    → List ℕ
    → List Waypoint
    → MetricType
    → Ted
    → Result CspfError (List Segment)
unfolding all_sections
cspf_with_loose_source_routing visit src dst waypoints metric_type ted =
    all_sections visit src (waypoints ++ (record { router_id = dst; sid = [] } ∷ [])) metric_type
      ted []
