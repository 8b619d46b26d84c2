-- ===== src/Tests/Paths.antt =====
-- A database of three nodes, and the paths over it.
use mathlib.Core.List.{Permᴰ}
use mathlib.Core.List.Permᴰ
use pce_testing.Base.{
  ℕ, ◌*◌, ◌≤◌, ◌<◌, ◌≡◌, ◌⊎◌, inl, inr, refl, List, [], ◌∷◌, none, some, ok, err, false, true,
  length, arith, ◌++◌, ◌≢◌, ap, Ends,
}
use pce_testing.Net.{Addr, bytes_eq}
use pce_testing.Strconv.{itoa}
use pce_testing.Table.Policy.{igp_metric}
use pce_testing.Table.Segment.{Segment, srmpls, new_segment_srmpls}
use pce_testing.Table.Ted.{Ted, metric_of, LsNode, TedError, find_node}
use pce_testing.Table.Ted.Update.{TedElem, node_elem, link_elem, prefix_elem, update, empty_ted}
use pce_testing.Table.Ted.Closed.{IsClosed}
use pce_testing.Table.Ted.Kept.{update-IsClosed, empty_ted-IsClosed}
use pce_testing.Cspf.{Node, next_node_not_found, table_error, cspf}
use pce_testing.Cspf.Walk.{Walk, Route, IsLacking, MetricsBelow}
use pce_testing.Cspf.Loose.{Waypoint, cspf_with_loose_source_routing}
use pce_testing.Cspf.Passes.{Passes, cspf_with_loose_source_routing-Passes}
use pce_testing.Cspf.Plain.{loose_without_waypoints, cspf_with_loose_source_routing-Ends}
use pce_testing.Cspf.Shortest.{cspf_shortest, cspf_ends}

abbrev router : ℕ → LsNode
router id = record {
  asn = 65000;
  router_id = id ∷ [];
  isis_area_id = [];
  hostname = [];
  srgb_begin = 16000;
  srgb_end = 24000;
  links = [];
  prefixes = [];
  srv6_sids = [];
}

abbrev sid : ℕ → TedElem
sid id = prefix_elem (router id) record {
  prefix = record { addr = Addr.v4 (10 ∷ 0 ∷ 0 ∷ id ∷ []); bits = 32 };
  sid_index = id;
  has_sid_index = true;
}

abbrev link : ℕ → ℕ → ℕ → TedElem
link from to value = link_elem (router from) (router to) record {
  local_node = 0;
  remote_node = 0;
  local_ip = Addr.invalid;
  remote_ip = Addr.invalid;
  metrics = record { typ = igp_metric; value = value } ∷ [];
  adj_sid = 0;
  srv6_endx_sid = none;
}

abbrev pub elements : List TedElem
elements =
    node_elem (router 65)
    ∷ sid 65
    ∷ link 65 66 10
    ∷ node_elem (router 66)
    ∷ sid 66
    ∷ link 65 67 30
    ∷ node_elem (router 67)
    ∷ sid 67
    ∷ link 66 67 5
    ∷ []

unfoldable pub sample : Ted
unfolding update empty_ted
sample = update empty_ted elements 65000

sample-IsClosed : IsClosed 65000 sample
unfolding sample
sample-IsClosed =
    update-IsClosed 65000 empty_ted elements
      (refl, (tt, (tt, (refl, (tt, (tt, (refl, (tt, (tt, tt))))))))) (empty_ted-IsClosed 65000)

unfoldable same_order : ℕ → List Node → List Node
same_order k ns = ns

shorter :
    cspf same_order (65 ∷ []) (67 ∷ []) igp_metric sample
    ≡ ok (srmpls (new_segment_srmpls 16066) ∷ srmpls (new_segment_srmpls 16067) ∷ [])
unfolding cspf sample same_order itoa
shorter = refl

no_way_back : cspf same_order (67 ∷ []) (65 ∷ []) igp_metric sample ≡ err next_node_not_found
unfolding cspf sample same_order itoa
no_way_back = refl

metrics_below : MetricsBelow sample 30
unfolding sample
metrics_below = (((omega arith, tt), ((omega arith, tt), tt)), (((omega arith, tt), tt), (tt, tt)))

limit : length sample.nodes * 30 < 4294967296
unfolding sample
limit = omega arith

unnamed : find_node sample.nodes [] ≡ none
unfolding sample
unnamed = refl

same_order-Perm : (k : ℕ) (ns : List Node) → Permᴰ (same_order k ns) ns
unfolding same_order
same_order-Perm k ns = Permᴰ.refl ns

first_there : find_node sample.nodes (65 ∷ []) ≡ some 0
unfolding sample
first_there = refl

direct : Walk sample igp_metric (65 ∷ []) (67 ∷ []) 30
unfolding sample metric_of
direct =
    Walk.step (Walk.start refl refl)
      record {
        at = 0;
        link = record {
          local_node = 0;
          remote_node = 2;
          local_ip = Addr.invalid;
          remote_ip = Addr.invalid;
          metrics = record { typ = igp_metric; value = 30 } ∷ [];
          adj_sid = 0;
          srv6_endx_sid = none;
        };
        there = refl;
        listed = inr (inl refl);
        metric = refl;
        end = refl;
      }
      refl

update-IsClosed_example : IsClosed 65000 (update empty_ted elements 65000)
update-IsClosed_example =
    update-IsClosed 65000 empty_ted elements
      (refl, (tt, (tt, (refl, (tt, (tt, (refl, (tt, (tt, tt))))))))) (empty_ted-IsClosed 65000)

cspf_shortest_example :
    ((segs : List Segment) × (c : ℕ) × (cspf same_order (65 ∷ []) (67 ∷ []) igp_metric sample
        ≡ ok segs)
      × Route sample igp_metric (65 ∷ []) (67 ∷ []) c segs
      × (c ≤ 30))
    ⊎ ((e : TedError) × (cspf same_order (65 ∷ []) (67 ∷ []) igp_metric sample
          ≡ err (table_error e))
        × IsLacking sample igp_metric e)
cspf_shortest_example =
    cspf_shortest same_order (65 ∷ []) (67 ∷ []) igp_metric sample 65000 30 0 same_order-Perm
      sample-IsClosed metrics_below limit unnamed first_there 30 direct

cspf_ends_example :
    ((segs : List Segment) × (c : ℕ) × (cspf same_order (65 ∷ []) (67 ∷ []) igp_metric sample
        ≡ ok segs)
      × Route sample igp_metric (65 ∷ []) (67 ∷ []) c segs)
    ⊎ ((cspf same_order (65 ∷ []) (67 ∷ []) igp_metric sample ≡ err next_node_not_found)
        ⊎ ((e : TedError) × (cspf same_order (65 ∷ []) (67 ∷ []) igp_metric sample
              ≡ err (table_error e))
            × IsLacking sample igp_metric e))
cspf_ends_example =
    cspf_ends same_order (65 ∷ []) (67 ∷ []) igp_metric sample 65000 30 0 same_order-Perm
      sample-IsClosed metrics_below limit unnamed first_there

unfoldable each_same : ℕ → ℕ → List Node → List Node
each_same left k ns = ns

each_same-Perm : (left k : ℕ) (ns : List Node) → Permᴰ (each_same left k ns) ns
unfolding each_same
each_same-Perm left k ns = Permᴰ.refl ns

abbrev via_second : List Waypoint
via_second = record { router_id = 66 ∷ []; sid = [] } ∷ []

abbrev labels : List Segment
labels = srmpls (new_segment_srmpls 16066) ∷ srmpls (new_segment_srmpls 16067) ∷ []

through :
    cspf_with_loose_source_routing each_same (65 ∷ []) (67 ∷ []) via_second igp_metric sample
    ≡ ok labels
unfolding cspf_with_loose_source_routing sample each_same itoa
through = refl

cspf_with_loose_source_routing-Passes_example :
    Passes each_same igp_metric sample
      (65 ∷ [])
      (via_second ++ (record { router_id = 67 ∷ []; sid = [] } ∷ []))
      []
      labels
cspf_with_loose_source_routing-Passes_example =
    cspf_with_loose_source_routing-Passes each_same (65 ∷ []) (67 ∷ []) via_second igp_metric sample
      labels through

abbrev first : List ℕ
first = 65 ∷ []

ends_differ : first ≢ (67 ∷ [])
unfolding bytes_eq
ends_differ e = absurd (let same : true ≡ false = ap (bytes_eq first) e in cc)

loose_without_waypoints_example :
    cspf_with_loose_source_routing each_same (65 ∷ []) (67 ∷ []) [] igp_metric sample
    ≡ cspf (each_same 0) (65 ∷ []) (67 ∷ []) igp_metric sample
loose_without_waypoints_example =
    loose_without_waypoints each_same igp_metric sample 65000 30 each_same-Perm sample-IsClosed
      metrics_below limit unnamed (65 ∷ []) (67 ∷ []) 0 first_there ends_differ

cspf_with_loose_source_routing-Ends_example :
    Ends (cspf_with_loose_source_routing each_same (65 ∷ []) (67 ∷ []) via_second igp_metric sample)
cspf_with_loose_source_routing-Ends_example =
    cspf_with_loose_source_routing-Ends each_same igp_metric sample 65000 30 each_same-Perm
      sample-IsClosed metrics_below limit unnamed (65 ∷ []) (67 ∷ []) via_second 0 first_there
