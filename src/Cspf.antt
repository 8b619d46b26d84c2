-- ===== src/Cspf.antt =====
-- The shortest path search, pkg/cspf/cspf.go, on the database of pkg/table/ted.go. The map of nodes
-- that are being calculated is a list of them, each under its ID; `visit` is the order in which Go
-- iterates over the map, which may be another one in each round.
pub mod Nodes
pub mod Next
pub mod Walk
pub mod Chain
pub mod Invariant
pub mod Relax
pub mod Link
pub mod Links
pub mod Round
pub mod Search
pub mod Cover
pub mod Shortest
pub mod Loose
pub mod Joins
pub mod Passes
pub mod Plain
use pce_testing.Base.{
  ℕ, zero, suc, ◌+◌, Bool, true, false, not, ◌&&◌, ◌||◌, List, [], ◌∷◌, ◌++◌, Option, none, some,
  Result, ok, err, panic, stuck, ◌>>=◌, or_err, map_err, deref, ltb, if◌then◌else◌, length,
}
use mathlib.Core.List.{reverse}
use pce_testing.Base.Bytes.{u32}
use pce_testing.Net.{bytes_eq}
use pce_testing.Net.Parse.{parse_addr}
use pce_testing.Table.Policy.{MetricType}
use pce_testing.Table.Segment.{Segment, srv6, segments_equal}
use pce_testing.Table.Ted.{
  Ted, TedError, LsNode, LsLink, find_node, node_segment, metric_of, unparsed_address,
  new_segment_srv6_with_node_info,
}

pub record Node : Type 0 where
  pub id : List ℕ
  pub calculated : Bool
  pub cost : ℕ
  pub prev_node : List ℕ
  pub node_segment : Segment

unfoldable pub new_node : List ℕ → ℕ → Segment → Node
new_node id cost seg = record {
  id = id;
  calculated = false;
  cost = cost;
  prev_node = [];
  node_segment = seg;
}

pub data CspfError : Type 0 where
  next_node_not_found : CspfError
  waypoint_not_found invalid_explicit_sid : CspfError
  table_error : TedError → CspfError

unfoldable pub find : List Node → List ℕ → Option Node
unfolding bytes_eq
find [] id = none
find (n ∷ ns) id = let rest = find ns id in if bytes_eq n.id id then some n else rest

-- A node of the map is changed, or a new one is put into it.
unfoldable pub put : List Node → Node → List Node
unfolding bytes_eq
put [] m = m ∷ []
put (n ∷ ns) m = let rest = put ns m in if bytes_eq n.id m.id then m ∷ ns else n ∷ rest

-- The cost behind a pointer; the code reads it of a node that is in the map.
abbrev pub cost_of : Option Node → ℕ
cost_of none = 0
cost_of (some n) = n.cost

-- The choice of `nextNode`, whose empty text says that there is none yet.
abbrev pub better : List Node → List ℕ → Node → List ℕ
better nodes best n =
    if not n.calculated && (bytes_eq best [] || ltb n.cost (cost_of (find nodes best)))
    then n.id
    else best

unfoldable pub next_from : List Node → List ℕ → List Node → List ℕ
unfolding find bytes_eq
next_from nodes best [] = best
next_from nodes best (n ∷ ns) = next_from nodes (better nodes best n) ns

unfoldable pub next_node : List Node → List Node → Result CspfError (List ℕ)
unfolding next_from
next_node nodes visited =
    let next = next_from nodes [] visited in
    if bytes_eq next [] then err next_node_not_found else ok next

unfoldable pub init_node_map : Ted → List ℕ → Result CspfError (List Node)
unfolding find_node node_segment new_node
init_node_map ted src = do
  p ← deref (find_node ted.nodes src)
  seg ← map_err table_error (node_segment (ted.store p))
  ok (new_node src 0 seg ∷ [])

-- A link of the node that is being calculated.
unfoldable pub relax_link :
    Ted → MetricType → List ℕ → List Node → LsLink → Result CspfError (List Node)
unfolding find put metric_of node_segment new_node
relax_link ted metric_type calc_id nodes l =
    map_err table_error (metric_of l.metrics metric_type) >>= λ metric.
    deref (find nodes calc_id) >>= λ calc.
    let remote = ted.store l.remote_node in
    let cost = u32 (calc.cost + metric) in
    elim (find nodes remote.router_id) [
      | some r ↦ ok (
          if ltb cost r.cost
          then put nodes (record r { cost = cost; prev_node = calc_id })
          else nodes)
      | none ↦ map_err table_error (node_segment remote) >>= λ seg.
          ok (put nodes (record (new_node remote.router_id cost seg) { prev_node = calc_id }))
    ]

unfoldable pub relax_links :
    Ted → MetricType → List ℕ → List Node → List LsLink → Result CspfError (List Node)
unfolding relax_link
relax_links ted metric_type calc_id nodes [] = ok nodes
relax_links ted metric_type calc_id nodes (l ∷ ls) =
    relax_link ted metric_type calc_id nodes l >>= λ nodes'.
    relax_links ted metric_type calc_id nodes' ls

unfoldable pub update_neighbor_costs :
    Ted → MetricType → List ℕ → List Node → Result CspfError (List Node)
unfolding find_node relax_links
update_neighbor_costs ted metric_type calc_id nodes = deref (find_node ted.nodes calc_id) >>= λ p.
    relax_links ted metric_type calc_id nodes (ted.store p).links

-- A round that does not reach the destination.
unfoldable pub calculate : Ted → MetricType → List ℕ → List Node → Result CspfError (List Node)
unfolding update_neighbor_costs find put
calculate ted metric_type id nodes = update_neighbor_costs ted metric_type id nodes >>= λ nodes'.
    deref (find nodes' id) >>= λ n. ok (put nodes' (record n { calculated = true }))

-- The loop of spf, with the rounds that it may take.
unfoldable pub search_nodes :
    (ℕ → List Node → List Node)
    → Ted
    → MetricType
    → List ℕ
    → ℕ
    → List Node
    → Result CspfError (List Node)
unfolding next_node calculate
search_nodes visit ted metric_type dst zero nodes = stuck
search_nodes visit ted metric_type dst (suc fuel) nodes =
    next_node nodes (visit fuel nodes) >>= λ id.
    let rest = calculate ted metric_type id nodes >>= λ nodes'.
    search_nodes visit ted metric_type dst fuel nodes' in
    if bytes_eq id dst then ok nodes else rest

-- The loop of buildSegmentListFromPath, from the destination on.
unfoldable pub collect_segments : ℕ → List Node → List ℕ → List ℕ → Result CspfError (List Segment)
unfolding find
collect_segments zero nodes src id = stuck
collect_segments (suc fuel) nodes src id = deref (find nodes id) >>= λ n.
    let rest = collect_segments fuel nodes src n.prev_node >>= λ segs. ok (n.node_segment ∷ segs) in
    if bytes_eq n.id src then ok [] else rest

unfoldable pub build_segment_list_from_path :
    ℕ → List ℕ → List ℕ → List Node → Result CspfError (List Segment)
unfolding collect_segments
build_segment_list_from_path fuel src dst nodes =
    collect_segments fuel nodes src dst >>= λ segs. ok (reverse segs)

-- As many rounds as the network has nodes, and one more.
abbrev pub rounds : Ted → ℕ
rounds ted = suc (length ted.nodes)

unfoldable pub spf :
    (ℕ → List Node → List Node)
    → List ℕ
    → List ℕ
    → MetricType
    → Ted
    → Result CspfError (List Segment)
unfolding init_node_map search_nodes build_segment_list_from_path
spf visit src dst metric_type ted = do
  start ← init_node_map ted src
  nodes ← search_nodes visit ted metric_type dst (rounds ted) start
  build_segment_list_from_path (rounds ted) src dst nodes

unfoldable pub cspf :
    (ℕ → List Node → List Node)
    → List ℕ
    → List ℕ
    → MetricType
    → Ted
    → Result CspfError (List Segment)
unfolding spf
cspf visit src dst metric_type ted = spf visit src dst metric_type ted
