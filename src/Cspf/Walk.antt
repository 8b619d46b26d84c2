-- ===== src/Cspf/Walk.antt =====
-- What pkg/cspf/cspf.go computes: the walks and the routes of a database, with their costs.
use pce_testing.Base.{ℕ, ◌+◌, ◌≤◌, ◌≡◌, List, [], ◌∷◌, ◌++◌, some, ok, err, All, In}
use pce_testing.Table.Policy.{MetricType}
use pce_testing.Table.Segment.{Segment}
use pce_testing.Table.Ted.{Ted, LsLink, TedError, find_node, metric_of, node_segment}

module _ (ted : Ted) (t : MetricType) where
  -- A link of a node of the map, with its metric.
  pub record Edge (u v : List ℕ) (w : ℕ) : Type 0 where
    pub at : ℕ
    pub link : LsLink
    pub there : find_node ted.nodes u ≡ some at
    pub listed : In link (ted.store at).links
    pub metric : metric_of link.metrics t ≡ ok w
    pub end : (ted.store link.remote_node).router_id ≡ v

  -- The node of the map has this node segment.
  abbrev pub SegmentAt : List ℕ → Segment → Type 0
  SegmentAt v seg =
      (p : ℕ) × (find_node ted.nodes v ≡ some p) × (node_segment (ted.store p) ≡ ok seg)

  -- A walk from the source, and the sum of its metrics.
  pub data Walk (src : List ℕ) : List ℕ → ℕ → Type 0 where
    start : {v : List ℕ} {c : ℕ} → v ≡ src → c ≡ 0 → Walk src v c
    step : {u v : List ℕ} {c d w : ℕ} → Walk src u d → Edge u v w → c ≡ d + w → Walk src v c

  -- A walk with the segments of its nodes, the source's left out.
  pub data Route (src : List ℕ) : List ℕ → ℕ → List Segment → Type 0 where
    start :
        {v : List ℕ} {c : ℕ} {segs : List Segment}
        → v ≡ src
        → c ≡ 0
        → segs ≡ []
        → Route src v c segs
    step :
        {u v : List ℕ} {c d w : ℕ} {front segs : List Segment} {seg : Segment}
        → Route src u d front
        → Edge u v w
        → SegmentAt v seg
        → c ≡ d + w
        → segs ≡ front ++ (seg ∷ [])
        → Route src v c segs

  -- A link without the metric, or a node without a segment.
  pub data IsLacking (e : TedError) : Type 0 where
    no_metric :
        (k : List ℕ) (p : ℕ) (l : LsLink)
        → find_node ted.nodes k ≡ some p
        → In l (ted.store p).links
        → metric_of l.metrics t ≡ err e
        → IsLacking e
    no_segment :
        (k : List ℕ) (p : ℕ)
        → find_node ted.nodes k ≡ some p
        → node_segment (ted.store p) ≡ err e
        → IsLacking e

-- No metric of a link of the map is above the bound, and no path of the map can cost 2^32.
abbrev pub MetricsBelow : Ted → ℕ → Type 0
MetricsBelow ted bound =
    All (λ entry. All (λ l. All (λ m. m.value ≤ bound) l.metrics) (ted.store entry.1).links)
      ted.nodes
