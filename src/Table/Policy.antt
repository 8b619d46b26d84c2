-- ===== src/Table/Policy.antt =====
-- SR Policies of pkg/table/sr_policy.go and the changes that Update makes to one.
use pce_testing.Base.{ℕ, List, Option, none, some}
use pce_testing.Net.{Addr}
use pce_testing.Table.Segment.{Segment}

pub data PolicyState : Type 0 where
  policy_down policy_up policy_active policy_unknown : PolicyState

-- The empty string is `unknown_type`.
pub data PolicyType : Type 0 where
  unknown_type explicit_type dynamic_type : PolicyType

pub data MetricType : Type 0 where
  unspecified_metric igp_metric te_metric delay_metric hopcount_metric : MetricType

-- The router IDs are filled by the gRPC server only.
pub record SrPolicy : Type 0 where
  pub plsp_id : ℕ
  pub name : List ℕ
  pub segment_list : List Segment
  pub src_addr : Addr
  pub dst_addr : Addr
  pub color : ℕ
  pub preference : ℕ
  pub lsp_id : ℕ
  pub state : PolicyState
  pub typ : PolicyType
  pub metric : MetricType

unfoldable pub new_sr_policy :
    ℕ → List ℕ → List Segment → Addr → Addr → ℕ → ℕ → ℕ → PolicyState → SrPolicy
new_sr_policy plsp_id name segment_list src_addr dst_addr color preference lsp_id state = record {
  plsp_id = plsp_id;
  name = name;
  segment_list = segment_list;
  src_addr = src_addr;
  dst_addr = dst_addr;
  color = color;
  preference = preference;
  lsp_id = lsp_id;
  state = state;
  typ = unknown_type;
  metric = unspecified_metric;
}

-- A nil pointer or slice is `none`.
pub record PolicyDiff : Type 0 where
  pub name : Option (List ℕ)
  pub color : Option ℕ
  pub preference : Option ℕ
  pub segment_list : Option (List Segment)
  pub lsp_id : ℕ
  pub state : PolicyState

abbrev changed {ℓ} : {A : Type ℓ} → Option A → A → A
changed none old = old
changed (some new) old = new

unfoldable pub update : SrPolicy → PolicyDiff → SrPolicy
update p df = record {
  plsp_id = p.plsp_id;
  name = changed df.name p.name;
  segment_list = changed df.segment_list p.segment_list;
  src_addr = p.src_addr;
  dst_addr = p.dst_addr;
  color = changed df.color p.color;
  preference = changed df.preference p.preference;
  lsp_id = df.lsp_id;
  state = df.state;
  typ = p.typ;
  metric = p.metric;
}
