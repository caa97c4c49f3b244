-- ===== src/Query/Plan.antt =====
-- src/query/plan.rs, src/query/fusion.rs and the types of src/query/builder.rs and src/query/mod.rs.
use lightgraph.Base.{ℕ, Option, List, Bytes}
use lightgraph.Types.{NodeId}
use lightgraph.Extern.{Scores}
use lightgraph.Index.Property.{Predicate}

pub data FusionMethod (F : Type 0) : Type 0 where
  weighted_sum : F → F → FusionMethod F
  reciprocal_rank_fusion : F → FusionMethod F
  convex : F → FusionMethod F

unfoldable pub default_fusion : {F : Type 0} → ⦃S : Scores F⦄ → FusionMethod F
default_fusion ⦃S⦄ = weighted_sum (S.lit 100) (S.lit 0)

pub data FilterTiming : Type 0 where
  pre post adaptive : FilterTiming

pub data Direction : Type 0 where
  out_edges in_edges both : Direction

pub record TraversalClause : Type 0 where
  pub etype : Bytes
  pub direction : Direction
  pub min_depth : ℕ
  pub max_depth : ℕ
  pub edge_predicates : List Predicate
  pub node_predicates : List Predicate

pub record QueryPlan (F : Type 0) : Type 0 where
  pub fulltext_prop : Option Bytes
  pub fulltext_text : Option Bytes
  pub vector_prop : Option Bytes
  pub vector_query : Option (List F)
  pub vector_k : ℕ
  pub vector_ef : ℕ
  pub predicate : Option Predicate
  pub fusion : FusionMethod F
  pub filter_timing : FilterTiming
  pub traversal : Option TraversalClause
  pub limit : ℕ

pub data PlanOp (F : Type 0) : Type 0 where
  index_scan : Bytes → Predicate → PlanOp F
  full_text_search : Bytes → Bytes → PlanOp F
  vector_search : Bytes → List F → ℕ → ℕ → PlanOp F
  filter_by : Predicate → PlanOp F
  fuse_sort : FusionMethod F → ℕ → PlanOp F
  expand : Bytes → Direction → ℕ → ℕ → PlanOp F
  project : List Bytes → PlanOp F
  take_count : ℕ → PlanOp F

pub record QueryResult (F : Type 0) : Type 0 where
  pub node_id : NodeId
  pub score : F
  pub path : Option (List NodeId)
