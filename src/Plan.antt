-- ===== src/Plan.antt =====
-- crates/lynxes-core/src/query/logical_plan.rs: the lazy plan tree.
pub mod Expressions
use lynxes_mojo.Common.{ℕ, String, List, Option, none, some, Bool}
use lynxes_mojo.Direction.{Direction}
use Expressions.{Expr, AggExpr, EdgeTypeSpec, PatternStep, Pattern}

-- A connector behind `Arc<dyn Connector>`: the plan code asks it for this key only.
pub record Connector : Type 0 where
  pub cache_source_key : Option String

pub data PlanDomain : Type 0 where
  graph nodes edges pattern_rows : PlanDomain

pub data PartitionStrategy : Type 0 where
  expand_frontier pattern_roots : PartitionStrategy

pub data ExecutionHint : Type 0 where
  top_k limit_aware : ℕ → ExecutionHint
  partition_parallel : PartitionStrategy → ExecutionHint

pub data LogicalPlan : Type 0 where
  scan : Connector → Option (List String) → Option (List String) → LogicalPlan
  cache : LogicalPlan → String → LogicalPlan
  hint : LogicalPlan → ExecutionHint → LogicalPlan
  filter_nodes filter_edges : LogicalPlan → Expr → LogicalPlan
  project_nodes project_edges : LogicalPlan → List String → LogicalPlan
  expand : LogicalPlan → EdgeTypeSpec → ℕ → Direction → Option Expr → LogicalPlan
  traverse : LogicalPlan → List PatternStep → LogicalPlan
  pattern_match : LogicalPlan → Pattern → Option Expr → LogicalPlan
  aggregate_neighbors : LogicalPlan → String → AggExpr → LogicalPlan
  sort : LogicalPlan → String → Bool → LogicalPlan
  limit : LogicalPlan → ℕ → LogicalPlan

-- `input`, the direct input of a node.
unfoldable pub input_of : LogicalPlan → Option LogicalPlan
input_of (scan _ _ _) = none
input_of (cache p _) = some p
input_of (hint p _) = some p
input_of (filter_nodes p _) = some p
input_of (filter_edges p _) = some p
input_of (project_nodes p _) = some p
input_of (project_edges p _) = some p
input_of (expand p _ _ _ _) = some p
input_of (traverse p _) = some p
input_of (pattern_match p _ _) = some p
input_of (aggregate_neighbors p _ _) = some p
input_of (sort p _ _) = some p
input_of (limit p _) = some p

unfoldable pub output_domain : LogicalPlan → PlanDomain
output_domain (scan _ _ _) = graph
output_domain (cache p _) = output_domain p
output_domain (hint p _) = output_domain p
output_domain (filter_nodes _ _) = nodes
output_domain (filter_edges _ _) = edges
output_domain (project_nodes _ _) = nodes
output_domain (project_edges _ _) = edges
output_domain (expand _ _ _ _ _) = graph
output_domain (traverse _ _) = graph
output_domain (pattern_match _ _ _) = pattern_rows
output_domain (aggregate_neighbors _ _ _) = nodes
output_domain (sort p _ _) = output_domain p
output_domain (limit p _) = output_domain p
