-- ===== src/Optimizer/PartitionParallel.antt =====
-- crates/lynxes-core/src/query/optimizer/partition_parallel.rs
use lynxes_mojo.Common.{Bool, true, false, Option, none, some, if◌then◌else◌}
use lynxes_mojo.Plan.{
  LogicalPlan, scan, cache, hint, filter_nodes, filter_edges, project_nodes, project_edges, expand,
  traverse, pattern_match, aggregate_neighbors, sort, limit, ExecutionHint, partition_parallel,
  PartitionStrategy, expand_frontier, pattern_roots,
}

abbrev pub is_partition_hint : ExecutionHint → Bool
is_partition_hint (partition_parallel _) = true
is_partition_hint _ = false

unfoldable pub has_partition_hint : LogicalPlan → Bool
has_partition_hint (hint _ h) = is_partition_hint h
has_partition_hint _ = false

unfoldable pub partition_strategy : LogicalPlan → Option PartitionStrategy
partition_strategy (expand _ _ _ _ _) = some expand_frontier
partition_strategy (pattern_match _ _ _) = some pattern_roots
partition_strategy _ = none

unfoldable pub annotate_parallel : LogicalPlan → LogicalPlan
unfolding has_partition_hint partition_strategy
annotate_parallel plan = if has_partition_hint plan then plan else elim (partition_strategy plan) [
  | some strategy ↦ hint plan (partition_parallel strategy)
  | none ↦ plan
]

unfoldable pub optimize_plan : LogicalPlan → LogicalPlan
unfolding annotate_parallel
optimize_plan (scan source nodes edges) = annotate_parallel (scan source nodes edges)
optimize_plan (cache p key) = annotate_parallel (cache (optimize_plan p) key)
optimize_plan (hint p h) =
    annotate_parallel (if is_partition_hint h then hint p h else hint (optimize_plan p) h)
optimize_plan (filter_nodes p predicate) =
    annotate_parallel (filter_nodes (optimize_plan p) predicate)
optimize_plan (filter_edges p predicate) =
    annotate_parallel (filter_edges (optimize_plan p) predicate)
optimize_plan (project_nodes p columns) =
    annotate_parallel (project_nodes (optimize_plan p) columns)
optimize_plan (project_edges p columns) =
    annotate_parallel (project_edges (optimize_plan p) columns)
optimize_plan (expand p edge_type hops direction pre_filter) =
    annotate_parallel (expand (optimize_plan p) edge_type hops direction pre_filter)
optimize_plan (traverse p pattern) = annotate_parallel (traverse (optimize_plan p) pattern)
optimize_plan (pattern_match p pattern where_) =
    annotate_parallel (pattern_match (optimize_plan p) pattern where_)
optimize_plan (aggregate_neighbors p edge_type agg) =
    annotate_parallel (aggregate_neighbors (optimize_plan p) edge_type agg)
optimize_plan (sort p by descending) = annotate_parallel (sort (optimize_plan p) by descending)
optimize_plan (limit p n) = annotate_parallel (limit (optimize_plan p) n)
