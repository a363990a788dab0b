-- ===== src/Optimizer/PredicatePushdown.antt =====
-- crates/lynxes-core/src/query/optimizer/predicate_pushdown.rs
pub mod Filters
pub mod Steps
pub mod Sound
use lynxes_mojo.Common.{if◌then◌else◌}
use lynxes_mojo.Plan.Expressions.{Expr, and_}
use lynxes_mojo.Plan.{
  LogicalPlan, scan, cache, hint, filter_nodes, filter_edges, project_nodes, project_edges, expand,
  traverse, pattern_match, aggregate_neighbors, sort, limit,
}
use lynxes_mojo.Optimizer.Columns.{
  node_available_columns, edge_available_columns, predicate_uses_only_columns,
}

abbrev pub and_expr : Expr → Expr → Expr
and_expr = and_

unfoldable pub rewrite_filter_nodes : LogicalPlan → Expr → LogicalPlan
unfolding predicate_uses_only_columns node_available_columns
rewrite_filter_nodes (filter_nodes inner existing) predicate =
    filter_nodes inner (and_expr existing predicate)
rewrite_filter_nodes (project_nodes inner columns) predicate =
    let pushed = rewrite_filter_nodes inner predicate in
    if predicate_uses_only_columns predicate (node_available_columns columns)
    then project_nodes pushed columns
    else filter_nodes (project_nodes inner columns) predicate
rewrite_filter_nodes other predicate = filter_nodes other predicate

unfoldable pub rewrite_filter_edges : LogicalPlan → Expr → LogicalPlan
unfolding predicate_uses_only_columns edge_available_columns
rewrite_filter_edges (filter_edges inner existing) predicate =
    filter_edges inner (and_expr existing predicate)
rewrite_filter_edges (project_edges inner columns) predicate =
    let pushed = rewrite_filter_edges inner predicate in
    if predicate_uses_only_columns predicate (edge_available_columns columns)
    then project_edges pushed columns
    else filter_edges (project_edges inner columns) predicate
rewrite_filter_edges other predicate = filter_edges other predicate

unfoldable pub optimize_plan : LogicalPlan → LogicalPlan
unfolding rewrite_filter_nodes rewrite_filter_edges
optimize_plan (scan source nodes edges) = scan source nodes edges
optimize_plan (cache p key) = cache (optimize_plan p) key
optimize_plan (hint p h) = hint (optimize_plan p) h
optimize_plan (filter_nodes p predicate) = rewrite_filter_nodes (optimize_plan p) predicate
optimize_plan (filter_edges p predicate) = rewrite_filter_edges (optimize_plan p) predicate
optimize_plan (project_nodes p columns) = project_nodes (optimize_plan p) columns
optimize_plan (project_edges p columns) = project_edges (optimize_plan p) columns
optimize_plan (expand p edge_type hops direction pre_filter) =
    expand (optimize_plan p) edge_type hops direction pre_filter
optimize_plan (traverse p pattern) = traverse (optimize_plan p) pattern
optimize_plan (pattern_match p pattern where_) = pattern_match (optimize_plan p) pattern where_
optimize_plan (aggregate_neighbors p edge_type agg) =
    aggregate_neighbors (optimize_plan p) edge_type agg
optimize_plan (sort p by descending) = sort (optimize_plan p) by descending
optimize_plan (limit p n) = limit (optimize_plan p) n
