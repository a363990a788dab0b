-- ===== src/Optimizer/TraversalPruning.antt =====
-- crates/lynxes-core/src/query/optimizer/traversal_pruning.rs
pub mod Domain
use lynxes_mojo.Common.{
  String, Bool, true, false, not, ◌&&◌, ◌||◌, Option, none, some, if◌then◌else◌, str_eq,
}
use lynxes_mojo.Direction.{col_edge_src, col_edge_dst, col_edge_type, col_edge_direction}
use lynxes_mojo.Plan.Expressions.{
  Expr, col, literal, binary_op, unary_op, list_contains, cast, and_, or_, not_, pattern_col,
  string_op,
}
use lynxes_mojo.Plan.{
  LogicalPlan, scan, cache, hint, filter_nodes, filter_edges, project_nodes, project_edges, expand,
  traverse, pattern_match, aggregate_neighbors, sort, limit,
}

unfoldable pub is_edge_column : String → Bool
is_edge_column name =
    str_eq name col_edge_src
    || str_eq name col_edge_dst
    || str_eq name col_edge_type
    || str_eq name col_edge_direction

unfoldable pub is_legal_pre_filter : Expr → Bool
unfolding is_edge_column
is_legal_pre_filter (col name) = not (is_edge_column name)
is_legal_pre_filter (literal _) = true
is_legal_pre_filter (binary_op l _ r) = is_legal_pre_filter l && is_legal_pre_filter r
is_legal_pre_filter (unary_op _ e) = is_legal_pre_filter e
is_legal_pre_filter (list_contains e item) = is_legal_pre_filter e && is_legal_pre_filter item
is_legal_pre_filter (cast e _) = is_legal_pre_filter e
is_legal_pre_filter (and_ l r) = is_legal_pre_filter l && is_legal_pre_filter r
is_legal_pre_filter (or_ l r) = is_legal_pre_filter l && is_legal_pre_filter r
is_legal_pre_filter (not_ e) = is_legal_pre_filter e
is_legal_pre_filter (pattern_col _ _) = false
is_legal_pre_filter (string_op _ e pattern) = is_legal_pre_filter e && is_legal_pre_filter pattern

abbrev pub joined : Option Expr → Expr → Expr
joined (some existing) predicate = and_ existing predicate
joined none predicate = predicate

unfoldable pub rewrite_filter_nodes : LogicalPlan → Expr → LogicalPlan
unfolding is_legal_pre_filter
rewrite_filter_nodes (expand p edge_type hops direction pre_filter) predicate =
    if is_legal_pre_filter predicate
    then expand p edge_type hops direction (some (joined pre_filter predicate))
    else filter_nodes (expand p edge_type hops direction pre_filter) predicate
rewrite_filter_nodes other predicate = filter_nodes other predicate

unfoldable pub optimize_plan : LogicalPlan → LogicalPlan
unfolding rewrite_filter_nodes
optimize_plan (scan source nodes edges) = scan source nodes edges
optimize_plan (cache p key) = cache (optimize_plan p) key
optimize_plan (hint p h) = hint (optimize_plan p) h
optimize_plan (filter_nodes p predicate) = rewrite_filter_nodes (optimize_plan p) predicate
optimize_plan (filter_edges p predicate) = filter_edges (optimize_plan p) predicate
optimize_plan (project_nodes p columns) = project_nodes (optimize_plan p) columns
optimize_plan (project_edges p columns) = project_edges (optimize_plan p) columns
optimize_plan (expand p edge_type hops direction pre_filter) =
    expand (optimize_plan p) edge_type hops direction pre_filter
optimize_plan (traverse p pattern) = traverse (optimize_plan p) pattern
optimize_plan (pattern_match p pattern where_) = pattern_match (optimize_plan p) pattern where_
optimize_plan (aggregate_neighbors p edge_type agg) =
    aggregate_neighbors (optimize_plan p) edge_type agg
optimize_plan (sort p by descending) = sort (optimize_plan p) by descending
optimize_plan (limit p n) = limit (optimize_plan p) n
