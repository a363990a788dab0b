-- ===== src/Optimizer/ProjectionPushdown.antt =====
-- crates/lynxes-core/src/query/optimizer/projection_pushdown.rs
pub mod Columns
pub mod Collapse
pub mod Sound
use lynxes_mojo.Common.{
  String, List, [], ◌∷◌, Option, none, some, if◌then◌else◌, ◌&&◌, not, member, set_insert,
  set_extend, set_intersection, sort_strings,
}
use lynxes_mojo.Plan.Expressions.{Expr, AggExpr, count, sum, mean, list, first, last, alias}
use lynxes_mojo.Plan.{
  LogicalPlan, scan, cache, hint, filter_nodes, filter_edges, project_nodes, project_edges, expand,
  traverse, pattern_match, aggregate_neighbors, sort, limit, PlanDomain, graph, nodes, edges,
  pattern_rows, output_domain,
}
use lynxes_mojo.Optimizer.Columns.{node_available_columns, edge_available_columns, expr_column_refs}

-- `None` asks for every column.
abbrev pub Required : Type 0
Required = Option (List String)

-- The columns of the list that are in the set, each once, in the order of the list.
unfoldable pub retain_distinct : List String → List String → List String → List String
unfolding member set_insert
retain_distinct [] allowed seen = []
retain_distinct (c ∷ cs) allowed seen =
    if member c allowed && not (member c seen)
    then c ∷ retain_distinct cs allowed (set_insert c seen)
    else retain_distinct cs allowed seen

unfoldable pub filter_columns : List String → List String → List String
unfolding retain_distinct
filter_columns columns allowed = retain_distinct columns allowed []

abbrev pub sorted_columns : List String → List String
sorted_columns = sort_strings

unfoldable pub narrow_existing_columns : Required → Required → Required
unfolding filter_columns
narrow_existing_columns (some existing) (some required) = some (filter_columns existing required)
narrow_existing_columns (some existing) none = some existing
narrow_existing_columns none (some required) = some (sorted_columns required)
narrow_existing_columns none none = none

unfoldable pub union_required : Required → Required → Required
union_required none _ = none
union_required (some current) none = some current
union_required (some current) (some extra) = some (set_extend current extra)

unfoldable pub include_operator_required : Required → Required → Required
unfolding union_required
include_operator_required none (some extra) = some extra
include_operator_required current extra = union_required current extra

abbrev pub intersect_sets : List String → List String → List String
intersect_sets = set_intersection

unfoldable pub intersect_projection_columns : List String → List String → List String
unfolding retain_distinct
intersect_projection_columns available requested =
    retain_distinct requested (set_extend [] available) []

unfoldable pub singleton_column : String → List String
singleton_column name = set_insert name []

unfoldable pub agg_expr_column_refs : AggExpr → Required
agg_expr_column_refs count = none
agg_expr_column_refs (sum e) = some (expr_column_refs e)
agg_expr_column_refs (mean e) = some (expr_column_refs e)
agg_expr_column_refs (list e) = some (expr_column_refs e)
agg_expr_column_refs (first e) = some (expr_column_refs e)
agg_expr_column_refs (last e) = some (expr_column_refs e)
agg_expr_column_refs (alias agg _) = agg_expr_column_refs agg

unfoldable pub edge_local_requirements : Required → List String
edge_local_requirements none = edge_available_columns []
edge_local_requirements (some extra) = set_extend (edge_available_columns []) extra

unfoldable pub collapse_project_nodes : LogicalPlan → List String → LogicalPlan
unfolding intersect_projection_columns
collapse_project_nodes (project_nodes inner inner_columns) columns =
    project_nodes inner (intersect_projection_columns inner_columns columns)
collapse_project_nodes other columns = project_nodes other columns

unfoldable pub collapse_project_edges : LogicalPlan → List String → LogicalPlan
unfolding intersect_projection_columns
collapse_project_edges (project_edges inner inner_columns) columns =
    project_edges inner (intersect_projection_columns inner_columns columns)
collapse_project_edges other columns = project_edges other columns

-- What a projection requires of its input: `match required { Some(..) | None }`.
abbrev pub below_projection : Required → List String → Required
below_projection (some required) available = some (intersect_sets required available)
below_projection none available = some available

-- What `Sort` by a column requires of the node columns, and of the edge columns.
abbrev pub sort_node_required : PlanDomain → Required → String → Required
sort_node_required nodes required by = union_required required (some (singleton_column by))
sort_node_required edges required by = required
sort_node_required graph required by = required
sort_node_required pattern_rows required by = required

abbrev pub sort_edge_required : PlanDomain → Required → String → Required
sort_edge_required edges required by = union_required required (some (singleton_column by))
sort_edge_required nodes required by = required
sort_edge_required graph required by = required
sort_edge_required pattern_rows required by = required

abbrev pub pre_filter_refs : Option Expr → Required
pre_filter_refs (some e) = some (expr_column_refs e)
pre_filter_refs none = none

-- The two last arguments are the required node columns and the required edge columns.
unfoldable pub optimize_plan : LogicalPlan → Required → Required → LogicalPlan
unfolding narrow_existing_columns union_required include_operator_required agg_expr_column_refs
    edge_local_requirements collapse_project_nodes collapse_project_edges singleton_column
    output_domain
optimize_plan (scan source node_columns edge_columns) ns es =
    scan source (narrow_existing_columns node_columns ns) (narrow_existing_columns edge_columns es)
optimize_plan (cache p key) ns es = cache (optimize_plan p ns es) key
optimize_plan (hint p h) ns es = hint (optimize_plan p ns es) h
optimize_plan (filter_nodes p predicate) ns es =
    filter_nodes (optimize_plan p (union_required ns (some (expr_column_refs predicate))) es)
      predicate
optimize_plan (filter_edges p predicate) ns es =
    filter_edges (optimize_plan p ns (union_required es (some (expr_column_refs predicate))))
      predicate
optimize_plan (project_nodes p columns) ns es =
    collapse_project_nodes
      (optimize_plan p (below_projection ns (node_available_columns columns)) es) columns
optimize_plan (project_edges p columns) ns es =
    collapse_project_edges
      (optimize_plan p ns (below_projection es (edge_available_columns columns))) columns
optimize_plan (expand p edge_type hops direction pre_filter) ns es =
    expand (optimize_plan p (union_required ns (pre_filter_refs pre_filter)) es) edge_type hops
      direction pre_filter
optimize_plan (traverse p pattern) ns es = traverse (optimize_plan p ns es) pattern
optimize_plan (pattern_match p pattern where_) ns es =
    pattern_match (optimize_plan p none none) pattern where_
optimize_plan (aggregate_neighbors p edge_type agg) ns es =
    aggregate_neighbors
      (optimize_plan p ns
        (include_operator_required es (some (edge_local_requirements (agg_expr_column_refs agg)))))
      edge_type agg
optimize_plan (sort p by descending) ns es =
    sort
      (optimize_plan p (sort_node_required (output_domain p) ns by)
        (sort_edge_required (output_domain p) es by))
      by descending
optimize_plan (limit p n) ns es = limit (optimize_plan p ns es) n
