-- ===== src/Optimizer/EarlyTermination.antt =====
-- crates/lynxes-core/src/query/optimizer/early_termination.rs
use lynxes_mojo.Common.{ℕ, min, Bool, true, false, ◌&&◌, ◌==◌, if◌then◌else◌}
use lynxes_mojo.Plan.{
  LogicalPlan, scan, cache, hint, filter_nodes, filter_edges, project_nodes, project_edges, expand,
  traverse, pattern_match, aggregate_neighbors, sort, limit, ExecutionHint, top_k, limit_aware,
  partition_parallel,
}

abbrev pub is_sort : LogicalPlan → Bool
is_sort (sort _ _ _) = true
is_sort _ = false

abbrev pub is_expansion : LogicalPlan → Bool
is_expansion (expand _ _ _ _ _) = true
is_expansion (traverse _ _) = true
is_expansion (pattern_match _ _ _) = true
is_expansion _ = false

-- `matches!(plan, Limit { input, .. } if test(input))`
abbrev pub is_limit_of : (LogicalPlan → Bool) → LogicalPlan → Bool
is_limit_of test (limit p _) = test p
is_limit_of test _ = false

unfoldable pub matches_hint : ExecutionHint → LogicalPlan → ℕ → Bool
matches_hint (top_k hinted_n) plan n = hinted_n == n && is_limit_of is_sort plan
matches_hint (limit_aware hinted_n) plan n = hinted_n == n && is_limit_of is_expansion plan
matches_hint (partition_parallel _) plan n = false

unfoldable pub matches_hint_kind : ExecutionHint → ℕ → Bool
matches_hint_kind (top_k hinted_n) n = hinted_n == n
matches_hint_kind (limit_aware hinted_n) n = hinted_n == n
matches_hint_kind (partition_parallel _) n = false

-- The arm for a matching hint and the last one both return the plan.
unfoldable pub annotate_limit_input : LogicalPlan → ℕ → LogicalPlan
unfolding matches_hint_kind
annotate_limit_input (hint p h) n = if matches_hint_kind h n then hint p h else hint p h
annotate_limit_input (sort p by descending) n = hint (sort p by descending) (top_k n)
annotate_limit_input (expand p edge_type hops direction pre_filter) n =
    hint (expand p edge_type hops direction pre_filter) (limit_aware n)
annotate_limit_input (traverse p pattern) n = hint (traverse p pattern) (limit_aware n)
annotate_limit_input (pattern_match p pattern where_) n =
    hint (pattern_match p pattern where_) (limit_aware n)
annotate_limit_input other n = other

unfoldable pub rewrite_limit : LogicalPlan → ℕ → LogicalPlan
unfolding matches_hint annotate_limit_input
rewrite_limit (limit inner inner_n) n = rewrite_limit inner (min n inner_n)
rewrite_limit (hint hinted h) n =
    let rewritten = rewrite_limit hinted n in
    if matches_hint h rewritten n then hint rewritten h else rewritten
rewrite_limit plan n = limit (annotate_limit_input plan n) n

unfoldable pub optimize_plan : LogicalPlan → LogicalPlan
unfolding rewrite_limit
optimize_plan (scan source nodes edges) = scan source nodes edges
optimize_plan (cache p key) = cache (optimize_plan p) key
optimize_plan (hint p h) = hint p h
optimize_plan (filter_nodes p predicate) = filter_nodes (optimize_plan p) predicate
optimize_plan (filter_edges p predicate) = filter_edges (optimize_plan p) predicate
optimize_plan (project_nodes p columns) = project_nodes (optimize_plan p) columns
optimize_plan (project_edges p columns) = project_edges (optimize_plan p) columns
optimize_plan (expand p edge_type hops direction pre_filter) =
    expand (optimize_plan p) edge_type hops direction pre_filter
optimize_plan (traverse p pattern) = traverse (optimize_plan p) pattern
optimize_plan (pattern_match p pattern where_) = pattern_match (optimize_plan p) pattern where_
optimize_plan (aggregate_neighbors p edge_type agg) =
    aggregate_neighbors (optimize_plan p) edge_type agg
optimize_plan (sort p by descending) = sort (optimize_plan p) by descending
optimize_plan (limit p n) = rewrite_limit (optimize_plan p) n
