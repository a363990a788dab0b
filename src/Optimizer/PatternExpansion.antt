-- ===== src/Optimizer/PatternExpansion.antt =====
-- crates/lynxes-core/src/query/optimizer/pattern_expansion.rs
pub mod Conjuncts
use lynxes_mojo.Common.{
  String, Bool, true, false, List, [], ◌∷◌, ◌++◌, Option, none, some, ◌>>=◌, ◌&&◌, if◌then◌else◌,
  str_eq,
}
use mathlib.Core.List.{foldl}
use lynxes_mojo.Plan.Expressions.{
  Expr, col, literal, binary_op, unary_op, list_contains, cast, and_, or_, not_, pattern_col,
  string_op, Pattern, PatternStep,
}
use lynxes_mojo.Plan.{
  LogicalPlan, scan, cache, hint, filter_nodes, filter_edges, project_nodes, project_edges, expand,
  traverse, pattern_match, aggregate_neighbors, sort, limit,
}

unfoldable pub split_conjuncts : Expr → List Expr
split_conjuncts (and_ l r) = split_conjuncts l ++ split_conjuncts r
split_conjuncts other = other ∷ []

unfoldable pub combine_conjuncts : List Expr → Option Expr
combine_conjuncts [] = none
combine_conjuncts (first ∷ exprs) = some (foldl and_ first exprs)

-- The two flags `saw_pattern_col` and `valid`, which the source passes by `&mut`.
unfoldable pub collect_alias_usage : Expr → String → Bool × Bool → Bool × Bool
collect_alias_usage (col _) alias (saw, valid) = (saw, false)
collect_alias_usage (literal _) alias flags = flags
collect_alias_usage (binary_op l _ r) alias flags =
    collect_alias_usage r alias (collect_alias_usage l alias flags)
collect_alias_usage (unary_op _ e) alias flags = collect_alias_usage e alias flags
collect_alias_usage (list_contains e item) alias flags =
    collect_alias_usage item alias (collect_alias_usage e alias flags)
collect_alias_usage (cast e _) alias flags = collect_alias_usage e alias flags
collect_alias_usage (and_ l r) alias flags =
    collect_alias_usage r alias (collect_alias_usage l alias flags)
collect_alias_usage (or_ l r) alias flags =
    collect_alias_usage r alias (collect_alias_usage l alias flags)
collect_alias_usage (not_ e) alias flags = collect_alias_usage e alias flags
collect_alias_usage (pattern_col used _) alias (saw, valid) =
    (true, if str_eq used alias then valid else false)
collect_alias_usage (string_op _ e pattern) alias flags =
    collect_alias_usage pattern alias (collect_alias_usage e alias flags)

unfoldable pub expr_depends_only_on_alias : Expr → String → Bool
unfolding collect_alias_usage
expr_depends_only_on_alias e alias =
    let (saw, valid) = collect_alias_usage e alias (false, true) in saw && valid

unfoldable pub rewrite_pattern_expr_for_alias : Expr → String → Option Expr
rewrite_pattern_expr_for_alias (col _) alias = none
rewrite_pattern_expr_for_alias (literal value) alias = some (literal value)
rewrite_pattern_expr_for_alias (binary_op l op r) alias = do
  l' ← rewrite_pattern_expr_for_alias l alias
  r' ← rewrite_pattern_expr_for_alias r alias
  some (binary_op l' op r')
rewrite_pattern_expr_for_alias (unary_op op e) alias = do
  e' ← rewrite_pattern_expr_for_alias e alias
  some (unary_op op e')
rewrite_pattern_expr_for_alias (list_contains e item) alias = do
  e' ← rewrite_pattern_expr_for_alias e alias
  item' ← rewrite_pattern_expr_for_alias item alias
  some (list_contains e' item')
rewrite_pattern_expr_for_alias (cast e dtype) alias = do
  e' ← rewrite_pattern_expr_for_alias e alias
  some (cast e' dtype)
rewrite_pattern_expr_for_alias (and_ l r) alias = do
  l' ← rewrite_pattern_expr_for_alias l alias
  r' ← rewrite_pattern_expr_for_alias r alias
  some (and_ l' r')
rewrite_pattern_expr_for_alias (or_ l r) alias = do
  l' ← rewrite_pattern_expr_for_alias l alias
  r' ← rewrite_pattern_expr_for_alias r alias
  some (or_ l' r')
rewrite_pattern_expr_for_alias (not_ e) alias = do
  e' ← rewrite_pattern_expr_for_alias e alias
  some (not_ e')
rewrite_pattern_expr_for_alias (pattern_col used field) alias =
    if str_eq used alias then some (col field) else none
rewrite_pattern_expr_for_alias (string_op op e pattern) alias = do
  e' ← rewrite_pattern_expr_for_alias e alias
  pattern' ← rewrite_pattern_expr_for_alias pattern alias
  some (string_op op e' pattern')

unfoldable pub rewrite_filter_nodes : LogicalPlan → Expr → LogicalPlan
rewrite_filter_nodes (filter_nodes inner existing) predicate =
    filter_nodes inner (and_ existing predicate)
rewrite_filter_nodes other predicate = filter_nodes other predicate

-- The two lists `pushed` and `remaining` that the loop over the conjuncts fills.
abbrev pub place : Expr → Option Expr → List Expr × List Expr → List Expr × List Expr
place conjunct (some rewritten) (pushed, remaining) = (rewritten ∷ pushed, remaining)
place conjunct none (pushed, remaining) = (pushed, conjunct ∷ remaining)

unfoldable pub divide : List Expr → String → List Expr × List Expr
unfolding expr_depends_only_on_alias rewrite_pattern_expr_for_alias
divide [] root = ([], [])
divide (conjunct ∷ cs) root =
    place conjunct
      (if expr_depends_only_on_alias conjunct root
        then rewrite_pattern_expr_for_alias conjunct root
        else none)
      (divide cs root)

-- The rest of `rewrite_pattern_match`, with the alias of the first step.
unfoldable pub push_conjuncts : LogicalPlan → Pattern → Expr → String → LogicalPlan
unfolding divide split_conjuncts rewrite_filter_nodes combine_conjuncts
push_conjuncts input pattern where_ root_alias =
    let (pushed, remaining) = divide (split_conjuncts where_) root_alias in
    pattern_match (foldl rewrite_filter_nodes input pushed) pattern (combine_conjuncts remaining)

-- `pattern.steps.first().map(|step| step.from_alias.as_str())`
abbrev pub root_alias : List PatternStep → Option String
root_alias [] = none
root_alias (step ∷ _) = some step.from_alias

abbrev pub expanded : LogicalPlan → Pattern → Expr → Option String → LogicalPlan
expanded input pattern where_ none = pattern_match input pattern (some where_)
expanded input pattern where_ (some root) = push_conjuncts input pattern where_ root

unfoldable pub rewrite_pattern_match : LogicalPlan → Pattern → Option Expr → LogicalPlan
unfolding push_conjuncts
rewrite_pattern_match input pattern none = pattern_match input pattern none
rewrite_pattern_match input pattern (some where_) =
    expanded input pattern where_ (root_alias pattern.steps)

unfoldable pub optimize_plan : LogicalPlan → LogicalPlan
unfolding rewrite_pattern_match
optimize_plan (scan source nodes edges) = scan source nodes edges
optimize_plan (cache p key) = cache (optimize_plan p) key
optimize_plan (hint p h) = hint (optimize_plan p) h
optimize_plan (filter_nodes p predicate) = filter_nodes (optimize_plan p) predicate
optimize_plan (filter_edges p predicate) = filter_edges (optimize_plan p) predicate
optimize_plan (project_nodes p columns) = project_nodes (optimize_plan p) columns
optimize_plan (project_edges p columns) = project_edges (optimize_plan p) columns
optimize_plan (expand p edge_type hops direction pre_filter) =
    expand (optimize_plan p) edge_type hops direction pre_filter
optimize_plan (traverse p pattern) = traverse (optimize_plan p) pattern
optimize_plan (pattern_match p pattern where_) =
    rewrite_pattern_match (optimize_plan p) pattern where_
optimize_plan (aggregate_neighbors p edge_type agg) =
    aggregate_neighbors (optimize_plan p) edge_type agg
optimize_plan (sort p by descending) = sort (optimize_plan p) by descending
optimize_plan (limit p n) = limit (optimize_plan p) n
