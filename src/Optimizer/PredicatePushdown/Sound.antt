-- ===== src/Optimizer/PredicatePushdown/Sound.antt =====
-- crates/lynxes-core/src/query/optimizer/predicate_pushdown.rs against the executor: the whole pass.
use lynxes_mojo.Common.{◌≡◌, inl, inr, Bool-cases}
use lynxes_mojo.Outcome.{ok}
use lynxes_mojo.Plan.Expressions.{Expr, and_}
use lynxes_mojo.Plan.{
  LogicalPlan, scan, cache, hint, filter_nodes, filter_edges, project_nodes, project_edges, expand,
  traverse, pattern_match, aggregate_neighbors, sort, limit,
}
use lynxes_mojo.Executor.Values.{Floats}
use lynxes_mojo.Executor.{GraphFrame, ExecutionValue, Kernels, execute}
use lynxes_mojo.Executor.Refinement.{
  Refines, Plain, Refines-refl, Refines-trans, filter_nodes-Plain, filter_edges-Plain,
  project_nodes-Plain, project_edges-Plain, cache-Plain, hint-Plain, pattern_match-Plain,
  aggregate_neighbors-Plain, limit-Plain, cache-Refines, filter_nodes-Refines, filter_edges-Refines,
  project_nodes-Refines, project_edges-Refines, expand-Refines, traverse-Refines,
  pattern_match-Refines, aggregate_neighbors-Refines, sort-Refines, limit-Refines, Plain-Refines,
  hint_expand-Refines, hint_traverse-Refines, hint_sort-Refines,
}
use lynxes_mojo.Optimizer.Columns.{
  node_available_columns, edge_available_columns, predicate_uses_only_columns,
}
use lynxes_mojo.Optimizer.PredicatePushdown.{
  rewrite_filter_nodes, rewrite_filter_edges, optimize_plan,
}
use lynxes_mojo.Optimizer.PredicatePushdown.Steps.{merge_nodes, merge_edges, push_nodes, push_edges}

module _ (fl : Floats) (k : Kernels) where
  pub rewrite_filter_nodes-Refines :
      (p : LogicalPlan) (e : Expr) → Refines fl k (rewrite_filter_nodes p e) (filter_nodes p e)
  unfolding rewrite_filter_nodes
  rewrite_filter_nodes-Refines (filter_nodes p existing) e = merge_nodes fl k p existing e
  rewrite_filter_nodes-Refines (project_nodes p columns) e =
      elim (Bool-cases (predicate_uses_only_columns e (node_available_columns columns))) [
        | inl uses ↦ λ g v h. push_nodes fl k p columns e uses g v (
            project_nodes-Refines fl k _ _ (rewrite_filter_nodes-Refines p e) columns g v
              (rw uses at h))
        | inr more ↦ λ g v h. rw more at h
      ]
  rewrite_filter_nodes-Refines (scan a b c) e = Refines-refl fl k _
  rewrite_filter_nodes-Refines (cache a b) e = Refines-refl fl k _
  rewrite_filter_nodes-Refines (hint a b) e = Refines-refl fl k _
  rewrite_filter_nodes-Refines (filter_edges a b) e = Refines-refl fl k _
  rewrite_filter_nodes-Refines (project_edges a b) e = Refines-refl fl k _
  rewrite_filter_nodes-Refines (expand a b c d f) e = Refines-refl fl k _
  rewrite_filter_nodes-Refines (traverse a b) e = Refines-refl fl k _
  rewrite_filter_nodes-Refines (pattern_match a b c) e = Refines-refl fl k _
  rewrite_filter_nodes-Refines (aggregate_neighbors a b c) e = Refines-refl fl k _
  rewrite_filter_nodes-Refines (sort a b c) e = Refines-refl fl k _
  rewrite_filter_nodes-Refines (limit a b) e = Refines-refl fl k _

  pub rewrite_filter_edges-Refines :
      (p : LogicalPlan) (e : Expr) → Refines fl k (rewrite_filter_edges p e) (filter_edges p e)
  unfolding rewrite_filter_edges
  rewrite_filter_edges-Refines (filter_edges p existing) e = merge_edges fl k p existing e
  rewrite_filter_edges-Refines (project_edges p columns) e =
      elim (Bool-cases (predicate_uses_only_columns e (edge_available_columns columns))) [
        | inl uses ↦ λ g v h. push_edges fl k p columns e uses g v (
            project_edges-Refines fl k _ _ (rewrite_filter_edges-Refines p e) columns g v
              (rw uses at h))
        | inr more ↦ λ g v h. rw more at h
      ]
  rewrite_filter_edges-Refines (scan a b c) e = Refines-refl fl k _
  rewrite_filter_edges-Refines (cache a b) e = Refines-refl fl k _
  rewrite_filter_edges-Refines (hint a b) e = Refines-refl fl k _
  rewrite_filter_edges-Refines (filter_nodes a b) e = Refines-refl fl k _
  rewrite_filter_edges-Refines (project_nodes a b) e = Refines-refl fl k _
  rewrite_filter_edges-Refines (expand a b c d f) e = Refines-refl fl k _
  rewrite_filter_edges-Refines (traverse a b) e = Refines-refl fl k _
  rewrite_filter_edges-Refines (pattern_match a b c) e = Refines-refl fl k _
  rewrite_filter_edges-Refines (aggregate_neighbors a b c) e = Refines-refl fl k _
  rewrite_filter_edges-Refines (sort a b c) e = Refines-refl fl k _
  rewrite_filter_edges-Refines (limit a b) e = Refines-refl fl k _

  -- No hint is read above what the two rewrites return.
  rewrite_filter_nodes-Plain : (p : LogicalPlan) (e : Expr) → Plain fl k (rewrite_filter_nodes p e)
  unfolding rewrite_filter_nodes
  rewrite_filter_nodes-Plain (project_nodes p columns) e =
      elim (Bool-cases (predicate_uses_only_columns e (node_available_columns columns))) [
        | inl uses ↦ rw uses (project_nodes-Plain fl k (rewrite_filter_nodes p e) columns)
        | inr more ↦ rw more (filter_nodes-Plain fl k (project_nodes p columns) e)
      ]
  rewrite_filter_nodes-Plain (filter_nodes p existing) e =
      filter_nodes-Plain fl k p (and_ existing e)
  rewrite_filter_nodes-Plain (scan a b c) e = filter_nodes-Plain fl k _ e
  rewrite_filter_nodes-Plain (cache a b) e = filter_nodes-Plain fl k _ e
  rewrite_filter_nodes-Plain (hint a b) e = filter_nodes-Plain fl k _ e
  rewrite_filter_nodes-Plain (filter_edges a b) e = filter_nodes-Plain fl k _ e
  rewrite_filter_nodes-Plain (project_edges a b) e = filter_nodes-Plain fl k _ e
  rewrite_filter_nodes-Plain (expand a b c d f) e = filter_nodes-Plain fl k _ e
  rewrite_filter_nodes-Plain (traverse a b) e = filter_nodes-Plain fl k _ e
  rewrite_filter_nodes-Plain (pattern_match a b c) e = filter_nodes-Plain fl k _ e
  rewrite_filter_nodes-Plain (aggregate_neighbors a b c) e = filter_nodes-Plain fl k _ e
  rewrite_filter_nodes-Plain (sort a b c) e = filter_nodes-Plain fl k _ e
  rewrite_filter_nodes-Plain (limit a b) e = filter_nodes-Plain fl k _ e

  rewrite_filter_edges-Plain : (p : LogicalPlan) (e : Expr) → Plain fl k (rewrite_filter_edges p e)
  unfolding rewrite_filter_edges
  rewrite_filter_edges-Plain (project_edges p columns) e =
      elim (Bool-cases (predicate_uses_only_columns e (edge_available_columns columns))) [
        | inl uses ↦ rw uses (project_edges-Plain fl k (rewrite_filter_edges p e) columns)
        | inr more ↦ rw more (filter_edges-Plain fl k (project_edges p columns) e)
      ]
  rewrite_filter_edges-Plain (filter_edges p existing) e =
      filter_edges-Plain fl k p (and_ existing e)
  rewrite_filter_edges-Plain (scan a b c) e = filter_edges-Plain fl k _ e
  rewrite_filter_edges-Plain (cache a b) e = filter_edges-Plain fl k _ e
  rewrite_filter_edges-Plain (hint a b) e = filter_edges-Plain fl k _ e
  rewrite_filter_edges-Plain (filter_nodes a b) e = filter_edges-Plain fl k _ e
  rewrite_filter_edges-Plain (project_nodes a b) e = filter_edges-Plain fl k _ e
  rewrite_filter_edges-Plain (expand a b c d f) e = filter_edges-Plain fl k _ e
  rewrite_filter_edges-Plain (traverse a b) e = filter_edges-Plain fl k _ e
  rewrite_filter_edges-Plain (pattern_match a b c) e = filter_edges-Plain fl k _ e
  rewrite_filter_edges-Plain (aggregate_neighbors a b c) e = filter_edges-Plain fl k _ e
  rewrite_filter_edges-Plain (sort a b c) e = filter_edges-Plain fl k _ e
  rewrite_filter_edges-Plain (limit a b) e = filter_edges-Plain fl k _ e

  pub optimize_plan-Refines : (p : LogicalPlan) → Refines fl k (optimize_plan p) p
  unfolding optimize_plan
  optimize_plan-Refines (scan a b c) = Refines-refl fl k _
  optimize_plan-Refines (cache p s) = cache-Refines fl k _ _ (optimize_plan-Refines p) s
  optimize_plan-Refines (filter_nodes p e) =
      Refines-trans fl k _ _ _ (rewrite_filter_nodes-Refines (optimize_plan p) e)
        (filter_nodes-Refines fl k _ _ (optimize_plan-Refines p) e)
  optimize_plan-Refines (filter_edges p e) =
      Refines-trans fl k _ _ _ (rewrite_filter_edges-Refines (optimize_plan p) e)
        (filter_edges-Refines fl k _ _ (optimize_plan-Refines p) e)
  optimize_plan-Refines (project_nodes p cs) =
      project_nodes-Refines fl k _ _ (optimize_plan-Refines p) cs
  optimize_plan-Refines (project_edges p cs) =
      project_edges-Refines fl k _ _ (optimize_plan-Refines p) cs
  optimize_plan-Refines (expand p t n d f) =
      expand-Refines fl k _ _ (optimize_plan-Refines p) t n d f
  optimize_plan-Refines (traverse p s) = traverse-Refines fl k _ _ (optimize_plan-Refines p) s
  optimize_plan-Refines (pattern_match p s w) =
      pattern_match-Refines fl k _ _ (optimize_plan-Refines p) s w
  optimize_plan-Refines (aggregate_neighbors p s a) =
      aggregate_neighbors-Refines fl k _ _ (optimize_plan-Refines p) s a
  optimize_plan-Refines (sort p by b) = sort-Refines fl k _ _ (optimize_plan-Refines p) by b
  optimize_plan-Refines (limit p n) = limit-Refines fl k _ _ (optimize_plan-Refines p) n
  optimize_plan-Refines (hint (expand p t n d f) h) =
      hint_expand-Refines fl k _ _ (optimize_plan-Refines p) t n d f h
  optimize_plan-Refines (hint (traverse p s) h) =
      hint_traverse-Refines fl k _ _ (optimize_plan-Refines p) s h
  optimize_plan-Refines (hint (sort p by b) h) =
      hint_sort-Refines fl k _ _ (optimize_plan-Refines p) by b h
  optimize_plan-Refines (hint (filter_nodes p e) h) =
      Plain-Refines fl k _ _ (optimize_plan-Refines (filter_nodes p e)) h
        (rewrite_filter_nodes-Plain (optimize_plan p) e) (filter_nodes-Plain fl k p e)
  optimize_plan-Refines (hint (filter_edges p e) h) =
      Plain-Refines fl k _ _ (optimize_plan-Refines (filter_edges p e)) h
        (rewrite_filter_edges-Plain (optimize_plan p) e) (filter_edges-Plain fl k p e)
  optimize_plan-Refines (hint (scan a b c) h) = Refines-refl fl k _
  optimize_plan-Refines (hint (cache p s) h) =
      Plain-Refines fl k _ _ (optimize_plan-Refines (cache p s)) h (cache-Plain fl k _ s)
        (cache-Plain fl k p s)
  optimize_plan-Refines (hint (hint p s) h) =
      Plain-Refines fl k _ _ (optimize_plan-Refines (hint p s)) h (hint-Plain fl k _ s)
        (hint-Plain fl k p s)
  optimize_plan-Refines (hint (project_nodes p cs) h) =
      Plain-Refines fl k _ _ (optimize_plan-Refines (project_nodes p cs)) h
        (project_nodes-Plain fl k _ cs) (project_nodes-Plain fl k p cs)
  optimize_plan-Refines (hint (project_edges p cs) h) =
      Plain-Refines fl k _ _ (optimize_plan-Refines (project_edges p cs)) h
        (project_edges-Plain fl k _ cs) (project_edges-Plain fl k p cs)
  optimize_plan-Refines (hint (pattern_match p s w) h) =
      Plain-Refines fl k _ _ (optimize_plan-Refines (pattern_match p s w)) h
        (pattern_match-Plain fl k _ s w) (pattern_match-Plain fl k p s w)
  optimize_plan-Refines (hint (aggregate_neighbors p s a) h) =
      Plain-Refines fl k _ _ (optimize_plan-Refines (aggregate_neighbors p s a)) h
        (aggregate_neighbors-Plain fl k _ s a) (aggregate_neighbors-Plain fl k p s a)
  optimize_plan-Refines (hint (limit p n) h) =
      Plain-Refines fl k _ _ (optimize_plan-Refines (limit p n)) h (limit-Plain fl k _ n)
        (limit-Plain fl k p n)

  -- For every plan and every graph, whatever the float and the kernel operations are: a value that
  -- the plan rewritten by predicate pushdown returns is the value that the plan as written returns.
  pub pushed_plan_returns :
      (p : LogicalPlan) (g : GraphFrame) (v : ExecutionValue)
      → execute fl k (optimize_plan p) g ≡ ok v
      → execute fl k p g ≡ ok v
  pushed_plan_returns p = optimize_plan-Refines p
