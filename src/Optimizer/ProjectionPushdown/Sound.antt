-- ===== src/Optimizer/ProjectionPushdown/Sound.antt =====
-- crates/lynxes-core/src/query/optimizer/projection_pushdown.rs against the executor: the whole pass.
use lynxes_mojo.Common.{◌≡◌, refl, String, List, Option, none}
use lynxes_mojo.Outcome.{ok}
use lynxes_mojo.Plan.{
  LogicalPlan, scan, cache, hint, filter_nodes, filter_edges, project_nodes, project_edges, expand,
  traverse, pattern_match, aggregate_neighbors, sort, limit, Connector, top_k, limit_aware,
  partition_parallel,
}
use lynxes_mojo.Executor.Values.{Floats}
use lynxes_mojo.Executor.{GraphFrame, ExecutionValue, Kernels, execute}
use lynxes_mojo.Executor.Refinement.{
  Refines, Plain, Refines-trans, filter_nodes-Plain, filter_edges-Plain, project_nodes-Plain,
  project_edges-Plain, cache-Plain, hint-Plain, pattern_match-Plain, aggregate_neighbors-Plain,
  limit-Plain, cache-Refines, filter_nodes-Refines, filter_edges-Refines, project_nodes-Refines,
  project_edges-Refines, expand-Refines, traverse-Refines, pattern_match-Refines,
  aggregate_neighbors-Refines, sort-Refines, limit-Refines, Plain-Refines, hint_expand-Refines,
  hint_traverse-Refines, hint_sort-Refines,
}
use lynxes_mojo.Optimizer.ProjectionPushdown.{Required, optimize_plan}
use lynxes_mojo.Optimizer.ProjectionPushdown.Collapse.{
  collapse_project_nodes-Refines, collapse_project_edges-Refines, collapse_project_nodes-Plain,
  collapse_project_edges-Plain,
}

module _ (fl : Floats) (k : Kernels) where
  -- The executor gets the graph that the connector has loaded, whatever columns the scan names.
  scan-Refines :
      (source : Connector) (b c b' c' : Option (List String))
      → Refines fl k (scan source b c) (scan source b' c')
  unfolding execute
  scan-Refines source b c b' c' g v h = h

  scan-Plain : (source : Connector) (b c : Option (List String)) → Plain fl k (scan source b c)
  unfolding execute
  scan-Plain source b c (top_k n) g = refl
  scan-Plain source b c (limit_aware n) g = refl
  scan-Plain source b c (partition_parallel s) g = refl

  pub optimize_plan-Refines :
      (p : LogicalPlan) (ns es : Required) → Refines fl k p (optimize_plan p ns es)
  unfolding optimize_plan
  optimize_plan-Refines (filter_nodes p e) ns es =
      filter_nodes-Refines fl k _ _ (optimize_plan-Refines p _ _) e
  optimize_plan-Refines (filter_edges p e) ns es =
      filter_edges-Refines fl k _ _ (optimize_plan-Refines p _ _) e
  optimize_plan-Refines (project_nodes p cs) ns es =
      Refines-trans fl k _ _ _ (project_nodes-Refines fl k _ _ (optimize_plan-Refines p _ _) cs)
        (collapse_project_nodes-Refines fl k _ cs)
  optimize_plan-Refines (project_edges p cs) ns es =
      Refines-trans fl k _ _ _ (project_edges-Refines fl k _ _ (optimize_plan-Refines p _ _) cs)
        (collapse_project_edges-Refines fl k _ cs)
  optimize_plan-Refines (expand p t n d f) ns es =
      expand-Refines fl k _ _ (optimize_plan-Refines p _ _) t n d f
  optimize_plan-Refines (traverse p s) ns es =
      traverse-Refines fl k _ _ (optimize_plan-Refines p _ _) s
  optimize_plan-Refines (pattern_match p s w) ns es =
      pattern_match-Refines fl k _ _ (optimize_plan-Refines p _ _) s w
  optimize_plan-Refines (aggregate_neighbors p s a) ns es =
      aggregate_neighbors-Refines fl k _ _ (optimize_plan-Refines p _ _) s a
  optimize_plan-Refines (sort p by b) ns es =
      sort-Refines fl k _ _ (optimize_plan-Refines p _ _) by b
  optimize_plan-Refines (limit p n) ns es = limit-Refines fl k _ _ (optimize_plan-Refines p _ _) n
  optimize_plan-Refines (cache p s) ns es = cache-Refines fl k _ _ (optimize_plan-Refines p _ _) s
  optimize_plan-Refines (scan a b c) ns es = scan-Refines a b c _ _
  optimize_plan-Refines (hint (scan a b c) h) ns es =
      Plain-Refines fl k _ _ (scan-Refines a b c _ _) h (scan-Plain a b c) (scan-Plain a _ _)
  optimize_plan-Refines (hint (filter_nodes p e) h) ns es =
      Plain-Refines fl k _ _ (optimize_plan-Refines (filter_nodes p e) ns es) h
        (filter_nodes-Plain fl k p e) (filter_nodes-Plain fl k _ e)
  optimize_plan-Refines (hint (filter_edges p e) h) ns es =
      Plain-Refines fl k _ _ (optimize_plan-Refines (filter_edges p e) ns es) h
        (filter_edges-Plain fl k p e) (filter_edges-Plain fl k _ e)
  optimize_plan-Refines (hint (project_nodes p cs) h) ns es =
      Plain-Refines fl k _ _ (optimize_plan-Refines (project_nodes p cs) ns es) h
        (project_nodes-Plain fl k p cs) (collapse_project_nodes-Plain fl k _ cs)
  optimize_plan-Refines (hint (project_edges p cs) h) ns es =
      Plain-Refines fl k _ _ (optimize_plan-Refines (project_edges p cs) ns es) h
        (project_edges-Plain fl k p cs) (collapse_project_edges-Plain fl k _ cs)
  optimize_plan-Refines (hint (expand p t n d f) h) ns es =
      hint_expand-Refines fl k _ _ (optimize_plan-Refines p _ _) t n d f h
  optimize_plan-Refines (hint (traverse p s) h) ns es =
      hint_traverse-Refines fl k _ _ (optimize_plan-Refines p _ _) s h
  optimize_plan-Refines (hint (pattern_match p s w) h) ns es =
      Plain-Refines fl k _ _ (optimize_plan-Refines (pattern_match p s w) ns es) h
        (pattern_match-Plain fl k p s w) (pattern_match-Plain fl k _ s w)
  optimize_plan-Refines (hint (aggregate_neighbors p s a) h) ns es =
      Plain-Refines fl k _ _ (optimize_plan-Refines (aggregate_neighbors p s a) ns es) h
        (aggregate_neighbors-Plain fl k p s a) (aggregate_neighbors-Plain fl k _ s a)
  optimize_plan-Refines (hint (sort p by b) h) ns es =
      hint_sort-Refines fl k _ _ (optimize_plan-Refines p _ _) by b h
  optimize_plan-Refines (hint (limit p n) h) ns es =
      Plain-Refines fl k _ _ (optimize_plan-Refines (limit p n) ns es) h (limit-Plain fl k p n)
        (limit-Plain fl k _ n)
  optimize_plan-Refines (hint (cache p s) h) ns es =
      Plain-Refines fl k _ _ (optimize_plan-Refines (cache p s) ns es) h (cache-Plain fl k p s)
        (cache-Plain fl k _ s)
  optimize_plan-Refines (hint (hint p s) h) ns es =
      Plain-Refines fl k _ _ (optimize_plan-Refines (hint p s) ns es) h (hint-Plain fl k p s)
        (hint-Plain fl k _ s)

  -- For every plan and every graph, whatever the float and the kernel operations are: a value that
  -- the plan as written returns is the value that the plan rewritten by projection pushdown returns.
  pub projected_plan_returns :
      (p : LogicalPlan) (g : GraphFrame) (v : ExecutionValue)
      → execute fl k p g ≡ ok v
      → execute fl k (optimize_plan p none none) g ≡ ok v
  projected_plan_returns p = optimize_plan-Refines p none none
