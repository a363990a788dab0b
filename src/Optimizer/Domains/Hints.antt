-- ===== src/Optimizer/Domains/Hints.antt =====
-- crates/lynxes-core/src/query/optimizer: the output domains of the passes that add caches and hints.
use lynxes_mojo.Common.{◌≡◌, refl, ◌∙◌, ℕ, min, Bool-cases, inl, inr, Option-cases}
use lynxes_mojo.Plan.{
  LogicalPlan, scan, cache, hint, filter_nodes, filter_edges, project_nodes, project_edges, expand,
  traverse, pattern_match, aggregate_neighbors, sort, limit, output_domain, top_k, limit_aware,
  partition_parallel,
}
use lynxes_mojo.Optimizer.SubgraphCaching as Caching
use lynxes_mojo.Optimizer.SubgraphCaching.{Printers}
use lynxes_mojo.Optimizer.EarlyTermination as Early
use lynxes_mojo.Optimizer.PartitionParallel as Parallel

module _ (print : Printers) where
  wrap_domain :
      (p : LogicalPlan) → output_domain (Caching.maybe_wrap_cache print p) ≡ output_domain p
  unfolding Caching.maybe_wrap_cache output_domain
  wrap_domain p = elim (Bool-cases (Caching.is_cache p)) [
    | inl c ↦ rw c refl
    | inr n ↦ elim (Bool-cases (Caching.is_cache_candidate p)) [
      | inl c ↦ elim (Option-cases (Caching.fingerprint print p)) [
        | inl unprinted ↦ rw (n, c, unprinted) refl
        | inr (key, same) ↦ rw (n, c, same) refl
      ]
      | inr m ↦ rw (n, m) refl
    ]
  ]

  pub subgraph_caching-domain :
      (p : LogicalPlan) → output_domain (Caching.optimize_plan print p) ≡ output_domain p
  unfolding Caching.optimize_plan output_domain
  subgraph_caching-domain (scan a b c) = wrap_domain (scan a b c)
  subgraph_caching-domain (cache p b) = wrap_domain (cache p b)
  subgraph_caching-domain (hint p b) =
      wrap_domain (hint (Caching.optimize_plan print p) b) ∙ subgraph_caching-domain p
  subgraph_caching-domain (filter_nodes p b) =
      wrap_domain (filter_nodes (Caching.optimize_plan print p) b)
  subgraph_caching-domain (filter_edges p b) =
      wrap_domain (filter_edges (Caching.optimize_plan print p) b)
  subgraph_caching-domain (project_nodes p b) =
      wrap_domain (project_nodes (Caching.optimize_plan print p) b)
  subgraph_caching-domain (project_edges p b) =
      wrap_domain (project_edges (Caching.optimize_plan print p) b)
  subgraph_caching-domain (expand p b c d f) =
      wrap_domain (expand (Caching.optimize_plan print p) b c d f)
  subgraph_caching-domain (traverse p b) = wrap_domain (traverse (Caching.optimize_plan print p) b)
  subgraph_caching-domain (pattern_match p b c) =
      wrap_domain (pattern_match (Caching.optimize_plan print p) b c)
  subgraph_caching-domain (aggregate_neighbors p b c) =
      wrap_domain (aggregate_neighbors (Caching.optimize_plan print p) b c)
  subgraph_caching-domain (sort p b c) =
      wrap_domain (sort (Caching.optimize_plan print p) b c) ∙ subgraph_caching-domain p
  subgraph_caching-domain (limit p b) =
      wrap_domain (limit (Caching.optimize_plan print p) b) ∙ subgraph_caching-domain p

annotate_domain :
    (p : LogicalPlan) (n : ℕ) → output_domain (Early.annotate_limit_input p n) ≡ output_domain p
unfolding Early.annotate_limit_input output_domain
annotate_domain (scan a b c) n = refl
annotate_domain (cache p b) n = refl
annotate_domain (hint p b) n = elim (Bool-cases (Early.matches_hint_kind b n)) [
  | inl same ↦ rw same refl
  | inr other ↦ rw other refl
]
annotate_domain (filter_nodes p b) n = refl
annotate_domain (filter_edges p b) n = refl
annotate_domain (project_nodes p b) n = refl
annotate_domain (project_edges p b) n = refl
annotate_domain (expand p b c d f) n = refl
annotate_domain (traverse p b) n = refl
annotate_domain (pattern_match p b c) n = refl
annotate_domain (aggregate_neighbors p b c) n = refl
annotate_domain (sort p b c) n = refl
annotate_domain (limit p b) n = refl

limit_domain : (p : LogicalPlan) (n : ℕ) → output_domain (Early.rewrite_limit p n) ≡ output_domain p
unfolding Early.rewrite_limit output_domain
limit_domain (scan a b c) n = annotate_domain (scan a b c) n
limit_domain (cache p b) n = annotate_domain (cache p b) n
limit_domain (hint p b) n = elim (Bool-cases (Early.matches_hint b (Early.rewrite_limit p n) n)) [
  | inl same ↦ rw same (limit_domain p n)
  | inr other ↦ rw other (limit_domain p n)
]
limit_domain (filter_nodes p b) n = annotate_domain (filter_nodes p b) n
limit_domain (filter_edges p b) n = annotate_domain (filter_edges p b) n
limit_domain (project_nodes p b) n = annotate_domain (project_nodes p b) n
limit_domain (project_edges p b) n = annotate_domain (project_edges p b) n
limit_domain (expand p b c d f) n = annotate_domain (expand p b c d f) n
limit_domain (traverse p b) n = annotate_domain (traverse p b) n
limit_domain (pattern_match p b c) n = annotate_domain (pattern_match p b c) n
limit_domain (aggregate_neighbors p b c) n = annotate_domain (aggregate_neighbors p b c) n
limit_domain (sort p b c) n = annotate_domain (sort p b c) n
limit_domain (limit p b) n = limit_domain p (min n b)

pub early_termination-domain :
    (p : LogicalPlan) → output_domain (Early.optimize_plan p) ≡ output_domain p
unfolding Early.optimize_plan output_domain
early_termination-domain (scan a b c) = refl
early_termination-domain (cache p b) = early_termination-domain p
early_termination-domain (hint p b) = refl
early_termination-domain (filter_nodes p b) = refl
early_termination-domain (filter_edges p b) = refl
early_termination-domain (project_nodes p b) = refl
early_termination-domain (project_edges p b) = refl
early_termination-domain (expand p b c d f) = refl
early_termination-domain (traverse p b) = refl
early_termination-domain (pattern_match p b c) = refl
early_termination-domain (aggregate_neighbors p b c) = refl
early_termination-domain (sort p b c) = early_termination-domain p
early_termination-domain (limit p b) =
    limit_domain (Early.optimize_plan p) b ∙ early_termination-domain p

parallel_domain : (p : LogicalPlan) → output_domain (Parallel.annotate_parallel p) ≡ output_domain p
unfolding Parallel.annotate_parallel output_domain
parallel_domain p = elim (Bool-cases (Parallel.has_partition_hint p)) [
  | inl has ↦ rw has refl
  | inr none_yet ↦ elim (Option-cases (Parallel.partition_strategy p)) [
    | inl sequential ↦ rw (none_yet, sequential) refl
    | inr (strategy, same) ↦ rw (none_yet, same) refl
  ]
]

pub partition_parallel-domain :
    (p : LogicalPlan) → output_domain (Parallel.optimize_plan p) ≡ output_domain p
unfolding Parallel.optimize_plan output_domain
partition_parallel-domain (scan a b c) = parallel_domain (scan a b c)
partition_parallel-domain (cache p b) =
    parallel_domain (cache (Parallel.optimize_plan p) b) ∙ partition_parallel-domain p
partition_parallel-domain (hint p (top_k b)) =
    parallel_domain (hint (Parallel.optimize_plan p) (top_k b)) ∙ partition_parallel-domain p
partition_parallel-domain (hint p (limit_aware b)) =
    parallel_domain (hint (Parallel.optimize_plan p) (limit_aware b)) ∙ partition_parallel-domain p
partition_parallel-domain (hint p (partition_parallel b)) =
    parallel_domain (hint p (partition_parallel b))
partition_parallel-domain (filter_nodes p b) =
    parallel_domain (filter_nodes (Parallel.optimize_plan p) b)
partition_parallel-domain (filter_edges p b) =
    parallel_domain (filter_edges (Parallel.optimize_plan p) b)
partition_parallel-domain (project_nodes p b) =
    parallel_domain (project_nodes (Parallel.optimize_plan p) b)
partition_parallel-domain (project_edges p b) =
    parallel_domain (project_edges (Parallel.optimize_plan p) b)
partition_parallel-domain (expand p b c d f) =
    parallel_domain (expand (Parallel.optimize_plan p) b c d f)
partition_parallel-domain (traverse p b) = parallel_domain (traverse (Parallel.optimize_plan p) b)
partition_parallel-domain (pattern_match p b c) =
    parallel_domain (pattern_match (Parallel.optimize_plan p) b c)
partition_parallel-domain (aggregate_neighbors p b c) =
    parallel_domain (aggregate_neighbors (Parallel.optimize_plan p) b c)
partition_parallel-domain (sort p b c) =
    parallel_domain (sort (Parallel.optimize_plan p) b c) ∙ partition_parallel-domain p
partition_parallel-domain (limit p b) =
    parallel_domain (limit (Parallel.optimize_plan p) b) ∙ partition_parallel-domain p
