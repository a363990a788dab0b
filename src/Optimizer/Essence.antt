-- ===== src/Optimizer/Essence.antt =====
-- crates/lynxes-core/src/query/optimizer: what the passes that add caches and hints leave of a plan.
use lynxes_mojo.Common.{◌≡◌, refl, ap, sym, ◌∙◌, ℕ, min, arith, Bool-cases, inl, inr, Option-cases}
use lynxes_mojo.Plan.{
  LogicalPlan, scan, cache, hint, filter_nodes, filter_edges, project_nodes, project_edges, expand,
  traverse, pattern_match, aggregate_neighbors, sort, limit, top_k, limit_aware, partition_parallel,
}
use lynxes_mojo.Optimizer.SubgraphCaching as Caching
use lynxes_mojo.Optimizer.SubgraphCaching.{Printers}
use lynxes_mojo.Optimizer.EarlyTermination as Early
use lynxes_mojo.Optimizer.PartitionParallel as Parallel

-- A limit on a plan: on a limit, the smaller of the two.
abbrev pub bound : LogicalPlan → ℕ → LogicalPlan
bound (limit p m) n = limit p (min n m)
bound (scan a b c) n = limit (scan a b c) n
bound (cache p b) n = limit (cache p b) n
bound (hint p b) n = limit (hint p b) n
bound (filter_nodes p b) n = limit (filter_nodes p b) n
bound (filter_edges p b) n = limit (filter_edges p b) n
bound (project_nodes p b) n = limit (project_nodes p b) n
bound (project_edges p b) n = limit (project_edges p b) n
bound (expand p b c d f) n = limit (expand p b c d f) n
bound (traverse p b) n = limit (traverse p b) n
bound (pattern_match p b c) n = limit (pattern_match p b c) n
bound (aggregate_neighbors p b c) n = limit (aggregate_neighbors p b c) n
bound (sort p b c) n = limit (sort p b c) n

-- The plan without its caches and hints, each run of limits as one.
unfoldable pub essence : LogicalPlan → LogicalPlan
essence (scan a b c) = scan a b c
essence (cache p b) = essence p
essence (hint p b) = essence p
essence (filter_nodes p b) = filter_nodes (essence p) b
essence (filter_edges p b) = filter_edges (essence p) b
essence (project_nodes p b) = project_nodes (essence p) b
essence (project_edges p b) = project_edges (essence p) b
essence (expand p b c d f) = expand (essence p) b c d f
essence (traverse p b) = traverse (essence p) b
essence (pattern_match p b c) = pattern_match (essence p) b c
essence (aggregate_neighbors p b c) = aggregate_neighbors (essence p) b c
essence (sort p b c) = sort (essence p) b c
essence (limit p b) = bound (essence p) b

min_assoc : (n m j : ℕ) → min n (min m j) ≡ min (min n m) j
min_assoc n m j = ground arith

bound-bound : (p : LogicalPlan) (m n : ℕ) → bound (bound p m) n ≡ bound p (min n m)
bound-bound (limit p j) m n = ap (limit p) (min_assoc n m j)
bound-bound (scan a b c) m n = refl
bound-bound (cache p b) m n = refl
bound-bound (hint p b) m n = refl
bound-bound (filter_nodes p b) m n = refl
bound-bound (filter_edges p b) m n = refl
bound-bound (project_nodes p b) m n = refl
bound-bound (project_edges p b) m n = refl
bound-bound (expand p b c d f) m n = refl
bound-bound (traverse p b) m n = refl
bound-bound (pattern_match p b c) m n = refl
bound-bound (aggregate_neighbors p b c) m n = refl
bound-bound (sort p b c) m n = refl

module _ (print : Printers) where
  wrap_essence : (p : LogicalPlan) → essence (Caching.maybe_wrap_cache print p) ≡ essence p
  unfolding Caching.maybe_wrap_cache essence
  wrap_essence p = elim (Bool-cases (Caching.is_cache p)) [
    | inl c ↦ rw c refl
    | inr n ↦ elim (Bool-cases (Caching.is_cache_candidate p)) [
      | inl c ↦ elim (Option-cases (Caching.fingerprint print p)) [
        | inl unprinted ↦ rw (n, c, unprinted) refl
        | inr (key, same) ↦ rw (n, c, same) refl
      ]
      | inr m ↦ rw (n, m) refl
    ]
  ]

  pub subgraph_caching-essence :
      (p : LogicalPlan) → essence (Caching.optimize_plan print p) ≡ essence p
  unfolding Caching.optimize_plan essence
  subgraph_caching-essence (scan a b c) = wrap_essence (scan a b c)
  subgraph_caching-essence (cache p b) = wrap_essence (cache p b)
  subgraph_caching-essence (hint p b) =
      wrap_essence (hint (Caching.optimize_plan print p) b) ∙ subgraph_caching-essence p
  subgraph_caching-essence (filter_nodes p b) =
      wrap_essence (filter_nodes (Caching.optimize_plan print p) b)
      ∙ ap (λ q. filter_nodes q b) (subgraph_caching-essence p)
  subgraph_caching-essence (filter_edges p b) =
      wrap_essence (filter_edges (Caching.optimize_plan print p) b)
      ∙ ap (λ q. filter_edges q b) (subgraph_caching-essence p)
  subgraph_caching-essence (project_nodes p b) =
      wrap_essence (project_nodes (Caching.optimize_plan print p) b)
      ∙ ap (λ q. project_nodes q b) (subgraph_caching-essence p)
  subgraph_caching-essence (project_edges p b) =
      wrap_essence (project_edges (Caching.optimize_plan print p) b)
      ∙ ap (λ q. project_edges q b) (subgraph_caching-essence p)
  subgraph_caching-essence (expand p b c d f) =
      wrap_essence (expand (Caching.optimize_plan print p) b c d f)
      ∙ ap (λ q. expand q b c d f) (subgraph_caching-essence p)
  subgraph_caching-essence (traverse p b) =
      wrap_essence (traverse (Caching.optimize_plan print p) b)
      ∙ ap (λ q. traverse q b) (subgraph_caching-essence p)
  subgraph_caching-essence (pattern_match p b c) =
      wrap_essence (pattern_match (Caching.optimize_plan print p) b c)
      ∙ ap (λ q. pattern_match q b c) (subgraph_caching-essence p)
  subgraph_caching-essence (aggregate_neighbors p b c) =
      wrap_essence (aggregate_neighbors (Caching.optimize_plan print p) b c)
      ∙ ap (λ q. aggregate_neighbors q b c) (subgraph_caching-essence p)
  subgraph_caching-essence (sort p b c) =
      wrap_essence (sort (Caching.optimize_plan print p) b c)
      ∙ ap (λ q. sort q b c) (subgraph_caching-essence p)
  subgraph_caching-essence (limit p b) =
      wrap_essence (limit (Caching.optimize_plan print p) b)
      ∙ ap (λ q. bound q b) (subgraph_caching-essence p)

annotate_essence : (p : LogicalPlan) (n : ℕ) → essence (Early.annotate_limit_input p n) ≡ essence p
unfolding Early.annotate_limit_input essence
annotate_essence (scan a b c) n = refl
annotate_essence (cache p b) n = refl
annotate_essence (hint p b) n = elim (Bool-cases (Early.matches_hint_kind b n)) [
  | inl same ↦ rw same refl
  | inr other ↦ rw other refl
]
annotate_essence (filter_nodes p b) n = refl
annotate_essence (filter_edges p b) n = refl
annotate_essence (project_nodes p b) n = refl
annotate_essence (project_edges p b) n = refl
annotate_essence (expand p b c d f) n = refl
annotate_essence (traverse p b) n = refl
annotate_essence (pattern_match p b c) n = refl
annotate_essence (aggregate_neighbors p b c) n = refl
annotate_essence (sort p b c) n = refl
annotate_essence (limit p b) n = refl

-- The limit that `rewrite_limit` returns is the smallest of the limits that it meets.
pub rewrite_limit-essence :
    (p : LogicalPlan) (n : ℕ) → essence (Early.rewrite_limit p n) ≡ bound (essence p) n
unfolding Early.rewrite_limit essence
rewrite_limit-essence (scan a b c) n = ap (λ q. bound q n) (annotate_essence (scan a b c) n)
rewrite_limit-essence (cache p b) n = ap (λ q. bound q n) (annotate_essence (cache p b) n)
rewrite_limit-essence (hint p b) n =
    elim (Bool-cases (Early.matches_hint b (Early.rewrite_limit p n) n)) [
      | inl same ↦ rw same (rewrite_limit-essence p n)
      | inr other ↦ rw other (rewrite_limit-essence p n)
    ]
rewrite_limit-essence (filter_nodes p b) n =
    ap (λ q. bound q n) (annotate_essence (filter_nodes p b) n)
rewrite_limit-essence (filter_edges p b) n =
    ap (λ q. bound q n) (annotate_essence (filter_edges p b) n)
rewrite_limit-essence (project_nodes p b) n =
    ap (λ q. bound q n) (annotate_essence (project_nodes p b) n)
rewrite_limit-essence (project_edges p b) n =
    ap (λ q. bound q n) (annotate_essence (project_edges p b) n)
rewrite_limit-essence (expand p b c d f) n =
    ap (λ q. bound q n) (annotate_essence (expand p b c d f) n)
rewrite_limit-essence (traverse p b) n = ap (λ q. bound q n) (annotate_essence (traverse p b) n)
rewrite_limit-essence (pattern_match p b c) n =
    ap (λ q. bound q n) (annotate_essence (pattern_match p b c) n)
rewrite_limit-essence (aggregate_neighbors p b c) n =
    ap (λ q. bound q n) (annotate_essence (aggregate_neighbors p b c) n)
rewrite_limit-essence (sort p b c) n = ap (λ q. bound q n) (annotate_essence (sort p b c) n)
rewrite_limit-essence (limit p b) n =
    rewrite_limit-essence p (min n b) ∙ sym (bound-bound (essence p) b n)

pub early_termination-essence : (p : LogicalPlan) → essence (Early.optimize_plan p) ≡ essence p
unfolding Early.optimize_plan essence
early_termination-essence (scan a b c) = refl
early_termination-essence (cache p b) = early_termination-essence p
early_termination-essence (hint p b) = refl
early_termination-essence (filter_nodes p b) =
    ap (λ q. filter_nodes q b) (early_termination-essence p)
early_termination-essence (filter_edges p b) =
    ap (λ q. filter_edges q b) (early_termination-essence p)
early_termination-essence (project_nodes p b) =
    ap (λ q. project_nodes q b) (early_termination-essence p)
early_termination-essence (project_edges p b) =
    ap (λ q. project_edges q b) (early_termination-essence p)
early_termination-essence (expand p b c d f) =
    ap (λ q. expand q b c d f) (early_termination-essence p)
early_termination-essence (traverse p b) = ap (λ q. traverse q b) (early_termination-essence p)
early_termination-essence (pattern_match p b c) =
    ap (λ q. pattern_match q b c) (early_termination-essence p)
early_termination-essence (aggregate_neighbors p b c) =
    ap (λ q. aggregate_neighbors q b c) (early_termination-essence p)
early_termination-essence (sort p b c) = ap (λ q. sort q b c) (early_termination-essence p)
early_termination-essence (limit p b) =
    rewrite_limit-essence (Early.optimize_plan p) b
    ∙ ap (λ q. bound q b) (early_termination-essence p)

parallel_essence : (p : LogicalPlan) → essence (Parallel.annotate_parallel p) ≡ essence p
unfolding Parallel.annotate_parallel essence
parallel_essence p = elim (Bool-cases (Parallel.has_partition_hint p)) [
  | inl has ↦ rw has refl
  | inr none_yet ↦ elim (Option-cases (Parallel.partition_strategy p)) [
    | inl sequential ↦ rw (none_yet, sequential) refl
    | inr (strategy, same) ↦ rw (none_yet, same) refl
  ]
]

pub partition_parallel-essence : (p : LogicalPlan) → essence (Parallel.optimize_plan p) ≡ essence p
unfolding Parallel.optimize_plan essence
partition_parallel-essence (scan a b c) = parallel_essence (scan a b c)
partition_parallel-essence (cache p b) =
    parallel_essence (cache (Parallel.optimize_plan p) b) ∙ partition_parallel-essence p
partition_parallel-essence (hint p (top_k b)) =
    parallel_essence (hint (Parallel.optimize_plan p) (top_k b)) ∙ partition_parallel-essence p
partition_parallel-essence (hint p (limit_aware b)) =
    parallel_essence (hint (Parallel.optimize_plan p) (limit_aware b))
    ∙ partition_parallel-essence p
partition_parallel-essence (hint p (partition_parallel b)) =
    parallel_essence (hint p (partition_parallel b))
partition_parallel-essence (filter_nodes p b) =
    parallel_essence (filter_nodes (Parallel.optimize_plan p) b)
    ∙ ap (λ q. filter_nodes q b) (partition_parallel-essence p)
partition_parallel-essence (filter_edges p b) =
    parallel_essence (filter_edges (Parallel.optimize_plan p) b)
    ∙ ap (λ q. filter_edges q b) (partition_parallel-essence p)
partition_parallel-essence (project_nodes p b) =
    parallel_essence (project_nodes (Parallel.optimize_plan p) b)
    ∙ ap (λ q. project_nodes q b) (partition_parallel-essence p)
partition_parallel-essence (project_edges p b) =
    parallel_essence (project_edges (Parallel.optimize_plan p) b)
    ∙ ap (λ q. project_edges q b) (partition_parallel-essence p)
partition_parallel-essence (expand p b c d f) =
    parallel_essence (expand (Parallel.optimize_plan p) b c d f)
    ∙ ap (λ q. expand q b c d f) (partition_parallel-essence p)
partition_parallel-essence (traverse p b) =
    parallel_essence (traverse (Parallel.optimize_plan p) b)
    ∙ ap (λ q. traverse q b) (partition_parallel-essence p)
partition_parallel-essence (pattern_match p b c) =
    parallel_essence (pattern_match (Parallel.optimize_plan p) b c)
    ∙ ap (λ q. pattern_match q b c) (partition_parallel-essence p)
partition_parallel-essence (aggregate_neighbors p b c) =
    parallel_essence (aggregate_neighbors (Parallel.optimize_plan p) b c)
    ∙ ap (λ q. aggregate_neighbors q b c) (partition_parallel-essence p)
partition_parallel-essence (sort p b c) =
    parallel_essence (sort (Parallel.optimize_plan p) b c)
    ∙ ap (λ q. sort q b c) (partition_parallel-essence p)
partition_parallel-essence (limit p b) =
    parallel_essence (limit (Parallel.optimize_plan p) b)
    ∙ ap (λ q. bound q b) (partition_parallel-essence p)
