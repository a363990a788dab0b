-- ===== src/Optimizer/SubgraphCaching/Stable.antt =====
-- crates/lynxes-core/src/query/optimizer/subgraph_caching.rs: the keys and the results of a plan with
-- the caches put in.
use lynxes_mojo.Common.{◌≡◌, refl, sym, ◌∙◌, String, some, inl, inr, Bool-cases, Option-cases}
use lynxes_mojo.Plan.{
  LogicalPlan, scan, cache, hint, filter_nodes, filter_edges, project_nodes, project_edges, expand,
  traverse, pattern_match, aggregate_neighbors, sort, limit,
}
use lynxes_mojo.Optimizer.SubgraphCaching.{
  Printers, is_cache, is_cache_candidate, fingerprint, maybe_wrap_cache, optimize_plan,
}
use lynxes_mojo.Executor.Values.{Floats}
use lynxes_mojo.Executor.{GraphFrame, Kernels, execute}

-- The plan holds no hint, as the plans of the lazy frames do before the later passes.
abbrev pub NoHints : LogicalPlan → Type 0
NoHints (scan _ _ _) = Unit {0}
NoHints (hint _ _) = ⊥
NoHints (cache p _) = NoHints p
NoHints (filter_nodes p _) = NoHints p
NoHints (filter_edges p _) = NoHints p
NoHints (project_nodes p _) = NoHints p
NoHints (project_edges p _) = NoHints p
NoHints (expand p _ _ _ _) = NoHints p
NoHints (traverse p _) = NoHints p
NoHints (pattern_match p _ _) = NoHints p
NoHints (aggregate_neighbors p _ _) = NoHints p
NoHints (sort p _ _) = NoHints p
NoHints (limit p _) = NoHints p

module _ (print : Printers) where
  -- The wrapped plan is the plan, or the plan below a cache of its own key.
  wrap_cases :
      (P : LogicalPlan → Type 0) (p : LogicalPlan)
      → P p
      → ((key : String) → fingerprint print p ≡ some key → P (cache p key))
      → P (maybe_wrap_cache print p)
  unfolding maybe_wrap_cache
  wrap_cases P p plain wrapped = elim (Bool-cases (is_cache p)) [
    | inl c ↦ rw c plain
    | inr n ↦ elim (Bool-cases (is_cache_candidate p)) [
      | inl c ↦ elim (Option-cases (fingerprint print p)) [
        | inl unprinted ↦ rw (n, c, unprinted) plain
        | inr (key, same) ↦ rw (n, c, same) (wrapped key same)
      ]
      | inr m ↦ rw (n, m) plain
    ]
  ]

  wrap_key : (p : LogicalPlan) → fingerprint print (maybe_wrap_cache print p) ≡ fingerprint print p
  unfolding fingerprint
  wrap_key p =
      wrap_cases (λ q. fingerprint print q ≡ fingerprint print p) p refl (λ key same. sym same)

  -- The key of a plan is the key of the plan that subgraph caching makes of it: the caches that are
  -- put below a node do not change the key under which the node itself is cached.
  pub fingerprint-optimize_plan :
      (p : LogicalPlan) → fingerprint print (optimize_plan print p) ≡ fingerprint print p
  unfolding optimize_plan fingerprint
  fingerprint-optimize_plan (scan a b c) = wrap_key (scan a b c)
  fingerprint-optimize_plan (cache p key) = wrap_key (cache p key)
  fingerprint-optimize_plan (hint p h) =
      wrap_key (hint (optimize_plan print p) h) ∙ rw (fingerprint-optimize_plan p) refl
  fingerprint-optimize_plan (filter_nodes p predicate) =
      wrap_key (filter_nodes (optimize_plan print p) predicate)
      ∙ rw (fingerprint-optimize_plan p) refl
  fingerprint-optimize_plan (filter_edges p predicate) =
      wrap_key (filter_edges (optimize_plan print p) predicate)
      ∙ rw (fingerprint-optimize_plan p) refl
  fingerprint-optimize_plan (project_nodes p columns) =
      wrap_key (project_nodes (optimize_plan print p) columns)
      ∙ rw (fingerprint-optimize_plan p) refl
  fingerprint-optimize_plan (project_edges p columns) =
      wrap_key (project_edges (optimize_plan print p) columns)
      ∙ rw (fingerprint-optimize_plan p) refl
  fingerprint-optimize_plan (expand p edge_type hops direction pre_filter) =
      wrap_key (expand (optimize_plan print p) edge_type hops direction pre_filter)
      ∙ rw (fingerprint-optimize_plan p) refl
  fingerprint-optimize_plan (traverse p pattern) =
      wrap_key (traverse (optimize_plan print p) pattern) ∙ rw (fingerprint-optimize_plan p) refl
  fingerprint-optimize_plan (pattern_match p pattern where_) =
      wrap_key (pattern_match (optimize_plan print p) pattern where_)
      ∙ rw (fingerprint-optimize_plan p) refl
  fingerprint-optimize_plan (aggregate_neighbors p edge_type agg) =
      wrap_key (aggregate_neighbors (optimize_plan print p) edge_type agg)
      ∙ rw (fingerprint-optimize_plan p) refl
  fingerprint-optimize_plan (sort p by descending) =
      wrap_key (sort (optimize_plan print p) by descending) ∙ rw (fingerprint-optimize_plan p) refl
  fingerprint-optimize_plan (limit p n) =
      wrap_key (limit (optimize_plan print p) n) ∙ rw (fingerprint-optimize_plan p) refl

module _ (print : Printers) (fl : Floats) (k : Kernels) (g : GraphFrame) where
  wrap_execute : (p : LogicalPlan) → execute fl k (maybe_wrap_cache print p) g ≡ execute fl k p g
  unfolding execute
  wrap_execute p =
      wrap_cases print (λ q. execute fl k q g ≡ execute fl k p g) p refl (λ key same. refl)

  -- A plan with no hint returns what it returns with the caches put in: the same value, the same
  -- error or the same panic, on every graph.
  pub cached_plan_returns :
      (p : LogicalPlan) → NoHints p → execute fl k (optimize_plan print p) g ≡ execute fl k p g
  unfolding optimize_plan execute
  cached_plan_returns (scan a b c) h = wrap_execute (scan a b c)
  cached_plan_returns (cache p key) h = wrap_execute (cache p key)
  cached_plan_returns (hint p i) h = absurd h
  cached_plan_returns (filter_nodes p predicate) h =
      wrap_execute (filter_nodes (optimize_plan print p) predicate)
      ∙ rw (cached_plan_returns p h) refl
  cached_plan_returns (filter_edges p predicate) h =
      wrap_execute (filter_edges (optimize_plan print p) predicate)
      ∙ rw (cached_plan_returns p h) refl
  cached_plan_returns (project_nodes p columns) h =
      wrap_execute (project_nodes (optimize_plan print p) columns)
      ∙ rw (cached_plan_returns p h) refl
  cached_plan_returns (project_edges p columns) h =
      wrap_execute (project_edges (optimize_plan print p) columns)
      ∙ rw (cached_plan_returns p h) refl
  cached_plan_returns (expand p edge_type hops direction pre_filter) h =
      wrap_execute (expand (optimize_plan print p) edge_type hops direction pre_filter)
      ∙ rw (cached_plan_returns p h) refl
  cached_plan_returns (traverse p pattern) h =
      wrap_execute (traverse (optimize_plan print p) pattern) ∙ rw (cached_plan_returns p h) refl
  cached_plan_returns (pattern_match p pattern where_) h =
      wrap_execute (pattern_match (optimize_plan print p) pattern where_)
      ∙ rw (cached_plan_returns p h) refl
  cached_plan_returns (aggregate_neighbors p edge_type agg) h =
      wrap_execute (aggregate_neighbors (optimize_plan print p) edge_type agg)
      ∙ rw (cached_plan_returns p h) refl
  cached_plan_returns (sort p by descending) h =
      wrap_execute (sort (optimize_plan print p) by descending) ∙ rw (cached_plan_returns p h) refl
  cached_plan_returns (limit p n) h =
      wrap_execute (limit (optimize_plan print p) n) ∙ rw (cached_plan_returns p h) refl
