-- ===== src/Executor/Domains.antt =====
-- crates/lynxes-lazy/src/query/executor/mod.rs: the domain of the value that a plan returns.
use lynxes_mojo.Common.{◌≡◌, refl, sym, ◌∙◌, ap, ℕ, take}
use lynxes_mojo.Outcome.{Outcome, ok, ◌>>=◌, >>=-eq-ok}
use lynxes_mojo.Plan.{
  LogicalPlan, PlanDomain, scan, cache, hint, filter_nodes, filter_edges, project_nodes,
  project_edges, expand, traverse, pattern_match, aggregate_neighbors, sort, limit, output_domain,
  top_k, limit_aware, partition_parallel,
}
use lynxes_mojo.Executor.Values.{Floats}
use lynxes_mojo.Executor.Frames.{
  Batch, evaluate_predicate, filter_frame, limit_edges, limit_nodes, ids,
}
use lynxes_mojo.Executor.{
  GraphFrame, ExecutionValue, Kernels, graph, nodes, edges, pattern_rows, node_input, edge_input,
  sorted_by, filter_node_rows, filter_edge_rows, limited, execute,
}

abbrev pub value_domain : ExecutionValue → PlanDomain
value_domain (graph _) = PlanDomain.graph
value_domain (nodes _) = PlanDomain.nodes
value_domain (edges _) = PlanDomain.edges
value_domain (pattern_rows _) = PlanDomain.pattern_rows

-- Every value that the outcome may be is of the domain.
abbrev Returns : Outcome ExecutionValue → PlanDomain → Type 0
Returns m d = (v : ExecutionValue) → m ≡ ok v → value_domain v ≡ d

returned : (w : ExecutionValue) → Returns (ok w) (value_domain w)
returned w v h = let back : w ≡ v = cc in ap value_domain (sym back)

wrapped :
    {A : Type 0} (m : Outcome A) (f : A → ExecutionValue) (d : PlanDomain)
    → ((a : A) → value_domain (f a) ≡ d)
    → Returns (m >>= λ a. ok (f a)) d
wrapped m f d all v h =
    let (a, _, same) = >>=-eq-ok m (λ a. ok (f a)) h in
    let back : f a ≡ v = cc in ap value_domain (sym back) ∙ all a

after :
    {A : Type 0} (m : Outcome A) (f : A → Outcome ExecutionValue) (d : PlanDomain)
    → ((a : A) → Returns (f a) d)
    → Returns (m >>= f) d
after m f d all v h = let (a, _, rest) = >>=-eq-ok m f h in all a v rest

module _ (f : Batch → Outcome Batch) where
  sorted_by-domain : (w : ExecutionValue) → Returns (sorted_by f w) (value_domain w)
  sorted_by-domain (nodes ns) = wrapped (f ns) nodes _ (λ b. refl)
  sorted_by-domain (edges es) = wrapped (f es) edges _ (λ b. refl)
  sorted_by-domain (graph g) = λ v h. cc
  sorted_by-domain (pattern_rows b) = λ v h. cc

module _ (fl : Floats) (k : Kernels) where
  limited-domain : (n : ℕ) (w : ExecutionValue) → Returns (limited fl k n w) (value_domain w)
  limited-domain n (nodes ns) = returned (nodes (limit_nodes ns n))
  limited-domain n (edges es) = wrapped (limit_edges es n) edges _ (λ b. refl)
  limited-domain n (graph g) =
      wrapped (k.subgraph g (ids (take n g.nodes.rows))) graph _ (λ b. refl)
  limited-domain n (pattern_rows b) = λ v h. cc

  same_domain :
      (m : Outcome ExecutionValue) (f : ExecutionValue → Outcome ExecutionValue) (d : PlanDomain)
      → Returns m d
      → ((w : ExecutionValue) → Returns (f w) (value_domain w))
      → Returns (m >>= f) d
  same_domain m f d first second v h =
      let (w, run, rest) = >>=-eq-ok m f h in second w v rest ∙ first w run

  execute-Returns :
      (p : LogicalPlan) (g : GraphFrame) → Returns (execute fl k p g) (output_domain p)
  unfolding execute output_domain filter_node_rows filter_edge_rows
  execute-Returns (scan a b c) g = returned (graph g)
  execute-Returns (cache p s) g = execute-Returns p g
  execute-Returns (filter_nodes p e) g = after (execute fl k p g) _ _ (λ value.
      after (node_input value) _ _ (λ ns.
        after (evaluate_predicate fl ns e) _ _
          (λ mask. wrapped (filter_frame ns mask) nodes _ (λ b. refl))))
  execute-Returns (filter_edges p e) g = after (execute fl k p g) _ _ (λ value.
      after (edge_input value) _ _ (λ ns.
        after (evaluate_predicate fl ns e) _ _
          (λ mask. wrapped (filter_frame ns mask) edges _ (λ b. refl))))
  execute-Returns (project_nodes p e) g =
      after (execute fl k p g) _ _
        (λ value. after (node_input value) _ _ (λ ns. wrapped _ nodes _ (λ b. refl)))
  execute-Returns (project_edges p e) g =
      after (execute fl k p g) _ _
        (λ value. after (edge_input value) _ _ (λ ns. wrapped _ edges _ (λ b. refl)))
  execute-Returns (expand p t n d f) g =
      after (execute fl k p g) _ _
        (λ value. after (node_input value) _ _ (λ ns. wrapped _ graph _ (λ b. refl)))
  execute-Returns (traverse p s) g =
      after (execute fl k p g) _ _
        (λ value. after (node_input value) _ _ (λ ns. wrapped _ graph _ (λ b. refl)))
  execute-Returns (pattern_match p s w) g =
      after (execute fl k p g) _ _
        (λ value. after (node_input value) _ _ (λ ns. wrapped _ pattern_rows _ (λ b. refl)))
  execute-Returns (aggregate_neighbors p s a) g =
      after (execute fl k p g) _ _
        (λ value. after (node_input value) _ _ (λ ns. wrapped _ nodes _ (λ b. refl)))
  execute-Returns (sort p by b) g =
      same_domain (execute fl k p g) _ _ (execute-Returns p g) (sorted_by-domain _)
  execute-Returns (limit p n) g =
      same_domain (execute fl k p g) _ _ (execute-Returns p g) (limited-domain n)
  execute-Returns (hint (expand p t n d f) (top_k m)) g =
      after (execute fl k p g) _ _
        (λ value. after (node_input value) _ _ (λ ns. wrapped _ graph _ (λ b. refl)))
  execute-Returns (hint (traverse p s) (top_k m)) g =
      after (execute fl k p g) _ _
        (λ value. after (node_input value) _ _ (λ ns. wrapped _ graph _ (λ b. refl)))
  execute-Returns (hint (sort p by b) (top_k m)) g =
      same_domain (execute fl k p g) _ _ (execute-Returns p g) (sorted_by-domain _)
  execute-Returns (hint (scan a b c) (top_k m)) g = returned (graph g)
  execute-Returns (hint (cache p s) (top_k m)) g = execute-Returns (cache p s) g
  execute-Returns (hint (hint p s) (top_k m)) g = execute-Returns (hint p s) g
  execute-Returns (hint (filter_nodes p e) (top_k m)) g = execute-Returns (filter_nodes p e) g
  execute-Returns (hint (filter_edges p e) (top_k m)) g = execute-Returns (filter_edges p e) g
  execute-Returns (hint (project_nodes p e) (top_k m)) g = execute-Returns (project_nodes p e) g
  execute-Returns (hint (project_edges p e) (top_k m)) g = execute-Returns (project_edges p e) g
  execute-Returns (hint (pattern_match p s w) (top_k m)) g = execute-Returns (pattern_match p s w) g
  execute-Returns (hint (aggregate_neighbors p s a) (top_k m)) g =
      execute-Returns (aggregate_neighbors p s a) g
  execute-Returns (hint (limit p n) (top_k m)) g = execute-Returns (limit p n) g
  execute-Returns (hint (expand p t n d f) (limit_aware m)) g =
      after (execute fl k p g) _ _
        (λ value. after (node_input value) _ _ (λ ns. wrapped _ graph _ (λ b. refl)))
  execute-Returns (hint (traverse p s) (limit_aware m)) g =
      after (execute fl k p g) _ _
        (λ value. after (node_input value) _ _ (λ ns. wrapped _ graph _ (λ b. refl)))
  execute-Returns (hint (sort p by b) (limit_aware m)) g =
      same_domain (execute fl k p g) _ _ (execute-Returns p g) (sorted_by-domain _)
  execute-Returns (hint (scan a b c) (limit_aware m)) g = execute-Returns (scan a b c) g
  execute-Returns (hint (cache p s) (limit_aware m)) g = execute-Returns (cache p s) g
  execute-Returns (hint (hint p s) (limit_aware m)) g = execute-Returns (hint p s) g
  execute-Returns (hint (filter_nodes p e) (limit_aware m)) g = execute-Returns (filter_nodes p e) g
  execute-Returns (hint (filter_edges p e) (limit_aware m)) g = execute-Returns (filter_edges p e) g
  execute-Returns (hint (project_nodes p e) (limit_aware m)) g =
      execute-Returns (project_nodes p e) g
  execute-Returns (hint (project_edges p e) (limit_aware m)) g =
      execute-Returns (project_edges p e) g
  execute-Returns (hint (pattern_match p s w) (limit_aware m)) g =
      execute-Returns (pattern_match p s w) g
  execute-Returns (hint (aggregate_neighbors p s a) (limit_aware m)) g =
      execute-Returns (aggregate_neighbors p s a) g
  execute-Returns (hint (limit p n) (limit_aware m)) g = execute-Returns (limit p n) g
  execute-Returns (hint (expand p t n d f) (partition_parallel m)) g =
      after (execute fl k p g) _ _
        (λ value. after (node_input value) _ _ (λ ns. wrapped _ graph _ (λ b. refl)))
  execute-Returns (hint (traverse p s) (partition_parallel m)) g =
      after (execute fl k p g) _ _
        (λ value. after (node_input value) _ _ (λ ns. wrapped _ graph _ (λ b. refl)))
  execute-Returns (hint (sort p by b) (partition_parallel m)) g =
      same_domain (execute fl k p g) _ _ (execute-Returns p g) (sorted_by-domain _)
  execute-Returns (hint (scan a b c) (partition_parallel m)) g = execute-Returns (scan a b c) g
  execute-Returns (hint (cache p s) (partition_parallel m)) g = execute-Returns (cache p s) g
  execute-Returns (hint (hint p s) (partition_parallel m)) g = execute-Returns (hint p s) g
  execute-Returns (hint (filter_nodes p e) (partition_parallel m)) g =
      execute-Returns (filter_nodes p e) g
  execute-Returns (hint (filter_edges p e) (partition_parallel m)) g =
      execute-Returns (filter_edges p e) g
  execute-Returns (hint (project_nodes p e) (partition_parallel m)) g =
      execute-Returns (project_nodes p e) g
  execute-Returns (hint (project_edges p e) (partition_parallel m)) g =
      execute-Returns (project_edges p e) g
  execute-Returns (hint (pattern_match p s w) (partition_parallel m)) g =
      execute-Returns (pattern_match p s w) g
  execute-Returns (hint (aggregate_neighbors p s a) (partition_parallel m)) g =
      execute-Returns (aggregate_neighbors p s a) g
  execute-Returns (hint (limit p n) (partition_parallel m)) g = execute-Returns (limit p n) g

  -- A value that a plan returns is of the output domain of the plan.
  pub returned_domain :
      (p : LogicalPlan) (g : GraphFrame) (v : ExecutionValue)
      → execute fl k p g ≡ ok v
      → value_domain v ≡ output_domain p
  returned_domain p g = execute-Returns p g
