-- ===== src/Optimizer/ProjectionPushdown/Collapse.antt =====
-- crates/lynxes-core/src/query/optimizer/projection_pushdown.rs, the collapse of two projections
-- against the executor.
use lynxes_mojo.Common.{◌≡◌, refl, ◌⊎◌, inl, inr, String, List}
use lynxes_mojo.Direction.{node_reserved_columns, edge_reserved_columns}
use lynxes_mojo.Outcome.{ok, >>=-eq-ok}
use lynxes_mojo.Plan.{
  LogicalPlan, scan, cache, hint, filter_nodes, filter_edges, project_nodes, project_edges, expand,
  traverse, pattern_match, aggregate_neighbors, sort, limit,
}
use lynxes_mojo.Executor.Values.{Floats}
use lynxes_mojo.Executor.Frames.{Batch, select_nodes, select_edges}
use lynxes_mojo.Executor.{ExecutionValue, Kernels, execute, nodes, edges, node_input, edge_input}
use lynxes_mojo.Executor.Refinement.{
  Refines, Plain, Refines-refl, project_nodes-Plain, project_edges-Plain,
}
use lynxes_mojo.Optimizer.ProjectionPushdown.{
  intersect_projection_columns, collapse_project_nodes, collapse_project_edges,
}
use lynxes_mojo.Optimizer.ProjectionPushdown.Columns.{select-select}

is_nodes : (value : ExecutionValue) (m : Batch) → ok (nodes m) ≡ ok value → value ≡ nodes m
is_nodes value m h = cc

is_edges : (value : ExecutionValue) (m : Batch) → ok (edges m) ≡ ok value → value ≡ edges m
is_edges value m h = cc

module _ (fl : Floats) (k : Kernels) where
  -- What `collapse_project_nodes` returns.
  collapse_nodes_cases :
      (q : LogicalPlan) (columns : List String)
      → (collapse_project_nodes q columns ≡ project_nodes q columns)
        ⊎ ((inner : LogicalPlan) × (inner_columns : List String) × (q
              ≡ project_nodes inner inner_columns)
            × (collapse_project_nodes q columns
                ≡ project_nodes inner (intersect_projection_columns inner_columns columns)))
  unfolding collapse_project_nodes
  collapse_nodes_cases (project_nodes p cs) columns = inr (p, cs, refl, refl)
  collapse_nodes_cases (scan a b c) columns = inl refl
  collapse_nodes_cases (cache a b) columns = inl refl
  collapse_nodes_cases (hint a b) columns = inl refl
  collapse_nodes_cases (filter_nodes a b) columns = inl refl
  collapse_nodes_cases (filter_edges a b) columns = inl refl
  collapse_nodes_cases (project_edges a b) columns = inl refl
  collapse_nodes_cases (expand a b c d f) columns = inl refl
  collapse_nodes_cases (traverse a b) columns = inl refl
  collapse_nodes_cases (pattern_match a b c) columns = inl refl
  collapse_nodes_cases (aggregate_neighbors a b c) columns = inl refl
  collapse_nodes_cases (sort a b c) columns = inl refl
  collapse_nodes_cases (limit a b) columns = inl refl

  two_nodes :
      (inner : LogicalPlan) (inner_columns columns : List String)
      → Refines fl k
          (project_nodes (project_nodes inner inner_columns) columns)
          (project_nodes inner (intersect_projection_columns inner_columns columns))
  unfolding execute
  two_nodes inner inner_columns columns g v h =
      let (value, run, h₁) = >>=-eq-ok (execute fl k (project_nodes inner inner_columns) g) _ h in
      let (start, base, h₂) = >>=-eq-ok (execute fl k inner g) _ run in
      let (ns, input, h₃) = >>=-eq-ok (node_input start) _ h₂ in
      let (m, first, same) = >>=-eq-ok (select_nodes ns inner_columns) _ h₃ in
      let (b, second, shape) =
        >>=-eq-ok (select_nodes m columns) _ (rw (is_nodes value m same) at h₁) in
      rw (base, input, select-select node_reserved_columns inner_columns columns ns m first second)
        shape

  pub collapse_project_nodes-Refines :
      (q : LogicalPlan) (columns : List String)
      → Refines fl k (project_nodes q columns) (collapse_project_nodes q columns)
  collapse_project_nodes-Refines q columns = elim (collapse_nodes_cases q columns) [
    | inl same ↦ rw same (Refines-refl fl k (project_nodes q columns))
    | inr (inner, inner_columns, shape, same) ↦
        rw (same, shape) (two_nodes inner inner_columns columns)
  ]

  pub collapse_project_nodes-Plain :
      (q : LogicalPlan) (columns : List String) → Plain fl k (collapse_project_nodes q columns)
  collapse_project_nodes-Plain q columns = elim (collapse_nodes_cases q columns) [
    | inl same ↦ rw same (project_nodes-Plain fl k q columns)
    | inr (inner, inner_columns, shape, same) ↦
        rw same
          (project_nodes-Plain fl k inner (intersect_projection_columns inner_columns columns))
  ]

  -- What `collapse_project_edges` returns.
  collapse_edges_cases :
      (q : LogicalPlan) (columns : List String)
      → (collapse_project_edges q columns ≡ project_edges q columns)
        ⊎ ((inner : LogicalPlan) × (inner_columns : List String) × (q
              ≡ project_edges inner inner_columns)
            × (collapse_project_edges q columns
                ≡ project_edges inner (intersect_projection_columns inner_columns columns)))
  unfolding collapse_project_edges
  collapse_edges_cases (project_edges p cs) columns = inr (p, cs, refl, refl)
  collapse_edges_cases (scan a b c) columns = inl refl
  collapse_edges_cases (cache a b) columns = inl refl
  collapse_edges_cases (hint a b) columns = inl refl
  collapse_edges_cases (filter_nodes a b) columns = inl refl
  collapse_edges_cases (filter_edges a b) columns = inl refl
  collapse_edges_cases (project_nodes a b) columns = inl refl
  collapse_edges_cases (expand a b c d f) columns = inl refl
  collapse_edges_cases (traverse a b) columns = inl refl
  collapse_edges_cases (pattern_match a b c) columns = inl refl
  collapse_edges_cases (aggregate_neighbors a b c) columns = inl refl
  collapse_edges_cases (sort a b c) columns = inl refl
  collapse_edges_cases (limit a b) columns = inl refl

  two_edges :
      (inner : LogicalPlan) (inner_columns columns : List String)
      → Refines fl k
          (project_edges (project_edges inner inner_columns) columns)
          (project_edges inner (intersect_projection_columns inner_columns columns))
  unfolding execute
  two_edges inner inner_columns columns g v h =
      let (value, run, h₁) = >>=-eq-ok (execute fl k (project_edges inner inner_columns) g) _ h in
      let (start, base, h₂) = >>=-eq-ok (execute fl k inner g) _ run in
      let (es, input, h₃) = >>=-eq-ok (edge_input start) _ h₂ in
      let (m, first, same) = >>=-eq-ok (select_edges es inner_columns) _ h₃ in
      let (b, second, shape) =
        >>=-eq-ok (select_edges m columns) _ (rw (is_edges value m same) at h₁) in
      rw (base, input, select-select edge_reserved_columns inner_columns columns es m first second)
        shape

  pub collapse_project_edges-Refines :
      (q : LogicalPlan) (columns : List String)
      → Refines fl k (project_edges q columns) (collapse_project_edges q columns)
  collapse_project_edges-Refines q columns = elim (collapse_edges_cases q columns) [
    | inl same ↦ rw same (Refines-refl fl k (project_edges q columns))
    | inr (inner, inner_columns, shape, same) ↦
        rw (same, shape) (two_edges inner inner_columns columns)
  ]

  pub collapse_project_edges-Plain :
      (q : LogicalPlan) (columns : List String) → Plain fl k (collapse_project_edges q columns)
  collapse_project_edges-Plain q columns = elim (collapse_edges_cases q columns) [
    | inl same ↦ rw same (project_edges-Plain fl k q columns)
    | inr (inner, inner_columns, shape, same) ↦
        rw same
          (project_edges-Plain fl k inner (intersect_projection_columns inner_columns columns))
  ]
