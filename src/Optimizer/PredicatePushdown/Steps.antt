-- ===== src/Optimizer/PredicatePushdown/Steps.antt =====
-- crates/lynxes-core/src/query/optimizer/predicate_pushdown.rs against the executor: one step of the
-- pass, a merged filter or a filter moved below a projection.
use lynxes_mojo.Common.{◌≡◌, refl, ap, sym, ◌∙◌, String, true, List}
use lynxes_mojo.Direction.{node_reserved_columns, edge_reserved_columns}
use lynxes_mojo.Outcome.{ok, >>=-eq-ok}
use lynxes_mojo.Plan.Expressions.{Expr, and_}
use lynxes_mojo.Plan.{LogicalPlan, filter_nodes, filter_edges, project_nodes, project_edges}
use lynxes_mojo.Executor.Values.{Floats}
use lynxes_mojo.Executor.Frames.{
  Batch, evaluate_predicate, filter_frame, select_nodes, select_edges,
}
use lynxes_mojo.Executor.{
  ExecutionValue, Kernels, execute, nodes, edges, node_input, edge_input, filter_node_rows,
  filter_edge_rows,
}
use lynxes_mojo.Executor.Refinement.{Refines}
use lynxes_mojo.Optimizer.Columns.{
  node_available_columns, edge_available_columns, predicate_uses_only_columns,
}
use lynxes_mojo.Optimizer.PredicatePushdown.Filters.{
  filtered, filtered-and, filtered-select, node_available, edge_available,
}

module _ (fl : Floats) where
  node_rows-inv :
      (e : Expr) (ns : Batch) {v : ExecutionValue}
      → filter_node_rows fl e ns ≡ ok v
      → (b : Batch) × (filtered fl e ns ≡ ok b) × (v ≡ nodes b)
  unfolding filter_node_rows
  node_rows-inv e ns h =
      let (mask, run, h₁) = >>=-eq-ok (evaluate_predicate fl ns e) _ h in
      let (b, kept, h₂) = >>=-eq-ok (filter_frame ns mask) _ h₁ in (b, rw run kept, cc)

  node_rows-intro :
      (e : Expr) (ns b : Batch) → filtered fl e ns ≡ ok b → filter_node_rows fl e ns ≡ ok (nodes b)
  unfolding filter_node_rows
  node_rows-intro e ns b h =
      let (mask, run, h₁) = >>=-eq-ok (evaluate_predicate fl ns e) _ h in rw (run, h₁) refl

  edge_rows-inv :
      (e : Expr) (es : Batch) {v : ExecutionValue}
      → filter_edge_rows fl e es ≡ ok v
      → (b : Batch) × (filtered fl e es ≡ ok b) × (v ≡ edges b)
  unfolding filter_edge_rows
  edge_rows-inv e es h =
      let (mask, run, h₁) = >>=-eq-ok (evaluate_predicate fl es e) _ h in
      let (b, kept, h₂) = >>=-eq-ok (filter_frame es mask) _ h₁ in (b, rw run kept, cc)

  edge_rows-intro :
      (e : Expr) (es b : Batch) → filtered fl e es ≡ ok b → filter_edge_rows fl e es ≡ ok (edges b)
  unfolding filter_edge_rows
  edge_rows-intro e es b h =
      let (mask, run, h₁) = >>=-eq-ok (evaluate_predicate fl es e) _ h in rw (run, h₁) refl

module _ (fl : Floats) (k : Kernels) where
  pub merge_nodes :
      (p : LogicalPlan) (existing e : Expr)
      → Refines fl k (filter_nodes p (and_ existing e)) (filter_nodes (filter_nodes p existing) e)
  unfolding execute
  merge_nodes p existing e g v h =
      let (value, run, h₁) = >>=-eq-ok (execute fl k p g) _ h in
      let (ns, input, h₂) = >>=-eq-ok (node_input value) _ h₁ in
      let (b, kept, same) = node_rows-inv fl (and_ existing e) ns h₂ in
      let (m, first, second) = filtered-and fl existing e ns kept in
      rw (run, input, node_rows-intro fl existing ns m first)
        (node_rows-intro fl e m b second ∙ ap ok (sym same))

  pub merge_edges :
      (p : LogicalPlan) (existing e : Expr)
      → Refines fl k (filter_edges p (and_ existing e)) (filter_edges (filter_edges p existing) e)
  unfolding execute
  merge_edges p existing e g v h =
      let (value, run, h₁) = >>=-eq-ok (execute fl k p g) _ h in
      let (es, input, h₂) = >>=-eq-ok (edge_input value) _ h₁ in
      let (b, kept, same) = edge_rows-inv fl (and_ existing e) es h₂ in
      let (m, first, second) = filtered-and fl existing e es kept in
      rw (run, input, edge_rows-intro fl existing es m first)
        (edge_rows-intro fl e m b second ∙ ap ok (sym same))

  pub push_nodes :
      (p : LogicalPlan) (columns : List String) (e : Expr)
      → predicate_uses_only_columns e (node_available_columns columns) ≡ true
      → Refines fl k
          (project_nodes (filter_nodes p e) columns)
          (filter_nodes (project_nodes p columns) e)
  unfolding execute
  push_nodes p columns e uses g v h =
      let (value, run, h₁) = >>=-eq-ok (execute fl k (filter_nodes p e) g) _ h in
      let (start, base, h₂) = >>=-eq-ok (execute fl k p g) _ run in
      let (ns, input, h₃) = >>=-eq-ok (node_input start) _ h₂ in
      let (m, first, same) = node_rows-inv fl e ns h₃ in
      let (b, second, shape) = >>=-eq-ok (select_nodes m columns) _ (rw same at h₁) in
      let (s, before, after) =
        filtered-select fl node_reserved_columns (node_available_columns columns) columns e ns m
          (node_available columns) uses first second in
      rw (base, input, before) (node_rows-intro fl e s b after ∙ shape)

  pub push_edges :
      (p : LogicalPlan) (columns : List String) (e : Expr)
      → predicate_uses_only_columns e (edge_available_columns columns) ≡ true
      → Refines fl k
          (project_edges (filter_edges p e) columns)
          (filter_edges (project_edges p columns) e)
  unfolding execute
  push_edges p columns e uses g v h =
      let (value, run, h₁) = >>=-eq-ok (execute fl k (filter_edges p e) g) _ h in
      let (start, base, h₂) = >>=-eq-ok (execute fl k p g) _ run in
      let (es, input, h₃) = >>=-eq-ok (edge_input start) _ h₂ in
      let (m, first, same) = edge_rows-inv fl e es h₃ in
      let (b, second, shape) = >>=-eq-ok (select_edges m columns) _ (rw same at h₁) in
      let (s, before, after) =
        filtered-select fl edge_reserved_columns (edge_available_columns columns) columns e es m
          (edge_available columns) uses first second in
      rw (base, input, before) (edge_rows-intro fl e s b after ∙ shape)
