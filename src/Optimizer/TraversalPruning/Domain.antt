-- ===== src/Optimizer/TraversalPruning/Domain.antt =====
-- crates/lynxes-core/src/query/optimizer/traversal_pruning.rs against the executor: a filter above an
-- expansion.
use lynxes_mojo.Common.{◌≡◌, ◌≢◌, refl, sym, ◌∙◌, ℕ, true, Option, some, none}
use lynxes_mojo.Direction.{Direction}
use lynxes_mojo.Outcome.{ok, >>=-eq-ok}
use lynxes_mojo.Plan.Expressions.{Expr, EdgeTypeSpec}
use lynxes_mojo.Plan.{LogicalPlan, expand, filter_nodes, output_domain, PlanDomain}
use lynxes_mojo.Executor.Values.{Floats}
use lynxes_mojo.Executor.Frames.{Batch, evaluate_predicate, filter_frame}
use lynxes_mojo.Executor.{
  GraphFrame, ExecutionValue, Kernels, graph, nodes, execute, node_input, filter_node_rows,
}
use lynxes_mojo.Optimizer.TraversalPruning.{
  is_legal_pre_filter, joined, rewrite_filter_nodes, optimize_plan,
}

graph≢nodes : (g : GraphFrame) (b : Batch) → graph g ≢ nodes b
graph≢nodes g b h = cc

module _ (fl : Floats) (k : Kernels) where
  -- A filtered plan returns nodes.
  filter_returns_nodes :
      (p : LogicalPlan) (e : Expr) (g : GraphFrame) {v : ExecutionValue}
      → execute fl k (filter_nodes p e) g ≡ ok v
      → (b : Batch) × (v ≡ nodes b)
  unfolding execute filter_node_rows
  filter_returns_nodes p e g h =
      let (value, _, h₁) = >>=-eq-ok (execute fl k p g) _ h in
      let (ns, _, h₂) = >>=-eq-ok (node_input value) _ h₁ in
      let (mask, _, h₃) = >>=-eq-ok (evaluate_predicate fl ns e) _ h₂ in
      let (kept, _, same) = >>=-eq-ok (filter_frame ns mask) _ h₃ in (kept, cc)

  -- An expansion returns a graph.
  expand_returns_graph :
      (p : LogicalPlan) (t : EdgeTypeSpec) (n : ℕ) (d : Direction) (f : Option Expr)
      (g : GraphFrame) {v : ExecutionValue}
      → execute fl k (expand p t n d f) g ≡ ok v
      → (h : GraphFrame) × (v ≡ graph h)
  unfolding execute
  expand_returns_graph p t n d f g h =
      let (value, _, h₁) = >>=-eq-ok (execute fl k p g) _ h in
      let (ns, _, h₂) = >>=-eq-ok (node_input value) _ h₁ in
      let (found, _, same) = >>=-eq-ok (k.expand_graph g ns t n d f none) _ h₂ in (found, cc)

  -- Where a filter that may be a pre-filter stands directly above an expansion, traversal pruning
  -- returns a plan of the graph domain for one of the nodes domain, and a value that the pruned plan
  -- returns is never what the plan as written returns.
  pub pruned_plan_differs :
      (p : LogicalPlan) (t : EdgeTypeSpec) (n : ℕ) (d : Direction) (f : Option Expr) (e : Expr)
      (g : GraphFrame) (v : ExecutionValue)
      → is_legal_pre_filter e ≡ true
      → execute fl k (optimize_plan (filter_nodes (expand p t n d f) e)) g ≡ ok v
      → (output_domain (filter_nodes (expand p t n d f) e) ≡ PlanDomain.nodes)
        × (output_domain (optimize_plan (filter_nodes (expand p t n d f) e)) ≡ PlanDomain.graph)
        × (execute fl k (filter_nodes (expand p t n d f) e) g ≢ ok v)
  unfolding optimize_plan rewrite_filter_nodes output_domain
  pruned_plan_differs p t n d f e g v legal pruned = (
    refl,
    rw legal refl,
    λ written.
        let (found, is_graph) =
          expand_returns_graph (optimize_plan p) t n d (some (joined f e)) g (rw legal at pruned) in
        let (rows, is_nodes) = filter_returns_nodes (expand p t n d f) e g written in
        graph≢nodes found rows (sym is_graph ∙ is_nodes),
  )
