-- ===== src/Executor/Limits.antt =====
-- crates/lynxes-lazy/src/query/executor/mod.rs: limits on limits.
use lynxes_mojo.Common.{◌≡◌, ◌≢◌, refl, sym, ◌∙◌, ap, ℕ, min}
use lynxes_mojo.Outcome.{Outcome, ok, err, panicked, ◌>>=◌}
use lynxes_mojo.Plan.{LogicalPlan, PlanDomain, limit, output_domain}
use lynxes_mojo.Executor.Values.{Floats}
use lynxes_mojo.Executor.Frames.{limit_nodes}
use lynxes_mojo.Executor.Frames.Limiting.{limit_edges-limit_nodes, limit_nodes-limit_nodes}
use lynxes_mojo.Executor.{
  GraphFrame, ExecutionValue, Kernels, graph, nodes, edges, pattern_rows, limited, execute,
}
use lynxes_mojo.Executor.Domains.{value_domain, returned_domain}

module _ (fl : Floats) (k : Kernels) where
  limited-limited :
      (n m : ℕ) (w : ExecutionValue)
      → value_domain w ≢ PlanDomain.graph
      → (limited fl k m w >>= limited fl k n) ≡ limited fl k (min n m) w
  limited-limited n m (graph g) no_graph = absurd (no_graph refl)
  limited-limited n m (pattern_rows b) no_graph = refl
  limited-limited n m (nodes ns) no_graph = ap (λ b. ok (nodes b)) (limit_nodes-limit_nodes ns n m)
  limited-limited n m (edges es) no_graph =
      rw
        (
          limit_edges-limit_nodes es m,
          limit_edges-limit_nodes (limit_nodes es m) n,
          limit_edges-limit_nodes es (min n m),
          limit_nodes-limit_nodes es n m,
        )
        refl

  limited_twice :
      (o : Outcome ExecutionValue) (n m : ℕ)
      → ((w : ExecutionValue) → o ≡ ok w → value_domain w ≢ PlanDomain.graph)
      → ((o >>= limited fl k m) >>= limited fl k n) ≡ (o >>= limited fl k (min n m))
  limited_twice (ok w) n m h = limited-limited n m w (h w refl)
  limited_twice (err e) n m h = refl
  limited_twice panicked n m h = refl

  -- On a plan whose output is not a graph, a limit on a limit returns what the smaller of the two
  -- limits returns, an error or a panic included.
  pub limit_on_limit :
      (p : LogicalPlan) (g : GraphFrame) (n m : ℕ)
      → output_domain p ≢ PlanDomain.graph
      → execute fl k (limit (limit p m) n) g ≡ execute fl k (limit p (min n m)) g
  unfolding execute
  limit_on_limit p g n m no_graph =
      limited_twice (execute fl k p g) n m
        (λ w run is_graph. no_graph (sym (returned_domain fl k p g w run) ∙ is_graph))
