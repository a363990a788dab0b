-- ===== src/Optimizer/Examples.antt =====
-- crates/lynxes-core/src/query/optimizer: the theorems on the passes at plans on a graph of three
-- people.
use lynxes_mojo.Common.{◌≡◌, ◌≢◌, refl, Bool, true, false, ◌&&◌, [], ◌∷◌, map, some, none}
use lynxes_mojo.Direction.{out}
use lynxes_mojo.Outcome.{ok}
use lynxes_mojo.Plan.Expressions.{
  Expr, literal, binary_op, and_, pattern_col, gt, any, int as int_scalar,
}
use lynxes_mojo.Plan.{LogicalPlan, PlanDomain, expand, filter_nodes, limit, output_domain}
use lynxes_mojo.Executor.Values.{evaluate_binary_values, convert_scalar}
use lynxes_mojo.Executor.Frames.{select}
use lynxes_mojo.Executor.{graph, execute}
use lynxes_mojo.Executor.Examples.{
  sample_floats, sample_kernels, people, people_scan, adults, adults_plan, older_than, adults_run,
}
use lynxes_mojo.Optimizer.PredicatePushdown as Predicate
use lynxes_mojo.Optimizer.PredicatePushdown.Sound.{pushed_plan_returns}
use lynxes_mojo.Optimizer.ProjectionPushdown as Projection
use lynxes_mojo.Optimizer.ProjectionPushdown.Sound.{projected_plan_returns}
use lynxes_mojo.Optimizer.TraversalPruning as Pruning
use lynxes_mojo.Optimizer.TraversalPruning.Domain.{pruned_plan_differs}
use lynxes_mojo.Optimizer.SubgraphCaching as Caching
use lynxes_mojo.Optimizer.SubgraphCaching.{Printers}
use lynxes_mojo.Optimizer.SubgraphCaching.Stable.{fingerprint-optimize_plan, cached_plan_returns}
use lynxes_mojo.Optimizer.PatternExpansion.{split_conjuncts, combine_conjuncts, divide}
use lynxes_mojo.Optimizer.PatternExpansion.Conjuncts.{
  qualify, conjunction, all_hold, condition, condition_divided,
}
use lynxes_mojo.Optimizer.Essence.{essence}
use lynxes_mojo.Optimizer.Pipeline.{OptimizerOptions, default_options, new, run, pass_names}
use lynxes_mojo.Optimizer.Pipeline.Order.{
  run-output_domain, run-essence, run_in_order, rewritten, enabled_names, switches,
}

pushed_run :
    execute sample_floats sample_kernels (Predicate.optimize_plan adults_plan) people ≡ ok adults
unfolding execute select evaluate_binary_values convert_scalar Predicate.optimize_plan
pushed_run = refl

pushed_plan_returns_example : execute sample_floats sample_kernels adults_plan people ≡ ok adults
pushed_plan_returns_example =
    pushed_plan_returns sample_floats sample_kernels adults_plan people adults pushed_run

projected_plan_returns_example :
    execute sample_floats sample_kernels (Projection.optimize_plan adults_plan none none) people
    ≡ ok adults
projected_plan_returns_example =
    projected_plan_returns sample_floats sample_kernels adults_plan people adults adults_run

abbrev friends : LogicalPlan
friends = expand people_scan any 1 out none

legal : Pruning.is_legal_pre_filter (older_than 25) ≡ true
unfolding Pruning.is_legal_pre_filter
legal = refl

pruned_run :
    execute sample_floats sample_kernels
      (Pruning.optimize_plan (filter_nodes friends (older_than 25)))
      people
    ≡ ok (graph people)
unfolding execute Pruning.optimize_plan
pruned_run = refl

pruned_plan_differs_example :
    (output_domain (filter_nodes friends (older_than 25)) ≡ PlanDomain.nodes)
    × (output_domain (Pruning.optimize_plan (filter_nodes friends (older_than 25)))
        ≡ PlanDomain.graph)
    × (execute sample_floats sample_kernels (filter_nodes friends (older_than 25)) people
        ≢ ok (graph people))
pruned_plan_differs_example =
    pruned_plan_differs sample_floats sample_kernels people_scan any 1 out none (older_than 25)
      people (graph people) legal pruned_run

abbrev sample_printers : Printers
sample_printers = record {
  scan_columns = λ cs. "None";
  names = λ cs. "[]";
  execution_hint = λ h. "Hint";
  expr = λ e. "Expr";
  optional_expr = λ e. "None";
  edge_type_spec = λ t. "Any";
  direction = λ d. "Out";
  steps = λ s. "[]";
  pattern = λ p. "Pattern";
  agg_expr = λ a. "Count";
  number = λ n. "1";
}

abbrev limited_friends : LogicalPlan
limited_friends = limit (limit friends 5) 2

expand_key :
    Caching.fingerprint sample_printers friends
    ≡ some "expand(scan:people:nodes=None:edges=None;Any;1;Out;None)"
unfolding Caching.fingerprint
expand_key = refl

fingerprint-optimize_plan_example :
    Caching.fingerprint sample_printers (Caching.optimize_plan sample_printers limited_friends)
    ≡ Caching.fingerprint sample_printers limited_friends
fingerprint-optimize_plan_example = fingerprint-optimize_plan sample_printers limited_friends

cached_plan_returns_example :
    execute sample_floats sample_kernels
      (Caching.optimize_plan sample_printers limited_friends)
      people
    ≡ execute sample_floats sample_kernels limited_friends people
cached_plan_returns_example =
    cached_plan_returns sample_printers sample_floats sample_kernels people limited_friends tt

abbrev root_older : Expr
root_older = binary_op (pattern_col "a" "age") gt (literal (int_scalar 30))

abbrev friend_older : Expr
friend_older = binary_op (pattern_col "b" "age") gt (literal (int_scalar 40))

abbrev all_true : Expr → Bool
all_true e = true

condition_divided_example : conjunction all_true (and_ root_older friend_older) ≡ (
    all_hold all_true
      (map (qualify "a") (divide (split_conjuncts (and_ root_older friend_older)) "a").0)
    && condition all_true
        (combine_conjuncts (divide (split_conjuncts (and_ root_older friend_older)) "a").1))
condition_divided_example = condition_divided all_true (and_ root_older friend_older) "a"

abbrev no_pruning : OptimizerOptions
no_pruning = record default_options {
  traversal_pruning = false;
  early_termination = true;
  partition_parallel = true;
}

run-output_domain_example :
    output_domain (run (new sample_printers no_pruning) limited_friends)
    ≡ output_domain limited_friends
run-output_domain_example = run-output_domain sample_printers no_pruning limited_friends refl

abbrev hints_only : OptimizerOptions
hints_only = record no_pruning {
  predicate_pushdown = false;
  projection_pushdown = false;
  pattern_expansion = false;
  subgraph_caching = true;
}

run-essence_example :
    essence (run (new sample_printers hints_only) limited_friends) ≡ essence limited_friends
run-essence_example = run-essence sample_printers hints_only limited_friends refl refl refl refl

run_in_order_example :
    (run (new sample_printers no_pruning) limited_friends
      ≡ rewritten sample_printers no_pruning limited_friends)
    × (pass_names (new sample_printers no_pruning) ≡ enabled_names (switches no_pruning))
run_in_order_example = run_in_order sample_printers no_pruning limited_friends

default_order :
    pass_names (new sample_printers default_options)
    ≡ "PredicatePushdown" ∷ "ProjectionPushdown" ∷ "TraversalPruning" ∷ "PatternExpansion" ∷ []
unfolding new pass_names
default_order = refl
