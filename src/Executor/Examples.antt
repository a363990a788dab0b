-- ===== src/Executor/Examples.antt =====
-- crates/lynxes-lazy/src/query/executor/mod.rs: a graph of three people, kernels that give back their
-- frontier, and the theorems on the executor at them.
use Prim.Native.Nat.{compare}
use lynxes_mojo.Common.{
  ℕ, String, ◌≡◌, ◌≢◌, refl, ◌+◌, ◌-◌, ◌*◌, List, [], ◌∷◌, ◌==◌, some, none, str_eq, min,
  if◌then◌else◌,
}
use lynxes_mojo.Outcome.{ok}
use lynxes_mojo.Plan.Expressions.{Expr, col, literal, binary_op, gt, int as int_scalar}
use lynxes_mojo.Plan.{
  LogicalPlan, PlanDomain, scan, filter_nodes, project_nodes, limit, output_domain,
}
use lynxes_mojo.Executor.Values.{Floats, string, int, null, evaluate_binary_values, convert_scalar}
use lynxes_mojo.Executor.Frames.{Row, select}
use lynxes_mojo.Executor.{GraphFrame, ExecutionValue, Kernels, nodes, execute}
use lynxes_mojo.Executor.Domains.{value_domain, returned_domain}
use lynxes_mojo.Executor.Limits.{limit_on_limit}

abbrev pub sample_floats : Floats
sample_floats = record {
  of_int = λ n. n;
  to_int = λ n. n;
  add = ◌+◌;
  sub = ◌-◌;
  mul = ◌*◌;
  div = λ a b. a;
  neg = λ a. a;
  equal = ◌==◌;
  partial_cmp = λ a b. some (compare a b);
}

abbrev pub sample_kernels : Kernels
sample_kernels = record {
  expand_graph = λ g ns t n d f stop_at. ok (record { nodes = ns; edges = g.edges });
  expand_shards = λ g ns t n d f. ok (record { nodes = ns; edges = g.edges });
  traverse_graph = λ g ns steps stop_at. ok (record { nodes = ns; edges = g.edges });
  execute_pattern_match = λ g ns pattern where_. ok ns;
  aggregate_neighbors = λ g ns edge_type agg. ok ns;
  subgraph = λ g ids. ok g;
  sort_frame = λ b by descending. ok b;
  top_k_frame = λ b by descending n. ok b;
}

abbrev person : String → ℕ → Row
person id age name =
    if str_eq name "_id"
    then ok (string id)
    else if str_eq name "age"
    then ok (int age)
    else ok null

abbrev pub people_columns : List String
people_columns = "_id" ∷ "_label" ∷ "age" ∷ []

abbrev pub people : GraphFrame
people = record {
  nodes = record {
    columns = people_columns;
    rows = person "alice" 30 ∷ person "bob" 20 ∷ person "carol" 40 ∷ [];
  };
  edges = record { columns = "_src" ∷ "_dst" ∷ "_type" ∷ "_direction" ∷ []; rows = [] };
}

abbrev pub adults : ExecutionValue
adults =
    nodes (record { columns = people_columns; rows = person "alice" 30 ∷ person "carol" 40 ∷ [] })

abbrev pub people_scan : LogicalPlan
people_scan = scan (record { cache_source_key = some "people" }) none none

abbrev pub older_than : ℕ → Expr
older_than n = binary_op (col "age") gt (literal (int_scalar n))

abbrev pub adults_plan : LogicalPlan
adults_plan = filter_nodes (project_nodes people_scan ("age" ∷ [])) (older_than 25)

pub adults_run : execute sample_floats sample_kernels adults_plan people ≡ ok adults
unfolding execute select evaluate_binary_values convert_scalar
adults_run = refl

returned_domain_example : value_domain adults ≡ output_domain adults_plan
returned_domain_example =
    returned_domain sample_floats sample_kernels adults_plan people adults adults_run

nodes≢graph : output_domain adults_plan ≢ PlanDomain.graph
unfolding output_domain
nodes≢graph h = cc

limit_on_limit_example :
    execute sample_floats sample_kernels (limit (limit adults_plan 5) 1) people
    ≡ execute sample_floats sample_kernels (limit adults_plan (min 1 5)) people
limit_on_limit_example =
    limit_on_limit sample_floats sample_kernels adults_plan people 1 5 nodes≢graph
