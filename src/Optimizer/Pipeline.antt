-- ===== src/Optimizer/Pipeline.antt =====
-- crates/lynxes-core/src/query/optimizer/mod.rs: the passes in their order, and their switches.
-- A boxed pass is its name and its function; `print` is the parameter of subgraph caching.
pub mod Views
pub mod Order
use mathlib.Core.List.{foldl}
use lynxes_mojo.Common.{String, Bool, true, false, List, [], ◌∷◌, ◌++◌, map, none, if◌then◌else◌}
use lynxes_mojo.Plan.{LogicalPlan}
use lynxes_mojo.Optimizer.PredicatePushdown as Predicate
use lynxes_mojo.Optimizer.ProjectionPushdown as Projection
use lynxes_mojo.Optimizer.TraversalPruning as Pruning
use lynxes_mojo.Optimizer.SubgraphCaching as Caching
use lynxes_mojo.Optimizer.SubgraphCaching.{Printers}
use lynxes_mojo.Optimizer.EarlyTermination as Early
use lynxes_mojo.Optimizer.PartitionParallel as Parallel
use lynxes_mojo.Optimizer.PatternExpansion as Expansion

pub record OptimizerPass : Type 0 where
  pub name : String
  pub optimize : LogicalPlan → LogicalPlan

pub record OptimizerOptions : Type 0 where
  pub predicate_pushdown : Bool
  pub projection_pushdown : Bool
  pub traversal_pruning : Bool
  pub subgraph_caching : Bool
  pub early_termination : Bool
  pub partition_parallel : Bool
  pub pattern_expansion : Bool

abbrev pub default_options : OptimizerOptions
default_options = record {
  predicate_pushdown = true;
  projection_pushdown = true;
  traversal_pruning = true;
  subgraph_caching = false;
  early_termination = false;
  partition_parallel = false;
  pattern_expansion = true;
}

-- `if enabled { passes.push(pass) }`
unfoldable pub push_if : Bool → OptimizerPass → List OptimizerPass → List OptimizerPass
push_if enabled pass passes = if enabled then passes ++ pass ∷ [] else passes

abbrev pub predicate_pass : OptimizerPass
predicate_pass = record { name = "PredicatePushdown"; optimize = Predicate.optimize_plan }

abbrev pub projection_pass : OptimizerPass
projection_pass = record {
  name = "ProjectionPushdown";
  optimize = λ p. Projection.optimize_plan p none none;
}

abbrev pub pruning_pass : OptimizerPass
pruning_pass = record { name = "TraversalPruning"; optimize = Pruning.optimize_plan }

abbrev pub caching_pass : Printers → OptimizerPass
caching_pass print = record { name = "SubgraphCaching"; optimize = Caching.optimize_plan print }

abbrev pub early_pass : OptimizerPass
early_pass = record { name = "EarlyTermination"; optimize = Early.optimize_plan }

abbrev pub parallel_pass : OptimizerPass
parallel_pass = record { name = "PartitionParallel"; optimize = Parallel.optimize_plan }

abbrev pub expansion_pass : OptimizerPass
expansion_pass = record { name = "PatternExpansion"; optimize = Expansion.optimize_plan }

-- `Optimizer::new`
unfoldable pub new : Printers → OptimizerOptions → List OptimizerPass
unfolding push_if
new print options = push_if options.pattern_expansion expansion_pass (
    push_if options.partition_parallel parallel_pass (
      push_if options.early_termination early_pass (
        push_if options.subgraph_caching (caching_pass print) (
          push_if options.traversal_pruning pruning_pass (
            push_if options.projection_pushdown projection_pass
              (push_if options.predicate_pushdown predicate_pass []))))))

unfoldable pub run : List OptimizerPass → LogicalPlan → LogicalPlan
run passes plan = foldl (λ p pass. pass.optimize p) plan passes

unfoldable pub pass_names : List OptimizerPass → List String
pass_names passes = map (λ pass. pass.name) passes
