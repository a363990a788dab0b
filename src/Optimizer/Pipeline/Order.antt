-- ===== src/Optimizer/Pipeline/Order.antt =====
-- crates/lynxes-core/src/query/optimizer/mod.rs: which passes run, in which order, and the output
-- domain of what they return.
use mathlib.Core.List.{append-nil}
use lynxes_mojo.Common.{
  ◌≡◌, refl, ap, sym, ◌∙◌, String, Bool, true, false, List, [], ◌∷◌, ◌++◌, map, none, filter, take,
}
use lynxes_mojo.Plan.{LogicalPlan, output_domain}
use lynxes_mojo.Optimizer.SubgraphCaching.{Printers}
use lynxes_mojo.Optimizer.Domains.Moves.{
  predicate_pushdown-domain, projection_pushdown-domain, pattern_expansion-domain,
}
use lynxes_mojo.Optimizer.Domains.Hints.{
  subgraph_caching-domain, early_termination-domain, partition_parallel-domain,
}
use lynxes_mojo.Optimizer.Essence.{
  essence, subgraph_caching-essence, early_termination-essence, partition_parallel-essence,
}
use lynxes_mojo.Optimizer.PredicatePushdown as Predicate
use lynxes_mojo.Optimizer.ProjectionPushdown as Projection
use lynxes_mojo.Optimizer.TraversalPruning as Pruning
use lynxes_mojo.Optimizer.SubgraphCaching as Caching
use lynxes_mojo.Optimizer.EarlyTermination as Early
use lynxes_mojo.Optimizer.PartitionParallel as Parallel
use lynxes_mojo.Optimizer.PatternExpansion as Expansion
use lynxes_mojo.Optimizer.Pipeline.Views.{
  switched, push_if-switched, push_if-RunKeeps, push_if-disabled, nil-RunKeeps,
}
use lynxes_mojo.Optimizer.Pipeline.{
  OptimizerPass, OptimizerOptions, push_if, predicate_pass, projection_pass, pruning_pass,
  caching_pass, early_pass, parallel_pass, expansion_pass, new, run, pass_names,
}

-- Without traversal pruning, the optimizer returns a plan of the output domain that the given plan
-- has, whichever of the other six passes are enabled.
pub run-output_domain :
    (print : Printers) (options : OptimizerOptions) (p : LogicalPlan)
    → options.traversal_pruning ≡ false
    → output_domain (run (new print options) p) ≡ output_domain p
unfolding new
run-output_domain print options p off =
    push_if-RunKeeps output_domain options.pattern_expansion expansion_pass _
      pattern_expansion-domain
      (push_if-RunKeeps output_domain options.partition_parallel parallel_pass _
        partition_parallel-domain
        (push_if-RunKeeps output_domain options.early_termination early_pass _
          early_termination-domain
          (push_if-RunKeeps output_domain options.subgraph_caching (caching_pass print) _
            (subgraph_caching-domain print)
            (push_if-disabled output_domain options.traversal_pruning pruning_pass _ off (
              push_if-RunKeeps output_domain options.projection_pushdown projection_pass _
                (λ q. projection_pushdown-domain q none none)
                (push_if-RunKeeps output_domain options.predicate_pushdown predicate_pass []
                  predicate_pushdown-domain (nil-RunKeeps output_domain)))))))
      p

-- With the rewrites of filters, projections, expansions and patterns disabled, the optimizer changes
-- a plan by caches, hints and merged limits only: without them, the plan that it returns is the
-- plan that it was given.
pub run-essence :
    (print : Printers) (options : OptimizerOptions) (p : LogicalPlan)
    → options.predicate_pushdown ≡ false
    → options.projection_pushdown ≡ false
    → options.traversal_pruning ≡ false
    → options.pattern_expansion ≡ false
    → essence (run (new print options) p) ≡ essence p
unfolding new
run-essence print options p off₁ off₂ off₃ off₄ =
    push_if-disabled essence options.pattern_expansion expansion_pass _ off₄
      (push_if-RunKeeps essence options.partition_parallel parallel_pass _
        partition_parallel-essence
        (push_if-RunKeeps essence options.early_termination early_pass _ early_termination-essence (
          push_if-RunKeeps essence options.subgraph_caching (caching_pass print) _
            (subgraph_caching-essence print)
            (push_if-disabled essence options.traversal_pruning pruning_pass _ off₃ (
              push_if-disabled essence options.projection_pushdown projection_pass _ off₂ (
                push_if-disabled essence options.predicate_pushdown predicate_pass [] off₁
                  (nil-RunKeeps essence)))))))
      p

abbrev pub NamedSwitch : Type 0
NamedSwitch = String × Bool

-- The canonical order, with the switch of each name.
abbrev pub switches : OptimizerOptions → List NamedSwitch
switches o =
    ("PredicatePushdown", o.predicate_pushdown)
    ∷ ("ProjectionPushdown", o.projection_pushdown)
    ∷ ("TraversalPruning", o.traversal_pruning)
    ∷ ("SubgraphCaching", o.subgraph_caching)
    ∷ ("EarlyTermination", o.early_termination)
    ∷ ("PartitionParallel", o.partition_parallel)
    ∷ ("PatternExpansion", o.pattern_expansion)
    ∷ []

abbrev pub enabled_names : List NamedSwitch → List String
enabled_names switches = map (λ s. s.0) (filter (λ s. s.1) switches)

enabled-append :
    (sw : List NamedSwitch) (name : String) (b : Bool)
    → enabled_names (sw ++ (name, b) ∷ []) ≡ enabled_names sw ++ enabled_names ((name, b) ∷ [])
enabled-append [] name b = refl
enabled-append ((first, true) ∷ sw) name b = ap (λ ns. first ∷ ns) (enabled-append sw name b)
enabled-append ((first, false) ∷ sw) name b = enabled-append sw name b

names-append :
    (passes : List OptimizerPass) (pass : OptimizerPass)
    → pass_names (passes ++ pass ∷ []) ≡ pass_names passes ++ pass.name ∷ []
unfolding pass_names
names-append [] pass = refl
names-append (first ∷ passes) pass = ap (λ ns. first.name ∷ ns) (names-append passes pass)

-- The passes carry the names of the switches that are on.
abbrev Named : List OptimizerPass → List NamedSwitch → Type 0
Named passes sw = pass_names passes ≡ enabled_names sw

push_if-Named :
    (enabled : Bool) (pass : OptimizerPass) (passes : List OptimizerPass) (sw : List NamedSwitch)
    → Named passes sw
    → Named (push_if enabled pass passes) (sw ++ (pass.name, enabled) ∷ [])
unfolding push_if
push_if-Named true pass passes sw h =
    names-append passes pass
    ∙ ap (λ ns. ns ++ pass.name ∷ []) h
    ∙ sym (enabled-append sw pass.name true)
push_if-Named false pass passes sw h =
    h ∙ sym (enabled-append sw pass.name false ∙ append-nil (enabled_names sw))

nothing-Named : Named [] []
unfolding pass_names
nothing-Named = refl

new_names :
    (print : Printers) (options : OptimizerOptions)
    → pass_names (new print options) ≡ enabled_names (switches options)
unfolding new
new_names print o = push_if-Named o.pattern_expansion expansion_pass _ (take 6 (switches o)) (
    push_if-Named o.partition_parallel parallel_pass _ (take 5 (switches o)) (
      push_if-Named o.early_termination early_pass _ (take 4 (switches o)) (
        push_if-Named o.subgraph_caching (caching_pass print) _ (take 3 (switches o)) (
          push_if-Named o.traversal_pruning pruning_pass _ (take 2 (switches o)) (
            push_if-Named o.projection_pushdown projection_pass _ (take 1 (switches o))
              (push_if-Named o.predicate_pushdown predicate_pass [] [] nothing-Named))))))

-- The enabled rewrites of the seven modules, one after the other.
abbrev pub rewritten : Printers → OptimizerOptions → LogicalPlan → LogicalPlan
rewritten print o p =
    let filters_pushed = switched o.predicate_pushdown Predicate.optimize_plan p in
    let columns_pushed =
      switched o.projection_pushdown (λ q. Projection.optimize_plan q none none) filters_pushed in
    let pruned = switched o.traversal_pruning Pruning.optimize_plan columns_pushed in
    let cached = switched o.subgraph_caching (Caching.optimize_plan print) pruned in
    let ended_early = switched o.early_termination Early.optimize_plan cached in
    let divided = switched o.partition_parallel Parallel.optimize_plan ended_early in
    switched o.pattern_expansion Expansion.optimize_plan divided

-- The optimizer returns what the rewrites of the seven modules make of the plan, one after the other
-- in the canonical order and each where its switch is on, and the passes that it runs carry the names
-- of the switches that are on, in that order.
pub run_in_order :
    (print : Printers) (options : OptimizerOptions) (p : LogicalPlan)
    → (run (new print options) p ≡ rewritten print options p)
      × (pass_names (new print options) ≡ enabled_names (switches options))
unfolding new run
run_in_order print o p = (
  push_if-switched o.pattern_expansion expansion_pass _ p
      ∙ ap (switched o.pattern_expansion Expansion.optimize_plan) (
          push_if-switched o.partition_parallel parallel_pass _ p
          ∙ ap (switched o.partition_parallel Parallel.optimize_plan) (
              push_if-switched o.early_termination early_pass _ p
              ∙ ap (switched o.early_termination Early.optimize_plan) (
                  push_if-switched o.subgraph_caching (caching_pass print) _ p
                  ∙ ap (switched o.subgraph_caching (Caching.optimize_plan print)) (
                      push_if-switched o.traversal_pruning pruning_pass _ p
                      ∙ ap (switched o.traversal_pruning Pruning.optimize_plan) (
                          push_if-switched o.projection_pushdown projection_pass _ p
                          ∙ ap
                              (switched o.projection_pushdown
                                (λ q. Projection.optimize_plan q none none))
                              (push_if-switched o.predicate_pushdown predicate_pass [] p)))))),
  new_names print o,
)
