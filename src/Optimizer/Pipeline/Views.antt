-- ===== src/Optimizer/Pipeline/Views.antt =====
-- crates/lynxes-core/src/query/optimizer/mod.rs: the passes in turn, and what is looked at in a plan.
use lynxes_mojo.Common.{◌≡◌, refl, ap, ◌∙◌, Bool, true, false, List, [], ◌∷◌, ◌++◌}
use lynxes_mojo.Plan.{LogicalPlan}
use lynxes_mojo.Optimizer.Pipeline.{OptimizerPass, push_if, run}

run-append :
    (passes : List OptimizerPass) (pass : OptimizerPass) (p : LogicalPlan)
    → run (passes ++ pass ∷ []) p ≡ pass.optimize (run passes p)
unfolding run
run-append [] pass p = refl
run-append (first ∷ passes) pass p = run-append passes pass (first.optimize p)

-- `view` is what is looked at in a plan.
module _ {A : Type 0} (view : LogicalPlan → A) where
  abbrev pub Keeps : OptimizerPass → Type 0
  Keeps pass = (p : LogicalPlan) → view (pass.optimize p) ≡ view p

  abbrev pub RunKeeps : List OptimizerPass → Type 0
  RunKeeps passes = (p : LogicalPlan) → view (run passes p) ≡ view p

  pub push_if-RunKeeps :
      (enabled : Bool) (pass : OptimizerPass) (passes : List OptimizerPass)
      → Keeps pass
      → RunKeeps passes
      → RunKeeps (push_if enabled pass passes)
  unfolding push_if
  push_if-RunKeeps true pass passes one all p =
      ap view (run-append passes pass p) ∙ one (run passes p) ∙ all p
  push_if-RunKeeps false pass passes one all p = all p

  pub push_if-disabled :
      (enabled : Bool) (pass : OptimizerPass) (passes : List OptimizerPass)
      → enabled ≡ false
      → RunKeeps passes
      → RunKeeps (push_if enabled pass passes)
  unfolding push_if
  push_if-disabled true pass passes off all = absurd cc
  push_if-disabled false pass passes off all = all

  pub nil-RunKeeps : RunKeeps []
  unfolding run
  nil-RunKeeps p = refl

-- What a switch makes of a rewrite.
abbrev pub switched : Bool → (LogicalPlan → LogicalPlan) → LogicalPlan → LogicalPlan
switched true rewrite p = rewrite p
switched false rewrite p = p

pub push_if-switched :
    (enabled : Bool) (pass : OptimizerPass) (passes : List OptimizerPass) (p : LogicalPlan)
    → run (push_if enabled pass passes) p ≡ switched enabled pass.optimize (run passes p)
unfolding push_if
push_if-switched true pass passes p = run-append passes pass p
push_if-switched false pass passes p = refl
