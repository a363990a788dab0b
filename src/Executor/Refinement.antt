-- ===== src/Executor/Refinement.antt =====
-- crates/lynxes-lazy/src/query/executor/mod.rs: a plan implements another one if it returns only what
-- the other returns.
use lynxes_mojo.Common.{◌≡◌, refl, ℕ, String, Bool, Option, List}
use lynxes_mojo.Direction.{Direction}
use lynxes_mojo.Outcome.{Outcome, ok, ◌>>=◌, >>=-eq-ok}
use lynxes_mojo.Plan.Expressions.{Expr, AggExpr, EdgeTypeSpec, PatternStep, Pattern}
use lynxes_mojo.Plan.{
  LogicalPlan, ExecutionHint, cache, hint, filter_nodes, filter_edges, project_nodes, project_edges,
  expand, traverse, pattern_match, aggregate_neighbors, sort, limit, top_k, limit_aware,
  partition_parallel,
}
use lynxes_mojo.Executor.Values.{Floats}
use lynxes_mojo.Executor.{GraphFrame, Kernels, execute}

-- The first result is the second one's wherever it is a value.
abbrev pub Below {ℓ} : {A : Type ℓ} → Outcome A → Outcome A → Type ℓ
Below {A = A} m n = (v : A) → m ≡ ok v → n ≡ ok v

pub >>=-Below {ℓ κ} :
    {A : Type ℓ} {B : Type κ} (m n : Outcome A) (f : A → Outcome B)
    → Below m n
    → Below (m >>= f) (n >>= f)
>>=-Below m n f below v h = let (a, first, rest) = >>=-eq-ok m f h in rw (below a first) rest

module _ (fl : Floats) (k : Kernels) where
  abbrev pub Refines : LogicalPlan → LogicalPlan → Type 0
  Refines p q = (g : GraphFrame) → Below (execute fl k p g) (execute fl k q g)

  abbrev pub Plain : LogicalPlan → Type 0
  Plain p = (h : ExecutionHint) (g : GraphFrame) → execute fl k (hint p h) g ≡ execute fl k p g

  pub Refines-refl : (p : LogicalPlan) → Refines p p
  Refines-refl p g v h = h

  pub Refines-trans : (p q r : LogicalPlan) → Refines p q → Refines q r → Refines p r
  Refines-trans p q r f s g v h = s g v (f g v h)

  pub filter_nodes-Plain : (p : LogicalPlan) (e : Expr) → Plain (filter_nodes p e)
  unfolding execute
  filter_nodes-Plain p e (top_k n) g = refl
  filter_nodes-Plain p e (limit_aware n) g = refl
  filter_nodes-Plain p e (partition_parallel s) g = refl

  pub filter_edges-Plain : (p : LogicalPlan) (e : Expr) → Plain (filter_edges p e)
  unfolding execute
  filter_edges-Plain p e (top_k n) g = refl
  filter_edges-Plain p e (limit_aware n) g = refl
  filter_edges-Plain p e (partition_parallel s) g = refl

  pub project_nodes-Plain : (p : LogicalPlan) (cs : List String) → Plain (project_nodes p cs)
  unfolding execute
  project_nodes-Plain p cs (top_k n) g = refl
  project_nodes-Plain p cs (limit_aware n) g = refl
  project_nodes-Plain p cs (partition_parallel s) g = refl

  pub project_edges-Plain : (p : LogicalPlan) (cs : List String) → Plain (project_edges p cs)
  unfolding execute
  project_edges-Plain p cs (top_k n) g = refl
  project_edges-Plain p cs (limit_aware n) g = refl
  project_edges-Plain p cs (partition_parallel s) g = refl

  pub cache-Plain : (p : LogicalPlan) (s : String) → Plain (cache p s)
  unfolding execute
  cache-Plain p s (top_k m) g = refl
  cache-Plain p s (limit_aware m) g = refl
  cache-Plain p s (partition_parallel m) g = refl

  pub hint-Plain : (p : LogicalPlan) (i : ExecutionHint) → Plain (hint p i)
  unfolding execute
  hint-Plain p i (top_k m) g = refl
  hint-Plain p i (limit_aware m) g = refl
  hint-Plain p i (partition_parallel m) g = refl

  pub pattern_match-Plain :
      (p : LogicalPlan) (s : Pattern) (w : Option Expr) → Plain (pattern_match p s w)
  unfolding execute
  pattern_match-Plain p s w (top_k m) g = refl
  pattern_match-Plain p s w (limit_aware m) g = refl
  pattern_match-Plain p s w (partition_parallel m) g = refl

  pub aggregate_neighbors-Plain :
      (p : LogicalPlan) (s : String) (a : AggExpr) → Plain (aggregate_neighbors p s a)
  unfolding execute
  aggregate_neighbors-Plain p s a (top_k m) g = refl
  aggregate_neighbors-Plain p s a (limit_aware m) g = refl
  aggregate_neighbors-Plain p s a (partition_parallel m) g = refl

  pub limit-Plain : (p : LogicalPlan) (n : ℕ) → Plain (limit p n)
  unfolding execute
  limit-Plain p n (top_k m) g = refl
  limit-Plain p n (limit_aware m) g = refl
  limit-Plain p n (partition_parallel m) g = refl

  module _ (p q : LogicalPlan) (below : Refines p q) where
    pub cache-Refines : (s : String) → Refines (cache p s) (cache q s)
    unfolding execute
    cache-Refines s = below

    pub filter_nodes-Refines : (e : Expr) → Refines (filter_nodes p e) (filter_nodes q e)
    unfolding execute
    filter_nodes-Refines e g = >>=-Below _ _ _ (below g)

    pub filter_edges-Refines : (e : Expr) → Refines (filter_edges p e) (filter_edges q e)
    unfolding execute
    filter_edges-Refines e g = >>=-Below _ _ _ (below g)

    pub project_nodes-Refines :
        (cs : List String) → Refines (project_nodes p cs) (project_nodes q cs)
    unfolding execute
    project_nodes-Refines cs g = >>=-Below _ _ _ (below g)

    pub project_edges-Refines :
        (cs : List String) → Refines (project_edges p cs) (project_edges q cs)
    unfolding execute
    project_edges-Refines cs g = >>=-Below _ _ _ (below g)

    pub expand-Refines :
        (t : EdgeTypeSpec) (n : ℕ) (d : Direction) (f : Option Expr)
        → Refines (expand p t n d f) (expand q t n d f)
    unfolding execute
    expand-Refines t n d f g = >>=-Below _ _ _ (below g)

    pub traverse-Refines : (s : List PatternStep) → Refines (traverse p s) (traverse q s)
    unfolding execute
    traverse-Refines s g = >>=-Below _ _ _ (below g)

    pub pattern_match-Refines :
        (s : Pattern) (w : Option Expr) → Refines (pattern_match p s w) (pattern_match q s w)
    unfolding execute
    pattern_match-Refines s w g = >>=-Below _ _ _ (below g)

    pub aggregate_neighbors-Refines :
        (s : String) (a : AggExpr) → Refines (aggregate_neighbors p s a) (aggregate_neighbors q s a)
    unfolding execute
    aggregate_neighbors-Refines s a g = >>=-Below _ _ _ (below g)

    pub sort-Refines : (by : String) (b : Bool) → Refines (sort p by b) (sort q by b)
    unfolding execute
    sort-Refines by b g = >>=-Below _ _ _ (below g)

    pub limit-Refines : (n : ℕ) → Refines (limit p n) (limit q n)
    unfolding execute
    limit-Refines n g = >>=-Below _ _ _ (below g)

    -- Hints are read above the plan nodes that the executor matches them with, and above no other.
    pub Plain-Refines : (h : ExecutionHint) → Plain p → Plain q → Refines (hint p h) (hint q h)
    Plain-Refines h plain plain' g v run = rw (plain' h g) (below g v (rw (← plain h g) run))

    pub hint_expand-Refines :
        (t : EdgeTypeSpec) (n : ℕ) (d : Direction) (f : Option Expr) (h : ExecutionHint)
        → Refines (hint (expand p t n d f) h) (hint (expand q t n d f) h)
    unfolding execute
    hint_expand-Refines t n d f (top_k m) g = >>=-Below _ _ _ (below g)
    hint_expand-Refines t n d f (limit_aware m) g = >>=-Below _ _ _ (below g)
    hint_expand-Refines t n d f (partition_parallel m) g = >>=-Below _ _ _ (below g)

    pub hint_traverse-Refines :
        (s : List PatternStep) (h : ExecutionHint)
        → Refines (hint (traverse p s) h) (hint (traverse q s) h)
    unfolding execute
    hint_traverse-Refines s (top_k m) g = >>=-Below _ _ _ (below g)
    hint_traverse-Refines s (limit_aware m) g = >>=-Below _ _ _ (below g)
    hint_traverse-Refines s (partition_parallel m) g = >>=-Below _ _ _ (below g)

    pub hint_sort-Refines :
        (by : String) (b : Bool) (h : ExecutionHint)
        → Refines (hint (sort p by b) h) (hint (sort q by b) h)
    unfolding execute
    hint_sort-Refines by b (top_k m) g = >>=-Below _ _ _ (below g)
    hint_sort-Refines by b (limit_aware m) g = >>=-Below _ _ _ (below g)
    hint_sort-Refines by b (partition_parallel m) g = >>=-Below _ _ _ (below g)
