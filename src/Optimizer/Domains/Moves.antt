-- ===== src/Optimizer/Domains/Moves.antt =====
-- crates/lynxes-core/src/query/optimizer: the output domains of the passes that move filters and
-- projections.
use lynxes_mojo.Common.{◌≡◌, refl, String, List, Bool-cases, inl, inr, Option, none, some}
use lynxes_mojo.Plan.Expressions.{Expr, Pattern}
use lynxes_mojo.Plan.{
  LogicalPlan, nodes, edges, pattern_rows, scan, cache, hint, filter_nodes, filter_edges,
  project_nodes, project_edges, expand, traverse, pattern_match, aggregate_neighbors, sort, limit,
  output_domain,
}
use lynxes_mojo.Optimizer.Columns.{
  node_available_columns, edge_available_columns, predicate_uses_only_columns,
}
use lynxes_mojo.Optimizer.PredicatePushdown as Predicate
use lynxes_mojo.Optimizer.ProjectionPushdown as Projection
use lynxes_mojo.Optimizer.PatternExpansion as Expansion

filter_nodes_domain :
    (p : LogicalPlan) (e : Expr) → output_domain (Predicate.rewrite_filter_nodes p e) ≡ nodes
unfolding Predicate.rewrite_filter_nodes output_domain
filter_nodes_domain (scan a b c) e = refl
filter_nodes_domain (cache p b) e = refl
filter_nodes_domain (hint p b) e = refl
filter_nodes_domain (filter_nodes p b) e = refl
filter_nodes_domain (filter_edges p b) e = refl
filter_nodes_domain (project_nodes p b) e =
    elim (Bool-cases (predicate_uses_only_columns e (node_available_columns b))) [
      | inl uses ↦ rw uses refl
      | inr more ↦ rw more refl
    ]
filter_nodes_domain (project_edges p b) e = refl
filter_nodes_domain (expand p b c d f) e = refl
filter_nodes_domain (traverse p b) e = refl
filter_nodes_domain (pattern_match p b c) e = refl
filter_nodes_domain (aggregate_neighbors p b c) e = refl
filter_nodes_domain (sort p b c) e = refl
filter_nodes_domain (limit p b) e = refl

collapse_nodes_domain :
    (p : LogicalPlan) (columns : List String)
    → output_domain (Projection.collapse_project_nodes p columns) ≡ nodes
unfolding Projection.collapse_project_nodes output_domain
collapse_nodes_domain (scan a b c) columns = refl
collapse_nodes_domain (cache p b) columns = refl
collapse_nodes_domain (hint p b) columns = refl
collapse_nodes_domain (filter_nodes p b) columns = refl
collapse_nodes_domain (filter_edges p b) columns = refl
collapse_nodes_domain (project_nodes p b) columns = refl
collapse_nodes_domain (project_edges p b) columns = refl
collapse_nodes_domain (expand p b c d f) columns = refl
collapse_nodes_domain (traverse p b) columns = refl
collapse_nodes_domain (pattern_match p b c) columns = refl
collapse_nodes_domain (aggregate_neighbors p b c) columns = refl
collapse_nodes_domain (sort p b c) columns = refl
collapse_nodes_domain (limit p b) columns = refl

filter_edges_domain :
    (p : LogicalPlan) (e : Expr) → output_domain (Predicate.rewrite_filter_edges p e) ≡ edges
unfolding Predicate.rewrite_filter_edges output_domain
filter_edges_domain (scan a b c) e = refl
filter_edges_domain (cache p b) e = refl
filter_edges_domain (hint p b) e = refl
filter_edges_domain (filter_nodes p b) e = refl
filter_edges_domain (filter_edges p b) e = refl
filter_edges_domain (project_nodes p b) e = refl
filter_edges_domain (project_edges p b) e =
    elim (Bool-cases (predicate_uses_only_columns e (edge_available_columns b))) [
      | inl uses ↦ rw uses refl
      | inr more ↦ rw more refl
    ]
filter_edges_domain (expand p b c d f) e = refl
filter_edges_domain (traverse p b) e = refl
filter_edges_domain (pattern_match p b c) e = refl
filter_edges_domain (aggregate_neighbors p b c) e = refl
filter_edges_domain (sort p b c) e = refl
filter_edges_domain (limit p b) e = refl

collapse_edges_domain :
    (p : LogicalPlan) (columns : List String)
    → output_domain (Projection.collapse_project_edges p columns) ≡ edges
unfolding Projection.collapse_project_edges output_domain
collapse_edges_domain (scan a b c) columns = refl
collapse_edges_domain (cache p b) columns = refl
collapse_edges_domain (hint p b) columns = refl
collapse_edges_domain (filter_nodes p b) columns = refl
collapse_edges_domain (filter_edges p b) columns = refl
collapse_edges_domain (project_nodes p b) columns = refl
collapse_edges_domain (project_edges p b) columns = refl
collapse_edges_domain (expand p b c d f) columns = refl
collapse_edges_domain (traverse p b) columns = refl
collapse_edges_domain (pattern_match p b c) columns = refl
collapse_edges_domain (aggregate_neighbors p b c) columns = refl
collapse_edges_domain (sort p b c) columns = refl
collapse_edges_domain (limit p b) columns = refl

pub predicate_pushdown-domain :
    (p : LogicalPlan) → output_domain (Predicate.optimize_plan p) ≡ output_domain p
unfolding Predicate.optimize_plan output_domain
predicate_pushdown-domain (scan a b c) = refl
predicate_pushdown-domain (cache p b) = predicate_pushdown-domain p
predicate_pushdown-domain (hint p b) = predicate_pushdown-domain p
predicate_pushdown-domain (filter_nodes p b) = filter_nodes_domain (Predicate.optimize_plan p) b
predicate_pushdown-domain (filter_edges p b) = filter_edges_domain (Predicate.optimize_plan p) b
predicate_pushdown-domain (project_nodes p b) = refl
predicate_pushdown-domain (project_edges p b) = refl
predicate_pushdown-domain (expand p b c d f) = refl
predicate_pushdown-domain (traverse p b) = refl
predicate_pushdown-domain (pattern_match p b c) = refl
predicate_pushdown-domain (aggregate_neighbors p b c) = refl
predicate_pushdown-domain (sort p b c) = predicate_pushdown-domain p
predicate_pushdown-domain (limit p b) = predicate_pushdown-domain p

pub projection_pushdown-domain :
    (p : LogicalPlan) (ns es : Projection.Required)
    → output_domain (Projection.optimize_plan p ns es) ≡ output_domain p
unfolding Projection.optimize_plan output_domain
projection_pushdown-domain (scan a b c) ns es = refl
projection_pushdown-domain (cache p b) ns es = projection_pushdown-domain p _ _
projection_pushdown-domain (hint p b) ns es = projection_pushdown-domain p _ _
projection_pushdown-domain (filter_nodes p b) ns es = refl
projection_pushdown-domain (filter_edges p b) ns es = refl
projection_pushdown-domain (project_nodes p b) ns es = collapse_nodes_domain _ b
projection_pushdown-domain (project_edges p b) ns es = collapse_edges_domain _ b
projection_pushdown-domain (expand p b c d f) ns es = refl
projection_pushdown-domain (traverse p b) ns es = refl
projection_pushdown-domain (pattern_match p b c) ns es = refl
projection_pushdown-domain (aggregate_neighbors p b c) ns es = refl
projection_pushdown-domain (sort p b c) ns es = projection_pushdown-domain p _ _
projection_pushdown-domain (limit p b) ns es = projection_pushdown-domain p _ _

expanded_domain :
    (p : LogicalPlan) (pattern : Pattern) (where_ : Expr) (root : Option String)
    → output_domain (Expansion.expanded p pattern where_ root) ≡ pattern_rows
unfolding Expansion.push_conjuncts output_domain
expanded_domain p pattern where_ none = refl
expanded_domain p pattern where_ (some root) = refl

pattern_domain :
    (p : LogicalPlan) (pattern : Pattern) (where_ : Option Expr)
    → output_domain (Expansion.rewrite_pattern_match p pattern where_) ≡ pattern_rows
unfolding Expansion.rewrite_pattern_match output_domain
pattern_domain p pattern none = refl
pattern_domain p pattern (some where_) =
    expanded_domain p pattern where_ (Expansion.root_alias pattern.steps)

pub pattern_expansion-domain :
    (p : LogicalPlan) → output_domain (Expansion.optimize_plan p) ≡ output_domain p
unfolding Expansion.optimize_plan output_domain
pattern_expansion-domain (scan a b c) = refl
pattern_expansion-domain (cache p b) = pattern_expansion-domain p
pattern_expansion-domain (hint p b) = pattern_expansion-domain p
pattern_expansion-domain (filter_nodes p b) = refl
pattern_expansion-domain (filter_edges p b) = refl
pattern_expansion-domain (project_nodes p b) = refl
pattern_expansion-domain (project_edges p b) = refl
pattern_expansion-domain (expand p b c d f) = refl
pattern_expansion-domain (traverse p b) = refl
pattern_expansion-domain (pattern_match p b c) = pattern_domain (Expansion.optimize_plan p) b c
pattern_expansion-domain (aggregate_neighbors p b c) = refl
pattern_expansion-domain (sort p b c) = pattern_expansion-domain p
pattern_expansion-domain (limit p b) = pattern_expansion-domain p
