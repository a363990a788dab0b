-- ===== src/Optimizer/SubgraphCaching.antt =====
-- crates/lynxes-core/src/query/optimizer/subgraph_caching.rs
-- The key is the text that `format!` makes of the parts of the plan. What the derived `Debug` prints
-- of a part, and `Display` of a number, are the fields of `Printers`.
pub mod Stable
use Prim.Native.String.{◌++◌ as text_append}
use lynxes_mojo.Common.{
  ℕ, String, Bool, true, false, List, [], ◌∷◌, Option, none, some, ◌>>=◌, if◌then◌else◌,
}
use lynxes_mojo.Direction.{Direction}
use lynxes_mojo.Plan.Expressions.{Expr, AggExpr, EdgeTypeSpec, PatternStep, Pattern}
use lynxes_mojo.Plan.{
  LogicalPlan, scan, cache, hint, filter_nodes, filter_edges, project_nodes, project_edges, expand,
  traverse, pattern_match, aggregate_neighbors, sort, limit, Connector, ExecutionHint,
}

pub record Printers : Type 0 where
  pub scan_columns : Option (List String) → String
  pub names : List String → String
  pub execution_hint : ExecutionHint → String
  pub expr : Expr → String
  pub optional_expr : Option Expr → String
  pub edge_type_spec : EdgeTypeSpec → String
  pub direction : Direction → String
  pub steps : List PatternStep → String
  pub pattern : Pattern → String
  pub agg_expr : AggExpr → String
  pub number : ℕ → String

unfoldable pub is_cache_candidate : LogicalPlan → Bool
is_cache_candidate (expand _ _ _ _ _) = true
is_cache_candidate (traverse _ _) = true
is_cache_candidate (pattern_match _ _ _) = true
is_cache_candidate (aggregate_neighbors _ _ _) = true
is_cache_candidate _ = false

abbrev pub is_cache : LogicalPlan → Bool
is_cache (cache _ _) = true
is_cache _ = false

abbrev concat : List String → String
concat [] = ""
concat (s ∷ ss) = text_append s (concat ss)

-- The format strings `name({};{};{})`.
abbrev fields : List String → String
fields [] = ")"
fields (s ∷ ss) = text_append ";" (text_append s (fields ss))

abbrev call : String → String → List String → String
call name input parts = concat (name ∷ "(" ∷ input ∷ fields parts ∷ [])

abbrev printed_bool : Bool → String
printed_bool true = "true"
printed_bool false = "false"

module _ (print : Printers) where
  unfoldable pub fingerprint : LogicalPlan → Option String
  fingerprint (scan source node_columns edge_columns) = do
    source_key ← source.cache_source_key
    some (
        concat (
          "scan:"
          ∷ source_key
          ∷ ":nodes="
          ∷ print.scan_columns node_columns
          ∷ ":edges="
          ∷ print.scan_columns edge_columns
          ∷ []))
  fingerprint (cache _ key) = some key
  fingerprint (hint p h) = do
    key ← fingerprint p
    some (call "hint" key (print.execution_hint h ∷ []))
  fingerprint (filter_nodes p predicate) = do
    key ← fingerprint p
    some (call "filter_nodes" key (print.expr predicate ∷ []))
  fingerprint (filter_edges p predicate) = do
    key ← fingerprint p
    some (call "filter_edges" key (print.expr predicate ∷ []))
  fingerprint (project_nodes p columns) = do
    key ← fingerprint p
    some (call "project_nodes" key (print.names columns ∷ []))
  fingerprint (project_edges p columns) = do
    key ← fingerprint p
    some (call "project_edges" key (print.names columns ∷ []))
  fingerprint (expand p edge_type hops direction pre_filter) = do
    key ← fingerprint p
    some (
        call "expand" key (
          print.edge_type_spec edge_type
          ∷ print.number hops
          ∷ print.direction direction
          ∷ print.optional_expr pre_filter
          ∷ []))
  fingerprint (traverse p pattern) = do
    key ← fingerprint p
    some (call "traverse" key (print.steps pattern ∷ []))
  fingerprint (pattern_match p pattern where_) = do
    key ← fingerprint p
    some (call "pattern_match" key (print.pattern pattern ∷ print.optional_expr where_ ∷ []))
  fingerprint (aggregate_neighbors p edge_type agg) = do
    key ← fingerprint p
    some (call "aggregate_neighbors" key (edge_type ∷ print.agg_expr agg ∷ []))
  fingerprint (sort p by descending) = do
    key ← fingerprint p
    some (call "sort" key (by ∷ printed_bool descending ∷ []))
  fingerprint (limit p n) = do key ← fingerprint p; some (call "limit" key (print.number n ∷ []))

  unfoldable pub maybe_wrap_cache : LogicalPlan → LogicalPlan
  unfolding is_cache_candidate fingerprint
  maybe_wrap_cache plan =
      if is_cache plan
      then plan
      else if is_cache_candidate plan
      then elim (fingerprint plan) [ some key ↦ cache plan key | none ↦ plan ]
      else plan

  unfoldable pub optimize_plan : LogicalPlan → LogicalPlan
  unfolding maybe_wrap_cache
  optimize_plan (scan source node_columns edge_columns) =
      maybe_wrap_cache (scan source node_columns edge_columns)
  optimize_plan (cache p key) = maybe_wrap_cache (cache p key)
  optimize_plan (hint p h) = maybe_wrap_cache (hint (optimize_plan p) h)
  optimize_plan (filter_nodes p predicate) =
      maybe_wrap_cache (filter_nodes (optimize_plan p) predicate)
  optimize_plan (filter_edges p predicate) =
      maybe_wrap_cache (filter_edges (optimize_plan p) predicate)
  optimize_plan (project_nodes p columns) =
      maybe_wrap_cache (project_nodes (optimize_plan p) columns)
  optimize_plan (project_edges p columns) =
      maybe_wrap_cache (project_edges (optimize_plan p) columns)
  optimize_plan (expand p edge_type hops direction pre_filter) =
      maybe_wrap_cache (expand (optimize_plan p) edge_type hops direction pre_filter)
  optimize_plan (traverse p pattern) = maybe_wrap_cache (traverse (optimize_plan p) pattern)
  optimize_plan (pattern_match p pattern where_) =
      maybe_wrap_cache (pattern_match (optimize_plan p) pattern where_)
  optimize_plan (aggregate_neighbors p edge_type agg) =
      maybe_wrap_cache (aggregate_neighbors (optimize_plan p) edge_type agg)
  optimize_plan (sort p by descending) = maybe_wrap_cache (sort (optimize_plan p) by descending)
  optimize_plan (limit p n) = maybe_wrap_cache (limit (optimize_plan p) n)
