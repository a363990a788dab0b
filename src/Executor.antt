-- ===== src/Executor.antt =====
-- crates/lynxes-lazy/src/query/executor/mod.rs: `execute`, with the hint handlers of filter.rs and
-- traversal.rs.
pub mod Values
pub mod Frames
pub mod Refinement
pub mod Domains
pub mod Limits
pub mod Examples
use lynxes_mojo.Common.{ℕ, String, List, Bool, Option, none, some, take}
use lynxes_mojo.Direction.{Direction}
use lynxes_mojo.Outcome.{Outcome, ok, err, panicked, ◌>>=◌, unsupported_operation, domain_mismatch}
use lynxes_mojo.Plan.Expressions.{Expr, AggExpr, EdgeTypeSpec, PatternStep, Pattern}
use lynxes_mojo.Plan.{
  LogicalPlan, scan, cache, hint, filter_nodes, filter_edges, project_nodes, project_edges, expand,
  traverse, pattern_match, aggregate_neighbors, sort, limit, top_k, limit_aware, partition_parallel,
}
use Values.{Floats}
use Frames.{
  Batch, evaluate_predicate, filter_frame, select_nodes, select_edges, limit_edges, limit_nodes,
  ids,
}

pub record GraphFrame : Type 0 where
  pub nodes : Batch
  pub edges : Batch

pub data ExecutionValue : Type 0 where
  graph : GraphFrame → ExecutionValue
  nodes edges pattern_rows : Batch → ExecutionValue

-- The operations on frames that the other modules of the engine give the executor.
pub record Kernels : Type 0 where
  -- `expand_graph`, with `stop_at`
  pub expand_graph :
      GraphFrame
      → Batch
      → EdgeTypeSpec
      → ℕ
      → Direction
      → Option Expr
      → Option ℕ
      → Outcome GraphFrame
  -- the sharded expansion of `execute_partition_parallel`, from the frontier on
  pub expand_shards :
      GraphFrame → Batch → EdgeTypeSpec → ℕ → Direction → Option Expr → Outcome GraphFrame
  -- `traverse_graph`, with `stop_at`
  pub traverse_graph : GraphFrame → Batch → List PatternStep → Option ℕ → Outcome GraphFrame
  pub execute_pattern_match : GraphFrame → Batch → Pattern → Option Expr → Outcome Batch
  pub aggregate_neighbors : GraphFrame → Batch → String → AggExpr → Outcome Batch
  pub subgraph : GraphFrame → List String → Outcome GraphFrame
  pub sort_frame : Batch → String → Bool → Outcome Batch
  pub top_k_frame : Batch → String → Bool → ℕ → Outcome Batch

-- `extract_node_frontier`, and the matches that open the node operators.
abbrev pub node_input : ExecutionValue → Outcome Batch
node_input (graph g) = ok g.nodes
node_input (nodes ns) = ok ns
node_input _ = err unsupported_operation

abbrev pub edge_input : ExecutionValue → Outcome Batch
edge_input (graph g) = ok g.edges
edge_input (edges es) = ok es
edge_input _ = err unsupported_operation

-- `Sort` and `TopK` sort a node or an edge frame.
abbrev pub sorted_by : (Batch → Outcome Batch) → ExecutionValue → Outcome ExecutionValue
sorted_by f (nodes ns) = do b ← f ns; ok (nodes b)
sorted_by f (edges es) = do b ← f es; ok (edges b)
sorted_by f _ = err unsupported_operation

module _ (fl : Floats) where
  unfoldable pub filter_node_rows : Expr → Batch → Outcome ExecutionValue
  unfolding evaluate_predicate filter_frame
  filter_node_rows predicate ns = do
    mask ← evaluate_predicate fl ns predicate
    kept ← filter_frame ns mask
    ok (nodes kept)

  unfoldable pub filter_edge_rows : Expr → Batch → Outcome ExecutionValue
  unfolding evaluate_predicate filter_frame
  filter_edge_rows predicate es = do
    mask ← evaluate_predicate fl es predicate
    kept ← filter_frame es mask
    ok (edges kept)

module _ (fl : Floats) (k : Kernels) where
  abbrev pub limited : ℕ → ExecutionValue → Outcome ExecutionValue
  limited n (nodes ns) = ok (nodes (limit_nodes ns n))
  limited n (edges es) = do b ← limit_edges es n; ok (edges b)
  limited n (graph g) = do sub ← k.subgraph g (ids (take n g.nodes.rows)); ok (graph sub)
  limited n (pattern_rows _) = err unsupported_operation

  unfoldable pub execute : LogicalPlan → GraphFrame → Outcome ExecutionValue
  unfolding filter_node_rows filter_edge_rows
  execute (scan _ _ _) source = ok (graph source)
  execute (cache p _) source = execute p source
  execute (hint (expand p edge_type hops direction pre_filter) (limit_aware n)) source = do
    value ← execute p source
    frontier ← node_input value
    g ← k.expand_graph source frontier edge_type hops direction pre_filter (some n)
    ok (graph g)
  execute (hint (traverse p pattern) (limit_aware n)) source = do
    value ← execute p source
    frontier ← node_input value
    g ← k.traverse_graph source frontier pattern (some n)
    ok (graph g)
  execute (hint (sort p by descending) (top_k n)) source = do
    value ← execute p source
    sorted_by (λ b. k.top_k_frame b by descending n) value
  execute (hint (expand p edge_type hops direction pre_filter) (partition_parallel _)) source = do
    value ← execute p source
    frontier ← node_input value
    g ← k.expand_shards source frontier edge_type hops direction pre_filter
    ok (graph g)
  execute (hint p _) source = execute p source
  execute (filter_nodes p predicate) source = do
    value ← execute p source
    ns ← node_input value
    filter_node_rows fl predicate ns
  execute (filter_edges p predicate) source = do
    value ← execute p source
    es ← edge_input value
    filter_edge_rows fl predicate es
  execute (project_nodes p columns) source = do
    value ← execute p source
    ns ← node_input value
    b ← select_nodes ns columns
    ok (nodes b)
  execute (project_edges p columns) source = do
    value ← execute p source
    es ← edge_input value
    b ← select_edges es columns
    ok (edges b)
  execute (expand p edge_type hops direction pre_filter) source = do
    value ← execute p source
    frontier ← node_input value
    g ← k.expand_graph source frontier edge_type hops direction pre_filter none
    ok (graph g)
  execute (traverse p pattern) source = do
    value ← execute p source
    frontier ← node_input value
    g ← k.traverse_graph source frontier pattern none
    ok (graph g)
  execute (pattern_match p pattern where_) source = do
    value ← execute p source
    anchors ← node_input value
    b ← k.execute_pattern_match source anchors pattern where_
    ok (pattern_rows b)
  execute (aggregate_neighbors p edge_type agg) source = do
    value ← execute p source
    anchors ← node_input value
    b ← k.aggregate_neighbors source anchors edge_type agg
    ok (nodes b)
  execute (sort p by descending) source = do
    value ← execute p source
    sorted_by (λ b. k.sort_frame b by descending) value
  execute (limit p n) source = do value ← execute p source; limited n value
