-- ===== src/Lib.antt =====
-- Lynxes: the query engine of a property-graph library on Arrow columns.
--
-- A lazy plan (LogicalPlan) is rewritten by the optimizer's passes and then run by the executor on a
-- graph of node and edge frames. Edges are found through a compressed sparse row index (CSR) of the
-- source and destination rows.
--
-- The files and what they model:
--   Common      the names that all files share: tests on numbers and texts, lists measured by native
--               numbers, sets of strings.
--   Outcome     crates/lynxes-core/src/error.rs, and the result of code that may return an error or
--               panic.
--   Direction   crates/lynxes-core/src/types.rs: reserved columns, directions and their codes.
--   Csr         crates/lynxes-core/src/frame/csr.rs: CsrIndex::build, build_reverse,
--               build_from_sorted_edges, range, neighbors, edge_ids, degree, under the same names.
--   Plan        crates/lynxes-core/src/query/{logical_plan,expr}.rs: plans, expressions, patterns.
--   Optimizer   crates/lynxes-core/src/query/optimizer: one module for each pass, with the source's
--               function names, Columns for the helpers that two passes repeat, Pipeline for mod.rs,
--               Domains and Essence for what the passes keep of a plan.
--   Executor    crates/lynxes-lazy/src/query/executor: Values and Frames for expr_eval.rs and
--               filter.rs, with filter, select and slice of
--               crates/lynxes-core/src/frame/{node_frame,edge_frame}.rs; `execute` for mod.rs and its
--               hints; Refinement, Domains and Limits for the relations between plans.
--   Traversal   crates/lynxes-lazy/src/query/executor/traversal.rs: build_edge_node_ids,
--               expand_frontier_csr and the loop of traverse_graph (traverse_ids), over the columns and
--               indexes of an edge frame. Indexed says what the construction of an edge frame
--               (crates/lynxes-core/src/frame/edge_frame.rs) makes of its columns, and which edges the
--               columns hold; Names and Columns relate the ids and the entries that the loops read to
--               the columns, Links an entry to an edge. Frontier and Visits for one step and the loop
--               over the entries, Steps for both over the columns, Prefixes for the loop with a limit.
--               Expand for expand_graph_raw, its pre-filter and the merge of
--               execute_partition_parallel (expand_chunks); Admitting, Candidates, Expanding and Hops
--               for what a candidate, an entry, a round and the loop do, Codes for the direction
--               column, Bounds for the number of ids, Expansion for the whole over the columns,
--               Parallel for the chunks. A frontier is a list without repetitions, so sets have an
--               order here.
--   Mutable     crates/lynxes-core/src/frame/mutable_graph_frame.rs: the base index with its pending and
--               frozen deltas, out_neighbors, add_edge_row, flush_pending_locked, compact,
--               delete_node, delete_edge; Neighbors and Merged for the lists of neighbors,
--               Deltas, Additions and Deletion for what the operations do to them.
--   ExprJson    crates/lynxes-core/src/query/expr.rs: the JSON form of expressions and aggregations:
--               Tags for the names of types, Literals for the values, Forms and Conversions for the
--               tagged types and the conversions, Reading and RoundTrip for what is read back.
--   Components  crates/lynxes-core/src/algo/connected_components.rs: compute_components and the choice
--               of largest_connected_component; Labels, Queue and Rows for its three loops,
--               Lookups and Adjacency for its tables, Connectivity, Largest and Selection for the results.
--   Schema      crates/lynxes-core/src/schema/{types,schema}.rs: Types; Inheritance for
--               resolve_node_fields, with Lineage, Returning, Resolution, Merging and Resolved for what
--               it returns; Validation for validate_nodes and validate_edges, with Checks,
--               Conforming, EdgeReports, Loading and NodeReports for what they report.
--   Partition   crates/lynxes-core/src/algo/partition.rs: distributed_expand, with Expansion, Boundary
--               and Rounds for one round, Reach and Hops for all of them; Shards for partition and
--               assign_nodes, with Masks, Assignment and Division; Whole for both together.
--
-- State and operations. Frames, plans and indexes are built and then read, so each of their operations
-- is a function of its inputs. A mutable graph frame is changed in place by one owner: its operations
-- take the frame and return the one that they leave. The changes that a call has made before it fails
-- are not modelled.
-- A Rust `Vec` is a list, a `HashSet<String>` is a list without repetitions, an `Option` is an Option
-- and a `Result` is an Outcome, whose third case is a panic. In Csr a panic is `none`.
--
-- Numbers. u32 is a number below 2^32 and its sums wrap; an i64 and an f64 are their 64-bit patterns,
-- i64 arithmetic wraps as in a release build, and the operations on f64 are the record Floats, which
-- stands for IEEE 754. usize is not bounded. Functions are structural recursions, but for three
-- that take fuel: the readers of ExprJson.Tags and ExprJson.Literals take one more than the length of
-- the name, which shrinks in each call, and the loop over the queue of Components takes one more than
-- the number of rows, each of which is queued at most once, and resolve_node_fields takes one more than
-- the number of node schemas, each of which is on the stack at most once.
--
-- Frames. A batch is its column names and its rows, and a row is what is read in each column, a value
-- or the error for an unsupported type. `select` changes the names only: a column is read by name
-- where the batch has it.
--
-- Parameters. A connector is its cache key; Printers is what derived Debug prints; Kernels holds the
-- expansion, traversal, pattern, aggregation, subgraph and sorting operations that the executor
-- calls. Every theorem holds for any kernels and any floats: nothing is assumed about them. Json is
-- serde_json's value type: its constructors, its readers and the equations between them.
--
-- Not modelled: the kernels other than Traversal, node appends, updates and freezing of mutable graph frames, the
-- other graph algorithms, the lazy builders, the file formats, connectors, display, the command line
-- and the bindings. The formats and connectors are input and output around third-party libraries.
pub mod Common
pub mod Csr
pub mod Outcome
pub mod Direction
pub mod Plan
pub mod Optimizer
pub mod Executor
pub mod Mutable
pub mod Traversal
pub mod ExprJson
pub mod Components
pub mod Schema
pub mod Partition
