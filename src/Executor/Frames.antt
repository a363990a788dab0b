-- ===== src/Executor/Frames.antt =====
-- crates/lynxes-core/src/frame/{node_frame,edge_frame}.rs and
-- crates/lynxes-lazy/src/query/executor/{expr_eval,filter}.rs: batches, `filter`, `select` and the
-- evaluation of expressions on a row.
-- A batch is its column names and its rows, a row gives what `read_array_value` reads in a column:
-- a value, or its error for a type that it does not support. Columns are read by name only where
-- the batch has them, so `select` keeps the rows and changes the names.
pub mod Filtering
pub mod Selecting
pub mod Limiting
use lynxes_mojo.Common.{
  ℕ, zero, suc, min, String, Bool, true, false, not, ◌&&◌, ◌||◌, Option, none, some, List, [], ◌∷◌,
  ◌++◌, length, take, ltb, ◌==◌, if◌then◌else◌, member, str_eq,
}
use lynxes_mojo.Direction.{col_node_id, node_reserved_columns, edge_reserved_columns}
use lynxes_mojo.Outcome.{
  Outcome, ok, err, panicked, ◌>>=◌, column_not_found, type_mismatch, unsupported_operation,
  length_mismatch,
}
use lynxes_mojo.Plan.Expressions.{
  Expr, col, literal, binary_op, unary_op, list_contains, cast, and_, or_, not_, pattern_col,
  string_op, neg,
}
use lynxes_mojo.Executor.Values.{
  Value, string, bool, Floats, convert_scalar, evaluate_binary_values, negate_value, cast_value,
  list_contains_value, not_value, boolean_values, string_op_value,
}

abbrev pub Row : Type 0
Row = String → Outcome Value

pub record Batch : Type 0 where
  pub columns : List String
  pub rows : List Row

unfoldable pub read_column_value : List String → Row → String → Outcome Value
unfolding member
read_column_value columns row name =
    if member name columns then row name else err (column_not_found name)

module _ (fl : Floats) where
  unfoldable pub evaluate_expr : List String → Row → Expr → Outcome Value
  unfolding read_column_value
  evaluate_expr cs row (col name) = read_column_value cs row name
  evaluate_expr cs row (literal value) = ok (convert_scalar value)
  evaluate_expr cs row (binary_op l op r) = do
    left ← evaluate_expr cs row l
    right ← evaluate_expr cs row r
    evaluate_binary_values fl left op right
  evaluate_expr cs row (unary_op neg e) = do value ← evaluate_expr cs row e; negate_value fl value
  evaluate_expr cs row (list_contains e item) = do
    values ← evaluate_expr cs row e
    wanted ← evaluate_expr cs row item
    list_contains_value fl values wanted
  evaluate_expr cs row (cast e dtype) = do value ← evaluate_expr cs row e; cast_value fl value dtype
  evaluate_expr cs row (and_ l r) = do
    left ← evaluate_expr cs row l
    right ← evaluate_expr cs row r
    boolean_values ◌&&◌ left right
  evaluate_expr cs row (or_ l r) = do
    left ← evaluate_expr cs row l
    right ← evaluate_expr cs row r
    boolean_values ◌||◌ left right
  evaluate_expr cs row (not_ e) = do value ← evaluate_expr cs row e; not_value value
  evaluate_expr cs row (pattern_col _ _) = err unsupported_operation
  evaluate_expr cs row (string_op op e pattern) = do
    subject ← evaluate_expr cs row e
    pat ← evaluate_expr cs row pattern
    string_op_value op subject pat

  abbrev pub to_bool : Value → Outcome Bool
  to_bool (bool b) = ok b
  to_bool _ = err type_mismatch

  -- The mask, row by row; the first error ends it.
  unfoldable pub predicate_mask : List String → Expr → List Row → Outcome (List Bool)
  unfolding evaluate_expr
  predicate_mask cs expr [] = ok []
  predicate_mask cs expr (row ∷ rows) = do
    value ← evaluate_expr cs row expr
    keep ← to_bool value
    mask ← predicate_mask cs expr rows
    ok (keep ∷ mask)

  unfoldable pub evaluate_predicate : Batch → Expr → Outcome (List Bool)
  unfolding predicate_mask
  evaluate_predicate batch expr = predicate_mask batch.columns expr batch.rows

-- `arrow::compute::filter` on every column.
unfoldable pub masked : List Bool → List Row → List Row
masked [] rows = []
masked (keep ∷ mask) [] = []
masked (keep ∷ mask) (row ∷ rows) = if keep then row ∷ masked mask rows else masked mask rows

-- `NodeFrame::filter` and `EdgeFrame::filter`.
unfoldable pub filter_frame : Batch → List Bool → Outcome Batch
unfolding masked
filter_frame frame mask =
    if length mask == length frame.rows
    then ok (record frame { rows = masked mask frame.rows })
    else err length_mismatch

-- The first requested column that the frame lacks, if any.
unfoldable pub check_columns : List String → List String → Outcome (Unit {0})
unfolding member
check_columns [] present = ok tt
check_columns (c ∷ cs) present =
    let rest = check_columns cs present in
    if member c present then rest else err (column_not_found c)

-- The loop that appends the requested user columns to the reserved ones.
unfoldable pub append_distinct : List String → List String → List String → List String
unfolding member
append_distinct reserved names [] = names
append_distinct reserved names (c ∷ cs) =
    append_distinct reserved
      (if not (member c reserved) && not (member c names) then names ++ c ∷ [] else names) cs

-- `select`; the `unwrap` of a reserved column's field panics where the frame lacks it.
unfoldable pub select : List String → Batch → List String → Outcome Batch
unfolding check_columns append_distinct
select reserved frame columns = do
  _ ← check_columns columns frame.columns
  elim (check_columns reserved frame.columns) [
    | ok _ ↦ ok (record frame { columns = append_distinct reserved reserved columns })
    | err _ ↦ panicked
    | panicked ↦ panicked
  ]

abbrev pub select_nodes : Batch → List String → Outcome Batch
select_nodes = select node_reserved_columns

abbrev pub select_edges : Batch → List String → Outcome Batch
select_edges = select edge_reserved_columns

-- `limit_edges` of filter.rs: the mask `idx < len`, from `idx` on.
unfoldable pub limit_mask : ℕ → ℕ → List Row → List Bool
limit_mask len idx [] = []
limit_mask len idx (row ∷ rows) = ltb idx len ∷ limit_mask len (suc idx) rows

unfoldable pub limit_edges : Batch → ℕ → Outcome Batch
unfolding limit_mask filter_frame
limit_edges edges n = filter_frame edges (limit_mask (min n (length edges.rows)) 0 edges.rows)

-- `nodes.slice(0, n.min(nodes.len()))`
unfoldable pub limit_nodes : Batch → ℕ → Batch
limit_nodes nodes n = record nodes { rows = take (min n (length nodes.rows)) nodes.rows }

-- `id_column().iter().flatten()`
abbrev id_of : Row → Option String
id_of row = elim (row col_node_id) [
  | ok value ↦ elim value [ string id ↦ some id | _ ↦ none ]
  | _ ↦ none
]

unfoldable pub ids : List Row → List String
ids [] = []
ids (row ∷ rows) = elim (id_of row) [ some id ↦ id ∷ ids rows | none ↦ ids rows ]
