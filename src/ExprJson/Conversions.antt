-- ===== src/ExprJson/Conversions.antt =====
-- crates/lynxes-core/src/query/expr.rs: the conversions between expressions and their definition forms,
-- `From<&Expr> for ExprDef`, `TryFrom<ExprDef> for Expr`, and those of operators and aggregations.
use lynxes_mojo.Common.{String, Option, some, ◌>>=◌}
use lynxes_mojo.Plan.Expressions.{Expr, AggExpr, BinaryOp, UnaryOp, StringOp, DataType}
use lynxes_mojo.ExprJson.Forms.{BinaryOpDef, UnaryOpDef, StringOpDef, ExprDef, AggExprDef}
use lynxes_mojo.ExprJson.Tags.{dtype_to_name, name_to_dtype}
use lynxes_mojo.ExprJson.Literals.{Json, scalar_dtype_name, scalar_to_json, json_to_scalar}

unfoldable pub binary_op_def : BinaryOp → BinaryOpDef
binary_op_def BinaryOp.eq = BinaryOpDef.eq
binary_op_def BinaryOp.not_eq = BinaryOpDef.not_eq
binary_op_def BinaryOp.gt = BinaryOpDef.gt
binary_op_def BinaryOp.gt_eq = BinaryOpDef.gt_eq
binary_op_def BinaryOp.lt = BinaryOpDef.lt
binary_op_def BinaryOp.lt_eq = BinaryOpDef.lt_eq
binary_op_def BinaryOp.add = BinaryOpDef.add
binary_op_def BinaryOp.sub = BinaryOpDef.sub
binary_op_def BinaryOp.mul = BinaryOpDef.mul
binary_op_def BinaryOp.div = BinaryOpDef.div

unfoldable pub binary_op_of : BinaryOpDef → BinaryOp
binary_op_of BinaryOpDef.eq = BinaryOp.eq
binary_op_of BinaryOpDef.not_eq = BinaryOp.not_eq
binary_op_of BinaryOpDef.gt = BinaryOp.gt
binary_op_of BinaryOpDef.gt_eq = BinaryOp.gt_eq
binary_op_of BinaryOpDef.lt = BinaryOp.lt
binary_op_of BinaryOpDef.lt_eq = BinaryOp.lt_eq
binary_op_of BinaryOpDef.add = BinaryOp.add
binary_op_of BinaryOpDef.sub = BinaryOp.sub
binary_op_of BinaryOpDef.mul = BinaryOp.mul
binary_op_of BinaryOpDef.div = BinaryOp.div

unfoldable pub unary_op_def : UnaryOp → UnaryOpDef
unary_op_def UnaryOp.neg = UnaryOpDef.neg

unfoldable pub unary_op_of : UnaryOpDef → UnaryOp
unary_op_of UnaryOpDef.neg = UnaryOp.neg

unfoldable pub string_op_def : StringOp → StringOpDef
string_op_def StringOp.contains = StringOpDef.contains
string_op_def StringOp.starts_with = StringOpDef.starts_with
string_op_def StringOp.ends_with = StringOpDef.ends_with

unfoldable pub string_op_of : StringOpDef → StringOp
string_op_of StringOpDef.contains = StringOp.contains
string_op_of StringOpDef.starts_with = StringOp.starts_with
string_op_of StringOpDef.ends_with = StringOp.ends_with

module _ (j : Json) (debug : DataType → String) where
  open j use {JsonValue}

  unfoldable pub expr_def : Expr → ExprDef JsonValue
  unfolding scalar_dtype_name scalar_to_json dtype_to_name binary_op_def unary_op_def string_op_def
  expr_def (Expr.col name) = ExprDef.col name
  expr_def (Expr.literal value) = ExprDef.literal (scalar_dtype_name value) (scalar_to_json j value)
  expr_def (Expr.binary_op left op right) =
      ExprDef.binary_op (expr_def left) (binary_op_def op) (expr_def right)
  expr_def (Expr.unary_op op expr) = ExprDef.unary_op (unary_op_def op) (expr_def expr)
  expr_def (Expr.list_contains expr item) = ExprDef.list_contains (expr_def expr) (expr_def item)
  expr_def (Expr.cast expr dtype) = ExprDef.cast (expr_def expr) (dtype_to_name debug dtype)
  expr_def (Expr.and_ left right) = ExprDef.and_ (expr_def left) (expr_def right)
  expr_def (Expr.or_ left right) = ExprDef.or_ (expr_def left) (expr_def right)
  expr_def (Expr.not_ expr) = ExprDef.not_ (expr_def expr)
  expr_def (Expr.pattern_col alias field) = ExprDef.pattern_col alias field
  expr_def (Expr.string_op op expr pat) =
      ExprDef.string_op (string_op_def op) (expr_def expr) (expr_def pat)

  unfoldable pub agg_expr_def : AggExpr → AggExprDef JsonValue
  unfolding expr_def
  agg_expr_def AggExpr.count = AggExprDef.count
  agg_expr_def (AggExpr.sum expr) = AggExprDef.sum (expr_def expr)
  agg_expr_def (AggExpr.mean expr) = AggExprDef.mean (expr_def expr)
  agg_expr_def (AggExpr.list expr) = AggExprDef.list (expr_def expr)
  agg_expr_def (AggExpr.first expr) = AggExprDef.first (expr_def expr)
  agg_expr_def (AggExpr.last expr) = AggExprDef.last (expr_def expr)
  agg_expr_def (AggExpr.alias expr name) = AggExprDef.alias (agg_expr_def expr) name

module _ (j : Json) where
  open j use {JsonValue}

  unfoldable pub try_from_def : ExprDef JsonValue → Option Expr
  unfolding json_to_scalar name_to_dtype binary_op_of unary_op_of string_op_of
  try_from_def (ExprDef.col name) = some (Expr.col name)
  try_from_def (ExprDef.literal dtype value) = do
    scalar ← json_to_scalar j dtype value
    some (Expr.literal scalar)
  try_from_def (ExprDef.binary_op left op right) = do
    l ← try_from_def left
    r ← try_from_def right
    some (Expr.binary_op l (binary_op_of op) r)
  try_from_def (ExprDef.unary_op op expr) = do
    e ← try_from_def expr
    some (Expr.unary_op (unary_op_of op) e)
  try_from_def (ExprDef.list_contains expr item) = do
    e ← try_from_def expr
    i ← try_from_def item
    some (Expr.list_contains e i)
  try_from_def (ExprDef.cast expr dtype) = do
    e ← try_from_def expr
    t ← name_to_dtype dtype
    some (Expr.cast e t)
  try_from_def (ExprDef.and_ left right) = do
    l ← try_from_def left
    r ← try_from_def right
    some (Expr.and_ l r)
  try_from_def (ExprDef.or_ left right) = do
    l ← try_from_def left
    r ← try_from_def right
    some (Expr.or_ l r)
  try_from_def (ExprDef.not_ expr) = do e ← try_from_def expr; some (Expr.not_ e)
  try_from_def (ExprDef.pattern_col alias field) = some (Expr.pattern_col alias field)
  try_from_def (ExprDef.string_op op expr pat) = do
    e ← try_from_def expr
    p ← try_from_def pat
    some (Expr.string_op (string_op_of op) e p)

  unfoldable pub try_from_agg_def : AggExprDef JsonValue → Option AggExpr
  unfolding try_from_def
  try_from_agg_def AggExprDef.count = some AggExpr.count
  try_from_agg_def (AggExprDef.sum expr) = do e ← try_from_def expr; some (AggExpr.sum e)
  try_from_agg_def (AggExprDef.mean expr) = do e ← try_from_def expr; some (AggExpr.mean e)
  try_from_agg_def (AggExprDef.list expr) = do e ← try_from_def expr; some (AggExpr.list e)
  try_from_agg_def (AggExprDef.first expr) = do e ← try_from_def expr; some (AggExpr.first e)
  try_from_agg_def (AggExprDef.last expr) = do e ← try_from_def expr; some (AggExpr.last e)
  try_from_agg_def (AggExprDef.alias expr name) = do
    e ← try_from_agg_def expr
    some (AggExpr.alias e name)
