-- ===== src/ExprJson/Forms.antt =====
-- crates/lynxes-core/src/query/expr.rs: the definition forms that serde writes and reads, over a type of
-- JSON values.
use lynxes_mojo.Common.{String}

pub data BinaryOpDef : Type 0 where
  eq not_eq gt gt_eq lt lt_eq add sub mul div : BinaryOpDef

pub data UnaryOpDef : Type 0 where
  neg : UnaryOpDef

pub data StringOpDef : Type 0 where
  contains starts_with ends_with : StringOpDef

pub data ExprDef (JsonValue : Type 0) : Type 0 where
  col : String → ExprDef JsonValue
  literal : String → JsonValue → ExprDef JsonValue
  binary_op : ExprDef JsonValue → BinaryOpDef → ExprDef JsonValue → ExprDef JsonValue
  unary_op : UnaryOpDef → ExprDef JsonValue → ExprDef JsonValue
  list_contains : ExprDef JsonValue → ExprDef JsonValue → ExprDef JsonValue
  cast : ExprDef JsonValue → String → ExprDef JsonValue
  and_ or_ : ExprDef JsonValue → ExprDef JsonValue → ExprDef JsonValue
  not_ : ExprDef JsonValue → ExprDef JsonValue
  pattern_col : String → String → ExprDef JsonValue
  string_op : StringOpDef → ExprDef JsonValue → ExprDef JsonValue → ExprDef JsonValue

pub data AggExprDef (JsonValue : Type 0) : Type 0 where
  count : AggExprDef JsonValue
  sum mean list first last : ExprDef JsonValue → AggExprDef JsonValue
  alias : AggExprDef JsonValue → String → AggExprDef JsonValue
