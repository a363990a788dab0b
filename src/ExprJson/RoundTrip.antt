-- ===== src/ExprJson/RoundTrip.antt =====
-- crates/lynxes-core/src/query/expr.rs: an expression, and an aggregation, read back from its JSON form.
use lynxes_mojo.Common.{◌≡◌, refl, String, Bool, List, some}
use lynxes_mojo.Plan.Expressions.{
  Expr, col, literal, binary_op, unary_op, list_contains, cast, and_, or_, not_, pattern_col,
  string_op, AggExpr, BinaryOp, UnaryOp, StringOp, DataType, list_of, list_of_items,
}
use lynxes_mojo.ExprJson.Tags.{
  IsNameable, IsNamed, with_items, name_to_dtype-dtype_to_name, name_to_dtype-with_items,
}
use lynxes_mojo.ExprJson.Literals.{Json, written_type, HasType}
use lynxes_mojo.ExprJson.Reading.{json_to_scalar-scalar_to_json}
use lynxes_mojo.ExprJson.Conversions.{
  binary_op_def, binary_op_of, unary_op_def, unary_op_of, string_op_def, string_op_of, expr_def,
  try_from_def, agg_expr_def, try_from_agg_def,
}

-- Every list literal holds items of its first item's type, every number is one that JSON has, and every
-- cast is to a type that a name stands for.
abbrev pub IsWritable : Expr → Type 0
IsWritable (col _) = Unit
IsWritable (literal value) = HasType (written_type value) value
IsWritable (binary_op left _ right) = IsWritable left × IsWritable right
IsWritable (unary_op _ expr) = IsWritable expr
IsWritable (list_contains expr item) = IsWritable expr × IsWritable item
IsWritable (cast expr dtype) = IsWritable expr × IsNameable dtype
IsWritable (and_ left right) = IsWritable left × IsWritable right
IsWritable (or_ left right) = IsWritable left × IsWritable right
IsWritable (not_ expr) = IsWritable expr
IsWritable (pattern_col _ _) = Unit
IsWritable (string_op _ expr pat) = IsWritable expr × IsWritable pat

abbrev pub IsWritableAgg : AggExpr → Type 0
IsWritableAgg AggExpr.count = Unit
IsWritableAgg (AggExpr.sum expr) = IsWritable expr
IsWritableAgg (AggExpr.mean expr) = IsWritable expr
IsWritableAgg (AggExpr.list expr) = IsWritable expr
IsWritableAgg (AggExpr.first expr) = IsWritable expr
IsWritableAgg (AggExpr.last expr) = IsWritable expr
IsWritableAgg (AggExpr.alias expr _) = IsWritableAgg expr

binary_op_of-binary_op_def : (op : BinaryOp) → binary_op_of (binary_op_def op) ≡ op
unfolding binary_op_of binary_op_def
binary_op_of-binary_op_def BinaryOp.eq = refl
binary_op_of-binary_op_def BinaryOp.not_eq = refl
binary_op_of-binary_op_def BinaryOp.gt = refl
binary_op_of-binary_op_def BinaryOp.gt_eq = refl
binary_op_of-binary_op_def BinaryOp.lt = refl
binary_op_of-binary_op_def BinaryOp.lt_eq = refl
binary_op_of-binary_op_def BinaryOp.add = refl
binary_op_of-binary_op_def BinaryOp.sub = refl
binary_op_of-binary_op_def BinaryOp.mul = refl
binary_op_of-binary_op_def BinaryOp.div = refl

unary_op_of-unary_op_def : (op : UnaryOp) → unary_op_of (unary_op_def op) ≡ op
unfolding unary_op_of unary_op_def
unary_op_of-unary_op_def UnaryOp.neg = refl

string_op_of-string_op_def : (op : StringOp) → string_op_of (string_op_def op) ≡ op
unfolding string_op_of string_op_def
string_op_of-string_op_def StringOp.contains = refl
string_op_of-string_op_def StringOp.starts_with = refl
string_op_of-string_op_def StringOp.ends_with = refl

module _ (j : Json) (debug : DataType → String) where
  expr_read_back : (e : Expr) → IsWritable e → try_from_def j (expr_def j debug e) ≡ some e
  unfolding try_from_def expr_def
  expr_read_back (col name) w = refl
  expr_read_back (literal value) w = rw (json_to_scalar-scalar_to_json debug j value w) refl
  expr_read_back (binary_op l op r) w =
      rw (expr_read_back l w.0, expr_read_back r w.1, binary_op_of-binary_op_def op) refl
  expr_read_back (unary_op op e) w = rw (expr_read_back e w, unary_op_of-unary_op_def op) refl
  expr_read_back (list_contains e item) w = rw (expr_read_back e w.0, expr_read_back item w.1) refl
  expr_read_back (cast e dtype) w =
      rw (expr_read_back e w.0, name_to_dtype-dtype_to_name debug dtype w.1) refl
  expr_read_back (and_ l r) w = rw (expr_read_back l w.0, expr_read_back r w.1) refl
  expr_read_back (or_ l r) w = rw (expr_read_back l w.0, expr_read_back r w.1) refl
  expr_read_back (not_ e) w = rw (expr_read_back e w) refl
  expr_read_back (pattern_col alias field) w = refl
  expr_read_back (string_op op e pat) w =
      rw (expr_read_back e w.0, expr_read_back pat w.1, string_op_of-string_op_def op) refl

  -- Every list literal of the aggregation holds items of its first item's type, every number is one
  -- that JSON has, and every cast is to a named scalar type or to lists of such whose item fields are
  -- nullable, named "item" and without metadata: then its definition form, and that of each expression
  -- in it, is read back as what it was made of.
  pub agg_read_back :
      (a : AggExpr) → IsWritableAgg a → try_from_agg_def j (agg_expr_def j debug a) ≡ some a
  unfolding try_from_agg_def agg_expr_def
  agg_read_back AggExpr.count w = refl
  agg_read_back (AggExpr.sum e) w = rw (expr_read_back e w) refl
  agg_read_back (AggExpr.mean e) w = rw (expr_read_back e w) refl
  agg_read_back (AggExpr.list e) w = rw (expr_read_back e w) refl
  agg_read_back (AggExpr.first e) w = rw (expr_read_back e w) refl
  agg_read_back (AggExpr.last e) w = rw (expr_read_back e w) refl
  agg_read_back (AggExpr.alias a name) w = rw (agg_read_back a w) refl

  -- A cast to any list type whose innermost items are of a named type: it is read back as a cast to the
  -- list type in which every item field is nullable, named "item" and without metadata, whatever the
  -- item fields were.
  pub cast_fields_lost :
      (e : Expr) (name : String) (item : DataType) (nullable : Bool)
      (metadata : List (String × String))
      → IsWritable e
      → IsNamed item
      → try_from_def j (expr_def j debug (cast e (list_of name item nullable metadata)))
        ≡ some (cast e (list_of_items (with_items item)))
  unfolding try_from_def expr_def
  cast_fields_lost e name item nullable metadata w named =
      rw
        (
          expr_read_back e w,
          name_to_dtype-with_items debug (list_of name item nullable metadata) named,
        )
        refl
