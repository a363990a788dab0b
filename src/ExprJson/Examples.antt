-- ===== src/ExprJson/Examples.antt =====
-- crates/lynxes-core/src/query/expr.rs: JSON values as a data type, and the theorems at them.
use lynxes_mojo.Common.{
  ℕ, ◌≡◌, refl, ap, String, Bool, false, Option, none, some, List, [], ◌∷◌, arith,
}
use lynxes_mojo.Plan.Expressions.{
  col, literal, binary_op, cast, eq, AggExpr, sum, alias, ScalarValue, ScalarValues, DataType,
  list_of, list_of_items, int64,
}
use lynxes_mojo.ExprJson.Literals.{Json, scalar_dtype_name, scalar_to_json, json_to_scalar}
use lynxes_mojo.ExprJson.Reading.{all_null, null_headed_list_lost}
use lynxes_mojo.ExprJson.Conversions.{expr_def, try_from_def, agg_expr_def, try_from_agg_def}
use lynxes_mojo.ExprJson.RoundTrip.{cast_fields_lost, agg_read_back}

mutual
  data Tree : Type 0 where
    null : Tree
    text : String → Tree
    integer float : ℕ → Tree
    flag : Bool → Tree
    array : Trees → Tree

  data Trees : Type 0 where
    end : Trees
    item : Tree → Trees → Trees

abbrev of_list : List Tree → Trees
of_list [] = end
of_list (t ∷ ts) = item t (of_list ts)

abbrev to_list : Trees → List Tree
to_list end = []
to_list (item t ts) = t ∷ to_list ts

to_list-of_list : (ts : List Tree) → to_list (of_list ts) ≡ ts
to_list-of_list [] = refl
to_list-of_list (t ∷ ts) = ap (λ us. t ∷ us) (to_list-of_list ts)

abbrev tree_array : Tree → Option (List Tree)
tree_array (array ts) = some (to_list ts)
tree_array _ = none

abbrev tree_text : Tree → Option String
tree_text (text s) = some s
tree_text _ = none

abbrev tree_integer : Tree → Option ℕ
tree_integer (integer n) = some n
tree_integer _ = none

abbrev tree_float : Tree → Option ℕ
tree_float (float x) = some x
tree_float _ = none

abbrev tree_flag : Tree → Option Bool
tree_flag (flag b) = some b
tree_flag _ = none

abbrev trees : Json
trees = record {
  JsonValue = Tree;
  json_null = null;
  json_string = text;
  from_i64 = integer;
  from_f64 = float;
  from_bool = flag;
  json_array = λ ts. array (of_list ts);
  as_str = tree_text;
  as_i64 = tree_integer;
  as_f64 = tree_float;
  as_bool = tree_flag;
  as_array = tree_array;
  as_str-json_string = λ s. refl;
  as_i64-from_i64 = λ n word. refl;
  as_f64-from_f64 = λ x word finite. refl;
  as_bool-from_bool = λ b. refl;
  as_array-json_array = λ ts. ap some (to_list-of_list ts);
}

abbrev debug : DataType → String
debug dtype = "?"

-- [1, 2] and 1.5
abbrev two_ints : ScalarValue
two_ints =
    ScalarValue.list (
      ScalarValues.cons (ScalarValue.int 1)
        (ScalarValues.cons (ScalarValue.int 2) ScalarValues.nil))

abbrev total : AggExpr
total =
    alias
      (sum (
        binary_op (cast (col "age") (list_of_items int64)) eq
          (binary_op (literal two_ints) eq (literal (ScalarValue.float 0x3FF8000000000000)))))
      "total"

agg_read_back_example : try_from_agg_def trees (agg_expr_def trees debug total) ≡ some total
agg_read_back_example =
    agg_read_back trees debug total
      ((tt, (refl, refl, refl, tt)), ((omega arith, (omega arith, tt)), (omega arith, omega arith)))

abbrev one_int : ScalarValues
one_int = ScalarValues.cons (ScalarValue.int 7) ScalarValues.nil

null_headed_list_lost_example :
    json_to_scalar trees
      (scalar_dtype_name (ScalarValue.list (ScalarValues.cons ScalarValue.null one_int)))
      (scalar_to_json trees (ScalarValue.list (ScalarValues.cons ScalarValue.null one_int)))
    ≡ some (ScalarValue.list (ScalarValues.cons ScalarValue.null (all_null one_int)))
null_headed_list_lost_example = null_headed_list_lost trees one_int

-- A list of numbers that are not null.
cast_fields_lost_example :
    try_from_def trees (expr_def trees debug (cast (col "age") (list_of "element" int64 false [])))
    ≡ some (cast (col "age") (list_of_items int64))
cast_fields_lost_example = cast_fields_lost trees debug (col "age") "element" int64 false [] tt tt
