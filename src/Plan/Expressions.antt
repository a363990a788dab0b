-- ===== src/Plan/Expressions.antt =====
-- crates/lynxes-core/src/query/expr.rs: symbolic expressions, aggregations and patterns.
-- An i64 and an f64 are numbers: its 64-bit pattern.
use lynxes_mojo.Common.{ℕ, String, List, [], Option, Bool, true}
use lynxes_mojo.Direction.{Direction}

mutual
  pub data ScalarValue : Type 0 where
    null : ScalarValue
    string : String → ScalarValue
    int : ℕ → ScalarValue
    float : ℕ → ScalarValue
    bool : Bool → ScalarValue
    list : ScalarValues → ScalarValue

  pub data ScalarValues : Type 0 where
    nil : ScalarValues
    cons : ScalarValue → ScalarValues → ScalarValues

-- The Arrow types that the expression code tells apart; `other` is any further one, by its name. A
-- list type has the name, the type, the nullability and the metadata of its item field,
-- the metadata in the order of their keys.
pub data DataType : Type 0 where
  utf8 int8 int64 float64 boolean null_type : DataType
  list_of : String → DataType → Bool → List (String × String) → DataType
  other : String → DataType

-- `DataType::List(Arc::new(Field::new("item", item, true)))`
abbrev pub list_of_items : DataType → DataType
list_of_items item = list_of "item" item true []

pub data BinaryOp : Type 0 where
  eq not_eq gt gt_eq lt lt_eq add sub mul div : BinaryOp

pub data UnaryOp : Type 0 where
  neg : UnaryOp

pub data StringOp : Type 0 where
  contains starts_with ends_with : StringOp

pub data Expr : Type 0 where
  col : String → Expr
  literal : ScalarValue → Expr
  binary_op : Expr → BinaryOp → Expr → Expr
  unary_op : UnaryOp → Expr → Expr
  list_contains : Expr → Expr → Expr
  cast : Expr → DataType → Expr
  and_ or_ : Expr → Expr → Expr
  not_ : Expr → Expr
  pattern_col : String → String → Expr
  string_op : StringOp → Expr → Expr → Expr

pub data AggExpr : Type 0 where
  count : AggExpr
  sum mean list first last : Expr → AggExpr
  alias : AggExpr → String → AggExpr

pub data EdgeTypeSpec : Type 0 where
  single : String → EdgeTypeSpec
  multiple : List String → EdgeTypeSpec
  any : EdgeTypeSpec

pub record PatternStep : Type 0 where
  pub from_alias : String
  pub edge_alias : Option String
  pub edge_type : EdgeTypeSpec
  pub direction : Direction
  pub to_alias : String

pub record PatternNodeConstraint : Type 0 where
  pub label : Option String

pub record PatternStepConstraint : Type 0 where
  pub optional : Bool
  pub min_hops : ℕ
  pub max_hops : ℕ

pub record Pattern : Type 0 where
  pub steps : List PatternStep
  pub node_constraints : List (String × PatternNodeConstraint)
  pub step_constraints : List PatternStepConstraint
