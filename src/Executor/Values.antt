-- ===== src/Executor/Values.antt =====
-- crates/lynxes-lazy/src/query/executor/expr_eval.rs: values and the operations on them.
-- An i64 is its 64-bit pattern and its arithmetic wraps, as in a release build. An f64 is its
-- pattern too, and its operations are the parameter `Floats`.
use Prim.Native.Nat.{Ordering, compare}
use Prim.Native.String.{compare as compare_text}
use Prim.Native.String
use text.Mathlib.Text.{starts_with as text_starts_with, find?}
use lynxes_mojo.Common.{
  ℕ, ◌+◌, ◌-◌, ◌*◌, ◌%◌, ◌^◌, String, Bool, true, false, not, ◌&&◌, ◌||◌, Option, none, some, leb,
  ◌==◌, if◌then◌else◌, str_eq,
}
use Prim.Native.Nat.{◌/◌}
use lynxes_mojo.Outcome.{Outcome, ok, err, panicked, ◌>>=◌, type_mismatch, invalid_cast}
use lynxes_mojo.Plan.Expressions.{
  ScalarValue, ScalarValues, DataType, utf8, int64, float64, boolean, BinaryOp, StringOp,
}

mutual
  pub data Value : Type 0 where
    null : Value
    string : String → Value
    int : ℕ → Value
    float : ℕ → Value
    bool : Bool → Value
    list : Values → Value

  pub data Values : Type 0 where
    nil : Values
    cons : Value → Values → Values

-- IEEE 754 binary64 on patterns: what the language gives and this library does not compute.
pub record Floats : Type 0 where
  pub of_int : ℕ → ℕ
  pub to_int : ℕ → ℕ
  pub add : ℕ → ℕ → ℕ
  pub sub : ℕ → ℕ → ℕ
  pub mul : ℕ → ℕ → ℕ
  pub div : ℕ → ℕ → ℕ
  pub neg : ℕ → ℕ
  pub equal : ℕ → ℕ → Bool
  pub partial_cmp : ℕ → ℕ → Option Ordering

abbrev pub wrap_64 : ℕ → ℕ
wrap_64 n = n % 2 ^ 64

abbrev is_negative : ℕ → Bool
is_negative a = leb (2 ^ 63) a

abbrev magnitude : ℕ → ℕ
magnitude a = if is_negative a then 2 ^ 64 - a else a

abbrev negate : ℕ → ℕ
negate a = wrap_64 (2 ^ 64 - a)

abbrev bool_eq : Bool → Bool → Bool
bool_eq a b = if a then b else not b

-- Division panics by zero and at the smallest number by -1.
unfoldable pub i64_div : ℕ → ℕ → Outcome ℕ
i64_div a b =
    if b == 0 || (a == 2 ^ 63 && b == 2 ^ 64 - 1)
    then panicked
    else let q = magnitude a / magnitude b in
      if bool_eq (is_negative a) (is_negative b) then ok q else ok (negate q)

unfoldable pub i64_cmp : ℕ → ℕ → Ordering
i64_cmp a b = compare (wrap_64 (a + 2 ^ 63)) (wrap_64 (b + 2 ^ 63))

abbrev bool_cmp : Bool → Bool → Ordering
bool_cmp false true = Ordering.lt
bool_cmp true false = Ordering.gt
bool_cmp _ _ = Ordering.eq

abbrev pub ordering_eq : Ordering → Ordering → Bool
ordering_eq Ordering.lt Ordering.lt = true
ordering_eq Ordering.eq Ordering.eq = true
ordering_eq Ordering.gt Ordering.gt = true
ordering_eq _ _ = false

unfoldable mutual
  pub convert_scalar : ScalarValue → Value
  convert_scalar ScalarValue.null = null
  convert_scalar (ScalarValue.string s) = string s
  convert_scalar (ScalarValue.int n) = int n
  convert_scalar (ScalarValue.float x) = float x
  convert_scalar (ScalarValue.bool b) = bool b
  convert_scalar (ScalarValue.list vs) = list (convert_scalars vs)

  pub convert_scalars : ScalarValues → Values
  convert_scalars ScalarValues.nil = nil
  convert_scalars (ScalarValues.cons v vs) = cons (convert_scalar v) (convert_scalars vs)

module _ (fl : Floats) where
  -- The derived `PartialEq`.
  unfoldable mutual
    pub value_eq : Value → Value → Bool
    value_eq null null = true
    value_eq (string a) (string b) = str_eq a b
    value_eq (int a) (int b) = a == b
    value_eq (float a) (float b) = fl.equal a b
    value_eq (bool a) (bool b) = bool_eq a b
    value_eq (list a) (list b) = values_eq a b
    value_eq _ _ = false

    pub values_eq : Values → Values → Bool
    values_eq nil nil = true
    values_eq (cons a as_) (cons b bs) = value_eq a b && values_eq as_ bs
    values_eq _ _ = false

  unfoldable pub partial_cmp : Value → Value → Option Ordering
  unfolding i64_cmp
  partial_cmp (string a) (string b) = some (compare_text a b)
  partial_cmp (int a) (int b) = some (i64_cmp a b)
  partial_cmp (float a) (float b) = fl.partial_cmp a b
  partial_cmp (bool a) (bool b) = some (bool_cmp a b)
  partial_cmp (int a) (float b) = fl.partial_cmp (fl.of_int a) b
  partial_cmp (float a) (int b) = fl.partial_cmp a (fl.of_int b)
  partial_cmp _ _ = none

  abbrev is_null : Value → Bool
  is_null null = true
  is_null _ = false

  -- `test` says which orderings pass.
  abbrev ordered : Value → Value → (Ordering → Bool) → Outcome Value
  ordered left right test =
      if is_null left || is_null right then ok (bool false) else elim (partial_cmp left right) [
        | some ordering ↦ ok (bool (test ordering))
        | none ↦ err type_mismatch
      ]

  unfoldable pub compare_values : Value → Value → Ordering → Outcome Value
  unfolding partial_cmp
  compare_values left right expected = ordered left right (λ o. ordering_eq o expected)

  unfoldable pub compare_values_inclusive : Value → Value → Ordering → Outcome Value
  unfolding partial_cmp
  compare_values_inclusive left right expected =
      ordered left right (λ o. ordering_eq o expected || ordering_eq o Ordering.eq)

  unfoldable pub arithmetic_values :
      Value → Value → (ℕ → ℕ → Outcome ℕ) → (ℕ → ℕ → ℕ) → Outcome Value
  arithmetic_values (int a) (int b) int_op float_op = do c ← int_op a b; ok (int c)
  arithmetic_values (int a) (float b) int_op float_op = ok (float (float_op (fl.of_int a) b))
  arithmetic_values (float a) (int b) int_op float_op = ok (float (float_op a (fl.of_int b)))
  arithmetic_values (float a) (float b) int_op float_op = ok (float (float_op a b))
  arithmetic_values _ _ int_op float_op = err type_mismatch

  -- The operators of `evaluate_binary`, and of `evaluate_binary_values`, which has the same arms.
  unfoldable pub evaluate_binary_values : Value → BinaryOp → Value → Outcome Value
  unfolding value_eq values_eq compare_values compare_values_inclusive arithmetic_values i64_div
  evaluate_binary_values l BinaryOp.eq r = ok (bool (value_eq l r))
  evaluate_binary_values l BinaryOp.not_eq r = ok (bool (not (value_eq l r)))
  evaluate_binary_values l BinaryOp.gt r = compare_values l r Ordering.gt
  evaluate_binary_values l BinaryOp.gt_eq r = compare_values_inclusive l r Ordering.gt
  evaluate_binary_values l BinaryOp.lt r = compare_values l r Ordering.lt
  evaluate_binary_values l BinaryOp.lt_eq r = compare_values_inclusive l r Ordering.lt
  evaluate_binary_values l BinaryOp.add r =
      arithmetic_values l r (λ a b. ok (wrap_64 (a + b))) fl.add
  evaluate_binary_values l BinaryOp.sub r =
      arithmetic_values l r (λ a b. ok (wrap_64 (a + 2 ^ 64 - b))) fl.sub
  evaluate_binary_values l BinaryOp.mul r =
      arithmetic_values l r (λ a b. ok (wrap_64 (a * b))) fl.mul
  evaluate_binary_values l BinaryOp.div r = arithmetic_values l r i64_div fl.div

  -- `UnaryOp::Neg`
  unfoldable pub negate_value : Value → Outcome Value
  negate_value (int a) = ok (int (negate a))
  negate_value (float a) = ok (float (fl.neg a))
  negate_value _ = err type_mismatch

  unfoldable pub cast_value : Value → DataType → Outcome Value
  cast_value null _ = ok null
  cast_value (int a) float64 = ok (float (fl.of_int a))
  cast_value (int a) int64 = ok (int a)
  cast_value (float a) float64 = ok (float a)
  cast_value (float a) int64 = ok (int (fl.to_int a))
  cast_value (string s) utf8 = ok (string s)
  cast_value (bool b) boolean = ok (bool b)
  cast_value _ _ = err invalid_cast

  unfoldable pub any_equal : Values → Value → Bool
  unfolding value_eq values_eq
  any_equal nil item = false
  any_equal (cons v vs) item = value_eq v item || any_equal vs item

  unfoldable pub list_contains_value : Value → Value → Outcome Value
  unfolding any_equal
  list_contains_value (list vs) item = ok (bool (any_equal vs item))
  list_contains_value _ item = err type_mismatch

abbrev pub not_value : Value → Outcome Value
not_value (bool b) = ok (bool (not b))
not_value _ = err type_mismatch

abbrev pub boolean_values : (Bool → Bool → Bool) → Value → Value → Outcome Value
boolean_values f (bool l) (bool r) = ok (bool (f l r))
boolean_values f _ _ = err type_mismatch

abbrev has_text : String → String → Bool
has_text s p = elim (find? s p) [ some _ ↦ true | none ↦ false ]

abbrev ends_with_text : String → String → Bool
ends_with_text s p =
    leb (Prim.Native.String.len p) (Prim.Native.String.len s)
    && str_eq
        (Prim.Native.String.slice s (Prim.Native.String.len s - Prim.Native.String.len p)
          (Prim.Native.String.len s))
        p

unfoldable pub text_test : StringOp → String → String → Bool
text_test StringOp.contains s p = has_text s p
text_test StringOp.starts_with s p = text_starts_with s p
text_test StringOp.ends_with s p = ends_with_text s p

unfoldable pub string_op_value : StringOp → Value → Value → Outcome Value
unfolding text_test
string_op_value op (string s) (string p) = ok (bool (text_test op s p))
string_op_value op _ _ = err type_mismatch
