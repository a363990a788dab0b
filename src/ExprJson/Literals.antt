-- ===== src/ExprJson/Literals.antt =====
-- crates/lynxes-core/src/query/expr.rs: literals as JSON values, `scalar_dtype_name`,
-- `scalar_to_json` and `json_to_scalar`.
-- The type of JSON values and its operations are serde_json's: the record `Json`, with what its
-- documentation says of reading back a value that was made. An f64 that is no finite number becomes
-- JSON null there, so that law has a condition.
use Prim.Native.Nat.{◌/◌}
use lynxes_mojo.Common.{
  ℕ, zero, suc, ◌%◌, ◌^◌, ◌<◌, ◌≡◌, ◌≢◌, String, Bool, Option, none, some, List, [], ◌∷◌,
  if◌then◌else◌, str_eq, ◌>>=◌,
}
use lynxes_mojo.Plan.Expressions.{
  ScalarValue, null, string, int, float, bool, list, ScalarValues, nil, cons, DataType, utf8, int64,
  float64, boolean, null_type, list_of, list_of_items,
}
use lynxes_mojo.ExprJson.Tags.{list_tag, list_inner, chars}

-- A pattern of 64 bits, and one that is a finite f64: not all of the exponent's bits are set.
abbrev pub IsWord : ℕ → Type 0
IsWord n = n < 2 ^ 64

abbrev pub IsFinite : ℕ → Type 0
IsFinite x = (x / 2 ^ 52) % 2 ^ 11 ≢ 2047

pub record Json : Type 1 where
  pub JsonValue : Type 0
  pub json_null : JsonValue
  pub json_string : String → JsonValue
  pub from_i64 : ℕ → JsonValue
  pub from_f64 : ℕ → JsonValue
  pub from_bool : Bool → JsonValue
  pub json_array : List JsonValue → JsonValue
  pub as_str : JsonValue → Option String
  pub as_i64 : JsonValue → Option ℕ
  pub as_f64 : JsonValue → Option ℕ
  pub as_bool : JsonValue → Option Bool
  pub as_array : JsonValue → Option (List JsonValue)
  pub as_str-json_string : (s : String) → as_str (json_string s) ≡ some s
  pub as_i64-from_i64 : (n : ℕ) → IsWord n → as_i64 (from_i64 n) ≡ some n
  pub as_f64-from_f64 : (x : ℕ) → IsWord x → IsFinite x → as_f64 (from_f64 x) ≡ some x
  pub as_bool-from_bool : (b : Bool) → as_bool (from_bool b) ≡ some b
  pub as_array-json_array : (vs : List JsonValue) → as_array (json_array vs) ≡ some vs

unfoldable pub scalar_dtype_name : ScalarValue → String
unfolding list_tag
scalar_dtype_name null = "Null"
scalar_dtype_name (string _) = "String"
scalar_dtype_name (int _) = "Int"
scalar_dtype_name (float _) = "Float"
scalar_dtype_name (bool _) = "Bool"
scalar_dtype_name (list nil) = list_tag "Null"
scalar_dtype_name (list (cons value _)) = list_tag (scalar_dtype_name value)

module _ (j : Json) where
  open j use {JsonValue}

  unfoldable mutual
    pub scalar_to_json : ScalarValue → JsonValue
    scalar_to_json null = j.json_null
    scalar_to_json (string value) = j.json_string value
    scalar_to_json (int value) = j.from_i64 value
    scalar_to_json (float value) = j.from_f64 value
    scalar_to_json (bool value) = j.from_bool value
    scalar_to_json (list values) = j.json_array (scalars_to_json values)

    pub scalars_to_json : ScalarValues → List JsonValue
    scalars_to_json nil = []
    scalars_to_json (cons value values) = scalar_to_json value ∷ scalars_to_json values

  abbrev pub read_items : (JsonValue → Option ScalarValue) → List JsonValue → Option ScalarValues
  read_items read [] = some nil
  read_items read (item ∷ array) = do
    first ← read item
    items ← read_items read array
    some (cons first items)

  -- The recursion is on the length of the name, which is shorter for the items.
  unfoldable pub read_scalar : ℕ → String → JsonValue → Option ScalarValue
  unfolding list_inner
  read_scalar zero dtype value = none
  read_scalar (suc fuel) dtype value =
      if str_eq dtype "Null"
      then some null
      else if str_eq dtype "String"
      then (do s ← j.as_str value; some (string s))
      else if str_eq dtype "Int"
      then (do n ← j.as_i64 value; some (int n))
      else if str_eq dtype "Float"
      then (do x ← j.as_f64 value; some (float x))
      else if str_eq dtype "Bool"
      then (do b ← j.as_bool value; some (bool b))
      else elim (list_inner dtype) [
        | none ↦ none
        | some inner ↦ do
          array ← j.as_array value
          items ← read_items (read_scalar fuel inner) array
          some (list items)
      ]

  unfoldable pub json_to_scalar : String → JsonValue → Option ScalarValue
  unfolding read_scalar
  json_to_scalar dtype value = read_scalar (suc (chars dtype)) dtype value

-- The type under whose name a literal is written: that of a list is its first item's.
abbrev pub written_type : ScalarValue → DataType
written_type null = null_type
written_type (string _) = utf8
written_type (int _) = int64
written_type (float _) = float64
written_type (bool _) = boolean
written_type (list nil) = list_of_items null_type
written_type (list (cons value _)) = list_of_items (written_type value)

-- A value of a type, with numbers that JSON has.
abbrev mutual
  pub HasType : DataType → ScalarValue → Type 0
  HasType null_type null = Unit
  HasType utf8 (string _) = Unit
  HasType int64 (int n) = IsWord n
  HasType float64 (float x) = IsWord x × IsFinite x
  HasType boolean (bool _) = Unit
  HasType (list_of _ item _ _) (list values) = HaveType item values
  HasType _ _ = ⊥

  pub HaveType : DataType → ScalarValues → Type 0
  HaveType item nil = Unit
  HaveType item (cons value values) = HasType item value × HaveType item values
