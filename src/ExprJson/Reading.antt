-- ===== src/ExprJson/Reading.antt =====
-- crates/lynxes-core/src/query/expr.rs: reading a literal back from the JSON that is written for it.
use lynxes_mojo.Common.{
  subst, ℕ, zero, suc, ◌<◌, ◌≡◌, refl, ap, sym, ◌∙◌, String, some, List, arith, ◌>>=◌,
}
use lynxes_mojo.Plan.Expressions.{
  ScalarValue, null, string, int, float, bool, list, ScalarValues, nil, cons, DataType, utf8, int64,
  float64, boolean, null_type, list_of,
}
use lynxes_mojo.ExprJson.Tags.{
  list_tag, chars, list_inner-list_tag, chars-list_tag, list_tag-ne, dtype_to_name, IsNameable,
}
use lynxes_mojo.ExprJson.Literals.{
  Json, scalar_dtype_name, scalar_to_json, scalars_to_json, read_items, read_scalar, json_to_scalar,
  written_type, HasType, HaveType,
}

module _ (j : Json) where
  open j use {JsonValue}

  -- A list name is read as such.
  read_scalar-list_tag :
      (fuel : ℕ) (inner : String) (values : List JsonValue)
      → read_scalar j (suc fuel) (list_tag inner) (j.json_array values)
        ≡ (do items ← read_items j (read_scalar j fuel inner) values; some (list items))
  unfolding read_scalar
  read_scalar-list_tag fuel inner values =
      rw
        (
          list_tag-ne inner "String" refl,
          list_tag-ne inner "Int" refl,
          list_tag-ne inner "Float" refl,
          list_tag-ne inner "Bool" refl,
          list_tag-ne inner "Null" refl,
          list_inner-list_tag inner,
          j.as_array-json_array values,
        )
        refl

module _ (debug : DataType → String) where
  written_type-IsNameable : (v : ScalarValue) → IsNameable (written_type v)
  written_type-IsNameable null = tt
  written_type-IsNameable (string _) = tt
  written_type-IsNameable (int _) = tt
  written_type-IsNameable (float _) = tt
  written_type-IsNameable (bool _) = tt
  written_type-IsNameable (list nil) = (refl, refl, refl, tt)
  written_type-IsNameable (list (cons v _)) = (refl, refl, refl, written_type-IsNameable v)

  scalar_dtype_name-eq :
      (v : ScalarValue) → scalar_dtype_name v ≡ dtype_to_name debug (written_type v)
  unfolding scalar_dtype_name dtype_to_name
  scalar_dtype_name-eq null = refl
  scalar_dtype_name-eq (string _) = refl
  scalar_dtype_name-eq (int _) = refl
  scalar_dtype_name-eq (float _) = refl
  scalar_dtype_name-eq (bool _) = refl
  scalar_dtype_name-eq (list nil) = refl
  scalar_dtype_name-eq (list (cons v _)) = ap list_tag (scalar_dtype_name-eq v)

  module _ (j : Json) where
    open j use {JsonValue}

    mutual
      unfolding read_scalar dtype_to_name scalar_to_json

      read-HasType :
          (dtype : DataType) (v : ScalarValue) (fuel : ℕ)
          → HasType dtype v
          → chars (dtype_to_name debug dtype) < fuel
          → read_scalar j fuel (dtype_to_name debug dtype) (scalar_to_json j v) ≡ some v
      read-HasType dtype v zero typed enough = absurd (omega (arith, enough))
      read-HasType null_type null (suc fuel) typed enough = refl
      read-HasType utf8 (string s) (suc fuel) typed enough = rw (j.as_str-json_string s) refl
      read-HasType int64 (int n) (suc fuel) typed enough = rw (j.as_i64-from_i64 n typed) refl
      read-HasType float64 (float x) (suc fuel) typed enough =
          rw (j.as_f64-from_f64 x typed.0 typed.1) refl
      read-HasType boolean (bool b) (suc fuel) typed enough = rw (j.as_bool-from_bool b) refl
      read-HasType (list_of name item nullable metadata) (list values) (suc fuel) typed enough =
          read_scalar-list_tag j fuel (dtype_to_name debug item) (scalars_to_json j values)
          ∙ (let items =
                read-HaveType item values fuel typed
                  (omega (arith, chars-list_tag (dtype_to_name debug item), enough)) in
              rw items refl)
      read-HasType dtype v (suc fuel) typed enough = absurd typed

      read-HaveType :
          (item : DataType) (values : ScalarValues) (fuel : ℕ)
          → HaveType item values
          → chars (dtype_to_name debug item) < fuel
          → read_items j (read_scalar j fuel (dtype_to_name debug item)) (scalars_to_json j values)
            ≡ some values
      read-HaveType item nil fuel typed enough = refl
      read-HaveType item (cons v vs) fuel typed enough =
          rw (read-HasType item v fuel typed.0 enough, read-HaveType item vs fuel typed.1 enough)
            refl

  -- The literal reads back from what is written for it.
  pub json_to_scalar-scalar_to_json :
      (j : Json) (v : ScalarValue)
      → HasType (written_type v) v
      → json_to_scalar j (scalar_dtype_name v) (scalar_to_json j v) ≡ some v
  unfolding json_to_scalar
  json_to_scalar-scalar_to_json j v typed =
      subst (λ name. json_to_scalar j name (scalar_to_json j v) ≡ some v)
        (sym (scalar_dtype_name-eq v))
        (read-HasType j (written_type v) v (suc (chars (dtype_to_name debug (written_type v))))
          typed (omega arith))

-- As many nulls as values.
abbrev pub all_null : ScalarValues → ScalarValues
all_null nil = nil
all_null (cons _ values) = cons null (all_null values)

module _ (j : Json) where
  read_items-null :
      (fuel : ℕ) (values : ScalarValues)
      → read_items j (read_scalar j (suc fuel) "Null") (scalars_to_json j values)
        ≡ some (all_null values)
  unfolding read_scalar scalar_to_json
  read_items-null fuel nil = refl
  read_items-null fuel (cons v vs) = rw (read_items-null fuel vs) refl

  -- A list literal that starts with a null is written under the item type Null, and reading it back
  -- gives, without an error, a list of as many nulls, whatever the other items were.
  pub null_headed_list_lost :
      (values : ScalarValues)
      → json_to_scalar j
          (scalar_dtype_name (list (cons null values)))
          (scalar_to_json j (list (cons null values)))
        ≡ some (list (cons null (all_null values)))
  unfolding json_to_scalar scalar_dtype_name scalar_to_json
  null_headed_list_lost values =
      read_scalar-list_tag j 10 "Null" (scalars_to_json j (cons null values))
      ∙ (let items = read_items-null 9 (cons null values) in rw items refl)
