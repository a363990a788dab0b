-- ===== src/Schema/Types.antt =====
-- crates/lynxes-core/src/schema/types.rs: declared types, literal values and fields.
-- An i64 and an f64 are numbers: its 64-bit pattern. The errors are those of the source without their
-- messages, and a list type is its item type: the item field is always named `item` and nullable.
use lynxes_mojo.Common.{
  ℕ, String, Bool, true, false, ◌&&◌, ◌||◌, Option, none, some, if◌then◌else◌, not,
}
use lynxes_mojo.Outcome.{Outcome, ok, err, ◌>>=◌, schema_mismatch, type_mismatch}
use lynxes_mojo.Plan.Expressions.{DataType, utf8, int64, float64, boolean, list_of_items, other}

pub data GfType : Type 0 where
  string int float bool date date_time duration any : GfType
  list optional : GfType → GfType

unfoldable pub is_optional : GfType → Bool
is_optional (optional _) = true
is_optional _ = false

unfoldable pub is_list : GfType → Bool
is_list (list _) = true
is_list _ = false

unfoldable pub inner : GfType → Option GfType
inner (list item) = some item
inner (optional item) = some item
inner _ = none

unfoldable pub validate : GfType → Outcome {0} Unit
unfolding is_optional
validate (list item) = do _ ← validate item; if is_optional item then err schema_mismatch else ok tt
validate (optional item) = do
  _ ← validate item
  if is_optional item then err schema_mismatch else ok tt
validate _ = ok tt

abbrev pub date32 : DataType
date32 = other "Date32"

abbrev pub timestamp : DataType
timestamp = other "Timestamp(Microsecond, None)"

abbrev pub duration_us : DataType
duration_us = other "Duration(Microsecond)"

unfoldable pub to_arrow_dtype : GfType → Outcome DataType
unfolding validate
to_arrow_dtype string = ok utf8
to_arrow_dtype any = ok utf8
to_arrow_dtype int = ok int64
to_arrow_dtype float = ok float64
to_arrow_dtype bool = ok boolean
to_arrow_dtype date = ok date32
to_arrow_dtype date_time = ok timestamp
to_arrow_dtype duration = ok duration_us
to_arrow_dtype (list item) = do
  _ ← validate (list item)
  dtype ← to_arrow_dtype item
  ok (list_of_items dtype)
to_arrow_dtype (optional item) = do _ ← validate (optional item); to_arrow_dtype item

-- Derived equality.
unfoldable pub gf_type_eq : GfType → GfType → Bool
gf_type_eq string string = true
gf_type_eq int int = true
gf_type_eq float float = true
gf_type_eq bool bool = true
gf_type_eq date date = true
gf_type_eq date_time date_time = true
gf_type_eq duration duration = true
gf_type_eq any any = true
gf_type_eq (list a) (list b) = gf_type_eq a b
gf_type_eq (optional a) (optional b) = gf_type_eq a b
gf_type_eq _ _ = false

mutual
  pub data GfValue : Type 0 where
    null : GfValue
    string : String → GfValue
    int float : ℕ → GfValue
    bool : Bool → GfValue
    date date_time : String → GfValue
    list : GfValues → GfValue
    object : GfEntries → GfValue

  pub data GfValues : Type 0 where
    nil : GfValues
    cons : GfValue → GfValues → GfValues

  pub data GfEntries : Type 0 where
    empty : GfEntries
    entry : String → GfValue → GfEntries → GfEntries

abbrev is_null : GfValue → Bool
is_null GfValue.null = true
is_null _ = false

all_values : (GfValue → Bool) → GfValues → Bool
all_values test GfValues.nil = true
all_values test (GfValues.cons value values) = test value && all_values test values

unfoldable pub gf_value_matches_type : GfValue → GfType → Bool
unfolding all_values
gf_value_matches_type GfValue.null (GfType.optional _) = true
gf_value_matches_type GfValue.null _ = false
gf_value_matches_type (GfValue.string _) GfType.string = true
gf_value_matches_type (GfValue.string _) GfType.any = true
gf_value_matches_type (GfValue.int _) GfType.int = true
gf_value_matches_type (GfValue.int _) GfType.any = true
gf_value_matches_type (GfValue.float _) GfType.float = true
gf_value_matches_type (GfValue.float _) GfType.any = true
gf_value_matches_type (GfValue.bool _) GfType.bool = true
gf_value_matches_type (GfValue.bool _) GfType.any = true
gf_value_matches_type (GfValue.date _) GfType.date = true
gf_value_matches_type (GfValue.date _) GfType.any = true
gf_value_matches_type (GfValue.date_time _) GfType.date_time = true
gf_value_matches_type (GfValue.date_time _) GfType.any = true
gf_value_matches_type (GfValue.object _) GfType.any = true
gf_value_matches_type (GfValue.list values) (GfType.list item) =
    all_values (λ value. is_null value || gf_value_matches_type value item) values
gf_value_matches_type value (GfType.optional item) = gf_value_matches_type value item
gf_value_matches_type _ _ = false

pub record FieldDef : Type 0 where
  pub name : String
  pub dtype : GfType
  pub unique : Bool
  pub indexed : Bool
  pub default : Option GfValue

unfoldable pub new_field : String → GfType → Outcome FieldDef
unfolding validate
new_field name dtype = do
  _ ← validate dtype
  ok (record { name = name; dtype = dtype; unique = false; indexed = false; default = none })

abbrev pub with_unique : FieldDef → Bool → FieldDef
with_unique field unique = record field { unique = unique }

abbrev pub with_indexed : FieldDef → Bool → FieldDef
with_indexed field indexed = record field { indexed = indexed }

unfoldable pub validate_default : FieldDef → Option GfValue → Outcome {0} Unit
unfolding validate gf_value_matches_type
validate_default field none = ok tt
validate_default field (some value) = do
  _ ← validate field.dtype
  if not (gf_value_matches_type value field.dtype) then err type_mismatch else ok tt

unfoldable pub with_default : FieldDef → GfValue → Outcome FieldDef
unfolding validate_default
with_default field value = do
  _ ← validate_default field (some value)
  ok (record field { default = some value })

abbrev pub nullable : FieldDef → Bool
nullable field = is_optional field.dtype

-- An Arrow field.
pub record Field : Type 0 where
  pub name : String
  pub dtype : DataType
  pub is_nullable : Bool

unfoldable pub to_arrow_field : FieldDef → Outcome Field
unfolding validate_default to_arrow_dtype
to_arrow_field field = do
  _ ← validate field.dtype
  _ ← validate_default field field.default
  dtype ← to_arrow_dtype field.dtype
  ok (record { name = field.name; dtype = dtype; is_nullable = nullable field })
