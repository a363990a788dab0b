-- ===== src/Schema/Validation.antt =====
-- crates/lynxes-core/src/schema/schema.rs: `validate_nodes`, `validate_edges` and `validate_graph`, with
-- the errors of crates/lynxes-core/src/error.rs that they report.
-- An Arrow array is its type, where it is null, and what is printed of each row. The map from label and
-- field to the set of values seen is the list of its entries. What derived Debug prints of a type and
-- what an error prints are parameters. The two loops over fields, which differ in the errors that
-- they make only, are one, with those errors as a `Scope`.
use lynxes_mojo.Common.{
  ℕ, suc, String, Bool, true, false, not, ◌&&◌, Option, none, some, List, [], ◌∷◌, ◌++◌, lookup,
  if◌then◌else◌, str_eq,
}
use lynxes_mojo.Outcome.{Outcome, ok, err, panicked, ◌>>=◌, GfError}
use lynxes_mojo.Plan.Expressions.{
  DataType, utf8, int8, int64, float64, boolean, null_type, list_of, other,
}
use lynxes_mojo.ExprJson.Tags.{text_append}
use lynxes_mojo.Schema.Types.{FieldDef, nullable, to_arrow_dtype}
use lynxes_mojo.Schema.Inheritance.{NodeSchema, Schema, edge_schema, resolved_fields}

pub data SchemaValidationError : Type 0 where
  undefined_node_label : (node_id label : String) → SchemaValidationError
  undefined_edge_type : (src dst edge_type : String) → SchemaValidationError
  missing_required_node_field : (node_id label field : String) → SchemaValidationError
  missing_required_edge_field : (src dst edge_type field : String) → SchemaValidationError
  node_field_type_mismatch : (label field expected actual : String) → SchemaValidationError
  edge_field_type_mismatch : (edge_type field expected actual : String) → SchemaValidationError
  unique_violation : (scope field value : String) → SchemaValidationError

pub record Column : Type 0 where
  pub data_type : DataType
  pub is_null : ℕ → Bool
  pub scalar_value_repr : ℕ → String

abbrev pub Columns : Type 0
Columns = List (String × Column)

pub record NodeRow : Type 0 where
  pub id : String
  pub labels : List (Option String)

pub record NodeTable : Type 0 where
  pub rows : List NodeRow
  pub columns : Columns

pub record EdgeRow : Type 0 where
  pub src : String
  pub dst : String
  pub edge_type : String

pub record EdgeTable : Type 0 where
  pub rows : List EdgeRow
  pub columns : Columns

-- A label or edge type, a field and a value of it.
abbrev pub Claim : Type 0
Claim = String × String × String

pub record Report : Type 0 where
  pub errors : List SchemaValidationError
  pub unique_trackers : List Claim

abbrev pub starting : List SchemaValidationError → Report
starting errors = record { errors = errors; unique_trackers = [] }

abbrev pub errors_of : Report → List SchemaValidationError
errors_of r = r.errors

abbrev pub push : SchemaValidationError → Report → Report
push failure r = record r { errors = r.errors ++ failure ∷ [] }

abbrev pub bool_eq : Bool → Bool → Bool
bool_eq true b = b
bool_eq false b = not b

abbrev pub metadata_eq : List (String × String) → List (String × String) → Bool
metadata_eq [] [] = true
metadata_eq ((key, value) ∷ m) ((key', value') ∷ m') =
    str_eq key key' && (str_eq value value' && metadata_eq m m')
metadata_eq _ _ = false

-- Derived equality.
unfoldable pub dtype_eq : DataType → DataType → Bool
dtype_eq utf8 utf8 = true
dtype_eq int8 int8 = true
dtype_eq int64 int64 = true
dtype_eq float64 float64 = true
dtype_eq boolean boolean = true
dtype_eq null_type null_type = true
dtype_eq (list_of n a k m) (list_of n' b k' m') =
    str_eq n n' && (dtype_eq a b && (bool_eq k k' && metadata_eq m m'))
dtype_eq (other a) (other b) = str_eq a b
dtype_eq _ _ = false

unfoldable pub seen : Claim → List Claim → Bool
seen claim [] = false
seen (owner, field, value) ((o, f, v) ∷ claims) =
    let later = seen (owner, field, value) claims in
    if str_eq o owner && str_eq f field && str_eq v value then true else later

abbrev pub is_none : {A : Type 0} → Option A → Bool
is_none none = true
is_none (some _) = false

-- `field.default.is_none() && !field.nullable()`
abbrev pub is_required : FieldDef → Bool
is_required field = is_none field.default && not (nullable field)

abbrev pub or_null : Outcome DataType → DataType
or_null (ok dtype) = dtype
or_null _ = null_type

unfoldable pub expected_dtype : FieldDef → DataType
unfolding to_arrow_dtype
expected_dtype field = or_null (to_arrow_dtype field.dtype)

-- The errors of one label of a node, or of one edge.
pub record Scope : Type 0 where
  pub owner : String
  pub missing : String → SchemaValidationError
  pub mismatch : String → DataType → DataType → SchemaValidationError
  pub violation : String → String → SchemaValidationError

abbrev pub check_null : Scope → ℕ → FieldDef → Column → Report → Report
check_null scope row field array r =
    if is_required field && array.is_null row then push (scope.missing field.name) r else r

abbrev pub track : Scope → FieldDef → String → Report → Report
track scope field value r =
    if seen (scope.owner, field.name, value) r.unique_trackers
    then push (scope.violation field.name value) r
    else record r { unique_trackers = (scope.owner, field.name, value) ∷ r.unique_trackers }

abbrev pub check_unique : Scope → ℕ → FieldDef → Column → Report → Report
check_unique scope row field array r =
    if field.unique && not (array.is_null row)
    then track scope field (array.scalar_value_repr row) r
    else r

abbrev pub check_column : Scope → ℕ → FieldDef → Option Column → Report → Report
check_column scope row field none r =
    if is_required field then push (scope.missing field.name) r else r
check_column scope row field (some array) r =
    if not (dtype_eq array.data_type (expected_dtype field))
    then push (scope.mismatch field.name (expected_dtype field) array.data_type) r
    else check_unique scope row field array (check_null scope row field array r)

unfoldable pub check_fields : Scope → ℕ → Columns → List FieldDef → Report → Report
unfolding lookup dtype_eq seen expected_dtype
check_fields scope row columns [] r = r
check_fields scope row columns (field ∷ fields) r =
    check_fields scope row columns fields
      (check_column scope row field (lookup field.name columns) r)

abbrev pub LabelFields : Type 0
LabelFields = List (String × List FieldDef)

module _ (debug : DataType → String) where
  abbrev pub edge_scope : EdgeRow → Scope
  edge_scope edge = record {
    owner = edge.edge_type;
    missing = missing_required_edge_field edge.src edge.dst edge.edge_type;
    mismatch = λ field expected actual.
        edge_field_type_mismatch edge.edge_type field (debug expected) (debug actual);
    violation = unique_violation (text_append "edge type " edge.edge_type);
  }

  unfoldable pub check_edge : Schema → Columns → ℕ → EdgeRow → Report → Report
  unfolding edge_schema check_fields
  check_edge s columns row edge r = elim (edge_schema s edge.edge_type) [
    | none ↦ push (undefined_edge_type edge.src edge.dst edge.edge_type) r
    | some schema ↦ check_fields (edge_scope edge) row columns schema.fields r
  ]

  unfoldable pub check_edges : Schema → Columns → ℕ → List EdgeRow → Report → Report
  unfolding check_edge
  check_edges s columns row [] r = r
  check_edges s columns row (edge ∷ edges) r =
      check_edges s columns (suc row) edges (check_edge s columns row edge r)

  unfoldable pub validate_edges : Schema → EdgeTable → List SchemaValidationError
  unfolding check_edges
  validate_edges s edges = elim s.edges [
    | [] ↦ []
    | _ ∷ _ ↦ errors_of (check_edges s edges.columns 0 edges.rows (starting []))
  ]

  abbrev pub node_scope : String → String → Scope
  node_scope node_id label = record {
    owner = label;
    missing = missing_required_node_field node_id label;
    mismatch = λ field expected actual.
        node_field_type_mismatch label field (debug expected) (debug actual);
    violation = unique_violation (text_append "node label " label);
  }

  -- The labels of one node, null entries left out.
  unfoldable pub check_labels :
      LabelFields → Columns → ℕ → String → List (Option String) → Report → Report
  unfolding lookup check_fields
  check_labels label_fields columns row node_id [] r = r
  check_labels label_fields columns row node_id (none ∷ labels) r =
      check_labels label_fields columns row node_id labels r
  check_labels label_fields columns row node_id (some label ∷ labels) r =
      check_labels label_fields columns row node_id labels (elim (lookup label label_fields) [
        | none ↦ push (undefined_node_label node_id label) r
        | some fields ↦ check_fields (node_scope node_id label) row columns fields r
      ])

  unfoldable pub check_nodes : LabelFields → Columns → ℕ → List NodeRow → Report → Report
  unfolding check_labels
  check_nodes label_fields columns row [] r = r
  check_nodes label_fields columns row (node ∷ nodes) r =
      check_nodes label_fields columns (suc row) nodes
        (check_labels label_fields columns row node.id node.labels r)

  module _ (to_string : GfError → String) where
    unfoldable pub load_labels :
        Schema
        → List (String × NodeSchema)
        → LabelFields × List SchemaValidationError
        → Outcome (LabelFields × List SchemaValidationError)
    unfolding resolved_fields
    load_labels s [] loaded = ok loaded
    load_labels s ((label, _) ∷ nodes) (label_fields, errors) = elim (resolved_fields s label) [
      | ok fields ↦ load_labels s nodes ((label, fields) ∷ label_fields, errors)
      | err failure ↦ load_labels s nodes (
        label_fields,
        errors
            ++ node_field_type_mismatch label "<schema>" "resolved schema" (to_string failure) ∷ [],
      )
      | panicked ↦ panicked
    ]

    unfoldable pub validate_nodes : Schema → NodeTable → Outcome (List SchemaValidationError)
    unfolding load_labels check_nodes
    validate_nodes s nodes = elim s.nodes [
      | [] ↦ ok []
      | _ ∷ _ ↦ do
        (label_fields, errors) ← load_labels s s.nodes ([], [])
        ok (errors_of (check_nodes label_fields nodes.columns 0 nodes.rows (starting errors)))
    ]

    unfoldable pub validate_graph :
        Schema → NodeTable → EdgeTable → Outcome (List SchemaValidationError)
    unfolding validate_nodes validate_edges
    validate_graph s nodes edges = do
      errors ← validate_nodes s nodes
      ok (errors ++ validate_edges s edges)
