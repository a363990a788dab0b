-- ===== src/Schema/Conforming.antt =====
-- crates/lynxes-core/src/schema/schema.rs: the edges and nodes in which validation finds no error.
use lynxes_mojo.Common.{
  ℕ, suc, ◌≡◌, ◌↔◌, refl, subst, String, Bool, true, false, not, ◌&&◌, Option, none, some, List, [],
  ◌∷◌, ◌++◌, lookup, if◌then◌else◌, Bool-cases, Option-cases, inl, inr, All,
}
use lynxes_mojo.Plan.Expressions.{DataType}
use lynxes_mojo.Schema.Types.{FieldDef}
use lynxes_mojo.Schema.Inheritance.{EdgeSchema, Schema, edge_schema}
use lynxes_mojo.Schema.Validation.{
  undefined_edge_type, Column, Columns, Claim, Report, EdgeRow, push, dtype_eq, seen, is_required,
  expected_dtype, Scope, check_null, track, check_unique, check_column, check_fields, edge_scope,
  check_edge, check_edges,
}
use lynxes_mojo.Schema.Checks.{
  Checks, Checks-nothing, Checks-then, Checks-never, Checks-if, push-not_empty, dtype_eq_sound,
  dtype_eq_refl,
}

-- What a field asks of a row: without a column it is not required; a column is of the field's type, and
-- not null in the row if the field is required.
abbrev pub ColumnConforms : ℕ → FieldDef → Option Column → Type 0
ColumnConforms row field none = is_required field ≡ false
ColumnConforms row field (some array) =
    (array.data_type ≡ expected_dtype field) × ((is_required field && array.is_null row) ≡ false)

abbrev pub FieldsConform : Columns → ℕ → List FieldDef → Type 0
FieldsConform columns row = All (λ field. ColumnConforms row field (lookup field.name columns))

-- The value of a unique field, unless it is null.
abbrev pub column_claims : String → ℕ → FieldDef → Option Column → List Claim
column_claims owner row field none = []
column_claims owner row field (some array) =
    if field.unique && not (array.is_null row)
    then (owner, field.name, array.scalar_value_repr row) ∷ []
    else []

abbrev pub field_claims : String → Columns → ℕ → List FieldDef → List Claim
field_claims owner columns row [] = []
field_claims owner columns row (field ∷ fields) =
    column_claims owner row field (lookup field.name columns)
    ++ field_claims owner columns row fields

pub Checks-map :
    (step : Report → Report) (P Q : Type 0) (claims : List Claim)
    → P ↔ Q
    → Checks step P claims
    → Checks step Q claims
Checks-map step P Q claims iff c = record {
  passes = λ r q h. c.passes r (iff.1 q) h;
  clean = λ r h. let (start, p, new) = c.clean r h in (start, iff.0 p, new);
}

module _ (scope : Scope) (row : ℕ) (field : FieldDef) where
  track-Checks :
      (value : String)
      → Checks (track scope field value) Unit ((scope.owner, field.name, value) ∷ [])
  track-Checks value = record {
    passes = λ r p h. rw (track, h.0) refl;
    clean = λ r h. elim (Bool-cases (seen (scope.owner, field.name, value) r.unique_trackers)) [
      | inl old ↦
          absurd (push-not_empty (scope.violation field.name value) r (rw (track, old) at h))
      | inr new ↦ let start : r.errors ≡ [] = rw (track, new) at h in (start, tt, (new, tt))
    ];
  }

  check_unique-Checks :
      (array : Column) (b : Bool)
      → Checks
          (λ r. if b then track scope field (array.scalar_value_repr row) r else r)
          Unit
          (if b then (scope.owner, field.name, array.scalar_value_repr row) ∷ [] else [])
  check_unique-Checks array true = track-Checks (array.scalar_value_repr row)
  check_unique-Checks array false = Checks-nothing

  check_typed-Checks :
      (array : Column) (b : Bool)
      → dtype_eq array.data_type (expected_dtype field) ≡ b
      → Checks
          (λ r.
            if not b
            then push (scope.mismatch field.name (expected_dtype field) array.data_type) r
            else check_unique scope row field array (check_null scope row field array r))
          (ColumnConforms row field (some array))
          (column_claims scope.owner row field (some array))
  check_typed-Checks array true same =
      Checks-map _ _ (ColumnConforms row field (some array)) _
        (λ h. (dtype_eq_sound array.data_type (expected_dtype field) same, h.0), λ h. (h.1, tt))
        (Checks-then (check_null scope row field array) (check_unique scope row field array)
          ((is_required field && array.is_null row) ≡ false) Unit []
          (column_claims scope.owner row field (some array))
          (Checks-if (is_required field && array.is_null row) (scope.missing field.name))
          (check_unique-Checks array (field.unique && not (array.is_null row))))
  check_typed-Checks array false differ =
      Checks-never (scope.mismatch field.name (expected_dtype field) array.data_type) _ _ (λ h.
        let same : dtype_eq array.data_type (expected_dtype field) ≡ true =
          rw h.0 (dtype_eq_refl (expected_dtype field)) in
        cc)

  check_column-Checks :
      (column : Option Column)
      → Checks
          (check_column scope row field column)
          (ColumnConforms row field column)
          (column_claims scope.owner row field column)
  check_column-Checks none = Checks-if (is_required field) (scope.missing field.name)
  check_column-Checks (some array) =
      check_typed-Checks array (dtype_eq array.data_type (expected_dtype field)) refl

pub check_fields-Checks :
    (scope : Scope) (columns : Columns) (row : ℕ) (fields : List FieldDef)
    → Checks
        (check_fields scope row columns fields)
        (FieldsConform columns row fields)
        (field_claims scope.owner columns row fields)
unfolding check_fields
check_fields-Checks scope columns row [] = Checks-nothing
check_fields-Checks scope columns row (field ∷ fields) =
    Checks-then (check_column scope row field (lookup field.name columns))
      (check_fields scope row columns fields) _ _ _ _
      (check_column-Checks scope row field (lookup field.name columns))
      (check_fields-Checks scope columns row fields)

abbrev pub EdgesConform : Schema → Columns → ℕ → List EdgeRow → Type 0
EdgesConform s columns row [] = Unit
EdgesConform s columns row (edge ∷ edges) =
    ((schema : EdgeSchema) × (edge_schema s edge.edge_type ≡ some schema)
      × FieldsConform columns row schema.fields)
    × EdgesConform s columns (suc row) edges

abbrev pub edge_claims_of : String → Columns → ℕ → Option EdgeSchema → List Claim
edge_claims_of edge_type columns row none = []
edge_claims_of edge_type columns row (some schema) =
    field_claims edge_type columns row schema.fields

-- The values of unique fields, in the order of the edges.
abbrev pub edge_claims : Schema → Columns → ℕ → List EdgeRow → List Claim
edge_claims s columns row [] = []
edge_claims s columns row (edge ∷ edges) =
    edge_claims_of edge.edge_type columns row (edge_schema s edge.edge_type)
    ++ edge_claims s columns (suc row) edges

module _ (debug : DataType → String) (s : Schema) (columns : Columns) where
  check_edge-Checks :
      (row : ℕ) (edge : EdgeRow)
      → Checks
          (check_edge debug s columns row edge)
          ((schema : EdgeSchema) × (edge_schema s edge.edge_type ≡ some schema)
            × FieldsConform columns row schema.fields)
          (edge_claims_of edge.edge_type columns row (edge_schema s edge.edge_type))
  unfolding check_edge
  check_edge-Checks row edge = elim (Option-cases (edge_schema s edge.edge_type)) [
    | inl missing ↦
        rw (check_edge, edge_claims_of, missing)
          (Checks-never (undefined_edge_type edge.src edge.dst edge.edge_type) _ _
            (λ (schema, found, _). cc))
    | inr (schema, found) ↦
        rw (check_edge, edge_claims_of, found)
          (Checks-map _ _ _ _
            (
              λ h. (schema, refl, h),
              λ (other, eq, h).
                  let same : other ≡ schema = cc in
                  subst (λ (e : EdgeSchema). FieldsConform columns row e.fields) same h,
            )
            (check_fields-Checks (edge_scope debug edge) columns row schema.fields))
  ]

  pub check_edges-Checks :
      (row : ℕ) (edges : List EdgeRow)
      → Checks
          (check_edges debug s columns row edges)
          (EdgesConform s columns row edges)
          (edge_claims s columns row edges)
  unfolding check_edges
  check_edges-Checks row [] = Checks-nothing
  check_edges-Checks row (edge ∷ edges) =
      Checks-then (check_edge debug s columns row edge)
        (check_edges debug s columns (suc row) edges) _ _ _ _ (check_edge-Checks row edge)
        (check_edges-Checks (suc row) edges)
