-- ===== src/Schema/NodeReports.antt =====
-- crates/lynxes-core/src/schema/schema.rs: `validate_nodes` reports exactly what does not conform.
use lynxes_mojo.Common.{
  List-cases, ℕ, suc, ◌≡◌, ◌↔◌, ◌⊎◌, refl, ap, sym, fun_ext, ◌∙◌, subst, String, Option, none, some,
  List, [], ◌∷◌, ◌++◌, lookup, Option-cases, inl, inr, ⊎_elim,
}
use lynxes_mojo.Outcome.{ok, GfError}
use lynxes_mojo.Plan.Expressions.{DataType}
use lynxes_mojo.Schema.Types.{FieldDef}
use lynxes_mojo.Schema.Inheritance.{NodeSchema, Schema}
use lynxes_mojo.Schema.Validation.{
  SchemaValidationError, undefined_node_label, Columns, Claim, Report, NodeRow, NodeTable, push,
  node_scope, check_labels, check_nodes, check_fields, LabelFields, load_labels, validate_nodes,
  starting, errors_of,
}
use lynxes_mojo.Schema.Checks.{Checks, Checks-nothing, Checks-then, Checks-never, IsUnclaimed}
use lynxes_mojo.Schema.Conforming.{FieldsConform, Checks-map, field_claims, check_fields-Checks}
use lynxes_mojo.Schema.Loading.{
  AllResolve, load_labels-Loaded, declared_fields, Loaded-declared_fields,
}

abbrev pub LabelsConform :
    (String → Option (List FieldDef)) → Columns → ℕ → List (Option String) → Type 0
LabelsConform fields_of columns row [] = Unit
LabelsConform fields_of columns row (none ∷ labels) = LabelsConform fields_of columns row labels
LabelsConform fields_of columns row (some label ∷ labels) =
    ((fields : List FieldDef) × (fields_of label ≡ some fields) × FieldsConform columns row fields)
    × LabelsConform fields_of columns row labels

abbrev pub NodesConform : (String → Option (List FieldDef)) → Columns → ℕ → List NodeRow → Type 0
NodesConform fields_of columns row [] = Unit
NodesConform fields_of columns row (node ∷ nodes) =
    LabelsConform fields_of columns row node.labels × NodesConform fields_of columns (suc row) nodes

abbrev pub claims_of : String → Columns → ℕ → Option (List FieldDef) → List Claim
claims_of label columns row none = []
claims_of label columns row (some fields) = field_claims label columns row fields

abbrev pub label_claims :
    (String → Option (List FieldDef)) → Columns → ℕ → List (Option String) → List Claim
label_claims fields_of columns row [] = []
label_claims fields_of columns row (none ∷ labels) = label_claims fields_of columns row labels
label_claims fields_of columns row (some label ∷ labels) =
    claims_of label columns row (fields_of label) ++ label_claims fields_of columns row labels

abbrev pub node_claims : (String → Option (List FieldDef)) → Columns → ℕ → List NodeRow → List Claim
node_claims fields_of columns row [] = []
node_claims fields_of columns row (node ∷ nodes) =
    label_claims fields_of columns row node.labels ++ node_claims fields_of columns (suc row) nodes

module _ (debug : DataType → String) (label_fields : LabelFields) (columns : Columns) where
  abbrev found : String → Option (List FieldDef)
  found label = lookup label label_fields

  abbrev check_label : ℕ → String → String → Report → Report
  check_label row node_id label r = elim (lookup label label_fields) [
    | none ↦ push (undefined_node_label node_id label) r
    | some fields ↦ check_fields (node_scope debug node_id label) row columns fields r
  ]

  check_label-Checks :
      (row : ℕ) (node_id label : String)
      → Checks
          (check_label row node_id label)
          ((fields : List FieldDef) × (found label ≡ some fields)
            × FieldsConform columns row fields)
          (claims_of label columns row (found label))
  check_label-Checks row node_id label = elim (Option-cases (lookup label label_fields)) [
    | inl missing ↦
        rw (check_label, claims_of, missing)
          (Checks-never (undefined_node_label node_id label) _ _ (λ (fields, eq, _). cc))
    | inr (fields, present) ↦
        rw (check_label, claims_of, present)
          (Checks-map _ _ _ _
            (
              λ h. (fields, refl, h),
              λ (other, eq, h).
                  let same : other ≡ fields = cc in subst (FieldsConform columns row) same h,
            )
            (check_fields-Checks (node_scope debug node_id label) columns row fields))
  ]

  check_labels-Checks :
      (row : ℕ) (node_id : String) (labels : List (Option String))
      → Checks
          (check_labels debug label_fields columns row node_id labels)
          (LabelsConform found columns row labels)
          (label_claims found columns row labels)
  unfolding check_labels
  check_labels-Checks row node_id [] = Checks-nothing
  check_labels-Checks row node_id (none ∷ labels) = check_labels-Checks row node_id labels
  check_labels-Checks row node_id (some label ∷ labels) =
      Checks-then (check_label row node_id label)
        (check_labels debug label_fields columns row node_id labels) _ _ _ _
        (check_label-Checks row node_id label) (check_labels-Checks row node_id labels)

  check_nodes-Checks :
      (row : ℕ) (nodes : List NodeRow)
      → Checks
          (check_nodes debug label_fields columns row nodes)
          (NodesConform found columns row nodes)
          (node_claims found columns row nodes)
  unfolding check_nodes
  check_nodes-Checks row [] = Checks-nothing
  check_nodes-Checks row (node ∷ nodes) =
      Checks-then (check_labels debug label_fields columns row node.id node.labels)
        (check_nodes debug label_fields columns (suc row) nodes) _ _ _ _
        (check_labels-Checks row node.id node.labels) (check_nodes-Checks (suc row) nodes)

validate_nodes-run :
    (debug : DataType → String) (to_string : GfError → String) (s : Schema) (nodes : NodeTable)
    (one : String × NodeSchema) (more : List (String × NodeSchema))
    (after : LabelFields × List SchemaValidationError)
    → s.nodes ≡ one ∷ more
    → load_labels debug to_string s s.nodes ([], []) ≡ ok after
    → validate_nodes debug to_string s nodes
      ≡ ok (errors_of (check_nodes debug after.0 nodes.columns 0 nodes.rows (starting after.1)))
unfolding validate_nodes
validate_nodes-run debug to_string s nodes one more after declared ran =
    let named : load_labels debug to_string s (one ∷ more) ([], []) ≡ ok after =
      subst (λ ns. load_labels debug to_string s ns ([], []) ≡ ok after) declared ran in
    simp (validate_nodes, declared) (simp named refl)

-- Unless the schema declares no node label, `validate_nodes` returns, and it reports nothing exactly if
-- every declared label resolves, each label of each node is declared, each resolved field that has a
-- column has its type and that is without null where the field is required, no required field is
-- without a column, and no value of a unique field comes twice under one label.
pub validate_nodes_iff :
    (debug : DataType → String) (to_string : GfError → String) (s : Schema) (nodes : NodeTable)
    → (errors : List SchemaValidationError) × (validate_nodes debug to_string s nodes ≡ ok errors)
      × ((errors ≡ []) ↔ (
          (s.nodes ≡ [])
          ⊎ (AllResolve s s.nodes
              × NodesConform (declared_fields s) nodes.columns 0 nodes.rows
              × IsUnclaimed [] (node_claims (declared_fields s) nodes.columns 0 nodes.rows))))
unfolding validate_nodes
validate_nodes_iff debug to_string s nodes = elim (List-cases s.nodes) [
  | inl undeclared ↦ ([], simp (validate_nodes, undeclared) refl, (λ _. inl undeclared, λ _. refl))
  | inr (one, more, declared) ↦
      let (after, ran, loaded) = load_labels-Loaded debug to_string s s.nodes ([], []) in
      let c = check_nodes-Checks debug after.0 nodes.columns 0 nodes.rows in
      (
        errors_of (check_nodes debug after.0 nodes.columns 0 nodes.rows (starting after.1)),
        validate_nodes-run debug to_string s nodes one more after declared ran,
        (
          λ h.
              let (start, conform, new) = c.clean (starting after.1) h in
              let same = fun_ext (Loaded-declared_fields s after loaded start) in
              inr (
                (loaded.silent.0 start).1,
                subst (λ g. NodesConform g nodes.columns 0 nodes.rows) same conform,
                subst (λ g. IsUnclaimed [] (node_claims g nodes.columns 0 nodes.rows)) same new,
              ),
          ⊎_elim (λ undeclared. absurd cc)
              (λ (all, conform, new).
                let silent = loaded.silent.1 (refl, all) in
                let same = fun_ext (Loaded-declared_fields s after loaded silent) in
                ap errors_of (
                  c.passes (starting after.1)
                    (subst (λ g. NodesConform g nodes.columns 0 nodes.rows) (sym same) conform)
                    (subst (λ g. IsUnclaimed [] (node_claims g nodes.columns 0 nodes.rows))
                      (sym same) new))
                ∙ silent),
        ),
      )
]
