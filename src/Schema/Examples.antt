-- ===== src/Schema/Examples.antt =====
-- crates/lynxes-core/src/schema: a label with a parent, two labels in a cycle, and the theorems at them.
use lynxes_mojo.Common.{
  ◌≡◌, ◌≢◌, ◌↔◌, ◌⊎◌, refl, String, true, false, none, some, List, [], ◌∷◌, All,
}
use lynxes_mojo.Outcome.{ok, err, panicked, GfError, circular_inheritance}
use lynxes_mojo.Plan.Expressions.{DataType, utf8}
use lynxes_mojo.Schema.Types.{GfType, FieldDef}
use lynxes_mojo.Schema.Inheritance.{NodeSchema, EdgeSchema, Schema, resolved_fields}
use lynxes_mojo.Schema.Lineage.{Lineage}
use lynxes_mojo.Schema.Merging.{IsSound, Kept, IsDistinct}
use lynxes_mojo.Schema.Resolution.{Ends, resolved_fields_end}
use lynxes_mojo.Schema.Resolved.{resolved_fields-Kept}
use lynxes_mojo.Schema.Validation.{
  SchemaValidationError, unique_violation, Column, NodeTable, EdgeTable, validate_nodes,
  validate_edges,
}
use lynxes_mojo.Schema.Checks.{IsUnclaimed}
use lynxes_mojo.Schema.Conforming.{EdgesConform, edge_claims}
use lynxes_mojo.Schema.EdgeReports.{validate_edges_iff}
use lynxes_mojo.Schema.Loading.{AllResolve, declared_fields}
use lynxes_mojo.Schema.NodeReports.{NodesConform, node_claims, validate_nodes_iff}

abbrev plain : String → GfType → FieldDef
plain name dtype = record {
  name = name;
  dtype = dtype;
  unique = false;
  indexed = false;
  default = none;
}

abbrev person_name : FieldDef
person_name = record {
  name = "name";
  dtype = GfType.string;
  unique = true;
  indexed = false;
  default = none;
}

abbrev person : NodeSchema
person = record { label = "Person"; fields = person_name ∷ []; extends = none }

abbrev employee : NodeSchema
employee = record {
  label = "Employee";
  fields = plain "name" GfType.string ∷ plain "age" (GfType.optional GfType.int) ∷ [];
  extends = some "Person";
}

abbrev knows : EdgeSchema
knows = record { type_name = "KNOWS"; fields = person_name ∷ [] }

abbrev staff : Schema
staff = record {
  nodes = ("Person", person) ∷ ("Employee", employee) ∷ [];
  edges = ("KNOWS", knows) ∷ [];
  namespaces = [];
}

abbrev employee_fields : List FieldDef
employee_fields = person_name ∷ plain "age" (GfType.optional GfType.int) ∷ []

employee_resolved : resolved_fields staff "Employee" ≡ ok employee_fields
unfolding resolved_fields
employee_resolved = refl

abbrev looped : Schema
looped = record {
  nodes =
      ("A", record { label = "A"; fields = []; extends = some "B" })
      ∷ ("B", record { label = "B"; fields = []; extends = some "C" })
      ∷ ("C", record { label = "C"; fields = []; extends = some "B" })
      ∷ [];
  edges = [];
  namespaces = [];
}

cycle_reported : resolved_fields looped "A" ≡ err (circular_inheritance "B -> C -> B")
unfolding resolved_fields
cycle_reported = refl

abbrev printed : DataType → String
printed _ = "type"

abbrev described : GfError → String
described _ = "error"

abbrev named : Column
named = record { data_type = utf8; is_null = λ _. false; scalar_value_repr = λ _. "ada" }

abbrev two_employees : NodeTable
two_employees = record {
  rows =
      record { id = "a"; labels = some "Employee" ∷ [] }
      ∷ record { id = "b"; labels = some "Employee" ∷ none ∷ [] }
      ∷ [];
  columns = ("name", named) ∷ [];
}

-- The second node has the name of the first.
names_clash :
    validate_nodes printed described staff two_employees
    ≡ ok (unique_violation "node label Employee" "name" "ada" ∷ [])
unfolding validate_nodes
names_clash = refl

abbrev one_edge : EdgeTable
one_edge = record {
  rows = record { src = "a"; dst = "b"; edge_type = "KNOWS" } ∷ [];
  columns = ("name", named) ∷ [];
}

edge_accepted : validate_edges printed staff one_edge ≡ []
unfolding validate_edges
edge_accepted = refl

resolved_fields_end_example :
    (resolved_fields looped "A" ≢ panicked) × Ends looped "A" (resolved_fields looped "A")
resolved_fields_end_example = resolved_fields_end looped "A"

resolved_fields-Kept_example :
    IsDistinct employee_fields
    × All IsSound employee_fields
    × (ns : List NodeSchema) × Lineage staff "Employee" ns
    × All (λ (n : NodeSchema). All (λ f. Kept f employee_fields) n.fields) ns
resolved_fields-Kept_example =
    resolved_fields-Kept staff "Employee" employee_fields employee_resolved

validate_edges_iff_example : (validate_edges printed staff one_edge ≡ []) ↔ (
    (staff.edges ≡ [])
    ⊎ (EdgesConform staff one_edge.columns 0 one_edge.rows
        × IsUnclaimed [] (edge_claims staff one_edge.columns 0 one_edge.rows)))
validate_edges_iff_example = validate_edges_iff printed staff one_edge

validate_nodes_iff_example :
    (errors : List SchemaValidationError) × (validate_nodes printed described staff two_employees
      ≡ ok errors)
    × ((errors ≡ []) ↔ (
        (staff.nodes ≡ [])
        ⊎ (AllResolve staff staff.nodes
            × NodesConform (declared_fields staff) two_employees.columns 0 two_employees.rows
            × IsUnclaimed []
                (node_claims (declared_fields staff) two_employees.columns 0 two_employees.rows))))
validate_nodes_iff_example = validate_nodes_iff printed described staff two_employees
