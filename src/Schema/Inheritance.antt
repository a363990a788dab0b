-- ===== src/Schema/Inheritance.antt =====
-- crates/lynxes-core/src/schema/schema.rs: node schemas with their parents, `resolve_node_fields` and
-- `merge_inherited_field`.
-- A hash map is an association list. The recursion takes fuel: one more than there are node schemas is
-- enough, since every label on the stack is one of theirs, and running out would be `panicked`.
use lynxes_mojo.Common.{
  ℕ, zero, suc, String, true, false, not, ◌||◌, Option, none, some, List, [], ◌∷◌, ◌++◌, length,
  drop, member, set_insert, filter, lookup, if◌then◌else◌, str_eq,
}
use lynxes_mojo.Outcome.{Outcome, ok, err, panicked, ◌>>=◌, schema_mismatch, circular_inheritance}
use lynxes_mojo.ExprJson.Tags.{text_append}
use lynxes_mojo.Schema.Types.{FieldDef, GfValue, gf_type_eq, validate, validate_default}

pub record NodeSchema : Type 0 where
  pub label : String
  pub fields : List FieldDef
  pub extends : Option String

pub record EdgeSchema : Type 0 where
  pub type_name : String
  pub fields : List FieldDef

pub record Schema : Type 0 where
  pub nodes : List (String × NodeSchema)
  pub edges : List (String × EdgeSchema)
  pub namespaces : List (String × String)

unfoldable pub node_schema : Schema → String → Option NodeSchema
unfolding lookup
node_schema s label = lookup label s.nodes

unfoldable pub edge_schema : Schema → String → Option EdgeSchema
unfolding lookup
edge_schema s type_name = lookup type_name s.edges

abbrev pub or_default : Option GfValue → Option GfValue → Option GfValue
or_default none inherited = inherited
or_default (some value) inherited = some value

-- The child's field with the parent's flags, and its default where the child has none.
abbrev pub inherit : FieldDef → FieldDef → FieldDef
inherit parent child = record child {
  unique = parent.unique || child.unique;
  indexed = parent.indexed || child.indexed;
  default = or_default child.default parent.default;
}

unfoldable pub merge_inherited_field : FieldDef → FieldDef → Outcome FieldDef
unfolding gf_type_eq validate_default
merge_inherited_field parent child = elim (gf_type_eq parent.dtype child.dtype) [
  | false ↦ err schema_mismatch
  | true ↦ do
    let merged = inherit parent child
    _ ← validate_default merged merged.default
    ok merged
]

-- The first field of the same name is replaced, or the field is pushed.
unfoldable pub merge_into : FieldDef → List FieldDef → Outcome (List FieldDef)
unfolding merge_inherited_field
merge_into field [] = ok (field ∷ [])
merge_into field (existing ∷ fields) =
    let rest = merge_into field fields in
    elim (str_eq existing.name field.name) [
      | true ↦ do merged ← merge_inherited_field existing field; ok (merged ∷ fields)
      | false ↦ do others ← rest; ok (existing ∷ others)
    ]

-- The loop over a schema's own fields.
unfoldable pub add_fields : List FieldDef → List FieldDef → Outcome (List FieldDef)
unfolding merge_into validate validate_default
add_fields fields [] = ok fields
add_fields fields (field ∷ declared) = do
  _ ← validate field.dtype
  _ ← validate_default field field.default
  merged ← merge_into field fields
  add_fields merged declared

-- `position`, with 0 where there is none.
unfoldable pub position : String → List String → Option ℕ
position label [] = none
position label (entry ∷ path) =
    let rest = position label path in
    if str_eq entry label then some 0 else elim rest [ none ↦ none | some i ↦ some (suc i) ]

abbrev pub position_or_zero : Option ℕ → ℕ
position_or_zero none = 0
position_or_zero (some i) = i

-- `join(" -> ")`
abbrev pub join : List String → String
join [] = ""
join (x ∷ []) = x
join (x ∷ y ∷ ys) = text_append x (text_append " -> " (join (y ∷ ys)))

unfoldable pub cycle_of : String → List String → List String
unfolding position
cycle_of label path = drop (position_or_zero (position label path)) path ++ label ∷ []

-- `stack` and `path`
pub record Walk : Type 0 where
  pub stack : List String
  pub path : List String

abbrev pub pop : List String → List String
pop [] = []
pop (x ∷ []) = []
pop (x ∷ y ∷ ys) = x ∷ pop (y ∷ ys)

abbrev pub entered : String → Walk → Walk
entered label w = record { stack = label ∷ w.stack; path = w.path ++ label ∷ [] }

abbrev pub left : String → Walk → Walk
left label w = record {
  stack = filter (λ entry. not (str_eq entry label)) w.stack;
  path = pop w.path;
}

unfoldable pub resolve_node_fields : ℕ → Schema → String → Walk → Outcome (List FieldDef × Walk)
unfolding member set_insert cycle_of node_schema add_fields
resolve_node_fields zero s label w = panicked
resolve_node_fields (suc fuel) s label w = elim (member label w.stack) [
  | true ↦ err (circular_inheritance (join (cycle_of label w.path)))
  | false ↦ elim (node_schema s label) [
    | none ↦ err schema_mismatch
    | some schema ↦ do
      (inherited, after) ← elim schema.extends [
        | none ↦ ok ([], entered label w)
        | some parent ↦ resolve_node_fields fuel s parent (entered label w)
      ]
      fields ← add_fields inherited schema.fields
      ok (fields, left label after)
  ]
]

unfoldable pub resolved_node_schema : Schema → String → Outcome NodeSchema
unfolding resolve_node_fields
resolved_node_schema s label = do
  (fields, _) ←
      resolve_node_fields (suc (length s.nodes)) s label (record { stack = []; path = [] })
  ok (record { label = label; extends = none; fields = fields })

unfoldable pub resolved_fields : Schema → String → Outcome (List FieldDef)
unfolding resolved_node_schema
resolved_fields s label = do schema ← resolved_node_schema s label; ok schema.fields
