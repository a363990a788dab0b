-- ===== src/Schema/Returning.antt =====
-- crates/lynxes-core/src/schema: no operation on fields panics.
use lynxes_mojo.Common.{
  Bool, true, false, not, Option, none, some, List, [], ◌∷◌, if◌then◌else◌, str_eq, Bool-cases, inl,
  inr,
}
use lynxes_mojo.Outcome.{Outcome, ok, err, panicked, ◌>>=◌, GfError, schema_mismatch, type_mismatch}
use lynxes_mojo.Schema.Types.{
  GfType, list, optional, GfValue, FieldDef, is_optional, validate, validate_default, gf_type_eq,
  gf_value_matches_type,
}
use lynxes_mojo.Schema.Inheritance.{
  NodeSchema, inherit, merge_inherited_field, merge_into, add_fields,
}
use lynxes_mojo.Schema.Lineage.{inherited_fields}

abbrev pub IsCalm {ℓ} : {A : Type ℓ} → Outcome A → Type 0
IsCalm panicked = ⊥
IsCalm (err _) = Unit
IsCalm (ok _) = Unit

IsCalm-then {ℓ κ} :
    {A : Type ℓ} {B : Type κ} (r : Outcome A) (next : A → Outcome B)
    → IsCalm r
    → ((a : A) → IsCalm (next a))
    → IsCalm (r >>= next)
IsCalm-then panicked next calm rest = absurd calm
IsCalm-then (err e) next calm rest = tt
IsCalm-then (ok a) next calm rest = rest a

IsCalm-if {ℓ} : {A : Type ℓ} (b : Bool) (e : GfError) (a : A) → IsCalm (if b then err e else ok a)
IsCalm-if true e a = tt
IsCalm-if false e a = tt

validate-IsCalm : (t : GfType) → IsCalm (validate t)
unfolding validate
validate-IsCalm (list item) =
    IsCalm-then (validate item) _ (validate-IsCalm item)
      (λ _. IsCalm-if (is_optional item) schema_mismatch tt)
validate-IsCalm (optional item) =
    IsCalm-then (validate item) _ (validate-IsCalm item)
      (λ _. IsCalm-if (is_optional item) schema_mismatch tt)
validate-IsCalm _ = tt

validate_default-IsCalm :
    (field : FieldDef) (value : Option GfValue) → IsCalm (validate_default field value)
unfolding validate_default
validate_default-IsCalm field none = tt
validate_default-IsCalm field (some value) =
    IsCalm-then (validate field.dtype) _ (validate-IsCalm field.dtype)
      (λ _. IsCalm-if (not (gf_value_matches_type value field.dtype)) type_mismatch tt)

merge_inherited_field-IsCalm :
    (parent child : FieldDef) → IsCalm (merge_inherited_field parent child)
unfolding merge_inherited_field
merge_inherited_field-IsCalm parent child =
    elim (Bool-cases (gf_type_eq parent.dtype child.dtype)) [
      | inl same ↦
          rw (merge_inherited_field, same)
            (IsCalm-then (validate_default (inherit parent child) (inherit parent child).default) _
              (validate_default-IsCalm (inherit parent child) (inherit parent child).default)
              (λ _. tt))
      | inr differ ↦ rw (merge_inherited_field, differ) tt
    ]

merge_into-IsCalm : (field : FieldDef) (fields : List FieldDef) → IsCalm (merge_into field fields)
unfolding merge_into
merge_into-IsCalm field [] = tt
merge_into-IsCalm field (existing ∷ fields) = elim (Bool-cases (str_eq existing.name field.name)) [
  | inl hit ↦
      rw (merge_into, hit)
        (IsCalm-then (merge_inherited_field existing field) _
          (merge_inherited_field-IsCalm existing field) (λ _. tt))
  | inr missed ↦
      rw (merge_into, missed)
        (IsCalm-then (merge_into field fields) _ (merge_into-IsCalm field fields) (λ _. tt))
]

add_fields-IsCalm : (fields declared : List FieldDef) → IsCalm (add_fields fields declared)
unfolding add_fields
add_fields-IsCalm fields [] = tt
add_fields-IsCalm fields (field ∷ declared) =
    IsCalm-then (validate field.dtype) _ (validate-IsCalm field.dtype) (λ _.
      IsCalm-then (validate_default field field.default) _
        (validate_default-IsCalm field field.default)
        (λ _.
          IsCalm-then (merge_into field fields) _ (merge_into-IsCalm field fields)
            (λ merged. add_fields-IsCalm merged declared)))

pub inherited_fields-IsCalm : (ns : List NodeSchema) → IsCalm (inherited_fields ns)
inherited_fields-IsCalm [] = tt
inherited_fields-IsCalm (n ∷ ns) =
    IsCalm-then (inherited_fields ns) _ (inherited_fields-IsCalm ns)
      (λ fields. add_fields-IsCalm fields n.fields)
