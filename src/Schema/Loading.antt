-- ===== src/Schema/Loading.antt =====
-- crates/lynxes-core/src/schema/schema.rs: the fields of all labels, loaded by `validate_nodes`.
use lynxes_mojo.Common.{
  ◌≡◌, ◌≢◌, ◌↔◌, ◌⊎◌, refl, ap, ◌∙◌, subst, String, true, Option, none, some, List, [], ◌∷◌, ◌++◌,
  length, length-append, arith, lookup, str_eq, eq_iff, Bool-cases, Option-cases, inl, inr, All,
}
use lynxes_mojo.Outcome.{Outcome, ok, err, panicked, GfError}
use lynxes_mojo.Plan.Expressions.{DataType}
use lynxes_mojo.Schema.Types.{FieldDef}
use lynxes_mojo.Schema.Inheritance.{NodeSchema, Schema, node_schema, resolved_fields}
use lynxes_mojo.Schema.Resolution.{resolved_fields_end}
use lynxes_mojo.Schema.Validation.{
  SchemaValidationError, node_field_type_mismatch, LabelFields, load_labels,
}

abbrev pub AllResolve : Schema → List (String × NodeSchema) → Type 0
AllResolve s nodes =
    All
      (λ (entry : String × NodeSchema).
        (fields : List FieldDef) × (resolved_fields s entry.0 ≡ ok fields))
      nodes

-- The labels are loaded without an error exactly if all of them resolve.
pub record Loaded (s : Schema) (nodes : List (String × NodeSchema))
    (before after : LabelFields × List SchemaValidationError) : Type 0 where
  pub silent : (after.1 ≡ []) ↔ ((before.1 ≡ []) × AllResolve s nodes)
  pub declared :
      after.1 ≡ []
      → (label : String) (n : NodeSchema) → lookup label nodes ≡ some n
      → (fields : List FieldDef) × (resolved_fields s label ≡ ok fields)
        × (lookup label after.0 ≡ some fields)
  pub undeclared :
      (label : String) → lookup label nodes ≡ none → lookup label after.0 ≡ lookup label before.0

appended-not_empty :
    (errors : List SchemaValidationError) (failure : SchemaValidationError)
    → errors ++ failure ∷ [] ≡ []
    → ⊥
appended-not_empty errors failure h =
    let long = length-append errors (failure ∷ []) in
    let zero_long : length (errors ++ failure ∷ []) ≡ 0 = ap length h in
    omega (arith, long, zero_long)

-- A label that resolves, in front of others that are loaded.
resolved-Loaded :
    (s : Schema) (key : String) (n : NodeSchema) (nodes : List (String × NodeSchema))
    (fields : List FieldDef) (label_fields : LabelFields) (errors : List SchemaValidationError)
    (after : LabelFields × List SchemaValidationError)
    → resolved_fields s key ≡ ok fields
    → Loaded s nodes ((key, fields) ∷ label_fields, errors) after
    → Loaded s ((key, n) ∷ nodes) (label_fields, errors) after
unfolding lookup
resolved-Loaded s key n nodes fields label_fields errors after run rest = record {
  silent = (
    λ h. let (start, all) = rest.silent.0 h in (start, ((fields, run), all)),
    λ (start, all). rest.silent.1 (start, all.1),
  );
  declared = λ h label m present. elim (Option-cases (lookup label nodes)) [
    | inr (other, found) ↦ rest.declared h label other found
    | inl absent ↦
        let hit : str_eq key label ≡ true = elim (Bool-cases (str_eq key label)) [
          | inl here ↦ here
          | inr there ↦ absurd let never : lookup label nodes ≡ some m = rw there at present in cc
        ] in
        let same : key ≡ label = (eq_iff key label).0 hit in
        (
          fields,
          subst (λ l. resolved_fields s l ≡ ok fields) same run,
          rest.undeclared label absent ∙ rw hit refl,
        )
  ];
  undeclared = λ label absent. elim (Bool-cases (str_eq key label)) [
    | inl hit ↦
        absurd let found : ◌≡◌ {A = Option NodeSchema} (some n) none = rw hit at absent in cc
    | inr missed ↦
        let below : lookup label nodes ≡ none = rw missed at absent in
        rest.undeclared label below ∙ rw missed refl
  ];
}

failed-Loaded :
    (s : Schema) (key : String) (n : NodeSchema) (nodes : List (String × NodeSchema)) (e : GfError)
    (failure : SchemaValidationError) (label_fields : LabelFields)
    (errors : List SchemaValidationError) (after : LabelFields × List SchemaValidationError)
    → resolved_fields s key ≡ err e
    → Loaded s nodes (label_fields, errors ++ failure ∷ []) after
    → Loaded s ((key, n) ∷ nodes) (label_fields, errors) after
unfolding lookup
failed-Loaded s key n nodes e failure label_fields errors after run rest = record {
  silent = (
    λ h. absurd (appended-not_empty errors failure (rest.silent.0 h).0),
    λ (start, all). absurd let (fields, eq) = all.0 in cc,
  );
  declared = λ h label m present. absurd (appended-not_empty errors failure (rest.silent.0 h).0);
  undeclared = λ label absent. elim (Bool-cases (str_eq key label)) [
    | inl hit ↦
        absurd let found : ◌≡◌ {A = Option NodeSchema} (some n) none = rw hit at absent in cc
    | inr missed ↦ rest.undeclared label (rw missed at absent)
  ];
}

Outcome-cases :
    {A : Type 0} (r : Outcome A)
    → r ≢ panicked
    → ((a : A) × (r ≡ ok a)) ⊎ ((e : GfError) × (r ≡ err e))
Outcome-cases panicked calm = absurd (calm refl)
Outcome-cases (err e) calm = inr (e, refl)
Outcome-cases (ok a) calm = inl (a, refl)

resolved-or-failed :
    (s : Schema) (label : String)
    → ((fields : List FieldDef) × (resolved_fields s label ≡ ok fields))
      ⊎ ((e : GfError) × (resolved_fields s label ≡ err e))
resolved-or-failed s label = Outcome-cases (resolved_fields s label) (resolved_fields_end s label).0

module _ (debug : DataType → String) (to_string : GfError → String) (s : Schema) where
  pub load_labels-Loaded :
      (nodes : List (String × NodeSchema)) (before : LabelFields × List SchemaValidationError)
      → (after : LabelFields × List SchemaValidationError) × (load_labels debug to_string s nodes
            before
          ≡ ok after)
        × Loaded s nodes before after
  unfolding load_labels
  load_labels-Loaded [] before = (
    before,
    refl,
    record {
      silent = (λ h. (h, tt), λ (h, _). h);
      declared = λ h label n found. absurd cc;
      undeclared = λ label absent. refl;
    },
  )
  load_labels-Loaded ((key, n) ∷ nodes) (label_fields, errors) = elim (resolved-or-failed s key) [
    | inr (e, run) ↦
        let failure = node_field_type_mismatch key "<schema>" "resolved schema" (to_string e) in
        let (after, ran, rest) = load_labels-Loaded nodes (label_fields, errors ++ failure ∷ []) in
        (
          after,
          rw (load_labels, run) ran,
          failed-Loaded s key n nodes e failure label_fields errors after run rest,
        )
    | inl (fields, run) ↦
        let (after, ran, rest) = load_labels-Loaded nodes ((key, fields) ∷ label_fields, errors) in
        (
          after,
          rw (load_labels, run) ran,
          resolved-Loaded s key n nodes fields label_fields errors after run rest,
        )
  ]

-- The fields of a label that is declared and resolves.
abbrev pub declared_fields : Schema → String → Option (List FieldDef)
declared_fields s label = elim (node_schema s label) [
  | none ↦ none
  | some _ ↦ elim (resolved_fields s label) [
    | ok fields ↦ some fields
    | err _ ↦ none
    | panicked ↦ none
  ]
]

pub Loaded-declared_fields :
    (s : Schema) (after : LabelFields × List SchemaValidationError)
    → Loaded s s.nodes ([], []) after
    → after.1 ≡ []
    → (label : String) → lookup label after.0 ≡ declared_fields s label
unfolding node_schema lookup
Loaded-declared_fields s after loaded silent label = elim (Option-cases (lookup label s.nodes)) [
  | inl absent ↦ loaded.undeclared label absent ∙ rw (declared_fields, absent) refl
  | inr (n, found) ↦
      let (fields, run, got) = loaded.declared silent label n found in
      got ∙ rw (declared_fields, found, run) refl
]
