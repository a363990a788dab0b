-- ===== src/Schema/Resolution.antt =====
-- crates/lynxes-core/src/schema/schema.rs: every resolution of a node schema ends, and in which ways.
use lynxes_mojo.Common.{
  ℕ, zero, suc, ◌<◌, ◌≡◌, ◌≢◌, ◌⊎◌, refl, ap, sym, ◌∙◌, subst, String, true, false, none, some,
  List, [], ◌∷◌, ◌++◌, length, member, member_split, member_head, member-append_left,
  member-append_right, Bool-cases, Option-cases, inl, inr, ⊎_elim, arith,
}
use lynxes_mojo.Outcome.{Outcome, ok, err, panicked, ◌>>=◌, schema_mismatch, circular_inheritance}
use lynxes_mojo.Schema.Types.{FieldDef}
use lynxes_mojo.Schema.Inheritance.{
  NodeSchema, Schema, node_schema, add_fields, join, Walk, entered, left, resolve_node_fields,
  resolved_fields,
}
use lynxes_mojo.Schema.Returning.{IsCalm, inherited_fields-IsCalm}
use lynxes_mojo.Schema.Lineage.{
  Extends, Lineage, Leads, Chain, inherited_fields, Chain-append_one, cycle_of_lem, unvisited,
  unvisited-le, unvisited-enter,
}

-- The ways in which a resolution of a label may end: with what the line of its parents gives, at a
-- parent that is not declared, or in a cycle, which the error names.
abbrev pub Ends : Schema → String → Outcome (List FieldDef) → Type 0
Ends s label result =
    ((ns : List NodeSchema) × Lineage s label ns × (result ≡ inherited_fields ns))
    ⊎ (((missing : String) × Leads s label missing
          × (node_schema s missing ≡ none)
          × (result ≡ err schema_mismatch))
        ⊎ ((on : String) × (middle : List String) × Leads s label on
            × Chain s (on ∷ middle ++ on ∷ [])
            × (result ≡ err (circular_inheritance (join (on ∷ middle ++ on ∷ []))))))

abbrev fields_of : Outcome (List FieldDef × Walk) → Outcome (List FieldDef)
fields_of r = r >>= λ x. ok x.0

fields_of-leave : (r : Outcome (List FieldDef)) (w : Walk) → fields_of (r >>= λ f. ok (f, w)) ≡ r
fields_of-leave panicked w = refl
fields_of-leave (err e) w = refl
fields_of-leave (ok fields) w = refl

fields_of-parent :
    (label : String) (own : List FieldDef) (r : Outcome (List FieldDef × Walk))
    → fields_of (r >>= λ x. add_fields x.0 own >>= λ f. ok (f, left label x.1))
      ≡ (fields_of r >>= λ fields. add_fields fields own)
fields_of-parent label own panicked = refl
fields_of-parent label own (err e) = refl
fields_of-parent label own (ok (fields, after)) =
    fields_of-leave (add_fields fields own) (left label after)

resolve_top :
    (fuel : ℕ) (s : Schema) (label : String) (w : Walk) (n : NodeSchema)
    → member label w.stack ≡ false
    → node_schema s label ≡ some n
    → n.extends ≡ none
    → fields_of (resolve_node_fields (suc fuel) s label w) ≡ inherited_fields (n ∷ [])
unfolding resolve_node_fields
resolve_top fuel s label w n absent found top =
    rw (resolve_node_fields, absent, found, top)
      (fields_of-leave (add_fields [] n.fields) (left label (entered label w)))

resolve_step :
    (fuel : ℕ) (s : Schema) (label parent : String) (w : Walk) (n : NodeSchema)
    → member label w.stack ≡ false
    → node_schema s label ≡ some n
    → n.extends ≡ some parent
    → fields_of (resolve_node_fields (suc fuel) s label w) ≡ (
        fields_of (resolve_node_fields fuel s parent (entered label w)) >>= λ fields.
        add_fields fields n.fields)
unfolding resolve_node_fields
resolve_step fuel s label parent w n absent found above =
    rw (resolve_node_fields, absent, found, above)
      (fields_of-parent label n.fields (resolve_node_fields fuel s parent (entered label w)))

-- What a parent's resolution ends with decides how the child's ends.
Ends-child :
    (s : Schema) (label parent : String) (n : NodeSchema) (r : Outcome (List FieldDef))
    → node_schema s label ≡ some n
    → n.extends ≡ some parent
    → Ends s parent r
    → Ends s label (r >>= λ fields. add_fields fields n.fields)
Ends-child s label parent n r found above =
    let link : Extends s label parent = (n, found, above) in
    ⊎_elim
      (λ (ns, line, run). inl (
        n ∷ ns,
        Lineage.child found above line,
        ap (λ q. q >>= λ fields. add_fields fields n.fields) run,
      ))
      (⊎_elim
        (λ (missing, leads, absent, run). inr (
          inl (
            missing,
            Leads.up link leads,
            absent,
            ap (λ q. q >>= λ fields. add_fields fields n.fields) run,
          )))
        (λ (on, middle, leads, chain, run). inr (
          inr (
            on,
            middle,
            Leads.up link leads,
            chain,
            ap (λ q. q >>= λ fields. add_fields fields n.fields) run,
          ))))

resolve_Ends :
    (fuel : ℕ) (s : Schema) (label : String) (w : Walk)
    → unvisited w.stack s.nodes < fuel
    → ((a : String) → member a w.stack ≡ true → member a w.path ≡ true)
    → Chain s (w.path ++ label ∷ [])
    → Ends s label (fields_of (resolve_node_fields fuel s label w))
unfolding resolve_node_fields node_schema
resolve_Ends zero s label w enough same chain = absurd (omega (arith, enough))
resolve_Ends (suc fuel) s label w enough same chain = elim (Bool-cases (member label w.stack)) [
  | inl seen ↦
      let (middle, shape, closed) = cycle_of_lem s label w.path (same label seen) chain in
      inr (inr (label, middle, Leads.here, closed, rw (resolve_node_fields, seen, shape) refl))
  | inr absent ↦ elim (Option-cases (node_schema s label)) [
    | inl missing ↦
        inr (inl (label, Leads.here, missing, rw (resolve_node_fields, absent, missing) refl))
    | inr (n, found) ↦ elim (Option-cases n.extends) [
      | inl top ↦
          inl (n ∷ [], Lineage.root found top, resolve_top fuel s label w n absent found top)
      | inr (parent, above) ↦
          let fewer = unvisited-enter label w.stack s.nodes n absent found in
          let listed : (a : String)
              → member a (label ∷ w.stack) ≡ true
              → member a (w.path ++ label ∷ []) ≡ true =
            λ a h.
              ⊎_elim
                (λ eq.
                  subst (λ b. member b (w.path ++ label ∷ []) ≡ true) eq
                    (member-append_right label w.path (label ∷ []) (member_head label [])))
                (λ old. member-append_left a w.path (label ∷ []) (same a old))
                (member_split a label w.stack h) in
          let parents =
            resolve_Ends fuel s parent (entered label w) (omega (arith, fewer, enough)) listed
              (Chain-append_one s w.path label parent chain (n, found, above)) in
          subst (Ends s label) (sym (resolve_step fuel s label parent w n absent found above))
            (Ends-child s label parent n _ found above parents)
    ]
  ]
]

abbrev resolved_as : String → List FieldDef × Walk → NodeSchema
resolved_as label (fields, after) = record { label = label; extends = none; fields = fields }

fields_of-schema :
    (label : String) (r : Outcome (List FieldDef × Walk))
    → ((r >>= λ x. ok (resolved_as label x)) >>= λ n. ok n.fields) ≡ fields_of r
fields_of-schema label panicked = refl
fields_of-schema label (err e) = refl
fields_of-schema label (ok x) = refl

resolved_fields-run :
    (s : Schema) (label : String)
    → resolved_fields s label
      ≡ fields_of
          (resolve_node_fields (suc (length s.nodes)) s label (record { stack = []; path = [] }))
unfolding resolved_fields
resolved_fields-run s label = fields_of-schema label _

-- Every resolution of a node label ends, without a panic, in one of three ways: its parents lead up to
-- a schema without one, and the result is what the fields of that line give, taken from the root
-- down; or they lead to a label that is not declared, and the result is SchemaMismatch; or they lead
-- into a cycle, and the result is CircularInheritance with the labels of that cycle, each of which
-- extends the next one and of which the last is the first.
pub resolved_fields_end :
    (s : Schema) (label : String)
    → (resolved_fields s label ≢ panicked) × Ends s label (resolved_fields s label)
resolved_fields_end s label =
    let ends : Ends s label (resolved_fields s label) =
      subst (Ends s label) (sym (resolved_fields-run s label)) (
        resolve_Ends (suc (length s.nodes)) s label (record { stack = []; path = [] })
          (omega (arith, unvisited-le [] s.nodes)) (λ a h. h) tt) in
    (
      λ h.
          ⊎_elim (λ (ns, _, run). subst IsCalm (sym run ∙ h) (inherited_fields-IsCalm ns))
            (⊎_elim (λ (_, _, _, run). absurd cc) (λ (_, _, _, _, run). absurd cc)) ends,
      ends,
    )
