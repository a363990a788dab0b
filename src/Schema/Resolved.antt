-- ===== src/Schema/Resolved.antt =====
-- crates/lynxes-core/src/schema/schema.rs: the fields that a node label has in the end.
use lynxes_mojo.Common.{◌≡◌, sym, ◌∙◌, subst, String, List, [], ◌∷◌, ⊎_elim, All, All-map}
use lynxes_mojo.Outcome.{ok, >>=-eq-ok}
use lynxes_mojo.Schema.Types.{FieldDef}
use lynxes_mojo.Schema.Inheritance.{NodeSchema, Schema, add_fields, resolved_fields}
use lynxes_mojo.Schema.Lineage.{Lineage, inherited_fields}
use lynxes_mojo.Schema.Merging.{IsSound, Kept, IsDistinct, add_fields-Declared}
use lynxes_mojo.Schema.Resolution.{resolved_fields_end}

inherited_fields_lem :
    (ns : List NodeSchema) (fields : List FieldDef)
    → inherited_fields ns ≡ ok fields
    → All (λ (n : NodeSchema). All (λ f. Kept f fields) n.fields) ns
      × All IsSound fields
      × IsDistinct fields
inherited_fields_lem [] fields run =
    let eq : [] ≡ fields = cc in (tt, subst (All IsSound) eq tt, subst IsDistinct eq tt)
inherited_fields_lem (n ∷ ns) fields run =
    let (above, inherited, last) =
      >>=-eq-ok (inherited_fields ns) (λ fs. add_fields fs n.fields) run in
    let (kept, sound, distinct) = inherited_fields_lem ns above inherited in
    let d = add_fields-Declared n.fields above fields last in
    (
      (d.present, All-map (λ m all. All-map (λ f k. d.keeps f k) m.fields all) ns kept),
      d.sound sound,
      d.distinct distinct,
    )

-- When a node label's fields are resolved, no two of them have one name, each has a supported type and a
-- default of that type if it has one, the label's parents lead up to a schema without one, and each
-- field that any schema of that line declares is there by name, with its type, and unique or indexed
-- if it is declared so.
pub resolved_fields-Kept :
    (s : Schema) (label : String) (fields : List FieldDef)
    → resolved_fields s label ≡ ok fields
    → IsDistinct fields
      × All IsSound fields
      × (ns : List NodeSchema) × Lineage s label ns
      × All (λ (n : NodeSchema). All (λ f. Kept f fields) n.fields) ns
resolved_fields-Kept s label fields run =
    ⊎_elim
      (λ (ns, line, eq).
        let (kept, sound, distinct) = inherited_fields_lem ns fields (sym eq ∙ run) in
        (distinct, sound, ns, line, kept))
      (⊎_elim (λ (_, _, _, eq). absurd cc) (λ (_, _, _, _, eq). absurd cc))
      (resolved_fields_end s label).1
