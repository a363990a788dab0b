-- ===== src/Schema/Merging.antt =====
-- crates/lynxes-core/src/schema/schema.rs: what `merge_inherited_field` and the loop around it keep of
-- the fields.
use lynxes_mojo.Common.{
  ◌≡◌, ◌⊎◌, refl, ap, sym, ◌∙◌, subst, String, true, false, List, [], ◌∷◌, member, member_split,
  member_head, member_tail, str_eq, eq_iff, Bool-cases, inl, inr, ⊎_elim, map, All, ||_left,
  ||_right,
}
use lynxes_mojo.Outcome.{Outcome, ok, err, ◌>>=◌, >>=-eq-ok, schema_mismatch}
use lynxes_mojo.Schema.Types.{
  GfType, string, int, float, bool, date, date_time, duration, any, list, optional, FieldDef,
  gf_type_eq, validate, validate_default,
}
use lynxes_mojo.Schema.Inheritance.{inherit, merge_inherited_field, merge_into, add_fields}

gf_type_eq_sound : (a b : GfType) → gf_type_eq a b ≡ true → a ≡ b
unfolding gf_type_eq
gf_type_eq_sound string string h = refl
gf_type_eq_sound int int h = refl
gf_type_eq_sound float float h = refl
gf_type_eq_sound bool bool h = refl
gf_type_eq_sound date date h = refl
gf_type_eq_sound date_time date_time h = refl
gf_type_eq_sound duration duration h = refl
gf_type_eq_sound any any h = refl
gf_type_eq_sound (list a) (list b) h = ap GfType.list (gf_type_eq_sound a b h)
gf_type_eq_sound (optional a) (optional b) h = ap GfType.optional (gf_type_eq_sound a b h)
gf_type_eq_sound _ _ h = absurd cc

-- The type is supported and the default is of it.
pub record IsSound (f : FieldDef) : Type 0 where
  pub supported : validate f.dtype ≡ ok tt
  pub matching : validate_default f f.default ≡ ok tt

-- `g` stands for `f`: the same name and type, and no flag lost.
pub record Keeps (f g : FieldDef) : Type 0 where
  pub same_name : g.name ≡ f.name
  pub same_type : g.dtype ≡ f.dtype
  pub still_unique : f.unique ≡ true → g.unique ≡ true
  pub still_indexed : f.indexed ≡ true → g.indexed ≡ true

abbrev pub Kept : FieldDef → List FieldDef → Type 0
Kept f [] = ⊥
Kept f (g ∷ fields) = Keeps f g ⊎ Kept f fields

abbrev pub names : List FieldDef → List String
names fields = map (λ (f : FieldDef). f.name) fields

abbrev pub IsDistinct : List FieldDef → Type 0
IsDistinct [] = Unit
IsDistinct (f ∷ fields) = (member f.name (names fields) ≡ false) × IsDistinct fields

Keeps-refl : (f : FieldDef) → Keeps f f
Keeps-refl f = record {
  same_name = refl;
  same_type = refl;
  still_unique = λ h. h;
  still_indexed = λ h. h;
}

module _ (parent child m : FieldDef) (run : merge_inherited_field parent child ≡ ok m) where
  merged :
      (gf_type_eq parent.dtype child.dtype ≡ true)
      × (m ≡ inherit parent child)
      × (validate_default m m.default ≡ ok tt)
  unfolding merge_inherited_field
  merged = elim (Bool-cases (gf_type_eq parent.dtype child.dtype)) [
    | inr differ ↦
        absurd
          let stopped : ◌≡◌ {A = Outcome FieldDef} (err schema_mismatch) (ok m) =
              rw (merge_inherited_field, differ) at run in
            cc
    | inl same ↦
        let chain : (validate_default (inherit parent child) (inherit parent child).default >>= λ _.
        ok (inherit parent child))
            ≡ ok m =
          rw (merge_inherited_field, same) at run in
        let (_, checked, last) =
          >>=-eq-ok (validate_default (inherit parent child) (inherit parent child).default)
            (λ _. ok (inherit parent child)) chain in
        let eq : m ≡ inherit parent child = cc in
        (same, eq, subst (λ f. validate_default f f.default ≡ ok tt) (sym eq) checked)
  ]

  parent-Keeps : (f : FieldDef) → parent.name ≡ child.name → Keeps f parent → Keeps f m
  parent-Keeps f name k =
      let (same, eq, _) = merged in
      subst (Keeps f) (sym eq) (record {
        same_name = sym name ∙ k.same_name;
        same_type = sym (gf_type_eq_sound parent.dtype child.dtype same) ∙ k.same_type;
        still_unique = λ h. ||_left parent.unique child.unique (k.still_unique h);
        still_indexed = λ h. ||_left parent.indexed child.indexed (k.still_indexed h);
      })

  child-Keeps : Keeps child m
  child-Keeps =
      let (_, eq, _) = merged in
      subst (Keeps child) (sym eq) (record {
        same_name = refl;
        same_type = refl;
        still_unique = λ h. ||_right parent.unique child.unique h;
        still_indexed = λ h. ||_right parent.indexed child.indexed h;
      })

  merged-IsSound : IsSound child → IsSound m
  merged-IsSound sound =
      let (_, eq, checked) = merged in
      record {
        supported = subst (λ (f : FieldDef). validate f.dtype ≡ ok tt) (sym eq) sound.supported;
        matching = checked;
      }

-- What holds of the fields after a field is merged into them.
record Merged (field : FieldDef) (fields fields' : List FieldDef) : Type 0 where
  keeps : (f : FieldDef) → Kept f fields → Kept f fields'
  present : Kept field fields'
  sound : All IsSound fields → IsSound field → All IsSound fields'
  named :
      (a : String)
      → member a (names fields') ≡ true
      → (a ≡ field.name) ⊎ (member a (names fields) ≡ true)
  distinct : IsDistinct fields → IsDistinct fields'

replaced-Merged :
    (field existing m : FieldDef) (fields : List FieldDef)
    → existing.name ≡ field.name
    → merge_inherited_field existing field ≡ ok m
    → Merged field (existing ∷ fields) (m ∷ fields)
replaced-Merged field existing m fields name one =
    let kept = child-Keeps existing field m one in
    record {
      keeps = λ f k. ⊎_elim (λ here. inl (parent-Keeps existing field m one f name here)) inr k;
      present = inl kept;
      sound = λ all own. (merged-IsSound existing field m one own, all.1);
      named = λ a h.
          ⊎_elim (λ same. inl (sym same ∙ kept.same_name))
            (λ later. inr (member_tail a existing.name (names fields) later))
            (member_split a m.name (names fields) h);
      distinct =
          λ d. (subst (λ n. member n (names fields) ≡ false) (name ∙ sym kept.same_name) d.0, d.1);
    }

passed-Merged :
    (field existing : FieldDef) (fields others : List FieldDef)
    → str_eq existing.name field.name ≡ false
    → Merged field fields others
    → Merged field (existing ∷ fields) (existing ∷ others)
passed-Merged field existing fields others missed rest = record {
  keeps = λ f k. ⊎_elim inl (λ later. inr (rest.keeps f later)) k;
  present = inr rest.present;
  sound = λ all own. (all.0, rest.sound all.1 own);
  named = λ a h.
      ⊎_elim
        (λ same. inr (
          subst (λ n. member n (names (existing ∷ fields)) ≡ true) same
            (member_head existing.name (names fields))))
        (λ later.
          ⊎_elim inl (λ old. inr (member_tail a existing.name (names fields) old))
            (rest.named a later))
        (member_split a existing.name (names others) h);
  distinct = λ d. (
    elim (Bool-cases (member existing.name (names others))) [
      | inr absent ↦ absent
      | inl listed ↦ absurd (
          ⊎_elim (λ same. let hit = (eq_iff existing.name field.name).1 same in cc)
            (λ old. let never = d.0 in cc) (rest.named existing.name listed))
    ],
    rest.distinct d.1,
  );
}

merge_into-Merged :
    (field : FieldDef) (fields fields' : List FieldDef)
    → merge_into field fields ≡ ok fields'
    → Merged field fields fields'
unfolding merge_into member
merge_into-Merged field [] fields' run =
    let eq : fields' ≡ field ∷ [] = cc in
    subst (Merged field []) (sym eq) (record {
      keeps = λ f k. absurd k;
      present = inl (Keeps-refl field);
      sound = λ all one. (one, tt);
      named = λ a h. ⊎_elim (λ same. inl (sym same)) inr (member_split a field.name [] h);
      distinct = λ d. (refl, tt);
    })
merge_into-Merged field (existing ∷ fields) fields' run =
    elim (Bool-cases (str_eq existing.name field.name)) [
      | inl hit ↦
          let name : existing.name ≡ field.name = (eq_iff existing.name field.name).0 hit in
          let chain : (merge_inherited_field existing field >>= λ m. ok (m ∷ fields)) ≡ ok fields' =
            rw (merge_into, hit) at run in
          let (m, one, last) =
            >>=-eq-ok (merge_inherited_field existing field) (λ m. ok (m ∷ fields)) chain in
          let eq : fields' ≡ m ∷ fields = cc in
          subst (Merged field (existing ∷ fields)) (sym eq)
            (replaced-Merged field existing m fields name one)
      | inr missed ↦
          let chain : (merge_into field fields >>= λ others. ok (existing ∷ others)) ≡ ok fields' =
            rw (merge_into, missed) at run in
          let (others, rest, last) =
            >>=-eq-ok (merge_into field fields) (λ others. ok (existing ∷ others)) chain in
          let eq : fields' ≡ existing ∷ others = cc in
          subst (Merged field (existing ∷ fields)) (sym eq) (
            passed-Merged field existing fields others missed
              (merge_into-Merged field fields others rest))
    ]

pub record Declared (fields declared fields' : List FieldDef) : Type 0 where
  pub keeps : (f : FieldDef) → Kept f fields → Kept f fields'
  pub present : All (λ f. Kept f fields') declared
  pub sound : All IsSound fields → All IsSound fields'
  pub distinct : IsDistinct fields → IsDistinct fields'

-- The loop over a schema's own fields.
pub add_fields-Declared :
    (declared fields fields' : List FieldDef)
    → add_fields fields declared ≡ ok fields'
    → Declared fields declared fields'
unfolding add_fields
add_fields-Declared [] fields fields' run =
    let eq : fields ≡ fields' = cc in
    subst (Declared fields []) eq
      (record { keeps = λ f k. k; present = tt; sound = λ all. all; distinct = λ d. d })
add_fields-Declared (field ∷ declared) fields fields' run =
    let (_, supported, run1) =
      >>=-eq-ok (validate field.dtype)
        (λ _. validate_default field field.default >>= λ _.
          merge_into field fields >>= λ merged. add_fields merged declared)
        run in
    let (_, matching, run2) =
      >>=-eq-ok (validate_default field field.default)
        (λ _. merge_into field fields >>= λ merged. add_fields merged declared) run1 in
    let (mid, one, run3) =
      >>=-eq-ok (merge_into field fields) (λ merged. add_fields merged declared) run2 in
    let first = merge_into-Merged field fields mid one in
    let rest = add_fields-Declared declared mid fields' run3 in
    record {
      keeps = λ f k. rest.keeps f (first.keeps f k);
      present = (rest.keeps field first.present, rest.present);
      sound = λ all.
          rest.sound (first.sound all (record { supported = supported; matching = matching }));
      distinct = λ d. rest.distinct (first.distinct d);
    }
