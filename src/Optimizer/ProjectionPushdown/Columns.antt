-- ===== src/Optimizer/ProjectionPushdown/Columns.antt =====
-- crates/lynxes-core/src/query/optimizer/projection_pushdown.rs, `intersect_projection_columns`: the
-- columns of two projections, one after the other.
use lynxes_mojo.Common.{
  ◌≡◌, refl, ap, sym, ◌∙◌, ◌⊎◌, inl, inr, ⊎_elim, String, Bool, true, false, not, ◌&&◌, List, [],
  ◌∷◌, if◌then◌else◌, Bool-cases, subst, &&_split, member, set_insert, set_extend, member_split,
  member_head, member_tail, member-append_left, member-append_right, member-set_insert,
  member-set_extend, member-append_split, set_extend-adds,
}
use lynxes_mojo.Outcome.{ok}
use lynxes_mojo.Executor.Frames.{Batch, append_distinct, select}
use lynxes_mojo.Executor.Frames.Selecting.{select-inv, select-intro, append_step}
use lynxes_mojo.Optimizer.ProjectionPushdown.{retain_distinct, intersect_projection_columns}

nothing : (a : String) → member a [] ≡ true → ⊥
unfolding member
nothing a h = cc

abbrev renamed : List String → Batch → Batch
renamed names b = record b { columns = names }

retain_distinct-allowed :
    (a : String) (cs allowed seen : List String)
    → member a (retain_distinct cs allowed seen) ≡ true
    → member a allowed ≡ true
unfolding retain_distinct
retain_distinct-allowed a [] allowed seen m = cc
retain_distinct-allowed a (c ∷ cs) allowed seen m =
    elim (Bool-cases (member c allowed && not (member c seen))) [
      | inl new ↦
          ⊎_elim
            (λ same.
              subst (λ s. member s allowed ≡ true) same
                (&&_split (member c allowed) (not (member c seen)) new).0)
            (retain_distinct-allowed a cs allowed (set_insert c seen))
            (member_split a c (retain_distinct cs allowed (set_insert c seen)) (rw new at m))
      | inr old ↦ retain_distinct-allowed a cs allowed seen (rw old at m)
    ]

append_step-from :
    (a c : String) (reserved names : List String)
    → member a (append_step reserved names c) ≡ true
    → (member a names ≡ true) ⊎ (c ≡ a)
append_step-from a c reserved names m =
    elim (Bool-cases (not (member c reserved) && not (member c names))) [
      | inl new ↦
          ⊎_elim inl
            (λ last. ⊎_elim inr (λ never. absurd (nothing a never)) (member_split a c [] last))
            (member-append_split a names (c ∷ []) (rw new at m))
      | inr old ↦ inl (rw old at m)
    ]

append_distinct-from :
    (a : String) (reserved names cs : List String)
    → member a (append_distinct reserved names cs) ≡ true
    → (member a names ≡ true) ⊎ (member a cs ≡ true)
unfolding append_distinct
append_distinct-from a reserved names [] m = inl m
append_distinct-from a reserved names (c ∷ cs) m =
    ⊎_elim
      (λ n.
        ⊎_elim inl (λ here. inr (subst (λ s. member s (c ∷ cs) ≡ true) here (member_head c cs)))
          (append_step-from a c reserved names n))
      (λ later. inr (member_tail a c cs later))
      (append_distinct-from a reserved (append_step reserved names c) cs m)

-- A column that is reserved or already there is not appended.
skipped :
    (c : String) (reserved names cs : List String)
    → (member c reserved ≡ true) ⊎ (member c names ≡ true)
    → append_distinct reserved names (c ∷ cs) ≡ append_distinct reserved names cs
unfolding append_distinct
skipped c reserved names cs (inl r) = rw r refl
skipped c reserved names cs (inr n) = elim (Bool-cases (member c reserved)) [
  | inl r ↦ rw r refl
  | inr u ↦ rw (u, n) refl
]

-- A column that was looked at is reserved or there.
looked_at :
    (c : String) (reserved names : List String)
    → (member c reserved ≡ true) ⊎ (member c (append_step reserved names c) ≡ true)
looked_at c reserved names = elim (Bool-cases (member c reserved)) [
  | inl r ↦ inl r
  | inr u ↦ elim (Bool-cases (member c names)) [
    | inl n ↦ inr (rw (u, n) n)
    | inr f ↦ inr (rw (u, f) (member-append_right c names (c ∷ []) (member_head c [])))
  ]
]

append_step-keeps :
    (a c : String) (reserved names : List String)
    → member a names ≡ true
    → member a (append_step reserved names c) ≡ true
append_step-keeps a c reserved names m =
    elim (Bool-cases (not (member c reserved) && not (member c names))) [
      | inl new ↦ rw new (member-append_left a names (c ∷ []) m)
      | inr old ↦ rw old m
    ]

-- The columns of a set that are not appended any more.
abbrev Settled : List String → List String → List String → Type 0
Settled reserved names seen =
    (a : String) → member a seen ≡ true → (member a reserved ≡ true) ⊎ (member a names ≡ true)

settle :
    (c : String) (reserved names seen : List String)
    → Settled reserved names seen
    → Settled reserved (append_step reserved names c) (set_insert c seen)
settle c reserved names seen done a m =
    ⊎_elim
      (λ same.
        subst (λ s. (member s reserved ≡ true) ⊎ (member s (append_step reserved names c) ≡ true))
          same (looked_at c reserved names))
      (λ old. ⊎_elim inl (λ n. inr (append_step-keeps a c reserved names n)) (done a old))
      (member-set_insert a c seen m)

taken :
    (b b' : Bool) (xs ys : List String)
    → b ≡ true
    → b' ≡ false
    → (if b && not b' then xs else ys) ≡ xs
taken b b' xs ys h h' = rw (h, h') refl

-- Appending the retained columns only appends the same columns.
append_distinct-retain_distinct :
    (reserved allowed names seen cs : List String)
    → ((a : String) → member a cs ≡ true → (member a reserved ≡ true) ⊎ (member a allowed ≡ true))
    → Settled reserved names seen
    → append_distinct reserved names (retain_distinct cs allowed seen)
      ≡ append_distinct reserved names cs
unfolding retain_distinct append_distinct
append_distinct-retain_distinct reserved allowed names seen [] known done = refl
append_distinct-retain_distinct reserved allowed names seen (c ∷ cs) known done =
    let later : (a : String)
        → member a cs ≡ true
        → (member a reserved ≡ true) ⊎ (member a allowed ≡ true) =
      λ a m. known a (member_tail a c cs m) in
    elim (Bool-cases (member c allowed)) [
      | inr not_allowed ↦ rw not_allowed (
          append_distinct-retain_distinct reserved allowed names seen cs later done
          ∙ sym (
              skipped c reserved names cs (
                ⊎_elim inl (λ m. absurd let bad = sym not_allowed ∙ m in cc)
                  (known c (member_head c cs)))))
      | inl is_allowed ↦ elim (Bool-cases (member c seen)) [
        | inl old ↦
            rw (is_allowed, old)
              (append_distinct-retain_distinct reserved allowed names seen cs later done
                ∙ sym (skipped c reserved names cs (done c old)))
        | inr new ↦
            ap (append_distinct reserved names)
              (taken (member c allowed) (member c seen) _ _ is_allowed new)
            ∙ append_distinct-retain_distinct reserved allowed (append_step reserved names c)
                (set_insert c seen) cs later (settle c reserved names seen done)
      ]
    ]

-- Two projections that return, one after the other, are the one projection on the columns of both.
pub select-select :
    (reserved inner_columns columns : List String) (frame m : Batch) {b : Batch}
    → select reserved frame inner_columns ≡ ok m
    → select reserved m columns ≡ ok b
    → select reserved frame (intersect_projection_columns inner_columns columns) ≡ ok b
unfolding intersect_projection_columns
select-select reserved inner_columns columns frame m first second =
    let (shape, have) = select-inv reserved frame inner_columns first in
    let (shape', have') = select-inv reserved m columns second in
    let allowed = set_extend [] inner_columns in
    select-intro reserved frame (retain_distinct columns allowed []) (λ a r. (have a (inl r)).0)
      (λ a c.
        (have a (
          ⊎_elim (λ never. absurd (nothing a never)) inr
            (member-set_extend a [] inner_columns
              (retain_distinct-allowed a columns allowed [] c)))).0)
    ∙ ap (λ names. ok (renamed names frame))
        (append_distinct-retain_distinct reserved allowed reserved [] columns
          (λ a c.
            ⊎_elim inl (λ i. inr (set_extend-adds a [] inner_columns i))
              (append_distinct-from a reserved reserved inner_columns
                (subst (λ f. member a f.columns ≡ true) shape (have' a (inr c)).0)))
          (λ a never. absurd (nothing a never)))
    ∙ ap ok (
        sym (
          shape' ∙ ap (λ (x : Batch). renamed (append_distinct reserved reserved columns) x) shape))
