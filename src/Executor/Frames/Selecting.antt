-- ===== src/Executor/Frames/Selecting.antt =====
-- node_frame.rs and edge_frame.rs, `select`: the columns of a projected frame.
use lynxes_mojo.Common.{
  ◌≡◌, refl, ◌⊎◌, inl, inr, ⊎_elim, String, true, not, ◌&&◌, List, [], ◌∷◌, ◌++◌, if◌then◌else◌,
  Bool-cases, subst, member, member_split, member_head, member_tail, member-append_left,
  member-append_right,
}
use lynxes_mojo.Outcome.{Outcome, ok, err, panicked, >>=-eq-ok}
use lynxes_mojo.Executor.Frames.{Batch, check_columns, append_distinct, select}

pub check_columns-member :
    (a : String) (cs present : List String) {u : Unit {0}}
    → check_columns cs present ≡ ok u
    → member a cs ≡ true
    → member a present ≡ true
unfolding check_columns
check_columns-member a [] present h m = cc
check_columns-member a (c ∷ cs) present h m = elim (Bool-cases (member c present)) [
  | inl has ↦
      ⊎_elim (λ same. subst (λ s. member s present ≡ true) same has)
        (check_columns-member a cs present (rw has at h)) (member_split a c cs m)
  | inr lacks ↦ absurd let bad = rw lacks at h in cc
]

-- One step of the loop.
abbrev pub append_step : List String → List String → String → List String
append_step reserved names c =
    if not (member c reserved) && not (member c names) then names ++ c ∷ [] else names

pub append_distinct-keeps :
    (a : String) (reserved names cs : List String)
    → member a names ≡ true
    → member a (append_distinct reserved names cs) ≡ true
unfolding append_distinct
append_distinct-keeps a reserved names [] m = m
append_distinct-keeps a reserved names (c ∷ cs) m =
    append_distinct-keeps a reserved
      (if not (member c reserved) && not (member c names) then names ++ c ∷ [] else names) cs
      (elim (Bool-cases (not (member c reserved) && not (member c names))) [
        | inl new ↦ rw new (member-append_left a names (c ∷ []) m)
        | inr old ↦ rw old m
      ])

-- After a column has been looked at, it is in the list.
appended :
    (c : String) (reserved names : List String)
    → ((a : String) → member a reserved ≡ true → member a names ≡ true)
    → member c (if not (member c reserved) && not (member c names) then names ++ c ∷ [] else names)
      ≡ true
appended c reserved names sub = elim (Bool-cases (member c reserved)) [
  | inl r ↦ rw r (sub c r)
  | inr nr ↦ elim (Bool-cases (member c names)) [
    | inl n ↦ rw (nr, n) n
    | inr nn ↦ rw (nr, nn) (member-append_right c names (c ∷ []) (member_head c []))
  ]
]

appended_sub :
    (c : String) (reserved names : List String)
    → ((a : String) → member a reserved ≡ true → member a names ≡ true)
    → (a : String) → member a reserved ≡ true
    → member a (if not (member c reserved) && not (member c names) then names ++ c ∷ [] else names)
      ≡ true
appended_sub c reserved names sub a m =
    elim (Bool-cases (not (member c reserved) && not (member c names))) [
      | inl new ↦ rw new (member-append_left a names (c ∷ []) (sub a m))
      | inr old ↦ rw old (sub a m)
    ]

pub append_distinct-adds :
    (a : String) (reserved names cs : List String)
    → ((b : String) → member b reserved ≡ true → member b names ≡ true)
    → member a cs ≡ true
    → member a (append_distinct reserved names cs) ≡ true
unfolding append_distinct
append_distinct-adds a reserved names [] sub m = cc
append_distinct-adds a reserved names (c ∷ cs) sub m =
    let next = if not (member c reserved) && not (member c names) then names ++ c ∷ [] else names in
    ⊎_elim
      (λ same.
        append_distinct-keeps a reserved next cs
          (subst (λ s. member s next ≡ true) same (appended c reserved names sub)))
      (append_distinct-adds a reserved next cs (appended_sub c reserved names sub))
      (member_split a c cs m)

select_inner :
    (reserved : List String) (frame b : Batch) (columns : List String) (o : Outcome (Unit {0}))
    → elim o [
      | ok _ ↦ ok (record frame { columns = append_distinct reserved reserved columns })
      | err _ ↦ panicked
      | panicked ↦ panicked
    ]
      ≡ ok b
    → (o ≡ ok tt) × (b ≡ record frame { columns = append_distinct reserved reserved columns })
select_inner reserved frame b columns (ok tt) h = (refl, cc)
select_inner reserved frame b columns (err _) h = cc
select_inner reserved frame b columns panicked h = cc

-- A projection that returns keeps the rows, and has each reserved and each requested column, as the
-- frame did.
pub select-inv :
    (reserved : List String) (frame : Batch) (columns : List String) {b : Batch}
    → select reserved frame columns ≡ ok b
    → (b ≡ record frame { columns = append_distinct reserved reserved columns })
      × ((a : String)
          → (member a reserved ≡ true) ⊎ (member a columns ≡ true)
          → (member a frame.columns ≡ true) × (member a b.columns ≡ true))
unfolding select
select-inv reserved frame columns h =
    let (_, asked, h₁) = >>=-eq-ok (check_columns columns frame.columns) _ h in
    let (base, same) =
      select_inner reserved frame _ columns (check_columns reserved frame.columns) h₁ in
    (
      same,
      λ a.
          ⊎_elim
            (λ r. (
              check_columns-member a reserved frame.columns base r,
              rw same (append_distinct-keeps a reserved reserved columns r),
            ))
            (λ c. (
              check_columns-member a columns frame.columns asked c,
              rw same (append_distinct-adds a reserved reserved columns (λ b m. m) c),
            )),
    )

pub member-check_columns :
    (cs present : List String)
    → ((a : String) → member a cs ≡ true → member a present ≡ true)
    → check_columns cs present ≡ ok tt
unfolding check_columns
member-check_columns [] present h = refl
member-check_columns (c ∷ cs) present h =
    rw (h c (member_head c cs))
      (member-check_columns cs present (λ a m. h a (member_tail a c cs m)))

-- A projection returns where the frame has the reserved and the requested columns.
pub select-intro :
    (reserved : List String) (frame : Batch) (columns : List String)
    → ((a : String) → member a reserved ≡ true → member a frame.columns ≡ true)
    → ((a : String) → member a columns ≡ true → member a frame.columns ≡ true)
    → select reserved frame columns
      ≡ ok (record frame { columns = append_distinct reserved reserved columns })
unfolding select
select-intro reserved frame columns base asked =
    rw
      (
        member-check_columns columns frame.columns asked,
        member-check_columns reserved frame.columns base,
      )
      refl
