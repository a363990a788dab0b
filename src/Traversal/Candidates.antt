-- ===== src/Traversal/Candidates.antt =====
-- crates/lynxes-lazy/src/query/executor/traversal.rs, `expand_graph_raw`: which entries lead to an id.
use lynxes_mojo.Common.{
  ℕ, ◌<◌, ◌≡◌, ◌↔◌, ◌⊎◌, refl, ap, sym, ◌∙◌, subst, String, Bool, true, false, Option, none, some,
  List, [], ◌∷◌, length, get_elem?, Bool-cases, Option-cases, inl, inr, All, if◌then◌else◌,
}
use lynxes_mojo.Direction.{Direction, out, in_, both, none_, try_from}
use lynxes_mojo.Outcome.{Outcome, ok}
use lynxes_mojo.Plan.Expressions.{EdgeTypeSpec, Expr}
use lynxes_mojo.Mutable.{get_id}
use lynxes_mojo.Executor.Values.{Floats}
use lynxes_mojo.Traversal.{IndexedEdges, matches_edge_type, entries_of}
use lynxes_mojo.Traversal.Frontier.{AnyEntry, get_elem-inside}
use lynxes_mojo.Traversal.Expand.{
  NodeRows, candidate_passes_pre_filter, follows_direction, edge_allowed, named_candidate,
  entry_candidate,
}

-- The edge's code is that of a direction.
abbrev pub IsCoded : List ℕ → ℕ → Type 0
IsCoded dir_col e_row =
    (code : ℕ) × (edge_dir : Direction) × (get_elem? dir_col e_row ≡ some code)
    × (try_from code ≡ ok edge_dir)

edge_allowed_run :
    (dir_col : List ℕ) (direction : Direction) (e_row : ℕ)
    → IsCoded dir_col e_row
    → (b : Bool) × (edge_allowed dir_col direction e_row ≡ ok b)
unfolding edge_allowed
edge_allowed_run dir_col both e_row coded = (true, refl)
edge_allowed_run dir_col none_ e_row coded = (true, refl)
edge_allowed_run dir_col out e_row (code, edge_dir, got, read) =
    (follows_direction out edge_dir, rw (got, read) refl)
edge_allowed_run dir_col in_ e_row (code, edge_dir, got, read) =
    (follows_direction in_ edge_dir, rw (got, read) refl)

module _ (fl : Floats) (es : IndexedEdges) (dir_col : List ℕ) (nodes : NodeRows)
    (names : List String) (spec : EdgeTypeSpec) (direction : Direction) (pre_filter : Option Expr)
    (stop_at : Option ℕ) (passes : String → Bool) where
  -- The entry's edge may be followed and is of a wanted type, and its node is `v`, which passes.
  abbrev pub LeadsTo : String → ℕ × ℕ → Type 0
  LeadsTo v entry =
      (edge_allowed dir_col direction entry.1 ≡ ok true)
      × (edge_type : String) × (get_elem? es.types entry.1 ≡ some edge_type)
      × (matches_edge_type edge_type spec ≡ true)
      × (get_elem? names entry.0 ≡ some v)
      × (passes v ≡ true)

  -- Every entry has a type and a code, and the filter decides every id.
  pub record IsReadable : Type 0 where
    pub typed : (idx : ℕ) → All (λ entry. entry.1 < length es.types) (entries_of es direction idx)
    pub coded : (idx : ℕ) → All (λ entry. IsCoded dir_col entry.1) (entries_of es direction idx)
    pub tested :
        (i : ℕ) (id : String)
        → get_elem? names i ≡ some id
        → candidate_passes_pre_filter fl nodes id pre_filter ≡ ok (passes id)

  abbrev candidate_of : ℕ × ℕ → Outcome (Option String)
  candidate_of = entry_candidate fl es dir_col nodes names spec direction pre_filter stop_at

  abbrev named_of : Option String → Outcome (Option String)
  named_of = named_candidate fl es dir_col nodes names spec direction pre_filter stop_at

  abbrev pub Decides : Option String → ℕ × ℕ → Type 0
  Decides o entry = (v : String) → (o ≡ some v) ↔ LeadsTo v entry

  -- The ids that the rows of the current ids lead to.
  abbrev pub LeadsFrom : List String → String → Type 0
  LeadsFrom [] v = ⊥
  LeadsFrom (id ∷ ids) v =
      ((idx : ℕ) × (get_id id es.node_index ≡ some idx)
        × AnyEntry (LeadsTo v) (entries_of es direction idx))
      ⊎ LeadsFrom ids v

  module _ (readable : IsReadable) where
    named_candidate_lem :
        (n : ℕ)
        → (o : Option String) × (named_of (get_elem? names n) ≡ ok o)
          × ((v : String) → (o ≡ some v) ↔ ((get_elem? names n ≡ some v) × (passes v ≡ true)))
    unfolding named_candidate
    named_candidate_lem n = elim (Option-cases (get_elem? names n)) [
      | inl nobody ↦
          (none, rw (named_candidate, nobody) refl, λ v. (λ h. absurd cc, λ (named, _). absurd cc))
      | inr (id, named) ↦
          let run : named_of (get_elem? names n) ≡ ok (if passes id then some id else none) =
            rw (named_candidate, named) (rw (readable.tested n id named) refl) in
          elim (Bool-cases (passes id)) [
            | inl passed ↦ (
              some id,
              run ∙ rw passed refl,
              λ v. (
                λ h.
                    let same : id ≡ v = cc in (named ∙ h, subst (λ w. passes w ≡ true) same passed),
                λ (at, _). sym named ∙ at,
              ),
            )
            | inr dropped ↦ (
              none,
              run ∙ rw dropped refl,
              λ v. (
                λ h. absurd cc,
                λ (at, passed).
                    absurd
                      let same : id ≡ v = let both_ways : some id ≡ some v = sym named ∙ at in cc in
                        let no : passes v ≡ false = subst (λ w. passes w ≡ false) same dropped in
                        cc,
              ),
            )
          ]
    ]

    pub entry_candidate_lem :
        (entry : ℕ × ℕ)
        → entry.1 < length es.types
        → IsCoded dir_col entry.1
        → (o : Option String) × (candidate_of entry ≡ ok o) × Decides o entry
    unfolding entry_candidate
    entry_candidate_lem (n, r) typed coded =
        let (b, allowed) = edge_allowed_run dir_col direction r coded in
        let (t, got) = get_elem-inside es.types r typed in
        elim (Bool-cases b) [
          | inr refused ↦
              let no_way : edge_allowed dir_col direction r ≡ ok false = allowed ∙ ap ok refused in
              (
                none,
                rw (entry_candidate, no_way) refl,
                λ v. (λ h. absurd cc, λ (yes_way, _, _, _, _, _). absurd cc),
              )
          | inl open_way ↦
              let way : edge_allowed dir_col direction r ≡ ok true = allowed ∙ ap ok open_way in
              elim (Bool-cases (matches_edge_type t spec)) [
                | inr unwanted ↦ (
                  none,
                  rw (entry_candidate, way)
                      (rw got (
                        ap
                          (λ (b : Bool). elim b as (λ _. Outcome (Option String)) [
                            | false ↦ ok none
                            | true ↦ named_of (get_elem? names n)
                          ])
                          unwanted)),
                  λ v. (
                    λ h. absurd cc,
                    λ (_, t', got', wanted, _, _).
                        absurd
                          let same : t' ≡ t = cc in
                            let no : matches_edge_type t' spec ≡ false =
                              subst (λ x. matches_edge_type x spec ≡ false) (sym same) unwanted in
                            cc,
                  ),
                )
                | inl wanted ↦
                    let run : candidate_of (n, r) ≡ named_of (get_elem? names n) =
                      rw (entry_candidate, way)
                        (rw got (
                          ap
                            (λ (b : Bool). elim b as (λ _. Outcome (Option String)) [
                              | false ↦ ok none
                              | true ↦ named_of (get_elem? names n)
                            ])
                            wanted)) in
                    let (o, named, decides) = named_candidate_lem n in
                    (
                      o,
                      run ∙ named,
                      λ v. (
                        λ h.
                            let (at, passed) = (decides v).0 h in (way, t, got, wanted, at, passed),
                        λ (_, _, _, _, at, passed). (decides v).1 (at, passed),
                      ),
                    )
              ]
        ]
