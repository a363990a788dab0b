-- ===== src/Traversal/Visits.antt =====
-- crates/lynxes-lazy/src/query/executor/traversal.rs, `traverse_graph`: the ids that it visits.
use lynxes_mojo.Common.{
  ℕ, ◌≡◌, ◌↔◌, ◌⊎◌, refl, ◌∙◌, String, true, false, Option, none, List, [], ◌∷◌, inl, inr, ⊎_elim,
  member, set_extend, member-set_extend, set_extend-keeps, set_extend-adds,
}
use lynxes_mojo.Direction.{Direction}
use lynxes_mojo.Outcome.{ok}
use lynxes_mojo.Plan.Expressions.{PatternStep}
use lynxes_mojo.Traversal.{
  reached_limit, IndexedEdges, Found, entries_of, expand_frontier_csr, build_edge_node_ids,
  extend_rows, traverse_steps, traverse_ids,
}
use lynxes_mojo.Traversal.Frontier.{TypedRows, Edge, expand_frontier_finds}

pub empty_or_not :
    (xs : List String) → (xs ≡ []) ⊎ ((y : String) × (ys : List String) × (xs ≡ y ∷ ys))
empty_or_not [] = inl refl
empty_or_not (x ∷ xs) = inr (x, xs, refl)

pub member_nil : (v : String) (xs : List String) → xs ≡ [] → member v xs ≡ true → ⊥
unfolding member
member_nil v xs empty h = let gone = rw empty at h in cc

pub traverse_steps-more :
    (es : IndexedEdges) (stop_at : Option ℕ) (step : PatternStep) (steps : List PatternStep)
    (frontier visited : List String) (rows : List ℕ) (found : Found) (y : String) (ys : List String)
    → expand_frontier_csr es frontier step.edge_type step.direction ≡ ok found
    → found.next ≡ y ∷ ys
    → reached_limit stop_at (set_extend visited found.next) ≡ false
    → traverse_steps es stop_at (step ∷ steps) frontier visited rows
      ≡ traverse_steps es stop_at steps found.next
          (set_extend visited found.next)
          (extend_rows rows found.rows)
unfolding traverse_steps
traverse_steps-more es stop_at step steps frontier visited rows found y ys run more below =
    rw (run, more) (rw below (rw more refl))

pub traverse_steps-last :
    (es : IndexedEdges) (stop_at : Option ℕ) (step : PatternStep) (steps : List PatternStep)
    (frontier visited : List String) (rows : List ℕ) (found : Found)
    → expand_frontier_csr es frontier step.edge_type step.direction ≡ ok found
    → found.next ≡ []
    → traverse_steps es stop_at (step ∷ steps) frontier visited rows ≡ ok (visited, rows)
unfolding traverse_steps
traverse_steps-last es stop_at step steps frontier visited rows found run empty =
    rw (run, empty) refl

module _ (es : IndexedEdges) (names : List String) where
  -- `u` reaches `v` along a part of the pattern from its first step on.
  abbrev pub Along : List PatternStep → String → String → Type 0
  Along [] u v = u ≡ v
  Along (step ∷ steps) u v =
      (u ≡ v) ⊎ ((w : String) × Edge es names step.edge_type step.direction u w × Along steps w v)

  pub Along-here : (steps : List PatternStep) (v : String) → Along steps v v
  Along-here [] v = refl
  Along-here (step ∷ steps) v = inl refl

  abbrev pub Reached : List PatternStep → List String → String → Type 0
  Reached steps frontier v = (u : String) × (member u frontier ≡ true) × Along steps u v

  abbrev pub Finds : PatternStep → List String → Found → Type 0
  Finds step frontier found =
      (v : String)
      → (member v found.next ≡ true) ↔ (
          (u : String) × (member u frontier ≡ true)
          × Edge es names step.edge_type step.direction u v)

  module _ (step : PatternStep) (steps : List PatternStep) (frontier : List String) (found : Found)
      (finds : Finds step frontier found) where
    pub Reached-step : (v : String) → Reached steps found.next v → Reached (step ∷ steps) frontier v
    Reached-step v (w, fresh, rest) =
        let (u, listed, edge) = (finds w).0 fresh in (u, listed, inr (w, edge, rest))

    pub set_extend-Reached :
        (visited : List String) (v : String)
        → member v (set_extend visited found.next) ≡ true
        → (member v visited ≡ true) ⊎ Reached (step ∷ steps) frontier v
    set_extend-Reached visited v put =
        ⊎_elim inl (λ fresh. inr (Reached-step v (v, fresh, Along-here steps v)))
          (member-set_extend v visited found.next put)

    pub Reached-split :
        (visited : List String) (v : String)
        → ((u : String) → member u frontier ≡ true → member u visited ≡ true)
        → Reached (step ∷ steps) frontier v
        → (member v visited ≡ true) ⊎ Reached steps found.next v
    Reached-split visited v inside (u, listed, along) =
        ⊎_elim (λ (same : u ≡ v). inl (rw (← same) (inside u listed)))
          (λ (w, edge, rest). inr (w, (finds w).1 (u, listed, edge), rest)) along

    pub Reached-last :
        (visited : List String) (v : String)
        → ((u : String) → member u frontier ≡ true → member u visited ≡ true)
        → found.next ≡ []
        → Reached (step ∷ steps) frontier v
        → member v visited ≡ true
    Reached-last visited v inside empty reached =
        ⊎_elim (λ old. old) (λ (w, fresh, _). absurd (member_nil w found.next empty fresh))
          (Reached-split visited v inside reached)

  module _ (built : build_edge_node_ids es ≡ ok names)
      (typed : (direction : Direction) (idx : ℕ) → TypedRows es (entries_of es direction idx)) where
    traverse_steps-visits :
        (steps : List PatternStep) (frontier visited : List String) (rows : List ℕ)
        → ((v : String) → member v frontier ≡ true → member v visited ≡ true)
        → (seen : List String) × (retained : List ℕ) × (traverse_steps es none steps frontier
              visited rows
            ≡ ok (seen, retained))
          × ((v : String)
              → (member v seen ≡ true) ↔ ((member v visited ≡ true) ⊎ Reached steps frontier v))
    unfolding traverse_steps
    traverse_steps-visits [] frontier visited rows inside = (
      visited,
      rows,
      refl,
      λ v. (inl, ⊎_elim (λ old. old) (λ (u, listed, same). rw (← same) (inside u listed))),
    )
    traverse_steps-visits (step ∷ steps) frontier visited rows inside =
        let (found, run, finds) =
          expand_frontier_finds es names frontier step.edge_type step.direction built
            (typed step.direction) in
        elim (empty_or_not found.next) [
          | inl empty ↦ (
            visited,
            rows,
            traverse_steps-last es none step steps frontier visited rows found run empty,
            λ v. (
              inl,
              ⊎_elim (λ old. old)
                  (Reached-last step steps frontier found finds visited v inside empty),
            ),
          )
          | inr (y, ys, more) ↦
              let (seen, retained, run', visits) =
                traverse_steps-visits steps found.next (set_extend visited found.next)
                  (extend_rows rows found.rows) (λ v. set_extend-adds v visited found.next) in
              let keep : (v : String) → member v visited ≡ true → member v seen ≡ true =
                λ v old. (visits v).1 (inl (set_extend-keeps v visited found.next old)) in
              (
                seen,
                retained,
                traverse_steps-more es none step steps frontier visited rows found y ys run more
                      refl
                    ∙ run',
                λ v. (
                  λ h.
                      ⊎_elim (set_extend-Reached step steps frontier found finds visited v)
                        (λ later. inr (Reached-step step steps frontier found finds v later))
                        ((visits v).0 h),
                  ⊎_elim (λ old. keep v old)
                      (λ reached.
                        ⊎_elim (λ old. keep v old) (λ later. (visits v).1 (inr later))
                          (Reached-split step steps frontier found finds visited v inside reached)),
                ),
              )
        ]

-- The ids of the edges' nodes are built and every row of the two indexes has a type: then the loop of
-- `traverse_graph` without a limit returns, and the ids visited are exactly those that an id of the
-- start reaches along a part of the pattern from its first step on.
pub traverse_ids_visits :
    (es : IndexedEdges) (names : List String) (pattern : List PatternStep) (start : List String)
    → build_edge_node_ids es ≡ ok names
    → ((direction : Direction) (idx : ℕ) → TypedRows es (entries_of es direction idx))
    → (seen : List String) × (retained : List ℕ) × (traverse_ids es none pattern start
        ≡ ok (seen, retained))
      × ((v : String)
          → (member v seen ≡ true)
            ↔ ((u : String) × (member u start ≡ true) × Along es names pattern u v))
unfolding traverse_ids member
traverse_ids_visits es names pattern start built typed =
    let frontier = set_extend [] start in
    let (seen, retained, run, visits) =
      traverse_steps-visits es names built typed pattern frontier frontier [] (λ v h. h) in
    let listed : (u : String) → member u frontier ≡ true → member u start ≡ true =
      λ u h. ⊎_elim (λ nowhere. absurd cc) (λ m. m) (member-set_extend u [] start h) in
    (
      seen,
      retained,
      run,
      λ v. (
        λ h.
            ⊎_elim (λ m. (v, listed v m, Along-here es names pattern v))
              (λ (u, m, along). (u, listed u m, along)) ((visits v).0 h),
        λ (u, m, along). (visits v).1 (inr (u, set_extend-adds u [] start m, along)),
      ),
    )
