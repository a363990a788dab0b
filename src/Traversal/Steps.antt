-- ===== src/Traversal/Steps.antt =====
-- crates/lynxes-lazy/src/query/executor/traversal.rs: `expand_frontier_csr` and `traverse_graph` against the
-- columns of the edge frame.
use lynxes_mojo.Common.{
  ℕ, ◌<◌, ◌≡◌, ◌↔◌, ◌⊎◌, String, true, none, List, [], ◌∷◌, length, inl, inr, ⊎_elim, member, arith,
}
use lynxes_mojo.Direction.{Direction}
use lynxes_mojo.Outcome.{ok}
use lynxes_mojo.Plan.Expressions.{EdgeTypeSpec, PatternStep}
use lynxes_mojo.Traversal.{IndexedEdges, Found, entries_of, expand_frontier_csr, traverse_ids}
use lynxes_mojo.Traversal.Indexed.{IsIndexed, Joins}
use lynxes_mojo.Traversal.Names.{Names, build_edge_node_ids_lem}
use lynxes_mojo.Traversal.Columns.{All-Has, AnyEntry-map, entries_of-inside, matches_edge_type_iff}
use lynxes_mojo.Traversal.Links.{Lead, entries-Joins}
use lynxes_mojo.Traversal.Frontier.{TypedRows, Leads, Edge, expand_frontier_finds}
use lynxes_mojo.Traversal.Visits.{Along, traverse_ids_visits}

-- An edge of the columns, of a wanted type and in the direction, leads from `u` to `v`.
abbrev pub Neighbor : IndexedEdges → EdgeTypeSpec → Direction → String → String → Type 0
Neighbor es spec direction u v = Joins es spec (λ row. Unit) direction u v

module _ (es : IndexedEdges) (indexes : IsIndexed es) where
  pub typed_rows : (direction : Direction) (idx : ℕ) → TypedRows es (entries_of es direction idx)
  typed_rows direction idx =
      All-Has (λ entry. entry.1 < length es.types) (entries_of es direction idx)
        (λ (d, r) listed.
          let inside = entries_of-inside es indexes direction idx d r listed in
          let typed = indexes.typed in omega (arith, inside, typed))

  Edge-Neighbor :
      (names : List String) (spec : EdgeTypeSpec) (direction : Direction) (u v : String)
      → Names es indexes names
      → Edge es names spec direction u v ↔ Neighbor es spec direction u v
  Edge-Neighbor names spec direction u v named =
      let (ahead, back) = entries-Joins es indexes spec (λ row. Unit) names named direction u v in
      (
        λ (idx, at, some_entry). ahead (
          idx,
          at,
          AnyEntry-map (Leads es names spec v) (Lead es indexes spec (λ row. Unit) names named v)
              (entries_of es direction idx)
              (λ entry (t, got, wanted, name).
                (t, got, (matches_edge_type_iff spec t).0 wanted, name, tt))
              some_entry,
        ),
        λ h.
            let (idx, at, some_entry) = back h in
            (
              idx,
              at,
              AnyEntry-map (Lead es indexes spec (λ row. Unit) names named v)
                  (Leads es names spec v) (entries_of es direction idx)
                  (λ entry (t, got, wanted, name, _).
                    (t, got, (matches_edge_type_iff spec t).1 wanted, name))
                  some_entry,
            ),
      )

-- `u` reaches `v` along edges of the columns for a part of the pattern from its first step on.
abbrev pub Trail : IndexedEdges → List PatternStep → String → String → Type 0
Trail es [] u v = u ≡ v
Trail es (step ∷ steps) u v =
    (u ≡ v) ⊎ ((w : String) × Neighbor es step.edge_type step.direction u w × Trail es steps w v)

module _ (es : IndexedEdges) (indexes : IsIndexed es) (names : List String)
    (named : Names es indexes names) where
  Along-Trail :
      (steps : List PatternStep) (u v : String) → Along es names steps u v ↔ Trail es steps u v
  Along-Trail [] u v = (λ h. h, λ h. h)
  Along-Trail (step ∷ steps) u v = (
    ⊎_elim inl (λ (w, edge, rest). inr (
      w,
      (Edge-Neighbor es indexes names step.edge_type step.direction u w named).0 edge,
      (Along-Trail steps w v).0 rest,
    )),
    ⊎_elim inl (λ (w, edge, rest). inr (
      w,
      (Edge-Neighbor es indexes names step.edge_type step.direction u w named).1 edge,
      (Along-Trail steps w v).1 rest,
    )),
  )

-- When both indexes of the edge frame are built from its columns: `expand_frontier_csr` returns, and it
-- has found exactly the ids that an edge of the columns, of a wanted type and in the direction, leads
-- to from an id of the frontier.
pub step_finds_neighbors :
    (es : IndexedEdges) (frontier : List String) (spec : EdgeTypeSpec) (direction : Direction)
    → IsIndexed es
    → (f : Found) × (expand_frontier_csr es frontier spec direction ≡ ok f)
      × ((v : String)
          → (member v f.next ≡ true)
            ↔ ((u : String) × (member u frontier ≡ true) × Neighbor es spec direction u v))
step_finds_neighbors es frontier spec direction indexes =
    let (names, built, named, _) = build_edge_node_ids_lem es indexes in
    let (f, run, finds) =
      expand_frontier_finds es names frontier spec direction built
        (typed_rows es indexes direction) in
    (
      f,
      run,
      λ v. (
        λ h.
            let (u, listed, edge) = (finds v).0 h in
            (u, listed, (Edge-Neighbor es indexes names spec direction u v named).0 edge),
        λ (u, listed, edge).
            (finds v).1
              (u, listed, (Edge-Neighbor es indexes names spec direction u v named).1 edge),
      ),
    )

-- When both indexes of the edge frame are built from its columns: the loop of `traverse_graph` without
-- a limit returns, and the ids visited are exactly those that edges of the columns lead to from an id
-- of the start, each edge of the type and in the direction of its step, for a part of the pattern from
-- its first step on.
pub traversal_visits_trails :
    (es : IndexedEdges) (pattern : List PatternStep) (start : List String)
    → IsIndexed es
    → (seen : List String) × (retained : List ℕ) × (traverse_ids es none pattern start
        ≡ ok (seen, retained))
      × ((v : String)
          → (member v seen ≡ true)
            ↔ ((u : String) × (member u start ≡ true) × Trail es pattern u v))
traversal_visits_trails es pattern start indexes =
    let (names, built, named, _) = build_edge_node_ids_lem es indexes in
    let (seen, retained, run, visits) =
      traverse_ids_visits es names pattern start built (typed_rows es indexes) in
    (
      seen,
      retained,
      run,
      λ v. (
        λ h.
            let (u, listed, along) = (visits v).0 h in
            (u, listed, (Along-Trail es indexes names named pattern u v).0 along),
        λ (u, listed, trail).
            (visits v).1 (u, listed, (Along-Trail es indexes names named pattern u v).1 trail),
      ),
    )
