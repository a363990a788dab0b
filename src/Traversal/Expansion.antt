-- ===== src/Traversal/Expansion.antt =====
-- crates/lynxes-lazy/src/query/executor/traversal.rs: `expand_graph_raw` against the columns of the edge
-- frame.
use lynxes_mojo.Common.{
  WithinHops, WithinHops-map, ℕ, suc, ◌<◌, ◌≤◌, ◌≡◌, ◌↔◌, ◌⊎◌, String, Bool, true, Option, none,
  some, List, [], ◌∷◌, length, get_elem?, inl, inr, ⊎_elim, member, set_extend, arith, leb,
  Bool-cases,
}
use lynxes_mojo.Direction.{Direction}
use lynxes_mojo.Outcome.{ok}
use lynxes_mojo.Plan.Expressions.{EdgeTypeSpec, Expr}
use lynxes_mojo.Mutable.{get_id}
use lynxes_mojo.Executor.Values.{Floats}
use lynxes_mojo.Traversal.{IndexedEdges, entries_of}
use lynxes_mojo.Traversal.Indexed.{IsIndexed, Joins}
use lynxes_mojo.Traversal.Names.{Names, build_edge_node_ids_lem}
use lynxes_mojo.Traversal.Columns.{All-Has, AnyEntry-map, entries_of-inside, matches_edge_type_iff}
use lynxes_mojo.Traversal.Links.{Lead, entries-Joins}
use lynxes_mojo.Traversal.Frontier.{AnyEntry}
use lynxes_mojo.Traversal.Expand.{NodeRows, candidate_passes_pre_filter, expand_graph_raw}
use lynxes_mojo.Traversal.Candidates.{IsCoded, LeadsTo, IsReadable}
use lynxes_mojo.Traversal.Hops.{Arc, expand_graph_raw-Covers}
use lynxes_mojo.Traversal.Parallel.{expand_graph_raw-Within}
use lynxes_mojo.Traversal.Codes.{Allowed, edge_allowed_iff, coded}
use lynxes_mojo.Traversal.Bounds.{expand_graph_raw-bound}

-- An edge of the columns, of a wanted type and with an allowed code, leads in the direction from `u` to
-- `v`, which passes the filter.
abbrev pub Follows :
    IndexedEdges → List ℕ → EdgeTypeSpec → Direction → (String → Bool) → String → String → Type 0
Follows es dir_col spec direction passes u v =
    Joins es spec (Allowed dir_col direction) direction u v × (passes v ≡ true)

-- The direction column has a code of a direction for every row.
abbrev pub HasCodes : IndexedEdges → List ℕ → Type 0
HasCodes es dir_col =
    (row : ℕ) → row < length es.src → (code : ℕ) × (get_elem? dir_col row ≡ some code) × (code < 4)

-- The filter decides every id of the edge frame.
abbrev pub Decided : Floats → IndexedEdges → NodeRows → Option Expr → (String → Bool) → Type 0
Decided fl es nodes pre_filter passes =
    (id : String) (idx : ℕ)
    → get_id id es.node_index ≡ some idx
    → candidate_passes_pre_filter fl nodes id pre_filter ≡ ok (passes id)

le_refl : (a : ℕ) → a ≤ a
le_refl a = omega arith

le_or : (a b : ℕ) → (b ≤ a) ⊎ (a ≤ b)
le_or a b = elim (Bool-cases (leb b a)) [
  | inl below ↦ inl (ground (arith, below))
  | inr above ↦ inr (ground (arith, above))
]

leb-le : (a b : ℕ) → leb a b ≡ true → a ≤ b
leb-le a b h = ground (arith, h)

module _ (fl : Floats) (es : IndexedEdges) (dir_col : List ℕ) (nodes : NodeRows)
    (spec : EdgeTypeSpec) (direction : Direction) (pre_filter : Option Expr) (stop_at : Option ℕ)
    (passes : String → Bool) (indexes : IsIndexed es) (codes : HasCodes es dir_col)
    (decided : Decided fl es nodes pre_filter passes) (names : List String)
    (named : Names es indexes names)
    (owned : (i : ℕ) (x : String)
      → get_elem? names i ≡ some x
      → get_id x es.node_index ≡ some i) where
  readable : IsReadable fl es dir_col nodes names spec direction pre_filter stop_at passes
  readable = record {
    typed = λ idx.
        All-Has (λ entry. entry.1 < length es.types) (entries_of es direction idx)
          (λ (d, r) listed.
            let inside = entries_of-inside es indexes direction idx d r listed in
            let typed = indexes.typed in omega (arith, inside, typed));
    coded = λ idx.
        All-Has (λ entry. IsCoded dir_col entry.1) (entries_of es direction idx)
          (λ (d, r) listed.
            let (code, got, small) =
              codes r (entries_of-inside es indexes direction idx d r listed) in
            coded dir_col r code got small);
    tested = λ i id h. decided id i (owned i id h);
  }

  abbrev Leading : String → ℕ × ℕ → Type 0
  Leading = LeadsTo fl es dir_col nodes names spec direction pre_filter stop_at passes

  abbrev Listed : String → ℕ × ℕ → Type 0
  Listed = Lead es indexes spec (Allowed dir_col direction) names named

  abbrev Loop : String → String → Type 0
  Loop = Arc fl es dir_col nodes names spec direction pre_filter stop_at passes

  AnyEntry-passes : (v : String) (xs : List (ℕ × ℕ)) → AnyEntry (Leading v) xs → passes v ≡ true
  AnyEntry-passes v [] h = absurd h
  AnyEntry-passes v (x ∷ xs) h =
      ⊎_elim (λ (_, _, _, _, _, passed). passed) (λ later. AnyEntry-passes v xs later) h

  Arc-Follows : (u v : String) → Loop u v → Follows es dir_col spec direction passes u v
  Arc-Follows u v (idx, at, some_entry) = (
    (entries-Joins es indexes spec (Allowed dir_col direction) names named direction u v).0 (
      idx,
      at,
      AnyEntry-map (Leading v) (Listed v) (entries_of es direction idx)
          (λ entry (allowed, t, got, wanted, name, _). (
            t,
            got,
            (matches_edge_type_iff spec t).0 wanted,
            name,
            (edge_allowed_iff dir_col direction entry.1).0 allowed,
          ))
          some_entry,
    ),
    AnyEntry-passes v (entries_of es direction idx) some_entry,
  )

  Follows-Arc : (u v : String) → Follows es dir_col spec direction passes u v → Loop u v
  Follows-Arc u v (joins, passed) =
      let (idx, at, some_entry) =
        (entries-Joins es indexes spec (Allowed dir_col direction) names named direction u v).1
          joins in
      (
        idx,
        at,
        AnyEntry-map (Listed v) (Leading v) (entries_of es direction idx)
            (λ entry (t, got, wanted, name, allowed). (
              (edge_allowed_iff dir_col direction entry.1).1 allowed,
              t,
              got,
              (matches_edge_type_iff spec t).1 wanted,
              name,
              passed,
            ))
            some_entry,
      )

-- When both indexes of the edge frame are built from its columns, every row has the code of a direction
-- and the filter decides every id of the frame: `expand_graph_raw` with a limit returns. It visits the
-- frontier, and only what is within its hops of the frontier along edges of the columns, of a wanted
-- type and with an allowed code, to ids that pass the filter. It visits all of that or at least as many
-- ids as the limit, and it visits at most as many as the limit or as one more than it starts from.
pub expansion_stops_at_limit :
    (fl : Floats) (es : IndexedEdges) (dir_col : List ℕ) (nodes : NodeRows) (spec : EdgeTypeSpec)
    (direction : Direction) (pre_filter : Option Expr) (passes : String → Bool) (limit hops : ℕ)
    (frontier_ids : List String)
    → IsIndexed es
    → HasCodes es dir_col
    → Decided fl es nodes pre_filter passes
    → (visited : List String) × (retained_rows : List ℕ) × (expand_graph_raw fl es dir_col nodes
          spec direction pre_filter
          (some limit)
          hops
          frontier_ids
        ≡ ok (visited, retained_rows))
      × ((v : String) → member v frontier_ids ≡ true → member v visited ≡ true)
      × ((v : String)
          → member v visited ≡ true
          → WithinHops (Follows es dir_col spec direction passes) frontier_ids hops v)
      × (((v : String)
            → WithinHops (Follows es dir_col spec direction passes) frontier_ids hops v
            → member v visited ≡ true)
          ⊎ (limit ≤ length visited))
      × ((length visited ≤ limit) ⊎ (length visited ≤ suc (length (set_extend [] frontier_ids))))
expansion_stops_at_limit fl es dir_col nodes spec direction pre_filter passes limit hops
      frontier_ids indexes codes decided =
    let (names, built, named, owned) = build_edge_node_ids_lem es indexes in
    let (visited, rows, run, sound, kept, complete) =
      expand_graph_raw-Covers fl es dir_col nodes names spec direction pre_filter (some limit)
        passes hops frontier_ids built
        (readable fl es dir_col nodes spec direction pre_filter (some limit) passes indexes codes
          decided names named owned) in
    let ahead =
      WithinHops-map (Arc fl es dir_col nodes names spec direction pre_filter (some limit) passes)
        (Follows es dir_col spec direction passes) frontier_ids
        (Arc-Follows fl es dir_col nodes spec direction pre_filter (some limit) passes indexes codes
          decided names named owned)
        hops in
    let back =
      WithinHops-map (Follows es dir_col spec direction passes)
        (Arc fl es dir_col nodes names spec direction pre_filter (some limit) passes) frontier_ids
        (Follows-Arc fl es dir_col nodes spec direction pre_filter (some limit) passes indexes codes
          decided names named owned)
        hops in
    let fits = λ (bound : ℕ).
      expand_graph_raw-bound fl es dir_col nodes spec direction pre_filter limit hops frontier_ids
        visited rows bound run in
    (
      visited,
      rows,
      run,
      kept,
      λ v h. ahead v (sound v h),
      ⊎_elim (λ all. inl (λ v h. all v (back v h)))
          (λ full. inr (leb-le limit (length visited) full)) complete,
      ⊎_elim (λ more. inl (fits limit (le_refl limit) more))
          (λ starts. inr (fits (suc (length (set_extend [] frontier_ids))) starts (le_refl _)))
          (le_or limit (suc (length (set_extend [] frontier_ids)))),
    )

-- When both indexes of the edge frame are built from its columns, every row has the code of a direction
-- and the filter decides every id of the frame: `expand_graph_raw` without a limit returns, and it
-- visits exactly what is within its hops of the frontier along edges of the columns, of a wanted type
-- and with an allowed code, to ids that pass the filter.
pub expansion_visits_hops :
    (fl : Floats) (es : IndexedEdges) (dir_col : List ℕ) (nodes : NodeRows) (spec : EdgeTypeSpec)
    (direction : Direction) (pre_filter : Option Expr) (passes : String → Bool) (hops : ℕ)
    (frontier_ids : List String)
    → IsIndexed es
    → HasCodes es dir_col
    → Decided fl es nodes pre_filter passes
    → (visited : List String) × (retained_rows : List ℕ) × (expand_graph_raw fl es dir_col nodes
          spec direction pre_filter none hops frontier_ids
        ≡ ok (visited, retained_rows))
      × ((v : String)
          → (member v visited ≡ true)
            ↔ WithinHops (Follows es dir_col spec direction passes) frontier_ids hops v)
expansion_visits_hops fl es dir_col nodes spec direction pre_filter passes hops frontier_ids indexes
      codes decided =
    let (names, built, named, owned) = build_edge_node_ids_lem es indexes in
    let (visited, rows, run, within) =
      expand_graph_raw-Within fl es dir_col nodes names spec direction pre_filter passes hops
        frontier_ids built
        (readable fl es dir_col nodes spec direction pre_filter none passes indexes codes decided
          names named owned) in
    (
      visited,
      rows,
      run,
      λ v. (
        λ h.
            WithinHops-map (Arc fl es dir_col nodes names spec direction pre_filter none passes)
              (Follows es dir_col spec direction passes) frontier_ids
              (Arc-Follows fl es dir_col nodes spec direction pre_filter none passes indexes codes
                decided names named owned)
              hops v ((within v).0 h),
        λ h. (within v).1 (
            WithinHops-map (Follows es dir_col spec direction passes)
              (Arc fl es dir_col nodes names spec direction pre_filter none passes) frontier_ids
              (Follows-Arc fl es dir_col nodes spec direction pre_filter none passes indexes codes
                decided names named owned)
              hops v h),
      ),
    )
