-- ===== src/Traversal/Expand.antt =====
-- crates/lynxes-lazy/src/query/executor/traversal.rs: `expand_graph_raw`, `execute_partition_parallel`'s
-- union of its shards, and `candidate_passes_pre_filter` of filter.rs.
-- The direction column is a list of codes, and the nodes are their rows by id. The loop leaves its
-- three levels where the limit is reached: that is `stopped`.
use lynxes_mojo.Common.{
  ℕ, zero, suc, String, Bool, true, false, Option, none, some, List, [], ◌∷◌, get_elem?,
  if◌then◌else◌, member, set_insert, set_extend, lookup,
}
use lynxes_mojo.Direction.{Direction, out, in_, both, none_, try_from}
use lynxes_mojo.Outcome.{Outcome, ok, err, ◌>>=◌, node_not_found}
use lynxes_mojo.Plan.Expressions.{EdgeTypeSpec, Expr}
use lynxes_mojo.Mutable.{get_id, or_panic}
use lynxes_mojo.Executor.Values.{Floats}
use lynxes_mojo.Executor.Frames.{Row, evaluate_expr, to_bool}
use lynxes_mojo.Traversal.{
  IndexedEdges, matches_edge_type, build_edge_node_ids, entries_of, insert_row, extend_rows,
  reached_limit,
}

pub record NodeRows : Type 0 where
  pub columns : List String
  pub rows : List (String × Row)

unfoldable pub candidate_passes_pre_filter : Floats → NodeRows → String → Option Expr → Outcome Bool
unfolding lookup evaluate_expr
candidate_passes_pre_filter fl nodes id none = ok true
candidate_passes_pre_filter fl nodes id (some pre_filter) = elim (lookup id nodes.rows) [
  | none ↦ err (node_not_found id)
  | some row ↦ do value ← evaluate_expr fl nodes.columns row pre_filter; to_bool fl value
]

-- The edge directions that a traversal follows.
abbrev pub follows_direction : Direction → Direction → Bool
follows_direction out out = true
follows_direction out both = true
follows_direction out _ = false
follows_direction in_ none_ = false
follows_direction in_ _ = true
follows_direction both _ = true
follows_direction none_ _ = true

-- `Both` and `None` do not read the column.
unfoldable pub edge_allowed : List ℕ → Direction → ℕ → Outcome Bool
unfolding try_from
edge_allowed dir_col both e_row = ok true
edge_allowed dir_col none_ e_row = ok true
edge_allowed dir_col out e_row = do
  code ← or_panic (get_elem? dir_col e_row)
  edge_dir ← try_from code
  ok (follows_direction out edge_dir)
edge_allowed dir_col in_ e_row = do
  code ← or_panic (get_elem? dir_col e_row)
  edge_dir ← try_from code
  ok (follows_direction in_ edge_dir)

pub record Expanded : Type 0 where
  pub visited : List String
  pub next : List String
  pub retained_rows : List ℕ

pub data Flow : Type 0 where
  going : Expanded → Flow
  stopped : Expanded → Flow

unfoldable pub admit_candidate : String → ℕ → Expanded → Expanded
unfolding member set_insert
admit_candidate candidate e_row x = record {
  visited = set_insert candidate x.visited;
  next = if member candidate x.visited then x.next else set_insert candidate x.next;
  retained_rows = insert_row e_row x.retained_rows;
}

module _ (fl : Floats) (es : IndexedEdges) (dir_col : List ℕ) (nodes : NodeRows)
    (names : List String) (spec : EdgeTypeSpec) (direction : Direction) (pre_filter : Option Expr)
    (stop_at : Option ℕ) where
  -- A node without an id is passed over, and so is one that the filter drops.
  unfoldable pub named_candidate : Option String → Outcome (Option String)
  unfolding candidate_passes_pre_filter
  named_candidate none = ok none
  named_candidate (some candidate) = do
    passes ← candidate_passes_pre_filter fl nodes candidate pre_filter
    ok (if passes then some candidate else none)

  -- The candidate that an entry stands for, if it passes every test.
  unfoldable pub entry_candidate : ℕ × ℕ → Outcome (Option String)
  unfolding edge_allowed matches_edge_type named_candidate
  entry_candidate (n_local, e_row) = do
    allowed ← edge_allowed dir_col direction e_row
    elim allowed [
      | false ↦ ok none
      | true ↦ do
        edge_type ← or_panic (get_elem? es.types e_row)
        elim (matches_edge_type edge_type spec) [
          | false ↦ ok none
          | true ↦ named_candidate (get_elem? names n_local)
        ]
    ]

  unfoldable pub expand_entries : List (ℕ × ℕ) → Expanded → Outcome Flow
  unfolding entry_candidate admit_candidate
  expand_entries [] x = ok (going x)
  expand_entries (entry ∷ entries) x = do
    candidate ← entry_candidate entry
    elim candidate [
      | none ↦ expand_entries entries x
      | some id ↦
          let admitted = admit_candidate id entry.1 x in
          elim (reached_limit stop_at admitted.visited) [
            | true ↦ ok (stopped admitted)
            | false ↦ expand_entries entries admitted
          ]
    ]

  unfoldable pub expand_current : List String → Expanded → Outcome Flow
  unfolding get_id entries_of expand_entries
  expand_current [] x = ok (going x)
  expand_current (id ∷ ids) x = elim (get_id id es.node_index) [
    | none ↦ expand_current ids x
    | some local_idx ↦ do
      flow ← expand_entries (entries_of es direction local_idx) x
      elim flow [ stopped y ↦ ok (stopped y) | going y ↦ expand_current ids y ]
  ]

  unfoldable pub expand_rounds : ℕ → List String → Expanded → Outcome Expanded
  unfolding expand_current
  expand_rounds zero current x = ok x
  expand_rounds (suc hops) current x = do
    flow ← expand_current current (record x { next = [] })
    elim flow [
      | stopped y ↦ ok y
      | going y ↦ elim y.next [ [] ↦ ok y | id ∷ ids ↦ expand_rounds hops (id ∷ ids) y ]
    ]

module _ (fl : Floats) (es : IndexedEdges) (dir_col : List ℕ) (nodes : NodeRows)
    (spec : EdgeTypeSpec) (direction : Direction) (pre_filter : Option Expr) where
  unfoldable pub expand_graph_raw : Option ℕ → ℕ → List String → Outcome (List String × List ℕ)
  unfolding build_edge_node_ids expand_rounds set_extend
  expand_graph_raw stop_at hops frontier_ids = do
    names ← build_edge_node_ids es
    let current = set_extend [] frontier_ids
    x ←
        expand_rounds fl es dir_col nodes names spec direction pre_filter stop_at hops current
          (record { visited = current; next = []; retained_rows = [] })
    ok (x.visited, x.retained_rows)

  -- The chunks that the threads expand, merged in their order.
  unfoldable pub expand_chunks :
      ℕ → List (List String) → List String → List ℕ → Outcome (List String × List ℕ)
  unfolding expand_graph_raw
  expand_chunks hops [] visited retained_rows = ok (visited, retained_rows)
  expand_chunks hops (chunk ∷ chunks) visited retained_rows = do
    (v, r) ← expand_graph_raw none hops chunk
    expand_chunks hops chunks (set_extend visited v) (extend_rows retained_rows r)
