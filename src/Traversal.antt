-- ===== src/Traversal.antt =====
-- crates/lynxes-lazy/src/query/executor/traversal.rs: `expand_frontier_csr` and the loop of
-- `traverse_graph`, up to the frames that it materializes; `matches_edge_type` of pattern.rs.
-- A set is a list without repetitions. Sets are read in the order of their lists; the theorems are
-- about membership, which no order changes. An index out of bounds is `panicked`.
pub mod Indexed
pub mod Names
pub mod Columns
pub mod Links
pub mod Frontier
pub mod Steps
pub mod Prefixes
pub mod Visits
pub mod Expand
pub mod Admitting
pub mod Candidates
pub mod Expanding
pub mod Bounds
pub mod Hops
pub mod Codes
pub mod Expansion
pub mod Parallel
pub mod Runs
mod Examples
use lynxes_mojo.Common.{
  ℕ, zero, suc, String, Bool, true, false, ◌||◌, Option, none, some, List, [], ◌∷◌, ◌++◌, length,
  get_elem?, set, zip, leb, ◌==◌, if◌then◌else◌, str_eq, member, set_insert, set_extend, replicate,
}
use lynxes_mojo.Direction.{Direction, out, in_, both, none_}
use lynxes_mojo.Outcome.{Outcome, ok, panicked, ◌>>=◌}
use lynxes_mojo.Plan.Expressions.{EdgeTypeSpec, single, multiple, any, PatternStep}
use lynxes_mojo.Csr.{CsrIndex, neighbors, edge_ids}
use lynxes_mojo.Mutable.{Ids, get_id, or_panic}

-- What the traversal reads of an `EdgeFrame`: its columns, its index of ids and its two indexes.
pub record IndexedEdges : Type 0 where
  pub node_index : Ids
  pub src : List String
  pub dst : List String
  pub types : List String
  pub out_csr : CsrIndex
  pub in_csr : CsrIndex

unfoldable pub matches_edge_type : String → EdgeTypeSpec → Bool
unfolding member
matches_edge_type edge_type (single value) = str_eq edge_type value
matches_edge_type edge_type (multiple values) = member edge_type values
matches_edge_type edge_type any = true

-- The body of the loops of `build_edge_node_ids`, for one id.
unfoldable pub put_id : IndexedEdges → String → List String → Outcome (List String)
unfolding get_id
put_id es id names = elim (get_id id es.node_index) [
  | none ↦ ok names
  | some idx ↦ do
    old ← or_panic (get_elem? names idx)
    ok (if str_eq old "" then set names idx id else names)
]

unfoldable pub put_rows :
    IndexedEdges → List (String × String) → List String → Outcome (List String)
unfolding put_id
put_rows es [] names = ok names
put_rows es ((src, dst) ∷ rows) names = do
  with_src ← put_id es src names
  with_dst ← put_id es dst with_src
  put_rows es rows with_dst

unfoldable pub build_edge_node_ids : IndexedEdges → Outcome (List String)
unfolding put_rows
build_edge_node_ids es = put_rows es (zip es.src es.dst) (replicate (length es.node_index) "")

-- The entries that the loops read for a node, `Both` and `None` the outgoing ones first.
unfoldable pub entries_of : IndexedEdges → Direction → ℕ → List (ℕ × ℕ)
entries_of es out idx = zip (neighbors es.out_csr idx) (edge_ids es.out_csr idx)
entries_of es in_ idx = zip (neighbors es.in_csr idx) (edge_ids es.in_csr idx)
entries_of es both idx =
    zip (neighbors es.out_csr idx) (edge_ids es.out_csr idx)
    ++ zip (neighbors es.in_csr idx) (edge_ids es.in_csr idx)
entries_of es none_ idx =
    zip (neighbors es.out_csr idx) (edge_ids es.out_csr idx)
    ++ zip (neighbors es.in_csr idx) (edge_ids es.in_csr idx)

abbrev pub has_row : ℕ → List ℕ → Bool
has_row row [] = false
has_row row (r ∷ rows) = r == row || has_row row rows

abbrev pub insert_row : ℕ → List ℕ → List ℕ
insert_row row rows = if has_row row rows then rows else row ∷ rows

abbrev pub extend_rows : List ℕ → List ℕ → List ℕ
extend_rows rows [] = rows
extend_rows rows (r ∷ rs) = extend_rows (insert_row r rows) rs

-- The sets that `expand_frontier_csr` builds.
pub record Found : Type 0 where
  pub next : List String
  pub rows : List ℕ

-- The body of the loops over a node's entries, for an edge of a matching type.
unfoldable pub insert_candidate : List String → ℕ × ℕ → Found → Found
unfolding set_insert
insert_candidate names (n_local, e_row) found = elim (get_elem? names n_local) [
  | some candidate ↦ record {
    next = set_insert candidate found.next;
    rows = insert_row e_row found.rows;
  }
  | none ↦ found
]

unfoldable pub follow :
    IndexedEdges → List String → EdgeTypeSpec → List (ℕ × ℕ) → Found → Outcome Found
unfolding insert_candidate matches_edge_type
follow es names spec [] found = ok found
follow es names spec (entry ∷ entries) found = do
  edge_type ← or_panic (get_elem? es.types entry.1)
  follow es names spec entries
      (if matches_edge_type edge_type spec then insert_candidate names entry found else found)

unfoldable pub expand_ids :
    IndexedEdges → List String → EdgeTypeSpec → Direction → List String → Found → Outcome Found
unfolding get_id entries_of follow
expand_ids es names spec direction [] found = ok found
expand_ids es names spec direction (id ∷ ids) found = elim (get_id id es.node_index) [
  | none ↦ expand_ids es names spec direction ids found
  | some local_idx ↦ do
    more ← follow es names spec (entries_of es direction local_idx) found
    expand_ids es names spec direction ids more
]

unfoldable pub expand_frontier_csr :
    IndexedEdges → List String → EdgeTypeSpec → Direction → Outcome Found
unfolding build_edge_node_ids expand_ids
expand_frontier_csr es frontier spec direction = do
  names ← build_edge_node_ids es
  expand_ids es names spec direction frontier (record { next = []; rows = [] })

abbrev pub reached_limit : Option ℕ → List String → Bool
reached_limit none visited = false
reached_limit (some limit) visited = leb limit (length visited)

-- The loop of `traverse_graph` from a frontier on: the visited ids and the retained rows.
unfoldable pub traverse_steps :
    IndexedEdges
    → Option ℕ
    → List PatternStep
    → List String
    → List String
    → List ℕ
    → Outcome (List String × List ℕ)
unfolding expand_frontier_csr set_extend
traverse_steps es stop_at [] frontier visited rows = ok (visited, rows)
traverse_steps es stop_at (step ∷ steps) frontier visited rows = do
  found ← expand_frontier_csr es frontier step.edge_type step.direction
  elim found.next [
    | [] ↦ ok (visited, rows)
    | _ ∷ _ ↦
        let seen = set_extend visited found.next in
        let retained = extend_rows rows found.rows in
        elim (reached_limit stop_at seen) [
          | true ↦ ok (seen, retained)
          | false ↦ traverse_steps es stop_at steps found.next seen retained
        ]
  ]

unfoldable pub traverse_ids :
    IndexedEdges → Option ℕ → List PatternStep → List String → Outcome (List String × List ℕ)
unfolding traverse_steps set_extend
traverse_ids es stop_at pattern start =
    let frontier = set_extend [] start in traverse_steps es stop_at pattern frontier frontier []
