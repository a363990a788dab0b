-- ===== src/Components.antt =====
-- crates/lynxes-core/src/algo/connected_components.rs: `compute_components` and the choice of
-- `largest_connected_component`, up to the frames that they materialize.
-- A graph is the ids of its node rows and the indexes of its edges. `usize::MAX` of `eidx_to_nf` is
-- `none`, an index out of bounds is `panicked`. The loop over the queue is a recursion on fuel: one more
-- round than there are rows is enough, and running out of fuel would be `panicked` too.
pub mod Labels
pub mod Queue
pub mod Rows
pub mod Lookups
pub mod Adjacency
pub mod Connectivity
pub mod Largest
pub mod Selection
mod Examples
use lynxes_mojo.Common.{
  ℕ, zero, suc, ◌+◌, String, Bool, true, false, not, ◌&&◌, ◌||◌, Option, none, some, List, [], ◌∷◌,
  ◌++◌, map, length, get_elem?, get_or, set, replicate, ltb, ◌==◌, if◌then◌else◌, filter,
}
use lynxes_mojo.Outcome.{Outcome, ok, panicked, ◌>>=◌}
use lynxes_mojo.Csr.{wrap, neighbors}
use lynxes_mojo.Mutable.{get_id, or_panic}
use lynxes_mojo.Traversal.{IndexedEdges}

-- NodeFrame row → EdgeFrame compact index.
unfoldable pub edge_indexes : IndexedEdges → List String → List (Option ℕ)
unfolding get_id
edge_indexes es ids = map (λ id. get_id id es.node_index) ids

-- EdgeFrame compact index → NodeFrame row, from row `row` on.
unfoldable pub fill_rows : List (Option ℕ) → ℕ → List (Option ℕ) → Outcome (List (Option ℕ))
fill_rows [] row slots = ok slots
fill_rows (none ∷ links) row slots = fill_rows links (suc row) slots
fill_rows (some eidx ∷ links) row slots =
    let rest = fill_rows links (suc row) (set slots eidx (some row)) in
    if ltb eidx (length slots) then rest else panicked

-- The component of each row so far, and the queue.
pub record Labelling : Type 0 where
  pub ids : List (Option ℕ)
  pub queue : List ℕ

-- The body of the loops over neighbors, for the row that a neighbor stands for.
unfoldable pub mark : ℕ → ℕ → Labelling → Outcome Labelling
mark cid row l = elim (get_elem? l.ids row) [
  | none ↦ panicked
  | some (some _) ↦ ok l
  | some none ↦ ok (record { ids = set l.ids row (some cid); queue = l.queue ++ row ∷ [] })
]

module _ (es : IndexedEdges) (links slots : List (Option ℕ)) where
  unfoldable pub visit : ℕ → List ℕ → Labelling → Outcome Labelling
  unfolding mark
  visit cid [] l = ok l
  visit cid (nb ∷ nbs) l = do
    slot ← or_panic (get_elem? slots nb)
    marked ← elim slot [ none ↦ ok l | some row ↦ mark cid row l ]
    visit cid nbs marked

  -- One row from the queue: the outgoing neighbors, then the incoming ones.
  unfoldable pub expand_row : ℕ → ℕ → Labelling → Outcome Labelling
  unfolding visit
  expand_row cid row l = do
    link ← or_panic (get_elem? links row)
    elim link [
      | none ↦ ok l
      | some edge_idx ↦ do
        out ← visit cid (neighbors es.out_csr edge_idx) l
        visit cid (neighbors es.in_csr edge_idx) out
    ]

  unfoldable pub drain_queue : ℕ → ℕ → Labelling → Outcome (List (Option ℕ))
  unfolding expand_row
  drain_queue zero cid l = panicked
  drain_queue (suc fuel) cid l = elim l.queue [
    | [] ↦ ok l.ids
    | row ∷ rows ↦ do
      expanded ← expand_row cid row (record l { queue = rows })
      drain_queue fuel cid expanded
  ]

  -- The outer loop over `count` rows from `start` on.
  unfoldable pub label_rows : ℕ → ℕ → ℕ → List (Option ℕ) → Outcome (List (Option ℕ) × ℕ)
  unfolding drain_queue
  label_rows zero start next_cid ids = ok (ids, next_cid)
  label_rows (suc count) start next_cid ids = elim (get_elem? ids start) [
    | none ↦ panicked
    | some (some _) ↦ label_rows count (suc start) next_cid ids
    | some none ↦ do
      labelled ←
          drain_queue (suc (length ids)) next_cid
            (record { ids = set ids start (some next_cid); queue = start ∷ [] })
      label_rows count (suc start) (wrap (next_cid + 1)) labelled
  ]

-- `c.unwrap_or(0)`
abbrev pub unwrap_or_zero : Option ℕ → ℕ
unwrap_or_zero (some cid) = cid
unwrap_or_zero none = 0

unfoldable pub compute_components : IndexedEdges → List String → Outcome (List ℕ × ℕ)
unfolding edge_indexes fill_rows label_rows
compute_components es node_ids = do
  let links = edge_indexes es node_ids
  slots ← fill_rows links 0 (replicate (length es.node_index) none)
  (ids, next_cid) ←
      label_rows es links slots (length node_ids) 0 0 (replicate (length node_ids) none)
  ok (map unwrap_or_zero ids, next_cid)

-- `sizes[cid as usize] += 1` for every row.
unfoldable pub count_sizes : List ℕ → List ℕ → Outcome (List ℕ)
count_sizes [] sizes = ok sizes
count_sizes (cid ∷ cids) sizes = do
  size ← or_panic (get_elem? sizes cid)
  count_sizes cids (set sizes cid (suc size))

-- `max_by` over the sizes from index `i` on: the later of two elements wins unless it is less, and of
-- equal sizes the higher index is less.
unfoldable pub max_size : List ℕ → ℕ → ℕ → ℕ → ℕ
max_size [] i best best_size = best
max_size (size ∷ sizes) i best best_size =
    let newer = ltb best_size size in
    max_size sizes (suc i) (if newer then i else best) (if newer then size else best_size)

abbrev pub largest_of : List ℕ → Option ℕ
largest_of [] = none
largest_of (size ∷ sizes) = some (max_size sizes 1 0 size)

abbrev pub rows_with : ℕ → ℕ → List ℕ → List ℕ
rows_with cid row [] = []
rows_with cid row (c ∷ cids) =
    let rest = rows_with cid (suc row) cids in if c == cid then row ∷ rest else rest

-- The rows whose ids `largest_connected_component` hands to `subgraph`.
unfoldable pub largest_component_rows : IndexedEdges → List String → Outcome (List ℕ)
unfolding compute_components count_sizes max_size
largest_component_rows es [] = ok []
largest_component_rows es (id ∷ ids) = do
  (component_ids, num_components) ← compute_components es (id ∷ ids)
  elim num_components [
    | zero ↦ ok []
    | suc others ↦ do
      sizes ← count_sizes component_ids (replicate (suc others) 0)
      elim (largest_of sizes) [
        | none ↦ panicked
        | some largest ↦ ok (rows_with largest 0 component_ids)
      ]
  ]
