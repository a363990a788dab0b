-- ===== src/Mutable.antt =====
-- crates/lynxes-core/src/frame/mutable_graph_frame.rs: the mutable adjacency of a graph, the base index
-- with its edge deltas.
-- The locks and snapshots of one owner are its fields: no lock is ever poisoned, since nothing that
-- holds one panics. A hash map is an association list, an index out of bounds and a panic of the CSR
-- construction are `panicked`. A schema is its fields, each as a text. Each operation returns the
-- object that it leaves; what a call that fails has changed before it fails is not modelled, such as
-- the number that `add_edge_row` may have given to the source.
pub mod Neighbors
pub mod Merged
pub mod Deltas
pub mod Deletion
pub mod Additions
mod Examples
use mathlib.Core.List.{filter_map}
use lynxes_mojo.Common.{
  ℕ, zero, suc, String, Bool, true, false, not, ◌&&◌, ◌||◌, Option, none, some, List, [], ◌∷◌, ◌++◌,
  map, length, get_elem?, set, zip, ltb, leb, ◌==◌, if◌then◌else◌, str_eq, replicate, filter,
  tabulate,
}
use lynxes_mojo.Outcome.{
  Outcome, ok, err, panicked, ◌>>=◌, node_not_found, edge_not_found, invalid_config,
  schema_mismatch,
}
use lynxes_mojo.Executor.Frames.{Row}
use lynxes_mojo.Csr.{CsrIndex, wrap, build, neighbors, edge_ids}

abbrev pub Ids : Type 0
Ids = List (String × ℕ)

unfoldable pub get_id : String → Ids → Option ℕ
get_id id [] = none
get_id id ((key, idx) ∷ ids) = let rest = get_id id ids in if str_eq key id then some idx else rest

unfoldable pub remove_id : String → Ids → Ids
remove_id id [] = []
remove_id id ((key, idx) ∷ ids) =
    let rest = remove_id id ids in if str_eq key id then rest else (key, idx) ∷ rest

-- One row of an `EdgeFrame`: its endpoints, and what is read in its columns.
pub record EdgeRow : Type 0 where
  pub src : String
  pub dst : String
  pub columns : Row

pub record EdgeFrame : Type 0 where
  pub schema : List String
  pub rows : List EdgeRow

pub record PendingEdgeRow : Type 0 where
  pub src_idx : ℕ
  pub dst_idx : ℕ
  pub edge : EdgeRow

pub record FrozenEdgeChunk : Type 0 where
  pub csr : CsrIndex
  pub edges : List EdgeRow

-- `edge_data` is its rows, its schema and its two indexes; `in_csr` is made of the rows, once.
pub record MutableGraphFrame : Type 0 where
  pub base_csr : CsrIndex
  pub edge_data : EdgeFrame
  pub out_csr : CsrIndex
  pub in_csr : CsrIndex
  pub base_snapshot_has_stable_edge_rows : Bool
  pub pending : List PendingEdgeRow
  pub frozen : List FrozenEdgeChunk
  pub node_id_to_idx : Ids
  pub edge_node_id_to_idx : Ids
  pub edge_node_idx_to_id : List String
  pub node_tombstones : List Bool
  pub edge_tombstones : List Bool

abbrev pub flush_threshold : ℕ
flush_threshold = 1024

abbrev pub or_panic {ℓ} : {A : Type ℓ} → Option A → Outcome A
or_panic (some a) = ok a
or_panic none = panicked

abbrev pub or_false : Option Bool → Bool
or_false (some b) = b
or_false none = false

unfoldable pub node_is_live_by_id : MutableGraphFrame → String → Bool
unfolding get_id
node_is_live_by_id s id = elim (get_id id s.node_id_to_idx) [
  | some node_row ↦ or_false (get_elem? s.node_tombstones node_row)
  | none ↦ false
]

unfoldable pub edge_node_is_live : MutableGraphFrame → ℕ → Bool
unfolding node_is_live_by_id
edge_node_is_live s idx = elim (get_elem? s.edge_node_idx_to_id idx) [
  | some node_id ↦ node_is_live_by_id s node_id
  | none ↦ false
]

unfoldable pub base_edge_is_live : MutableGraphFrame → ℕ → Bool
base_edge_is_live s edge_row = or_false (get_elem? s.edge_tombstones edge_row)

-- `condition.then_some(value)`
abbrev pub then_some : Bool → ℕ → Option ℕ
then_some condition value = if condition then some value else none

unfoldable pub base_neighbors : MutableGraphFrame → ℕ → List ℕ
unfolding edge_node_is_live base_edge_is_live
base_neighbors s idx =
    filter_map
      (λ (e : ℕ × ℕ).
        then_some
          ((not s.base_snapshot_has_stable_edge_rows || base_edge_is_live s e.1)
            && edge_node_is_live s e.0)
          e.0)
      (zip (neighbors s.base_csr idx) (edge_ids s.base_csr idx))

abbrev pub chunk_neighbors : MutableGraphFrame → ℕ → FrozenEdgeChunk → List ℕ
chunk_neighbors s idx chunk =
    filter_map (λ (dst : ℕ). then_some (edge_node_is_live s idx && edge_node_is_live s dst) dst)
      (neighbors chunk.csr idx)

abbrev pub frozen_neighbors : MutableGraphFrame → ℕ → List FrozenEdgeChunk → List ℕ
frozen_neighbors s idx [] = []
frozen_neighbors s idx (chunk ∷ chunks) =
    chunk_neighbors s idx chunk ++ frozen_neighbors s idx chunks

abbrev pub pending_neighbors : MutableGraphFrame → ℕ → List PendingEdgeRow → List ℕ
pending_neighbors s idx pending =
    filter_map
      (λ (e : PendingEdgeRow).
        then_some
          (e.src_idx == idx && (edge_node_is_live s e.src_idx && edge_node_is_live s e.dst_idx))
          e.dst_idx)
      pending

unfoldable pub out_neighbors : MutableGraphFrame → ℕ → List ℕ
unfolding base_neighbors
out_neighbors s idx =
    if edge_node_is_live s idx
    then base_neighbors s idx
      ++ (frozen_neighbors s idx s.frozen ++ pending_neighbors s idx s.pending)
    else []

abbrev pub src_rows : List PendingEdgeRow → List ℕ
src_rows pending = map (λ e. e.src_idx) pending

abbrev pub dst_rows : List PendingEdgeRow → List ℕ
dst_rows pending = map (λ e. e.dst_idx) pending

-- The body of `flush_pending_locked`, on the pending rows that it holds the lock of. The concatenation
-- of one-row frames of one schema keeps their rows.
unfoldable pub flush_rows : MutableGraphFrame → List PendingEdgeRow → Outcome MutableGraphFrame
flush_rows s [] = ok s
flush_rows s (row ∷ rows) = do
  mini_csr ←
      or_panic
        (build (src_rows (row ∷ rows)) (dst_rows (row ∷ rows)) (length s.edge_node_idx_to_id))
  ok (record s {
    frozen = s.frozen ++ record { csr = mini_csr; edges = map (λ e. e.edge) (row ∷ rows) } ∷ [];
    pending = [];
  })

unfoldable pub flush_pending_locked : MutableGraphFrame → Outcome MutableGraphFrame
unfolding flush_rows
flush_pending_locked s = flush_rows s s.pending

-- `resolve_edge_node_idx`, with the state that it leaves.
unfoldable pub resolve_edge_node_idx : MutableGraphFrame → String → Outcome (MutableGraphFrame × ℕ)
unfolding get_id
resolve_edge_node_idx s id = elim (get_id id s.edge_node_id_to_idx) [
  | some idx ↦ ok (s, idx)
  | none ↦ elim (get_id id s.node_id_to_idx) [
    | some _ ↦
        let idx = wrap (length s.edge_node_idx_to_id) in
        ok (
          record s {
            edge_node_id_to_idx = (id, idx) ∷ s.edge_node_id_to_idx;
            edge_node_idx_to_id = s.edge_node_idx_to_id ++ id ∷ [];
          },
          idx,
        )
    | none ↦ err (node_not_found id)
  ]
]

abbrev pub same_schema : List String → List String → Bool
same_schema [] [] = true
same_schema (f ∷ fs) (g ∷ gs) = str_eq f g && same_schema fs gs
same_schema _ _ = false

-- `add_edge_row` after the two checks of the frame.
unfoldable pub push_edge : MutableGraphFrame → EdgeRow → Outcome MutableGraphFrame
unfolding resolve_edge_node_idx flush_pending_locked
push_edge s edge = do
  (s₁, src_idx) ← resolve_edge_node_idx s edge.src
  (s₂, dst_idx) ← resolve_edge_node_idx s₁ edge.dst
  let pending = s₂.pending ++ record { src_idx = src_idx; dst_idx = dst_idx; edge = edge } ∷ []
  let pushed : MutableGraphFrame = record s₂ { pending = pending }
  if ltb flush_threshold (length pending) then flush_pending_locked pushed else ok pushed

unfoldable pub add_edge_row : MutableGraphFrame → EdgeFrame → Outcome MutableGraphFrame
unfolding push_edge
add_edge_row s frame = elim frame.rows [
  | [] ↦ err invalid_config
  | edge ∷ more ↦
      if not (length more == 0)
      then err invalid_config
      else if not (same_schema frame.schema s.edge_data.schema)
      then err schema_mismatch
      else push_edge s edge
]

-- `flags[index] = false`
unfoldable pub clear_flag : List Bool → ℕ → Outcome (List Bool)
clear_flag flags index = if ltb index (length flags) then ok (set flags index false) else panicked

unfoldable pub clear_flags : List Bool → List ℕ → Outcome (List Bool)
unfolding clear_flag
clear_flags flags [] = ok flags
clear_flags flags (index ∷ indices) = do
  cleared ← clear_flag flags index
  clear_flags cleared indices

-- The part of `delete_node` under `if let Some(edge_idx)`.
unfoldable pub delete_edges_of : MutableGraphFrame → ℕ → Outcome MutableGraphFrame
unfolding clear_flags
delete_edges_of s edge_idx = do
  outgoing ← clear_flags s.edge_tombstones (edge_ids s.out_csr edge_idx)
  incoming ← clear_flags outgoing (edge_ids s.in_csr edge_idx)
  ok (record s {
    edge_tombstones = incoming;
    pending = filter (λ e. not (e.src_idx == edge_idx) && not (e.dst_idx == edge_idx)) s.pending;
  })

unfoldable pub delete_node : MutableGraphFrame → String → Outcome MutableGraphFrame
unfolding get_id remove_id clear_flag delete_edges_of
delete_node s id = elim (get_id id s.node_id_to_idx) [
  | none ↦ err (node_not_found id)
  | some node_row ↦ do
    tombstones ← clear_flag s.node_tombstones node_row
    let unlisted : MutableGraphFrame = record s {
      node_id_to_idx = remove_id id s.node_id_to_idx;
      node_tombstones = tombstones;
    }
    elim (get_id id s.edge_node_id_to_idx) [
      | none ↦ ok unlisted
      | some edge_idx ↦
          delete_edges_of
            (record unlisted { edge_node_id_to_idx = remove_id id s.edge_node_id_to_idx }) edge_idx
    ]
]

unfoldable pub delete_edge : MutableGraphFrame → ℕ → Outcome MutableGraphFrame
unfolding clear_flag
delete_edge s edge_row = if leb (length s.edge_tombstones) edge_row then err edge_not_found else do
  cleared ← clear_flag s.edge_tombstones edge_row
  ok (record s { edge_tombstones = cleared })

-- `base_iter` of `compact`, without the source that it puts into each pair.
unfoldable pub merged_base : MutableGraphFrame → ℕ → List ℕ
unfolding edge_node_is_live base_edge_is_live
merged_base s src_idx =
    filter_map
      (λ (e : ℕ × ℕ).
        then_some
          (base_edge_is_live s e.1 && (edge_node_is_live s src_idx && edge_node_is_live s e.0)) e.0)
      (zip (neighbors s.base_csr src_idx) (edge_ids s.base_csr src_idx))

unfoldable pub merged_row : MutableGraphFrame → ℕ → List (ℕ × ℕ)
unfolding merged_base
merged_row s src_idx =
    map (λ dst. (src_idx, dst)) (merged_base s src_idx ++ frozen_neighbors s src_idx s.frozen)

-- The rows of `count` sources from `idx` on, in the order of the sources.
unfoldable pub merged_rows : MutableGraphFrame → ℕ → ℕ → List (ℕ × ℕ)
unfolding merged_row
merged_rows s zero idx = []
merged_rows s (suc count) idx = merged_row s idx ++ merged_rows s count (suc idx)

abbrev pub row_src : ℕ × ℕ → ℕ
row_src row = row.0

abbrev pub row_dst : ℕ × ℕ → ℕ
row_dst row = row.1

unfoldable pub compact : MutableGraphFrame → Outcome MutableGraphFrame
unfolding flush_pending_locked merged_rows
compact s = do
  flushed ← flush_pending_locked s
  let node_count = length flushed.edge_node_idx_to_id
  let rows = merged_rows flushed (wrap node_count) 0
  new_csr ← or_panic (build (map row_src rows) (map row_dst rows) node_count)
  ok (record flushed {
    out_csr = new_csr;
    base_csr = new_csr;
    base_snapshot_has_stable_edge_rows = false;
    frozen = [];
  })
