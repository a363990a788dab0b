-- ===== src/Mutable/Deletion.antt =====
-- crates/lynxes-core/src/frame/mutable_graph_frame.rs: `delete_node` and `delete_edge` against
-- `out_neighbors`.
use mathlib.Core.List.{filter_map}
use lynxes_mojo.Common.{
  All-append, ℕ, zero, suc, ◌<◌, ◌≡◌, ◌≢◌, refl, ap, ◌∙◌, String, Bool, true, false, not, ◌&&◌,
  ◌||◌, Option, none, some, List, [], ◌∷◌, ◌++◌, length, get_elem?, set, zip, arith, Bool-cases,
  inl, inr, str_eq, All, All-map, ◌==◌, filter,
}
use lynxes_mojo.Outcome.{ok, err, node_not_found}
use lynxes_mojo.Csr.{neighbors, edge_ids}
use lynxes_mojo.Csr.Packing.{AllBelow}
use lynxes_mojo.Mutable.{
  MutableGraphFrame, PendingEdgeRow, FrozenEdgeChunk, Ids, get_id, remove_id, then_some,
  edge_node_is_live, node_is_live_by_id, base_edge_is_live, base_neighbors, chunk_neighbors,
  frozen_neighbors, pending_neighbors, out_neighbors, clear_flag, clear_flags, delete_edges_of,
  delete_node,
}

All-filter_map :
    {A : Type 0} (P : ℕ → Type 0) (b : A → Bool) (e : A → ℕ)
    → ((a : A) → b a ≡ true → P (e a))
    → (xs : List A) → All P (filter_map (λ a. then_some (b a) (e a)) xs)
unfolding filter_map
All-filter_map P b e h [] = tt
All-filter_map P b e h (x ∷ xs) = elim (Bool-cases (b x)) [
  | inl kept ↦ rw kept (h x kept, All-filter_map P b e h xs)
  | inr dropped ↦ rw dropped (All-filter_map P b e h xs)
]

&&_right : (a b : Bool) → (a && b) ≡ true → b ≡ true
&&_right true b h = h
&&_right false b h = absurd cc

module _ (s : MutableGraphFrame) where
  abbrev Live : ℕ → Type 0
  Live v = edge_node_is_live s v ≡ true

  frozen_neighbors-Live :
      (v : ℕ) (chunks : List FrozenEdgeChunk) → All Live (frozen_neighbors s v chunks)
  frozen_neighbors-Live v [] = tt
  frozen_neighbors-Live v (chunk ∷ chunks) =
      All-append Live (chunk_neighbors s v chunk) (frozen_neighbors s v chunks)
        (All-filter_map Live (λ dst. edge_node_is_live s v && edge_node_is_live s dst) (λ dst. dst)
          (λ dst. &&_right (edge_node_is_live s v) (edge_node_is_live s dst))
          (neighbors chunk.csr v))
        (frozen_neighbors-Live v chunks)

  pending_neighbors-Live : (v : ℕ) → All Live (pending_neighbors s v s.pending)
  pending_neighbors-Live v =
      All-filter_map Live
        (λ (e : PendingEdgeRow).
          e.src_idx == v && (edge_node_is_live s e.src_idx && edge_node_is_live s e.dst_idx))
        (λ e. e.dst_idx)
        (λ e h. &&_right (edge_node_is_live s e.src_idx) (edge_node_is_live s e.dst_idx) (
          &&_right (e.src_idx == v) (edge_node_is_live s e.src_idx && edge_node_is_live s e.dst_idx)
            h))
        s.pending

  base_neighbors-Live : (v : ℕ) → All Live (base_neighbors s v)
  unfolding base_neighbors
  base_neighbors-Live v =
      All-filter_map Live
        (λ (e : ℕ × ℕ).
          (not s.base_snapshot_has_stable_edge_rows || base_edge_is_live s e.1)
          && edge_node_is_live s e.0)
        (λ e. e.0)
        (λ e.
          &&_right (not s.base_snapshot_has_stable_edge_rows || base_edge_is_live s e.1)
            (edge_node_is_live s e.0))
        (zip (neighbors s.base_csr v) (edge_ids s.base_csr v))

  -- Only live nodes are listed.
  out_neighbors-Live : (v : ℕ) → All Live (out_neighbors s v)
  unfolding out_neighbors
  out_neighbors-Live v = elim (Bool-cases (edge_node_is_live s v)) [
    | inl live ↦ rw live (
        All-append Live (base_neighbors s v)
          (frozen_neighbors s v s.frozen ++ pending_neighbors s v s.pending) (base_neighbors-Live v)
          (All-append Live (frozen_neighbors s v s.frozen) (pending_neighbors s v s.pending)
            (frozen_neighbors-Live v s.frozen) (pending_neighbors-Live v)))
    | inr dead ↦ rw dead tt
  ]

  out_neighbors-dead :
      (v : ℕ)
      → edge_node_is_live s v ≡ false
      → (out_neighbors s v ≡ []) × ((u : ℕ) → All (λ w. w ≢ v) (out_neighbors s u))
  unfolding out_neighbors
  out_neighbors-dead v dead = (
    rw dead refl,
    λ u.
        All-map (λ w live same. let alive = rw same at live in cc) (out_neighbors s u)
          (out_neighbors-Live u),
  )

  edge_node_is_live-none :
      (v : ℕ) (id : String)
      → get_elem? s.edge_node_idx_to_id v ≡ some id
      → get_id id s.node_id_to_idx ≡ none
      → edge_node_is_live s v ≡ false
  unfolding edge_node_is_live node_is_live_by_id
  edge_node_is_live-none v id named gone =
      rw (edge_node_is_live, named, node_is_live_by_id, gone) refl

get_id-remove_id : (id : String) (ids : Ids) → get_id id (remove_id id ids) ≡ none
unfolding get_id remove_id
get_id-remove_id id [] = refl
get_id-remove_id id ((key, idx) ∷ ids) = elim (Bool-cases (str_eq key id)) [
  | inl same ↦ rw same (get_id-remove_id id ids)
  | inr other ↦ rw (other, other) (get_id-remove_id id ids)
]

length-set : (flags : List Bool) (i : ℕ) (b : Bool) → length (set flags i b) ≡ length flags
length-set [] i b = refl
length-set (x ∷ xs) zero b = refl
length-set (x ∷ xs) (suc i) b = ap suc (length-set xs i b)

clear_flag-inside :
    (flags : List Bool) (i : ℕ) → i < length flags → clear_flag flags i ≡ ok (set flags i false)
unfolding clear_flag
clear_flag-inside flags i inside = ground arith

clear_flags-inside :
    (flags : List Bool) (indices : List ℕ)
    → AllBelow (length flags) indices
    → (cleared : List Bool) × (clear_flags flags indices ≡ ok cleared)
      × (length cleared ≡ length flags)
unfolding clear_flags
clear_flags-inside flags [] below = (flags, refl, refl)
clear_flags-inside flags (i ∷ indices) below =
    let len = length-set flags i false in
    let (cleared, run, same) = clear_flags-inside (set flags i false) indices (rw len below.1) in
    (cleared, rw (clear_flag-inside flags i below.0) run, same ∙ len)

delete_edges_of_lem :
    (s : MutableGraphFrame) (v : ℕ)
    → AllBelow (length s.edge_tombstones) (edge_ids s.out_csr v)
    → AllBelow (length s.edge_tombstones) (edge_ids s.in_csr v)
    → (d : MutableGraphFrame) × (delete_edges_of s v ≡ ok d)
      × (d.node_id_to_idx ≡ s.node_id_to_idx)
      × (d.edge_node_idx_to_id ≡ s.edge_node_idx_to_id)
unfolding delete_edges_of
delete_edges_of_lem s v out_below in_below =
    let (outgoing, run, same) =
      clear_flags-inside s.edge_tombstones (edge_ids s.out_csr v) out_below in
    let (incoming, run', _) =
      clear_flags-inside outgoing (edge_ids s.in_csr v) (rw same in_below) in
    (
      record s {
        edge_tombstones = incoming;
        pending = filter (λ e. not (e.src_idx == v) && not (e.dst_idx == v)) s.pending;
      },
      rw (run, run') refl,
      refl,
      refl,
    )

-- `d` has no node `id`, and the numbers of the edge nodes are those of `s`.
abbrev Unlisted : MutableGraphFrame → String → MutableGraphFrame → Type 0
Unlisted s id d =
    (get_id id d.node_id_to_idx ≡ none) × (d.edge_node_idx_to_id ≡ s.edge_node_idx_to_id)

-- The edge rows of the node are rows that have a tombstone flag.
abbrev pub RowsFlagged : MutableGraphFrame → ℕ → Type 0
RowsFlagged s v =
    AllBelow (length s.edge_tombstones) (edge_ids s.out_csr v)
    × AllBelow (length s.edge_tombstones) (edge_ids s.in_csr v)

delete_node_lem :
    (s : MutableGraphFrame) (id : String) (row : ℕ) (numbered : Option ℕ)
    → get_id id s.node_id_to_idx ≡ some row
    → row < length s.node_tombstones
    → get_id id s.edge_node_id_to_idx ≡ numbered
    → ((v : ℕ) → numbered ≡ some v → RowsFlagged s v)
    → (d : MutableGraphFrame) × (delete_node s id ≡ ok d) × Unlisted s id d
unfolding delete_node
delete_node_lem s id row none found inside no_edges flagged = (
  record s {
    node_id_to_idx = remove_id id s.node_id_to_idx;
    node_tombstones = set s.node_tombstones row false;
  },
  rw (delete_node, found, clear_flag-inside s.node_tombstones row inside, no_edges) refl,
  (get_id-remove_id id s.node_id_to_idx, refl),
)
delete_node_lem s id row (some v) found inside edges flagged =
    let unlisted : MutableGraphFrame = record s {
      node_id_to_idx = remove_id id s.node_id_to_idx;
      node_tombstones = set s.node_tombstones row false;
      edge_node_id_to_idx = remove_id id s.edge_node_id_to_idx;
    } in
    let (d, run, nodes, names) =
      delete_edges_of_lem unlisted v (flagged v refl).0 (flagged v refl).1 in
    (
      d,
      rw (delete_node, found, clear_flag-inside s.node_tombstones row inside, edges) run,
      (rw nodes (get_id-remove_id id s.node_id_to_idx), names),
    )

delete_node-unknown :
    (s : MutableGraphFrame) (id : String)
    → get_id id s.node_id_to_idx ≡ none
    → delete_node s id ≡ err (node_not_found id)
unfolding delete_node
delete_node-unknown s id gone = rw (delete_node, gone) refl

-- The node is known, its row and the edge rows that its outgoing and incoming index name have
-- tombstone flags: then `delete_node` returns, a number of the deleted node has no neighbors and is
-- among the neighbors of no node, and deleting the node again is the error that it is not found.
pub delete_node_unlinks :
    (s : MutableGraphFrame) (id : String) (row : ℕ)
    → get_id id s.node_id_to_idx ≡ some row
    → row < length s.node_tombstones
    → ((v : ℕ) → get_id id s.edge_node_id_to_idx ≡ some v → RowsFlagged s v)
    → (d : MutableGraphFrame) × (delete_node s id ≡ ok d)
      × ((v : ℕ)
          → get_elem? s.edge_node_idx_to_id v ≡ some id
          → (out_neighbors d v ≡ []) × ((u : ℕ) → All (λ w. w ≢ v) (out_neighbors d u)))
      × (delete_node d id ≡ err (node_not_found id))
delete_node_unlinks s id row found inside flagged =
    let (d, run, (gone, names)) =
      delete_node_lem s id row (get_id id s.edge_node_id_to_idx) found inside refl flagged in
    (
      d,
      run,
      λ v named. out_neighbors-dead d v (edge_node_is_live-none d v id (rw names named) gone),
      delete_node-unknown d id gone,
    )
