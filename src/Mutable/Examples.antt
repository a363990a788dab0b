-- ===== src/Mutable/Examples.antt =====
-- crates/lynxes-core/src/frame/mutable_graph_frame.rs: a mutable graph of three nodes, and the theorems
-- at it.
use mathlib.Core.List.{filter_map}
use lynxes_mojo.Common.{
  true, if◌then◌else◌, ◌==◌, some, zero, suc, get_elem?, All, ◌≢◌, ℕ, String, ◌≡◌, true, [], ◌∷◌,
  arith, length, refl, Perm,
}
use lynxes_mojo.Outcome.{node_not_found, invalid_config, ok, err}
use lynxes_mojo.Executor.Frames.{Row}
use lynxes_mojo.Csr.{CsrIndex, build, neighbors, edge_ids}
use lynxes_mojo.Mutable.{
  EdgeFrame, add_edge_row, edge_node_is_live, get_id, delete_node, MutableGraphFrame, EdgeRow,
  FrozenEdgeChunk, out_neighbors, merged_rows, flush_pending_locked, compact,
}
use lynxes_mojo.Mutable.Deletion.{RowsFlagged, delete_node_unlinks}
use lynxes_mojo.Mutable.Additions.{add_edge_row_adds_neighbor}
use lynxes_mojo.Mutable.Deltas.{flush_keeps_neighbors, compact_keeps_neighbors}

abbrev no_columns : Row
no_columns column = err invalid_config

abbrev edge : String → String → EdgeRow
edge src dst = record { src = src; dst = dst; columns = no_columns }

-- a → b in the base index, a → c pending.
abbrev base : CsrIndex
base = record { offsets = 0 ∷ 1 ∷ 1 ∷ 1 ∷ []; neighbors = 1 ∷ []; edge_ids = 0 ∷ [] }

abbrev reversed : CsrIndex
reversed = record { offsets = 0 ∷ 0 ∷ 1 ∷ 1 ∷ []; neighbors = 0 ∷ []; edge_ids = 0 ∷ [] }

abbrev three_nodes : MutableGraphFrame
three_nodes = record {
  base_csr = base;
  edge_data = record { schema = "_src" ∷ "_dst" ∷ []; rows = edge "a" "b" ∷ [] };
  out_csr = base;
  in_csr = reversed;
  base_snapshot_has_stable_edge_rows = true;
  pending = record { src_idx = 0; dst_idx = 2; edge = edge "a" "c" } ∷ [];
  frozen = [];
  node_id_to_idx = ("a", 0) ∷ ("b", 1) ∷ ("c", 2) ∷ [];
  edge_node_id_to_idx = ("a", 0) ∷ ("b", 1) ∷ ("c", 2) ∷ [];
  edge_node_idx_to_id = "a" ∷ "b" ∷ "c" ∷ [];
  node_tombstones = true ∷ true ∷ true ∷ [];
  edge_tombstones = true ∷ [];
}

abbrev chunk : FrozenEdgeChunk
chunk = record {
  csr = record { offsets = 0 ∷ 1 ∷ 1 ∷ 1 ∷ []; neighbors = 2 ∷ []; edge_ids = 0 ∷ [] };
  edges = edge "a" "c" ∷ [];
}

abbrev three_nodes_flushed : MutableGraphFrame
three_nodes_flushed = record three_nodes { pending = []; frozen = chunk ∷ [] }

three_nodes_neighbors : out_neighbors three_nodes 0 ≡ 1 ∷ 2 ∷ []
unfolding out_neighbors neighbors edge_ids filter_map
three_nodes_neighbors = refl

three_nodes_flush : flush_pending_locked three_nodes ≡ ok three_nodes_flushed
unfolding flush_pending_locked build
three_nodes_flush = refl

few_rows : length (merged_rows three_nodes_flushed 3 0) ≡ 2
unfolding merged_rows neighbors edge_ids filter_map
few_rows = refl

flush_keeps_neighbors_example :
    (f : MutableGraphFrame) × (flush_pending_locked three_nodes ≡ ok f)
    × (f.pending ≡ [])
    × ((v : ℕ) → Perm (out_neighbors f v) (out_neighbors three_nodes v))
flush_keeps_neighbors_example = flush_keeps_neighbors three_nodes (omega arith, tt) (omega arith)

compact_keeps_neighbors_example :
    (c : MutableGraphFrame) × (compact three_nodes ≡ ok c)
    × ((v : ℕ) → Perm (out_neighbors c v) (out_neighbors three_nodes v))
compact_keeps_neighbors_example =
    compact_keeps_neighbors three_nodes three_nodes_flushed (omega arith, tt) (omega arith) refl
      three_nodes_flush (omega arith) (omega (arith, few_rows))

a_flagged :
    (v : ℕ) → get_id "a" three_nodes.edge_node_id_to_idx ≡ some v → RowsFlagged three_nodes v
unfolding get_id edge_ids
a_flagged zero h = ((omega arith, tt), tt)
a_flagged (suc v) h = absurd cc

a_listed : get_id "a" three_nodes.node_id_to_idx ≡ some 0
unfolding get_id
a_listed = refl

delete_node_unlinks_example :
    (d : MutableGraphFrame) × (delete_node three_nodes "a" ≡ ok d)
    × ((v : ℕ)
        → get_elem? three_nodes.edge_node_idx_to_id v ≡ some "a"
        → (out_neighbors d v ≡ []) × ((u : ℕ) → All (λ w. w ≢ v) (out_neighbors d u)))
    × (delete_node d "a" ≡ err (node_not_found "a"))
delete_node_unlinks_example = delete_node_unlinks three_nodes "a" 0 a_listed (omega arith) a_flagged

abbrev b_to_c : EdgeFrame
b_to_c = record { schema = "_src" ∷ "_dst" ∷ []; rows = edge "b" "c" ∷ [] }

b_numbered : get_id "b" three_nodes.edge_node_id_to_idx ≡ some 1
unfolding get_id
b_numbered = refl

c_numbered : get_id "c" three_nodes.edge_node_id_to_idx ≡ some 2
unfolding get_id
c_numbered = refl

both_live : (edge_node_is_live three_nodes 1 ≡ true) × (edge_node_is_live three_nodes 2 ≡ true)
unfolding edge_node_is_live
both_live = (refl, refl)

add_edge_row_adds_neighbor_example :
    (a : MutableGraphFrame) × (add_edge_row three_nodes b_to_c ≡ ok a)
    × ((v : ℕ)
        → Perm
            (out_neighbors a v)
            (if 1 == v then 2 ∷ out_neighbors three_nodes v else out_neighbors three_nodes v))
add_edge_row_adds_neighbor_example =
    add_edge_row_adds_neighbor three_nodes b_to_c (edge "b" "c") 1 2 refl refl b_numbered c_numbered
      both_live.0 both_live.1 (omega arith, tt) (omega arith)
