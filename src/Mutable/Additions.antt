-- ===== src/Mutable/Additions.antt =====
-- crates/lynxes-core/src/frame/mutable_graph_frame.rs: `add_edge_row` against `out_neighbors`.
use mathlib.Core.List.Perm
use mathlib.Core.List.{
  filter_map, filter_map-append, map-append, append-nil, append_assoc, perm_append_comm,
}
use lynxes_mojo.Common.{
  All-append, ℕ, ◌+◌, ◌<◌, ◌^◌, ◌≡◌, refl, ap, ◌∙◌, Bool, true, false, ◌&&◌, some, List, [], ◌∷◌,
  ◌++◌, length, arith, if◌then◌else◌, Bool-cases, inl, inr, ltb, ◌==◌, ==_iff, Perm, length-append,
}
use lynxes_mojo.Outcome.{ok}
use lynxes_mojo.Csr.Packing.{AllBelow}
use lynxes_mojo.Mutable.{
  MutableGraphFrame, PendingEdgeRow, EdgeRow, EdgeFrame, get_id, edge_node_is_live,
  node_is_live_by_id, base_neighbors, frozen_neighbors, then_some, pending_neighbors, out_neighbors,
  src_rows, push_edge, add_edge_row, resolve_edge_node_idx, same_schema, flush_threshold,
  flush_pending_locked,
}
use lynxes_mojo.Mutable.Deltas.{flush_keeps_neighbors, live-lt}

-- `row` after the pending rows.
abbrev pushed : MutableGraphFrame → PendingEdgeRow → MutableGraphFrame
pushed s row = record s { pending = s.pending ++ row ∷ [] }

-- The neighbors `ns` of `v` with those of `row`, whose ends are live.
abbrev pub with_edge : PendingEdgeRow → ℕ → List ℕ → List ℕ
with_edge row v ns = if row.src_idx == v then row.dst_idx ∷ ns else ns

last_first : (b f p : List ℕ) (j : ℕ) → Perm (b ++ (f ++ (p ++ j ∷ []))) (j ∷ (b ++ (f ++ p)))
last_first b f p j =
    rw (← append_assoc f p (j ∷ []), ← append_assoc b (f ++ p) (j ∷ []))
      (perm_append_comm (b ++ (f ++ p)) (j ∷ []))

-- Both sides of a new row, on the four cases of a node.
with_last :
    (live same : Bool) (b f p p' : List ℕ) (j : ℕ)
    → p' ≡ p ++ (if same then j ∷ [] else [])
    → (same ≡ true → live ≡ true)
    → Perm (if live then b ++ (f ++ p') else []) (
        if same
        then j ∷ (if live then b ++ (f ++ p) else [])
        else (if live then b ++ (f ++ p) else []))
with_last true true b f p p' j read h = rw read (last_first b f p j)
with_last true false b f p p' j read h = rw (read, append-nil p) (Perm.refl (b ++ (f ++ p)))
with_last false true b f p p' j read h = absurd let alive = h refl in cc
with_last false false b f p p' j read h = Perm.refl []

module _ (s : MutableGraphFrame) (row : PendingEdgeRow)
    (live_src : edge_node_is_live s row.src_idx ≡ true)
    (live_dst : edge_node_is_live s row.dst_idx ≡ true) where
  one_pending : (v : ℕ) → pending_neighbors s v (row ∷ []) ≡ with_edge row v []
  unfolding filter_map
  one_pending v = elim (Bool-cases (row.src_idx == v)) [
    | inl here ↦ rw (here, live_src, live_dst) refl
    | inr there ↦ rw there refl
  ]

  pending_neighbors-pushed :
      (v : ℕ)
      → pending_neighbors s v (s.pending ++ row ∷ [])
        ≡ pending_neighbors s v s.pending ++ with_edge row v []
  pending_neighbors-pushed v =
      filter_map-append
        (λ (e : PendingEdgeRow).
          then_some
            (e.src_idx == v && (edge_node_is_live s e.src_idx && edge_node_is_live s e.dst_idx))
            e.dst_idx)
        s.pending (row ∷ [])
      ∙ ap (λ ns. pending_neighbors s v s.pending ++ ns) (one_pending v)

  out_neighbors-pushed :
      (v : ℕ) → Perm (out_neighbors (pushed s row) v) (with_edge row v (out_neighbors s v))
  unfolding out_neighbors base_neighbors edge_node_is_live node_is_live_by_id
  out_neighbors-pushed v =
      with_last (edge_node_is_live s v) (row.src_idx == v) (base_neighbors s v)
        (frozen_neighbors s v s.frozen) (pending_neighbors s v s.pending)
        (pending_neighbors s v (s.pending ++ row ∷ [])) row.dst_idx (pending_neighbors-pushed v)
        (λ same. rw (← (==_iff row.src_idx v).0 same) live_src)

-- Either way out of `add_edge_row`, with the row pending or flushed.
flushed_or_not :
    (s p : MutableGraphFrame) (row : PendingEdgeRow) (full : Bool)
    → p ≡ pushed s row
    → AllBelow (length p.edge_node_idx_to_id) (src_rows p.pending)
    → length p.pending < 2 ^ 32
    → (a : MutableGraphFrame) × ((if full then flush_pending_locked p else ok p) ≡ ok a)
      × ((v : ℕ) → Perm (out_neighbors a v) (out_neighbors p v))
flushed_or_not s p row true here below small =
    let (f, run, _, kept) = flush_keeps_neighbors p below small in (f, run, kept)
flushed_or_not s p row false here below small = (p, refl, λ v. Perm.refl (out_neighbors p v))

pushed-AllBelow :
    (n : ℕ) (pending : List PendingEdgeRow) (row : PendingEdgeRow)
    → AllBelow n (src_rows pending)
    → row.src_idx < n
    → AllBelow n (src_rows (pending ++ row ∷ []))
pushed-AllBelow n pending row below inside =
    rw (map-append (λ (e : PendingEdgeRow). e.src_idx) pending (row ∷ []))
      (All-append (λ i. i < n) (src_rows pending) (row.src_idx ∷ []) below (inside, tt))

add_edge_row_one :
    (s : MutableGraphFrame) (frame : EdgeFrame) (row : PendingEdgeRow)
    → frame.rows ≡ row.edge ∷ []
    → same_schema frame.schema s.edge_data.schema ≡ true
    → get_id row.edge.src s.edge_node_id_to_idx ≡ some row.src_idx
    → get_id row.edge.dst s.edge_node_id_to_idx ≡ some row.dst_idx
    → add_edge_row s frame ≡ (
        if ltb flush_threshold (length (s.pending ++ row ∷ []))
        then flush_pending_locked (pushed s row)
        else ok (pushed s row))
unfolding add_edge_row flush_pending_locked
add_edge_row_one s frame row one fits src dst =
    rw (add_edge_row, one, fits, push_edge, resolve_edge_node_idx, src, dst) refl

-- The frame is one row of the graph's edge schema, both ends have a number and are live, the pending
-- rows have numbered sources and there is room for one more below 2^32: then `add_edge_row` returns,
-- whether it flushes or not, the source gets the destination as one more neighbor, in some order, and
-- every other node has the neighbors that it had.
pub add_edge_row_adds_neighbor :
    (s : MutableGraphFrame) (frame : EdgeFrame) (edge : EdgeRow) (src_idx dst_idx : ℕ)
    → frame.rows ≡ edge ∷ []
    → same_schema frame.schema s.edge_data.schema ≡ true
    → get_id edge.src s.edge_node_id_to_idx ≡ some src_idx
    → get_id edge.dst s.edge_node_id_to_idx ≡ some dst_idx
    → edge_node_is_live s src_idx ≡ true
    → edge_node_is_live s dst_idx ≡ true
    → AllBelow (length s.edge_node_idx_to_id) (src_rows s.pending)
    → length s.pending + 1 < 2 ^ 32
    → (a : MutableGraphFrame) × (add_edge_row s frame ≡ ok a)
      × ((v : ℕ)
          → Perm
              (out_neighbors a v)
              (if src_idx == v then dst_idx ∷ out_neighbors s v else out_neighbors s v))
add_edge_row_adds_neighbor s frame edge src_idx dst_idx one fits src dst live_src live_dst below
      room =
    let row : PendingEdgeRow = record { src_idx = src_idx; dst_idx = dst_idx; edge = edge } in
    let len = length-append s.pending (row ∷ []) in
    let (a, run, kept) =
      flushed_or_not s (pushed s row) row (ltb flush_threshold (length (s.pending ++ row ∷ [])))
        refl
        (pushed-AllBelow (length s.edge_node_idx_to_id) s.pending row below
          (live-lt s src_idx live_src))
        (omega (arith, len, room)) in
    (
      a,
      add_edge_row_one s frame row one fits src dst ∙ run,
      λ v. Perm.trans (kept v) (out_neighbors-pushed s row live_src live_dst v),
    )
