-- ===== src/Mutable/Deltas.antt =====
-- crates/lynxes-core/src/frame/mutable_graph_frame.rs: `flush_pending_locked` and `compact` against
-- `out_neighbors`.
use mathlib.Core.List.Perm
use mathlib.Core.List.{filter_map, filter_map-map, append-nil}
use lynxes_mojo.Common.{
  ℕ, zero, suc, ◌<◌, ◌^◌, ◌≡◌, ◌⊎◌, refl, ap, sym, ◌∙◌, Bool, true, false, none, List, [], ◌∷◌,
  ◌++◌, map, length, get_elem?, zip, Perm, arith, if◌then◌else◌, inl, inr, length-map,
}
use lynxes_mojo.Outcome.{ok}
use lynxes_mojo.Csr.{CsrIndex, wrap, neighbors, edge_ids}
use lynxes_mojo.Csr.Packing.{AllBelow}
use lynxes_mojo.Mutable.{
  MutableGraphFrame, PendingEdgeRow, edge_node_is_live, node_is_live_by_id, base_neighbors,
  frozen_neighbors, pending_neighbors, out_neighbors, src_rows, dst_rows, flush_rows,
  flush_pending_locked, merged_rows, row_src, row_dst, compact,
}
use lynxes_mojo.Mutable.Neighbors.{
  targets, neighbors-build, flushed, flushed-out_neighbors, map-zip,
}
use lynxes_mojo.Mutable.Merged.{
  chosen-out_edges, merged, merged_rows-below, chosen-merged_rows, live_dst, merged-live,
  merged_base-base_neighbors,
}

flush_rows_lem :
    (s : MutableGraphFrame) (rows : List PendingEdgeRow)
    → rows ≡ s.pending
    → AllBelow (length s.edge_node_idx_to_id) (src_rows rows)
    → length rows < 2 ^ 32
    → (f : MutableGraphFrame) × (flush_rows s rows ≡ ok f)
      × (f.pending ≡ [])
      × ((v : ℕ) → Perm (out_neighbors f v) (out_neighbors s v))
unfolding flush_rows
flush_rows_lem s [] none_pending below small =
    (s, refl, sym none_pending, λ v. Perm.refl (out_neighbors s v))
flush_rows_lem s (row ∷ rows) same below small =
    let len = length-map (λ (e : PendingEdgeRow). e.src_idx) (row ∷ rows) in
    let len' = length-map (λ (e : PendingEdgeRow). e.dst_idx) (row ∷ rows) in
    let (csr, built, _, adjacent) =
      neighbors-build (src_rows (row ∷ rows)) (dst_rows (row ∷ rows)) (length s.edge_node_idx_to_id)
        (len ∙ sym len') below (omega (arith, len, small)) in
    (
      flushed s (row ∷ rows) csr,
      rw built refl,
      refl,
      λ v. flushed-out_neighbors s (row ∷ rows) csr v same (adjacent v),
    )

-- Every pending row has a numbered source, and there are fewer than 2^32 of them: then flushing
-- returns, leaves no row pending, and every node has the neighbors that it had, in some order.
pub flush_keeps_neighbors :
    (s : MutableGraphFrame)
    → AllBelow (length s.edge_node_idx_to_id) (src_rows s.pending)
    → length s.pending < 2 ^ 32
    → (f : MutableGraphFrame) × (flush_pending_locked s ≡ ok f)
      × (f.pending ≡ [])
      × ((v : ℕ) → Perm (out_neighbors f v) (out_neighbors s v))
unfolding flush_pending_locked
flush_keeps_neighbors s below small = flush_rows_lem s s.pending refl below small

-- The merged rows as the base index.
abbrev compacted : MutableGraphFrame → CsrIndex → MutableGraphFrame
compacted s csr = record s {
  out_csr = csr;
  base_csr = csr;
  base_snapshot_has_stable_edge_rows = false;
  frozen = [];
}

get_elem-length : {A : Type 0} (xs : List A) (i : ℕ) → (get_elem? xs i ≡ none) ⊎ (i < length xs)
get_elem-length [] i = inl refl
get_elem-length (x ∷ xs) zero = inr (omega arith)
get_elem-length (x ∷ xs) (suc i) = elim (get_elem-length xs i) [
  | inl past ↦ inl past
  | inr inside ↦ inr (omega (arith, inside))
]

pub live-lt :
    (s : MutableGraphFrame) (v : ℕ)
    → edge_node_is_live s v ≡ true
    → v < length s.edge_node_idx_to_id
unfolding edge_node_is_live
live-lt s v live = elim (get_elem-length s.edge_node_idx_to_id v) [
  | inl past ↦ absurd let dead = rw (edge_node_is_live, past) at live in cc
  | inr inside ↦ inside
]

base_neighbors-compacted :
    (s : MutableGraphFrame) (csr : CsrIndex) (v : ℕ)
    → length (neighbors csr v) ≡ length (edge_ids csr v)
    → base_neighbors (compacted s csr) v ≡ filter_map (live_dst s) (neighbors csr v)
unfolding base_neighbors edge_node_is_live node_is_live_by_id
base_neighbors-compacted s csr v same =
    sym (filter_map-map (λ (e : ℕ × ℕ). e.0) (live_dst s) (zip (neighbors csr v) (edge_ids csr v)))
    ∙ ap (filter_map (live_dst s)) (map-zip (neighbors csr v) (edge_ids csr v) same)

ok-inj : (a b : MutableGraphFrame) → ok a ≡ ok b → a ≡ b
ok-inj a b h = cc

if_live :
    (b : Bool) {xs ys : List ℕ}
    → (b ≡ true → Perm xs ys)
    → Perm (if b then xs else []) (if b then ys else [])
if_live true h = h refl
if_live false h = Perm.refl []

without_pending :
    {b : List ℕ} (base frozen pending : List ℕ)
    → pending ≡ []
    → Perm b (base ++ frozen)
    → Perm (b ++ pending) (base ++ (frozen ++ pending))
without_pending {b = b} base frozen pending empty h = rw (empty, append-nil b, append-nil frozen) h

module _ (s : MutableGraphFrame) (csr : CsrIndex) (nothing_pending : s.pending ≡ [])
    (stable : s.base_snapshot_has_stable_edge_rows ≡ true) where
  abbrev rows : List (ℕ × ℕ)
  rows = merged_rows s (length s.edge_node_idx_to_id) 0

  no_pending : (v : ℕ) → pending_neighbors s v s.pending ≡ []
  unfolding filter_map
  no_pending v = ap (λ p. pending_neighbors s v p) nothing_pending

  live_neighbors :
      (v : ℕ)
      → length (neighbors csr v) ≡ length (edge_ids csr v)
      → Perm (neighbors csr v) (targets (map row_src rows) (map row_dst rows) v)
      → edge_node_is_live s v ≡ true
      → Perm
          (base_neighbors (compacted s csr) v)
          (base_neighbors s v ++ frozen_neighbors s v s.frozen)
  live_neighbors v same adjacent live =
      let kept : targets (map row_src rows) (map row_dst rows) v ≡ merged s v =
        chosen-out_edges v 0 rows
        ∙ chosen-merged_rows s v (length s.edge_node_idx_to_id) 0 (omega arith)
            (omega (arith, live-lt s v live)) in
      let read : filter_map (live_dst s) (targets (map row_src rows) (map row_dst rows) v)
          ≡ base_neighbors s v ++ frozen_neighbors s v s.frozen =
        ap (filter_map (live_dst s)) kept
        ∙ merged-live s v
        ∙ ap (λ ns. ns ++ frozen_neighbors s v s.frozen)
            (merged_base-base_neighbors s v live stable) in
      rw (base_neighbors-compacted s csr v same, ← read) (Perm.filter_map (live_dst s) adjacent)

  compacted-out_neighbors :
      (v : ℕ)
      → length (neighbors csr v) ≡ length (edge_ids csr v)
      → Perm (neighbors csr v) (targets (map row_src rows) (map row_dst rows) v)
      → Perm (out_neighbors (compacted s csr) v) (out_neighbors s v)
  unfolding out_neighbors edge_node_is_live node_is_live_by_id
  compacted-out_neighbors v same adjacent = if_live (edge_node_is_live s v) (λ live.
      without_pending (base_neighbors s v) (frozen_neighbors s v s.frozen)
        (pending_neighbors s v s.pending) (no_pending v) (live_neighbors v same adjacent live))

wrap-narrow : (n : ℕ) → n < 2 ^ 32 → wrap n ≡ n
wrap-narrow n narrow = omega (arith, narrow)

-- Every pending row has a numbered source, the base index has the rows of the edge data still, and
-- neither the pending rows, the numbered nodes nor the merged rows reach 2^32: then `compact` returns, and every node has the
-- neighbors that it had, in some order.
pub compact_keeps_neighbors :
    (s f : MutableGraphFrame)
    → AllBelow (length s.edge_node_idx_to_id) (src_rows s.pending)
    → length s.pending < 2 ^ 32
    → f.base_snapshot_has_stable_edge_rows ≡ true
    → flush_pending_locked s ≡ ok f
    → length f.edge_node_idx_to_id < 2 ^ 32
    → length (merged_rows f (length f.edge_node_idx_to_id) 0) < 2 ^ 32
    → (c : MutableGraphFrame) × (compact s ≡ ok c)
      × ((v : ℕ) → Perm (out_neighbors c v) (out_neighbors s v))
unfolding compact
compact_keeps_neighbors s f below small stable run narrow few =
    let (f', run', nothing_pending, flushed_perm) = flush_keeps_neighbors s below small in
    let one : f' ≡ f = ok-inj f' f (sym run' ∙ run) in
    let n = length f.edge_node_idx_to_id in
    let rs = merged_rows f n 0 in
    let len = length-map row_src rs in
    let len' = length-map row_dst rs in
    let (csr, built, same, adjacent) =
      neighbors-build (map row_src rs) (map row_dst rs) n (len ∙ sym len')
        (merged_rows-below f n n 0 (omega arith)) (omega (arith, len, few)) in
    (
      compacted f csr,
      rw (run, wrap-narrow n narrow, built) refl,
      λ v.
          Perm.trans
            (compacted-out_neighbors f csr (rw one at nothing_pending) stable v (same v)
              (adjacent v))
            (rw one at (flushed_perm v)),
    )
