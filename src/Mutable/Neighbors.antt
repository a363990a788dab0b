-- ===== src/Mutable/Neighbors.antt =====
-- crates/lynxes-core/src/frame/mutable_graph_frame.rs, `out_neighbors`: the neighbors that the base
-- index, the frozen chunks and the pending rows give together.
use mathlib.Core.List.Perm
use mathlib.Core.List.{filter_map, append-nil, append_assoc}
use lynxes_mojo.Common.{
  ℕ, suc, ◌<◌, ◌^◌, ◌≡◌, refl, ap, sym, ◌∙◌, subst, Bool, true, false, ◌&&◌, Option, some, List, [],
  ◌∷◌, ◌++◌, map, length, zip, Perm, arith, ◌==◌, ==_iff, if◌then◌else◌, Bool-cases, inl, inr,
}
use lynxes_mojo.Csr.{CsrIndex, build, neighbors, edge_ids, degree}
use lynxes_mojo.Csr.Packing.{out_edges, AllBelow}
use lynxes_mojo.Csr.Adjacency.{build_adjacency, degree-build}
use lynxes_mojo.Mutable.{
  MutableGraphFrame, PendingEdgeRow, FrozenEdgeChunk, then_some, edge_node_is_live,
  node_is_live_by_id, base_neighbors, chunk_neighbors, frozen_neighbors, pending_neighbors,
  out_neighbors, src_rows, dst_rows,
}

-- The destinations of a source's rows, in their order.
abbrev pub targets : List ℕ → List ℕ → ℕ → List ℕ
targets src dst v = map (λ e. e.0) (out_edges 0 src dst v)

some-inj : (a b : CsrIndex) → some a ≡ some b → a ≡ b
some-inj a b h = cc

abbrev Counted : CsrIndex → List ℕ → List ℕ → ℕ → Type 0
Counted c src dst v =
    (degree c v ≡ length (out_edges 0 src dst v))
    × (length (neighbors c v) ≡ degree c v)
    × (length (edge_ids c v) ≡ degree c v)

pub map-zip : (xs ys : List ℕ) → length xs ≡ length ys → map (λ (e : ℕ × ℕ). e.0) (zip xs ys) ≡ xs
map-zip [] ys h = refl
map-zip (x ∷ xs) [] h = absurd (omega arith)
map-zip (x ∷ xs) (y ∷ ys) h = ap (λ zs. x ∷ zs) (map-zip xs ys (omega arith))

-- The CSR index as the deltas use it: a node's neighbors are its rows' destinations, in some order.
pub neighbors-build :
    (src dst : List ℕ) (n : ℕ)
    → length src ≡ length dst
    → AllBelow n src
    → length src < 2 ^ 32
    → (c : CsrIndex) × (build src dst n ≡ some c)
      × ((v : ℕ) → length (neighbors c v) ≡ length (edge_ids c v))
      × ((v : ℕ) → Perm (neighbors c v) (targets src dst v))
neighbors-build src dst n same below small =
    let (c, built, _, _, adjacent) = build_adjacency src dst n same below small in
    let (c', built', counted) = degree-build src dst n same below small in
    let one : c' ≡ c = some-inj c' c (sym built' ∙ built) in
    (
      c,
      built,
      λ v.
          let (_, heads, rows) = subst (λ x. Counted x src dst v) one (counted v) in
          heads ∙ sym rows,
      λ v.
          let (_, heads, rows) = subst (λ x. Counted x src dst v) one (counted v) in
          rw (← map-zip (neighbors c v) (edge_ids c v) (heads ∙ sym rows))
            (Perm.map (λ e. e.0) (adjacent v).0),
    )

module _ (s : MutableGraphFrame) (idx : ℕ) where
  abbrev live_target : ℕ → Option ℕ
  live_target dst = then_some (edge_node_is_live s idx && edge_node_is_live s dst) dst

  pending-targets :
      (i : ℕ) (pending : List PendingEdgeRow)
      → filter_map live_target
          (map (λ e. e.0) (out_edges i (src_rows pending) (dst_rows pending) idx))
        ≡ pending_neighbors s idx pending
  unfolding filter_map
  pending-targets i [] = refl
  pending-targets i (e ∷ pending) = elim (Bool-cases (e.src_idx == idx)) [
    | inl here ↦
        let same = (==_iff e.src_idx idx).0 here in
        rw (here, same) (rw (pending-targets (suc i) pending) refl)
    | inr there ↦ rw there (pending-targets (suc i) pending)
  ]

  pub frozen_neighbors-append :
      (xs ys : List FrozenEdgeChunk)
      → frozen_neighbors s idx (xs ++ ys) ≡ frozen_neighbors s idx xs ++ frozen_neighbors s idx ys
  frozen_neighbors-append [] ys = refl
  frozen_neighbors-append (x ∷ xs) ys =
      ap (λ zs. chunk_neighbors s idx x ++ zs) (frozen_neighbors-append xs ys)
      ∙ sym (
          append_assoc (chunk_neighbors s idx x) (frozen_neighbors s idx xs)
            (frozen_neighbors s idx ys))

-- The rows that are pending, as a chunk.
abbrev pub flushed : MutableGraphFrame → List PendingEdgeRow → CsrIndex → MutableGraphFrame
flushed s rows csr = record s {
  frozen = s.frozen ++ record { csr = csr; edges = map (λ e. e.edge) rows } ∷ [];
  pending = [];
}

pub if-Perm :
    (b : Bool) {xs ys : List ℕ} → Perm xs ys → Perm (if b then xs else []) (if b then ys else [])
if-Perm true h = h
if-Perm false h = Perm.refl []

pub flushed-out_neighbors :
    (s : MutableGraphFrame) (rows : List PendingEdgeRow) (csr : CsrIndex) (v : ℕ)
    → rows ≡ s.pending
    → Perm (neighbors csr v) (targets (src_rows rows) (dst_rows rows) v)
    → Perm (out_neighbors (flushed s rows csr) v) (out_neighbors s v)
unfolding out_neighbors base_neighbors edge_node_is_live node_is_live_by_id filter_map
flushed-out_neighbors s rows csr v same adjacent =
    let chunk : FrozenEdgeChunk = record { csr = csr; edges = map (λ e. e.edge) rows } in
    let fresh : Perm (chunk_neighbors s v chunk) (pending_neighbors s v s.pending) =
      Perm.trans (Perm.filter_map (live_target s v) adjacent)
        (rw (pending-targets s v 0 rows, same) (Perm.refl (pending_neighbors s v s.pending))) in
    if-Perm (edge_node_is_live s v) (
      Perm.append_left (base_neighbors s v) (
        rw
          (
            append-nil (frozen_neighbors s v (s.frozen ++ chunk ∷ [])),
            frozen_neighbors-append s v s.frozen (chunk ∷ []),
            append-nil (chunk_neighbors s v chunk),
          )
          (Perm.append_left (frozen_neighbors s v s.frozen) fresh)))
