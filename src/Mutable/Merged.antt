-- ===== src/Mutable/Merged.antt =====
-- crates/lynxes-core/src/frame/mutable_graph_frame.rs, `compact`: the merged rows, source by source.

use mathlib.Core.List.{filter_map, append-nil, filter_map-append, filter_map-filter_map}
use mathlib.Core.Option.{bind}
use lynxes_mojo.Common.{
  ℕ, zero, suc, ◌+◌, ◌<◌, ◌≤◌, ◌≡◌, refl, ap, ap₂, ◌∙◌, fun_ext, Bool, true, false, ◌&&◌, Option,
  List, [], ◌∷◌, ◌++◌, map, zip, arith, ◌==◌, ==_refl, ==_iff, if◌then◌else◌, Bool-cases, inl, inr,
}
use lynxes_mojo.Csr.{neighbors, edge_ids}
use lynxes_mojo.Csr.Packing.{out_edges, AllBelow}
use lynxes_mojo.Mutable.{
  MutableGraphFrame, FrozenEdgeChunk, then_some, edge_node_is_live, base_edge_is_live,
  base_neighbors, chunk_neighbors, frozen_neighbors, merged_base, merged_row, merged_rows, row_src,
  row_dst,
}

-- The destinations of the rows of a source.
abbrev pub chosen : ℕ → List (ℕ × ℕ) → List ℕ
chosen v [] = []
chosen v (row ∷ rows) = if row.0 == v then row.1 ∷ chosen v rows else chosen v rows

pub chosen-out_edges :
    (v i : ℕ) (rows : List (ℕ × ℕ))
    → map (λ e. e.0) (out_edges i (map row_src rows) (map row_dst rows) v) ≡ chosen v rows
chosen-out_edges v i [] = refl
chosen-out_edges v i (row ∷ rows) = elim (Bool-cases (row.0 == v)) [
  | inl here ↦ rw here (ap (λ ds. row.1 ∷ ds) (chosen-out_edges v (suc i) rows))
  | inr there ↦ rw there (chosen-out_edges v (suc i) rows)
]

chosen-append : (v : ℕ) (xs ys : List (ℕ × ℕ)) → chosen v (xs ++ ys) ≡ chosen v xs ++ chosen v ys
chosen-append v [] ys = refl
chosen-append v (row ∷ xs) ys = elim (Bool-cases (row.0 == v)) [
  | inl here ↦ rw here (ap (λ ds. row.1 ∷ ds) (chosen-append v xs ys))
  | inr there ↦ rw there (chosen-append v xs ys)
]

chosen_own : (v : ℕ) (ds : List ℕ) → chosen v (map (λ d. (v, d)) ds) ≡ ds
chosen_own v [] = refl
chosen_own v (d ∷ ds) = rw (==_refl v) (ap (λ es. d ∷ es) (chosen_own v ds))

chosen_other : (v u : ℕ) (ds : List ℕ) → (u == v) ≡ false → chosen v (map (λ d. (u, d)) ds) ≡ []
chosen_other v u [] other = refl
chosen_other v u (d ∷ ds) other = rw other (chosen_other v u ds other)

All-append :
    (n : ℕ) (xs ys : List (ℕ × ℕ))
    → AllBelow n (map row_src xs)
    → AllBelow n (map row_src ys)
    → AllBelow n (map row_src (xs ++ ys))
All-append n [] ys h k = k
All-append n (x ∷ xs) ys h k = (h.0, All-append n xs ys h.1 k)

All_own : (n v : ℕ) (ds : List ℕ) → v < n → AllBelow n (map row_src (map (λ (d : ℕ). (v, d)) ds))
All_own n v [] h = tt
All_own n v (d ∷ ds) h = (h, All_own n v ds h)

module _ (s : MutableGraphFrame) where
  -- What `compact` keeps of a source.
  abbrev pub merged : ℕ → List ℕ
  merged v = merged_base s v ++ frozen_neighbors s v s.frozen

  pub merged_rows-below :
      (n count idx : ℕ) → idx + count ≤ n → AllBelow n (map row_src (merged_rows s count idx))
  unfolding merged_rows merged_row
  merged_rows-below n zero idx h = tt
  merged_rows-below n (suc count) idx h =
      All-append n (map (λ d. (idx, d)) (merged idx)) (merged_rows s count (suc idx))
        (All_own n idx (merged idx) (omega (arith, h)))
        (merged_rows-below n count (suc idx) (omega (arith, h)))

  chosen_before : (v count idx : ℕ) → v < idx → chosen v (merged_rows s count idx) ≡ []
  unfolding merged_rows merged_row
  chosen_before v zero idx h = refl
  chosen_before v (suc count) idx h =
      let other : (idx == v) ≡ false = ground arith in
      chosen-append v (map (λ d. (idx, d)) (merged idx)) (merged_rows s count (suc idx))
      ∙ ap₂ ◌++◌ (chosen_other v idx (merged idx) other)
          (chosen_before v count (suc idx) (omega (arith, h)))

  pub chosen-merged_rows :
      (v count idx : ℕ) → idx ≤ v → v < idx + count → chosen v (merged_rows s count idx) ≡ merged v
  unfolding merged_rows merged_row
  chosen-merged_rows v zero idx h k = absurd (omega (arith, h, k))
  chosen-merged_rows v (suc count) idx h k = elim (Bool-cases (idx == v)) [
    | inl here ↦
        let same = (==_iff idx v).0 here in
        chosen-append v (map (λ d. (idx, d)) (merged idx)) (merged_rows s count (suc idx))
        ∙ ap₂ ◌++◌
            (ap (λ u. chosen v (map (λ d. (u, d)) (merged u))) same ∙ chosen_own v (merged v))
            (chosen_before v count (suc idx) (omega (arith, same)))
        ∙ append-nil (merged v)
    | inr there ↦
        chosen-append v (map (λ d. (idx, d)) (merged idx)) (merged_rows s count (suc idx))
        ∙ ap₂ ◌++◌ (chosen_other v idx (merged idx) there)
            (chosen-merged_rows v count (suc idx) (ground arith) (omega (arith, k)))
  ]

  abbrev pub live_dst : ℕ → Option ℕ
  live_dst dst = then_some (edge_node_is_live s dst) dst

  relive :
      (b : Bool) (d : ℕ)
      → (b ≡ true → edge_node_is_live s d ≡ true)
      → bind (then_some b d) live_dst ≡ then_some b d
  unfolding bind
  relive true d h = rw (h refl) refl
  relive false d h = refl

  refilter :
      {A : Type 0} (f : A → Option ℕ)
      → ((a : A) → bind (f a) live_dst ≡ f a)
      → (as_ : List A) → filter_map live_dst (filter_map f as_) ≡ filter_map f as_
  refilter f same as_ =
      filter_map-filter_map f live_dst as_ ∙ ap (λ g. filter_map g as_) (fun_ext same)

  last_true : (a b c : Bool) → (a && (b && c)) ≡ true → c ≡ true
  last_true true true true h = refl
  last_true true true false h = cc
  last_true true false c h = cc
  last_true false b c h = cc

  merged_base-live : (v : ℕ) → filter_map live_dst (merged_base s v) ≡ merged_base s v
  unfolding merged_base
  merged_base-live v =
      refilter
        (λ (e : ℕ × ℕ).
          then_some (base_edge_is_live s e.1 && (edge_node_is_live s v && edge_node_is_live s e.0))
            e.0)
        (λ e.
          relive (base_edge_is_live s e.1 && (edge_node_is_live s v && edge_node_is_live s e.0)) e.0
            (last_true (base_edge_is_live s e.1) (edge_node_is_live s v) (edge_node_is_live s e.0)))
        (zip (neighbors s.base_csr v) (edge_ids s.base_csr v))

  frozen-live :
      (v : ℕ) (chunks : List FrozenEdgeChunk)
      → filter_map live_dst (frozen_neighbors s v chunks) ≡ frozen_neighbors s v chunks
  unfolding filter_map
  frozen-live v [] = refl
  frozen-live v (chunk ∷ chunks) =
      filter_map-append live_dst (chunk_neighbors s v chunk) (frozen_neighbors s v chunks)
      ∙ ap₂ ◌++◌
          (refilter (λ (dst : ℕ). then_some (edge_node_is_live s v && edge_node_is_live s dst) dst)
            (λ dst.
              relive (edge_node_is_live s v && edge_node_is_live s dst) dst
                (last_true true (edge_node_is_live s v) (edge_node_is_live s dst)))
            (neighbors chunk.csr v))
          (frozen-live v chunks)

  -- The merged destinations of a source are live.
  pub merged-live : (v : ℕ) → filter_map live_dst (merged v) ≡ merged v
  merged-live v =
      filter_map-append live_dst (merged_base s v) (frozen_neighbors s v s.frozen)
      ∙ ap₂ ◌++◌ (merged_base-live v) (frozen-live v s.frozen)

  -- Of a live source, they are what a read finds in the base and in the chunks, as long as the base
  -- index has the rows of the edge data.
  pub merged_base-base_neighbors :
      (v : ℕ)
      → edge_node_is_live s v ≡ true
      → s.base_snapshot_has_stable_edge_rows ≡ true
      → merged_base s v ≡ base_neighbors s v
  unfolding merged_base base_neighbors
  merged_base-base_neighbors v live stable = rw (live, stable) refl
