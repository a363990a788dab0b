-- ===== src/Traversal/Parallel.antt =====
-- crates/lynxes-lazy/src/query/executor/traversal.rs, `execute_partition_parallel`: its chunks together.
use lynxes_mojo.Common.{
  WithinHops-append, WithinHops-none, ℕ, ◌≡◌, ◌↔◌, ◌⊎◌, refl, String, Bool, Option, none, true,
  List, [], ◌∷◌, ◌++◌, inl, inr, ⊎_elim, set_extend, member, member-set_extend, set_extend-adds,
  set_extend-keeps,
}
use lynxes_mojo.Direction.{Direction}
use lynxes_mojo.Outcome.{Outcome, ok}
use lynxes_mojo.Plan.Expressions.{EdgeTypeSpec, Expr}
use lynxes_mojo.Executor.Values.{Floats}
use lynxes_mojo.Traversal.{IndexedEdges, build_edge_node_ids, extend_rows}
use lynxes_mojo.Traversal.Expand.{NodeRows, expand_graph_raw, expand_chunks}
use lynxes_mojo.Traversal.Candidates.{IsReadable}
use lynxes_mojo.Traversal.Hops.{Arc, Within, expand_graph_raw-Covers}

-- The ids of all chunks.
abbrev pub all_ids : List (List String) → List String
all_ids [] = []
all_ids (chunk ∷ chunks) = chunk ++ all_ids chunks

-- Without a limit, what `expand_graph_raw` visits is what is within its hops.
pub expand_graph_raw-Within :
    (fl : Floats) (es : IndexedEdges) (dir_col : List ℕ) (nodes : NodeRows) (names : List String)
    (spec : EdgeTypeSpec) (direction : Direction) (pre_filter : Option Expr)
    (passes : String → Bool) (hops : ℕ) (frontier_ids : List String)
    → build_edge_node_ids es ≡ ok names
    → IsReadable fl es dir_col nodes names spec direction pre_filter none passes
    → (visited : List String) × (retained_rows : List ℕ) × (expand_graph_raw fl es dir_col nodes
          spec direction pre_filter none hops frontier_ids
        ≡ ok (visited, retained_rows))
      × ((v : String)
          → (member v visited ≡ true)
            ↔ Within fl es dir_col nodes names spec direction pre_filter none passes frontier_ids
                hops v)
expand_graph_raw-Within fl es dir_col nodes names spec direction pre_filter passes hops frontier_ids
      built readable =
    let (visited, retained_rows, run, sound, _, complete) =
      expand_graph_raw-Covers fl es dir_col nodes names spec direction pre_filter none passes hops
        frontier_ids built readable in
    (
      visited,
      retained_rows,
      run,
      λ v. (sound v, ⊎_elim (λ all. all v) (λ limited. absurd cc) complete),
    )

module _ (fl : Floats) (es : IndexedEdges) (dir_col : List ℕ) (nodes : NodeRows)
    (names : List String) (spec : EdgeTypeSpec) (direction : Direction) (pre_filter : Option Expr)
    (passes : String → Bool) (hops : ℕ) (built : build_edge_node_ids es ≡ ok names)
    (readable : IsReadable fl es dir_col nodes names spec direction pre_filter none passes) where
  abbrev Near : List String → String → Type 0
  Near seeds = Within fl es dir_col nodes names spec direction pre_filter none passes seeds hops

  abbrev merged : List (List String) → List String → List ℕ → Outcome (List String × List ℕ)
  merged = expand_chunks fl es dir_col nodes spec direction pre_filter hops

  expand_chunks-Near :
      (chunks : List (List String)) (visited : List String) (retained_rows : List ℕ)
      → (all_visited : List String) × (all_rows : List ℕ) × (merged chunks visited retained_rows
          ≡ ok (all_visited, all_rows))
        × ((v : String)
            → (member v all_visited ≡ true) ↔ ((member v visited ≡ true) ⊎ Near (all_ids chunks) v))
  unfolding expand_chunks
  expand_chunks-Near [] visited retained_rows = (
    visited,
    retained_rows,
    refl,
    λ v. (
      inl,
      ⊎_elim (λ old. old)
          (λ near. absurd (
            WithinHops-none (Arc fl es dir_col nodes names spec direction pre_filter none passes)
              hops v near)),
    ),
  )
  expand_chunks-Near (chunk ∷ chunks) visited retained_rows =
      let (seen, rows, run, within) =
        expand_graph_raw-Within fl es dir_col nodes names spec direction pre_filter passes hops
          chunk built readable in
      let (all_visited, all_rows, rest, later) =
        expand_chunks-Near chunks (set_extend visited seen) (extend_rows retained_rows rows) in
      (
        all_visited,
        all_rows,
        rw run rest,
        λ v.
            let both_parts =
              WithinHops-append
                (Arc fl es dir_col nodes names spec direction pre_filter none passes) chunk
                (all_ids chunks) hops v in
            (
              λ h.
                  ⊎_elim
                    (λ old.
                      ⊎_elim inl (λ here. inr (both_parts.1 (inl ((within v).0 here))))
                        (member-set_extend v visited seen old))
                    (λ there. inr (both_parts.1 (inr there))) ((later v).0 h),
              λ h. (later v).1 (
                  ⊎_elim (λ old. inl (set_extend-keeps v visited seen old))
                    (λ near.
                      ⊎_elim (λ here. inl (set_extend-adds v visited seen ((within v).1 here))) inr
                        (both_parts.0 near))
                    h),
            ),
      )

-- Where every entry has a type and a code and the filter decides every id, the union of the chunks'
-- expansions visits the same ids as one expansion of all their ids, and both return.
pub expand_chunks_serial :
    (fl : Floats) (es : IndexedEdges) (dir_col : List ℕ) (nodes : NodeRows) (names : List String)
    (spec : EdgeTypeSpec) (direction : Direction) (pre_filter : Option Expr)
    (passes : String → Bool) (hops : ℕ) (chunks : List (List String))
    → build_edge_node_ids es ≡ ok names
    → IsReadable fl es dir_col nodes names spec direction pre_filter none passes
    → (visited : List String) × (retained_rows : List ℕ) × (serial_visited : List String)
      × (serial_rows : List ℕ) × (expand_chunks fl es dir_col nodes spec direction pre_filter hops
            chunks [] []
          ≡ ok (visited, retained_rows))
      × (expand_graph_raw fl es dir_col nodes spec direction pre_filter none hops (all_ids chunks)
          ≡ ok (serial_visited, serial_rows))
      × ((v : String) → (member v visited ≡ true) ↔ (member v serial_visited ≡ true))
unfolding member
expand_chunks_serial fl es dir_col nodes names spec direction pre_filter passes hops chunks built
      readable =
    let (visited, rows, run, together) =
      expand_chunks-Near fl es dir_col nodes names spec direction pre_filter passes hops built
        readable chunks [] [] in
    let (seen, kept, serial_run, within) =
      expand_graph_raw-Within fl es dir_col nodes names spec direction pre_filter passes hops
        (all_ids chunks) built readable in
    (
      visited,
      rows,
      seen,
      kept,
      run,
      serial_run,
      λ v. (
        λ h. (within v).1 (⊎_elim (λ none_before. absurd cc) (λ near. near) ((together v).0 h)),
        λ h. (together v).1 (inr ((within v).0 h)),
      ),
    )
