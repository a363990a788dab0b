-- ===== src/Csr/Examples.antt =====
-- crates/lynxes-core/src/frame/csr.rs: the index of the source's example, and the theorems at it.
use lynxes_mojo.Common.{ℕ, ◌≤◌, ◌≡◌, ◌↔◌, List, [], ◌∷◌, some, none, arith, length, refl, Perm, Has}
use lynxes_mojo.Csr.{
  CsrIndex, build, build_reverse, node_count, edge_count, range, neighbors, edge_ids, degree,
}
use lynxes_mojo.Csr.Packing.{out_edges, IsOrdered}
use lynxes_mojo.Csr.Adjacency.{entries, build_adjacency, degree-build}
use lynxes_mojo.Csr.Reverse.{build_reverse_dual}
use lynxes_mojo.Csr.Bounds.{range_bounds, build_panics}

-- 0 → 1, 2; 1 → 2; 2 → 0, 2; the rows are not in the order of the index.
abbrev src : List ℕ
src = 0 ∷ 2 ∷ 1 ∷ 0 ∷ 2 ∷ []

abbrev dst : List ℕ
dst = 2 ∷ 0 ∷ 2 ∷ 1 ∷ 2 ∷ []

abbrev doc_index : CsrIndex
doc_index = record {
  offsets = 0 ∷ 2 ∷ 3 ∷ 5 ∷ [];
  neighbors = 1 ∷ 2 ∷ 2 ∷ 0 ∷ 2 ∷ [];
  edge_ids = 3 ∷ 0 ∷ 2 ∷ 1 ∷ 4 ∷ [];
}

doc_example : build src dst 3 ≡ some doc_index
unfolding build
doc_example = refl

doc_lookups :
    (neighbors doc_index 0 ≡ 1 ∷ 2 ∷ [])
    × (edge_ids doc_index 2 ≡ 1 ∷ 4 ∷ [])
    × (degree doc_index 1 ≡ 1)
    × (neighbors doc_index 7 ≡ [])
unfolding neighbors edge_ids degree
doc_lookups = (refl, refl, refl, refl)

build_adjacency_example :
    (c : CsrIndex) × (build src dst 3 ≡ some c)
    × (node_count c ≡ 3)
    × (edge_count c ≡ 5)
    × ((v : ℕ) → Perm (entries c v) (out_edges 0 src dst v) × IsOrdered (entries c v))
build_adjacency_example = build_adjacency src dst 3 refl (omega arith) (omega arith)

degree-build_example :
    (c : CsrIndex) × (build src dst 3 ≡ some c)
    × ((v : ℕ)
        → (degree c v ≡ length (out_edges 0 src dst v))
          × (length (neighbors c v) ≡ degree c v)
          × (length (edge_ids c v) ≡ degree c v))
degree-build_example = degree-build src dst 3 refl (omega arith) (omega arith)

build_reverse_dual_example :
    (c r : CsrIndex) × (build src dst 3 ≡ some c)
    × (build_reverse src dst 3 ≡ some r)
    × ((u v i : ℕ) → Has (u, i) (entries r v) ↔ Has (v, i) (entries c u))
build_reverse_dual_example =
    build_reverse_dual src dst 3 refl (omega arith) (omega arith) (omega arith)

range_bounds_example :
    (c : CsrIndex) × (start end : ℕ) × (build src dst 3 ≡ some c)
    × (range c 2 ≡ some (start, end))
    × (start ≤ end)
    × (end ≤ length c.neighbors)
    × (end ≤ length c.edge_ids)
range_bounds_example = range_bounds src dst 3 2 refl (omega arith) (omega arith) (omega arith)

build_panics_example : build src dst 2 ≡ none
build_panics_example = build_panics src dst 2 1 2 0 (omega arith) refl refl (omega arith)
