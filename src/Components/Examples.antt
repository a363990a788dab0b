-- ===== src/Components/Examples.antt =====
-- crates/lynxes-core/src/algo/connected_components.rs: a pair of nodes and a lone node, and the theorems
-- at them.
use lynxes_mojo.Common.{
  ℕ, zero, suc, ◌<◌, ◌≤◌, ◌≡◌, ◌↔◌, refl, sym, ◌∙◌, String, Option, none, some, List, [], ◌∷◌,
  length, get_or, arith, Has, inl, inr,
}
use lynxes_mojo.Outcome.{ok}
use lynxes_mojo.Csr.{neighbors, node_count, CsrIndex}
use lynxes_mojo.Csr.Bounds.{lookup_outside}
use lynxes_mojo.Csr.Packing.{AllBelow}
use lynxes_mojo.Traversal.{IndexedEdges}
use lynxes_mojo.Components.{edge_indexes, fill_rows, compute_components, largest_component_rows}
use lynxes_mojo.Components.Lookups.{IsInjective}
use lynxes_mojo.Components.Adjacency.{IsDual}
use lynxes_mojo.Components.Queue.{Linked}
use lynxes_mojo.Components.Connectivity.{same_component_iff_Linked, component_ids_dense}
use lynxes_mojo.Components.Largest.{size_of}
use lynxes_mojo.Components.Selection.{largest_component_first}

-- ada → bob, and cyd has no edge.
abbrev one_edge : IndexedEdges
one_edge = record {
  node_index = ("ada", 0) ∷ ("bob", 1) ∷ [];
  src = "ada" ∷ [];
  dst = "bob" ∷ [];
  types = "knows" ∷ [];
  out_csr = record { offsets = 0 ∷ 1 ∷ 1 ∷ []; neighbors = 1 ∷ []; edge_ids = 0 ∷ [] };
  in_csr = record { offsets = 0 ∷ 0 ∷ 1 ∷ []; neighbors = 0 ∷ []; edge_ids = 0 ∷ [] };
}

abbrev three_names : List String
three_names = "cyd" ∷ "bob" ∷ "ada" ∷ []

abbrev pair_slots : List (Option ℕ)
pair_slots = some 2 ∷ some 1 ∷ []

three_names_computed : compute_components one_edge three_names ≡ ok (0 ∷ 1 ∷ 1 ∷ [], 2)
unfolding compute_components neighbors
three_names_computed = refl

three_names_largest : largest_component_rows one_edge three_names ≡ ok (1 ∷ 2 ∷ [])
unfolding largest_component_rows neighbors
three_names_largest = refl

nobody : (c : CsrIndex) (v : ℕ) → node_count c ≤ v → neighbors c v ≡ []
nobody c v past = (lookup_outside c v past).1

out_targets : (e : ℕ) → (d : ℕ) → Has d (neighbors one_edge.out_csr e) → (e ≡ 0) × (d ≡ 1)
unfolding neighbors
out_targets zero d h = elim h [ inl same ↦ (refl, same) | inr later ↦ absurd later ]
out_targets (suc zero) d h = absurd h
out_targets (suc (suc e)) d h =
    absurd (rw (nobody one_edge.out_csr (suc (suc e)) (omega arith)) at h)

in_sources : (d : ℕ) → (e : ℕ) → Has e (neighbors one_edge.in_csr d) → (e ≡ 0) × (d ≡ 1)
unfolding neighbors
in_sources zero e h = absurd h
in_sources (suc zero) e h = elim h [ inl same ↦ (same, refl) | inr later ↦ absurd later ]
in_sources (suc (suc d)) e h = absurd (rw (nobody one_edge.in_csr (suc (suc d)) (omega arith)) at h)

out_edge : Has 1 (neighbors one_edge.out_csr 0)
unfolding neighbors
out_edge = inl refl

in_edge : Has 0 (neighbors one_edge.in_csr 1)
unfolding neighbors
in_edge = inl refl

out_inside : (e : ℕ) → AllBelow 2 (neighbors one_edge.out_csr e)
unfolding neighbors
out_inside zero = (omega arith, tt)
out_inside (suc zero) = tt
out_inside (suc (suc e)) = rw (nobody one_edge.out_csr (suc (suc e)) (omega arith)) tt

in_inside : (e : ℕ) → AllBelow 2 (neighbors one_edge.in_csr e)
unfolding neighbors
in_inside zero = tt
in_inside (suc zero) = (omega arith, tt)
in_inside (suc (suc e)) = rw (nobody one_edge.in_csr (suc (suc e)) (omega arith)) tt

one_edge-IsDual : IsDual one_edge
one_edge-IsDual = record {
  out_below = out_inside;
  in_below = in_inside;
  turned = λ d e. (
    λ h. let (at, to) = out_targets e d h in rw (at, to) in_edge,
    λ h. let (from, at) = in_sources d e h in rw (from, at) out_edge,
  );
}

three_names_links : edge_indexes one_edge three_names ≡ none ∷ some 1 ∷ some 0 ∷ []
unfolding edge_indexes
three_names_links = refl

links-IsInjective : IsInjective (none ∷ some 1 ∷ some 0 ∷ [])
links-IsInjective (suc zero) (suc zero) e here there = refl
links-IsInjective (suc (suc zero)) (suc (suc zero)) e here there = refl
links-IsInjective zero v e here there = absurd cc
links-IsInjective (suc zero) zero e here there = absurd cc
links-IsInjective (suc zero) (suc (suc zero)) e here there =
    absurd let eq : ◌≡◌ {A = Option ℕ} (some 1) (some 0) = here ∙ sym there in cc
links-IsInjective (suc (suc zero)) zero e here there = absurd cc
links-IsInjective (suc (suc zero)) (suc zero) e here there =
    absurd let eq : ◌≡◌ {A = Option ℕ} (some 0) (some 1) = here ∙ sym there in cc
links-IsInjective (suc (suc (suc u))) v e here there = absurd cc
links-IsInjective (suc zero) (suc (suc (suc v))) e here there = absurd cc
links-IsInjective (suc (suc zero)) (suc (suc (suc v))) e here there = absurd cc

three_names_slots :
    fill_rows (edge_indexes one_edge three_names) 0 (none ∷ none ∷ []) ≡ ok pair_slots
unfolding edge_indexes fill_rows
three_names_slots = refl

three_names-IsInjective : IsInjective (edge_indexes one_edge three_names)
three_names-IsInjective = rw three_names_links links-IsInjective

same_component_iff_Linked_example :
    (cids : List ℕ) × (count : ℕ) × (compute_components one_edge three_names ≡ ok (cids, count))
    × (length cids ≡ 3)
    × ((u v : ℕ)
        → u < 3
        → v < 3
        → (get_or cids u 0 ≡ get_or cids v 0)
          ↔ Linked one_edge (edge_indexes one_edge three_names) pair_slots u v)
same_component_iff_Linked_example =
    same_component_iff_Linked one_edge three_names pair_slots one_edge-IsDual
      three_names-IsInjective three_names_slots (omega arith)

component_ids_dense_example :
    (cids : List ℕ) × (count : ℕ) × (compute_components one_edge three_names ≡ ok (cids, count))
    × (length cids ≡ 3)
    × ((u : ℕ) → u < 3 → get_or cids u 0 < count)
    × ((k : ℕ) → k < count → (u : ℕ) × (u < 3) × (get_or cids u 0 ≡ k))
component_ids_dense_example =
    component_ids_dense one_edge three_names pair_slots one_edge-IsDual three_names-IsInjective
      three_names_slots (omega arith)

largest_component_first_example :
    (cids : List ℕ) × (count : ℕ) × (largest : ℕ) × (rows : List ℕ) × (compute_components one_edge
        three_names
      ≡ ok (cids, count))
    × (largest_component_rows one_edge three_names ≡ ok rows)
    × (largest < count)
    × ((k : ℕ) → k < count → size_of k cids ≤ size_of largest cids)
    × ((k : ℕ) → k < largest → size_of k cids < size_of largest cids)
    × ((u : ℕ) → Has u rows ↔ ((u < 3) × (get_or cids u 0 ≡ largest)))
largest_component_first_example =
    largest_component_first one_edge three_names pair_slots one_edge-IsDual three_names-IsInjective
      three_names_slots (omega arith) (omega arith)
