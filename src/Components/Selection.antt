-- ===== src/Components/Selection.antt =====
-- crates/lynxes-core/src/algo/connected_components.rs: the rows that `largest_connected_component` keeps.
use lynxes_mojo.Common.{
  ℕ, zero, suc, ◌+◌, ◌<◌, ◌≤◌, ◌^◌, ◌≡◌, ◌⊎◌, ◌↔◌, refl, ap, ◌∙◌, subst, String, Option, none, some,
  List, [], ◌∷◌, length, get_or, replicate, arith, inl, inr, ⊎_elim, Has, Bool-cases, ◌==◌, ==_iff,
}
use lynxes_mojo.Outcome.{ok}
use lynxes_mojo.Csr.Packing.{AllBelow}
use lynxes_mojo.Traversal.{IndexedEdges}
use lynxes_mojo.Components.{
  edge_indexes, fill_rows, compute_components, count_sizes, max_size, largest_of, rows_with,
  largest_component_rows,
}
use lynxes_mojo.Components.Lookups.{IsInjective}
use lynxes_mojo.Components.Adjacency.{IsDual}
use lynxes_mojo.Components.Connectivity.{component_ids_dense}
use lynxes_mojo.Components.Largest.{size_of, count_sizes_lem, max_size_lem}

rows_with-get_or :
    (cid row u : ℕ) (cids : List ℕ)
    → Has u (rows_with cid row cids)
    → (i : ℕ) × (u ≡ row + i) × (i < length cids) × (get_or cids i 0 ≡ cid)
rows_with-get_or cid row u [] h = absurd h
rows_with-get_or cid row u (c ∷ cids) h =
    let later : Has u (rows_with cid (suc row) cids)
        → (i : ℕ) × (u ≡ row + i) × (i < length (c ∷ cids)) × (get_or (c ∷ cids) i 0 ≡ cid) =
      λ rest.
        let (i, at, inside, same) = rows_with-get_or cid (suc row) u cids rest in
        (suc i, omega (arith, at), omega (arith, inside), same) in
    elim (Bool-cases (c == cid)) [
      | inl found ↦
          let split : (u ≡ row) ⊎ Has u (rows_with cid (suc row) cids) =
            rw (rows_with, found) at h in
          ⊎_elim (λ here. (0, omega (arith, here), omega arith, (==_iff c cid).0 found)) later split
      | inr other ↦ later (rw (rows_with, other) at h)
    ]

get_or-rows_with :
    (cid row i : ℕ) (cids : List ℕ)
    → i < length cids
    → get_or cids i 0 ≡ cid
    → Has (row + i) (rows_with cid row cids)
get_or-rows_with cid row i [] inside same = absurd (omega (arith, inside))
get_or-rows_with cid row zero (c ∷ cids) inside same =
    rw (rows_with, (==_iff c cid).1 same) (inl (omega arith))
get_or-rows_with cid row (suc i) (c ∷ cids) inside same =
    let shift : suc row + i ≡ row + suc i = omega arith in
    let rest : Has (row + suc i) (rows_with cid (suc row) cids) =
      subst (λ u. Has u (rows_with cid (suc row) cids)) shift
        (get_or-rows_with cid (suc row) i cids (omega (arith, inside)) same) in
    elim (Bool-cases (c == cid)) [
      | inl found ↦ rw (rows_with, found) (inr rest)
      | inr other ↦ rw (rows_with, other) rest
    ]

AllBelow-get_or :
    (n : ℕ) (cids : List ℕ) → ((i : ℕ) → i < length cids → get_or cids i 0 < n) → AllBelow n cids
AllBelow-get_or n [] below = tt
AllBelow-get_or n (c ∷ cids) below =
    (below 0 (omega arith), AllBelow-get_or n cids (λ i lt. below (suc i) (omega (arith, lt))))

length-replicate-zero : (n : ℕ) → length (replicate n zero) ≡ n
length-replicate-zero zero = refl
length-replicate-zero (suc n) = ap suc (length-replicate-zero n)

get_or-replicate-zero : (n k : ℕ) → get_or (replicate n zero) k zero ≡ zero
get_or-replicate-zero zero k = refl
get_or-replicate-zero (suc n) zero = refl
get_or-replicate-zero (suc n) (suc k) = get_or-replicate-zero n k

-- The maximum among the sizes.
largest_of_lem :
    (f : ℕ → ℕ) (sizes : List ℕ)
    → 0 < length sizes
    → ((k : ℕ) → get_or sizes k 0 ≡ f k)
    → (largest : ℕ) × (largest_of sizes ≡ some largest)
      × (largest < length sizes)
      × ((k : ℕ) → k < length sizes → f k ≤ f largest)
      × ((k : ℕ) → k < largest → f k < f largest)
largest_of_lem f [] some_size at = absurd (omega (arith, some_size))
largest_of_lem f (size ∷ sizes) some_size at =
    let (inside, most, first) =
      max_size_lem f sizes 1 0 (λ j lt. at (suc j) ∙ ap f (omega arith)) (omega arith)
        (λ j lt. let eq : j ≡ 0 = omega (arith, lt) in rw eq (omega arith))
        (λ j lt. absurd (omega (arith, lt))) in
    (
      _,
      ap (λ x. largest_of (x ∷ sizes)) (at 0),
      omega (arith, inside),
      λ k lt. most k (omega (arith, lt)),
      first,
    )

largest_run :
    (es : IndexedEdges) (node_ids : List String) (cids sizes : List ℕ) (count largest : ℕ)
    → 0 < length node_ids
    → 0 < count
    → compute_components es node_ids ≡ ok (cids, count)
    → count_sizes cids (replicate count 0) ≡ ok sizes
    → largest_of sizes ≡ some largest
    → largest_component_rows es node_ids ≡ ok (rows_with largest 0 cids)
unfolding largest_component_rows
largest_run es [] cids sizes count largest nonempty some_id computed counted chosen =
    absurd (omega (arith, nonempty))
largest_run es (id ∷ ids) cids [] count largest nonempty some_id computed counted chosen = absurd cc
largest_run es (id ∷ ids) cids (size ∷ sizes) zero largest nonempty some_id computed counted
      chosen =
    absurd (omega (arith, some_id))
largest_run es (id ∷ ids) cids (size ∷ sizes) (suc count) largest nonempty some_id computed counted
      chosen =
    let same : max_size sizes 1 0 size ≡ largest = cc in
    rw (computed, counted) (ap (λ cid. ok (rows_with cid 0 cids)) same)

chosen_rows :
    (es : IndexedEdges) (node_ids : List String) (cids : List ℕ) (count : ℕ)
    → 0 < length node_ids
    → compute_components es node_ids ≡ ok (cids, count)
    → AllBelow count cids
    → 0 < count
    → (largest : ℕ) × (largest_component_rows es node_ids ≡ ok (rows_with largest 0 cids))
      × (largest < count)
      × ((k : ℕ) → k < count → size_of k cids ≤ size_of largest cids)
      × ((k : ℕ) → k < largest → size_of k cids < size_of largest cids)
chosen_rows es node_ids cids count nonempty computed below some_id =
    let (sizes, counted, long, counts) =
      count_sizes_lem cids (replicate count 0) (rw (length-replicate-zero count) below) in
    let as_many : length sizes ≡ count = long ∙ length-replicate-zero count in
    let (largest, chosen, inside, most, first) =
      largest_of_lem (λ k. size_of k cids) sizes (omega (arith, as_many, some_id))
        (λ k. omega (arith, counts k, get_or-replicate-zero count k)) in
    (
      largest,
      largest_run es node_ids cids sizes count largest nonempty some_id computed counted chosen,
      omega (arith, inside, as_many),
      λ k lt. most k (omega (arith, lt, as_many)),
      first,
    )

module _ (es : IndexedEdges) (node_ids : List String) (slots : List (Option ℕ)) (dual : IsDual es)
    (injective : IsInjective (edge_indexes es node_ids))
    (run : fill_rows (edge_indexes es node_ids) 0 (replicate (length es.node_index) none)
      ≡ ok slots)
    (narrow : length node_ids < 2 ^ 32) where
  -- The incoming index of the edges is the outgoing one turned round, both within their nodes, no two
  -- node rows have one edge index, the table of rows is filled, and there are fewer than 2^32 rows but
  -- at least one: then `largest_connected_component` keeps exactly the rows of one component, none is
  -- larger than it, and every component with a lower id is smaller.
  pub largest_component_first :
      0 < length node_ids
      → (cids : List ℕ) × (count : ℕ) × (largest : ℕ) × (rows : List ℕ) × (compute_components es
            node_ids
          ≡ ok (cids, count))
        × (largest_component_rows es node_ids ≡ ok rows)
        × (largest < count)
        × ((k : ℕ) → k < count → size_of k cids ≤ size_of largest cids)
        × ((k : ℕ) → k < largest → size_of k cids < size_of largest cids)
        × ((u : ℕ) → Has u rows ↔ ((u < length node_ids) × (get_or cids u 0 ≡ largest)))
  largest_component_first nonempty =
      let (cids, count, computed, long, bounded, _) =
        component_ids_dense es node_ids slots dual injective run narrow in
      let (largest, kept, inside, most, first) =
        chosen_rows es node_ids cids count nonempty computed
          (AllBelow-get_or count cids (λ i lt. bounded i (omega (arith, lt, long))))
          (omega (arith, bounded 0 nonempty)) in
      (
        cids,
        count,
        largest,
        rows_with largest 0 cids,
        computed,
        kept,
        inside,
        most,
        first,
        λ u. (
          λ h.
              let (i, at, lt, same) = rows_with-get_or largest 0 u cids h in
              let eq : i ≡ u = omega (arith, at) in
              (omega (arith, lt, long, eq), subst (λ j. get_or cids j 0 ≡ largest) eq same),
          λ h.
              subst (λ v. Has v (rows_with largest 0 cids)) (omega arith)
                (get_or-rows_with largest 0 u cids (omega (arith, h.0, long)) h.1),
        ),
      )
