-- ===== src/Csr/Lookup.antt =====
-- crates/lynxes-core/src/frame/csr.rs, the lookups in the index of sorted edges.

use lynxes_mojo.Common.{
  ℕ, suc, ◌-◌, ◌≤◌, ◌<◌, ◌≡◌, refl, ap, ◌∙◌, List, [], ◌∷◌, map, Bool, some, arith, ltb, true, ◌==◌,
  false, take, drop, filter, All, All-map, tabulate, length-tabulate, get_or-tabulate, take-map,
  drop-map, Bool-cases, inl, inr,
}
use lynxes_mojo.Csr.{
  CsrIndex, Entry, entry_dst, entry_id, node_count, range, slice, neighbors, edge_ids, degree,
}
use lynxes_mojo.Csr.Sorting.{IsSorted, Below}
use lynxes_mojo.Csr.Build.{entry_src, before_in, degree_in, before_in-suc}

abbrev pub leaves : ℕ → Entry → Bool
leaves v e = entry_src e == v

-- From a node on, no entry of a sorted list leaves a smaller one.
AtLeast : ℕ → List Entry → Type 0
AtLeast v = All (λ e. v ≤ entry_src e)

Below-AtLeast : (x : Entry) (v : ℕ) (es : List Entry) → v ≤ entry_src x → Below x es → AtLeast v es
unfolding AtLeast
Below-AtLeast (s, d, i) v es h b = All-map (λ (t, e, j) le. ground arith) es b

before_in-AtLeast : (v : ℕ) (es : List Entry) → AtLeast v es → before_in es v ≡ 0
unfolding AtLeast
before_in-AtLeast v [] h = refl
before_in-AtLeast v ((s, d, i) ∷ es) h = ground (arith, before_in-AtLeast v es)

filter-AtLeast : (v : ℕ) (es : List Entry) → AtLeast (suc v) es → filter (leaves v) es ≡ []
unfolding AtLeast
filter-AtLeast v [] h = refl
filter-AtLeast v ((s, d, i) ∷ es) h = ground (arith, filter-AtLeast v es)

take-before :
    (v : ℕ) (es : List Entry)
    → IsSorted es
    → AtLeast v es
    → take (before_in es (suc v)) es ≡ filter (leaves v) es
unfolding AtLeast
take-before v [] s h = refl
take-before v ((t, d, i) ∷ es) s h = ground (
  arith,
  take-before v es s.1 h.1,
  before_in-AtLeast (suc v) es,
  filter-AtLeast v es,
  Below-AtLeast (t, d, i) (suc v) es,
)

slice-zero : (es : List Entry) (start end : ℕ) → start ≡ 0 → slice es (start, end) ≡ take end es
slice-zero es start end e = rw e (ap (λ n. take n es) (omega arith))

-- The slice between two neighbouring offsets holds the edges that leave the node.
segment_lem :
    (v : ℕ) (es : List Entry)
    → IsSorted es
    → slice es (before_in es v, before_in es (suc v)) ≡ filter (leaves v) es
unfolding AtLeast
segment_lem v [] s = refl
segment_lem v ((t, d, i) ∷ es) s = elim (Bool-cases (ltb t v)) [
  | inl e ↦
      let later : ltb t (suc v) ≡ true = ground arith in
      let other : (t == v) ≡ false = ground arith in
      let same : suc (before_in es (suc v)) - suc (before_in es v)
          ≡ before_in es (suc v) - before_in es v =
        omega arith in
      rw (e, later, other, same) (segment_lem v es s.1)
  | inr e ↦
      let here : AtLeast v ((t, d, i) ∷ es) =
        (ground arith, Below-AtLeast (t, d, i) v es (ground arith) s.0) in
      slice-zero _ _ _ (before_in-AtLeast v ((t, d, i) ∷ es) here)
      ∙ take-before v ((t, d, i) ∷ es) s here
]

-- The index that the passes make of sorted tuples.
abbrev pub index_of : ℕ → List Entry → CsrIndex
index_of n es = record {
  offsets = tabulate (suc n) (before_in es);
  neighbors = map entry_dst es;
  edge_ids = map entry_id es;
}

slice-map :
    (f : Entry → ℕ) (es : List Entry) (start end : ℕ)
    → slice (map f es) (start, end) ≡ map f (slice es (start, end))
slice-map f es start end =
    ap (take (end - start)) (drop-map f start es) ∙ take-map f (end - start) (drop start es)

module _ (n : ℕ) (es : List Entry) where
  pub node_count-index_of : node_count (index_of n es) ≡ n
  node_count-index_of = omega (arith, length-tabulate n (λ i. before_in es (suc i)))

  pub range-index_of :
      (v : ℕ) → v < n → range (index_of n es) v ≡ some (before_in es v, before_in es (suc v))
  unfolding range
  range-index_of v h = ground (
    arith,
    node_count-index_of,
    get_or-tabulate (suc n) (before_in es) v 0,
    get_or-tabulate n (λ i. before_in es (suc i)) v 0,
  )

  pub neighbors-index_of :
      (v : ℕ)
      → v < n
      → IsSorted es
      → neighbors (index_of n es) v ≡ map entry_dst (filter (leaves v) es)
  unfolding neighbors
  neighbors-index_of v h s =
      rw (range-index_of v h, neighbors)
        (slice-map entry_dst es _ _ ∙ ap (map entry_dst) (segment_lem v es s))

  pub edge_ids-index_of :
      (v : ℕ)
      → v < n
      → IsSorted es
      → edge_ids (index_of n es) v ≡ map entry_id (filter (leaves v) es)
  unfolding edge_ids
  edge_ids-index_of v h s =
      rw (range-index_of v h, edge_ids)
        (slice-map entry_id es _ _ ∙ ap (map entry_id) (segment_lem v es s))

  pub degree-index_of : (v : ℕ) → v < n → degree (index_of n es) v ≡ degree_in es v
  unfolding degree
  degree-index_of v h = ground (
    arith,
    node_count-index_of,
    get_or-tabulate (suc n) (before_in es) v 0,
    get_or-tabulate n (λ i. before_in es (suc i)) v 0,
    before_in-suc es v,
  )
