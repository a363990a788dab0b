-- ===== src/Csr/Adjacency.antt =====
-- crates/lynxes-core/src/frame/csr.rs, `build` against the rows that it is given.
use mathlib.Core.List.Perm
use lynxes_mojo.Common.{
  ℕ, ◌+◌, ◌<◌, ◌^◌, ◌≡◌, ◌↔◌, ap, ap₂, sym, ◌∙◌, List, map, some, arith, ◌==◌, length, filter,
  get_elem?, Has, zip, zip-map, length-map, Perm, true, false, ◌⊎◌, inl, inr, Bool-cases, ltb, ◌≤◌,
  [], ◌∷◌, refl, zero, suc,
}
use lynxes_mojo.Csr.{
  CsrIndex, Entry, entry_dst, entry_id, sort_entries, pack, build_from_sorted_edges, build,
  node_count, edge_count, neighbors, edge_ids, degree,
}
use lynxes_mojo.Csr.Sorting.{IsSorted, sort_entries-IsSorted}
use lynxes_mojo.Csr.Build.{build_from_sorted_edges_lem}
use lynxes_mojo.Common.{iff_trans}
use lynxes_mojo.Csr.Packing.{
  out_edges, end_of, IsOrdered, AllBelow, sort-filter-perm, filter-pack, filter-IsOrdered,
  Has-leaves, Has-sort, Has-pack, degree_in-sort, degree_in-filter, length-sort, length-pack,
  sort-InRange, pack-InRange,
}
use lynxes_mojo.Csr.Lookup.{
  leaves, index_of, node_count-index_of, neighbors-index_of, edge_ids-index_of, degree-index_of,
}

-- (destination, row) of every edge that a lookup gives for `v`.
abbrev pub entries : CsrIndex → ℕ → List (ℕ × ℕ)
entries c v = zip (neighbors c v) (edge_ids c v)

abbrev pub indexed : ℕ → List ℕ → List ℕ → CsrIndex
indexed n src dst = index_of n (sort_entries (pack 0 src dst))

-- With rows of one length, every source a node and fewer than 2^32 edges, `build` returns.
pub build_lem :
    (src dst : List ℕ) (n : ℕ)
    → length src ≡ length dst
    → AllBelow n src
    → length src < 2 ^ 32
    → build src dst n ≡ some (indexed n src dst)
unfolding build
build_lem src dst n same below small =
    let es = sort_entries (pack 0 src dst) in
    let len : length es ≡ length src = length-sort (pack 0 src dst) ∙ length-pack 0 src dst same in
    let equal : (length src == length dst) ≡ true = ground arith in
    rw equal (
      ap (build_from_sorted_edges es n) (sym len)
      ∙ build_from_sorted_edges_lem es n
          (sort-InRange n (pack 0 src dst) (pack-InRange n 0 src dst below)) (omega arith))

entries-index_of :
    (n : ℕ) (es : List Entry) (v : ℕ)
    → v < n
    → IsSorted es
    → entries (index_of n es) v ≡ map end_of (filter (leaves v) es)
entries-index_of n es v h s =
    ap₂ zip (neighbors-index_of n es v h s) (edge_ids-index_of n es v h s)
    ∙ zip-map entry_dst entry_id (filter (leaves v) es)

-- The index that `build` makes: see `build_lem`.
module _ (src dst : List ℕ) (n : ℕ) (same : length src ≡ length dst) (small : length src < 2 ^ 32)
    (v : ℕ) (inside : v < n) where
  abbrev sorted : List Entry
  sorted = sort_entries (pack 0 src dst)

  entries-indexed : entries (indexed n src dst) v ≡ map end_of (filter (leaves v) sorted)
  entries-indexed = entries-index_of n sorted v inside (sort_entries-IsSorted (pack 0 src dst))

  entries-perm : Perm (entries (indexed n src dst) v) (out_edges 0 src dst v)
  entries-perm =
      rw (entries-indexed, ← filter-pack v 0 src dst (omega arith))
        (Perm.map end_of (sort-filter-perm v (pack 0 src dst)))

  entries-IsOrdered : IsOrdered (entries (indexed n src dst) v)
  entries-IsOrdered =
      rw entries-indexed (filter-IsOrdered v sorted (sort_entries-IsSorted (pack 0 src dst)))

  pub Has-entries :
      (d i : ℕ)
      → Has (d, i) (entries (indexed n src dst) v)
        ↔ ((get_elem? src i ≡ some v) × (get_elem? dst i ≡ some d))
  Has-entries d i =
      let plain : 0 + i ≡ i = omega arith in
      rw entries-indexed (
        iff_trans (Has-leaves v d i sorted) (
          iff_trans (Has-sort (v, d, i) (pack 0 src dst))
            (rw plain at (Has-pack v d i 0 src dst (omega arith)))))

  degree-indexed : degree (indexed n src dst) v ≡ length (out_edges 0 src dst v)
  degree-indexed =
      degree-index_of n sorted v inside
      ∙ degree_in-sort v (pack 0 src dst)
      ∙ degree_in-filter v (pack 0 src dst)
      ∙ sym (length-map end_of (filter (leaves v) (pack 0 src dst)))
      ∙ ap length (filter-pack v 0 src dst (omega arith))

  length-indexed :
      (length (neighbors (indexed n src dst) v) ≡ degree (indexed n src dst) v)
      × (length (edge_ids (indexed n src dst) v) ≡ degree (indexed n src dst) v)
  length-indexed =
      let order = sort_entries-IsSorted (pack 0 src dst) in
      let counted : length (filter (leaves v) sorted) ≡ degree (indexed n src dst) v =
        sym (degree_in-filter v sorted) ∙ sym (degree-index_of n sorted v inside) in
      (
        ap length (neighbors-index_of n sorted v inside order)
            ∙ length-map entry_dst (filter (leaves v) sorted)
            ∙ counted,
        ap length (edge_ids-index_of n sorted v inside order)
            ∙ length-map entry_id (filter (leaves v) sorted)
            ∙ counted,
      )

pub edge_count-indexed :
    (src dst : List ℕ) (n : ℕ)
    → length src ≡ length dst
    → edge_count (indexed n src dst) ≡ length src
edge_count-indexed src dst n same =
    length-map entry_dst (sort_entries (pack 0 src dst))
    ∙ length-sort (pack 0 src dst)
    ∙ length-pack 0 src dst same

lt_or_ge : (v n : ℕ) → (v < n) ⊎ (n ≤ v)
lt_or_ge v n = elim (Bool-cases (ltb v n)) [
  | inl below ↦ inl (ground arith)
  | inr above ↦ inr (ground arith)
]

-- A number that is no node: see `lookup_outside`.
lookup_past :
    (c : CsrIndex) (v : ℕ)
    → node_count c ≤ v
    → (neighbors c v ≡ []) × (edge_ids c v ≡ []) × (degree c v ≡ 0)
unfolding neighbors edge_ids degree
lookup_past c v h = ground arith

entries-past : (c : CsrIndex) (v : ℕ) → node_count c ≤ v → entries c v ≡ []
entries-past c v h = rw ((lookup_past c v h).0) refl

out_edges-past :
    (i n : ℕ) (ss ds : List ℕ) (v : ℕ) → AllBelow n ss → n ≤ v → out_edges i ss ds v ≡ []
out_edges-past i n [] ds v below h = refl
out_edges-past i n (s ∷ ss) [] v below h = refl
out_edges-past i n (s ∷ ss) (d ∷ ds) v (first, below) h =
    let other : (s == v) ≡ false = ground arith in
    rw other (out_edges-past (suc i) n ss ds v below h)

get_elem-below : (n i s : ℕ) (ss : List ℕ) → AllBelow n ss → get_elem? ss i ≡ some s → s < n
get_elem-below n i s [] below h = cc
get_elem-below n zero s (t ∷ ss) (first, below) h = let same : t ≡ s = cc in omega (arith, first)
get_elem-below n (suc i) s (t ∷ ss) (first, below) h = get_elem-below n i s ss below h

module _ (src dst : List ℕ) (n : ℕ) (same : length src ≡ length dst) (below : AllBelow n src)
    (small : length src < 2 ^ 32) where
  past : (v : ℕ) → n ≤ v → node_count (indexed n src dst) ≤ v
  past v h =
      let nodes = node_count-index_of n (sort_entries (pack 0 src dst)) in omega (arith, nodes, h)

  adjacent :
      (v : ℕ)
      → Perm (entries (indexed n src dst) v) (out_edges 0 src dst v)
        × IsOrdered (entries (indexed n src dst) v)
  adjacent v = elim (lt_or_ge v n) [
    | inl h ↦ (entries-perm src dst n same small v h, entries-IsOrdered src dst n same small v h)
    | inr h ↦
        rw (entries-past (indexed n src dst) v (past v h), out_edges-past 0 n src dst v below h)
          (Perm.refl [], tt)
  ]

  counted :
      (v : ℕ)
      → (degree (indexed n src dst) v ≡ length (out_edges 0 src dst v))
        × (length (neighbors (indexed n src dst) v) ≡ degree (indexed n src dst) v)
        × (length (edge_ids (indexed n src dst) v) ≡ degree (indexed n src dst) v)
  counted v = elim (lt_or_ge v n) [
    | inl h ↦
        let (heads, rows) = length-indexed src dst n same small v h in
        (degree-indexed src dst n same small v h, heads, rows)
    | inr h ↦
        let (heads, rows, none_left) = lookup_past (indexed n src dst) v (past v h) in
        rw (heads, rows, none_left, out_edges-past 0 n src dst v below h) (refl, refl, refl)
  ]

  pub Has-entries_all :
      (v d i : ℕ)
      → Has (d, i) (entries (indexed n src dst) v)
        ↔ ((get_elem? src i ≡ some v) × (get_elem? dst i ≡ some d))
  Has-entries_all v d i = elim (lt_or_ge v n) [
    | inl h ↦ Has-entries src dst n same small v h d i
    | inr h ↦ (
      λ here. absurd (rw (entries-past (indexed n src dst) v (past v h)) at here),
      λ row. absurd let node = get_elem-below n i v src below row.0 in omega (arith, node, h),
    )
  ]

-- If both row lists have one length, every source is below the node count and there are fewer than
-- 2^32 edges, then `build` returns an index that covers the nodes and the edges, in which the
-- entries of each node are a permutation of its out-edges, each (destination, row), and stand in
-- the order of destination, then row; a number that is no node has no entries, as it has no edges.
pub build_adjacency :
    (src dst : List ℕ) (n : ℕ)
    → length src ≡ length dst
    → AllBelow n src
    → length src < 2 ^ 32
    → (c : CsrIndex) × (build src dst n ≡ some c)
      × (node_count c ≡ n)
      × (edge_count c ≡ length src)
      × ((v : ℕ) → Perm (entries c v) (out_edges 0 src dst v) × IsOrdered (entries c v))
build_adjacency src dst n same below small = (
  indexed n src dst,
  build_lem src dst n same below small,
  node_count-index_of n (sort_entries (pack 0 src dst)),
  edge_count-indexed src dst n same,
  adjacent src dst n same below small,
)

-- If both row lists have one length, every source is below the node count and there are fewer than
-- 2^32 edges, then `build` returns an index in which the degree of a node is the number of its
-- out-edges, and both slices of the node have that length.
pub degree-build :
    (src dst : List ℕ) (n : ℕ)
    → length src ≡ length dst
    → AllBelow n src
    → length src < 2 ^ 32
    → (c : CsrIndex) × (build src dst n ≡ some c)
      × ((v : ℕ)
          → (degree c v ≡ length (out_edges 0 src dst v))
            × (length (neighbors c v) ≡ degree c v)
            × (length (edge_ids c v) ≡ degree c v))
degree-build src dst n same below small =
    (indexed n src dst, build_lem src dst n same below small, counted src dst n same below small)
