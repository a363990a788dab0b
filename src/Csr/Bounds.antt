-- ===== src/Csr/Bounds.antt =====
-- crates/lynxes-core/src/frame/csr.rs: the bounds of the slices, lookups outside the index, and the
-- panics of the construction.
use lynxes_mojo.Common.{
  ℕ, zero, suc, ◌+◌, ◌≤◌, ◌<◌, ◌^◌, ◌≡◌, List, [], ◌∷◌, Option, none, some, arith, length,
  get_elem?, Has, replicate, if◌then◌else◌, inl, inr, refl, Option-cases, ⊎_elim, subst, ap,
  length-map, Bool, true, false, ◌==◌,
}
use lynxes_mojo.Csr.{
  CsrIndex, Entry, entry_dst, entry_id, bump, count_degrees, sort_entries, pack, build, node_count,
  range, neighbors, edge_ids, degree,
}
use lynxes_mojo.Csr.Build.{before_in-suc, before_in-le, before_in, entry_src}
use lynxes_mojo.Csr.Lookup.{range-index_of}
use lynxes_mojo.Csr.Packing.{AllBelow, Has-sort, Has-pack}
use lynxes_mojo.Csr.Adjacency.{indexed, build_lem}

-- A node index at or above the node count has no range, no entries and degree 0, in any index.
pub lookup_outside :
    (c : CsrIndex) (v : ℕ)
    → node_count c ≤ v
    → (range c v ≡ none) × (neighbors c v ≡ []) × (edge_ids c v ≡ []) × (degree c v ≡ 0)
unfolding neighbors edge_ids degree
lookup_outside c v h = ground arith

-- In an index that `build` makes of fewer than 2^32 edges between nodes, the range of every node
-- is a slice in bounds of both columns: its start is at most its end, and that at most the number
-- of edges.
pub range_bounds :
    (src dst : List ℕ) (n v : ℕ)
    → length src ≡ length dst
    → AllBelow n src
    → length src < 2 ^ 32
    → v < n
    → (c : CsrIndex) × (start end : ℕ) × (build src dst n ≡ some c)
      × (range c v ≡ some (start, end))
      × (start ≤ end)
      × (end ≤ length c.neighbors)
      × (end ≤ length c.edge_ids)
range_bounds src dst n v same below small inside =
    let es = sort_entries (pack 0 src dst) in
    (
      indexed n src dst,
      before_in es v,
      before_in es (suc v),
      build_lem src dst n same below small,
      range-index_of n es v inside,
      omega (arith, before_in-suc es v),
      omega (arith, before_in-le es (suc v), length-map entry_dst es),
      omega (arith, before_in-le es (suc v), length-map entry_id es),
    )

length-bump : (xs : List ℕ) (at : ℕ) {ys : List ℕ} → bump xs at ≡ some ys → length ys ≡ length xs
unfolding bump
length-bump [] at h = cc
length-bump (x ∷ xs) zero h = ground arith
length-bump (x ∷ xs) (suc at) {ys} h = elim (Option-cases (bump xs at)) [
  | inl e ↦ ground arith
  | inr (zs, e) ↦ ground (arith, length-bump xs at e)
]

bump-some : (xs : List ℕ) (at : ℕ) {ys : List ℕ} → bump xs at ≡ some ys → at < length xs
unfolding bump
bump-some [] at h = cc
bump-some (x ∷ xs) zero h = omega arith
bump-some (x ∷ xs) (suc at) h = elim (Option-cases (bump xs at)) [
  | inl e ↦ ground arith
  | inr (zs, e) ↦ ground (arith, bump-some xs at e)
]

count_degrees-none :
    (e : Entry) (es : List Entry) (offsets : List ℕ)
    → Has e es
    → length offsets ≤ suc (entry_src e)
    → count_degrees es offsets ≡ none
unfolding count_degrees
count_degrees-none e [] offsets h b = absurd h
count_degrees-none x ((s, d, i) ∷ es) offsets h b = elim (Option-cases (bump offsets (suc s))) [
  | inl e ↦ rw e
  | inr (zs, e) ↦
      let size = length-bump offsets (suc s) e in
      let fits : suc s < length offsets = bump-some offsets (suc s) e in
      rw e (
        ⊎_elim (λ first. absurd (past_end first fits))
          (λ later. count_degrees-none x es zs later (omega arith)) h)
]
  where
    past_end : x ≡ (s, d, i) → suc s < length offsets → ⊥
    past_end first fits = ground (arith, first)

if-same : (b : Bool) → ◌≡◌ {A = Option CsrIndex} (if b then none else none) none
if-same true = refl
if-same false = refl

length-replicate : (n : ℕ) → length (replicate {A = ℕ} n 0) ≡ n
length-replicate zero = refl
length-replicate (suc n) = ap suc (length-replicate n)

-- `build` panics, so gives no index, if there are at most 2^32 rows and the source of some row is
-- not below the node count.
pub build_panics :
    (src dst : List ℕ) (n i s d : ℕ)
    → length src ≤ 2 ^ 32
    → get_elem? src i ≡ some s
    → get_elem? dst i ≡ some d
    → n ≤ s
    → build src dst n ≡ none
unfolding build
build_panics src dst n i s d small source target outside =
    let plain : 0 + i ≡ i = omega arith in
    let packed : Has (s, d, i) (pack 0 src dst) =
      subst (λ k. Has (s, d, k) (pack 0 src dst)) plain
        ((Has-pack s d i 0 src dst (omega arith)).1 (source, target)) in
    let failed =
      count_degrees-none (s, d, i) (sort_entries (pack 0 src dst)) (replicate (suc n) 0)
        ((Has-sort (s, d, i) (pack 0 src dst)).1 packed)
        (omega (arith, length-replicate (suc n))) in
    rw failed (if-same (length src == length dst))
