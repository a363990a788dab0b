-- ===== src/Csr.antt =====
-- crates/lynxes-core/src/frame/csr.rs: the compressed sparse row adjacency index.
-- A `Vec<u32>` is a list of numbers, `none` is a panic, and the arithmetic on u32 wraps.
pub mod Sorting
pub mod Build
pub mod Lookup
pub mod Packing
pub mod Adjacency
pub mod Reverse
pub mod Bounds
mod Examples
use lynxes_mojo.Common.{
  ℕ, zero, suc, ◌+◌, ◌-◌, ◌%◌, ◌^◌, List, [], ◌∷◌, map, Bool, Option, none, some, ltb, leb, ◌==◌,
  if◌then◌else◌, ◌>>=◌, length, get_or, set, take, drop, replicate,
}

abbrev pub wrap : ℕ → ℕ
wrap n = n % 2 ^ 32

pub record CsrIndex : Type 0 where
  pub offsets : List ℕ
  pub neighbors : List ℕ
  pub edge_ids : List ℕ

-- (src, dst, original edge row)
abbrev pub Entry : Type 0
Entry = ℕ × ℕ × ℕ

-- The derived order of tuples: lexicographic.
abbrev pub entry_le : Entry → Entry → Bool
entry_le (s, d, i) (t, e, j) = if s == t then (if d == e then leb i j else ltb d e) else ltb s t

-- `sort_unstable`: entries that compare equal are equal, so every sort gives this list.
unfoldable pub insert_entry : Entry → List Entry → List Entry
insert_entry x [] = x ∷ []
insert_entry x (y ∷ ys) = if entry_le x y then x ∷ y ∷ ys else y ∷ insert_entry x ys

unfoldable pub sort_entries : List Entry → List Entry
sort_entries [] = []
sort_entries (x ∷ xs) = insert_entry x (sort_entries xs)

-- `src_rows.iter().zip(dst_rows.iter()).enumerate()`, from row `i` on.
unfoldable pub pack : ℕ → List ℕ → List ℕ → List Entry
pack i [] ds = []
pack i (s ∷ ss) [] = []
pack i (s ∷ ss) (d ∷ ds) = (s, d, wrap i) ∷ pack (suc i) ss ds

-- `offsets[at] += 1`
unfoldable pub bump : List ℕ → ℕ → Option (List ℕ)
bump [] at = none
bump (x ∷ xs) zero = some (wrap (x + 1) ∷ xs)
bump (x ∷ xs) (suc at) = do ys ← bump xs at; some (x ∷ ys)

-- The degree-count pass.
unfoldable pub count_degrees : List Entry → List ℕ → Option (List ℕ)
count_degrees [] offsets = some offsets
count_degrees ((s, d, i) ∷ es) offsets = do bumped ← bump offsets (suc s); count_degrees es bumped

-- The prefix-sum pass, behind an entry whose sum is `prev`.
unfoldable pub sum_from : ℕ → List ℕ → List ℕ
sum_from prev [] = []
sum_from prev (x ∷ xs) = wrap (x + prev) ∷ sum_from (wrap (x + prev)) xs

unfoldable pub prefix_sums : List ℕ → List ℕ
unfolding sum_from
prefix_sums [] = []
prefix_sums (x ∷ xs) = x ∷ sum_from x xs

-- The fill pass: `column[pos] = value` for the values in order, from `pos` on.
unfoldable pub fill : ℕ → List ℕ → List ℕ → List ℕ
fill pos [] column = column
fill pos (v ∷ vs) column = fill (suc pos) vs (set column pos v)

abbrev pub entry_dst : Entry → ℕ
entry_dst (s, d, i) = d

abbrev pub entry_id : Entry → ℕ
entry_id (s, d, i) = i

unfoldable pub build_from_sorted_edges : List Entry → ℕ → ℕ → Option CsrIndex
unfolding count_degrees prefix_sums fill
build_from_sorted_edges edges node_count edge_count = do
  degrees ← count_degrees edges (replicate (suc node_count) 0)
  some (record {
    offsets = prefix_sums degrees;
    neighbors = fill 0 (map entry_dst edges) (replicate edge_count 0);
    edge_ids = fill 0 (map entry_id edges) (replicate edge_count 0);
  })

unfoldable pub build : List ℕ → List ℕ → ℕ → Option CsrIndex
unfolding pack sort_entries insert_entry build_from_sorted_edges bump
build src_rows dst_rows node_count =
    if length src_rows == length dst_rows
    then build_from_sorted_edges (sort_entries (pack 0 src_rows dst_rows)) node_count
        (length src_rows)
    else none

-- The tuples are (dst, src, row).
unfoldable pub build_reverse : List ℕ → List ℕ → ℕ → Option CsrIndex
unfolding pack sort_entries insert_entry build_from_sorted_edges bump
build_reverse src_rows dst_rows node_count =
    if length src_rows == length dst_rows
    then build_from_sorted_edges (sort_entries (pack 0 dst_rows src_rows)) node_count
        (length src_rows)
    else none

abbrev pub node_count : CsrIndex → ℕ
node_count c = length c.offsets - 1

abbrev pub edge_count : CsrIndex → ℕ
edge_count c = length c.neighbors

unfoldable pub range : CsrIndex → ℕ → Option (ℕ × ℕ)
range c idx =
    if leb (node_count c) idx
    then none
    else some (get_or c.offsets idx 0, get_or c.offsets (suc idx) 0)

-- `&column[start..end]`, for a slice in bounds.
abbrev pub slice {ℓ} : {A : Type ℓ} → List A → ℕ × ℕ → List A
slice column (start, end) = take (end - start) (drop start column)

unfoldable pub neighbors : CsrIndex → ℕ → List ℕ
unfolding range
neighbors c idx = elim (range c idx) [ some r ↦ slice c.neighbors r | none ↦ [] ]

unfoldable pub edge_ids : CsrIndex → ℕ → List ℕ
unfolding range
edge_ids c idx = elim (range c idx) [ some r ↦ slice c.edge_ids r | none ↦ [] ]

unfoldable pub degree : CsrIndex → ℕ → ℕ
degree c idx =
    if leb (node_count c) idx then 0 else get_or c.offsets (suc idx) 0 - get_or c.offsets idx 0
