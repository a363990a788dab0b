-- ===== src/Csr/Packing.antt =====
-- crates/lynxes-core/src/frame/csr.rs, the packed tuples: sorting them and slicing them by node.
use mathlib.Core.List.Perm
use lynxes_mojo.Common.{
  ℕ, zero, suc, ◌+◌, ◌≤◌, ◌<◌, ◌^◌, ◌≡◌, ◌↔◌, refl, ap, ◌∙◌, subst, List, [], ◌∷◌, map, Bool, some,
  arith, ◌==◌, ltb, leb, if◌then◌else◌, length, filter, All, get_elem?, Has, Perm, Bool-cases, inl,
  inr, ◌⊎◌, true, false,
}
use lynxes_mojo.Csr.{wrap, Entry, entry_le, entry_dst, entry_id, insert_entry, sort_entries, pack}
use lynxes_mojo.Csr.Sorting.{Below, IsSorted}
use lynxes_mojo.Csr.Build.{entry_src, degree_in, InRange}
use lynxes_mojo.Csr.Lookup.{leaves}

-- The edges out of `v` in row order, as (destination, row), from row `i` on.
abbrev pub out_edges : ℕ → List ℕ → List ℕ → ℕ → List (ℕ × ℕ)
out_edges i [] ds v = []
out_edges i (s ∷ ss) [] v = []
out_edges i (s ∷ ss) (d ∷ ds) v =
    if s == v then (d, i) ∷ out_edges (suc i) ss ds v else out_edges (suc i) ss ds v

-- The order of the entries of one node.
abbrev pub end_le : ℕ × ℕ → ℕ × ℕ → Bool
end_le (d, i) (e, j) = if d == e then leb i j else ltb d e

abbrev pub IsOrdered : List (ℕ × ℕ) → Type 0
IsOrdered [] = Unit {0}
IsOrdered (x ∷ xs) = All (λ y. end_le x y ≡ true) xs × IsOrdered xs

abbrev pub AllBelow : ℕ → List ℕ → Type 0
AllBelow n = All (λ s. s < n)

abbrev pub end_of : Entry → ℕ × ℕ
end_of e = (entry_dst e, entry_id e)

-- What sorting keeps.
filter-perm_step :
    (b c : Bool) (x y : Entry) (xs ys : List Entry)
    → Perm xs (if b then x ∷ ys else ys)
    → Perm
        (if c then y ∷ xs else xs)
        (if b then x ∷ (if c then y ∷ ys else ys) else (if c then y ∷ ys else ys))
filter-perm_step true true x y xs ys h = Perm.trans (Perm.cons y h) (Perm.swap x y ys)
filter-perm_step true false x y xs ys h = h
filter-perm_step false true x y xs ys h = Perm.cons y h
filter-perm_step false false x y xs ys h = h

module _ (v : ℕ) where
  insert-filter-perm :
      (x : Entry) (ys : List Entry)
      → Perm (filter (leaves v) (insert_entry x ys)) (filter (leaves v) (x ∷ ys))
  unfolding insert_entry
  insert-filter-perm x [] = Perm.refl _
  insert-filter-perm x (y ∷ ys) = elim (Bool-cases (entry_le x y)) [
    | inl e ↦ rw e (Perm.refl _)
    | inr e ↦ rw e (
        filter-perm_step (leaves v x) (leaves v y) x y (filter (leaves v) (insert_entry x ys))
          (filter (leaves v) ys) (insert-filter-perm x ys))
  ]

  pub sort-filter-perm :
      (xs : List Entry) → Perm (filter (leaves v) (sort_entries xs)) (filter (leaves v) xs)
  unfolding sort_entries
  sort-filter-perm [] = Perm.refl _
  sort-filter-perm (x ∷ xs) =
      Perm.trans (insert-filter-perm x (sort_entries xs))
        (filter-cons_perm (leaves v x) x (sort-filter-perm xs))
    where
      filter-cons_perm :
          (b : Bool) (y : Entry) {ys zs : List Entry}
          → Perm ys zs
          → Perm (if b then y ∷ ys else ys) (if b then y ∷ zs else zs)
      filter-cons_perm true y h = Perm.cons y h
      filter-cons_perm false y h = h

  pub degree_in-insert :
      (x : Entry) (ys : List Entry) → degree_in (insert_entry x ys) v ≡ degree_in (x ∷ ys) v
  unfolding insert_entry
  degree_in-insert x [] = refl
  degree_in-insert x (y ∷ ys) = ground (arith, degree_in-insert x ys)

  pub degree_in-sort : (xs : List Entry) → degree_in (sort_entries xs) v ≡ degree_in xs v
  unfolding sort_entries
  degree_in-sort [] = refl
  degree_in-sort (x ∷ xs) =
      degree_in-insert x (sort_entries xs)
      ∙ ap (λ k. if leaves v x then suc k else k) (degree_in-sort xs)

  pub degree_in-filter : (es : List Entry) → degree_in es v ≡ length (filter (leaves v) es)
  degree_in-filter [] = refl
  degree_in-filter (e ∷ es) = ground (arith, degree_in-filter es)

  end_le-of :
      (x y : Entry)
      → leaves v x ≡ true
      → leaves v y ≡ true
      → entry_le x y ≡ true
      → end_le (end_of x) (end_of y) ≡ true
  end_le-of (s, d, i) (t, e, j) l k h = ground arith

  filter-Below :
      (x : Entry) (es : List Entry)
      → leaves v x ≡ true
      → Below x es
      → All (λ p. end_le (end_of x) p ≡ true) (map end_of (filter (leaves v) es))
  filter-Below x [] l b = tt
  filter-Below x (y ∷ es) l b = elim (Bool-cases (leaves v y)) [
    | inl k ↦ rw k (end_le-of x y l k b.0, filter-Below x es l b.1)
    | inr k ↦ rw k (filter-Below x es l b.1)
  ]

  -- Within a node the entries are ordered by destination, then by row.
  pub filter-IsOrdered :
      (es : List Entry) → IsSorted es → IsOrdered (map end_of (filter (leaves v) es))
  filter-IsOrdered [] s = tt
  filter-IsOrdered (x ∷ es) s = elim (Bool-cases (leaves v x)) [
    | inl l ↦ rw l (filter-Below x es l s.0, filter-IsOrdered es s.1)
    | inr l ↦ rw l (filter-IsOrdered es s.1)
  ]

insert-All :
    (n : ℕ) (x : Entry) (ys : List Entry)
    → entry_src x < n
    → InRange n ys
    → InRange n (insert_entry x ys)
unfolding insert_entry
insert-All n x [] p h = (p, tt)
insert-All n x (y ∷ ys) p h = elim (Bool-cases (entry_le x y)) [
  | inl e ↦ rw e (p, h)
  | inr e ↦ rw e (h.0, insert-All n x ys p h.1)
]

pub sort-InRange : (n : ℕ) (xs : List Entry) → InRange n xs → InRange n (sort_entries xs)
unfolding sort_entries
sort-InRange n [] h = tt
sort-InRange n (x ∷ xs) h = insert-All n x (sort_entries xs) h.0 (sort-InRange n xs h.1)

length-insert : (x : Entry) (ys : List Entry) → length (insert_entry x ys) ≡ suc (length ys)
unfolding insert_entry
length-insert x [] = refl
length-insert x (y ∷ ys) = ground (arith, length-insert x ys)

pub length-sort : (xs : List Entry) → length (sort_entries xs) ≡ length xs
unfolding sort_entries
length-sort [] = refl
length-sort (x ∷ xs) = omega (arith, length-insert x (sort_entries xs), length-sort xs)

Has-insert : (a x : Entry) (ys : List Entry) → Has a (insert_entry x ys) ↔ ((a ≡ x) ⊎ Has a ys)
unfolding insert_entry
Has-insert a x [] = (λ h. h, λ h. h)
Has-insert a x (y ∷ ys) = ground (arith, Has-insert a x ys)

pub Has-sort : (a : Entry) (xs : List Entry) → Has a (sort_entries xs) ↔ Has a xs
unfolding sort_entries
Has-sort a [] = (λ h. h, λ h. h)
Has-sort a (x ∷ xs) = ground (arith, Has-insert a x (sort_entries xs), Has-sort a xs)

pub filter-pack :
    (v i : ℕ) (ss ds : List ℕ)
    → i + length ss ≤ 2 ^ 32
    → map end_of (filter (leaves v) (pack i ss ds)) ≡ out_edges i ss ds v
unfolding pack
filter-pack v i [] ds b = refl
filter-pack v i (s ∷ ss) [] b = refl
filter-pack v i (s ∷ ss) (d ∷ ds) b =
    let plain : wrap i ≡ i = omega arith in rw plain (ground (arith, filter-pack v (suc i) ss ds))

pub pack-InRange : (n i : ℕ) (ss ds : List ℕ) → AllBelow n ss → InRange n (pack i ss ds)
unfolding pack
pack-InRange n i [] ds h = tt
pack-InRange n i (s ∷ ss) [] h = tt
pack-InRange n i (s ∷ ss) (d ∷ ds) h = (h.0, pack-InRange n (suc i) ss ds h.1)

pub length-pack :
    (i : ℕ) (ss ds : List ℕ) → length ss ≡ length ds → length (pack i ss ds) ≡ length ss
unfolding pack
length-pack i [] ds h = refl
length-pack i (s ∷ ss) [] h = omega arith
length-pack i (s ∷ ss) (d ∷ ds) h = omega (arith, length-pack (suc i) ss ds)

pack-rows_from :
    (v d j i : ℕ) (ss ds : List ℕ) → i + length ss ≤ 2 ^ 32 → Has (v, d, j) (pack i ss ds) → i ≤ j
unfolding pack
pack-rows_from v d j i [] ds b h = absurd h
pack-rows_from v d j i (s ∷ ss) [] b h = absurd h
pack-rows_from v d j i (s ∷ ss) (e ∷ ds) b h = ground (arith, pack-rows_from v d j (suc i) ss ds)

-- An entry of the packed list is a row with its two ends.
pub Has-pack :
    (v d j i : ℕ) (ss ds : List ℕ)
    → i + length ss ≤ 2 ^ 32
    → Has (v, d, i + j) (pack i ss ds) ↔ ((get_elem? ss j ≡ some v) × (get_elem? ds j ≡ some d))
unfolding pack
Has-pack v d j i [] ds b = ground arith
Has-pack v d j i (s ∷ ss) [] b = ground arith
Has-pack v d zero i (s ∷ ss) (e ∷ ds) b = ground (arith, pack-rows_from v d (i + 0) (suc i) ss ds)
Has-pack v d (suc j) i (s ∷ ss) (e ∷ ds) b =
    let next : suc i + j ≡ i + suc j = omega arith in
    let rest : Has (v, d, i + suc j) (pack (suc i) ss ds)
        ↔ ((get_elem? ss j ≡ some v) × (get_elem? ds j ≡ some d)) =
      subst
        (λ k.
          Has (v, d, k) (pack (suc i) ss ds)
          ↔ ((get_elem? ss j ≡ some v) × (get_elem? ds j ≡ some d)))
        next (Has-pack v d j (suc i) ss ds (omega arith)) in
    ground arith

-- The entries of a node are the packed tuples that leave it.
pub Has-leaves :
    (v d i : ℕ) (es : List Entry)
    → Has (d, i) (map end_of (filter (leaves v) es)) ↔ Has (v, d, i) es
Has-leaves v d i [] = (λ h. h, λ h. h)
Has-leaves v d i ((s, e, j) ∷ es) = ground (arith, Has-leaves v d i es)
