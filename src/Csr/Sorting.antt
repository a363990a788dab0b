-- ===== src/Csr/Sorting.antt =====
-- crates/lynxes-core/src/frame/csr.rs, `edges.sort_unstable()`: the order of the packed tuples.
use mathlib.Core.List.Perm
use lynxes_mojo.Common.{
  ◌≡◌, List, [], ◌∷◌, true, false, inl, inr, Perm, arith, Bool-cases, All, All-map,
}
use lynxes_mojo.Csr.{Entry, entry_le, insert_entry, sort_entries}

abbrev pub Below : Entry → List Entry → Type 0
Below x = All (λ y. entry_le x y ≡ true)

abbrev pub IsSorted : List Entry → Type 0
IsSorted [] = Unit {0}
IsSorted (x ∷ xs) = Below x xs × IsSorted xs

entry_le_total : (x y : Entry) → entry_le x y ≡ false → entry_le y x ≡ true
entry_le_total (s, d, i) (t, e, j) h = ground arith

entry_le_trans : (x y z : Entry) → entry_le x y ≡ true → entry_le y z ≡ true → entry_le x z ≡ true
entry_le_trans (s, d, i) (t, e, j) (u, f, k) h g = ground arith

insert_entry-Below :
    (x y : Entry) (ys : List Entry) → entry_le x y ≡ true → Below x ys → Below x (insert_entry y ys)
unfolding insert_entry
insert_entry-Below x y [] h b = (h, tt)
insert_entry-Below x y (z ∷ zs) h b = elim (Bool-cases (entry_le y z)) [
  | inl e ↦ rw e (h, b)
  | inr e ↦ rw e (b.0, insert_entry-Below x y zs h b.1)
]

insert_entry-IsSorted : (x : Entry) (ys : List Entry) → IsSorted ys → IsSorted (insert_entry x ys)
unfolding insert_entry
insert_entry-IsSorted x [] s = (tt, tt)
insert_entry-IsSorted x (y ∷ ys) s = elim (Bool-cases (entry_le x y)) [
  | inl e ↦ rw e ((e, All-map (λ z le. entry_le_trans x y z e le) ys s.0), s)
  | inr e ↦
      rw e (insert_entry-Below y x ys (entry_le_total x y e) s.0, insert_entry-IsSorted x ys s.1)
]

pub sort_entries-IsSorted : (xs : List Entry) → IsSorted (sort_entries xs)
unfolding sort_entries
sort_entries-IsSorted [] = tt
sort_entries-IsSorted (x ∷ xs) =
    insert_entry-IsSorted x (sort_entries xs) (sort_entries-IsSorted xs)

insert_entry-perm : (x : Entry) (ys : List Entry) → Perm (insert_entry x ys) (x ∷ ys)
unfolding insert_entry
insert_entry-perm x [] = Perm.refl _
insert_entry-perm x (y ∷ ys) = elim (Bool-cases (entry_le x y)) [
  | inl e ↦ rw e (Perm.refl _)
  | inr e ↦ rw e (Perm.trans (Perm.cons y (insert_entry-perm x ys)) (Perm.swap x y ys))
]

pub sort_entries-perm : (xs : List Entry) → Perm (sort_entries xs) xs
unfolding sort_entries
sort_entries-perm [] = Perm.refl _
sort_entries-perm (x ∷ xs) =
    Perm.trans (insert_entry-perm x (sort_entries xs)) (Perm.cons x (sort_entries-perm xs))
