-- ===== src/Common/Sets.antt =====
-- `HashSet<String>`: a list without repetitions, in no order that code may rely on.
use Prim.Native.String.{String, compare}
use Prim.Native.Nat.{Ordering}
use mathlib.Core.Path.{◌≡◌, refl, subst}
use mathlib.Core.Logic.{◌⊎◌, inl, inr, ⊎_elim}
use text.Mathlib.TextEquality.{eq_iff}
use mathlib.Core.Bool.{Bool, true, false, ◌||◌, ◌&&◌}
use mathlib.Core.List.{List, [], ◌∷◌, ◌++◌}
use lynxes_mojo.Common.Tests.{if◌then◌else◌, str_eq, Bool-cases}
use lynxes_mojo.Common.Lists.{filter}

-- `contains`
unfoldable pub member : String → List String → Bool
member a [] = false
member a (x ∷ xs) = str_eq x a || member a xs

unfoldable pub set_insert : String → List String → List String
unfolding member
set_insert a xs = if member a xs then xs else a ∷ xs

-- `extend`
unfoldable pub set_extend : List String → List String → List String
unfolding set_insert
set_extend xs [] = xs
set_extend xs (y ∷ ys) = set_extend (set_insert y xs) ys

-- `intersection`
unfoldable pub set_intersection : List String → List String → List String
unfolding member
set_intersection xs ys = filter (λ x. member x ys) xs

-- `iter().all(|name| set.contains(name))`
unfoldable pub all_in : List String → List String → Bool
unfolding member
all_in [] ys = true
all_in (x ∷ xs) ys = member x ys && all_in xs ys

abbrev pub str_le : String → String → Bool
str_le a b = elim (compare a b) [ Ordering.gt ↦ false | _ ↦ true ]

insert_string : String → List String → List String
insert_string x [] = x ∷ []
insert_string x (y ∷ ys) = if str_le x y then x ∷ y ∷ ys else y ∷ insert_string x ys

-- `sort` of strings, by bytes.
unfoldable pub sort_strings : List String → List String
unfolding insert_string
sort_strings [] = []
sort_strings (x ∷ xs) = insert_string x (sort_strings xs)

pub ||_split : (a b : Bool) → (a || b) ≡ true → (a ≡ true) ⊎ (b ≡ true)
||_split true b h = inl refl
||_split false b h = inr h

pub ||_left : (a b : Bool) → a ≡ true → (a || b) ≡ true
||_left true b h = refl
||_left false b h = cc

pub ||_right : (a b : Bool) → b ≡ true → (a || b) ≡ true
||_right true b h = refl
||_right false b h = h

pub member_split :
    (a x : String) (xs : List String) → member a (x ∷ xs) ≡ true → (x ≡ a) ⊎ (member a xs ≡ true)
unfolding member
member_split a x xs h =
    ⊎_elim (λ same. inl ((eq_iff x a).0 same)) inr (||_split (str_eq x a) (member a xs) h)

pub member_head : (a : String) (xs : List String) → member a (a ∷ xs) ≡ true
unfolding member
member_head a xs = ||_left (str_eq a a) (member a xs) ((eq_iff a a).1 refl)

pub member_tail : (a x : String) (xs : List String) → member a xs ≡ true → member a (x ∷ xs) ≡ true
unfolding member
member_tail a x xs h = ||_right (str_eq x a) (member a xs) h

pub member-set_insert :
    (a x : String) (xs : List String)
    → member a (set_insert x xs) ≡ true
    → (x ≡ a) ⊎ (member a xs ≡ true)
unfolding set_insert
member-set_insert a x xs h = elim (Bool-cases (member x xs)) [
  | inl old ↦ inr (rw old at h)
  | inr new ↦ member_split a x xs (rw new at h)
]

pub member-set_extend :
    (a : String) (xs ys : List String)
    → member a (set_extend xs ys) ≡ true
    → (member a xs ≡ true) ⊎ (member a ys ≡ true)
unfolding set_extend
member-set_extend a xs [] h = inl h
member-set_extend a xs (y ∷ ys) h =
    ⊎_elim
      (λ first.
        ⊎_elim (λ same. inr (subst (λ s. member s (y ∷ ys) ≡ true) same (member_head y ys))) inl
          (member-set_insert a y xs first))
      (λ later. inr (member_tail a y ys later)) (member-set_extend a (set_insert y xs) ys h)

pub member-append_left :
    (a : String) (xs ys : List String) → member a xs ≡ true → member a (xs ++ ys) ≡ true
unfolding member
member-append_left a [] ys h = cc
member-append_left a (x ∷ xs) ys h =
    ⊎_elim (λ here. ||_left (str_eq x a) (member a (xs ++ ys)) here)
      (λ later. ||_right (str_eq x a) (member a (xs ++ ys)) (member-append_left a xs ys later))
      (||_split (str_eq x a) (member a xs) h)

pub member-append_right :
    (a : String) (xs ys : List String) → member a ys ≡ true → member a (xs ++ ys) ≡ true
member-append_right a [] ys h = h
member-append_right a (x ∷ xs) ys h = member_tail a x (xs ++ ys) (member-append_right a xs ys h)

pub &&_split : (a b : Bool) → (a && b) ≡ true → (a ≡ true) × (b ≡ true)
&&_split true true h = (refl, refl)
&&_split true false h = cc
&&_split false b h = cc

pub member-all_in :
    (a : String) (xs ys : List String)
    → member a xs ≡ true
    → all_in xs ys ≡ true
    → member a ys ≡ true
unfolding member all_in
member-all_in a [] ys m h = cc
member-all_in a (x ∷ xs) ys m h =
    let (here, rest) = &&_split (member x ys) (all_in xs ys) h in
    ⊎_elim (λ same. subst (λ s. member s ys ≡ true) ((eq_iff x a).0 same) here)
      (λ later. member-all_in a xs ys later rest) (||_split (str_eq x a) (member a xs) m)

pub member-append_split :
    (a : String) (xs ys : List String)
    → member a (xs ++ ys) ≡ true
    → (member a xs ≡ true) ⊎ (member a ys ≡ true)
member-append_split a [] ys h = inr h
member-append_split a (x ∷ xs) ys h =
    ⊎_elim (λ same. inl (subst (λ s. member s (x ∷ xs) ≡ true) same (member_head x xs)))
      (λ later. ⊎_elim (λ m. inl (member_tail a x xs m)) inr (member-append_split a xs ys later))
      (member_split a x (xs ++ ys) h)

pub set_insert-keeps :
    (a x : String) (xs : List String) → member a xs ≡ true → member a (set_insert x xs) ≡ true
unfolding set_insert
set_insert-keeps a x xs h = elim (Bool-cases (member x xs)) [
  | inl old ↦ rw old h
  | inr new ↦ rw new (member_tail a x xs h)
]

pub set_insert-adds : (x : String) (xs : List String) → member x (set_insert x xs) ≡ true
unfolding set_insert
set_insert-adds x xs = elim (Bool-cases (member x xs)) [
  | inl old ↦ rw old old
  | inr new ↦ rw new (member_head x xs)
]

pub set_extend-keeps :
    (a : String) (xs ys : List String) → member a xs ≡ true → member a (set_extend xs ys) ≡ true
unfolding set_extend
set_extend-keeps a xs [] h = h
set_extend-keeps a xs (y ∷ ys) h =
    set_extend-keeps a (set_insert y xs) ys (set_insert-keeps a y xs h)

pub set_extend-adds :
    (a : String) (xs ys : List String) → member a ys ≡ true → member a (set_extend xs ys) ≡ true
unfolding set_extend
set_extend-adds a xs [] h = cc
set_extend-adds a xs (y ∷ ys) h =
    ⊎_elim
      (λ same.
        set_extend-keeps a (set_insert y xs) ys
          (subst (λ s. member s (set_insert y xs) ≡ true) same (set_insert-adds y xs)))
      (set_extend-adds a (set_insert y xs) ys) (member_split a y ys h)
