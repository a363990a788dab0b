-- ===== src/Components/Largest.antt =====
-- crates/lynxes-core/src/algo/connected_components.rs: the component that `largest_connected_component`
-- takes.
use lynxes_mojo.Common.{
  ℕ, zero, suc, ◌+◌, ◌<◌, ◌≤◌, ◌≡◌, refl, ap, ◌∙◌, some, List, [], ◌∷◌, length, get_elem?, get_or,
  set, arith, inl, inr, Bool-cases, ltb, ◌==◌, ==_iff, if◌then◌else◌, true, false,
}
use lynxes_mojo.Outcome.{ok}
use lynxes_mojo.Csr.Packing.{AllBelow}
use lynxes_mojo.Components.{count_sizes, max_size}

-- How many rows have the id.
abbrev pub size_of : ℕ → List ℕ → ℕ
size_of k [] = 0
size_of k (c ∷ cids) = if c == k then suc (size_of k cids) else size_of k cids

get_or-set :
    (xs : List ℕ) (i j v : ℕ)
    → i < length xs
    → get_or (set xs i v) j 0 ≡ (if i == j then v else get_or xs j 0)
get_or-set [] i j v inside = absurd (omega (arith, inside))
get_or-set (x ∷ xs) zero zero v inside = refl
get_or-set (x ∷ xs) zero (suc j) v inside = ground arith
get_or-set (x ∷ xs) (suc i) zero v inside = ground arith
get_or-set (x ∷ xs) (suc i) (suc j) v inside = ground (arith, get_or-set xs i j v)

length-set : (xs : List ℕ) (i v : ℕ) → length (set xs i v) ≡ length xs
length-set [] i v = refl
length-set (x ∷ xs) zero v = refl
length-set (x ∷ xs) (suc i) v = ap suc (length-set xs i v)

get_elem-get_or : (xs : List ℕ) (i : ℕ) → i < length xs → get_elem? xs i ≡ some (get_or xs i 0)
get_elem-get_or [] i inside = absurd (omega (arith, inside))
get_elem-get_or (x ∷ xs) zero inside = refl
get_elem-get_or (x ∷ xs) (suc i) inside = get_elem-get_or xs i (omega (arith, inside))

bumped :
    (c k old old' rest now : ℕ)
    → now ≡ (if c == k then suc old else old')
    → (c ≡ k → old ≡ old')
    → now + rest ≡ old' + (if c == k then suc rest else rest)
bumped c k old old' rest now at same = elim (Bool-cases (c == k)) [
  | inl here ↦
      let eq = same ((==_iff c k).0 here) in
      let n : now ≡ suc old = rw here at at in rw here (omega (arith, n, eq))
  | inr there ↦ let n : now ≡ old' = rw there at at in rw there (omega (arith, n))
]

pub count_sizes_lem :
    (cids sizes : List ℕ)
    → AllBelow (length sizes) cids
    → (sizes' : List ℕ) × (count_sizes cids sizes ≡ ok sizes')
      × (length sizes' ≡ length sizes)
      × ((k : ℕ) → get_or sizes' k 0 ≡ get_or sizes k 0 + size_of k cids)
unfolding count_sizes
count_sizes_lem [] sizes below = (sizes, refl, refl, λ k. omega arith)
count_sizes_lem (c ∷ cids) sizes below =
    let len = length-set sizes c (suc (get_or sizes c 0)) in
    let (sizes', run, same, counts) =
      count_sizes_lem cids (set sizes c (suc (get_or sizes c 0))) (rw len below.1) in
    (
      sizes',
      rw (get_elem-get_or sizes c below.0) run,
      same ∙ len,
      λ k.
          counts k
          ∙ bumped c k (get_or sizes c 0) (get_or sizes k 0) (size_of k cids)
              (get_or (set sizes c (suc (get_or sizes c 0))) k 0)
              (get_or-set sizes c k (suc (get_or sizes c 0)) below.0)
              (λ same. ap (λ x. get_or sizes x 0) same),
    )

ltb-lt : (a b : ℕ) → ltb a b ≡ true → a < b
ltb-lt a b h = ground (arith, h)

ltb-ge : (a b : ℕ) → ltb a b ≡ false → b ≤ a
ltb-ge a b h = ground (arith, h)

upto_suc : (n : ℕ) (P : ℕ → Type 0) → ((j : ℕ) → j < n → P j) → P n → (j : ℕ) → j < suc n → P j
upto_suc zero P h p zero lt = p
upto_suc zero P h p (suc j) lt = absurd (omega (arith, lt))
upto_suc (suc n) P h p zero lt = h zero (omega arith)
upto_suc (suc n) P h p (suc j) lt =
    upto_suc n (λ k. P (suc k)) (λ k below. h (suc k) (omega (arith, below))) p j
      (omega (arith, lt))

-- The sizes are those of `f` from `i` on.
pub max_size_lem :
    (f : ℕ → ℕ) (sizes : List ℕ) (i best : ℕ)
    → ((j : ℕ) → j < length sizes → get_or sizes j 0 ≡ f (i + j))
    → best < i
    → ((j : ℕ) → j < i → f j ≤ f best)
    → ((j : ℕ) → j < best → f j < f best)
    → (max_size sizes i best (f best) < i + length sizes)
      × ((j : ℕ) → j < i + length sizes → f j ≤ f (max_size sizes i best (f best)))
      × ((j : ℕ) → j < max_size sizes i best (f best) → f j < f (max_size sizes i best (f best)))
unfolding max_size
max_size_lem f [] i best at inside most first =
    (omega (arith, inside), λ j lt. most j (omega (arith, lt)), first)
max_size_lem f (size ∷ sizes) i best at inside most first =
    let here : size ≡ f i = at 0 (omega arith) ∙ ap f (omega arith) in
    let later : (j : ℕ) → j < length sizes → get_or sizes j 0 ≡ f (suc i + j) =
      λ j lt. at (suc j) (omega (arith, lt)) ∙ ap f (omega arith) in
    elim (Bool-cases (ltb (f best) size)) [
      | inl newer ↦
          let more : f best < f i = rw (← here) (ltb-lt (f best) size newer) in
          let (r_in, r_most, r_first) =
            max_size_lem f sizes (suc i) i later (omega arith)
              (λ j lt.
                upto_suc i (λ k. f k ≤ f i) (λ k below. omega (arith, most k below, more))
                  (omega arith) j lt)
              (λ j lt. omega (arith, most j lt, more)) in
          rw (newer, here) (omega (arith, r_in), λ j lt. r_most j (omega (arith, lt)), r_first)
      | inr older ↦
          let fewer : f i ≤ f best = rw (← here) (ltb-ge (f best) size older) in
          let (r_in, r_most, r_first) =
            max_size_lem f sizes (suc i) best later (omega (arith, inside))
              (λ j lt. upto_suc i (λ k. f k ≤ f best) most fewer j lt) first in
          rw older (omega (arith, r_in), λ j lt. r_most j (omega (arith, lt)), r_first)
    ]
