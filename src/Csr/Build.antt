-- ===== src/Csr/Build.antt =====
-- crates/lynxes-core/src/frame/csr.rs, the three passes of `build_from_sorted_edges`.
use mathlib.Core.List.{append_assoc}
use native.Mathlib.Nat.{add-zero}
use lynxes_mojo.Common.{
  ℕ, zero, suc, ◌+◌, ◌≤◌, ◌<◌, ◌-◌, ◌^◌, ◌≡◌, refl, ap, ap₂, sym, ◌∙◌, List, [], ◌∷◌, ◌++◌, map,
  Option, some, arith, ltb, ◌==◌, if◌then◌else◌, length, replicate, All, tabulate, tabulate-ext,
  length-map, set-append, length-append,
}
use lynxes_mojo.Csr.{
  wrap, Entry, entry_dst, entry_id, bump, count_degrees, sum_from, prefix_sums, fill,
  build_from_sorted_edges,
}

abbrev pub entry_src : Entry → ℕ
entry_src (s, d, i) = s

-- How many entries leave node `v`, and how many leave a smaller node.
abbrev pub degree_in : List Entry → ℕ → ℕ
degree_in [] v = 0
degree_in (e ∷ es) v = if entry_src e == v then suc (degree_in es v) else degree_in es v

abbrev pub before_in : List Entry → ℕ → ℕ
before_in [] v = 0
before_in (e ∷ es) v = if ltb (entry_src e) v then suc (before_in es v) else before_in es v

pub before_in-suc :
    (es : List Entry) (v : ℕ) → before_in es (suc v) ≡ before_in es v + degree_in es v
before_in-suc [] v = omega arith
before_in-suc ((s, d, i) ∷ es) v = ground (arith, before_in-suc es v)

pub before_in-zero : (es : List Entry) → before_in es 0 ≡ 0
before_in-zero [] = refl
before_in-zero ((s, d, i) ∷ es) = ground (arith, before_in-zero es)

pub before_in-le : (es : List Entry) (v : ℕ) → before_in es v ≤ length es
before_in-le [] v = omega arith
before_in-le ((s, d, i) ∷ es) v = ground (arith, before_in-le es v)

-- One counter raised.
abbrev raise : (ℕ → ℕ) → ℕ → ℕ → ℕ
raise f at j = if at == j then suc (f j) else f j

cons-cong :
    {x y : ℕ} {xs ys : List ℕ}
    → x ≡ y
    → xs ≡ ys
    → ◌≡◌ {A = Option (List ℕ)} (some (x ∷ xs)) (some (y ∷ ys))
cons-cong p q = cc

bump-tabulate :
    (n : ℕ) (f : ℕ → ℕ) (at : ℕ)
    → at < n
    → f at < 2 ^ 32 - 1
    → bump (tabulate n f) at ≡ some (tabulate n (raise f at))
unfolding bump
bump-tabulate zero f at h b = absurd (omega arith)
bump-tabulate (suc n) f zero h b =
    cons-cong (omega arith)
      (tabulate-ext n (λ i. f (suc i)) (λ i. raise f 0 (suc i)) (λ i. ground arith))
bump-tabulate (suc n) f (suc at) h b = rw (bump-tabulate n (λ i. f (suc i)) at (omega arith) b) (
    cons-cong (ground arith) (
      tabulate-ext n (raise (λ i. f (suc i)) at) (λ i. raise f (suc at) (suc i))
        (λ i. ground arith)))

-- Every source row is a node.
abbrev pub InRange : ℕ → List Entry → Type 0
InRange n = All (λ e. entry_src e < n)

-- The first counter belongs to no node and stays.
count_degrees-tabulate :
    (n : ℕ) (es : List Entry) (f : ℕ → ℕ)
    → InRange n es
    → ((i : ℕ) → f i + length es < 2 ^ 32)
    → count_degrees es (0 ∷ tabulate n f) ≡ some (0 ∷ tabulate n (λ i. f i + degree_in es i))
unfolding count_degrees bump
count_degrees-tabulate n [] f h b =
    cons-cong refl (tabulate-ext n f (λ i. f i + 0) (λ i. omega arith))
count_degrees-tabulate n ((s, d, i) ∷ es) f h b =
    let bs = b s in
    rw (bump-tabulate n f s h.0 (omega arith)) (
      count_degrees-tabulate n es (raise f s) h.1 (λ j. let bj = b j in ground arith)
      ∙ cons-cong refl (
          tabulate-ext n (λ j. raise f s j + degree_in es j)
            (λ j. f j + degree_in ((s, d, i) ∷ es) j) (λ j. ground arith)))

sum_from-tabulate :
    (n s : ℕ) (es : List Entry)
    → length es < 2 ^ 32
    → sum_from (before_in es s) (tabulate n (λ i. degree_in es (s + i)))
      ≡ tabulate n (λ i. before_in es (suc (s + i)))
unfolding sum_from
sum_from-tabulate zero s es h = refl
sum_from-tabulate (suc n) s es h =
    let head : wrap (degree_in es (s + 0) + before_in es s) ≡ before_in es (suc s) =
      rw add-zero (omega (arith, before_in-suc es s, before_in-le es (suc s))) in
    let shift : (i : ℕ) → s + suc i ≡ suc s + i = λ i. omega arith in
    rw (head, add-zero)
      (ap (λ xs. before_in es (suc s) ∷ xs)
        (ap (sum_from (before_in es (suc s))) (
            tabulate-ext n (λ i. degree_in es (s + suc i)) (λ i. degree_in es (suc s + i))
              (λ i. ap (degree_in es) (shift i)))
          ∙ sum_from-tabulate n (suc s) es h
          ∙ tabulate-ext n (λ i. before_in es (suc (suc s + i)))
              (λ i. before_in es (suc (s + suc i)))
              (λ i. ap (λ j. before_in es (suc j)) (sym (shift i)))))

fill-append : (vs pre : List ℕ) → fill (length pre) vs (pre ++ replicate (length vs) 0) ≡ pre ++ vs
unfolding fill
fill-append [] pre = refl
fill-append (v ∷ vs) pre =
    let zeros : List ℕ = replicate (length vs) 0 in
    let longer : length (pre ++ v ∷ []) ≡ suc (length pre) =
      omega (arith, length-append pre (v ∷ [])) in
    ap (fill (suc (length pre)) vs) (set-append pre zeros 0 v)
    ∙ ap₂ (λ k c. fill k vs c) (sym longer) (sym (append_assoc pre (v ∷ []) zeros))
    ∙ fill-append vs (pre ++ v ∷ [])
    ∙ append_assoc pre (v ∷ []) vs

fill-map :
    (f : Entry → ℕ) (es : List Entry) → fill 0 (map f es) (replicate (length es) 0) ≡ map f es
fill-map f es =
    ap (λ k. fill 0 (map f es) (replicate k 0)) (sym (length-map f es)) ∙ fill-append (map f es) []

replicate-tabulate : (n : ℕ) → replicate {A = ℕ} n 0 ≡ tabulate n (λ _. 0)
replicate-tabulate zero = refl
replicate-tabulate (suc n) = ap (λ xs. 0 ∷ xs) (replicate-tabulate n)

count_degrees_lem :
    (es : List Entry) (n : ℕ)
    → InRange n es
    → length es < 2 ^ 32
    → count_degrees es (replicate (suc n) 0) ≡ some (0 ∷ tabulate n (degree_in es))
count_degrees_lem es n h b = rw (replicate-tabulate n) (
    count_degrees-tabulate n es (λ _. 0) h (λ i. omega arith)
    ∙ cons-cong refl (tabulate-ext n (λ i. 0 + degree_in es i) (degree_in es) (λ i. omega arith)))

prefix_sums_lem :
    (es : List Entry) (n : ℕ)
    → length es < 2 ^ 32
    → prefix_sums (0 ∷ tabulate n (degree_in es)) ≡ tabulate (suc n) (before_in es)
unfolding prefix_sums
prefix_sums_lem es n b =
    let plain : (i : ℕ) → 0 + i ≡ i = λ i. omega arith in
    rw (before_in-zero es) (
      ap (λ xs. 0 ∷ xs)
        (ap₂ (λ k xs. sum_from k xs) (sym (before_in-zero es))
            (tabulate-ext n (degree_in es) (λ i. degree_in es (0 + i))
              (λ i. ap (degree_in es) (sym (plain i))))
          ∙ sum_from-tabulate n 0 es b
          ∙ tabulate-ext n (λ i. before_in es (suc (0 + i))) (λ i. before_in es (suc i))
              (λ i. ap (λ j. before_in es (suc j)) (plain i))))

-- The columns are the tuples' fields, and offset `v` counts the edges of smaller nodes.
pub build_from_sorted_edges_lem :
    (es : List Entry) (n : ℕ)
    → InRange n es
    → length es < 2 ^ 32
    → build_from_sorted_edges es n (length es)
      ≡ some (record {
        offsets = tabulate (suc n) (before_in es);
        neighbors = map entry_dst es;
        edge_ids = map entry_id es;
      })
unfolding build_from_sorted_edges
build_from_sorted_edges_lem es n h b = rw (
  count_degrees_lem es n h b,
  prefix_sums_lem es n b,
  fill-map entry_dst es,
  fill-map entry_id es,
)
