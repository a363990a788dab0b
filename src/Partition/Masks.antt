-- ===== src/Partition/Masks.antt =====
-- crates/lynxes-core/src/algo/partition.rs: the masks of `partition` have each row in its own shard.
use lynxes_mojo.Common.{
  ℕ, zero, suc, ◌<◌, ◌≡◌, refl, ap, ap₂, sym, ◌∙◌, subst, String, Bool, true, false, none, some,
  List, [], ◌∷◌, ◌++◌, map, length, get_elem?, set, replicate, tabulate, tabulate-ext, set-append,
  length-append, arith, ◌==◌, ==_iff, if◌then◌else◌, Bool-cases, Option-cases, inl, inr, All,
}
use lynxes_mojo.Outcome.{ok, ◌>>=◌}
use lynxes_mojo.Partition.{Edge, is_at}
use lynxes_mojo.Partition.Shards.{mark_row, mark_nodes, mark_edges, edge_shard}

get_elem-tabulate :
    {A : Type 0} (n : ℕ) (f : ℕ → A) (k : ℕ) → k < n → get_elem? (tabulate n f) k ≡ some (f k)
get_elem-tabulate zero f k inside = absurd (omega (arith, inside))
get_elem-tabulate (suc n) f zero inside = refl
get_elem-tabulate (suc n) f (suc k) inside =
    get_elem-tabulate n (λ i. f (suc i)) k (omega (arith, inside))

set-tabulate :
    {A : Type 0} (n : ℕ) (f : ℕ → A) (k : ℕ) (v : A)
    → set (tabulate n f) k v ≡ tabulate n (λ i. if k == i then v else f i)
set-tabulate zero f k v = refl
set-tabulate (suc n) f zero v =
    ap₂ (λ x xs. x ∷ xs) (ground arith)
      (tabulate-ext n (λ i. f (suc i)) (λ i. if 0 == suc i then v else f (suc i))
        (λ i. ground arith))
set-tabulate (suc n) f (suc k) v =
    ap₂ (λ x xs. x ∷ xs) (ground arith)
      (set-tabulate n (λ i. f (suc i)) k v
        ∙ tabulate-ext n (λ i. if k == i then v else f (suc i))
            (λ i. if suc k == suc i then v else f (suc i)) (λ i. ground arith))

append_snoc : {A : Type 0} (xs : List A) (y : A) (ys : List A) → (xs ++ y ∷ []) ++ ys ≡ xs ++ y ∷ ys
append_snoc [] y ys = refl
append_snoc (x ∷ xs) y ys = ap (λ zs. x ∷ zs) (append_snoc xs y ys)

-- Masks in which the rows before `row` are decided, as `prefix` has them.
abbrev pub decided : ℕ → (ℕ → List Bool) → List Bool → List (List Bool)
decided n prefix rest = tabulate n (λ s. prefix s ++ rest)

mark_row_lem :
    (n k row : ℕ) (prefix : ℕ → List Bool) (rest : List Bool)
    → k < n
    → ((s : ℕ) → length (prefix s) ≡ row)
    → mark_row (decided n prefix (false ∷ rest)) k row
      ≡ ok (decided n (λ s. prefix s ++ (k == s) ∷ []) rest)
unfolding mark_row
mark_row_lem n k row prefix rest inside long =
    let masks = decided n prefix (false ∷ rest) in
    let put : set (prefix k ++ false ∷ rest) row true ≡ prefix k ++ true ∷ rest =
      subst (λ r. set (prefix k ++ false ∷ rest) r true ≡ prefix k ++ true ∷ rest) (long k)
        (set-append (prefix k) rest false true) in
    rw (get_elem-tabulate n (λ s. prefix s ++ false ∷ rest) k inside) (
      ap ok (
        set-tabulate n (λ s. prefix s ++ false ∷ rest) k (set (prefix k ++ false ∷ rest) row true)
        ∙ tabulate-ext n _ (λ s. (prefix s ++ (k == s) ∷ []) ++ rest)
            (λ s. elim (Bool-cases (k == s)) [
              | inl here ↦
                  let same : k ≡ s = (==_iff k s).0 here in
                  rw here (
                    put
                    ∙ ap (λ i. prefix i ++ true ∷ rest) same
                    ∙ sym (append_snoc (prefix s) true rest))
              | inr other ↦ rw other (sym (append_snoc (prefix s) false rest))
            ])))

-- The masks that are left when every row is decided.
abbrev pub masks_of :
    {A : Type 0} → ℕ → (ℕ → List Bool) → (ℕ → A → Bool) → List A → List (List Bool)
masks_of n prefix at rows = tabulate n (λ s. prefix s ++ map (at s) rows)

longer :
    (prefix : List Bool) (row : ℕ) (b : Bool)
    → length prefix ≡ row
    → length (prefix ++ b ∷ []) ≡ suc row
longer prefix row b long = omega (arith, length-append prefix (b ∷ []), long)

masks_of-cons :
    {A : Type 0} (n : ℕ) (prefix : ℕ → List Bool) (at : ℕ → A → Bool) (a : A) (rows : List A)
    → masks_of n (λ s. prefix s ++ at s a ∷ []) at rows ≡ masks_of n prefix at (a ∷ rows)
masks_of-cons n prefix at a rows =
    tabulate-ext n _ _ (λ s. append_snoc (prefix s) (at s a) (map (at s) rows))

pub mark_nodes_lem :
    (n : ℕ) (shards : List ℕ) (row : ℕ) (prefix : ℕ → List Bool)
    → All (λ k. k < n) shards
    → ((s : ℕ) → length (prefix s) ≡ row)
    → mark_nodes shards row (decided n prefix (replicate (length shards) false))
      ≡ ok (masks_of n prefix (λ s k. k == s) shards)
unfolding mark_nodes
mark_nodes_lem n [] row prefix below long = refl
mark_nodes_lem n (k ∷ shards) row prefix below long =
    rw (mark_row_lem n k row prefix (replicate (length shards) false) below.0 long) (
      mark_nodes_lem n shards (suc row) (λ s. prefix s ++ (k == s) ∷ []) below.1
        (λ s. longer (prefix s) row (k == s) (long s))
      ∙ ap ok (masks_of-cons n prefix (λ s k. k == s) k shards))

-- An edge without a common shard.
abbrev pub is_boundary : List (String × ℕ) → Edge → Bool
is_boundary node_to_shard e = elim (edge_shard node_to_shard e) [ none ↦ true | some _ ↦ false ]

abbrev pub is_in : List (String × ℕ) → ℕ → Edge → Bool
is_in node_to_shard s e = is_at s (edge_shard node_to_shard e)

module _ (n : ℕ) (m : List (String × ℕ))
    (below : (e : Edge) (s : ℕ) → edge_shard m e ≡ some s → s < n) where
  apart_step :
      (e : Edge) (edges : List Edge) (row : ℕ) (masks : List (List Bool)) (mask : List Bool)
      → edge_shard m e ≡ none
      → mark_edges m (e ∷ edges) row masks mask
        ≡ mark_edges m edges (suc row) masks (set mask row true)
  unfolding mark_edges
  apart_step e edges row masks mask apart = rw (mark_edges, apart) refl

  together_step :
      (e : Edge) (edges : List Edge) (row k : ℕ) (masks : List (List Bool)) (mask : List Bool)
      → edge_shard m e ≡ some k
      → mark_edges m (e ∷ edges) row masks mask
        ≡ (mark_row masks k row >>= λ marked. mark_edges m edges (suc row) marked mask)
  unfolding mark_edges
  together_step e edges row k masks mask together = rw (mark_edges, together) refl

  module _ (e : Edge) (row : ℕ) (prefix : ℕ → List Bool) (before rest : List Bool)
      (as_long : length before ≡ row) where
    abbrev prefix_with : ℕ → List Bool
    prefix_with s = prefix s ++ is_in m s e ∷ []

    abbrev before_with : List Bool
    before_with = before ++ is_boundary m e ∷ []

    apart_masks :
        edge_shard m e ≡ none → decided n prefix (false ∷ rest) ≡ decided n prefix_with rest
    apart_masks apart =
        let unmarked : (s : ℕ) → is_in m s e ≡ false = λ s. rw (is_in, apart) refl in
        tabulate-ext n _ _ (λ s.
          sym (append_snoc (prefix s) false rest)
          ∙ ap (λ b. (prefix s ++ b ∷ []) ++ rest) (sym (unmarked s)))

    apart_boundary :
        edge_shard m e ≡ none → set (before ++ false ∷ rest) row true ≡ before_with ++ rest
    apart_boundary apart =
        let crosses : is_boundary m e ≡ true = rw (is_boundary, apart) refl in
        subst (λ r. set (before ++ false ∷ rest) r true ≡ before ++ true ∷ rest) as_long
          (set-append before rest false true)
        ∙ sym (append_snoc before true rest)
        ∙ ap (λ b. (before ++ b ∷ []) ++ rest) (sym crosses)

    together_masks :
        (k : ℕ)
        → edge_shard m e ≡ some k
        → ((s : ℕ) → length (prefix s) ≡ row)
        → mark_row (decided n prefix (false ∷ rest)) k row ≡ ok (decided n prefix_with rest)
    together_masks k together long =
        let placed : (s : ℕ) → is_in m s e ≡ (k == s) = λ s. rw (is_in, together) refl in
        mark_row_lem n k row prefix rest (below e k together) long
        ∙ ap ok (tabulate-ext n _ _ (λ s. ap (λ b. (prefix s ++ b ∷ []) ++ rest) (sym (placed s))))

    together_boundary :
        (k : ℕ) → edge_shard m e ≡ some k → before ++ false ∷ rest ≡ before_with ++ rest
    together_boundary k together =
        let stays : is_boundary m e ≡ false = rw (is_boundary, together) refl in
        sym (append_snoc before false rest) ∙ ap (λ b. (before ++ b ∷ []) ++ rest) (sym stays)

  pub mark_edges_lem :
      (edges : List Edge) (row : ℕ) (prefix : ℕ → List Bool) (before : List Bool)
      → ((s : ℕ) → length (prefix s) ≡ row)
      → length before ≡ row
      → mark_edges m edges row
          (decided n prefix (replicate (length edges) false))
          (before ++ replicate (length edges) false)
        ≡ ok (masks_of n prefix (is_in m) edges, before ++ map (is_boundary m) edges)
  unfolding mark_edges
  mark_edges_lem [] row prefix before long as_long = refl
  mark_edges_lem (e ∷ edges) row prefix before long as_long =
      let rest = replicate (length edges) false in
      let masks = decided n prefix (false ∷ rest) in
      let ih =
        mark_edges_lem edges (suc row) (prefix_with e row prefix before rest as_long)
          (before_with e row prefix before rest as_long)
          (λ s. longer (prefix s) row (is_in m s e) (long s))
          (longer before row (is_boundary m e) as_long)
        ∙ ap₂ (λ a b. ok (a, b)) (masks_of-cons n prefix (is_in m) e edges)
            (append_snoc before (is_boundary m e) (map (is_boundary m) edges)) in
      elim (Option-cases (edge_shard m e)) [
        | inl apart ↦
            apart_step e edges row masks (before ++ false ∷ rest) apart
            ∙ ap₂ (λ a b. mark_edges m edges (suc row) a b)
                (apart_masks e row prefix before rest as_long apart)
                (apart_boundary e row prefix before rest as_long apart)
            ∙ ih
        | inr (k, together) ↦
            together_step e edges row k masks (before ++ false ∷ rest) together
            ∙ ap (λ r. r >>= λ marked. mark_edges m edges (suc row) marked (before ++ false ∷ rest))
                (together_masks e row prefix before rest as_long k together long)
            ∙ ap
                (λ b.
                  mark_edges m edges (suc row)
                    (decided n (prefix_with e row prefix before rest as_long) rest) b)
                (together_boundary e row prefix before rest as_long k together)
            ∙ ih
      ]
