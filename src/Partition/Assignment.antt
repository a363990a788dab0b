-- ===== src/Partition/Assignment.antt =====
-- crates/lynxes-core/src/algo/partition.rs: every node is assigned to one of the shards.
use native.Mathlib.Nat.{mod-lt}
use lynxes_mojo.Common.{
  ℕ, zero, suc, ◌-◌, ◌%◌, ◌<◌, min, ◌≡◌, refl, ap, ◌∙◌, subst, String, some, List, [], ◌∷◌, map,
  length, length-map, set, replicate, zip, arith, Bool-cases, Option-cases, List-cases, inl, inr,
  All, lookup, str_eq,
}
use lynxes_mojo.Partition.{Node}
use lynxes_mojo.Partition.Shards.{
  PartitionMethod, indexed, sort_indexed, assign_bands, hash_shard, assign_labels, assign_nodes,
  ids_of, collect_map,
}

abbrev pub AllBelow : ℕ → List ℕ → Type 0
AllBelow n = All (λ k. k < n)

set-AllBelow : (n : ℕ) (ks : List ℕ) (i v : ℕ) → v < n → AllBelow n ks → AllBelow n (set ks i v)
set-AllBelow n [] i v inside below = tt
set-AllBelow n (k ∷ ks) zero v inside below = (inside, below.1)
set-AllBelow n (k ∷ ks) (suc i) v inside below = (below.0, set-AllBelow n ks i v inside below.1)

length-set : (ks : List ℕ) (i v : ℕ) → length (set ks i v) ≡ length ks
length-set [] i v = refl
length-set (k ∷ ks) zero v = refl
length-set (k ∷ ks) (suc i) v = ap suc (length-set ks i v)

capped : (n k : ℕ) → 0 < n → min k (n - 1) < n
capped n k some_shard = omega (arith, some_shard)

assign_bands-AllBelow :
    (n band rank : ℕ) (entries : List (ℕ × String)) (result : List ℕ)
    → 0 < n
    → AllBelow n result
    → AllBelow n (assign_bands n band rank entries result)
      × (length (assign_bands n band rank entries result) ≡ length result)
assign_bands-AllBelow n band rank [] result some_shard below = (below, refl)
assign_bands-AllBelow n band rank ((row, id) ∷ entries) result some_shard below =
    let (rest, long) =
      assign_bands-AllBelow n band (suc rank) entries (set result row (min _ (n - 1))) some_shard
        (set-AllBelow n result row (min _ (n - 1)) (capped n _ some_shard) below) in
    (rest, long ∙ length-set result row _)

zeros-AllBelow :
    (n count : ℕ)
    → 0 < n
    → AllBelow n (replicate count zero) × (length (replicate count zero) ≡ count)
zeros-AllBelow n zero some_shard = (tt, refl)
zeros-AllBelow n (suc count) some_shard =
    let (rest, long) = zeros-AllBelow n count some_shard in ((some_shard, rest), ap suc long)

abbrev pub MapBelow : ℕ → List (String × ℕ) → Type 0
MapBelow n m = (id : String) (s : ℕ) → lookup id m ≡ some s → s < n

MapBelow-cons :
    (n : ℕ) (key : String) (k : ℕ) (m : List (String × ℕ))
    → k < n
    → MapBelow n m
    → MapBelow n ((key, k) ∷ m)
unfolding lookup
MapBelow-cons n key k m inside below id s h = elim (Bool-cases (str_eq key id)) [
  | inl hit ↦
      let one : some k ≡ some s = rw hit at h in
      let same : k ≡ s = cc in subst (λ v. v < n) same inside
  | inr missed ↦ below id s (rw missed at h)
]

module _ (hash : String → ℕ) where
  hash_shard-lt : (id : String) (n : ℕ) → 0 < n → hash_shard hash id n < n
  unfolding hash_shard
  hash_shard-lt id n some_shard = mod-lt (hash id) some_shard

  hashed-AllBelow :
      (nodes : List Node) (n : ℕ)
      → 0 < n
      → AllBelow n (map (λ (node : Node). hash_shard hash node.id n) nodes)
  hashed-AllBelow [] n some_shard = tt
  hashed-AllBelow (node ∷ nodes) n some_shard =
      (hash_shard-lt node.id n some_shard, hashed-AllBelow nodes n some_shard)

  assign_labels-AllBelow :
      (n : ℕ) (nodes : List Node) (m : List (String × ℕ)) (next : ℕ)
      → 0 < n
      → MapBelow n m
      → AllBelow n (assign_labels hash n nodes m next)
        × (length (assign_labels hash n nodes m next) ≡ length nodes)
  unfolding assign_labels
  assign_labels-AllBelow n [] m next some_shard below = (tt, refl)
  assign_labels-AllBelow n (node ∷ nodes) m next some_shard below = elim (List-cases node.labels) [
    | inl unlabelled ↦
        let (rest, long) = assign_labels-AllBelow n nodes m next some_shard below in
        simp (assign_labels, unlabelled) ((hash_shard-lt node.id n some_shard, rest), ap suc long)
    | inr (first, others, labelled) ↦ elim (Option-cases (lookup first m)) [
      | inr (k, known) ↦
          let (rest, long) = assign_labels-AllBelow n nodes m next some_shard below in
          simp (assign_labels, labelled, known) ((below first k known, rest), ap suc long)
      | inl new ↦
          let (rest, long) =
            assign_labels-AllBelow n nodes ((first, next % n) ∷ m) (suc next) some_shard
              (MapBelow-cons n first (next % n) m (mod-lt next some_shard) below) in
          simp (assign_labels, labelled, new) ((mod-lt next some_shard, rest), ap suc long)
    ]
  ]

  -- Each node is assigned to a shard.
  pub assign_nodes-AllBelow :
      (nodes : List Node) (n : ℕ) (method : PartitionMethod)
      → 0 < n
      → AllBelow n (assign_nodes hash nodes n method)
        × (length (assign_nodes hash nodes n method) ≡ length nodes)
  unfolding assign_nodes lookup
  assign_nodes-AllBelow nodes n PartitionMethod.hash some_shard = (
    hashed-AllBelow nodes n some_shard,
    length-map (λ (node : Node). hash_shard hash node.id n) nodes,
  )
  assign_nodes-AllBelow nodes n PartitionMethod.range some_shard =
      let (zeros, as_many) = zeros-AllBelow n (length nodes) some_shard in
      let (below, long) =
        assign_bands-AllBelow n _ 0 (sort_indexed (indexed 0 (ids_of nodes)))
          (replicate (length nodes) zero) some_shard zeros in
      (below, long ∙ as_many)
  assign_nodes-AllBelow nodes n PartitionMethod.label some_shard =
      assign_labels-AllBelow n nodes [] 0 some_shard (λ id s h. absurd cc)

pub collect_map-MapBelow :
    (n : ℕ) (ids : List String) (shards : List ℕ) (m : List (String × ℕ))
    → AllBelow n shards
    → MapBelow n m
    → MapBelow n (collect_map (zip ids shards) m)
collect_map-MapBelow n [] shards m all below = below
collect_map-MapBelow n (id ∷ ids) [] m all below = below
collect_map-MapBelow n (id ∷ ids) (k ∷ shards) m all below =
    collect_map-MapBelow n ids shards ((id, k) ∷ m) all.1 (MapBelow-cons n id k m all.0 below)
