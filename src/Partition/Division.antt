-- ===== src/Partition/Division.antt =====
-- crates/lynxes-core/src/algo/partition.rs: `partition` divides the edges of a graph.
use lynxes_mojo.Common.{
  ℕ, zero, suc, ◌<◌, ◌≡◌, ◌↔◌, refl, ap, sym, ◌∙◌, subst, String, Bool, true, false, Option, none,
  some, List, [], ◌∷◌, map, length, get_elem?, replicate, zip, tabulate, arith, ◌==◌, ==_iff,
  Bool-cases, Option-cases, inl, inr, ⊎_elim, Has, lookup,
}
use lynxes_mojo.Outcome.{ok}
use lynxes_mojo.Partition.{Node, Edge, Shard, PartitionedGraph, shard_of, is_at}
use lynxes_mojo.Partition.Reach.{Shares}
use lynxes_mojo.Partition.Shards.{
  PartitionMethod, assign_nodes, ids_of, collect_map, mark_nodes, mark_edges, common_shard,
  edge_shard, filter_rows, build_shards, partition,
}
use lynxes_mojo.Partition.Masks.{mark_nodes_lem, mark_edges_lem, is_in, is_boundary}
use lynxes_mojo.Partition.Assignment.{
  AllBelow, MapBelow, assign_nodes-AllBelow, collect_map-MapBelow,
}

Has-filter_rows :
    {A : Type 0} (keep : A → Bool) (a : A) (rows : List A)
    → Has a (filter_rows (map keep rows) rows) ↔ (Has a rows × (keep a ≡ true))
Has-filter_rows keep a [] = (λ h. absurd h, λ (h, _). absurd h)
Has-filter_rows keep a (x ∷ rows) =
    let ih = Has-filter_rows keep a rows in
    elim (Bool-cases (keep x)) [
      | inl kept ↦
          rw (filter_rows, kept)
            (
              ⊎_elim (λ same. (inl same, ap keep same ∙ kept))
                  (λ later. let (listed, test) = ih.0 later in (inr listed, test)),
              λ (h, test). ⊎_elim inl (λ later. inr (ih.1 (later, test))) h,
            )
      | inr dropped ↦
          rw (filter_rows, dropped)
            (
              λ later. let (listed, test) = ih.0 later in (inr listed, test),
              λ (h, test).
                  ⊎_elim (λ same. absurd let never : keep a ≡ false = ap keep same ∙ dropped in cc)
                    (λ later. ih.1 (later, test)) h,
            )
    ]

edge_shard_ends :
    (m : List (String × ℕ)) (e : Edge) (k : ℕ)
    → (edge_shard m e ≡ some k) ↔ ((lookup e.src m ≡ some k) × (lookup e.dst m ≡ some k))
edge_shard_ends m e k = go (lookup e.src m) (lookup e.dst m)
  where
    go : (s d : Option ℕ) → (common_shard s d ≡ some k) ↔ ((s ≡ some k) × (d ≡ some k))
    go none d = (λ h. absurd cc, λ (h, _). absurd cc)
    go (some s) none = (λ h. absurd cc, λ (_, h). absurd cc)
    go (some s) (some d) = elim (Bool-cases (s == d)) [
      | inl same ↦
          let eq : s ≡ d = (==_iff s d).0 same in
          rw (common_shard, same) (λ h. (h, ap some (sym eq) ∙ h), λ (h, _). h)
      | inr differ ↦
          rw (common_shard, differ)
            (
              λ h. absurd cc,
              λ (hs, hd).
                  absurd
                    let eq : s ≡ d = let one : some s ≡ some d = hs ∙ sym hd in cc in
                      let same = (==_iff s d).1 eq in cc,
            )
    ]

is_in_iff :
    (m : List (String × ℕ)) (e : Edge) (k : ℕ) → (is_in m k e ≡ true) ↔ (edge_shard m e ≡ some k)
is_in_iff m e k = go (edge_shard m e)
  where
    go : (o : Option ℕ) → (is_at k o ≡ true) ↔ (o ≡ some k)
    go none = (λ h. absurd cc, λ h. absurd cc)
    go (some s) = (λ h. ap some ((==_iff s k).0 h), λ h. let eq : s ≡ k = cc in (==_iff s k).1 eq)

replicate-tabulate : {A : Type 0} (n : ℕ) (a : A) → replicate n a ≡ tabulate n (λ _. a)
replicate-tabulate zero a = refl
replicate-tabulate (suc n) a = ap (λ xs. a ∷ xs) (replicate-tabulate n a)

module _ (nodes : List Node) (edges : List Edge) where
  -- The k-th shard holds the rows of its masks.
  shards_at :
      (n : ℕ) (f g : ℕ → List Bool) (k : ℕ)
      → k < n
      → get_elem? (build_shards nodes edges (tabulate n f) (tabulate n g)) k
        ≡ some (record { nodes = filter_rows (f k) nodes; edges = filter_rows (g k) edges })
  shards_at zero f g k inside = absurd (omega (arith, inside))
  shards_at (suc n) f g zero inside = refl
  shards_at (suc n) f g (suc k) inside =
      shards_at n (λ i. f (suc i)) (λ i. g (suc i)) k (omega (arith, inside))

  shards_inside :
      (n : ℕ) (f g : ℕ → List Bool) (k : ℕ) (shard : Shard)
      → get_elem? (build_shards nodes edges (tabulate n f) (tabulate n g)) k ≡ some shard
      → (k < n) × (shard.edges ≡ filter_rows (g k) edges)
  shards_inside zero f g k shard at = absurd cc
  shards_inside (suc n) f g zero shard at =
      let first : Shard = record {
        nodes = filter_rows (f 0) nodes;
        edges = filter_rows (g 0) edges;
      } in
      let same : first ≡ shard = cc in (omega arith, sym (ap (λ (x : Shard). x.edges) same))
  shards_inside (suc n) f g (suc k) shard at =
      let (inside, same) = shards_inside n (λ i. f (suc i)) (λ i. g (suc i)) k shard at in
      (omega (arith, inside), same)

node_masks_run :
    (nodes : List Node) (n : ℕ) (shards : List ℕ)
    → AllBelow n shards
    → length shards ≡ length nodes
    → mark_nodes shards 0 (replicate n (replicate (length nodes) false))
      ≡ ok (tabulate n (λ s. map (λ k. k == s) shards))
node_masks_run nodes n shards below long =
    ap (λ count. mark_nodes shards 0 (replicate n (replicate count false))) (sym long)
    ∙ ap (mark_nodes shards 0) (replicate-tabulate n (replicate (length shards) false))
    ∙ mark_nodes_lem n shards 0 (λ _. []) below (λ s. refl)

module _ (n : ℕ) (m : List (String × ℕ)) (below : MapBelow n m) where
  edge_masks_run :
      (edges : List Edge)
      → mark_edges m edges 0
          (replicate n (replicate (length edges) false))
          (replicate (length edges) false)
        ≡ ok (tabulate n (λ s. map (is_in m s) edges), map (is_boundary m) edges)
  edge_masks_run edges =
      ap (λ masks. mark_edges m edges 0 masks (replicate (length edges) false))
        (replicate-tabulate n (replicate (length edges) false))
      ∙ mark_edges_lem n m (λ e s h. below e.src s ((edge_shard_ends m e s).0 h).0) edges 0
          (λ _. []) [] (λ s. refl) refl

-- What `partition` returns.
abbrev pub divided : List Node → List Edge → ℕ → List ℕ → List (String × ℕ) → PartitionedGraph
divided nodes edges n shards m = record {
  shards =
      build_shards nodes edges (tabulate n (λ s. map (λ k. k == s) shards))
        (tabulate n (λ s. map (is_in m s) edges));
  boundary_edges = filter_rows (map (is_boundary m) edges) edges;
  n_shards = n;
  node_to_shard = m;
}

is_boundary-none :
    (m : List (String × ℕ)) (e : Edge) → (is_boundary m e ≡ true) ↔ (edge_shard m e ≡ none)
is_boundary-none m e = elim (Option-cases (edge_shard m e)) [
  | inl apart ↦ (λ _. apart, λ _. rw (is_boundary, apart) refl)
  | inr (k, together) ↦
      (λ h. absurd let no : false ≡ true = rw (is_boundary, together) at h in cc, λ h. absurd cc)
]

pub divided-Shares :
    (nodes : List Node) (edges : List Edge) (n : ℕ) (shards : List ℕ) (m : List (String × ℕ))
    → MapBelow n m
    → Shares (divided nodes edges n shards m) edges
unfolding shard_of
divided-Shares nodes edges n shards m below =
    let f = λ (s : ℕ). map (λ k. k == s) shards in
    let g = λ (s : ℕ). map (is_in m s) edges in
    record {
      held = λ e listed. elim (Option-cases (edge_shard m e)) [
        | inl apart ↦
            inr
              ((Has-filter_rows (is_boundary m) e edges).1 (listed, (is_boundary-none m e).1 apart))
        | inr (k, together) ↦ inl (
          k,
          record { nodes = filter_rows (f k) nodes; edges = filter_rows (g k) edges },
          shards_at nodes edges n f g k (below e.src k ((edge_shard_ends m e k).0 together).0),
          (Has-filter_rows (is_in m k) e edges).1 (listed, (is_in_iff m e k).1 together),
        )
      ];
      of_shard = λ k shard e at has.
          let (_, same) = shards_inside nodes edges n f g k shard at in
          let (listed, inside) =
            (Has-filter_rows (is_in m k) e edges).0 (subst (λ rows. Has e rows) same has) in
          let (src_at, dst_at) = (edge_shard_ends m e k).0 ((is_in_iff m e k).0 inside) in
          (listed, src_at, dst_at);
      of_boundary = λ e has.
          let (listed, crosses) = (Has-filter_rows (is_boundary m) e edges).0 has in
          (
            listed,
            λ k src_at dst_at.
                let apart = (is_boundary-none m e).0 crosses in
                let together = (edge_shard_ends m e k).1 (src_at, dst_at) in cc,
          );
    }

empty-MapBelow : (n : ℕ) → MapBelow n []
unfolding lookup
empty-MapBelow n id s h = absurd cc

module _ (hash : String → ℕ) (nodes : List Node) (edges : List Edge)
    (method : PartitionMethod) where
  pub partition-divided :
      (n : ℕ)
      → 0 < n
      → (shards : List ℕ) × (m : List (String × ℕ)) × MapBelow n m
        × (partition hash nodes edges n method ≡ ok (divided nodes edges n shards m))
  unfolding partition
  partition-divided zero some_shard = absurd (omega (arith, some_shard))
  partition-divided (suc more) some_shard =
      let shards = assign_nodes hash nodes (suc more) method in
      let (all, long) = assign_nodes-AllBelow hash nodes (suc more) method some_shard in
      let m = collect_map (zip (ids_of nodes) shards) [] in
      let below =
        collect_map-MapBelow (suc more) (ids_of nodes) shards [] all (empty-MapBelow (suc more)) in
      (
        shards,
        m,
        below,
        rw
            (
              node_masks_run nodes (suc more) shards all long,
              edge_masks_run (suc more) m below edges,
            )
            refl,
      )
