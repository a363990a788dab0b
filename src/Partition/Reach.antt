-- ===== src/Partition/Reach.antt =====
-- crates/lynxes-core/src/algo/partition.rs: `distributed_expand` visits what a search of the whole graph
-- does, however the graph is divided.
use lynxes_mojo.Common.{
  ℕ, zero, suc, ◌+◌, ◌≡◌, ◌≢◌, ◌↔◌, ◌⊎◌, refl, subst, String, true, some, List, [], ◌∷◌, ==_refl,
  inl, inr, ⊎_elim, Has, arith, get_elem?,
}
use lynxes_mojo.Direction.{Direction, out, in_, both, none_}
use lynxes_mojo.Plan.Expressions.{EdgeTypeSpec}
use lynxes_mojo.Partition.{Edge, Shard, PartitionedGraph, shard_of, is_at}
use lynxes_mojo.Partition.Expansion.{Follows, Reaches}
use lynxes_mojo.Partition.Rounds.{In-filter, seeds_at, ReachesShards}

-- The shards and the boundary hold the edges: a shard those with both ends in it, the boundary those
-- whose ends are in no common shard.
pub record Shares (pg : PartitionedGraph) (edges : List Edge) : Type 0 where
  pub held :
      (e : Edge)
      → Has e edges
      → ((k : ℕ) × (shard : Shard) × (get_elem? pg.shards k ≡ some shard) × Has e shard.edges)
        ⊎ Has e pg.boundary_edges
  pub of_shard :
      (k : ℕ) (shard : Shard) (e : Edge)
      → get_elem? pg.shards k ≡ some shard
      → Has e shard.edges
      → Has e edges × (shard_of pg e.src ≡ some k) × (shard_of pg e.dst ≡ some k)
  pub of_boundary :
      (e : Edge)
      → Has e pg.boundary_edges
      → Has e edges × ((k : ℕ) → shard_of pg e.src ≡ some k → shard_of pg e.dst ≢ some k)

Follows-start :
    (direction : Direction) (e : Edge) (u v : String)
    → Follows direction e u v
    → (e.src ≡ u) ⊎ (e.dst ≡ u)
Follows-start out e u v (from, to) = inl from
Follows-start in_ e u v (from, to) = inr from
Follows-start both e u v f = ⊎_elim (λ (from, _). inl from) (λ (from, _). inr from) f
Follows-start none_ e u v f = ⊎_elim (λ (from, _). inl from) (λ (from, _). inr from) f

module _ (pg : PartitionedGraph) (spec : EdgeTypeSpec) (direction : Direction) where
  ReachesShards-shard :
      (idx : ℕ) (shards : List Shard) (frontier : List String) (v : String)
      → ReachesShards pg spec direction idx shards frontier v
      → (i : ℕ) × (shard : Shard) × (get_elem? shards i ≡ some shard)
        × Reaches spec direction (seeds_at pg spec direction (idx + i) frontier) shard.edges v
  ReachesShards-shard idx [] frontier v h = absurd h
  ReachesShards-shard idx (shard ∷ shards) frontier v h =
      ⊎_elim
        (λ here. (
          0,
          shard,
          refl,
          subst (λ k. Reaches spec direction (seeds_at pg spec direction k frontier) shard.edges v)
              (omega arith) here,
        ))
        (λ later.
          let (i, s, at, r) = ReachesShards-shard (suc idx) shards frontier v later in
          (
            suc i,
            s,
            at,
            subst (λ k. Reaches spec direction (seeds_at pg spec direction k frontier) s.edges v)
                (omega arith) r,
          ))
        h

  shard-ReachesShards :
      (idx : ℕ) (shards : List Shard) (frontier : List String) (v : String) (i : ℕ) (shard : Shard)
      → get_elem? shards i ≡ some shard
      → Reaches spec direction (seeds_at pg spec direction (idx + i) frontier) shard.edges v
      → ReachesShards pg spec direction idx shards frontier v
  shard-ReachesShards idx [] frontier v i shard at r = absurd cc
  shard-ReachesShards idx (s ∷ shards) frontier v zero shard at r =
      let same : shard ≡ s = cc in
      inl (
        subst (λ k. Reaches spec direction (seeds_at pg spec direction k frontier) s.edges v)
          (omega arith)
          (subst
            (λ (x : Shard).
              Reaches spec direction (seeds_at pg spec direction (idx + 0) frontier) x.edges v)
            same r))
  shard-ReachesShards idx (s ∷ shards) frontier v (suc i) shard at r = inr (
      shard-ReachesShards (suc idx) shards frontier v i shard at (
        subst (λ k. Reaches spec direction (seeds_at pg spec direction k frontier) shard.edges v)
          (omega arith) r))

  module _ (edges : List Edge) (shares : Shares pg edges) where
    pub whole_Reaches :
        (frontier : List String) (v : String)
        → (ReachesShards pg spec direction 0 pg.shards frontier v
            ⊎ Reaches spec direction frontier pg.boundary_edges v)
          ↔ Reaches spec direction frontier edges v
    whole_Reaches frontier v = (
      ⊎_elim
          (λ inside.
            let (k, shard, at, (e, listed, matching, (u, starts, f))) =
              ReachesShards-shard 0 pg.shards frontier v inside in
            (
              e,
              (shares.of_shard k shard e at listed).0,
              matching,
              (u, ((In-filter (λ id. is_at (0 + k) (shard_of pg id)) u frontier).0 starts).0, f),
            ))
          (λ (e, listed, matching, found). (e, (shares.of_boundary e listed).0, matching, found)),
      λ (e, listed, matching, (u, starts, f)).
          ⊎_elim
            (λ (k, shard, at, has).
              let (_, src_at, dst_at) = shares.of_shard k shard e at has in
              let placed : shard_of pg u ≡ some k =
                ⊎_elim (λ from. subst (λ w. shard_of pg w ≡ some k) from src_at)
                  (λ from. subst (λ w. shard_of pg w ≡ some k) from dst_at)
                  (Follows-start direction e u v f) in
              let there : is_at (0 + k) (shard_of pg u) ≡ true =
                let eq : 0 + k ≡ k = omega arith in rw (eq, placed) (==_refl k) in
              inl (
                shard-ReachesShards 0 pg.shards frontier v k shard at (
                  e,
                  has,
                  matching,
                  (
                    u,
                    (In-filter (λ id. is_at (0 + k) (shard_of pg id)) u frontier).1 (starts, there),
                    f,
                  ),
                )))
            (λ has. inr (e, has, matching, (u, starts, f))) (shares.held e listed),
    )
