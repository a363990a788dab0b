-- ===== src/Partition/Hops.antt =====
-- crates/lynxes-core/src/algo/partition.rs: `distributed_expand` visits what is within its hops in the
-- whole graph.
use lynxes_mojo.Common.{
  WithinHops, WithinHops-stable, WithinHops-more, ℕ, zero, suc, ◌+◌, ◌≡◌, ◌↔◌, ◌⊎◌, subst, String,
  true, false, List, [], ◌∷◌, inl, inr, ⊎_elim, Has, arith, List-cases, set_extend, member,
  member-set_extend, set_extend-adds,
}
use lynxes_mojo.Direction.{Direction}
use lynxes_mojo.Plan.Expressions.{EdgeTypeSpec}
use lynxes_mojo.Partition.{
  Edge, PartitionedGraph, edge_type_matches, Expanding, expand_shards, cross, expand_hops,
  distributed_expand,
}
use lynxes_mojo.Partition.Expansion.{In, Follows, Reaches}
use lynxes_mojo.Partition.Rounds.{Admits, ReachesShards, round-Admits}
use lynxes_mojo.Partition.Reach.{Shares, whole_Reaches}

module _ (spec : EdgeTypeSpec) (direction : Direction) (edges : List Edge) where
  -- An edge of a wanted type leads from `u` to `v`.
  abbrev pub Arc : String → String → Type 0
  Arc u v = (e : Edge) × Has e edges × (edge_type_matches e spec ≡ true) × Follows direction e u v

  -- At most so many edges lead from the seeds to `v`.
  abbrev pub Within : List String → ℕ → String → Type 0
  Within = WithinHops Arc

  module _ (pg : PartitionedGraph) (shares : Shares pg edges) (seeds : List String) where
    record Invariant (n : ℕ) (frontier : List String) (x : Expanding) : Type 0 where
      within : (v : String) → In v x.visited ↔ Within seeds n v
      waits : (v : String) → In v frontier → In v x.visited
      closed : (u v : String) → In u x.visited → Arc u v → In u frontier ⊎ In v x.visited

    abbrev emptied : Expanding → Expanding
    emptied x = record x { next_frontier = [] }

    abbrev round : List String → Expanding → Expanding
    round frontier x =
        cross pg spec direction frontier
          (expand_shards pg spec direction 0 pg.shards frontier (emptied x))

    module _ (n : ℕ) (frontier : List String) (x : Expanding) (inv : Invariant n frontier x) where
      round_lem :
          Admits
            (λ v.
              ReachesShards pg spec direction 0 pg.shards frontier v
              ⊎ Reaches spec direction frontier pg.boundary_edges v)
            (emptied x)
            (round frontier x)
      round_lem = round-Admits pg spec direction frontier (emptied x)

      round-Within : (v : String) → In v (round frontier x).visited ↔ Within seeds (suc n) v
      round-Within v = (
        λ h.
            ⊎_elim (λ old. inl ((inv.within v).0 old))
              (λ found.
                let (e, listed, matching, (u, starts, f)) =
                  (whole_Reaches pg spec direction edges shares frontier v).0 found in
                inr (u, (inv.within u).0 (inv.waits u starts), (e, listed, matching, f)))
              ((round_lem.visits v).0 h),
        ⊎_elim (λ old. (round_lem.visits v).1 (inl ((inv.within v).1 old)))
            (λ (u, near, arc).
              ⊎_elim
                (λ starts.
                  let (e, listed, matching, f) = arc in
                  (round_lem.visits v).1 (
                    inr (
                      (whole_Reaches pg spec direction edges shares frontier v).1
                        (e, listed, matching, (u, starts, f)))))
                (λ old. (round_lem.visits v).1 (inl old))
                (inv.closed u v ((inv.within u).1 near) arc)),
      )

      round-Invariant : Invariant (suc n) (round frontier x).next_frontier (round frontier x)
      unfolding member
      round-Invariant = record {
        within = round-Within;
        waits = λ v h.
            ⊎_elim (λ none_before. absurd let no : false ≡ true = none_before in cc) (λ seen. seen)
              (round_lem.next_visited v h);
        closed = λ u v h arc.
            ⊎_elim (λ old. inr ((round-Within v).1 (inr (u, (inv.within u).0 old, arc)))) inl
              (round_lem.fresh u h);
      }

      -- A round with an empty frontier after it has found nothing new.
      nothing_new :
          (round frontier x).next_frontier ≡ []
          → (v : String) → Within seeds (suc n) v
          → Within seeds n v
      unfolding member
      nothing_new empty v h =
          ⊎_elim (λ old. (inv.within v).0 old)
            (λ next. absurd let no : member v [] ≡ true = subst (λ ids. In v ids) empty next in cc)
            (round_lem.fresh v ((round-Within v).1 h))

      -- The loop stops early only where nothing more is to be found.
      stopped-Within :
          (m : ℕ)
          → (round frontier x).next_frontier ≡ []
          → (v : String) → In v (round frontier x).visited ↔ Within seeds (suc m + n) v
      stopped-Within m empty v =
          let stays = WithinHops-stable Arc seeds n (suc m) (nothing_new empty) v in
          let same : m + suc n ≡ suc m + n = omega arith in
          (
            λ h.
                subst (λ k. Within seeds k v) same
                  (WithinHops-more Arc seeds (suc n) m v ((round-Within v).0 h)),
            λ h. (round-Within v).1 (inl (stays h)),
          )

    expand_hops-Within :
        (hops n : ℕ) (frontier : List String) (x : Expanding)
        → Invariant n frontier x
        → (v : String)
        → In v (expand_hops pg spec direction hops frontier x).visited ↔ Within seeds (hops + n) v
    unfolding expand_hops
    expand_hops-Within zero n frontier x inv v =
        let same : n ≡ 0 + n = omega arith in
        subst (λ k. In v x.visited ↔ Within seeds k v) same (inv.within v)
    expand_hops-Within (suc hops) n frontier x inv v =
        elim (List-cases (round frontier x).next_frontier) [
          | inl empty ↦ rw (expand_hops, empty) (stopped-Within n frontier x inv hops empty v)
          | inr (id, ids, more) ↦
              let same : hops + suc n ≡ suc hops + n = omega arith in
              let next : Invariant (suc n) (id ∷ ids) (round frontier x) =
                subst (λ f. Invariant (suc n) f (round frontier x)) more
                  (round-Invariant n frontier x inv) in
              rw (expand_hops, more)
                (subst
                  (λ k.
                    In v (expand_hops pg spec direction hops (id ∷ ids) (round frontier x)).visited
                    ↔ Within seeds k v)
                  same (expand_hops-Within hops (suc n) (id ∷ ids) (round frontier x) next v))
        ]

-- When the shards and the boundary of a partitioned graph hold the edges, and those of a shard have both
-- ends in it: an id is visited by `distributed_expand` exactly if at most `hops` edges of a wanted
-- type lead to it from a seed, in the direction asked for and in the graph as a whole.
pub expand-Within :
    (pg : PartitionedGraph) (spec : EdgeTypeSpec) (direction : Direction) (edges : List Edge)
    (seeds : List String) (hops : ℕ)
    → Shares pg edges
    → (v : String)
    → In v (distributed_expand pg spec direction seeds hops).visited
      ↔ Within spec direction edges seeds hops v
unfolding distributed_expand member
expand-Within pg spec direction edges seeds hops shares v =
    let same : hops + 0 ≡ hops = omega arith in
    subst
      (λ k.
        In v (distributed_expand pg spec direction seeds hops).visited
        ↔ Within spec direction edges seeds k v)
      same
      (expand_hops-Within spec direction edges pg shares seeds hops 0 (set_extend [] seeds) _
        (record {
          within = λ u. (
            λ h. ⊎_elim (λ never. absurd cc) (λ listed. listed) (member-set_extend u [] seeds h),
            set_extend-adds u [] seeds,
          );
          waits = λ u h. h;
          closed = λ u w h arc. inl h;
        })
        v)
