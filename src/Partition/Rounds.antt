-- ===== src/Partition/Rounds.antt =====
-- crates/lynxes-core/src/algo/partition.rs: one round of `distributed_expand` visits the ends of all edges
-- of its frontier, in whatever shards they are.
use lynxes_mojo.Common.{
  Grows, Grows-none, Grows-then, Grows-map, ℕ, suc, ◌≡◌, ◌↔◌, ◌⊎◌, subst, String, Bool, true, false,
  List, [], ◌∷◌, filter, Bool-cases, inl, inr, ⊎_elim, member, member_split, member_head,
  member_tail, set_insert, set_insert-keeps, set_insert-adds, member-set_insert,
}
use lynxes_mojo.Direction.{Direction}
use lynxes_mojo.Plan.Expressions.{EdgeTypeSpec}
use lynxes_mojo.Partition.{
  Shard, PartitionedGraph, shard_of, is_at, direct_expand, expand_via_boundary, Expanding,
  admit_one, admit, expand_shard, expand_shards, cross,
}
use lynxes_mojo.Partition.Expansion.{In, Reaches, direct_expand-Reaches}
use lynxes_mojo.Partition.Boundary.{expand_via_boundary_sound, expand_via_boundary_complete}

-- From `x` to `y` the ids of `S` are visited, and what is new stands in the next frontier.
abbrev pub Admits : (String → Type 0) → Expanding → Expanding → Type 0
Admits S x y = Grows S x.visited x.next_frontier y.visited y.next_frontier

Admits-none : (x : Expanding) → Admits (λ v. ⊥) x x
Admits-none x = Grows-none x.visited x.next_frontier

Admits-then :
    (S T : String → Type 0) (x y z : Expanding)
    → Admits S x y
    → Admits T y z
    → Admits (λ v. S v ⊎ T v) x z
Admits-then S T x y z first second = Grows-then S T _ _ _ _ _ _ first second

Admits-map :
    (S T : String → Type 0) (x y : Expanding)
    → ((v : String) → (In v x.visited ⊎ S v) ↔ (In v x.visited ⊎ T v))
    → Admits S x y
    → Admits T x y
Admits-map S T x y iff a = Grows-map S T _ _ _ _ iff a

admit_one-Admits : (id : String) (x : Expanding) → Admits (λ v. id ≡ v) x (admit_one id x)
admit_one-Admits id x = elim (Bool-cases (member id x.visited)) [
  | inl old ↦
      rw (admit_one, old)
        (Admits-map (λ v. ⊥) (λ v. id ≡ v) x x
          (λ v. (
            ⊎_elim inl (λ never. absurd never),
            ⊎_elim inl (λ same. inl (subst (λ w. In w x.visited) same old)),
          ))
          (Admits-none x))
  | inr new ↦
      rw (admit_one, new)
        (record {
          visits = λ v. (
            λ h. ⊎_elim inr inl (member_split v id x.visited h),
            ⊎_elim (λ old. member_tail v id x.visited old)
                (λ same. subst (λ w. In w (id ∷ x.visited)) same (member_head id x.visited)),
          );
          fresh = λ v h.
              ⊎_elim
                (λ same. inr (
                  subst (λ w. In w (set_insert id x.next_frontier)) same
                    (set_insert-adds id x.next_frontier)))
                inl (member_split v id x.visited h);
          keeps_next = λ v h. set_insert-keeps v id x.next_frontier h;
          next_visited = λ v h.
              ⊎_elim
                (λ same. inr (subst (λ w. In w (id ∷ x.visited)) same (member_head id x.visited)))
                inl (member-set_insert v id x.next_frontier h);
        })
]

pub admit-Admits : (ids : List String) (x : Expanding) → Admits (λ v. In v ids) x (admit ids x)
unfolding admit member
admit-Admits [] x =
    Admits-map (λ v. ⊥) (λ v. In v []) x x
      (λ v. (⊎_elim inl (λ never. absurd never), ⊎_elim inl (λ never. absurd cc))) (Admits-none x)
admit-Admits (id ∷ ids) x =
    Admits-map (λ v. (id ≡ v) ⊎ In v ids) (λ v. In v (id ∷ ids)) x (admit ids (admit_one id x))
      (λ v. (
        ⊎_elim inl (λ h. inr (
            ⊎_elim (λ same. subst (λ w. In w (id ∷ ids)) same (member_head id ids))
              (member_tail v id ids) h)),
        ⊎_elim inl (λ h. inr (member_split v id ids h)),
      ))
      (Admits-then (λ v. id ≡ v) (λ v. In v ids) x (admit_one id x) (admit ids (admit_one id x))
        (admit_one-Admits id x) (admit-Admits ids (admit_one id x)))

pub In-filter :
    (test : String → Bool) (v : String) (ids : List String)
    → In v (filter test ids) ↔ (In v ids × (test v ≡ true))
unfolding member
In-filter test v [] = (λ h. absurd cc, λ (h, _). absurd cc)
In-filter test v (id ∷ ids) =
    let ih = In-filter test v ids in
    elim (Bool-cases (test id)) [
      | inl kept ↦ rw kept (
        λ h.
            ⊎_elim
              (λ same. (subst (λ w. In w (id ∷ ids)) same (member_head id ids), rw (← same) kept))
              (λ later. let (listed, passes) = ih.0 later in (member_tail v id ids listed, passes))
              (member_split v id (filter test ids) h),
        λ (h, passes).
            ⊎_elim
              (λ same.
                subst (λ w. In w (id ∷ filter test ids)) same (member_head id (filter test ids)))
              (λ later. member_tail v id (filter test ids) (ih.1 (later, passes)))
              (member_split v id ids h),
      )
      | inr dropped ↦ rw dropped (
        λ h. let (listed, passes) = ih.0 h in (member_tail v id ids listed, passes),
        λ (h, passes).
            ⊎_elim (λ same. absurd let never : test v ≡ false = rw (← same) dropped in cc)
              (λ later. ih.1 (later, passes)) (member_split v id ids h),
      )
    ]

module _ (pg : PartitionedGraph) (spec : EdgeTypeSpec) (direction : Direction) where
  expand_shard-Admits :
      (shard_idx : ℕ) (shard : Shard) (seeds : List String) (x : Expanding)
      → Admits
          (Reaches spec direction seeds shard.edges)
          x
          (expand_shard pg spec direction shard_idx shard seeds x)
  unfolding expand_shard member
  expand_shard-Admits shard_idx shard [] x =
      Admits-map (λ v. ⊥) (Reaches spec direction [] shard.edges) x x
        (λ v.
          (⊎_elim inl (λ never. absurd never), ⊎_elim inl (λ (_, _, _, (u, listed, _)). absurd cc)))
        (Admits-none x)
  expand_shard-Admits shard_idx shard (seed ∷ seeds) x =
      (Admits-map (λ v. In v (direct_expand shard.edges (seed ∷ seeds) spec direction))
        (Reaches spec direction (seed ∷ seeds) shard.edges) x
        (admit (direct_expand shard.edges (seed ∷ seeds) spec direction) x)
        (λ v.
          let iff = direct_expand-Reaches spec direction (seed ∷ seeds) shard.edges v in
          (⊎_elim inl (λ h. inr (iff.0 h)), ⊎_elim inl (λ h. inr (iff.1 h))))
        (admit-Admits (direct_expand shard.edges (seed ∷ seeds) spec direction) x))

  abbrev pub seeds_at : ℕ → List String → List String
  seeds_at shard_idx frontier = filter (λ id. is_at shard_idx (shard_of pg id)) frontier

  -- Reached inside one of the shards from those of the ids that are in it.
  abbrev pub ReachesShards : ℕ → List Shard → List String → String → Type 0
  ReachesShards shard_idx [] frontier v = ⊥
  ReachesShards shard_idx (shard ∷ shards) frontier v =
      Reaches spec direction (seeds_at shard_idx frontier) shard.edges v
      ⊎ ReachesShards (suc shard_idx) shards frontier v

  expand_shards-Admits :
      (shard_idx : ℕ) (shards : List Shard) (frontier : List String) (x : Expanding)
      → Admits
          (ReachesShards shard_idx shards frontier)
          x
          (expand_shards pg spec direction shard_idx shards frontier x)
  unfolding expand_shards
  expand_shards-Admits shard_idx [] frontier x = Admits-none x
  expand_shards-Admits shard_idx (shard ∷ shards) frontier x =
      let mid = expand_shard pg spec direction shard_idx shard (seeds_at shard_idx frontier) x in
      Admits-then (Reaches spec direction (seeds_at shard_idx frontier) shard.edges)
        (ReachesShards (suc shard_idx) shards frontier) x mid
        (expand_shards pg spec direction (suc shard_idx) shards frontier mid)
        (expand_shard-Admits shard_idx shard (seeds_at shard_idx frontier) x)
        (expand_shards-Admits (suc shard_idx) shards frontier mid)

  cross-Admits :
      (frontier : List String) (x : Expanding)
      → Admits
          (Reaches spec direction frontier pg.boundary_edges)
          x
          (cross pg spec direction frontier x)
  unfolding cross
  cross-Admits frontier x =
      let ids = (expand_via_boundary pg.boundary_edges 0 frontier spec direction x.visited).0 in
      Admits-map (λ v. In v ids) (Reaches spec direction frontier pg.boundary_edges) x (admit ids x)
        (λ v. (
          ⊎_elim inl (λ h. inr (
              expand_via_boundary_sound frontier x.visited spec direction 0 pg.boundary_edges v h)),
          ⊎_elim inl (λ h.
              expand_via_boundary_complete frontier x.visited spec direction 0 pg.boundary_edges v
                h),
        ))
        (admit-Admits ids x)

  pub round-Admits :
      (frontier : List String) (x : Expanding)
      → Admits
          (λ v.
            ReachesShards 0 pg.shards frontier v
            ⊎ Reaches spec direction frontier pg.boundary_edges v)
          x
          (cross pg spec direction frontier
            (expand_shards pg spec direction 0 pg.shards frontier x))
  round-Admits frontier x =
      let mid = expand_shards pg spec direction 0 pg.shards frontier x in
      Admits-then (ReachesShards 0 pg.shards frontier)
        (Reaches spec direction frontier pg.boundary_edges) x mid
        (cross pg spec direction frontier mid) (expand_shards-Admits 0 pg.shards frontier x)
        (cross-Admits frontier mid)
