-- ===== src/Partition/Boundary.antt =====
-- crates/lynxes-core/src/algo/partition.rs, `expand_via_boundary`: the nodes found across shards.
use lynxes_mojo.Common.{
  ℕ, suc, ◌≡◌, ◌⊎◌, refl, subst, String, true, false, not, ◌&&◌, List, [], ◌∷◌, ◌++◌, if◌then◌else◌,
  Bool-cases, inl, inr, ⊎_elim, member, member_head, member-append_left, member-append_right,
  member-append_split, &&_split,
}
use lynxes_mojo.Direction.{Direction, out, in_, both, none_}
use lynxes_mojo.Plan.Expressions.{EdgeTypeSpec}
use lynxes_mojo.Partition.{Edge, edge_type_matches, crossing, expand_via_boundary}
use lynxes_mojo.Partition.Expansion.{In, Follows, Reaches, Reaches-later, if_push}

module _ (frontier visited : List String) where
  abbrev pushed : String → String → List String
  pushed a b = if member a frontier && not (member b visited) then b ∷ [] else []

  pushed_sound : (a b v : String) → In v (pushed a b) → In a frontier × (b ≡ v)
  pushed_sound a b v h =
      let (tests, same) = if_push (member a frontier && not (member b visited)) b v h in
      ((&&_split (member a frontier) (not (member b visited)) tests).0, same)

  pushed_complete :
      (u a b v : String) → In u frontier → a ≡ u → b ≡ v → In v visited ⊎ In v (pushed a b)
  pushed_complete u a b v listed from to =
      let here : member a frontier ≡ true = rw from listed in
      elim (Bool-cases (member v visited)) [
        | inl old ↦ inl old
        | inr new ↦
            let missing : member b visited ≡ false = rw to new in
            inr (rw (here, missing) (rw to (member_head v [])))
      ]

  crossing_sound :
      (direction : Direction) (e : Edge) (v : String)
      → In v (crossing frontier visited direction e)
      → (u : String) × In u frontier × Follows direction e u v
  crossing_sound out e v h =
      let (l, same) = pushed_sound e.src e.dst v h in (e.src, l, (refl, same))
  crossing_sound in_ e v h =
      let (l, same) = pushed_sound e.dst e.src v h in (e.dst, l, (refl, same))
  crossing_sound both e v h =
      ⊎_elim
        (λ first. let (l, same) = pushed_sound e.src e.dst v first in (e.src, l, inl (refl, same)))
        (λ second.
          let (l, same) = pushed_sound e.dst e.src v second in (e.dst, l, inr (refl, same)))
        (member-append_split v (pushed e.src e.dst) (pushed e.dst e.src) h)
  crossing_sound none_ e v h =
      ⊎_elim
        (λ first. let (l, same) = pushed_sound e.src e.dst v first in (e.src, l, inl (refl, same)))
        (λ second.
          let (l, same) = pushed_sound e.dst e.src v second in (e.dst, l, inr (refl, same)))
        (member-append_split v (pushed e.src e.dst) (pushed e.dst e.src) h)

  either_complete :
      (a b u v : String)
      → In u frontier
      → ((a ≡ u) × (b ≡ v)) ⊎ ((b ≡ u) × (a ≡ v))
      → In v visited ⊎ In v (pushed a b ++ pushed b a)
  either_complete a b u v listed f =
      ⊎_elim
        (λ (from, to).
          ⊎_elim inl (λ p. inr (member-append_left v (pushed a b) (pushed b a) p))
            (pushed_complete u a b v listed from to))
        (λ (from, to).
          ⊎_elim inl (λ p. inr (member-append_right v (pushed a b) (pushed b a) p))
            (pushed_complete u b a v listed from to))
        f

  crossing_complete :
      (direction : Direction) (e : Edge) (u v : String)
      → In u frontier
      → Follows direction e u v
      → In v visited ⊎ In v (crossing frontier visited direction e)
  crossing_complete out e u v listed (from, to) = pushed_complete u e.src e.dst v listed from to
  crossing_complete in_ e u v listed (from, to) = pushed_complete u e.dst e.src v listed from to
  crossing_complete both e u v listed f = either_complete e.src e.dst u v listed f
  crossing_complete none_ e u v listed f = either_complete e.src e.dst u v listed f

  module _ (spec : EdgeTypeSpec) (direction : Direction) where
    abbrev new_nodes : ℕ → List Edge → List String
    new_nodes row edges = (expand_via_boundary edges row frontier spec direction visited).0

    pub expand_via_boundary_sound :
        (row : ℕ) (edges : List Edge) (v : String)
        → In v (new_nodes row edges)
        → Reaches spec direction frontier edges v
    unfolding expand_via_boundary member
    expand_via_boundary_sound row [] v h = absurd cc
    expand_via_boundary_sound row (e ∷ edges) v h =
        let later = λ (m : In v (new_nodes (suc row) edges)).
          Reaches-later spec direction frontier e edges v
            (expand_via_boundary_sound (suc row) edges v m) in
        elim (Bool-cases (edge_type_matches e spec)) [
          | inl wanted ↦
              let both_parts : In v
                  (crossing frontier visited direction e ++ new_nodes (suc row) edges) =
                rw (new_nodes, expand_via_boundary, wanted) at h in
              ⊎_elim (λ now. (e, inl refl, wanted, crossing_sound direction e v now)) later
                (member-append_split v (crossing frontier visited direction e)
                  (new_nodes (suc row) edges) both_parts)
          | inr unwanted ↦ later (rw (new_nodes, expand_via_boundary, unwanted) at h)
        ]

    pub expand_via_boundary_complete :
        (row : ℕ) (edges : List Edge) (v : String)
        → Reaches spec direction frontier edges v
        → In v visited ⊎ In v (new_nodes row edges)
    unfolding expand_via_boundary member
    expand_via_boundary_complete row [] v (e, listed, _, _) = absurd listed
    expand_via_boundary_complete row (e ∷ edges) v (d, listed, matching, (u, starts, f)) =
        ⊎_elim
          (λ same.
            let wanted : edge_type_matches e spec ≡ true =
              subst (λ x. edge_type_matches x spec ≡ true) same matching in
            ⊎_elim inl
              (λ now. inr (
                rw (new_nodes, expand_via_boundary, wanted)
                  (member-append_left v (crossing frontier visited direction e)
                    (new_nodes (suc row) edges) now)))
              (crossing_complete direction e u v starts
                (subst (λ x. Follows direction x u v) same f)))
          (λ later.
            ⊎_elim inl
              (λ m. inr (elim (Bool-cases (edge_type_matches e spec)) [
                | inl wanted ↦
                    rw (new_nodes, expand_via_boundary, wanted)
                      (member-append_right v (crossing frontier visited direction e)
                        (new_nodes (suc row) edges) m)
                | inr unwanted ↦ rw (new_nodes, expand_via_boundary, unwanted) m
              ]))
              (expand_via_boundary_complete (suc row) edges v (d, later, matching, (u, starts, f))))
          listed
