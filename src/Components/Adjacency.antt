-- ===== src/Components/Adjacency.antt =====
-- crates/lynxes-core/src/algo/connected_components.rs: a row is adjacent to another one exactly if
-- that one is to it, since the incoming index is the outgoing one turned round.
use lynxes_mojo.Common.{
  ℕ, ◌≡◌, ◌⊎◌, ◌↔◌, refl, Option, none, some, List, [], ◌∷◌, ◌++◌, length, replicate, inl, inr,
  ⊎_elim, Has, Option-cases,
}
use lynxes_mojo.Outcome.{ok}
use lynxes_mojo.Csr.{neighbors}
use lynxes_mojo.Csr.Packing.{AllBelow}
use lynxes_mojo.Traversal.{IndexedEdges}
use lynxes_mojo.Components.{fill_rows}
use lynxes_mojo.Components.Labels.{
  label, targets, Has-append_left, Has-append_right, Has-append_split,
}
use lynxes_mojo.Components.Queue.{adjacent}
use lynxes_mojo.Components.Lookups.{IsInjective, links-slots, slots-links}

-- The indexes of an edge frame: neighbors are indexes of its nodes, and the incoming index is the
-- outgoing one turned round.
pub record IsDual (es : IndexedEdges) : Type 0 where
  pub out_below : (e : ℕ) → AllBelow (length es.node_index) (neighbors es.out_csr e)
  pub in_below : (e : ℕ) → AllBelow (length es.node_index) (neighbors es.in_csr e)
  pub turned : (d e : ℕ) → Has d (neighbors es.out_csr e) ↔ Has e (neighbors es.in_csr d)

Has-targets :
    (slots : List (Option ℕ)) (nbs : List ℕ) (v : ℕ)
    → Has v (targets slots nbs)
    → (nb : ℕ) × Has nb nbs × (label slots nb ≡ some v)
Has-targets slots [] v h = absurd h
Has-targets slots (nb ∷ nbs) v h = elim (Option-cases (label slots nb)) [
  | inl absent ↦
      let later : Has v (targets slots nbs) = rw (targets, absent) at h in
      let (nb', listed, found) = Has-targets slots nbs v later in (nb', inr listed, found)
  | inr (row, present) ↦
      let split : (v ≡ row) ⊎ Has v (targets slots nbs) = rw (targets, present) at h in
      ⊎_elim (λ same. (nb, inl refl, rw same present))
        (λ later.
          let (nb', listed, found) = Has-targets slots nbs v later in (nb', inr listed, found))
        split
]

targets-Has :
    (slots : List (Option ℕ)) (nbs : List ℕ) (nb v : ℕ)
    → Has nb nbs
    → label slots nb ≡ some v
    → Has v (targets slots nbs)
targets-Has slots [] nb v h found = absurd h
targets-Has slots (x ∷ nbs) nb v h found =
    ⊎_elim (λ same. let here = rw same at found in rw (targets, here) (inl refl))
      (λ later.
        let rest = targets-Has slots nbs nb v later found in
        elim (Option-cases (label slots x)) [
          | inl absent ↦ rw (targets, absent) rest
          | inr (row, present) ↦ rw (targets, present) (inr rest)
        ])
      h

module _ (es : IndexedEdges) (links slots : List (Option ℕ)) (dual : IsDual es)
    (injective : IsInjective links)
    (run : fill_rows links 0 (replicate (length es.node_index) none) ≡ ok slots) where
  adjacent-split :
      (u v : ℕ)
      → Has v (adjacent es links slots u)
      → (e d : ℕ) × (label links u ≡ some e)
        × (label slots d ≡ some v)
        × (Has d (neighbors es.out_csr e) ⊎ Has d (neighbors es.in_csr e))
  adjacent-split u v h = elim (Option-cases (label links u)) [
    | inl absent ↦ absurd (rw (adjacent, absent) at h)
    | inr (e, found) ↦
        let both : Has v
            (targets slots (neighbors es.out_csr e) ++ targets slots (neighbors es.in_csr e)) =
          rw (adjacent, found) at h in
        ⊎_elim
          (λ out.
            let (d, listed, slot) = Has-targets slots (neighbors es.out_csr e) v out in
            (e, d, found, slot, inl listed))
          (λ into.
            let (d, listed, slot) = Has-targets slots (neighbors es.in_csr e) v into in
            (e, d, found, slot, inr listed))
          (Has-append_split v (targets slots (neighbors es.out_csr e))
            (targets slots (neighbors es.in_csr e)) both)
  ]

  adjacent-join :
      (u v e d : ℕ)
      → label links u ≡ some e
      → label slots d ≡ some v
      → Has d (neighbors es.out_csr e) ⊎ Has d (neighbors es.in_csr e)
      → Has v (adjacent es links slots u)
  adjacent-join u v e d found slot h =
      rw (adjacent, found)
        (⊎_elim
          (λ out.
            Has-append_left v (targets slots (neighbors es.out_csr e))
              (targets slots (neighbors es.in_csr e))
              (targets-Has slots (neighbors es.out_csr e) d v out slot))
          (λ into.
            Has-append_right v (targets slots (neighbors es.out_csr e))
              (targets slots (neighbors es.in_csr e))
              (targets-Has slots (neighbors es.in_csr e) d v into slot))
          h)

  pub adjacent_sym :
      (u v : ℕ) → Has v (adjacent es links slots u) → Has u (adjacent es links slots v)
  adjacent_sym u v h =
      let (e, d, found, slot, listed) = adjacent-split u v h in
      adjacent-join v u d e (links-slots links slots (length es.node_index) injective run d v slot)
        (slots-links links slots (length es.node_index) injective run u e found)
        (⊎_elim (λ out. inr ((dual.turned d e).0 out)) (λ into. inl ((dual.turned e d).1 into))
          listed)
