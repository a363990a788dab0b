-- ===== src/Components/Queue.antt =====
-- crates/lynxes-core/src/algo/connected_components.rs: the loop over the queue labels everything that is
-- linked to the start.
use lynxes_mojo.Common.{
  ℕ, zero, suc, ◌+◌, ◌<◌, ◌≡◌, ◌⊎◌, refl, ap, sym, ◌∙◌, Option, none, some, List, [], ◌∷◌, ◌++◌,
  length, get_elem?, get_or, arith, inl, inr, ⊎_elim, Has, Option-cases,
}
use lynxes_mojo.Outcome.{ok}
use lynxes_mojo.Csr.{neighbors}
use lynxes_mojo.Csr.Packing.{AllBelow}
use lynxes_mojo.Traversal.{IndexedEdges}
use lynxes_mojo.Components.{Labelling, expand_row, drain_queue}
use lynxes_mojo.Components.Labels.{
  label, label_some-inside, unlabelled, get_elem-label, Visited, Visited-nothing, Visited-append,
  targets, visit-Visited,
}

-- The rows on the other ends of a row's edges.
abbrev pub adjacent : IndexedEdges → List (Option ℕ) → List (Option ℕ) → ℕ → List ℕ
adjacent es links slots u = elim (get_or links u none) [
  | none ↦ []
  | some e ↦ targets slots (neighbors es.out_csr e) ++ targets slots (neighbors es.in_csr e)
]

-- Edges, followed in either direction, lead from `u` to `v`.
pub data Linked (es : IndexedEdges) (links slots : List (Option ℕ)) (u : ℕ) : ℕ → Type 0 where
  here : Linked es links slots u u
  step :
      {v w : ℕ}
      → Linked es links slots u v
      → Has w (adjacent es links slots v)
      → Linked es links slots u w

-- What the tables and indexes of `n` rows must satisfy.
pub record IsUndirected (es : IndexedEdges) (links slots : List (Option ℕ)) (n : ℕ) : Type 0 where
  pub links_long : length links ≡ n
  pub rows_below : (e row : ℕ) → label slots e ≡ some row → row < n
  pub out_below : (e : ℕ) → AllBelow (length slots) (neighbors es.out_csr e)
  pub in_below : (e : ℕ) → AllBelow (length slots) (neighbors es.in_csr e)
  pub symmetric : (u v : ℕ) → Has v (adjacent es links slots u) → Has u (adjacent es links slots v)

module _ {es : IndexedEdges} {links slots : List (Option ℕ)} {n : ℕ}
    (g : IsUndirected es links slots n) where
  pub expand_row-Visited :
      (cid row : ℕ) (l : Labelling)
      → row < n
      → length l.ids ≡ n
      → (l' : Labelling) × (expand_row es links slots cid row l ≡ ok l')
        × Visited cid (adjacent es links slots row) l l'
  unfolding expand_row
  expand_row-Visited cid row l inside long =
      let linked = get_elem-label links row (rw g.links_long inside) in
      elim (Option-cases (get_or links row none)) [
        | inl absent ↦ (l, rw (linked, absent) refl, rw (adjacent, absent) (Visited-nothing cid l))
        | inr (e, found) ↦
            let (m, run, out) =
              visit-Visited es links slots n g.rows_below cid (neighbors es.out_csr e) l
                (g.out_below e) long in
            let (l', run', into) =
              visit-Visited es links slots n g.rows_below cid (neighbors es.in_csr e) m
                (g.in_below e) (out.as_long ∙ long) in
            (
              l',
              rw (linked, found, run) run',
              rw (adjacent, found)
                  (Visited-append cid (targets slots (neighbors es.out_csr e))
                    (targets slots (neighbors es.in_csr e)) l m l' out into),
            )
      ]

  -- Labels are those of the starts, and the edges of a labelled row that does not wait stay inside its
  -- component.
  pub record Invariant (cid : ℕ) (starts : List ℕ) (l : Labelling) : Type 0 where
    pub long : length l.ids ≡ n
    pub rooted :
        (u k : ℕ)
        → label l.ids u ≡ some k
        → (r : ℕ) × (get_elem? starts k ≡ some r) × Linked es links slots r u
    pub closed :
        (u k v : ℕ)
        → label l.ids u ≡ some k
        → Has v (adjacent es links slots u)
        → (label l.ids v ≡ some k) ⊎ Has u l.queue
    pub waits : (u : ℕ) → Has u l.queue → label l.ids u ≡ some cid

  module _ (cid row : ℕ) (rows starts : List ℕ) (ids : List (Option ℕ)) (l' : Labelling)
      (inv : Invariant cid starts (record { ids = ids; queue = row ∷ rows }))
      (visited : Visited cid
        (adjacent es links slots row)
        (record { ids = ids; queue = rows })
        l') where
    one_label : (k : ℕ) → label ids row ≡ some k → k ≡ cid
    one_label k h = let here = inv.waits row (inl refl) in cc

    -- A neighbor of the expanded row is in its component.
    neighbor_label : (v : ℕ) → Has v (adjacent es links slots row) → label l'.ids v ≡ some cid
    neighbor_label v adj =
        let (k, has) = visited.covers v adj in
        ⊎_elim
          (λ old.
            ⊎_elim (λ inside. let eq = one_label k inside in has ∙ ap some eq)
              (λ waiting. visited.keeps v cid (inv.waits v waiting))
              (inv.closed v k row old (g.symmetric row v adj)))
          (λ (same, _, _). has ∙ ap some same) (visited.fresh v k has)

    expanded-Invariant : Invariant cid starts l'
    expanded-Invariant = record {
      long = visited.as_long ∙ inv.long;
      rooted = λ u k h.
          ⊎_elim (λ old. inv.rooted u k old)
            (λ (same, adj, _).
              let (r, start, linked) = inv.rooted row cid (inv.waits row (inl refl)) in
              (r, rw same start, Linked.step linked adj))
            (visited.fresh u k h);
      closed = λ u k v h adj.
          ⊎_elim
            (λ old.
              ⊎_elim (λ inside. inl (visited.keeps v k inside))
                (λ waiting.
                  ⊎_elim
                    (λ same.
                      let eq = one_label k (rw same at old) in
                      inl (neighbor_label v (rw same at adj) ∙ ap some (sym eq)))
                    (λ later. inr (visited.keeps_queue u later)) waiting)
                (inv.closed u k v old adj))
            (λ (_, _, waiting). inr waiting) (visited.fresh u k h);
      waits = λ u h.
          ⊎_elim (λ old. visited.keeps u cid (inv.waits u (inr old))) (λ now. now)
            (visited.queued u h);
    }

  pub drain_queue-Invariant :
      (fuel cid : ℕ) (starts : List ℕ) (ids : List (Option ℕ)) (queue : List ℕ)
      → Invariant cid starts (record { ids = ids; queue = queue })
      → length queue + unlabelled ids < fuel
      → (ids' : List (Option ℕ)) × (drain_queue es links slots fuel cid
            (record { ids = ids; queue = queue })
          ≡ ok ids')
        × Invariant cid starts (record { ids = ids'; queue = [] })
        × ((u k : ℕ) → label ids u ≡ some k → label ids' u ≡ some k)
  unfolding drain_queue
  drain_queue-Invariant zero cid starts ids queue inv enough = absurd (omega (arith, enough))
  drain_queue-Invariant (suc fuel) cid starts ids [] inv enough = (ids, refl, inv, λ u k h. h)
  drain_queue-Invariant (suc fuel) cid starts ids (row ∷ rows) inv enough =
      let (l', run, visited) =
        expand_row-Visited cid row (record { ids = ids; queue = rows })
          (rw (← inv.long) (label_some-inside ids row cid (inv.waits row (inl refl)))) inv.long in
      let next = expanded-Invariant cid row rows starts ids l' inv visited in
      let (ids', run', inv', keeps) =
        drain_queue-Invariant fuel cid starts l'.ids l'.queue next
          (omega (arith, visited.measured, enough)) in
      (ids', rw run run', inv', λ u k h. keeps u k (visited.keeps u k h))
