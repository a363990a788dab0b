-- ===== src/Traversal/Prefixes.antt =====
-- crates/lynxes-lazy/src/query/executor/traversal.rs, `traverse_graph` with `stop_at`: where it stops.
use lynxes_mojo.Common.{
  ℕ, ◌<◌, ◌≤◌, ◌≡◌, ◌↔◌, ◌⊎◌, refl, ap, sym, ◌∙◌, subst, String, true, false, Option, none, some,
  List, [], ◌∷◌, ◌++◌, inl, inr, ⊎_elim, member, set_extend, length, arith, leb, Bool-cases,
}
use lynxes_mojo.Outcome.{Outcome, ok}
use lynxes_mojo.Plan.Expressions.{PatternStep}
use lynxes_mojo.Traversal.{
  IndexedEdges, Found, expand_frontier_csr, extend_rows, traverse_steps, traverse_ids,
}
use lynxes_mojo.Traversal.Indexed.{IsIndexed}
use lynxes_mojo.Traversal.Steps.{Trail, step_finds_neighbors, traversal_visits_trails}
use lynxes_mojo.Traversal.Visits.{empty_or_not, traverse_steps-more, traverse_steps-last}

ok_seen :
    {a b : List String} {c d : List ℕ}
    → ◌≡◌ {A = Outcome (List String × List ℕ)} (ok (a, c)) (ok (b, d))
    → a ≡ b
ok_seen h = cc

leb-le : (a b : ℕ) → leb a b ≡ true → a ≤ b
leb-le a b h = ground (arith, h)

leb-lt : (a b : ℕ) → leb a b ≡ false → b < a
leb-lt a b h = ground (arith, h)

traverse_steps-stopped :
    (es : IndexedEdges) (limit : ℕ) (step : PatternStep) (steps : List PatternStep)
    (frontier visited : List String) (rows : List ℕ) (found : Found) (y : String) (ys : List String)
    → expand_frontier_csr es frontier step.edge_type step.direction ≡ ok found
    → found.next ≡ y ∷ ys
    → leb limit (length (set_extend visited found.next)) ≡ true
    → traverse_steps es (some limit) (step ∷ steps) frontier visited rows
      ≡ ok (set_extend visited found.next, extend_rows rows found.rows)
unfolding traverse_steps
traverse_steps-stopped es limit step steps frontier visited rows found y ys run more full =
    rw (run, more) (rw full (rw more refl))

module _ (es : IndexedEdges) (limit : ℕ) where
  abbrev Result : Type 0
  Result = Outcome (List String × List ℕ)

  -- The run is that of the whole pattern, or it has visited as many ids as the limit.
  abbrev Ends : Result → Result → Type 0
  Ends limited whole =
      (limited ≡ whole)
      ⊎ ((seen : List String) × (retained : List ℕ) × (limited ≡ ok (seen, retained))
          × (limit ≤ length seen))

  -- No shorter part, of one step at least, has visited as many.
  abbrev Shortest : (List PatternStep → Result) → List PatternStep → Type 0
  Shortest plain part =
      (first : PatternStep) (some_steps : List PatternStep) (next : PatternStep)
      (others : List PatternStep) (seen : List String) (retained : List ℕ)
      → part ≡ (first ∷ some_steps) ++ next ∷ others
      → plain (first ∷ some_steps) ≡ ok (seen, retained)
      → length seen < limit

  abbrev Stops : List PatternStep → (List PatternStep → Result) → Result → Type 0
  Stops pattern plain limited =
      (part rest : List PatternStep) × (part ++ rest ≡ pattern)
      × (limited ≡ plain part)
      × Ends limited (plain pattern)
      × Shortest plain part

  one_step-Shortest :
      (plain : List PatternStep → Result) (step : PatternStep) → Shortest plain (step ∷ [])
  one_step-Shortest plain step first [] next others seen retained same run = cc
  one_step-Shortest plain step first (_ ∷ _) next others seen retained same run = cc

  abbrev plain_from : List String → List String → List ℕ → List PatternStep → Result
  plain_from frontier visited rows steps = traverse_steps es none steps frontier visited rows

  next-Shortest :
      (step : PatternStep) (part : List PatternStep) (frontier visited : List String)
      (rows : List ℕ) (found : Found) (y : String) (ys : List String)
      → expand_frontier_csr es frontier step.edge_type step.direction ≡ ok found
      → found.next ≡ y ∷ ys
      → leb limit (length (set_extend visited found.next)) ≡ false
      → Shortest
          (plain_from found.next (set_extend visited found.next) (extend_rows rows found.rows))
          part
      → Shortest (plain_from frontier visited rows) (step ∷ part)
  unfolding traverse_steps
  next-Shortest step part frontier visited rows found y ys run more below shortest first [] next
        others seen retained same plain =
      let first_is : step ≡ first = cc in
      let moved : traverse_steps es none (step ∷ []) frontier visited rows ≡ ok (seen, retained) =
        subst (λ s. traverse_steps es none (s ∷ []) frontier visited rows ≡ ok (seen, retained))
          (sym first_is) plain in
      let seen_is : set_extend visited found.next ≡ seen = ok_seen (
        sym (traverse_steps-more es none step [] frontier visited rows found y ys run more refl)
        ∙ moved) in
      subst (λ s. length s < limit) seen_is
        (leb-lt limit (length (set_extend visited found.next)) below)
  next-Shortest step part frontier visited rows found y ys run more below shortest first
        (second ∷ some_steps) next others seen retained same plain =
      let first_is : step ≡ first = cc in
      let part_is : part ≡ (second ∷ some_steps) ++ next ∷ others = cc in
      let moved : traverse_steps es none (step ∷ second ∷ some_steps) frontier visited rows
          ≡ ok (seen, retained) =
        subst
          (λ s.
            traverse_steps es none (s ∷ second ∷ some_steps) frontier visited rows
            ≡ ok (seen, retained))
          (sym first_is) plain in
      shortest second some_steps next others seen retained part_is (
        sym (
          traverse_steps-more es none step (second ∷ some_steps) frontier visited rows found y ys
            run more refl)
        ∙ moved)

  module _ (indexes : IsIndexed es) where
    traverse_steps-Stops :
        (steps : List PatternStep) (frontier visited : List String) (rows : List ℕ)
        → Stops steps
            (plain_from frontier visited rows)
            (traverse_steps es (some limit) steps frontier visited rows)
    unfolding traverse_steps
    traverse_steps-Stops [] frontier visited rows =
        ([], [], refl, refl, inl refl, λ first some_steps next others seen retained same run. cc)
    traverse_steps-Stops (step ∷ steps) frontier visited rows =
        let (found, run, _) =
          step_finds_neighbors es frontier step.edge_type step.direction indexes in
        elim (empty_or_not found.next) [
          | inl empty ↦
              let last = λ (stop_at : Option ℕ) (more : List PatternStep).
                traverse_steps-last es stop_at step more frontier visited rows found run empty in
              (
                step ∷ [],
                steps,
                refl,
                last (some limit) steps ∙ sym (last none []),
                inl (last (some limit) steps ∙ sym (last none steps)),
                one_step-Shortest (plain_from frontier visited rows) step,
              )
          | inr (y, ys, more) ↦
              elim (Bool-cases (leb limit (length (set_extend visited found.next)))) [
                | inl full ↦
                    let halt =
                      traverse_steps-stopped es limit step steps frontier visited rows found y ys
                        run more full in
                    (
                      step ∷ [],
                      steps,
                      refl,
                      halt
                          ∙ sym (
                              traverse_steps-more es none step [] frontier visited rows found y ys
                                run more refl),
                      inr (
                        set_extend visited found.next,
                        extend_rows rows found.rows,
                        halt,
                        leb-le limit (length (set_extend visited found.next)) full,
                      ),
                      one_step-Shortest (plain_from frontier visited rows) step,
                    )
                | inr below ↦
                    let seen = set_extend visited found.next in
                    let retained = extend_rows rows found.rows in
                    let (part, rest, whole, same, ends, shortest) =
                      traverse_steps-Stops steps found.next seen retained in
                    let limited =
                      traverse_steps-more es (some limit) step steps frontier visited rows found y
                        ys run more below in
                    let plain = λ (others : List PatternStep).
                      traverse_steps-more es none step others frontier visited rows found y ys run
                        more refl in
                    (
                      step ∷ part,
                      rest,
                      ap (λ others. step ∷ others) whole,
                      limited ∙ same ∙ sym (plain part),
                      ⊎_elim (λ all. inl (limited ∙ all ∙ sym (plain steps)))
                          (λ (s, r, halt, enough). inr (s, r, limited ∙ halt, enough)) ends,
                      next-Shortest step part frontier visited rows found y ys run more below
                          shortest,
                    )
              ]
        ]

-- When both indexes of the edge frame are built from its columns: the loop of `traverse_graph` with a
-- limit returns, and it visits exactly what edges of the columns lead to from the start along the first
-- steps of the pattern, up to some step. These are enough: either all that the whole pattern leads to
-- is visited, or as many ids as the limit are. And they are no more than needed: the traversal without
-- a limit of fewer of the steps, but one at least, visits fewer ids than the limit.
pub traversal_stops_at_limit :
    (es : IndexedEdges) (limit : ℕ) (pattern : List PatternStep) (start : List String)
    → IsIndexed es
    → (part rest : List PatternStep) × (part ++ rest ≡ pattern)
      × (seen : List String) × (retained : List ℕ) × (traverse_ids es (some limit) pattern start
          ≡ ok (seen, retained))
      × ((v : String)
          → (member v seen ≡ true) ↔ ((u : String) × (member u start ≡ true) × Trail es part u v))
      × (((v : String) (u : String)
            → member u start ≡ true
            → Trail es pattern u v
            → member v seen ≡ true)
          ⊎ (limit ≤ length seen))
      × ((first : PatternStep) (some_steps : List PatternStep) (next : PatternStep)
            (others : List PatternStep) (fewer : List String) (rows : List ℕ)
          → part ≡ (first ∷ some_steps) ++ next ∷ others
          → traverse_ids es none (first ∷ some_steps) start ≡ ok (fewer, rows)
          → length fewer < limit)
unfolding traverse_ids
traversal_stops_at_limit es limit pattern start indexes =
    let frontier = set_extend [] start in
    let (part, rest, whole, same, ends, shortest) =
      traverse_steps-Stops es limit indexes pattern frontier frontier [] in
    let (seen, retained, run, visits) = traversal_visits_trails es part start indexes in
    let (all_seen, _, all_run, all_visits) = traversal_visits_trails es pattern start indexes in
    let limited : traverse_ids es (some limit) pattern start ≡ ok (seen, retained) = same ∙ run in
    (
      part,
      rest,
      whole,
      seen,
      retained,
      limited,
      visits,
      ⊎_elim
          (λ all.
            let once = sym limited ∙ all ∙ all_run in
            let seen_is : seen ≡ all_seen = ok_seen once in
            inl (λ v u listed trail.
              subst (λ s. member v s ≡ true) (sym seen_is) ((all_visits v).1 (u, listed, trail))))
          (λ (s, r, halt, enough).
            let once = sym halt ∙ limited in
            let seen_is : s ≡ seen = ok_seen once in
            inr (subst (λ ids. limit ≤ length ids) seen_is enough))
          ends,
      shortest,
    )
