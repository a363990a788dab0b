-- ===== src/Traversal/Frontier.antt =====
-- crates/lynxes-lazy/src/query/executor/traversal.rs, `expand_frontier_csr`: the ids that one step
-- finds.
use lynxes_mojo.Common.{
  ℕ, zero, suc, ◌<◌, ◌≡◌, ◌↔◌, ◌⊎◌, refl, ap, subst, String, true, Option, none, some, List, [],
  ◌∷◌, length, get_elem?, arith, Bool-cases, inl, inr, ⊎_elim, member, set_insert,
  member-set_insert, set_insert-keeps, set_insert-adds, member_head, member_tail, member_split, All,
}
use lynxes_mojo.Direction.{Direction}
use lynxes_mojo.Outcome.{ok}
use lynxes_mojo.Plan.Expressions.{EdgeTypeSpec}
use lynxes_mojo.Mutable.{get_id}
use lynxes_mojo.Traversal.{
  IndexedEdges, Found, matches_edge_type, insert_candidate, follow, entries_of, expand_ids,
  expand_frontier_csr, build_edge_node_ids,
}

option_cases : {A : Type 0} (o : Option A) → (o ≡ none) ⊎ ((x : A) × (o ≡ some x))
option_cases none = inl refl
option_cases (some x) = inr (x, refl)

pub get_elem-inside :
    (xs : List String) (i : ℕ) → i < length xs → (x : String) × (get_elem? xs i ≡ some x)
get_elem-inside [] i inside = absurd (omega (arith, inside))
get_elem-inside (x ∷ xs) zero inside = (x, refl)
get_elem-inside (x ∷ xs) (suc i) inside = get_elem-inside xs i (omega (arith, inside))

-- Some entry satisfies P.
abbrev pub AnyEntry : (ℕ × ℕ → Type 0) → List (ℕ × ℕ) → Type 0
AnyEntry P [] = ⊥
AnyEntry P (entry ∷ entries) = P entry ⊎ AnyEntry P entries

abbrev In : String → List String → Type 0
In v ids = member v ids ≡ true

-- Every entry names a row that has a type.
abbrev pub TypedRows : IndexedEdges → List (ℕ × ℕ) → Type 0
TypedRows es = All (λ entry. entry.1 < length es.types)

module _ (es : IndexedEdges) (names : List String) (spec : EdgeTypeSpec) where
  -- The entry's row is of a wanted type, and its node is `v`.
  abbrev pub Leads : String → ℕ × ℕ → Type 0
  Leads v entry =
      (edge_type : String) × (get_elem? es.types entry.1 ≡ some edge_type)
      × (matches_edge_type edge_type spec ≡ true)
      × (get_elem? names entry.0 ≡ some v)

  -- One edge in `direction` takes `u` to `v`.
  abbrev pub Edge : Direction → String → String → Type 0
  Edge direction u v =
      (idx : ℕ) × (get_id u es.node_index ≡ some idx)
      × AnyEntry (Leads v) (entries_of es direction idx)

  insert_candidate-next :
      (entry : ℕ × ℕ) (found : Found) (v : String)
      → In v (insert_candidate names entry found).next
        ↔ ((get_elem? names entry.0 ≡ some v) ⊎ In v found.next)
  unfolding insert_candidate
  insert_candidate-next (n, r) found v = elim (option_cases (get_elem? names n)) [
    | inl absent ↦
        rw (insert_candidate, absent)
          (inr, λ h. ⊎_elim (λ (present : none ≡ some v). absurd cc) (λ old. old) h)
    | inr (candidate, present) ↦
        rw (insert_candidate, present)
          (
            λ h.
                ⊎_elim (λ same. inl (ap some same)) inr
                  (member-set_insert v candidate found.next h),
            λ h.
                ⊎_elim
                  (λ (named : some candidate ≡ some v).
                    subst (λ w. In w (set_insert candidate found.next))
                      (let e : candidate ≡ v = cc in e) (set_insert-adds candidate found.next))
                  (set_insert-keeps v candidate found.next) h,
          )
  ]

  abbrev Follows : List (ℕ × ℕ) → Found → Found → Type 0
  Follows entries found f =
      (v : String) → In v f.next ↔ (AnyEntry (Leads v) entries ⊎ In v found.next)

  follow-next :
      (entries : List (ℕ × ℕ)) (found : Found)
      → TypedRows es entries
      → (f : Found) × (follow es names spec entries found ≡ ok f) × Follows entries found f
  unfolding follow
  follow-next [] found typed =
      (found, refl, λ v. (inr, λ h. ⊎_elim (λ none_left. absurd none_left) (λ old. old) h))
  follow-next (entry ∷ entries) found typed =
      let (edge_type, got) = get_elem-inside es.types entry.1 typed.0 in
      elim (Bool-cases (matches_edge_type edge_type spec)) [
        | inl wanted ↦
            let (f, run, finds) =
              follow-next entries (insert_candidate names entry found) typed.1 in
            (
              f,
              rw (got, wanted) run,
              λ v. (
                λ h.
                    ⊎_elim (λ later. inl (inr later))
                      (λ put.
                        ⊎_elim (λ named. inl (inl (edge_type, got, wanted, named))) inr
                          ((insert_candidate-next entry found v).0 put))
                      ((finds v).0 h),
                λ h.
                    ⊎_elim
                      (λ some_entry.
                        ⊎_elim
                          (λ here.
                            (finds v).1
                              (inr ((insert_candidate-next entry found v).1 (inl here.3))))
                          (λ later. (finds v).1 (inl later)) some_entry)
                      (λ old. (finds v).1 (inr ((insert_candidate-next entry found v).1 (inr old))))
                      h,
              ),
            )
        | inr unwanted ↦
            let (f, run, finds) = follow-next entries found typed.1 in
            (
              f,
              rw (got, unwanted) run,
              λ v. (
                λ h. ⊎_elim (λ later. inl (inr later)) inr ((finds v).0 h),
                λ h.
                    ⊎_elim
                      (λ some_entry.
                        ⊎_elim (λ here. absurd let (other, got', wanted, _) = here in cc)
                          (λ later. (finds v).1 (inl later)) some_entry)
                      (λ old. (finds v).1 (inr old)) h,
              ),
            )
      ]

  abbrev Expands : Direction → List String → Found → Found → Type 0
  Expands direction ids found f =
      (v : String)
      → In v f.next ↔ (((u : String) × In u ids × Edge direction u v) ⊎ In v found.next)

  expand_ids-next :
      (direction : Direction) (ids : List String) (found : Found)
      → ((idx : ℕ) → TypedRows es (entries_of es direction idx))
      → (f : Found) × (expand_ids es names spec direction ids found ≡ ok f)
        × Expands direction ids found f
  unfolding expand_ids member
  expand_ids-next direction [] found typed = (
    found,
    refl,
    λ v. (inr, λ h. ⊎_elim (λ nobody. absurd let m = nobody.1 in cc) (λ old. old) h),
  )
  expand_ids-next direction (id ∷ ids) found typed = elim (option_cases (get_id id es.node_index)) [
    | inl absent ↦
        let (f, run, finds) = expand_ids-next direction ids found typed in
        (
          f,
          rw (expand_ids, absent) run,
          λ v. (
            λ h.
                ⊎_elim (λ (u, listed, edge). inl (u, member_tail u id ids listed, edge)) inr
                  ((finds v).0 h),
            λ h.
                ⊎_elim
                  (λ (u, listed, (idx, known, reads)).
                    ⊎_elim (λ (same : id ≡ u). absurd let gone = rw same at absent in cc)
                      (λ later. (finds v).1 (inl (u, later, (idx, known, reads))))
                      (member_split u id ids listed))
                  (λ old. (finds v).1 (inr old)) h,
          ),
        )
    | inr (local_idx, present) ↦
        let (more, run, follows) =
          follow-next (entries_of es direction local_idx) found (typed local_idx) in
        let (f, run', finds) = expand_ids-next direction ids more typed in
        (
          f,
          rw (expand_ids, present, run) run',
          λ v. (
            λ h.
                ⊎_elim (λ (u, listed, edge). inl (u, member_tail u id ids listed, edge))
                  (λ put.
                    ⊎_elim (λ reads. inl (id, member_head id ids, (local_idx, present, reads))) inr
                      ((follows v).0 put))
                  ((finds v).0 h),
            λ h.
                ⊎_elim
                  (λ (u, listed, (idx, known, reads)).
                    ⊎_elim
                      (λ (same : id ≡ u).
                        let known' : get_id id es.node_index ≡ some idx = rw same known in
                        let one : idx ≡ local_idx = cc in
                        let reads' = rw one at reads in
                        (finds v).1 (inr ((follows v).1 (inl reads'))))
                      (λ later. (finds v).1 (inl (u, later, (idx, known, reads))))
                      (member_split u id ids listed))
                  (λ old. (finds v).1 (inr ((follows v).1 (inr old)))) h,
          ),
        )
  ]

-- The ids of the edges' nodes are built and every row of the two indexes has a type: then
-- `expand_frontier_csr` returns, and it has found exactly the ids that one edge of a wanted type in
-- the wanted direction reaches from an id of the frontier.
pub expand_frontier_finds :
    (es : IndexedEdges) (names frontier : List String) (spec : EdgeTypeSpec) (direction : Direction)
    → build_edge_node_ids es ≡ ok names
    → ((idx : ℕ) → TypedRows es (entries_of es direction idx))
    → (f : Found) × (expand_frontier_csr es frontier spec direction ≡ ok f)
      × ((v : String)
          → (member v f.next ≡ true)
            ↔ ((u : String) × (member u frontier ≡ true) × Edge es names spec direction u v))
unfolding expand_frontier_csr member
expand_frontier_finds es names frontier spec direction built typed =
    let (f, run, finds) =
      expand_ids-next es names spec direction frontier (record { next = []; rows = [] }) typed in
    (
      f,
      rw built run,
      λ v. (
        λ h. ⊎_elim (λ reached. reached) (λ none_yet. absurd cc) ((finds v).0 h),
        λ reached. (finds v).1 (inl reached),
      ),
    )
