-- ===== src/Components/Rows.antt =====
-- crates/lynxes-core/src/algo/connected_components.rs: the outer loop labels every row.
use lynxes_mojo.Common.{
  ℕ, zero, suc, ◌+◌, ◌<◌, ◌≤◌, ◌^◌, ◌≡◌, ◌⊎◌, refl, ap, ◌∙◌, Option, none, some, List, [], ◌∷◌,
  ◌++◌, length, get_elem?, set, arith, inl, inr, ⊎_elim, Option-cases, length-append, subst,
}
use lynxes_mojo.Outcome.{ok}
use lynxes_mojo.Csr.{wrap}
use lynxes_mojo.Traversal.{IndexedEdges}
use lynxes_mojo.Components.{Labelling, drain_queue, label_rows}
use lynxes_mojo.Components.Labels.{
  label, unlabelled, unlabelled-set, unlabelled-le, get_elem-label, Visited, marked, marked-Visited,
  label-marked_self,
}
use lynxes_mojo.Components.Queue.{Linked, IsUndirected, Invariant, drain_queue-Invariant}

get_elem-append_left :
    (xs ys : List ℕ) (k r : ℕ) → get_elem? xs k ≡ some r → get_elem? (xs ++ ys) k ≡ some r
get_elem-append_left [] ys k r h = absurd cc
get_elem-append_left (x ∷ xs) ys zero r h = h
get_elem-append_left (x ∷ xs) ys (suc k) r h = get_elem-append_left xs ys k r h

get_elem-append_last : (xs : List ℕ) (y : ℕ) → get_elem? (xs ++ y ∷ []) (length xs) ≡ some y
get_elem-append_last [] y = refl
get_elem-append_last (x ∷ xs) y = get_elem-append_last xs y

get_elem-append_split :
    (xs : List ℕ) (y k r : ℕ)
    → get_elem? (xs ++ y ∷ []) k ≡ some r
    → (get_elem? xs k ≡ some r) ⊎ ((k ≡ length xs) × (r ≡ y))
get_elem-append_split [] y zero r h = inr (refl, cc)
get_elem-append_split [] y (suc k) r h = absurd cc
get_elem-append_split (x ∷ xs) y zero r h = inl h
get_elem-append_split (x ∷ xs) y (suc k) r h =
    ⊎_elim inl (λ (last, same). inr (ap suc last, same)) (get_elem-append_split xs y k r h)

module _ {es : IndexedEdges} {links slots : List (Option ℕ)} {n : ℕ}
    (g : IsUndirected es links slots n) where
  -- The rows below `start` are labelled, each start by its number.
  pub record Covered (start : ℕ) (starts : List ℕ) (ids : List (Option ℕ)) : Type 0 where
    pub inv : Invariant g (length starts) starts (record { ids = ids; queue = [] })
    pub started : (k r : ℕ) → get_elem? starts k ≡ some r → label ids r ≡ some k
    pub below : (u : ℕ) → u < start → (k : ℕ) × (label ids u ≡ some k)
    pub few : length starts ≤ start

  module _ (start : ℕ) (starts : List ℕ) (ids : List (Option ℕ)) (c : Covered start starts ids)
      (inside : start < length ids) (absent : label ids start ≡ none) where
    abbrev opened : Labelling
    opened = marked (length starts) start (record { ids = ids; queue = [] })

    opened-Visited : Visited (length starts) (start ∷ []) (record { ids = ids; queue = [] }) opened
    opened-Visited =
        marked-Visited (length starts) start (record { ids = ids; queue = [] }) inside absent

    opened_self : (u : ℕ) → u ≡ start → label opened.ids u ≡ some (length starts)
    opened_self = label-marked_self (length starts) start (record { ids = ids; queue = [] }) inside

    opened-Invariant : Invariant g (length starts) (starts ++ start ∷ []) opened
    opened-Invariant = record {
      long = opened-Visited.as_long ∙ c.inv.long;
      rooted = λ u k h.
          ⊎_elim
            (λ old.
              let (r, root, linked) = c.inv.rooted u k old in
              (r, get_elem-append_left starts (start ∷ []) k r root, linked))
            (λ (same, listed, _).
              let eq : u ≡ start = ⊎_elim (λ e. e) (λ nowhere. absurd nowhere) listed in
              (start, rw same (get_elem-append_last starts start), rw eq (Linked.here)))
            (opened-Visited.fresh u k h);
      closed = λ u k v h adj.
          ⊎_elim
            (λ old.
              ⊎_elim (λ stays. inl (opened-Visited.keeps v k stays)) (λ nowhere. absurd nowhere)
                (c.inv.closed u k v old adj))
            (λ (_, _, waiting). inr waiting) (opened-Visited.fresh u k h);
      waits = λ u h. opened_self u (⊎_elim (λ e. e) (λ nowhere. absurd nowhere) h);
    }

    opened_enough : length opened.queue + unlabelled opened.ids < suc (length ids)
    opened_enough =
        omega (arith, unlabelled-set ids start (length starts) inside absent, unlabelled-le ids)

  -- An empty queue waits for nothing.
  Invariant-idle :
      (cid cid' : ℕ) (starts : List ℕ) (ids : List (Option ℕ))
      → Invariant g cid starts (record { ids = ids; queue = [] })
      → Invariant g cid' starts (record { ids = ids; queue = [] })
  Invariant-idle cid cid' starts ids inv = record {
    long = inv.long;
    rooted = inv.rooted;
    closed = inv.closed;
    waits = λ u h. absurd h;
  }

  below_suc :
      (start : ℕ) (P : ℕ → Type 0)
      → ((u : ℕ) → u < start → P u)
      → P start
      → (u : ℕ) → u < suc start
      → P u
  below_suc zero P h p zero inside = p
  below_suc zero P h p (suc u) inside = absurd (omega (arith, inside))
  below_suc (suc start) P h p zero inside = h zero (omega arith)
  below_suc (suc start) P h p (suc u) inside =
      below_suc start (λ v. P (suc v)) (λ v lt. h (suc v) (omega (arith, lt))) p u
        (omega (arith, inside))

  module _ (start : ℕ) (starts : List ℕ) (ids ids' : List (Option ℕ)) (c : Covered start starts ids)
      (inside : start < length ids) (absent : label ids start ≡ none)
      (inv : Invariant g (length starts) (starts ++ start ∷ []) (record { ids = ids'; queue = [] }))
      (keeps : (u k : ℕ)
        → label (set ids start (some (length starts))) u ≡ some k
        → label ids' u ≡ some k) where
    still : (u k : ℕ) → label ids u ≡ some k → label ids' u ≡ some k
    still u k h = keeps u k ((opened-Visited start starts ids c inside absent).keeps u k h)

    start_label : label ids' start ≡ some (length starts)
    start_label =
        keeps start (length starts) (opened_self start starts ids c inside absent start refl)

    closed-Covered : Covered (suc start) (starts ++ start ∷ []) ids'
    closed-Covered = record {
      inv =
          Invariant-idle (length starts) (length (starts ++ start ∷ [])) (starts ++ start ∷ []) ids'
            inv;
      started = λ k r h.
          ⊎_elim (λ old. still r k (c.started k r old))
            (λ (last, same). rw (last, same) start_label)
            (get_elem-append_split starts start k r h);
      below =
          below_suc start (λ u. (k : ℕ) × (label ids' u ≡ some k))
            (λ u lt. let (k, has) = c.below u lt in (k, still u k has))
            (length starts, start_label);
      few = omega (arith, length-append starts (start ∷ []), c.few);
    }

  one_more :
      (starts : List ℕ) (start : ℕ)
      → length starts + 1 < 2 ^ 32
      → wrap (length starts + 1) ≡ length (starts ++ start ∷ [])
  one_more starts start narrow = omega (arith, length-append starts (start ∷ []), narrow)

  label_rows-new :
      (count start next : ℕ) (starts : List ℕ) (ids ids' : List (Option ℕ))
      → get_elem? ids start ≡ some none
      → drain_queue es links slots
          (suc (length ids))
          (length starts)
          (record { ids = set ids start (some (length starts)); queue = start ∷ [] })
        ≡ ok ids'
      → wrap (length starts + 1) ≡ next
      → label_rows es links slots (suc count) start (length starts) ids
        ≡ label_rows es links slots count (suc start) next ids'
  unfolding label_rows
  label_rows-new count start next starts ids ids' absent ran number =
      rw (label_rows, absent, ran, number) refl

  label_rows-old :
      (count start next k : ℕ) (ids : List (Option ℕ))
      → get_elem? ids start ≡ some (some k)
      → label_rows es links slots (suc count) start next ids
        ≡ label_rows es links slots count (suc start) next ids
  unfolding label_rows
  label_rows-old count start next k ids has = rw (label_rows, has) refl

  pub label_rows-Covered :
      (count start : ℕ) (starts : List ℕ) (ids : List (Option ℕ))
      → Covered start starts ids
      → start + count ≡ n
      → n < 2 ^ 32
      → (ids' : List (Option ℕ)) × (starts' : List ℕ) × (label_rows es links slots count start
            (length starts)
            ids
          ≡ ok (ids', length starts'))
        × Covered n starts' ids'
  unfolding label_rows
  label_rows-Covered zero start starts ids c total narrow =
      let eq : start ≡ n = omega (arith, total) in
      (ids, starts, refl, subst (λ s. Covered s starts ids) eq c)
  label_rows-Covered (suc count) start starts ids c total narrow =
      let inside : start < length ids = omega (arith, total, c.inv.long) in
      elim (Option-cases (label ids start)) [
        | inr (k, has) ↦
            let next : Covered (suc start) starts ids = record {
              inv = c.inv;
              started = c.started;
              below = below_suc start (λ u. (k : ℕ) × (label ids u ≡ some k)) c.below (k, has);
              few = omega (arith, c.few);
            } in
            let (ids', starts', run, covered) =
              label_rows-Covered count (suc start) starts ids next (omega (arith, total)) narrow in
            (
              ids',
              starts',
              label_rows-old count start (length starts) k ids
                    (get_elem-label ids start inside ∙ ap some has)
                  ∙ run,
              covered,
            )
        | inl absent ↦
            let (ids₂, ran, inv, keeps) =
              drain_queue-Invariant g (suc (length ids)) (length starts) (starts ++ start ∷ [])
                (set ids start (some (length starts))) (start ∷ [])
                (opened-Invariant start starts ids c inside absent)
                (opened_enough start starts ids c inside absent) in
            let next = closed-Covered start starts ids ids₂ c inside absent inv keeps in
            let number = one_more starts start (omega (arith, c.few, total, narrow)) in
            let (ids', starts', run, covered) =
              label_rows-Covered count (suc start) (starts ++ start ∷ []) ids₂ next
                (omega (arith, total)) narrow in
            (
              ids',
              starts',
              label_rows-new count start (length (starts ++ start ∷ [])) starts ids ids₂
                    (get_elem-label ids start inside ∙ ap some absent) ran number
                  ∙ run,
              covered,
            )
      ]
