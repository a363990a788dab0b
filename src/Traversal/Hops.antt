-- ===== src/Traversal/Hops.antt =====
-- crates/lynxes-lazy/src/query/executor/traversal.rs, `expand_graph_raw`: what its rounds visit.
use lynxes_mojo.Common.{
  WithinHops, WithinHops-stable, WithinHops-more, ℕ, zero, suc, ◌+◌, ◌≡◌, ◌↔◌, ◌⊎◌, ◌∙◌, sym, refl,
  ap, subst, String, Bool, Option, some, true, List, [], ◌∷◌, inl, inr, ⊎_elim, arith, List-cases,
  set_extend, member, member-set_extend, set_extend-adds, member_split, member_head, member_tail,
  Grows,
}
use lynxes_mojo.Direction.{Direction}
use lynxes_mojo.Outcome.{Outcome, ok}
use lynxes_mojo.Plan.Expressions.{EdgeTypeSpec, Expr}
use lynxes_mojo.Mutable.{get_id}
use lynxes_mojo.Executor.Values.{Floats}
use lynxes_mojo.Traversal.{IndexedEdges, build_edge_node_ids, entries_of, reached_limit}
use lynxes_mojo.Traversal.Frontier.{AnyEntry}
use lynxes_mojo.Traversal.Expand.{
  NodeRows, Expanded, Flow, going, stopped, expand_current, expand_rounds, expand_graph_raw,
}
use lynxes_mojo.Traversal.Admitting.{FlowOk}
use lynxes_mojo.Traversal.Candidates.{LeadsTo, LeadsFrom, IsReadable}
use lynxes_mojo.Traversal.Expanding.{expand_current-FlowOk}

module _ (fl : Floats) (es : IndexedEdges) (dir_col : List ℕ) (nodes : NodeRows)
    (names : List String) (spec : EdgeTypeSpec) (direction : Direction) (pre_filter : Option Expr)
    (stop_at : Option ℕ) (passes : String → Bool) where
  abbrev Leads : String → ℕ × ℕ → Type 0
  Leads = LeadsTo fl es dir_col nodes names spec direction pre_filter stop_at passes

  abbrev From : List String → String → Type 0
  From = LeadsFrom fl es dir_col nodes names spec direction pre_filter stop_at passes

  -- The node `u` has edges, and one of its entries leads to `v`.
  abbrev pub Arc : String → String → Type 0
  Arc u v =
      (idx : ℕ) × (get_id u es.node_index ≡ some idx)
      × AnyEntry (Leads v) (entries_of es direction idx)

  From_lem : (ids : List String) (u v : String) → member u ids ≡ true → Arc u v → From ids v
  unfolding member
  From_lem [] u v h arc = absurd cc
  From_lem (id ∷ ids) u v h arc =
      ⊎_elim (λ same. inl (subst (λ w. Arc w v) (sym same) arc))
        (λ later. inr (From_lem ids u v later arc)) (member_split u id ids h)

  start_of :
      (ids : List String) (v : String) → From ids v → (u : String) × (member u ids ≡ true) × Arc u v
  start_of [] v h = absurd h
  start_of (id ∷ ids) v (inl arc) = (id, member_head id ids, arc)
  start_of (id ∷ ids) v (inr later) =
      let (u, h, arc) = start_of ids v later in (u, member_tail u id ids h, arc)

  module _ (seeds : List String) where
    abbrev pub Within : ℕ → String → Type 0
    Within = WithinHops Arc seeds

    -- Only what is within the hops is visited, the seeds are, and all of it is unless the limit is
    -- reached.
    abbrev pub Covers : ℕ → Expanded → Type 0
    Covers n y =
        ((v : String) → member v y.visited ≡ true → Within n v)
        × ((v : String) → member v seeds ≡ true → member v y.visited ≡ true)
        × (((v : String) → Within n v → member v y.visited ≡ true)
            ⊎ (reached_limit stop_at y.visited ≡ true))

    record Invariant (n : ℕ) (current : List String) (x : Expanded) : Type 0 where
      within : (v : String) → (member v x.visited ≡ true) ↔ Within n v
      waits : (v : String) → member v current ≡ true → member v x.visited ≡ true
      closed :
          (u v : String)
          → member u x.visited ≡ true
          → Arc u v
          → (member u current ≡ true) ⊎ (member v x.visited ≡ true)

    seeds_visited :
        (n : ℕ) (current : List String) (x : Expanded)
        → Invariant n current x
        → (v : String) → member v seeds ≡ true
        → member v x.visited ≡ true
    seeds_visited n current x inv v h =
        let same : n + 0 ≡ n = omega arith in
        (inv.within v).1 (subst (λ k. Within k v) same (WithinHops-more Arc seeds 0 n v h))

    module _ (n : ℕ) (current : List String) (x y : Expanded) (inv : Invariant n current x)
        (grown : Grows (From current) x.visited [] y.visited y.next) where
      round-Within : (v : String) → (member v y.visited ≡ true) ↔ Within (suc n) v
      round-Within v = (
        λ h.
            ⊎_elim (λ old. inl ((inv.within v).0 old))
              (λ found.
                let (u, starts, arc) = start_of current v found in
                inr (u, (inv.within u).0 (inv.waits u starts), arc))
              ((grown.visits v).0 h),
        ⊎_elim (λ old. (grown.visits v).1 (inl ((inv.within v).1 old)))
            (λ (u, near, arc).
              ⊎_elim (λ starts. (grown.visits v).1 (inr (From_lem current u v starts arc)))
                (λ old. (grown.visits v).1 (inl old)) (inv.closed u v ((inv.within u).1 near) arc)),
      )

      round-Invariant : Invariant (suc n) y.next y
      unfolding member
      round-Invariant = record {
        within = round-Within;
        waits = λ v h. ⊎_elim (λ none_before. absurd cc) (λ seen. seen) (grown.next_visited v h);
        closed = λ u v h arc.
            ⊎_elim (λ old. inr ((round-Within v).1 (inr (u, (inv.within u).0 old, arc)))) inl
              (grown.fresh u h);
      }

      nothing_new : y.next ≡ [] → (v : String) → Within (suc n) v → Within n v
      unfolding member
      nothing_new empty v h =
          ⊎_elim (λ old. (inv.within v).0 old)
            (λ next.
              absurd
                let no : member v [] ≡ true = subst (λ ids. member v ids ≡ true) empty next in cc)
            (grown.fresh v ((round-Within v).1 h))

      -- The loop stops early only where nothing more is to be found.
      finished-Covers : (m : ℕ) → y.next ≡ [] → Covers (suc m + n) y
      finished-Covers m empty =
          let same : m + suc n ≡ suc m + n = omega arith in
          (
            λ v h.
                subst (λ k. Within k v) same
                  (WithinHops-more Arc seeds (suc n) m v ((round-Within v).0 h)),
            λ v h. (grown.visits v).1 (inl (seeds_visited n current x inv v h)),
            inl (λ v h.
                (round-Within v).1
                  (inl (WithinHops-stable Arc seeds n (suc m) (nothing_new empty) v h))),
          )

    stopped-Covers :
        (n m : ℕ) (current : List String) (x y : Expanded)
        → Invariant n current x
        → FlowOk stop_at (From current) (record x { next = [] }) (stopped y)
        → Covers (suc m + n) y
    stopped-Covers n m current x y inv (sound, keeps, full) =
        let same : m + suc n ≡ suc m + n = omega arith in
        (
          λ v h.
              subst (λ k. Within k v) same
                (WithinHops-more Arc seeds (suc n) m v (
                  ⊎_elim (λ old. inl ((inv.within v).0 old))
                    (λ found.
                      let (u, starts, arc) = start_of current v found in
                      inr (u, (inv.within u).0 (inv.waits u starts), arc))
                    (sound v h))),
          λ v h. keeps v (seeds_visited n current x inv v h),
          inr full,
        )

    module _
        (readable : IsReadable fl es dir_col nodes names spec direction pre_filter stop_at
          passes) where
      abbrev rounds : ℕ → List String → Expanded → Outcome Expanded
      rounds = expand_rounds fl es dir_col nodes names spec direction pre_filter stop_at

      abbrev RoundsOk : ℕ → ℕ → List String → Expanded → Type 0
      RoundsOk hops n current x =
          (y : Expanded) × (rounds hops current x ≡ ok y) × Covers (hops + n) y

      next_round :
          (hops n : ℕ) (current : List String) (x : Expanded) (flow : Flow)
          → Invariant n current x
          → expand_current fl es dir_col nodes names spec direction pre_filter stop_at current
              (record x { next = [] })
            ≡ ok flow
          → FlowOk stop_at (From current) (record x { next = [] }) flow
          → ((next : List String) (y : Expanded)
              → Invariant (suc n) next y
              → RoundsOk hops (suc n) next y)
          → RoundsOk (suc hops) n current x
      unfolding expand_rounds
      next_round hops n current x (stopped y) inv run flows later =
          (y, rw (expand_rounds, run) refl, stopped-Covers n hops current x y inv flows)
      next_round hops n current x (going y) inv run grown later = elim (List-cases y.next) [
        | inl empty ↦ (
          y,
          rw (expand_rounds, run)
              (ap
                (λ (ids : List String). elim ids as (λ _. Outcome Expanded) [
                  | [] ↦ ok y
                  | id' ∷ ids' ↦ rounds hops (id' ∷ ids') y
                ])
                empty),
          finished-Covers n current x y inv grown hops empty,
        )
        | inr (id, ids, more) ↦
            let next : Invariant (suc n) (id ∷ ids) y =
              subst (λ f. Invariant (suc n) f y) more (round-Invariant n current x y inv grown) in
            let (z, rest, covers) = later (id ∷ ids) y next in
            let same : hops + suc n ≡ suc hops + n = omega arith in
            (
              z,
              rw (expand_rounds, run)
                  (ap
                      (λ (ids : List String). elim ids as (λ _. Outcome Expanded) [
                        | [] ↦ ok y
                        | id' ∷ ids' ↦ rounds hops (id' ∷ ids') y
                      ])
                      more
                    ∙ rest),
              subst (λ k. Covers k z) same covers,
            )
      ]

      expand_rounds-Covers :
          (hops n : ℕ) (current : List String) (x : Expanded)
          → Invariant n current x
          → RoundsOk hops n current x
      unfolding expand_rounds
      expand_rounds-Covers zero n current x inv =
          let same : n ≡ 0 + n = omega arith in
          (
            x,
            refl,
            subst (λ k. Covers k x) same
                (λ v. (inv.within v).0, seeds_visited n current x inv, inl (λ v. (inv.within v).1)),
          )
      expand_rounds-Covers (suc hops) n current x inv =
          let (flow, run, flows) =
            expand_current-FlowOk fl es dir_col nodes names spec direction pre_filter stop_at passes
              readable current (record x { next = [] }) in
          next_round hops n current x flow inv run flows
            (λ next y. expand_rounds-Covers hops (suc n) next y)

-- Where every entry has a type and a code and the filter decides every id, `expand_graph_raw` returns.
-- It visits the frontier and only what is within its hops of the frontier, along edges of a wanted type and direction to
-- nodes that pass the filter, and it visits all of that unless the limit is reached.
pub expand_graph_raw-Covers :
    (fl : Floats) (es : IndexedEdges) (dir_col : List ℕ) (nodes : NodeRows) (names : List String)
    (spec : EdgeTypeSpec) (direction : Direction) (pre_filter : Option Expr) (stop_at : Option ℕ)
    (passes : String → Bool) (hops : ℕ) (frontier_ids : List String)
    → build_edge_node_ids es ≡ ok names
    → IsReadable fl es dir_col nodes names spec direction pre_filter stop_at passes
    → (visited : List String) × (retained_rows : List ℕ) × (expand_graph_raw fl es dir_col nodes
          spec direction pre_filter stop_at hops frontier_ids
        ≡ ok (visited, retained_rows))
      × ((v : String)
          → member v visited ≡ true
          → Within fl es dir_col nodes names spec direction pre_filter stop_at passes frontier_ids
              hops v)
      × ((v : String) → member v frontier_ids ≡ true → member v visited ≡ true)
      × (((v : String)
            → Within fl es dir_col nodes names spec direction pre_filter stop_at passes frontier_ids
                hops v
            → member v visited ≡ true)
          ⊎ (reached_limit stop_at visited ≡ true))
unfolding expand_graph_raw member
expand_graph_raw-Covers fl es dir_col nodes names spec direction pre_filter stop_at passes hops
      frontier_ids built readable =
    let current = set_extend [] frontier_ids in
    let (y, run, (sound, kept, complete)) =
      expand_rounds-Covers fl es dir_col nodes names spec direction pre_filter stop_at passes
        frontier_ids readable hops 0 current
        (record { visited = current; next = []; retained_rows = [] })
        (record {
          within = λ u. (
            λ h.
                ⊎_elim (λ never. absurd cc) (λ listed. listed)
                  (member-set_extend u [] frontier_ids h),
            set_extend-adds u [] frontier_ids,
          );
          waits = λ u h. h;
          closed = λ u w h arc. inl h;
        }) in
    let same : hops + 0 ≡ hops = omega arith in
    (
      y.visited,
      y.retained_rows,
      rw built (rw run refl),
      λ v h.
          subst
            (λ k.
              Within fl es dir_col nodes names spec direction pre_filter stop_at passes frontier_ids
                k v)
            same (sound v h),
      kept,
      ⊎_elim
          (λ all. inl (λ v h. all v (
            subst
              (λ k.
                Within fl es dir_col nodes names spec direction pre_filter stop_at passes
                  frontier_ids k v)
              (sym same) h)))
          inr complete,
    )
