-- ===== src/Traversal/Expanding.antt =====
-- crates/lynxes-lazy/src/query/executor/traversal.rs, `expand_graph_raw`: what a round visits.
use lynxes_mojo.Common.{
  ℕ, ◌<◌, ◌≡◌, ◌↔◌, ◌⊎◌, refl, ap, sym, ◌∙◌, subst, String, Bool, true, false, Option, some, List,
  [], ◌∷◌, length, Bool-cases, Option-cases, inl, inr, ⊎_elim, All, Grows-none,
}
use lynxes_mojo.Direction.{Direction}
use lynxes_mojo.Outcome.{Outcome, ok}
use lynxes_mojo.Plan.Expressions.{EdgeTypeSpec, Expr}
use lynxes_mojo.Mutable.{get_id}
use lynxes_mojo.Executor.Values.{Floats}
use lynxes_mojo.Traversal.{IndexedEdges, entries_of, reached_limit}
use lynxes_mojo.Traversal.Frontier.{AnyEntry}
use lynxes_mojo.Traversal.Expand.{
  NodeRows, Expanded, Flow, going, stopped, admit_candidate, expand_entries, expand_current,
}
use lynxes_mojo.Traversal.Admitting.{
  FlowOk, admit_candidate-Grows, FlowOk-map, FlowOk-after, FlowOk-stop,
}
use lynxes_mojo.Traversal.Candidates.{IsCoded, LeadsTo, LeadsFrom, IsReadable, entry_candidate_lem}

module _ (fl : Floats) (es : IndexedEdges) (dir_col : List ℕ) (nodes : NodeRows)
    (names : List String) (spec : EdgeTypeSpec) (direction : Direction) (pre_filter : Option Expr)
    (stop_at : Option ℕ) (passes : String → Bool) where
  abbrev Leads : String → ℕ × ℕ → Type 0
  Leads = LeadsTo fl es dir_col nodes names spec direction pre_filter stop_at passes

  abbrev From : List String → String → Type 0
  From = LeadsFrom fl es dir_col nodes names spec direction pre_filter stop_at passes

  module _
      (readable : IsReadable fl es dir_col nodes names spec direction pre_filter stop_at
        passes) where
    -- The ids that the entries lead to.
    expand_entries-FlowOk :
        (entries : List (ℕ × ℕ)) (x : Expanded)
        → All (λ entry. entry.1 < length es.types) entries
        → All (λ entry. IsCoded dir_col entry.1) entries
        → (flow : Flow) × (expand_entries fl es dir_col nodes names spec direction pre_filter
              stop_at entries x
            ≡ ok flow)
          × FlowOk stop_at (λ v. AnyEntry (Leads v) entries) x flow
    unfolding expand_entries
    expand_entries-FlowOk [] x typed coded = (going x, refl, Grows-none x.visited x.next)
    expand_entries-FlowOk (entry ∷ entries) x typed coded =
        let (o, run, decides) =
          entry_candidate_lem fl es dir_col nodes names spec direction pre_filter stop_at passes
            readable entry typed.0 coded.0 in
        elim (Option-cases o) [
          | inl no_one ↦
              let (flow, rest, flows) = expand_entries-FlowOk entries x typed.1 coded.1 in
              (
                flow,
                rw (run, no_one) rest,
                FlowOk-map stop_at (λ v. AnyEntry (Leads v) entries)
                    (λ v. AnyEntry (Leads v) (entry ∷ entries)) x flow
                    (λ v. (
                      inr,
                      ⊎_elim (λ leads. absurd let named = (decides v).1 leads in cc)
                          (λ later. later),
                    ))
                    flows,
              )
          | inr (id, found) ↦
              let y = admit_candidate id entry.1 x in
              let grown = admit_candidate-Grows id entry.1 x in
              let iff : (v : String)
                  → ((id ≡ v) ⊎ AnyEntry (Leads v) entries) ↔ AnyEntry (Leads v) (entry ∷ entries) =
                λ v. (
                  ⊎_elim (λ same. inl ((decides v).0 (found ∙ ap some same))) inr,
                  ⊎_elim
                      (λ leads.
                        let both_ways : some id ≡ some v = sym found ∙ (decides v).1 leads in
                        let same : id ≡ v = cc in inl same)
                      inr,
                ) in
              elim (Bool-cases (reached_limit stop_at y.visited)) [
                | inl full ↦ (
                  stopped y,
                  rw (run, found)
                      (ap
                        (λ (b : Bool). elim b as (λ _. Outcome Flow) [
                          | true ↦ ok (stopped y)
                          | false ↦
                              expand_entries fl es dir_col nodes names spec direction pre_filter
                                stop_at entries y
                        ])
                        full),
                  FlowOk-map stop_at (λ v. (id ≡ v) ⊎ AnyEntry (Leads v) entries)
                      (λ v. AnyEntry (Leads v) (entry ∷ entries)) x (stopped y) iff
                      (FlowOk-stop stop_at (λ v. id ≡ v) (λ v. AnyEntry (Leads v) entries) x y grown
                        full),
                )
                | inr room ↦
                    let (flow, rest, flows) = expand_entries-FlowOk entries y typed.1 coded.1 in
                    (
                      flow,
                      rw (run, found)
                          (ap
                              (λ (b : Bool). elim b as (λ _. Outcome Flow) [
                                | true ↦ ok (stopped y)
                                | false ↦
                                    expand_entries fl es dir_col nodes names spec direction
                                      pre_filter stop_at entries y
                              ])
                              room
                            ∙ rest),
                      FlowOk-map stop_at (λ v. (id ≡ v) ⊎ AnyEntry (Leads v) entries)
                          (λ v. AnyEntry (Leads v) (entry ∷ entries)) x flow iff
                          (FlowOk-after stop_at (λ v. id ≡ v) (λ v. AnyEntry (Leads v) entries) x y
                            flow grown flows),
                    )
              ]
        ]

    abbrev pub CurrentOk : List String → Expanded → Type 0
    CurrentOk ids x =
        (flow : Flow) × (expand_current fl es dir_col nodes names spec direction pre_filter stop_at
            ids x
          ≡ ok flow)
        × FlowOk stop_at (From ids) x flow

    next_current :
        (id : String) (ids : List String) (x : Expanded) (idx : ℕ) (flow : Flow)
        → get_id id es.node_index ≡ some idx
        → expand_entries fl es dir_col nodes names spec direction pre_filter stop_at
            (entries_of es direction idx)
            x
          ≡ ok flow
        → FlowOk stop_at (λ v. AnyEntry (Leads v) (entries_of es direction idx)) x flow
        → ((v : String)
            → (AnyEntry (Leads v) (entries_of es direction idx) ⊎ From ids v) ↔ From (id ∷ ids) v)
        → ((y : Expanded) → CurrentOk ids y)
        → CurrentOk (id ∷ ids) x
    unfolding expand_current
    next_current id ids x idx (stopped y) at run (sound, keeps, full) iff later = (
      stopped y,
      rw (expand_current, at) (rw run refl),
      (λ v h. ⊎_elim inl (λ s. inr ((iff v).0 (inl s))) (sound v h), keeps, full),
    )
    next_current id ids x idx (going y) at run grown iff later =
        let (flow, rest, flows) = later y in
        (
          flow,
          rw (expand_current, at) (rw run rest),
          FlowOk-map stop_at (λ v. AnyEntry (Leads v) (entries_of es direction idx) ⊎ From ids v)
              (From (id ∷ ids)) x flow iff
              (FlowOk-after stop_at (λ v. AnyEntry (Leads v) (entries_of es direction idx))
                (From ids) x y flow grown flows),
        )

    pub expand_current-FlowOk : (ids : List String) (x : Expanded) → CurrentOk ids x
    unfolding expand_current
    expand_current-FlowOk [] x = (going x, refl, Grows-none x.visited x.next)
    expand_current-FlowOk (id ∷ ids) x = elim (Option-cases (get_id id es.node_index)) [
      | inl missing ↦
          let (flow, rest, flows) = expand_current-FlowOk ids x in
          (
            flow,
            rw (expand_current, missing) rest,
            FlowOk-map stop_at (From ids) (From (id ∷ ids)) x flow
                (λ v. (inr, ⊎_elim (λ (idx, at, _). absurd cc) (λ later. later))) flows,
          )
      | inr (idx, at) ↦
          let (flow, run, flows) =
            expand_entries-FlowOk (entries_of es direction idx) x (readable.typed idx)
              (readable.coded idx) in
          let iff : (v : String)
              → (AnyEntry (Leads v) (entries_of es direction idx) ⊎ From ids v)
                ↔ From (id ∷ ids) v =
            λ v. (
              ⊎_elim (λ here. inl (idx, at, here)) inr,
              ⊎_elim
                  (λ (k, at', here).
                    let both_ways : some k ≡ some idx = sym at' ∙ at in
                    let same : k ≡ idx = cc in
                    inl (subst (λ j. AnyEntry (Leads v) (entries_of es direction j)) same here))
                  inr,
            ) in
          next_current id ids x idx flow at run flows iff (expand_current-FlowOk ids)
    ]
