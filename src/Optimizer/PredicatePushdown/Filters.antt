-- ===== src/Optimizer/PredicatePushdown/Filters.antt =====
-- The two facts on frames behind predicate_pushdown.rs: what a merged filter keeps, and what a filter
-- that moved below a projection keeps.
use lynxes_mojo.Common.{
  ◌≡◌, refl, ap, sym, ◌∙◌, ◌⊎◌, inl, inr, ⊎_elim, String, true, List, [], member, set_insert,
  all_in, member-all_in, member-set_extend,
}
use lynxes_mojo.Direction.{
  node_reserved_columns, edge_reserved_columns, col_node_id, col_node_label, col_edge_src,
  col_edge_dst, col_edge_type, col_edge_direction,
}
use lynxes_mojo.Outcome.{Outcome, ok, err, panicked, ◌>>=◌, >>=-eq-ok}
use lynxes_mojo.Plan.Expressions.{Expr, and_}
use lynxes_mojo.Executor.Values.{Floats}
use lynxes_mojo.Executor.Frames.{
  Row, Batch, evaluate_predicate, filter_frame, append_distinct, check_columns, select,
}
use lynxes_mojo.Executor.Frames.Filtering.{kept, kept-and, filter_frame-kept}
use lynxes_mojo.Executor.Frames.Selecting.{select-inv}
use lynxes_mojo.Optimizer.Columns.{
  node_available_columns, edge_available_columns, predicate_uses_only_columns,
}
use lynxes_mojo.Optimizer.Columns.Reads.{BothHave, kept-agree, predicate-UsesOnly}

select_step :
    (reserved columns : List String) (m frame b : Batch) (o : Outcome (Unit {0}))
    → elim o [
      | ok _ ↦ ok (record m { columns = append_distinct reserved reserved columns })
      | err _ ↦ panicked
      | panicked ↦ panicked
    ]
      ≡ ok b
    → elim o [
      | ok _ ↦ ok (record frame { columns = append_distinct reserved reserved columns })
      | err _ ↦ panicked
      | panicked ↦ panicked
    ]
      ≡ ok (record frame { columns = append_distinct reserved reserved columns })
select_step reserved columns m frame b (ok _) h = refl
select_step reserved columns m frame b (err _) h = cc
select_step reserved columns m frame b panicked h = cc

-- A projection depends on the names of the columns only.
select_rows :
    (reserved columns : List String) (m frame : Batch) {b : Batch}
    → m.columns ≡ frame.columns
    → select reserved m columns ≡ ok b
    → select reserved frame columns
      ≡ ok (record frame { columns = append_distinct reserved reserved columns })
unfolding select
select_rows reserved columns m frame same h =
    let (_, asked, h₁) = >>=-eq-ok (check_columns columns m.columns) _ h in
    let asked' = rw same at asked in
    let h₂ = rw same at h₁ in
    rw asked' (select_step reserved columns m frame _ (check_columns reserved frame.columns) h₂)

abbrev renamed : List String → Batch → Batch
renamed names b = record b { columns = names }

module _ (fl : Floats) where
  -- A filter of a frame, without its place in a plan.
  abbrev pub filtered : Expr → Batch → Outcome Batch
  filtered e frame = evaluate_predicate fl frame e >>= filter_frame frame

  filtered-kept :
      (e : Expr) (frame : Batch) {b : Batch}
      → filtered e frame ≡ ok b
      → (rs : List Row) × (kept fl frame.columns e frame.rows ≡ ok rs)
        × (b ≡ record frame { rows = rs })
  filtered-kept e frame h =
      let (rs, run, same) =
        >>=-eq-ok (kept fl frame.columns e frame.rows) _ (sym (filter_frame-kept fl e frame) ∙ h) in
      (rs, run, cc)

  kept-filtered :
      (e : Expr) (frame : Batch) (rs : List Row)
      → kept fl frame.columns e frame.rows ≡ ok rs
      → filtered e frame ≡ ok (record frame { rows = rs })
  kept-filtered e frame rs h =
      filter_frame-kept fl e frame ∙ ap (λ m. m >>= λ r. ok (record frame { rows = r })) h

  -- A conjunction that is evaluated with no error keeps what the two filters keep in turn.
  pub filtered-and :
      (e p : Expr) (frame : Batch) {b : Batch}
      → filtered (and_ e p) frame ≡ ok b
      → (m : Batch) × (filtered e frame ≡ ok m) × (filtered p m ≡ ok b)
  filtered-and e p frame h =
      let (rs, run, same) = filtered-kept (and_ e p) frame h in
      let (ms, first, second) = kept-and fl frame.columns e p frame.rows run in
      (
        record frame { rows = ms },
        kept-filtered e frame ms first,
        kept-filtered p (record frame { rows = ms }) rs second ∙ ap ok (sym same),
      )

  -- A filter on columns that a projection keeps may run before or after it.
  pub filtered-select :
      (reserved available columns : List String) (e : Expr) (frame m : Batch) {b : Batch}
      → ((a : String)
          → member a available ≡ true
          → (member a reserved ≡ true) ⊎ (member a columns ≡ true))
      → predicate_uses_only_columns e available ≡ true
      → filtered e frame ≡ ok m
      → select reserved m columns ≡ ok b
      → (s : Batch) × (select reserved frame columns ≡ ok s) × (filtered e s ≡ ok b)
  filtered-select reserved available columns e frame m known uses first second =
      let (rs, run, same) = filtered-kept e frame first in
      let before = select_rows reserved columns m frame (ap (λ x. x.columns) same) second in
      let (shape, have) = select-inv reserved m columns second in
      let (_, have') = select-inv reserved frame columns before in
      let names = append_distinct reserved reserved columns in
      let both : BothHave available frame.columns names = λ a k. have' a (known a k) in
      (
        record frame { columns = names },
        before,
        kept-filtered e (record frame { columns = names }) rs
              (sym (
                  kept-agree fl available frame.columns names e frame.rows both
                    (predicate-UsesOnly e available uses))
                ∙ run)
            ∙ ap ok (sym (shape ∙ ap (λ (x : Batch). renamed names x) same)),
      )

pub node_available :
    (columns : List String) (a : String)
    → member a (node_available_columns columns) ≡ true
    → (member a node_reserved_columns ≡ true) ⊎ (member a columns ≡ true)
unfolding node_available_columns all_in set_insert
node_available columns a h =
    let base = set_insert col_node_label (set_insert col_node_id []) in
    ⊎_elim (λ m. inl (member-all_in a base node_reserved_columns m refl)) inr
      (member-set_extend a base columns h)

pub edge_available :
    (columns : List String) (a : String)
    → member a (edge_available_columns columns) ≡ true
    → (member a edge_reserved_columns ≡ true) ⊎ (member a columns ≡ true)
unfolding edge_available_columns all_in set_insert
edge_available columns a h =
    let base =
      set_insert col_edge_direction
        (set_insert col_edge_type (set_insert col_edge_dst (set_insert col_edge_src []))) in
    ⊎_elim (λ m. inl (member-all_in a base edge_reserved_columns m refl)) inr
      (member-set_extend a base columns h)
