-- ===== src/Executor/Frames/Filtering.antt =====
-- crates/lynxes-lazy/src/query/executor/filter.rs, `evaluate_predicate` with `filter`: the rows that a
-- predicate keeps.
use lynxes_mojo.Common.{
  ◌≡◌, refl, ap, ◌∙◌, String, Bool, true, false, ◌&&◌, List, [], ◌∷◌, length, arith, if◌then◌else◌,
  ==_refl,
}
use lynxes_mojo.Outcome.{Outcome, ok, ◌>>=◌, >>=-eq-ok}
use lynxes_mojo.Plan.Expressions.{Expr, and_}
use lynxes_mojo.Executor.Values.{Value, bool, Floats, boolean_values}
use lynxes_mojo.Executor.Frames.{
  Row, Batch, evaluate_expr, to_bool, predicate_mask, evaluate_predicate, masked, filter_frame,
}

module _ (fl : Floats) where
  mask_step :
      (o : Outcome Value) (m : Outcome (List Bool)) (row : Row) (rows : List Row)
      → ((o >>= λ value. to_bool fl value >>= λ keep. m >>= λ mask. ok (keep ∷ mask)) >>= λ mask.
          ok (masked mask (row ∷ rows)))
        ≡ ((o >>= to_bool fl) >>= λ keep. (m >>= λ mask. ok (masked mask rows)) >>= λ rest.
            ok (if keep then row ∷ rest else rest))
  unfolding masked
  mask_step (ok (bool b)) (ok mask) row rows = refl
  mask_step _ _ row rows = refl

  and_step :
      (l r : Outcome Value) {b : Bool}
      → ((l >>= λ x. r >>= λ y. boolean_values ◌&&◌ x y) >>= to_bool fl) ≡ ok b
      → (x y : Bool) × ((l >>= to_bool fl) ≡ ok x) × ((r >>= to_bool fl) ≡ ok y) × (b ≡ (x && y))
  and_step (ok (bool x)) (ok (bool y)) h = (x, y, refl, refl, cc)
  and_step _ _ h = ground arith

module _ (fl : Floats) (cs : List String) where
  -- The predicate's value on a row.
  abbrev pub row_test : Expr → Row → Outcome Bool
  row_test e row = do value ← evaluate_expr fl cs row e; to_bool fl value

  -- The rows on which the predicate is true, or the first error.
  unfoldable pub kept : Expr → List Row → Outcome (List Row)
  kept e [] = ok []
  kept e (row ∷ rows) = do
    keep ← row_test e row
    rest ← kept e rows
    ok (if keep then row ∷ rest else rest)

  length-mask :
      (e : Expr) (rows : List Row) {mask : List Bool}
      → predicate_mask fl cs e rows ≡ ok mask
      → length mask ≡ length rows
  unfolding predicate_mask
  length-mask e [] h = ground arith
  length-mask e (row ∷ rows) h =
      let (value, _, h₁) = >>=-eq-ok (evaluate_expr fl cs row e) _ h in
      let (keep, _, h₂) = >>=-eq-ok (to_bool fl value) _ h₁ in
      let (rest, below, h₃) = >>=-eq-ok (predicate_mask fl cs e rows) _ h₂ in
      let shorter = length-mask e rows below in ground arith

  masked-kept :
      (e : Expr) (rows : List Row)
      → (predicate_mask fl cs e rows >>= λ mask. ok (masked mask rows)) ≡ kept e rows
  unfolding predicate_mask masked kept
  masked-kept e [] = refl
  masked-kept e (row ∷ rows) =
      mask_step fl (evaluate_expr fl cs row e) (predicate_mask fl cs e rows) row rows
      ∙ ap (λ r. row_test e row >>= λ keep. r >>= λ rest. ok (if keep then row ∷ rest else rest))
          (masked-kept e rows)

  row_test-and :
      (e p : Expr) (row : Row) {b : Bool}
      → row_test (and_ e p) row ≡ ok b
      → (l r : Bool) × (row_test e row ≡ ok l) × (row_test p row ≡ ok r) × (b ≡ (l && r))
  unfolding evaluate_expr
  row_test-and e p row h = and_step fl (evaluate_expr fl cs row e) (evaluate_expr fl cs row p) h

  and_rows :
      (p : Expr) (row : Row) (x y b : Bool) (ms rest rs : List Row)
      → b ≡ (x && y)
      → row_test p row ≡ ok y
      → kept p ms ≡ ok rest
      → ok (if b then row ∷ rest else rest) ≡ ok rs
      → kept p (if x then row ∷ ms else ms) ≡ ok rs
  unfolding kept
  and_rows p row true y b ms rest rs both tested second h = rw (tested, second, ← both) h
  and_rows p row false y b ms rest rs both tested second h = second ∙ rw both at h

  -- A conjunction keeps what its two halves keep one after the other, if it is evaluated with no
  -- error.
  pub kept-and :
      (e p : Expr) (rows : List Row) {rs : List Row}
      → kept (and_ e p) rows ≡ ok rs
      → (ms : List Row) × (kept e rows ≡ ok ms) × (kept p ms ≡ ok rs)
  unfolding kept
  kept-and e p [] h = ([], refl, h)
  kept-and e p (row ∷ rows) h =
      let (b, tested, h₁) = >>=-eq-ok (row_test (and_ e p) row) _ h in
      let (rest, below, h₂) = >>=-eq-ok (kept (and_ e p) rows) _ h₁ in
      let (x, y, left, right, both) = row_test-and e p row tested in
      let (ms, first, second) = kept-and e p rows below in
      (
        if x then row ∷ ms else ms,
        rw (left, first),
        and_rows p row x y b ms rest _ both right second h₂,
      )

filter_step :
    (frame : Batch) (m : Outcome (List Bool))
    → ((mask : List Bool) → m ≡ ok mask → length mask ≡ length frame.rows)
    → (m >>= filter_frame frame)
      ≡ ((m >>= λ mask. ok (masked mask frame.rows)) >>= λ rs. ok (record frame { rows = rs }))
unfolding filter_frame
filter_step frame (ok mask) h = rw (h mask refl, ==_refl (length frame.rows))
filter_step frame _ h = refl

-- Filtering a frame keeps the rows of `kept`.
pub filter_frame-kept :
    (fl : Floats) (e : Expr) (frame : Batch)
    → (evaluate_predicate fl frame e >>= filter_frame frame)
      ≡ (kept fl frame.columns e frame.rows >>= λ rs. ok (record frame { rows = rs }))
unfolding evaluate_predicate
filter_frame-kept fl e frame =
    filter_step frame (predicate_mask fl frame.columns e frame.rows)
      (λ mask h. length-mask fl frame.columns e frame.rows h)
    ∙ ap (λ m. m >>= λ rs. ok (record frame { rows = rs }))
        (masked-kept fl frame.columns e frame.rows)
