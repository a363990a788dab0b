-- ===== src/Optimizer/Columns/Reads.antt =====
-- The column sets of the pushdown passes (predicate_pushdown.rs): the columns that a predicate reads,
-- and its values in frames that have them.
use lynxes_mojo.Common.{
  ◌≡◌, refl, inl, inr, String, true, List, [], ◌∷◌, Bool-cases, member, set_insert, all_in,
  &&_split, member-all_in,
}
use lynxes_mojo.Plan.Expressions.{
  Expr, col, literal, binary_op, unary_op, list_contains, cast, and_, or_, not_, pattern_col,
  string_op, neg,
}
use lynxes_mojo.Executor.Values.{Floats}
use lynxes_mojo.Executor.Frames.{Row, evaluate_expr}
use lynxes_mojo.Executor.Frames.Filtering.{kept}
use lynxes_mojo.Optimizer.Columns.{collect_expr_column_refs, predicate_uses_only_columns}

-- The columns that the expression reads are in the set.
abbrev pub UsesOnly : Expr → List String → Type 0
UsesOnly (col name) cs = member name cs ≡ true
UsesOnly (literal _) cs = Unit {0}
UsesOnly (binary_op l _ r) cs = UsesOnly l cs × UsesOnly r cs
UsesOnly (unary_op _ e) cs = UsesOnly e cs
UsesOnly (list_contains e item) cs = UsesOnly e cs × UsesOnly item cs
UsesOnly (cast e _) cs = UsesOnly e cs
UsesOnly (and_ l r) cs = UsesOnly l cs × UsesOnly r cs
UsesOnly (or_ l r) cs = UsesOnly l cs × UsesOnly r cs
UsesOnly (not_ e) cs = UsesOnly e cs
UsesOnly (pattern_col _ _) cs = Unit {0}
UsesOnly (string_op _ e pattern) cs = UsesOnly e cs × UsesOnly pattern cs

insert-all_in :
    (a : String) (xs ys : List String)
    → all_in (set_insert a xs) ys ≡ true
    → (member a ys ≡ true) × (all_in xs ys ≡ true)
unfolding set_insert all_in
insert-all_in a xs ys h = elim (Bool-cases (member a xs)) [
  | inl old ↦ let kept_refs = rw old at h in (member-all_in a xs ys old kept_refs, kept_refs)
  | inr new ↦ &&_split (member a ys) (all_in xs ys) (rw new at h)
]

collect-UsesOnly :
    (e : Expr) (refs cs : List String)
    → all_in (collect_expr_column_refs e refs) cs ≡ true
    → UsesOnly e cs × (all_in refs cs ≡ true)
unfolding collect_expr_column_refs
collect-UsesOnly (col name) refs cs h = insert-all_in name refs cs h
collect-UsesOnly (literal _) refs cs h = (tt, h)
collect-UsesOnly (binary_op l _ r) refs cs h =
    let (right, more) = collect-UsesOnly r (collect_expr_column_refs l refs) cs h in
    let (left, rest) = collect-UsesOnly l refs cs more in ((left, right), rest)
collect-UsesOnly (unary_op _ e) refs cs h = collect-UsesOnly e refs cs h
collect-UsesOnly (list_contains e item) refs cs h =
    let (right, more) = collect-UsesOnly item (collect_expr_column_refs e refs) cs h in
    let (left, rest) = collect-UsesOnly e refs cs more in ((left, right), rest)
collect-UsesOnly (cast e _) refs cs h = collect-UsesOnly e refs cs h
collect-UsesOnly (and_ l r) refs cs h =
    let (right, more) = collect-UsesOnly r (collect_expr_column_refs l refs) cs h in
    let (left, rest) = collect-UsesOnly l refs cs more in ((left, right), rest)
collect-UsesOnly (or_ l r) refs cs h =
    let (right, more) = collect-UsesOnly r (collect_expr_column_refs l refs) cs h in
    let (left, rest) = collect-UsesOnly l refs cs more in ((left, right), rest)
collect-UsesOnly (not_ e) refs cs h = collect-UsesOnly e refs cs h
collect-UsesOnly (pattern_col _ _) refs cs h = (tt, h)
collect-UsesOnly (string_op _ e pattern) refs cs h =
    let (right, more) = collect-UsesOnly pattern (collect_expr_column_refs e refs) cs h in
    let (left, rest) = collect-UsesOnly e refs cs more in ((left, right), rest)

pub predicate-UsesOnly :
    (e : Expr) (cs : List String) → predicate_uses_only_columns e cs ≡ true → UsesOnly e cs
unfolding predicate_uses_only_columns
predicate-UsesOnly e cs h = (collect-UsesOnly e [] cs h).0

-- Both frames have the set.
abbrev pub BothHave : List String → List String → List String → Type 0
BothHave available cs cs' =
    (a : String) → member a available ≡ true → (member a cs ≡ true) × (member a cs' ≡ true)

evaluate_expr-agree :
    (fl : Floats) (available cs cs' : List String) (row : Row) (e : Expr)
    → BothHave available cs cs'
    → UsesOnly e available
    → evaluate_expr fl cs row e ≡ evaluate_expr fl cs' row e
unfolding evaluate_expr
evaluate_expr-agree fl av cs cs' row (col name) both u =
    let (one, two) = both name u in rw (one, two)
evaluate_expr-agree fl av cs cs' row (literal _) both u = refl
evaluate_expr-agree fl av cs cs' row (binary_op l op r) both u = rw (
  evaluate_expr-agree fl av cs cs' row l both u.0,
  evaluate_expr-agree fl av cs cs' row r both u.1,
)
evaluate_expr-agree fl av cs cs' row (unary_op neg e) both u =
    rw (evaluate_expr-agree fl av cs cs' row e both u)
evaluate_expr-agree fl av cs cs' row (list_contains e item) both u = rw (
  evaluate_expr-agree fl av cs cs' row e both u.0,
  evaluate_expr-agree fl av cs cs' row item both u.1,
)
evaluate_expr-agree fl av cs cs' row (cast e _) both u =
    rw (evaluate_expr-agree fl av cs cs' row e both u)
evaluate_expr-agree fl av cs cs' row (and_ l r) both u = rw (
  evaluate_expr-agree fl av cs cs' row l both u.0,
  evaluate_expr-agree fl av cs cs' row r both u.1,
)
evaluate_expr-agree fl av cs cs' row (or_ l r) both u = rw (
  evaluate_expr-agree fl av cs cs' row l both u.0,
  evaluate_expr-agree fl av cs cs' row r both u.1,
)
evaluate_expr-agree fl av cs cs' row (not_ e) both u =
    rw (evaluate_expr-agree fl av cs cs' row e both u)
evaluate_expr-agree fl av cs cs' row (pattern_col _ _) both u = refl
evaluate_expr-agree fl av cs cs' row (string_op op e pattern) both u = rw (
  evaluate_expr-agree fl av cs cs' row e both u.0,
  evaluate_expr-agree fl av cs cs' row pattern both u.1,
)

pub kept-agree :
    (fl : Floats) (available cs cs' : List String) (e : Expr) (rows : List Row)
    → BothHave available cs cs'
    → UsesOnly e available
    → kept fl cs e rows ≡ kept fl cs' e rows
unfolding kept
kept-agree fl av cs cs' e [] both u = refl
kept-agree fl av cs cs' e (row ∷ rows) both u =
    rw (evaluate_expr-agree fl av cs cs' row e both u, kept-agree fl av cs cs' e rows both u)
