-- ===== src/Optimizer/PatternExpansion/Conjuncts.antt =====
-- crates/lynxes-core/src/query/optimizer/pattern_expansion.rs: the conjuncts of a pattern's condition
-- that are moved below the pattern.
use lynxes_mojo.Common.{
  ◌≡◌, refl, ap, ap₂, sym, ◌∙◌, String, Bool, true, false, ◌&&◌, List, [], ◌∷◌, ◌++◌, map, Option,
  none, some, Bool-cases, inl, inr, str_eq, eq_iff, &&_split,
}
use mathlib.Core.List.{foldl}
use lynxes_mojo.Plan.Expressions.{
  Expr, col, literal, binary_op, unary_op, list_contains, cast, and_, or_, not_, pattern_col,
  string_op,
}
use lynxes_mojo.Optimizer.PatternExpansion.{
  split_conjuncts, combine_conjuncts, collect_alias_usage, expr_depends_only_on_alias,
  rewrite_pattern_expr_for_alias, divide,
}

-- The expression on the nodes of the alias as an expression on the pattern.
unfoldable pub qualify : String → Expr → Expr
qualify alias (col name) = pattern_col alias name
qualify alias (literal value) = literal value
qualify alias (binary_op l op r) = binary_op (qualify alias l) op (qualify alias r)
qualify alias (unary_op op e) = unary_op op (qualify alias e)
qualify alias (list_contains e item) = list_contains (qualify alias e) (qualify alias item)
qualify alias (cast e dtype) = cast (qualify alias e) dtype
qualify alias (and_ l r) = and_ (qualify alias l) (qualify alias r)
qualify alias (or_ l r) = or_ (qualify alias l) (qualify alias r)
qualify alias (not_ e) = not_ (qualify alias e)
qualify alias (pattern_col used field) = pattern_col used field
qualify alias (string_op op e pattern) = string_op op (qualify alias e) (qualify alias pattern)

-- The expression is rewritten, to one that stands for it.
abbrev Rewrites : Expr → String → Type 0
Rewrites e alias =
    (e' : Expr) × (rewrite_pattern_expr_for_alias e alias ≡ some e') × (qualify alias e' ≡ e)

usage-Rewrites :
    (e : Expr) (alias : String) (flags : Bool × Bool)
    → (collect_alias_usage e alias flags).1 ≡ true
    → (flags.1 ≡ true) × Rewrites e alias
unfolding collect_alias_usage rewrite_pattern_expr_for_alias qualify
usage-Rewrites (col name) alias flags h = cc
usage-Rewrites (literal v) alias flags h = (h, (literal v, refl, refl))
usage-Rewrites (unary_op op e) alias flags h =
    let (valid, (e', run, same)) = usage-Rewrites e alias flags h in
    (valid, (unary_op op e', rw run refl, ap (unary_op op) same))
usage-Rewrites (cast e dtype) alias flags h =
    let (valid, (e', run, same)) = usage-Rewrites e alias flags h in
    (valid, (cast e' dtype, rw run refl, ap (λ x. cast x dtype) same))
usage-Rewrites (not_ e) alias flags h =
    let (valid, (e', run, same)) = usage-Rewrites e alias flags h in
    (valid, (not_ e', rw run refl, ap not_ same))
usage-Rewrites (pattern_col used field) alias flags h = elim (Bool-cases (str_eq used alias)) [
  | inl same ↦ (
    rw same at h,
    (col field, rw same refl, ap (λ a. pattern_col a field) (sym ((eq_iff used alias).0 same))),
  )
  | inr other ↦ absurd let bad = rw other at h in cc
]
usage-Rewrites (binary_op l op r) alias flags h =
    let (more, (r', second, there)) =
      usage-Rewrites r alias (collect_alias_usage l alias flags) h in
    let (valid, (l', first, here)) = usage-Rewrites l alias flags more in
    (valid, (binary_op l' op r', rw (first, second) refl, ap₂ (λ x y. binary_op x op y) here there))
usage-Rewrites (list_contains l r) alias flags h =
    let (more, (r', second, there)) =
      usage-Rewrites r alias (collect_alias_usage l alias flags) h in
    let (valid, (l', first, here)) = usage-Rewrites l alias flags more in
    (
      valid,
      (list_contains l' r', rw (first, second) refl, ap₂ (λ x y. list_contains x y) here there),
    )
usage-Rewrites (and_ l r) alias flags h =
    let (more, (r', second, there)) =
      usage-Rewrites r alias (collect_alias_usage l alias flags) h in
    let (valid, (l', first, here)) = usage-Rewrites l alias flags more in
    (valid, (and_ l' r', rw (first, second) refl, ap₂ (λ x y. and_ x y) here there))
usage-Rewrites (or_ l r) alias flags h =
    let (more, (r', second, there)) =
      usage-Rewrites r alias (collect_alias_usage l alias flags) h in
    let (valid, (l', first, here)) = usage-Rewrites l alias flags more in
    (valid, (or_ l' r', rw (first, second) refl, ap₂ (λ x y. or_ x y) here there))
usage-Rewrites (string_op op l r) alias flags h =
    let (more, (r', second, there)) =
      usage-Rewrites r alias (collect_alias_usage l alias flags) h in
    let (valid, (l', first, here)) = usage-Rewrites l alias flags more in
    (valid, (string_op op l' r', rw (first, second) refl, ap₂ (λ x y. string_op op x y) here there))

pub root_conjunct_rewritten :
    (e : Expr) (alias : String)
    → expr_depends_only_on_alias e alias ≡ true
    → (e' : Expr) × (rewrite_pattern_expr_for_alias e alias ≡ some e') × (qualify alias e' ≡ e)
unfolding expr_depends_only_on_alias
root_conjunct_rewritten e alias h =
    let usage = collect_alias_usage e alias (false, true) in
    (usage-Rewrites e alias (false, true) (&&_split usage.0 usage.1 h).1).1

&&_assoc : (a b c : Bool) → (a && (b && c)) ≡ ((a && b) && c)
&&_assoc true b c = refl
&&_assoc false b c = refl

&&_true : (a : Bool) → (a && true) ≡ a
&&_true true = refl
&&_true false = refl

&&_swap : (a b c : Bool) → (a && (b && c)) ≡ (b && (a && c))
&&_swap true true c = refl
&&_swap true false c = refl
&&_swap false true c = refl
&&_swap false false c = refl

-- A condition under a valuation of what is not a conjunction.
module _ (holds : Expr → Bool) where
  unfoldable pub conjunction : Expr → Bool
  conjunction (and_ l r) = conjunction l && conjunction r
  conjunction (col a) = holds (col a)
  conjunction (literal a) = holds (literal a)
  conjunction (binary_op a b c) = holds (binary_op a b c)
  conjunction (unary_op a b) = holds (unary_op a b)
  conjunction (list_contains a b) = holds (list_contains a b)
  conjunction (cast a b) = holds (cast a b)
  conjunction (or_ a b) = holds (or_ a b)
  conjunction (not_ a) = holds (not_ a)
  conjunction (pattern_col a b) = holds (pattern_col a b)
  conjunction (string_op a b c) = holds (string_op a b c)

  abbrev pub all_hold : List Expr → Bool
  all_hold [] = true
  all_hold (e ∷ es) = conjunction e && all_hold es

  abbrev pub condition : Option Expr → Bool
  condition none = true
  condition (some e) = conjunction e

  all_hold-append : (es fs : List Expr) → all_hold (es ++ fs) ≡ (all_hold es && all_hold fs)
  all_hold-append [] fs = refl
  all_hold-append (e ∷ es) fs =
      ap (λ b. conjunction e && b) (all_hold-append es fs)
      ∙ &&_assoc (conjunction e) (all_hold es) (all_hold fs)

  all_hold-split_conjuncts : (e : Expr) → all_hold (split_conjuncts e) ≡ conjunction e
  unfolding split_conjuncts conjunction
  all_hold-split_conjuncts (and_ l r) =
      all_hold-append (split_conjuncts l) (split_conjuncts r)
      ∙ ap₂ ◌&&◌ (all_hold-split_conjuncts l) (all_hold-split_conjuncts r)
  all_hold-split_conjuncts (col a) = &&_true (holds (col a))
  all_hold-split_conjuncts (literal a) = &&_true (holds (literal a))
  all_hold-split_conjuncts (binary_op a b c) = &&_true (holds (binary_op a b c))
  all_hold-split_conjuncts (unary_op a b) = &&_true (holds (unary_op a b))
  all_hold-split_conjuncts (list_contains a b) = &&_true (holds (list_contains a b))
  all_hold-split_conjuncts (cast a b) = &&_true (holds (cast a b))
  all_hold-split_conjuncts (or_ a b) = &&_true (holds (or_ a b))
  all_hold-split_conjuncts (not_ a) = &&_true (holds (not_ a))
  all_hold-split_conjuncts (pattern_col a b) = &&_true (holds (pattern_col a b))
  all_hold-split_conjuncts (string_op a b c) = &&_true (holds (string_op a b c))

  foldl-and_ :
      (es : List Expr) (first : Expr)
      → conjunction (foldl and_ first es) ≡ (conjunction first && all_hold es)
  unfolding conjunction
  foldl-and_ [] first = sym (&&_true (conjunction first))
  foldl-and_ (e ∷ es) first =
      foldl-and_ es (and_ first e)
      ∙ sym (&&_assoc (conjunction first) (conjunction e) (all_hold es))

  condition-combine_conjuncts : (es : List Expr) → condition (combine_conjuncts es) ≡ all_hold es
  unfolding combine_conjuncts
  condition-combine_conjuncts [] = refl
  condition-combine_conjuncts (e ∷ es) = foldl-and_ es e

  all_hold-divide :
      (es : List Expr) (root : String)
      → all_hold es
        ≡ (all_hold (map (qualify root) (divide es root).0) && all_hold (divide es root).1)
  unfolding divide
  all_hold-divide [] root = refl
  all_hold-divide (e ∷ es) root = elim (Bool-cases (expr_depends_only_on_alias e root)) [
    | inl moves ↦
        let (e', run, same) = root_conjunct_rewritten e root moves in
        rw (moves, run)
          (ap (λ b. conjunction e && b) (all_hold-divide es root)
            ∙ &&_assoc (conjunction e) (all_hold (map (qualify root) (divide es root).0))
                (all_hold (divide es root).1)
            ∙ ap
                (λ x.
                  (conjunction x && all_hold (map (qualify root) (divide es root).0))
                  && all_hold (divide es root).1)
                (sym same))
    | inr stays ↦ rw stays (
        ap (λ b. conjunction e && b) (all_hold-divide es root)
        ∙ &&_swap (conjunction e) (all_hold (map (qualify root) (divide es root).0))
            (all_hold (divide es root).1))
  ]

  -- A condition is the conjunction of the part that is moved below the pattern, read through the
  -- alias of the pattern's first node, and the part that stays.
  pub condition_divided :
      (where_ : Expr) (root : String)
      → conjunction where_ ≡ (
          all_hold (map (qualify root) (divide (split_conjuncts where_) root).0)
          && condition (combine_conjuncts (divide (split_conjuncts where_) root).1))
  condition_divided where_ root =
      sym (all_hold-split_conjuncts where_)
      ∙ all_hold-divide (split_conjuncts where_) root
      ∙ ap (λ b. all_hold (map (qualify root) (divide (split_conjuncts where_) root).0) && b)
          (sym (condition-combine_conjuncts (divide (split_conjuncts where_) root).1))
