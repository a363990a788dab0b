-- ===== src/Optimizer/Columns.antt =====
-- The helpers that crates/lynxes-core/src/query/optimizer/predicate_pushdown.rs and
-- projection_pushdown.rs both carry: the columns that an expression reads, and those that a
-- projection keeps.
pub mod Reads
use lynxes_mojo.Common.{List, [], ◌∷◌, String, member, set_insert, set_extend, all_in, Bool}
use lynxes_mojo.Direction.{
  col_node_id, col_node_label, col_edge_src, col_edge_dst, col_edge_type, col_edge_direction,
}
use lynxes_mojo.Plan.Expressions.{
  Expr, col, literal, binary_op, unary_op, list_contains, cast, and_, or_, not_, pattern_col,
  string_op,
}

-- `refs` is the set that the source passes by `&mut`.
unfoldable pub collect_expr_column_refs : Expr → List String → List String
unfolding set_insert
collect_expr_column_refs (col name) refs = set_insert name refs
collect_expr_column_refs (literal _) refs = refs
collect_expr_column_refs (binary_op l _ r) refs =
    collect_expr_column_refs r (collect_expr_column_refs l refs)
collect_expr_column_refs (unary_op _ e) refs = collect_expr_column_refs e refs
collect_expr_column_refs (list_contains e item) refs =
    collect_expr_column_refs item (collect_expr_column_refs e refs)
collect_expr_column_refs (cast e _) refs = collect_expr_column_refs e refs
collect_expr_column_refs (and_ l r) refs =
    collect_expr_column_refs r (collect_expr_column_refs l refs)
collect_expr_column_refs (or_ l r) refs =
    collect_expr_column_refs r (collect_expr_column_refs l refs)
collect_expr_column_refs (not_ e) refs = collect_expr_column_refs e refs
collect_expr_column_refs (pattern_col _ _) refs = refs
collect_expr_column_refs (string_op _ e pattern) refs =
    collect_expr_column_refs pattern (collect_expr_column_refs e refs)

unfoldable pub expr_column_refs : Expr → List String
unfolding collect_expr_column_refs
expr_column_refs e = collect_expr_column_refs e []

unfoldable pub node_available_columns : List String → List String
unfolding set_extend set_insert
node_available_columns columns =
    set_extend (set_insert col_node_label (set_insert col_node_id [])) columns

unfoldable pub edge_available_columns : List String → List String
unfolding set_extend set_insert
edge_available_columns columns =
    set_extend
      (set_insert col_edge_direction
        (set_insert col_edge_type (set_insert col_edge_dst (set_insert col_edge_src []))))
      columns

unfoldable pub predicate_uses_only_columns : Expr → List String → Bool
unfolding expr_column_refs all_in
predicate_uses_only_columns predicate available = all_in (expr_column_refs predicate) available
