-- ===== src/Sql/Walk.antt =====
-- visitor.cc: the traversal that the mutators share.
use postgres_tde.Base.{List, [], false, true, ℕ, ◌∷◌}
use postgres_tde.Manager.State.{ascii}
use postgres_tde.Sql.Ast.{
  Expr, star, column_ref, literal_float, literal_int, literal_string, literal_null, operator,
  select_expr, array_expr, other_literal, other_expr, MaybeExpr, no_expr, an_expr, Exprs, no_more,
  and_then, MaybeExprs, no_exprs, some_exprs, Select, select, Groups, no_groups, group_by, Orders,
  no_more_orders, order_by, MaybeOrders, no_order, ordered, TableRef, table_name, table_select,
  table_join, table_cross_product, Tables, no_tables, table_and, MaybeTable, no_table, from_table,
  Statement, select_stmt, insert_values, insert_select, update_stmt, delete_stmt, other_stmt, Shape,
  binary, prefix, postfix, membership, unsupported, shape,
}
use postgres_tde.Sql.Fields.{
  Walk, Visited, visited, refused, panicked, and_visit, visit_column, enter_select, leave_select,
  in_body, in_join, in_groups, add_table_alias, unsupported_text, guarded, taken, unless_taken,
  Overrides,
}

-- `visitOperatorExpression`, by the operator's case and the visits of its operands.
abbrev pub visit_operator :
    Shape → (Walk → Visited) → (Walk → Visited) → (Walk → Visited) → Walk → Visited
visit_operator binary expr expr2 exprs w = and_visit (expr w) expr2
visit_operator prefix expr expr2 exprs w = expr w
visit_operator postfix expr expr2 exprs w = expr w
visit_operator membership expr expr2 exprs w = and_visit (expr w) exprs
visit_operator unsupported expr expr2 exprs w = panicked

unfoldable mutual
  unfolding visit_column shape taken

  pub visit_expression : Overrides → Expr → Walk → Visited
  visit_expression g star w = refused (ascii "postgres_tde: star expression is not supported")
  visit_expression g (column_ref table name alias) w =
      guarded (g.at_column table name w) (visit_column table name alias w)
  visit_expression g (literal_float bytes text) w = visited w
  visit_expression g (literal_int negative n) w = visited w
  visit_expression g (literal_string text) w = visited w
  visit_expression g literal_null w = visited w
  visit_expression g (operator op expr expr2 exprs) w =
      unless_taken (taken g.taking op expr expr2) w (
        visit_operator (shape op) (visit_maybe g expr) (visit_maybe g expr2) (visit_list g exprs) w)
  visit_expression g (select_expr s) w = panicked
  visit_expression g array_expr w = refused unsupported_text
  visit_expression g other_literal w = panicked
  visit_expression g other_expr w = panicked

  pub visit_maybe : Overrides → MaybeExpr → Walk → Visited
  visit_maybe g no_expr w = panicked
  visit_maybe g (an_expr e) w = visit_expression g e w

  pub visit_all : Overrides → Exprs → Walk → Visited
  visit_all g no_more w = visited w
  visit_all g (and_then e es) w = and_visit (visit_expression g e w) (visit_all g es)

  pub visit_list : Overrides → MaybeExprs → Walk → Visited
  visit_list g no_exprs w = panicked
  visit_list g (some_exprs es) w = visit_all g es w

unfoldable mutual
  unfolding visit_expression

  pub visit_select_statement : Overrides → Select → Walk → Visited
  visit_select_statement g (select false list table condition grouping orders limit) w =
      and_visit (visit_from g table (enter_select w)) (λ w₁.
        and_visit (visit_all g list (in_body true w₁)) (λ w₂.
          and_visit (visit_where g condition (in_body false w₂)) (λ w₃.
            and_visit (visit_groups g grouping w₃)
              (λ w₄. and_visit (visit_maybe_orders g orders w₄) (leave_select w)))))
  visit_select_statement g (select true list table condition grouping orders limit) w =
      refused unsupported_text

  pub visit_where : Overrides → MaybeExpr → Walk → Visited
  visit_where g no_expr w = visited w
  visit_where g (an_expr e) w = visit_expression g e w

  pub visit_groups : Overrides → Groups → Walk → Visited
  visit_groups g no_groups w = visited w
  visit_groups g (group_by columns having) w =
      and_visit (visit_all g columns (in_groups true w))
        (λ w₁. and_visit (visit_where g having w₁) (λ w₂. visited (in_groups false w₂)))

  pub visit_orders : Overrides → Orders → Walk → Visited
  visit_orders g no_more_orders w = visited w
  visit_orders g (order_by e ascending rest) w =
      and_visit (visit_expression g e w) (visit_orders g rest)

  pub visit_maybe_orders : Overrides → MaybeOrders → Walk → Visited
  visit_maybe_orders g no_order w = visited w
  visit_maybe_orders g (ordered os) w = visit_orders g os w

  pub visit_table_ref : Overrides → TableRef → Walk → Visited
  visit_table_ref g (table_name name alias) w = visited (add_table_alias name alias w)
  visit_table_ref g (table_select s) w = visit_select_statement g s w
  visit_table_ref g (table_join left right condition) w =
      and_visit (visit_table_ref g left w) (λ w₁. and_visit (visit_table_ref g right w₁) (λ w₂.
        and_visit (visit_maybe g condition (in_join true w₂)) (λ w₃. visited (in_join false w₃))))
  visit_table_ref g (table_cross_product tables) w = visit_tables g tables w

  pub visit_tables : Overrides → Tables → Walk → Visited
  visit_tables g no_tables w = visited w
  visit_tables g (table_and t ts) w = and_visit (visit_table_ref g t w) (visit_tables g ts)

  pub visit_from : Overrides → MaybeTable → Walk → Visited
  visit_from g no_table w = visited w
  visit_from g (from_table t) w = visit_table_ref g t w

unfoldable pub visit_updates : Overrides → List (List ℕ × Expr) → Walk → Visited
unfolding visit_expression
visit_updates g [] w = visited w
visit_updates g ((column, e) ∷ rest) w = and_visit (visit_expression g e w) (visit_updates g rest)

unfoldable pub visit_statement : Overrides → Statement → Walk → Visited
unfolding visit_select_statement visit_updates
visit_statement g (select_stmt s) w = visit_select_statement g s w
visit_statement g (insert_values table columns values) w =
    guarded (g.at_insert (insert_values table columns values)) (visit_all g values w)
visit_statement g (insert_select table s) w =
    guarded (g.at_insert (insert_select table s)) (visit_select_statement g s w)
visit_statement g (update_stmt table alias updates condition) w =
    and_visit (visit_updates g updates (add_table_alias table alias w)) (visit_where g condition)
visit_statement g delete_stmt w = refused unsupported_text
visit_statement g other_stmt w = panicked

unfoldable pub visit_statements : Overrides → List Statement → Walk → Visited
unfolding visit_statement
visit_statements g [] w = visited w
visit_statements g (s ∷ rest) w = and_visit (visit_statement g s w) (visit_statements g rest)

unfoldable pub visit_query : Overrides → List Statement → Walk → Visited
unfolding visit_statements
visit_query g statements w =
    visit_statements g statements
      (record w { table_aliases = []; select_columns = []; select_column_aliases = [] })
