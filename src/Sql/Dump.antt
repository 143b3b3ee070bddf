-- ===== src/Sql/Dump.antt =====
-- dump_visitor.cc: `DumpVisitor`, which prints a query again.
use postgres_tde.Base.{List, [], false, if◌then◌else◌, none, some, true, ℕ, ◌++◌, ◌∷◌}
use postgres_tde.Manager.State.{ascii}
use postgres_tde.Sql.Ast.{
  Expr, star, column_ref, literal_float, literal_int, literal_string, literal_null, operator,
  select_expr, array_expr, other_literal, other_expr, MaybeExpr, no_expr, an_expr, Exprs, no_more,
  and_then, MaybeExprs, no_exprs, some_exprs, Select, select, Groups, no_groups, group_by, Orders,
  no_more_orders, order_by, MaybeOrders, no_order, ordered, TableRef, table_name, table_select,
  table_join, table_cross_product, Tables, no_tables, table_and, MaybeTable, no_table, from_table,
  Statement, select_stmt, insert_values, insert_select, update_stmt, delete_stmt, other_stmt, shape,
}
use postgres_tde.Sql.Text.{
  Dumped, dumped, failed, broken, ◌<<◌, put, print_int, operator_to_string, quoted, dump_column,
  unable_to_dump, comma_before, comma_before_order, comma_before_table, dump_limit, dump_operator,
}

unfoldable mutual
  unfolding shape operator_to_string dump_limit

  pub dump_expression : Expr → Dumped
  dump_expression star = put "*"
  dump_expression (column_ref table name alias) = dumped (dump_column table name alias)
  dump_expression (literal_float bytes text) = dumped text
  dump_expression (literal_int negative n) = dumped (print_int negative n)
  dump_expression (literal_string text) = dumped (quoted text)
  dump_expression literal_null = put "NULL"
  dump_expression (operator op expr expr2 exprs) =
      dump_operator (shape op) (dumped (operator_to_string op)) (dump_maybe expr) (dump_maybe expr2)
        (dump_list exprs)
  dump_expression (select_expr s) = put "(" << dump_select_statement s << put ")"
  dump_expression array_expr = failed (ascii "postgres_tde: unsupported")
  dump_expression other_literal = failed unable_to_dump
  dump_expression other_expr = failed unable_to_dump

  pub dump_maybe : MaybeExpr → Dumped
  dump_maybe no_expr = broken
  dump_maybe (an_expr e) = dump_expression e

  pub dump_all : Exprs → Dumped
  dump_all no_more = dumped []
  dump_all (and_then e es) = dump_expression e << comma_before es << dump_all es

  pub dump_list : MaybeExprs → Dumped
  dump_list no_exprs = broken
  dump_list (some_exprs es) = dump_all es

  pub dump_select_statement : Select → Dumped
  dump_select_statement (select true list table condition grouping orders limit) =
      failed unable_to_dump
  dump_select_statement (select false list table condition grouping orders limit) =
      put "SELECT "
      << dump_all list
      << dump_from table
      << dump_where condition
      << dump_groups grouping
      << dump_maybe_orders orders
      << dumped (dump_limit limit)

  pub dump_where : MaybeExpr → Dumped
  dump_where no_expr = dumped []
  dump_where (an_expr e) = put " WHERE " << dump_expression e

  pub dump_having : MaybeExpr → Dumped
  dump_having no_expr = dumped []
  dump_having (an_expr e) = put " HAVING " << dump_expression e

  pub dump_on : MaybeExpr → Dumped
  dump_on no_expr = dumped []
  dump_on (an_expr e) = put " ON (" << dump_expression e << put ")"

  pub dump_groups : Groups → Dumped
  dump_groups no_groups = dumped []
  dump_groups (group_by columns having) = put " GROUP BY " << dump_all columns << dump_having having

  pub dump_orders : Orders → Dumped
  dump_orders no_more_orders = dumped []
  dump_orders (order_by e ascending rest) =
      dump_expression e
      << (if ascending then put " ASC" else put " DESC")
      << comma_before_order rest
      << dump_orders rest

  pub dump_maybe_orders : MaybeOrders → Dumped
  dump_maybe_orders no_order = dumped []
  dump_maybe_orders (ordered os) = put " ORDER BY " << dump_orders os

  pub dump_table_ref : TableRef → Dumped
  dump_table_ref (table_name name alias) =
      dumped (name ++ elim alias [ none ↦ [] | some a ↦ ascii " " ++ a ])
  dump_table_ref (table_select s) = put "(" << dump_select_statement s << put ")"
  dump_table_ref (table_join left right condition) =
      dump_table_ref left << put " JOIN " << dump_table_ref right << dump_on condition
  dump_table_ref (table_cross_product tables) = dump_tables tables

  pub dump_tables : Tables → Dumped
  dump_tables no_tables = dumped []
  dump_tables (table_and t ts) = dump_table_ref t << comma_before_table ts << dump_tables ts

  pub dump_from : MaybeTable → Dumped
  dump_from no_table = dumped []
  dump_from (from_table t) = put " FROM " << dump_table_ref t

unfoldable pub dump_names : List (List ℕ) → List ℕ
dump_names [] = []
dump_names (c ∷ []) = c
dump_names (c ∷ c' ∷ cs) = c ++ (ascii ", " ++ dump_names (c' ∷ cs))

abbrev pub comma_before_update : List (List ℕ × Expr) → Dumped
comma_before_update [] = dumped []
comma_before_update (u ∷ us) = put ", "

unfoldable pub dump_updates : List (List ℕ × Expr) → Dumped
unfolding dump_expression
dump_updates [] = dumped []
dump_updates ((column, e) ∷ rest) =
    dumped column << put " = " << dump_expression e << comma_before_update rest << dump_updates rest

-- The values of an INSERT, between its columns and the closing parenthesis.
unfoldable pub dump_statement : Statement → Dumped
unfolding dump_expression dump_names dump_updates
dump_statement (select_stmt s) = dump_select_statement s
dump_statement (insert_values table none values) = broken
dump_statement (insert_values table (some columns) values) =
    put "INSERT INTO "
    << dumped table
    << put " ("
    << dumped (dump_names columns)
    << put ") VALUES ("
    << dump_all values
    << put ")"
dump_statement (insert_select table s) =
    put "INSERT INTO " << dumped table << put " " << dump_select_statement s
dump_statement (update_stmt table alias updates condition) =
    put "UPDATE " << dumped table << put " SET " << dump_updates updates << dump_where condition
dump_statement delete_stmt = failed (ascii "postgres_tde: unsupported")
dump_statement other_stmt = broken

unfoldable pub dump_query : List Statement → Dumped
unfolding dump_statement
dump_query [] = dumped []
dump_query (s ∷ rest) = dump_statement s << put "; " << dump_query rest
