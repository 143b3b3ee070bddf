-- ===== src/Examples/Queries.antt =====
-- visitor.cc and dump_visitor.cc at concrete queries.
use postgres_tde.Base.{[], false, none, refl, some, ◌++◌, ◌∷◌, ◌≡◌}
use postgres_tde.Manager.State.{ascii}
use postgres_tde.Sql.Ast.{
  op_equals, Expr, column_ref, literal_int, literal_string, operator, an_expr, no_more, and_then,
  no_exprs, select, no_groups, no_order, table_name, from_table, Statement, select_stmt,
}
use postgres_tde.Sql.Walk.{visit_query, visit_select_statement, visit_expression, visit_statements}
use postgres_tde.Sql.Fields.{
  Walk, Overrides, takes_nothing, taken, visit_column, select_column, table_name_by_alias,
}
use postgres_tde.Sql.Dump.{dump_query, dump_expression}
use postgres_tde.Sql.Verdict.{Printed}
use postgres_tde.Sql.Queries.{visit_query-Printed}
use postgres_tde.Sql.Literals.{
  read_literal, output, dumped_literal_reads_back, dumped_quote_ends_literal,
}

abbrev pub new_walk : Walk
new_walk = record {
  in_select_body = false;
  in_join_condition = false;
  in_group_by = false;
  table_aliases = [];
  select_columns = [];
  select_column_aliases = [];
}

abbrev plain_visitor : Overrides
plain_visitor = record {
  at_column = λ table name w. none;
  taking = takes_nothing;
  at_insert = λ s. none;
}

-- SELECT t.a FROM t WHERE t.a = 5
abbrev column_a : Expr
column_a = column_ref (some (ascii "t")) (ascii "a") none

abbrev one_select : Statement
one_select = select_stmt (
    select false (and_then column_a no_more) (from_table (table_name (ascii "t") none))
      (an_expr (operator op_equals (an_expr column_a) (an_expr (literal_int false 5)) no_exprs))
      no_groups no_order none)

visit_query-Printed_example : Printed (dump_query (one_select ∷ []))
unfolding taken visit_query visit_statements visit_select_statement visit_expression visit_column
    select_column table_name_by_alias
visit_query-Printed_example =
    visit_query-Printed plain_visitor tt (one_select ∷ []) new_walk (tt, tt) tt

dumped_literal_reads_back_example :
    read_literal (output (dump_expression (literal_string (ascii "ab"))) ++ ascii ")")
    ≡ some (ascii "ab", ascii ")")
dumped_literal_reads_back_example =
    dumped_literal_reads_back (ascii "ab") (ascii ")") (refl, (refl, tt)) refl

-- The string `x' OR y`, where a server reads `x` and goes on with ` OR y`.
dumped_quote_ends_literal_example :
    read_literal (output (dump_expression (literal_string (ascii "x' OR y"))) ++ [])
    ≡ some (ascii "x", ascii " OR y'")
dumped_quote_ends_literal_example =
    dumped_quote_ends_literal (ascii "x") (ascii " OR y") [] (refl, tt) refl
