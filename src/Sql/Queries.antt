-- ===== src/Sql/Queries.antt =====
-- The same for tables, SELECT statements and whole queries.
use postgres_tde.Base.{List, [], false, none, some, true, ℕ, ◌∷◌}
use postgres_tde.Sql.Ast.{
  Expr, Select, select, TableRef, table_name, table_select, table_join, table_cross_product, Tables,
  no_tables, table_and, MaybeTable, no_table, from_table, Statement, select_stmt, insert_values,
  insert_select, update_stmt, delete_stmt, other_stmt,
}
use postgres_tde.Sql.Walk.{
  visit_expression, visit_maybe, visit_all, visit_select_statement, visit_where, visit_groups,
  visit_maybe_orders, visit_table_ref, visit_tables, visit_from, visit_updates, visit_statement,
  visit_statements, visit_query,
}
use postgres_tde.Sql.Fields.{Walk, Overrides, enter_select, in_body, in_join, add_table_alias}
use postgres_tde.Sql.Dump.{
  comma_before_update, dump_expression, dump_all, dump_select_statement, dump_where, dump_on,
  dump_groups, dump_maybe_orders, dump_table_ref, dump_tables, dump_from, dump_updates,
  dump_statement, dump_query, dump_names,
}
use postgres_tde.Sql.Text.{dumped, put, comma_before_table, dump_limit}
use postgres_tde.Sql.Accepted.{
  expression-Printed, all-Printed, where-Printed, on-Printed, groups-Printed, maybe_orders-Printed,
}
use postgres_tde.Sql.Verdict.{
  TakesPrinted, guarded-Accepted, Accepted, Printed, and_visit-Accepted, then-Printed,
  comma_before_table-Printed, comma_before_update-Printed,
}

mutual
  unfolding visit_select_statement dump_expression

  select-Printed :
      (g : Overrides) (k : TakesPrinted g.taking) (s : Select) (w : Walk)
      → Accepted (visit_select_statement g s w)
      → Printed (dump_select_statement s)
  select-Printed g k (select true list table condition grouping orders limit) w h = elim h [ ]
  select-Printed g k (select false list table condition grouping orders limit) w h =
      let (w₁, h₁, k₁) = and_visit-Accepted (visit_from g table (enter_select w)) _ h in
      let (w₂, h₂, k₂) = and_visit-Accepted (visit_all g list (in_body true w₁)) _ k₁ in
      let (w₃, h₃, k₃) = and_visit-Accepted (visit_where g condition (in_body false w₂)) _ k₂ in
      let (w₄, h₄, k₄) = and_visit-Accepted (visit_groups g grouping w₃) _ k₃ in
      let (w₅, h₅, k₅) = and_visit-Accepted (visit_maybe_orders g orders w₄) _ k₄ in
      then-Printed (put "SELECT ") _ tt (
        then-Printed (dump_all list) _ (all-Printed g k list (in_body true w₁) h₂) (
          then-Printed (dump_from table) _ (from-Printed g k table (enter_select w) h₁) (
            then-Printed (dump_where condition) _
              (where-Printed g k condition (in_body false w₂) h₃).0
              (then-Printed (dump_groups grouping) _ (groups-Printed g k grouping w₃ h₄) (
                then-Printed (dump_maybe_orders orders) (dumped (dump_limit limit))
                  (maybe_orders-Printed g k orders w₄ h₅) tt)))))

  table-Printed :
      (g : Overrides) (k : TakesPrinted g.taking) (t : TableRef) (w : Walk)
      → Accepted (visit_table_ref g t w)
      → Printed (dump_table_ref t)
  table-Printed g k (table_name name alias) w h = tt
  table-Printed g k (table_select s) w h =
      then-Printed (put "(") _ tt
        (then-Printed (dump_select_statement s) (put ")") (select-Printed g k s w h) tt)
  table-Printed g k (table_join left right condition) w h =
      let (w₁, h₁, k₁) = and_visit-Accepted (visit_table_ref g left w) _ h in
      let (w₂, h₂, k₂) = and_visit-Accepted (visit_table_ref g right w₁) _ k₁ in
      let (w₃, h₃, k₃) = and_visit-Accepted (visit_maybe g condition (in_join true w₂)) _ k₂ in
      then-Printed (dump_table_ref left) _ (table-Printed g k left w h₁) (
        then-Printed (put " JOIN ") _ tt (
          then-Printed (dump_table_ref right) (dump_on condition) (table-Printed g k right w₁ h₂)
            (on-Printed g k condition (in_join true w₂) h₃)))
  table-Printed g k (table_cross_product ts) w h = tables-Printed g k ts w h

  tables-Printed :
      (g : Overrides) (k : TakesPrinted g.taking) (ts : Tables) (w : Walk)
      → Accepted (visit_tables g ts w)
      → Printed (dump_tables ts)
  tables-Printed g k no_tables w h = tt
  tables-Printed g k (table_and t ts) w h =
      let (w₁, h₁, k₁) = and_visit-Accepted (visit_table_ref g t w) (visit_tables g ts) h in
      then-Printed (dump_table_ref t) _ (table-Printed g k t w h₁) (
        then-Printed (comma_before_table ts) _ (comma_before_table-Printed ts)
          (tables-Printed g k ts w₁ k₁))

  from-Printed :
      (g : Overrides) (k : TakesPrinted g.taking) (t : MaybeTable) (w : Walk)
      → Accepted (visit_from g t w)
      → Printed (dump_from t)
  from-Printed g k no_table w h = tt
  from-Printed g k (from_table t) w h = then-Printed (put " FROM ") _ tt (table-Printed g k t w h)

updates-Printed :
    (g : Overrides) (k : TakesPrinted g.taking) (us : List (List ℕ × Expr)) (w : Walk)
    → Accepted (visit_updates g us w)
    → Printed (dump_updates us)
unfolding visit_updates dump_updates
updates-Printed g k [] w h = tt
updates-Printed g k ((column, e) ∷ us) w h =
    let (w₁, h₁, k₁) = and_visit-Accepted (visit_expression g e w) (visit_updates g us) h in
    then-Printed (dumped column) _ tt (
      then-Printed (put " = ") _ tt (
        then-Printed (dump_expression e) _ (expression-Printed g k e w h₁) (
          then-Printed (comma_before_update us) _ (comma_before_update-Printed us)
            (updates-Printed g k us w₁ k₁))))

-- An INSERT that lists its columns, or another statement.
abbrev pub IsListed : Statement → Type 0
IsListed (insert_values table columns values) = elim columns [ none ↦ ⊥ | some cs ↦ Unit ]
IsListed _ = Unit

abbrev pub AllListed : List Statement → Type 0
AllListed [] = Unit
AllListed (s ∷ rest) = IsListed s × AllListed rest

statement-Printed :
    (g : Overrides) (k : TakesPrinted g.taking) (s : Statement) (w : Walk)
    → IsListed s
    → Accepted (visit_statement g s w)
    → Printed (dump_statement s)
unfolding visit_statement dump_statement
statement-Printed g k (select_stmt s) w l h = select-Printed g k s w h
statement-Printed g k (insert_values table none values) w l h = elim l [ ]
statement-Printed g k (insert_values table (some columns) values) w l h =
    then-Printed (put "INSERT INTO ") _ tt (
      then-Printed (dumped table) _ tt (
        then-Printed (put " (") _ tt (
          then-Printed (dumped (dump_names columns)) _ tt (
            then-Printed (put ") VALUES (") _ tt (
              then-Printed (dump_all values) (put ")")
                (all-Printed g k values w (guarded-Accepted _ _ h)) tt)))))
statement-Printed g k (insert_select table s) w l h = then-Printed (put "INSERT INTO ") _ tt (
    then-Printed (dumped table) _ tt
      (then-Printed (put " ") _ tt (select-Printed g k s w (guarded-Accepted _ _ h))))
statement-Printed g k (update_stmt table alias us condition) w l h =
    let (w₁, h₁, k₁) =
      and_visit-Accepted (visit_updates g us (add_table_alias table alias w)) _ h in
    then-Printed (put "UPDATE ") _ tt (
      then-Printed (dumped table) _ tt (
        then-Printed (put " SET ") _ tt (
          then-Printed (dump_updates us) (dump_where condition)
            (updates-Printed g k us (add_table_alias table alias w) h₁)
            (where-Printed g k condition w₁ k₁).0)))
statement-Printed g k delete_stmt w l h = elim h [ ]
statement-Printed g k other_stmt w l h = elim h [ ]

statements-Printed :
    (g : Overrides) (k : TakesPrinted g.taking) (ss : List Statement) (w : Walk)
    → AllListed ss
    → Accepted (visit_statements g ss w)
    → Printed (dump_query ss)
unfolding visit_statements dump_query
statements-Printed g k [] w l h = tt
statements-Printed g k (s ∷ ss) w l h =
    let (w₁, h₁, k₁) = and_visit-Accepted (visit_statement g s w) (visit_statements g ss) h in
    then-Printed (dump_statement s) _ (statement-Printed g k s w l.0 h₁)
      (then-Printed (put "; ") _ tt (statements-Printed g k ss w₁ l.1 k₁))

-- Whatever column check a mutator adds, if the operators that it takes for itself are none or the
-- equalities of two columns, a query that the traversal accepts, and each of whose INSERTs lists its
-- columns, is printed: the printer neither refuses it nor ends the program.
pub visit_query-Printed :
    (g : Overrides) (k : TakesPrinted g.taking) (q : List Statement) (w : Walk)
    → AllListed q
    → Accepted (visit_query g q w)
    → Printed (dump_query q)
unfolding visit_query
visit_query-Printed g k q w l h = statements-Printed g k q _ l h
