-- ===== src/Encryption/Scoped.antt =====
-- encryption.cc and visitor.cc: encrypted columns in a statement, by the tables of its own FROM.
use postgres_tde.Base.{
  List, Option, [], ap, false, none, refl, some, subst, sym, true, ℕ, ◌∙◌, ◌∷◌, ◌≡◌,
}
use postgres_tde.Sql.Ast.{
  Select, select, MaybeTable, no_table, from_table, Statement, select_stmt, insert_values,
  insert_select, update_stmt, delete_stmt, other_stmt,
}
use postgres_tde.Sql.Aliases.{all-KeepsAliases}
use postgres_tde.Sql.Walk.{
  visit_all, visit_where, visit_updates, visit_from, visit_select_statement, visit_statement,
  visit_statements, visit_query,
}
use postgres_tde.Sql.Fields.{
  Walk, visited, enter_select, find_text, in_body, add_table_alias, table_name_by_alias,
}
use postgres_tde.Sql.Verdict.{Accepted}
use postgres_tde.Config.Column.{DatabaseEncryptionConfig}
use postgres_tde.Encryption.Guard.{all-Ends}
use postgres_tde.Encryption.Each.{EachOf, EachOf-map}
use postgres_tde.Encryption.Clauses.{
  and_visit-visited, and_visit-Accepted, visited-Accepted, visited-injective, overrides,
  after_groups, conditions, conditions-ConditionsPlain, visit_where-WherePlain,
}
use postgres_tde.Encryption.Conditions.{updates-UpdatesPlain, guarded-visited}
use postgres_tde.Encryption.Scopes.{name_of, Reflects, table-Reflects, PlainIn}
use postgres_tde.Encryption.ScopedJoins.{
  same_aliases, list_aliases, plain_in, Left, table-JoinsPlain,
}
use postgres_tde.Encryption.ScopedClauses.{
  from_scope, ListsFrom, FromJoinsPlain, WhereIn, GroupsIn, MaybeOrdersIn, UpdatesIn, where-WhereIn,
  groups-GroupsIn, updates-UpdatesIn, after_groups-aliases, orders-MaybeOrdersIn,
}

abbrev pub ListsSelect : Select → Type 0
ListsSelect (select union list table condition grouping orders limit) = ListsFrom table

-- The statement has tables of its own only, and no two of them have one name.
abbrev pub SelectsTables : Statement → Type 0
SelectsTables (select_stmt q) = ListsSelect q
SelectsTables (insert_select table q) = ListsSelect q
SelectsTables _ = Unit

module _ (config : DatabaseEncryptionConfig) where
  -- A SELECT: the conditions of its joins, its condition, its groups and its order.
  abbrev pub SelectIn : Select → Type 0
  SelectIn (select union list table condition grouping orders limit) =
      FromJoinsPlain config table
      × WhereIn config (from_scope table) condition
      × GroupsIn config (from_scope table) grouping
      × MaybeOrdersIn config (from_scope table) orders

  abbrev pub StatementIn : Statement → Type 0
  StatementIn (select_stmt q) = SelectIn q
  StatementIn (insert_values table columns values) = EachOf (PlainIn config []) values
  StatementIn (insert_select table q) = SelectIn q
  StatementIn (update_stmt table alias updates condition) =
      UpdatesIn config ((name_of table alias, table) ∷ []) updates
      × WhereIn config ((name_of table alias, table) ∷ []) condition
  StatementIn delete_stmt = ⊥
  StatementIn other_stmt = ⊥

  nothing : (w : Walk) → w.table_aliases ≡ [] → Reflects [] w
  unfolding table_name_by_alias
  nothing w e = record {
    known = λ name table h. elim h [ ];
    unknown = λ name n. ap (find_text name) e;
  }

  from-JoinsPlain :
      (t : MaybeTable) (w w' : Walk)
      → ListsFrom t
      → w.in_select_body ≡ false
      → Reflects [] w
      → visit_from (overrides config) t w ≡ visited w'
      → Left config (from_scope t) w' (FromJoinsPlain config t)
  unfolding visit_select_statement Left
  from-JoinsPlain no_table w w' new out r e =
      subst (λ v. Unit × Reflects [] v × (v.in_select_body ≡ false)) (visited-injective _ _ e)
        (tt, r, out)
  from-JoinsPlain (from_table t) w w' new out r e = table-JoinsPlain config t [] w w' new out r e

  select-SelectIn :
      (q : Select) (w w' : Walk)
      → ListsSelect q
      → Reflects [] w
      → visit_select_statement (overrides config) q w ≡ visited w'
      → SelectIn q
  unfolding visit_select_statement Left
  select-SelectIn (select true list table condition grouping orders limit) w w' new r e =
      absurd (cc e)
  select-SelectIn (select false list table condition grouping orders limit) w w' new r e =
      let s = from_scope table in
      let last = λ (w₂ : Walk). conditions config w condition grouping orders (in_body false w₂) in
      let (w₁, e₁, f₁) =
        and_visit-visited (visit_from (overrides config) table (enter_select w)) _ w' e in
      let (w₂, e₂, f₂) =
        and_visit-visited (visit_all (overrides config) list (in_body true w₁)) last w' f₁ in
      let (joins, r₁, out₁) =
        from-JoinsPlain table (enter_select w) w₁ new refl
          (same_aliases [] w (enter_select w) refl r) e₁ in
      let kept =
        list_aliases (in_body true w₁) w₂ _
          (all-KeepsAliases (overrides config) list (in_body true w₁)) e₂ in
      let inside = same_aliases s w₁ (in_body false w₂) kept r₁ in
      let (condition_plain, groups_plain, orders_plain) =
        conditions-ConditionsPlain config w condition grouping orders (in_body false w₂) refl
          (visited-Accepted _ w' f₂) in
      let w₄ = after_groups config grouping (in_body false w₂) in
      (
        joins,
        where-WhereIn config s (in_body false w₂) condition inside condition_plain,
        groups-GroupsIn config s (in_body false w₂) grouping inside groups_plain,
        orders-MaybeOrdersIn config s w₄ orders
            (same_aliases s (in_body false w₂) w₄
              (after_groups-aliases config grouping (in_body false w₂)) inside)
            orders_plain,
      )

  -- Another field than the aliases does not matter to one table.
  statement-StatementIn :
      (st : Statement) (w w' : Walk)
      → SelectsTables st
      → w.in_select_body ≡ false
      → Reflects [] w
      → visit_statement (overrides config) st w ≡ visited w'
      → StatementIn st
  unfolding visit_statement
  statement-StatementIn (select_stmt q) w w' new out r e = select-SelectIn q w w' new r e
  statement-StatementIn (insert_values table columns values) w w' new out r e =
      let went = guarded-visited config _ (visit_all (overrides config) values w) w' e in
      EachOf-map (plain_in config [] w r) values
        (all-Ends config values w out (visited-Accepted _ w' went)).0
  statement-StatementIn (insert_select table q) w w' new out r e =
      select-SelectIn q w w' new r (guarded-visited config _ _ w' e)
  statement-StatementIn (update_stmt table alias updates condition) w w' new out r e =
      let s = (name_of table alias, table) ∷ [] in
      let w₀ = add_table_alias table alias w in
      let inside = table-Reflects table alias [] w tt r in
      let (w₁, e₁, f₁) =
        and_visit-visited (visit_updates (overrides config) updates w₀)
          (visit_where (overrides config) condition) w' e in
      let (plain, same) =
        updates-UpdatesPlain config updates w₀ (alias_outside alias) (visited-Accepted _ w₁ e₁) in
      let f₂ =
        ap (visit_where (overrides config) condition) (visited-injective _ _ (sym same ∙ e₁))
        ∙ f₁ in
      let (plain₂, same₂) =
        visit_where-WherePlain config condition w₀ (alias_outside alias)
          (visited-Accepted _ w' f₂) in
      (
        updates-UpdatesIn config s w₀ updates inside plain,
        where-WhereIn config s w₀ condition inside plain₂,
      )
    where
      alias_outside : (a : Option (List ℕ)) → (add_table_alias table a w).in_select_body ≡ false
      alias_outside none = out
      alias_outside (some a) = out
  statement-StatementIn delete_stmt w w' new out r e = absurd (cc e)
  statement-StatementIn other_stmt w w' new out r e = absurd (cc e)

  -- A query of one statement that selects from tables only, no two of which have one name. If the
  -- encryption mutator's traversal accepts it, then outside of a SELECT's list every column has the
  -- name of a table in front, and is not encrypted in the table that the FROM, or the UPDATE, has
  -- for that name, by an alias or by the table's own name: in conditions, groups, orders and the
  -- conditions of joins, and in the values of an INSERT or an UPDATE. (The visitor is outside of a
  -- select body before, as a new one is.)
  pub visit_query-StatementIn :
      (st : Statement) (w : Walk)
      → SelectsTables st
      → w.in_select_body ≡ false
      → Accepted (visit_query (overrides config) (st ∷ []) w)
      → StatementIn st
  unfolding visit_query visit_statements
  visit_query-StatementIn st w new out h =
      let start = record w {
        table_aliases = [];
        select_columns = [];
        select_column_aliases = [];
      } in
      let (w', e, rest) = and_visit-Accepted (visit_statement (overrides config) st start) _ h in
      statement-StatementIn st start w' new out (nothing start refl) e
