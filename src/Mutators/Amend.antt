-- ===== src/Mutators/Amend.antt =====
-- The loops over recorded expressions (`mutateComparisons`, `mutateGroupByExpressions`,
-- `mutateJoins`): the traversal records the expressions in the order in which it meets them, and the
-- loop changes them in place. Here both are one pass in the order of the traversal.
use postgres_tde.Base.{Bool, List, Option, [], false, if◌then◌else◌, true, ℕ, ◌∷◌}
use postgres_tde.Mutation.{Mutated, mutated, and_mutate}
use postgres_tde.Sql.Ast.{
  Expr, column_ref, operator, MaybeExpr, no_expr, an_expr, Exprs, no_more, and_then, MaybeExprs,
  no_exprs, some_exprs, Select, select, Groups, no_groups, group_by, Orders, no_more_orders,
  order_by, MaybeOrders, no_order, ordered, TableRef, table_name, table_select, table_join,
  table_cross_product, Tables, no_tables, table_and, MaybeTable, no_table, from_table, Statement,
  select_stmt, insert_values, insert_select, update_stmt, Shape, binary, prefix, postfix,
  membership, unsupported, shape, Operator,
}
use postgres_tde.Sql.Fields.{Taking, taken}

-- What a loop does to a recorded operator, by its two operands, and to a recorded column of a GROUP
-- BY; `S` is what it collects.
pub record Amendment (S : Type 0) : Type 0 where
  pub taking : Taking
  pub on_operands : Expr → Expr → S → Mutated ((Expr × Expr) × S)
  pub on_group : Option (List ℕ) → List ℕ → Option (List ℕ) → S → Mutated (Expr × S)

-- Two parts, one after the other.
abbrev pub both :
    {A B C S : Type 0}
    → (A → B → C)
    → (S → Mutated (A × S))
    → (S → Mutated (B × S))
    → S
    → Mutated (C × S)
both make first second s =
    and_mutate (first s) (λ r. and_mutate (second r.1) (λ q. mutated (make r.0 q.0, q.1)))

abbrev pub one : {A B S : Type 0} → (A → B) → (S → Mutated (A × S)) → S → Mutated (B × S)
one make first s = and_mutate (first s) (λ r. mutated (make r.0, r.1))

abbrev pub same : {A S : Type 0} → A → S → Mutated (A × S)
same a s = mutated (a, s)

-- The operands that `visitOperatorExpression` visits.
abbrev pub amend_operator :
    {S : Type 0}
    → Operator
    → Shape
    → MaybeExpr
    → MaybeExpr
    → MaybeExprs
    → (S → Mutated (MaybeExpr × S))
    → (S → Mutated (MaybeExpr × S))
    → (S → Mutated (MaybeExprs × S))
    → S
    → Mutated (Expr × S)
amend_operator op binary a b es fa fb fes s = both (λ a' b'. operator op a' b' es) fa fb s
amend_operator op prefix a b es fa fb fes s = one (λ a'. operator op a' b es) fa s
amend_operator op postfix a b es fa fb fes s = one (λ a'. operator op a' b es) fa s
amend_operator op membership a b es fa fb fes s = both (λ a' es'. operator op a' b es') fa fes s
amend_operator op unsupported a b es fa fb fes s = same (operator op a b es) s

abbrev pub amend_taken :
    {S : Type 0}
    → Amendment S
    → Operator
    → MaybeExpr
    → MaybeExpr
    → MaybeExprs
    → S
    → Mutated (Expr × S)
amend_taken m op (an_expr a) (an_expr b) es s =
    one (λ (ab : Expr × Expr). operator op (an_expr ab.0) (an_expr ab.1) es) (m.on_operands a b) s
amend_taken m op a b es s = same (operator op a b es) s

module _ {S : Type 0} (m : Amendment S) where
  unfoldable mutual
    unfolding shape taken

    -- The flag is `in_group_by_`.
    pub amend_expression : Bool → Expr → S → Mutated (Expr × S)
    amend_expression g (column_ref table name alias) s =
        if g then m.on_group table name alias s else same (column_ref table name alias) s
    amend_expression g (operator op a b es) s =
        let inside =
          amend_operator op (shape op) a b es (amend_maybe g a) (amend_maybe g b) (amend_list g es)
            s in
        if taken m.taking op a b then amend_taken m op a b es s else inside
    amend_expression g e s = same e s

    pub amend_maybe : Bool → MaybeExpr → S → Mutated (MaybeExpr × S)
    amend_maybe g no_expr s = same no_expr s
    amend_maybe g (an_expr e) s = one an_expr (amend_expression g e) s

    pub amend_all : Bool → Exprs → S → Mutated (Exprs × S)
    amend_all g no_more s = same no_more s
    amend_all g (and_then e es) s = both and_then (amend_expression g e) (amend_all g es) s

    pub amend_list : Bool → MaybeExprs → S → Mutated (MaybeExprs × S)
    amend_list g no_exprs s = same no_exprs s
    amend_list g (some_exprs es) s = one some_exprs (amend_all g es) s

  unfoldable mutual
    unfolding amend_expression

    pub amend_select : Select → S → Mutated (Select × S)
    amend_select (select union list table condition grouping orders limit) s =
        and_mutate (amend_from table s) (λ t. and_mutate (amend_all false list t.1) (λ l.
          and_mutate (amend_maybe false condition l.1) (λ c.
            and_mutate (amend_groups grouping c.1) (λ g.
              and_mutate (amend_maybe_orders orders g.1)
                (λ o. mutated (select union l.0 t.0 c.0 g.0 o.0 limit, o.1))))))

    pub amend_groups : Groups → S → Mutated (Groups × S)
    amend_groups no_groups s = same no_groups s
    amend_groups (group_by columns having) s =
        both group_by (amend_all true columns) (amend_maybe true having) s

    pub amend_orders : Orders → S → Mutated (Orders × S)
    amend_orders no_more_orders s = same no_more_orders s
    amend_orders (order_by e ascending rest) s =
        both (λ e' rest'. order_by e' ascending rest') (amend_expression false e)
          (amend_orders rest) s

    pub amend_maybe_orders : MaybeOrders → S → Mutated (MaybeOrders × S)
    amend_maybe_orders no_order s = same no_order s
    amend_maybe_orders (ordered os) s = one ordered (amend_orders os) s

    pub amend_table : TableRef → S → Mutated (TableRef × S)
    amend_table (table_name name alias) s = same (table_name name alias) s
    amend_table (table_select q) s = one table_select (amend_select q) s
    amend_table (table_join left right condition) s = and_mutate (amend_table left s) (λ l.
        and_mutate (amend_table right l.1)
          (λ r. one (table_join l.0 r.0) (amend_maybe false condition) r.1))
    amend_table (table_cross_product tables) s = one table_cross_product (amend_tables tables) s

    pub amend_tables : Tables → S → Mutated (Tables × S)
    amend_tables no_tables s = same no_tables s
    amend_tables (table_and t ts) s = both table_and (amend_table t) (amend_tables ts) s

    pub amend_from : MaybeTable → S → Mutated (MaybeTable × S)
    amend_from no_table s = same no_table s
    amend_from (from_table t) s = one from_table (amend_table t) s

  unfoldable pub amend_updates : List (List ℕ × Expr) → S → Mutated (List (List ℕ × Expr) × S)
  unfolding amend_expression
  amend_updates [] s = same [] s
  amend_updates ((column, e) ∷ rest) s =
      both (λ e' rest'. (column, e') ∷ rest') (amend_expression false e) (amend_updates rest) s

  unfoldable pub amend_statement : Statement → S → Mutated (Statement × S)
  unfolding amend_select amend_updates
  amend_statement (select_stmt q) s = one select_stmt (amend_select q) s
  amend_statement (insert_values table columns values) s =
      one (insert_values table columns) (amend_all false values) s
  amend_statement (insert_select table q) s = one (insert_select table) (amend_select q) s
  amend_statement (update_stmt table alias updates condition) s =
      both (update_stmt table alias) (amend_updates updates) (amend_maybe false condition) s
  amend_statement st s = same st s

  unfoldable pub amend_query : List Statement → S → Mutated (List Statement × S)
  unfolding amend_statement
  amend_query [] s = same [] s
  amend_query (st ∷ rest) s =
      both (λ st' rest'. st' ∷ rest') (amend_statement st) (amend_query rest) s
