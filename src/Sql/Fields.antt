-- ===== src/Sql/Fields.antt =====
-- visitor.h and visitor.cc: the fields of a visitor, the visit of a column, and the overrides.
use postgres_tde.Base.{
  Bool, List, Option, [], false, if◌then◌else◌, none, some, true, ℕ, ◌&&◌, ◌++◌, ◌==◌, ◌∷◌,
}
use postgres_tde.Manager.State.{ascii}
use postgres_tde.Sql.Ast.{
  Operator, op_equals, op_not_equals, is_literal, Expr, column_ref, MaybeExpr, an_expr, Statement,
}

abbrev pub ColumnRef : Type 0
ColumnRef = List ℕ × List ℕ

-- The fields of `Visitor`. The newest entry of a map stands first.
pub record Walk : Type 0 where
  pub in_select_body : Bool
  pub in_join_condition : Bool
  pub in_group_by : Bool
  pub table_aliases : List (List ℕ × List ℕ)
  pub select_columns : List ColumnRef
  pub select_column_aliases : List (List ℕ × ColumnRef)

-- What a visit ends with: the fields, the text of an error, or the end of the program, by `PANIC`
-- or by the use of a null pointer.
pub data Visited : Type 0 where
  visited : Walk → Visited
  refused : List ℕ → Visited
  panicked : Visited

-- `CHECK_RESULT`.
abbrev pub and_visit : Visited → (Walk → Visited) → Visited
and_visit (visited w) next = next w
and_visit (refused e) next = refused e
and_visit panicked next = panicked

abbrev pub same_text : List ℕ → List ℕ → Bool
same_text [] [] = true
same_text [] (y ∷ ys) = false
same_text (x ∷ xs) [] = false
same_text (x ∷ xs) (y ∷ ys) = if x == y then same_text xs ys else false

abbrev pub find_text : {A : Type 0} → List ℕ → List (List ℕ × A) → Option A
find_text key [] = none
find_text key ((k, a) ∷ rest) = if same_text key k then some a else find_text key rest

unfoldable pub table_name_by_alias : List ℕ → Walk → List ℕ
table_name_by_alias alias w = elim (find_text alias w.table_aliases) [
  | none ↦ alias
  | some table ↦ table
]

abbrev pub same_column : ColumnRef → ColumnRef → Bool
same_column a b = if same_text a.0 b.0 then same_text a.1 b.1 else false

abbrev pub no_source : List ℕ → List ℕ
no_source column =
    ascii "postgres_tde: unable to determine the source of column "
    ++ (column ++ ascii ". Please specify an explicit table/alias reference")

abbrev pub ambiguous : List ℕ → List ℕ
ambiguous column =
    ascii "postgres_tde: detected ambiguous column name "
    ++ (column ++ ascii ". Please specify a different alias for each column")

-- A column with a table in a select body: it is selected, and its alias, or its name unless another
-- column has it, stands for it.
unfoldable pub select_column : ColumnRef → List ℕ → Option (List ℕ) → Walk → Visited
select_column column name (some alias) w = visited (record w {
  select_columns = column ∷ w.select_columns;
  select_column_aliases = (alias, column) ∷ w.select_column_aliases;
})
select_column column name none w =
    let named = visited (record w {
      select_columns = column ∷ w.select_columns;
      select_column_aliases = (name, column) ∷ w.select_column_aliases;
    }) in
    elim (find_text name w.select_column_aliases) [
      | none ↦ named
      | some old ↦ if same_column old column then named else refused (ambiguous name)
    ]

unfoldable pub visit_column : Option (List ℕ) → List ℕ → Option (List ℕ) → Walk → Visited
unfolding table_name_by_alias select_column
visit_column none name alias w = if w.in_select_body then refused (no_source name) else visited w
visit_column (some table) name alias w =
    if w.in_select_body
    then select_column (table_name_by_alias table w, name) name alias w
    else visited w

abbrev pub enter_select : Walk → Walk
enter_select w = record w { in_select_body = false; in_join_condition = false; in_group_by = false }

-- The flags as they were, by `state_flag_restorer`.
abbrev pub leave_select : Walk → Walk → Visited
leave_select old w = visited (record w {
  in_select_body = old.in_select_body;
  in_join_condition = old.in_join_condition;
  in_group_by = old.in_group_by;
})

abbrev pub in_body : Bool → Walk → Walk
in_body b w = record w { in_select_body = b }

abbrev pub in_join : Bool → Walk → Walk
in_join b w = record w { in_join_condition = b }

abbrev pub in_groups : Bool → Walk → Walk
in_groups b w = record w { in_group_by = b }

abbrev pub add_table_alias : List ℕ → Option (List ℕ) → Walk → Walk
add_table_alias name none w = w
add_table_alias name (some alias) w = record w { table_aliases = (alias, name) ∷ w.table_aliases }

abbrev pub unsupported_text : List ℕ
unsupported_text = ascii "postgres_tde: unsupported"

-- The override of `visitExpression` at a column, which may refuse it before `Visitor` sees it.
abbrev pub Guard : Type 0
Guard = Option (List ℕ) → List ℕ → Walk → Option (List ℕ)

abbrev pub guarded : Option (List ℕ) → Visited → Visited
guarded none next = next
guarded (some e) next = refused e

-- What a mutator records in its override of `visitOperatorExpression`, without a visit of the
-- operands: comparisons of a column with a literal, or of two columns.
pub data Taking : Type 0 where
  takes_nothing takes_comparisons takes_joins : Taking

abbrev pub is_column : Expr → Bool
is_column (column_ref table name alias) = true
is_column _ = false

abbrev pub is_equality : Operator → Bool
is_equality op_equals = true
is_equality _ = false

abbrev pub is_comparison : Operator → Bool
is_comparison op_not_equals = true
is_comparison op = is_equality op

unfoldable pub taken : Taking → Operator → MaybeExpr → MaybeExpr → Bool
taken takes_comparisons op (an_expr a) (an_expr b) =
    is_comparison op && (is_column a && is_literal b)
taken takes_joins op (an_expr a) (an_expr b) = is_equality op && (is_column a && is_column b)
taken _ op _ _ = false

abbrev pub unless_taken : Bool → Walk → Visited → Visited
unless_taken true w next = visited w
unless_taken false w next = next

-- The overrides of a mutator: at a column, at an operator, and at an INSERT.
pub record Overrides : Type 0 where
  pub at_column : Guard
  pub taking : Taking
  pub at_insert : Statement → Option (List ℕ)
