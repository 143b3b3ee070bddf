-- ===== src/Sql/Ast.antt =====
-- The syntax trees of the SQL library, as far as the visitors read them. A pointer that may be null
-- is a type of its own here, with `no_...` for null.
use postgres_tde.Base.{Bool, List, Option, false, true, ℕ}

-- `hsql::OperatorType`.
pub data Operator : Type 0 where
  op_none op_between op_case op_case_list_element : Operator
  op_plus op_minus op_asterisk op_slash op_percentage op_caret : Operator
  op_equals op_not_equals op_less op_less_eq op_greater op_greater_eq : Operator
  op_like op_not_like op_ilike op_and op_or op_in op_concat : Operator
  op_not op_unary_minus op_is_null op_exists : Operator

-- `hsql::LimitDescription`; `none` for `kNoLimit` and `kNoOffset`.
pub record Limit : Type 0 where
  pub limit : Option ℕ
  pub offset : Option ℕ

-- `hsql::Expr` by its `type`, `hsql::SelectStatement` and `hsql::TableRef`. A float literal is the
-- bytes of its `double` and the text that a stream prints for it; `other_literal` is a parameter, a
-- date or an interval (`kExprParameter`, `kExprLiteralDate`, `kExprLiteralInterval`), which are
-- literals for the library and cases of no switch of the source.
mutual
  pub data Expr : Type 0 where
    star : Expr
    column_ref : Option (List ℕ) → List ℕ → Option (List ℕ) → Expr
    literal_float : List ℕ → List ℕ → Expr
    literal_int : Bool → ℕ → Expr
    literal_string : List ℕ → Expr
    literal_null : Expr
    operator : Operator → MaybeExpr → MaybeExpr → MaybeExprs → Expr
    select_expr : Select → Expr
    array_expr : Expr
    other_literal : Expr
    other_expr : Expr

  pub data MaybeExpr : Type 0 where
    no_expr : MaybeExpr
    an_expr : Expr → MaybeExpr

  pub data Exprs : Type 0 where
    no_more : Exprs
    and_then : Expr → Exprs → Exprs

  pub data MaybeExprs : Type 0 where
    no_exprs : MaybeExprs
    some_exprs : Exprs → MaybeExprs

  -- `unionSelect != nullptr`, and the select list, table, condition, groups, order and limit.
  pub data Select : Type 0 where
    select : Bool → Exprs → MaybeTable → MaybeExpr → Groups → MaybeOrders → Option Limit → Select

  pub data Groups : Type 0 where
    no_groups : Groups
    group_by : Exprs → MaybeExpr → Groups

  -- `hsql::OrderDescription`s, each with whether it is ascending.
  pub data Orders : Type 0 where
    no_more_orders : Orders
    order_by : Expr → Bool → Orders → Orders

  pub data MaybeOrders : Type 0 where
    no_order : MaybeOrders
    ordered : Orders → MaybeOrders

  pub data TableRef : Type 0 where
    table_name : List ℕ → Option (List ℕ) → TableRef
    table_select : Select → TableRef
    table_join : TableRef → TableRef → MaybeExpr → TableRef
    table_cross_product : Tables → TableRef

  pub data Tables : Type 0 where
    no_tables : Tables
    table_and : TableRef → Tables → Tables

  pub data MaybeTable : Type 0 where
    no_table : MaybeTable
    from_table : TableRef → MaybeTable

-- `hsql::SQLStatement`. An INSERT has its table, its columns, if it lists them, and its values.
pub data Statement : Type 0 where
  select_stmt : Select → Statement
  insert_values : List ℕ → Option (List (List ℕ)) → Exprs → Statement
  insert_select : List ℕ → Select → Statement
  update_stmt : List ℕ → Option (List ℕ) → List (List ℕ × Expr) → MaybeExpr → Statement
  delete_stmt : Statement
  other_stmt : Statement

-- How the visitors treat an operator, by the cases of `visitOperatorExpression`.
pub data Shape : Type 0 where
  binary prefix postfix membership unsupported : Shape

unfoldable pub shape : Operator → Shape
shape op_none = unsupported
shape op_between = unsupported
shape op_case = unsupported
shape op_case_list_element = unsupported
shape op_in = membership
shape op_not = prefix
shape op_unary_minus = prefix
shape op_exists = prefix
shape op_is_null = postfix
shape _ = binary

-- `Expr::isLiteral`.
abbrev pub is_literal : Expr → Bool
is_literal (literal_float bytes text) = true
is_literal (literal_int negative i) = true
is_literal (literal_string text) = true
is_literal literal_null = true
is_literal other_literal = true
is_literal _ = false
