-- ===== src/Sql/Accepted.antt =====
-- The two visitors agree: what the traversal accepts, the printer prints.
use postgres_tde.Base.{Bool, false, if◌then◌else◌, true}
use postgres_tde.Sql.Ast.{
  Expr, star, column_ref, literal_float, literal_int, literal_string, literal_null, operator,
  select_expr, array_expr, other_literal, other_expr, MaybeExpr, no_expr, an_expr, Exprs, no_more,
  and_then, MaybeExprs, no_exprs, some_exprs, Groups, no_groups, group_by, Orders, no_more_orders,
  order_by, MaybeOrders, no_order, ordered, shape,
}
use postgres_tde.Sql.Walk.{
  visit_expression, visit_maybe, visit_all, visit_list, visit_select_statement, visit_where,
  visit_groups, visit_orders, visit_maybe_orders,
}
use postgres_tde.Sql.Fields.{Walk, Overrides, in_groups}
use postgres_tde.Sql.Dump.{
  dump_expression, dump_maybe, dump_all, dump_list, dump_where, dump_having, dump_on, dump_groups,
  dump_orders, dump_maybe_orders,
}
use postgres_tde.Sql.Text.{put, comma_before, comma_before_order, operator_to_string}
use postgres_tde.Sql.Verdict.{
  TakesPrinted, Accepted, Printed, and_visit-Accepted, then-Printed, comma_before-Printed,
  comma_before_order-Printed, operator-Printed, unless_taken-Printed,
}

mutual
  unfolding visit_expression dump_expression

  pub expression-Printed :
      (g : Overrides) (k : TakesPrinted g.taking) (e : Expr) (w : Walk)
      → Accepted (visit_expression g e w)
      → Printed (dump_expression e)
  expression-Printed g k star w h = tt
  expression-Printed g k (column_ref table name alias) w h = tt
  expression-Printed g k (literal_float bytes text) w h = tt
  expression-Printed g k (literal_int negative n) w h = tt
  expression-Printed g k (literal_string text) w h = tt
  expression-Printed g k literal_null w h = tt
  expression-Printed g k (operator op a b es) w h = unless_taken-Printed g k op a b es w _ h (
      operator-Printed (shape op) (operator_to_string op) (visit_maybe g a) (visit_maybe g b)
        (visit_list g es) (dump_maybe a) (dump_maybe b) (dump_list es) (maybe-Printed g k a)
        (maybe-Printed g k b) (list-Printed g k es) w)
  expression-Printed g k (select_expr s) w h = absurd h
  expression-Printed g k array_expr w h = absurd h
  expression-Printed g k other_literal w h = absurd h
  expression-Printed g k other_expr w h = absurd h

  pub maybe-Printed :
      (g : Overrides) (k : TakesPrinted g.taking) (e : MaybeExpr) (w : Walk)
      → Accepted (visit_maybe g e w)
      → Printed (dump_maybe e)
  maybe-Printed g k no_expr w h = absurd h
  maybe-Printed g k (an_expr e) w h = expression-Printed g k e w h

  pub all-Printed :
      (g : Overrides) (k : TakesPrinted g.taking) (es : Exprs) (w : Walk)
      → Accepted (visit_all g es w)
      → Printed (dump_all es)
  all-Printed g k no_more w h = tt
  all-Printed g k (and_then e es) w h =
      let (w₁, first, rest) = and_visit-Accepted (visit_expression g e w) (visit_all g es) h in
      then-Printed (dump_expression e) _ (expression-Printed g k e w first)
        (then-Printed (comma_before es) _ (comma_before-Printed es) (all-Printed g k es w₁ rest))

  pub list-Printed :
      (g : Overrides) (k : TakesPrinted g.taking) (es : MaybeExprs) (w : Walk)
      → Accepted (visit_list g es w)
      → Printed (dump_list es)
  list-Printed g k no_exprs w h = absurd h
  list-Printed g k (some_exprs es) w h = all-Printed g k es w h

pub where-Printed :
    (g : Overrides) (k : TakesPrinted g.taking) (e : MaybeExpr) (w : Walk)
    → Accepted (visit_where g e w)
    → Printed (dump_where e) × Printed (dump_having e)
unfolding visit_select_statement dump_expression
where-Printed g k no_expr w h = (tt, tt)
where-Printed g k (an_expr e) w h = (
  then-Printed (put " WHERE ") _ tt (expression-Printed g k e w h),
  then-Printed (put " HAVING ") _ tt (expression-Printed g k e w h),
)

pub on-Printed :
    (g : Overrides) (k : TakesPrinted g.taking) (e : MaybeExpr) (w : Walk)
    → Accepted (visit_maybe g e w)
    → Printed (dump_on e)
unfolding visit_expression dump_expression
on-Printed g k no_expr w h = elim h [ ]
on-Printed g k (an_expr e) w h =
    then-Printed (put " ON (") _ tt
      (then-Printed (dump_expression e) (put ")") (expression-Printed g k e w h) tt)

pub groups-Printed :
    (g : Overrides) (k : TakesPrinted g.taking) (gs : Groups) (w : Walk)
    → Accepted (visit_groups g gs w)
    → Printed (dump_groups gs)
unfolding visit_select_statement dump_expression
groups-Printed g k no_groups w h = tt
groups-Printed g k (group_by columns having) w h =
    let (w₁, listed, rest) = and_visit-Accepted (visit_all g columns (in_groups true w)) _ h in
    let (w₂, kept, _) = and_visit-Accepted (visit_where g having w₁) _ rest in
    then-Printed (put " GROUP BY ") _ tt (
      then-Printed (dump_all columns) _ (all-Printed g k columns (in_groups true w) listed)
        (where-Printed g k having w₁ kept).1)

orders-Printed :
    (g : Overrides) (k : TakesPrinted g.taking) (os : Orders) (w : Walk)
    → Accepted (visit_orders g os w)
    → Printed (dump_orders os)
unfolding visit_select_statement dump_expression
orders-Printed g k no_more_orders w h = tt
orders-Printed g k (order_by e ascending os) w h =
    let (w₁, first, rest) = and_visit-Accepted (visit_expression g e w) (visit_orders g os) h in
    then-Printed (dump_expression e) _ (expression-Printed g k e w first) (
      then-Printed (if ascending then put " ASC" else put " DESC") _ (direction ascending) (
        then-Printed (comma_before_order os) _ (comma_before_order-Printed os)
          (orders-Printed g k os w₁ rest)))
  where
    direction : (b : Bool) → Printed (if b then put " ASC" else put " DESC")
    direction true = tt
    direction false = tt

pub maybe_orders-Printed :
    (g : Overrides) (k : TakesPrinted g.taking) (os : MaybeOrders) (w : Walk)
    → Accepted (visit_maybe_orders g os w)
    → Printed (dump_maybe_orders os)
unfolding visit_select_statement dump_expression
maybe_orders-Printed g k no_order w h = tt
maybe_orders-Printed g k (ordered os) w h =
    then-Printed (put " ORDER BY ") _ tt (orders-Printed g k os w h)
