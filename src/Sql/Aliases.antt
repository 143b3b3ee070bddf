-- ===== src/Sql/Aliases.antt =====
-- visitor.cc: `visitExpression` leaves `table_aliases_` alone.
use postgres_tde.Base.{
  Bool, List, Option, false, if◌then◌else◌, none, refl, some, true, ℕ, ◌∙◌, ◌∷◌, ◌≡◌,
}
use postgres_tde.Sql.Ast.{
  Expr, star, column_ref, literal_float, literal_int, literal_string, literal_null, operator,
  select_expr, array_expr, other_literal, other_expr, MaybeExpr, no_expr, an_expr, Exprs, no_more,
  and_then, MaybeExprs, no_exprs, some_exprs, Shape, binary, prefix, postfix, membership,
  unsupported, shape,
}
use postgres_tde.Sql.Fields.{
  Walk, ColumnRef, Visited, visited, refused, panicked, and_visit, Overrides, guarded, taken,
  unless_taken, find_text, same_column, ambiguous, select_column, visit_column,
}
use postgres_tde.Sql.Walk.{visit_operator, visit_expression, visit_maybe, visit_all, visit_list}

-- A visit that goes well leaves the aliases as they were.
abbrev pub KeepsAliases : Walk → Visited → Type 0
KeepsAliases w (visited w') = w'.table_aliases ≡ w.table_aliases
KeepsAliases w (refused e) = Unit
KeepsAliases w panicked = Unit

and_visit-KeepsAliases :
    (w : Walk) (v : Visited) (next : Walk → Visited)
    → KeepsAliases w v
    → ((w' : Walk) → KeepsAliases w' (next w'))
    → KeepsAliases w (and_visit v next)
and_visit-KeepsAliases w (visited w') next h k = go (next w') (k w')
  where
    go : (v : Visited) → KeepsAliases w' v → KeepsAliases w v
    go (visited w₂) e = e ∙ h
    go (refused t) e = tt
    go panicked e = tt
and_visit-KeepsAliases w (refused e) next h k = tt
and_visit-KeepsAliases w panicked next h k = tt

guarded-KeepsAliases :
    (w : Walk) (refusal : Option (List ℕ)) (v : Visited)
    → KeepsAliases w v
    → KeepsAliases w (guarded refusal v)
guarded-KeepsAliases w none v h = h
guarded-KeepsAliases w (some t) v h = tt

select_column-KeepsAliases :
    (column : ColumnRef) (name : List ℕ) (alias : Option (List ℕ)) (w : Walk)
    → KeepsAliases w (select_column column name alias w)
unfolding select_column
select_column-KeepsAliases column name (some alias) w = refl
select_column-KeepsAliases column name none w = go (find_text name w.select_column_aliases)
  where
    named : Visited
    named = visited (record w {
      select_columns = column ∷ w.select_columns;
      select_column_aliases = (name, column) ∷ w.select_column_aliases;
    })

    same : (b : Bool) → KeepsAliases w (if b then named else refused (ambiguous name))
    same true = refl
    same false = tt

    go :
        (o : Option ColumnRef)
        → KeepsAliases w (elim o [
          | none ↦ named
          | some old ↦ if same_column old column then named else refused (ambiguous name)
        ])
    go none = refl
    go (some old) = same (same_column old column)

visit_column-KeepsAliases :
    (table : Option (List ℕ)) (name : List ℕ) (alias : Option (List ℕ)) (w : Walk)
    → KeepsAliases w (visit_column table name alias w)
unfolding visit_column
visit_column-KeepsAliases none name alias w = go w.in_select_body _
  where
    go : (b : Bool) (text : List ℕ) → KeepsAliases w (if b then refused text else visited w)
    go true text = tt
    go false text = refl
visit_column-KeepsAliases (some table) name alias w = go w.in_select_body _
  where
    go :
        (b : Bool) (column : ColumnRef)
        → KeepsAliases w (if b then select_column column name alias w else visited w)
    go true column = select_column-KeepsAliases column name alias w
    go false column = refl

operator-KeepsAliases :
    (s : Shape) (expr expr2 exprs : Walk → Visited) (w : Walk)
    → ((w : Walk) → KeepsAliases w (expr w))
    → ((w : Walk) → KeepsAliases w (expr2 w))
    → ((w : Walk) → KeepsAliases w (exprs w))
    → KeepsAliases w (visit_operator s expr expr2 exprs w)
operator-KeepsAliases binary expr expr2 exprs w p q r =
    and_visit-KeepsAliases w (expr w) expr2 (p w) q
operator-KeepsAliases prefix expr expr2 exprs w p q r = p w
operator-KeepsAliases postfix expr expr2 exprs w p q r = p w
operator-KeepsAliases membership expr expr2 exprs w p q r =
    and_visit-KeepsAliases w (expr w) exprs (p w) r
operator-KeepsAliases unsupported expr expr2 exprs w p q r = tt

unless_taken-KeepsAliases :
    (b : Bool) (w : Walk) (v : Visited) → KeepsAliases w v → KeepsAliases w (unless_taken b w v)
unless_taken-KeepsAliases true w v h = refl
unless_taken-KeepsAliases false w v h = h

mutual
  unfolding visit_expression

  expression-KeepsAliases :
      (g : Overrides) (e : Expr) (w : Walk) → KeepsAliases w (visit_expression g e w)
  expression-KeepsAliases g star w = tt
  expression-KeepsAliases g (column_ref table name alias) w =
      guarded-KeepsAliases w (g.at_column table name w) (visit_column table name alias w)
        (visit_column-KeepsAliases table name alias w)
  expression-KeepsAliases g (literal_float bytes text) w = refl
  expression-KeepsAliases g (literal_int negative n) w = refl
  expression-KeepsAliases g (literal_string text) w = refl
  expression-KeepsAliases g literal_null w = refl
  expression-KeepsAliases g (operator op a b es) w =
      unless_taken-KeepsAliases (taken g.taking op a b) w _ (
        operator-KeepsAliases (shape op) (visit_maybe g a) (visit_maybe g b) (visit_list g es) w
          (maybe-KeepsAliases g a) (maybe-KeepsAliases g b) (list-KeepsAliases g es))
  expression-KeepsAliases g (select_expr s) w = tt
  expression-KeepsAliases g array_expr w = tt
  expression-KeepsAliases g other_literal w = tt
  expression-KeepsAliases g other_expr w = tt

  maybe-KeepsAliases :
      (g : Overrides) (e : MaybeExpr) (w : Walk) → KeepsAliases w (visit_maybe g e w)
  maybe-KeepsAliases g no_expr w = tt
  maybe-KeepsAliases g (an_expr e) w = expression-KeepsAliases g e w

  pub all-KeepsAliases : (g : Overrides) (es : Exprs) (w : Walk) → KeepsAliases w (visit_all g es w)
  all-KeepsAliases g no_more w = refl
  all-KeepsAliases g (and_then e es) w =
      and_visit-KeepsAliases w (visit_expression g e w) (visit_all g es)
        (expression-KeepsAliases g e w) (all-KeepsAliases g es)

  list-KeepsAliases :
      (g : Overrides) (es : MaybeExprs) (w : Walk) → KeepsAliases w (visit_list g es w)
  list-KeepsAliases g no_exprs w = tt
  list-KeepsAliases g (some_exprs es) w = all-KeepsAliases g es w
