-- ===== src/Sql/Verdict.antt =====
-- What a visit accepts and what is printed, and the operands that are taken without a visit.
use postgres_tde.Base.{
  Bool, Bool-cases, List, Option, [], false, inl, inr, none, refl, some, subst, true, ℕ, ◌&&◌, ◌∷◌,
  ◌≡◌,
}
use postgres_tde.Sql.Ast.{
  Expr, column_ref, operator, op_equals, op_not_equals, Operator, MaybeExpr, no_expr, an_expr,
  Exprs, no_more, and_then, MaybeExprs, Orders, no_more_orders, order_by, Tables, no_tables,
  table_and, Shape, binary, prefix, postfix, membership, unsupported, shape,
}
use postgres_tde.Sql.Walk.{visit_operator}
use postgres_tde.Sql.Fields.{
  Walk, Visited, visited, refused, panicked, and_visit, Overrides, Taking, takes_nothing,
  takes_comparisons, takes_joins, taken, unless_taken, is_column, is_equality, is_comparison,
  guarded,
}
use postgres_tde.Sql.Dump.{comma_before_update, dump_expression}
use postgres_tde.Sql.Text.{
  Dumped, dumped, failed, broken, ◌<<◌, put, comma_before, comma_before_order, comma_before_table,
  operator_to_string, dump_operator,
}

abbrev pub Accepted : Visited → Type 0
Accepted (visited w) = Unit
Accepted (refused e) = ⊥
Accepted panicked = ⊥

abbrev pub Printed : Dumped → Type 0
Printed (dumped text) = Unit
Printed (failed e) = ⊥
Printed broken = ⊥

pub and_visit-Accepted :
    (v : Visited) (next : Walk → Visited)
    → Accepted (and_visit v next)
    → (w : Walk) × Accepted v × Accepted (next w)
and_visit-Accepted (visited w) next h = (w, tt, h)
and_visit-Accepted (refused e) next h = elim h [ ]
and_visit-Accepted panicked next h = elim h [ ]

pub then-Printed : (a b : Dumped) → Printed a → Printed b → Printed (a << b)
then-Printed (dumped a) (dumped b) h k = tt
then-Printed (dumped a) (failed e) h k = elim k [ ]
then-Printed (dumped a) broken h k = elim k [ ]
then-Printed (failed e) b h k = elim h [ ]
then-Printed broken b h k = elim h [ ]

pub comma_before-Printed : (es : Exprs) → Printed (comma_before es)
comma_before-Printed no_more = tt
comma_before-Printed (and_then e es) = tt

pub comma_before_order-Printed : (os : Orders) → Printed (comma_before_order os)
comma_before_order-Printed no_more_orders = tt
comma_before_order-Printed (order_by e asc os) = tt

pub comma_before_table-Printed : (ts : Tables) → Printed (comma_before_table ts)
comma_before_table-Printed no_tables = tt
comma_before_table-Printed (table_and t ts) = tt

pub comma_before_update-Printed : (us : List (List ℕ × Expr)) → Printed (comma_before_update us)
comma_before_update-Printed [] = tt
comma_before_update-Printed (u ∷ us) = tt

-- Two operands, each in parentheses, around the operator.
infix-Printed :
    (name : List ℕ) (a b : Dumped)
    → Printed a
    → Printed b
    → Printed (put "(" << a << put ") " << dumped name << put " (" << b << put ")")
infix-Printed name a b h k = then-Printed (put "(") _ tt (
    then-Printed a _ h (
      then-Printed (put ") ") _ tt (
        then-Printed (dumped name) _ tt
          (then-Printed (put " (") _ tt (then-Printed b (put ")") k tt)))))

pub operator-Printed :
    (s : Shape) (name : List ℕ) (expr expr2 exprs : Walk → Visited) (a b es : Dumped)
    → ((w : Walk) → Accepted (expr w) → Printed a)
    → ((w : Walk) → Accepted (expr2 w) → Printed b)
    → ((w : Walk) → Accepted (exprs w) → Printed es)
    → (w : Walk) → Accepted (visit_operator s expr expr2 exprs w)
    → Printed (dump_operator s (dumped name) a b es)
operator-Printed binary name expr expr2 exprs a b es ha hb hes w h =
    let (w₁, first, second) = and_visit-Accepted (expr w) expr2 h in
    infix-Printed name a b (ha w first) (hb w₁ second)
operator-Printed prefix name expr expr2 exprs a b es ha hb hes w h =
    then-Printed (dumped name) _ tt (
      then-Printed (put " ") _ tt
        (then-Printed (put "(") _ tt (then-Printed a (put ")") (ha w h) tt)))
operator-Printed postfix name expr expr2 exprs a b es ha hb hes w h =
    then-Printed (put "(") _ tt
      (then-Printed a _ (ha w h) (then-Printed (put ") ") (dumped name) tt tt))
operator-Printed membership name expr expr2 exprs a b es ha hb hes w h =
    let (w₁, first, second) = and_visit-Accepted (expr w) exprs h in
    infix-Printed name a es (ha w first) (hes w₁ second)
operator-Printed unsupported name expr expr2 exprs a b es ha hb hes w h = elim h [ ]

pub &&-true : (a b : Bool) → (a && b) ≡ true → (a ≡ true) × (b ≡ true)
&&-true true b h = (refl, h)
&&-true false b h = cc

is_column-Printed : (e : Expr) → is_column e ≡ true → Printed (dump_expression e)
unfolding dump_expression
is_column-Printed (column_ref table name alias) h = tt
is_column-Printed _ h = cc

-- What a mutator takes for itself is a comparison of two operands that are printed.
comparison-Printed :
    (op : Operator) (a b : Expr) (es : MaybeExprs)
    → is_comparison op ≡ true
    → Printed (dump_expression a)
    → Printed (dump_expression b)
    → Printed (dump_expression (operator op (an_expr a) (an_expr b) es))
unfolding dump_expression shape
comparison-Printed op_equals a b es h k l = infix-Printed (operator_to_string op_equals) _ _ k l
comparison-Printed op_not_equals a b es h k l =
    infix-Printed (operator_to_string op_not_equals) _ _ k l
comparison-Printed _ a b es h k l = cc

is_equality-is_comparison : (op : Operator) → is_equality op ≡ true → is_comparison op ≡ true
is_equality-is_comparison op_equals h = refl
is_equality-is_comparison _ h = cc

-- Of a comparison with a literal the literal may be one that is not printed.
abbrev pub TakesPrinted : Taking → Type 0
TakesPrinted takes_comparisons = ⊥
TakesPrinted takes_joins = Unit
TakesPrinted takes_nothing = Unit

pub taken-Printed :
    (t : Taking) (k : TakesPrinted t) (op : Operator) (a b : MaybeExpr) (es : MaybeExprs)
    → taken t op a b ≡ true
    → Printed (dump_expression (operator op a b es))
unfolding taken
taken-Printed takes_comparisons k op a b es h = elim k [ ]
taken-Printed takes_joins k op (an_expr a) (an_expr b) es h =
    let (equates, operands) = &&-true (is_equality op) _ h in
    let (left, right) = &&-true (is_column a) _ operands in
    comparison-Printed op a b es (is_equality-is_comparison op equates) (is_column-Printed a left)
      (is_column-Printed b right)
taken-Printed takes_joins k op no_expr b es h = cc
taken-Printed takes_joins k op (an_expr a) no_expr es h = cc
taken-Printed takes_nothing k op a b es h = cc

pub unless_taken-Printed :
    (g : Overrides) (k : TakesPrinted g.taking) (op : Operator) (a b : MaybeExpr) (es : MaybeExprs)
    (w : Walk) (v : Visited)
    → Accepted (unless_taken (taken g.taking op a b) w v)
    → (Accepted v → Printed (dump_expression (operator op a b es)))
    → Printed (dump_expression (operator op a b es))
unless_taken-Printed g k op a b es w v h inside = elim (Bool-cases (taken g.taking op a b)) [
  | inl e ↦ taken-Printed g.taking k op a b es e
  | inr e ↦ inside (subst (λ t. Accepted (unless_taken t w v)) e h)
]

pub guarded-Accepted : (o : Option (List ℕ)) (v : Visited) → Accepted (guarded o v) → Accepted v
guarded-Accepted none v h = h
guarded-Accepted (some e) v h = elim h [ ]
