-- ===== src/Encryption/Each.antt =====
-- A predicate of every column of an expression, in the operands that its operators have.
use postgres_tde.Base.{List, Option, ℕ}
use postgres_tde.Sql.Ast.{
  star, column_ref, literal_float, literal_int, literal_string, literal_null, operator, select_expr,
  array_expr, other_literal, other_expr, MaybeExpr, no_expr, an_expr, Exprs, no_more, and_then,
  MaybeExprs, no_exprs, some_exprs, Shape, binary, prefix, postfix, membership, unsupported, shape,
  Expr, Operator, op_none, op_between, op_case, op_case_list_element, op_in, op_not, op_unary_minus,
  op_exists, op_is_null,
}

-- What holds of every column in the operands that are visited.
abbrev pub OfShape : Shape → Type 0 → Type 0 → Type 0 → Type 0
OfShape binary expr expr2 exprs = expr × expr2
OfShape prefix expr expr2 exprs = expr
OfShape postfix expr expr2 exprs = expr
OfShape membership expr expr2 exprs = expr × exprs
OfShape unsupported expr expr2 exprs = ⊥

-- The same by the operator: which of its operands it has.
abbrev pub OfOperator : Operator → Type 0 → Type 0 → Type 0 → Type 0
OfOperator op_none expr expr2 exprs = ⊥
OfOperator op_between expr expr2 exprs = ⊥
OfOperator op_case expr expr2 exprs = ⊥
OfOperator op_case_list_element expr expr2 exprs = ⊥
OfOperator op_in expr expr2 exprs = expr × exprs
OfOperator op_not expr expr2 exprs = expr
OfOperator op_unary_minus expr expr2 exprs = expr
OfOperator op_exists expr expr2 exprs = expr
OfOperator op_is_null expr expr2 exprs = expr
OfOperator _ expr expr2 exprs = expr × expr2

pub OfShape-OfOperator :
    (P Q R : Type 0) (op : Operator) → OfShape (shape op) P Q R → OfOperator op P Q R
unfolding shape
OfShape-OfOperator P Q R op_none h = h
OfShape-OfOperator P Q R op_between h = h
OfShape-OfOperator P Q R op_case h = h
OfShape-OfOperator P Q R op_case_list_element h = h
OfShape-OfOperator P Q R op_in h = h
OfShape-OfOperator P Q R op_not h = h
OfShape-OfOperator P Q R op_unary_minus h = h
OfShape-OfOperator P Q R op_exists h = h
OfShape-OfOperator P Q R op_is_null h = h
OfShape-OfOperator P Q R _ h = h

module _ (P : Option (List ℕ) → List ℕ → Type 0) where
  -- `P` holds of every column, given by its table and its name, and nothing is a SELECT or of a kind
  -- that is not visited.
  unfoldable mutual
    pub EachColumn : Expr → Type 0
    EachColumn star = Unit
    EachColumn (column_ref table name alias) = P table name
    EachColumn (literal_float bytes text) = Unit
    EachColumn (literal_int negative n) = Unit
    EachColumn (literal_string text) = Unit
    EachColumn literal_null = Unit
    EachColumn (operator op expr expr2 exprs) =
        OfOperator op (EachMaybe expr) (EachMaybe expr2) (EachList exprs)
    EachColumn (select_expr s) = ⊥
    EachColumn array_expr = Unit
    EachColumn other_literal = ⊥
    EachColumn other_expr = ⊥

    pub EachMaybe : MaybeExpr → Type 0
    EachMaybe no_expr = Unit
    EachMaybe (an_expr e) = EachColumn e

    pub EachOf : Exprs → Type 0
    EachOf no_more = Unit
    EachOf (and_then e es) = EachColumn e × EachOf es

    pub EachList : MaybeExprs → Type 0
    EachList no_exprs = Unit
    EachList (some_exprs es) = EachOf es

OfOperator-map :
    {P Q R P' Q' R' : Type 0} (op : Operator)
    → (P → P')
    → (Q → Q')
    → (R → R')
    → OfOperator op P Q R
    → OfOperator op P' Q' R'
OfOperator-map op_none f g h p = elim p [ ]
OfOperator-map op_between f g h p = elim p [ ]
OfOperator-map op_case f g h p = elim p [ ]
OfOperator-map op_case_list_element f g h p = elim p [ ]
OfOperator-map op_in f g h p = (f p.0, h p.1)
OfOperator-map op_not f g h p = f p
OfOperator-map op_unary_minus f g h p = f p
OfOperator-map op_exists f g h p = f p
OfOperator-map op_is_null f g h p = f p
OfOperator-map _ f g h p = (f p.0, g p.1)

module _ {P Q : Option (List ℕ) → List ℕ → Type 0}
    (f : (t : Option (List ℕ)) (n : List ℕ) → P t n → Q t n) where
  mutual
    unfolding EachColumn

    pub EachColumn-map : (e : Expr) → EachColumn P e → EachColumn Q e
    EachColumn-map star h = tt
    EachColumn-map (column_ref table name alias) h = f table name h
    EachColumn-map (literal_float bytes text) h = tt
    EachColumn-map (literal_int negative n) h = tt
    EachColumn-map (literal_string text) h = tt
    EachColumn-map literal_null h = tt
    EachColumn-map (operator op a b es) h =
        OfOperator-map op (EachMaybe-map a) (EachMaybe-map b) (EachList-map es) h
    EachColumn-map (select_expr s) h = elim h [ ]
    EachColumn-map array_expr h = tt
    EachColumn-map other_literal h = elim h [ ]
    EachColumn-map other_expr h = elim h [ ]

    pub EachMaybe-map : (e : MaybeExpr) → EachMaybe P e → EachMaybe Q e
    EachMaybe-map no_expr h = tt
    EachMaybe-map (an_expr e) h = EachColumn-map e h

    pub EachOf-map : (es : Exprs) → EachOf P es → EachOf Q es
    EachOf-map no_more h = tt
    EachOf-map (and_then e es) h = (EachColumn-map e h.0, EachOf-map es h.1)

    EachList-map : (es : MaybeExprs) → EachList P es → EachList Q es
    EachList-map no_exprs h = tt
    EachList-map (some_exprs es) h = EachOf-map es h
