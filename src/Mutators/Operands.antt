-- ===== src/Mutators/Operands.antt =====
-- What a pass over recorded comparisons keeps of an operator and of its operands.
use postgres_tde.Base.{Bool, Option, ap, false, none, refl, some, sym, true, ◌&&◌, ◌∙◌, ◌≡◌}
use postgres_tde.Mutation.{Mutated, mutated, and_mutate-mutated, mutated-injective}
use postgres_tde.Sql.Ast.{
  Expr, literal_float, literal_int, literal_string, literal_null, operator, MaybeExpr, no_expr,
  an_expr, MaybeExprs, Shape, binary, prefix, postfix, membership, unsupported, Operator,
  is_literal,
}
use postgres_tde.Sql.Fields.{takes_comparisons, taken, is_column, is_comparison}
use postgres_tde.Config.Column.{ColumnConfig}
use postgres_tde.Mutators.Literals.{Digests, create_hash_literal}
use postgres_tde.Mutators.Amend.{amend_operator}

-- Whether an expression is a column, or a literal, does not change.
abbrev pub Kind : Expr → Expr → Type 0
Kind e e' = (is_column e' ≡ is_column e) × (is_literal e' ≡ is_literal e)

abbrev pub MaybeKind : MaybeExpr → MaybeExpr → Type 0
MaybeKind no_expr no_expr = Unit
MaybeKind (an_expr e) (an_expr e') = Kind e e'
MaybeKind _ _ = ⊥

MaybeKind-refl : (e : MaybeExpr) → MaybeKind e e
MaybeKind-refl no_expr = tt
MaybeKind-refl (an_expr e) = (refl, refl)

pub taken-MaybeKind :
    (op : Operator) (a b a' b' : MaybeExpr)
    → MaybeKind a a'
    → MaybeKind b b'
    → taken takes_comparisons op a' b' ≡ taken takes_comparisons op a b
unfolding taken
taken-MaybeKind op no_expr b no_expr b' k l = refl
taken-MaybeKind op no_expr b (an_expr x) b' k l = elim k [ ]
taken-MaybeKind op (an_expr x) b no_expr b' k l = elim k [ ]
taken-MaybeKind op (an_expr x) no_expr (an_expr x') no_expr k l = refl
taken-MaybeKind op (an_expr x) no_expr (an_expr x') (an_expr y') k l = elim l [ ]
taken-MaybeKind op (an_expr x) (an_expr y) (an_expr x') no_expr k l = elim l [ ]
taken-MaybeKind op (an_expr x) (an_expr y) (an_expr x') (an_expr y') k l =
    ap (λ c. is_comparison op && (c && is_literal y')) k.0
    ∙ ap (λ c. is_comparison op && (is_column x && c)) l.1

-- What holds of the operands that are visited.
abbrev pub Operands : Shape → Type 0 → Type 0 → Type 0 → Type 0
Operands binary P Q R = P × Q
Operands prefix P Q R = P
Operands postfix P Q R = P
Operands membership P Q R = P × R
Operands unsupported P Q R = Unit

abbrev pub OneOf : Bool → Type 0 → Type 0 → Type 0
OneOf true P Q = P
OneOf false P Q = Q

-- An operator whose operands are amended.
pub amend_operator-Operands :
    (P Q : MaybeExpr → Type 0) (R : MaybeExprs → Type 0) (op : Operator) (s : Shape)
    (a b : MaybeExpr) (es : MaybeExprs) (fa fb : Unit {0} → Mutated (MaybeExpr × Unit {0}))
    (fes : Unit {0} → Mutated (MaybeExprs × Unit {0})) (r : Expr × Unit {0})
    → ((u : Unit {0}) (x : MaybeExpr × Unit {0}) → fa u ≡ mutated x → MaybeKind a x.0 × P x.0)
    → ((u : Unit {0}) (x : MaybeExpr × Unit {0}) → fb u ≡ mutated x → MaybeKind b x.0 × Q x.0)
    → ((u : Unit {0}) (x : MaybeExprs × Unit {0}) → fes u ≡ mutated x → R x.0)
    → amend_operator op s a b es fa fb fes tt ≡ mutated r
    → (a' : MaybeExpr) × (b' : MaybeExpr) × (es' : MaybeExprs) × (operator op a' b' es' ≡ r.0)
      × MaybeKind a a'
      × MaybeKind b b'
      × Operands s (P a') (Q b') (R es')
amend_operator-Operands P Q R op binary a b es fa fb fes r pa pb pe h =
    let (x, e₁, h₁) = and_mutate-mutated (fa tt) _ r h in
    let (y, e₂, h₂) = and_mutate-mutated (fb x.1) _ r h₁ in
    let (k, p) = pa tt x e₁ in
    let (l, q) = pb x.1 y e₂ in
    (x.0, y.0, es, ap (λ (z : Expr × Unit {0}). z.0) (mutated-injective _ _ h₂), k, l, (p, q))
amend_operator-Operands P Q R op prefix a b es fa fb fes r pa pb pe h =
    let (x, e₁, h₁) = and_mutate-mutated (fa tt) _ r h in
    let (k, p) = pa tt x e₁ in
    (
      x.0,
      b,
      es,
      ap (λ (z : Expr × Unit {0}). z.0) (mutated-injective _ _ h₁),
      k,
      MaybeKind-refl b,
      p,
    )
amend_operator-Operands P Q R op postfix a b es fa fb fes r pa pb pe h =
    let (x, e₁, h₁) = and_mutate-mutated (fa tt) _ r h in
    let (k, p) = pa tt x e₁ in
    (
      x.0,
      b,
      es,
      ap (λ (z : Expr × Unit {0}). z.0) (mutated-injective _ _ h₁),
      k,
      MaybeKind-refl b,
      p,
    )
amend_operator-Operands P Q R op membership a b es fa fb fes r pa pb pe h =
    let (x, e₁, h₁) = and_mutate-mutated (fa tt) _ r h in
    let (y, e₂, h₂) = and_mutate-mutated (fes x.1) _ r h₁ in
    let (k, p) = pa tt x e₁ in
    (
      x.0,
      b,
      y.0,
      ap (λ (z : Expr × Unit {0}). z.0) (mutated-injective _ _ h₂),
      k,
      MaybeKind-refl b,
      (p, pe x.1 y e₂),
    )
amend_operator-Operands P Q R op unsupported a b es fa fb fes r pa pb pe h = (
  a,
  b,
  es,
  ap (λ (z : Expr × Unit {0}). z.0) (mutated-injective _ _ h),
  MaybeKind-refl a,
  MaybeKind-refl b,
  tt,
)

pub create_hash_literal-is_literal :
    (digests : Digests) (k : ColumnConfig) (e l : Expr)
    → create_hash_literal digests k e ≡ some l
    → is_literal l ≡ true
unfolding create_hash_literal
create_hash_literal-is_literal digests k e l h =
    ap (λ (o : Option Expr). elim o [ none ↦ true | some x ↦ is_literal x ]) (sym h) ∙ go e
  where
    go :
        (x : Expr)
        → elim (create_hash_literal digests k x) [ none ↦ true | some y ↦ is_literal y ] ≡ true
    go literal_null = refl
    go (literal_string text) = refl
    go (literal_int negative n) = refl
    go (literal_float bytes text) = refl
    go _ = refl
