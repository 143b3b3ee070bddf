-- ===== src/Mutators/Compared.antt =====
-- What `mutateComparisons` of blind_index.cc leaves of an expression.
use postgres_tde.Base.{Bool, ap, false, if◌then◌else◌, refl, subst, sym, true, ◌&&◌, ◌∙◌, ◌≡◌}
use postgres_tde.Mutation.{Mutated, mutated, and_mutate-mutated, mutated-injective}
use postgres_tde.Sql.Ast.{
  Expr, star, column_ref, literal_float, literal_int, literal_string, literal_null, operator,
  select_expr, array_expr, other_literal, other_expr, MaybeExpr, no_expr, an_expr, Exprs, no_more,
  and_then, MaybeExprs, no_exprs, some_exprs, shape, Operator, is_literal,
}
use postgres_tde.Sql.Fields.{Walk, takes_comparisons, taken, is_column, is_comparison}
use postgres_tde.Config.Column.{DatabaseEncryptionConfig}
use postgres_tde.Mutators.Literals.{Digests}
use postgres_tde.Mutators.Amend.{
  amend_operator, amend_taken, amend_expression, amend_maybe, amend_all, amend_list,
}
use postgres_tde.Mutators.Passes.{alone}
use postgres_tde.Sql.Verdict.{&&-true}
use postgres_tde.Mutators.BlindIndex.{mutate_comparison, comparisons}
use postgres_tde.Mutators.Operands.{
  Kind, MaybeKind, taken-MaybeKind, Operands, OneOf, amend_operator-Operands,
}
use postgres_tde.Mutators.Indexed.{
  compared-taken, HasNoIndex, LeftHasNoIndex, AreIndexed, MaybeIndexed, AllIndexed, ListIndexed,
  Usable, mutate_comparison-HasNoIndex, same-AreIndexed,
}

module _ (digests : Digests) (config : DatabaseEncryptionConfig) (w : Walk) where
  open config use {get_column_config}

  -- An operator, whether it is recorded or not.
  operator-AreIndexed :
      (op : Operator) (a b : MaybeExpr) (es : MaybeExprs) (g : Bool) (r : Expr × Unit {0})
      → (taken takes_comparisons op a b ≡ true
          → amend_taken (comparisons digests config w) op a b es tt ≡ mutated r
          → Kind (operator op a b es) r.0 × (AreIndexed digests config w) r.0)
      → (amend_operator op
              (shape op)
              a
              b
              es
              (amend_maybe (comparisons digests config w) g a)
              (amend_maybe (comparisons digests config w) g b)
              (amend_list (comparisons digests config w) g es)
              tt
            ≡ mutated r
          → (a' : MaybeExpr) × (b' : MaybeExpr) × (es' : MaybeExprs) × (operator op a' b' es' ≡ r.0)
            × MaybeKind a a'
            × MaybeKind b b'
            × Operands
                (shape op)
                ((MaybeIndexed digests config w) a')
                ((MaybeIndexed digests config w) b')
                ((ListIndexed digests config w) es'))
      → amend_expression (comparisons digests config w) g (operator op a b es) tt ≡ mutated r
      → Kind (operator op a b es) r.0 × (AreIndexed digests config w) r.0
  unfolding amend_expression AreIndexed
  operator-AreIndexed op a b es g r recorded inside h = go (taken takes_comparisons op a b) refl h
    where
      within : Mutated (Expr × Unit {0})
      within =
          amend_operator op (shape op) a b es (amend_maybe (comparisons digests config w) g a)
            (amend_maybe (comparisons digests config w) g b)
            (amend_list (comparisons digests config w) g es) tt

      go :
          (t : Bool)
          → taken takes_comparisons op a b ≡ t
          → (if t then amend_taken (comparisons digests config w) op a b es tt else within)
            ≡ mutated r
          → Kind (operator op a b es) r.0 × (AreIndexed digests config w) r.0
      go true e h = recorded e h
      go false e h =
          let (a', b', es', whole, k, l, p) = inside h in
          subst (λ z. Kind (operator op a b es) z × (AreIndexed digests config w) z) whole
            (
              (refl, refl),
              subst
                  (λ t. OneOf t ((LeftHasNoIndex digests config w) a') (
                    Operands (shape op) ((MaybeIndexed digests config w) a')
                      ((MaybeIndexed digests config w) b') ((ListIndexed digests config w) es')))
                  (sym (compared-taken op a' b' ∙ (taken-MaybeKind op a b a' b' k l ∙ e))) p,
            )

  -- A recorded operator, which has two operands.
  taken-AreIndexed :
      (op : Operator) (a b : MaybeExpr) (es : MaybeExprs) (r : Expr × Unit {0})
      → (Usable digests config w)
      → taken takes_comparisons op a b ≡ true
      → amend_taken (comparisons digests config w) op a b es tt ≡ mutated r
      → Kind (operator op a b es) r.0 × (AreIndexed digests config w) r.0
  unfolding taken AreIndexed
  taken-AreIndexed op no_expr b es r usable e h = cc
  taken-AreIndexed op (an_expr x) no_expr es r usable e h = cc
  taken-AreIndexed op (an_expr x) (an_expr y) es r usable e h =
      let (compares, operands) = &&-true (is_comparison op) _ e in
      let (column, literal) = &&-true (is_column x) _ operands in
      let (ab, made, last) =
        and_mutate-mutated (alone (mutate_comparison digests config w x y) tt) _ r h in
      let (pair, made', last') =
        and_mutate-mutated (mutate_comparison digests config w x y) _ ab made in
      let (column', literal', plain) =
        (mutate_comparison-HasNoIndex digests config w) x y pair usable column literal made' in
      let still : taken takes_comparisons op (an_expr pair.0) (an_expr pair.1) ≡ true =
        ap (λ c. c && (is_column pair.0 && is_literal pair.1)) compares
        ∙ ap (λ c. c && is_literal pair.1) column'
        ∙ literal' in
      let whole =
        ap (λ (z : (Expr × Expr) × Unit {0}). operator op (an_expr z.0.0) (an_expr z.0.1) es)
          (mutated-injective _ _ last')
        ∙ ap (λ (z : Expr × Unit {0}). z.0) (mutated-injective _ _ last) in
      subst (λ z. Kind (operator op (an_expr x) (an_expr y) es) z × (AreIndexed digests config w) z)
        whole
        (
          (refl, refl),
          subst
              (λ t. OneOf t ((HasNoIndex digests config w) pair.0) (
                Operands (shape op) ((AreIndexed digests config w) pair.0)
                  ((AreIndexed digests config w) pair.1) ((ListIndexed digests config w) es)))
              (sym (compared-taken op (an_expr pair.0) (an_expr pair.1) ∙ still)) plain,
        )

  mutual
    unfolding amend_expression AreIndexed

    expression-AreIndexed :
        (e : Expr) (g : Bool) (u : Unit {0}) (r : Expr × Unit {0})
        → (Usable digests config w)
        → amend_expression (comparisons digests config w) g e u ≡ mutated r
        → Kind e r.0 × (AreIndexed digests config w) r.0
    expression-AreIndexed (operator op a b es) g u r usable h =
        operator-AreIndexed op a b es g r (taken-AreIndexed op a b es r usable)
          (amend_operator-Operands (MaybeIndexed digests config w) (MaybeIndexed digests config w)
            (ListIndexed digests config w) op (shape op) a b es
            (amend_maybe (comparisons digests config w) g a)
            (amend_maybe (comparisons digests config w) g b)
            (amend_list (comparisons digests config w) g es) r
            (λ u x. maybe-AreIndexed a g u x usable) (λ u x. maybe-AreIndexed b g u x usable)
            (λ u x. list-AreIndexed es g u x usable))
          h
    expression-AreIndexed (column_ref table name alias) true u r usable h =
        (same-AreIndexed digests config w) (column_ref table name alias) r tt h
    expression-AreIndexed (column_ref table name alias) false u r usable h =
        (same-AreIndexed digests config w) (column_ref table name alias) r tt h
    expression-AreIndexed star g u r usable h = (same-AreIndexed digests config w) star r tt h
    expression-AreIndexed (literal_float bytes text) g u r usable h =
        (same-AreIndexed digests config w) (literal_float bytes text) r tt h
    expression-AreIndexed (literal_int negative n) g u r usable h =
        (same-AreIndexed digests config w) (literal_int negative n) r tt h
    expression-AreIndexed (literal_string text) g u r usable h =
        (same-AreIndexed digests config w) (literal_string text) r tt h
    expression-AreIndexed literal_null g u r usable h =
        (same-AreIndexed digests config w) literal_null r tt h
    expression-AreIndexed (select_expr q) g u r usable h =
        (same-AreIndexed digests config w) (select_expr q) r tt h
    expression-AreIndexed array_expr g u r usable h =
        (same-AreIndexed digests config w) array_expr r tt h
    expression-AreIndexed other_literal g u r usable h =
        (same-AreIndexed digests config w) other_literal r tt h
    expression-AreIndexed other_expr g u r usable h =
        (same-AreIndexed digests config w) other_expr r tt h

    maybe-AreIndexed :
        (a : MaybeExpr) (g : Bool) (u : Unit {0}) (r : MaybeExpr × Unit {0})
        → (Usable digests config w)
        → amend_maybe (comparisons digests config w) g a u ≡ mutated r
        → MaybeKind a r.0 × (MaybeIndexed digests config w) r.0
    maybe-AreIndexed no_expr g u r usable h =
        subst
          (λ (z : MaybeExpr × Unit {0}).
            MaybeKind no_expr z.0 × (MaybeIndexed digests config w) z.0)
          (mutated-injective _ _ h) (tt, tt)
    maybe-AreIndexed (an_expr e) g u r usable h =
        let (x, made, last) =
          and_mutate-mutated (amend_expression (comparisons digests config w) g e u) _ r h in
        subst
          (λ (z : MaybeExpr × Unit {0}).
            MaybeKind (an_expr e) z.0 × (MaybeIndexed digests config w) z.0)
          (mutated-injective _ _ last) (expression-AreIndexed e g u x usable made)

    all-AreIndexed :
        (es : Exprs) (g : Bool) (u : Unit {0}) (r : Exprs × Unit {0})
        → (Usable digests config w)
        → amend_all (comparisons digests config w) g es u ≡ mutated r
        → (AllIndexed digests config w) r.0
    all-AreIndexed no_more g u r usable h =
        subst (λ (z : Exprs × Unit {0}). (AllIndexed digests config w) z.0)
          (mutated-injective _ _ h) tt
    all-AreIndexed (and_then e es) g u r usable h =
        let (x, e₁, h₁) =
          and_mutate-mutated (amend_expression (comparisons digests config w) g e u) _ r h in
        let (y, e₂, h₂) =
          and_mutate-mutated (amend_all (comparisons digests config w) g es x.1) _ r h₁ in
        subst (λ (z : Exprs × Unit {0}). (AllIndexed digests config w) z.0)
          (mutated-injective _ _ h₂)
          ((expression-AreIndexed e g u x usable e₁).1, all-AreIndexed es g x.1 y usable e₂)

    list-AreIndexed :
        (es : MaybeExprs) (g : Bool) (u : Unit {0}) (r : MaybeExprs × Unit {0})
        → (Usable digests config w)
        → amend_list (comparisons digests config w) g es u ≡ mutated r
        → (ListIndexed digests config w) r.0
    list-AreIndexed no_exprs g u r usable h =
        subst (λ (z : MaybeExprs × Unit {0}). (ListIndexed digests config w) z.0)
          (mutated-injective _ _ h) tt
    list-AreIndexed (some_exprs es) g u r usable h =
        let (x, made, last) =
          and_mutate-mutated (amend_all (comparisons digests config w) g es u) _ r h in
        subst (λ (z : MaybeExprs × Unit {0}). (ListIndexed digests config w) z.0)
          (mutated-injective _ _ last) (all-AreIndexed es g u x usable made)
