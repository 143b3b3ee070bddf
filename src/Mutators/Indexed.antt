-- ===== src/Mutators/Indexed.antt =====
-- Comparisons of columns that have no blind index, in an expression.
use postgres_tde.Base.{Bool, List, Option, ap, false, none, refl, some, subst, true, ℕ, ◌&&◌, ◌≡◌}
use postgres_tde.Mutation.{
  of_option-some, mutated, of_option, and_mutate-mutated, mutated-injective,
}
use postgres_tde.Sql.Ast.{
  Operator, op_equals, op_not_equals, other_literal, literal_float, literal_int, literal_string,
  literal_null, Expr, column_ref, operator, MaybeExpr, no_expr, an_expr, Exprs, no_more, and_then,
  MaybeExprs, no_exprs, some_exprs, shape, is_literal,
}
use postgres_tde.Sql.Fields.{
  Walk, takes_comparisons, taken, is_column, is_comparison, table_name_by_alias,
}
use postgres_tde.Config.Column.{ColumnConfig, DatabaseEncryptionConfig, configured}
use postgres_tde.Config.Consistent.{Featured, IsUsable, configured-some}
use postgres_tde.Mutators.Literals.{Digests, create_hash_literal}
use postgres_tde.Mutators.BlindIndex.{index_of, compare_with, mutate_comparison}
use postgres_tde.Mutators.Operands.{Kind, Operands, OneOf, create_hash_literal-is_literal}

-- A column on the left of = or <>, and on the right a literal, of whatever kind.
abbrev pub is_by_value : Operator → Bool
is_by_value op_equals = true
is_by_value op_not_equals = true
is_by_value _ = false

abbrev pub names_column : Expr → Bool
names_column (column_ref table name alias) = true
names_column _ = false

abbrev pub is_constant : Expr → Bool
is_constant (literal_float bytes text) = true
is_constant (literal_int negative n) = true
is_constant (literal_string text) = true
is_constant literal_null = true
is_constant other_literal = true
is_constant _ = false

abbrev pub compared : Operator → MaybeExpr → MaybeExpr → Bool
compared op (an_expr a) (an_expr b) = is_by_value op && (names_column a && is_constant b)
compared op no_expr b = false
compared op (an_expr a) no_expr = false

is_by_value-is_comparison : (op : Operator) → is_by_value op ≡ is_comparison op
is_by_value-is_comparison op_equals = refl
is_by_value-is_comparison op_not_equals = refl
is_by_value-is_comparison _ = refl

names_column-is_column : (e : Expr) → names_column e ≡ is_column e
names_column-is_column (column_ref table name alias) = refl
names_column-is_column _ = refl

is_constant-is_literal : (e : Expr) → is_constant e ≡ is_literal e
is_constant-is_literal (literal_float bytes text) = refl
is_constant-is_literal (literal_int negative n) = refl
is_constant-is_literal (literal_string text) = refl
is_constant-is_literal literal_null = refl
is_constant-is_literal other_literal = refl
is_constant-is_literal _ = refl

-- These are the operators that the traversal takes for the loop.
pub compared-taken :
    (op : Operator) (a b : MaybeExpr) → compared op a b ≡ taken takes_comparisons op a b
unfolding taken
compared-taken op no_expr b = refl
compared-taken op (an_expr a) no_expr = refl
compared-taken op (an_expr a) (an_expr b) =
    rw (is_by_value-is_comparison op, names_column-is_column a, is_constant-is_literal b) refl

module _ (digests : Digests) (config : DatabaseEncryptionConfig) (w : Walk) where
  open config use {get_column_config}

  -- The left operand is a column whose table is given and that has no blind index.
  abbrev pub HasNoIndex : Expr → Type 0
  HasNoIndex (column_ref (some table) name alias) = index_of digests config w table name ≡ none
  HasNoIndex _ = ⊥

  abbrev pub LeftHasNoIndex : MaybeExpr → Type 0
  LeftHasNoIndex no_expr = ⊥
  LeftHasNoIndex (an_expr e) = HasNoIndex e

  -- At every depth that is visited, a comparison by = or <> of a column with a literal is one of a
  -- column without a blind index.
  unfoldable mutual
    unfolding shape

    pub AreIndexed : Expr → Type 0
    AreIndexed (operator op a b es) =
        OneOf (compared op a b) (LeftHasNoIndex a)
          (Operands (shape op) (MaybeIndexed a) (MaybeIndexed b) (ListIndexed es))
    AreIndexed _ = Unit

    pub MaybeIndexed : MaybeExpr → Type 0
    MaybeIndexed no_expr = Unit
    MaybeIndexed (an_expr e) = AreIndexed e

    pub AllIndexed : Exprs → Type 0
    AllIndexed no_more = Unit
    AllIndexed (and_then e es) = AreIndexed e × AllIndexed es

    pub ListIndexed : MaybeExprs → Type 0
    ListIndexed no_exprs = Unit
    ListIndexed (some_exprs es) = AllIndexed es

  -- Every column of the configuration is usable.
  abbrev pub Usable : Type 0
  Usable =
      (table name : List ℕ) (k : ColumnConfig)
      → get_column_config table name ≡ some k
      → IsUsable config table name k

  index_of-bi_column_name :
      (table name : List ℕ) (k : ColumnConfig)
      → Usable
      → index_of digests config w table name ≡ some k
      → index_of digests config w table k.bi_column_name ≡ none
  index_of-bi_column_name table name k usable h =
      let t = table_name_by_alias table w in
      let (found, indexed) =
        configured-some (λ c. c.has_blind_index) (get_column_config t name) k h in
      let unknown : get_column_config t k.bi_column_name ≡ none =
        subst (λ b. Featured b (get_column_config t k.bi_column_name ≡ none)) indexed
          (usable t name k found).4 in
      ap (configured (λ c. c.has_blind_index)) unknown

  -- A recorded comparison, after the loop.
  pub mutate_comparison-HasNoIndex :
      (x y : Expr) (r : Expr × Expr)
      → Usable
      → is_column x ≡ true
      → is_literal y ≡ true
      → mutate_comparison digests config w x y ≡ mutated r
      → (is_column r.0 ≡ true) × (is_literal r.1 ≡ true) × HasNoIndex r.0
  unfolding mutate_comparison
  mutate_comparison-HasNoIndex (column_ref none name alias) y r usable c l h = cc
  mutate_comparison-HasNoIndex (column_ref (some table) name alias) y r usable c l h =
      go (index_of digests config w table name) refl h
    where
      go :
          (o : Option ColumnConfig)
          → index_of digests config w table name ≡ o
          → compare_with digests config o (column_ref (some table) name alias) y table alias
            ≡ mutated r
          → (is_column r.0 ≡ true) × (is_literal r.1 ≡ true) × HasNoIndex r.0
      go none e h =
          subst
            (λ (x : Expr × Expr). (is_column x.0 ≡ true) × (is_literal x.1 ≡ true) × HasNoIndex x.0)
            (mutated-injective _ _ h) (refl, l, e)
      go (some k) e h =
          let (hash, made, last) =
            and_mutate-mutated (of_option (create_hash_literal digests k y)) _ r h in
          subst
            (λ (x : Expr × Expr). (is_column x.0 ≡ true) × (is_literal x.1 ≡ true) × HasNoIndex x.0)
            (mutated-injective _ _ last)
            (
              refl,
              create_hash_literal-is_literal digests k y hash (of_option-some _ hash made),
              index_of-bi_column_name table name k usable e,
            )
  mutate_comparison-HasNoIndex _ y r usable c l h = cc

  pub same-AreIndexed :
      (e : Expr) (r : Expr × Unit {0})
      → AreIndexed e
      → mutated (e, tt {0}) ≡ mutated r
      → Kind e r.0 × AreIndexed r.0
  same-AreIndexed e r p h =
      subst (λ (z : Expr × Unit {0}). Kind e z.0 × AreIndexed z.0) (mutated-injective _ _ h)
        ((refl, refl), p)
