-- ===== src/Mutators/Derived.antt =====
-- The column that a mutator adds for a column of an INSERT or an UPDATE: `mutateInsertStatement`
-- and `mutateUpdateStatement` of blind_index.cc, which probabilistic_join.cc repeats.
use postgres_tde.Base.{
  Bool, List, Option, [], if◌then◌else◌, length, map, none, some, ℕ, ◌++◌, ◌==◌, ◌∷◌,
}
use postgres_tde.Manager.State.{ascii}
use postgres_tde.Mutation.{Mutated, mutated, refused, and_mutate, of_option}
use postgres_tde.Sql.Ast.{Expr, is_literal}
use postgres_tde.Config.Column.{ColumnConfig, DatabaseEncryptionConfig, configured}

-- What the two mutators differ in: the feature of a column, the column that is added for it, the
-- literal that is put into it (`none` for `PANIC`), and the errors.
pub record Deriving : Type 0 where
  pub feature : ColumnConfig → Bool
  pub derived_column : ColumnConfig → List ℕ
  pub derived_literal : ColumnConfig → Expr → Option Expr
  pub insert_error : List ℕ
  pub update_error : List ℕ

abbrev pub bad_insert : List ℕ
bad_insert = ascii "postgres_tde: bad INSERT statement"

abbrev pub Addition : Type 0
Addition = List ℕ × Expr

-- The columns and the values of an INSERT, side by side.
abbrev pub paired : List (List ℕ) → List Expr → List Addition
paired (column ∷ columns) (value ∷ values) = (column, value) ∷ paired columns values
paired _ _ = []

module _ (d : Deriving) (config : DatabaseEncryptionConfig) where
  open d use {feature, derived_column, derived_literal, insert_error, update_error}
  open config use {get_column_config}

  -- What is added for one value.
  abbrev pub derive_value : List ℕ → Option ColumnConfig → Expr → Mutated (List Addition)
  derive_value text none value = mutated []
  derive_value text (some column) value =
      if is_literal value
      then and_mutate (of_option (derived_literal column value))
          (λ l. mutated ((derived_column column, l) ∷ []))
      else refused text

  -- The loop over the assignments of an UPDATE, or over the columns and the values of an INSERT.
  unfoldable pub derive_all : List ℕ → List ℕ → List Addition → Mutated (List Addition)
  derive_all text table [] = mutated []
  derive_all text table ((column, value) ∷ rest) =
      and_mutate (derive_value text (configured feature (get_column_config table column)) value)
        (λ added. and_mutate (derive_all text table rest) (λ more. mutated (added ++ more)))

  unfoldable pub extend_insert :
      List ℕ → List (List ℕ) → List Expr → Mutated (List (List ℕ) × List Expr)
  unfolding derive_all
  extend_insert table columns values =
      if length columns == length values
      then and_mutate (derive_all insert_error table (paired columns values))
          (λ added. mutated (columns ++ map (λ a. a.0) added, values ++ map (λ a. a.1) added))
      else refused bad_insert

  unfoldable pub extend_update : List ℕ → List Addition → Mutated (List Addition)
  unfolding derive_all
  extend_update table updates =
      and_mutate (derive_all update_error table updates) (λ added. mutated (updates ++ added))
