-- ===== src/Mutators/BlindIndex.antt =====
-- blind_index.cc: `BlindIndexMutator::mutateQuery`.
use postgres_tde.Base.{List, Option, none, some, ℕ, ◌++◌}
use postgres_tde.Manager.State.{ascii}
use postgres_tde.Mutation.{Mutated, mutated, refused, and_mutate, of_option}
use postgres_tde.Sql.Ast.{Expr, column_ref, Statement}
use postgres_tde.Sql.Walk.{visit_query}
use postgres_tde.Sql.Fields.{Walk, Overrides, takes_comparisons, no_source, table_name_by_alias}
use postgres_tde.Config.Column.{ColumnConfig, DatabaseEncryptionConfig, configured}
use postgres_tde.Mutators.Base.{refuse_insert}
use postgres_tde.Mutators.Literals.{Digests, create_hash_literal, blind_index}
use postgres_tde.Mutators.Amend.{Amendment, same, amend_query}
use postgres_tde.Mutators.Passes.{of_visited, extend_inserts, extend_updates, alone}

abbrev pub quoted_no_source : List ℕ → List ℕ
quoted_no_source column =
    ascii "postgres_tde: unable to determine the source of column '"
    ++ (column ++ ascii "'. Please specify an explicit table/alias reference")

module _ (digests : Digests) (config : DatabaseEncryptionConfig) where
  open config use {get_column_config}

  -- The traversal of `BlindIndexMutator`.
  abbrev pub blind_index_overrides : Overrides
  blind_index_overrides = record {
    at_column = λ table name w. none;
    taking = takes_comparisons;
    at_insert = refuse_insert config;
  }

  abbrev pub index_of : Walk → List ℕ → List ℕ → Option ColumnConfig
  index_of w table name =
      configured (λ column. column.has_blind_index)
        (get_column_config (table_name_by_alias table w) name)

  abbrev pub compare_with :
      Option ColumnConfig → Expr → Expr → List ℕ → Option (List ℕ) → Mutated (Expr × Expr)
  compare_with none column literal table alias = mutated (column, literal)
  compare_with (some k) column literal table alias =
      and_mutate (of_option (create_hash_literal digests k literal))
        (λ l. mutated (column_ref (some table) k.bi_column_name alias, l))

  -- `mutateComparisons` at a column and a literal.
  unfoldable pub mutate_comparison : Walk → Expr → Expr → Mutated (Expr × Expr)
  unfolding create_hash_literal table_name_by_alias
  mutate_comparison w (column_ref none name alias) literal = refused (quoted_no_source name)
  mutate_comparison w (column_ref (some table) name alias) literal =
      compare_with (index_of w table name) (column_ref (some table) name alias) literal table alias
  mutate_comparison w column literal = mutated (column, literal)

  abbrev pub group_by_index : Option ColumnConfig → List ℕ → List ℕ → Option (List ℕ) → Expr
  group_by_index none table name alias = column_ref (some table) name alias
  group_by_index (some k) table name alias = column_ref (some table) k.bi_column_name alias

  -- `mutateGroupByExpressions` at a column.
  unfoldable pub mutate_group_by_expression :
      Walk → Option (List ℕ) → List ℕ → Option (List ℕ) → Mutated Expr
  unfolding table_name_by_alias
  mutate_group_by_expression w none name alias = refused (no_source name)
  mutate_group_by_expression w (some table) name alias =
      mutated (group_by_index (index_of w table name) table name alias)

  abbrev pub comparisons : Walk → Amendment Unit
  comparisons w = record {
    taking = takes_comparisons;
    on_operands = λ a b. alone (mutate_comparison w a b);
    on_group = λ table name alias. same (column_ref table name alias);
  }

  abbrev pub group_by_expressions : Walk → Amendment Unit
  group_by_expressions w = record {
    taking = takes_comparisons;
    on_operands = λ a b. same (a, b);
    on_group = λ table name alias. alone (mutate_group_by_expression w table name alias);
  }

  -- The query and the fields of the traversal.
  unfoldable pub mutate_query : List Statement → Walk → Mutated (List Statement × Walk)
  unfolding visit_query amend_query extend_inserts extend_updates
  mutate_query q w = and_mutate (of_visited (visit_query blind_index_overrides q w)) (λ w'.
      and_mutate (amend_query (comparisons w') q tt) (λ q₁.
        and_mutate (amend_query (group_by_expressions w') q₁.0 tt) (λ q₂.
          and_mutate (extend_inserts (blind_index digests) config q₂.0) (λ q₃.
            and_mutate (extend_updates (blind_index digests) config q₃.0)
              (λ q₄. mutated (q₄.0, w'))))))
