-- ===== src/Mutators/Join.antt =====
-- probabilistic_join.cc: `ProbabilisticJoinMutator::mutateQuery`.
use postgres_tde.Base.{
  Bool, List, Option, [], false, if◌then◌else◌, none, some, true, ℕ, ◌&&◌, ◌++◌, ◌∷◌,
}
use postgres_tde.Manager.State.{ascii}
use postgres_tde.Mutation.{Mutated, mutated, refused, and_mutate}
use postgres_tde.Sql.Ast.{Expr, column_ref, Statement}
use postgres_tde.Sql.Walk.{visit_query}
use postgres_tde.Sql.Fields.{
  Walk, ColumnRef, Overrides, takes_joins, same_column, table_name_by_alias,
}
use postgres_tde.Config.Column.{ColumnConfig, DatabaseEncryptionConfig, configured}
use postgres_tde.Mutators.Base.{refuse_insert}
use postgres_tde.Mutators.Literals.{Digests, join_key}
use postgres_tde.Mutators.Amend.{Amendment, same, amend_query}
use postgres_tde.Mutators.Passes.{of_visited, extend_inserts, extend_updates}
use postgres_tde.Mutators.BlindIndex.{quoted_no_source}

abbrev pub must_be_selected : List ℕ
must_be_selected =
    ascii "postgres_tde: columns present in join condition must be also present in SELECT body"

abbrev pub Comparison : Type 0
Comparison = ColumnRef × ColumnRef

-- `isColumnSelected`.
abbrev pub is_selected : ColumnRef → List ColumnRef → Bool
is_selected c [] = false
is_selected c (d ∷ ds) = if same_column c d then true else is_selected c ds

module _ (digests : Digests) (config : DatabaseEncryptionConfig) where
  open config use {get_column_config, join_key_size}

  abbrev pub join_overrides : Overrides
  join_overrides = record {
    at_column = λ table name w. none;
    taking = takes_joins;
    at_insert = refuse_insert config;
  }

  abbrev pub join_of : ColumnRef → Option ColumnConfig
  join_of c = configured (λ column. column.has_join) (get_column_config c.0 c.1)

  -- The two columns, as they are or as their join keys, and `join_comparisons_`.
  abbrev pub Joined : Type 0
  Joined = Mutated ((Expr × Expr) × List Comparison)

  abbrev pub join_selected : Bool → (Expr × Expr) → Comparison → List Comparison → Joined
  join_selected true keys c done = mutated (keys, done ++ c ∷ [])
  join_selected false keys c done = refused must_be_selected

  -- Unless both columns have join keys, the comparison stays as it is.
  abbrev pub join_by :
      Walk
      → Option ColumnConfig
      → Option ColumnConfig
      → Comparison
      → (Expr × Expr)
      → (ColumnConfig → ColumnConfig → Expr × Expr)
      → List Comparison
      → Joined
  join_by w (some k) (some l) c old keys done =
      join_selected (is_selected c.0 w.select_columns && is_selected c.1 w.select_columns)
        (keys k l) c done
  join_by w _ _ c old keys done = mutated (old, done)

  -- `mutateJoins` at two columns.
  unfoldable pub mutate_join : Walk → Expr → Expr → List Comparison → Joined
  unfolding table_name_by_alias
  mutate_join w (column_ref none name alias) right done = refused (quoted_no_source name)
  mutate_join w (column_ref (some t) name alias) (column_ref none name' alias') done =
      refused (quoted_no_source name')
  mutate_join w (column_ref (some t) name alias) (column_ref (some t') name' alias') done =
      let left : ColumnRef = (table_name_by_alias t w, name) in
      let right : ColumnRef = (table_name_by_alias t' w, name') in
      join_by w (join_of left) (join_of right) (left, right)
        (column_ref (some t) name alias, column_ref (some t') name' alias')
        (λ k l. (
          column_ref (some t) k.join_key_column_name alias,
          column_ref (some t') l.join_key_column_name alias',
        ))
        done
  mutate_join w left right done = mutated ((left, right), done)

  abbrev pub joins : Walk → Amendment (List Comparison)
  joins w = record {
    taking = takes_joins;
    on_operands = mutate_join w;
    on_group = λ table name alias. same (column_ref table name alias);
  }

  -- The query, the fields of the traversal, and `join_comparisons_`.
  unfoldable pub mutate_query :
      List Statement → Walk → Mutated (List Statement × Walk × List Comparison)
  unfolding visit_query amend_query extend_inserts extend_updates
  mutate_query q w = and_mutate (of_visited (visit_query join_overrides q w)) (λ w'.
      and_mutate (amend_query (joins w') q []) (λ q₁.
        and_mutate (extend_inserts (join_key digests join_key_size) config q₁.0) (λ q₂.
          and_mutate (extend_updates (join_key digests join_key_size) config q₂.0)
            (λ q₃. mutated (q₃.0, w', q₁.1)))))
