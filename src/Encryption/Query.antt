-- ===== src/Encryption/Query.antt =====
-- encryption.cc: `EncryptionMutator::mutateQuery`.
use postgres_tde.Base.{List, ℕ}
use postgres_tde.Mutation.{Mutated, mutated, and_mutate}
use postgres_tde.Sql.Ast.{Expr, Statement}
use postgres_tde.Sql.Walk.{visit_query}
use postgres_tde.Sql.Fields.{Walk}
use postgres_tde.Config.Column.{DatabaseEncryptionConfig}
use postgres_tde.Mutators.Passes.{of_visited, on_insert, on_update, each_statement}
use postgres_tde.Encryption.Literal.{Crypto}
use postgres_tde.Encryption.Statement.{mutate_insert_statement, mutate_update_statement}
use postgres_tde.Encryption.Guard.{encryption_overrides}

module _ (crypto : Crypto) (config : DatabaseEncryptionConfig) where
  open config use {get_column_config}

  -- The columns of an INSERT stay as they are.
  abbrev pub encrypt_insert :
      List ℕ → List (List ℕ) → List Expr → ℕ → Mutated ((List (List ℕ) × List Expr) × ℕ)
  unfolding mutate_insert_statement
  encrypt_insert table columns values n =
      and_mutate (mutate_insert_statement crypto get_column_config table columns values n)
        (λ r. mutated ((columns, r.0), r.1))

  -- The query, the fields of the traversal, and how many vectors were used.
  unfoldable pub mutate_query : List Statement → Walk → ℕ → Mutated (List Statement × Walk × ℕ)
  unfolding visit_query each_statement mutate_update_statement
  mutate_query q w n =
      and_mutate (of_visited (visit_query (encryption_overrides config) q w)) (λ w'.
        and_mutate (each_statement (on_insert encrypt_insert) q n) (λ q₁.
          and_mutate
            (each_statement (on_update (mutate_update_statement crypto get_column_config)) q₁.0
              q₁.1)
            (λ q₂. mutated (q₂.0, w', q₂.1))))
