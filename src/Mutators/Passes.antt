-- ===== src/Mutators/Passes.antt =====
-- The loops over the candidates that base_mutator.cc collects: the INSERT statements with values, and
-- the UPDATE statements, in the order of the query.
use postgres_tde.Base.{List, [], none, some, ℕ, ◌∷◌}
use postgres_tde.Mutation.{Mutated, mutated, refused, aborted, and_mutate}
use postgres_tde.Sql.Ast.{Expr, Exprs, no_more, and_then, Statement, insert_values, update_stmt}
use postgres_tde.Sql.Fields.{Walk, Visited, visited, panicked}
use postgres_tde.Sql.Fields as Walk
use postgres_tde.Config.Column.{DatabaseEncryptionConfig}
use postgres_tde.Mutators.Derived.{Deriving, extend_insert, extend_update}
use postgres_tde.Mutators.Amend.{one, same, both}

abbrev pub to_list : Exprs → List Expr
to_list no_more = []
to_list (and_then e es) = e ∷ to_list es

abbrev pub of_list : List Expr → Exprs
of_list [] = no_more
of_list (e ∷ es) = and_then e (of_list es)

-- `CHECK_RESULT(Visitor::visitQuery(query))`.
abbrev pub of_visited : Visited → Mutated Walk
of_visited (visited w) = mutated w
of_visited (Walk.refused e) = refused e
of_visited panicked = aborted

module _ {S : Type 0} where
  -- An INSERT without a list of columns is a null pointer here.
  abbrev pub on_insert :
      (List ℕ → List (List ℕ) → List Expr → S → Mutated ((List (List ℕ) × List Expr) × S))
      → Statement
      → S
      → Mutated (Statement × S)
  on_insert f (insert_values table (some columns) values) s =
      one (λ (r : List (List ℕ) × List Expr). insert_values table (some r.0) (of_list r.1))
        (f table columns (to_list values)) s
  on_insert f (insert_values table none values) s = aborted
  on_insert f st s = same st s

  abbrev pub on_update :
      (List ℕ → List (List ℕ × Expr) → S → Mutated (List (List ℕ × Expr) × S))
      → Statement
      → S
      → Mutated (Statement × S)
  on_update f (update_stmt table alias updates condition) s =
      one (λ us. update_stmt table alias us condition) (f table updates) s
  on_update f st s = same st s

  unfoldable pub each_statement :
      (Statement → S → Mutated (Statement × S)) → List Statement → S → Mutated (List Statement × S)
  each_statement f [] s = same [] s
  each_statement f (st ∷ rest) s = both (λ st' rest'. st' ∷ rest') (f st) (each_statement f rest) s

-- A change that collects nothing.
abbrev pub alone : {A : Type 0} → Mutated A → Unit {0} → Mutated (A × Unit {0})
alone m u = and_mutate m (λ a. mutated (a, u))

-- `mutateInsertStatement` and `mutateUpdateStatement` of the mutators that add columns.
module _ (d : Deriving) (config : DatabaseEncryptionConfig) where
  unfoldable pub extend_inserts : List Statement → Mutated (List Statement × Unit {0})
  unfolding each_statement extend_insert
  extend_inserts q =
      each_statement
        (on_insert (λ table columns values. alone (extend_insert d config table columns values))) q
        tt

  unfoldable pub extend_updates : List Statement → Mutated (List Statement × Unit {0})
  unfolding each_statement extend_update
  extend_updates q =
      each_statement (on_update (λ table updates. alone (extend_update d config table updates))) q
        tt
