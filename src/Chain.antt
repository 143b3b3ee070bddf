-- ===== src/Chain.antt =====
-- postgres_mutation_manager.cc: the constructor's chain of mutators, as `processQueryImpl` runs it.
use postgres_tde.Base.{List, ℕ}
use postgres_tde.Mutation.{Mutated, and_mutate, mutated}
use postgres_tde.Sql.Ast.{Statement}
use postgres_tde.Sql.Fields.{Walk}
use postgres_tde.Config.Column.{DatabaseEncryptionConfig}
use postgres_tde.Mutators.Literals.{Digests}
use postgres_tde.Mutators.BlindIndex as BlindIndex
use postgres_tde.Mutators.Join as Join
use postgres_tde.Mutators.Join.{Comparison}
use postgres_tde.Encryption.Literal.{Crypto}
use postgres_tde.Encryption.Query as Query
pub mod Insert
pub mod Refused
pub mod Statements
pub mod Printing
pub mod Rows

-- The fields of the three traversals, the join comparisons, and how many vectors were used.
pub record Fields : Type 0 where
  pub blind_index_walk : Walk
  pub join_walk : Walk
  pub join_comparisons : List Comparison
  pub encryption_walk : Walk
  pub vectors : ℕ

module _ (digests : Digests) (crypto : Crypto) (config : DatabaseEncryptionConfig) where
  unfoldable pub mutate_chain : List Statement → Fields → Mutated (List Statement × Fields)
  unfolding BlindIndex.mutate_query Join.mutate_query Query.mutate_query
  mutate_chain q s = and_mutate (BlindIndex.mutate_query digests config q s.blind_index_walk) (λ a.
      and_mutate (Join.mutate_query digests config a.0 s.join_walk) (λ b.
        and_mutate (Query.mutate_query crypto config b.0 s.encryption_walk s.vectors) (λ c.
          mutated (
            c.0,
            record {
              blind_index_walk = a.1;
              join_walk = b.1;
              join_comparisons = b.2;
              encryption_walk = c.1;
              vectors = c.2;
            },
          ))))
