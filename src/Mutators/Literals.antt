-- ===== src/Mutators/Literals.antt =====
-- `createHashLiteral` of blind_index.cc and `createJoinKeyLiteral` of probabilistic_join.cc.
use postgres_tde.Base.{Bool, List, Option, if◌then◌else◌, leb, length, none, some, take, ℕ, ◌++◌}
use mathlib.Core.Option
use postgres_tde.Manager.State.{ascii}
use postgres_tde.Sql.Ast.{Expr, literal_float, literal_int, literal_string, literal_null}
use postgres_tde.Config.Column.{ColumnConfig}
use postgres_tde.Mutators.Derived.{Deriving}

-- What the mutators call: BoringSSL's HMAC and digest, `absl::BytesToHexString`, and the bytes that
-- the host has for an `int64_t`, given as a sign and a magnitude.
pub record Digests : Type 0 where
  pub sha256_hmac : List ℕ → List ℕ → List ℕ
  pub sha256_digest : List ℕ → List ℕ
  pub bytes_to_hex : List ℕ → List ℕ
  pub int_bytes : Bool → ℕ → List ℕ

module _ (digests : Digests) where
  open digests use {sha256_hmac, sha256_digest, bytes_to_hex, int_bytes}

  unfoldable pub generate_hmac_string : List ℕ → ColumnConfig → List ℕ
  generate_hmac_string data_ column = ascii "\\x" ++ bytes_to_hex (sha256_hmac column.bi_key data_)

  -- `none` for `PANIC`.
  unfoldable pub create_hash_literal : ColumnConfig → Expr → Option Expr
  unfolding generate_hmac_string
  create_hash_literal column literal_null = some literal_null
  create_hash_literal column (literal_string text) =
      some (literal_string (generate_hmac_string text column))
  create_hash_literal column (literal_int negative n) =
      some (literal_string (generate_hmac_string (int_bytes negative n) column))
  create_hash_literal column (literal_float bytes text) =
      some (literal_string (generate_hmac_string bytes column))
  create_hash_literal column _ = none

  -- The first bytes of the hash; `none` where the hash is shorter.
  unfoldable pub generate_join_key_string : ℕ → List ℕ → Option (List ℕ)
  generate_join_key_string size data_ =
      if leb size (length (sha256_digest data_))
      then some (ascii "\\x" ++ bytes_to_hex (take size (sha256_digest data_)))
      else none

  unfoldable pub create_join_key_literal : ℕ → Expr → Option Expr
  unfolding generate_join_key_string
  create_join_key_literal size literal_null = some literal_null
  create_join_key_literal size (literal_string text) =
      Option.map literal_string (generate_join_key_string size text)
  create_join_key_literal size (literal_int negative n) =
      Option.map literal_string (generate_join_key_string size (int_bytes negative n))
  create_join_key_literal size (literal_float bytes text) =
      Option.map literal_string (generate_join_key_string size bytes)
  create_join_key_literal size _ = none

  -- What the blind index mutator adds, and what the join mutator adds.
  abbrev pub blind_index : Deriving
  blind_index = record {
    feature = λ column. column.has_blind_index;
    derived_column = λ column. column.bi_column_name;
    derived_literal = create_hash_literal;
    insert_error =
        ascii "postgres_tde: only literals can be used as INSERT values for blind-indexed columns";
    update_error =
        ascii "postgres_tde: only literals can be used as UPDATE values for blind-indexed columns";
  }

  abbrev pub join_key : ℕ → Deriving
  join_key size = record {
    feature = λ column. column.has_join;
    derived_column = λ column. column.join_key_column_name;
    derived_literal = λ column. create_join_key_literal size;
    insert_error =
        ascii
          "postgres_tde: only literals can be used as INSERT values for columns with join support";
    update_error =
        ascii
          "postgres_tde: only literals can be used as UPDATE values for columns with join support";
  }
