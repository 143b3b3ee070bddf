-- ===== src/Examples/Chain.antt =====
-- The chain of mutators at concrete queries.
use postgres_tde.Base.{List, [], none, refl, some, ◌++◌, ◌∷◌, ◌≡◌}
use mathlib.Core.List.{Memᴰ}
use postgres_tde.Manager.State.{ascii}
use postgres_tde.Mutation.{mutated}
use postgres_tde.Sql.Ast.{
  Expr, operator, op_and, op_equals, an_expr, no_exprs, literal_null, column_ref, literal_string,
  no_more, and_then, Statement, insert_values,
}
use postgres_tde.Sql.Walk.{visit_query, visit_statements, visit_statement, visit_expression}
use postgres_tde.Sql.Fields.{Walk, table_name_by_alias}
use postgres_tde.Sql.Dump.{dump_query}
use postgres_tde.Sql.Verdict.{Printed}
use postgres_tde.Config.Dummy.{dummy_config, key1}
use postgres_tde.Config.Consistent.{dummy_config-IsUsable}
use postgres_tde.Mutators.Base.{refuse_insert}
use postgres_tde.Mutators.Derived.{paired, derive_all, extend_insert}
use postgres_tde.Mutators.Literals.{
  generate_hmac_string, create_hash_literal, generate_join_key_string, create_join_key_literal,
}
use postgres_tde.Mutators.Amend.{amend_expression, amend_statement, amend_query}
use postgres_tde.Mutators.Passes.{each_statement, extend_inserts, extend_updates}
use postgres_tde.Mutators.BlindIndex as BlindIndex
use postgres_tde.Mutators.BlindIndex.{mutate_comparison}
use postgres_tde.Mutators.Join as Join
use postgres_tde.Encryption.Literal.{Encrypts, create_encrypted_literal, generate_crypto_string}
use postgres_tde.Encryption.Aes.{aes_encrypt}
use postgres_tde.Encryption.Statement.{mutate_insert_statement, mutate_values}
use postgres_tde.Encryption.Query as Query
use postgres_tde.Examples.Queries.{new_walk}
use postgres_tde.Examples.Values.{prefix_crypto, prefix_crypto-IsSound}
use postgres_tde.Examples.Mutators.{
  short_digests, cities, id, id_config, value, hash, indexed, joined,
}
use postgres_tde.Chain.{Fields, mutate_chain}
use postgres_tde.Chain.Insert.{
  inserted_value_indexed, inserted_value-Encrypts, comparison_finds_inserted,
}
use postgres_tde.Chain.Printing.{mutate_chain-Printed}

abbrev new_fields : Fields
new_fields = record {
  blind_index_walk = new_walk;
  join_walk = new_walk;
  join_comparisons = [];
  encryption_walk = new_walk;
  vectors = 0;
}

-- What is sent for the text x.
abbrev sent_x : Expr
sent_x = literal_string (ascii "\\x" ++ (prefix_crypto.rand 0 ++ (key1 ++ ascii "x")))

abbrev sent_values : List Expr
sent_values = sent_x ∷ hash ∷ literal_string (ascii "\\x" ++ 1 ∷ []) ∷ []

inserted_value_indexed_example :
    (h : Expr) × (create_hash_literal short_digests id_config value ≡ some h)
    × Memᴰ (ascii "id_bi", h) (paired joined.0 sent_values)
unfolding extend_insert derive_all create_hash_literal generate_hmac_string create_join_key_literal
    generate_join_key_string mutate_insert_statement mutate_values create_encrypted_literal
    generate_crypto_string aes_encrypt
inserted_value_indexed_example =
    inserted_value_indexed short_digests prefix_crypto dummy_config prefix_crypto-IsSound cities
      (id ∷ []) (value ∷ []) indexed joined 0 (sent_values, 1) id value id_config refl refl refl
      refl (dummy_config-IsUsable cities id id_config refl) (Memᴰ.head refl)

inserted_value-Encrypts_example :
    (sent : Expr) × Memᴰ (id, sent) (paired joined.0 sent_values)
    × Encrypts prefix_crypto id_config value sent
unfolding extend_insert derive_all create_hash_literal generate_hmac_string create_join_key_literal
    generate_join_key_string mutate_insert_statement mutate_values create_encrypted_literal
    generate_crypto_string aes_encrypt
inserted_value-Encrypts_example =
    inserted_value-Encrypts short_digests prefix_crypto dummy_config prefix_crypto-IsSound cities
      (id ∷ []) (value ∷ []) indexed joined 0 (sent_values, 1) id value id_config refl refl refl
      refl (Memᴰ.head refl)

-- A query in which the table is called c.
abbrev aliased : Walk
aliased = record new_walk { table_aliases = (ascii "c", cities) ∷ [] }

comparison_finds_inserted_example :
    (h : Expr) × Memᴰ (ascii "id_bi", h) (paired indexed.0 indexed.1)
    × (mutate_comparison short_digests dummy_config aliased
          (column_ref (some (ascii "c")) id none)
          value
        ≡ mutated (column_ref (some (ascii "c")) (ascii "id_bi") none, h))
unfolding extend_insert derive_all create_hash_literal generate_hmac_string table_name_by_alias
comparison_finds_inserted_example =
    comparison_finds_inserted short_digests prefix_crypto dummy_config cities (id ∷ []) (value ∷ [])
      indexed id value id_config aliased (ascii "c") none refl refl (Memᴰ.head refl) refl

-- c.id = 'x' AND NULL
abbrev condition : Expr
condition =
    operator op_and
      (an_expr (
        operator op_equals (an_expr (column_ref (some (ascii "c")) id none)) (an_expr value)
          no_exprs))
      (an_expr literal_null) no_exprs

abbrev sent_condition : Expr
sent_condition =
    operator op_and
      (an_expr (
        operator op_equals (an_expr (column_ref (some (ascii "c")) (ascii "id_bi") none))
          (an_expr hash) no_exprs))
      (an_expr literal_null) no_exprs

-- INSERT INTO cities (id) VALUES ('x')
abbrev one_insert : List Statement
one_insert = insert_values cities (some (id ∷ [])) (and_then value no_more) ∷ []

abbrev sent_insert : List Statement
sent_insert =
    insert_values cities (some joined.0)
      (and_then sent_x (and_then hash (and_then (literal_string (ascii "\\x" ++ 1 ∷ [])) no_more)))
    ∷ []

abbrev sent_fields : Fields
sent_fields = record new_fields { vectors = 1 }

mutate_chain-Printed_example : Printed (dump_query sent_insert)
unfolding mutate_chain BlindIndex.mutate_query Join.mutate_query Query.mutate_query visit_query
    visit_statements visit_statement visit_expression refuse_insert amend_query amend_statement
    amend_expression extend_inserts extend_updates each_statement extend_insert derive_all
    create_hash_literal generate_hmac_string create_join_key_literal generate_join_key_string
    mutate_insert_statement mutate_values create_encrypted_literal generate_crypto_string
    aes_encrypt
mutate_chain-Printed_example =
    mutate_chain-Printed short_digests prefix_crypto dummy_config one_insert new_fields
      (sent_insert, sent_fields) refl
