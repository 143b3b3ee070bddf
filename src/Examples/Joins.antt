-- ===== src/Examples/Joins.antt =====
-- mutators/probabilistic_join.cc at concrete values.
use postgres_tde.Base.{List, [], arith, false, map, refl, some, ℕ, ◌++◌, ◌∷◌, ◌≡◌}
use postgres_tde.Manager.State.{ascii}
use postgres_tde.Mutation.{mutated}
use postgres_tde.Sql.Ast.{Expr, literal_int, literal_string, literal_null}
use postgres_tde.Sql.Fields.{Walk}
use postgres_tde.Mutators.JoinRows.{mutate_row_description, match_columns, match_joins}
use postgres_tde.Mutators.Join.{Comparison}
use postgres_tde.Mutators.JoinIndices.{AllPoint, mutate_row_description-AllPoint}
use postgres_tde.Mutators.JoinRefinement.{delivered-keep}
use postgres_tde.Mutators.JoinSpec.{
  Written, texts, literal_at, cell_at, keep, meets, key_equal, text_equal, delivered,
}
use postgres_tde.Examples.Queries.{new_walk}
use postgres_tde.Examples.Mutators.{short_digests, id_config}
use postgres_tde.Examples.Values.{prefix_crypto, prefix_crypto-IsSound}
use postgres_tde.Encryption.Literal.{generate_crypto_string}
use postgres_tde.Encryption.Aes.{aes_encrypt}
use postgres_tde.Chain.Rows.{Stored, mutate_rows, mutate_rows-keep}

-- SELECT a.id x, b.id y ... WHERE a.id = b.id
abbrev two_selected : Walk
two_selected = record new_walk {
  select_column_aliases =
      (ascii "x", (ascii "a", ascii "id")) ∷ (ascii "y", (ascii "b", ascii "id")) ∷ [];
}

abbrev comparisons : List Comparison
comparisons = ((ascii "a", ascii "id"), (ascii "b", ascii "id")) ∷ []

abbrev names : List (List ℕ)
names = ascii "x" ∷ ascii "n" ∷ ascii "y" ∷ []

-- A description that comes when the indices of another stand there.
mutate_row_description-AllPoint_example :
    (new : List (ℕ × ℕ)) × ((1, 1) ∷ (0, 2) ∷ [] ≡ (1, 1) ∷ [] ++ new)
    × AllPoint two_selected names comparisons new
unfolding mutate_row_description match_columns match_joins
mutate_row_description-AllPoint_example =
    mutate_row_description-AllPoint two_selected comparisons names ((1, 1) ∷ [])
      ((1, 1) ∷ (0, 2) ∷ []) refl

abbrev text_p : Expr
text_p = literal_string (ascii "p")

abbrev text_q : Expr
text_q = literal_string (ascii "q")

-- Two texts of one length, whose keys collide, one text that is equal to itself, a number and NULL.
abbrev rows : List Written
rows =
    (text_p ∷ text_q ∷ [])
    ∷ (text_p ∷ text_p ∷ [])
    ∷ (literal_int false 5 ∷ literal_int false 5 ∷ [])
    ∷ (literal_null ∷ literal_null ∷ [])
    ∷ []

delivered-keep_example :
    delivered ((0, 1) ∷ []) (
      map
        (texts prefix_crypto)
        (keep (λ row. meets (key_equal short_digests 1) ((0, 1) ∷ []) (literal_at row)) rows))
    ≡ mutated (
        keep (λ row. meets text_equal ((0, 1) ∷ []) (cell_at row)) (map (texts prefix_crypto) rows))
delivered-keep_example =
    delivered-keep short_digests prefix_crypto 1 ((0, 1) ∷ []) rows (λ t. omega arith)
      ((tt, tt), ((tt, tt), (((omega arith, omega arith), tt), ((tt, tt), tt))))
      (
        ((omega arith, omega arith), tt),
        (
          ((omega arith, omega arith), tt),
          (((omega arith, omega arith), tt), (((omega arith, omega arith), tt), tt)),
        ),
      )

-- A table of one row with two encrypted columns that hold the same text.
abbrev stored_p : ℕ → List ℕ
stored_p n = ascii "\\x" ++ (prefix_crypto.rand n ++ (id_config.encryption_key ++ ascii "p"))

abbrev table : List Stored
table = (text_p ∷ text_p ∷ [], some (stored_p 0) ∷ some (stored_p 1) ∷ []) ∷ []

mutate_rows-keep_example :
    mutate_rows prefix_crypto (some id_config ∷ some id_config ∷ []) ((0, 1) ∷ []) (
      map
        (λ p. p.1)
        (keep
          (λ (p : Stored). meets (key_equal short_digests 1) ((0, 1) ∷ []) (literal_at p.0))
          table))
    ≡ mutated (
        keep
          (λ row. meets text_equal ((0, 1) ∷ []) (cell_at row))
          (map (texts prefix_crypto) (map (λ p. p.0) table)))
unfolding generate_crypto_string aes_encrypt
mutate_rows-keep_example =
    mutate_rows-keep short_digests prefix_crypto prefix_crypto-IsSound 1
      (some id_config ∷ some id_config ∷ []) ((0, 1) ∷ []) table (λ t. omega arith)
      (((0, stored_p 0, refl, refl), ((1, stored_p 1, refl, refl), tt)), tt) ((tt, tt), tt)
      (((omega arith, omega arith), tt), tt)
