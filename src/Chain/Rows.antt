-- ===== src/Chain/Rows.antt =====
-- The rows of a result on their way back: `processDataRow` runs the mutators in reverse order, so that
-- a row is decrypted before its columns are compared. The blind index mutator leaves rows alone.
use postgres_tde.Base.{
  Bool, List, Option, [], ap, false, if◌then◌else◌, map, none, refl, some, true, ℕ, ◌∙◌, ◌∷◌, ◌≡◌,
}
use postgres_tde.Mutation.{Mutated, mutated, and_mutate}
use postgres_tde.Config.Column.{ColumnConfig}
use postgres_tde.Mutators.Literals.{Digests}
use postgres_tde.Mutators.JoinRows.{Row}
use postgres_tde.Mutators.JoinRows as JoinRows
use postgres_tde.Mutators.JoinKeys.{Long}
use postgres_tde.Mutators.JoinRefinement.{delivered-keep}
use postgres_tde.Mutators.JoinSpec.{
  Written, texts, cell_at, literal_at, AllOneKind, keep, meets, text_equal, key_equal, delivered,
  AllInRange,
}
use postgres_tde.Encryption.Literal.{Crypto, IsSound}
use postgres_tde.Encryption.Row as EncryptionRow
use postgres_tde.Encryption.Row.{StoresAll, mutate_data_row-StoresAll}

-- A row of the table: the literals that it was written from, and how the server stores it.
abbrev pub Stored : Type 0
Stored = Written × Row

module _ (crypto : Crypto) where
  -- The rows that reach the client, with `data_row_config_` and `join_comparisons_indices_`.
  unfoldable pub mutate_rows :
      List (Option ColumnConfig) → List (ℕ × ℕ) → List Row → Mutated (List Row)
  unfolding EncryptionRow.mutate_data_row JoinRows.mutate_data_row
  mutate_rows configs pairs [] = mutated []
  mutate_rows configs pairs (row ∷ rows) =
      and_mutate (EncryptionRow.mutate_data_row crypto configs row) (λ plain.
        and_mutate (JoinRows.mutate_data_row pairs plain) (λ kept.
          and_mutate (mutate_rows configs pairs rows)
            (λ rest. mutated (elim kept [ none ↦ rest | some row' ↦ row' ∷ rest ]))))

  -- Every row of a table is stored as the mutator writes it.
  abbrev pub EachStored : List (Option ColumnConfig) → List Stored → Type 0
  EachStored configs [] = Unit
  EachStored configs ((written, row) ∷ rest) =
      StoresAll crypto configs (texts crypto written) row × EachStored configs rest

  mutate_rows-delivered :
      (sound : IsSound crypto) (configs : List (Option ColumnConfig)) (pairs : List (ℕ × ℕ))
      (table : List Stored)
      → EachStored configs table
      → mutate_rows configs pairs (map (λ p. p.1) table)
        ≡ delivered pairs (map (texts crypto) (map (λ p. p.0) table))
  unfolding mutate_rows delivered
  mutate_rows-delivered sound configs pairs [] h = refl
  mutate_rows-delivered sound configs pairs ((plain, row) ∷ rest) h =
      ap
        (λ m. and_mutate m (λ p. and_mutate (JoinRows.mutate_data_row pairs p) (λ kept.
          and_mutate (mutate_rows configs pairs (map (λ q. q.1) rest))
            (λ more. mutated (elim kept [ none ↦ more | some row' ↦ row' ∷ more ])))))
        (mutate_data_row-StoresAll crypto sound configs (texts crypto plain) row h.0)
      ∙ ap
          (λ m. and_mutate (JoinRows.mutate_data_row pairs (texts crypto plain)) (λ kept.
            and_mutate m (λ more. mutated (elim kept [ none ↦ more | some row' ↦ row' ∷ more ]))))
          (mutate_rows-delivered sound configs pairs rest h.1)

  -- What the server keeps of a table is stored in the same way.
  keep-EachStored :
      (configs : List (Option ColumnConfig)) (test : Written → Bool) (table : List Stored)
      → EachStored configs table
      → EachStored configs (keep (λ p. test p.0) table)
  unfolding keep
  keep-EachStored configs test [] h = tt
  keep-EachStored configs test ((plain, row) ∷ rest) h =
      go (test plain) (keep-EachStored configs test rest h.1)
    where
      go :
          (b : Bool)
          → EachStored configs (keep (λ p. test p.0) rest)
          → EachStored configs
              (if b then (plain, row) ∷ keep (λ p. test p.0) rest else keep (λ p. test p.0) rest)
      go true ih = (h.0, ih)
      go false ih = ih

map-keep :
    (test : Written → Bool) (table : List Stored)
    → map (λ p. p.0) (keep (λ (p : Stored). test p.0) table) ≡ keep test (map (λ p. p.0) table)
unfolding keep
map-keep test [] = refl
map-keep test ((plain, row) ∷ rest) = go (test plain) (map-keep test rest)
  where
    go :
        (b : Bool)
        → map (λ p. p.0) (keep (λ (p : Stored). test p.0) rest) ≡ keep test (map (λ p. p.0) rest)
        → map
            (λ p. p.0)
            (if b
              then (plain, row) ∷ keep (λ (p : Stored). test p.0) rest
              else keep (λ (p : Stored). test p.0) rest)
          ≡ (if b then plain ∷ keep test (map (λ p. p.0) rest) else keep test (map (λ p. p.0) rest))
    go true ih = ap (λ l. plain ∷ l) ih
    go false ih = ih

-- The joined rows of a table whose columns were written by the mutators from literals, and which the
-- server, that has only the join keys added for the literals, sends when the keys are equal: behind
-- both mutators the client has, in plain text and in their order, exactly the rows that a join of
-- the texts has. The pairs of positions lie inside the rows, a digest is at least as long as a key,
-- and the literals at a pair are two strings, two integers of at most 20 digits, two floats that
-- `std::to_string` tells apart, or one of them is NULL.
pub mutate_rows-keep :
    (digests : Digests) (crypto : Crypto) (sound : IsSound crypto) (size : ℕ)
    (configs : List (Option ColumnConfig)) (pairs : List (ℕ × ℕ)) (table : List Stored)
    → Long digests crypto size
    → EachStored crypto configs table
    → AllOneKind crypto pairs (map (λ p. p.0) table)
    → AllInRange pairs (map (texts crypto) (map (λ p. p.0) table))
    → mutate_rows crypto configs pairs
        (map (λ p. p.1) (keep (λ p. meets (key_equal digests size) pairs (literal_at p.0)) table))
      ≡ mutated (
          keep
            (λ row. meets text_equal pairs (cell_at row))
            (map (texts crypto) (map (λ p. p.0) table)))
mutate_rows-keep digests crypto sound size configs pairs table long stored kinds inside =
    let test : Written → Bool = λ row. meets (key_equal digests size) pairs (literal_at row) in
    let sent = keep (λ (p : Stored). test p.0) table in
    mutate_rows-delivered crypto sound configs pairs sent
      (keep-EachStored crypto configs test table stored)
    ∙ ap (λ rows. delivered pairs (map (texts crypto) rows)) (map-keep test table)
    ∙ delivered-keep digests crypto size pairs (map (λ p. p.0) table) long kinds inside
