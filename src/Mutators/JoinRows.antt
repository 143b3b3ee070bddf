-- ===== src/Mutators/JoinRows.antt =====
-- probabilistic_join.cc: `mutateRowDescription` and `mutateDataRow`.
use postgres_tde.Base.{
  Bool, List, Option, [], false, get_elem?, if◌then◌else◌, none, some, suc, true, ℕ, ◌++◌, ◌∷◌,
}
use postgres_tde.Manager.Mutator.{Result, ok, error}
use postgres_tde.Mutation.{Mutated, mutated, aborted, and_mutate}
use postgres_tde.Sql.Fields.{Walk, ColumnRef, same_text, same_column, find_text}
use postgres_tde.Mutators.Join.{Comparison, must_be_selected}

abbrev pub Row : Type 0
Row = List (Option (List ℕ))

-- `columns2idx`, with the newest entry in front; the names of the columns are given from the `i`-th
-- on.
unfoldable pub match_columns :
    Walk → List (List ℕ) → ℕ → List (ColumnRef × ℕ) → List (ColumnRef × ℕ)
match_columns w [] i found = found
match_columns w (name ∷ names) i found =
    match_columns w names (suc i) (elim (find_text name w.select_column_aliases) [
      | none ↦ found
      | some column ↦ (column, i) ∷ found
    ])

abbrev pub index_of : ColumnRef → List (ColumnRef × ℕ) → Option ℕ
index_of column [] = none
index_of column ((c, i) ∷ rest) = if same_column column c then some i else index_of column rest

abbrev pub pair_of : Option ℕ → Option ℕ → Option (ℕ × ℕ)
pair_of (some l) (some r) = some (l, r)
pair_of _ _ = none

-- The loop over `join_comparisons_`: the result, and `join_comparisons_indices_`, to which pairs are
-- added until the first error.
unfoldable pub match_joins :
    List (ColumnRef × ℕ) → List Comparison → List (ℕ × ℕ) → Result × List (ℕ × ℕ)
match_joins found [] indices = (ok, indices)
match_joins found ((left, right) ∷ rest) indices =
    elim (pair_of (index_of left found) (index_of right found)) [
      | none ↦ (error must_be_selected, indices)
      | some pair ↦ match_joins found rest (indices ++ pair ∷ [])
    ]

-- By the names of the columns. The indices stay until the next query.
unfoldable pub mutate_row_description :
    Walk → List Comparison → List (List ℕ) → List (ℕ × ℕ) → Result × List (ℕ × ℕ)
unfolding match_columns match_joins
mutate_row_description w comparisons names indices =
    match_joins (match_columns w names 0 []) comparisons indices

-- `VarByteN::operator==`.
abbrev pub same_cell : Option (List ℕ) → Option (List ℕ) → Bool
same_cell none none = true
same_cell (some a) (some b) = same_text a b
same_cell _ _ = false

-- Two cells of a row; an index that is out of range is not defined.
abbrev pub cells : Row → ℕ × ℕ → Mutated Bool
cells row (l, r) = elim (get_elem? row l) [
  | none ↦ aborted
  | some a ↦ elim (get_elem? row r) [ none ↦ aborted | some b ↦ mutated (same_cell a b) ]
]

-- A row that is discarded is `none`.
unfoldable pub mutate_data_row : List (ℕ × ℕ) → Row → Mutated (Option Row)
mutate_data_row [] row = mutated (some row)
mutate_data_row (pair ∷ rest) row =
    let later = mutate_data_row rest row in
    and_mutate (cells row pair) (λ same. if same then later else mutated none)
