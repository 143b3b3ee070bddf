-- ===== src/Mutators/JoinSpec.antt =====
-- The join of the texts, the join of the keys that `createJoinKeyLiteral` of probabilistic_join.cc
-- stores beside the literals, and the rows that `mutateDataRow` keeps.
use postgres_tde.Base.{
  Bool, List, Option, [], ap, arith, false, get_elem?, if◌then◌else◌, length, map, none, refl, some,
  suc, true, zero, ℕ, ◌&&◌, ◌<◌, ◌^◌, ◌∙◌, ◌∷◌, ◌≡◌,
}
use postgres_tde.Mutation.{Mutated, mutated, aborted, and_mutate}
use postgres_tde.Sql.Fields.{same_text}
use postgres_tde.Sql.Ast.{Expr, literal_float, literal_int, literal_string, literal_null}
use postgres_tde.Encryption.Literal.{Crypto, literal_text}
use postgres_tde.Mutators.Literals.{Digests, create_join_key_literal}
use postgres_tde.Mutators.JoinRows.{Row, same_cell, mutate_data_row}

abbrev pub Cell : Type 0
Cell = Option (List ℕ)

-- The cell at a position; NULL behind the end.
abbrev pub cell_at : Row → ℕ → Cell
cell_at row i = elim (get_elem? row i) [ none ↦ none | some c ↦ c ]

-- The literals that the cells of a row were written from.
abbrev pub Written : Type 0
Written = List Expr

abbrev pub literal_at : Written → ℕ → Expr
literal_at row i = elim (get_elem? row i) [ none ↦ literal_null | some e ↦ e ]

-- The texts that are encrypted for them.
abbrev pub texts : Crypto → Written → Row
texts crypto row = map (literal_text crypto) row

-- A join condition with an equality of its own, at every pair of positions.
unfoldable pub meets : {A : Type 0} → (A → A → Bool) → List (ℕ × ℕ) → (ℕ → A) → Bool
meets equal [] row = true
meets equal ((l, r) ∷ rest) row = equal (row l) (row r) && meets equal rest row

unfoldable pub keep : {A : Type 0} → (A → Bool) → List A → List A
keep p [] = []
keep p (x ∷ xs) = let rest = keep p xs in if p x then x ∷ rest else rest

-- SQL's equality of the texts: NULL is not equal to anything.
abbrev pub text_equal : Cell → Cell → Bool
text_equal (some a) (some b) = same_text a b
text_equal _ _ = false

-- What the server stores for a literal that the mutator adds to the query.
abbrev pub cell_of : Option Expr → Cell
cell_of (some (literal_string key)) = some key
cell_of _ = none

-- SQL's equality of the join keys that the mutator stores beside two literals.
abbrev pub key_equal : Digests → ℕ → Expr → Expr → Bool
key_equal digests size a b =
    text_equal (cell_of (create_join_key_literal digests size a))
      (cell_of (create_join_key_literal digests size b))

-- Two strings, two integers of at most 20 digits, two floats that `std::to_string` tells apart, or a
-- NULL: keys are made from the bytes of a number and not from its text.
abbrev pub AreOneKind : Crypto → Expr → Expr → Type 0
AreOneKind crypto (literal_string a) (literal_string b) = Unit
AreOneKind crypto (literal_int s i) (literal_int t j) = (i < 10 ^ 20) × (j < 10 ^ 20)
AreOneKind crypto (literal_float a x) (literal_float b y) =
    crypto.to_string a ≡ crypto.to_string b → a ≡ b
AreOneKind crypto literal_null b = Unit
AreOneKind crypto a literal_null = Unit
AreOneKind crypto _ _ = ⊥

-- At every pair of positions.
abbrev pub PairsOneKind : Crypto → List (ℕ × ℕ) → Written → Type 0
PairsOneKind crypto [] row = Unit
PairsOneKind crypto ((l, r) ∷ rest) row =
    AreOneKind crypto (literal_at row l) (literal_at row r) × PairsOneKind crypto rest row

abbrev pub AllOneKind : Crypto → List (ℕ × ℕ) → List Written → Type 0
AllOneKind crypto pairs [] = Unit
AllOneKind crypto pairs (row ∷ rows) = PairsOneKind crypto pairs row × AllOneKind crypto pairs rows

-- The rows that reach the client: those that `mutateDataRow` does not discard.
unfoldable pub delivered : List (ℕ × ℕ) → List Row → Mutated (List Row)
unfolding mutate_data_row
delivered pairs [] = mutated []
delivered pairs (row ∷ rows) = and_mutate (mutate_data_row pairs row) (λ kept.
    and_mutate (delivered pairs rows)
      (λ rest. mutated (elim kept [ none ↦ rest | some row' ↦ row' ∷ rest ])))

-- Both positions of every pair are inside the row.
abbrev pub InRange : List (ℕ × ℕ) → Row → Type 0
InRange [] row = Unit
InRange ((l, r) ∷ rest) row = ((l < length row) × (r < length row)) × InRange rest row

abbrev pub AllInRange : List (ℕ × ℕ) → List Row → Type 0
AllInRange pairs [] = Unit
AllInRange pairs (row ∷ rows) = InRange pairs row × AllInRange pairs rows

get_elem?-some : (row : Row) (i : ℕ) → i < length row → get_elem? row i ≡ some (cell_at row i)
get_elem?-some [] i h = absurd (omega arith)
get_elem?-some (c ∷ row) zero h = refl
get_elem?-some (c ∷ row) (suc i) h = get_elem?-some row i (omega arith)

-- A row inside the range is kept exactly when the cells of every pair are the same.
pub mutate_data_row-InRange :
    (pairs : List (ℕ × ℕ)) (row : Row)
    → InRange pairs row
    → mutate_data_row pairs row
      ≡ mutated (if meets same_cell pairs (cell_at row) then some row else none)
unfolding mutate_data_row meets
mutate_data_row-InRange [] row h = refl
mutate_data_row-InRange ((l, r) ∷ rest) row h =
    ap
      (λ (o : Option Cell).
        and_mutate
          (elim o [
            | none ↦ aborted
            | some a ↦ elim (get_elem? row r) [ none ↦ aborted | some b ↦ mutated (same_cell a b) ]
          ])
          decide)
      (get_elem?-some row l h.0.0)
    ∙ ap
        (λ (o : Option Cell).
          and_mutate (elim o [ none ↦ aborted | some b ↦ mutated (same_cell (cell_at row l) b) ])
            decide)
        (get_elem?-some row r h.0.1)
    ∙ go (same_cell (cell_at row l) (cell_at row r)) (mutate_data_row-InRange rest row h.1)
  where
    decide : Bool → Mutated (Option Row)
    decide same = if same then mutate_data_row rest row else mutated none

    go :
        (b : Bool)
        → mutate_data_row rest row
          ≡ mutated (if meets same_cell rest (cell_at row) then some row else none)
        → (if b then mutate_data_row rest row else mutated none)
          ≡ mutated (if b && meets same_cell rest (cell_at row) then some row else none)
    go true ih = ih
    go false ih = refl
