-- ===== src/Mutators/JoinRefinement.antt =====
-- The join that the client sees: the server joins by the join keys, `mutateDataRow` discards the rows
-- that only collide, and what stays is the join of the texts.
use postgres_tde.Base.{
  Bool, List, [], ap, false, if◌then◌else◌, map, none, refl, some, sym, true, ℕ, ◌∙◌, ◌∷◌, ◌≡◌,
}
use postgres_tde.Mutation.{mutated, and_mutate}
use postgres_tde.Encryption.Literal.{Crypto}
use postgres_tde.Mutators.Literals.{Digests}
use postgres_tde.Mutators.JoinRows.{Row, same_cell}
use postgres_tde.Mutators.JoinSpec.{
  Cell, Written, cell_at, literal_at, texts, meets, keep, text_equal, key_equal, delivered,
  AllInRange, AllOneKind, mutate_data_row-InRange,
}
use postgres_tde.Mutators.JoinKeys.{Long, meets-same_cell, meets-key_equal}

module _ (digests : Digests) (crypto : Crypto) (size : ℕ) where
  -- Rows are written from literals. The server joins them by the join keys that the mutator adds
  -- for the literals, and the filter runs over what the server sends: the client is given exactly
  -- the rows, in their order, that a join of the texts has, however the keys collide. The pairs of
  -- positions lie inside the rows, a digest is at least as long as a key, and the literals at a pair
  -- are two strings, two integers of at most 20 digits, two floats that `std::to_string` tells apart,
  -- or one of them is NULL.
  pub delivered-keep :
      (pairs : List (ℕ × ℕ)) (rows : List Written)
      → Long digests crypto size
      → AllOneKind crypto pairs rows
      → AllInRange pairs (map (texts crypto) rows)
      → delivered pairs (
          map
            (texts crypto)
            (keep (λ row. meets (key_equal digests size) pairs (literal_at row)) rows))
        ≡ mutated (keep (λ row. meets text_equal pairs (cell_at row)) (map (texts crypto) rows))
  unfolding delivered keep
  delivered-keep pairs [] long k h = refl
  delivered-keep pairs (row ∷ rows) long k h =
      go (meets (key_equal digests size) pairs (literal_at row)) (meets text_equal pairs at) refl
        refl (delivered-keep pairs rows long k.1 h.1)
    where
      at : ℕ → Cell
      at = cell_at (texts crypto row)

      sent : List Written
      sent = keep (λ row. meets (key_equal digests size) pairs (literal_at row)) rows

      server : List Row
      server = map (texts crypto) sent

      plain : List Row
      plain = keep (λ row. meets text_equal pairs (cell_at row)) (map (texts crypto) rows)

      kept :
          (b : Bool)
          → meets same_cell pairs at ≡ b
          → delivered pairs server ≡ mutated plain
          → delivered pairs (texts crypto row ∷ server)
            ≡ mutated (if b then texts crypto row ∷ plain else plain)
      kept b e ih =
          ap
            (λ m. and_mutate m (λ kept.
              and_mutate (delivered pairs server)
                (λ rest. mutated (elim kept [ none ↦ rest | some row' ↦ row' ∷ rest ]))))
            (mutate_data_row-InRange pairs (texts crypto row) h.0
              ∙ ap (λ c. mutated (if c then some (texts crypto row) else none)) e)
          ∙ last b ih
        where
          last :
              (c : Bool)
              → delivered pairs server ≡ mutated plain
              → and_mutate (delivered pairs server) (λ rest.
                mutated (elim (if c then some (texts crypto row) else none) [
                  | none ↦ rest
                  | some row' ↦ row' ∷ rest
                ]))
                ≡ mutated (if c then texts crypto row ∷ plain else plain)
          last true ih = ap (λ m. and_mutate m (λ rest. mutated (texts crypto row ∷ rest))) ih
          last false ih = ap (λ m. and_mutate m (λ rest. mutated rest)) ih

      go :
          (b t : Bool)
          → meets (key_equal digests size) pairs (literal_at row) ≡ b
          → meets text_equal pairs at ≡ t
          → delivered pairs server ≡ mutated plain
          → delivered pairs (map (texts crypto) (if b then row ∷ sent else sent))
            ≡ mutated (if t then texts crypto row ∷ plain else plain)
      go true t eb et ih = kept t (meets-same_cell digests crypto size pairs row eb ∙ et) ih
      go false false eb et ih = ih
      go false true eb et ih =
          absurd (clash (sym eb ∙ meets-key_equal digests crypto size pairs row long k.0 et))
        where
          clash : false ≡ true → ⊥
          clash e = cc
