-- ===== src/Mutators/Rows.antt =====
-- What the extended INSERT and UPDATE statements say, row by row.
use postgres_tde.Base.{
  Bool, List, [], ap, arith, false, if◌then◌else◌, inl, inr, length, map, refl, some, subst, suc,
  sym, true, ℕ, ◌++◌, ◌==◌, ◌∙◌, ◌∷◌, ◌≡◌, ◌⊎◌,
}
use mathlib.Core.List.{Memᴰ}
use mathlib.Core.List.Memᴰ
use postgres_tde.Mutation.{mutated, refused, and_mutate, and_mutate-mutated, mutated-injective}
use postgres_tde.Sql.Ast.{Expr}
use postgres_tde.Config.Column.{ColumnConfig, DatabaseEncryptionConfig, configured}
use postgres_tde.Mutators.Derived.{
  Deriving, Addition, derive_all, paired, extend_insert, extend_update, bad_insert,
}
use postgres_tde.Mutators.Additions.{IsSource, derive_all_adds, derive_all-IsSource}

paired-append :
    (columns : List (List ℕ)) (values : List Expr) (added : List Addition)
    → length columns ≡ length values
    → paired (columns ++ map (λ a. a.0) added) (values ++ map (λ a. a.1) added)
      ≡ paired columns values ++ added
paired-append [] [] [] l = refl
paired-append [] [] (a ∷ added) l = ap (λ rest. a ∷ rest) (paired-append [] [] added l)
paired-append [] (v ∷ vs) added l = absurd (omega (arith, l))
paired-append (c ∷ cs) [] added l = absurd (omega (arith, l))
paired-append (c ∷ cs) (v ∷ vs) added l =
    ap (λ rest. (c, v) ∷ rest) (paired-append cs vs added (omega (arith, l)))

extended_length :
    (columns : List (List ℕ)) (values : List Expr) (added : List Addition)
    → length columns ≡ length values
    → length (columns ++ map (λ a. a.0) added) ≡ length (values ++ map (λ a. a.1) added)
extended_length [] [] [] l = refl
extended_length [] [] (a ∷ added) l = ap suc (extended_length [] [] added l)
extended_length [] (v ∷ vs) added l = absurd (omega (arith, l))
extended_length (c ∷ cs) [] added l = absurd (omega (arith, l))
extended_length (c ∷ cs) (v ∷ vs) added l = ap suc (extended_length cs vs added (omega (arith, l)))

module _ (d : Deriving) (config : DatabaseEncryptionConfig) where
  open d use {feature, derived_column, derived_literal, insert_error, update_error}
  open config use {get_column_config}

  -- The additions of an INSERT that is let through.
  extend_insert-mutated :
      (table : List ℕ) (columns : List (List ℕ)) (values : List Expr)
      (r : List (List ℕ) × List Expr)
      → extend_insert d config table columns values ≡ mutated r
      → (added : List Addition) × (length columns ≡ length values)
        × (derive_all d config insert_error table (paired columns values) ≡ mutated added)
        × ((columns ++ map (λ a. a.0) added, values ++ map (λ a. a.1) added) ≡ r)
  unfolding extend_insert
  extend_insert-mutated table columns values r h = go (length columns == length values) refl h
    where
      go :
          (b : Bool)
          → (length columns == length values) ≡ b
          → (if b
              then and_mutate
                  (derive_all d config insert_error table (paired columns values))
                  (λ added.
                    mutated (columns ++ map (λ a. a.0) added, values ++ map (λ a. a.1) added))
              else refused bad_insert)
            ≡ mutated r
          → (added : List Addition) × (length columns ≡ length values)
            × (derive_all d config insert_error table (paired columns values) ≡ mutated added)
            × ((columns ++ map (λ a. a.0) added, values ++ map (λ a. a.1) added) ≡ r)
      go false e h = cc
      go true e h =
          let (added, made, last) =
            and_mutate-mutated (derive_all d config insert_error table (paired columns values)) _ r
              h in
          (added, ground (arith, e), made, mutated-injective _ _ last)

  -- An INSERT that is let through has as many columns as values, and it gives every column the value
  -- that it had, in the same order and in front of what is added.
  pub extend_insert_keeps :
      (table : List ℕ) (columns : List (List ℕ)) (values : List Expr)
      (r : List (List ℕ) × List Expr)
      → extend_insert d config table columns values ≡ mutated r
      → (length r.0 ≡ length r.1)
        × ((added : List Addition) × (paired r.0 r.1 ≡ paired columns values ++ added))
  extend_insert_keeps table columns values r h =
      let (added, same, made, e) = extend_insert-mutated table columns values r h in
      (
        subst (λ (x : List (List ℕ) × List Expr). length x.0 ≡ length x.1) e
            (extended_length columns values added same),
        (
          added,
          subst (λ (x : List (List ℕ) × List Expr). paired x.0 x.1 ≡ paired columns values ++ added)
              e (paired-append columns values added same),
        ),
      )

  -- What an INSERT that is let through assigns was assigned before, or it is a derived column with
  -- the literal that is derived from a given value of a column with the feature.
  pub extend_insert-IsSource :
      (table : List ℕ) (columns : List (List ℕ)) (values : List Expr)
      (r : List (List ℕ) × List Expr) (a : Addition)
      → extend_insert d config table columns values ≡ mutated r
      → Memᴰ a (paired r.0 r.1)
      → Memᴰ a (paired columns values) ⊎ IsSource d config table (paired columns values) a
  extend_insert-IsSource table columns values r a h m =
      let (added, same, made, e) = extend_insert-mutated table columns values r h in
      let whole =
        sym (ap (λ (x : List (List ℕ) × List Expr). paired x.0 x.1) e)
        ∙ paired-append columns values added same in
      elim (Memᴰ.append_cases (paired columns values) (subst (λ xs. Memᴰ a xs) whole m)) [
        | inl kept ↦ inl kept
        | inr new ↦ inr (
            derive_all-IsSource d config insert_error table (paired columns values) added a made
              new)
      ]

  -- In an INSERT that is let through, each given value of a column with the feature has a derived
  -- literal, and the derived column of that column stands beside it.
  pub extend_insert_adds_derived :
      (table : List ℕ) (columns : List (List ℕ)) (values : List Expr)
      (r : List (List ℕ) × List Expr) (column : List ℕ) (value : Expr) (k : ColumnConfig)
      → extend_insert d config table columns values ≡ mutated r
      → configured feature (get_column_config table column) ≡ some k
      → Memᴰ (column, value) (paired columns values)
      → (l : Expr) × (derived_literal k value ≡ some l)
        × Memᴰ (derived_column k, l) (paired r.0 r.1)
  extend_insert_adds_derived table columns values r column value k h has m =
      let (added, same, made, e) = extend_insert-mutated table columns values r h in
      let (l, derived, inside) =
        derive_all_adds d config insert_error table (paired columns values) added column value k
          made has m in
      (
        l,
        derived,
        subst (λ (x : List (List ℕ) × List Expr). Memᴰ (derived_column k, l) (paired x.0 x.1)) e
            (subst (λ xs. Memᴰ (derived_column k, l) xs)
              (sym (paired-append columns values added same))
              (Memᴰ.append_right (paired columns values) inside)),
      )

  -- In an UPDATE that is let through, the assignments stand in front as they were; for each of them
  -- whose column has the feature the derived column is assigned the derived literal; and nothing
  -- else is assigned, whatever stands behind the given assignments is a derived column with the
  -- literal that is derived from a given value of a column with the feature.
  pub extend_update_adds_derived :
      (table : List ℕ) (updates r : List Addition)
      → extend_update d config table updates ≡ mutated r
      → (added : List Addition) × (r ≡ updates ++ added)
        × ((column : List ℕ) (value : Expr) (k : ColumnConfig)
            → configured feature (get_column_config table column) ≡ some k
            → Memᴰ (column, value) updates
            → (l : Expr) × (derived_literal k value ≡ some l) × Memᴰ (derived_column k, l) added)
        × ((a : Addition) → Memᴰ a added → IsSource d config table updates a)
  unfolding extend_update
  extend_update_adds_derived table updates r h =
      let (added, made, last) =
        and_mutate-mutated (derive_all d config update_error table updates) _ r h in
      (
        added,
        sym (mutated-injective _ _ last),
        λ column value k has m.
            derive_all_adds d config update_error table updates added column value k made has m,
        λ a m. derive_all-IsSource d config update_error table updates added a made m,
      )
