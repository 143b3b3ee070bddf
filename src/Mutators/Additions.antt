-- ===== src/Mutators/Additions.antt =====
-- What the extended INSERT and UPDATE statements hold.
use postgres_tde.Base.{
  Bool, List, Option, [], ap, false, if◌then◌else◌, inl, inr, none, refl, some, subst, sym, true, ℕ,
  ◌∙◌, ◌∷◌, ◌≡◌,
}
use mathlib.Core.List.{Memᴰ}
use mathlib.Core.List.Memᴰ
use postgres_tde.Mutation.{
  mutated, refused, and_mutate, of_option, and_mutate-mutated, mutated-injective,
}
use postgres_tde.Sql.Ast.{Expr, is_literal}
use postgres_tde.Config.Column.{ColumnConfig, DatabaseEncryptionConfig, configured}
use postgres_tde.Mutators.Derived.{Deriving, Addition, derive_value, derive_all}

module _ (d : Deriving) (config : DatabaseEncryptionConfig) where
  open d use {feature, derived_column, derived_literal, insert_error, update_error}
  open config use {get_column_config}

  -- The column of a value, and the value, for which something is added.
  abbrev pub IsSource : List ℕ → List Addition → Addition → Type 0
  IsSource table originals addition =
      (column : List ℕ) × (value : Expr) × (k : ColumnConfig) × Memᴰ (column, value) originals
      × (configured feature (get_column_config table column) ≡ some k)
      × (addition.0 ≡ derived_column k)
      × (derived_literal k value ≡ some addition.1)

  derive_value-some :
      (text : List ℕ) (k : ColumnConfig) (value : Expr) (added : List Addition)
      → derive_value d config text (some k) value ≡ mutated added
      → (l : Expr) × (derived_literal k value ≡ some l) × (added ≡ (derived_column k, l) ∷ [])
  derive_value-some text k value added h = go (is_literal value) (derived_literal k value) refl h
    where
      go :
          (b : Bool) (o : Option Expr)
          → derived_literal k value ≡ o
          → (if b
              then and_mutate (of_option o) (λ l. mutated ((derived_column k, l) ∷ []))
              else refused text)
            ≡ mutated added
          → (l : Expr) × (derived_literal k value ≡ some l) × (added ≡ (derived_column k, l) ∷ [])
      go false o e h = cc
      go true none e h = cc
      go true (some l) e h = (l, e, sym (mutated-injective _ _ h))

  -- A value of a column with the feature is given its addition.
  pub derive_all_adds :
      (text table : List ℕ) (originals added : List Addition) (column : List ℕ) (value : Expr)
      (k : ColumnConfig)
      → derive_all d config text table originals ≡ mutated added
      → configured feature (get_column_config table column) ≡ some k
      → Memᴰ (column, value) originals
      → (l : Expr) × (derived_literal k value ≡ some l) × Memᴰ (derived_column k, l) added
  unfolding derive_all
  derive_all_adds text table [] added column value k h has m = absurd (Memᴰ.not-nil m)
  derive_all_adds text table ((c, v) ∷ rest) added column value k h has m =
      let (one, e₁, h₁) =
        and_mutate-mutated
          (derive_value d config text (configured feature (get_column_config table c)) v) _ added
          h in
      let (more, e₂, last) = and_mutate-mutated (derive_all d config text table rest) _ added h₁ in
      let whole = mutated-injective _ _ last in
      elim (Memᴰ.cases_cons m) [
        | inl here ↦
            let made =
              ap (λ o. derive_value d config text o value) (sym has)
              ∙ ap
                  (λ (p : Addition).
                    derive_value d config text (configured feature (get_column_config table p.0))
                      p.1)
                  here
              ∙ e₁ in
            let (l, made_of, only) = derive_value-some text k value one made in
            (
              l,
              made_of,
              subst (λ bs. Memᴰ (derived_column k, l) bs) whole
                  (Memᴰ.append_left more
                    (subst (λ bs. Memᴰ (derived_column k, l) bs) (sym only) (Memᴰ.head refl))),
            )
        | inr later ↦
            let (l, made_of, inside) =
              derive_all_adds text table rest more column value k e₂ has later in
            (
              l,
              made_of,
              subst (λ bs. Memᴰ (derived_column k, l) bs) whole (Memᴰ.append_right one inside),
            )
      ]

  -- Every addition is for a value of a column with the feature.
  derive_value-IsSource :
      (text table column : List ℕ) (value : Expr) (rest one : List Addition) (addition : Addition)
      → derive_value d config text (configured feature (get_column_config table column)) value
        ≡ mutated one
      → Memᴰ addition one
      → IsSource table ((column, value) ∷ rest) addition
  derive_value-IsSource text table column value rest one addition h m =
      go (configured feature (get_column_config table column)) refl h
    where
      go :
          (o : Option ColumnConfig)
          → configured feature (get_column_config table column) ≡ o
          → derive_value d config text o value ≡ mutated one
          → IsSource table ((column, value) ∷ rest) addition
      go none e h =
          absurd (Memᴰ.not-nil (subst (λ bs. Memᴰ addition bs) (sym (mutated-injective _ _ h)) m))
      go (some k) e h =
          let (l, made, only) = derive_value-some text k value one h in
          let same = Memᴰ.eq_of_singleton (subst (λ bs. Memᴰ addition bs) only m) in
          (
            column,
            value,
            k,
            Memᴰ.head refl,
            e,
            ap (λ (p : Addition). p.0) same,
            made ∙ ap (λ (p : Addition). some p.1) (sym same),
          )

  pub derive_all-IsSource :
      (text table : List ℕ) (originals added : List Addition) (addition : Addition)
      → derive_all d config text table originals ≡ mutated added
      → Memᴰ addition added
      → IsSource table originals addition
  unfolding derive_all
  derive_all-IsSource text table [] added addition h m =
      absurd (Memᴰ.not-nil (subst (λ bs. Memᴰ addition bs) (sym (mutated-injective _ _ h)) m))
  derive_all-IsSource text table ((c, v) ∷ rest) added addition h m =
      let (one, e₁, h₁) =
        and_mutate-mutated
          (derive_value d config text (configured feature (get_column_config table c)) v) _ added
          h in
      let (more, e₂, last) = and_mutate-mutated (derive_all d config text table rest) _ added h₁ in
      elim (Memᴰ.append_cases one
        (subst (λ bs. Memᴰ addition bs) (sym (mutated-injective _ _ last)) m)) [
          | inl here ↦ derive_value-IsSource text table c v rest one addition e₁ here
          | inr later ↦
              let (column, value, k, inside, has, named, made) =
                derive_all-IsSource text table rest more addition e₂ later in
              (column, value, k, Memᴰ.tail inside, has, named, made)
        ]
