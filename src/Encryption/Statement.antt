-- ===== src/Encryption/Statement.antt =====
-- encryption.cc: `mutateInsertStatement` and `mutateUpdateStatement`, for one statement.
use postgres_tde.Base.{
  Bool, Bool-cases, List, Option, [], ap, arith, false, if◌then◌else◌, inl, inr, length, none, refl,
  some, subst, suc, sym, true, ℕ, ◌==◌, ◌∙◌, ◌∷◌, ◌≡◌,
}
use postgres_tde.Manager.State.{ascii}
use postgres_tde.Sql.Ast.{Expr}
use postgres_tde.Mutation.{
  of_option-some, Mutated, mutated, refused, aborted, and_mutate, of_option, and_mutate-mutated,
}
use postgres_tde.Encryption.Literal.{
  Crypto, IsSound, create_encrypted_literal, Encrypts, create_encrypted_literal-Encrypts,
}
use postgres_tde.Config.Column.{ColumnConfig}
use postgres_tde.Sql.Ast.{is_literal}

abbrev pub only_literals : List ℕ
only_literals =
    ascii "postgres_tde: only literals can be used as INSERT values for encrypted columns"

abbrev pub only_literals_in_update : List ℕ
only_literals_in_update =
    ascii "postgres_tde: only literals can be used as UPDATE values for blind-indexed columns"

abbrev pub bad_insert : List ℕ
bad_insert = ascii "postgres_tde: bad INSERT statement"

-- A column that the configuration knows and that is encrypted.
abbrev pub encrypted_config : Option ColumnConfig → Option ColumnConfig
encrypted_config none = none
encrypted_config (some config) = if config.is_encrypted then some config else none

-- `getColumnConfig` is a parameter: the configuration is an interface in the source.
module _ (crypto : Crypto) (get_column_config : List ℕ → List ℕ → Option ColumnConfig) where
  -- One value of the column; `n` counts the vectors that were used.
  abbrev pub mutate_value : List ℕ → Option ColumnConfig → Expr → ℕ → Mutated (Expr × ℕ)
  mutate_value text none value n = mutated (value, n)
  mutate_value text (some config) value n =
      if is_literal value
      then and_mutate (of_option (create_encrypted_literal crypto value config n))
          (λ sent. mutated (sent, suc n))
      else refused text

  -- The loop over the columns, and over the values, of which there are as many.
  unfoldable pub mutate_values : List ℕ → List (List ℕ) → List Expr → ℕ → Mutated (List Expr × ℕ)
  mutate_values table (column ∷ columns) (value ∷ values) n =
      and_mutate
        (mutate_value only_literals (encrypted_config (get_column_config table column)) value n)
        (λ r.
          and_mutate (mutate_values table columns values r.1)
            (λ rest. mutated (r.0 ∷ rest.0, rest.1)))
  mutate_values table [] values n = mutated (values, n)
  mutate_values table (column ∷ columns) [] n = mutated ([], n)

  unfoldable pub mutate_insert_statement :
      List ℕ → List (List ℕ) → List Expr → ℕ → Mutated (List Expr × ℕ)
  unfolding mutate_values
  mutate_insert_statement table columns values n =
      if length columns == length values
      then mutate_values table columns values n
      else refused bad_insert

  unfoldable pub mutate_update_statement :
      List ℕ → List (List ℕ × Expr) → ℕ → Mutated (List (List ℕ × Expr) × ℕ)
  mutate_update_statement table [] n = mutated ([], n)
  mutate_update_statement table ((column, value) ∷ updates) n =
      and_mutate
        (mutate_value only_literals_in_update (encrypted_config (get_column_config table column))
          value n)
        (λ r.
          and_mutate (mutate_update_statement table updates r.1)
            (λ rest. mutated ((column, r.0) ∷ rest.0, rest.1)))

  -- What is sent for a value: the value, unless its column is encrypted.
  abbrev pub Sent : Option ColumnConfig → Expr → Expr → Type 0
  Sent none orig sent = sent ≡ orig
  Sent (some config) orig sent = Encrypts crypto config orig sent

  abbrev pub SentAll : List ℕ → List (List ℕ) → List Expr → List Expr → Type 0
  SentAll table (column ∷ columns) (orig ∷ origs) (sent ∷ sents) =
      Sent (encrypted_config (get_column_config table column)) orig sent
      × SentAll table columns origs sents
  SentAll table [] [] [] = Unit
  SentAll table _ _ _ = ⊥

  abbrev sent_of : Expr → Mutated (Expr × ℕ) → Expr
  sent_of default (mutated r) = r.0
  sent_of default (refused e) = default
  sent_of default aborted = default

  mutate_value-Sent :
      (sound : IsSound crypto) (text : List ℕ) (config : Option ColumnConfig) (orig : Expr) (n : ℕ)
      (r : Expr × ℕ)
      → mutate_value text config orig n ≡ mutated r
      → Sent config orig r.0
  mutate_value-Sent sound text none orig n r h =
      ap (λ (m : Mutated (Expr × ℕ)). sent_of orig m) (sym h)
  mutate_value-Sent sound text (some config) orig n r h = go (is_literal orig) h
    where
      go :
          (b : Bool)
          → (if b
              then and_mutate
                  (of_option (create_encrypted_literal crypto orig config n))
                  (λ sent. mutated (sent, suc n))
              else refused text)
            ≡ mutated r
          → Encrypts crypto config orig r.0
      go false h = cc
      go true h =
          let (sent, made, last) =
            and_mutate-mutated (of_option (create_encrypted_literal crypto orig config n)) _ r h in
          subst (λ x. Encrypts crypto config orig x) (ap (sent_of orig) last)
            (create_encrypted_literal-Encrypts crypto sound config orig n sent
              (of_option-some _ sent made))

  values_of : List Expr → Mutated (List Expr × ℕ) → List Expr
  values_of default (mutated r) = r.0
  values_of default (refused e) = default
  values_of default aborted = default

  mutate_values-SentAll :
      (sound : IsSound crypto) (table : List ℕ) (columns : List (List ℕ)) (values : List Expr)
      (n : ℕ) (r : List Expr × ℕ)
      → length columns ≡ length values
      → mutate_values table columns values n ≡ mutated r
      → SentAll table columns values r.0
  unfolding mutate_values values_of
  mutate_values-SentAll sound table [] [] n r l h =
      subst (λ vs. SentAll table [] [] vs) (ap (values_of []) h) tt
  mutate_values-SentAll sound table [] (v ∷ vs) n r l h = absurd (omega (arith, l))
  mutate_values-SentAll sound table (c ∷ cs) [] n r l h = absurd (omega (arith, l))
  mutate_values-SentAll sound table (c ∷ cs) (v ∷ vs) n r l h =
      let config = encrypted_config (get_column_config table c) in
      let (one, e₁, h₁) = and_mutate-mutated (mutate_value only_literals config v n) _ r h in
      let (rest, e₂, h₂) = and_mutate-mutated (mutate_values table cs vs one.1) _ r h₁ in
      subst (λ sents. SentAll table (c ∷ cs) (v ∷ vs) sents) (ap (values_of []) h₂)
        (
          mutate_value-Sent sound only_literals config v n one e₁,
          mutate_values-SentAll sound table cs vs one.1 rest (omega (arith, l)) e₂,
        )

  -- When an INSERT is let through, what is sent has a value for every column: the given one, if the
  -- column is not encrypted, and else NULL for NULL or a string that decrypts, with the column's
  -- key, to the text of the given literal.
  pub mutate_insert_statement-SentAll :
      (sound : IsSound crypto) (table : List ℕ) (columns : List (List ℕ)) (values : List Expr)
      (n : ℕ) (r : List Expr × ℕ)
      → mutate_insert_statement table columns values n ≡ mutated r
      → SentAll table columns values r.0
  unfolding mutate_insert_statement
  mutate_insert_statement-SentAll sound table columns values n r h =
      elim (Bool-cases (length columns == length values)) [
        | inl e ↦ mutate_values-SentAll sound table columns values n r (ground (arith, e)) (
            sym (ap (λ b. if b then mutate_values table columns values n else refused bad_insert) e)
            ∙ h)
        | inr e ↦
            let refuses =
              ap (λ b. if b then mutate_values table columns values n else refused bad_insert)
                (sym e)
              ∙ h in
            cc
      ]

  abbrev pub UpdatesSent : List ℕ → List (List ℕ × Expr) → List (List ℕ × Expr) → Type 0
  UpdatesSent table ((c, orig) ∷ origs) ((c', sent) ∷ sents) =
      (c' ≡ c)
      × Sent (encrypted_config (get_column_config table c)) orig sent
      × UpdatesSent table origs sents
  UpdatesSent table [] [] = Unit
  UpdatesSent table _ _ = ⊥

  updates_of : Mutated (List (List ℕ × Expr) × ℕ) → List (List ℕ × Expr)
  updates_of (mutated r) = r.0
  updates_of (refused e) = []
  updates_of aborted = []

  -- The same for the assignments of an UPDATE that is let through.
  pub mutate_update_statement-UpdatesSent :
      (sound : IsSound crypto) (table : List ℕ) (updates : List (List ℕ × Expr)) (n : ℕ)
      (r : List (List ℕ × Expr) × ℕ)
      → mutate_update_statement table updates n ≡ mutated r
      → UpdatesSent table updates r.0
  unfolding mutate_update_statement updates_of
  mutate_update_statement-UpdatesSent sound table [] n r h =
      subst (λ us. UpdatesSent table [] us) (ap updates_of h) tt
  mutate_update_statement-UpdatesSent sound table ((c, v) ∷ us) n r h =
      let config = encrypted_config (get_column_config table c) in
      let (one, e₁, h₁) =
        and_mutate-mutated (mutate_value only_literals_in_update config v n) _ r h in
      let (rest, e₂, h₂) = and_mutate-mutated (mutate_update_statement table us one.1) _ r h₁ in
      subst (λ sents. UpdatesSent table ((c, v) ∷ us) sents) (ap updates_of h₂)
        (
          refl,
          mutate_value-Sent sound only_literals_in_update config v n one e₁,
          mutate_update_statement-UpdatesSent sound table us one.1 rest e₂,
        )
