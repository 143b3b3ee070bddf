-- ===== src/Chain/Insert.antt =====
-- An INSERT on its way through the three mutators.
use postgres_tde.Base.{List, Option, [], ap, inl, inr, none, some, subst, sym, ℕ, ◌∙◌, ◌∷◌, ◌≡◌}
use mathlib.Core.List.{Memᴰ}
use mathlib.Core.List.Memᴰ
use postgres_tde.Mutation.{mutated, and_mutate, of_option}
use postgres_tde.Sql.Ast.{Expr, column_ref}
use postgres_tde.Sql.Fields.{Walk, table_name_by_alias}
use postgres_tde.Config.Column.{ColumnConfig, DatabaseEncryptionConfig, configured}
use postgres_tde.Config.Consistent.{configured-some, Featured, IsUsable}
use postgres_tde.Mutators.Derived.{Deriving, Addition, paired, extend_insert}
use postgres_tde.Mutators.Literals.{Digests, create_hash_literal, blind_index, join_key}
use postgres_tde.Mutators.Rows.{extend_insert_keeps, extend_insert_adds_derived}
use postgres_tde.Mutators.BlindIndex.{index_of, compare_with, mutate_comparison}
use postgres_tde.Encryption.Literal.{Crypto, IsSound, Encrypts}
use postgres_tde.Encryption.Statement.{
  encrypted_config, mutate_insert_statement, Sent, SentAll, mutate_insert_statement-SentAll,
}

module _ (digests : Digests) (crypto : Crypto) (config : DatabaseEncryptionConfig) where
  open config use {get_column_config, join_key_size}

  -- A pair of a column and a value is kept by the mutator of derived columns.
  extend_insert-Memᴰ :
      (d : Deriving) (table : List ℕ) (columns : List (List ℕ)) (values : List Expr)
      (r : List (List ℕ) × List Expr) (a : Addition)
      → extend_insert d config table columns values ≡ mutated r
      → Memᴰ a (paired columns values)
      → Memᴰ a (paired r.0 r.1)
  extend_insert-Memᴰ d table columns values r a h m =
      let (lengths, (added, e)) = extend_insert_keeps d config table columns values r h in
      subst (λ xs. Memᴰ a xs) (sym e) (Memᴰ.append_left added m)

  SentAll-Memᴰ :
      (table : List ℕ) (columns : List (List ℕ)) (values sents : List Expr) (column : List ℕ)
      (value : Expr)
      → SentAll crypto get_column_config table columns values sents
      → Memᴰ (column, value) (paired columns values)
      → (sent : Expr) × Memᴰ (column, sent) (paired columns sents)
        × Sent crypto get_column_config
            (encrypted_config (get_column_config table column))
            value
            sent
  SentAll-Memᴰ table [] values sents column value all m = absurd (Memᴰ.not-nil m)
  SentAll-Memᴰ table (c ∷ cs) [] sents column value all m = absurd (Memᴰ.not-nil m)
  SentAll-Memᴰ table (c ∷ cs) (v ∷ vs) [] column value all m = absurd all
  SentAll-Memᴰ table (c ∷ cs) (v ∷ vs) (s ∷ ss) column value all m = elim (Memᴰ.cases_cons m) [
    | inl here ↦ (
      s,
      Memᴰ.head (ap (λ (p : Addition). (p.0, s)) here),
      subst
          (λ (p : Addition).
            Sent crypto get_column_config (encrypted_config (get_column_config table p.0)) p.1 s)
          (sym here) all.0,
    )
    | inr later ↦
        let (sent, inside, e) = SentAll-Memᴰ table cs vs ss column value all.1 later in
        (sent, Memᴰ.tail inside, e)
  ]

  -- A value that an INSERT gives to a blind-indexed column. When the three mutators, one after the
  -- other, let the INSERT through, what is sent has the hash of the given value, before it was
  -- encrypted, beside the blind index column, unchanged by the two later mutators. The configuration
  -- of the column has to be usable.
  pub inserted_value_indexed :
      (sound : IsSound crypto) (table : List ℕ) (columns : List (List ℕ)) (values : List Expr)
      (r₁ r₂ : List (List ℕ) × List Expr) (n : ℕ) (r₃ : List Expr × ℕ) (column : List ℕ)
      (value : Expr) (k : ColumnConfig)
      → extend_insert (blind_index digests) config table columns values ≡ mutated r₁
      → extend_insert (join_key digests join_key_size) config table r₁.0 r₁.1 ≡ mutated r₂
      → mutate_insert_statement crypto get_column_config table r₂.0 r₂.1 n ≡ mutated r₃
      → configured (λ c. c.has_blind_index) (get_column_config table column) ≡ some k
      → IsUsable config table column k
      → Memᴰ (column, value) (paired columns values)
      → (h : Expr) × (create_hash_literal digests k value ≡ some h)
        × Memᴰ (k.bi_column_name, h) (paired r₂.0 r₃.0)
  inserted_value_indexed sound table columns values r₁ r₂ n r₃ column value k h₁ h₂ h₃ has usable
        m =
      let (found, indexed) =
        configured-some (λ c. c.has_blind_index) (get_column_config table column) k has in
      let (h, made, first) =
        extend_insert_adds_derived (blind_index digests) config table columns values r₁ column value
          k h₁ has m in
      let second =
        extend_insert-Memᴰ (join_key digests join_key_size) table r₁.0 r₁.1 r₂ (k.bi_column_name, h)
          h₂ first in
      let all =
        mutate_insert_statement-SentAll crypto get_column_config sound table r₂.0 r₂.1 n r₃ h₃ in
      let (sent, third, e) = SentAll-Memᴰ table r₂.0 r₂.1 r₃.0 k.bi_column_name h all second in
      let unknown : get_column_config table k.bi_column_name ≡ none =
        subst (λ b. Featured b (get_column_config table k.bi_column_name ≡ none)) indexed
          usable.4 in
      let plain : sent ≡ h =
        subst (λ o. Sent crypto get_column_config (encrypted_config o) h sent) unknown e in
      (h, made, subst (λ x. Memᴰ (k.bi_column_name, x) (paired r₂.0 r₃.0)) plain third)

  -- A value that an INSERT gives to an encrypted column is sent, when the three mutators let the
  -- INSERT through, as NULL for NULL and else as a string that decrypts to its text.
  pub inserted_value-Encrypts :
      (sound : IsSound crypto) (table : List ℕ) (columns : List (List ℕ)) (values : List Expr)
      (r₁ r₂ : List (List ℕ) × List Expr) (n : ℕ) (r₃ : List Expr × ℕ) (column : List ℕ)
      (value : Expr) (k : ColumnConfig)
      → extend_insert (blind_index digests) config table columns values ≡ mutated r₁
      → extend_insert (join_key digests join_key_size) config table r₁.0 r₁.1 ≡ mutated r₂
      → mutate_insert_statement crypto get_column_config table r₂.0 r₂.1 n ≡ mutated r₃
      → encrypted_config (get_column_config table column) ≡ some k
      → Memᴰ (column, value) (paired columns values)
      → (sent : Expr) × Memᴰ (column, sent) (paired r₂.0 r₃.0) × Encrypts crypto k value sent
  inserted_value-Encrypts sound table columns values r₁ r₂ n r₃ column value k h₁ h₂ h₃ has m =
      let first =
        extend_insert-Memᴰ (blind_index digests) table columns values r₁ (column, value) h₁ m in
      let second =
        extend_insert-Memᴰ (join_key digests join_key_size) table r₁.0 r₁.1 r₂ (column, value) h₂
          first in
      let all =
        mutate_insert_statement-SentAll crypto get_column_config sound table r₂.0 r₂.1 n r₃ h₃ in
      let (sent, third, e) = SentAll-Memᴰ table r₂.0 r₂.1 r₃.0 column value all second in
      (sent, third, subst (λ o. Sent crypto get_column_config o value sent) has e)

  -- An INSERT gives a blind-indexed column a value and is extended by the blind index mutator. A
  -- query that compares the column, by an alias that stands for the table, with the same literal is
  -- changed to compare the blind index column with the very literal that the INSERT sends for it.
  pub comparison_finds_inserted :
      (table : List ℕ) (columns : List (List ℕ)) (values : List Expr)
      (r : List (List ℕ) × List Expr) (column : List ℕ) (value : Expr) (k : ColumnConfig) (w : Walk)
      (alias : List ℕ) (name : Option (List ℕ))
      → extend_insert (blind_index digests) config table columns values ≡ mutated r
      → configured (λ c. c.has_blind_index) (get_column_config table column) ≡ some k
      → Memᴰ (column, value) (paired columns values)
      → table_name_by_alias alias w ≡ table
      → (h : Expr) × Memᴰ (k.bi_column_name, h) (paired r.0 r.1)
        × (mutate_comparison digests config w (column_ref (some alias) column name) value
            ≡ mutated (column_ref (some alias) k.bi_column_name name, h))
  unfolding mutate_comparison
  comparison_finds_inserted table columns values r column value k w alias name h₁ has m named =
      let (h, made, inside) =
        extend_insert_adds_derived (blind_index digests) config table columns values r column value
          k h₁ has m in
      let here : index_of digests config w alias column ≡ some k =
        ap (λ t. configured (λ c. c.has_blind_index) (get_column_config t column)) named ∙ has in
      (
        h,
        inside,
        ap
              (λ o.
                compare_with digests config o (column_ref (some alias) column name) value alias
                  name)
              here
            ∙ ap
                (λ o.
                  and_mutate (of_option o)
                    (λ l. mutated (column_ref (some alias) k.bi_column_name name, l)))
                made,
      )
