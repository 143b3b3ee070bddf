-- ===== src/Encryption/Row.antt =====
-- encryption.cc: `mutateDataRow`.
use postgres_tde.Base.{
  List, Option, [], ap, if◌then◌else◌, length, ltb, none, refl, some, sym, ℕ, ◌∙◌, ◌∷◌, ◌≡◌,
}
use postgres_tde.Manager.State.{ascii}
use postgres_tde.Encryption.Literal.{
  Crypto, IsSound, generate_crypto_string, decrypt_value, decrypt_value-generate_crypto_string,
  generate_crypto_string-length,
}
use postgres_tde.Config.Column.{ColumnConfig}
use postgres_tde.Encryption.Statement.{encrypted_config}
use postgres_tde.Mutation.{Mutated, mutated, refused, aborted, and_mutate}

abbrev pub decryption_failed : List ℕ
decryption_failed = ascii "postgres_tde: decryption failed"

module _ (crypto : Crypto) where
  abbrev decrypted : Option (List ℕ) → Mutated (Option (List ℕ))
  decrypted none = refused decryption_failed
  decrypted (some text) = mutated (some text)

  -- One column. `remove_prefix(2)` is not defined on less than two bytes.
  abbrev pub decrypt_column : Option ColumnConfig → Option (List ℕ) → Mutated (Option (List ℕ))
  decrypt_column none column = mutated column
  decrypt_column (some config) none = mutated none
  decrypt_column (some config) (some value) =
      if ltb (length value) 2 then aborted else decrypted (decrypt_value crypto config value)

  -- The loop over the columns, by `data_row_config_`; the row and the configurations are equally
  -- long, or the access is out of range.
  unfoldable pub mutate_data_row :
      List (Option ColumnConfig) → List (Option (List ℕ)) → Mutated (List (Option (List ℕ)))
  mutate_data_row [] [] = mutated []
  mutate_data_row (config ∷ configs) (column ∷ columns) =
      and_mutate (decrypt_column (encrypted_config config) column)
        (λ first. and_mutate (mutate_data_row configs columns) (λ rest. mutated (first ∷ rest)))
  mutate_data_row [] (column ∷ columns) = aborted
  mutate_data_row (config ∷ configs) [] = aborted

  -- How a column of the table holds a value: as it is, or as the string that the mutator made.
  abbrev pub Stores : Option ColumnConfig → Option (List ℕ) → Option (List ℕ) → Type 0
  Stores none plain stored = stored ≡ plain
  Stores (some config) none stored = stored ≡ none
  Stores (some config) (some text) stored =
      (n : ℕ) × (value : List ℕ) × (generate_crypto_string crypto text config n ≡ some value)
      × (stored ≡ some value)

  abbrev pub StoresAll :
      List (Option ColumnConfig) → List (Option (List ℕ)) → List (Option (List ℕ)) → Type 0
  StoresAll (config ∷ configs) (plain ∷ plains) (stored ∷ row) =
      Stores (encrypted_config config) plain stored × StoresAll configs plains row
  StoresAll [] [] [] = Unit
  StoresAll _ _ _ = ⊥

  decrypt_value_of : ColumnConfig → Option (List ℕ) → Option (List ℕ)
  decrypt_value_of config none = none
  decrypt_value_of config (some value) = decrypt_value crypto config value

  decrypt_column-Stores :
      (sound : IsSound crypto) (config : Option ColumnConfig) (plain stored : Option (List ℕ))
      → Stores config plain stored
      → decrypt_column config stored ≡ mutated plain
  unfolding decrypt_value_of
  decrypt_column-Stores sound none plain stored h = ap mutated h
  decrypt_column-Stores sound (some config) none stored h = ap (decrypt_column (some config)) h
  decrypt_column-Stores sound (some config) (some text) stored (n, value, made, held) =
      let (value', made', d) = decrypt_value-generate_crypto_string crypto sound config text n in
      ap (decrypt_column (some config)) held
      ∙ ap (λ b. if b then aborted else decrypted (decrypt_value crypto config value))
          (generate_crypto_string-length crypto config text n value made)
      ∙ ap decrypted (ap (decrypt_value_of config) (sym made ∙ made') ∙ d)

  -- A row whose encrypted columns are NULL or were written by this mutator is decrypted to the
  -- texts that were encrypted, with its other columns unchanged.
  pub mutate_data_row-StoresAll :
      (sound : IsSound crypto) (configs : List (Option ColumnConfig))
      (plains row : List (Option (List ℕ)))
      → StoresAll configs plains row
      → mutate_data_row configs row ≡ mutated plains
  unfolding mutate_data_row
  mutate_data_row-StoresAll sound [] [] [] h = refl
  mutate_data_row-StoresAll sound (c ∷ cs) (p ∷ ps) (s ∷ ss) h =
      ap
        (λ m.
          and_mutate m
            (λ first. and_mutate (mutate_data_row cs ss) (λ rest. mutated (first ∷ rest))))
        (decrypt_column-Stores sound (encrypted_config c) p s h.0)
      ∙ ap (λ m. and_mutate m (λ rest. mutated (p ∷ rest)))
          (mutate_data_row-StoresAll sound cs ps ss h.1)
  mutate_data_row-StoresAll sound _ _ _ h = absurd h
