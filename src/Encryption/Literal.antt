-- ===== src/Encryption/Literal.antt =====
-- encryption.cc: `createEncryptedLiteral` and `generateCryptoString`.
use postgres_tde.Base.{
  List, Option, ap, arith, drop, false, length, ltb, none, refl, some, sym, ℕ, ◌++◌, ◌∙◌, ◌≡◌,
}
use mathlib.Core.Option
use postgres_tde.Manager.State.{ascii}
use postgres_tde.Config.Column.{ColumnConfig}
use postgres_tde.Sql.Ast.{Expr, literal_float, literal_int, literal_string, literal_null}
use postgres_tde.Sql.Text.{print_int}
use postgres_tde.Encryption.Aes.{
  Evp, Inverts, aes_cbc_iv_length, aes_encrypt, aes_decrypt, aes_decrypt-aes_encrypt,
}

-- What the mutator calls: BoringSSL; `absl::BytesToHexString` and `absl::HexStringToBytes`;
-- `std::to_string` of a `double`, by its bytes; and the vectors that
-- `RAND_bytes` gives, one after the other.
pub record Crypto : Type 1 where
  pub evp : Evp
  pub bytes_to_hex : List ℕ → List ℕ
  pub hex_to_bytes : List ℕ → List ℕ
  pub to_string : List ℕ → List ℕ
  pub rand : ℕ → List ℕ

-- Hexadecimal digits can be read back, vectors have 16 bytes, and the cipher inverts.
pub record IsSound (crypto : Crypto) : Type 0 where
  pub hex : (bs : List ℕ) → crypto.hex_to_bytes (crypto.bytes_to_hex bs) ≡ bs
  pub vector : (n : ℕ) → length (crypto.rand n) ≡ aes_cbc_iv_length
  pub cipher : Inverts crypto.evp

module _ (crypto : Crypto) where
  open crypto use {evp, bytes_to_hex, hex_to_bytes, to_string, rand}

  -- With the `n`-th vector; `none` where the source ends the program.
  unfoldable pub generate_crypto_string : List ℕ → ColumnConfig → ℕ → Option (List ℕ)
  unfolding aes_encrypt
  generate_crypto_string data_ config n =
      Option.map (λ encrypted. ascii "\\x" ++ bytes_to_hex encrypted)
        (aes_encrypt evp config.encryption_key (rand n) data_)

  -- The text that is encrypted for a literal, if it is one that is.
  abbrev pub literal_text : Expr → Option (List ℕ)
  literal_text (literal_string text) = some text
  literal_text (literal_int negative i) = some (print_int negative i)
  literal_text (literal_float bytes text) = some (to_string bytes)
  literal_text _ = none

  unfoldable pub create_encrypted_literal : Expr → ColumnConfig → ℕ → Option Expr
  unfolding generate_crypto_string
  create_encrypted_literal literal_null config n = some literal_null
  create_encrypted_literal (literal_string text) config n =
      Option.map literal_string (generate_crypto_string text config n)
  create_encrypted_literal (literal_int negative i) config n =
      Option.map literal_string (generate_crypto_string (print_int negative i) config n)
  create_encrypted_literal (literal_float bytes text) config n =
      Option.map literal_string (generate_crypto_string (to_string bytes) config n)
  create_encrypted_literal _ config n = none

  -- `mutateDataRow` at one value: without the two characters in front, from hexadecimal, decrypted.
  unfoldable pub decrypt_value : ColumnConfig → List ℕ → Option (List ℕ)
  unfolding aes_decrypt
  decrypt_value config value = aes_decrypt evp config.encryption_key (hex_to_bytes (drop 2 value))

  -- How an encrypted column's value stands in the query that is sent: NULL for NULL, and else a
  -- string that decrypts to the text of the original.
  abbrev pub Encrypts : ColumnConfig → Expr → Expr → Type 0
  Encrypts config literal_null sent = sent ≡ literal_null
  Encrypts config orig sent =
      (text : List ℕ) × (value : List ℕ) × (literal_text orig ≡ some text)
      × (sent ≡ literal_string value)
      × (decrypt_value config value ≡ some text)

  -- What is put for a text decrypts to it, whatever vector is used.
  pub decrypt_value-generate_crypto_string :
      (sound : IsSound crypto) (config : ColumnConfig) (text : List ℕ) (n : ℕ)
      → (value : List ℕ) × (generate_crypto_string text config n ≡ some value)
        × (decrypt_value config value ≡ some text)
  unfolding generate_crypto_string decrypt_value
  decrypt_value-generate_crypto_string sound config text n =
      let (c, encrypted, decrypted) =
        aes_decrypt-aes_encrypt evp sound.cipher config.encryption_key (rand n) text
          (sound.vector n) in
      (
        ascii "\\x" ++ bytes_to_hex c,
        ap (Option.map (λ encrypted. ascii "\\x" ++ bytes_to_hex encrypted)) encrypted,
        ap (aes_decrypt evp config.encryption_key) (sound.hex c) ∙ decrypted,
      )

  -- It starts with two characters that decryption drops.
  pub generate_crypto_string-length :
      (config : ColumnConfig) (text : List ℕ) (n : ℕ) (value : List ℕ)
      → generate_crypto_string text config n ≡ some value
      → ltb (length value) 2 ≡ false
  unfolding generate_crypto_string
  generate_crypto_string-length config text n value h =
      go (aes_encrypt evp config.encryption_key (rand n) text) h
    where
      go :
          (o : Option (List ℕ))
          → Option.map (λ encrypted. ascii "\\x" ++ bytes_to_hex encrypted) o ≡ some value
          → ltb (length value) 2 ≡ false
      go none e = cc
      go (some c) e =
          ap (λ (o : Option (List ℕ)). elim o [ none ↦ false | some v ↦ ltb (length v) 2 ]) (sym e)
          ∙ (ground arith)

  text-Encrypts :
      (sound : IsSound crypto) (config : ColumnConfig) (orig : Expr) (text : List ℕ) (n : ℕ)
      (sent : Expr)
      → literal_text orig ≡ some text
      → Option.map literal_string (generate_crypto_string text config n) ≡ some sent
      → (t : List ℕ) × (value : List ℕ) × (literal_text orig ≡ some t)
        × (sent ≡ literal_string value)
        × (decrypt_value config value ≡ some t)
  text-Encrypts sound config orig text n sent l h =
      let (value, e, d) = decrypt_value-generate_crypto_string sound config text n in
      (
        text,
        value,
        l,
        ap (λ (o : Option Expr). elim o [ none ↦ literal_null | some x ↦ x ])
            (sym h ∙ ap (Option.map literal_string) e),
        d,
      )

  -- A literal that is encrypted becomes one that the reader of the column can decrypt.
  pub create_encrypted_literal-Encrypts :
      (sound : IsSound crypto) (config : ColumnConfig) (orig : Expr) (n : ℕ) (sent : Expr)
      → create_encrypted_literal orig config n ≡ some sent
      → Encrypts config orig sent
  unfolding create_encrypted_literal
  create_encrypted_literal-Encrypts sound config literal_null n sent h =
      ap (λ (o : Option Expr). elim o [ none ↦ literal_null | some x ↦ x ]) (sym h)
  create_encrypted_literal-Encrypts sound config (literal_string text) n sent h =
      text-Encrypts sound config (literal_string text) text n sent refl h
  create_encrypted_literal-Encrypts sound config (literal_int negative i) n sent h =
      text-Encrypts sound config (literal_int negative i) (print_int negative i) n sent refl h
  create_encrypted_literal-Encrypts sound config (literal_float bytes text) n sent h =
      text-Encrypts sound config (literal_float bytes text) (to_string bytes) n sent refl h
  create_encrypted_literal-Encrypts sound config orig n sent h = cc
