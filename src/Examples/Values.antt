-- ===== src/Examples/Values.antt =====
-- utility_ext_impl.cc and mutators/encryption.cc at concrete values.
use postgres_tde.Base.{
  List, Option, [], ap, arith, drop, drop-append, false, if◌then◌else◌, length, length-append, none,
  refl, some, suc, sym, true, zero, ℕ, ◌%◌, ◌++◌, ◌+◌, ◌-◌, ◌==◌, ◌∙◌, ◌∷◌, ◌≡◌, ◌≤◌,
}
use postgres_tde.Manager.State.{ascii}
use postgres_tde.Sql.Ast.{
  op_equals, Expr, column_ref, select, and_then, no_more, no_groups, no_order, from_table,
  table_join, table_name, Statement, select_stmt, literal_int, literal_string, operator, an_expr,
  no_exprs,
}
use postgres_tde.Sql.Walk.{visit_expression, visit_query}
use postgres_tde.Sql.Fields.{taken, same_text, Walk, visit_column, table_name_by_alias}
use postgres_tde.Examples.Queries.{new_walk}
use postgres_tde.Encryption.Scopes.{Lists}
use postgres_tde.Encryption.Scoped.{StatementIn, visit_query-StatementIn}
use postgres_tde.Encryption.Guard.{encryption_guard}
use postgres_tde.Sql.Text.{digits}
use postgres_tde.Encryption.Aes.{
  Evp, Inverts, Pads, aes_encrypt, aes_decrypt, aes_decrypt-aes_encrypt, aes_encrypt-fits,
}
use mathlib.Core.Option.{some-injective}
use postgres_tde.Encryption.Literal.{
  Crypto, IsSound, create_encrypted_literal, generate_crypto_string,
}
use postgres_tde.Config.Column.{ColumnConfig, DatabaseEncryptionConfig}
use postgres_tde.Encryption.Statement.{
  mutate_values, mutate_insert_statement, mutate_update_statement, SentAll, UpdatesSent,
  mutate_insert_statement-SentAll, mutate_update_statement-UpdatesSent,
}
use postgres_tde.Mutation.{mutated}
use postgres_tde.Encryption.Description.{
  Column, with_config, mutate_row_description, AreDistinct, AreDescribed,
  mutate_row_description-AreDistinct,
}
use postgres_tde.Encryption.Row.{mutate_data_row, mutate_data_row-StoresAll}

-- A cipher that adds the key in front and takes it away again.
abbrev pub prefix_cipher : Evp
prefix_cipher = record {
  Ctx = List ℕ;
  encrypt_init = λ key iv. some key;
  encrypt_update = λ ctx bs. some (ctx, bs);
  encrypt_final = λ ctx. some ctx;
  decrypt_init = λ key iv. some key;
  decrypt_update = λ ctx bs. some ([], drop (length ctx) bs);
  decrypt_final = λ ctx. some ctx;
}

abbrev pub prefix_crypto : Crypto
prefix_crypto = record {
  evp = prefix_cipher;
  bytes_to_hex = λ bs. bs;
  hex_to_bytes = λ bs. bs;
  to_string = λ t. t;
  rand = λ n. 0 ∷ 1 ∷ 2 ∷ 3 ∷ 4 ∷ 5 ∷ 6 ∷ 7 ∷ 8 ∷ 9 ∷ 10 ∷ 11 ∷ 12 ∷ 13 ∷ 14 ∷ n ∷ [];
}

prefix_cipher-Inverts : Inverts prefix_cipher
prefix_cipher-Inverts = record {
  encrypts = λ key iv plain. (key ++ plain, refl);
  undoes = λ key iv plain c e.
      ap (λ (o : Option (List ℕ)). elim o [ none ↦ none | some c' ↦ some (drop (length key) c') ])
        (sym e)
      ∙ ap some (drop-append key plain);
}

pub prefix_crypto-IsSound : IsSound prefix_crypto
prefix_crypto-IsSound = record {
  hex = λ bs. refl;
  vector = λ n. refl;
  cipher = prefix_cipher-Inverts;
}

abbrev key : List ℕ
key = 1 ∷ 2 ∷ []

aes_decrypt-aes_encrypt_example :
    (c : List ℕ) × (aes_encrypt prefix_cipher key (prefix_crypto.rand 0) (5 ∷ 6 ∷ []) ≡ some c)
    × (aes_decrypt prefix_cipher key c ≡ some (5 ∷ 6 ∷ []))
aes_decrypt-aes_encrypt_example =
    aes_decrypt-aes_encrypt prefix_cipher prefix_cipher-Inverts key (prefix_crypto.rand 0)
      (5 ∷ 6 ∷ []) refl

abbrev zeros : ℕ → List ℕ
zeros zero = []
zeros (suc n) = 0 ∷ zeros n

length-zeros : (n : ℕ) → length (zeros n) ≡ n
length-zeros zero = refl
length-zeros (suc n) = omega (arith, length-zeros n)

-- A cipher that pads with zeros.
abbrev padding_cipher : Evp
padding_cipher = record {
  Ctx = ℕ;
  encrypt_init = λ key iv. some 0;
  encrypt_update = λ ctx bs. some (bs, length bs);
  encrypt_final = λ n. some (zeros (16 - n % 16));
  decrypt_init = λ key iv. some 0;
  decrypt_update = λ ctx bs. some (bs, 0);
  decrypt_final = λ ctx. some [];
}

padded-length :
    (plain c : List ℕ)
    → some (plain ++ zeros (16 - length plain % 16)) ≡ some c
    → length c ≡ length plain + (16 - length plain % 16)
padded-length plain c e =
    ap length (sym (some-injective _ _ e))
    ∙ length-append plain (zeros (16 - length plain % 16))
    ∙ ap (λ n. length plain + n) (length-zeros (16 - length plain % 16))

padding_cipher-Pads : Pads padding_cipher
padding_cipher-Pads = record {
  whole_blocks = λ key iv plain c e. omega (arith, padded-length plain c e);
  one_block_more = λ key iv plain c e. omega (arith, padded-length plain c e);
}

aes_encrypt-fits_example : length (0 ∷ 5 ∷ zeros 15) ≤ 1 + 16
unfolding aes_encrypt
aes_encrypt-fits_example =
    aes_encrypt-fits padding_cipher key (0 ∷ []) (5 ∷ []) (0 ∷ 5 ∷ zeros 15) padding_cipher-Pads
      refl

abbrev secret : ColumnConfig
secret = record {
  column_name = ascii "s";
  has_blind_index = false;
  bi_column_name = ascii "s_bi";
  bi_key = [];
  has_join = false;
  join_key_column_name = ascii "s_joinkey";
  is_encrypted = true;
  encryption_key = key;
  orig_data_type = 23;
  orig_data_size = 4;
}

-- Every column named "s" is encrypted.
abbrev configs : List ℕ → List ℕ → Option ColumnConfig
configs table column = elim column [ [] ↦ none | c ∷ cs ↦ if c == b's' then some secret else none ]

abbrev one_table : DatabaseEncryptionConfig
one_table = record {
  get_column_config = configs;
  has_tde_enabled = λ table. same_text table (ascii "t");
  join_key_size = 1;
}

-- What is sent for the number 5.
abbrev sent_five : List ℕ
sent_five = ascii "\\x" ++ (prefix_crypto.rand 0 ++ (key ++ (b'5' ∷ [])))

mutate_insert_statement-SentAll_example :
    SentAll prefix_crypto configs
      (ascii "t")
      (ascii "s" ∷ ascii "a" ∷ [])
      (literal_int false 5 ∷ literal_int false 6 ∷ [])
      (literal_string sent_five ∷ literal_int false 6 ∷ [])
unfolding mutate_insert_statement mutate_values create_encrypted_literal generate_crypto_string
    aes_encrypt digits
mutate_insert_statement-SentAll_example =
    mutate_insert_statement-SentAll prefix_crypto configs prefix_crypto-IsSound (ascii "t")
      (ascii "s" ∷ ascii "a" ∷ []) (literal_int false 5 ∷ literal_int false 6 ∷ []) 0
      (literal_string sent_five ∷ literal_int false 6 ∷ [], 1) refl

mutate_update_statement-UpdatesSent_example :
    UpdatesSent prefix_crypto configs
      (ascii "t")
      ((ascii "s", literal_int false 5) ∷ [])
      ((ascii "s", literal_string sent_five) ∷ [])
unfolding mutate_update_statement create_encrypted_literal generate_crypto_string aes_encrypt digits
mutate_update_statement-UpdatesSent_example =
    mutate_update_statement-UpdatesSent prefix_crypto configs prefix_crypto-IsSound (ascii "t")
      ((ascii "s", literal_int false 5) ∷ []) 0 ((ascii "s", literal_string sent_five) ∷ [], 1) refl

mutate_data_row-StoresAll_example :
    mutate_data_row prefix_crypto
      (some secret ∷ none ∷ some secret ∷ [])
      (some sent_five ∷ some (7 ∷ []) ∷ none ∷ [])
    ≡ mutated (some (ascii "5") ∷ some (7 ∷ []) ∷ none ∷ [])
unfolding generate_crypto_string aes_encrypt
mutate_data_row-StoresAll_example =
    mutate_data_row-StoresAll prefix_crypto prefix_crypto-IsSound
      (some secret ∷ none ∷ some secret ∷ []) (some (ascii "5") ∷ some (7 ∷ []) ∷ none ∷ [])
      (some sent_five ∷ some (7 ∷ []) ∷ none ∷ []) ((0, sent_five, refl, refl), (refl, (refl, tt)))

-- t.a = 5, where only columns named "s" are encrypted.
abbrev plain_condition : Expr
plain_condition =
    operator op_equals (an_expr (column_ref (some (ascii "t")) (ascii "a") none))
      (an_expr (literal_int false 5)) no_exprs

-- SELECT 1 FROM t JOIN u x ON t.a = 5 WHERE t.a = 5
abbrev plain_statement : Statement
plain_statement = select_stmt (
    select false (and_then (literal_int false 1) no_more)
      (from_table (
        table_join (table_name (ascii "t") none) (table_name (ascii "u") (some (ascii "x")))
          (an_expr plain_condition)))
      (an_expr plain_condition) no_groups no_order none)

visit_query-StatementIn_example : StatementIn one_table plain_statement
unfolding taken visit_query visit_expression encryption_guard visit_column table_name_by_alias Lists
visit_query-StatementIn_example =
    visit_query-StatementIn one_table plain_statement new_walk (tt, (refl, tt)) refl tt

-- A walk in which the column "s" of the table "t" was selected.
abbrev selected : Walk
selected = record new_walk { select_column_aliases = (ascii "s", (ascii "t", ascii "s")) ∷ [] }

abbrev column : List ℕ → ℕ → Column
column name type =
    (record { start = 0; end = 0; value = name }, (0, (0, (type, (0, (0, (0, tt)))))))

abbrev described : List Column × List (Option ColumnConfig)
described = (
  with_config (some secret) (column (ascii "s") 17) ∷ column (ascii "a") 25 ∷ [],
  some secret ∷ none ∷ [],
)

mutate_row_description-AreDistinct_example :
    AreDistinct [] (column (ascii "s") 17 ∷ column (ascii "a") 25 ∷ [])
    × AreDescribed configs selected
        (column (ascii "s") 17 ∷ column (ascii "a") 25 ∷ [])
        described.0
        described.1
unfolding mutate_row_description
mutate_row_description-AreDistinct_example =
    mutate_row_description-AreDistinct configs selected []
      (column (ascii "s") 17 ∷ column (ascii "a") 25 ∷ []) described refl
