-- ===== src/Config/Dummy.antt =====
-- config/dummy_config.h.
use postgres_tde.Base.{
  Bool, List, Option, [], false, if◌then◌else◌, none, some, take, true, ℕ, ◌%◌, ◌++◌, ◌^◌, ◌∷◌,
}
use postgres_tde.Manager.State.{ascii}
use postgres_tde.Sql.Fields.{same_text, find_text}
use postgres_tde.Config.Column.{ColumnConfig, DatabaseEncryptionConfig}

abbrev pub key1 : List ℕ
key1 = ascii "ymIuopubnMBxWDGumWqyZYFKyObszrmz"

abbrev pub key2 : List ℕ
key2 = ascii "TexFFNQaLqYvlWqqqffccVUQirOesMEZ"

abbrev pub key3 : List ℕ
key3 = ascii "xGPhTvYGHTEYYsiZvOezhcOsgQOQfMWD"

abbrev pub key4 : List ℕ
key4 = ascii "LNnocxaVcIbLhBoJWcPLzKRhkfUywcLo"

abbrev pub key5 : List ℕ
key5 = ascii "YlRylyTAGqdjqBOUnpoaZAxJYGwopmAf"

abbrev pub key6 : List ℕ
key6 = ascii "pFItaovgXxUEhPqeoHbVWyIZsIcxwvbc"

abbrev pub key7 : List ℕ
key7 = ascii "UtgCnFbaYyhDCdrJqmXsrkAIaGIMvCUS"

abbrev pub key8 : List ℕ
key8 = ascii "HVFNdwhbIciWvlBahtuLEXDvUAmniZPd"

abbrev pub key9 : List ℕ
key9 = ascii "JsBbxBLAILBLeTRDSzFPAweXdVnXMAIL"

abbrev pub bi_key1 : List ℕ
bi_key1 = ascii "jILMFdFDTcuVFCbLZsyIJTpVfQkMolyM"

abbrev pub bi_key2 : List ℕ
bi_key2 = ascii "dqkddOeIPovxhuwwyrEVJcNxcNHZqcea"

abbrev pub empty_key : List ℕ
empty_key = []

abbrev pub create_key_vec : List ℕ → List ℕ
create_key_vec key = take 32 key

-- `DummyColumnConfig`; the size is what an `int32_t` becomes in an `int16_t`.
abbrev pub dummy_column_config :
    List ℕ → Bool → List ℕ → ℕ → ℕ → Bool → List ℕ → Bool → ColumnConfig
dummy_column_config name encrypted key type size blind_index blind_index_key join = record {
  column_name = name;
  is_encrypted = encrypted;
  encryption_key = key;
  orig_data_type = type;
  orig_data_size = size % 2 ^ 16;
  has_blind_index = blind_index;
  bi_column_name = name ++ ascii "_bi";
  bi_key = blind_index_key;
  has_join = join;
  join_key_column_name = name ++ ascii "_joinkey";
}

-- The -1 of an `int32_t`.
abbrev pub minus_one : ℕ
minus_one = 4294967295

-- An entry of the maps, whose key is the column's name.
abbrev pub entry : List ℕ → List ℕ → ℕ → ℕ → Bool → List ℕ → Bool → List ℕ × ColumnConfig
entry name key type size blind_index blind_index_key join =
    (name, dummy_column_config name true key type size blind_index blind_index_key join)

abbrev pub cities_columns : List (List ℕ × ColumnConfig)
cities_columns =
    entry (ascii "id") (create_key_vec key1) 2950 minus_one true (create_key_vec bi_key1) true
    ∷ entry (ascii "name") (create_key_vec key2) 1043 minus_one true (create_key_vec bi_key2) false
    ∷ entry (ascii "kladr_id") (create_key_vec key3) 1043 minus_one false empty_key false
    ∷ entry (ascii "priority") (create_key_vec key4) 23 4 false empty_key false
    ∷ entry (ascii "created_at") (create_key_vec key5) 1114 minus_one false empty_key false
    ∷ entry (ascii "updated_at") (create_key_vec key6) 1114 minus_one false empty_key false
    ∷ entry (ascii "timezone") (create_key_vec key7) 1043 minus_one false empty_key false
    ∷ []

abbrev pub city2region_columns : List (List ℕ × ColumnConfig)
city2region_columns =
    entry (ascii "id") (create_key_vec key8) 2950 minus_one false empty_key true
    ∷ entry (ascii "region") (create_key_vec key9) 1043 minus_one false empty_key false
    ∷ []

-- `table == ... && columns.find(name) != columns.end()`, and the column.
abbrev pub column_of : List ℕ → List (List ℕ × ColumnConfig) → List ℕ → List ℕ → Option ColumnConfig
column_of this columns table name = if same_text table this then find_text name columns else none

abbrev pub or_else : {A : Type 0} → Option A → Option A → Option A
or_else none o = o
or_else (some a) o = some a

-- `DummyConfig`.
abbrev pub dummy_config : DatabaseEncryptionConfig
dummy_config = record {
  get_column_config = λ table name.
      or_else (column_of (ascii "cities") cities_columns table name)
        (column_of (ascii "city2region") city2region_columns table name);
  has_tde_enabled = λ table.
      if same_text table (ascii "cities") then true else same_text table (ascii "city2region");
  join_key_size = 1;
}
