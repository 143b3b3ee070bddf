-- ===== src/Config/Column.antt =====
-- config/column_config.h and config/database_encryption_config.h.
use postgres_tde.Base.{Bool, List, Option, if◌then◌else◌, none, some, ℕ}

-- `struct ColumnConfig`: what its getters return.
pub record ColumnConfig : Type 0 where
  pub column_name : List ℕ
  pub is_encrypted : Bool
  pub encryption_key : List ℕ
  pub orig_data_type : ℕ
  pub orig_data_size : ℕ
  pub has_blind_index : Bool
  pub bi_column_name : List ℕ
  pub bi_key : List ℕ
  pub has_join : Bool
  pub join_key_column_name : List ℕ

-- `class DatabaseEncryptionConfig`; `none` for a null pointer.
pub record DatabaseEncryptionConfig : Type 0 where
  pub get_column_config : List ℕ → List ℕ → Option ColumnConfig
  pub has_tde_enabled : List ℕ → Bool
  pub join_key_size : ℕ

-- The column is configured and has the feature.
abbrev pub configured : (ColumnConfig → Bool) → Option ColumnConfig → Option ColumnConfig
configured feature none = none
configured feature (some config) = if feature config then some config else none
