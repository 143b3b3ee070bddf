-- ===== src/Mutators/Base.antt =====
-- base_mutator.cc: the checks of INSERT statements, and the candidates.
use postgres_tde.Base.{List, Option, if◌then◌else◌, none, some, ℕ}
use postgres_tde.Manager.State.{ascii}
use postgres_tde.Sql.Ast.{Statement, insert_values, insert_select}
use postgres_tde.Config.Column.{DatabaseEncryptionConfig}

abbrev pub columns_required : List ℕ
columns_required =
    ascii "postgres_tde: columns definition for INSERT is required for TDE-enabled tables"

abbrev pub insert_select_unsupported : List ℕ
insert_select_unsupported =
    ascii "postgres_tde: INSERT INTO SELECT is not supported for TDE-enabled tables"

-- The errors of `visitInsertStatement`.
unfoldable pub refuse_insert : DatabaseEncryptionConfig → Statement → Option (List ℕ)
refuse_insert config (insert_values table none values) =
    if config.has_tde_enabled table then some columns_required else none
refuse_insert config (insert_select table s) =
    if config.has_tde_enabled table then some insert_select_unsupported else none
refuse_insert config _ = none
