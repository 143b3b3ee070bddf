-- ===== src/Examples/Mutators.antt =====
-- config/dummy_config.h and the three mutators at concrete queries.
use postgres_tde.Base.{List, [], length, refl, some, true, ℕ, ◌++◌, ◌∷◌, ◌≡◌, ◌⊎◌}
use mathlib.Core.List.{Memᴰ}
use postgres_tde.Manager.State.{ascii}
use postgres_tde.Sql.Ast.{Expr, literal_string}
use postgres_tde.Config.Column.{configured, ColumnConfig}
use postgres_tde.Config.Dummy.{
  dummy_config, dummy_column_config, create_key_vec, key1, bi_key1, minus_one,
}
use postgres_tde.Config.Consistent.{IsUsable, dummy_config-IsUsable}
use postgres_tde.Mutators.Derived.{Addition, paired, derive_all, extend_insert, extend_update}
use postgres_tde.Mutators.Literals.{Digests, generate_hmac_string, create_hash_literal, blind_index}
use postgres_tde.Mutators.Additions.{IsSource}
use postgres_tde.Mutators.Rows.{extend_insert-IsSource, extend_update_adds_derived}

-- Digests that only look at lengths, so that keys of texts of one length collide.
abbrev pub short_digests : Digests
short_digests = record {
  sha256_hmac = λ key data_. length data_ ∷ key;
  sha256_digest = λ data_. length data_ ∷ [];
  bytes_to_hex = λ bs. bs;
  int_bytes = λ negative n. n ∷ 0 ∷ 0 ∷ 0 ∷ 0 ∷ 0 ∷ 0 ∷ 0 ∷ [];
}

abbrev pub cities : List ℕ
cities = ascii "cities"

abbrev pub id : List ℕ
id = ascii "id"

abbrev pub id_config : ColumnConfig
id_config =
    dummy_column_config id true (create_key_vec key1) 2950 minus_one true (create_key_vec bi_key1)
      true

dummy_config-IsUsable_example : IsUsable dummy_config cities id id_config
dummy_config-IsUsable_example = dummy_config-IsUsable cities id id_config refl

abbrev pub value : Expr
value = literal_string (ascii "x")

abbrev pub hash : Expr
hash = literal_string (ascii "\\x" ++ 1 ∷ bi_key1)

-- INSERT INTO cities (id) VALUES ('x'), with its blind index, and with its join key.
abbrev pub indexed : List (List ℕ) × List Expr
indexed = (id ∷ ascii "id_bi" ∷ [], value ∷ hash ∷ [])

abbrev pub joined : List (List ℕ) × List Expr
joined = (
  id ∷ ascii "id_bi" ∷ ascii "id_joinkey" ∷ [],
  value ∷ hash ∷ literal_string (ascii "\\x" ++ 1 ∷ []) ∷ [],
)

extend_insert-IsSource_example :
    Memᴰ (ascii "id_bi", hash) (paired (id ∷ []) (value ∷ []))
    ⊎ IsSource
        (blind_index short_digests)
        dummy_config
        cities
        (paired (id ∷ []) (value ∷ []))
        (ascii "id_bi", hash)
unfolding extend_insert derive_all create_hash_literal generate_hmac_string
extend_insert-IsSource_example =
    extend_insert-IsSource (blind_index short_digests) dummy_config cities (id ∷ []) (value ∷ [])
      indexed (ascii "id_bi", hash) refl (Memᴰ.tail (Memᴰ.head refl))

extend_update_adds_derived_example :
    (added : List Addition) × ((id, value) ∷ (ascii "id_bi", hash) ∷ [] ≡ (id, value) ∷ [] ++ added)
    × ((column : List ℕ) (v : Expr) (k : ColumnConfig)
        → configured (λ c. c.has_blind_index) (dummy_config.get_column_config cities column)
          ≡ some k
        → Memᴰ {A = Addition} (column, v) ((id, value) ∷ [])
        → (l : Expr) × (create_hash_literal short_digests k v ≡ some l)
          × Memᴰ {A = Addition} (k.bi_column_name, l) added)
    × ((a : Addition)
        → Memᴰ a added
        → IsSource (blind_index short_digests) dummy_config cities ((id, value) ∷ []) a)
unfolding extend_update derive_all create_hash_literal generate_hmac_string
extend_update_adds_derived_example =
    extend_update_adds_derived (blind_index short_digests) dummy_config cities ((id, value) ∷ [])
      ((id, value) ∷ (ascii "id_bi", hash) ∷ []) refl
