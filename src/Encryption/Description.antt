-- ===== src/Encryption/Description.antt =====
-- encryption.cc: `mutateRowDescription`.
use postgres_tde.Base.{
  Bool, List, Option, [], false, if◌then◌else◌, none, refl, some, subst, true, ℕ, ◌∷◌, ◌≡◌,
}
use postgres_tde.Message.Format.{Val}
use postgres_tde.Protocol.{column_description}
use postgres_tde.Sql.Fields.{Walk, ColumnRef, same_text, find_text, ambiguous}
use postgres_tde.Config.Column.{ColumnConfig}
use postgres_tde.Encryption.Statement.{encrypted_config}
use postgres_tde.Mutation.{
  Mutated, mutated, refused, and_mutate, and_mutate-mutated, mutated-injective,
}

abbrev pub Column : Type 0
Column = Val column_description

-- `column_names.find(...)`.
abbrev pub is_known : List ℕ → List (List ℕ) → Bool
is_known name [] = false
is_known name (n ∷ ns) = if same_text name n then true else is_known name ns

-- The type and the size that the column had before it was encrypted.
abbrev pub with_config : Option ColumnConfig → Column → Column
with_config none c = c
with_config (some config) (name, (table, (attribute, (type, (size, rest))))) =
    (name, (table, (attribute, (config.orig_data_type, (config.orig_data_size, rest)))))

-- No two columns have the same name, and none a name that is known.
abbrev pub AreDistinct : List (List ℕ) → List Column → Type 0
AreDistinct known [] = Unit
AreDistinct known (c ∷ cs) = (is_known c.0.value known ≡ false) × AreDistinct (c.0.value ∷ known) cs

-- The fields before the type, and those behind the size, are the same.
abbrev IsKept : Column → Column → Type 0
IsKept (name, (table, (attribute, (type, (size, rest)))))
      (name', (table', (attribute', (type', (size', rest'))))) =
    (name' ≡ name) × (table' ≡ table) × (attribute' ≡ attribute) × (rest' ≡ rest)

-- The type and the size are the given ones.
abbrev HasType : ℕ → ℕ → Column → Type 0
HasType t n (name, (table, (attribute, (type, (size, rest))))) = (type ≡ t) × (size ≡ n)

-- Whether the column is encrypted, its configuration and the column as it came.
abbrev IsTypedBy : Bool → ColumnConfig → Column → Column → Type 0
IsTypedBy true config c c' = HasType config.orig_data_type config.orig_data_size c'
IsTypedBy false config c c' = HasType c.1.1.1.0 c.1.1.1.1.0 c'

abbrev IsTyped : Option ColumnConfig → Column → Column → Type 0
IsTyped none c c' = HasType c.1.1.1.0 c.1.1.1.1.0 c'
IsTyped (some config) c c' = IsTypedBy config.is_encrypted config c c'

with_config-IsKept : (k : Option ColumnConfig) (c : Column) → IsKept c (with_config k c)
with_config-IsKept none c = (refl, refl, refl, refl)
with_config-IsKept (some k) c = (refl, refl, refl, refl)

with_config-IsTyped :
    (k : Option ColumnConfig) (c : Column) → IsTyped k c (with_config (encrypted_config k) c)
with_config-IsTyped none c = (refl, refl)
with_config-IsTyped (some k) c = go k.is_encrypted
  where
    go : (b : Bool) → IsTypedBy b k c (with_config (if b then some k else none) c)
    go true = (refl, refl)
    go false = (refl, refl)

module _ (get_column_config : List ℕ → List ℕ → Option ColumnConfig) where
  -- The configuration of the column that stands behind a name of the result.
  abbrev pub config_of : Option ColumnRef → Option ColumnConfig
  config_of none = none
  config_of (some column) = get_column_config column.0 column.1

  -- The loop over the columns; `known` are the names so far. Beside the columns it gives
  -- `data_row_config_`.
  unfoldable pub mutate_row_description :
      Walk → List (List ℕ) → List Column → Mutated (List Column × List (Option ColumnConfig))
  mutate_row_description w known [] = mutated ([], [])
  mutate_row_description w known (c ∷ cs) =
      let config = config_of (find_text c.0.value w.select_column_aliases) in
      let rest = mutate_row_description w (c.0.value ∷ known) cs in
      if is_known c.0.value known
      then refused (ambiguous c.0.value)
      else and_mutate rest
          (λ r. mutated (with_config (encrypted_config config) c ∷ r.0, config ∷ r.1))

  -- The configuration is that of the column that stands behind a name, if there is one.
  abbrev pub IsConfigOf : Option ColumnRef → Option ColumnConfig → Type 0
  IsConfigOf none k = k ≡ none
  IsConfigOf (some column) k = k ≡ get_column_config column.0 column.1

  -- The columns as they came, those that go on and the configurations, one by one.
  abbrev pub AreDescribed : Walk → List Column → List Column → List (Option ColumnConfig) → Type 0
  AreDescribed w [] [] [] = Unit
  AreDescribed w (c ∷ cs) (c' ∷ cs') (k ∷ ks) =
      (IsConfigOf (find_text c.0.value w.select_column_aliases) k × IsKept c c' × IsTyped k c c')
      × AreDescribed w cs cs' ks
  AreDescribed w _ _ _ = ⊥

  config_of-IsConfigOf : (o : Option ColumnRef) → IsConfigOf o (config_of o)
  config_of-IsConfigOf none = refl
  config_of-IsConfigOf (some column) = refl

  -- When a description is let through, its columns have names of their own. It has as many columns
  -- as before, in the same order, and exactly one configuration for each: that of the column that
  -- the SELECT gave the name to, if it did. Each column keeps its name and its other fields, also
  -- its type and size, except that an encrypted column has the type and the size that the
  -- configuration gives.
  pub mutate_row_description-AreDistinct :
      (w : Walk) (known : List (List ℕ)) (cs : List Column)
      (r : List Column × List (Option ColumnConfig))
      → mutate_row_description w known cs ≡ mutated r
      → AreDistinct known cs × AreDescribed w cs r.0 r.1
  unfolding mutate_row_description
  mutate_row_description-AreDistinct w known [] r h = (
    tt,
    subst (λ (r : List Column × List (Option ColumnConfig)). AreDescribed w [] r.0 r.1)
        (mutated-injective _ _ h) tt,
  )
  mutate_row_description-AreDistinct w known (c ∷ cs) r h =
      go (is_known c.0.value known) refl h
        (mutate_row_description-AreDistinct w (c.0.value ∷ known) cs)
    where
      column : Option ColumnRef
      column = find_text c.0.value w.select_column_aliases

      next :
          List Column × List (Option ColumnConfig)
          → Mutated (List Column × List (Option ColumnConfig))
      next r =
          mutated
            (with_config (encrypted_config (config_of column)) c ∷ r.0, config_of column ∷ r.1)

      go :
          (b : Bool)
          → is_known c.0.value known ≡ b
          → (if b
              then refused (ambiguous c.0.value)
              else and_mutate (mutate_row_description w (c.0.value ∷ known) cs) next)
            ≡ mutated r
          → ((r : List Column × List (Option ColumnConfig))
              → mutate_row_description w (c.0.value ∷ known) cs ≡ mutated r
              → AreDistinct (c.0.value ∷ known) cs × AreDescribed w cs r.0 r.1)
          → AreDistinct known (c ∷ cs) × AreDescribed w (c ∷ cs) r.0 r.1
      go true e h ih = cc
      go false e h ih =
          let (rest, made, last) =
            and_mutate-mutated (mutate_row_description w (c.0.value ∷ known) cs) next r h in
          let (distinct, described) = ih rest made in
          (
            (e, distinct),
            subst
                (λ (r : List Column × List (Option ColumnConfig)). AreDescribed w (c ∷ cs) r.0 r.1)
                (mutated-injective _ _ last)
                (
                  (
                    config_of-IsConfigOf column,
                    with_config-IsKept (encrypted_config (config_of column)) c,
                    with_config-IsTyped (config_of column) c,
                  ),
                  described,
                ),
          )
