-- ===== src/Config/Consistent.antt =====
-- What the mutators need of a column's configuration, and that the one of dummy_config.h has it.
use postgres_tde.Base.{
  Bool, Bool-cases, List, Option, [], ap, arith, false, if◌then◌else◌, inl, inr, length, none, refl,
  some, subst, sym, true, ℕ, ◌==◌, ◌∙◌, ◌∷◌, ◌≡◌, ◌⊎◌,
}
use postgres_tde.Manager.State.{ascii}
use postgres_tde.Sql.Fields.{same_text, find_text}
use postgres_tde.Config.Column.{configured, ColumnConfig, DatabaseEncryptionConfig}
use postgres_tde.Config.Dummy.{
  cities_columns, city2region_columns, column_of, or_else, dummy_config,
}

-- A demand on a column that has a feature.
abbrev pub Featured : Bool → Type 0 → Type 0
Featured true P = P
Featured false P = Unit

-- The configuration of a column of a table: the table is known, the column has its own name, keys
-- have the 32 bytes of AES-256 and HMAC-SHA256, and the derived columns are not configured.
abbrev pub IsUsable : DatabaseEncryptionConfig → List ℕ → List ℕ → ColumnConfig → Type 0
IsUsable config table name column =
    (config.has_tde_enabled table ≡ true)
    × (column.column_name ≡ name)
    × Featured column.is_encrypted (length column.encryption_key ≡ 32)
    × Featured column.has_blind_index (length column.bi_key ≡ 32)
    × Featured column.has_blind_index (config.get_column_config table column.bi_column_name ≡ none)
    × Featured column.has_join (config.get_column_config table column.join_key_column_name ≡ none)

pub same_text_refl : (a : List ℕ) → same_text a a ≡ true
same_text_refl [] = refl
same_text_refl (x ∷ xs) =
    let here : (x == x) ≡ true = ground arith in
    ap (λ b. if b then same_text xs xs else false) here ∙ same_text_refl xs

pub same_text→eq : (a b : List ℕ) → same_text a b ≡ true → a ≡ b
same_text→eq [] [] h = refl
same_text→eq [] (y ∷ ys) h = cc
same_text→eq (x ∷ xs) [] h = cc
same_text→eq (x ∷ xs) (y ∷ ys) h = elim (Bool-cases (x == y)) [
  | inl e ↦
      let rest = sym (ap (λ b. if b then same_text xs ys else false) e) ∙ h in
      let head : x ≡ y = ground (arith, e) in
      ap (λ z. z ∷ xs) head ∙ ap (λ zs. y ∷ zs) (same_text→eq xs ys rest)
  | inr e ↦ absurd (bad (sym (ap (λ b. if b then same_text xs ys else false) e) ∙ h))
]
  where
    bad : false ≡ true → ⊥
    bad e = cc

abbrev EachEntry : (List ℕ → ColumnConfig → Type 0) → List (List ℕ × ColumnConfig) → Type 0
EachEntry P [] = Unit
EachEntry P ((name, column) ∷ rest) = P name column × EachEntry P rest

find_text-EachEntry :
    (P : List ℕ → ColumnConfig → Type 0) (name : List ℕ) (entries : List (List ℕ × ColumnConfig))
    (column : ColumnConfig)
    → EachEntry P entries
    → find_text name entries ≡ some column
    → P name column
find_text-EachEntry P name [] column each h = cc
find_text-EachEntry P name ((key, a) ∷ rest) column each h =
    go (same_text name key) refl (find_text-EachEntry P name rest column each.1) h
  where
    go :
        (b : Bool)
        → same_text name key ≡ b
        → (find_text name rest ≡ some column → P name column)
        → (if b then some a else find_text name rest) ≡ some column
        → P name column
    go true e later h =
        subst (λ c. P name c) (ap (λ (o : Option ColumnConfig). elim o [ none ↦ a | some c ↦ c ]) h)
          (subst (λ n. P n a) (sym (same_text→eq name key e)) each.0)
    go false e later h = later h

column_of-some :
    (this : List ℕ) (columns : List (List ℕ × ColumnConfig)) (table name : List ℕ)
    (column : ColumnConfig)
    → column_of this columns table name ≡ some column
    → (table ≡ this) × (find_text name columns ≡ some column)
column_of-some this columns table name column h = go (same_text table this) refl h
  where
    go :
        (b : Bool)
        → same_text table this ≡ b
        → (if b then find_text name columns else none) ≡ some column
        → (table ≡ this) × (find_text name columns ≡ some column)
    go true e h = (same_text→eq table this e, h)
    go false e h = cc

or_else-some :
    {A : Type 0} (o p : Option A) (a : A) → or_else o p ≡ some a → (o ≡ some a) ⊎ (p ≡ some a)
or_else-some none p a h = inr h
or_else-some (some b) p a h = inl h

cities_columns-IsUsable : EachEntry (IsUsable dummy_config (ascii "cities")) cities_columns
cities_columns-IsUsable = (
  (refl, refl, refl, refl, refl, refl),
  (
    (refl, refl, refl, refl, refl, tt),
    (
      (refl, refl, refl, tt, tt, tt),
      (
        (refl, refl, refl, tt, tt, tt),
        (
          (refl, refl, refl, tt, tt, tt),
          ((refl, refl, refl, tt, tt, tt), ((refl, refl, refl, tt, tt, tt), tt)),
        ),
      ),
    ),
  ),
)

city2region_columns-IsUsable :
    EachEntry (IsUsable dummy_config (ascii "city2region")) city2region_columns
city2region_columns-IsUsable =
    ((refl, refl, refl, tt, tt, refl), ((refl, refl, refl, tt, tt, tt), tt))

-- Whatever column the built-in configuration gives for a table and a name: the table is enabled,
-- the column has that name, its encryption key has 32 bytes, its blind index key too, if it has a
-- blind index, and the names of its blind index column and of its join key column, if it has
-- them, are not configured themselves.
pub dummy_config-IsUsable :
    (table name : List ℕ) (column : ColumnConfig)
    → dummy_config.get_column_config table name ≡ some column
    → IsUsable dummy_config table name column
dummy_config-IsUsable table name column h =
    elim (or_else-some (column_of (ascii "cities") cities_columns table name) _ column h) [
      | inl first ↦
          let (here, found) =
            column_of-some (ascii "cities") cities_columns table name column first in
          subst (λ t. IsUsable dummy_config t name column) (sym here)
            (find_text-EachEntry (IsUsable dummy_config (ascii "cities")) name cities_columns column
              cities_columns-IsUsable found)
      | inr second ↦
          let (here, found) =
            column_of-some (ascii "city2region") city2region_columns table name column second in
          subst (λ t. IsUsable dummy_config t name column) (sym here)
            (find_text-EachEntry (IsUsable dummy_config (ascii "city2region")) name
              city2region_columns column city2region_columns-IsUsable found)
    ]

-- A column that has a feature is configured.
pub configured-some :
    (feature : ColumnConfig → Bool) (o : Option ColumnConfig) (k : ColumnConfig)
    → configured feature o ≡ some k
    → (o ≡ some k) × (feature k ≡ true)
configured-some feature none k h = cc
configured-some feature (some c) k h = go (feature c) refl h
  where
    go :
        (b : Bool)
        → feature c ≡ b
        → (if b then some c else none) ≡ some k
        → (some c ≡ some k) × (feature k ≡ true)
    go true e h = (
      h,
      ap feature (ap (λ (o : Option ColumnConfig). elim o [ none ↦ k | some x ↦ x ]) (sym h)) ∙ e,
    )
    go false e h = cc
