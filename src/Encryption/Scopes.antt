-- ===== src/Encryption/Scopes.antt =====
-- The tables that the names of a FROM stand for, and `table_aliases_` of visitor.cc behind it.
use postgres_tde.Base.{
  Bool, Bool-cases, List, Option, [], ap, false, if◌then◌else◌, inl, inr, none, some, subst, sym,
  true, ℕ, ◌∙◌, ◌∷◌, ◌≡◌, ◌⊎◌,
}
use postgres_tde.Sql.Ast.{
  TableRef, table_name, table_select, table_join, table_cross_product, Tables, no_tables, table_and,
}
use postgres_tde.Sql.Fields.{Walk, add_table_alias, find_text, same_text, table_name_by_alias}
use postgres_tde.Config.Column.{DatabaseEncryptionConfig}
use postgres_tde.Config.Consistent.{same_text→eq, same_text_refl}
use postgres_tde.Encryption.Statement.{encrypted_config}
use postgres_tde.Encryption.Each.{EachMaybe}
use postgres_tde.Encryption.Guard.{IsPlain}

-- The names by which a FROM refers to its tables, and the tables; the last one is in front.
abbrev pub Scope : Type 0
Scope = List (List ℕ × List ℕ)

-- The scope has the name for the table.
abbrev pub Names : Scope → List ℕ → List ℕ → Type 0
Names [] name table = ⊥
Names ((n, t) ∷ rest) name table = ((name ≡ n) × (table ≡ t)) ⊎ Names rest name table

abbrev pub IsNew : List ℕ → Scope → Type 0
IsNew name [] = Unit
IsNew name ((n, t) ∷ rest) = (same_text n name ≡ false) × IsNew name rest

-- A table is referred to by its alias, or by its own name if it has none.
abbrev pub name_of : List ℕ → Option (List ℕ) → List ℕ
name_of table none = table
name_of table (some alias) = alias

unfoldable mutual
  pub scope_of : TableRef → Scope → Scope
  scope_of (table_name table alias) s = (name_of table alias, table) ∷ s
  scope_of (table_select q) s = s
  scope_of (table_join left right condition) s = scope_of right (scope_of left s)
  scope_of (table_cross_product ts) s = scope_of_tables ts s

  pub scope_of_tables : Tables → Scope → Scope
  scope_of_tables no_tables s = s
  scope_of_tables (table_and t ts) s = scope_of_tables ts (scope_of t s)

-- The FROM has tables only, and no two of them have one name.
unfoldable mutual
  unfolding scope_of

  pub Lists : TableRef → Scope → Type 0
  Lists (table_name table alias) s = IsNew (name_of table alias) s
  Lists (table_select q) s = ⊥
  Lists (table_join left right condition) s = Lists left s × Lists right (scope_of left s)
  Lists (table_cross_product ts) s = ListsTables ts s

  pub ListsTables : Tables → Scope → Type 0
  ListsTables no_tables s = Unit
  ListsTables (table_and t ts) s = Lists t s × ListsTables ts (scope_of t s)

-- The aliases say what the scope says, and nothing of other names.
pub record Reflects (s : Scope) (w : Walk) : Type 0 where
  pub known : (name table : List ℕ) → Names s name table → table_name_by_alias name w ≡ table
  pub unknown : (name : List ℕ) → IsNew name s → find_text name w.table_aliases ≡ none

same_text_sym_false : (a b : List ℕ) → same_text a b ≡ false → same_text b a ≡ false
same_text_sym_false a b h = elim (Bool-cases (same_text b a)) [
  | inl e ↦
      absurd
        (bad (sym (same_text_refl a) ∙ subst (λ x. same_text a x ≡ false) (same_text→eq b a e) h))
  | inr e ↦ e
]
  where
    bad : true ≡ false → ⊥
    bad e = cc

Names-IsNew :
    (s : Scope) (name other table : List ℕ)
    → IsNew name s
    → Names s other table
    → same_text other name ≡ false
Names-IsNew [] name other table new h = elim h [ ]
Names-IsNew ((n, t) ∷ rest) name other table new (inl e) =
    subst (λ x. same_text x name ≡ false) (sym e.0) new.0
Names-IsNew ((n, t) ∷ rest) name other table new (inr h) = Names-IsNew rest name other table new.1 h

pub table-Reflects :
    (table : List ℕ) (alias : Option (List ℕ)) (s : Scope) (w : Walk)
    → IsNew (name_of table alias) s
    → Reflects s w
    → Reflects ((name_of table alias, table) ∷ s) (add_table_alias table alias w)
unfolding table_name_by_alias
table-Reflects table none s w new r = record { known = go; unknown = λ name n. r.unknown name n.1 }
  where
    default : List ℕ → Option (List ℕ) → List ℕ
    default name o = elim o [ none ↦ name | some t ↦ t ]

    go : (name t : List ℕ) → Names ((table, table) ∷ s) name t → table_name_by_alias name w ≡ t
    go name t (inl (e, f)) =
        subst (λ x. table_name_by_alias x w ≡ t) (sym e)
          (ap (default table) (r.unknown table new) ∙ sym f)
    go name t (inr h) = r.known name t h
table-Reflects table (some alias) s w new r = record { known = go; unknown = missing }
  where
    w' : Walk
    w' = add_table_alias table (some alias) w

    pick : List ℕ → Bool → Option (List ℕ)
    pick name b = if b then some table else find_text name w.table_aliases

    default : List ℕ → Option (List ℕ) → List ℕ
    default name o = elim o [ none ↦ name | some t ↦ t ]

    go : (name t : List ℕ) → Names ((alias, table) ∷ s) name t → table_name_by_alias name w' ≡ t
    go name t (inl (e, f)) =
        subst (λ x. table_name_by_alias x w' ≡ t) (sym e)
          (ap (λ b. default alias (pick alias b)) (same_text_refl alias) ∙ sym f)
    go name t (inr h) =
        ap (λ b. default name (pick name b)) (Names-IsNew s alias name t new h) ∙ r.known name t h

    missing :
        (name : List ℕ) → IsNew name ((alias, table) ∷ s) → find_text name w'.table_aliases ≡ none
    missing name n = ap (pick name) (same_text_sym_false alias name n.0) ∙ r.unknown name n.1

module _ (config : DatabaseEncryptionConfig) where
  open config use {get_column_config}

  -- A column whose table is given and that is not encrypted, in the table that the scope has for the
  -- name.
  abbrev pub PlainIn : Scope → Option (List ℕ) → List ℕ → Type 0
  PlainIn s none column = ⊥
  PlainIn s (some name) column =
      (table : List ℕ)
      → Names s name table
      → encrypted_config (get_column_config table column) ≡ none

  pub IsPlain-PlainIn :
      (s : Scope) (w : Walk) (table : Option (List ℕ)) (column : List ℕ)
      → Reflects s w
      → IsPlain config w table column
      → PlainIn s table column
  IsPlain-PlainIn s w none column r h = h
  IsPlain-PlainIn s w (some name) column r h = λ table named.
      subst (λ t. encrypted_config (get_column_config t column) ≡ none) (r.known name table named) h

  -- The conditions of the joins, each with the tables up to it.
  unfoldable mutual
    unfolding scope_of

    pub JoinsPlain : TableRef → Scope → Type 0
    JoinsPlain (table_name table alias) s = Unit
    JoinsPlain (table_select q) s = ⊥
    JoinsPlain (table_join left right condition) s =
        JoinsPlain left s
        × JoinsPlain right (scope_of left s)
        × EachMaybe (PlainIn (scope_of right (scope_of left s))) condition
    JoinsPlain (table_cross_product ts) s = TablesJoinsPlain ts s

    pub TablesJoinsPlain : Tables → Scope → Type 0
    TablesJoinsPlain no_tables s = Unit
    TablesJoinsPlain (table_and t ts) s = JoinsPlain t s × TablesJoinsPlain ts (scope_of t s)
