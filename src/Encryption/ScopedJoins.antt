-- ===== src/Encryption/ScopedJoins.antt =====
-- encryption.cc and visitor.cc: encrypted columns in the conditions of joins, by the tables of the FROM.
use postgres_tde.Base.{
  List, Option, ap, false, none, refl, some, subst, sym, true, ℕ, ◌∙◌, ◌∷◌, ◌≡◌,
}
use postgres_tde.Sql.Ast.{
  TableRef, table_name, table_select, table_join, table_cross_product, Tables, no_tables, table_and,
}
use postgres_tde.Sql.Aliases.{KeepsAliases}
use postgres_tde.Sql.Walk.{visit_maybe, visit_table_ref, visit_tables, visit_select_statement}
use postgres_tde.Sql.Fields.{
  Walk, Visited, visited, find_text, in_join, add_table_alias, table_name_by_alias,
}
use postgres_tde.Config.Column.{DatabaseEncryptionConfig}
use postgres_tde.Encryption.Guard.{IsPlain, maybe-Ends}
use postgres_tde.Encryption.Each.{EachMaybe-map}
use postgres_tde.Encryption.Clauses.{
  and_visit-visited, visited-Accepted, visited-injective, Ends-visited, overrides,
}
use postgres_tde.Encryption.Scopes.{
  Scope, name_of, scope_of, scope_of_tables, Lists, ListsTables, Reflects, table-Reflects, PlainIn,
  IsPlain-PlainIn, JoinsPlain, TablesJoinsPlain,
}

-- A change of other fields.
pub same_aliases :
    (s : Scope) (w w' : Walk) → w'.table_aliases ≡ w.table_aliases → Reflects s w → Reflects s w'
unfolding table_name_by_alias
same_aliases s w w' e r = record {
  known = λ name table h.
      ap (λ l. table_name_by_alias name (record w { table_aliases = l })) e ∙ r.known name table h;
  unknown = λ name n. ap (find_text name) e ∙ r.unknown name n;
}

pub list_aliases :
    (w w' : Walk) (v : Visited)
    → KeepsAliases w v
    → v ≡ visited w'
    → w'.table_aliases ≡ w.table_aliases
list_aliases w w' v k e = subst (KeepsAliases w) e k

module _ (config : DatabaseEncryptionConfig) where
  pub plain_in :
      (s : Scope) (w : Walk)
      → Reflects s w
      → (table : Option (List ℕ)) (column : List ℕ) → IsPlain config w table column
      → PlainIn config s table column
  plain_in s w r table column h = IsPlain-PlainIn config s w table column r h

  -- What a FROM leaves.
  unfoldable pub Left : Scope → Walk → Type 0 → Type 0
  Left s w P = P × Reflects s w × (w.in_select_body ≡ false)

  mutual
    unfolding visit_select_statement scope_of Lists JoinsPlain Left

    pub table-JoinsPlain :
        (t : TableRef) (s : Scope) (w w' : Walk)
        → Lists t s
        → w.in_select_body ≡ false
        → Reflects s w
        → visit_table_ref (overrides config) t w ≡ visited w'
        → Left (scope_of t s) w' (JoinsPlain config t s)
    table-JoinsPlain (table_name table alias) s w w' new out r e =
        subst
          (λ v. Unit × Reflects ((name_of table alias, table) ∷ s) v × (v.in_select_body ≡ false))
          (visited-injective _ _ e) (tt, table-Reflects table alias s w new r, alias_outside alias)
      where
        alias_outside : (a : Option (List ℕ)) → (add_table_alias table a w).in_select_body ≡ false
        alias_outside none = out
        alias_outside (some a) = out
    table-JoinsPlain (table_select q) s w w' new out r e = elim new [ ]
    table-JoinsPlain (table_join left right condition) s w w' new out r e =
        let (w₁, e₁, f₁) = and_visit-visited (visit_table_ref (overrides config) left w) _ w' e in
        let (w₂, e₂, f₂) =
          and_visit-visited (visit_table_ref (overrides config) right w₁) _ w' f₁ in
        let (w₃, e₃, f₃) =
          and_visit-visited (visit_maybe (overrides config) condition (in_join true w₂)) _ w' f₂ in
        let (plain, r₁, out₁) = table-JoinsPlain left s w w₁ new.0 out r e₁ in
        let (plain₁, r₂, out₂) = table-JoinsPlain right (scope_of left s) w₁ w₂ new.1 out₁ r₁ e₂ in
        let (plain₂, ends) =
          maybe-Ends config condition (in_join true w₂) out₂ (visited-Accepted _ w₃ e₃) in
        let same = visited-injective _ _ (sym e₃ ∙ Ends-visited _ (in_join true w₂) ends) in
        let last = visited-injective _ _ f₃ in
        let aliases =
          sym (ap (λ (v : Walk). v.table_aliases) last) ∙ ap (λ (v : Walk). v.table_aliases) same in
        let scope = scope_of right (scope_of left s) in
        (
          (
            plain,
            plain₁,
            EachMaybe-map
                (plain_in scope (in_join true w₂) (same_aliases scope w₂ (in_join true w₂) refl r₂))
                condition plain₂,
          ),
          same_aliases scope w₂ w' aliases r₂,
          sym (ap (λ (v : Walk). v.in_select_body) last)
              ∙ ap (λ (v : Walk). v.in_select_body) same
              ∙ out₂,
        )
    table-JoinsPlain (table_cross_product ts) s w w' new out r e =
        tables-JoinsPlain ts s w w' new out r e

    tables-JoinsPlain :
        (ts : Tables) (s : Scope) (w w' : Walk)
        → ListsTables ts s
        → w.in_select_body ≡ false
        → Reflects s w
        → visit_tables (overrides config) ts w ≡ visited w'
        → Left (scope_of_tables ts s) w' (TablesJoinsPlain config ts s)
    tables-JoinsPlain no_tables s w w' new out r e =
        subst (λ v. Unit × Reflects s v × (v.in_select_body ≡ false)) (visited-injective _ _ e)
          (tt, r, out)
    tables-JoinsPlain (table_and t ts) s w w' new out r e =
        let (w₁, e₁, f₁) = and_visit-visited (visit_table_ref (overrides config) t w) _ w' e in
        let (plain, r₁, out₁) = table-JoinsPlain t s w w₁ new.0 out r e₁ in
        let (plains, r₂, out₂) = tables-JoinsPlain ts (scope_of t s) w₁ w' new.1 out₁ r₁ f₁ in
        ((plain, plains), r₂, out₂)
