-- ===== src/Encryption/Guard.antt =====
-- encryption.cc: `visitExpression`, which refuses encrypted columns outside of a select body.
use postgres_tde.Base.{
  List, Option, false, if◌then◌else◌, none, refl, some, subst, sym, ℕ, ◌++◌, ◌≡◌,
}
use postgres_tde.Manager.State.{ascii}
use postgres_tde.Sql.Ast.{
  Expr, star, column_ref, literal_float, literal_int, literal_string, literal_null, operator,
  select_expr, array_expr, other_literal, other_expr, MaybeExpr, no_expr, an_expr, Exprs, no_more,
  and_then, MaybeExprs, no_exprs, some_exprs, Shape, binary, prefix, postfix, membership,
  unsupported, shape,
}
use postgres_tde.Encryption.Each.{
  OfShape, OfShape-OfOperator, EachColumn, EachMaybe, EachOf, EachList,
}
use postgres_tde.Sql.Walk.{visit_operator, visit_expression, visit_maybe, visit_all, visit_list}
use postgres_tde.Sql.Fields.{
  Walk, Visited, visited, refused, panicked, and_visit, Guard, guarded, Overrides, takes_nothing,
  taken, no_source, table_name_by_alias, select_column, visit_column,
}
use postgres_tde.Sql.Verdict.{Accepted}
use postgres_tde.Config.Column.{ColumnConfig, DatabaseEncryptionConfig}
use postgres_tde.Mutators.Base.{refuse_insert}
use postgres_tde.Encryption.Statement.{encrypted_config}

abbrev pub invalid_use : List ℕ → List ℕ → List ℕ
invalid_use table column =
    ascii "postgres_tde: invalid use of encrypted column " ++ (table ++ (ascii "." ++ column))

-- A visit that went well and changed nothing.
abbrev pub Ends : Walk → Visited → Type 0
Ends w (visited w') = w' ≡ w
Ends w (refused e) = ⊥
Ends w panicked = ⊥

-- Two visits, one after the other.
and_visit-Ends :
    {P Q : Type 0} (v : Visited) (next : Walk → Visited) (w : Walk)
    → (Accepted v → P × Ends w v)
    → (Accepted (next w) → Q × Ends w (next w))
    → Accepted (and_visit v next)
    → (P × Q) × Ends w (and_visit v next)
and_visit-Ends (visited w') next w first second h =
    let (p, e) = first tt in
    let (q, ends) = second (subst (λ x. Accepted (next x)) e h) in
    ((p, q), subst (λ x. Ends w (next x)) (sym e) ends)
and_visit-Ends (refused e) next w first second h = elim h [ ]
and_visit-Ends panicked next w first second h = elim h [ ]

module _ (config : DatabaseEncryptionConfig) where
  open config use {get_column_config}

  abbrev pub refuse_encrypted : Option ColumnConfig → List ℕ → List ℕ → Option (List ℕ)
  refuse_encrypted none table column = none
  refuse_encrypted (some config) table column = some (invalid_use table column)

  unfoldable pub encryption_guard : Guard
  unfolding table_name_by_alias
  encryption_guard none name w = if w.in_select_body then none else some (no_source name)
  encryption_guard (some table) name w =
      if w.in_select_body
      then none
      else refuse_encrypted
          (encrypted_config (get_column_config (table_name_by_alias table w) name))
          (table_name_by_alias table w) name

  -- `EncryptionMutator` as a visitor.
  abbrev pub encryption_overrides : Overrides
  encryption_overrides = record {
    at_column = encryption_guard;
    taking = takes_nothing;
    at_insert = refuse_insert config;
  }

  -- A column whose table is given and that is not encrypted, by the aliases known so far.
  abbrev pub IsPlain : Walk → Option (List ℕ) → List ℕ → Type 0
  IsPlain w none name = ⊥
  IsPlain w (some table) name =
      encrypted_config (get_column_config (table_name_by_alias table w) name) ≡ none

  abbrev pub HasPlainColumns : Walk → Expr → Type 0
  HasPlainColumns w e = EachColumn (IsPlain w) e

  abbrev pub AllPlain : Walk → Exprs → Type 0
  AllPlain w es = EachOf (IsPlain w) es

  column-IsPlain :
      (w : Walk) (table : Option (List ℕ)) (name : List ℕ) (alias : Option (List ℕ))
      → w.in_select_body ≡ false
      → Accepted (guarded (encryption_guard table name w) (visit_column table name alias w))
      → IsPlain w table name
        × Ends w (guarded (encryption_guard table name w) (visit_column table name alias w))
  unfolding encryption_guard visit_column
  column-IsPlain w none name alias outside = rw outside (λ h. elim h [ ])
  column-IsPlain w (some table) name alias outside =
      let t = table_name_by_alias table w in
      let found = encrypted_config (get_column_config t name) in
      subst
        (λ b.
          let v =
            guarded (if b then none else refuse_encrypted found t name)
              (if b then select_column (t, name) name alias w else visited w) in
          Accepted v → (found ≡ none) × Ends w v)
        (sym outside) (go found)
    where
      go :
          (c : Option ColumnConfig)
          → Accepted (guarded (refuse_encrypted c (table_name_by_alias table w) name) (visited w))
          → (c ≡ none)
            × Ends w (guarded (refuse_encrypted c (table_name_by_alias table w) name) (visited w))
      go none h = (refl, refl)
      go (some c) h = elim h [ ]

  operator-Ends :
      {P Q R : Type 0} (s : Shape) (w : Walk) (expr expr2 exprs : Walk → Visited)
      → (Accepted (expr w) → P × Ends w (expr w))
      → (Accepted (expr2 w) → Q × Ends w (expr2 w))
      → (Accepted (exprs w) → R × Ends w (exprs w))
      → Accepted (visit_operator s expr expr2 exprs w)
      → OfShape s P Q R × Ends w (visit_operator s expr expr2 exprs w)
  operator-Ends binary w expr expr2 exprs p q r h = and_visit-Ends (expr w) expr2 w p q h
  operator-Ends prefix w expr expr2 exprs p q r h = p h
  operator-Ends postfix w expr expr2 exprs p q r h = p h
  operator-Ends membership w expr expr2 exprs p q r h = and_visit-Ends (expr w) exprs w p r h
  operator-Ends unsupported w expr expr2 exprs p q r h = elim h [ ]

  mutual
    unfolding visit_expression EachColumn taken

    pub expression-Ends :
        (e : Expr) (w : Walk)
        → w.in_select_body ≡ false
        → Accepted (visit_expression encryption_overrides e w)
        → HasPlainColumns w e × Ends w (visit_expression encryption_overrides e w)
    expression-Ends star w outside h = elim h [ ]
    expression-Ends (column_ref table name alias) w outside h =
        column-IsPlain w table name alias outside h
    expression-Ends (literal_float bytes text) w outside h = (tt, refl)
    expression-Ends (literal_int negative n) w outside h = (tt, refl)
    expression-Ends (literal_string text) w outside h = (tt, refl)
    expression-Ends literal_null w outside h = (tt, refl)
    expression-Ends (operator op a b es) w outside h =
        let (inside, ends) =
          operator-Ends (shape op) w (visit_maybe encryption_overrides a)
            (visit_maybe encryption_overrides b) (visit_list encryption_overrides es)
            (maybe-Ends a w outside) (maybe-Ends b w outside) (list-Ends es w outside) h in
        (OfShape-OfOperator _ _ _ op inside, ends)
    expression-Ends (select_expr s) w outside h = elim h [ ]
    expression-Ends array_expr w outside h = elim h [ ]
    expression-Ends other_literal w outside h = elim h [ ]
    expression-Ends other_expr w outside h = elim h [ ]

    pub maybe-Ends :
        (e : MaybeExpr) (w : Walk)
        → w.in_select_body ≡ false
        → Accepted (visit_maybe encryption_overrides e w)
        → EachMaybe (IsPlain w) e × Ends w (visit_maybe encryption_overrides e w)
    maybe-Ends no_expr w outside h = elim h [ ]
    maybe-Ends (an_expr e) w outside h = expression-Ends e w outside h

    pub all-Ends :
        (es : Exprs) (w : Walk)
        → w.in_select_body ≡ false
        → Accepted (visit_all encryption_overrides es w)
        → AllPlain w es × Ends w (visit_all encryption_overrides es w)
    all-Ends no_more w outside h = (tt, refl)
    all-Ends (and_then e es) w outside h =
        and_visit-Ends (visit_expression encryption_overrides e w)
          (visit_all encryption_overrides es) w (expression-Ends e w outside)
          (all-Ends es w outside) h

    list-Ends :
        (es : MaybeExprs) (w : Walk)
        → w.in_select_body ≡ false
        → Accepted (visit_list encryption_overrides es w)
        → EachList (IsPlain w) es × Ends w (visit_list encryption_overrides es w)
    list-Ends no_exprs w outside h = elim h [ ]
    list-Ends (some_exprs es) w outside h = all-Ends es w outside h

  -- Outside of a select body, as in a condition, an expression that the encryption mutator's
  -- traversal accepts has no column that is encrypted, at any depth, and none whose table is not
  -- given.
  pub visit_expression-HasPlainColumns :
      (e : Expr) (w : Walk)
      → w.in_select_body ≡ false
      → Accepted (visit_expression encryption_overrides e w)
      → HasPlainColumns w e
  visit_expression-HasPlainColumns e w outside h = (expression-Ends e w outside h).0
