-- ===== src/Encryption/Printable.antt =====
-- The values that encryption.cc puts into a query are printed wherever the old ones were.
use postgres_tde.Base.{
  Bool, List, Option, [], ap, false, if◌then◌else◌, none, some, subst, suc, true, ℕ, ◌∷◌, ◌≡◌,
}
use mathlib.Core.Option
use postgres_tde.Mutation.{
  of_option-some, mutated, refused, and_mutate, of_option, and_mutate-mutated, mutated-injective,
}
use postgres_tde.Sql.Ast.{
  Expr, literal_float, literal_int, literal_string, literal_null, is_literal, Exprs, no_more,
  and_then,
}
use postgres_tde.Sql.Dump.{comma_before_update, dump_expression, dump_all, dump_updates}
use postgres_tde.Sql.Text.{Dumped, dumped, failed, broken, ◌<<◌, put, comma_before}
use postgres_tde.Sql.Verdict.{
  Printed, then-Printed, comma_before-Printed, comma_before_update-Printed,
}
use postgres_tde.Config.Column.{ColumnConfig}
use postgres_tde.Mutators.Passes.{to_list, of_list}
use postgres_tde.Encryption.Literal.{Crypto, create_encrypted_literal}
use postgres_tde.Encryption.Statement.{
  encrypted_config, mutate_value, mutate_values, mutate_update_statement, only_literals,
  only_literals_in_update,
}

pub then_parts : (a b : Dumped) → Printed (a << b) → Printed a × Printed b
then_parts (dumped a) (dumped b) h = (tt, tt)
then_parts (dumped a) (failed e) h = elim h [ ]
then_parts (dumped a) broken h = elim h [ ]
then_parts (failed e) b h = elim h [ ]
then_parts broken b h = elim h [ ]

abbrev pub EachPrinted : List Expr → Type 0
EachPrinted [] = Unit
EachPrinted (e ∷ es) = Printed (dump_expression e) × EachPrinted es

pub all-EachPrinted : (es : Exprs) → Printed (dump_all es) → EachPrinted (to_list es)
unfolding dump_expression
all-EachPrinted no_more h = tt
all-EachPrinted (and_then e es) h =
    let (first, rest) = then_parts (dump_expression e) _ h in
    (first, all-EachPrinted es (then_parts (comma_before es) _ rest).1)

pub EachPrinted-all : (es : List Expr) → EachPrinted es → Printed (dump_all (of_list es))
unfolding dump_expression
EachPrinted-all [] h = tt
EachPrinted-all (e ∷ es) h = then-Printed (dump_expression e) _ h.0 (
    then-Printed (comma_before (of_list es)) _ (comma_before-Printed (of_list es))
      (EachPrinted-all es h.1))

module _ (crypto : Crypto) (get_column_config : List ℕ → List ℕ → Option ColumnConfig) where
  string-Printed :
      (o : Option (List ℕ)) (sent : Expr)
      → Option.map literal_string o ≡ some sent
      → Printed (dump_expression sent)
  unfolding dump_expression
  string-Printed none sent h = cc
  string-Printed (some text) sent h =
      subst (λ x. Printed (dump_expression x))
        (ap (λ (o : Option Expr). elim o [ none ↦ literal_null | some x ↦ x ]) h) tt

  create_encrypted_literal-Printed :
      (orig : Expr) (k : ColumnConfig) (n : ℕ) (sent : Expr)
      → create_encrypted_literal crypto orig k n ≡ some sent
      → Printed (dump_expression sent)
  unfolding create_encrypted_literal dump_expression
  create_encrypted_literal-Printed literal_null k n sent h =
      subst (λ x. Printed (dump_expression x))
        (ap (λ (o : Option Expr). elim o [ none ↦ literal_null | some x ↦ x ]) h) tt
  create_encrypted_literal-Printed (literal_string text) k n sent h = string-Printed _ sent h
  create_encrypted_literal-Printed (literal_int negative i) k n sent h = string-Printed _ sent h
  create_encrypted_literal-Printed (literal_float bytes text) k n sent h = string-Printed _ sent h
  create_encrypted_literal-Printed _ k n sent h = cc

  mutate_value-Printed :
      (text : List ℕ) (o : Option ColumnConfig) (value : Expr) (n : ℕ) (r : Expr × ℕ)
      → mutate_value crypto get_column_config text o value n ≡ mutated r
      → Printed (dump_expression value)
      → Printed (dump_expression r.0)
  mutate_value-Printed text none value n r h p =
      subst (λ (x : Expr × ℕ). Printed (dump_expression x.0)) (mutated-injective _ _ h) p
  mutate_value-Printed text (some k) value n r h p = go (is_literal value) h
    where
      go :
          (b : Bool)
          → (if b
              then and_mutate
                  (of_option (create_encrypted_literal crypto value k n))
                  (λ sent. mutated (sent, suc n))
              else refused text)
            ≡ mutated r
          → Printed (dump_expression r.0)
      go false h = cc
      go true h =
          let (sent, made, last) =
            and_mutate-mutated (of_option (create_encrypted_literal crypto value k n)) _ r h in
          subst (λ (x : Expr × ℕ). Printed (dump_expression x.0)) (mutated-injective _ _ last)
            (create_encrypted_literal-Printed value k n sent (of_option-some _ sent made))

  pub mutate_values-EachPrinted :
      (table : List ℕ) (columns : List (List ℕ)) (values : List Expr) (n : ℕ) (r : List Expr × ℕ)
      → mutate_values crypto get_column_config table columns values n ≡ mutated r
      → EachPrinted values
      → EachPrinted r.0
  unfolding mutate_values
  mutate_values-EachPrinted table [] values n r h p =
      subst (λ (x : List Expr × ℕ). EachPrinted x.0) (mutated-injective _ _ h) p
  mutate_values-EachPrinted table (c ∷ cs) [] n r h p =
      subst (λ (x : List Expr × ℕ). EachPrinted x.0) (mutated-injective _ _ h) tt
  mutate_values-EachPrinted table (c ∷ cs) (v ∷ vs) n r h p =
      let config = encrypted_config (get_column_config table c) in
      let (one, e₁, h₁) =
        and_mutate-mutated (mutate_value crypto get_column_config only_literals config v n) _ r h in
      let (rest, e₂, h₂) =
        and_mutate-mutated (mutate_values crypto get_column_config table cs vs one.1) _ r h₁ in
      subst (λ (x : List Expr × ℕ). EachPrinted x.0) (mutated-injective _ _ h₂)
        (
          mutate_value-Printed only_literals config v n one e₁ p.0,
          mutate_values-EachPrinted table cs vs one.1 rest e₂ p.1,
        )

  pub mutate_update_statement-Printed :
      (table : List ℕ) (updates : List (List ℕ × Expr)) (n : ℕ) (r : List (List ℕ × Expr) × ℕ)
      → mutate_update_statement crypto get_column_config table updates n ≡ mutated r
      → Printed (dump_updates updates)
      → Printed (dump_updates r.0)
  unfolding mutate_update_statement dump_updates
  mutate_update_statement-Printed table [] n r h p =
      subst (λ (x : List (List ℕ × Expr) × ℕ). Printed (dump_updates x.0)) (mutated-injective _ _ h)
        tt
  mutate_update_statement-Printed table ((c, v) ∷ us) n r h p =
      let config = encrypted_config (get_column_config table c) in
      let (one, e₁, h₁) =
        and_mutate-mutated
          (mutate_value crypto get_column_config only_literals_in_update config v n) _ r h in
      let (rest, e₂, h₂) =
        and_mutate-mutated (mutate_update_statement crypto get_column_config table us one.1) _ r
          h₁ in
      let value = (then_parts (put " = ") _ (then_parts (dumped c) _ p).1).1 in
      let (first, more) = then_parts (dump_expression v) _ value in
      let others = (then_parts (comma_before_update us) _ more).1 in
      subst (λ (x : List (List ℕ × Expr) × ℕ). Printed (dump_updates x.0))
        (mutated-injective _ _ h₂)
        (then-Printed (dumped c) _ tt (
          then-Printed (put " = ") _ tt (
            then-Printed (dump_expression one.0) _
              (mutate_value-Printed only_literals_in_update config v n one e₁ first)
              (then-Printed (comma_before_update rest.0) _ (comma_before_update-Printed rest.0)
                (mutate_update_statement-Printed table us one.1 rest e₂ others)))))
