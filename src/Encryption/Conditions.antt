-- ===== src/Encryption/Conditions.antt =====
-- encryption.cc and visitor.cc: the check of encrypted columns in the values of an UPDATE.
use postgres_tde.Base.{List, Option, [], ap, false, none, refl, some, subst, ℕ, ◌∙◌, ◌∷◌, ◌≡◌}
use postgres_tde.Sql.Ast.{Expr}
use postgres_tde.Sql.Walk.{visit_expression, visit_updates}
use postgres_tde.Sql.Fields.{Walk, Visited, visited, and_visit, guarded}
use postgres_tde.Sql.Verdict.{Accepted}
use postgres_tde.Config.Column.{DatabaseEncryptionConfig}
use postgres_tde.Encryption.Guard.{HasPlainColumns, expression-Ends}
use postgres_tde.Encryption.Clauses.{and_visit-Accepted, visited-Accepted, Ends-visited, overrides}

module _ (config : DatabaseEncryptionConfig) where
  abbrev pub UpdatesPlain : Walk → List (List ℕ × Expr) → Type 0
  UpdatesPlain w [] = Unit
  UpdatesPlain w ((column, e) ∷ rest) = HasPlainColumns config w e × UpdatesPlain w rest

  pub updates-UpdatesPlain :
      (us : List (List ℕ × Expr)) (w : Walk)
      → w.in_select_body ≡ false
      → Accepted (visit_updates (overrides config) us w)
      → UpdatesPlain w us × (visit_updates (overrides config) us w ≡ visited w)
  unfolding visit_updates
  updates-UpdatesPlain [] w out h = (tt, refl)
  updates-UpdatesPlain ((column, e) ∷ rest) w out h =
      let (w₁, q, h₁) =
        and_visit-Accepted (visit_expression (overrides config) e w)
          (visit_updates (overrides config) rest) h in
      let (plain, ends) = expression-Ends config e w out (visited-Accepted _ w₁ q) in
      let same = Ends-visited _ w ends in
      let (plains, sames) =
        updates-UpdatesPlain rest w out
          (subst (λ v. Accepted (and_visit v (visit_updates (overrides config) rest))) same h) in
      ((plain, plains), ap (λ v. and_visit v (visit_updates (overrides config) rest)) same ∙ sames)

  pub guarded-visited :
      (refusal : Option (List ℕ)) (v : Visited) (w' : Walk)
      → guarded refusal v ≡ visited w'
      → v ≡ visited w'
  guarded-visited none v w' e = e
  guarded-visited (some t) v w' e = absurd (cc e)
