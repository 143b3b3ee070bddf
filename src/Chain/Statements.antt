-- ===== src/Chain/Statements.antt =====
-- What a pass over the statements of a query keeps.
use postgres_tde.Base.{List, Option, [], none, some, subst, ℕ, ◌∷◌, ◌≡◌}
use postgres_tde.Mutation.{Mutated, mutated, and_mutate-mutated, mutated-injective}
use postgres_tde.Sql.Ast.{
  Expr, Exprs, Statement, select_stmt, insert_values, insert_select, update_stmt, delete_stmt,
  other_stmt, MaybeExpr,
}
use postgres_tde.Sql.Dump.{
  dump_names, dump_all, dump_updates, dump_statement, dump_query, dump_where,
}
use postgres_tde.Sql.Text.{dumped, put}
use postgres_tde.Sql.Verdict.{Printed, then-Printed}
use postgres_tde.Sql.Queries.{IsListed, AllListed}
use postgres_tde.Config.Column.{DatabaseEncryptionConfig}
use postgres_tde.Mutators.Passes.{
  to_list, extend_inserts, extend_updates, alone, on_insert, on_update, each_statement,
}
use postgres_tde.Mutators.Derived.{Deriving, extend_insert, extend_update}
use postgres_tde.Encryption.Printable.{then_parts}

abbrev EachIs : (Statement → Type 0) → List Statement → Type 0
EachIs R [] = Unit
EachIs R (st ∷ rest) = R st × EachIs R rest

-- A change of one statement that keeps a property of it keeps it in every statement of a query.
module _ {S : Type 0} (P : Statement → Type 0) (Q : Statement → Type 0)
    (f : Statement → S → Mutated (Statement × S)) where
  pub each_statement-EachIs :
      ((st : Statement) (s : S) (r : Statement × S) → P st → f st s ≡ mutated r → Q r.0)
      → (q : List Statement) (s : S) (r : List Statement × S) → EachIs P q
      → each_statement f q s ≡ mutated r
      → EachIs Q r.0
  unfolding each_statement
  each_statement-EachIs step [] s r p h =
      subst (λ (x : List Statement × S). EachIs Q x.0) (mutated-injective _ _ h) tt
  each_statement-EachIs step (st ∷ rest) s r p h =
      let (first, e₁, h₁) = and_mutate-mutated (f st s) _ r h in
      let (more, e₂, h₂) = and_mutate-mutated (each_statement f rest first.1) _ r h₁ in
      subst (λ (x : List Statement × S). EachIs Q x.0) (mutated-injective _ _ h₂)
        (step st s first p.0 e₁, each_statement-EachIs step rest first.1 more p.1 e₂)

-- A predicate that every statement has, after a change that leaves it as it is.
same_IsListed :
    {S : Type 0} (st : Statement) (s : S) (r : Statement × S)
    → IsListed st
    → mutated (st, s) ≡ mutated r
    → IsListed r.0
same_IsListed st s r l h = subst (λ (x : Statement × _). IsListed x.0) (mutated-injective _ _ h) l

module _ {S : Type 0} where
  -- The loop over the INSERT candidates does not come past one without a list of columns.
  on_insert-IsListed :
      (f : List ℕ → List (List ℕ) → List Expr → S → Mutated ((List (List ℕ) × List Expr) × S))
      (st : Statement) (s : S) (r : Statement × S)
      → Unit {0}
      → on_insert f st s ≡ mutated r
      → IsListed r.0
  on_insert-IsListed f (insert_values table (some columns) values) s r u h =
      let (a, e, last) = and_mutate-mutated (f table columns (to_list values) s) _ r h in
      subst (λ (x : Statement × S). IsListed x.0) (mutated-injective _ _ last) tt
  on_insert-IsListed f (insert_values table none values) s r u h = cc
  on_insert-IsListed f (select_stmt q) s r u h = same_IsListed (select_stmt q) s r tt h
  on_insert-IsListed f (insert_select table q) s r u h =
      same_IsListed (insert_select table q) s r tt h
  on_insert-IsListed f (update_stmt table alias updates condition) s r u h =
      same_IsListed (update_stmt table alias updates condition) s r tt h
  on_insert-IsListed f delete_stmt s r u h = same_IsListed delete_stmt s r tt h
  on_insert-IsListed f other_stmt s r u h = same_IsListed other_stmt s r tt h

  on_update-IsListed :
      (f : List ℕ → List (List ℕ × Expr) → S → Mutated (List (List ℕ × Expr) × S)) (st : Statement)
      (s : S) (r : Statement × S)
      → IsListed st
      → on_update f st s ≡ mutated r
      → IsListed r.0
  on_update-IsListed f (update_stmt table alias updates condition) s r l h =
      let (a, e, last) = and_mutate-mutated (f table updates s) _ r h in
      subst (λ (x : Statement × S). IsListed x.0) (mutated-injective _ _ last) tt
  on_update-IsListed f (insert_values table columns values) s r l h =
      same_IsListed (insert_values table columns values) s r l h
  on_update-IsListed f (select_stmt q) s r l h = same_IsListed (select_stmt q) s r tt h
  on_update-IsListed f (insert_select table q) s r l h =
      same_IsListed (insert_select table q) s r tt h
  on_update-IsListed f delete_stmt s r l h = same_IsListed delete_stmt s r tt h
  on_update-IsListed f other_stmt s r l h = same_IsListed other_stmt s r tt h

pub EachIs-AllListed : (q : List Statement) → EachIs IsListed q → AllListed q
EachIs-AllListed [] h = tt
EachIs-AllListed (st ∷ rest) h = (h.0, EachIs-AllListed rest h.1)

each_unit : (q : List Statement) → EachIs (λ st. Unit {0}) q
each_unit [] = tt
each_unit (st ∷ rest) = (tt, each_unit rest)

abbrev pub IsPrinted : Statement → Type 0
IsPrinted st = Printed (dump_statement st)

pub EachIs-dump_query : (q : List Statement) → EachIs IsPrinted q → Printed (dump_query q)
unfolding dump_query
EachIs-dump_query [] h = tt
EachIs-dump_query (st ∷ rest) h =
    then-Printed (dump_statement st) _ h.0
      (then-Printed (put "; ") _ tt (EachIs-dump_query rest h.1))

pub dump_query-EachIs : (q : List Statement) → Printed (dump_query q) → EachIs IsPrinted q
unfolding dump_query
dump_query-EachIs [] h = tt
dump_query-EachIs (st ∷ rest) h =
    let (first, more) = then_parts (dump_statement st) _ h in
    (first, dump_query-EachIs rest (then_parts (put "; ") _ more).1)

pub same_IsPrinted :
    {S : Type 0} (st : Statement) (s : S) (r : Statement × S)
    → IsPrinted st
    → mutated (st, s) ≡ mutated r
    → IsPrinted r.0
same_IsPrinted st s r p h = subst (λ (x : Statement × _). IsPrinted x.0) (mutated-injective _ _ h) p

pub insert_values-Printed :
    (table : List ℕ) (columns : List (List ℕ)) (old new : Exprs)
    → IsPrinted (insert_values table (some columns) old)
    → (Printed (dump_all old) → Printed (dump_all new))
    → IsPrinted (insert_values table (some columns) new)
unfolding dump_statement
insert_values-Printed table columns old new p values =
    let after_table = (then_parts (dumped table) _ (then_parts (put "INSERT INTO ") _ p).1).1 in
    let names = (then_parts (put " (") _ after_table).1 in
    let after_names = (then_parts (dumped (dump_names columns)) _ names).1 in
    let given = (then_parts (dump_all old) _ (then_parts (put ") VALUES (") _ after_names).1).0 in
    then-Printed (put "INSERT INTO ") _ tt (
      then-Printed (dumped table) _ tt (
        then-Printed (put " (") _ tt (
          then-Printed (dumped (dump_names columns)) _ tt (
            then-Printed (put ") VALUES (") _ tt
              (then-Printed (dump_all new) (put ")") (values given) tt)))))

pub update_stmt-Printed :
    (table : List ℕ) (alias : Option (List ℕ)) (old new : List (List ℕ × Expr))
    (condition : MaybeExpr)
    → IsPrinted (update_stmt table alias old condition)
    → (Printed (dump_updates old) → Printed (dump_updates new))
    → IsPrinted (update_stmt table alias new condition)
unfolding dump_statement
update_stmt-Printed table alias old new condition p updates =
    let after_table = (then_parts (dumped table) _ (then_parts (put "UPDATE ") _ p).1).1 in
    let (given, kept) =
      then_parts (dump_updates old) _ (then_parts (put " SET ") _ after_table).1 in
    then-Printed (put "UPDATE ") _ tt (
      then-Printed (dumped table) _ tt (
        then-Printed (put " SET ") _ tt
          (then-Printed (dump_updates new) (dump_where condition) (updates given) kept)))

pub extend_inserts-IsListed :
    (d : Deriving) (config : DatabaseEncryptionConfig) (q : List Statement)
    (r : List Statement × Unit {0})
    → extend_inserts d config q ≡ mutated r
    → EachIs IsListed r.0
unfolding extend_inserts each_statement
extend_inserts-IsListed d config q r h =
    each_statement-EachIs (λ st. Unit {0}) IsListed
      (on_insert (λ table columns values. alone (extend_insert d config table columns values)))
      (on_insert-IsListed
        (λ table columns values. alone (extend_insert d config table columns values)))
      q tt r (each_unit q) h

pub extend_updates-IsListed :
    (d : Deriving) (config : DatabaseEncryptionConfig) (q : List Statement)
    (r : List Statement × Unit {0})
    → EachIs IsListed q
    → extend_updates d config q ≡ mutated r
    → EachIs IsListed r.0
unfolding extend_updates each_statement
extend_updates-IsListed d config q r l h =
    each_statement-EachIs IsListed IsListed
      (on_update (λ table updates. alone (extend_update d config table updates)))
      (on_update-IsListed (λ table updates. alone (extend_update d config table updates))) q tt r l
      h
