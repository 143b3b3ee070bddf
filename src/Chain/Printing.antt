-- ===== src/Chain/Printing.antt =====
-- What the chain of mutators lets through, the printer of dump_visitor.cc prints.
use postgres_tde.Base.{
  Bool, List, [], ap, false, if◌then◌else◌, length, none, some, subst, sym, true, ℕ, ◌==◌, ◌∙◌, ◌≡◌,
}
use postgres_tde.Mutation.{mutated, refused, and_mutate-mutated, mutated-injective}
use postgres_tde.Sql.Ast.{
  Expr, Statement, select_stmt, insert_values, insert_select, update_stmt, delete_stmt, other_stmt,
}
use postgres_tde.Sql.Walk.{visit_query}
use postgres_tde.Sql.Fields.{Walk, Visited, visited, panicked}
use postgres_tde.Sql.Fields as Walk
use postgres_tde.Sql.Dump.{dump_query}
use postgres_tde.Sql.Verdict.{Accepted, Printed}
use postgres_tde.Sql.Queries.{AllListed, visit_query-Printed}
use postgres_tde.Config.Column.{DatabaseEncryptionConfig}
use postgres_tde.Mutators.Literals.{Digests, join_key}
use postgres_tde.Mutators.Passes.{
  to_list, of_list, extend_inserts, extend_updates, of_visited, on_insert, on_update,
}
use postgres_tde.Mutators.Join as Join
use postgres_tde.Mutators.Amend.{amend_query}
use postgres_tde.Mutators.BlindIndex as BlindIndex
use postgres_tde.Encryption.Literal.{Crypto}
use postgres_tde.Encryption.Statement.{
  mutate_values, mutate_insert_statement, mutate_update_statement, bad_insert,
}
use postgres_tde.Encryption.Guard.{encryption_overrides}
use postgres_tde.Encryption.Query as Query
use postgres_tde.Encryption.Query.{encrypt_insert}
use postgres_tde.Encryption.Printable.{
  EachPrinted, all-EachPrinted, EachPrinted-all, mutate_values-EachPrinted,
  mutate_update_statement-Printed,
}
use postgres_tde.Chain.{Fields, mutate_chain}
use postgres_tde.Chain.Statements.{
  each_statement-EachIs, EachIs-AllListed, IsPrinted, EachIs-dump_query, dump_query-EachIs,
  same_IsPrinted, insert_values-Printed, update_stmt-Printed, extend_inserts-IsListed,
  extend_updates-IsListed,
}

module _ (digests : Digests) (crypto : Crypto) (config : DatabaseEncryptionConfig) where
  open config use {get_column_config, join_key_size}

  encrypt_insert-EachPrinted :
      (table : List ℕ) (columns : List (List ℕ)) (values : List Expr) (n : ℕ)
      (r : (List (List ℕ) × List Expr) × ℕ)
      → encrypt_insert crypto config table columns values n ≡ mutated r
      → (r.0.0 ≡ columns) × (EachPrinted values → EachPrinted r.0.1)
  unfolding mutate_insert_statement
  encrypt_insert-EachPrinted table columns values n r h =
      let (x, e, last) =
        and_mutate-mutated (mutate_insert_statement crypto get_column_config table columns values n)
          _ r h in
      let same = mutated-injective _ _ last in
      (
        sym (ap (λ (y : (List (List ℕ) × List Expr) × ℕ). y.0.0) same),
        λ p.
            subst (λ (y : (List (List ℕ) × List Expr) × ℕ). EachPrinted y.0.1) same
              (go (length columns == length values) x e p),
      )
    where
      go :
          (b : Bool) (x : List Expr × ℕ)
          → (if b
              then mutate_values crypto get_column_config table columns values n
              else refused bad_insert)
            ≡ mutated x
          → EachPrinted values
          → EachPrinted x.0
      go false x h p = cc
      go true x h p =
          mutate_values-EachPrinted crypto get_column_config table columns values n x h p

  on_insert-IsPrinted :
      (st : Statement) (n : ℕ) (r : Statement × ℕ)
      → IsPrinted st
      → on_insert (encrypt_insert crypto config) st n ≡ mutated r
      → IsPrinted r.0
  on_insert-IsPrinted (insert_values table (some columns) values) n r p h =
      let (a, e, last) =
        and_mutate-mutated (encrypt_insert crypto config table columns (to_list values) n) _ r h in
      subst (λ (x : Statement × ℕ). IsPrinted x.0) (mutated-injective _ _ last)
        (subst (λ cs. IsPrinted (insert_values table (some cs) (of_list a.0.1)))
          (sym (encrypt_insert-EachPrinted table columns (to_list values) n a e).0)
          (insert_values-Printed table columns values (of_list a.0.1) p (λ all.
            EachPrinted-all a.0.1 (
              (encrypt_insert-EachPrinted table columns (to_list values) n a e).1
                (all-EachPrinted values all)))))
  on_insert-IsPrinted (insert_values table none values) n r p h = cc
  on_insert-IsPrinted (select_stmt q) n r p h = same_IsPrinted (select_stmt q) n r p h
  on_insert-IsPrinted (insert_select table q) n r p h =
      same_IsPrinted (insert_select table q) n r p h
  on_insert-IsPrinted (update_stmt table alias updates condition) n r p h =
      same_IsPrinted (update_stmt table alias updates condition) n r p h
  on_insert-IsPrinted delete_stmt n r p h = same_IsPrinted delete_stmt n r p h
  on_insert-IsPrinted other_stmt n r p h = same_IsPrinted other_stmt n r p h

  on_update-IsPrinted :
      (st : Statement) (n : ℕ) (r : Statement × ℕ)
      → IsPrinted st
      → on_update (mutate_update_statement crypto get_column_config) st n ≡ mutated r
      → IsPrinted r.0
  on_update-IsPrinted (update_stmt table alias updates condition) n r p h =
      let (a, e, last) =
        and_mutate-mutated (mutate_update_statement crypto get_column_config table updates n) _ r
          h in
      subst (λ (x : Statement × ℕ). IsPrinted x.0) (mutated-injective _ _ last)
        (update_stmt-Printed table alias updates a.0 condition p
          (mutate_update_statement-Printed crypto get_column_config table updates n a e))
  on_update-IsPrinted (insert_values table columns values) n r p h =
      same_IsPrinted (insert_values table columns values) n r p h
  on_update-IsPrinted (select_stmt q) n r p h = same_IsPrinted (select_stmt q) n r p h
  on_update-IsPrinted (insert_select table q) n r p h =
      same_IsPrinted (insert_select table q) n r p h
  on_update-IsPrinted delete_stmt n r p h = same_IsPrinted delete_stmt n r p h
  on_update-IsPrinted other_stmt n r p h = same_IsPrinted other_stmt n r p h

  of_visited-Accepted : (v : Visited) (w : Walk) → of_visited v ≡ mutated w → Accepted v
  of_visited-Accepted (visited w') w h = tt
  of_visited-Accepted (Walk.refused e) w h = cc
  of_visited-Accepted panicked w h = cc

  -- The join mutator leaves only INSERTs that list their columns.
  Join-AllListed :
      (q : List Statement) (w : Walk) (r : List Statement × Walk × List Join.Comparison)
      → Join.mutate_query digests config q w ≡ mutated r
      → AllListed r.0
  unfolding Join.mutate_query
  Join-AllListed q w r h =
      let (w', e₁, h₁) =
        and_mutate-mutated (of_visited (visit_query (Join.join_overrides digests config) q w)) _ r
          h in
      let (q₁, e₂, h₂) =
        and_mutate-mutated (amend_query (Join.joins digests config w') q []) _ r h₁ in
      let (q₂, e₃, h₃) =
        and_mutate-mutated (extend_inserts (join_key digests join_key_size) config q₁.0) _ r h₂ in
      let (q₃, e₄, h₄) =
        and_mutate-mutated (extend_updates (join_key digests join_key_size) config q₂.0) _ r h₃ in
      let listed = extend_inserts-IsListed (join_key digests join_key_size) config q₁.0 q₂ e₃ in
      let still =
        extend_updates-IsListed (join_key digests join_key_size) config q₂.0 q₃ listed e₄ in
      subst (λ (x : List Statement × Walk × List Join.Comparison). AllListed x.0)
        (mutated-injective _ _ h₄) (EachIs-AllListed q₃.0 still)

  -- Whatever query the three mutators let through, the printer prints what they made of it: it
  -- neither refuses the query nor ends the program.
  pub mutate_chain-Printed :
      (q : List Statement) (s : Fields) (r : List Statement × Fields)
      → mutate_chain digests crypto config q s ≡ mutated r
      → Printed (dump_query r.0)
  unfolding mutate_chain Query.mutate_query
  mutate_chain-Printed q s r h =
      let (a, e₁, h₁) =
        and_mutate-mutated (BlindIndex.mutate_query digests config q s.blind_index_walk) _ r h in
      let (b, e₂, h₂) =
        and_mutate-mutated (Join.mutate_query digests config a.0 s.join_walk) _ r h₁ in
      let (c, e₃, h₃) =
        and_mutate-mutated (Query.mutate_query crypto config b.0 s.encryption_walk s.vectors) _ r
          h₂ in
      let listed = Join-AllListed a.0 s.join_walk b e₂ in
      let (w', f₁, g₁) =
        and_mutate-mutated
          (of_visited (visit_query (encryption_overrides config) b.0 s.encryption_walk)) _ c e₃ in
      let (q₁, f₂, g₂) = and_mutate-mutated {A = List Statement × ℕ} _ _ c g₁ in
      let (q₂, f₃, g₃) = and_mutate-mutated {A = List Statement × ℕ} _ _ c g₂ in
      let before =
        visit_query-Printed (encryption_overrides config) tt b.0 s.encryption_walk listed
          (of_visited-Accepted _ w' f₁) in
      let inserts =
        each_statement-EachIs IsPrinted IsPrinted _ on_insert-IsPrinted b.0 s.vectors q₁
          (dump_query-EachIs b.0 before) f₂ in
      let updates =
        each_statement-EachIs IsPrinted IsPrinted _ on_update-IsPrinted q₁.0 q₁.1 q₂ inserts f₃ in
      let whole : q₂.0 ≡ r.0 =
        ap (λ (x : List Statement × Walk × ℕ). x.0) (mutated-injective _ _ g₃)
        ∙ ap (λ (x : List Statement × Fields). x.0) (mutated-injective _ _ h₃) in
      subst (λ x. Printed (dump_query x)) whole (EachIs-dump_query q₂.0 updates)
