-- ===== src/Manager/Stale.antt =====
-- What `MutationManagerImpl` keeps longer than it should: `processCommandComplete` leaves the
-- moved-away rows in `retent_rows_`, and `processQuery` does not reset `retent_row_description_`.
use postgres_tde.Base.{List, Option, [], ap, map, none, refl, some, ℕ, ◌++◌, ◌∙◌, ◌∷◌, ◌≡◌}
use postgres_tde.Message.Format.{Val}
use postgres_tde.Protocol.{
  query_message, row_description_message, command_complete_message, error_response_message, body,
  message,
}
use mathlib.Core.List.{reverse}
use postgres_tde.Manager.Mutator.{Result, ok}
use postgres_tde.Manager.State.{
  RowDescription, Tools, Manager, mutate_description_by, process_query_impl, process_query,
  process_row_description, process_command_complete, process_error_response, completion, completed,
  DataRow, emit_row, described, queried,
}

module _ {Query S : Type 0} (tools : Tools Query S) where
  map_emit-null :
      (rows : List (Option DataRow))
      → map emit_row (map (λ row. none) rows) ≡ map (λ row. none) rows
  map_emit-null [] = refl
  map_emit-null (row ∷ rows) = ap (λ l. none ∷ l) (map_emit-null rows)

  -- When two commands complete with no query between them, as for a simple query of several
  -- statements, and no error is pending, the second completion emits a null pointer for each row
  -- that was retained at the first, and then the completion.
  pub second_completion_emits_null :
      (v w : Val (body command_complete_message)) (m : Manager S)
      → m.error_state ≡ ok
      → (process_command_complete tools w (process_command_complete tools v m).after).emitted
        ≡ map (λ row. none) m.retent_rows ++ some (message command_complete_message w) ∷ []
  unfolding process_command_complete
  second_completion_emits_null v w m h =
      ap
        (λ (r : Result).
          let m' : Manager S = completed r m in
          completion m'.error_state w m'.retent_row_description m'.retent_rows)
        h
      ∙ ap (λ r. completion r w none (map (λ row. none) m.retent_rows)) h
      ∙ ap (λ l. l ++ some (message command_complete_message w) ∷ []) (map_emit-null m.retent_rows)

  -- When the server describes the rows of a query, then fails it, and the next query is accepted
  -- and completes without a description of its own, the completion emits the description of the
  -- first query.
  pub description_outlives_its_query :
      (d d' : RowDescription) (e : Val (body error_response_message)) (q : Val (body query_message))
      (v : Val (body command_complete_message)) (m : Manager S) (s s' : S) (text : List ℕ)
      → mutate_description_by (reverse tools.mutator_chain) d m.mutators ≡ (ok, d', s)
      → process_query_impl tools q.0.value s ≡ (ok, text, s')
      → let before = (process_row_description tools d m).after in
        let failed = (process_error_response tools e before).after in
        let next = process_query tools q failed in
        (process_command_complete tools v next.after).emitted
        ≡ some (message row_description_message d') ∷ some (message command_complete_message v) ∷ []
  unfolding process_row_description process_error_response process_query process_command_complete
  description_outlives_its_query d d' e q v m s s' text hd hq =
      ap
        (λ r.
          let n = process_query tools q (described r m).after in
          (process_command_complete tools v n.after).emitted)
        hd
      ∙ ap
          (λ r.
            let n = queried r q (described (ok, d', s) m).after in
            (process_command_complete tools v n.after).emitted)
          hq
